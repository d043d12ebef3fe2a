-- ===== src/Daemon/Tests.antt =====
-- Examples of the daemon.
use periodic.Prelude.{◌≤◌, ◌≡◌, ◌↔◌, refl, true, some, List, [], ◌∷◌, Text, codes, length, All}
use periodic.Run.{Run, returns, stuck}
use periodic.Config.Model.{EffectiveJob, MissedRunPolicy}
use periodic.Config.Parse.{contains}
use periodic.Chrono.Fixed.{fixed}
use periodic.Scheduler.WallClock.{resolve_timezone, resolve_wall_clock}
use periodic.Scheduler.Engine.{next_occurrence, next_minute_aligned, occurrence_at, new_occurrence}
use periodic.Scheduler.Table.{DueRun, next_of}
use periodic.Store.Model.{Store}
use periodic.Store.Runs.{create_run, recover_interrupted_runs}
use periodic.Store.Jobs.{last_success_at}
use periodic.Store.Keys.{Claimed}
use periodic.Store.Liveness.{DaemonStatus}
use periodic.Daemon.{
  from_status, RunHandle, dispatch_missed, dispatch_due, apply_policy, missed_loop,
  missed_occurrences, handle_missed_job,
}
use periodic.Daemon.Missed.{allowed, handle_missed_job-allowed}
use periodic.Daemon.Starts.{StartsOne, dispatch_due-StartsOne}
use periodic.Daemon.Sleep.{IsLive, from_status-IsLive}
use periodic.Samples.{empty_store, poll}

abbrev due : List DueRun
due = record { job = poll; occurrence_key = codes "k"; scheduled_for = 9 } ∷ []

abbrev sha : Text → Text
sha t = t

-- The first dispatch starts the run.
abbrev started : Store
started = (dispatch_due fixed sha due [] 9 empty_store).1

starts : length (dispatch_due fixed sha due [] 9 empty_store).0 ≡ 1
unfolding dispatch_due create_run contains
starts = refl

started-Claimed : Claimed (codes "k") started
unfolding dispatch_due create_run contains
started-Claimed = refl

abbrev restarted : Store
restarted = (recover_interrupted_runs (codes "t") started).1

abbrev status : DaemonStatus
status = record { pid = 7; state = codes "running"; heartbeat = 100 }

from_status-IsLive_example : ((from_status (some status) 200).running ≡ true) ↔ IsLive 200 status
from_status-IsLive_example = from_status-IsLive status 200

-- The job runs once for all that it missed in a day.
abbrev catch_up : EffectiveJob
catch_up = record poll { missed_run_policy = MissedRunPolicy.run_once }

abbrev result_of : Run (List RunHandle × Store) → List RunHandle × Store
result_of (returns r) = r
result_of stuck = ([], empty_store)

abbrev caught : List RunHandle × Store
caught = result_of (handle_missed_job fixed sha 100 catch_up catch_up.id 1900000000000 empty_store)

catches :
    handle_missed_job fixed sha 100 catch_up catch_up.id 1900000000000 empty_store
    ≡ returns (caught.0, caught.1)
unfolding missed_occurrences missed_loop apply_policy dispatch_missed create_run last_success_at
    next_of next_occurrence next_minute_aligned resolve_wall_clock resolve_timezone occurrence_at
    new_occurrence
catches = refl

catches_one : length caught.0 ≡ 1
unfolding missed_occurrences missed_loop apply_policy dispatch_missed create_run last_success_at
    next_of next_occurrence next_minute_aligned resolve_wall_clock resolve_timezone occurrence_at
    new_occurrence
catches_one = refl

handle_missed_job-allowed_example : length caught.0 ≤ allowed MissedRunPolicy.run_once
handle_missed_job-allowed_example =
    handle_missed_job-allowed fixed sha 100 catch_up catch_up.id 1900000000000 empty_store caught.1
      caught.0 catches

dispatch_due-StartsOne_example :
    All (λ h. StartsOne [] started h due) (dispatch_due fixed sha due [] 9 empty_store).0
dispatch_due-StartsOne_example = dispatch_due-StartsOne fixed sha due [] 9 empty_store
