-- ===== src/Daemon/Loop/Tests.antt =====
-- Examples of the loop: a daemon that catches up a run, starts another and stops.
use periodic.Prelude.{
  ◌≡◌, ◌≢◌, ◌↔◌, refl, Bool, true, false, Option, none, some, List, [], ◌∷◌, Text, codes, All,
  to_lowercase, decimal,
}
use periodic.Run.{Run, returns, stuck}
use periodic.Config.Model.{RawConfig}
use periodic.Config.Parse.{contains, parse_every_interval, parse_duration}
use periodic.Config.Normalize.{
  normalize, normalize_job, normalize_schedule, parse_missed_run_policy,
}
use periodic.Chrono.Fixed.{fixed}
use periodic.Diagnostics.{concat, has_error}
use periodic.Validation.{check_jobs, validate_config}
use periodic.Validation.Schedule.{check_schedule, check_tokens, is_valid_hhmm, job_path}
use periodic.Validation.Job.{is_kebab, command_resolves, check_job}
use periodic.Scheduler.WallClock.{resolve_timezone, resolve_wall_clock}
use periodic.Scheduler.Engine.{
  next_occurrence, next_minute_aligned, occurrence_at, new_occurrence, occurrence_key,
}
use periodic.Scheduler.Table.{next_of, push, next_wake, build_from, build, pop_due_loop, pop_due}
use periodic.Store.Model.{Store}
use periodic.Store.Runs.{create_run, recover_interrupted_runs}
use periodic.Store.Keys.{here}
use periodic.Store.Rows.{Grows}
use periodic.Store.Jobs.{last_success_at, reconcile, reconcile_from, upsert_job, schedule_kind}
use periodic.Store.Liveness.{
  put_daemon_state, read_daemon_status, record_daemon_started, record_daemon_heartbeat,
  record_daemon_state,
}
use periodic.Daemon.{
  sleep_until, dispatch_missed, dispatch_due, apply_policy, missed_loop, missed_occurrences,
  handle_missed_runs,
}
use periodic.Daemon.Rows.{run_ids}
use periodic.Daemon.Loop.{
  timed_out, Round, Tick, Daemon, Shutdown, drain_wait, drain_runs, load_validated_config,
  on_control, one_round, scheduler_rounds, scheduler_loop, run_foreground, Start, start, Stop, stop,
}
use periodic.Daemon.Loop.Life.{Life, life_ids, run_foreground-Grows}
use periodic.Daemon.Loop.Rounds.{IsSound, IsTable, scheduler_rounds-IsTable}
use periodic.Events.{run_started, emit}
use periodic.Store.Runs.{update_run, mark_run_running}
use periodic.Store.Keys.{mark, event, here, next}
use periodic.Daemon.Loop.Distinct.{IsReach}
use periodic.Daemon.Loop.Views.{view}
use periodic.Daemon.Loop.Restart.{start-agrees-stop, run_foreground-start}
use periodic.Samples.{machine, raw_poll, poll, empty_store}

abbrev sha : Text → Text
sha t = t

abbrev caught_up : RawConfig
caught_up = record {
  version = 1;
  defaults = none;
  jobs = record raw_poll { missed_run_policy = some (codes "run_once") } ∷ [];
}

abbrev parse : Text → Option RawConfig
parse t = some caught_up

-- The thread of the missed run marks its row and writes its event.
abbrev works : Store → Store
works s =
    (emit fixed run_started (codes "poll") (codes "poll-missed-900000000000") none
      (codes "run started") 902000000000
      (mark_run_running (codes "poll-missed-900000000000") (codes "902000000000") s).1).1

works-IsReach : IsReach works
works-IsReach s =
    next (next here (mark (codes "poll-missed-900000000000") (codes "902000000000"))) (
      event fixed run_started (codes "poll") (codes "poll-missed-900000000000") none
        (codes "run started") 902000000000)

-- The job is due in the first round; the daemon is stopped before the second.
abbrev script : List Round
script =
    record {
      stop = false;
      now = 1800000000000;
      done = codes "poll-missed-900000000000" ∷ [];
      woke = 1800000000000;
      control = timed_out;
      meanwhile = works;
    }
    ∷ record {
      stop = true;
      now = 1801000000000;
      done = [];
      woke = 1801000000000;
      control = timed_out;
      meanwhile = λ s. s;
    }
    ∷ []

abbrev ending : Shutdown
ending = record {
  stopping = 1802000000000;
  start = 1802000000000;
  polls =
      record { instant = 1802000000000; done = [] }
      ∷ record { instant = 1812000000000; done = [] }
      ∷ [];
  done = [];
  meanwhile = λ s. s;
  stopped = 1812000000000;
}

abbrev life_of :
    Run (Option (Life fixed machine sha 100 3 parse)) → Life fixed machine sha 100 3 parse
life_of (returns (some life)) = life
life_of _ = ([], ([], ([], empty_store)))

abbrev life : Life fixed machine sha 100 3 parse
life = life_of (
    run_foreground fixed machine sha 100 3 parse (some (codes "x")) 7 901000000000 script ending
      empty_store)

ends :
    run_foreground fixed machine sha 100 3 parse
      (some (codes "x"))
      7
      901000000000
      script
      ending
      empty_store
    ≡ returns (some life)
unfolding emit mark_run_running update_run run_foreground load_validated_config contains
    parse_every_interval parse_duration concat has_error check_jobs validate_config check_schedule
    check_tokens is_valid_hhmm job_path is_kebab command_resolves check_job to_lowercase normalize
    reconcile reconcile_from next_of next_occurrence next_minute_aligned resolve_wall_clock
    resolve_timezone occurrence_at new_occurrence upsert_job schedule_kind recover_interrupted_runs
    record_daemon_started put_daemon_state handle_missed_runs missed_occurrences missed_loop
    last_success_at apply_policy dispatch_missed create_run build build_from push scheduler_loop
    scheduler_rounds one_round pop_due pop_due_loop dispatch_due record_daemon_heartbeat sleep_until
    next_wake on_control drain_runs drain_wait record_daemon_state normalize_job normalize_schedule
    parse_missed_run_policy decimal occurrence_key
ends = refl

-- It has started two runs, and cancelled the second.
lives :
    (life_ids fixed machine sha 100 3 parse life
      ≡ codes "poll-missed-900000000000" ∷ codes "poll-1800000000000" ∷ [])
    × (run_ids life.1.1.0 ≡ codes "poll-1800000000000" ∷ [])
unfolding emit mark_run_running update_run run_foreground load_validated_config contains
    parse_every_interval parse_duration concat has_error check_jobs validate_config check_schedule
    check_tokens is_valid_hhmm job_path is_kebab command_resolves check_job to_lowercase normalize
    reconcile reconcile_from next_of next_occurrence next_minute_aligned resolve_wall_clock
    resolve_timezone occurrence_at new_occurrence upsert_job schedule_kind recover_interrupted_runs
    record_daemon_started put_daemon_state handle_missed_runs missed_occurrences missed_loop
    last_success_at apply_policy dispatch_missed create_run build build_from push scheduler_loop
    scheduler_rounds one_round pop_due pop_due_loop dispatch_due record_daemon_heartbeat sleep_until
    next_wake on_control drain_runs drain_wait record_daemon_state normalize_job normalize_schedule
    parse_missed_run_policy decimal occurrence_key
lives = (refl, refl)

run_foreground-Grows_example :
    Grows empty_store (life_ids fixed machine sha 100 3 parse life) life.1.1.1
run_foreground-Grows_example =
    run_foreground-Grows fixed machine sha 100 3 parse (some (codes "x")) 7 901000000000 script
      ending empty_store life (works-IsReach, ((λ s. here), tt)) (λ s. here) ends

run_foreground-start_example : start fixed life.1.1.1 1813000000000 ≢ Start.refuses
run_foreground-start_example =
    run_foreground-start fixed machine sha 100 3 parse (some (codes "x")) 7 901000000000 script
      ending empty_store life 1813000000000 ends

-- A daemon that has just started.
abbrev fresh : Store
fresh = (record_daemon_started fixed 7 901000000000 empty_store).1

start-agrees-stop_example :
    ((start fixed fresh 902000000000 ≡ Start.refuses)
      ↔ ((view (read_daemon_status fixed fresh) 902000000000).running ≡ true))
    × ((stop fixed fresh false 902000000000 ≡ Stop.signals 7 false) ↔ (
        ((view (read_daemon_status fixed fresh) 902000000000).running ≡ true)
        × ((view (read_daemon_status fixed fresh) 902000000000).pid ≡ some 7)))
start-agrees-stop_example = start-agrees-stop fixed fresh false 902000000000 7

abbrev daemon : Daemon
daemon = record {
  store = empty_store;
  table = record { scheduled_for = 1800000000000; key = codes "k"; job = poll } ∷ [];
  runs = [];
}

abbrev rounds_of : Run (List Tick × (Bool × Daemon)) → List Tick × (Bool × Daemon)
rounds_of (returns r) = r
rounds_of stuck = ([], (true, daemon))

abbrev rounds : List Tick × (Bool × Daemon)
rounds = rounds_of (scheduler_rounds fixed machine sha 100 3 parse script daemon)

goes_round : scheduler_rounds fixed machine sha 100 3 parse script daemon ≡ returns rounds
unfolding emit mark_run_running update_run scheduler_rounds one_round pop_due pop_due_loop push
    next_of next_occurrence next_minute_aligned resolve_wall_clock resolve_timezone occurrence_at
    new_occurrence dispatch_due record_daemon_heartbeat put_daemon_state create_run contains
    sleep_until next_wake on_control occurrence_key decimal
goes_round = refl

scheduler_rounds-IsTable_example : All IsSound rounds.0 × IsTable rounds.1.1.table
scheduler_rounds-IsTable_example =
    scheduler_rounds-IsTable fixed machine sha 100 3 parse script daemon rounds
      ((tt, tt), ((refl, (codes "poll", refl)), tt)) goes_round
