-- ===== src/Daemon.antt =====
-- src/daemon.rs: the dispatch of due and of missed occurrences, the sleep and the view of liveness.
-- A run thread is the handle of the run it executes; the log lines are left out.
pub mod Once
pub mod Starts
pub mod Missed
pub mod Sleep
pub mod Rows
pub mod Loop
mod Tests
use periodic.Prelude.{
  ℕ, zero, suc, ◌+◌, ◌-◌, ◌*◌, ◌/◌, max, min, Bool, true, false, Option, none, some, List, [], ◌∷◌,
  ◌++◌, Text, codes, text_eq, ltb, if◌then◌else◌, unwrap_or, and_then, last_of,
}
use periodic.Run.{Run, returns, stuck, ◌>>=◌}
use periodic.Config.Model.{EffectiveJob, EffectiveConfig, MissedRunPolicy}
use periodic.Config.Parse.{contains}
use periodic.Config.Canonical.{job_config_hash}
use periodic.Chrono.{Chrono, second_ns, day_ns}
use periodic.Scheduler.Engine.{Occurrence}
use periodic.Scheduler.Table.{DueRun, next_of}
use periodic.Store.Model.{Status, Trigger, scheduled, missed, Store, Result, ok, err}
use periodic.Store.Runs.{create_run, finish_run}
use periodic.Store.Jobs.{last_success_at}
use periodic.Store.Liveness.{DaemonStatus, daemon_is_stale}

abbrev pub heartbeat_interval_ms : ℕ
heartbeat_interval_ms = 30000

abbrev pub stale_after_ns : ℕ
stale_after_ns = 90 * second_ns

abbrev pub missed_cap : ℕ
missed_cap = 1000

-- In milliseconds; a wake-up in the past is a difference of 0.
unfoldable pub sleep_until : Option ℕ → ℕ → ℕ
sleep_until none now = heartbeat_interval_ms
sleep_until (some wake) now = min ((wake - now) / 1000000) heartbeat_interval_ms

-- `DaemonView`.
pub record DaemonView : Type 0 where
  pub state : Text
  pub pid : Option ℕ
  pub running : Bool

unfoldable pub from_status : Option DaemonStatus → ℕ → DaemonView
from_status none now = record { state = codes "not running"; pid = none; running = false }
from_status (some s) now =
    if text_eq s.state (codes "running")
    then if daemon_is_stale s now stale_after_ns
      then record { state = codes "not responding"; pid = some s.pid; running = false }
      else record { state = codes "running"; pid = some s.pid; running = true }
    else record { state = s.state; pid = some s.pid; running = false }

-- `RunHandle`: the job and the row that the thread executes.
pub record RunHandle : Type 0 where
  pub job : EffectiveJob
  pub run_id : Text

module _ (c : Chrono) (sha : Text → Text) where
  abbrev pub rfc : ℕ → Text
  rfc = c.show_instant c.utc

  -- What follows a claim: nothing if it failed or was not the first, a row that says so if a run of
  -- the job is in flight, a run otherwise.
  abbrev pub claimed_due :
      EffectiveJob → Text → Text → Bool → ℕ → Result Bool × Store → List RunHandle × Store
  claimed_due job job_id run_id active now (err e, s) = ([], s)
  claimed_due job job_id run_id active now (ok false, s) = ([], s)
  claimed_due job job_id run_id true now (ok true, s) =
      ([], (finish_run run_id Status.skipped_overlap none none (rfc now) s).1)
  claimed_due job job_id run_id false now (ok true, s) =
      (record { job = job; run_id = run_id } ∷ [], s)

  -- One round of `dispatch_due`.
  abbrev pub dispatch_one : DueRun → Option Text → List Text → ℕ → Store → List RunHandle × Store
  dispatch_one d none active now s = ([], s)
  dispatch_one d (some job_id) active now s =
      let run_id = job_id ++ (codes "-" ++ c.show_micros now) in
      claimed_due d.job job_id run_id (contains active job_id) now (
        create_run run_id job_id (job_config_hash sha d.job) scheduled (some d.occurrence_key)
          (rfc now) s)

  unfoldable pub dispatch_due : List DueRun → List Text → ℕ → Store → List RunHandle × Store
  dispatch_due [] active now s = ([], s)
  dispatch_due (d ∷ due) active now s =
      let (first, t) = dispatch_one d d.job.id active now s in
      let (others, u) = dispatch_due due active now t in (first ++ others, u)

  abbrev pub missed_id : Text → ℕ → Text
  missed_id job_id i = job_id ++ (codes "-missed-" ++ c.show_micros i)

  abbrev pub claimed_missed : EffectiveJob → Text → Result Bool × Store → List RunHandle × Store
  claimed_missed job run_id (ok true, s) = (record { job = job; run_id = run_id } ∷ [], s)
  claimed_missed job run_id (ok false, s) = ([], s)
  claimed_missed job run_id (err e, s) = ([], s)

  -- A missed occurrence is its key and its instant.
  unfoldable pub dispatch_missed :
      EffectiveJob → Text → Text × ℕ → ℕ → Store → List RunHandle × Store
  dispatch_missed job job_id (key, i) now s = claimed_missed job (missed_id job_id i) (
      create_run (missed_id job_id i) job_id (job_config_hash sha job) missed (some key) (rfc now)
        s)

  abbrev pub skipped_missed : Text → ℕ → Result Bool × Store → List RunHandle × Store
  skipped_missed run_id now (ok true, s) =
      ([], (finish_run run_id Status.skipped none none (rfc now) s).1)
  skipped_missed run_id now (ok false, s) = ([], s)
  skipped_missed run_id now (err e, s) = ([], s)

  unfoldable pub dispatch_all :
      EffectiveJob → Text → List (Text × ℕ) → ℕ → Store → List RunHandle × Store
  dispatch_all job job_id [] now s = ([], s)
  dispatch_all job job_id (o ∷ occs) now s =
      let (first, t) = dispatch_missed job job_id o now s in
      let (others, u) = dispatch_all job job_id occs now t in (first ++ others, u)

  -- The policy, on the missed occurrences of a job.
  unfoldable pub apply_policy :
      MissedRunPolicy → EffectiveJob → Text → List (Text × ℕ) → ℕ → Store → List RunHandle × Store
  apply_policy policy job job_id [] now s = ([], s)
  apply_policy MissedRunPolicy.skip job job_id (o ∷ occs) now s =
      let (key, i) = last_of o occs in
      skipped_missed (missed_id job_id i) now (
        create_run (missed_id job_id i) job_id (job_config_hash sha job) missed (some key) (rfc now)
          s)
  apply_policy MissedRunPolicy.run_once job job_id (o ∷ occs) now s =
      dispatch_missed job job_id (last_of o occs) now s
  apply_policy MissedRunPolicy.run_all job job_id (o ∷ occs) now s =
      dispatch_all job job_id (o ∷ occs) now s

  module _ (fuel : ℕ) where
    abbrev pub keep_missed : ℕ → Text → ℕ → Run (List (Text × ℕ)) → Run (List (Text × ℕ))
    keep_missed now key i rest =
        let kept = rest >>= (λ occs. returns ((key, i) ∷ occs)) in
        if ltb now i then returns [] else kept

    -- The loop of `missed_occurrences`; the rounds are what is left of `MISSED_CAP`.
    unfoldable pub missed_loop : ℕ → Text → EffectiveJob → ℕ → ℕ → Run (List (Text × ℕ))
    missed_loop zero job_id job now after = returns []
    missed_loop (suc rounds) job_id job now after = next_of c fuel job_id job after >>= λ o.
        elim o [
          | none ↦ returns []
          | some occ ↦
              keep_missed now occ.key occ.scheduled_for
                (missed_loop rounds job_id job now occ.scheduled_for)
        ]

    abbrev pub anchor : Text → ℕ → Store → ℕ
    anchor job_id now s = elim (last_success_at c fuel sha job_id s) [
      | none ↦ now - day_ns
      | some last ↦ max last (now - day_ns)
    ]

    unfoldable pub missed_occurrences : EffectiveJob → Text → ℕ → Store → Run (List (Text × ℕ))
    missed_occurrences job job_id now s =
        missed_loop missed_cap job_id job now (anchor job_id now s)

    -- One round of `handle_missed_runs`.
    abbrev pub handle_missed_job :
        EffectiveJob → Option Text → ℕ → Store → Run (List RunHandle × Store)
    handle_missed_job job none now s = returns ([], s)
    handle_missed_job job (some job_id) now s =
        let handled =
          missed_occurrences job job_id now s
          >>= (λ occs. returns (apply_policy job.missed_run_policy job job_id occs now s)) in
        if job.enabled then handled else returns ([], s)

    unfoldable pub handle_missed_runs : List EffectiveJob → ℕ → Store → Run (List RunHandle × Store)
    handle_missed_runs [] now s = returns ([], s)
    handle_missed_runs (job ∷ jobs) now s =
        handle_missed_job job job.id now s >>= λ (first : List RunHandle × Store).
        handle_missed_runs jobs now first.1 >>= λ (others : List RunHandle × Store).
        returns (first.0 ++ others.0, others.1)
