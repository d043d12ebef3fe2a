-- ===== src/Store/Tests.antt =====
-- Examples of the store.
use periodic.Prelude.{ℕ, ◌≡◌, refl, true, false, none, some, [], ◌∷◌, Text, codes, All}
use periodic.Run.{Run, returns, stuck}
use periodic.Store.Model.{scheduled, Store, ok}
use periodic.Store.Runs.{create_run, recover_interrupted_runs, is_open, is_running}
use periodic.Store.Jobs.{reconcile, reconcile_from, upsert_job}
use periodic.Store.Keys.{recover, here, next, create_run-once}
use periodic.Store.Recovery.{recover_interrupted_runs-again}
use periodic.Store.Outcomes.{Outcome, outcome_in, keyed, reconcile-outcomes}
use periodic.Chrono.Fixed.{fixed}
use periodic.Scheduler.WallClock.{resolve_timezone, resolve_wall_clock}
use periodic.Scheduler.Engine.{next_occurrence, next_minute_aligned, occurrence_at, new_occurrence}
use periodic.Scheduler.Table.{next_of}
use periodic.Samples.{empty_store, config}

abbrev key : Text
key = codes "poll:minute:9"

abbrev claimed : Store
claimed =
    (create_run (codes "r1") (codes "poll") (codes "h") scheduled (some key) (codes "1")
      empty_store).1

abbrev later : Store
later = (recover_interrupted_runs (codes "2") claimed).1

first-claims :
    create_run (codes "r1") (codes "poll") (codes "h") scheduled (some key) (codes "1") empty_store
    ≡ (ok true, claimed)
unfolding create_run
first-claims = refl

create_run-once_example :
    create_run (codes "r2") (codes "poll") (codes "h") scheduled (some key) (codes "3") later
    ≡ (ok false, later)
create_run-once_example =
    create_run-once key (codes "r1") (codes "poll") (codes "h") scheduled (codes "1") empty_store
      claimed later true (codes "r2") (codes "poll") (codes "h") scheduled (codes "3") first-claims
      (next here (recover (codes "2")))

recover_interrupted_runs-again_example :
    All (λ r. is_open r.status ≡ false) later.runs
    × All (λ a. is_running a.status ≡ false) later.attempts
    × (recover_interrupted_runs (codes "4") later ≡ (ok 0, later))
recover_interrupted_runs-again_example =
    recover_interrupted_runs-again (codes "2") (codes "4") claimed

abbrev last_outcome : Outcome
last_outcome = record {
  last_run_id = some (codes "r1");
  last_success_at = none;
  last_failure_at = some (codes "1");
  consecutive_failures = 1;
}

abbrev projected : Store
projected = record empty_store {
  jobs_state =
      record {
        job_id = codes "poll";
        state = codes "active";
        config_hash = [];
        schedule_kind = codes "minute";
        next_run_at = none;
        last_run_id = some (codes "r1");
        last_success_at = none;
        last_failure_at = some (codes "1");
        consecutive_failures = 1;
        updated_at = codes "1";
      }
      ∷ [];
}

abbrev store_of : Run (ℕ × Store) → Store
store_of (returns (n, s)) = s
store_of stuck = empty_store

abbrev reconciled : Store
reconciled = store_of (reconcile fixed 100 (λ t. t) config 901000000000 projected)

reconciles : reconcile fixed 100 (λ t. t) config 901000000000 projected ≡ returns (1, reconciled)
unfolding reconcile reconcile_from upsert_job next_of next_occurrence next_minute_aligned
    resolve_wall_clock resolve_timezone occurrence_at new_occurrence
reconciles = refl

reconcile-outcomes_example :
    (1 ≡ keyed config.jobs)
    × (outcome_in (codes "poll") reconciled.jobs_state ≡ some last_outcome)
    × (reconciled.runs ≡ projected.runs)
reconcile-outcomes_example =
    reconcile-outcomes fixed 100 (λ t. t) config 901000000000 projected reconciled 1 (codes "poll")
      last_outcome refl reconciles
