-- ===== src/Executor.antt =====
-- src/executor.rs: a run, its attempts and retries. What the operating system answers (spawning,
-- polls of the child, the cancel flag and the clock) is a script that the run is given.
pub mod Wait
pub mod Ensures
pub mod Attempts
pub mod Ending
pub mod Final
mod Tests
use periodic.Prelude.{
  ℕ, suc, ◌+◌, ◌%◌, Bool, true, false, Option, none, some, List, [], ◌∷◌, ◌++◌, Text, codes,
  decimal, leb, ◌==◌, if◌then◌else◌, unwrap_or,
}
use periodic.Run.{Run, returns, stuck}
use periodic.Config.Model.{ℤ, pos, negsuc, EffectiveJob}
use periodic.Config.Canonical.{job_config_hash}
use periodic.Chrono.{Chrono}
use periodic.Events.{
  EventKind, run_started, attempt_started, attempt_succeeded, attempt_failed, run_succeeded,
  run_failed, run_timeout, run_cancelled, emit,
}
use periodic.Executor.Wait.{
  AttemptResult, Blocking, exited, Script, spawn_failed, spawned, wait_loop,
}
use periodic.Store.Model.{Status, manual, Store, Error, Result, ok, err, M}
use periodic.Store.Runs.{
  create_run, mark_run_running, finish_run, start_attempt, start_attempt_pid, finish_attempt,
}
use periodic.Store.Jobs.{update_job_outcome}

pub data RunStatus : Type 0 where
  success failed timeout cancelled : RunStatus

-- `RunStatus::as_str`, as the value of the column and as text.
abbrev pub status_of : RunStatus → Status
status_of success = Status.success
status_of failed = Status.failed
status_of RunStatus.timeout = Status.timeout
status_of RunStatus.cancelled = Status.cancelled

abbrev pub status_text : RunStatus → Text
status_text success = codes "success"
status_text failed = codes "failed"
status_text RunStatus.timeout = codes "timeout"
status_text RunStatus.cancelled = codes "cancelled"

pub record RunOutcome : Type 0 where
  pub id : Text
  pub job_id : Text
  pub status : RunStatus
  pub started_at : Text
  pub finished_at : Text
  pub exit_code : Option ℤ
  pub attempts : ℕ

-- Statements on the store, in code that may not return.
abbrev pub X : Type 0 → Type 0
X A = Store → Run (Result A × Store)

abbrev pub after : {A B : Type 0} → Run (Result A × Store) → (A → X B) → Run (Result B × Store)
after stuck f = stuck
after (returns (ok a, s)) f = f a s
after (returns (err e, s)) f = returns (err e, s)

infixl 5 ◌>>=◌ ◌>>◌
abbrev pub ◌>>=◌ : {A B : Type 0} → X A → (A → X B) → X B
◌>>=◌ m f s = after (m s) f

abbrev pub ◌>>◌ : {B : Type 0} → X (Unit {0}) → X B → X B
m >> k = m >>= λ _. k

abbrev pub statement : {A : Type 0} → M A → X A
statement m s = returns (m s)

abbrev pub done : {A : Type 0} → A → X A
done a s = returns (ok a, s)

-- `join`: it returns if the thread ends, whatever its result.
abbrev pub join_thread : Bool → Run (Unit {0})
join_thread true = returns tt
join_thread false = stuck

-- The wait, which may not return and does not touch the store.
abbrev pub waits : {A : Type 0} → Run A → X A
waits stuck s = stuck
waits (returns a) s = returns (ok a, s)

-- The joins of the waiter and of the two readers.
abbrev pub joins : Blocking → X (Unit {0})
joins b =
    waits (join_thread b.waiter_ends)
    >> waits (join_thread b.stdout_ends)
    >> waits (join_thread b.stderr_ends)

abbrev pub is_zero : ℤ → Bool
is_zero (pos n) = n == 0
is_zero (negsuc n) = false

-- The row of a finished attempt, from how it ended: status, exit code and signal.
abbrev pub attempt_status : AttemptResult → RunStatus
attempt_status (exited code) = if is_zero code then success else failed
attempt_status AttemptResult.timeout = RunStatus.timeout
attempt_status AttemptResult.cancelled = RunStatus.cancelled

abbrev pub attempt_code : AttemptResult → Option ℤ
attempt_code (exited code) = some code
attempt_code AttemptResult.timeout = none
attempt_code AttemptResult.cancelled = none

abbrev pub attempt_signal : AttemptResult → Option ℕ
attempt_signal (exited code) = none
attempt_signal AttemptResult.timeout = some 15
attempt_signal AttemptResult.cancelled = some 15

abbrev pub attempt_event : AttemptResult → EventKind
attempt_event (exited code) = if is_zero code then attempt_succeeded else attempt_failed
attempt_event AttemptResult.timeout = attempt_failed
attempt_event AttemptResult.cancelled = attempt_failed

abbrev pub run_event : RunStatus → EventKind
run_event success = run_succeeded
run_event failed = run_failed
run_event RunStatus.timeout = run_timeout
run_event RunStatus.cancelled = run_cancelled

abbrev pub is_success : RunStatus → Bool
is_success success = true
is_success _ = false

-- `as u32`.
abbrev pub as_u32 : ℕ → ℕ
as_u32 n = n % 4294967296

-- Status, exit code and number of attempts of a run.
pub record Summary : Type 0 where
  pub status : RunStatus
  pub exit_code : Option ℤ
  pub attempts : ℕ

-- What the loop does after an attempt; `again` is the rest of the loop.
abbrev pub decide : ℕ → ℕ → AttemptResult → X Summary → X Summary
decide max_retries number (exited code) again =
    if is_zero code
    then done (record { status = success; exit_code = some (pos 0); attempts = as_u32 number })
    else if leb (as_u32 number) max_retries
    then again
    else done (record { status = failed; exit_code = some code; attempts = as_u32 number })
decide max_retries number AttemptResult.timeout again =
    done (record { status = RunStatus.timeout; exit_code = none; attempts = as_u32 number })
decide max_retries number AttemptResult.cancelled again =
    done (record { status = RunStatus.cancelled; exit_code = none; attempts = as_u32 number })

module _ (c : Chrono) where
  abbrev pub rfc3339 : ℕ → Text
  rfc3339 = c.show_instant c.utc

  -- From the spawn on.
  unfoldable pub attempt_process : Option ℕ → Text → Text → Text → Script → X AttemptResult
  attempt_process timeout_secs job_id run_id attempt_id (spawn_failed message at) =
      statement
        (finish_attempt attempt_id Status.failed (some (pos 127)) none (some message) (rfc3339 at))
      >> statement (emit c attempt_failed job_id run_id (some attempt_id) message at)
      >> done (exited (pos 127))
  attempt_process timeout_secs job_id run_id attempt_id (spawned pid from polls b at) =
      statement (start_attempt_pid attempt_id pid)
      >> (waits (wait_loop timeout_secs from polls b.drain) >>= λ ended. joins b >>= λ joined.
          statement (
            finish_attempt attempt_id (status_of (attempt_status ended.0)) (attempt_code ended.0)
              (attempt_signal ended.0) none (rfc3339 at))
          >> statement (
              emit c (attempt_event ended.0) job_id run_id (some attempt_id)
                (status_text (attempt_status ended.0)) at)
          >> done ended.0)

  unfoldable pub run_attempt : Option ℕ → Text → Text → Text → ℕ → ℕ → Script → X AttemptResult
  run_attempt timeout_secs job_id run_id attempt_id number now script =
      statement (start_attempt attempt_id run_id number none (rfc3339 now))
      >> statement (
          emit c attempt_started job_id run_id (some attempt_id)
            (codes "attempt " ++ decimal number) now)
      >> attempt_process timeout_secs job_id run_id attempt_id script

  abbrev pub attempt_id : Text → ℕ → Text
  attempt_id run_id number = run_id ++ (codes "-" ++ decimal number)

  -- The loop, with a script for each attempt that the environment is asked for.
  unfoldable pub attempt_loop : EffectiveJob → Text → Text → ℕ → ℕ → List Script → X Summary
  attempt_loop job job_id run_id now number [] s = stuck
  attempt_loop job job_id run_id now number (script ∷ scripts) s =
      let again = attempt_loop job job_id run_id now (number + 1) scripts in
      (run_attempt job.timeout_secs job_id run_id (attempt_id run_id number) number now script
          >>= λ result. decide job.max_retries number result again)
        s

  unfoldable pub finalize : Text → Text → RunStatus → Option ℤ → ℕ → X (Unit {0})
  finalize job_id run_id status exit_code run_finished =
      statement (finish_run run_id (status_of status) exit_code none (rfc3339 run_finished))
      >> statement (update_job_outcome job_id run_id (is_success status) (rfc3339 run_finished))
      >> statement (emit c (run_event status) job_id run_id none (status_text status) run_finished)

  abbrev pub job_id_of : EffectiveJob → Text
  job_id_of job = unwrap_or job.id []

  -- `execute_run` before the loop and after it.
  abbrev pub begin : EffectiveJob → Text → ℕ → X (Unit {0})
  begin job run_id now =
      statement (mark_run_running run_id (rfc3339 now))
      >> statement (emit c run_started (job_id_of job) run_id none (codes "run started") now)

  abbrev pub outcome : EffectiveJob → Text → ℕ → ℕ → Summary → RunOutcome
  outcome job run_id now run_finished r = record {
    id = run_id;
    job_id = job_id_of job;
    status = r.status;
    started_at = rfc3339 now;
    finished_at = rfc3339 run_finished;
    exit_code = r.exit_code;
    attempts = r.attempts;
  }

  abbrev pub conclude : EffectiveJob → Text → ℕ → ℕ → Summary → X RunOutcome
  conclude job run_id now run_finished r =
      finalize (job_id_of job) run_id r.status r.exit_code run_finished
      >> done (outcome job run_id now run_finished r)

  unfoldable pub execute_run : EffectiveJob → Text → ℕ → List Script → ℕ → X RunOutcome
  execute_run job run_id now scripts run_finished =
      begin job run_id now
      >> (attempt_loop job (job_id_of job) run_id now 1 scripts
          >>= conclude job run_id now run_finished)

  abbrev pub manual_run_id : Text → ℕ → Text
  manual_run_id job_id now = job_id ++ (codes "-" ++ c.show_micros now)

  unfoldable pub run_job : (Text → Text) → EffectiveJob → ℕ → List Script → ℕ → X RunOutcome
  run_job sha job now scripts run_finished =
      let job_id = job_id_of job in
      let run_id = manual_run_id job_id now in
      statement (create_run run_id job_id (job_config_hash sha job) manual none (rfc3339 now))
      >>= λ created. execute_run job run_id now scripts run_finished
