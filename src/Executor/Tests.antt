-- ===== src/Executor/Tests.antt =====
-- Examples of runs.
use periodic.Prelude.{
  ◌+◌, ◌≤◌, ◌≡◌, ◌≢◌, ◌⊎◌, ◌↔◌, some_injective, refl, true, false, none, some, List, [], ◌∷◌, codes,
  decimal, length, arith,
}
use periodic.Run.{Run, returns, stuck}
use periodic.Config.Model.{pos}
use periodic.Chrono.Fixed.{fixed}
use periodic.Events.{emit}
use periodic.Store.Model.{manual, Store, Result, ok}
use periodic.Store.Runs.{
  create_run, update_run, mark_run_running, finish_run, start_attempt, start_attempt_pid,
  finish_attempt, update_attempt,
}
use periodic.Store.Jobs.{update_job_outcome}
use periodic.Executor.{
  failed, success, RunOutcome, Summary, status_of, attempt_process, run_attempt, attempt_loop,
  finalize, execute_run,
}
use periodic.Executor.Wait.{
  exited, timeout, Signal, Poll, exit, nothing, Blocking, in_grace, after_kill, Script,
  spawn_failed, spawned, deadline_of, poll_loop, wait_loop,
}
use periodic.Executor.Wait.Ended.{HasDeadline, Ended, by_exit, wait_loop-ending}
use periodic.Executor.Attempts.{attempt_loop-attempts}
use periodic.Executor.Ending.{Returns, Answers, attempt_loop-Returns}
use periodic.Executor.Final.{Closed, execute_run-Closed}
use periodic.Samples.{empty_store, poll}

-- The run `r` is on record.
abbrev with_run : Store
with_run = (create_run (codes "r") (codes "poll") [] manual none (codes "0") empty_store).1

abbrev quiet : Poll
quiet = record { received = nothing; cancel = false; now = 2000000000 }

abbrev early : Poll
early = record { received = nothing; cancel = false; now = 1000000000 }

abbrev exits : Poll
exits = record { received = exit (some (pos 0)); cancel = false; now = 2000000000 }

abbrev ends : Blocking
ends = record { drain = in_grace; waiter_ends = true; stdout_ends = true; stderr_ends = true }

-- A command that is not there at first, and then succeeds.
abbrev scripts : List Script
scripts = spawn_failed (codes "no") 5 ∷ spawned 7 6 (exits ∷ []) ends 9 ∷ []

-- A deadline is passed at the second tick, and the child has to be killed by force.
has_deadline : HasDeadline (some 2) 0
has_deadline secs e = let two : 2 ≡ secs = some_injective e in omega (arith, two)

times_out :
    wait_loop (some 2) 0 (early ∷ quiet ∷ exits ∷ []) after_kill
    ≡ returns (timeout, Signal.sigterm ∷ Signal.sigkill ∷ [])
unfolding wait_loop deadline_of poll_loop
times_out = refl

wait_loop-ending_example :
    (wait_loop (some 2) 0 (early ∷ quiet ∷ exits ∷ []) after_kill
      ≡ returns (timeout, Signal.sigterm ∷ Signal.sigkill ∷ []))
    ↔ Ended
        (some 2)
        0
        after_kill
        (early ∷ quiet ∷ exits ∷ [])
        timeout
        (Signal.sigterm ∷ Signal.sigkill ∷ [])
wait_loop-ending_example =
    wait_loop-ending (some 2) 0 (early ∷ quiet ∷ exits ∷ []) after_kill timeout
      (Signal.sigterm ∷ Signal.sigkill ∷ []) has_deadline

-- A timeout that is no instant of the clock is accepted, and panics.
panics : wait_loop (some 18446744073709551615) 0 (exits ∷ []) in_grace ≡ stuck
unfolding wait_loop deadline_of
panics = refl

answered : Answers poll.timeout_secs 6 (exits ∷ []) ends
answered = record {
  deadline = λ secs e. (let two : 2 ≡ secs = some_injective e in omega (arith, two));
  ends = (exited (pos 0), [], by_exit (some (pos 0)) refl);
  waiter = refl;
  stdout = refl;
  stderr = refl;
}

attempt_loop-Returns_example :
    Returns (attempt_loop fixed poll (codes "poll") (codes "r") 1 1 scripts with_run)
attempt_loop-Returns_example =
    attempt_loop-Returns fixed poll (codes "poll") (codes "r") 1 scripts with_run (omega arith)
      (omega arith) (tt, (answered, tt))

abbrev summary : Summary
summary = record { status = success; exit_code = some (pos 0); attempts = 2 }

abbrev store_of {ℓ} : {A : Type ℓ} → Run (Result A × Store) → Store
store_of stuck = empty_store
store_of (returns (r, s)) = s

abbrev after_loop : Store
after_loop = store_of (attempt_loop fixed poll (codes "poll") (codes "r") 1 1 scripts with_run)

loops :
    attempt_loop fixed poll (codes "poll") (codes "r") 1 1 scripts with_run
    ≡ returns (ok summary, after_loop)
unfolding attempt_loop run_attempt attempt_process wait_loop deadline_of poll_loop emit create_run
    start_attempt start_attempt_pid finish_attempt update_attempt decimal
loops = refl

attempt_loop-attempts_example :
    (1 ≤ 2)
    × (2 ≤ poll.max_retries + 1)
    × (length after_loop.attempts ≡ length with_run.attempts + 2)
    × ((success ≢ failed) ⊎ (2 ≡ poll.max_retries + 1))
attempt_loop-attempts_example =
    attempt_loop-attempts fixed poll (codes "poll") (codes "r") 1 scripts with_run after_loop
      summary (omega arith) loops

abbrev result : RunOutcome
result = record {
  id = codes "r";
  job_id = codes "poll";
  status = success;
  started_at = decimal 1;
  finished_at = decimal 10;
  exit_code = some (pos 0);
  attempts = 2;
}

abbrev after_run : Store
after_run = store_of (execute_run fixed poll (codes "r") 1 scripts 10 with_run)

executes : execute_run fixed poll (codes "r") 1 scripts 10 with_run ≡ returns (ok result, after_run)
unfolding execute_run finalize finish_run mark_run_running update_run update_job_outcome
    attempt_loop run_attempt attempt_process wait_loop deadline_of poll_loop emit create_run
    start_attempt start_attempt_pid finish_attempt update_attempt decimal
executes = refl

execute_run-Closed_example :
    Closed (codes "r") (status_of success) (some (pos 0)) (decimal 10) after_run
execute_run-Closed_example =
    execute_run-Closed fixed poll (codes "r") 1 scripts 10 with_run after_run result executes
