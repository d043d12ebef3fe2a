-- ===== src/Executor/Ending.antt =====
-- The loop over the attempts ends.
use periodic.Prelude.{
  ℕ, ◌+◌, ◌≤◌, ◌<◌, ◌≡◌, refl, ap, ◌∙◌, Bool, true, false, Option, none, some, List, [], ◌∷◌, ◌++◌,
  Text, length, codes, decimal, arith, if◌then◌else◌, All, leb,
}
use periodic.Run.{Run, returns}
use periodic.Config.Model.{pos, EffectiveJob}
use periodic.Chrono.{Chrono}
use periodic.Events.{attempt_started, attempt_failed, emit}
use periodic.Store.Model.{Status, Store, Result, ok, err, M}
use periodic.Store.Runs.{start_attempt, start_attempt_pid, finish_attempt}
use periodic.Executor.Wait.{
  AttemptResult, exited, Script, spawn_failed, spawned, wait_loop, Poll, Blocking, Signal,
}
use periodic.Executor.Wait.Ended.{HasDeadline, Ended, wait_loop-ending}
use periodic.Executor.{
  join_thread, joins, success, failed, X, after, ◌>>=◌, ◌>>◌, statement, done, waits, is_zero,
  Summary, decide, as_u32, attempt_process, run_attempt, attempt_id, attempt_loop, rfc3339,
  status_of, attempt_status, attempt_code, attempt_signal, attempt_event, status_text,
}

-- All that the code waits for comes: the deadline is an instant, the wait ends within the polls, and
-- the three threads end.
pub record Answers (timeout_secs : Option ℕ) (from : ℕ) (polls : List Poll) (b : Blocking)
    : Type 0 where
  pub deadline : HasDeadline timeout_secs from
  pub ends : (r : AttemptResult) × (ss : List Signal) × Ended timeout_secs from b.drain polls r ss
  pub waiter : b.waiter_ends ≡ true
  pub stdout : b.stdout_ends ≡ true
  pub stderr : b.stderr_ends ≡ true

abbrev pub IsAnswered : Option ℕ → Script → Type 0
IsAnswered timeout_secs (spawn_failed message at) = Unit
IsAnswered timeout_secs (spawned pid from polls b at) = Answers timeout_secs from polls b

-- Code that has not got stuck.
abbrev pub Returns {ℓ} : {A : Type ℓ} → Run A → Type ℓ
Returns {A} m = (a : A) × (m ≡ returns a)

record Total {A : Type 0} (m : X A) : Type 0 where
  on : (s : Store) → Returns (m s)

Returns-after :
    {A B : Type 0} (r : Run (Result A × Store)) (f : A → X B)
    → Returns r
    → ((a : A) → Total (f a))
    → Returns (after r f)
Returns-after r f ((ok a, t), e) hf = let (x, d) = (hf a).on t in (x, ap (λ q. after q f) e ∙ d)
Returns-after r f ((err e', t), e) hf = ((err e', t), ap (λ q. after q f) e)

Total->>= :
    {A B : Type 0} (m : X A) (f : A → X B) → Total m → ((a : A) → Total (f a)) → Total (m >>= f)
Total->>= m f hm hf = record { on = λ s. Returns-after (m s) f (hm.on s) hf }

Total-statement : {A : Type 0} (m : M A) → Total (statement m)
Total-statement m = record { on = λ s. (m s, refl) }

-- Two statements on the row of the attempt and its event.
Total-both :
    {B : Type 0} (m m' : M (Unit {0})) (k : X B)
    → Total k
    → Total (statement m >> statement m' >> k)
Total-both m m' k hk =
    Total->>= _ (λ _. k)
      (Total->>= (statement m) (λ _. statement m') (Total-statement m) (λ a. Total-statement m'))
      (λ a. hk)

Total-done : {A : Type 0} (a : A) → Total (done a)
Total-done a = record { on = λ s. ((ok a, s), refl) }

Total-waits : {A : Type 0} (r : Run A) → Returns r → Total (waits r)
Total-waits r (a, e) = record { on = λ s. ((ok a, s), ap (λ q. waits q s) e) }

wait_loop-Returns :
    (timeout_secs : Option ℕ) (from : ℕ) (polls : List Poll) (b : Blocking)
    → Answers timeout_secs from polls b
    → Returns (wait_loop timeout_secs from polls b.drain)
wait_loop-Returns timeout_secs from polls b h =
    let (r, ss, e) = h.ends in
    ((r, ss), (wait_loop-ending timeout_secs from polls b.drain r ss h.deadline).1 e)

join_thread-Returns : (ends : Bool) → ends ≡ true → Returns (join_thread ends)
join_thread-Returns false h = cc
join_thread-Returns true h = (tt, refl)

joins-Total :
    (timeout_secs : Option ℕ) (from : ℕ) (polls : List Poll) (b : Blocking)
    → Answers timeout_secs from polls b
    → Total (joins b)
joins-Total timeout_secs from polls b h =
    Total->>= _ (λ u. waits (join_thread b.stderr_ends))
      (Total->>= (waits (join_thread b.waiter_ends)) (λ u. waits (join_thread b.stdout_ends))
        (Total-waits _ (join_thread-Returns b.waiter_ends h.waiter))
        (λ u. Total-waits _ (join_thread-Returns b.stdout_ends h.stdout)))
      (λ u. Total-waits _ (join_thread-Returns b.stderr_ends h.stderr))

module _ (c : Chrono) where
  run_attempt-Total :
      (timeout_secs : Option ℕ) (job_id run_id id : Text) (number now : ℕ) (script : Script)
      → IsAnswered timeout_secs script
      → Total (run_attempt c timeout_secs job_id run_id id number now script)
  unfolding run_attempt attempt_process
  run_attempt-Total timeout_secs job_id run_id id number now (spawn_failed message at) h =
      Total-both (start_attempt id run_id number none (rfc3339 c now))
        (emit c attempt_started job_id run_id (some id) (codes "attempt " ++ decimal number) now) _
        (Total-both
          (finish_attempt id Status.failed (some (pos 127)) none (some message) (rfc3339 c at))
          (emit c attempt_failed job_id run_id (some id) message at) _
          (Total-done (exited (pos 127))))
  run_attempt-Total timeout_secs job_id run_id id number now (spawned pid from polls b at) h =
      Total-both (start_attempt id run_id number none (rfc3339 c now))
        (emit c attempt_started job_id run_id (some id) (codes "attempt " ++ decimal number) now) _
        (Total->>= (statement (start_attempt_pid id pid)) _ (Total-statement _) (λ u.
          Total->>= (waits (wait_loop timeout_secs from polls b.drain)) _
            (Total-waits _ (wait_loop-Returns timeout_secs from polls b h))
            (λ d. Total->>= (joins b) _ (joins-Total timeout_secs from polls b h) (λ joined.
              Total-both
                (finish_attempt id (status_of (attempt_status d.0)) (attempt_code d.0)
                  (attempt_signal d.0) none (rfc3339 c at))
                (emit c (attempt_event d.0) job_id run_id (some id)
                  (status_text (attempt_status d.0)) at)
                _ (Total-done d.0)))))

decide-Total :
    (max_retries n : ℕ) (result : AttemptResult) (again : X Summary) (s : Store)
    → (as_u32 n ≤ max_retries → Returns (again s))
    → Returns (decide max_retries n result again s)
decide-Total max_retries n (exited code) again s h =
    go (is_zero code) (leb (as_u32 n) max_retries) refl
  where
    go :
        (zero' more : Bool)
        → leb (as_u32 n) max_retries ≡ more
        → Returns (
            (if zero'
                then done
                    (record { status = success; exit_code = some (pos 0); attempts = as_u32 n })
                else if more
                then again
                else done (record { status = failed; exit_code = some code; attempts = as_u32 n }))
              s)
    go true more e = (_, refl)
    go false true e = h (ground arith)
    go false false e = (_, refl)
decide-Total max_retries n AttemptResult.timeout again s h = (_, refl)
decide-Total max_retries n AttemptResult.cancelled again s h = (_, refl)

module _ (c : Chrono) (job : EffectiveJob) (job_id run_id : Text) (now : ℕ) where
  attempt_loop-ends :
      (n : ℕ) (scripts : List Script) (s : Store)
      → job.max_retries + 1 < 4294967296
      → job.max_retries + 2 ≤ n + length scripts
      → n ≤ job.max_retries + 1
      → All (λ script. IsAnswered job.timeout_secs script) scripts
      → Returns (attempt_loop c job job_id run_id now n scripts s)
  unfolding attempt_loop
  attempt_loop-ends n [] s small enough le hs = absurd (omega (arith, enough, le))
  attempt_loop-ends n (script ∷ scripts) s small enough le hs =
      Returns-after _ _
        ((run_attempt-Total c job.timeout_secs job_id run_id (attempt_id c run_id n) n now script
            hs.0).on
          s)
        (λ result. record {
          on = λ t. decide-Total job.max_retries n result _ t (λ le'.
              attempt_loop-ends (n + 1) scripts t small (omega (arith, enough))
                (omega (arith, le', le, small)) hs.1);
        })

  -- The loop over the attempts ends, with a result or a database error, if the environment answers
  -- for `max_retries + 1` attempts, and in each the child cannot be spawned, or else its deadline is
  -- an instant of the clock, the wait for it ends (it exits, is cancelled or reaches its deadline, and
  -- SIGTERM or SIGKILL ends it), and the threads that are joined end: the waiter, and the readers, for
  -- which every process that holds the pipes has to end. The bound on `max_retries` is that the
  -- attempt number stays below 2^32.
  pub attempt_loop-Returns :
      (scripts : List Script) (s : Store)
      → job.max_retries + 1 < 4294967296
      → job.max_retries + 1 ≤ length scripts
      → All (λ script. IsAnswered job.timeout_secs script) scripts
      → Returns (attempt_loop c job job_id run_id now 1 scripts s)
  attempt_loop-Returns scripts s small enough hs =
      attempt_loop-ends 1 scripts s small (omega (arith, enough)) (omega arith) hs
