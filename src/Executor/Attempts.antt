-- ===== src/Executor/Attempts.antt =====
-- The attempts of a run: how many there are.
use periodic.Prelude.{
  ℕ, suc, ◌+◌, ◌≤◌, ◌<◌, ◌≡◌, ◌≢◌, ◌⊎◌, refl, ap, ◌∙◌, sym, subst, Bool, Bool-cases, ◌||◌, not,
  Option, none, some, List, [], ◌∷◌, Text, length, length-append, any, arith, inl, inr, if_true,
  if_false, leb,
}
use periodic.Run.{returns, returns_injective}
use periodic.Config.Model.{pos, EffectiveJob}
use periodic.Chrono.{Chrono}
use periodic.Events.{EventKind, emit}
use periodic.Store.Model.{AttemptRow, Store, Result, ok, err, update_where}
use periodic.Store.Runs.{
  start_attempt, start_attempt_pid, finish_attempt, update_attempt, attempt_has_id, same_attempt,
  has_id,
}
use periodic.Executor.Wait.{AttemptResult, Blocking, exited, Script, spawn_failed, spawned}
use periodic.Executor.{
  join_thread, joins, RunStatus, success, failed, X, ◌>>=◌, statement, done, is_zero, Summary,
  decide, as_u32, attempt_process, run_attempt, attempt_id, attempt_loop,
}
use periodic.Executor.Ensures.{
  Ensures, Ensures->>=, Ensures-statement, Ensures-done, Ensures-waits, ensures-if, after-eq-ok,
}

-- `n` more attempts are on record.
abbrev pub Adds : ℕ → Store → Store → Type 0
Adds n s s' = length s'.attempts ≡ length s.attempts + n

length-update_where {ℓ} :
    {A : Type ℓ} (p : A → Bool) (f : A → A) (xs : List A) → length (update_where p f xs) ≡ length xs
length-update_where p f [] = refl
length-update_where p f (x ∷ xs) = ap suc (length-update_where p f xs)

update_attempt-Adds :
    (id : Text) (f : AttemptRow → AttemptRow) → Ensures (Adds 0) (statement (update_attempt id f))
unfolding update_attempt
update_attempt-Adds id f = Ensures-statement (Adds 0) (update_attempt id f) (λ s a h.
    ensures-if (Adds 0 s) (any (attempt_has_id id) s.attempts) _ _
      (λ ok'. omega (arith, length-update_where (attempt_has_id id) f s.attempts))
      (λ e. omega arith) h)

start_attempt-Adds :
    (id run_id : Text) (number : ℕ) (pid : Option ℕ) (ts : Text)
    → Ensures (Adds 1) (statement (start_attempt id run_id number pid ts))
unfolding start_attempt
start_attempt-Adds id run_id number pid ts =
    Ensures-statement (Adds 1) (start_attempt id run_id number pid ts) (λ s a h.
      ensures-if (Adds 1 s)
        (any (attempt_has_id id) s.attempts
          || (any (same_attempt run_id number) s.attempts || not (any (has_id run_id) s.runs)))
        _ _ (λ failed'. cc) (λ e. length-append s.attempts _) h)

module _ (c : Chrono) where
  emit-Adds :
      (kind : EventKind) (job_id run_id : Text) (attempt : Option Text) (message : Text) (now : ℕ)
      → Ensures (Adds 0) (statement (emit c kind job_id run_id attempt message now))
  unfolding emit
  emit-Adds kind job_id run_id attempt message now =
      Ensures-statement (Adds 0) (emit c kind job_id run_id attempt message now)
        (λ s a h. omega arith)

  -- Statements that add no attempt, in front of another.
  Adds-then :
      {A B : Type 0} (n : ℕ) (m : X A) (f : A → X B)
      → Ensures (Adds 0) m
      → ((a : A) → Ensures (Adds n) (f a))
      → Ensures (Adds n) (m >>= f)
  Adds-then n m f hm hf =
      Ensures->>= (Adds 0) (Adds n) (Adds n) (λ s t u x y. omega arith) m f hm hf

  joins-Adds : (b : Blocking) → Ensures (Adds 0) (joins b)
  joins-Adds b =
      Adds-then 0 _ _
        (Adds-then 0 _ _ (Ensures-waits (Adds 0) (join_thread b.waiter_ends) (λ s. omega arith))
          (λ u. Ensures-waits (Adds 0) (join_thread b.stdout_ends) (λ s. omega arith)))
        (λ u. Ensures-waits (Adds 0) (join_thread b.stderr_ends) (λ s. omega arith))

  attempt_process-Adds :
      (timeout_secs : Option ℕ) (job_id run_id id : Text) (script : Script)
      → Ensures (Adds 0) (attempt_process c timeout_secs job_id run_id id script)
  unfolding attempt_process finish_attempt start_attempt_pid
  attempt_process-Adds timeout_secs job_id run_id id (spawn_failed message at) =
      Adds-then 0 _ _
        (Adds-then 0 _ _ (update_attempt-Adds id _) (λ a. emit-Adds _ job_id run_id _ _ at))
        (λ a. Ensures-done (Adds 0) _ (λ s. omega arith))
  attempt_process-Adds timeout_secs job_id run_id id (spawned pid from polls b at) =
      Adds-then 0 _ _ (update_attempt-Adds id _) (λ a.
        Adds-then 0 _ _ (Ensures-waits (Adds 0) _ (λ s. omega arith)) (λ ended.
          Adds-then 0 (joins b) _ (joins-Adds b) (λ joined.
            Adds-then 0 _ _
              (Adds-then 0 _ _ (update_attempt-Adds id _) (λ u. emit-Adds _ job_id run_id _ _ at))
              (λ u. Ensures-done (Adds 0) _ (λ s. omega arith)))))

  run_attempt-Adds :
      (timeout_secs : Option ℕ) (job_id run_id id : Text) (number now : ℕ) (script : Script)
      → Ensures (Adds 1) (run_attempt c timeout_secs job_id run_id id number now script)
  unfolding run_attempt
  run_attempt-Adds timeout_secs job_id run_id id number now script =
      Ensures->>= (Adds 1) (Adds 0) (Adds 1) (λ s t u x y. omega arith) _ _
        (Ensures->>= (Adds 1) (Adds 0) (Adds 1) (λ s t u x y. omega arith) _ _
          (start_attempt-Adds id run_id number none _) (λ a. emit-Adds _ job_id run_id _ _ now))
        (λ a. attempt_process-Adds timeout_secs job_id run_id id script)

-- `n` is the number of the first attempt, of which `s` has no record yet.
pub record Counted (max_retries n : ℕ) (s s' : Store) (r : Summary) : Type 0 where
  pub at_least : n ≤ r.attempts
  pub at_most : r.attempts ≤ max_retries + 1
  pub recorded : length s'.attempts + n ≡ length s.attempts + r.attempts + 1
  pub gave_up : (r.status ≢ failed) ⊎ (r.attempts ≡ max_retries + 1)

-- An attempt that the loop ends with.
ended :
    (max_retries n : ℕ) (s t s' : Store) (r r' : Summary)
    → n ≤ max_retries + 1
    → Adds 1 s t
    → r.attempts ≡ n
    → (r.status ≢ failed) ⊎ (n ≡ max_retries + 1)
    → done r t ≡ returns (ok r', s')
    → Counted max_retries n s s' r'
ended max_retries n s t s' r r' h1 h2 h3 h4 h =
    let e = returns_injective h in
    subst {A = Summary × Store} (λ p. Counted max_retries n s p.1 p.0)
      (λ i. (summary (e i).0, (e i).1))
      (record {
        at_least = omega (arith, h3);
        at_most = omega (arith, h1, h3);
        recorded = omega (arith, h2, h3);
        gave_up = subst (λ m. (r.status ≢ failed) ⊎ (m ≡ max_retries + 1)) (sym h3) h4;
      })
  where
    summary : Result Summary → Summary
    summary (ok x) = x
    summary (err e) = r

one_more :
    (max_retries n : ℕ) (s t s' : Store) (r : Summary)
    → Adds 1 s t
    → Counted max_retries (n + 1) t s' r
    → Counted max_retries n s s' r
one_more max_retries n s t s' r h k = record {
  at_least = omega (arith, k.at_least);
  at_most = k.at_most;
  recorded = omega (arith, h, k.recorded);
  gave_up = k.gave_up;
}

decide-Counted :
    (max_retries n : ℕ) (result : AttemptResult) (again : X Summary) (s t s' : Store) (r : Summary)
    → max_retries + 1 < 4294967296
    → n ≤ max_retries + 1
    → Adds 1 s t
    → (n ≤ max_retries → again t ≡ returns (ok r, s') → Counted max_retries (n + 1) t s' r)
    → decide max_retries n result again t ≡ returns (ok r, s')
    → Counted max_retries n s s' r
decide-Counted max_retries n (exited code) again s t s' r small le adds ih h =
    elim (Bool-cases (is_zero code)) [
      | inl zero' ↦
          ended max_retries n s t s'
            (record { status = success; exit_code = some (pos 0); attempts = as_u32 n }) r le adds
            (omega arith) (inl (λ e. cc))
            (ap (λ (m : X Summary). m t) (sym (if_true (is_zero code) _ _ zero')) ∙ h)
      | inr nonzero ↦
          let h' = ap (λ (m : X Summary). m t) (sym (if_false (is_zero code) _ _ nonzero)) ∙ h in
          elim (Bool-cases (leb (as_u32 n) max_retries)) [
            | inl more ↦ one_more max_retries n s t s' r adds (
                ih (ground arith) (
                  ap (λ (m : X Summary). m t) (sym (if_true (leb (as_u32 n) max_retries) _ _ more))
                  ∙ h'))
            | inr last ↦
                ended max_retries n s t s'
                  (record { status = failed; exit_code = some code; attempts = as_u32 n }) r le adds
                  (omega arith) (inr (ground arith))
                  (ap (λ (m : X Summary). m t)
                      (sym (if_false (leb (as_u32 n) max_retries) _ _ last))
                    ∙ h')
          ]
    ]
decide-Counted max_retries n AttemptResult.timeout again s t s' r small le adds ih h =
    ended max_retries n s t s'
      (record { status = RunStatus.timeout; exit_code = none; attempts = as_u32 n }) r le adds
      (omega arith) (inl (λ e. cc)) h
decide-Counted max_retries n AttemptResult.cancelled again s t s' r small le adds ih h =
    ended max_retries n s t s'
      (record { status = RunStatus.cancelled; exit_code = none; attempts = as_u32 n }) r le adds
      (omega arith) (inl (λ e. cc)) h

module _ (c : Chrono) (job : EffectiveJob) (job_id run_id : Text) (now : ℕ) where
  attempt_loop-Counted :
      (n : ℕ) (scripts : List Script) (s s' : Store) (r : Summary)
      → job.max_retries + 1 < 4294967296
      → n ≤ job.max_retries + 1
      → attempt_loop c job job_id run_id now n scripts s ≡ returns (ok r, s')
      → Counted job.max_retries n s s' r
  unfolding attempt_loop
  attempt_loop-Counted n [] s s' r small le h = cc
  attempt_loop-Counted n (script ∷ scripts) s s' r small le h =
      let (result, t, first, second) =
        after-eq-ok
          (run_attempt c job.timeout_secs job_id run_id (attempt_id c run_id n) n now script s) _
          h in
      decide-Counted job.max_retries n result _ s t s' r small le
        (run_attempt-Adds c job.timeout_secs job_id run_id (attempt_id c run_id n) n now script s t
          result first)
        (λ le' h'. attempt_loop-Counted (n + 1) scripts t s' r small (omega (arith, le')) h') second

  -- A run whose loop over attempts returns without a database error makes at least one and at most
  -- `max_retries + 1` attempts, and reports as many as it leaves on record; it fails only on the
  -- last attempt it may make. The bound on `max_retries` is that the attempt number stays below
  -- 2^32.
  pub attempt_loop-attempts :
      (scripts : List Script) (s s' : Store) (r : Summary)
      → job.max_retries + 1 < 4294967296
      → attempt_loop c job job_id run_id now 1 scripts s ≡ returns (ok r, s')
      → (1 ≤ r.attempts)
        × (r.attempts ≤ job.max_retries + 1)
        × (length s'.attempts ≡ length s.attempts + r.attempts)
        × ((r.status ≢ failed) ⊎ (r.attempts ≡ job.max_retries + 1))
  attempt_loop-attempts scripts s s' r small h =
      let k = attempt_loop-Counted 1 scripts s s' r small (omega arith) h in
      (k.at_least, k.at_most, omega (arith, k.recorded), k.gave_up)
