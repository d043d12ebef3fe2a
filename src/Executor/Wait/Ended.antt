-- ===== src/Executor/Wait/Ended.antt =====
-- How the wait of src/executor.rs for a child ends, as a relation on what the ticks bring.
use periodic.Prelude.{
  ℕ, ◌+◌, ◌*◌, ◌≤◌, ◌<◌, ◌≡◌, ◌↔◌, refl, sym, ◌∙◌, ap, inl, inr, Bool-cases, true, false, Option,
  none, some, List, [], ◌∷◌, ltb, arith, if_true, if_false, subst, some_injective, unwrap_or,
}
use periodic.Run.{returns, ◌>>=◌, returns_injective}
use periodic.Config.Model.{ℤ, negsuc}
use periodic.Executor.Wait.{
  AttemptResult, exited, timeout, cancelled, Received, exit, wait_failed, nothing, Poll, Drain,
  in_grace, after_kill, never, Signal, sigterm, sigkill, drain_after_kill, past, tick, poll_loop,
  deadline_of, wait_loop,
}

-- The timeout has run out, in nanoseconds.
abbrev pub IsPast : Option ℕ → ℕ → ℕ → Type 0
IsPast timeout_secs from now =
    (secs : ℕ) × (timeout_secs ≡ some secs) × (from + secs * 1000000000 ≤ now)

-- The deadline is an instant: fewer than 2^63 seconds on the clock.
abbrev pub HasDeadline : Option ℕ → ℕ → Type 0
HasDeadline timeout_secs from =
    (secs : ℕ) → timeout_secs ≡ some secs → from + secs * 1000000000 < 9223372036854775808000000000

-- The signals to the child: SIGTERM, and SIGKILL after it unless the child ends in the grace period.
pub data Killed : Drain → List Signal → Type 0 where
  gently : Killed in_grace (sigterm ∷ [])
  by_force : Killed after_kill (sigterm ∷ sigkill ∷ [])

-- The end of the wait: at the first tick that is not quiet. At that tick an exit comes before the
-- cancel flag and the flag before the deadline.
pub data Ended (timeout_secs : Option ℕ) (from : ℕ) (drain : Drain)
    : List Poll → AttemptResult → List Signal → Type 0 where
  quiet :
      {p : Poll} {polls : List Poll} {r : AttemptResult} {ss : List Signal}
      → p.received ≡ nothing
      → p.cancel ≡ false
      → ¬ IsPast timeout_secs from p.now
      → Ended timeout_secs from drain polls r ss
      → Ended timeout_secs from drain (p ∷ polls) r ss
  by_exit :
      {p : Poll} {polls : List Poll} (code : Option ℤ)
      → p.received ≡ exit code
      → Ended timeout_secs from drain (p ∷ polls) (exited (unwrap_or code (negsuc 0))) []
  by_failure :
      {p : Poll} {polls : List Poll}
      → p.received ≡ wait_failed
      → Ended timeout_secs from drain (p ∷ polls) (exited (negsuc 0)) []
  by_cancel :
      {p : Poll} {polls : List Poll} {ss : List Signal}
      → p.received ≡ nothing
      → p.cancel ≡ true
      → Killed drain ss
      → Ended timeout_secs from drain (p ∷ polls) cancelled ss
  by_deadline :
      {p : Poll} {polls : List Poll} {ss : List Signal}
      → p.received ≡ nothing
      → p.cancel ≡ false
      → IsPast timeout_secs from p.now
      → Killed drain ss
      → Ended timeout_secs from drain (p ∷ polls) timeout ss

-- A deadline that is the one of the timeout.
abbrev IsDeadline : Option ℕ → ℕ → Option ℕ → Type 0
IsDeadline timeout_secs from deadline =
    (now : ℕ) → (past deadline now ≡ true) ↔ IsPast timeout_secs from now

deadline_of-IsDeadline :
    (timeout_secs : Option ℕ) (from : ℕ)
    → HasDeadline timeout_secs from
    → (deadline : Option ℕ) × ((deadline_of timeout_secs from ≡ returns deadline)
        × IsDeadline timeout_secs from deadline)
unfolding deadline_of
deadline_of-IsDeadline none from h = (none, (refl, λ now. ((λ e. cc), (λ (secs, p, q). cc))))
deadline_of-IsDeadline (some secs) from h =
    let small = h secs refl in
    (
      some (from + secs * 1000000000),
      (
        if_true (ltb (from + secs * 1000000000) 9223372036854775808000000000) _ _ (ground arith),
        λ now. (
          (λ e. (secs, refl, ground arith)),
          (λ (n, p, q).
              let same : secs ≡ n = some_injective p in
              let q' : from + secs * 1000000000 ≤ now =
                subst (λ x. from + x * 1000000000 ≤ now) (sym same) q in
              ground arith),
        ),
      ),
    )

drain-Killed :
    (drain : Drain) (result r : AttemptResult) (ss : List Signal)
    → drain_after_kill drain result ≡ returns (r, ss)
    → (result ≡ r) × Killed drain ss
drain-Killed in_grace result r ss h =
    let e = returns_injective h in
    (ap (λ x. x.0) e, subst (Killed in_grace) (ap (λ x. x.1) e) gently)
drain-Killed after_kill result r ss h =
    let e = returns_injective h in
    (ap (λ x. x.0) e, subst (Killed after_kill) (ap (λ x. x.1) e) by_force)
drain-Killed never result r ss h = cc

Killed-drain :
    {drain : Drain} {ss : List Signal} (result : AttemptResult)
    → Killed drain ss
    → drain_after_kill drain result ≡ returns (result, ss)
Killed-drain result gently = refl
Killed-drain result by_force = refl

module _ (timeout_secs : Option ℕ) (from : ℕ) (drain : Drain) (deadline : Option ℕ)
    (is_deadline : IsDeadline timeout_secs from deadline) where
  not_past : (now : ℕ) → past deadline now ≡ false → ¬ IsPast timeout_secs from now
  not_past now h p = let e = (is_deadline now).1 p in cc

  past-false : (now : ℕ) → ¬ IsPast timeout_secs from now → past deadline now ≡ false
  past-false now h = elim (Bool-cases (past deadline now)) [
    | inl late ↦ absurd (h ((is_deadline now).0 late))
    | inr early ↦ early
  ]

  poll_loop-Ended :
      (polls : List Poll) (r : AttemptResult) (ss : List Signal)
      → poll_loop deadline drain polls ≡ returns (r, ss)
      → Ended timeout_secs from drain polls r ss
  unfolding poll_loop
  poll_loop-Ended [] r ss h = cc
  poll_loop-Ended (p ∷ polls) r ss h = on p.received refl (poll_loop-Ended polls r ss) h
    where
      on :
          (received : Received)
          → p.received ≡ received
          → (poll_loop deadline drain polls ≡ returns (r, ss)
              → Ended timeout_secs from drain polls r ss)
          → tick deadline drain received p.cancel p.now (poll_loop deadline drain polls)
            ≡ returns (r, ss)
          → Ended timeout_secs from drain (p ∷ polls) r ss
      on (exit code) e ih k =
          subst
            (λ (x : AttemptResult × List Signal). Ended timeout_secs from drain (p ∷ polls) x.0 x.1)
            (returns_injective k) (by_exit code e)
      on wait_failed e ih k =
          subst
            (λ (x : AttemptResult × List Signal). Ended timeout_secs from drain (p ∷ polls) x.0 x.1)
            (returns_injective k) (by_failure e)
      on nothing e ih k = elim (Bool-cases p.cancel) [
        | inl set ↦
            let (same, sent) =
              drain-Killed drain cancelled r ss (sym (if_true p.cancel _ _ set) ∙ k) in
            subst (λ x. Ended timeout_secs from drain (p ∷ polls) x ss) same (by_cancel e set sent)
        | inr unset ↦
            let k' = sym (if_false p.cancel _ _ unset) ∙ k in
            elim (Bool-cases (past deadline p.now)) [
              | inl late ↦
                  let (same, sent) =
                    drain-Killed drain timeout r ss
                      (sym (if_true (past deadline p.now) _ _ late) ∙ k') in
                  subst (λ x. Ended timeout_secs from drain (p ∷ polls) x ss) same
                    (by_deadline e unset ((is_deadline p.now).0 late) sent)
              | inr early ↦
                  quiet e unset (not_past p.now early)
                    (ih (sym (if_false (past deadline p.now) _ _ early) ∙ k'))
            ]
      ]

  -- A tick with what it brings.
  on_received :
      (p : Poll) (polls : List Poll) (received : Received)
      → p.received ≡ received
      → poll_loop deadline drain (p ∷ polls)
        ≡ tick deadline drain received p.cancel p.now (poll_loop deadline drain polls)
  unfolding poll_loop
  on_received p polls received e =
      ap (λ x. tick deadline drain x p.cancel p.now (poll_loop deadline drain polls)) e

  Ended-poll_loop :
      {polls : List Poll} {r : AttemptResult} {ss : List Signal}
      → Ended timeout_secs from drain polls r ss
      → poll_loop deadline drain polls ≡ returns (r, ss)
  Ended-poll_loop (quiet {p} {polls} e unset early rest) =
      on_received p polls nothing e
      ∙ (if_false p.cancel _ _ unset
          ∙ (if_false (past deadline p.now) _ _ (past-false p.now early) ∙ Ended-poll_loop rest))
  Ended-poll_loop (by_exit {p} {polls} code e) = on_received p polls (exit code) e
  Ended-poll_loop (by_failure {p} {polls} e) = on_received p polls wait_failed e
  Ended-poll_loop (by_cancel {p} {polls} e set sent) =
      on_received p polls nothing e ∙ (if_true p.cancel _ _ set ∙ Killed-drain cancelled sent)
  Ended-poll_loop (by_deadline {p} {polls} e unset late sent) =
      on_received p polls nothing e
      ∙ (if_false p.cancel _ _ unset
          ∙ (if_true (past deadline p.now) _ _ ((is_deadline p.now).1 late)
              ∙ Killed-drain timeout sent))

-- Where the deadline is an instant of the clock, the wait returns a result and signals exactly if it
-- ends with them: at the first tick that brings an exit, a set cancel flag or a timeout that has run
-- out, the exit before the flag and the flag before the timeout. An exit sends no signal; the flag and
-- the timeout send SIGTERM, and SIGKILL unless the child ends in the grace period.
pub wait_loop-ending :
    (timeout_secs : Option ℕ) (from : ℕ) (polls : List Poll) (drain : Drain) (r : AttemptResult)
    (ss : List Signal)
    → HasDeadline timeout_secs from
    → (wait_loop timeout_secs from polls drain ≡ returns (r, ss))
      ↔ Ended timeout_secs from drain polls r ss
unfolding wait_loop
wait_loop-ending timeout_secs from polls drain r ss h =
    let (deadline, (e, is_deadline)) = deadline_of-IsDeadline timeout_secs from h in
    let same : wait_loop timeout_secs from polls drain ≡ poll_loop deadline drain polls =
      ap (λ m. m >>= λ d. poll_loop d drain polls) e in
    (
      (λ k. poll_loop-Ended timeout_secs from drain deadline is_deadline polls r ss (sym same ∙ k)),
      (λ k. same ∙ Ended-poll_loop timeout_secs from drain deadline is_deadline k),
    )
