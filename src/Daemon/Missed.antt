-- ===== src/Daemon/Missed.antt =====
-- Missed occurrences: which there are, and how many runs the policy starts for them.
use periodic.Prelude.{
  ℕ, zero, suc, ◌≤◌, ◌≡◌, refl, ap, ◌∙◌, sym, subst, Bool, Bool-cases, true, false, Option, none,
  some, List, [], ◌∷◌, Text, All, length, length-append, ltb, arith, inl, inr, if_true, if_false,
  last_of,
}
use periodic.Run.{returns, >>=-eq-returns, returns_injective}
use periodic.Config.Model.{EffectiveJob, MissedRunPolicy}
use periodic.Config.Canonical.{job_config_hash}
use periodic.Chrono.{Chrono}
use periodic.Scheduler.Engine.{Occurrence}
use periodic.Scheduler.Table.{next_of}
use periodic.Store.Model.{missed, Store, Result, ok, err}
use periodic.Store.Runs.{create_run}
use periodic.Daemon.{
  RunHandle, missed_cap, rfc, missed_id, claimed_missed, skipped_missed, dispatch_missed,
  dispatch_all, apply_policy, keep_missed, missed_loop, missed_occurrences, anchor,
  handle_missed_job,
}

-- At most `n` occurrences, none later than `now`.
abbrev pub IsWindow : ℕ → ℕ → List (Text × ℕ) → Type 0
IsWindow n now occs = All (λ o. o.1 ≤ now) occs × (length occs ≤ n)

-- How many runs a policy may start for a job.
abbrev pub allowed : MissedRunPolicy → ℕ
allowed MissedRunPolicy.skip = 0
allowed MissedRunPolicy.run_once = 1
allowed MissedRunPolicy.run_all = missed_cap

module _ (c : Chrono) (sha : Text → Text) where
  claimed_missed-length :
      (job : EffectiveJob) (run_id : Text) (r : Result Bool × Store)
      → length (claimed_missed c sha job run_id r).0 ≤ 1
  claimed_missed-length job run_id (ok true, s) = omega arith
  claimed_missed-length job run_id (ok false, s) = omega arith
  claimed_missed-length job run_id (err e, s) = omega arith

  skipped_missed-length :
      (run_id : Text) (now : ℕ) (r : Result Bool × Store)
      → length (skipped_missed c sha run_id now r).0 ≡ 0
  skipped_missed-length run_id now (ok true, s) = refl
  skipped_missed-length run_id now (ok false, s) = refl
  skipped_missed-length run_id now (err e, s) = refl

  dispatch_missed-length :
      (job : EffectiveJob) (job_id : Text) (o : Text × ℕ) (now : ℕ) (s : Store)
      → length (dispatch_missed c sha job job_id o now s).0 ≤ 1
  unfolding dispatch_missed
  dispatch_missed-length job job_id (key, i) now s =
      claimed_missed-length job (missed_id c sha job_id i) _

  dispatch_all-length :
      (job : EffectiveJob) (job_id : Text) (occs : List (Text × ℕ)) (now : ℕ) (s : Store)
      → length (dispatch_all c sha job job_id occs now s).0 ≤ length occs
  unfolding dispatch_all
  dispatch_all-length job job_id [] now s = omega arith
  dispatch_all-length job job_id (o ∷ occs) now s =
      let first = dispatch_missed c sha job job_id o now s in
      let others = dispatch_all c sha job job_id occs now first.1 in
      omega (
        arith,
        length-append first.0 others.0,
        dispatch_missed-length job job_id o now s,
        dispatch_all-length job job_id occs now first.1,
      )

  apply_policy-length :
      (policy : MissedRunPolicy) (job : EffectiveJob) (job_id : Text) (occs : List (Text × ℕ))
      (now : ℕ) (s : Store)
      → length occs ≤ missed_cap
      → length (apply_policy c sha policy job job_id occs now s).0 ≤ allowed policy
  unfolding apply_policy
  apply_policy-length policy job job_id [] now s h = omega arith
  apply_policy-length MissedRunPolicy.skip job job_id (o ∷ occs) now s h = omega (
    arith,
    skipped_missed-length (missed_id c sha job_id (last_of o occs).1) now (
        create_run (missed_id c sha job_id (last_of o occs).1) job_id (job_config_hash sha job)
          missed (some (last_of o occs).0) (rfc c sha now) s),
  )
  apply_policy-length MissedRunPolicy.run_once job job_id (o ∷ occs) now s h =
      dispatch_missed-length job job_id (last_of o occs) now s
  apply_policy-length MissedRunPolicy.run_all job job_id (o ∷ occs) now s h =
      omega (arith, dispatch_all-length job job_id (o ∷ occs) now s, h)

  module _ (fuel : ℕ) where
    missed_loop-IsWindow :
        (rounds : ℕ) (job_id : Text) (job : EffectiveJob) (now after : ℕ) (occs : List (Text × ℕ))
        → missed_loop c sha fuel rounds job_id job now after ≡ returns occs
        → IsWindow rounds now occs
    unfolding missed_loop
    missed_loop-IsWindow zero job_id job now after occs h =
        subst (IsWindow 0 now) (returns_injective h) (tt, omega arith)
    missed_loop-IsWindow (suc rounds) job_id job now after occs h =
        let (o, e, rest) = >>=-eq-returns (next_of c fuel job_id job after) _ h in
        go o (λ i others r. missed_loop-IsWindow rounds job_id job now i others r) rest
      where
        go :
            (o : Option (Occurrence c fuel))
            → ((i : ℕ) (others : List (Text × ℕ))
                → missed_loop c sha fuel rounds job_id job now i ≡ returns others
                → IsWindow rounds now others)
            → (elim o [
              | none ↦ returns []
              | some occ ↦
                  keep_missed c sha fuel now occ.key occ.scheduled_for
                    (missed_loop c sha fuel rounds job_id job now occ.scheduled_for)
            ])
              ≡ returns occs
            → IsWindow (suc rounds) now occs
        go none ih e = subst (IsWindow (suc rounds) now) (returns_injective e) (tt, omega arith)
        go (some occ) ih e = elim (Bool-cases (ltb now occ.scheduled_for)) [
          | inl over ↦
              subst (IsWindow (suc rounds) now)
                (returns_injective (sym (if_true (ltb now occ.scheduled_for) _ _ over) ∙ e))
                (tt, omega arith)
          | inr within ↦
              let (others, r, same) =
                >>=-eq-returns (missed_loop c sha fuel rounds job_id job now occ.scheduled_for)
                  (λ occs. returns ((occ.key, occ.scheduled_for) ∷ occs))
                  (sym (if_false (ltb now occ.scheduled_for) _ _ within) ∙ e) in
              let w = ih occ.scheduled_for others r in
              subst (IsWindow (suc rounds) now) (returns_injective same)
                ((ground arith, w.0), omega (arith, w.1))
        ]

    -- Of the occurrences that a job missed at most a thousand are considered, and none is later than
    -- `now`.
    pub missed_occurrences-IsWindow :
        (job : EffectiveJob) (job_id : Text) (now : ℕ) (s : Store) (occs : List (Text × ℕ))
        → missed_occurrences c sha fuel job job_id now s ≡ returns occs
        → IsWindow missed_cap now occs
    unfolding missed_occurrences
    missed_occurrences-IsWindow job job_id now s occs h =
        missed_loop-IsWindow missed_cap job_id job now (anchor c sha fuel job_id now s) occs h

    -- For the occurrences that a job missed, `skip` starts no run, `run_once` at most one and
    -- `run_all` at most a thousand.
    pub handle_missed_job-allowed :
        (job : EffectiveJob) (job_id : Option Text) (now : ℕ) (s t : Store)
        (handles : List RunHandle)
        → handle_missed_job c sha fuel job job_id now s ≡ returns (handles, t)
        → length handles ≤ allowed job.missed_run_policy
    handle_missed_job-allowed job none now s t handles h =
        subst (λ hs. length hs ≤ allowed job.missed_run_policy)
          (ap (λ p. p.0) (returns_injective h)) (omega arith)
    handle_missed_job-allowed job (some job_id) now s t handles h = elim (Bool-cases job.enabled) [
      | inl on ↦
          let (occs, r, same) =
            >>=-eq-returns (missed_occurrences c sha fuel job job_id now s)
              (λ occs. returns (apply_policy c sha job.missed_run_policy job job_id occs now s))
              (sym (if_true job.enabled _ _ on) ∙ h) in
          let w = missed_occurrences-IsWindow job job_id now s occs r in
          subst (λ hs. length hs ≤ allowed job.missed_run_policy)
            (ap (λ p. p.0) (returns_injective same))
            (apply_policy-length job.missed_run_policy job job_id occs now s w.1)
      | inr off ↦
          subst (λ hs. length hs ≤ allowed job.missed_run_policy)
            (ap (λ p. p.0) (returns_injective (sym (if_false job.enabled _ _ off) ∙ h)))
            (omega arith)
    ]
