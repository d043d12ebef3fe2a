-- ===== src/Store/Outcomes.antt =====
-- `reconcile` projects the configuration and leaves the outcome columns of the executor alone.
use periodic.Prelude.{
  ℕ, ◌+◌, ◌≡◌, refl, Bool, Bool-cases, Option, none, some, List, [], ◌∷◌, ◌++◌, Text, text_eq, any,
  find, arith, inl, inr, ap, ◌∙◌, sym, subst, if_true, if_false, is_some, and_then, if◌then◌else◌,
}
use periodic.Run.{returns, returns_injective, >>=-eq-returns}
use periodic.Config.Model.{EffectiveJob, EffectiveConfig}
use periodic.Chrono.{Chrono}
use periodic.Store.Model.{JobRow, Store, update_where}
use periodic.Store.Jobs.{
  job_is, upsert_job, project, next_run_at, reconcile_job, reconcile_from, reconcile,
}

-- The columns that runs write.
pub record Outcome : Type 0 where
  pub last_run_id : Option Text
  pub last_success_at : Option Text
  pub last_failure_at : Option Text
  pub consecutive_failures : ℕ

abbrev pub outcome_of : JobRow → Outcome
outcome_of r = record {
  last_run_id = r.last_run_id;
  last_success_at = r.last_success_at;
  last_failure_at = r.last_failure_at;
  consecutive_failures = r.consecutive_failures;
}

abbrev pub outcome_in : Text → List JobRow → Option Outcome
outcome_in id rows = and_then (find (job_is id) rows) (λ r. some (outcome_of r))

-- An update that keeps the id and the outcome of every row.
outcome_in-update :
    (id : Text) (p : JobRow → Bool) (f : JobRow → JobRow) (rows : List JobRow)
    → ((r : JobRow) → (f r).job_id ≡ r.job_id)
    → ((r : JobRow) → outcome_of (f r) ≡ outcome_of r)
    → outcome_in id (update_where p f rows) ≡ outcome_in id rows
outcome_in-update id p f [] ids outs = refl
outcome_in-update id p f (r ∷ rows) ids outs = elim (Bool-cases (p r)) [
  | inl hit ↦ rw hit (elim (Bool-cases (text_eq r.job_id id)) [
    | inl this ↦ rw (ids r) (rw this (ap some (outs r)))
    | inr other ↦ rw (ids r) (rw other (outcome_in-update id p f rows ids outs))
  ])
  | inr miss ↦ rw miss (elim (Bool-cases (text_eq r.job_id id)) [
    | inl this ↦ rw this refl
    | inr other ↦ rw other (outcome_in-update id p f rows ids outs)
  ])
]

outcome_in-append :
    (id : Text) (rows : List JobRow) (r : JobRow) (o : Outcome)
    → outcome_in id rows ≡ some o
    → outcome_in id (rows ++ (r ∷ [])) ≡ some o
outcome_in-append id [] r o h = cc
outcome_in-append id (x ∷ rows) r o h = elim (Bool-cases (text_eq x.job_id id)) [
  | inl this ↦ rw this (rw this at h)
  | inr other ↦ rw other (outcome_in-append id rows r o (rw other at h))
]

upsert_job-outcome :
    (id job_id state hash kind : Text) (next : Option Text) (ts : Text) (rows : List JobRow)
    (o : Outcome)
    → outcome_in id rows ≡ some o
    → outcome_in id (upsert_job job_id state hash kind next ts rows) ≡ some o
unfolding upsert_job
upsert_job-outcome id job_id state hash kind next ts rows o h =
    elim (Bool-cases (any (job_is job_id) rows)) [
      | inl there ↦
          ap (λ t. outcome_in id t) (if_true (any (job_is job_id) rows) _ _ there)
          ∙ outcome_in-update id (job_is job_id) _ rows (λ r. refl) (λ r. refl)
          ∙ h
      | inr missing ↦
          ap (λ t. outcome_in id t) (if_false (any (job_is job_id) rows) _ _ missing)
          ∙ outcome_in-append id rows _ o h
    ]

-- How many jobs have an id.
abbrev pub keyed : List EffectiveJob → ℕ
keyed [] = 0
keyed (job ∷ jobs) = if is_some job.id then 1 + keyed jobs else keyed jobs

module _ (c : Chrono) (fuel : ℕ) (sha : Text → Text) where
  -- What a round keeps, and how it counts.
  record Kept (id : Text) (o : Outcome) (one : ℕ) (count : ℕ) (acc' : ℕ × List JobRow)
      : Type 0 where
    counted : acc'.0 ≡ count + one
    kept : outcome_in id acc'.1 ≡ some o

  reconcile_job-Kept :
      (now : ℕ) (job : EffectiveJob) (k : Option Text) (count : ℕ) (rows : List JobRow)
      (acc' : ℕ × List JobRow) (id : Text) (o : Outcome)
      → outcome_in id rows ≡ some o
      → reconcile_job c fuel sha now job k (count, rows) ≡ returns acc'
      → Kept id o (if is_some k then 1 else 0) count acc'
  reconcile_job-Kept now job none count rows acc' id o h e =
      let e' : (count, rows) ≡ acc' = returns_injective e in
      subst (λ a. Kept id o 0 count a) e' (record { counted = omega arith; kept = h })
  reconcile_job-Kept now job (some job_id) count rows acc' id o h e =
      let (next, got, e') =
        >>=-eq-returns (next_run_at c fuel sha job_id job now)
          (λ next.
            returns (count + 1, project c fuel sha job_id job (c.show_instant c.utc now) next rows))
          e in
      subst (λ a. Kept id o 1 count a) (returns_injective e')
        (record { counted = refl; kept = upsert_job-outcome id job_id _ _ _ next _ rows o h })

  reconcile_from-Kept :
      (now : ℕ) (jobs : List EffectiveJob) (count : ℕ) (rows : List JobRow) (acc' : ℕ × List JobRow)
      (id : Text) (o : Outcome)
      → outcome_in id rows ≡ some o
      → reconcile_from c fuel sha now jobs (count, rows) ≡ returns acc'
      → Kept id o (keyed jobs) count acc'
  unfolding reconcile_from
  reconcile_from-Kept now [] count rows acc' id o h e =
      subst (λ a. Kept id o 0 count a) (returns_injective e)
        (record { counted = omega arith; kept = h })
  reconcile_from-Kept now (job ∷ jobs) count rows acc' id o h e =
      let (mid, got, rest) =
        >>=-eq-returns (reconcile_job c fuel sha now job job.id (count, rows))
          (λ acc'. reconcile_from c fuel sha now jobs acc') e in
      let first = reconcile_job-Kept now job job.id count rows mid id o h got in
      let others = reconcile_from-Kept now jobs mid.0 mid.1 acc' id o first.kept rest in
      record { counted = ground (arith, first.counted, others.counted); kept = others.kept }

  -- Reconciling, when it returns, counts the jobs that have an id, leaves the runs alone, and
  -- keeps for every job that was already projected what its runs have written: the last run,
  -- success and failure and the failures in a row.
  pub reconcile-outcomes :
      (config : EffectiveConfig) (now : ℕ) (s t : Store) (count : ℕ) (id : Text) (o : Outcome)
      → outcome_in id s.jobs_state ≡ some o
      → reconcile c fuel sha config now s ≡ returns (count, t)
      → (count ≡ keyed config.jobs) × (outcome_in id t.jobs_state ≡ some o) × (t.runs ≡ s.runs)
  unfolding reconcile
  reconcile-outcomes config now s t count id o h e =
      let (acc, got, e') =
        >>=-eq-returns (reconcile_from c fuel sha now config.jobs (0, s.jobs_state))
          (λ acc. returns (acc.0, record s { jobs_state = acc.1 })) e in
      let same = returns_injective e' in
      let k = reconcile_from-Kept now config.jobs 0 s.jobs_state acc id o h got in
      (
        ap (λ p. p.0) (sym same) ∙ (k.counted ∙ omega arith),
        ap (λ p. outcome_in id p.1.jobs_state) (sym same) ∙ k.kept,
        ap (λ p. p.1.runs) (sym same),
      )
