-- ===== src/Scheduler/Table/Order.antt =====
-- The order of the schedule table: the earliest entry stands first.
use periodic.Prelude.{
  if_true, if_false, sym, ◌∙◌, ℕ, ◌≤◌, ◌≡◌, refl, Bool-cases, true, false, Option, none, some, List,
  [], ◌∷◌, arith, inl, inr, All, All-mono, ltb, subst, Text,
}
use periodic.Run.{returns, >>=-eq-returns}
use periodic.Config.Model.{EffectiveJob, EffectiveConfig}
use periodic.Chrono.{Chrono}
use periodic.Scheduler.Engine.{Occurrence}
use periodic.Scheduler.Table.{
  Entry, entry_le, push, next_of, push_next, build_step, build_from, build,
}

abbrev pub IsSorted : List Entry → Type 0
IsSorted [] = Unit
IsSorted (e ∷ heap) = All (λ x. e.scheduled_for ≤ x.scheduled_for) heap × IsSorted heap

pub All-push {κ} :
    (P : Entry → Type κ) (e : Entry) (heap : List Entry) → P e → All P heap → All P (push e heap)
unfolding push
All-push P e [] p h = (p, tt)
All-push P e (x ∷ heap) p h = elim (Bool-cases (entry_le e x)) [
  | inl le ↦ rw le (p, h)
  | inr gt ↦ rw gt (h.0, All-push P e heap p h.1)
]

entry_le-le : (a b : Entry) → entry_le a b ≡ true → a.scheduled_for ≤ b.scheduled_for
entry_le-le a b h = elim (Bool-cases (ltb a.scheduled_for b.scheduled_for)) [
  | inl p ↦ ground arith
  | inr p ↦ ground arith
]

entry_le-gt : (a b : Entry) → entry_le a b ≡ false → b.scheduled_for ≤ a.scheduled_for
entry_le-gt a b h = ground arith

pub push-IsSorted : (e : Entry) (heap : List Entry) → IsSorted heap → IsSorted (push e heap)
unfolding push
push-IsSorted e [] s = (tt, tt)
push-IsSorted e (x ∷ heap) s = elim (Bool-cases (entry_le e x)) [
  | inl le ↦
      let first = entry_le-le e x le in
      rw le (
        (
          first,
          All-mono (λ y. x.scheduled_for ≤ y.scheduled_for) (λ y. e.scheduled_for ≤ y.scheduled_for)
              (λ y p. omega arith) heap s.0,
        ),
        s,
      )
  | inr gt ↦ rw gt (
    All-push (λ y. x.scheduled_for ≤ y.scheduled_for) e heap (entry_le-gt e x gt) s.0,
    push-IsSorted e heap s.1,
  )
]

module _ (c : Chrono) (fuel : ℕ) where
  pub push_next-IsSorted :
      (job : EffectiveJob) (o : Option (Occurrence c fuel)) (heap : List Entry)
      → IsSorted heap
      → IsSorted (push_next c fuel job o heap)
  push_next-IsSorted job none heap s = s
  push_next-IsSorted job (some occ) heap s = push-IsSorted _ heap s

  -- Every entry of a built table belongs to a job that is enabled and has an id.
  pub record IsScheduled (e : Entry) : Type 0 where
    pub enabled : e.job.enabled ≡ true
    pub id : Text
    pub keyed : e.job.id ≡ some id

  push_next-All :
      (job : EffectiveJob) (o : Option (Occurrence c fuel)) (heap : List Entry) (id : Text)
      → job.enabled ≡ true
      → job.id ≡ some id
      → All IsScheduled heap
      → All IsScheduled (push_next c fuel job o heap)
  push_next-All job none heap id on keyed h = h
  push_next-All job (some occ) heap id on keyed h =
      All-push IsScheduled _ heap (record { enabled = on; id = id; keyed = keyed }) h

  build_step-inv :
      (now : ℕ) (job : EffectiveJob) (o : Option Text) (heap heap' : List Entry)
      → job.id ≡ o
      → IsSorted heap
      → All IsScheduled heap
      → build_step c fuel now job o heap ≡ returns heap'
      → IsSorted heap' × All IsScheduled heap'
  build_step-inv now job none heap heap' k s a h =
      let e : heap ≡ heap' = ground arith in subst (λ t. IsSorted t × All IsScheduled t) e (s, a)
  build_step-inv now job (some job_id) heap heap' k s a h = elim (Bool-cases job.enabled) [
    | inl on ↦
        let (occ, got, e) =
          >>=-eq-returns (next_of c fuel job_id job now)
            (λ o. returns (push_next c fuel job o heap)) (sym (if_true job.enabled _ _ on) ∙ h) in
        let e' : push_next c fuel job occ heap ≡ heap' = ground arith in
        subst (λ t. IsSorted t × All IsScheduled t) e'
          (push_next-IsSorted job occ heap s, push_next-All job occ heap job_id on k a)
    | inr off ↦
        let h' : returns heap ≡ returns heap' = sym (if_false job.enabled _ _ off) ∙ h in
        let e : heap ≡ heap' = ground arith in subst (λ t. IsSorted t × All IsScheduled t) e (s, a)
  ]

  build_from-inv :
      (now : ℕ) (jobs : List EffectiveJob) (heap heap' : List Entry)
      → IsSorted heap
      → All IsScheduled heap
      → build_from c fuel now jobs heap ≡ returns heap'
      → IsSorted heap' × All IsScheduled heap'
  unfolding build_from
  build_from-inv now [] heap heap' s a h =
      let e : heap ≡ heap' = ground arith in subst (λ t. IsSorted t × All IsScheduled t) e (s, a)
  build_from-inv now (job ∷ jobs) heap heap' s a h =
      let (mid, got, rest) =
        >>=-eq-returns (build_step c fuel now job job.id heap) (λ t. build_from c fuel now jobs t)
          h in
      let (s', a') = build_step-inv now job job.id heap mid refl s a got in
      build_from-inv now jobs mid heap' s' a' rest

  -- A table that `build` returns has its earliest entry first, and holds only jobs that are enabled
  -- and have an id.
  pub build-IsSorted :
      (config : EffectiveConfig) (now : ℕ) (heap : List Entry)
      → build c fuel config now ≡ returns heap
      → IsSorted heap × All IsScheduled heap
  unfolding build
  build-IsSorted config now heap h = build_from-inv now config.jobs [] heap tt tt h
