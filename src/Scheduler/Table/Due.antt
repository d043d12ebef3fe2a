-- ===== src/Scheduler/Table/Due.antt =====
-- `pop_due`: each due entry fires once and is rescheduled past `now`, if its job has a next
-- occurrence that is strictly later.
use mathlib.Core.List.{append_assoc, append-nil}
use periodic.Prelude.{
  ℕ, zero, suc, ◌≤◌, ◌<◌, ◌≡◌, refl, Bool, Bool-cases, true, false, Option, none, some, List, [],
  ◌∷◌, ◌++◌, map, arith, inl, inr, All, All-append, All-mono, leb, leb→le, length, keep_if,
  unwrap_or, Text, ap, sym, ◌∙◌, subst, if_true, if_false,
}
use periodic.Run.{returns, >>=-eq-returns}
use periodic.Config.Model.{EffectiveJob}
use periodic.Chrono.{Chrono}
use periodic.Scheduler.Engine.{Occurrence}
use periodic.Scheduler.Table.{
  Entry, entry_le, push, next_of, push_next, DueRun, due_of, pop_due_loop, pop_due,
}
use periodic.Scheduler.Table.Order.{IsSorted, All-push, push_next-IsSorted}

abbrev pub is_due : ℕ → Entry → Bool
is_due now e = leb e.scheduled_for now

keep_if-push :
    (now : ℕ) (e : Entry) (heap : List Entry)
    → is_due now e ≡ false
    → keep_if (is_due now) (push e heap) ≡ keep_if (is_due now) heap
unfolding push
keep_if-push now e [] h = rw h
keep_if-push now e (x ∷ heap) h = elim (Bool-cases (entry_le e x)) [
  | inl le ↦ rw (le, h)
  | inr gt ↦ rw gt (rw (keep_if-push now e heap h))
]

none_due :
    (now : ℕ) (heap : List Entry)
    → All (λ x. now < x.scheduled_for) heap
    → keep_if (is_due now) heap ≡ []
none_due now [] h = refl
none_due now (x ∷ heap) h =
    let late : leb x.scheduled_for now ≡ false = ground arith in rw late (none_due now heap h.1)

module _ (c : Chrono) (fuel now : ℕ) where
  abbrev pub IsLater : Option (Occurrence c fuel) → Type 0
  IsLater none = Unit
  IsLater (some occ) = now < occ.scheduled_for

  -- The engine returns for the entry's job, with nothing or with an occurrence after `now`.
  pub record MovesOn (e : Entry) : Type 0 where
    pub next : Option (Occurrence c fuel)
    pub computed : next_of c fuel (unwrap_or e.job.id []) e.job now ≡ returns next
    pub later : IsLater next

  -- An entry's promise is about its job only.
  MovesOn-job :
      (e : Entry) (i : ℕ) (k : Text)
      → MovesOn e
      → MovesOn (record { scheduled_for = i; key = k; job = e.job })
  MovesOn-job e i k m = record { next = m.next; computed = m.computed; later = m.later }

  push_next-MovesOn :
      (e : Entry) (o : Option (Occurrence c fuel)) (heap : List Entry)
      → MovesOn e
      → All MovesOn heap
      → All MovesOn (push_next c fuel e.job o heap)
  push_next-MovesOn e none heap m a = a
  push_next-MovesOn e (some occ) heap m a = All-push MovesOn _ heap (MovesOn-job e _ _ m) a

  keep_if-push_next :
      (job : EffectiveJob) (o : Option (Occurrence c fuel)) (heap : List Entry)
      → IsLater o
      → keep_if (is_due now) (push_next c fuel job o heap) ≡ keep_if (is_due now) heap
  keep_if-push_next job none heap l = refl
  keep_if-push_next job (some occ) heap l = keep_if-push now _ heap (ground arith)

  pop_round :
      (rounds : ℕ) (e : Entry) (heap : List Entry) (due : List DueRun) (m : MovesOn e)
      → is_due now e ≡ true
      → pop_due_loop c fuel (suc rounds) now (e ∷ heap) due
        ≡ pop_due_loop c fuel rounds now
            (push_next c fuel e.job m.next heap)
            (due ++ (due_of e ∷ []))
  unfolding pop_due_loop
  pop_round rounds e heap due m ready = if_true (is_due now e) _ _ ready ∙ rw m.computed

  fired :
      (e : Entry) (heap later : List Entry) (due : List DueRun)
      → is_due now e ≡ true
      → keep_if (is_due now) later ≡ keep_if (is_due now) heap
      → (due ++ (due_of e ∷ [])) ++ map due_of (keep_if (is_due now) later)
        ≡ due ++ map due_of (keep_if (is_due now) (e ∷ heap))
  fired e heap later due ready same =
      ap (λ t. (due ++ (due_of e ∷ [])) ++ map due_of t) same
      ∙ append_assoc due (due_of e ∷ []) (map due_of (keep_if (is_due now) heap))
      ∙ ap (λ t. due ++ map due_of t) (sym (if_true (is_due now e) _ _ ready))

  all_late :
      (e : Entry) (heap : List Entry)
      → IsSorted (e ∷ heap)
      → is_due now e ≡ false
      → keep_if (is_due now) (e ∷ heap) ≡ []
  all_late e heap s late =
      let gt : now < e.scheduled_for = ground arith in
      if_false (is_due now e) _ _ late
      ∙ none_due now heap (
          All-mono (λ x. e.scheduled_for ≤ x.scheduled_for) (λ x. now < x.scheduled_for)
            (λ x p. omega arith) heap s.0)

  pop_due_loop-once :
      (rounds : ℕ) (heap : List Entry) (due : List DueRun)
      → IsSorted heap
      → All MovesOn heap
      → length (keep_if (is_due now) heap) < rounds
      → (heap' : List Entry) × (pop_due_loop c fuel rounds now heap due
          ≡ returns (due ++ map due_of (keep_if (is_due now) heap), heap'))
  unfolding pop_due_loop
  pop_due_loop-once zero heap due s a h = elim h [ ]
  pop_due_loop-once (suc rounds) [] due s a h =
      ([], ap (λ t. returns (t, [])) (sym (append-nil due)))
  pop_due_loop-once (suc rounds) (e ∷ heap) due s (m, a) h = elim (Bool-cases (is_due now e)) [
    | inl ready ↦
        let later = push_next c fuel e.job m.next heap in
        let same = keep_if-push_next e.job m.next heap m.later in
        let (heap', rest) =
          pop_due_loop-once rounds later (due ++ (due_of e ∷ []))
            (push_next-IsSorted c fuel e.job m.next heap s.1) (push_next-MovesOn e m.next heap m a)
            (omega (
              arith,
              ap (λ t. length t) same,
              ap (λ t. length t)
                  (if_true (is_due now e) (e ∷ keep_if (is_due now) heap)
                    (keep_if (is_due now) heap) ready),
            )) in
        (
          heap',
          pop_round rounds e heap due m ready
              ∙ rest
              ∙ ap (λ t. returns (t, heap')) (fired e heap later due ready same),
        )
    | inr late ↦ (
      e ∷ heap,
      if_false (is_due now e) _ _ late
          ∙ ap (λ t. returns (t, e ∷ heap))
              (sym (append-nil due) ∙ ap (λ t. due ++ map due_of t) (sym (all_late e heap s late))),
    )
  ]

  -- Of a table with its earliest entry first, in which the engine finds for every entry's job no
  -- occurrence or one after `now`, and with more rounds than due entries, `pop_due` returns, and
  -- its runs are the due entries in their order, each once: the occurrences that a job missed
  -- collapse into one run.
  pub pop_due-once :
      (rounds : ℕ) (heap : List Entry)
      → IsSorted heap
      → All MovesOn heap
      → length (keep_if (is_due now) heap) < rounds
      → (heap' : List Entry) × (pop_due c fuel rounds now heap
          ≡ returns (map due_of (keep_if (is_due now) heap), heap'))
  unfolding pop_due
  pop_due-once rounds heap s a h = pop_due_loop-once rounds heap [] s a h

module _ (c : Chrono) (fuel now : ℕ) where
  pop_due_loop-later :
      (rounds : ℕ) (heap heap' : List Entry) (due due' : List DueRun)
      → IsSorted heap
      → All (λ d. d.scheduled_for ≤ now) due
      → pop_due_loop c fuel rounds now heap due ≡ returns (due', heap')
      → IsSorted heap'
        × All (λ x. now < x.scheduled_for) heap'
        × All (λ d. d.scheduled_for ≤ now) due'
  unfolding pop_due_loop
  pop_due_loop-later zero heap heap' due due' s a h = cc
  pop_due_loop-later (suc rounds) [] heap' due due' s a h =
      let ed : due ≡ due' = ground arith in
      let eh : [] ≡ heap' = ground arith in
      subst
        (λ t.
          IsSorted t × All (λ x. now < x.scheduled_for) t × All (λ d. d.scheduled_for ≤ now) due')
        eh (tt, tt, subst (λ t. All (λ d. d.scheduled_for ≤ now) t) ed a)
  pop_due_loop-later (suc rounds) (e ∷ heap) heap' due due' s a h =
      elim (Bool-cases (is_due now e)) [
        | inl ready ↦
            let (o, got, rest) =
              >>=-eq-returns (next_of c fuel (unwrap_or e.job.id []) e.job now)
                (λ o.
                  pop_due_loop c fuel rounds now (push_next c fuel e.job o heap)
                    (due ++ (due_of e ∷ [])))
                (sym (if_true (is_due now e) _ _ ready) ∙ h) in
            pop_due_loop-later rounds (push_next c fuel e.job o heap) heap' (due ++ (due_of e ∷ []))
              due' (push_next-IsSorted c fuel e.job o heap s.1)
              (All-append (λ d. d.scheduled_for ≤ now) due (due_of e ∷ []) a (leb→le _ _ ready, tt))
              rest
        | inr late ↦
            let h' = sym (if_false (is_due now e) _ _ late) ∙ h in
            let ed : due ≡ due' = ground arith in
            let eh : e ∷ heap ≡ heap' = ground arith in
            let gt : now < e.scheduled_for = ground arith in
            subst
              (λ t.
                IsSorted t
                × All (λ x. now < x.scheduled_for) t
                × All (λ d. d.scheduled_for ≤ now) due')
              eh
              (
                s,
                (
                  gt,
                  All-mono (λ x. e.scheduled_for ≤ x.scheduled_for) (λ x. now < x.scheduled_for)
                      (λ x p. omega arith) heap s.0,
                ),
                subst (λ t. All (λ d. d.scheduled_for ≤ now) t) ed a,
              )
      ]

  -- When `pop_due` returns from a table with its earliest entry first, it has returned only runs
  -- that are due, the table is still in order, and every entry left in it, the next wake-up with
  -- it, is after `now`.
  pub pop_due-later :
      (rounds : ℕ) (heap heap' : List Entry) (due : List DueRun)
      → IsSorted heap
      → pop_due c fuel rounds now heap ≡ returns (due, heap')
      → IsSorted heap'
        × All (λ x. now < x.scheduled_for) heap'
        × All (λ d. d.scheduled_for ≤ now) due
  unfolding pop_due
  pop_due-later rounds heap heap' due s h = pop_due_loop-later rounds heap heap' [] due s tt h
