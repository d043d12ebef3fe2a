-- ===== src/Scheduler/Table/Fold.antt =====
-- What becomes of `pop_due` in the second pass of a fold: the loop of src/scheduler.rs never ends.
use periodic.Prelude.{
  ℕ, zero, suc, ◌%◌, ◌≤◌, ◌<◌, ◌≡◌, refl, Bool-cases, false, Option, none, some, List, [], ◌∷◌,
  ◌++◌, arith, inl, inr, leb, le→leb, unwrap_or, Text, ap, sym, ◌∙◌, if_true, ◌==◌, Option-cases,
  subst,
}
use periodic.Run.{Run, returns, stuck, ◌>>=◌, returns_injective}
use periodic.Config.Model.{EffectiveJob, minute_aligned}
use periodic.Chrono.{Chrono, ambiguous, ZoneLaws, second_ns}
use periodic.Scheduler.WallClock.{resolve_timezone, resolve_wall_clock}
use periodic.Scheduler.Engine.{
  Occurrence, ScheduleKind, minute_boundary, next_minute_aligned, next_occurrence, occurrence_at,
  new_occurrence, wall_occurrence,
}
use periodic.Scheduler.Table.{
  Entry, entry_le, push, next_of, push_next, DueRun, due_of, pop_due_loop, pop_due,
}
use periodic.Scheduler.Table.Order.{IsSorted, push_next-IsSorted}

-- Some entry of a table has a property.
pub data Has {κ} (P : Entry → Type κ) : List Entry → Type κ where
  here : {e : Entry} {heap : List Entry} → P e → Has P (e ∷ heap)
  there : {e : Entry} {heap : List Entry} → Has P heap → Has P (e ∷ heap)

Has-push_self {κ} : (P : Entry → Type κ) (e : Entry) (heap : List Entry) → P e → Has P (push e heap)
unfolding push
Has-push_self P e [] p = here p
Has-push_self P e (x ∷ heap) p = elim (Bool-cases (entry_le e x)) [
  | inl le ↦ rw le (here p)
  | inr gt ↦ rw gt (there (Has-push_self P e heap p))
]

Has-push {κ} :
    (P : Entry → Type κ) (e : Entry) {heap : List Entry} → Has P heap → Has P (push e heap)
unfolding push
Has-push P e (here {e = x} {heap} p) = elim (Bool-cases (entry_le e x)) [
  | inl le ↦ rw le (there (here p))
  | inr gt ↦ rw gt (here p)
]
Has-push P e (there {e = x} {heap} h) = elim (Bool-cases (entry_le e x)) [
  | inl le ↦ rw le (there (there h))
  | inr gt ↦ rw gt (there (Has-push P e h))
]

module _ (c : Chrono) (fuel now : ℕ) where
  -- The job's next occurrence after `now` is not after `now`.
  pub record FallsBack (job : EffectiveJob) : Type 0 where
    pub occ : Occurrence c fuel
    pub computed : next_of c fuel (unwrap_or job.id []) job now ≡ returns (some occ)
    pub past : occ.scheduled_for ≤ now

  -- A due entry whose job falls back.
  pub record IsLooping (e : Entry) : Type 0 where
    pub due : e.scheduled_for ≤ now
    pub back : FallsBack e.job

  Has-push_next :
      (job : EffectiveJob) (o : Option (Occurrence c fuel)) {heap : List Entry}
      → Has IsLooping heap
      → Has IsLooping (push_next c fuel job o heap)
  Has-push_next job none h = h
  Has-push_next job (some occ) h = Has-push IsLooping _ h

  -- The entry that was popped is pushed again, still due.
  again :
      (e : Entry) (heap : List Entry) (b : IsLooping e)
      → Has IsLooping (push_next c fuel e.job (some b.back.occ) heap)
  again e heap b = Has-push_self IsLooping _ heap (record { due = b.back.past; back = b.back })

  head_due :
      (e : Entry) (heap : List Entry)
      → IsSorted (e ∷ heap)
      → Has IsLooping heap
      → e.scheduled_for ≤ now
  head_due e [] s h = elim h [ ]
  head_due e (x ∷ heap) s (here b) = omega (arith, s.0.0, b.due)
  head_due e (x ∷ heap) s (there h) = head_due e heap ((s.0.1, s.1.1)) h

  stuck_round :
      (rounds : ℕ) (e : Entry) (heap : List Entry) (due : List DueRun)
      → e.scheduled_for ≤ now
      → ((o : Option (Occurrence c fuel))
          → next_of c fuel (unwrap_or e.job.id []) e.job now ≡ returns o
          → pop_due_loop c fuel rounds now (push_next c fuel e.job o heap) (due ++ (due_of e ∷ []))
            ≡ stuck)
      → pop_due_loop c fuel (suc rounds) now (e ∷ heap) due ≡ stuck
  unfolding pop_due_loop
  stuck_round rounds e heap due d f =
      if_true (leb e.scheduled_for now) _ _ (le→leb _ _ d)
      ∙ go (next_of c fuel (unwrap_or e.job.id []) e.job now) f
    where
      go :
          (r : Run (Option (Occurrence c fuel)))
          → ((o : Option (Occurrence c fuel))
              → r ≡ returns o
              → pop_due_loop c fuel rounds now
                  (push_next c fuel e.job o heap)
                  (due ++ (due_of e ∷ []))
                ≡ stuck)
          → (r >>= (λ o.
              pop_due_loop c fuel rounds now
                (push_next c fuel e.job o heap)
                (due ++ (due_of e ∷ []))))
            ≡ stuck
      go (returns o) g = g o refl
      go stuck g = refl

  pop_due_loop-stuck :
      (rounds : ℕ) (heap : List Entry) (due : List DueRun)
      → IsSorted heap
      → Has IsLooping heap
      → pop_due_loop c fuel rounds now heap due ≡ stuck
  unfolding pop_due_loop
  pop_due_loop-stuck zero heap due s h = refl
  pop_due_loop-stuck (suc rounds) [] due s h = elim h [ ]
  pop_due_loop-stuck (suc rounds) (e ∷ heap) due s (here b) =
      stuck_round rounds e heap due b.due (λ o got.
        pop_due_loop-stuck rounds (push_next c fuel e.job o heap) (due ++ (due_of e ∷ []))
          (push_next-IsSorted c fuel e.job o heap s.1)
          (let same : some b.back.occ ≡ o = returns_injective (sym b.back.computed ∙ got) in
            subst (λ t. Has IsLooping (push_next c fuel e.job t heap)) same (again e heap b)))
  pop_due_loop-stuck (suc rounds) (e ∷ heap) due s (there h) =
      stuck_round rounds e heap due (head_due e heap s h) (λ o got.
        pop_due_loop-stuck rounds (push_next c fuel e.job o heap) (due ++ (due_of e ∷ []))
          (push_next-IsSorted c fuel e.job o heap s.1) (Has-push_next e.job o h))

  -- While a due entry's job has a next occurrence that is not after `now`, `pop_due` never returns,
  -- whatever the rounds it is given and whatever else the table holds.
  pub pop_due-stuck :
      (rounds : ℕ) (heap : List Entry)
      → IsSorted heap
      → Has IsLooping heap
      → pop_due c fuel rounds now heap ≡ stuck
  unfolding pop_due
  pop_due-stuck rounds heap s h = pop_due_loop-stuck rounds heap [] s h

  -- A whole second is not moved by zeroing its nanoseconds.
  occurrence_at-whole :
      (id : Text) (kind : ScheduleKind) (tz : c.Tz) (i : ℕ)
      → ZoneLaws c tz
      → i % second_ns ≡ 0
      → (occurrence_at c fuel id kind tz i).scheduled_for ≡ i
  unfolding occurrence_at new_occurrence
  occurrence_at-whole id kind tz i laws whole = elim (Option-cases (c.zero_nanosecond tz i)) [
    | inl e ↦ rw e
    | inr (j, e) ↦ rw e (laws.zeroed i j whole e)
  ]

  minute_boundary-whole : (every wall : ℕ) → minute_boundary every wall % second_ns ≡ 0
  minute_boundary-whole every wall = omega arith

  -- A minute-aligned job of a zone in the second pass of a fold falls back, when its next boundary is
  -- inside the fold.
  pub minute_aligned-FallsBack :
      (job : EffectiveJob) (every e l : ℕ)
      → ZoneLaws c (resolve_timezone c job.timezone)
      → job.schedule ≡ minute_aligned every
      → 0 < every
      → c.from_local
          (resolve_timezone c job.timezone)
          (minute_boundary every (c.to_local (resolve_timezone c job.timezone) now))
        ≡ ambiguous e l
      → e ≤ now
      → FallsBack job
  unfolding next_of next_occurrence next_minute_aligned resolve_wall_clock
  minute_aligned-FallsBack job every e l laws sch pos amb past =
      let tz = resolve_timezone c job.timezone in
      let id = unwrap_or job.id [] in
      let nz : (every == 0) ≡ false = ground arith in
      let at : next_minute_aligned c fuel every tz now ≡ returns e =
        rw nz (rw (amb, resolve_wall_clock)) in
      let shown : c.to_local tz e ≡ minute_boundary every (c.to_local tz now) =
        laws.earliest_shows _ e l amb in
      let whole : e % second_ns ≡ 0 =
        sym (laws.whole_seconds e)
        ∙ ap (λ t. t % second_ns) shown
        ∙ minute_boundary-whole every (c.to_local tz now) in
      record {
        occ = occurrence_at c fuel id ScheduleKind.minute tz e;
        computed =
            ap (λ s. next_occurrence c fuel id s tz now) sch
            ∙ ap (wall_occurrence c fuel id ScheduleKind.minute tz) at;
        past =
            subst (λ t. t ≤ now) (sym (occurrence_at-whole id ScheduleKind.minute tz e laws whole))
              past;
      }

  -- With a minute-aligned job first in an ordered table and due, `now` in the second pass of a
  -- fold of its zone and the job's next boundary inside the fold, `pop_due` never returns,
  -- whatever the rounds it is given. The interval is not 0 and the zone obeys its laws.
  pub pop_due-fold :
      (rounds : ℕ) (entry : Entry) (heap : List Entry) (every e l : ℕ)
      → IsSorted (entry ∷ heap)
      → entry.scheduled_for ≤ now
      → ZoneLaws c (resolve_timezone c entry.job.timezone)
      → entry.job.schedule ≡ minute_aligned every
      → 0 < every
      → c.from_local
          (resolve_timezone c entry.job.timezone)
          (minute_boundary every (c.to_local (resolve_timezone c entry.job.timezone) now))
        ≡ ambiguous e l
      → e ≤ now
      → pop_due c fuel rounds now (entry ∷ heap) ≡ stuck
  pop_due-fold rounds entry heap every e l s d laws sch pos amb past =
      pop_due-stuck rounds (entry ∷ heap) s (
        here (record {
          due = d;
          back = minute_aligned-FallsBack entry.job every e l laws sch pos amb past;
        }))
