-- ===== src/Scheduler/Table.antt =====
-- src/scheduler.rs: `ScheduleTable`. The `BinaryHeap` of `Reverse` entries is the standard library's
-- priority queue; it is a list in the order of `Entry`, so `peek` is the head and `pop` the tail.
pub mod Order
pub mod Due
pub mod Fold
use periodic.Prelude.{
  ℕ, zero, suc, Bool, true, false, Option, none, some, List, [], ◌∷◌, ◌++◌, Text, length, ltb, leb,
  ◌==◌, if◌then◌else◌, unwrap_or,
}
use periodic.Run.{Run, returns, stuck, ◌>>=◌}
use periodic.Config.Model.{EffectiveJob, EffectiveConfig}
use periodic.Chrono.{Chrono}
use periodic.Scheduler.WallClock.{resolve_timezone}
use periodic.Scheduler.Engine.{Occurrence, next_occurrence}

-- The order of `String`, by code points.
abbrev pub text_le : Text → Text → Bool
text_le [] t = true
text_le (x ∷ s) [] = false
text_le (x ∷ s) (y ∷ t) = if ltb x y then true else if x == y then text_le s t else false

pub record DueRun : Type 0 where
  pub job : EffectiveJob
  pub occurrence_key : Text
  pub scheduled_for : ℕ

pub record Entry : Type 0 where
  pub scheduled_for : ℕ
  pub key : Text
  pub job : EffectiveJob

-- `Entry::cmp`: the instant, then the key.
abbrev pub entry_le : Entry → Entry → Bool
entry_le a b =
    if ltb a.scheduled_for b.scheduled_for
    then true
    else if a.scheduled_for == b.scheduled_for
    then text_le a.key b.key
    else false

-- `BinaryHeap::push`.
unfoldable pub push : Entry → List Entry → List Entry
push e [] = e ∷ []
push e (x ∷ heap) = if entry_le e x then e ∷ x ∷ heap else x ∷ push e heap

unfoldable pub next_wake : List Entry → Option ℕ
next_wake [] = none
next_wake (e ∷ heap) = some e.scheduled_for

abbrev pub due_of : Entry → DueRun
due_of e = record { job = e.job; occurrence_key = e.key; scheduled_for = e.scheduled_for }

module _ (c : Chrono) (fuel : ℕ) where
  -- The next occurrence of a job, in its own time zone.
  unfoldable pub next_of : Text → EffectiveJob → ℕ → Run (Option (Occurrence c fuel))
  next_of job_id job now =
      next_occurrence c fuel job_id job.schedule (resolve_timezone c job.timezone) now

  abbrev pub push_next : EffectiveJob → Option (Occurrence c fuel) → List Entry → List Entry
  push_next job none heap = heap
  push_next job (some occ) heap =
      push (record { scheduled_for = occ.scheduled_for; key = occ.key; job = job }) heap

  -- One round of `ScheduleTable::build`.
  abbrev pub build_step : ℕ → EffectiveJob → Option Text → List Entry → Run (List Entry)
  build_step now job none heap = returns heap
  build_step now job (some job_id) heap =
      if job.enabled
      then next_of job_id job now >>= (λ occ. returns (push_next job occ heap))
      else returns heap

  unfoldable pub build_from : ℕ → List EffectiveJob → List Entry → Run (List Entry)
  build_from now [] heap = returns heap
  build_from now (job ∷ jobs) heap =
      build_step now job job.id heap >>= (λ heap'. build_from now jobs heap')

  unfoldable pub build : EffectiveConfig → ℕ → Run (List Entry)
  unfolding build_from
  build config now = build_from now config.jobs []

  -- The loop of `pop_due`, with the runs collected so far; the rounds are the fuel.
  unfoldable pub pop_due_loop : ℕ → ℕ → List Entry → List DueRun → Run (List DueRun × List Entry)
  pop_due_loop zero now heap due = stuck
  pop_due_loop (suc rounds) now [] due = returns (due, [])
  pop_due_loop (suc rounds) now (e ∷ heap) due =
      let popped =
        next_of (unwrap_or e.job.id []) e.job now
        >>= (λ occ. pop_due_loop rounds now (push_next e.job occ heap) (due ++ (due_of e ∷ []))) in
      if leb e.scheduled_for now then popped else returns (due, e ∷ heap)

  -- `ScheduleTable::pop_due`.
  unfoldable pub pop_due : ℕ → ℕ → List Entry → Run (List DueRun × List Entry)
  unfolding pop_due_loop
  pop_due rounds now heap = pop_due_loop rounds now heap []
