-- ===== src/Scheduler/Tests.antt =====
-- Examples of the engine and of the schedule table.
use periodic.Prelude.{
  ℕ, ◌+◌, ◌-◌, ◌≤◌, ◌<◌, ◌≡◌, ◌⊎◌, refl, true, false, Option, none, some, List, [], ◌∷◌, codes, All,
  any, text_eq, arith,
}
use periodic.Run.{returns, stuck}
use periodic.Chrono.{ambiguous, date_of}
use periodic.Chrono.Fixed.{fixed, fixed-ZoneLaws, turn}
use periodic.Scheduler.WallClock.{resolve_timezone, probe_gap, resolve_wall_clock}
use periodic.Scheduler.Engine.{
  ScheduleKind, Occurrence, minute_boundary, parse_hhmm, weekday_from_name, day_fires,
  calendar_fires_on, next_minute_aligned, candidate, weekday_loop, next_calendar, occurrence_key,
  new_occurrence, occurrence_at, next_occurrence,
}
use periodic.Scheduler.Gap.{Resolved, resolve_wall_clock-Resolved}
use periodic.Scheduler.Aligned.{next_minute_aligned-lt, next_minute_aligned-fold}
use periodic.Scheduler.Calendar.{FirstFiring, next_calendar-lt}
use periodic.Scheduler.Table.{Entry, push, due_of, next_of, build_from, build, pop_due}
use periodic.Scheduler.Table.Order.{IsSorted, IsScheduled, build-IsSorted}
use periodic.Scheduler.Table.Due.{MovesOn, pop_due-once, pop_due-later}
use periodic.Scheduler.Table.Fold.{pop_due-fold}
use periodic.Samples.{poll, folded_poll, config}

-- The local time 0 is in a gap of an hour, at whose end it resolves.
in_gap : resolve_wall_clock fixed 100 true 0 ≡ returns 0
unfolding resolve_wall_clock probe_gap
in_gap = refl

resolve_wall_clock-Resolved_example : Resolved fixed true 0 0
resolve_wall_clock-Resolved_example = resolve_wall_clock-Resolved fixed 100 true 0 0 in_gap

next_quarter : next_minute_aligned fixed 100 15 false 901000000000 ≡ returns 1800000000000
unfolding next_minute_aligned resolve_wall_clock
next_quarter = refl

next_minute_aligned-lt_example : 901000000000 < 1800000000000
next_minute_aligned-lt_example =
    next_minute_aligned-lt fixed false 100 15 901000000000 1800000000000 (fixed-ZoneLaws false)
      (λ e l h. cc) next_quarter

next_friday :
    next_calendar fixed 100 (codes "friday" ∷ []) (codes "02:30") false none false 0
    ≡ returns 95400000000000
unfolding next_calendar weekday_loop candidate calendar_fires_on day_fires weekday_from_name
    parse_hhmm resolve_wall_clock
next_friday = refl

next_calendar-lt_example :
    (0 < 95400000000000)
    × ((any (λ d. text_eq d (codes "month")) (codes "friday" ∷ []) ≡ true)
        ⊎ FirstFiring fixed 100 false
            (parse_hhmm (codes "02:30"))
            0
            (codes "friday" ∷ [])
            95400000000000
            (date_of (fixed.to_local false 0)))
next_calendar-lt_example =
    next_calendar-lt fixed 100 (codes "friday" ∷ []) (codes "02:30") false none false 0
      95400000000000 next_friday

abbrev now : ℕ
now = 901000000000

abbrev due_entry : Entry
due_entry = record { scheduled_for = 900000000000; key = codes "k"; job = poll }

abbrev next_poll : Option (Occurrence fixed 100)
next_poll = some (occurrence_at fixed 100 (codes "poll") ScheduleKind.minute false 1800000000000)

poll-MovesOn : MovesOn fixed 100 now due_entry
unfolding next_of next_occurrence next_minute_aligned resolve_wall_clock resolve_timezone
    occurrence_at new_occurrence
poll-MovesOn = record { next = next_poll; computed = refl; later = omega arith }

popped :
    (heap' : List Entry) × (pop_due fixed 100 2 now (due_entry ∷ [])
      ≡ returns (due_of due_entry ∷ [], heap'))
popped = pop_due-once fixed 100 now 2 (due_entry ∷ []) (tt, tt) (poll-MovesOn, tt) (omega arith)

pop_due-once_example :
    (heap' : List Entry) × (pop_due fixed 100 2 now (due_entry ∷ [])
      ≡ returns (due_of due_entry ∷ [], heap'))
pop_due-once_example =
    pop_due-once fixed 100 now 2 (due_entry ∷ []) (tt, tt) (poll-MovesOn, tt) (omega arith)

pop_due-later_example :
    IsSorted popped.0
    × All (λ x. now < x.scheduled_for) popped.0
    × All (λ d. d.scheduled_for ≤ now) (due_of due_entry ∷ [])
pop_due-later_example =
    pop_due-later fixed 100 now 2 (due_entry ∷ []) popped.0 (due_of due_entry ∷ []) (tt, tt)
      popped.1

abbrev built : List Entry
built =
    record {
      scheduled_for = 1800000000000;
      key = occurrence_key fixed 100 (codes "poll") ScheduleKind.minute false 1800000000000;
      job = poll;
    }
    ∷ []

builds : build fixed 100 config now ≡ returns built
unfolding build build_from push next_of next_occurrence next_minute_aligned resolve_wall_clock
    resolve_timezone occurrence_at new_occurrence
builds = refl

build-IsSorted_example : IsSorted built × All (IsScheduled fixed 100) built
build-IsSorted_example = build-IsSorted fixed 100 config now built builds

-- Ten minutes into the second pass of the hour, the next quarter resolves to its first pass.
abbrev second_pass : ℕ
second_pass = turn + 600000000000

next_minute_aligned-fold_example :
    ¬ ((i : ℕ) → next_minute_aligned fixed 100 15 true second_pass ≡ returns i → second_pass < i)
next_minute_aligned-fold_example =
    next_minute_aligned-fold fixed true 100 15 second_pass (turn + 900000000000 - 3600000000000)
      (turn + 900000000000) (omega arith) refl (omega arith)

abbrev folded_entry : Entry
folded_entry = record { scheduled_for = turn; key = codes "k"; job = folded_poll }

in_fold :
    fixed.from_local (resolve_timezone fixed folded_poll.timezone) (
      minute_boundary 15 (fixed.to_local (resolve_timezone fixed folded_poll.timezone) second_pass))
    ≡ ambiguous (turn + 900000000000 - 3600000000000) (turn + 900000000000)
unfolding resolve_timezone
in_fold = refl

pop_due-fold_example : pop_due fixed 100 1000 second_pass (folded_entry ∷ []) ≡ stuck
pop_due-fold_example =
    pop_due-fold fixed 100 second_pass 1000 folded_entry [] 15 (turn + 900000000000 - 3600000000000)
      (turn + 900000000000) (tt, tt) (omega arith) (fixed-ZoneLaws _) refl (omega arith) in_fold
      (omega arith)
