-- ===== src/Validation/Total.antt =====
-- The engine returns for every accepted schedule but a monthly one.
use periodic.Prelude.{
  ℕ, ◌+◌, ◌≤◌, ◌<◌, ◌≡◌, refl, false, Option, some, Text, codes, text_eq, any, arith, ◌∙◌, ap, ◌==◌,
  if_false,
}
use periodic.Run.{returns}
use periodic.Config.Model.{NormalizedSchedule, minute_aligned, hour_aligned, calendar, cron}
use periodic.Config.Shape.{HasDays}
use periodic.Chrono.{Chrono, ZoneLaws, GapsEnd, succ}
use periodic.Scheduler.Engine.{
  ScheduleKind, Occurrence, minute_boundary, hour_boundary, next_minute_aligned, next_hour_aligned,
  next_occurrence, wall_occurrence, pinned_tz, occurrence_at, cron_occurrence,
}
use periodic.Scheduler.Gap.{resolve_wall_clock-returns}
use periodic.Scheduler.Calendar.Total.{next_calendar-returns}
use periodic.Validation.Runnable.{IsSound}

abbrev pub IsWeekly : NormalizedSchedule → Type 0
IsWeekly (minute_aligned n) = Unit
IsWeekly (hour_aligned n) = Unit
IsWeekly (calendar days at tz on_day last_day) = any (λ d. text_eq d (codes "month")) days ≡ false
IsWeekly (cron e tz) = Unit

-- A calendar of the real world, with fuel for its longest gap and for ten dates.
pub record IsWorld (c : Chrono) (fuel : ℕ) : Type 0 where
  pub zones : (tz : c.Tz) → ZoneLaws c tz
  pub gaps : (tz : c.Tz) → GapsEnd c tz fuel
  pub weeks : (date : ℕ) → c.weekday (date + 1) ≡ succ (c.weekday date)
  pub ten_dates : 10 ≤ fuel

module _ (c : Chrono) (fuel : ℕ) (world : IsWorld c fuel) where
  minute_returns :
      (n : ℕ) (tz : c.Tz) (after : ℕ)
      → 0 < n
      → (i : ℕ) × (next_minute_aligned c fuel n tz after ≡ returns i)
  unfolding next_minute_aligned
  minute_returns n tz after pos =
      let (i, r) =
        resolve_wall_clock-returns c fuel tz (minute_boundary n (c.to_local tz after))
          (world.gaps tz) in
      let nz : (n == 0) ≡ false = ground arith in (i, if_false (n == 0) _ _ nz ∙ r)

  hour_returns :
      (n : ℕ) (tz : c.Tz) (after : ℕ)
      → 0 < n
      → (i : ℕ) × (next_hour_aligned c fuel n tz after ≡ returns i)
  unfolding next_hour_aligned
  hour_returns n tz after pos =
      let (i, r) =
        resolve_wall_clock-returns c fuel tz (hour_boundary n (c.to_local tz after))
          (world.gaps tz) in
      let nz : (n == 0) ≡ false = ground arith in (i, if_false (n == 0) _ _ nz ∙ r)

  -- For every sound schedule that is not monthly, the engine returns, it neither panics nor loops,
  -- if the zones obey their laws, the days of the week follow each other, and the fuel covers ten
  -- dates and the longest gap of a zone in minutes.
  pub next_occurrence-returns :
      (job_id : Text) (schedule : NormalizedSchedule) (tz : c.Tz) (after : ℕ)
      → IsSound c schedule
      → HasDays schedule
      → IsWeekly schedule
      → (o : Option (Occurrence c fuel)) × (next_occurrence c fuel job_id schedule tz after
          ≡ returns o)
  unfolding next_occurrence
  next_occurrence-returns job_id (minute_aligned n) tz after s d w =
      let (i, r) = minute_returns n tz after s.0 in
      (
        some (occurrence_at c fuel job_id ScheduleKind.minute tz i),
        ap (wall_occurrence c fuel job_id ScheduleKind.minute tz) r,
      )
  next_occurrence-returns job_id (hour_aligned n) tz after s d w =
      let (i, r) = hour_returns n tz after s.0 in
      (
        some (occurrence_at c fuel job_id ScheduleKind.hour tz i),
        ap (wall_occurrence c fuel job_id ScheduleKind.hour tz) r,
      )
  next_occurrence-returns job_id (calendar days at zone on_day last_day) tz after s d w =
      let tz' = pinned_tz c fuel tz zone in
      let (i, r) =
        next_calendar-returns c fuel tz' (world.zones tz') (world.gaps tz') days at on_day last_day
          after world.weeks d.0 d.1 w s world.ten_dates in
      (
        some (occurrence_at c fuel job_id ScheduleKind.calendar tz' i),
        ap (wall_occurrence c fuel job_id ScheduleKind.calendar tz') r,
      )
  next_occurrence-returns job_id (cron e _) tz after s d w =
      (cron_occurrence c fuel job_id _ (c.next_cron_after e _ after), refl)
