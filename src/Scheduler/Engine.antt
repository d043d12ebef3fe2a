-- ===== src/Scheduler/Engine.antt =====
-- src/scheduler.rs: the next firing of each kind of schedule.
use periodic.Prelude.{
  ℕ, zero, suc, ◌+◌, ◌-◌, ◌*◌, ◌/◌, Bool, true, false, not, ◌&&◌, Option, none, some, List, ◌++◌,
  Text, codes, text_eq, any, split_once, parse_uint, leb, ltb, ◌==◌, if◌then◌else◌, and_then,
  unwrap_or,
}
use periodic.Run.{Run, returns, stuck, ◌>>=◌, unwrap}
use periodic.Config.Model.{ℤ, pos, negsuc, NormalizedSchedule, minute_aligned, hour_aligned}
use periodic.Config.Parse.{u32_bound}
use periodic.Chrono.{
  Chrono, Weekday, mon, tue, wed, thu, fri, sat, sun, minute_of, hour_of, date_of, and_hm_opt,
  minute_ns, hour_ns, day_ns,
}
use periodic.Scheduler.WallClock.{resolve_timezone, resolve_wall_clock}

pub data ScheduleKind : Type 0 where
  minute hour calendar cron : ScheduleKind

abbrev pub kind_str : ScheduleKind → Text
kind_str ScheduleKind.minute = codes "minute"
kind_str ScheduleKind.hour = codes "hour"
kind_str ScheduleKind.calendar = codes "calendar"
kind_str ScheduleKind.cron = codes "cron"

-- The boundary that `next_minute_aligned` resolves; `every` is not 0.
abbrev pub minute_boundary : ℕ → ℕ → ℕ
minute_boundary every wall =
    date_of wall * day_ns
    + hour_of wall * hour_ns
    + (minute_of wall / every + 1) * every * minute_ns

abbrev pub hour_boundary : ℕ → ℕ → ℕ
hour_boundary every wall = date_of wall * day_ns + (hour_of wall / every + 1) * every * hour_ns

-- A malformed time is midnight; one that is out of range is kept.
abbrev pub hour_minute : Text → Text → Option (ℕ × ℕ)
hour_minute h m =
    and_then (parse_uint u32_bound h)
      (λ hour. and_then (parse_uint u32_bound m) (λ minute. some (hour, minute)))

unfoldable pub parse_hhmm : Text → ℕ × ℕ
parse_hhmm at =
    unwrap_or (and_then (split_once b':' at) (λ parts. hour_minute parts.0 parts.1)) (0, 0)

abbrev pub same_day : Weekday → Weekday → Bool
same_day mon mon = true
same_day tue tue = true
same_day wed wed = true
same_day thu thu = true
same_day fri fri = true
same_day sat sat = true
same_day sun sun = true
same_day _ _ = false

unfoldable pub weekday_from_name : Text → Option Weekday
weekday_from_name name =
    if text_eq name (codes "monday")
    then some mon
    else if text_eq name (codes "tuesday")
    then some tue
    else if text_eq name (codes "wednesday")
    then some wed
    else if text_eq name (codes "thursday")
    then some thu
    else if text_eq name (codes "friday")
    then some fri
    else if text_eq name (codes "saturday")
    then some sat
    else if text_eq name (codes "sunday")
    then some sun
    else none

abbrev pub is_weekend : Weekday → Bool
is_weekend sat = true
is_weekend sun = true
is_weekend _ = false

abbrev pub matches_name : Option Weekday → Weekday → Bool
matches_name none weekday = false
matches_name (some d) weekday = same_day d weekday

-- The closure of `calendar_fires_on`.
unfoldable pub day_fires : Weekday → Text → Bool
day_fires weekday d =
    if text_eq d (codes "day")
    then true
    else if text_eq d (codes "weekday")
    then not (is_weekend weekday)
    else matches_name (weekday_from_name d) weekday

unfoldable pub calendar_fires_on : List Text → Weekday → Bool
calendar_fires_on days weekday = any (day_fires weekday) days

-- The month after a month.
abbrev pub next_month : ℕ → ℕ → ℕ × ℕ
next_month year month = if month == 12 then (year + 1, 1) else (year, month + 1)

-- `on_day.filter(|d| (1..=31).contains(d)).unwrap_or(1)`.
abbrev pub monthly_day : Option ℤ → ℕ
monthly_day none = 1
monthly_day (some (pos d)) = if leb 1 d && leb d 31 then d else 1
monthly_day (some (negsuc d)) = 1

module _ (c : Chrono) (fuel : ℕ) where
  open c use {Tz, to_local, from_ymd_opt, weekday, next_cron_after, zero_nanosecond, show_instant}

  -- Division by zero panics.
  unfoldable pub next_minute_aligned : ℕ → Tz → ℕ → Run ℕ
  next_minute_aligned every tz after =
      let resolved = resolve_wall_clock c fuel tz (minute_boundary every (to_local tz after)) in
      if every == 0 then stuck else resolved

  unfoldable pub next_hour_aligned : ℕ → Tz → ℕ → Run ℕ
  next_hour_aligned every tz after =
      let resolved = resolve_wall_clock c fuel tz (hour_boundary every (to_local tz after)) in
      if every == 0 then stuck else resolved

  unfoldable pub last_day_of_month : ℕ → ℕ → Run ℕ
  last_day_of_month year month = do
    first ← unwrap (from_ymd_opt (next_month year month).0 (next_month year month).1 1)
    returns (c.day (first - 1))

  -- The candidate of a date: `and_hms_opt(..).unwrap()` and the wall clock.
  unfoldable pub candidate : Tz → ℕ × ℕ → ℕ → Run ℕ
  candidate tz at date = do
    naive ← unwrap (and_hm_opt date at.0 at.1)
    resolve_wall_clock c fuel tz naive

  abbrev pub target_day : Option ℤ → Bool → ℕ → ℕ → Run ℕ
  target_day on_day true year month = last_day_of_month year month
  target_day on_day false year month = returns (monthly_day on_day)

  -- The monthly loop; the rounds are the fuel.
  unfoldable pub monthly_loop : ℕ → Tz → ℕ × ℕ → Option ℤ → Bool → ℕ → ℕ → ℕ → Run ℕ
  monthly_loop zero tz at on_day last_day after year month = stuck
  monthly_loop (suc rounds) tz at on_day last_day after year month =
      let rest =
        monthly_loop rounds tz at on_day last_day after (next_month year month).0
          (next_month year month).1 in
      target_day on_day last_day year month >>= λ day. elim (from_ymd_opt year month day) [
        | none ↦ rest
        | some date ↦ candidate tz at date >>= (λ i. if ltb after i then returns i else rest)
      ]

  -- The loop over the weekday set.
  unfoldable pub weekday_loop : ℕ → Tz → ℕ × ℕ → List Text → ℕ → ℕ → Run ℕ
  weekday_loop zero tz at days after date = stuck
  weekday_loop (suc rounds) tz at days after date =
      let rest = weekday_loop rounds tz at days after (date + 1) in
      let tried = candidate tz at date >>= (λ i. if ltb after i then returns i else rest) in
      if calendar_fires_on days (weekday date) then tried else rest

  unfoldable pub next_calendar : List Text → Text → Tz → Option ℤ → Bool → ℕ → Run ℕ
  next_calendar days at tz on_day last_day after =
      let date = date_of (to_local tz after) in
      let monthly =
        monthly_loop fuel tz (parse_hhmm at) on_day last_day after (c.year date) (c.month date) in
      let weekly = weekday_loop fuel tz (parse_hhmm at) days after date in
      if any (λ d. text_eq d (codes "month")) days then monthly else weekly

  pub record Occurrence : Type 0 where
    pub scheduled_for : ℕ
    pub zone : Tz
    pub key : Text

  -- `Occurrence::new`.
  unfoldable pub occurrence_key : Text → ScheduleKind → Tz → ℕ → Text
  occurrence_key job_id kind tz i =
      job_id ++ (codes ":" ++ (kind_str kind ++ (codes ":" ++ show_instant tz i)))

  unfoldable pub new_occurrence : Text → ScheduleKind → Tz → ℕ → Occurrence
  new_occurrence job_id kind tz i = record {
    scheduled_for = i;
    zone = tz;
    key = occurrence_key job_id kind tz i;
  }

  -- The tail of `next_occurrence`: zero the nanoseconds and name the occurrence.
  unfoldable pub occurrence_at : Text → ScheduleKind → Tz → ℕ → Occurrence
  occurrence_at job_id kind tz i =
      new_occurrence job_id kind tz (unwrap_or (zero_nanosecond tz i) i)

  abbrev pub pinned_tz : Tz → Option Text → Tz
  pinned_tz default_tz none = default_tz
  pinned_tz default_tz (some t) = resolve_timezone c (some t)

  abbrev pub wall_occurrence : Text → ScheduleKind → Tz → Run ℕ → Run (Option Occurrence)
  wall_occurrence job_id kind tz (returns i) = returns (some (occurrence_at job_id kind tz i))
  wall_occurrence job_id kind tz stuck = stuck

  abbrev pub cron_occurrence : Text → Tz → Option ℕ → Option Occurrence
  cron_occurrence job_id tz none = none
  cron_occurrence job_id tz (some i) = some (occurrence_at job_id ScheduleKind.cron tz i)

  unfoldable pub next_occurrence : Text → NormalizedSchedule → Tz → ℕ → Run (Option Occurrence)
  next_occurrence job_id (minute_aligned every) default_tz after =
      wall_occurrence job_id ScheduleKind.minute default_tz
        (next_minute_aligned every default_tz after)
  next_occurrence job_id (hour_aligned every) default_tz after =
      wall_occurrence job_id ScheduleKind.hour default_tz (next_hour_aligned every default_tz after)
  next_occurrence job_id (NormalizedSchedule.calendar days at timezone on_day last_day) default_tz
        after =
      let tz = pinned_tz default_tz timezone in
      wall_occurrence job_id ScheduleKind.calendar tz
        (next_calendar days at tz on_day last_day after)
  next_occurrence job_id (NormalizedSchedule.cron expression timezone) default_tz after =
      let tz = pinned_tz default_tz timezone in
      returns (cron_occurrence job_id tz (next_cron_after expression tz after))
