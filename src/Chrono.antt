-- ===== src/Chrono.antt =====
-- What the scheduler uses of chrono, chrono-tz, iana-time-zone and croner, which are not part of the
-- repository. An instant is its distance in nanoseconds from an epoch before all dates, a wall-clock
-- time the distance from a midnight in the same unit, and a date its number of days.
pub mod Fixed
use periodic.Prelude.{
  ℕ, ◌+◌, ◌-◌, ◌*◌, ◌/◌, ◌%◌, ◌≤◌, ◌<◌, ◌≡◌, Bool, ◌&&◌, Option, none, some, Text, ltb,
  if◌then◌else◌,
}

abbrev pub second_ns : ℕ
second_ns = 1000000000

abbrev pub minute_ns : ℕ
minute_ns = 60000000000

abbrev pub hour_ns : ℕ
hour_ns = 3600000000000

abbrev pub day_ns : ℕ
day_ns = 86400000000000

pub data Weekday : Type 0 where
  mon tue wed thu fri sat sun : Weekday

-- `Weekday::succ`.
abbrev pub succ : Weekday → Weekday
succ mon = tue
succ tue = wed
succ wed = thu
succ thu = fri
succ fri = sat
succ sat = sun
succ sun = mon

-- `chrono::offset::LocalResult`; `gap` is its `None`.
pub data LocalResult : Type 0 where
  single : ℕ → LocalResult
  ambiguous : (earliest latest : ℕ) → LocalResult
  gap : LocalResult

-- `Timelike::minute` and `hour`, and `NaiveDateTime::date`.
abbrev pub minute_of : ℕ → ℕ
minute_of wall = (wall / minute_ns) % 60

abbrev pub hour_of : ℕ → ℕ
hour_of wall = (wall / hour_ns) % 24

abbrev pub date_of : ℕ → ℕ
date_of wall = wall / day_ns

-- `NaiveDate::and_hms_opt` with no seconds.
abbrev pub and_hm_opt : ℕ → ℕ → ℕ → Option ℕ
and_hm_opt date h m =
    if ltb h 24 && ltb m 60 then some (date * day_ns + h * hour_ns + m * minute_ns) else none

-- The functions. `zone_from_str` is `Tz::from_str`, `system_zone` is `get_timezone`, `to_local` is
-- `naive_local`, `from_local` is `from_local_datetime`, `zero_nanosecond` is `with_nanosecond(0)`,
-- `next_cron_after` is croner's parse followed by `find_next_occurrence`, and `show_instant` is
-- `to_rfc3339`, `read_instant` its inverse and `show_micros` prints `timestamp_micros`.
pub record Chrono : Type 1 where
  pub Tz : Type 0
  pub utc : Tz
  pub zone_from_str : Text → Option Tz
  pub system_zone : Option Text
  pub to_local : Tz → ℕ → ℕ
  pub from_local : Tz → ℕ → LocalResult
  pub zero_nanosecond : Tz → ℕ → Option ℕ
  pub from_ymd_opt : ℕ → ℕ → ℕ → Option ℕ
  pub year : ℕ → ℕ
  pub month : ℕ → ℕ
  pub day : ℕ → ℕ
  pub weekday : ℕ → Weekday
  pub cron_parses : Text → Bool
  pub next_cron_after : Text → Tz → ℕ → Option ℕ
  pub show_instant : Tz → ℕ → Text
  pub read_instant : Text → Option ℕ
  pub show_micros : ℕ → Text

-- The documented behaviour of a zone.
pub record ZoneLaws (c : Chrono) (tz : c.Tz) : Type 0 where
  -- An instant that a local time resolves to shows that local time.
  pub single_shows : (n i : ℕ) → c.from_local tz n ≡ single i → c.to_local tz i ≡ n
  pub earliest_shows : (n e l : ℕ) → c.from_local tz n ≡ ambiguous e l → c.to_local tz e ≡ n
  -- A local time that occurs once is not shown, or passed downwards, again.
  pub once : (n i j : ℕ) → c.from_local tz n ≡ single i → i ≤ j → n ≤ c.to_local tz j
  -- Offsets are shorter than a day, and whole seconds.
  pub not_ahead : (i : ℕ) → c.to_local tz i < i + day_ns
  pub not_behind : (i : ℕ) → i < c.to_local tz i + day_ns
  pub whole_seconds : (i : ℕ) → c.to_local tz i % second_ns ≡ i % second_ns
  -- An instant with no nanoseconds is left alone, or refused where its local time is not unique.
  pub zeroed : (i j : ℕ) → i % second_ns ≡ 0 → c.zero_nanosecond tz i ≡ some j → j ≡ i

-- From any local time a unique one is reached in at most `limit` minutes.
abbrev pub GapsEnd : (c : Chrono) → c.Tz → ℕ → Type 0
GapsEnd c tz limit =
    (n : ℕ)
    → (k : ℕ) × (i : ℕ) × (k < limit) × (c.from_local tz (n + (k + 1) * minute_ns) ≡ single i)
