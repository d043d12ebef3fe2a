-- ===== src/Config/Shape.antt =====
-- What normalization guarantees to the schedule engine: calendars have days that can fire.
use periodic.Prelude.{
  ◌≡◌, refl, ◌≢◌, true, Option, none, some, List, [], ◌∷◌, Text, arith, All, trim,
}
use periodic.Config.Model.{
  Interval, minutes, hours, named, NormalizedSchedule, minute_aligned, hour_aligned, calendar, cron,
  RawSchedule, Every,
}
use periodic.Config.Parse.{
  named_tokens, contains, counted, named_interval, hour_interval, minute_interval,
  parse_every_interval,
}
use periodic.Config.Normalize.{
  keep_named, named_days, fallback, single_token, weekday_list, schedule_of_tokens,
  schedule_of_every, schedule_of_cron, every_tokens, normalize_schedule,
}

abbrev pub IsNamed : Text → Type 0
IsNamed name = contains named_tokens name ≡ true

-- The calendars that the engine accepts: at least one day, each of the recognized keywords.
abbrev pub HasDays : NormalizedSchedule → Type 0
HasDays (minute_aligned n) = Unit
HasDays (hour_aligned n) = Unit
HasDays (calendar days at tz on_day last_day) = (days ≢ []) × All IsNamed days
HasDays (cron e tz) = Unit

named_interval-IsNamed : (s name : Text) → named_interval s ≡ some (named name) → IsNamed name
named_interval-IsNamed s name h = ground arith

hour_interval-IsNamed :
    (o : Option _) (s name : Text) → hour_interval o s ≡ some (named name) → IsNamed name
hour_interval-IsNamed none s name h = named_interval-IsNamed s name h
hour_interval-IsNamed (some n) s name h = ground arith

minute_interval-IsNamed :
    (o : Option _) (s name : Text) → minute_interval o s ≡ some (named name) → IsNamed name
minute_interval-IsNamed none s name h = hour_interval-IsNamed (counted b'h' s) s name h
minute_interval-IsNamed (some n) s name h = ground arith

pub parse_every_interval-IsNamed :
    (t name : Text) → parse_every_interval t ≡ some (named name) → IsNamed name
unfolding parse_every_interval
parse_every_interval-IsNamed t name h =
    minute_interval-IsNamed (counted b'm' (trim t)) (trim t) name h

keep_named-IsNamed :
    (o : Option Interval) (rest : List Text)
    → ((name : Text) → o ≡ some (named name) → IsNamed name)
    → All IsNamed rest
    → All IsNamed (keep_named o rest)
keep_named-IsNamed none rest f h = h
keep_named-IsNamed (some (minutes n)) rest f h = h
keep_named-IsNamed (some (hours n)) rest f h = h
keep_named-IsNamed (some (named name)) rest f h = (f name refl, h)

named_days-IsNamed : (ts : List Text) → All IsNamed (named_days ts)
unfolding named_days
named_days-IsNamed [] = tt
named_days-IsNamed (t ∷ ts) =
    keep_named-IsNamed (parse_every_interval t) (named_days ts) (parse_every_interval-IsNamed t)
      (named_days-IsNamed ts)

fallback-HasDays : (raw : RawSchedule) (tz : Option Text) → HasDays (fallback raw tz)
unfolding contains
fallback-HasDays raw tz = ((λ e. cc), (refl, tt))

single_token-HasDays :
    (raw : RawSchedule) (tz : Option Text) (o : Option Interval)
    → ((name : Text) → o ≡ some (named name) → IsNamed name)
    → HasDays (single_token raw tz o)
single_token-HasDays raw tz none f = fallback-HasDays raw tz
single_token-HasDays raw tz (some (minutes n)) f = tt
single_token-HasDays raw tz (some (hours n)) f = tt
single_token-HasDays raw tz (some (named name)) f = ((λ e. cc), (f name refl, tt))

weekday_list-HasDays :
    (raw : RawSchedule) (tz : Option Text) (ds : List Text)
    → All IsNamed ds
    → HasDays (weekday_list raw tz ds)
weekday_list-HasDays raw tz [] h = fallback-HasDays raw tz
weekday_list-HasDays raw tz (d ∷ ds) h = ((λ e. cc), h)

tokens-HasDays :
    (raw : RawSchedule) (tz : Option Text) (ts : List Text) → HasDays (schedule_of_tokens raw tz ts)
tokens-HasDays raw tz [] = weekday_list-HasDays raw tz (named_days []) (named_days-IsNamed [])
tokens-HasDays raw tz (t ∷ []) =
    single_token-HasDays raw tz (parse_every_interval t) (parse_every_interval-IsNamed t)
tokens-HasDays raw tz (t ∷ u ∷ ts) =
    weekday_list-HasDays raw tz (named_days (t ∷ u ∷ ts)) (named_days-IsNamed (t ∷ u ∷ ts))

every-HasDays :
    (raw : RawSchedule) (tz : Option Text) (e : Option Every) → HasDays (schedule_of_every raw tz e)
every-HasDays raw tz none = fallback-HasDays raw tz
every-HasDays raw tz (some e) = tokens-HasDays raw tz (every_tokens e)

cron-HasDays : (raw : RawSchedule) (tz c : Option Text) → HasDays (schedule_of_cron raw tz c)
cron-HasDays raw tz none = every-HasDays raw tz raw.every
cron-HasDays raw tz (some e) = tt

-- Whatever the raw schedule holds, valid or not, a calendar that `normalize_schedule` builds has at
-- least one day, and each of its days is one of the recognized keywords.
pub normalize_schedule-HasDays :
    (raw : RawSchedule) (timezone : Option Text) → HasDays (normalize_schedule raw timezone)
unfolding normalize_schedule
normalize_schedule-HasDays raw tz = cron-HasDays raw tz raw.cron
