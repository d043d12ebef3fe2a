-- ===== src/Validation/Runnable.antt =====
-- From validation through normalization to the engine: an accepted schedule can be run.
use periodic.Prelude.{
  ◌≡◌, refl, true, Option, none, some, List, [], ◌∷◌, Text, codes, All, arith, sym, unwrap_or,
  subst, map, or_else, and_then,
}
use periodic.Config.Model.{
  Every, Interval, minutes, hours, named, RawSchedule, RawJob, RawDefaults, RawConfig,
  NormalizedSchedule, minute_aligned, hour_aligned, calendar, cron, EffectiveJob,
}
use periodic.Config.Parse.{parse_every_interval}
use periodic.Config.Normalize.{
  named_days, single_token, weekday_list, schedule_of_tokens, schedule_of_every, schedule_of_cron,
  every_tokens, normalize_schedule, normalize_job, normalize,
}
use periodic.Config.Shape.{HasDays, normalize_schedule-HasDays}
use periodic.Chrono.{Chrono}
use periodic.Scheduler.Engine.{parse_hhmm}
use periodic.Scheduler.Calendar.Total.{IsTime}
use periodic.Validation.{accepts}
use periodic.Validation.Job.{Machine}
use periodic.Validation.Accept.{GoodInterval, GoodToken, IsChecked}
use periodic.Validation.Ids.{IsCheckedJob, accepts-IsChecked}

-- What the engine needs of a schedule in order not to panic.
abbrev pub IsSound : Chrono → NormalizedSchedule → Type 0
IsSound c (minute_aligned n) = GoodInterval (minutes n)
IsSound c (hour_aligned n) = GoodInterval (hours n)
IsSound c (calendar days at tz on_day last_day) = IsTime (parse_hhmm at)
IsSound c (cron e tz) = c.cron_parses e ≡ true

module _ (c : Chrono) (raw : RawSchedule) (tz : Option Text) (ok : IsChecked c raw) where
  IsTime-ok : (o : Option Text) → raw.at ≡ o → IsTime (parse_hhmm (unwrap_or o (codes "00:00")))
  unfolding parse_hhmm
  IsTime-ok none e = (omega arith, omega arith)
  IsTime-ok (some at) e = ok.time at e

  at_ok : IsTime (parse_hhmm (unwrap_or raw.at (codes "00:00")))
  at_ok = IsTime-ok raw.at refl

  single_ok :
      (o : Option Interval)
      → ((i : Interval) → o ≡ some i → GoodInterval i)
      → IsSound c (single_token raw tz o)
  single_ok none f = at_ok
  single_ok (some (minutes n)) f = f (minutes n) refl
  single_ok (some (hours n)) f = f (hours n) refl
  single_ok (some (named name)) f = at_ok

  weekdays_ok : (ds : List Text) → IsSound c (weekday_list raw tz ds)
  weekdays_ok [] = at_ok
  weekdays_ok (d ∷ ds) = at_ok

  good_interval :
      (t : Text) (i : Interval) → GoodToken t → parse_every_interval t ≡ some i → GoodInterval i
  good_interval t i (j, p, good) q = let same : j ≡ i = cc in subst GoodInterval same good

  tokens_ok : (ts : List Text) → All GoodToken ts → IsSound c (schedule_of_tokens raw tz ts)
  tokens_ok [] h = weekdays_ok (named_days [])
  tokens_ok (t ∷ []) h = single_ok (parse_every_interval t) (λ i p. good_interval t i h.0 p)
  tokens_ok (t ∷ u ∷ ts) h = weekdays_ok (named_days (t ∷ u ∷ ts))

  every_ok : (o : Option Every) → raw.every ≡ o → IsSound c (schedule_of_every raw tz o)
  every_ok none e = at_ok
  every_ok (some every) e = tokens_ok (every_tokens every) (ok.tokens every e)

  cron_ok : (o : Option Text) → raw.cron ≡ o → IsSound c (schedule_of_cron raw tz o)
  cron_ok none e = every_ok raw.every refl
  cron_ok (some x) e = ok.parsed_cron x e

  normalize_schedule-IsSound : IsSound c (normalize_schedule raw tz)
  unfolding normalize_schedule
  normalize_schedule-IsSound = cron_ok raw.cron refl

abbrev pub IsRunnable : Chrono → EffectiveJob → Type 0
IsRunnable c job = IsSound c job.schedule × HasDays job.schedule

normalize_job-schedule :
    (job : RawJob) (d : Option RawDefaults)
    → (tz : Option Text) × ((normalize_job job d).schedule ≡ normalize_schedule job.schedule tz)
unfolding normalize_job
normalize_job-schedule job d = (or_else job.schedule.timezone (and_then d (λ d. d.timezone)), refl)

jobs-IsRunnable :
    (c : Chrono) (d : Option RawDefaults) (jobs : List RawJob)
    → All (λ job. IsChecked c job.schedule × IsCheckedJob job) jobs
    → All (IsRunnable c) (map (λ job. normalize_job job d) jobs)
jobs-IsRunnable c d [] a = tt
jobs-IsRunnable c d (job ∷ jobs) a =
    let (tz, e) = normalize_job-schedule job d in
    (
      subst (λ s. IsSound c s × HasDays s) (sym e)
          (
            normalize_schedule-IsSound c job.schedule tz a.0.0,
            normalize_schedule-HasDays job.schedule tz,
          ),
      jobs-IsRunnable c d jobs a.1,
    )

-- Every job of an accepted configuration is, after normalization, one that the engine can run: its
-- intervals divide the hour or the day, its time of day exists, its cron expression parses, and its
-- calendar has recognized days.
pub normalize-IsRunnable :
    (c : Chrono) (m : Machine) (config : RawConfig)
    → accepts c m config ≡ true
    → All (IsRunnable c) (normalize config).jobs
unfolding normalize
normalize-IsRunnable c m config h =
    jobs-IsRunnable c config.defaults config.jobs (accepts-IsChecked c m config h).0
