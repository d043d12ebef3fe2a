-- ===== src/Config/Normalize.antt =====
-- src/config.rs: `normalize`, which merges job fields, the `defaults` and the built-in defaults.
use periodic.Prelude.{
  ℕ, true, false, Option, none, some, List, [], ◌∷◌, map, Text, codes, text_eq, ltb, if◌then◌else◌,
  and_then, or_else, unwrap_or,
}
use periodic.Config.Model.{
  ℤ, pos, negsuc, RawRetry, RawDefaults, Every, one, many, RawSchedule, RawJob, RawConfig, Interval,
  minutes, hours, named, NormalizedSchedule, minute_aligned, hour_aligned, calendar, cron,
  OverlapPolicy, MissedRunPolicy, EffectiveJob, EffectiveConfig,
}
use periodic.Config.Parse.{u32_bound, parse_every_interval, parse_duration}

unfoldable pub parse_overlap_policy : Option Text → OverlapPolicy
parse_overlap_policy none = OverlapPolicy.skip
parse_overlap_policy (some s) =
    if text_eq s (codes "queue")
    then OverlapPolicy.queue
    else if text_eq s (codes "kill")
    then OverlapPolicy.kill
    else OverlapPolicy.skip

unfoldable pub parse_missed_run_policy : Option Text → MissedRunPolicy
parse_missed_run_policy none = MissedRunPolicy.skip
parse_missed_run_policy (some s) =
    if text_eq s (codes "run_once")
    then MissedRunPolicy.run_once
    else if text_eq s (codes "run_all")
    then MissedRunPolicy.run_all
    else MissedRunPolicy.skip

-- The tokens of `every:`.
abbrev pub every_tokens : Every → List Text
every_tokens (one s) = s ∷ []
every_tokens (many v) = v

-- The weekday tokens of a list: minutes, hours and unknown tokens are dropped.
abbrev pub keep_named : Option Interval → List Text → List Text
keep_named (some (named name)) rest = name ∷ rest
keep_named (some (minutes n)) rest = rest
keep_named (some (hours n)) rest = rest
keep_named none rest = rest

unfoldable pub named_days : List Text → List Text
named_days [] = []
named_days (t ∷ ts) = keep_named (parse_every_interval t) (named_days ts)

-- The `Calendar` that each of the three places of `normalize_schedule` builds.
abbrev pub calendar_of : RawSchedule → Option Text → List Text → NormalizedSchedule
calendar_of raw timezone days =
    calendar days (unwrap_or raw.at (codes "00:00")) (or_else raw.timezone timezone) raw.on_day
      (unwrap_or raw.last_day false)

abbrev pub fallback : RawSchedule → Option Text → NormalizedSchedule
fallback raw timezone = calendar_of raw timezone (codes "day" ∷ [])

abbrev pub single_token : RawSchedule → Option Text → Option Interval → NormalizedSchedule
single_token raw timezone (some (minutes n)) = minute_aligned n
single_token raw timezone (some (hours n)) = hour_aligned n
single_token raw timezone (some (named name)) = calendar_of raw timezone (name ∷ [])
single_token raw timezone none = fallback raw timezone

abbrev pub weekday_list : RawSchedule → Option Text → List Text → NormalizedSchedule
weekday_list raw timezone [] = fallback raw timezone
weekday_list raw timezone (d ∷ ds) = calendar_of raw timezone (d ∷ ds)

abbrev pub schedule_of_tokens : RawSchedule → Option Text → List Text → NormalizedSchedule
schedule_of_tokens raw timezone [] = weekday_list raw timezone (named_days [])
schedule_of_tokens raw timezone (t ∷ []) = single_token raw timezone (parse_every_interval t)
schedule_of_tokens raw timezone (t ∷ u ∷ ts) = weekday_list raw timezone (named_days (t ∷ u ∷ ts))

abbrev pub schedule_of_every : RawSchedule → Option Text → Option Every → NormalizedSchedule
schedule_of_every raw timezone none = fallback raw timezone
schedule_of_every raw timezone (some every) = schedule_of_tokens raw timezone (every_tokens every)

abbrev pub schedule_of_cron : RawSchedule → Option Text → Option Text → NormalizedSchedule
schedule_of_cron raw timezone (some expr) = cron expr (or_else raw.timezone timezone)
schedule_of_cron raw timezone none = schedule_of_every raw timezone raw.every

unfoldable pub normalize_schedule : RawSchedule → Option Text → NormalizedSchedule
normalize_schedule raw timezone = schedule_of_cron raw timezone raw.cron

-- `u32::try_from` of an `i64`.
abbrev pub to_u32 : ℤ → Option ℕ
to_u32 (pos n) = if ltb n u32_bound then some n else none
to_u32 (negsuc n) = none

abbrev pub retry_limit : Option RawRetry → Option ℤ
retry_limit retry = and_then retry (λ r. r.max_retries)

unfoldable pub normalize_job : RawJob → Option RawDefaults → EffectiveJob
normalize_job job defaults =
    let timezone = or_else job.schedule.timezone (and_then defaults (λ d. d.timezone)) in
    record {
      id = job.id;
      title = job.title;
      enabled = unwrap_or job.enabled true;
      schedule = normalize_schedule job.schedule timezone;
      command = unwrap_or job.execution.command [];
      args = job.execution.args;
      cwd = job.execution.cwd;
      timeout_secs =
          or_else (and_then job.timeout parse_duration)
            (and_then (and_then defaults (λ d. d.timeout)) parse_duration);
      timezone = timezone;
      overlap_policy =
          parse_overlap_policy
            (or_else job.overlap_policy (and_then defaults (λ d. d.overlap_policy)));
      missed_run_policy =
          parse_missed_run_policy
            (or_else job.missed_run_policy (and_then defaults (λ d. d.missed_run_policy)));
      max_retries =
          unwrap_or
            (and_then
              (or_else (retry_limit job.retry) (and_then defaults (λ d. retry_limit d.retry)))
              to_u32)
            0;
      tags = job.tags;
    }

unfoldable pub normalize : RawConfig → EffectiveConfig
normalize raw = record {
  version = raw.version;
  jobs = map (λ job. normalize_job job raw.defaults) raw.jobs;
}
