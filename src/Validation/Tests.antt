-- ===== src/Validation/Tests.antt =====
-- Examples of the validation and of the engine on what it accepts.
use periodic.Prelude.{◌≡◌, refl, true, false, Option, [], ◌∷◌, codes, All, to_lowercase, arith}
use periodic.Run.{returns}
use periodic.Config.Model.{minute_aligned}
use periodic.Config.Parse.{contains, parse_every_interval, parse_duration}
use periodic.Config.Normalize.{normalize}
use periodic.Chrono.Fixed.{fixed, fixed-ZoneLaws, fixed-GapsEnd, fixed-weeks}
use periodic.Diagnostics.{concat, has_error}
use periodic.Scheduler.Engine.{Occurrence, next_occurrence}
use periodic.Validation.{check_jobs, validate_config, accepts}
use periodic.Validation.Schedule.{check_schedule, check_tokens, is_valid_hhmm, job_path}
use periodic.Validation.Job.{is_kebab, command_resolves, check_job}
use periodic.Validation.Accept.{IsChecked}
use periodic.Validation.Ids.{IsCheckedJob, AreDistinct, ids_of, accepts-IsChecked}
use periodic.Validation.Runnable.{IsRunnable, IsSound, normalize-IsRunnable}
use periodic.Validation.Total.{IsWorld, next_occurrence-returns}
use periodic.Samples.{machine, raw_config, raw_backup}

raw_config-accepted : accepts fixed machine raw_config ≡ true
unfolding contains parse_every_interval parse_duration concat has_error check_jobs validate_config
    check_schedule check_tokens is_valid_hhmm job_path is_kebab command_resolves check_job
    to_lowercase
raw_config-accepted = refl

accepts-IsChecked_example :
    All (λ job. IsChecked fixed job.schedule × IsCheckedJob job) raw_config.jobs
    × AreDistinct (ids_of raw_config.jobs)
    × (raw_config.version ≡ 1)
accepts-IsChecked_example = accepts-IsChecked fixed machine raw_config raw_config-accepted

normalize-IsRunnable_example : All (IsRunnable fixed) (normalize raw_config).jobs
normalize-IsRunnable_example = normalize-IsRunnable fixed machine raw_config raw_config-accepted

fixed-IsWorld : IsWorld fixed 100
fixed-IsWorld = record {
  zones = fixed-ZoneLaws;
  gaps = fixed-GapsEnd;
  weeks = fixed-weeks;
  ten_dates = omega arith;
}

fifteen-IsSound : IsSound fixed (minute_aligned 15)
fifteen-IsSound = (omega arith, (4, refl))

next_occurrence-returns_example :
    (o : Option (Occurrence fixed 100)) × (next_occurrence fixed 100
        (codes "poll")
        (minute_aligned 15)
        true
        172800000000001
      ≡ returns o)
next_occurrence-returns_example =
    next_occurrence-returns fixed 100 fixed-IsWorld (codes "poll") (minute_aligned 15) true
      172800000000001 fifteen-IsSound tt tt

-- A second job with the id of the first is refused.
duplicate-refused :
    accepts fixed machine (record raw_config { jobs = raw_backup ∷ raw_backup ∷ [] }) ≡ false
unfolding contains parse_every_interval parse_duration concat has_error check_jobs validate_config
    check_schedule check_tokens is_valid_hhmm job_path is_kebab command_resolves check_job
    to_lowercase
duplicate-refused = refl
