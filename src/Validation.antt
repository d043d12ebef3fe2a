-- ===== src/Validation.antt =====
-- src/validation.rs: the checks over a parsed configuration. The files and the environment of the
-- machine, the cron parser and the zone names are parameters.
pub mod Schedule
pub mod Job
pub mod Accept
pub mod Runnable
pub mod Total
pub mod Ids
mod Tests
use periodic.Prelude.{
  ℕ, suc, ◌+◌, Bool, true, false, not, ◌&&◌, Option, none, some, List, [], ◌∷◌, ◌++◌, Text, codes,
  text_eq, any, decimal, ◌==◌, if◌then◌else◌,
}
use periodic.Config.Model.{RawJob, RawConfig}
use periodic.Config.Parse.{contains}
use periodic.Chrono.{Chrono}
use periodic.Diagnostics.{Diagnostic, error_at, with_job, has_error, concat}
use periodic.Validation.Schedule.{check_schedule, job_path}
use periodic.Validation.Job.{Machine, check_job}

-- The duplicate check, with the ids seen so far; `insert` is false for an id that is already there.
abbrev pub duplicate : ℕ → List Text → Option Text → List Diagnostic
duplicate idx seen none = []
duplicate idx seen (some id) =
    if contains seen id
    then with_job id (error_at (codes "job.id_duplicate") (job_path idx (codes ".id"))) ∷ []
    else []

abbrev pub see : Option Text → List Text → List Text
see none seen = seen
see (some id) seen = id ∷ seen

module _ (c : Chrono) (m : Machine) where
  -- The loop over the jobs.
  unfoldable pub check_jobs : ℕ → List Text → List RawJob → List Diagnostic
  check_jobs idx seen [] = []
  check_jobs idx seen (job ∷ jobs) = concat (
      check_schedule c idx job
      ∷ check_job m idx job
      ∷ duplicate idx seen job.id
      ∷ check_jobs (idx + 1) (see job.id seen) jobs
      ∷ [])

  unfoldable pub validate_config : RawConfig → List Diagnostic
  validate_config config = concat (
      (if config.version == 1
        then []
        else error_at (codes "version.unsupported") (codes "version") ∷ [])
      ∷ check_jobs 0 [] config.jobs
      ∷ [])

  -- What `load_validated_config` and the mutations ask of a configuration: no error among the
  -- diagnostics.
  abbrev pub accepts : RawConfig → Bool
  accepts config = not (has_error (validate_config config))
