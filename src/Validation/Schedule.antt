-- ===== src/Validation/Schedule.antt =====
-- src/validation.rs: `check_schedule`.
use periodic.Prelude.{
  ℕ, ◌%◌, Bool, true, false, not, ◌&&◌, Option, none, some, List, [], ◌∷◌, ◌++◌, Text, codes,
  text_eq, is_empty, is_some, split_once, parse_uint, decimal, leb, ltb, ◌==◌, if◌then◌else◌,
}
use periodic.Config.Model.{ℤ, pos, negsuc, Every, Interval, minutes, hours, named, RawJob}
use periodic.Config.Parse.{u32_bound, parse_every_interval}
use periodic.Config.Normalize.{every_tokens}
use periodic.Chrono.{Chrono}
use periodic.Diagnostics.{Diagnostic, error_at, with_job, concat}

-- The closure `push` of both checks: it names the job, if that has an id.
abbrev pub named_job : Option Text → Diagnostic → Diagnostic
named_job none d = d
named_job (some id) d = with_job id d

abbrev pub push_if : Option Text → Bool → Diagnostic → List Diagnostic
push_if jid test d = if test then named_job jid d ∷ [] else []

-- `jobs[{idx}]` with what follows.
unfoldable pub job_path : ℕ → Text → Text
job_path idx rest = codes "jobs[" ++ (decimal idx ++ (codes "]" ++ rest))

abbrev pub schedule_path : ℕ → Text → Text
schedule_path idx rest = job_path idx (codes ".schedule" ++ rest)

-- `Some(true)`.
abbrev pub is_set : Option Bool → Bool
is_set (some true) = true
is_set (some false) = false
is_set none = false

abbrev pub day_in_range : ℤ → Bool
day_in_range (pos d) = leb 1 d && leb d 31
day_in_range (negsuc d) = false

abbrev pub out_of_range : Option ℤ → Bool
out_of_range none = false
out_of_range (some day) = not (day_in_range day)

abbrev pub divides : ℕ → ℕ → Bool
divides n whole = not (n == 0) && (whole % n == 0)

-- The verdict on one token of `every:`, as the code of the error.
abbrev pub token_fault : Option Interval → Option Text
token_fault (some (minutes n)) = if divides n 60 then none else some (codes "schedule.non_divisor")
token_fault (some (hours n)) = if divides n 24 then none else some (codes "schedule.non_divisor")
token_fault (some (named name)) = none
token_fault none = some (codes "schedule.invalid")

abbrev pub push_fault : Option Text → ℕ → Option Text → List Diagnostic
push_fault jid idx none = []
push_fault jid idx (some fault) =
    named_job jid (error_at fault (schedule_path idx (codes ".every"))) ∷ []

unfoldable pub check_tokens : Option Text → ℕ → List Text → List Diagnostic
check_tokens jid idx [] = []
check_tokens jid idx (t ∷ ts) =
    push_fault jid idx (token_fault (parse_every_interval t)) ++ check_tokens jid idx ts

abbrev pub check_every : Option Text → ℕ → Option Every → List Diagnostic
check_every jid idx none = []
check_every jid idx (some every) = check_tokens jid idx (every_tokens every)

abbrev pub is_below : ℕ → Option ℕ → Bool
is_below bound none = false
is_below bound (some n) = ltb n bound

-- `is_valid_hhmm`.
abbrev pub valid_parts : Option (Text × Text) → Bool
valid_parts none = false
valid_parts (some (h, m)) =
    (not (is_empty h) && not (is_empty m))
    && (is_below 24 (parse_uint u32_bound h) && is_below 60 (parse_uint u32_bound m))

unfoldable pub is_valid_hhmm : Text → Bool
is_valid_hhmm s = valid_parts (split_once b':' s)

abbrev pub bad_time : Option Text → Bool
bad_time none = false
bad_time (some at) = not (is_valid_hhmm at)

module _ (c : Chrono) where
  abbrev pub bad_cron : Option Text → Bool
  bad_cron none = false
  bad_cron (some cron) = not (c.cron_parses cron)

  abbrev pub bad_zone : Option Text → Bool
  bad_zone none = false
  bad_zone (some tz) = not (text_eq tz (codes "local")) && not (is_some (c.zone_from_str tz))

  unfoldable pub check_schedule : ℕ → RawJob → List Diagnostic
  check_schedule idx job = concat (
      push_if job.id (is_some s.every && is_some s.cron)
        (error_at (codes "schedule.invalid") (schedule_path idx []))
      ∷ push_if job.id (not (is_some s.every) && not (is_some s.cron))
          (error_at (codes "schedule.invalid") (schedule_path idx []))
      ∷ push_if job.id (is_some s.on_day && is_set s.last_day)
          (error_at (codes "schedule.invalid") (schedule_path idx []))
      ∷ push_if job.id (out_of_range s.on_day)
          (error_at (codes "schedule.invalid") (schedule_path idx (codes ".on_day")))
      ∷ check_every job.id idx s.every
      ∷ push_if job.id (bad_time s.at)
          (error_at (codes "schedule.invalid") (schedule_path idx (codes ".at")))
      ∷ push_if job.id (bad_cron s.cron)
          (error_at (codes "schedule.cron_invalid") (schedule_path idx (codes ".cron")))
      ∷ push_if job.id (bad_zone s.timezone)
          (error_at (codes "schedule.timezone_invalid") (schedule_path idx (codes ".timezone")))
      ∷ [])
    where
      open job use {schedule as s}
