-- ===== src/Config/Canonical.antt =====
-- src/config.rs: the canonical text of a job and its hash; SHA-256 in hexadecimal is a parameter.
use mathlib.Core.List.{append_assoc}
use periodic.Prelude.{
  ℕ, suc, ◌≡◌, refl, Bool, true, false, Option, none, some, List, [], ◌∷◌, ◌++◌, Text, codes,
  decimal, unwrap_or,
}
use periodic.Config.Model.{
  ℤ, pos, negsuc, NormalizedSchedule, minute_aligned, hour_aligned, calendar, cron, OverlapPolicy,
  MissedRunPolicy, EffectiveJob,
}

-- `Vec<String>::join`.
abbrev pub join : Text → List Text → Text
join sep [] = []
join sep (x ∷ []) = x
join sep (x ∷ y ∷ xs) = x ++ (sep ++ join sep (y ∷ xs))

abbrev pub show_bool : Bool → Text
show_bool true = codes "true"
show_bool false = codes "false"

abbrev pub show_ℤ : ℤ → Text
show_ℤ (pos n) = decimal n
show_ℤ (negsuc n) = codes "-" ++ decimal (suc n)

abbrev pub show_option_ℤ : Option ℤ → Text
show_option_ℤ none = []
show_option_ℤ (some d) = show_ℤ d

abbrev pub show_option_ℕ : Option ℕ → Text
show_option_ℕ none = []
show_option_ℕ (some n) = decimal n

abbrev pub show_overlap : OverlapPolicy → Text
show_overlap OverlapPolicy.skip = codes "Skip"
show_overlap OverlapPolicy.queue = codes "Queue"
show_overlap OverlapPolicy.kill = codes "Kill"

abbrev pub show_missed : MissedRunPolicy → Text
show_missed MissedRunPolicy.skip = codes "Skip"
show_missed MissedRunPolicy.run_once = codes "RunOnce"
show_missed MissedRunPolicy.run_all = codes "RunAll"

unfoldable pub canonical_schedule : NormalizedSchedule → Text
canonical_schedule (minute_aligned n) = codes "minute:" ++ decimal n
canonical_schedule (hour_aligned n) = codes "hour:" ++ decimal n
canonical_schedule (calendar days at timezone on_day last_day) =
    codes "calendar:days="
    ++ (join (codes ",") days
        ++ (codes ":at="
            ++ (at
                ++ (codes ":tz="
                    ++ (unwrap_or timezone []
                        ++ (codes ":on_day="
                            ++ (show_option_ℤ on_day
                                ++ (codes ":last_day=" ++ show_bool last_day))))))))
canonical_schedule (cron expression timezone) =
    codes "cron:" ++ (expression ++ (codes ":tz=" ++ unwrap_or timezone []))

-- One `writeln!` of a name and its value, before the lines that follow.
abbrev pub line : Text → Text → Text → Text
line name value rest = name ++ (value ++ (10 ∷ rest))

unfoldable pub canonical_job : EffectiveJob → Text
canonical_job job = line (codes "enabled=") (show_bool job.enabled) (
    line (codes "schedule=") (canonical_schedule job.schedule) (
      line (codes "command=") job.command (
        line (codes "args=") (join (0x1f ∷ []) job.args) (
          line (codes "cwd=") (unwrap_or job.cwd []) (
            line (codes "timeout_secs=") (show_option_ℕ job.timeout_secs) (
              line (codes "timezone=") (unwrap_or job.timezone []) (
                line (codes "overlap=") (show_overlap job.overlap_policy) (
                  line (codes "missed=") (show_missed job.missed_run_policy)
                    (line (codes "max_retries=") (decimal job.max_retries) [])))))))))

unfoldable pub job_config_hash : (Text → Text) → EffectiveJob → Text
job_config_hash sha256_hex job = sha256_hex (canonical_job job)

-- The hash depends on the runtime fields alone: the id, the title and the tags are free.
pub job_config_hash-presentation :
    (sha : Text → Text) (job : EffectiveJob) (id title : Option Text) (tags : List Text)
    → job_config_hash sha (record job { id = id; title = title; tags = tags })
      ≡ job_config_hash sha job
unfolding job_config_hash canonical_job
job_config_hash-presentation sha job id title tags = refl

-- Lines are not delimited unambiguously: a line break and `args=` at the end of the one argument may
-- as well stand in the command, and the two jobs have the same hash.
pub job_config_hash-collides :
    (sha : Text → Text) (job : EffectiveJob) (x y : Text)
    → job_config_hash sha (record job { command = x ++ (10 ∷ (codes "args=" ++ y)); args = [] })
      ≡ job_config_hash sha (record job { command = x; args = (y ++ (10 ∷ codes "args=")) ∷ [] })
unfolding job_config_hash canonical_job
job_config_hash-collides sha job x y = simp append_assoc
