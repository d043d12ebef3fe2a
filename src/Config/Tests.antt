-- ===== src/Config/Tests.antt =====
-- Examples of the configuration.
use periodic.Prelude.{◌*◌, ◌≡◌, refl, arith, none, some, [], ◌∷◌, ◌++◌, codes}
use periodic.Config.Model.{minutes, RawDefaults}
use periodic.Config.Parse.{parse_duration, parse_every_interval}
use periodic.Config.Merge.{SetsAll, parse_duration_wraps}
use periodic.Config.Canonical.{job_config_hash, job_config_hash-collides}
use periodic.Samples.{raw_backup, poll}

parse_duration_wraps_example :
    (parse_duration (codes "10m") ≡ some (10 * 60))
    × (parse_duration (codes "4611686018427387914m") ≡ some (10 * 60))
parse_duration_wraps_example =
    parse_duration_wraps (codes "10m") (codes "4611686018427387914m") (codes "10")
      (codes "4611686018427387914") 10 refl refl refl refl (omega arith)

backup-SetsAll : SetsAll raw_backup
unfolding parse_duration
backup-SetsAll = record {
  timezone = refl;
  timeout = refl;
  overlap = refl;
  missed = refl;
  retry = refl;
}

abbrev other_defaults : RawDefaults
other_defaults = record {
  timezone = none;
  timeout = some (codes "1h");
  overlap_policy = some (codes "kill");
  missed_run_policy = none;
  retry = none;
}

job_config_hash-collides_example :
    job_config_hash
      (λ t. t)
      (record poll { command = codes "a" ++ (10 ∷ (codes "args=" ++ codes "b")); args = [] })
    ≡ job_config_hash
        (λ t. t)
        (record poll { command = codes "a"; args = (codes "b" ++ (10 ∷ codes "args=")) ∷ [] })
job_config_hash-collides_example = job_config_hash-collides (λ t. t) poll (codes "a") (codes "b")

ten_minutes : parse_duration (codes " 10m ") ≡ some 600
unfolding parse_duration
ten_minutes = refl

fifteen : parse_every_interval (codes "15m") ≡ some (minutes 15)
unfolding parse_every_interval
fifteen = refl
