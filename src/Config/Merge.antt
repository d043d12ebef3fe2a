-- ===== src/Config/Merge.antt =====
-- The merge order of `normalize_job`, and the durations that wrap.
use periodic.Prelude.{
  ℕ, ◌*◌, ◌<◌, ◌≡◌, refl, ap, ◌+◌, codes, Option, none, some, Text, arith, trim, is_alphabetic,
  split_at_first, parse_uint, and_then, or_else, is_some, true,
}
use periodic.Config.Model.{RawDefaults, RawJob}
use periodic.Config.Parse.{u64_bound, parse_duration}
use periodic.Config.Normalize.{retry_limit, normalize_job}

-- Two texts of minutes, whose 64-bit numbers lie 2^62 apart, are the same duration: the greater one is
-- not refused, but read as the seconds that the smaller one is worth, where these fit 64 bits.
pub parse_duration_wraps :
    (s s' num num' : Text) (n : ℕ)
    → split_at_first is_alphabetic (trim s) ≡ some (num, codes "m")
    → split_at_first is_alphabetic (trim s') ≡ some (num', codes "m")
    → parse_uint u64_bound num ≡ some n
    → parse_uint u64_bound num' ≡ some (n + 4611686018427387904)
    → n * 60 < u64_bound
    → (parse_duration s ≡ some (n * 60)) × (parse_duration s' ≡ some (n * 60))
unfolding parse_duration
parse_duration_wraps s s' num num' n split split' number number' small = (
  rw (split, number) (ap some (omega (arith, small))),
  rw (split', number') (ap some (omega (arith, small))),
)

-- A job that sets every field which `defaults` can provide, with a timeout that parses.
pub record SetsAll (job : RawJob) : Type 0 where
  pub timezone : is_some job.schedule.timezone ≡ true
  pub timeout : is_some (and_then job.timeout parse_duration) ≡ true
  pub overlap : is_some job.overlap_policy ≡ true
  pub missed : is_some job.missed_run_policy ≡ true
  pub retry : is_some (retry_limit job.retry) ≡ true

or_else-some {ℓ} : {A : Type ℓ} (o d d' : Option A) → is_some o ≡ true → or_else o d ≡ or_else o d'
or_else-some none d d' h = cc
or_else-some (some a) d d' h = refl

-- Job fields come before `defaults`: the effective job is the same under any two `defaults`, if the
-- job sets its timezone, policies and retry limit, and its timeout parses.
pub normalize_job-defaults :
    (job : RawJob) (d d' : Option RawDefaults)
    → SetsAll job
    → normalize_job job d ≡ normalize_job job d'
unfolding normalize_job
normalize_job-defaults job d d' s =
    rw
      (or_else-some job.schedule.timezone (and_then d (λ x. x.timezone))
        (and_then d' (λ x. x.timezone)) s.timezone)
      (rw
        (or_else-some (and_then job.timeout parse_duration)
          (and_then (and_then d (λ x. x.timeout)) parse_duration)
          (and_then (and_then d' (λ x. x.timeout)) parse_duration) s.timeout)
        (rw
          (or_else-some job.overlap_policy (and_then d (λ x. x.overlap_policy))
            (and_then d' (λ x. x.overlap_policy)) s.overlap)
          (rw
            (or_else-some job.missed_run_policy (and_then d (λ x. x.missed_run_policy))
              (and_then d' (λ x. x.missed_run_policy)) s.missed)
            (rw (
              or_else-some (retry_limit job.retry) (and_then d (λ x. retry_limit x.retry))
                (and_then d' (λ x. retry_limit x.retry)) s.retry)))))
