-- ===== src/Validation/Ids.antt =====
-- What an accepted configuration guarantees of its jobs together: each is checked, and ids are unique.
use periodic.Prelude.{
  ℕ, ◌+◌, ◌≡◌, ◌≢◌, refl, true, false, Option, none, some, List, [], ◌∷◌, Text, codes, any, All,
  is_empty, arith, sym, ◌∙◌, trim, if_true, subst, text_eq, text_eq_refl, if◌then◌else◌, ap, ◌==◌,
  some_injective,
}
use periodic.Config.Model.{ℤ, pos, negsuc, RawRetry, RawJob, RawConfig}
use periodic.Config.Normalize.{retry_limit}
use periodic.Config.Parse.{contains, parse_duration}
use periodic.Chrono.{Chrono}
use periodic.Diagnostics.{Diagnostic, error_at, is_error, has_error, has_error-concat}
use periodic.Validation.{check_jobs, duplicate, see, validate_config, accepts}
use periodic.Validation.Accept.{NoError, NoError-push_if, IsChecked, check_schedule-good}
use periodic.Validation.Job.{
  Machine, is_kebab, check_command, check_secs, check_timeout, check_job, bad_id, is_negative,
}
use periodic.Validation.Schedule.{named_job}

-- What the checks on the rest of a job establish.
pub record IsCheckedJob (job : RawJob) : Type 0 where
  pub kebab : (id : Text) → job.id ≡ some id → is_kebab id ≡ true
  pub command : (cmd : Text) × (job.execution.command ≡ some cmd) × (trim cmd ≢ [])
  pub timeout : (t : Text) → job.timeout ≡ some t → (secs : ℕ) × (parse_duration t ≡ some secs)
  pub retry :
      (r : RawRetry) (k : ℤ) → job.retry ≡ some r → r.max_retries ≡ some k → (n : ℕ) × (k ≡ pos n)

bad_id-good : (o : Option Text) (id : Text) → bad_id o ≡ false → o ≡ some id → is_kebab id ≡ true
bad_id-good none id h p = cc
bad_id-good (some t) id h p =
    let same : t ≡ id = ground arith in subst (λ t. is_kebab t ≡ true) same (ground arith)

named_error :
    (jid : Option Text) (code path : Text)
    → ¬ (any is_error (named_job jid (error_at code path) ∷ []) ≡ false)
named_error none code path h = cc
named_error (some id) code path h = cc

check_command-good :
    (m : Machine) (jid : Option Text) (idx : ℕ) (o : Option Text)
    → NoError (check_command m jid idx o)
    → (cmd : Text) × (o ≡ some cmd) × (trim cmd ≢ [])
unfolding has_error
check_command-good m none idx none h = cc
check_command-good m (some id) idx none h = cc
check_command-good m jid idx (some cmd) h = (
  cmd,
  refl,
  λ e.
      let blank : is_empty (trim cmd) ≡ true = rw e in
      let bad = sym (ap (λ ds. any is_error ds) (if_true (is_empty (trim cmd)) _ _ blank)) ∙ h in
      absurd (named_error jid _ _ bad),
)

check_timeout-good :
    (jid : Option Text) (idx : ℕ) (o : Option Text) (t : Text)
    → NoError (check_timeout jid idx o)
    → o ≡ some t
    → (secs : ℕ) × (parse_duration t ≡ some secs)
unfolding has_error
check_timeout-good jid idx none t h p = cc
check_timeout-good jid idx (some s) t h p =
    let same : s ≡ t = ground arith in
    subst (λ t. (secs : ℕ) × (parse_duration t ≡ some secs)) same
      (secs_good (parse_duration s) refl h)
  where
    secs_good :
        (o : Option ℕ)
        → parse_duration s ≡ o
        → NoError (check_secs jid idx o)
        → (secs : ℕ) × (parse_duration s ≡ some secs)
    secs_good none e n = absurd (named_error jid _ _ n)
    secs_good (some secs) e n = (secs, e)

-- A limit that is not refused is a natural number.
retry-good :
    (o : Option RawRetry) (r : RawRetry) (k : ℤ)
    → is_negative (retry_limit o) ≡ false
    → o ≡ some r
    → r.max_retries ≡ some k
    → (n : ℕ) × (k ≡ pos n)
retry-good none r k h p q = cc
retry-good (some r') r k h p q =
    let same : retry_limit (some r') ≡ some k = ap (λ x. x.max_retries) (some_injective p) ∙ q in
    go k (sym (ap is_negative same) ∙ h)
  where
    go : (k : ℤ) → is_negative (some k) ≡ false → (n : ℕ) × (k ≡ pos n)
    go (pos n) h = (n, refl)
    go (negsuc n) h = cc

check_job-good :
    (m : Machine) (idx : ℕ) (job : RawJob) → NoError (check_job m idx job) → IsCheckedJob job
unfolding check_job
check_job-good m idx job h =
    let checks = has_error-concat _ h in
    record {
      kebab = λ id p. bad_id-good job.id id (NoError-push_if job.id _ _ _ checks.0) p;
      command = check_command-good m job.id idx job.execution.command checks.1.0;
      timeout = λ t p. check_timeout-good job.id idx job.timeout t checks.1.1.0 p;
      retry = λ r k p q. retry-good job.retry r k (NoError-push_if job.id _ _ _ checks.1.1.1.0) p q;
    }

-- The ids of a list of jobs, and that no two are equal.
abbrev pub add_id : Option Text → List Text → List Text
add_id none ids = ids
add_id (some id) ids = id ∷ ids

abbrev pub ids_of : List RawJob → List Text
ids_of [] = []
ids_of (job ∷ jobs) = add_id job.id (ids_of jobs)

abbrev pub AreDistinct : List Text → Type 0
AreDistinct [] = Unit
AreDistinct (x ∷ xs) = All (λ y. x ≢ y) xs × AreDistinct xs

-- None of the ids was seen before.
abbrev AreNew : List Text → List Text → Type 0
AreNew seen ids = All (λ id. contains seen id ≡ false) ids

new_after :
    (id : Text) (seen ids : List Text)
    → AreNew (id ∷ seen) ids
    → AreNew seen ids × All (λ y. id ≢ y) ids
unfolding contains
new_after id seen [] h = (tt, tt)
new_after id seen (y ∷ ids) h =
    let (news, others) = new_after id seen ids h.1 in
    let differs : text_eq id y ≡ false = ground (arith, h.0) in
    let unseen : contains seen y ≡ false = ground (arith, h.0) in
    (
      (unseen, news),
      (
        (λ e.
            let same : text_eq id y ≡ true = subst (λ t. text_eq id t ≡ true) e (text_eq_refl id) in
            cc),
        others,
      ),
    )

add_new :
    (idx : ℕ) (o : Option Text) (seen ids : List Text)
    → NoError (duplicate idx seen o)
    → AreNew (see o seen) ids × AreDistinct ids
    → AreNew seen (add_id o ids) × AreDistinct (add_id o ids)
unfolding has_error
add_new idx none seen ids h r = r
add_new idx (some id) seen ids h r =
    let (news, others) = new_after id seen ids r.0 in
    let unseen : contains seen id ≡ false = ground arith in ((unseen, news), (others, r.1))

version_one :
    (version : ℕ) (d : Diagnostic)
    → d ≡ error_at (codes "version.unsupported") (codes "version")
    → NoError (if version == 1 then [] else d ∷ [])
    → version ≡ 1
unfolding has_error
version_one version d e h = ground arith

module _ (c : Chrono) (m : Machine) where
  check_jobs-good :
      (idx : ℕ) (seen : List Text) (jobs : List RawJob)
      → NoError (check_jobs c m idx seen jobs)
      → All (λ job. IsChecked c job.schedule × IsCheckedJob job) jobs
        × (AreNew seen (ids_of jobs) × AreDistinct (ids_of jobs))
  unfolding check_jobs
  check_jobs-good idx seen [] h = (tt, (tt, tt))
  check_jobs-good idx seen (job ∷ jobs) h =
      let checks = has_error-concat _ h in
      let (rest, ids) = check_jobs-good (idx + 1) (see job.id seen) jobs checks.1.1.1.0 in
      (
        ((check_schedule-good c idx job checks.0, check_job-good m idx job checks.1.0), rest),
        add_new idx job.id seen (ids_of jobs) checks.1.1.0 ids,
      )

  -- Of a configuration without error diagnostics, every job's schedule is sound, its id is kebab-case,
  -- its command is there and not blank, its timeout parses and its retry limit is not negative; no two
  -- jobs have the same id, and the version is 1.
  pub accepts-IsChecked :
      (config : RawConfig)
      → accepts c m config ≡ true
      → All (λ job. IsChecked c job.schedule × IsCheckedJob job) config.jobs
        × AreDistinct (ids_of config.jobs)
        × (config.version ≡ 1)
  unfolding validate_config
  accepts-IsChecked config h =
      let none_bad : NoError (validate_config c m config) = ground arith in
      let checks = has_error-concat _ none_bad in
      let (jobs, ids) = check_jobs-good 0 [] config.jobs checks.1.0 in
      (jobs, ids.1, version_one config.version _ refl checks.0)
