-- ===== src/Validation/Accept.antt =====
-- What an accepted configuration guarantees of each of its jobs.
use periodic.Prelude.{
  ℕ, ◌*◌, ◌/◌, ◌%◌, ◌≤◌, ◌<◌, ◌≡◌, ◌≢◌, ◌⊎◌, inl, inr, refl, Bool, Bool-cases, true, false, not,
  ◌&&◌, Option, none, some, List, [], ◌∷◌, Text, codes, All, is_some, is_empty, split_once,
  parse_uint, arith, unwrap_or, and_then, subst, and-eq-true, text_eq, text_eq_sound,
}
use native.Mathlib.Nat.{div-add-mod}
use periodic.Config.Model.{
  ℤ, pos, negsuc, Every, Interval, minutes, hours, named, RawSchedule, RawJob,
}
use periodic.Config.Parse.{u32_bound, parse_every_interval}
use periodic.Config.Normalize.{every_tokens}
use periodic.Chrono.{Chrono}
use periodic.Diagnostics.{Diagnostic, error_at, has_error, has_error-append, has_error-concat}
use periodic.Scheduler.Engine.{parse_hhmm, hour_minute}
use periodic.Scheduler.Calendar.Total.{IsTime}
use periodic.Validation.Schedule.{
  push_if, push_fault, token_fault, check_tokens, check_every, check_schedule, divides,
  is_valid_hhmm, valid_parts, bad_time, bad_cron, bad_zone, out_of_range, is_set, is_below,
}

abbrev pub NoError : List Diagnostic → Type 0
NoError ds = has_error ds ≡ false

pub NoError-push_if :
    (jid : Option Text) (test : Bool) (code path : Text)
    → NoError (push_if jid test (error_at code path))
    → test ≡ false
unfolding has_error
NoError-push_if jid false code path h = refl
NoError-push_if none true code path h = cc
NoError-push_if (some id) true code path h = cc

-- An interval that the engine can align: it divides the hour or the day.
abbrev pub GoodInterval : Interval → Type 0
GoodInterval (minutes n) = (0 < n) × ((k : ℕ) × (n * k ≡ 60))
GoodInterval (hours n) = (0 < n) × ((k : ℕ) × (n * k ≡ 24))
GoodInterval (named name) = Unit

abbrev pub GoodToken : Text → Type 0
GoodToken t = (i : Interval) × (parse_every_interval t ≡ some i) × GoodInterval i

abbrev pub InMonth : ℤ → Type 0
InMonth (pos d) = (1 ≤ d) × (d ≤ 31)
InMonth (negsuc d) = ⊥

-- What the checks on a schedule establish.
pub record IsChecked (c : Chrono) (s : RawSchedule) : Type 0 where
  pub one_kind : is_some s.every ≡ not (is_some s.cron)
  pub one_day : (s.on_day ≡ none) ⊎ (s.last_day ≢ some true)
  pub in_month : (d : ℤ) → s.on_day ≡ some d → InMonth d
  pub tokens : (e : Every) → s.every ≡ some e → All GoodToken (every_tokens e)
  pub time : (at : Text) → s.at ≡ some at → IsTime (parse_hhmm at)
  pub parsed_cron : (x : Text) → s.cron ≡ some x → c.cron_parses x ≡ true
  pub known_zone :
      (z : Text) → s.timezone ≡ some z → (z ≡ codes "local") ⊎ (is_some (c.zone_from_str z) ≡ true)

divides-mul : (n whole : ℕ) → divides n whole ≡ true → (0 < n) × ((k : ℕ) × (n * k ≡ whole))
divides-mul n whole h =
    let pos : 0 < n = ground arith in
    let rem : whole % n ≡ 0 = ground arith in (pos, (whole / n, grind (arith, div-add-mod whole n)))

token_fault-good :
    (o : Option Interval) → token_fault o ≡ none → (i : Interval) × (o ≡ some i) × GoodInterval i
token_fault-good none h = cc
token_fault-good (some (minutes n)) h = (minutes n, refl, divides-mul n 60 (ground arith))
token_fault-good (some (hours n)) h = (hours n, refl, divides-mul n 24 (ground arith))
token_fault-good (some (named name)) h = (named name, refl, tt)

NoError-push_fault :
    (jid : Option Text) (idx : ℕ) (o : Option Text) → NoError (push_fault jid idx o) → o ≡ none
unfolding has_error
NoError-push_fault jid idx none h = refl
NoError-push_fault none idx (some f) h = cc
NoError-push_fault (some id) idx (some f) h = cc

check_tokens-good :
    (jid : Option Text) (idx : ℕ) (ts : List Text)
    → NoError (check_tokens jid idx ts)
    → All GoodToken ts
unfolding check_tokens
check_tokens-good jid idx [] h = tt
check_tokens-good jid idx (t ∷ ts) h =
    let fault = push_fault jid idx (token_fault (parse_every_interval t)) in
    let (here, later) = has_error-append fault (check_tokens jid idx ts) h in
    (
      token_fault-good (parse_every_interval t) (NoError-push_fault jid idx _ here),
      check_tokens-good jid idx ts later,
    )

check_every-good :
    (jid : Option Text) (idx : ℕ) (o : Option Every) (e : Every)
    → NoError (check_every jid idx o)
    → o ≡ some e
    → All GoodToken (every_tokens e)
check_every-good jid idx none e h p = cc
check_every-good jid idx (some e') e h p =
    let same : e' ≡ e = ground arith in
    subst (λ t. All GoodToken (every_tokens t)) same (check_tokens-good jid idx (every_tokens e') h)

below-IsTime :
    (h m : Option ℕ)
    → is_below 24 h ≡ true
    → is_below 60 m ≡ true
    → IsTime (unwrap_or (and_then h (λ hour. and_then m (λ minute. some (hour, minute)))) (0, 0))
below-IsTime none m p q = cc
below-IsTime (some h) none p q = cc
below-IsTime (some h) (some m) p q = (ground arith, ground arith)

valid_parts-IsTime :
    (o : Option (Text × Text))
    → valid_parts o ≡ true
    → IsTime (unwrap_or (and_then o (λ parts. hour_minute parts.0 parts.1)) (0, 0))
valid_parts-IsTime none h = cc
valid_parts-IsTime (some (h, m)) ok =
    let ranges = (and-eq-true (not (is_empty h) && not (is_empty m)) _ ok).1 in
    let (p, q) = and-eq-true (is_below 24 (parse_uint u32_bound h)) _ ranges in
    below-IsTime (parse_uint u32_bound h) (parse_uint u32_bound m) p q

-- A time that passes validation is a time of day for the engine.
pub is_valid_hhmm-IsTime : (at : Text) → is_valid_hhmm at ≡ true → IsTime (parse_hhmm at)
unfolding is_valid_hhmm parse_hhmm
is_valid_hhmm-IsTime at h = valid_parts-IsTime (split_once b':' at) h

bad_time-good :
    (o : Option Text) (at : Text) → bad_time o ≡ false → o ≡ some at → IsTime (parse_hhmm at)
bad_time-good none at h p = cc
bad_time-good (some t) at h p =
    let same : t ≡ at = ground arith in
    subst (λ t. IsTime (parse_hhmm t)) same (is_valid_hhmm-IsTime t (ground arith))

out_of_range-good : (o : Option ℤ) (d : ℤ) → out_of_range o ≡ false → o ≡ some d → InMonth d
out_of_range-good none d h p = cc
out_of_range-good (some (pos n)) d h p =
    let same : pos n ≡ d = ground arith in subst InMonth same (ground arith, ground arith)
out_of_range-good (some (negsuc n)) d h p = cc

bad_cron-good :
    (c : Chrono) (o : Option Text) (x : Text)
    → bad_cron c o ≡ false
    → o ≡ some x
    → c.cron_parses x ≡ true
bad_cron-good c none x h p = cc
bad_cron-good c (some y) x h p =
    let same : y ≡ x = ground arith in subst (λ t. c.cron_parses t ≡ true) same (ground arith)

bad_zone-good :
    (c : Chrono) (o : Option Text) (z : Text)
    → bad_zone c o ≡ false
    → o ≡ some z
    → (z ≡ codes "local") ⊎ (is_some (c.zone_from_str z) ≡ true)
bad_zone-good c none z h p = cc
bad_zone-good c (some y) z h p =
    let same : y ≡ z = ground arith in
    subst (λ t. (t ≡ codes "local") ⊎ (is_some (c.zone_from_str t) ≡ true)) same
      (elim (Bool-cases (text_eq y (codes "local"))) [
        | inl e ↦ inl (text_eq_sound y (codes "local") e)
        | inr ne ↦ inr (ground arith)
      ])

kind_of :
    (e : Option Every) (x : Option Text)
    → (is_some e && is_some x) ≡ false
    → (not (is_some e) && not (is_some x)) ≡ false
    → is_some e ≡ not (is_some x)
kind_of e x p q = ground arith

day_of :
    (d : Option ℤ) (l : Option Bool)
    → (is_some d && is_set l) ≡ false
    → (d ≡ none) ⊎ (l ≢ some true)
day_of none l h = inl refl
day_of (some d) none h = inr (λ e. cc)
day_of (some d) (some true) h = cc
day_of (some d) (some false) h = inr (λ e. cc)

-- The eight groups of diagnostics of `check_schedule`, each without errors.
pub check_schedule-good :
    (c : Chrono) (idx : ℕ) (job : RawJob)
    → NoError (check_schedule c idx job)
    → IsChecked c job.schedule
unfolding check_schedule
check_schedule-good c idx job h =
    let s = job.schedule in
    let checks = has_error-concat _ h in
    let both = NoError-push_if job.id _ _ _ checks.0 in
    let neither = NoError-push_if job.id _ _ _ checks.1.0 in
    let rest = checks.1.1 in
    record {
      one_kind = kind_of s.every s.cron both neither;
      one_day = day_of s.on_day s.last_day (NoError-push_if job.id _ _ _ rest.0);
      in_month = λ d p. out_of_range-good s.on_day d (NoError-push_if job.id _ _ _ rest.1.0) p;
      tokens = λ e p. check_every-good job.id idx s.every e rest.1.1.0 p;
      time = λ at p. bad_time-good s.at at (NoError-push_if job.id _ _ _ rest.1.1.1.0) p;
      parsed_cron = λ x p. bad_cron-good c s.cron x (NoError-push_if job.id _ _ _ rest.1.1.1.1.0) p;
      known_zone =
          λ z p. bad_zone-good c s.timezone z (NoError-push_if job.id _ _ _ rest.1.1.1.1.1.0) p;
    }
