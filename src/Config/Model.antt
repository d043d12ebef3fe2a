-- ===== src/Config/Model.antt =====
-- src/config.rs: the raw configuration as serde fills it, and the effective one.
use periodic.Prelude.{ℕ, Bool, Option, List, Text}

-- An `i64`: `negsuc n` is -(n + 1).
pub data ℤ : Type 0 where
  pos : ℕ → ℤ
  negsuc : ℕ → ℤ

pub record RawRetry : Type 0 where
  pub max_retries : Option ℤ

pub record RawDefaults : Type 0 where
  pub timezone : Option Text
  pub timeout : Option Text
  pub overlap_policy : Option Text
  pub missed_run_policy : Option Text
  pub retry : Option RawRetry

pub data Every : Type 0 where
  one : Text → Every
  many : List Text → Every

pub record RawSchedule : Type 0 where
  pub every : Option Every
  pub at : Option Text
  pub on_day : Option ℤ
  pub last_day : Option Bool
  pub cron : Option Text
  pub timezone : Option Text

pub record RawExecution : Type 0 where
  pub command : Option Text
  pub args : List Text
  pub cwd : Option Text

pub record RawJob : Type 0 where
  pub id : Option Text
  pub title : Option Text
  pub enabled : Option Bool
  pub schedule : RawSchedule
  pub execution : RawExecution
  pub timeout : Option Text
  pub missed_run_policy : Option Text
  pub overlap_policy : Option Text
  pub retry : Option RawRetry
  pub tags : List Text
  pub metadata : List (Text × Text)

pub record RawConfig : Type 0 where
  pub version : ℕ
  pub defaults : Option RawDefaults
  pub jobs : List RawJob

pub data Interval : Type 0 where
  minutes : ℕ → Interval
  hours : ℕ → Interval
  named : Text → Interval

pub data NormalizedSchedule : Type 0 where
  minute_aligned : (every_minutes : ℕ) → NormalizedSchedule
  hour_aligned : (every_hours : ℕ) → NormalizedSchedule
  calendar :
      (days : List Text) (at : Text) (timezone : Option Text) (on_day : Option ℤ) (last_day : Bool)
      → NormalizedSchedule
  cron : (expression : Text) (timezone : Option Text) → NormalizedSchedule

pub data OverlapPolicy : Type 0 where
  skip queue kill : OverlapPolicy

pub data MissedRunPolicy : Type 0 where
  skip run_once run_all : MissedRunPolicy

pub record EffectiveJob : Type 0 where
  pub id : Option Text
  pub title : Option Text
  pub enabled : Bool
  pub schedule : NormalizedSchedule
  pub command : Text
  pub args : List Text
  pub cwd : Option Text
  pub timeout_secs : Option ℕ
  pub timezone : Option Text
  pub overlap_policy : OverlapPolicy
  pub missed_run_policy : MissedRunPolicy
  pub max_retries : ℕ
  pub tags : List Text

pub record EffectiveConfig : Type 0 where
  pub version : ℕ
  pub jobs : List EffectiveJob
