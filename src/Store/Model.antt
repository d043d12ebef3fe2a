-- ===== src/Store/Model.antt =====
-- The tables, and the state monad in which the statements run.
use periodic.Prelude.{ℕ, ◌+◌, Bool, Option, List, [], ◌∷◌, Text, if◌then◌else◌}
use periodic.Config.Model.{ℤ}

-- The texts of `runs.status` and `run_attempts.status`.
pub data Status : Type 0 where
  pending running success failed timeout cancelled interrupted skipped skipped_overlap : Status

-- The texts of `runs.trigger_type`.
pub data Trigger : Type 0 where
  manual scheduled missed : Trigger

pub record RunRow : Type 0 where
  pub id : Text
  pub job_id : Text
  pub config_hash : Text
  pub trigger_type : Trigger
  pub status : Status
  pub occurrence_key : Option Text
  pub started_at : Option Text
  pub finished_at : Option Text
  pub exit_code : Option ℤ
  pub error : Option Text
  pub created_at : Text
  pub updated_at : Text

pub record AttemptRow : Type 0 where
  pub id : Text
  pub run_id : Text
  pub attempt_number : ℕ
  pub status : Status
  pub pid : Option ℕ
  pub started_at : Option Text
  pub finished_at : Option Text
  pub exit_code : Option ℤ
  pub signal : Option ℕ
  pub error : Option Text
  pub created_at : Text
  pub updated_at : Text

pub record JobRow : Type 0 where
  pub job_id : Text
  pub state : Text
  pub config_hash : Text
  pub schedule_kind : Text
  pub next_run_at : Option Text
  pub last_run_id : Option Text
  pub last_success_at : Option Text
  pub last_failure_at : Option Text
  pub consecutive_failures : ℕ
  pub updated_at : Text

pub record EventRow : Type 0 where
  pub id : Text
  pub job_id : Text
  pub run_id : Text
  pub attempt_id : Option Text
  pub level : Text
  pub event_type : Text
  pub message : Text
  pub created_at : Text

pub record KeyRow : Type 0 where
  pub key : Text
  pub value : Text
  pub updated_at : Text

-- `event_seq` is the process-wide counter `EVENT_SEQ` of src/events.rs.
pub record Store : Type 0 where
  pub runs : List RunRow
  pub attempts : List AttemptRow
  pub jobs_state : List JobRow
  pub events : List EventRow
  pub daemon_state : List KeyRow
  pub event_seq : ℕ

pub data Error : Type 0 where
  no_row_updated : Text → Error
  constraint : Error

pub data Result {ℓ} (A : Type ℓ) : Type ℓ where
  ok : A → Result A
  err : Error → Result A

-- A statement keeps what it has written before a later one fails.
abbrev pub M : Type 0 → Type 0
M A = Store → Result A × Store

abbrev pub after : {A B : Type 0} → Result A → (A → M B) → M B
after (ok a) f s = f a s
after (err e) f s = (err e, s)

infixl 5 ◌>>=◌ ◌>>◌
abbrev pub ◌>>=◌ : {A B : Type 0} → M A → (A → M B) → M B
◌>>=◌ m f s = after (m s).0 f (m s).1

abbrev pub ◌>>◌ : {B : Type 0} → M (Unit {0}) → M B → M B
m >> k = m >>= λ _. k

abbrev pub return : {A : Type 0} → A → M A
return a s = (ok a, s)

-- `update .. set .. where ..`.
abbrev pub update_where {ℓ} : {A : Type ℓ} → (A → Bool) → (A → A) → List A → List A
update_where p f [] = []
update_where p f (x ∷ xs) = (if p x then f x else x) ∷ update_where p f xs

abbrev pub count_where {ℓ} : {A : Type ℓ} → (A → Bool) → List A → ℕ
count_where p [] = 0
count_where p (x ∷ xs) = if p x then 1 + count_where p xs else count_where p xs
