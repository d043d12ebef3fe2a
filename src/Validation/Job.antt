-- ===== src/Validation/Job.antt =====
-- src/validation.rs: `check_job`, the id charset and the search for the command.
use periodic.Prelude.{
  ℕ, ◌*◌, Bool, true, false, not, ◌&&◌, ◌||◌, Option, none, some, List, [], ◌∷◌, ◌++◌, Text, codes,
  any, all, is_empty, is_lower, is_digit, is_space, trim, drop_while, ltb, ◌==◌, if◌then◌else◌,
}
use periodic.Config.Model.{ℤ, pos, negsuc, RawJob}
use periodic.Config.Parse.{parse_duration}
use periodic.Config.Normalize.{retry_limit}
use periodic.Diagnostics.{Diagnostic, error_at, warning_at, concat}
use periodic.Validation.Schedule.{named_job, push_if, job_path}

-- The machine: which paths exist, `HOME`, and the directories of `PATH`.
pub record Machine : Type 0 where
  pub exists : Text → Bool
  pub home : Option Text
  pub path_dirs : Option (List Text)
  pub join : Text → Text → Text

abbrev pub very_long_timeout_secs : ℕ
very_long_timeout_secs = 24 * 3600

abbrev pub kebab_char : ℕ → Bool
kebab_char c = is_lower c || is_digit c || (c == b'-')

unfoldable pub is_kebab : Text → Bool
is_kebab s = not (is_empty s) && all kebab_char s

-- The characters up to the first space.
abbrev pub until_space : Text → Text
until_space [] = []
until_space (c ∷ s) = if is_space c then [] else c ∷ until_space s

-- `split_whitespace().next().unwrap_or(cmd)`.
abbrev pub first_word : Text → Text
first_word cmd =
    if is_empty (drop_while is_space cmd) then cmd else until_space (drop_while is_space cmd)

-- `strip_prefix("~/")`.
abbrev pub strip_tilde : Text → Option Text
strip_tilde (a ∷ b ∷ rest) = if (a == b'~') && (b == b'/') then some rest else none
strip_tilde _ = none

abbrev pub bad_id : Option Text → Bool
bad_id none = false
bad_id (some id) = not (is_kebab id)

abbrev pub check_secs : Option Text → ℕ → Option ℕ → List Diagnostic
check_secs jid idx none =
    named_job jid (error_at (codes "duration.invalid") (job_path idx (codes ".timeout"))) ∷ []
check_secs jid idx (some secs) =
    push_if jid (ltb very_long_timeout_secs secs)
      (warning_at (codes "timeout.very_long") (job_path idx (codes ".timeout")))

abbrev pub check_timeout : Option Text → ℕ → Option Text → List Diagnostic
check_timeout jid idx none = []
check_timeout jid idx (some t) = check_secs jid idx (parse_duration t)

abbrev pub is_negative : Option ℤ → Bool
is_negative none = false
is_negative (some (pos n)) = false
is_negative (some (negsuc n)) = true

module _ (m : Machine) where
  abbrev pub expand_home : Text → Text → Option Text → Text
  expand_home s rest none = s
  expand_home s rest (some home) = home ++ (codes "/" ++ rest)

  abbrev pub shellexpand_tilde : Text → Text
  shellexpand_tilde s = elim (strip_tilde s) [ none ↦ s | some rest ↦ expand_home s rest m.home ]

  abbrev pub on_path : Text → Option (List Text) → Bool
  on_path name none = false
  on_path name (some dirs) = any (λ dir. m.exists (m.join dir name)) dirs

  unfoldable pub command_resolves : Text → Bool
  command_resolves cmd =
      let expanded = shellexpand_tilde (first_word cmd) in
      if any (λ c. c == b'/') expanded then m.exists expanded else on_path expanded m.path_dirs

  abbrev pub check_command : Option Text → ℕ → Option Text → List Diagnostic
  check_command jid idx none =
      named_job jid
        (error_at (codes "execution.command_missing") (job_path idx (codes ".execution.command")))
      ∷ []
  check_command jid idx (some cmd) =
      if is_empty (trim cmd)
      then named_job jid
          (error_at (codes "execution.command_missing") (job_path idx (codes ".execution.command")))
        ∷ []
      else push_if jid (not (command_resolves cmd))
          (warning_at (codes "execution.not_found") (job_path idx (codes ".execution.command")))

  unfoldable pub check_job : ℕ → RawJob → List Diagnostic
  check_job idx job = concat (
      push_if job.id (bad_id job.id)
        (error_at (codes "job.id_invalid") (job_path idx (codes ".id")))
      ∷ check_command job.id idx job.execution.command
      ∷ check_timeout job.id idx job.timeout
      ∷ push_if job.id (is_negative (retry_limit job.retry))
          (error_at (codes "field.type") (job_path idx (codes ".retry.max_retries")))
      ∷ [])
