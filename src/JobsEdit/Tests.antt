-- ===== src/JobsEdit/Tests.antt =====
-- Examples of the edit loop.
use periodic.Prelude.{
  ◌≡◌, refl, false, some, List, [], ◌∷◌, ◌++◌, Text, codes, text_eq, decimal, to_lowercase,
  if◌then◌else◌,
}
use periodic.Run.{returns}
use periodic.Config.Parse.{contains, parse_every_interval, parse_duration}
use periodic.Chrono.Fixed.{fixed}
use periodic.Diagnostics.{Diagnostic, error_at, concat, has_error}
use periodic.Validation.{check_jobs, validate_config}
use periodic.Validation.Schedule.{check_schedule, check_tokens, is_valid_hhmm, job_path}
use periodic.Validation.Job.{is_kebab, command_resolves, check_job}
use periodic.JobsEdit.{
  Editing, saved, edited, aborted, newline, strip_header, render_header, Parsed, ok, err,
  validate_yaml, edit_loop, run_edit_loop,
}
use periodic.JobsEdit.Header.{unlines}
use periodic.JobsEdit.Loop.{Ends, run_edit_loop-Ends, edit_loop-unchanged}
use periodic.Samples.{machine, raw_config}

abbrev bad : Diagnostic
bad = error_at (codes "yaml.syntax") (codes "jobs")

-- A parser that refuses one text.
abbrev parse : Text → Parsed
parse t = if text_eq t (codes "x" ++ (newline ∷ [])) then err bad else ok raw_config

abbrev message : Diagnostic → Text
message d = codes "expected a list"

abbrev refused : List Text
refused = codes "x" ∷ []

edit_loop-unchanged_example :
    edit_loop fixed machine parse message
      ((λ b. saved b) ∷ [])
      (unlines refused)
      (some (render_header message (bad ∷ [])))
      false
    ≡ returns aborted
edit_loop-unchanged_example =
    edit_loop-unchanged fixed machine parse message (bad ∷ []) refused [] ((refl, refl), tt)
      ((refl, refl), tt) refl

-- The seed is edited to a text that is refused, and then back.
abbrev back : List (Text → Editing)
back = (λ b. saved (unlines refused)) ∷ (λ b. saved (codes "seed")) ∷ []

back_to_seed :
    run_edit_loop fixed machine parse message (codes "seed") back ≡ returns (edited (codes "seed"))
unfolding run_edit_loop edit_loop strip_header validate_yaml render_header contains
    parse_every_interval parse_duration concat has_error check_jobs validate_config check_schedule
    check_tokens is_valid_hhmm job_path is_kebab command_resolves check_job to_lowercase decimal
back_to_seed = refl

run_edit_loop-Ends_example : Ends fixed machine parse message (codes "seed") (edited (codes "seed"))
run_edit_loop-Ends_example =
    run_edit_loop-Ends fixed machine parse message (codes "seed") back (edited (codes "seed"))
      back_to_seed
