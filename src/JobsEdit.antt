-- ===== src/JobsEdit.antt =====
-- src/jobs_edit.rs: the loop of `jobs edit` over the answers of the editor. The parser of the
-- configuration and the message texts of diagnostics are parameters.
pub mod Header
pub mod Loop
mod Tests
use periodic.Prelude.{
  ℕ, zero, suc, ◌+◌, Bool, true, false, not, ◌&&◌, Option, none, some, List, [], ◌∷◌, ◌++◌, Text,
  codes, text_eq, is_empty, ◌==◌, if◌then◌else◌, keep_if, length, decimal, trim, is_some,
}
use periodic.Run.{Run, returns, stuck}
use periodic.Config.Model.{RawConfig}
use periodic.Chrono.{Chrono}
use periodic.Diagnostics.{Diagnostic, is_error}
use periodic.Validation.{validate_config}
use periodic.Validation.Job.{Machine}

-- What the editor comes to: the text that was saved, an exit with an error, or a failure to run.
pub data Editing : Type 0 where
  saved : Text → Editing
  quit io_error : Editing

pub data EditResult : Type 0 where
  edited : Text → EditResult
  no_change aborted failed : EditResult

-- `HEADER_START` and `HEADER_END`.
abbrev pub header_start : Text
header_start = codes "# ┌─ periodic:"

abbrev pub header_end : Text
header_end = codes "# └─"

abbrev pub newline : ℕ
newline = 10

abbrev pub starts_with : Text → Text → Bool
starts_with [] s = true
starts_with (c ∷ prefix) [] = false
starts_with (c ∷ prefix) (d ∷ s) = (c == d) && starts_with prefix s

-- A line without the carriage return before its line break.
abbrev pub strip_cr : Text → Text
strip_cr [] = []
strip_cr (c ∷ []) = if c == 13 then [] else c ∷ []
strip_cr (c ∷ d ∷ s) = c ∷ strip_cr (d ∷ s)

-- `str::lines`; `part` is read since the last line break.
abbrev pub lines_from : Text → Text → List Text
lines_from part [] = if is_empty part then [] else part ∷ []
lines_from part (c ∷ s) =
    let next = lines_from [] s in
    let longer = lines_from (part ++ (c ∷ [])) s in
    if c == newline then strip_cr part ∷ next else longer

abbrev pub lines : Text → List Text
lines s = lines_from [] s

-- `join("\n")`.
abbrev pub join_lines : List Text → Text
join_lines [] = []
join_lines (s ∷ []) = s
join_lines (s ∷ t ∷ rest) = s ++ (newline ∷ join_lines (t ∷ rest))

-- The loop of `strip_header`: past the first line that ends the header.
abbrev pub after_header : List Text → List Text
after_header [] = []
after_header (line ∷ rest) =
    let further = after_header rest in if starts_with header_end line then rest else further

abbrev pub ended : Text → Text
ended rest = if is_empty rest then rest else rest ++ (newline ∷ [])

unfoldable pub strip_header : Text → Text
strip_header buf =
    if starts_with header_start buf then ended (join_lines (after_header (lines buf))) else buf

module _ (message : Diagnostic → Text) where
  abbrev pub diagnostic_line : Diagnostic → Text
  diagnostic_line d = codes "# │ " ++ (d.path ++ (codes ": " ++ message d))

  abbrev pub diagnostic_lines : List Diagnostic → Text
  diagnostic_lines [] = []
  diagnostic_lines (d ∷ diags) = diagnostic_line d ++ (newline ∷ diagnostic_lines diags)

  abbrev pub first_line : List Diagnostic → Text
  first_line diags =
      header_start
      ++ (codes " "
          ++ (decimal (length diags)
              ++ codes " error(s) — fix and save, or save unchanged to abort"))

  unfoldable pub render_header : List Diagnostic → Text
  render_header diags =
      first_line diags ++ (newline ∷ (diagnostic_lines diags ++ (header_end ++ (newline ∷ []))))

-- `config::parse`.
pub data Parsed : Type 0 where
  ok : RawConfig → Parsed
  err : Diagnostic → Parsed

module _ (c : Chrono) (m : Machine) (parse : Text → Parsed) where
  abbrev pub errors_of : Parsed → List Diagnostic
  errors_of (err d) = d ∷ []
  errors_of (ok raw) = keep_if is_error (validate_config c m raw)

  -- `validate_yaml`: the diagnostics that refuse the text, none if it is good.
  unfoldable pub validate_yaml : Text → List Diagnostic
  validate_yaml yaml = errors_of (parse yaml)

module _ (c : Chrono) (m : Machine) (parse : Text → Parsed) (message : Diagnostic → Text) where
  abbrev pub buffer : Option Text → Text → Text
  buffer none current = current
  buffer (some header) current = header ++ current

  -- What a saved text comes to: the end of the loop, or the next round with a header.
  pub data Next : Type 0 where
    finish : EditResult → Next
    again : (header body : Text) → Next

  abbrev pub on_body : Text → Text → Option Text → Bool → Next
  on_body body current header first =
      let diags = validate_yaml c m parse body in
      let checked =
        if is_empty diags then finish (edited body) else again (render_header message diags) body in
      if is_empty (trim body)
      then finish aborted
      else if text_eq body current
      then finish (if first && not (is_some header) then no_change else aborted)
      else checked

  abbrev pub on_answer : Editing → Text → Option Text → Bool → Next
  on_answer io_error current header first = finish failed
  on_answer quit current header first = finish aborted
  on_answer (saved raw) current header first = on_body (strip_header raw) current header first

  abbrev pub proceed : Next → (Text → Text → Run EditResult) → Run EditResult
  proceed (finish r) rest = returns r
  proceed (again header body) rest = rest header body

  -- The loop, as far as the answers go. An answer may depend on the buffer that the editor is given.
  unfoldable pub edit_loop : List (Text → Editing) → Text → Option Text → Bool → Run EditResult
  edit_loop [] current header first = stuck
  edit_loop (answer ∷ answers) current header first =
      proceed (on_answer (answer (buffer header current)) current header first)
        (λ header' body. edit_loop answers body (some header') false)

  unfoldable pub run_edit_loop : Text → List (Text → Editing) → Run EditResult
  run_edit_loop seed answers = edit_loop answers seed none true
