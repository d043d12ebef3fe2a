-- ===== src/JobsEdit/Loop.antt =====
-- How the edit loop ends.
use periodic.Prelude.{
  ◌≡◌, ◌≢◌, refl, ap, sym, ◌∙◌, subst, Bool, Bool-cases, true, false, not, ◌&&◌, Option, none, some,
  List, [], ◌∷◌, Text, text_eq, text_eq_refl, is_empty, is_some, trim, All, if_true, if_false, inl,
  inr, if◌then◌else◌,
}
use periodic.Run.{Run, returns, returns_injective}
use periodic.Chrono.{Chrono}
use periodic.Diagnostics.{Diagnostic}
use periodic.Validation.Job.{Machine}
use periodic.JobsEdit.{
  Editing, saved, quit, io_error, EditResult, edited, no_change, aborted, failed, strip_cr,
  strip_header, join_lines, render_header, Parsed, validate_yaml, buffer, Next, finish, again,
  on_body, on_answer, proceed, edit_loop, run_edit_loop,
}
use periodic.JobsEdit.Header.{IsLine, unlines, IsOneLine, strip_header-render_header}

module _ (c : Chrono) (m : Machine) (parse : Text → Parsed) (message : Diagnostic → Text) where
  -- What a result of a round says: an edited text is good and is not blank and not the text that the
  -- editor was given; nothing changed only if it is the text of the first round.
  pub data Says (current : Text) (header : Option Text) (first : Bool) : EditResult → Type 0 where
    good :
        (t : Text)
        → validate_yaml c m parse t ≡ []
        → is_empty (trim t) ≡ false
        → t ≢ current
        → Says current header first (edited t)
    same : first ≡ true → header ≡ none → Says current header first no_change
    gave_up : Says current header first aborted
    broke : Says current header first failed

  -- A result of the whole loop, of its first round or of a later one.
  pub data Ends (seed : Text) : EditResult → Type 0 where
    at_once : {r : EditResult} → Says seed none true r → Ends seed r
    later :
        {r : EditResult} (current header : Text)
        → validate_yaml c m parse current ≢ []
        → Says current (some header) false r
        → Ends seed r

  -- What a round comes to: a result of the loop, or a refused text for the next.
  data Round (current : Text) (header : Option Text) (first : Bool)
      : Next c m parse message → Type 0 where
    over : {r : EditResult} → Says current header first r → Round current header first (finish r)
    refused :
        (h body : Text)
        → validate_yaml c m parse body ≢ []
        → Round current header first (again h body)

  unchanged :
      (current : Text) (header : Option Text) (first : Bool)
      → Says current header first (if first && not (is_some header) then no_change else aborted)
  unchanged current none true = same refl refl
  unchanged current (some h) true = gave_up
  unchanged current none false = gave_up
  unchanged current (some h) false = gave_up

  checked :
      (body current : Text) (header : Option Text) (first : Bool) (diags : List Diagnostic)
      → validate_yaml c m parse body ≡ diags
      → is_empty (trim body) ≡ false
      → body ≢ current
      → Round current header first (
          if is_empty diags then finish (edited body) else again (render_header message diags) body)
  checked body current header first [] v filled n = over (good body v filled n)
  checked body current header first (d ∷ diags) v filled n =
      refused _ body (λ e. let k = sym v ∙ e in cc)

  on_body-Round :
      (body current : Text) (header : Option Text) (first : Bool)
      → Round current header first (on_body c m parse message body current header first)
  on_body-Round body current header first = elim (Bool-cases (is_empty (trim body))) [
    | inl blank ↦
        subst (Round current header first) (sym (if_true (is_empty (trim body)) _ _ blank))
          (over gave_up)
    | inr filled ↦ elim (Bool-cases (text_eq body current)) [
      | inl equal ↦
          subst (Round current header first)
            (sym (
              if_false (is_empty (trim body)) _ _ filled
              ∙ if_true (text_eq body current) _ _ equal))
            (over (unchanged current header first))
      | inr changed ↦
          let n : body ≢ current =
            λ e. let k = sym changed ∙ (ap (text_eq body) (sym e) ∙ text_eq_refl body) in cc in
          subst (Round current header first)
            (sym (
              if_false (is_empty (trim body)) _ _ filled
              ∙ if_false (text_eq body current) _ _ changed))
            (checked body current header first (validate_yaml c m parse body) refl filled n)
    ]
  ]

  on_answer-Round :
      (answer : Editing) (current : Text) (header : Option Text) (first : Bool)
      → Round current header first (on_answer c m parse message answer current header first)
  on_answer-Round io_error current header first = over broke
  on_answer-Round quit current header first = over gave_up
  on_answer-Round (saved raw) current header first =
      on_body-Round (strip_header raw) current header first

  proceed-Ends :
      (seed current : Text) (header : Option Text) (first : Bool) (next : Next c m parse message)
      (rest : Text → Text → Run EditResult) (r : EditResult)
      → Round current header first next
      → ((r : EditResult) → Says current header first r → Ends seed r)
      → ((h body : Text)
          → validate_yaml c m parse body ≢ []
          → rest h body ≡ returns r
          → Ends seed r)
      → proceed c m parse message next rest ≡ returns r
      → Ends seed r
  proceed-Ends seed current header first (finish r') rest r (over says) here there e =
      subst (Ends seed) (returns_injective e) (here _ says)
  proceed-Ends seed current header first (again h body) rest r (refused h' body' bad) here there e =
      there h body bad e

  later-Ends :
      (answers : List (Text → Editing)) (seed current header : Text) (r : EditResult)
      → validate_yaml c m parse current ≢ []
      → edit_loop c m parse message answers current (some header) false ≡ returns r
      → Ends seed r
  unfolding edit_loop
  later-Ends [] seed current header r bad e = cc
  later-Ends (answer ∷ answers) seed current header r bad e =
      proceed-Ends seed current (some header) false _ _ r
        (on_answer-Round (answer (buffer c m parse message (some header) current)) current
          (some header) false)
        (λ r says. later current header bad says)
        (λ h body bad' e'. later-Ends answers seed body h r bad' e') e

  -- Whatever the editor does in each round: where the loop ends with an edited text, the text has no
  -- error, is not blank and is not the text that the editor was given in that round; it ends with no
  -- change only in the first round; and every later round is for a text that has been refused.
  pub run_edit_loop-Ends :
      (seed : Text) (answers : List (Text → Editing)) (r : EditResult)
      → run_edit_loop c m parse message seed answers ≡ returns r
      → Ends seed r
  unfolding run_edit_loop edit_loop
  run_edit_loop-Ends seed [] r e = cc
  run_edit_loop-Ends seed (answer ∷ answers) r e =
      proceed-Ends seed seed none true _ _ r
        (on_answer-Round (answer (buffer c m parse message none seed)) seed none true)
        (λ r says. at_once says) (λ h body bad e'. later-Ends answers seed body h r bad e') e

  -- An editor that saves what it is given ends the loop: in a round after a text was refused, the text
  -- below its header is found unchanged and the loop is aborted. The text has its lines end in line
  -- breaks alone and is not blank; the diagnostics have no line breaks.
  pub edit_loop-unchanged :
      (diags : List Diagnostic) (ls : List Text) (answers : List (Text → Editing))
      → All (IsOneLine message) diags
      → All (λ s. IsLine s × (strip_cr s ≡ s)) ls
      → is_empty (join_lines ls) ≡ false
      → edit_loop c m parse message
          ((λ b. saved b) ∷ answers)
          (unlines ls)
          (some (render_header message diags))
          false
        ≡ returns aborted
  unfolding edit_loop
  edit_loop-unchanged diags ls answers d l e =
      ap
        (λ t.
          proceed c m parse message
            (on_body c m parse message t (unlines ls) (some (render_header message diags)) false)
            (λ h body. edit_loop c m parse message answers body (some h) false))
        (strip_header-render_header message diags ls d l e)
      ∙ ap
          (λ x.
            proceed c m parse message x
              (λ h body. edit_loop c m parse message answers body (some h) false))
          (either (is_empty (trim (unlines ls))) _)
    where
      same_text : text_eq (unlines ls) (unlines ls) ≡ true
      same_text = text_eq_refl (unlines ls)

      either :
          (blank : Bool) (x : Next c m parse message)
          → (if blank
              then finish aborted
              else if text_eq (unlines ls) (unlines ls)
              then finish aborted
              else x)
            ≡ finish aborted
      either true x = refl
      either false x = if_true (text_eq (unlines ls) (unlines ls)) _ _ same_text
