-- ===== src/JobsEdit/Header.antt =====
-- The header that the editor shows above a refused text, and that is taken away again.
use periodic.Prelude.{
  all-append, ℕ, ◌≡◌, refl, ap, sym, ◌∙◌, Bool, true, false, not, ◌&&◌, and-eq-true, List, [], ◌∷◌,
  ◌++◌, Text, is_empty, all, All, ◌==◌, if_false, arith, decimal, decimal-is_digit, is_digit,
  length,
}
use mathlib.Core.List.{append_assoc, append-nil}
use periodic.Diagnostics.{Diagnostic}
use periodic.JobsEdit.{
  header_end, newline, starts_with, strip_cr, lines_from, lines, join_lines, after_header, ended,
  strip_header, diagnostic_line, diagnostic_lines, first_line, render_header,
}

abbrev pub is_plain : ℕ → Bool
is_plain c = not (c == newline)

abbrev pub IsLine : Text → Type 0
IsLine s = all is_plain s ≡ true

-- The text of some lines, each with its line break.
abbrev pub unlines : List Text → Text
unlines [] = []
unlines (s ∷ rest) = s ++ (newline ∷ unlines rest)

lines_from-line :
    (part s rest : Text)
    → IsLine s
    → lines_from part (s ++ (newline ∷ rest)) ≡ strip_cr (part ++ s) ∷ lines_from [] rest
lines_from-line part [] rest h = ap (λ t. strip_cr t ∷ lines_from [] rest) (sym (append-nil part))
lines_from-line part (c ∷ s) rest h =
    let (here, there) = and-eq-true (is_plain c) _ h in
    let other : (c == newline) ≡ false = ground arith in
    if_false (c == newline) _ _ other
    ∙ (lines_from-line (part ++ (c ∷ [])) s rest there
        ∙ ap (λ t. strip_cr t ∷ lines_from [] rest) (append_assoc part (c ∷ []) s))

lines-unlines :
    (ls : List Text) → All (λ s. IsLine s × (strip_cr s ≡ s)) ls → lines (unlines ls) ≡ ls
lines-unlines [] h = refl
lines-unlines (s ∷ rest) h =
    lines_from-line [] s (unlines rest) h.0.0
    ∙ (ap (◌∷ lines_from [] (unlines rest)) h.0.1 ∙ ap (s ∷◌) (lines-unlines rest h.1))

join_lines-unlines :
    (s : Text) (ls : List Text) → join_lines (s ∷ ls) ++ (newline ∷ []) ≡ unlines (s ∷ ls)
join_lines-unlines s [] = refl
join_lines-unlines s (t ∷ rest) =
    append_assoc s (newline ∷ join_lines (t ∷ rest)) (newline ∷ [])
    ∙ ap (λ x. s ++ (newline ∷ x)) (join_lines-unlines t rest)

digits-IsLine : (s : Text) → all is_digit s ≡ true → IsLine s
digits-IsLine [] h = refl
digits-IsLine (c ∷ s) h =
    let (here, there) = and-eq-true (is_digit c) _ h in
    let one : is_plain c ≡ true = ground arith in
    ap (λ b. b && all is_plain s) one ∙ digits-IsLine s there

module _ (message : Diagnostic → Text) where
  -- The texts of a diagnostic, each on one line.
  abbrev pub IsOneLine : Diagnostic → Type 0
  IsOneLine d = IsLine d.path × IsLine (message d)

  first_line-IsLine : (diags : List Diagnostic) → IsLine (first_line message diags)
  first_line-IsLine diags =
      all-append is_plain (decimal (length diags)) _
        (digits-IsLine (decimal (length diags)) (decimal-is_digit (length diags))) refl

  diagnostic_line-IsLine : (d : Diagnostic) → IsOneLine d → IsLine (diagnostic_line message d)
  diagnostic_line-IsLine d h = all-append is_plain d.path _ h.0 h.1

  -- A line that does not end the header is passed.
  after_header-line :
      (s rest : Text)
      → IsLine s
      → starts_with header_end (strip_cr s) ≡ false
      → after_header (lines (s ++ (newline ∷ rest))) ≡ after_header (lines rest)
  after_header-line s rest h k =
      ap after_header (lines_from-line [] s rest h)
      ∙ if_false (starts_with header_end (strip_cr s)) _ _ k

  -- The lines of the diagnostics, and the end of the header.
  abbrev tail : List Diagnostic → Text → Text
  tail diags body = diagnostic_lines message diags ++ (header_end ++ (newline ∷ body))

  after_header-diagnostics :
      (diags : List Diagnostic) (body : Text)
      → All IsOneLine diags
      → after_header (lines (tail diags body)) ≡ lines body
  after_header-diagnostics [] body h = refl
  after_header-diagnostics (d ∷ diags) body h =
      ap (λ t. after_header (lines t))
        (append_assoc (diagnostic_line message d) (newline ∷ diagnostic_lines message diags)
          (header_end ++ (newline ∷ body)))
      ∙ (after_header-line (diagnostic_line message d) (tail diags body)
            (diagnostic_line-IsLine d h.0) refl
          ∙ after_header-diagnostics diags body h.1)

  render_header-append :
      (diags : List Diagnostic) (body : Text)
      → render_header message diags ++ body
        ≡ first_line message diags ++ (newline ∷ tail diags body)
  unfolding render_header
  render_header-append diags body =
      append_assoc (first_line message diags)
        (newline ∷ (diagnostic_lines message diags ++ (header_end ++ (newline ∷ [])))) body
      ∙ ap (λ t. first_line message diags ++ (newline ∷ t))
          (append_assoc (diagnostic_lines message diags) (header_end ++ (newline ∷ [])) body)

  ended-join_lines :
      (ls : List Text) → is_empty (join_lines ls) ≡ false → ended (join_lines ls) ≡ unlines ls
  ended-join_lines [] e = cc
  ended-join_lines (s ∷ rest) e =
      if_false (is_empty (join_lines (s ∷ rest))) _ _ e ∙ join_lines-unlines s rest

  -- The header is taken away with nothing else: what is left of a header above a text is the text. The
  -- text has its lines end in line breaks alone and is more than one of them; the diagnostics have no
  -- line breaks.
  pub strip_header-render_header :
      (diags : List Diagnostic) (ls : List Text)
      → All IsOneLine diags
      → All (λ s. IsLine s × (strip_cr s ≡ s)) ls
      → is_empty (join_lines ls) ≡ false
      → strip_header (render_header message diags ++ unlines ls) ≡ unlines ls
  unfolding strip_header
  strip_header-render_header diags ls d l e =
      ap strip_header (render_header-append diags (unlines ls))
      ∙ ap (λ rest. ended (join_lines rest))
          (after_header-line (first_line message diags) (tail diags (unlines ls))
              (first_line-IsLine diags) refl
            ∙ (after_header-diagnostics diags (unlines ls) d ∙ lines-unlines ls l))
      ∙ ended-join_lines ls e
