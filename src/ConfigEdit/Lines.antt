-- ===== src/ConfigEdit/Lines.antt =====
-- Lines of a text, for the edits of src/config_edit.rs.
use mathlib.Core.List.{reverse, reverse_aux-eq, reverse-append, reverse-reverse}
use periodic.Prelude.{
  ℕ, ◌≡◌, ◌⊎◌, refl, ap, sym, ◌∙◌, inl, inr, Bool-cases, true, false, not, ◌&&◌, [], ◌∷◌, ◌++◌,
  Text, all, all-reverse_aux, ◌==◌, ==_iff, is_empty, if_true, if_false, if◌then◌else◌, subst,
  drop_while, trim_end_by,
}
use periodic.ConfigEdit.Plan.{newline, ends_with_newline}

-- A text at whose end a line is over.
abbrev pub EndsLine : Text → Type 0
EndsLine s = (line : Text) × (s ≡ line ++ (10 ∷ []))

-- What follows such a text is at the start of a line.
abbrev pub IsLineStart : Text → Type 0
IsLineStart s = (s ≡ []) ⊎ EndsLine s

-- A text whose last character is no line break.
abbrev pub EndsOpen : Text → Type 0
EndsOpen s = (s ≡ []) ⊎ ((line : Text) × (c : ℕ) × (s ≡ line ++ (c ∷ [])) × ((c == 10) ≡ false))

ends_with_newline-EndsLine : (s : Text) → ends_with_newline s ≡ true → EndsLine s
ends_with_newline-EndsLine [] h = cc
ends_with_newline-EndsLine (c ∷ []) h = ([], ap (λ x. x ∷ []) ((==_iff c newline).0 h))
ends_with_newline-EndsLine (c ∷ d ∷ s) h =
    let (line, e) = ends_with_newline-EndsLine (d ∷ s) h in (c ∷ line, ap (c ∷◌) e)

-- The other way round.
EndsLine-ends_with_newline : (line : Text) → ends_with_newline (line ++ (10 ∷ [])) ≡ true
EndsLine-ends_with_newline [] = refl
EndsLine-ends_with_newline (c ∷ []) = refl
EndsLine-ends_with_newline (c ∷ d ∷ line) = EndsLine-ends_with_newline (d ∷ line)

-- The line breaks in front of a text, and the rest, which begins with none.
record Split (s : Text) : Type 0 where
  breaks : Text
  rest : Text
  whole : s ≡ breaks ++ rest
  only : all (λ c. c == 10) breaks ≡ true
  same : drop_while (λ c. c == 10) s ≡ rest
  unbroken : (rest ≡ []) ⊎ ((c : ℕ) × (t : Text) × (rest ≡ c ∷ t) × ((c == 10) ≡ false))

split : (s : Text) → Split s
split [] = record {
  breaks = [];
  rest = [];
  whole = refl;
  only = refl;
  same = refl;
  unbroken = inl refl;
}
split (c ∷ s) = elim (Bool-cases (c == 10)) [
  | inl here ↦
      let k = split s in
      record {
        breaks = c ∷ k.breaks;
        rest = k.rest;
        whole = ap (c ∷◌) k.whole;
        only = rw here k.only;
        same = if_true (c == 10) _ _ here ∙ k.same;
        unbroken = k.unbroken;
      }
  | inr other ↦ record {
    breaks = [];
    rest = c ∷ s;
    whole = refl;
    only = refl;
    same = if_false (c == 10) _ _ other;
    unbroken = inr (c, s, refl, other);
  }
]

-- What `trim_end_matches` takes away and what it leaves.
pub record Trimmed (s : Text) : Type 0 where
  pub breaks : Text
  pub whole : s ≡ trim_end_by (λ c. c == newline) s ++ breaks
  pub only : all (λ c. c == 10) breaks ≡ true
  pub ends : EndsOpen (trim_end_by (λ c. c == newline) s)

pub trimmed : (s : Text) → Trimmed s
trimmed s =
    let k = split (reverse s) in
    record {
      breaks = reverse k.breaks;
      whole =
          sym (reverse-reverse s)
          ∙ (ap reverse k.whole
              ∙ (reverse-append k.breaks k.rest
                  ∙ ap (λ t. reverse t ++ reverse k.breaks) (sym k.same)));
      only = all-reverse_aux (λ c. c == 10) k.breaks [] k.only refl;
      ends = subst EndsOpen (ap reverse (sym k.same)) (go k.rest k.unbroken);
    }
  where
    go :
        (rest : Text)
        → (rest ≡ []) ⊎ ((c : ℕ) × (t : Text) × (rest ≡ c ∷ t) × ((c == 10) ≡ false))
        → EndsOpen (reverse rest)
    go rest (inl none_left) = inl (ap reverse none_left)
    go rest (inr (c, t, e, other)) =
        inr (reverse t, c, ap reverse e ∙ reverse_aux-eq t (c ∷ []), other)

-- What stands in front of the block: a line break exactly where the text before does not end a line.
abbrev pub IsLead : Text → Text → Type 0
IsLead before lead = ((lead ≡ []) × IsLineStart before) ⊎ ((lead ≡ 10 ∷ []) × ¬ IsLineStart before)

abbrev pub lead_of : Text → Text
lead_of before =
    if not (is_empty before) && not (ends_with_newline before) then newline ∷ [] else []

pub lead_of-IsLead : (before : Text) → IsLead before (lead_of before)
lead_of-IsLead [] = inl (refl, inl refl)
lead_of-IsLead (c ∷ s) = elim (Bool-cases (ends_with_newline (c ∷ s))) [
  | inl over ↦ inl (
    if_false (not (ends_with_newline (c ∷ s))) _ _ (ap not over),
    inr (ends_with_newline-EndsLine (c ∷ s) over),
  )
  | inr going ↦ inr (if_true (not (ends_with_newline (c ∷ s))) _ _ (ap not going), not_over going)
]
  where
    not_over : ends_with_newline (c ∷ s) ≡ false → ¬ IsLineStart (c ∷ s)
    not_over going (inl e) = cc
    not_over going (inr (line, e)) =
        let over = ap ends_with_newline e ∙ EndsLine-ends_with_newline line in cc
