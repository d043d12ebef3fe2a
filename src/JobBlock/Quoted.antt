-- ===== src/JobBlock/Quoted.antt =====
-- How a quoted scalar of the block of src/job_block.rs reads back.
use mathlib.Core.List.{append_assoc}
use periodic.Prelude.{
  ℕ, ◌≡◌, refl, ap, sym, ◌∙◌, subst, Bool, Bool-cases, true, false, ◌||◌, some, and_then, [], ◌∷◌,
  ◌++◌, Text, any, ◌==◌, ==_iff, if◌then◌else◌, if_false, inl, inr,
}
use periodic.JobBlock.Reader.{is_control, read_quoted}
use periodic.JobBlock.{quote, backslash, escape}

pub or-eq-false : (a b : Bool) → (a || b) ≡ false → (a ≡ false) × (b ≡ false)
or-eq-false false b h = (refl, h)
or-eq-false true b h = cc

-- What is written for one character between quotes.
abbrev escaped : ℕ → Text
escaped c =
    if c == backslash
    then backslash ∷ backslash ∷ []
    else if c == quote
    then backslash ∷ quote ∷ []
    else c ∷ []

escape-cons : (c : ℕ) (s : Text) → escape (c ∷ s) ≡ escaped c ++ escape s
escape-cons c s = elim (Bool-cases (c == backslash)) [
  | inl back ↦ rw back refl
  | inr other ↦
      rw other
        (elim (Bool-cases (c == quote)) [ inl mark ↦ rw mark refl | inr plain ↦ rw plain refl ])
]

read_quoted-plain :
    (c : ℕ) (s : Text)
    → (c == quote) ≡ false
    → (c == backslash) ≡ false
    → is_control c ≡ false
    → read_quoted (c ∷ s) ≡ and_then (read_quoted s) (λ r. some (c ∷ r.0, r.1))
read_quoted-plain c [] p q r = rw p refl
read_quoted-plain c (d ∷ s) p q r =
    if_false (c == quote) _ _ p ∙ (if_false (c == backslash) _ _ q ∙ if_false (is_control c) _ _ r)

read_quoted-escaped :
    (c : ℕ) (s : Text)
    → is_control c ≡ false
    → read_quoted (escaped c ++ s) ≡ and_then (read_quoted s) (λ r. some (c ∷ r.0, r.1))
read_quoted-escaped c s r = elim (Bool-cases (c == backslash)) [
  | inl back ↦
      subst
        (λ x. read_quoted (escaped x ++ s) ≡ and_then (read_quoted s) (λ r. some (x ∷ r.0, r.1)))
        (sym ((==_iff c backslash).0 back)) refl
  | inr other ↦ elim (Bool-cases (c == quote)) [
    | inl mark ↦
        subst
          (λ x. read_quoted (escaped x ++ s) ≡ and_then (read_quoted s) (λ r. some (x ∷ r.0, r.1)))
          (sym ((==_iff c quote).0 mark)) refl
    | inr plain ↦
        ap (λ t. read_quoted (t ++ s))
          (if_false (c == backslash) _ _ other ∙ if_false (c == quote) _ _ plain)
        ∙ read_quoted-plain c s plain other r
  ]
]

read_quoted-quote : (rest : Text) → read_quoted (quote ∷ rest) ≡ some ([], rest)
read_quoted-quote [] = refl
read_quoted-quote (c ∷ rest) = refl

pub read_quoted-escape :
    (s rest : Text)
    → any is_control s ≡ false
    → read_quoted (escape s ++ (quote ∷ rest)) ≡ some (s, rest)
read_quoted-escape [] rest h = read_quoted-quote rest
read_quoted-escape (c ∷ s) rest h =
    let (here, there) = or-eq-false (is_control c) _ h in
    ap (λ t. read_quoted (t ++ (quote ∷ rest))) (escape-cons c s)
    ∙ (ap read_quoted (append_assoc (escaped c) (escape s) (quote ∷ rest))
        ∙ (read_quoted-escaped c (escape s ++ (quote ∷ rest)) here
            ∙ ap (λ o. and_then o (λ r. some (c ∷ r.0, r.1))) (read_quoted-escape s rest there)))
