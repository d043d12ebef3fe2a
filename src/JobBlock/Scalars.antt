-- ===== src/JobBlock/Scalars.antt =====
-- How a scalar of the block of src/job_block.rs reads back.
use mathlib.Core.List.{append_assoc, reverse, reverse-append, reverse-reverse}
use periodic.Prelude.{
  ℕ, ◌≡◌, refl, ap, sym, ◌∙◌, subst, Bool, Bool-cases, true, false, ◌&&◌, ◌||◌, some, [], ◌∷◌, ◌++◌,
  Text, codes, any, all, is_empty, text_eq, ◌==◌, ==_iff, if_true, if_false, inl, inr, and-eq-true,
  drop_while, trim_end_by, to_lowercase,
}
use periodic.Config.Parse.{contains}
use periodic.JobBlock.Reader.{
  is_control, read_quoted, is_flow_mark, is_white, begins_plain, separates, ends_plain, until_end,
  is_word, plain_text, read_scalar,
}
use periodic.JobBlock.{
  JobsAddArgs, quote, newline, indicators, is_indicator, escape, starts_badly, ends_with_space,
  keywords, needs_quotes, scalar, body, build_block,
}
use periodic.JobBlock.Quoted.{or-eq-false, read_quoted-escape}

-- What is not among some characters is not among fewer.
any-fewer :
    (c : ℕ) (xs ys : Text)
    → all (λ i. any (λ j. i == j) ys) xs ≡ true
    → any (λ j. c == j) ys ≡ false
    → any (λ i. c == i) xs ≡ false
any-fewer c [] ys h k = refl
any-fewer c (x ∷ xs) ys h k =
    let (here, there) = and-eq-true (any (λ j. x == j) ys) _ h in
    elim (Bool-cases (c == x)) [
      | inl same ↦
          let k' = subst (λ x. any (λ j. x == j) ys ≡ true) (sym ((==_iff c x).0 same)) here in cc
      | inr other ↦ rw other (any-fewer c xs ys there k)
    ]

not_among :
    (c i : ℕ) → any (λ j. i == j) indicators ≡ true → is_indicator c ≡ false → (c == i) ≡ false
not_among c i h k = (or-eq-false (c == i) false (any-fewer c (i ∷ []) indicators (rw h refl) k)).0

or_stop : (a b x : Bool) → (a || b) ≡ true → (a || (b || x)) ≡ true
or_stop true b x h = refl
or_stop false true x h = refl
or_stop false false x h = cc

no_end :
    (a b d e x y : Bool)
    → a ≡ false
    → b ≡ false
    → d ≡ false
    → e ≡ false
    → (a || (b || ((d && x) || (e && y)))) ≡ false
no_end a b d e x y p q r t = rw (p, q, r, t) refl

ends_plain-false :
    (white : Bool) (c : ℕ) (s : Text) → is_indicator c ≡ false → ends_plain white c s ≡ false
ends_plain-false white c s h =
    no_end (c == newline) (is_flow_mark c) (c == b':') (c == b'#') (separates s) white
      (not_among c newline refl h) (any-fewer c (codes ",[]{}") indicators refl h)
      (not_among c b':' refl h) (not_among c b'#' refl h)

-- The end of the line, or a character of a flow collection.
abbrev pub IsStop : ℕ → Type 0
IsStop c = ((c == newline) || is_flow_mark c) ≡ true

until_end-plain :
    (white : Bool) (s : Text) (stop : ℕ) (rest : Text)
    → IsStop stop
    → any is_indicator s ≡ false
    → until_end white (s ++ (stop ∷ rest)) ≡ (s, stop ∷ rest)
until_end-plain white [] stop rest e h =
    if_true (ends_plain white stop rest) _ _ (or_stop (stop == newline) (is_flow_mark stop) _ e)
until_end-plain white (c ∷ s) stop rest e h =
    let (here, there) = or-eq-false (is_indicator c) _ h in
    if_false (ends_plain white c (s ++ (stop ∷ rest))) _ _
      (ends_plain-false white c (s ++ (stop ∷ rest)) here)
    ∙ ap (λ (x : Text × Text). (c ∷ x.0, x.1)) (until_end-plain (is_white c) s stop rest e there)

-- The last character of a text is no blank.
EndsBlack : Text → Type 0
EndsBlack s = (first : Text) × (c : ℕ) × (s ≡ first ++ (c ∷ [])) × (is_white c ≡ false)

ends_black :
    (c : ℕ) (s : Text)
    → any is_indicator (c ∷ s) ≡ false
    → ends_with_space (c ∷ s) ≡ false
    → EndsBlack (c ∷ s)
unfolding EndsBlack
ends_black c [] h k =
    let tab : (c == 9) ≡ false = not_among c 9 refl (or-eq-false (is_indicator c) _ h).0 in
    ([], c, refl, rw (k, tab) refl)
ends_black c (d ∷ s) h k =
    let (first, l, e, black) = ends_black d s (or-eq-false (is_indicator c) _ h).1 k in
    (c ∷ first, l, ap (c ∷◌) e, black)

trim-EndsBlack : (s : Text) → EndsBlack s → trim_end_by is_white s ≡ s
unfolding EndsBlack
trim-EndsBlack s (first, c, e, black) =
    ap (trim_end_by is_white) e
    ∙ (ap (λ t. reverse (drop_while is_white t)) (reverse-append first (c ∷ []))
        ∙ (ap reverse (if_false (is_white c) _ _ black)
            ∙ (ap reverse (sym (reverse-append first (c ∷ [])))
                ∙ (reverse-reverse (first ++ (c ∷ [])) ∙ sym e))))

module _ (parses_f64 : Text → Bool) where
  needs_quotes-false :
      (s : Text)
      → needs_quotes parses_f64 s ≡ false
      → (any is_indicator s ≡ false)
        × (starts_badly s ≡ false)
        × (ends_with_space s ≡ false)
        × ((is_word (to_lowercase s) || parses_f64 s) ≡ false)
  unfolding contains
  needs_quotes-false s h =
      let (_, h1) = or-eq-false (is_empty s) _ h in
      let (indicated, h2) = or-eq-false (any is_indicator s) _ h1 in
      let (starts, h3) = or-eq-false (starts_badly s) _ h2 in
      let (ends, h4) = or-eq-false (ends_with_space s) _ h3 in
      let (words, float) = or-eq-false (contains keywords (to_lowercase s)) _ h4 in
      (indicated, starts, ends, words_false words float)
    where
      words_false :
          contains keywords (to_lowercase s) ≡ false
          → parses_f64 s ≡ false
          → (is_word (to_lowercase s) || parses_f64 s) ≡ false
      words_false w f =
          let t = to_lowercase s in
          let (w1, r1) = or-eq-false (text_eq (codes "true") t) _ w in
          let (w2, r2) = or-eq-false (text_eq (codes "false") t) _ r1 in
          let (w3, r3) = or-eq-false (text_eq (codes "null") t) _ r2 in
          let (w4, r4) = or-eq-false (text_eq (codes "yes") t) _ r3 in
          let (w5, r5) = or-eq-false (text_eq (codes "no") t) _ r4 in
          let (w6, r6) = or-eq-false (text_eq (codes "~") t) _ r5 in rw (w1, w2, w3, w6, f) refl

  begins_plain-true :
      (c : ℕ) (s : Text)
      → is_indicator c ≡ false
      → starts_badly (c ∷ s) ≡ false
      → begins_plain c ≡ true
  begins_plain-true c s h k =
      let (dash, k1) = or-eq-false (c == b'-') _ k in
      let (question, space) = or-eq-false (c == b'?') _ k1 in
      let others = any-fewer c (9 ∷ newline ∷ quote ∷ codes ":,[]{}#&*!|>'%@`") indicators refl h in
      rw (dash, question, space, others) refl

  read_scalar-plain :
      (s : Text) (stop : ℕ) (rest : Text)
      → IsStop stop
      → any is_control s ≡ false
      → needs_quotes parses_f64 s ≡ false
      → read_scalar parses_f64 (s ++ (stop ∷ rest)) ≡ some (s, stop ∷ rest)
  read_scalar-plain [] stop rest e k h = cc
  read_scalar-plain (c ∷ s) stop rest e k h =
      let (indicated, starts, ends, words) = needs_quotes-false (c ∷ s) h in
      let here = (or-eq-false (is_indicator c) _ indicated).0 in
      if_false (c == quote) _ _ (not_among c quote refl here)
      ∙ (if_true (begins_plain c) _ _ (begins_plain-true c s here starts)
          ∙ (ap (λ (x : Text × Text). plain_text parses_f64 (trim_end_by is_white x.0) x.1)
                (until_end-plain false (c ∷ s) stop rest e indicated)
              ∙ (ap (λ t. plain_text parses_f64 t (stop ∷ rest))
                    (trim-EndsBlack (c ∷ s) (ends_black c s indicated ends))
                  ∙ if_false (any is_control (c ∷ s) || _) _ _ (rw (k, words) refl))))

  pub read_scalar-scalar :
      (s : Text) (stop : ℕ) (rest : Text)
      → IsStop stop
      → any is_control s ≡ false
      → read_scalar parses_f64 (scalar parses_f64 s ++ (stop ∷ rest)) ≡ some (s, stop ∷ rest)
  unfolding scalar
  read_scalar-scalar s stop rest e k = elim (Bool-cases (needs_quotes parses_f64 s)) [
    | inl quoted ↦
        ap (λ t. read_scalar parses_f64 (t ++ (stop ∷ rest)))
          (if_true (needs_quotes parses_f64 s) _ _ quoted)
        ∙ (ap read_quoted (append_assoc (escape s) (quote ∷ []) (stop ∷ rest))
            ∙ read_quoted-escape s (stop ∷ rest) k)
    | inr plain ↦
        ap (λ t. read_scalar parses_f64 (t ++ (stop ∷ rest)))
          (if_false (needs_quotes parses_f64 s) _ _ plain)
        ∙ read_scalar-plain s stop rest e k plain
  ]

  -- The block starts with its id: what is read there is the id that was given, if it has no
  -- control characters.
  pub build_block-id :
      (id : Text) (args : JobsAddArgs)
      → any is_control id ≡ false
      → (value : Text) × ((build_block parses_f64 id args ≡ codes "  - id: " ++ value)
          × (read_scalar parses_f64 value ≡ some (id, newline ∷ body parses_f64 args)))
  unfolding build_block
  build_block-id id args k = (
    scalar parses_f64 id ++ (newline ∷ body parses_f64 args),
    (
      ap (codes "  - id: " ++◌)
          (append_assoc (scalar parses_f64 id) (newline ∷ []) (body parses_f64 args)),
      read_scalar-scalar id newline (body parses_f64 args) refl k,
    ),
  )
