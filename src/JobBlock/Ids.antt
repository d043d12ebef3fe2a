-- ===== src/JobBlock/Ids.antt =====
-- The ids that `jobs add` derives.
use periodic.Prelude.{
  all-append, all-reverse_aux, ℕ, ◌≡◌, refl, ap, sym, ◌∙◌, subst, Bool, Bool-cases, true, false,
  not, ◌&&◌, Option, none, some, some_injective, [], ◌∷◌, Text, is_empty, all, and-eq-true, ◌==◌,
  if_true, if_false, inl, inr, drop_while, trim_end_by, arith, lower, or_else,
}
use mathlib.Core.List.{reverse}
use periodic.Validation.Job.{kebab_char, is_kebab}
use periodic.JobBlock.{
  JobsAddArgs, is_alphanumeric, kebab_step, kebab_loop, kebab, basename, non_empty, slug_of,
  slug_id, id_or, derive_id,
}

all-drop_while : (p q : ℕ → Bool) (s : Text) → all p s ≡ true → all p (drop_while q s) ≡ true
all-drop_while p q [] h = refl
all-drop_while p q (c ∷ s) h = elim (Bool-cases (q c)) [
  | inl gone ↦ rw gone (all-drop_while p q s (and-eq-true (p c) _ h).1)
  | inr stays ↦ rw stays h
]

all-trim : (p q : ℕ → Bool) (s : Text) → all p s ≡ true → all p (trim_end_by q s) ≡ true
all-trim p q s h =
    all-reverse_aux p (drop_while q (reverse s)) []
      (all-drop_while p q (reverse s) (all-reverse_aux p s [] h refl)) refl

lower-kebab_char : (c : ℕ) → is_alphanumeric c ≡ true → kebab_char (lower c) ≡ true
lower-kebab_char c h = ground arith

step-kebab_char :
    (out : Text) (prev_dash : Bool) (c : ℕ)
    → all kebab_char out ≡ true
    → all kebab_char (kebab_step out prev_dash c).0 ≡ true
step-kebab_char out prev_dash c h = elim (Bool-cases (is_alphanumeric c)) [
  | inl plain ↦
      let k : all kebab_char (lower c ∷ []) ≡ true =
        ap (λ b. b && true) (lower-kebab_char c plain) in
      subst (λ (x : Text × Bool). all kebab_char x.0 ≡ true)
        (sym (if_true (is_alphanumeric c) _ _ plain)) (all-append kebab_char out (lower c ∷ []) h k)
  | inr mark ↦ elim (Bool-cases (not prev_dash && not (is_empty out))) [
    | inl dash ↦
        subst (λ (x : Text × Bool). all kebab_char x.0 ≡ true)
          (sym (
            if_false (is_alphanumeric c) _ _ mark
            ∙ if_true (not prev_dash && not (is_empty out)) _ _ dash))
          (all-append kebab_char out (b'-' ∷ []) h refl)
    | inr skip ↦
        subst (λ (x : Text × Bool). all kebab_char x.0 ≡ true)
          (sym (
            if_false (is_alphanumeric c) _ _ mark
            ∙ if_false (not prev_dash && not (is_empty out)) _ _ skip))
          h
  ]
]

loop-kebab_char :
    (out : Text) (prev_dash : Bool) (s : Text)
    → all kebab_char out ≡ true
    → all kebab_char (kebab_loop out prev_dash s) ≡ true
unfolding kebab_loop
loop-kebab_char out prev_dash [] h = h
loop-kebab_char out prev_dash (c ∷ s) h =
    loop-kebab_char (kebab_step out prev_dash c).0 (kebab_step out prev_dash c).1 s
      (step-kebab_char out prev_dash c h)

slug-is_kebab : (s t : Text) → non_empty (kebab s) ≡ some t → is_kebab t ≡ true
unfolding is_kebab kebab
slug-is_kebab s t h = elim (Bool-cases (is_empty (kebab s))) [
  | inl none_left ↦ let e = sym (if_true (is_empty (kebab s)) _ _ none_left) ∙ h in cc
  | inr some_left ↦
      let e = some_injective (sym (if_false (is_empty (kebab s)) _ _ some_left) ∙ h) in
      subst (λ x. is_kebab x ≡ true) e
        (ap (λ b. not b && all kebab_char (kebab s)) some_left
          ∙ all-trim kebab_char (λ c. c == b'-') (kebab_loop [] false s)
              (loop-kebab_char [] false s refl))
]

slug_of-is_kebab :
    (o : Option Text) (part : Text → Text) (t : Text) → slug_of o part ≡ some t → is_kebab t ≡ true
slug_of-is_kebab none part t h = cc
slug_of-is_kebab (some s) part t h = slug-is_kebab (part s) t h

-- An id that is derived, from the title or from the command, is one that the validation accepts.
pub derive_id-is_kebab :
    (args : JobsAddArgs) (id : Text)
    → args.id ≡ none
    → derive_id args ≡ some id
    → is_kebab id ≡ true
unfolding derive_id
derive_id-is_kebab args id e h =
    go (slug_of args.title (λ t. t)) refl (sym (ap (λ o. id_or o (slug_id args)) e) ∙ h)
  where
    go :
        (o : Option Text)
        → slug_of args.title (λ t. t) ≡ o
        → or_else o (slug_of args.command basename) ≡ some id
        → is_kebab id ≡ true
    go none k h = slug_of-is_kebab args.command basename id h
    go (some t) k h = slug_of-is_kebab args.title (λ t. t) id (k ∙ h)
