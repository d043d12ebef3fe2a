-- ===== src/ConfigEdit/LineEnds.antt =====
-- The end of the line of an offset, for the edits of src/config_edit.rs.
use periodic.Prelude.{
  ℕ, zero, suc, ◌+◌, ◌≡◌, ◌⊎◌, refl, ap, sym, ◌∙◌, inl, inr, Bool-cases, true, false, not, Option,
  none, some, [], ◌∷◌, ◌++◌, Text, all, drop, length, drop-drop, take, take-append-drop, ◌≤◌, ◌==◌,
  ==_iff, arith, if_true, if_false, subst, some_injective, and_then,
}
use periodic.Run.{returns, >>=-eq-returns, returns_injective}
use periodic.ConfigEdit.{slice_from}
use periodic.ConfigEdit.Splices.{slice_from-eq, slice_from-le}
use periodic.ConfigEdit.Plan.{newline, find_newline, line_end}

-- A text that begins where a line is over.
abbrev pub IsLineEnd : Text → Type 0
IsLineEnd s = (s ≡ []) ⊎ ((rest : Text) × (s ≡ 10 ∷ rest))

take-nil : (n : ℕ) → ◌≡◌ {A = Text} (take n []) []
take-nil zero = refl
take-nil (suc n) = refl

suc_add : (m : ℕ) → suc m ≡ m + 1
suc_add m = omega arith

find_newline-drop : (s : Text) (n : ℕ) → find_newline s ≡ some n → IsLineEnd (drop n s)
find_newline-drop [] n h = cc
find_newline-drop (c ∷ s) n h = elim (Bool-cases (c == newline)) [
  | inl here ↦
      let e = some_injective (sym (if_true (c == newline) _ _ here) ∙ h) in
      subst (λ k. IsLineEnd (drop k (c ∷ s))) e
        (inr (s, ap (λ x. x ∷ s) ((==_iff c newline).0 here)))
  | inr not_here ↦
      go (find_newline s) (find_newline-drop s) (sym (if_false (c == newline) _ _ not_here) ∙ h)
]
  where
    go :
        (o : Option ℕ)
        → ((m : ℕ) → o ≡ some m → IsLineEnd (drop m s))
        → and_then o (λ m. some (m + 1)) ≡ some n
        → IsLineEnd (drop n (c ∷ s))
    go none ih k = cc
    go (some m) ih k =
        subst (λ k. IsLineEnd (drop k (c ∷ s))) (some_injective k)
          (subst (λ j. IsLineEnd (drop j (c ∷ s))) (suc_add m) (ih m refl))

drop-length : (s : Text) → drop (length s) s ≡ []
drop-length [] = refl
drop-length (c ∷ s) = drop-length s

-- The end of a line is before a line break or at the end of the source.
pub line_end-IsLineEnd :
    (source : Text) (at n : ℕ) → line_end source at ≡ returns n → IsLineEnd (drop n source)
line_end-IsLineEnd source at n h =
    let (after, q, k) = >>=-eq-returns (slice_from source at) _ h in
    go after (slice_from-eq source at after q) (find_newline after) refl k
  where
    go :
        (after : Text)
        → drop at source ≡ after
        → (o : Option ℕ) → find_newline after ≡ o
        → elim o [ none ↦ returns (length source) | some m ↦ returns (at + m) ] ≡ returns n
        → IsLineEnd (drop n source)
    go after same none e k =
        subst (λ m. IsLineEnd (drop m source)) (returns_injective k) (inl (drop-length source))
    go after same (some m) e k =
        subst (λ m. IsLineEnd (drop m source)) (returns_injective k)
          (subst IsLineEnd (ap (drop m) (sym same) ∙ drop-drop at m source)
            (find_newline-drop after m e))

abbrev pub IsOneLine : Text → Type 0
IsOneLine s = all (λ c. not (c == 10)) s ≡ true

find_newline-IsOneLine : (s : Text) (n : ℕ) → find_newline s ≡ some n → IsOneLine (take n s)
find_newline-IsOneLine [] n h = cc
find_newline-IsOneLine (c ∷ s) n h = elim (Bool-cases (c == newline)) [
  | inl here ↦
      let e = some_injective (sym (if_true (c == newline) _ _ here) ∙ h) in
      subst (λ k. IsOneLine (take k (c ∷ s))) e refl
  | inr other ↦
      go other (find_newline s) (find_newline-IsOneLine s)
        (sym (if_false (c == newline) _ _ other) ∙ h)
]
  where
    go :
        (c == newline) ≡ false
        → (o : Option ℕ) → ((m : ℕ) → o ≡ some m → IsOneLine (take m s))
        → and_then o (λ m. some (m + 1)) ≡ some n
        → IsOneLine (take n (c ∷ s))
    go other none ih k = cc
    go other (some m) ih k =
        subst (λ k. IsOneLine (take k (c ∷ s))) (some_injective k)
          (subst (λ j. IsOneLine (take j (c ∷ s))) (suc_add m) (rw other (ih m refl)))

no_newline-IsOneLine : (s : Text) → find_newline s ≡ none → IsOneLine s
no_newline-IsOneLine [] h = refl
no_newline-IsOneLine (c ∷ s) h = elim (Bool-cases (c == newline)) [
  | inl here ↦ let e = sym (if_true (c == newline) _ _ here) ∙ h in cc
  | inr other ↦
      go other (find_newline s) (no_newline-IsOneLine s)
        (sym (if_false (c == newline) _ _ other) ∙ h)
]
  where
    go :
        (c == newline) ≡ false
        → (o : Option ℕ) → (o ≡ none → IsOneLine s)
        → and_then o (λ m. some (m + 1)) ≡ none
        → IsOneLine (c ∷ s)
    go other none ih k = rw other (ih refl)
    go other (some m) ih k = cc

take-length : (s : Text) → take (length s) s ≡ s
take-length [] = refl
take-length (c ∷ s) = ap (c ∷◌) (take-length s)

take-add : (m n : ℕ) (s : Text) → take (m + n) s ≡ take m s ++ take n (drop m s)
take-add zero n s = ap (λ k. take k s) (omega arith)
take-add (suc m) n [] = let e : suc m + n ≡ suc (m + n) = omega arith in rw e (sym (take-nil n))
take-add (suc m) n (c ∷ s) =
    let e : suc m + n ≡ suc (m + n) = omega arith in rw e (ap (c ∷◌) (take-add m n s))

-- From an offset to the end of its line there is no line break.
pub record ToLineEnd (source : Text) (at n : ℕ) : Type 0 where
  pub gap : Text
  pub whole : take n source ≡ take at source ++ gap
  pub one_line : IsOneLine gap
  pub small : at ≤ length source

pub line_end-ToLineEnd :
    (source : Text) (at n : ℕ) → line_end source at ≡ returns n → ToLineEnd source at n
line_end-ToLineEnd source at n h =
    let (after, q, k) = >>=-eq-returns (slice_from source at) _ h in
    go after (slice_from-eq source at after q) (slice_from-le source at after q)
      (find_newline after) refl k
  where
    go :
        (after : Text)
        → drop at source ≡ after
        → at ≤ length source
        → (o : Option ℕ) → find_newline after ≡ o
        → elim o [ none ↦ returns (length source) | some m ↦ returns (at + m) ] ≡ returns n
        → ToLineEnd source at n
    go after same small none e k = record {
      gap = after;
      whole =
          ap (λ m. take m source) (sym (returns_injective k))
          ∙ (take-length source
              ∙ (sym (take-append-drop at source) ∙ ap (take at source ++◌) same));
      one_line = no_newline-IsOneLine after e;
      small = small;
    }
    go after same small (some m) e k = record {
      gap = take m after;
      whole =
          ap (λ m. take m source) (sym (returns_injective k))
          ∙ (take-add at m source ∙ ap (λ t. take at source ++ take m t) same);
      one_line = find_newline-IsOneLine after m e;
      small = small;
    }
