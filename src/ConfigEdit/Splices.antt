-- ===== src/ConfigEdit/Splices.antt =====
-- Splices of the source: what they write and what they leave.
use periodic.Prelude.{
  ℕ, ◌+◌, ◌-◌, length-append, length-take, ◌≤◌, ◌≡◌, refl, ap, sym, ◌∙◌, inl, inr, Bool-cases,
  Option, none, some, ◌++◌, Text, drop, take, length, take-append-drop, drop-drop, leb, arith,
  if_true, if_false, subst, some_injective,
}
use periodic.Run.{Run, returns, stuck, >>=-eq-returns, returns_injective}
use periodic.ConfigEdit.{slice_to, slice_from, splice}
use periodic.ConfigEdit.Plan.{Plan, carry_out}

-- `text` stands in `out` for the part of `source` from `a` to `b`; the rest is as it was.
pub record Spliced (source : Text) (a b : ℕ) (text out : Text) : Type 0 where
  pub before : Text
  pub old : Text
  pub after : Text
  pub was : source ≡ before ++ (old ++ after)
  pub now : out ≡ before ++ (text ++ after)
  pub starts : length before ≡ a
  pub stops : length before + length old ≡ b

pub slice_to-eq :
    (source : Text) (at : ℕ) (s : Text) → slice_to source at ≡ returns s → take at source ≡ s
slice_to-eq source at s h = elim (Bool-cases (leb at (length source))) [
  | inl le ↦ returns_injective (sym (if_true (leb at (length source)) _ _ le) ∙ h)
  | inr gt ↦ let e = sym (if_false (leb at (length source)) _ _ gt) ∙ h in cc
]

pub slice_from-le :
    (source : Text) (at : ℕ) (s : Text) → slice_from source at ≡ returns s → at ≤ length source
slice_from-le source at s h = elim (Bool-cases (leb at (length source))) [
  | inl le ↦ ground arith
  | inr gt ↦ let e = sym (if_false (leb at (length source)) _ _ gt) ∙ h in absurd_stuck e
]
  where
    absurd_stuck : {n m : ℕ} → ◌≡◌ {A = Run Text} stuck (returns s) → n ≤ m
    absurd_stuck e = cc

pub slice_from-eq :
    (source : Text) (at : ℕ) (s : Text) → slice_from source at ≡ returns s → drop at source ≡ s
slice_from-eq source at s h = elim (Bool-cases (leb at (length source))) [
  | inl le ↦ returns_injective (sym (if_true (leb at (length source)) _ _ le) ∙ h)
  | inr gt ↦ let e = sym (if_false (leb at (length source)) _ _ gt) ∙ h in cc
]

pub splice-eq :
    (source : Text) (a b : ℕ) (text out : Text)
    → splice source (a, b) text ≡ returns out
    → out ≡ take a source ++ (text ++ drop b source)
unfolding splice
splice-eq source a b text out h =
    let (before, p, rest) = >>=-eq-returns (slice_to source a) _ h in
    let (after, q, last) =
      >>=-eq-returns (slice_from source b) (λ after. returns (before ++ (text ++ after))) rest in
    sym (returns_injective last)
    ∙ (ap (λ s. s ++ (text ++ after)) (sym (slice_to-eq source a before p))
        ∙ ap (λ s. take a source ++ (text ++ s)) (sym (slice_from-eq source b after q)))

length-middle :
    (source : Text) (a b : ℕ)
    → a ≤ b
    → b ≤ length source
    → length (take a source) + length (take (b - a) (drop a source)) ≡ b
length-middle source a b le small =
    let whole =
      sym (length-append (take a source) (drop a source)) ∙ ap length (take-append-drop a source) in
    let first = length-take a source (omega (arith, le, small)) in
    let second = length-take (b - a) (drop a source) (omega (arith, le, small, whole, first)) in
    omega (arith, le, first, second)

pub splice-Spliced :
    (source : Text) (a b : ℕ) (text out : Text)
    → a ≤ b
    → splice source (a, b) text ≡ returns out
    → Spliced source a b text out
unfolding splice
splice-Spliced source a b text out le h =
    let (before, p, rest) = >>=-eq-returns (slice_to source a) _ h in
    let (after, q, last) =
      >>=-eq-returns (slice_from source b) (λ after. returns (before ++ (text ++ after))) rest in
    let small = slice_from-le source b after q in
    record {
      before = take a source;
      old = take (b - a) (drop a source);
      after = drop b source;
      was =
          sym (take-append-drop a source)
          ∙ ap (take a source ++◌) (
              sym (take-append-drop (b - a) (drop a source))
              ∙ ap (take (b - a) (drop a source) ++◌)
                  (drop-drop a (b - a) source ∙ ap (λ n. drop n source) (omega (arith, le))));
      now = splice-eq source a b text out h;
      starts = length-take a source (omega (arith, le, small));
      stops = length-middle source a b le small;
    }

pub carry_out-eq :
    (source : Text) (plan : Option Plan) (out : Text)
    → carry_out source plan ≡ returns (some out)
    → (p : Plan) × (plan ≡ some p) × (splice source p.0 p.1 ≡ returns out)
carry_out-eq source none out h = cc
carry_out-eq source (some p) out h =
    let (o, q, e) = >>=-eq-returns (splice source p.0 p.1) (λ o. returns (some o)) h in
    (
      p,
      refl,
      subst (λ x. splice source p.0 p.1 ≡ returns x) (some_injective (returns_injective e)) q,
    )

-- An insertion.
pub splice_at :
    (source : Text) (at : ℕ) (text out : Text)
    → splice source (at, at) text ≡ returns out
    → (source ≡ take at source ++ drop at source)
      × (out ≡ take at source ++ (text ++ drop at source))
splice_at source at text out h =
    (sym (take-append-drop at source), splice-eq source at at text out h)
