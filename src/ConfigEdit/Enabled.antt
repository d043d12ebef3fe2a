-- ===== src/ConfigEdit/Enabled.antt =====
-- The value of `enabled` that `set_enabled` of src/config_edit.rs finds.
use periodic.Prelude.{
  ℕ, zero, suc, ◌≤◌, ◌≡◌, refl, ap, sym, ◌∙◌, inl, inr, Bool-cases, true, Option, none, some, List,
  [], ◌∷◌, codes, All, nth, if_true, if_false, subst, some_injective,
}
use periodic.Run.{returns, unwrap, >>=-eq-returns, returns_injective}
use periodic.ConfigEdit.{Item, Items, Span, is_text, scalar_at}
use periodic.ConfigEdit.Plan.{or_search, enabled_range}

-- The end of a span is not before its start.
abbrev pub SpanIsOrdered : Span → Type 0
SpanIsOrdered none = Unit
SpanIsOrdered (some r) = r.0 ≤ r.1

abbrev pub IsOrdered : Item → Type 0
IsOrdered e = SpanIsOrdered e.range

pub All-nth {ℓ κ} :
    {A : Type ℓ} (P : A → Type κ) (xs : List A) (i : ℕ) (x : A) → All P xs → nth xs i ≡ some x → P x
All-nth P [] zero x h e = cc
All-nth P [] (suc i) x h e = cc
All-nth P (y ∷ xs) zero x h e = subst P (some_injective e) h.0
All-nth P (y ∷ xs) (suc i) x h e = All-nth P xs i x h.1 e

pub unwrap-eq {ℓ} : {A : Type ℓ} (o : Option A) (a : A) → unwrap o ≡ returns a → o ≡ some a
unwrap-eq none a h = cc
unwrap-eq (some b) a h = ap some (returns_injective h)

-- An entry of the job whose key is `enabled` and whose value has a span.
pub record EnabledAt (events : Items) (entries : List (ℕ × ℕ)) (r : ℕ × ℕ) : Type 0 where
  pub position : ℕ
  pub key : ℕ
  pub value : ℕ
  pub item : Item
  pub entry : nth entries position ≡ some (key, value)
  pub named : is_text (codes "enabled") (scalar_at events key) ≡ true
  pub there : nth events value ≡ some item
  pub spans : item.range ≡ some r

EnabledAt-cons :
    (events : Items) (entry : ℕ × ℕ) (entries : List (ℕ × ℕ)) (r : ℕ × ℕ)
    → EnabledAt events entries r
    → EnabledAt events (entry ∷ entries) r
EnabledAt-cons events entry entries r h = record {
  position = suc h.position;
  key = h.key;
  value = h.value;
  item = h.item;
  entry = h.entry;
  named = h.named;
  there = h.there;
  spans = h.spans;
}

pub enabled_range-EnabledAt :
    (events : Items) (entries : List (ℕ × ℕ)) (r : ℕ × ℕ)
    → enabled_range events entries ≡ returns (some r)
    → EnabledAt events entries r
enabled_range-EnabledAt events [] r h = cc
enabled_range-EnabledAt events ((k, v) ∷ entries) r h =
    let later : enabled_range events entries ≡ returns (some r)
        → EnabledAt events ((k, v) ∷ entries) r =
      λ e. EnabledAt-cons events (k, v) entries r (enabled_range-EnabledAt events entries r e) in
    elim (Bool-cases (is_text (codes "enabled") (scalar_at events k))) [
      | inl hit ↦
          let (e, p, q) =
            >>=-eq-returns (unwrap (nth events v)) _
              (sym (if_true (is_text (codes "enabled") (scalar_at events k)) _ _ hit) ∙ h) in
          go e hit (unwrap-eq (nth events v) e p) e.range refl later q
      | inr miss ↦
          later (sym (if_false (is_text (codes "enabled") (scalar_at events k)) _ _ miss) ∙ h)
    ]
  where
    go :
        (e : Item)
        → is_text (codes "enabled") (scalar_at events k) ≡ true
        → nth events v ≡ some e
        → (o : Span) → e.range ≡ o
        → (enabled_range events entries ≡ returns (some r) → EnabledAt events ((k, v) ∷ entries) r)
        → or_search o (enabled_range events entries) ≡ returns (some r)
        → EnabledAt events ((k, v) ∷ entries) r
    go e hit there none spans later q = later q
    go e hit there (some r') spans later q = record {
      position = 0;
      key = k;
      value = v;
      item = e;
      entry = refl;
      named = hit;
      there = there;
      spans = spans ∙ returns_injective q;
    }

pub EnabledAt-le :
    (events : Items) (entries : List (ℕ × ℕ)) (r : ℕ × ℕ)
    → All IsOrdered events
    → EnabledAt events entries r
    → r.0 ≤ r.1
EnabledAt-le events entries r ordered h =
    subst SpanIsOrdered h.spans (All-nth IsOrdered events h.value h.item ordered h.there)
