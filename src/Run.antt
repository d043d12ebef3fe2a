-- ===== src/Run.antt =====
-- Code that may not return: `stuck` stands for a panic and for a loop whose fuel ran out.
use periodic.Prelude.{◌≡◌, refl, ap, Option, none, some}

pub data Run {ℓ} (A : Type ℓ) : Type ℓ where
  returns : A → Run A
  stuck : Run A

infixl 5 ◌>>=◌
abbrev pub ◌>>=◌ {ℓ κ} : {A : Type ℓ} {B : Type κ} → Run A → (A → Run B) → Run B
returns a >>= f = f a
stuck >>= f = stuck

-- `Option::unwrap`, which panics on `None`.
abbrev pub unwrap {ℓ} : {A : Type ℓ} → Option A → Run A
unwrap none = stuck
unwrap (some a) = returns a

pub >>=-eq-returns {ℓ κ} :
    {A : Type ℓ} {B : Type κ} (m : Run A) (f : A → Run B) {b : B}
    → (m >>= f) ≡ returns b
    → (a : A) × (m ≡ returns a) × (f a ≡ returns b)
>>=-eq-returns (returns a) f h = (a, refl, h)
>>=-eq-returns stuck f h = cc

abbrev value_or {ℓ} : {A : Type ℓ} → A → Run A → A
value_or d (returns x) = x
value_or d stuck = d

pub returns_injective {ℓ} : {A : Type ℓ} {a b : A} → returns a ≡ returns b → a ≡ b
returns_injective {a} h = ap (value_or a) h
