-- ===== src/Prelude/Texts.antt =====
-- Texts as lists of code points, with the tests on ASCII characters and the standard library's
-- `trim`, `to_lowercase`, `split_once`, unsigned `parse` and decimal printing.
use Prim.Native.Nat.{ℕ, zero, suc, ◌+◌, ◌-◌, ◌*◌, ◌/◌, ◌%◌}
use Prim.Native.Char.{code}
use Prim.Native.String.{String}
use mathlib.Core.Path.{◌≡◌, refl, ap, ap₂, ◌∙◌}
use mathlib.Core.Logic.{inl, inr}
use mathlib.Core.Bool.{Bool, true, false, ◌&&◌, ◌||◌}
use mathlib.Core.Option.{Option, none, some}
use mathlib.Core.List.{List, [], ◌∷◌, map, reverse}
use native.Mathlib.Omega.{arith}
use periodic.Prelude.Tests.{
  ltb, leb, ◌==◌, if◌then◌else◌, and-eq-true, ==_iff, and_then, Bool-cases,
}
use periodic.Prelude.Lists.{all}

abbrev pub Text : Type 0
Text = List ℕ

abbrev pub codes : String → Text
codes String.[] = []
codes (String.◌∷◌ c s) = code c ∷ codes s

abbrev pub text_eq : Text → Text → Bool
text_eq [] [] = true
text_eq [] (y ∷ ys) = false
text_eq (x ∷ xs) [] = false
text_eq (x ∷ xs) (y ∷ ys) = (x == y) && text_eq xs ys

pub text_eq_refl : (s : Text) → text_eq s s ≡ true
text_eq_refl [] = refl
text_eq_refl (x ∷ xs) = ground (arith, text_eq_refl xs)

pub text_eq_sound : (s t : Text) → text_eq s t ≡ true → s ≡ t
text_eq_sound [] [] h = refl
text_eq_sound [] (y ∷ ys) h = ground arith
text_eq_sound (x ∷ xs) [] h = ground arith
text_eq_sound (x ∷ xs) (y ∷ ys) h =
    let (p, q) = and-eq-true (x == y) (text_eq xs ys) h in
    ap₂ ◌∷◌ ((==_iff x y).0 p) (text_eq_sound xs ys q)

abbrev pub is_digit : ℕ → Bool
is_digit c = leb b'0' c && leb c b'9'

abbrev pub is_lower : ℕ → Bool
is_lower c = leb b'a' c && leb c b'z'

abbrev pub is_upper : ℕ → Bool
is_upper c = leb b'A' c && leb c b'Z'

abbrev pub is_alphabetic : ℕ → Bool
is_alphabetic c = is_lower c || is_upper c

abbrev pub is_space : ℕ → Bool
is_space c = (c == 32) || (leb 9 c && leb c 13)

abbrev pub lower : ℕ → ℕ
lower c = if is_upper c then c + 32 else c

-- `str::to_lowercase`.
unfoldable pub to_lowercase : Text → Text
to_lowercase = map lower

abbrev pub drop_while : (ℕ → Bool) → Text → Text
drop_while p [] = []
drop_while p (c ∷ s) = if p c then drop_while p s else c ∷ s

-- `str::trim_end_matches` of a class of characters, and `str::trim`.
abbrev pub trim_end_by : (ℕ → Bool) → Text → Text
trim_end_by p s = reverse (drop_while p (reverse s))

abbrev pub trim : Text → Text
trim s = trim_end_by is_space (drop_while is_space s)

-- `str::strip_suffix` of one character.
abbrev pub strip_suffix : ℕ → Text → Option Text
strip_suffix c [] = none
strip_suffix c (x ∷ []) = if x == c then some [] else none
strip_suffix c (x ∷ y ∷ s) = and_then (strip_suffix c (y ∷ s)) (λ r. some (x ∷ r))

-- `str::split_at` the first character of a class, `none` where there is none.
abbrev pub split_at_first : (ℕ → Bool) → Text → Option (Text × Text)
split_at_first p [] = none
split_at_first p (c ∷ s) =
    let rest = and_then (split_at_first p s) (λ r. some (c ∷ r.0, r.1)) in
    if p c then some ([], c ∷ s) else rest

-- `str::split_once` of one character.
abbrev pub split_once : ℕ → Text → Option (Text × Text)
split_once d [] = none
split_once d (c ∷ s) =
    let rest = and_then (split_once d s) (λ r. some (c ∷ r.0, r.1)) in
    if c == d then some ([], s) else rest

-- The digits read so far are worth `n`; a value of `bound` or more overflows the integer type.
abbrev pub digits_value : ℕ → ℕ → Text → Option ℕ
digits_value bound n [] = some n
digits_value bound n (c ∷ s) =
    let m = n * 10 + (c - b'0') in
    let rest = digits_value bound m s in
    if is_digit c then (if ltb m bound then rest else none) else none

abbrev pub parse_digits : ℕ → Text → Option ℕ
parse_digits bound [] = none
parse_digits bound (c ∷ s) = digits_value bound 0 (c ∷ s)

-- `str::parse` for an unsigned type below `bound`: one `+` may lead, and digits must follow.
abbrev pub parse_uint : ℕ → Text → Option ℕ
parse_uint bound [] = none
parse_uint bound (c ∷ s) =
    let unsigned = parse_digits bound (c ∷ s) in
    if c == b'+' then parse_digits bound s else unsigned

-- Decimal printing; the fuel `suc n` is more than the number of digits of `n`.
decimal_fuel : ℕ → ℕ → Text → Text
decimal_fuel zero n acc = acc
decimal_fuel (suc f) n acc =
    let digit = b'0' + n % 10 in
    let rest = decimal_fuel f (n / 10) (digit ∷ acc) in if ltb n 10 then digit ∷ acc else rest

unfoldable pub decimal : ℕ → Text
unfolding decimal_fuel
decimal n = decimal_fuel (suc n) n []

decimal_fuel-is_digit :
    (fuel n : ℕ) (acc : Text)
    → all is_digit acc ≡ true
    → all is_digit (decimal_fuel fuel n acc) ≡ true
unfolding decimal_fuel
decimal_fuel-is_digit zero n acc h = h
decimal_fuel-is_digit (suc f) n acc h =
    let digit = b'0' + n % 10 in
    let one : is_digit digit ≡ true = ground arith in
    let more : all is_digit (digit ∷ acc) ≡ true = ap (λ b. b && all is_digit acc) one ∙ h in
    elim (Bool-cases (ltb n 10)) [
      | inl last ↦ rw last more
      | inr next ↦ rw next (decimal_fuel-is_digit f (n / 10) (digit ∷ acc) more)
    ]

pub decimal-is_digit : (n : ℕ) → all is_digit (decimal n) ≡ true
unfolding decimal
decimal-is_digit n = decimal_fuel-is_digit (suc n) n [] refl
