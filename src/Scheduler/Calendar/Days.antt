-- ===== src/Scheduler/Calendar/Days.antt =====
-- The days of a calendar schedule: each recognized keyword fires within any seven days.
use periodic.Prelude.{
  ℕ, zero, suc, ◌+◌, ◌<◌, ◌≡◌, ◌≢◌, refl, Bool, Bool-cases, true, false, ◌||◌, List, [], ◌∷◌, arith,
  inl, inr, Text, text_eq, text_eq_sound, codes, any, all, All, All-of_all, and-eq-true, sym, subst,
}
use periodic.Config.Parse.{named_tokens, contains}
use periodic.Config.Shape.{IsNamed}
use periodic.Chrono.{Chrono, Weekday, mon, tue, wed, thu, fri, sat, sun, succ}
use periodic.Scheduler.Engine.{day_fires, weekday_from_name, calendar_fires_on}

-- Whether a day fires on one of the `n` weekdays from `w` on.
abbrev pub fires_within : ℕ → Weekday → Text → Bool
fires_within zero w d = false
fires_within (suc n) w d = day_fires w d || fires_within n (succ w) d

abbrev week_days : List Weekday
week_days = mon ∷ tue ∷ wed ∷ thu ∷ fri ∷ sat ∷ sun ∷ []

all_week : Text → Bool
all_week d = all (λ w. fires_within 7 w d) week_days

-- Each keyword but `month`, on each weekday to start from.
keyword_week : all (λ d. text_eq d (codes "month") || all_week d) named_tokens ≡ true
unfolding all_week day_fires weekday_from_name
keyword_week = refl

all_week-fires : (w : Weekday) (d : Text) → all_week d ≡ true → fires_within 7 w d ≡ true
unfolding all_week
all_week-fires w d h = pick w (All-of_all (λ w. fires_within 7 w d) week_days h)
  where
    pick :
        (w : Weekday) → All (λ w. fires_within 7 w d ≡ true) week_days → fires_within 7 w d ≡ true
    pick mon a = a.0
    pick tue a = a.1.0
    pick wed a = a.1.1.0
    pick thu a = a.1.1.1.0
    pick fri a = a.1.1.1.1.0
    pick sat a = a.1.1.1.1.1.0
    pick sun a = a.1.1.1.1.1.1.0

-- What holds of every name of a list holds of a text that the list contains.
contains-all :
    (p : Text → Bool) (names : List Text) (s : Text)
    → contains names s ≡ true
    → all p names ≡ true
    → p s ≡ true
unfolding contains
contains-all p [] s h a = cc
contains-all p (n ∷ names) s h a =
    let (first, others) = and-eq-true (p n) (all p names) a in
    elim (Bool-cases (text_eq n s)) [
      | inl e ↦ subst (λ t. p t ≡ true) (text_eq_sound n s e) first
      | inr ne ↦ contains-all p names s (rw ne at h) others
    ]

keyword-fires :
    (d : Text) (w : Weekday)
    → IsNamed d
    → text_eq d (codes "month") ≡ false
    → fires_within 7 w d ≡ true
keyword-fires d w named other =
    let either =
      contains-all (λ d. text_eq d (codes "month") || all_week d) named_tokens d named
        keyword_week in
    all_week-fires w d (rw other at either)

module _ (c : Chrono) (weeks : (date : ℕ) → c.weekday (date + 1) ≡ succ (c.weekday date)) where
  -- The day of a keyword comes within `n` dates.
  fires_within-date :
      (n date : ℕ) (d : Text)
      → fires_within n (c.weekday date) d ≡ true
      → (k : ℕ) × (k < n) × (day_fires (c.weekday (date + k)) d ≡ true)
  fires_within-date zero date d h = cc
  fires_within-date (suc n) date d h = elim (Bool-cases (day_fires (c.weekday date) d)) [
    | inl now ↦
        let same : date ≡ date + 0 = omega arith in
        (0, omega arith, subst (λ t. day_fires (c.weekday t) d ≡ true) same now)
    | inr later ↦
        let h' : fires_within n (succ (c.weekday date)) d ≡ true = rw later at h in
        let (k, lt, f) =
          fires_within-date n (date + 1) d
            (subst (λ t. fires_within n t d ≡ true) (sym (weeks date)) h') in
        let same : date + 1 + k ≡ date + suc k = omega arith in
        (suc k, omega arith, subst (λ t. day_fires (c.weekday t) d ≡ true) same f)
  ]

  -- A set of recognized days, other than `month`, fires on one of any seven dates.
  pub calendar_fires_on-week :
      (days : List Text) (date : ℕ)
      → days ≢ []
      → All IsNamed days
      → any (λ d. text_eq d (codes "month")) days ≡ false
      → (k : ℕ) × (k < 7) × (calendar_fires_on days (c.weekday (date + k)) ≡ true)
  unfolding calendar_fires_on
  calendar_fires_on-week [] date some_day named weekly = absurd (some_day refl)
  calendar_fires_on-week (d ∷ days) date some_day named weekly =
      let other : text_eq d (codes "month") ≡ false = ground arith in
      let (k, lt, f) =
        fires_within-date 7 date d (keyword-fires d (c.weekday date) named.0 other) in
      (k, lt, rw f)
