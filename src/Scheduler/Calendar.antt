-- ===== src/Scheduler/Calendar.antt =====
-- The calendar loops of src/scheduler.rs: what they return, and that the weekday loop returns.
pub mod Days
pub mod Total
use periodic.Prelude.{
  ℕ, zero, suc, ◌+◌, ◌≤◌, ◌<◌, ◌≡◌, refl, Bool, Bool-cases, true, false, Option, none, some, List,
  [], ◌∷◌, arith, inl, inr, Text, ltb, ltb→lt, sym, ◌∙◌, if_true, if_false, if◌then◌else◌, text_eq,
  codes, any, ◌⊎◌, Option-cases,
}
use periodic.Run.{Run, returns, stuck, ◌>>=◌, >>=-eq-returns}
use periodic.Config.Model.{ℤ}
use periodic.Chrono.{Chrono, date_of}
use periodic.Scheduler.Engine.{
  calendar_fires_on, candidate, weekday_loop, monthly_loop, target_day, next_month, next_calendar,
  parse_hhmm,
}

module _ (c : Chrono) (fuel : ℕ) (tz : c.Tz) (at : ℕ × ℕ) (after : ℕ) where
  -- The first firing after `after`, on the days from `date` on: an earlier day does not fire, or
  -- fires too early.
  pub data FirstFiring (days : List Text) (i : ℕ) : ℕ → Type 0 where
    fires :
        {date : ℕ}
        → calendar_fires_on days (c.weekday date) ≡ true
        → candidate c fuel tz at date ≡ returns i
        → after < i
        → FirstFiring days i date
    other_day :
        {date : ℕ}
        → calendar_fires_on days (c.weekday date) ≡ false
        → FirstFiring days i (date + 1)
        → FirstFiring days i date
    too_early :
        {date j : ℕ}
        → candidate c fuel tz at date ≡ returns j
        → j ≤ after
        → FirstFiring days i (date + 1)
        → FirstFiring days i date

  weekday_loop-FirstFiring :
      (rounds : ℕ) (days : List Text) (date i : ℕ)
      → weekday_loop c fuel rounds tz at days after date ≡ returns i
      → FirstFiring days i date
  unfolding weekday_loop
  weekday_loop-FirstFiring zero days date i h = cc
  weekday_loop-FirstFiring (suc rounds) days date i h =
      elim (Bool-cases (calendar_fires_on days (c.weekday date))) [
        | inr off ↦
            other_day off
              (weekday_loop-FirstFiring rounds days (date + 1) i (sym (if_false _ _ _ off) ∙ h))
        | inl on ↦
            let (j, got, rest) =
              >>=-eq-returns (candidate c fuel tz at date)
                (λ i.
                  if ltb after i
                  then returns i
                  else weekday_loop c fuel rounds tz at days after (date + 1))
                (sym (if_true _ _ _ on) ∙ h) in
            elim (Bool-cases (ltb after j)) [
              | inl ok ↦
                  let same : returns j ≡ returns i = sym (if_true _ _ _ ok) ∙ rest in
                  let got' : candidate c fuel tz at date ≡ returns i = got ∙ same in
                  fires on got' (ground arith)
              | inr early ↦ too_early got (ground arith) (
                  weekday_loop-FirstFiring rounds days (date + 1) i
                    (sym (if_false _ _ _ early) ∙ rest))
            ]
      ]

  FirstFiring-lt : (days : List Text) (i date : ℕ) → FirstFiring days i date → after < i
  FirstFiring-lt days i date (fires on got lt) = lt
  FirstFiring-lt days i date (other_day off f) = FirstFiring-lt days i _ f
  FirstFiring-lt days i date (too_early got le f) = FirstFiring-lt days i _ f

  try_date-lt :
      (o : Option ℕ) (rest : Run ℕ) (i : ℕ)
      → (rest ≡ returns i → after < i)
      → elim o [
        | none ↦ rest
        | some date ↦ candidate c fuel tz at date >>= (λ i. if ltb after i then returns i else rest)
      ]
        ≡ returns i
      → after < i
  try_date-lt none rest i f h = f h
  try_date-lt (some date) rest i f h =
      let (j, got, e) =
        >>=-eq-returns (candidate c fuel tz at date) (λ i. if ltb after i then returns i else rest)
          h in
      elim (Bool-cases (ltb after j)) [
        | inl ok ↦ let same : returns j ≡ returns i = sym (if_true _ _ _ ok) ∙ e in ground arith
        | inr early ↦ f (sym (if_false _ _ _ early) ∙ e)
      ]

  monthly_loop-lt :
      (rounds : ℕ) (on_day : Option ℤ) (last_day : Bool) (year month i : ℕ)
      → monthly_loop c fuel rounds tz at on_day last_day after year month ≡ returns i
      → after < i
  unfolding monthly_loop
  monthly_loop-lt zero on_day last_day year month i h = cc
  monthly_loop-lt (suc rounds) on_day last_day year month i h =
      let (day, got, e) = >>=-eq-returns (target_day c fuel on_day last_day year month) _ h in
      try_date-lt (c.from_ymd_opt year month day)
        (monthly_loop c fuel rounds tz at on_day last_day after (next_month year month).0
          (next_month year month).1)
        i
        (λ r.
          monthly_loop-lt rounds on_day last_day (next_month year month).0 (next_month year month).1
            i r)
        e

module _ (c : Chrono) (fuel : ℕ) where
  -- Whatever zone, days and time it is given, a calendar schedule that returns is strictly after
  -- `after`, and a weekday set returns its first firing after `after`.
  pub next_calendar-lt :
      (days : List Text) (at : Text) (tz : c.Tz) (on_day : Option ℤ) (last_day : Bool) (after i : ℕ)
      → next_calendar c fuel days at tz on_day last_day after ≡ returns i
      → (after < i)
        × ((any (λ d. text_eq d (codes "month")) days ≡ true)
            ⊎ FirstFiring c fuel tz (parse_hhmm at) after days i (date_of (c.to_local tz after)))
  unfolding next_calendar
  next_calendar-lt days at tz on_day last_day after i h =
      elim (Bool-cases (any (λ d. text_eq d (codes "month")) days)) [
        | inl m ↦ (
          monthly_loop-lt c fuel tz (parse_hhmm at) after fuel on_day last_day _ _ i
              (sym (if_true _ _ _ m) ∙ h),
          inl m,
        )
        | inr w ↦
            let f =
              weekday_loop-FirstFiring c fuel tz (parse_hhmm at) after fuel days _ i
                (sym (if_false _ _ _ w) ∙ h) in
            (FirstFiring-lt c fuel tz (parse_hhmm at) after days i _ f, inr f)
      ]
