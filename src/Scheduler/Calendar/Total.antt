-- ===== src/Scheduler/Calendar/Total.antt =====
-- The weekday loop of src/scheduler.rs returns: ten dates are enough.
use periodic.Prelude.{
  ℕ, zero, suc, ◌+◌, ◌*◌, ◌≤◌, ◌<◌, ◌≡◌, ◌≢◌, Bool, Bool-cases, true, false, Option, some, List, [],
  arith, inl, inr, Text, ltb, lt→ltb, ◌∙◌, if_true, if_false, if◌then◌else◌, text_eq, codes, any,
  All, ap, subst,
}
use periodic.Run.{returns, ◌>>=◌, unwrap}
use periodic.Config.Model.{ℤ}
use periodic.Config.Shape.{IsNamed}
use periodic.Chrono.{
  Chrono, ZoneLaws, GapsEnd, date_of, succ, day_ns, hour_ns, minute_ns, and_hm_opt,
}
use periodic.Scheduler.WallClock.{resolve_wall_clock}
use periodic.Scheduler.Engine.{
  calendar_fires_on, candidate, weekday_loop, next_calendar, parse_hhmm,
}
use periodic.Scheduler.Gap.{resolve_wall_clock-returns, resolve_wall_clock-le}
use periodic.Scheduler.Calendar.Days.{calendar_fires_on-week}

-- A time of day, as validation requires it.
abbrev pub IsTime : ℕ × ℕ → Type 0
IsTime at = (at.0 < 24) × (at.1 < 60)

and_hm_opt-some :
    (date h m : ℕ)
    → h < 24
    → m < 60
    → and_hm_opt date h m ≡ some (date * day_ns + h * hour_ns + m * minute_ns)
and_hm_opt-some date h m p q = rw (lt→ltb h 24 p, lt→ltb m 60 q)

module _ (c : Chrono) (fuel : ℕ) (tz : c.Tz) (laws : ZoneLaws c tz) (ends : GapsEnd c tz fuel) where
  -- The candidate of a date returns, at most a day before that date begins.
  candidate-returns :
      (at : ℕ × ℕ) (date : ℕ)
      → IsTime at
      → (i : ℕ) × (candidate c fuel tz at date ≡ returns i) × (date * day_ns < i + day_ns)
  unfolding candidate
  candidate-returns at date ok =
      let naive = date * day_ns + at.0 * hour_ns + at.1 * minute_ns in
      let (i, r) = resolve_wall_clock-returns c fuel tz naive ends in
      let shows = (resolve_wall_clock-le c tz laws fuel naive i r).0 in
      (
        i,
        ap (λ o. unwrap o >>= (λ naive. resolve_wall_clock c fuel tz naive))
              (and_hm_opt-some date at.0 at.1 ok.0 ok.1)
            ∙ r,
        omega (arith, laws.not_ahead i),
      )

  weekday_loop-returns :
      (rounds k : ℕ) (at : ℕ × ℕ) (days : List Text) (after date : ℕ)
      → IsTime at
      → k < rounds
      → calendar_fires_on days (c.weekday (date + k)) ≡ true
      → after + day_ns ≤ (date + k) * day_ns
      → (i : ℕ) × (weekday_loop c fuel rounds tz at days after date ≡ returns i)
  unfolding weekday_loop
  weekday_loop-returns zero k at days after date ok h on far = elim h [ ]
  weekday_loop-returns (suc rounds) zero at days after date ok h on far =
      let same : date + 0 ≡ date = omega arith in
      let on' : calendar_fires_on days (c.weekday date) ≡ true =
        subst (λ t. calendar_fires_on days (c.weekday t) ≡ true) same on in
      let (i, got, near) = candidate-returns at date ok in
      (
        i,
        if_true _ _ _ on'
            ∙ ap
                (λ r. r >>= (λ i.
                  if ltb after i
                  then returns i
                  else weekday_loop c fuel rounds tz at days after (date + 1)))
                got
            ∙ if_true _ _ _ (lt→ltb after i (omega arith)),
      )
  weekday_loop-returns (suc rounds) (suc k) at days after date ok h on far =
      let same : date + suc k ≡ date + 1 + k = omega arith in
      let (j, rest) =
        weekday_loop-returns rounds k at days after (date + 1) ok (omega arith)
          (subst (λ t. calendar_fires_on days (c.weekday t) ≡ true) same on)
          (subst (λ t. after + day_ns ≤ t * day_ns) same far) in
      let (i, got, near) = candidate-returns at date ok in
      elim (Bool-cases (calendar_fires_on days (c.weekday date))) [
        | inr off ↦ (j, if_false _ _ _ off ∙ rest)
        | inl here ↦ elim (Bool-cases (ltb after i)) [
          | inl lt ↦ (
            i,
            if_true _ _ _ here
                ∙ ap
                    (λ r. r >>= (λ i.
                      if ltb after i
                      then returns i
                      else weekday_loop c fuel rounds tz at days after (date + 1)))
                    got
                ∙ if_true _ _ _ lt,
          )
          | inr ge ↦ (
            j,
            if_true _ _ _ here
                ∙ ap
                    (λ r. r >>= (λ i.
                      if ltb after i
                      then returns i
                      else weekday_loop c fuel rounds tz at days after (date + 1)))
                    got
                ∙ (if_false _ _ _ ge ∙ rest),
          )
        ]
      ]

  -- A weekday schedule with recognized days and a time of day returns, with fuel for ten dates.
  pub next_calendar-returns :
      (days : List Text) (at : Text) (on_day : Option ℤ) (last_day : Bool) (after : ℕ)
      → ((date : ℕ) → c.weekday (date + 1) ≡ succ (c.weekday date))
      → days ≢ []
      → All IsNamed days
      → any (λ d. text_eq d (codes "month")) days ≡ false
      → IsTime (parse_hhmm at)
      → 10 ≤ fuel
      → (i : ℕ) × (next_calendar c fuel days at tz on_day last_day after ≡ returns i)
  unfolding next_calendar
  next_calendar-returns days at on_day last_day after weeks nonempty named weekly ok enough =
      let date = date_of (c.to_local tz after) in
      let (k, lt, on) = calendar_fires_on-week c weeks days (date + 3) nonempty named weekly in
      let same : date + 3 + k ≡ date + (3 + k) = omega arith in
      let (i, r) =
        weekday_loop-returns fuel (3 + k) (parse_hhmm at) days after date ok (omega arith)
          (subst (λ t. calendar_fires_on days (c.weekday t) ≡ true) same on)
          (omega (arith, laws.not_behind after)) in
      (i, if_false _ _ _ weekly ∙ r)
