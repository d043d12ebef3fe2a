-- ===== src/Scheduler/Aligned.antt =====
-- The aligned schedules of src/scheduler.rs: when they are strictly after, and when they are not.
use periodic.Prelude.{
  ℕ, ◌+◌, ◌*◌, ◌/◌, ◌%◌, ◌≤◌, ◌<◌, ◌≡◌, ◌≢◌, inl, inr, arith, false, sym, ◌∙◌, Bool-cases, ◌==◌, ap,
}
use native.Mathlib.Decide.{dec_lt}
use periodic.Run.{returns, stuck}
use periodic.Chrono.{
  Chrono, ambiguous, minute_ns, hour_ns, day_ns, minute_of, hour_of, date_of, ZoneLaws,
}
use periodic.Scheduler.WallClock.{resolve_wall_clock}
use periodic.Scheduler.Engine.{
  minute_boundary, hour_boundary, next_minute_aligned, next_hour_aligned,
}
use periodic.Scheduler.Gap.{resolve_wall_clock-once}

-- The first multiple of `every` after `m` is at most `every` further.
next_multiple :
    (every m : ℕ)
    → 0 < every
    → (m < (m / every + 1) * every) × ((m / every + 1) * every ≤ m + every)
next_multiple every m h = (grind arith, grind arith)

minute_parts :
    (wall : ℕ)
    → date_of wall * day_ns + hour_of wall * hour_ns + minute_of wall * minute_ns + wall % minute_ns
      ≡ wall
minute_parts wall = omega arith

hour_parts : (wall : ℕ) → date_of wall * day_ns + hour_of wall * hour_ns + wall % hour_ns ≡ wall
hour_parts wall = omega arith

-- A number with its parts, and a multiple past its middle part.
past_minute :
    (a m q e r wall : ℕ)
    → a + m * minute_ns + r ≡ wall
    → r < minute_ns
    → m < q
    → q ≤ m + e
    → (wall < a + q * minute_ns) × (a + q * minute_ns ≤ wall + e * minute_ns)
past_minute a m q e r wall p small lo hi = (omega arith, omega arith)

past_hour :
    (a m q e r wall : ℕ)
    → a + m * hour_ns + r ≡ wall
    → r < hour_ns
    → m < q
    → q ≤ m + e
    → (wall < a + q * hour_ns) × (a + q * hour_ns ≤ wall + e * hour_ns)
past_hour a m q e r wall p small lo hi = (omega arith, omega arith)

-- The minute boundary is later than the wall clock, by at most the interval.
pub minute_boundary-lt :
    (every wall : ℕ)
    → 0 < every
    → (wall < minute_boundary every wall) × (minute_boundary every wall ≤ wall + every * minute_ns)
minute_boundary-lt every wall h =
    let (low, high) = next_multiple every (minute_of wall) h in
    past_minute (date_of wall * day_ns + hour_of wall * hour_ns) (minute_of wall)
      ((minute_of wall / every + 1) * every) every (wall % minute_ns) wall (minute_parts wall)
      (omega arith) low high

pub hour_boundary-lt :
    (every wall : ℕ)
    → 0 < every
    → (wall < hour_boundary every wall) × (hour_boundary every wall ≤ wall + every * hour_ns)
hour_boundary-lt every wall h =
    let (low, high) = next_multiple every (hour_of wall) h in
    past_hour (date_of wall * day_ns) (hour_of wall) ((hour_of wall / every + 1) * every) every
      (wall % hour_ns) wall (hour_parts wall) (omega arith) low high

-- A multiple of `u` in `(wall, wall + u]` is the only one.
multiple_unique :
    (u a b wall : ℕ) → wall < a * u → a * u ≤ wall + u → wall < b * u → b * u ≤ wall + u → a ≡ b
multiple_unique u a b wall p q r s = grind arith

next_grid : (u wall : ℕ) → 0 < u → (wall < (wall / u + 1) * u) × ((wall / u + 1) * u ≤ wall + u)
next_grid u wall h = next_multiple u wall h

minute_grid :
    (every k wall : ℕ)
    → every * k ≡ 60
    → minute_boundary every wall
      ≡ (wall / hour_ns * k + (minute_of wall / every + 1)) * (every * minute_ns)
minute_grid every k wall e =
    let q = minute_of wall / every + 1 in
    let h = wall / hour_ns in
    let parts : date_of wall * day_ns + hour_of wall * hour_ns ≡ h * (60 * minute_ns) =
      omega arith in
    let whole : h * (60 * minute_ns) ≡ h * (every * k * minute_ns) =
      ap (λ t. h * (t * minute_ns)) (sym e) in
    omega arith

-- Where the interval divides the hour, the boundary is the next point of the grid of the interval
-- over the whole time line, not only within the hour.
pub minute_boundary-eq-grid :
    (every k wall : ℕ)
    → every * k ≡ 60
    → minute_boundary every wall ≡ (wall / (every * minute_ns) + 1) * (every * minute_ns)
minute_boundary-eq-grid every k wall e =
    let pos : 0 < every = grind arith in
    let eq = minute_grid every k wall e in
    let (lo, hi) = minute_boundary-lt every wall pos in
    let (lo', hi') = next_grid (every * minute_ns) wall (omega arith) in
    let same =
      multiple_unique (every * minute_ns) (wall / hour_ns * k + (minute_of wall / every + 1))
        (wall / (every * minute_ns) + 1) wall (rw eq at lo) (rw eq at hi) lo' hi' in
    eq ∙ ap (λ t. t * (every * minute_ns)) same

module _ (c : Chrono) (tz : c.Tz) (fuel : ℕ) where
  open c use {to_local, from_local}

  minute-eq :
      (every after i : ℕ)
      → next_minute_aligned c fuel every tz after ≡ returns i
      → (0 < every)
        × (resolve_wall_clock c fuel tz (minute_boundary every (to_local tz after)) ≡ returns i)
  unfolding next_minute_aligned
  minute-eq every after i h = elim (Bool-cases (every == 0)) [
    | inl z ↦ let h' : stuck ≡ returns i = rw z at h in cc
    | inr nz ↦ (ground arith, rw nz at h)
  ]

  hour-eq :
      (every after i : ℕ)
      → next_hour_aligned c fuel every tz after ≡ returns i
      → (0 < every)
        × (resolve_wall_clock c fuel tz (hour_boundary every (to_local tz after)) ≡ returns i)
  unfolding next_hour_aligned
  hour-eq every after i h = elim (Bool-cases (every == 0)) [
    | inl z ↦ let h' : stuck ≡ returns i = rw z at h in cc
    | inr nz ↦ (ground arith, rw nz at h)
  ]

  -- A unique or skipped local time past the wall clock resolves to a later instant.
  resolve-lt :
      (n after i : ℕ)
      → ZoneLaws c tz
      → to_local tz after < n
      → ((e l : ℕ) → from_local tz n ≢ ambiguous e l)
      → resolve_wall_clock c fuel tz n ≡ returns i
      → after < i
  resolve-lt n after i laws past unique h = elim (dec_lt after i) [
    | yes p ↦ p
    | no p ↦
        absurd
          (omega (arith, resolve_wall_clock-once c tz laws fuel n i after h unique (omega arith)))
  ]

  -- In a zone that obeys its laws, where the boundary's local time is not repeated, the next
  -- minute-aligned firing that is returned is strictly after the given instant.
  pub next_minute_aligned-lt :
      (every after i : ℕ)
      → ZoneLaws c tz
      → ((e l : ℕ) → from_local tz (minute_boundary every (to_local tz after)) ≢ ambiguous e l)
      → next_minute_aligned c fuel every tz after ≡ returns i
      → after < i
  next_minute_aligned-lt every after i laws unique h =
      let (pos, r) = minute-eq every after i h in
      resolve-lt (minute_boundary every (to_local tz after)) after i laws
        (minute_boundary-lt every (to_local tz after) pos).0 unique r

  -- The same of the hour-aligned schedule.
  pub next_hour_aligned-lt :
      (every after i : ℕ)
      → ZoneLaws c tz
      → ((e l : ℕ) → from_local tz (hour_boundary every (to_local tz after)) ≢ ambiguous e l)
      → next_hour_aligned c fuel every tz after ≡ returns i
      → after < i
  next_hour_aligned-lt every after i laws unique h =
      let (pos, r) = hour-eq every after i h in
      resolve-lt (hour_boundary every (to_local tz after)) after i laws
        (hour_boundary-lt every (to_local tz after) pos).0 unique r

  -- Where the boundary of an interval that is not 0 is in a fold whose first pass of that local
  -- time is not after the given instant, the next minute-aligned firing is not strictly after the
  -- given instant: the boundary resolves to its first pass.
  pub next_minute_aligned-fold :
      (every after e l : ℕ)
      → 0 < every
      → from_local tz (minute_boundary every (to_local tz after)) ≡ ambiguous e l
      → e ≤ after
      → ¬ ((i : ℕ) → next_minute_aligned c fuel every tz after ≡ returns i → after < i)
  unfolding next_minute_aligned resolve_wall_clock
  next_minute_aligned-fold every after e l pos amb past strict =
      let nz : (every == 0) ≡ false = ground arith in
      let r : next_minute_aligned c fuel every tz after ≡ returns e =
        rw nz (rw (amb, resolve_wall_clock)) in
      absurd (omega (arith, strict e r))
