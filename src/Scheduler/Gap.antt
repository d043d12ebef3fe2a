-- ===== src/Scheduler/Gap.antt =====
-- The wall-clock resolver of src/scheduler.rs: it returns, and what it returns.
use periodic.Prelude.{ℕ, zero, suc, ◌+◌, ◌*◌, ◌%◌, ◌≤◌, ◌<◌, ◌≡◌, ◌≢◌, refl, ◌⊎◌, inl, inr, arith}
use periodic.Run.{returns}
use periodic.Chrono.{Chrono, LocalResult, single, ambiguous, gap, minute_ns, ZoneLaws, GapsEnd}
use periodic.Scheduler.WallClock.{probe_gap, resolve_wall_clock}

module _ (c : Chrono) where
  open c use {Tz, from_local, to_local}

  -- What the probe finds: the first unique local time, in steps of a minute.
  pub data FirstAfter (tz : Tz) (i : ℕ) : ℕ → Type 0 where
    found : {n : ℕ} → from_local tz (n + minute_ns) ≡ single i → FirstAfter tz i n
    later :
        {n : ℕ}
        → ((j : ℕ) → from_local tz (n + minute_ns) ≢ single j)
        → FirstAfter tz i (n + minute_ns)
        → FirstAfter tz i n

  LocalResult-cases :
      (r : LocalResult)
      → ((i : ℕ) × (r ≡ single i)) ⊎ ((e : ℕ) × (l : ℕ) × (r ≡ ambiguous e l)) ⊎ (r ≡ gap)
  LocalResult-cases (single i) = inl (i, refl)
  LocalResult-cases (ambiguous e l) = inr (inl (e, l, refl))
  LocalResult-cases gap = inr (inr refl)

  probe_gap-FirstAfter :
      (fuel : ℕ) (tz : Tz) (n i : ℕ) → probe_gap c fuel tz n ≡ returns i → FirstAfter tz i n
  unfolding probe_gap
  probe_gap-FirstAfter zero tz n i h = cc
  probe_gap-FirstAfter (suc fuel) tz n i h =
      elim (LocalResult-cases (from_local tz (n + minute_ns))) [
        | inl (j, e) ↦
            let h' : returns j ≡ returns i = rw (e, probe_gap) at h in found (ground arith)
        | inr (inl (a, b, e)) ↦
            later (λ j p. ground arith)
              (probe_gap-FirstAfter fuel tz (n + minute_ns) i (rw (e, probe_gap) at h))
        | inr (inr e) ↦
            later (λ j p. ground arith)
              (probe_gap-FirstAfter fuel tz (n + minute_ns) i (rw (e, probe_gap) at h))
      ]

  -- A unique local time `k` steps ahead is reached with fuel for `k + 1` steps.
  probe_gap-returns :
      (fuel k : ℕ) (tz : Tz) (n i : ℕ)
      → k < fuel
      → from_local tz (n + (k + 1) * minute_ns) ≡ single i
      → (j : ℕ) × (probe_gap c fuel tz n ≡ returns j)
  unfolding probe_gap
  probe_gap-returns zero k tz n i h e = elim h [ ]
  probe_gap-returns (suc fuel) zero tz n i h e =
      let same : n + (0 + 1) * minute_ns ≡ n + minute_ns = omega arith in
      let e' : from_local tz (n + minute_ns) ≡ single i = rw same at e in (i, rw (e', probe_gap))
  probe_gap-returns (suc fuel) (suc k) tz n i h e =
      let same : n + (suc k + 1) * minute_ns ≡ n + minute_ns + (k + 1) * minute_ns = omega arith in
      let rest = probe_gap-returns fuel k tz (n + minute_ns) i (omega arith) (rw same at e) in
      elim (LocalResult-cases (from_local tz (n + minute_ns))) [
        | inl (j, p) ↦ (j, rw (p, probe_gap))
        | inr (inl (a, b, p)) ↦ (rest.0, rw (p, probe_gap) rest.1)
        | inr (inr p) ↦ (rest.0, rw (p, probe_gap) rest.1)
      ]

  -- The resolver returns for every local time, with fuel for the longest gap.
  pub resolve_wall_clock-returns :
      (fuel : ℕ) (tz : Tz) (n : ℕ)
      → GapsEnd c tz fuel
      → (i : ℕ) × (resolve_wall_clock c fuel tz n ≡ returns i)
  unfolding resolve_wall_clock
  resolve_wall_clock-returns fuel tz n ends = elim (LocalResult-cases (from_local tz n)) [
    | inl (j, p) ↦ (j, rw (p, resolve_wall_clock))
    | inr (inl (a, b, p)) ↦ (a, rw (p, resolve_wall_clock))
    | inr (inr p) ↦
        let (k, i, lt, e) = ends n in
        let rest = probe_gap-returns fuel k tz n i lt e in
        (rest.0, rw (p, resolve_wall_clock) rest.1)
  ]

  -- The policy of the resolver: a unique time is itself, a repeated one is its earlier instant, and a
  -- time in a gap is the first unique time after it.
  pub Resolved : Tz → ℕ → ℕ → Type 0
  Resolved tz n i =
      (from_local tz n ≡ single i)
      ⊎ ((l : ℕ) × (from_local tz n ≡ ambiguous i l))
      ⊎ ((from_local tz n ≡ gap) × FirstAfter tz i n)

  -- Whatever the resolver returns follows the policy for gaps and folds.
  pub resolve_wall_clock-Resolved :
      (fuel : ℕ) (tz : Tz) (n i : ℕ) → resolve_wall_clock c fuel tz n ≡ returns i → Resolved tz n i
  unfolding resolve_wall_clock Resolved
  resolve_wall_clock-Resolved fuel tz n i h = elim (LocalResult-cases (from_local tz n)) [
    | inl (j, e) ↦
        let h' : returns j ≡ returns i = rw (e, resolve_wall_clock) at h in inl (ground arith)
    | inr (inl (a, b, e)) ↦
        let h' : returns a ≡ returns i = rw (e, resolve_wall_clock) at h in
        inr (inl (b, ground arith))
    | inr (inr e) ↦
        inr (inr (e, probe_gap-FirstAfter fuel tz n i (rw (e, resolve_wall_clock) at h)))
  ]

  module _ (tz : Tz) (laws : ZoneLaws c tz) where
    FirstAfter-lt : (i n : ℕ) → FirstAfter tz i n → n < to_local tz i
    FirstAfter-lt i n (found e) = omega (arith, laws.single_shows (n + minute_ns) i e)
    FirstAfter-lt i n (later skip f) = omega (arith, FirstAfter-lt i (n + minute_ns) f)

    FirstAfter-minutes : (i n : ℕ) → FirstAfter tz i n → to_local tz i % minute_ns ≡ n % minute_ns
    FirstAfter-minutes i n (found e) = omega (arith, laws.single_shows (n + minute_ns) i e)
    FirstAfter-minutes i n (later skip f) = omega (arith, FirstAfter-minutes i (n + minute_ns) f)

    -- The instant shows a local time no earlier than the one asked for, on the same second.
    pub resolve_wall_clock-le :
        (fuel n i : ℕ)
        → resolve_wall_clock c fuel tz n ≡ returns i
        → (n ≤ to_local tz i) × (to_local tz i % minute_ns ≡ n % minute_ns)
    unfolding Resolved
    resolve_wall_clock-le fuel n i h = elim (resolve_wall_clock-Resolved fuel tz n i h) [
      | inl e ↦ let s = laws.single_shows n i e in (omega arith, omega arith)
      | inr (inl (l, e)) ↦ let s = laws.earliest_shows n i l e in (omega arith, omega arith)
      | inr (inr (e, f)) ↦ (omega (arith, FirstAfter-lt i n f), FirstAfter-minutes i n f)
    ]

    FirstAfter-once : (i j n : ℕ) → FirstAfter tz i n → i ≤ j → n < to_local tz j
    FirstAfter-once i j n (found e) le = omega (arith, laws.once (n + minute_ns) i j e le)
    FirstAfter-once i j n (later skip f) le =
        omega (arith, FirstAfter-once i j (n + minute_ns) f le)

    -- Unless the local time is repeated, no instant from the resolved one on shows an earlier time.
    pub resolve_wall_clock-once :
        (fuel n i j : ℕ)
        → resolve_wall_clock c fuel tz n ≡ returns i
        → ((e l : ℕ) → from_local tz n ≢ ambiguous e l)
        → i ≤ j
        → n ≤ to_local tz j
    unfolding Resolved
    resolve_wall_clock-once fuel n i j h unique le =
        elim (resolve_wall_clock-Resolved fuel tz n i h) [
          | inl e ↦ laws.once n i j e le
          | inr (inl (l, e)) ↦ absurd (unique i l e)
          | inr (inr (e, f)) ↦ omega (arith, FirstAfter-once i j n f le)
        ]
