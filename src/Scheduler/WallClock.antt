-- ===== src/Scheduler/WallClock.antt =====
-- src/scheduler.rs: time zones and wall-clock times.
use periodic.Prelude.{
  ℕ, zero, suc, ◌+◌, Option, none, some, Text, codes, text_eq, if◌then◌else◌, and_then, unwrap_or,
}
use periodic.Run.{Run, returns, stuck}
use periodic.Chrono.{Chrono, single, ambiguous, gap, minute_ns}

module _ (c : Chrono) where
  open c use {Tz, utc, zone_from_str, system_zone, from_local}

  abbrev pub system_tz : Tz
  system_tz = unwrap_or (and_then system_zone zone_from_str) utc

  unfoldable pub resolve_timezone : Option Text → Tz
  resolve_timezone none = system_tz
  resolve_timezone (some name) =
      if text_eq name (codes "local") then system_tz else unwrap_or (zone_from_str name) utc

  -- The loop through a gap, a minute at a time, to the first unique local time.
  unfoldable pub probe_gap : ℕ → Tz → ℕ → Run ℕ
  probe_gap zero tz probe = stuck
  probe_gap (suc fuel) tz probe = elim (from_local tz (probe + minute_ns)) [
    | single dt ↦ returns dt
    | ambiguous earliest latest ↦ probe_gap fuel tz (probe + minute_ns)
    | gap ↦ probe_gap fuel tz (probe + minute_ns)
  ]

  unfoldable pub resolve_wall_clock : ℕ → Tz → ℕ → Run ℕ
  unfolding probe_gap
  resolve_wall_clock fuel tz naive = elim (from_local tz naive) [
    | single dt ↦ returns dt
    | ambiguous earliest latest ↦ returns earliest
    | gap ↦ probe_gap fuel tz naive
  ]
