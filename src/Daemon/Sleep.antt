-- ===== src/Daemon/Sleep.antt =====
-- The sleep of the scheduler loop and the view of liveness.
use periodic.Prelude.{
  ℕ, ◌+◌, ◌*◌, ◌≤◌, ◌<◌, ◌≡◌, ◌↔◌, ◌⊎◌, refl, Bool, true, false, some, codes, text_eq,
  text_eq_sound, text_eq_refl, ltb, arith, if◌then◌else◌, sym, ◌∙◌, ◌&&◌, not, and-eq-true,
}
use periodic.Store.Liveness.{DaemonStatus, daemon_is_stale}
use periodic.Daemon.{heartbeat_interval_ms, stale_after_ns, sleep_until, DaemonView, from_status}

-- Before a wake-up the loop sleeps no longer than the heartbeat interval and never past the wake-up,
-- and it wakes within a millisecond of it unless the heartbeat interval is shorter.
pub sleep_until-le :
    (wake now : ℕ)
    → now ≤ wake
    → (sleep_until (some wake) now ≤ heartbeat_interval_ms)
      × (now + sleep_until (some wake) now * 1000000 ≤ wake)
      × ((sleep_until (some wake) now ≡ heartbeat_interval_ms)
          ⊎ (wake < now + (sleep_until (some wake) now + 1) * 1000000))
unfolding sleep_until
sleep_until-le wake now le = (omega arith, omega arith, ground arith)

-- Fresh: the daemon says that it is running, and its heartbeat is no older than the limit.
abbrev pub IsLive : ℕ → DaemonStatus → Type 0
IsLive now s = (s.state ≡ codes "running") × (now ≤ s.heartbeat + stale_after_ns)

running_named :
    (s : DaemonStatus) (now : ℕ)
    → (from_status (some s) now).running
      ≡ (text_eq s.state (codes "running") && not (ltb (s.heartbeat + stale_after_ns) now))
unfolding from_status daemon_is_stale
running_named s now =
    go (text_eq s.state (codes "running")) (ltb (s.heartbeat + stale_after_ns) now)
  where
    go :
        (named old : Bool)
        → (if◌then◌else◌ {A = DaemonView} named
            (if named && old
              then record { state = codes "not responding"; pid = some s.pid; running = false }
              else record { state = codes "running"; pid = some s.pid; running = true })
            (record { state = s.state; pid = some s.pid; running = false })).running
          ≡ (named && not old)
    go true true = refl
    go true false = refl
    go false old = refl

-- A view says that the daemon runs exactly when its status is fresh; a crashed daemon, whose
-- heartbeat has stopped, is not seen as running.
pub from_status-IsLive :
    (s : DaemonStatus) (now : ℕ) → ((from_status (some s) now).running ≡ true) ↔ IsLive now s
from_status-IsLive s now = (
  λ h.
      let both =
        and-eq-true (text_eq s.state (codes "running")) _ (sym (running_named s now) ∙ h) in
      (text_eq_sound s.state (codes "running") both.0, not_old both.1),
  λ live.
      running_named s now
      ∙ (let named : text_eq s.state (codes "running") ≡ true =
            rw live.0 (text_eq_refl (codes "running")) in
          let fresh : ltb (s.heartbeat + stale_after_ns) now ≡ false = not_ltb live.1 in
          rw named (rw fresh refl)),
)
  where
    not_old :
        not (ltb (s.heartbeat + stale_after_ns) now) ≡ true → now ≤ s.heartbeat + stale_after_ns
    not_old h = ground arith

    not_ltb : now ≤ s.heartbeat + stale_after_ns → ltb (s.heartbeat + stale_after_ns) now ≡ false
    not_ltb h = ground arith
