-- ===== src/Daemon/Loop/Views.antt =====
-- The view that `status` has of a daemon.
use periodic.Prelude.{
  ℕ, ◌≡◌, refl, Bool, true, false, not, ◌&&◌, Option, none, some, codes, text_eq, if◌then◌else◌,
}
use periodic.Store.Model.{Result, ok, err}
use periodic.Store.Liveness.{DaemonStatus, daemon_is_stale}
use periodic.Daemon.{stale_after_ns, DaemonView, from_status}
use periodic.Daemon.Loop.{is_live}

-- The view of a status that can be read.
abbrev pub view : Result (Option DaemonStatus) → ℕ → DaemonView
view (err e) now = from_status none now
view (ok status) now = from_status status now

-- The view of a status that is named as running or not, and is stale or not.
abbrev shown : DaemonStatus → Bool → Bool → DaemonView
shown s named old =
    if named
    then if old
      then record { state = codes "not responding"; pid = some s.pid; running = false }
      else record { state = codes "running"; pid = some s.pid; running = true }
    else record { state = s.state; pid = some s.pid; running = false }

shown-running :
    (s : DaemonStatus) (named old : Bool) → (shown s named old).running ≡ (named && not old)
shown-running s true true = refl
shown-running s true false = refl
shown-running s false old = refl

shown-pid : (s : DaemonStatus) (named old : Bool) → (shown s named old).pid ≡ some s.pid
shown-pid s true true = refl
shown-pid s true false = refl
shown-pid s false old = refl

pub is_live-running :
    (s : DaemonStatus) (now : ℕ)
    → ((from_status (some s) now).running ≡ is_live s now)
      × ((from_status (some s) now).pid ≡ some s.pid)
unfolding from_status
is_live-running s now =
    let old = daemon_is_stale s now stale_after_ns in
    (
      shown-running s (text_eq s.state (codes "running")) old,
      shown-pid s (text_eq s.state (codes "running")) old,
    )
