-- ===== src/Doctor/Agrees.antt =====
-- The health report of src/doctor.rs and the view that src/daemon.rs has of the daemon.
use periodic.Prelude.{
  ℕ, ◌≡◌, refl, sym, ap, Bool, true, false, not, ◌&&◌, Option, none, some, Text, codes, decimal,
  text_eq, if◌then◌else◌, ◌++◌,
}
use periodic.Store.Liveness.{DaemonStatus, daemon_is_stale}
use periodic.Daemon.{stale_after_ns, DaemonView, from_status}
use periodic.Doctor.{ended_line, daemon_report}

-- A status that says that the daemon runs, while its view does not take it for running.
abbrev pub is_crashed : Option DaemonStatus → ℕ → Bool
is_crashed none now = false
is_crashed (some s) now =
    text_eq s.state (codes "running") && not (from_status (some s) now).running

abbrev reported : Bool → Bool → Text → Text → Text → Text × Bool
reported named old crashed alive stopped =
    if named then if old then (crashed, false) else (alive, true) else (stopped, true)

abbrev viewed : Bool → Bool → DaemonView → DaemonView → DaemonView → DaemonView
viewed named old crashed alive stopped = if named then if old then crashed else alive else stopped

reported-viewed :
    (named old : Bool) (a b c : Text) (u v w : DaemonView)
    → u.running ≡ false
    → v.running ≡ true
    → (reported named old a b c).1 ≡ not (named && not (viewed named old u v w).running)
reported-viewed true true a b c u v w pu pv = sym (ap (λ r. not (not r)) pu)
reported-viewed true false a b c u v w pu pv = sym (ap (λ r. not (not r)) pv)
reported-viewed false old a b c u v w pu pv = refl

-- The report finds fault with the daemon exactly when its state says running and the view of
-- src/daemon.rs does not take it for running.
daemon_report-is_crashed :
    (o : Option DaemonStatus) (now : ℕ) → (daemon_report o now).1 ≡ not (is_crashed o now)
unfolding daemon_report from_status
daemon_report-is_crashed none now = refl
daemon_report-is_crashed (some s) now =
    reported-viewed (text_eq s.state (codes "running")) (daemon_is_stale s now stale_after_ns)
      (ended_line (codes "daemon: not responding (stale heartbeat; possible crash)"))
      (ended_line (codes "daemon: running (pid " ++ (decimal s.pid ++ codes ")")))
      (ended_line (codes "daemon: stopped"))
      (record { state = codes "not responding"; pid = some s.pid; running = false })
      (record { state = codes "running"; pid = some s.pid; running = true })
      (record { state = s.state; pid = some s.pid; running = false }) refl refl
