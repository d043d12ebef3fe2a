-- ===== src/Doctor.antt =====
-- src/doctor.rs: the health report, its verdicts and the exit code.
pub mod Agrees
mod Tests
use periodic.Prelude.{
  ℕ, Bool, true, false, ◌&&◌, Option, none, some, [], ◌∷◌, ◌++◌, Text, codes, text_eq, decimal, ltb,
  leb, ◌==◌, if◌then◌else◌,
}
use periodic.Store.Liveness.{DaemonStatus, daemon_is_stale}
use periodic.Store.Model.{Result, ok, err}

-- `DbHealth` of src/state.rs; versions are not negative.
pub record DbHealth : Type 0 where
  pub path : Text
  pub schema_version : Option ℕ
  pub expected_version : ℕ

abbrev pub ended_line : Text → Text
ended_line s = s ++ (10 ∷ [])

-- `report`: the line and the verdict.
abbrev pub version_line : DbHealth → ℕ → Text
version_line h v =
    if v == h.expected_version
    then codes "state database: healthy at "
      ++ (h.path ++ (codes " (schema v" ++ (decimal v ++ codes ")")))
    else if ltb v h.expected_version
    then codes "state database: at "
      ++ (h.path
          ++ (codes ", schema v"
              ++ (decimal v
                  ++ (codes " will upgrade to v"
                      ++ (decimal h.expected_version ++ codes " on next use")))))
    else codes "state database: at "
      ++ (h.path
          ++ (codes ", schema v"
              ++ (decimal v
                  ++ (codes " is newer than this build (expected v"
                      ++ (decimal h.expected_version ++ codes "); upgrade periodic")))))

unfoldable pub report : DbHealth → Option ℕ → Text × Bool
report h none = (
  ended_line
      (codes "state database: not yet created at " ++ (h.path ++ codes " (created on first use)")),
  true,
)
report h (some v) = (ended_line (version_line h v), leb v h.expected_version)

-- `DAEMON_STALE_AFTER`, in nanoseconds.
abbrev pub daemon_stale_after : ℕ
daemon_stale_after = 90000000000

-- `daemon_report`.
unfoldable pub daemon_report : Option DaemonStatus → ℕ → Text × Bool
daemon_report none now = (ended_line (codes "daemon: not running"), true)
daemon_report (some s) now =
    if text_eq s.state (codes "running")
    then if daemon_is_stale s now daemon_stale_after
      then (ended_line (codes "daemon: not responding (stale heartbeat; possible crash)"), false)
      else (ended_line (codes "daemon: running (pid " ++ (decimal s.pid ++ codes ")")), true)
    else (ended_line (codes "daemon: stopped"), true)

-- The exit code and what is printed, when the status is there or is not asked for.
abbrev pub printed : Text × Bool → Text × Bool → Text × ℕ
printed health daemon = (health.0 ++ daemon.0, if health.1 && daemon.1 then 0 else 1)

abbrev pub with_status : DbHealth → Result (Option DaemonStatus) → ℕ → Result (Text × ℕ)
with_status h (err e) now = err e
with_status h (ok status) now = ok (printed (report h h.schema_version) (daemon_report status now))

-- The status is read only from a database that was created.
abbrev pub status_if_created :
    Option ℕ → Result (Option DaemonStatus) → Result (Option DaemonStatus)
status_if_created none status = ok none
status_if_created (some v) status = status

-- `run`, from what the inspection and the reading of the status return.
unfoldable pub run : Result DbHealth → Result (Option DaemonStatus) → ℕ → Result (Text × ℕ)
run (err e) status now = err e
run (ok h) status now = with_status h (status_if_created h.schema_version status) now
