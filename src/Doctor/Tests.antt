-- ===== src/Doctor/Tests.antt =====
-- Examples of the health report.
use periodic.Prelude.{ℕ, ◌≡◌, refl, true, false, none, some, ◌++◌, codes, decimal}
use periodic.Store.Model.{ok}
use periodic.Doctor.{DbHealth, ended_line, report, daemon_report, run}

abbrev health : ℕ → DbHealth
health v = record { path = codes "db"; schema_version = some v; expected_version = 4 }

test_older :
    report (health 3) (some 3)
    ≡ (ended_line (codes "state database: at db, schema v3 will upgrade to v4 on next use"), true)
unfolding report decimal
test_older = refl

test_newer : (report (health 5) (some 5)).1 ≡ false
unfolding report
test_newer = refl

test_healthy :
    run (ok (health 4)) (ok none) 0
    ≡ ok (
      ended_line (codes "state database: healthy at db (schema v4)")
          ++ ended_line (codes "daemon: not running"),
      0,
    )
unfolding run report daemon_report decimal
test_healthy = refl
