-- ===== src/Events.antt =====
-- src/events.rs: lifecycle events.
use periodic.Prelude.{ℕ, ◌+◌, Option, [], ◌∷◌, ◌++◌, Text, codes, decimal, unwrap_or}
use periodic.Chrono.{Chrono}
use periodic.Store.Model.{ok, M}

pub data EventKind : Type 0 where
  run_started attempt_started attempt_succeeded attempt_failed run_succeeded run_failed run_timeout
        run_cancelled :
      EventKind

abbrev pub kind_text : EventKind → Text
kind_text run_started = codes "run_started"
kind_text attempt_started = codes "attempt_started"
kind_text attempt_succeeded = codes "attempt_succeeded"
kind_text attempt_failed = codes "attempt_failed"
kind_text run_succeeded = codes "run_succeeded"
kind_text run_failed = codes "run_failed"
kind_text run_timeout = codes "run_timeout"
kind_text run_cancelled = codes "run_cancelled"

abbrev pub level : EventKind → Text
level attempt_failed = codes "error"
level run_failed = codes "error"
level run_timeout = codes "error"
level run_cancelled = codes "error"
level _ = codes "info"

module _ (c : Chrono) where
  abbrev pub event_id : Text → EventKind → ℕ → ℕ → Text
  event_id scope kind now seq =
      codes "ev-"
      ++ (scope
          ++ (codes "-"
              ++ (kind_text kind
                  ++ (codes "-" ++ (c.show_micros now ++ (codes "-" ++ decimal seq))))))

  unfoldable pub emit : EventKind → Text → Text → Option Text → Text → ℕ → M (Unit {0})
  emit kind job_id run_id attempt_id message now s = (
    ok tt,
    record s {
      events =
          s.events
          ++ (record {
            id = event_id (unwrap_or attempt_id run_id) kind now s.event_seq;
            job_id = job_id;
            run_id = run_id;
            attempt_id = attempt_id;
            level = level kind;
            event_type = kind_text kind;
            message = message;
            created_at = c.show_instant c.utc now;
          }
              ∷ []);
      event_seq = s.event_seq + 1;
    },
  )
