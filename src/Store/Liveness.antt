-- ===== src/Store/Liveness.antt =====
-- src/state.rs: the `daemon_state` keys and the staleness of a heartbeat.
use periodic.Prelude.{
  ℕ, ◌+◌, ◌^◌, Bool, ◌&&◌, Option, none, some, List, [], ◌∷◌, ◌++◌, Text, codes, text_eq, ltb,
  parse_uint, decimal, if◌then◌else◌, unwrap_or,
}
use periodic.Chrono.{Chrono}
use periodic.Store.Model.{KeyRow, Store, no_row_updated, Result, ok, err, M, ◌>>◌}

abbrev pub key_row_is : Text → KeyRow → Bool
key_row_is key row = text_eq row.key key

unfoldable pub upsert_key : Text → Text → Text → List KeyRow → List KeyRow
upsert_key key value ts [] = record { key = key; value = value; updated_at = ts } ∷ []
upsert_key key value ts (row ∷ rows) =
    if key_row_is key row
    then record row { value = value; updated_at = ts } ∷ rows
    else row ∷ upsert_key key value ts rows

unfoldable pub lookup_key : Text → List KeyRow → Option Text
lookup_key key [] = none
lookup_key key (row ∷ rows) = if key_row_is key row then some row.value else lookup_key key rows

unfoldable pub put_daemon_state : Text → Text → Text → M (Unit {0})
put_daemon_state key value ts s =
    (ok tt, record s { daemon_state = upsert_key key value ts s.daemon_state })

-- The snapshot; the pid is a positive `i32` and the heartbeat an instant.
pub record DaemonStatus : Type 0 where
  pub pid : ℕ
  pub state : Text
  pub heartbeat : ℕ

abbrev pub i32_bound : ℕ
i32_bound = 2 ^ 31

module _ (c : Chrono) where
  abbrev pub stamp : ℕ → Text
  stamp now = c.show_instant c.utc now

  unfoldable pub record_daemon_started : ℕ → ℕ → M (Unit {0})
  unfolding put_daemon_state
  record_daemon_started pid now = do
    put_daemon_state (codes "pid") (decimal pid) (stamp now)
    put_daemon_state (codes "state") (codes "running") (stamp now)
    put_daemon_state (codes "heartbeat") (stamp now) (stamp now)

  unfoldable pub record_daemon_heartbeat : ℕ → M (Unit {0})
  unfolding put_daemon_state
  record_daemon_heartbeat now = put_daemon_state (codes "heartbeat") (stamp now) (stamp now)

  unfoldable pub record_daemon_state : Text → ℕ → M (Unit {0})
  unfolding put_daemon_state
  record_daemon_state state now = put_daemon_state (codes "state") state (stamp now)

  abbrev pub status_of : Option ℕ → Text → Option ℕ → Text → Text → Result (Option DaemonStatus)
  status_of none state heartbeat pid_text beat_text =
      err (no_row_updated (codes "daemon pid " ++ pid_text))
  status_of (some pid) state none pid_text beat_text =
      err (no_row_updated (codes "daemon heartbeat " ++ beat_text))
  status_of (some pid) state (some heartbeat) pid_text beat_text =
      ok (some (record { pid = pid; state = state; heartbeat = heartbeat }))

  abbrev pub status_from : Option Text → List KeyRow → Result (Option DaemonStatus)
  status_from none rows = ok none
  status_from (some pid_text) rows =
      let beat_text = unwrap_or (lookup_key (codes "heartbeat") rows) [] in
      status_of (parse_uint i32_bound pid_text) (unwrap_or (lookup_key (codes "state") rows) [])
        (c.read_instant beat_text) pid_text beat_text

  unfoldable pub read_daemon_status : Store → Result (Option DaemonStatus)
  read_daemon_status s = status_from (lookup_key (codes "pid") s.daemon_state) s.daemon_state

-- `now - heartbeat > max_age`, with `max_age` in nanoseconds.
unfoldable pub daemon_is_stale : DaemonStatus → ℕ → ℕ → Bool
daemon_is_stale status now max_age =
    text_eq status.state (codes "running") && ltb (status.heartbeat + max_age) now
