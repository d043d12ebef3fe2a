-- ===== src/Daemon/Loop/Restart.antt =====
-- The commands that look at a daemon's status, `status`, `start` and `stop`, and what a daemon that has
-- ended leaves for them.
use periodic.Prelude.{
  ℕ, ◌≡◌, ◌≢◌, ◌↔◌, refl, ap, sym, subst, ◌∙◌, Bool, Bool-cases, true, false, not, ◌&&◌, Option,
  none, some, List, [], ◌∷◌, Text, codes, text_eq, text_eq_refl, inl, inr, if_true, if_false,
  unwrap_or, some_injective, parse_uint,
}
use periodic.Run.{returns, ◌>>=◌, >>=-eq-returns, returns_injective}
use periodic.Config.Model.{RawConfig, EffectiveConfig}
use periodic.Chrono.{Chrono}
use periodic.Scheduler.Table.{build}
use periodic.Store.Model.{KeyRow, Store, Result, ok, err}
use periodic.Store.Jobs.{reconcile}
use periodic.Store.Liveness.{
  key_row_is, upsert_key, lookup_key, put_daemon_state, DaemonStatus, i32_bound,
  record_daemon_state, status_of, status_from, read_daemon_status, daemon_is_stale,
}
use periodic.Validation.Job.{Machine}
use periodic.Daemon.{stale_after_ns, from_status, handle_missed_runs}
use periodic.Daemon.Loop.{
  Round, Shutdown, load_validated_config, scheduler_loop, serve_jobs, run_foreground, is_live,
  Start, start_from, start, Stop, stop_from, stop,
}
use periodic.Daemon.Loop.Life.{Life}
use periodic.Daemon.Loop.Views.{view, is_live-running}

start_from-running :
    (r : Result (Option DaemonStatus)) (now : ℕ)
    → (start_from r now ≡ Start.refuses) ↔ ((view r now).running ≡ true)
unfolding from_status
start_from-running (err e) now = (λ h. cc, λ h. cc)
start_from-running (ok none) now = (λ h. cc, λ h. cc)
start_from-running (ok (some status)) now = elim (Bool-cases (is_live status now)) [
  | inl live ↦
      (λ h. (is_live-running status now).0 ∙ live, λ h. if_true (is_live status now) _ _ live)
  | inr dead ↦
      let idle : start_from (ok (some status)) now ≡ Start.goes_on =
        if_false (is_live status now) _ _ dead in
      let same = (is_live-running status now).0 in (λ h. cc, λ h. cc)
]

stop_from-running :
    (r : Result (Option DaemonStatus)) (force : Bool) (now pid : ℕ)
    → (stop_from r force now ≡ Stop.signals pid force)
      ↔ (((view r now).running ≡ true) × ((view r now).pid ≡ some pid))
unfolding from_status
stop_from-running (err e) force now pid = (λ h. cc, λ (h, k). cc)
stop_from-running (ok none) force now pid = (λ h. cc, λ (h, k). cc)
stop_from-running (ok (some status)) force now pid = elim (Bool-cases (is_live status now)) [
  | inl live ↦
      let sent : stop_from (ok (some status)) force now ≡ Stop.signals status.pid force =
        if_true (is_live status now) _ _ live in
      let shows = is_live-running status now in
      let show_pid = shows.1 in
      (
        λ h. (shows.0 ∙ live, let e : status.pid ≡ pid = cc in show_pid ∙ ap some e),
        λ (h, k).
            let e : status.pid ≡ pid = some_injective (sym show_pid ∙ k) in
            sent ∙ ap (λ p. Stop.signals p force) e,
      )
  | inr dead ↦
      let idle : stop_from (ok (some status)) force now ≡ Stop.not_running =
        if_false (is_live status now) _ _ dead in
      let same = (is_live-running status now).0 in (λ h. cc, λ (h, k). cc)
]

-- `status`, `start` and `stop` agree on the daemon: a start is refused exactly when the status shows a
-- running daemon, and a stop signals a process exactly then, the one that the status shows.
pub start-agrees-stop :
    (c : Chrono) (s : Store) (force : Bool) (now pid : ℕ)
    → ((start c s now ≡ Start.refuses) ↔ ((view (read_daemon_status c s) now).running ≡ true))
      × ((stop c s force now ≡ Stop.signals pid force) ↔ (
          ((view (read_daemon_status c s) now).running ≡ true)
          × ((view (read_daemon_status c s) now).pid ≡ some pid)))
unfolding start stop
start-agrees-stop c s force now pid =
    let r = read_daemon_status c s in (start_from-running r now, stop_from-running r force now pid)

-- The state row that is written last is the one that is read.
lookup-upsert :
    (key value ts : Text) (rows : List KeyRow)
    → lookup_key key (upsert_key key value ts rows) ≡ some value
unfolding lookup_key upsert_key
lookup-upsert key value ts [] = let e = text_eq_refl key in rw e refl
lookup-upsert key value ts (row ∷ rows) = elim (Bool-cases (key_row_is key row)) [
  | inl hit ↦ rw hit (rw hit refl)
  | inr miss ↦ rw miss (rw miss (lookup-upsert key value ts rows))
]

not_running_state :
    (r : Result (Option DaemonStatus)) (now : ℕ)
    → ((status : DaemonStatus)
        → r ≡ ok (some status)
        → text_eq status.state (codes "running") ≡ false)
    → start_from r now ≢ Start.refuses
not_running_state (err e) now h k = cc
not_running_state (ok none) now h k = cc
not_running_state (ok (some status)) now h k =
    let dead : is_live status now ≡ false =
      ap (λ b. b && not (daemon_is_stale status now stale_after_ns)) (h status refl) in
    let idle : start_from (ok (some status)) now ≡ Start.goes_on =
      if_false (is_live status now) _ _ dead in
    cc

abbrev state_in : Result (Option DaemonStatus) → Text
state_in (err e) = []
state_in (ok none) = []
state_in (ok (some status)) = status.state

status_of-state :
    (pid : Option ℕ) (state : Text) (beat : Option ℕ) (p b : Text) (status : DaemonStatus)
    (c : Chrono)
    → status_of c pid state beat p b ≡ ok (some status)
    → status.state ≡ state
status_of-state none state beat p b status c h = cc
status_of-state (some pid) state none p b status c h = cc
status_of-state (some pid) state (some beat) p b status c h = sym (ap state_in h)

status_from-state :
    (c : Chrono) (o : Option Text) (rows : List KeyRow) (status : DaemonStatus)
    → status_from c o rows ≡ ok (some status)
    → status.state ≡ unwrap_or (lookup_key (codes "state") rows) []
status_from-state c none rows status h = cc
status_from-state c (some pid_text) rows status h =
    let state = unwrap_or (lookup_key (codes "state") rows) [] in
    let beat_text = unwrap_or (lookup_key (codes "heartbeat") rows) [] in
    status_of-state (parse_uint i32_bound pid_text) state (c.read_instant beat_text) pid_text
      beat_text status c h

stopped-starts :
    (c : Chrono) (at now : ℕ) (s : Store)
    → start c (record_daemon_state c (codes "stopped") at s).1 now ≢ Start.refuses
unfolding start record_daemon_state put_daemon_state read_daemon_status
stopped-starts c at now s =
    let t = (record_daemon_state c (codes "stopped") at s).1 in
    not_running_state (read_daemon_status c t) now (λ status h.
      let e : status.state ≡ codes "stopped" =
        status_from-state c (lookup_key (codes "pid") t.daemon_state) t.daemon_state status h
        ∙ ap (λ o. unwrap_or o [])
            (lookup-upsert (codes "state") (codes "stopped") _ s.daemon_state) in
      ap (λ t. text_eq t (codes "running")) e)

module _ (c : Chrono) (m : Machine) (sha : Text → Text) (fuel rounds : ℕ)
    (parse : Text → Option RawConfig) where
  serve_jobs-stopped :
      (effective : EffectiveConfig) (pid now : ℕ) (script : List Round) (sh : Shutdown) (s : Store)
      (life : Life c m sha fuel rounds parse)
      → serve_jobs c m sha fuel rounds parse effective pid now script sh s ≡ returns life
      → (t : Store) × (life.1.1.1 ≡ (record_daemon_state c (codes "stopped") sh.stopped t).1)
  serve_jobs-stopped effective pid now script sh s life h =
      let (projected, e1, k1) = >>=-eq-returns (reconcile c fuel sha effective now s) _ h in
      let (first, e2, k2) =
        >>=-eq-returns (handle_missed_runs c sha fuel effective.jobs now _) _ k1 in
      let (table, e3, k3) = >>=-eq-returns (build c fuel effective now) _ k2 in
      let (out, e4, k4) =
        >>=-eq-returns (scheduler_loop c m sha fuel rounds parse script sh _) _ k3 in
      (out.1.1, sym (ap (λ (x : Life c m sha fuel rounds parse). x.1.1.1) (returns_injective k4)))

  -- A daemon that has ended is not taken for a live one: after `run_foreground` has come to its end a
  -- start is not refused, at whatever time.
  pub run_foreground-start :
      (file : Option Text) (pid now : ℕ) (script : List Round) (sh : Shutdown) (s : Store)
      (life : Life c m sha fuel rounds parse) (later : ℕ)
      → run_foreground c m sha fuel rounds parse file pid now script sh s ≡ returns (some life)
      → start c life.1.1.1 later ≢ Start.refuses
  unfolding run_foreground
  run_foreground-start file pid now script sh s life later h =
      go (load_validated_config c m sha fuel rounds parse file) h
    where
      go :
          (o : Option EffectiveConfig)
          → (elim o [
            | none ↦ returns none
            | some effective ↦
                serve_jobs c m sha fuel rounds parse effective pid now script sh s >>= λ out.
                returns (some out)
          ])
            ≡ returns (some life)
          → start c life.1.1.1 later ≢ Start.refuses
      go none h = cc
      go (some effective) h =
          let (out, e, k) =
            >>=-eq-returns (serve_jobs c m sha fuel rounds parse effective pid now script sh s)
              (λ out. returns (some out)) h in
          let (t, same) = serve_jobs-stopped effective pid now script sh s out e in
          let same' : (record_daemon_state c (codes "stopped") sh.stopped t).1 ≡ life.1.1.1 =
            sym same
            ∙ ap (λ (x : Life c m sha fuel rounds parse). x.1.1.1)
                (some_injective (returns_injective k)) in
          subst (λ u. start c u later ≢ Start.refuses) same' (stopped-starts c sh.stopped later t)
