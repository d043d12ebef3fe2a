-- ===== src/Daemon/Loop.antt =====
-- src/daemon.rs: the scheduler loop with its shutdown, the reload and the start and end of the daemon.
-- What the other threads do and what the system answers is a script: for each round of the loop the
-- stop flag, the time, the runs that are done, the control event and, all at once, the statements of
-- the run threads.
pub mod Distinct
pub mod Life
pub mod Rounds
pub mod Views
pub mod Restart
mod Tests
use periodic.Prelude.{
  ℕ, zero, suc, ◌+◌, ◌*◌, ◌&&◌, Bool, true, false, not, Option, none, some, List, [], ◌∷◌, ◌++◌,
  Text, codes, text_eq, leb, if◌then◌else◌, unwrap_or, keep_if, all, map,
}
use periodic.Run.{Run, returns, stuck, ◌>>=◌}
use periodic.Config.Model.{RawConfig, EffectiveConfig, EffectiveJob}
use periodic.Config.Parse.{contains}
use periodic.Config.Normalize.{normalize}
use periodic.Chrono.{Chrono, second_ns}
use periodic.Scheduler.Table.{DueRun, Entry, next_wake, pop_due, build}
use periodic.Store.Model.{Store, Result, ok, err}
use periodic.Store.Runs.{recover_interrupted_runs}
use periodic.Store.Jobs.{reconcile}
use periodic.Store.Liveness.{
  DaemonStatus, daemon_is_stale, read_daemon_status, record_daemon_started, record_daemon_heartbeat,
  record_daemon_state,
}
use periodic.Validation.{accepts}
use periodic.Validation.Job.{Machine}
use periodic.Daemon.{RunHandle, stale_after_ns, sleep_until, dispatch_due, handle_missed_runs}

-- What `recv_timeout` returns; a reload comes with what it reads, the file and the time.
pub data Control : Type 0 where
  reload : (file : Option Text) (at : ℕ) → Control
  wake timed_out disconnected : Control

pub record Round : Type 0 where
  pub stop : Bool
  pub now : ℕ
  pub done : List Text
  pub woke : ℕ
  pub control : Control
  pub meanwhile : Store → Store

-- What a round has done: its due set, the runs it has started and the time it sleeps at most, in
-- milliseconds.
pub record Tick : Type 0 where
  pub beat : ℕ
  pub due : List DueRun
  pub started : List RunHandle
  pub slept : ℕ

pub record Daemon : Type 0 where
  pub store : Store
  pub table : List Entry
  pub runs : List RunHandle

-- `RunHandle::finished`, from the ids of the runs that are done.
abbrev pub finished : List Text → RunHandle → Bool
finished done h = contains done h.run_id

abbrev pub unfinished : List Text → List RunHandle → List RunHandle
unfinished done runs = keep_if (λ h. not (finished done h)) runs

abbrev pub active_jobs : List RunHandle → List Text
active_jobs runs = map (λ h. unwrap_or h.job.id []) runs

abbrev pub shutdown_grace_ns : ℕ
shutdown_grace_ns = 10 * second_ns

-- One look of `drain_runs` at the threads.
pub record Poll : Type 0 where
  pub instant : ℕ
  pub done : List Text

-- The wait of `drain_runs`, which is over when all are done or the grace period is.
unfoldable pub drain_wait : ℕ → List RunHandle → List Poll → Run (Unit {0})
drain_wait deadline runs [] = stuck
drain_wait deadline runs (p ∷ polls) =
    let again = drain_wait deadline runs polls in
    if all (finished p.done) runs
    then returns tt
    else if leb deadline p.instant
    then returns tt
    else again

-- `drain_runs`, with the runs that are done after the wait; the result is the runs it cancels.
unfoldable pub drain_runs : ℕ → List Poll → List Text → List RunHandle → Run (List RunHandle)
drain_runs start polls done [] = returns []
drain_runs start polls done (h ∷ runs) =
    drain_wait (start + shutdown_grace_ns) (h ∷ runs) polls >>= λ u.
    returns (unfinished done (h ∷ runs))

-- The times and answers after the loop.
pub record Shutdown : Type 0 where
  pub stopping : ℕ
  pub start : ℕ
  pub polls : List Poll
  pub done : List Text
  pub meanwhile : Store → Store
  pub stopped : ℕ

module _ (c : Chrono) (m : Machine) (sha : Text → Text) (fuel rounds : ℕ)
    (parse : Text → Option RawConfig) where
  abbrev pub validated : Option RawConfig → Option EffectiveConfig
  validated none = none
  validated (some raw) = if accepts c m raw then some (normalize raw) else none

  unfoldable pub load_validated_config : Option Text → Option EffectiveConfig
  load_validated_config none = none
  load_validated_config (some yaml) = validated (parse yaml)

  abbrev pub rebuild : Option EffectiveConfig → ℕ → Store → Run (Option (List Entry) × Store)
  rebuild none now s = returns (none, s)
  rebuild (some effective) now s = reconcile c fuel sha effective now s >>= λ r.
      build c fuel effective now >>= (λ table. returns (some table, r.1))

  -- `reload`.
  unfoldable pub reload_config : Option Text → ℕ → Store → Run (Option (List Entry) × Store)
  reload_config file now s = rebuild (load_validated_config file) now s

  -- What the loop does with a control event; it ends where the flag is false.
  unfoldable pub on_control : Control → Daemon → Run (Bool × Daemon)
  on_control (reload file at) d = reload_config file at d.store >>= λ r.
      returns (true, record d { store = r.1; table = unwrap_or r.0 d.table })
  on_control wake d = returns (true, d)
  on_control timed_out d = returns (true, d)
  on_control disconnected d = returns (false, d)

  abbrev pub dispatched : Round → Daemon → List DueRun × List Entry → Tick × Daemon
  dispatched r d (due, table) =
      let kept = unfinished r.done d.runs in
      let out =
        dispatch_due c sha due (active_jobs kept) r.now
          (record_daemon_heartbeat c r.now d.store).1 in
      (
        record {
          beat = r.now;
          due = due;
          started = out.0;
          slept = sleep_until (next_wake table) r.woke;
        },
        record { store = r.meanwhile out.1; table = table; runs = kept ++ out.0 },
      )

  -- The body of the loop.
  unfoldable pub one_round : Round → Daemon → Run (Tick × (Bool × Daemon))
  one_round r d = pop_due c fuel rounds r.now d.table >>= λ popped.
      on_control r.control (dispatched r d popped).1 >>= λ out.
      returns ((dispatched r d popped).0, out)

  abbrev pub carry_on :
      Tick
      → Bool × Daemon
      → (Daemon → Run (List Tick × (Bool × Daemon)))
      → Run (List Tick × (Bool × Daemon))
  carry_on tick (false, d) rest = returns (tick ∷ [], (false, d))
  carry_on tick (true, d) rest = rest d >>= λ out. returns (tick ∷ out.0, out.1)

  -- The `while` loop, as far as the script goes; the flag is false when it has ended.
  unfoldable pub scheduler_rounds : List Round → Daemon → Run (List Tick × (Bool × Daemon))
  scheduler_rounds [] d = returns ([], (true, d))
  scheduler_rounds (r ∷ script) d =
      let body =
        one_round r d >>= (λ out. carry_on out.0 out.1 (λ d'. scheduler_rounds script d')) in
      if r.stop then returns ([], (false, d)) else body

  abbrev pub wind_down :
      Shutdown → List Tick × (Bool × Daemon) → Run (List Tick × (List RunHandle × Store))
  wind_down sh (ticks, (true, d)) = stuck
  wind_down sh (ticks, (false, d)) = drain_runs sh.start sh.polls sh.done d.runs >>= λ cancelled.
      returns (
        ticks,
        (cancelled, sh.meanwhile (record_daemon_state c (codes "stopping") sh.stopping d.store).1),
      )

  -- `scheduler_loop`: what it did, the runs it cancelled and the store.
  unfoldable pub scheduler_loop :
      List Round → Shutdown → Daemon → Run (List Tick × (List RunHandle × Store))
  scheduler_loop script sh d = scheduler_rounds script d >>= wind_down sh

  abbrev pub serve_jobs :
      EffectiveConfig
      → ℕ
      → ℕ
      → List Round
      → Shutdown
      → Store
      → Run (List RunHandle × (List Tick × (List RunHandle × Store)))
  serve_jobs effective pid now script sh s = reconcile c fuel sha effective now s >>= λ projected.
      handle_missed_runs c sha fuel effective.jobs now
        (record_daemon_started c pid now
          (recover_interrupted_runs (c.show_instant c.utc now) projected.1).1).1
      >>= λ missed. build c fuel effective now >>= λ table.
          scheduler_loop script sh (record { store = missed.1; table = table; runs = missed.0 })
          >>= λ out. returns (
            missed.0,
            (out.0, (out.1.0, (record_daemon_state c (codes "stopped") sh.stopped out.1.1).1)),
          )

  -- `run_foreground`: the runs for missed occurrences, what the loop did, the runs it cancelled and
  -- the store; none where the configuration does not load, and nothing is written then.
  unfoldable pub run_foreground :
      Option Text
      → ℕ
      → ℕ
      → List Round
      → Shutdown
      → Store
      → Run (Option (List RunHandle × (List Tick × (List RunHandle × Store))))
  run_foreground file pid now script sh s = elim (load_validated_config file) [
    | none ↦ returns none
    | some effective ↦ serve_jobs effective pid now script sh s >>= λ out. returns (some out)
  ]

-- The test of `start` and `stop`.
abbrev pub is_live : DaemonStatus → ℕ → Bool
is_live status now =
    text_eq status.state (codes "running") && not (daemon_is_stale status now stale_after_ns)

-- What `start` does: it fails where the status cannot be read, refuses beside a live daemon, and
-- otherwise goes on to the foreground or to a detached process.
pub data Start : Type 0 where
  fails refuses goes_on : Start

abbrev pub start_from : Result (Option DaemonStatus) → ℕ → Start
start_from (err e) now = Start.fails
start_from (ok none) now = Start.goes_on
start_from (ok (some status)) now = if is_live status now then Start.refuses else Start.goes_on

unfoldable pub start : Chrono → Store → ℕ → Start
start c s now = start_from (read_daemon_status c s) now

-- What `stop` does before the kernel answers: nothing, or a signal to the recorded process.
pub data Stop : Type 0 where
  fails not_running : Stop
  signals : (pid : ℕ) (kill : Bool) → Stop

abbrev pub stop_from : Result (Option DaemonStatus) → Bool → ℕ → Stop
stop_from (err e) force now = Stop.fails
stop_from (ok none) force now = Stop.not_running
stop_from (ok (some status)) force now =
    if is_live status now then Stop.signals status.pid force else Stop.not_running

unfoldable pub stop : Chrono → Store → Bool → ℕ → Stop
stop c s force now = stop_from (read_daemon_status c s) force now
