-- ===== src/Daemon/Loop/Distinct.antt =====
-- The rows that the daemon's runs execute, over its whole life.
use periodic.Prelude.{
  ℕ, ◌≡◌, refl, ap, sym, subst, ◌∙◌, Bool, Bool-cases, true, false, Option, none, some, List, [],
  ◌∷◌, ◌++◌, Text, All, inl, inr, if_true, if_false,
}
use periodic.Run.{Run, returns, >>=-eq-returns, returns_injective}
use periodic.Config.Model.{RawConfig, EffectiveConfig}
use periodic.Chrono.{Chrono}
use periodic.Scheduler.Table.{DueRun, Entry, pop_due, build}
use periodic.Store.Model.{Store}
use periodic.Store.Jobs.{reconcile}
use periodic.Store.Liveness.{record_daemon_heartbeat, put_daemon_state}
use periodic.Store.Keys.{reconcile-runs, Reach, here}
use periodic.Store.Rows.{Grows, Reach-Grows, same_runs-Grows, Grows-append, Grows-later}
use periodic.Validation.Job.{Machine}
use periodic.Daemon.{dispatch_due}
use periodic.Daemon.Rows.{run_ids, Grows-then, dispatch_due-Grows}
use periodic.Daemon.Loop.{
  Control, reload, wake, timed_out, disconnected, Round, Tick, Daemon, unfinished, active_jobs,
  rebuild, load_validated_config, reload_config, on_control, dispatched, one_round, carry_on,
  scheduler_rounds,
}

-- The ids of the runs that the rounds have started.
abbrev pub started_ids : List Tick → List Text
started_ids [] = []
started_ids (tick ∷ ticks) = run_ids tick.started ++ started_ids ticks

-- Statements of the other threads.
abbrev pub IsReach : (Store → Store) → Type 1
IsReach f = (s : Store) → Reach s (f s)

module _ (c : Chrono) (m : Machine) (sha : Text → Text) (fuel rounds : ℕ)
    (parse : Text → Option RawConfig) where
  pub reconcile-Grows :
      (config : EffectiveConfig) (now : ℕ) (s : Store) (r : ℕ × Store)
      → reconcile c fuel sha config now s ≡ returns r
      → Grows s [] r.1
  reconcile-Grows config now s r h =
      same_runs-Grows s r.1 (reconcile-runs c fuel sha config now s r h)

  rebuild-Grows :
      (o : Option EffectiveConfig) (now : ℕ) (s : Store) (r : Option (List Entry) × Store)
      → rebuild c m sha fuel rounds parse o now s ≡ returns r
      → Grows s [] r.1
  rebuild-Grows none now s r h =
      same_runs-Grows s r.1
        (sym (ap (λ (x : Option (List Entry) × Store). x.1.runs) (returns_injective h)))
  rebuild-Grows (some effective) now s r h =
      let (p, e, k) = >>=-eq-returns (reconcile c fuel sha effective now s) _ h in
      let (table, e', k') =
        >>=-eq-returns (build c fuel effective now) (λ table. returns (some table, p.1)) k in
      subst (λ (x : Option (List Entry) × Store). Grows s [] x.1) (returns_injective k')
        (reconcile-Grows effective now s p e)

  on_control-Grows :
      (control : Control) (d : Daemon) (out : Bool × Daemon)
      → on_control c m sha fuel rounds parse control d ≡ returns out
      → Grows d.store [] out.1.store
  unfolding on_control reload_config
  on_control-Grows (reload file at) d out h =
      let (r, e, k) =
        >>=-eq-returns (reload_config c m sha fuel rounds parse file at d.store) _ h in
      subst (λ (x : Bool × Daemon). Grows d.store [] x.1.store) (returns_injective k)
        (rebuild-Grows (load_validated_config c m sha fuel rounds parse file) at d.store r e)
  on_control-Grows wake d out h =
      subst (λ (x : Bool × Daemon). Grows d.store [] x.1.store) (returns_injective h)
        (Reach-Grows here)
  on_control-Grows timed_out d out h =
      subst (λ (x : Bool × Daemon). Grows d.store [] x.1.store) (returns_injective h)
        (Reach-Grows here)
  on_control-Grows disconnected d out h =
      subst (λ (x : Bool × Daemon). Grows d.store [] x.1.store) (returns_injective h)
        (Reach-Grows here)

  dispatched-Grows :
      (r : Round) (d : Daemon) (popped : List DueRun × List Entry)
      → IsReach r.meanwhile
      → let out = dispatched c m sha fuel rounds parse r d popped in
        Grows d.store (run_ids out.0.started) out.1.store
  unfolding record_daemon_heartbeat put_daemon_state
  dispatched-Grows r d (due, table) q =
      let active = active_jobs (unfinished r.done d.runs) in
      let beat = (record_daemon_heartbeat c r.now d.store).1 in
      let out = dispatch_due c sha due active r.now beat in
      let a : Grows d.store [] beat = same_runs-Grows d.store beat refl in
      let b = dispatch_due-Grows c sha due active r.now beat in
      Grows-later (Grows-then d.store beat out.1 [] out.0 a b) (Reach-Grows (q out.1))

  one_round-Grows :
      (r : Round) (d : Daemon) (out : Tick × (Bool × Daemon))
      → IsReach r.meanwhile
      → one_round c m sha fuel rounds parse r d ≡ returns out
      → Grows d.store (run_ids out.0.started) out.1.1.store
  unfolding one_round
  one_round-Grows r d out q h =
      let (popped, e, k) = >>=-eq-returns (pop_due c fuel rounds r.now d.table) _ h in
      let done = dispatched c m sha fuel rounds parse r d popped in
      let (after, e', k') =
        >>=-eq-returns (on_control c m sha fuel rounds parse r.control done.1)
          (λ out. returns (done.0, out)) k in
      subst (λ (x : Tick × (Bool × Daemon)). Grows d.store (run_ids x.0.started) x.1.1.store)
        (returns_injective k')
        (Grows-later (dispatched-Grows r d popped q) (on_control-Grows r.control done.1 after e'))

  carry_on-Grows :
      (s : Store) (tick : Tick) (out : Bool × Daemon)
      (rest : Daemon → Run (List Tick × (Bool × Daemon))) (ticks : List Tick) (last : Bool × Daemon)
      → Grows s (run_ids tick.started) out.1.store
      → ((ticks : List Tick)
          → rest out.1 ≡ returns (ticks, last)
          → Grows out.1.store (started_ids ticks) last.1.store)
      → carry_on c m sha fuel rounds parse tick out rest ≡ returns (ticks, last)
      → Grows s (started_ids ticks) last.1.store
  carry_on-Grows s tick (false, d) rest ticks last first later h =
      subst (λ (x : List Tick × (Bool × Daemon)). Grows s (started_ids x.0) x.1.1.store)
        (returns_injective h) (Grows-append first (Reach-Grows here))
  carry_on-Grows s tick (true, d) rest ticks last first later h =
      let (more, e, k) = >>=-eq-returns (rest d) (λ out. returns (tick ∷ out.0, out.1)) h in
      let same : more.1 ≡ last =
        ap (λ (x : List Tick × (Bool × Daemon)). x.1) (returns_injective k) in
      subst (λ (x : List Tick × (Bool × Daemon)). Grows s (started_ids x.0) x.1.1.store)
        (returns_injective k)
        (Grows-append first (
          subst (λ (x : Bool × Daemon). Grows d.store (started_ids more.0) x.1.store) (sym same)
            (later more.0 (e ∙ ap (λ x. returns (more.0, x)) same))))

  -- However many rounds of the loop there have been, every run that it has started executes a row of
  -- its own: the ids of the rows are different, none was in the store before, and all are there now.
  -- The other threads only execute writers of the store and events.
  pub scheduler_rounds-Grows :
      (script : List Round) (d : Daemon) (ticks : List Tick) (last : Bool × Daemon)
      → All (λ r. IsReach r.meanwhile) script
      → scheduler_rounds c m sha fuel rounds parse script d ≡ returns (ticks, last)
      → Grows d.store (started_ids ticks) last.1.store
  unfolding scheduler_rounds one_round
  scheduler_rounds-Grows [] d ticks last q h =
      subst (λ (x : List Tick × (Bool × Daemon)). Grows d.store (started_ids x.0) x.1.1.store)
        (returns_injective h) (Reach-Grows here)
  scheduler_rounds-Grows (r ∷ script) d ticks last q h = elim (Bool-cases r.stop) [
    | inl stopped ↦
        subst (λ (x : List Tick × (Bool × Daemon)). Grows d.store (started_ids x.0) x.1.1.store)
          (returns_injective (sym (if_true r.stop _ _ stopped) ∙ h)) (Reach-Grows here)
    | inr goes_on ↦
        let h' = sym (if_false r.stop _ _ goes_on) ∙ h in
        let (out, e, k) = >>=-eq-returns (one_round c m sha fuel rounds parse r d) _ h' in
        carry_on-Grows d.store out.0 out.1 _ ticks last (one_round-Grows r d out q.0 e)
          (λ more e'. scheduler_rounds-Grows script out.1.1 more last q.1 e') k
  ]
