-- ===== src/Daemon/Loop/Life.antt =====
-- The rows that the runs of one daemon execute, from its start to its end.
use periodic.Prelude.{
  ℕ, ◌≡◌, refl, ap, sym, subst, ◌∙◌, Bool, Bool-cases, true, false, Option, none, some, List, [],
  ◌∷◌, ◌++◌, Text, codes, All, inl, inr, if_true, if_false, some_injective,
}
use periodic.Run.{returns, ◌>>=◌, >>=-eq-returns, returns_injective}
use periodic.Config.Model.{RawConfig, EffectiveJob, EffectiveConfig}
use periodic.Chrono.{Chrono}
use periodic.Scheduler.Table.{build}
use periodic.Store.Model.{Store}
use periodic.Store.Runs.{recover_interrupted_runs}
use periodic.Store.Jobs.{reconcile}
use periodic.Store.Liveness.{record_daemon_started, record_daemon_state, put_daemon_state}
use periodic.Store.Keys.{recover, here, next}
use periodic.Store.Rows.{Grows, Reach-Grows, same_runs-Grows, Grows-append, Grows-later}
use periodic.Validation.Job.{Machine}
use periodic.Daemon.{
  RunHandle, apply_policy, missed_occurrences, handle_missed_job, handle_missed_runs,
}
use periodic.Daemon.Rows.{run_ids, Grows-then, apply_policy-Grows}
use periodic.Daemon.Loop.Distinct.{started_ids, IsReach, reconcile-Grows, scheduler_rounds-Grows}
use periodic.Daemon.Loop.{
  Round, Tick, Daemon, Shutdown, load_validated_config, scheduler_rounds, drain_runs, wind_down,
  scheduler_loop, serve_jobs, run_foreground,
}

module _ (c : Chrono) (m : Machine) (sha : Text → Text) (fuel rounds : ℕ)
    (parse : Text → Option RawConfig) where
  handle_missed_job-Grows :
      (job : EffectiveJob) (o : Option Text) (now : ℕ) (s : Store) (out : List RunHandle × Store)
      → handle_missed_job c sha fuel job o now s ≡ returns out
      → Grows s (run_ids out.0) out.1
  handle_missed_job-Grows job none now s out h =
      subst (λ (x : List RunHandle × Store). Grows s (run_ids x.0) x.1) (returns_injective h)
        (Reach-Grows here)
  handle_missed_job-Grows job (some job_id) now s out h = elim (Bool-cases job.enabled) [
    | inl on ↦
        let h' = sym (if_true job.enabled _ _ on) ∙ h in
        let (occs, e, k) =
          >>=-eq-returns (missed_occurrences c sha fuel job job_id now s)
            (λ occs. returns (apply_policy c sha job.missed_run_policy job job_id occs now s)) h' in
        subst (λ (x : List RunHandle × Store). Grows s (run_ids x.0) x.1) (returns_injective k)
          (apply_policy-Grows c sha job.missed_run_policy job job_id occs now s)
    | inr off ↦
        subst (λ (x : List RunHandle × Store). Grows s (run_ids x.0) x.1)
          (returns_injective (sym (if_false job.enabled _ _ off) ∙ h)) (Reach-Grows here)
  ]

  handle_missed_runs-Grows :
      (jobs : List EffectiveJob) (now : ℕ) (s : Store) (out : List RunHandle × Store)
      → handle_missed_runs c sha fuel jobs now s ≡ returns out
      → Grows s (run_ids out.0) out.1
  unfolding handle_missed_runs
  handle_missed_runs-Grows [] now s out h =
      subst (λ (x : List RunHandle × Store). Grows s (run_ids x.0) x.1) (returns_injective h)
        (Reach-Grows here)
  handle_missed_runs-Grows (job ∷ jobs) now s out h =
      let (first, e, k) = >>=-eq-returns (handle_missed_job c sha fuel job job.id now s) _ h in
      let (others, e', k') =
        >>=-eq-returns (handle_missed_runs c sha fuel jobs now first.1)
          (λ (others : List RunHandle × Store). returns (first.0 ++ others.0, others.1)) k in
      subst (λ (x : List RunHandle × Store). Grows s (run_ids x.0) x.1) (returns_injective k')
        (Grows-then s first.1 others.1 first.0 others.0
          (handle_missed_job-Grows job job.id now s first e)
          (handle_missed_runs-Grows jobs now first.1 others e'))

  state-Grows :
      (state : Text) (now : ℕ) (s : Store) → Grows s [] (record_daemon_state c state now s).1
  unfolding record_daemon_state put_daemon_state
  state-Grows state now s = same_runs-Grows s (record_daemon_state c state now s).1 refl

  started-Grows : (pid now : ℕ) (s : Store) → Grows s [] (record_daemon_started c pid now s).1
  unfolding record_daemon_started put_daemon_state
  started-Grows pid now s = same_runs-Grows s (record_daemon_started c pid now s).1 refl

  -- What the daemon has started over its life.
  abbrev pub Life : Type 0
  Life = List RunHandle × (List Tick × (List RunHandle × Store))

  abbrev pub life_ids : Life → List Text
  life_ids life = run_ids life.0 ++ started_ids life.1.0

  wind_down-Grows :
      (sh : Shutdown) (last : List Tick × (Bool × Daemon))
      (out : List Tick × (List RunHandle × Store))
      → IsReach sh.meanwhile
      → wind_down c m sha fuel rounds parse sh last ≡ returns out
      → (out.0 ≡ last.0) × Grows last.1.1.store [] out.1.1
  wind_down-Grows sh (ticks, (true, d)) out q h = cc
  wind_down-Grows sh (ticks, (false, d)) out q h =
      let (cancelled, e, k) = >>=-eq-returns (drain_runs sh.start sh.polls sh.done d.runs) _ h in
      (
        sym (ap (λ (x : List Tick × (List RunHandle × Store)). x.0) (returns_injective k)),
        subst (λ (x : List Tick × (List RunHandle × Store)). Grows d.store [] x.1.1)
            (returns_injective k)
            (Grows-later (state-Grows (codes "stopping") sh.stopping d.store) (Reach-Grows (q _))),
      )

  scheduler_loop-Grows :
      (script : List Round) (sh : Shutdown) (d : Daemon)
      (out : List Tick × (List RunHandle × Store))
      → All (λ r. IsReach r.meanwhile) script
      → IsReach sh.meanwhile
      → scheduler_loop c m sha fuel rounds parse script sh d ≡ returns out
      → Grows d.store (started_ids out.0) out.1.1
  unfolding scheduler_loop
  scheduler_loop-Grows script sh d out q q' h =
      let (last, e, k) = >>=-eq-returns (scheduler_rounds c m sha fuel rounds parse script d) _ h in
      let (same, down) = wind_down-Grows sh last out q' k in
      subst (λ ids. Grows d.store (started_ids ids) out.1.1) (sym same)
        (Grows-later (scheduler_rounds-Grows c m sha fuel rounds parse script d last.0 last.1 q e)
          down)

  serve_jobs-Grows :
      (effective : EffectiveConfig) (pid now : ℕ) (script : List Round) (sh : Shutdown) (s : Store)
      (life : Life)
      → All (λ r. IsReach r.meanwhile) script
      → IsReach sh.meanwhile
      → serve_jobs c m sha fuel rounds parse effective pid now script sh s ≡ returns life
      → Grows s (life_ids life) life.1.1.1
  serve_jobs-Grows effective pid now script sh s life q q' h =
      let ts = c.show_instant c.utc now in
      let (projected, e1, k1) = >>=-eq-returns (reconcile c fuel sha effective now s) _ h in
      let recovered = (recover_interrupted_runs ts projected.1).1 in
      let begun = (record_daemon_started c pid now recovered).1 in
      let (first, e2, k2) =
        >>=-eq-returns (handle_missed_runs c sha fuel effective.jobs now begun) _ k1 in
      let (table, e3, k3) = >>=-eq-returns (build c fuel effective now) _ k2 in
      let d : Daemon = record { store = first.1; table = table; runs = first.0 } in
      let (out, e4, k4) =
        >>=-eq-returns (scheduler_loop c m sha fuel rounds parse script sh d) _ k3 in
      let before : Grows s [] begun =
        Grows-append (reconcile-Grows c m sha fuel rounds parse effective now s projected e1)
          (Grows-append (Reach-Grows (next here (recover ts))) (started-Grows pid now recovered)) in
      let early = handle_missed_runs-Grows effective.jobs now begun first e2 in
      let late =
        Grows-later (scheduler_loop-Grows script sh d out q q' e4)
          (state-Grows (codes "stopped") sh.stopped out.1.1) in
      subst (λ (x : Life). Grows s (life_ids x) x.1.1.1) (returns_injective k4)
        (Grows-append before (Grows-append early late))

  -- From the start of a daemon to its end, every run that it starts, for a missed occurrence or from
  -- the loop, executes a row of its own: the ids of the rows are different, none was in the store
  -- before, and all are there in the end. The other threads only execute writers of the store and of the
  -- events.
  pub run_foreground-Grows :
      (file : Option Text) (pid now : ℕ) (script : List Round) (sh : Shutdown) (s : Store)
      (life : Life)
      → All (λ r. IsReach r.meanwhile) script
      → IsReach sh.meanwhile
      → run_foreground c m sha fuel rounds parse file pid now script sh s ≡ returns (some life)
      → Grows s (life_ids life) life.1.1.1
  unfolding run_foreground
  run_foreground-Grows file pid now script sh s life q q' h =
      go (load_validated_config c m sha fuel rounds parse file) h
    where
      go :
          (o : Option EffectiveConfig)
          → (elim o [
            | none ↦ returns none
            | some effective ↦
                serve_jobs c m sha fuel rounds parse effective pid now script sh s >>= λ out.
                returns (some out)
          ])
            ≡ returns (some life)
          → Grows s (life_ids life) life.1.1.1
      go none h = cc
      go (some effective) h =
          let (out, e, k) =
            >>=-eq-returns (serve_jobs c m sha fuel rounds parse effective pid now script sh s)
              (λ out. returns (some out)) h in
          subst (λ (x : Life). Grows s (life_ids x) x.1.1.1) (some_injective (returns_injective k))
            (serve_jobs-Grows effective pid now script sh s out q q' e)
