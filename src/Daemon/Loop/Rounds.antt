-- ===== src/Daemon/Loop/Rounds.antt =====
-- The rounds of the loop: what the table holds, what is due and how long the loop sleeps.
use periodic.Prelude.{
  ℕ, zero, suc, ◌≤◌, ◌≡◌, sym, subst, ◌∙◌, Bool, Bool-cases, true, false, Option, none, some, List,
  [], ◌∷◌, ◌++◌, Text, All, All-append, All-mono, inl, inr, if_true, if_false, unwrap_or, leb,
  arith,
}
use periodic.Run.{Run, returns, >>=-eq-returns, returns_injective}
use periodic.Config.Model.{RawConfig, EffectiveJob, EffectiveConfig}
use periodic.Chrono.{Chrono}
use periodic.Scheduler.Engine.{Occurrence}
use periodic.Scheduler.Table.{
  DueRun, Entry, due_of, next_of, push_next, pop_due_loop, pop_due, build, next_wake,
}
use periodic.Scheduler.Table.Order.{IsSorted, All-push, IsScheduled, build-IsSorted}
use periodic.Scheduler.Table.Due.{pop_due-later}
use periodic.Store.Model.{Store}
use periodic.Store.Jobs.{reconcile}
use periodic.Validation.Job.{Machine}
use periodic.Daemon.{heartbeat_interval_ms, sleep_until}
use periodic.Daemon.Loop.{
  Control, reload, wake, timed_out, disconnected, Round, Tick, Daemon, rebuild,
  load_validated_config, reload_config, on_control, dispatched, one_round, carry_on,
  scheduler_rounds,
}

-- A job that is enabled and has an id.
abbrev pub IsActive : EffectiveJob → Type 0
IsActive job = (job.enabled ≡ true) × ((id : Text) × (job.id ≡ some id))

-- What is due is due and of an active job, and the sleep ends in time for the next heartbeat.
pub record IsSound (tick : Tick) : Type 0 where
  pub on_time : All (λ d. d.scheduled_for ≤ tick.beat) tick.due
  pub active : All (λ d. IsActive d.job) tick.due
  pub beats : tick.slept ≤ heartbeat_interval_ms

-- A table in order, of active jobs.
abbrev pub IsTable : List Entry → Type 0
IsTable table = IsSorted table × All (λ e. IsActive e.job) table

sleep_until-le_interval : (o : Option ℕ) (now : ℕ) → sleep_until o now ≤ heartbeat_interval_ms
unfolding sleep_until
sleep_until-le_interval none now = omega arith
sleep_until-le_interval (some w) now = omega arith

module _ (c : Chrono) (fuel : ℕ) where
  push_next-All :
      (P : EffectiveJob → Type 0) (job : EffectiveJob) (o : Option (Occurrence c fuel))
      (heap : List Entry)
      → P job
      → All (λ e. P e.job) heap
      → All (λ e. P e.job) (push_next c fuel job o heap)
  push_next-All P job none heap p h = h
  push_next-All P job (some occ) heap p h = All-push (λ e. P e.job) _ heap p h

  pop_due_loop-All :
      (P : EffectiveJob → Type 0) (rounds now : ℕ) (heap heap' : List Entry) (acc due : List DueRun)
      → All (λ e. P e.job) heap
      → All (λ d. P d.job) acc
      → pop_due_loop c fuel rounds now heap acc ≡ returns (due, heap')
      → All (λ e. P e.job) heap' × All (λ d. P d.job) due
  unfolding pop_due_loop
  pop_due_loop-All P zero now heap heap' acc due a b h = cc
  pop_due_loop-All P (suc rounds) now [] heap' acc due a b h =
      subst (λ (x : List DueRun × List Entry). All (λ e. P e.job) x.1 × All (λ d. P d.job) x.0)
        (returns_injective h) (tt, b)
  pop_due_loop-All P (suc rounds) now (e ∷ heap) heap' acc due a b h =
      elim (Bool-cases (leb e.scheduled_for now)) [
        | inl is_due ↦
            let h' = sym (if_true (leb e.scheduled_for now) _ _ is_due) ∙ h in
            let (occ, f, k) =
              >>=-eq-returns (next_of c fuel (unwrap_or e.job.id []) e.job now) _ h' in
            pop_due_loop-All P rounds now (push_next c fuel e.job occ heap) heap'
              (acc ++ (due_of e ∷ [])) due (push_next-All P e.job occ heap a.0 a.1)
              (All-append (λ d. P d.job) acc (due_of e ∷ []) b (a.0, tt)) k
        | inr later ↦
            subst
              (λ (x : List DueRun × List Entry). All (λ e. P e.job) x.1 × All (λ d. P d.job) x.0)
              (returns_injective (sym (if_false (leb e.scheduled_for now) _ _ later) ∙ h)) (a, b)
      ]

  pop_due-IsTable :
      (rounds now : ℕ) (heap : List Entry) (popped : List DueRun × List Entry)
      → IsTable heap
      → pop_due c fuel rounds now heap ≡ returns popped
      → IsTable popped.1
        × (All (λ d. d.scheduled_for ≤ now) popped.0 × All (λ d. IsActive d.job) popped.0)
  unfolding pop_due
  pop_due-IsTable rounds now heap (due, heap') t h =
      let (sorted, ahead, on_time) = pop_due-later c fuel now rounds heap heap' due t.0 h in
      let (kept, active) = pop_due_loop-All IsActive rounds now heap heap' [] due t.1 tt h in
      ((sorted, kept), (on_time, active))

  build-IsTable :
      (config : EffectiveConfig) (now : ℕ) (heap : List Entry)
      → build c fuel config now ≡ returns heap
      → IsTable heap
  build-IsTable config now heap h =
      let (sorted, good) = build-IsSorted c fuel config now heap h in
      (
        sorted,
        All-mono (IsScheduled c fuel) (λ e. IsActive e.job) (λ e k. (k.enabled, (k.id, k.keyed)))
            heap good,
      )

module _ (c : Chrono) (m : Machine) (sha : Text → Text) (fuel rounds : ℕ)
    (parse : Text → Option RawConfig) where
  rebuild-IsTable :
      (o : Option EffectiveConfig) (now : ℕ) (s : Store) (old : List Entry)
      (r : Option (List Entry) × Store)
      → IsTable old
      → rebuild c m sha fuel rounds parse o now s ≡ returns r
      → IsTable (unwrap_or r.0 old)
  rebuild-IsTable none now s old r t h =
      subst (λ (x : Option (List Entry) × Store). IsTable (unwrap_or x.0 old)) (returns_injective h)
        t
  rebuild-IsTable (some effective) now s old r t h =
      let (p, e, k) = >>=-eq-returns (reconcile c fuel sha effective now s) _ h in
      let (table, e', k') =
        >>=-eq-returns (build c fuel effective now) (λ table. returns (some table, p.1)) k in
      subst (λ (x : Option (List Entry) × Store). IsTable (unwrap_or x.0 old))
        (returns_injective k') (build-IsTable c fuel effective now table e')

  on_control-IsTable :
      (control : Control) (d : Daemon) (out : Bool × Daemon)
      → IsTable d.table
      → on_control c m sha fuel rounds parse control d ≡ returns out
      → IsTable out.1.table
  unfolding on_control reload_config
  on_control-IsTable (reload file at) d out t h =
      let (r, e, k) =
        >>=-eq-returns (reload_config c m sha fuel rounds parse file at d.store) _ h in
      subst (λ (x : Bool × Daemon). IsTable x.1.table) (returns_injective k)
        (rebuild-IsTable (load_validated_config c m sha fuel rounds parse file) at d.store d.table r
          t e)
  on_control-IsTable wake d out t h =
      subst (λ (x : Bool × Daemon). IsTable x.1.table) (returns_injective h) t
  on_control-IsTable timed_out d out t h =
      subst (λ (x : Bool × Daemon). IsTable x.1.table) (returns_injective h) t
  on_control-IsTable disconnected d out t h =
      subst (λ (x : Bool × Daemon). IsTable x.1.table) (returns_injective h) t

  one_round-IsTable :
      (r : Round) (d : Daemon) (out : Tick × (Bool × Daemon))
      → IsTable d.table
      → one_round c m sha fuel rounds parse r d ≡ returns out
      → IsSound out.0 × IsTable out.1.1.table
  unfolding one_round
  one_round-IsTable r d out t h =
      let (popped, e, k) = >>=-eq-returns (pop_due c fuel rounds r.now d.table) _ h in
      let done = dispatched c m sha fuel rounds parse r d popped in
      let (after, e', k') =
        >>=-eq-returns (on_control c m sha fuel rounds parse r.control done.1)
          (λ out. returns (done.0, out)) k in
      let (table, due) = pop_due-IsTable c fuel rounds r.now d.table popped t e in
      let sound : IsSound done.0 = record {
        on_time = due.0;
        active = due.1;
        beats = sleep_until-le_interval (next_wake popped.1) r.woke;
      } in
      subst (λ (x : Tick × (Bool × Daemon)). IsSound x.0 × IsTable x.1.1.table)
        (returns_injective k') (sound, on_control-IsTable r.control done.1 after table e')

  carry_on-IsTable :
      (tick : Tick) (out : Bool × Daemon) (rest : Daemon → Run (List Tick × (Bool × Daemon)))
      (res : List Tick × (Bool × Daemon))
      → IsSound tick × IsTable out.1.table
      → ((more : List Tick × (Bool × Daemon))
          → rest out.1 ≡ returns more
          → All IsSound more.0 × IsTable more.1.1.table)
      → carry_on c m sha fuel rounds parse tick out rest ≡ returns res
      → All IsSound res.0 × IsTable res.1.1.table
  carry_on-IsTable tick (false, d) rest res t later h =
      subst (λ (x : List Tick × (Bool × Daemon)). All IsSound x.0 × IsTable x.1.1.table)
        (returns_injective h) ((t.0, tt), t.1)
  carry_on-IsTable tick (true, d) rest res t later h =
      let (more, e, k) = >>=-eq-returns (rest d) (λ out. returns (tick ∷ out.0, out.1)) h in
      let (sound, table) = later more e in
      subst (λ (x : List Tick × (Bool × Daemon)). All IsSound x.0 × IsTable x.1.1.table)
        (returns_injective k) ((t.0, sound), table)

  -- From a table in order of enabled jobs with ids, however many rounds there are, with reloads that
  -- succeed or fail: each round dispatches only occurrences that are due, of enabled jobs with ids,
  -- and sleeps no longer than the heartbeat interval, and the table stays such a table.
  pub scheduler_rounds-IsTable :
      (script : List Round) (d : Daemon) (res : List Tick × (Bool × Daemon))
      → IsTable d.table
      → scheduler_rounds c m sha fuel rounds parse script d ≡ returns res
      → All IsSound res.0 × IsTable res.1.1.table
  unfolding scheduler_rounds
  scheduler_rounds-IsTable [] d res t h =
      subst (λ (x : List Tick × (Bool × Daemon)). All IsSound x.0 × IsTable x.1.1.table)
        (returns_injective h) (tt, t)
  scheduler_rounds-IsTable (r ∷ script) d res t h = elim (Bool-cases r.stop) [
    | inl stopped ↦
        subst (λ (x : List Tick × (Bool × Daemon)). All IsSound x.0 × IsTable x.1.1.table)
          (returns_injective (sym (if_true r.stop _ _ stopped) ∙ h)) (tt, t)
    | inr goes_on ↦
        let (out, e, k) =
          >>=-eq-returns (one_round c m sha fuel rounds parse r d) _
            (sym (if_false r.stop _ _ goes_on) ∙ h) in
        carry_on-IsTable out.0 out.1 _ res (one_round-IsTable r d out t e)
          (λ more e'.
            scheduler_rounds-IsTable script out.1.1 more (one_round-IsTable r d out t e).1 e')
          k
  ]
