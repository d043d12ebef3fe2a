-- ===== src/Executor/Final.antt =====
-- What an executed run leaves in the table of runs.
use periodic.Prelude.{
  ℕ, ◌≡◌, refl, ap, ◌∙◌, subst, Bool, Bool-cases, true, false, Option, none, some, List, [], ◌∷◌,
  Text, any, find, inl, inr,
}
use periodic.Run.{returns, returns_injective}
use periodic.Config.Model.{ℤ, EffectiveJob}
use periodic.Chrono.{Chrono}
use periodic.Events.{emit}
use periodic.Store.Model.{Status, RunRow, Store, Result, ok, err, update_where}
use periodic.Store.Runs.{has_id, update_run, finish_run}
use periodic.Store.Jobs.{update_job_outcome}
use periodic.Executor.Wait.{Script}
use periodic.Executor.{
  RunStatus, RunOutcome, statement, done, is_success, run_event, status_of, status_text, rfc3339,
  finalize, Summary, ◌>>=◌, begin, conclude, outcome, job_id_of, attempt_loop, execute_run,
}
use periodic.Executor.Ensures.{Ensures, Ensures->>=, Ensures-statement, ensures-if, after-eq-ok}

find-update_where :
    (p : RunRow → Bool) (f : RunRow → RunRow) (rows : List RunRow)
    → ((r : RunRow) → p (f r) ≡ p r)
    → any p rows ≡ true
    → (r : RunRow) × (find p (update_where p f rows) ≡ some (f r))
find-update_where p f [] keeps h = cc
find-update_where p f (r ∷ rows) keeps h = elim (Bool-cases (p r)) [
  | inl hit ↦ (r, rw hit (rw (keeps r) (rw hit refl)))
  | inr miss ↦
      let (x, e) = find-update_where p f rows keeps (rw miss at h) in (x, rw miss (rw miss e))
]

-- The row of the run, as the run's end has left it.
pub record Closed (run_id : Text) (status : Status) (exit_code : Option ℤ) (ts : Text) (s : Store)
    : Type 0 where
  pub row : RunRow
  pub found : find (has_id run_id) s.runs ≡ some row
  pub has_status : row.status ≡ status
  pub has_exit_code : row.exit_code ≡ exit_code
  pub has_finished : row.finished_at ≡ some ts

module _ (run_id : Text) (status : Status) (exit_code : Option ℤ) (ts : Text) where
  finish_run-Closed :
      Ensures
        (λ s s'. Closed run_id status exit_code ts s')
        (statement (finish_run run_id status exit_code none ts))
  unfolding finish_run update_run
  finish_run-Closed =
      Ensures-statement (λ s s'. Closed run_id status exit_code ts s') _
        (λ s a h. elim (Bool-cases (any (has_id run_id) s.runs)) [
          | inl there ↦
              ensures-if (Closed run_id status exit_code ts) (any (has_id run_id) s.runs) _ _
                (λ ok'.
                  let (r, e) = find-update_where (has_id run_id) _ s.runs (λ r. refl) there in
                  record {
                    row = _;
                    found = e;
                    has_status = refl;
                    has_exit_code = refl;
                    has_finished = refl;
                  })
                (λ e. cc) h
          | inr missing ↦ cc
        ])

  -- Statements that do not write runs.
  Closed-keeps :
      (s s' : Store)
      → s'.runs ≡ s.runs
      → Closed run_id status exit_code ts s
      → Closed run_id status exit_code ts s'
  Closed-keeps s s' e k = record {
    row = k.row;
    found = ap (find (has_id run_id)) e ∙ k.found;
    has_status = k.has_status;
    has_exit_code = k.has_exit_code;
    has_finished = k.has_finished;
  }

abbrev pub KeepsRuns : Store → Store → Type 0
KeepsRuns s s' = s'.runs ≡ s.runs

update_job_outcome-KeepsRuns :
    (job_id run_id : Text) (b : Bool) (ts : Text)
    → Ensures KeepsRuns (statement (update_job_outcome job_id run_id b ts))
unfolding update_job_outcome
update_job_outcome-KeepsRuns job_id run_id true ts = Ensures-statement KeepsRuns _ (λ s a h. refl)
update_job_outcome-KeepsRuns job_id run_id false ts = Ensures-statement KeepsRuns _ (λ s a h. refl)

module _ (c : Chrono) where
  finalize-Closed :
      (job_id run_id : Text) (status : RunStatus) (exit_code : Option ℤ) (at : ℕ)
      → Ensures
          (λ s s'. Closed run_id (status_of status) exit_code (rfc3339 c at) s')
          (finalize c job_id run_id status exit_code at)
  unfolding finalize emit
  finalize-Closed job_id run_id status exit_code at =
      let Here = Closed run_id (status_of status) exit_code (rfc3339 c at) in
      let keeps = λ (s t u : Store) (x : Here t) (e : KeepsRuns t u).
        Closed-keeps run_id (status_of status) exit_code (rfc3339 c at) t u e x in
      Ensures->>= (λ s s'. Here s') KeepsRuns (λ s s'. Here s') keeps _ _
        (Ensures->>= (λ s s'. Here s') KeepsRuns (λ s s'. Here s') keeps _ _
          (finish_run-Closed run_id (status_of status) exit_code (rfc3339 c at))
          (λ a. update_job_outcome-KeepsRuns job_id run_id (is_success status) _))
        (λ a.
          Ensures-statement KeepsRuns
            (emit c (run_event status) job_id run_id none (status_text status) at) (λ s b h. refl))

  -- A run that is executed without a database error leaves its row with the status, the exit code and
  -- the finishing time that its outcome reports.
  pub execute_run-Closed :
      (job : EffectiveJob) (run_id : Text) (now : ℕ) (scripts : List Script) (run_finished : ℕ)
      (s s' : Store) (o : RunOutcome)
      → execute_run c job run_id now scripts run_finished s ≡ returns (ok o, s')
      → Closed run_id (status_of o.status) o.exit_code o.finished_at s'
  unfolding execute_run
  execute_run-Closed job run_id now scripts run_finished s s' o h =
      let (a, t, e1, rest) =
        after-eq-ok (begin c job run_id now s)
          (λ a.
            attempt_loop c job (job_id_of c job) run_id now 1 scripts
            >>= conclude c job run_id now run_finished)
          h in
      let (r, u, e2, ending) =
        after-eq-ok (attempt_loop c job (job_id_of c job) run_id now 1 scripts t)
          (conclude c job run_id now run_finished) rest in
      let (b, v, e3, last) =
        after-eq-ok (finalize c (job_id_of c job) run_id r.status r.exit_code run_finished u)
          (λ b. done (outcome c job run_id now run_finished r)) ending in
      let k = finalize-Closed (job_id_of c job) run_id r.status r.exit_code run_finished u v b e3 in
      reported r o v s' k last
    where
      reported :
          (r : Summary) (o : RunOutcome) (v s' : Store)
          → Closed run_id (status_of r.status) r.exit_code (rfc3339 c run_finished) v
          → done (outcome c job run_id now run_finished r) v ≡ returns (ok o, s')
          → Closed run_id (status_of o.status) o.exit_code o.finished_at s'
      reported r o v s' k last =
          subst {A = RunOutcome × Store}
            (λ p. Closed run_id (status_of p.0.status) p.0.exit_code p.0.finished_at p.1)
            (λ i. (value (returns_injective last i).0, (returns_injective last i).1)) k
        where
          value : Result RunOutcome → RunOutcome
          value (ok x) = x
          value (err e) = o
