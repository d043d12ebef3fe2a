-- ===== src/Commands.antt =====
-- src/main.rs: the commands, up to what they print. The exit code of a command that fails with an error
-- is the one that `main` gives it.
pub mod Modes
pub mod Edits
mod Tests
use periodic.Prelude.{
  ℕ, suc, ◌+◌, ◌&&◌, Bool, true, false, not, Option, none, some, is_some, List, [], ◌∷◌, ◌++◌, Text,
  codes, text_eq, is_empty, trim, find, any, if◌then◌else◌,
}
use periodic.Run.{Run, returns, stuck, ◌>>=◌}
use periodic.Config.Model.{RawConfig, EffectiveJob, EffectiveConfig}
use periodic.Config.Normalize.{normalize}
use periodic.Chrono.{Chrono}
use periodic.Diagnostics.{Diagnostic, is_error}
use periodic.Validation.{validate_config, accepts}
use periodic.Validation.Job.{Machine, is_kebab}
use periodic.Store.Model.{Store, Result}
use periodic.Store.Model as Store
use periodic.Store.Liveness.{DaemonStatus, read_daemon_status}
use periodic.Store.Jobs.{reconcile, job_exists}
use periodic.Executor.{RunStatus, RunOutcome, success, run_job}
use periodic.Executor.Wait.{Script}
use periodic.Mutation as Mutation
use periodic.Mutation.{
  Mutation, pause, resume, remove, add, replace, ApplyError, refused, system, Fallible, Editor,
  File, mutation_to_request, apply_to_disk,
}
use periodic.Ipc.{
  Request, Response, ok, err, Codec, write_message, read_message, received, serve_connection,
}
use periodic.Ipc.Handler.{Shared, ipc_handler}
use periodic.JobBlock.{JobsAddArgs, derive_id, build_block}
use periodic.JobsEdit as JobsEdit
use periodic.JobsEdit.{
  Editing, EditResult, Parsed, edited, no_change, aborted, failed, run_edit_loop,
}

-- The `Outcome` of a mutation, or an error.
pub data Dispatched : Type 0 where
  applied declined fails : Dispatched

-- A recorded state of the daemon that says that it runs; none where it cannot be read.
abbrev pub claims_running : Result (Option DaemonStatus) → Option Bool
claims_running (Store.err e) = none
claims_running (Store.ok none) = some false
claims_running (Store.ok (some status)) = some (text_eq status.state (codes "running"))

abbrev pub request_of : Mutation → Request
request_of mutation =
    let (method, params) = mutation_to_request mutation in
    record { id = method; method = method; params = params }

abbrev pub of_response : Option Response → Dispatched
of_response none = fails
of_response (some (ok id result)) = applied
of_response (some (err id code)) = declined

abbrev pub of_disk : Fallible ApplyError (Unit {0}) → Dispatched
of_disk (Mutation.ok u) = applied
of_disk (Mutation.err refused) = declined
of_disk (Mutation.err system) = fails

abbrev pub exit_code : Dispatched → ℕ
exit_code applied = 0
exit_code declined = 1
exit_code fails = 2

abbrev pub Call : Type 0
Call = Request → Shared → Run (Option Response × Shared)

-- `Client::call`, on a connection of its own to a daemon with this handler.
unfoldable pub daemon_call :
    Codec Request → Codec Response → (Request → Shared → Run (Response × Shared)) → Call
daemon_call req resp handler r s =
    serve_connection req resp handler (write_message req r) s >>= λ out.
    returns (received (read_message resp out.written), out.state)

module _ (c : Chrono) (m : Machine) (e : Editor) (call : Call) where
  abbrev pub dispatch_to : Option Bool → Mutation → Shared → Run (Dispatched × Shared)
  dispatch_to none mutation sh = returns (fails, sh)
  dispatch_to (some true) mutation sh =
      call (request_of mutation) sh >>= λ (r : Option Response × Shared).
      returns (of_response r.0, r.1)
  dispatch_to (some false) mutation sh =
      apply_to_disk c m e sh.file mutation >>= λ (r : Fallible ApplyError (Unit {0}) × File).
      returns (of_disk r.0, record sh { file = r.1 })

  unfoldable pub dispatch_mutation : Mutation → Store → Shared → Run (Dispatched × Shared)
  dispatch_mutation mutation s sh =
      dispatch_to (claims_running (read_daemon_status c s)) mutation sh

  abbrev pub exits : Run (Dispatched × Shared) → Run (ℕ × Shared)
  exits run = run >>= λ (d : Dispatched × Shared). returns (exit_code d.0, d.1)

  unfoldable pub run_jobs_set_enabled : Text → Bool → Store → Shared → Run (ℕ × Shared)
  run_jobs_set_enabled id enable s sh =
      exits (dispatch_mutation (if enable then resume id else pause id) s sh)

  unfoldable pub run_jobs_remove : Text → Store → Shared → Run (ℕ × Shared)
  run_jobs_remove id s sh = exits (dispatch_mutation (remove id) s sh)

  abbrev pub add_job : (Text → Bool) → JobsAddArgs → Option Text → Store → Shared → Run (ℕ × Shared)
  add_job parses_f64 args none s sh = returns (1, sh)
  add_job parses_f64 args (some id) s sh =
      let added = exits (dispatch_mutation (add (build_block parses_f64 id args)) s sh) in
      if is_kebab id then added else returns (1, sh)

  unfoldable pub run_jobs_add : (Text → Bool) → JobsAddArgs → Store → Shared → Run (ℕ × Shared)
  run_jobs_add parses_f64 args s sh =
      let added = add_job parses_f64 args (derive_id args) s sh in
      if not (is_some args.command)
      then returns (1, sh)
      else if not (is_some args.every) && not (is_some args.cron)
      then returns (1, sh)
      else added

  abbrev pub same_content : Option Text → Option Text → Bool
  same_content none none = true
  same_content none (some t) = false
  same_content (some s) none = false
  same_content (some s) (some t) = text_eq s t

  abbrev pub seed_of : Text → Option Text → Text
  seed_of scaffold none = scaffold
  seed_of scaffold (some s) = if is_empty (trim s) then scaffold else s

  -- After the editor; `before` is the file as it was when the edit began.
  abbrev pub after_edit : Option Text → EditResult → Store → Shared → Run (ℕ × Shared)
  after_edit before no_change s sh = returns (0, sh)
  after_edit before aborted s sh = returns (1, sh)
  after_edit before failed s sh = returns (2, sh)
  after_edit before (edited content) s sh =
      let replaced = exits (dispatch_mutation (replace content) s sh) in
      if same_content sh.file.content before then replaced else returns (1, sh)

  -- `run_jobs_edit`; others may change the file while the editor is open.
  unfoldable pub run_jobs_edit :
      (Text → Parsed)
      → (Diagnostic → Text)
      → Text
      → List (Text → Editing)
      → (Shared → Shared)
      → Store
      → Shared
      → Run (ℕ × Shared)
  run_jobs_edit parse message scaffold answers meanwhile s sh =
      run_edit_loop c m parse message (seed_of scaffold sh.file.content) answers >>= λ r.
      after_edit sh.file.content r s (meanwhile sh)

  -- `run_reload`, from the configuration on.
  abbrev pub ask_reload : Option Bool → Shared → Run (ℕ × Shared)
  ask_reload none sh = returns (2, sh)
  ask_reload (some false) sh = returns (0, sh)
  ask_reload (some true) sh =
      call (record { id = codes "reload"; method = codes "daemon.reload"; params = [] }) sh
      >>= λ (r : Option Response × Shared). returns (exit_code (of_response r.0), r.1)

  abbrev pub reload_parsed : Parsed → Store → Shared → Run (ℕ × Shared)
  reload_parsed (JobsEdit.err d) s sh = returns (1, sh)
  reload_parsed (JobsEdit.ok raw) s sh =
      let asked = ask_reload (claims_running (read_daemon_status c s)) sh in
      if accepts c m raw then asked else returns (1, sh)

  unfoldable pub run_reload : (Text → Parsed) → Store → Shared → Run (ℕ × Shared)
  run_reload parse s sh = elim sh.file.content [
    | none ↦ returns (2, sh)
    | some yaml ↦ reload_parsed (parse yaml) s sh
  ]

module _ (c : Chrono) (m : Machine) (parse : Text → Parsed) where
  abbrev pub diagnostics_of : Parsed → List Diagnostic
  diagnostics_of (JobsEdit.err d) = d ∷ []
  diagnostics_of (JobsEdit.ok raw) = validate_config c m raw

  -- The exit code of `run_validate`.
  unfoldable pub run_validate : Option Text → ℕ
  run_validate none = 2
  run_validate (some yaml) = if any is_error (diagnostics_of (parse yaml)) then 1 else 0

  module _ (fuel : ℕ) (sha : Text → Text) where
    abbrev pub exit_of_run : Result RunOutcome → ℕ
    exit_of_run (Store.err e) = 2
    exit_of_run (Store.ok outcome) = elim outcome.status [ success ↦ 0 | _ ↦ 1 ]

    abbrev pub job_is_named : Text → EffectiveJob → Bool
    job_is_named id job = elim job.id [ none ↦ false | some t ↦ text_eq t id ]

    abbrev pub run_found :
        Option EffectiveJob → EffectiveConfig → ℕ → List Script → ℕ → Store → Run (ℕ × Store)
    run_found none effective now scripts run_finished s = returns (2, s)
    run_found (some job) effective now scripts run_finished s =
        reconcile c fuel sha effective now s >>= λ (p : ℕ × Store).
        run_job c sha job now scripts run_finished p.1 >>= λ (r : Result RunOutcome × Store).
        returns (exit_of_run r.0, r.1)

    abbrev pub run_parsed : Text → Parsed → ℕ → List Script → ℕ → Store → Run (ℕ × Store)
    run_parsed id (JobsEdit.err d) now scripts run_finished s = returns (2, s)
    run_parsed id (JobsEdit.ok raw) now scripts run_finished s =
        let effective = normalize raw in
        let ran =
          run_found (find (job_is_named id) effective.jobs) effective now scripts run_finished s in
        if accepts c m raw then ran else returns (2, s)

    -- `run_jobs_run`: the exit code and the store.
    unfoldable pub run_jobs_run : Text → Option Text → ℕ → List Script → ℕ → Store → Run (ℕ × Store)
    run_jobs_run id none now scripts run_finished s = returns (2, s)
    run_jobs_run id (some yaml) now scripts run_finished s =
        run_parsed id (parse yaml) now scripts run_finished s
