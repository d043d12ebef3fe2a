-- ===== src/Store/Runs.antt =====
-- src/state.rs: the writers of runs and attempts.
use periodic.Prelude.{
  ℕ, Bool, true, false, not, ◌&&◌, ◌||◌, Option, none, some, List, [], ◌∷◌, ◌++◌, Text, codes,
  text_eq, any, ◌==◌, if◌then◌else◌,
}
use periodic.Config.Model.{ℤ}
use periodic.Store.Model.{
  Status, pending, running, interrupted, Trigger, RunRow, AttemptRow, no_row_updated, constraint,
  ok, err, M, update_where, count_where,
}

abbrev pub has_id : Text → RunRow → Bool
has_id id row = text_eq row.id id

abbrev pub key_is : Text → Option Text → Bool
key_is key none = false
key_is key (some k) = text_eq k key

abbrev pub has_key : Text → RunRow → Bool
has_key key row = key_is key row.occurrence_key

-- The partial unique index: a null key conflicts with nothing.
abbrev pub key_taken : Option Text → List RunRow → Bool
key_taken none rows = false
key_taken (some key) rows = any (has_key key) rows

abbrev pub new_run : Text → Text → Text → Trigger → Option Text → Text → RunRow
new_run id job_id config_hash trigger_type occurrence_key ts = record {
  id = id;
  job_id = job_id;
  config_hash = config_hash;
  trigger_type = trigger_type;
  status = pending;
  occurrence_key = occurrence_key;
  started_at = none;
  finished_at = none;
  exit_code = none;
  error = none;
  created_at = ts;
  updated_at = ts;
}

-- `on conflict(occurrence_key) do nothing` comes first; a repeated primary key is an error.
unfoldable pub create_run : Text → Text → Text → Trigger → Option Text → Text → M Bool
create_run id job_id config_hash trigger_type occurrence_key ts s =
    if key_taken occurrence_key s.runs
    then (ok false, s)
    else if any (has_id id) s.runs
    then (err constraint, s)
    else (
      ok true,
      record s {
        runs = s.runs ++ (new_run id job_id config_hash trigger_type occurrence_key ts ∷ []);
      },
    )

-- An update of the run `id`, which must exist.
unfoldable pub update_run : Text → (RunRow → RunRow) → M (Unit {0})
update_run id f s =
    if any (has_id id) s.runs
    then (ok tt, record s { runs = update_where (has_id id) f s.runs })
    else (err (no_row_updated (codes "run " ++ id)), s)

unfoldable pub mark_run_running : Text → Text → M (Unit {0})
mark_run_running id ts =
    update_run id (λ r. record r { status = running; started_at = some ts; updated_at = ts })

unfoldable pub finish_run : Text → Status → Option ℤ → Option Text → Text → M (Unit {0})
finish_run id status exit_code error ts = update_run id (λ r. record r {
  status = status;
  exit_code = exit_code;
  error = error;
  finished_at = some ts;
  updated_at = ts;
})

abbrev pub attempt_has_id : Text → AttemptRow → Bool
attempt_has_id id row = text_eq row.id id

abbrev pub same_attempt : Text → ℕ → AttemptRow → Bool
same_attempt run_id number row = text_eq row.run_id run_id && (row.attempt_number == number)

-- The primary key, the unique pair and the foreign key of `run_attempts`.
unfoldable pub start_attempt : Text → Text → ℕ → Option ℕ → Text → M (Unit {0})
start_attempt id run_id number pid ts s =
    if any (attempt_has_id id) s.attempts
      || (any (same_attempt run_id number) s.attempts || not (any (has_id run_id) s.runs))
    then (err constraint, s)
    else (
      ok tt,
      record s {
        attempts =
            s.attempts
            ++ (record {
              id = id;
              run_id = run_id;
              attempt_number = number;
              status = running;
              pid = pid;
              started_at = some ts;
              finished_at = none;
              exit_code = none;
              signal = none;
              error = none;
              created_at = ts;
              updated_at = ts;
            }
                ∷ []);
      },
    )

unfoldable pub update_attempt : Text → (AttemptRow → AttemptRow) → M (Unit {0})
update_attempt id f s =
    if any (attempt_has_id id) s.attempts
    then (ok tt, record s { attempts = update_where (attempt_has_id id) f s.attempts })
    else (err (no_row_updated (codes "attempt " ++ id)), s)

unfoldable pub start_attempt_pid : Text → ℕ → M (Unit {0})
start_attempt_pid id pid = update_attempt id (λ r. record r { pid = some pid })

unfoldable pub finish_attempt :
    Text → Status → Option ℤ → Option ℕ → Option Text → Text → M (Unit {0})
finish_attempt id status exit_code signal error ts = update_attempt id (λ r. record r {
  status = status;
  exit_code = exit_code;
  signal = signal;
  error = error;
  finished_at = some ts;
  updated_at = ts;
})

abbrev pub is_open : Status → Bool
is_open pending = true
is_open running = true
is_open _ = false

abbrev pub is_running : Status → Bool
is_running running = true
is_running _ = false

-- Returns how many runs were interrupted.
unfoldable pub recover_interrupted_runs : Text → M ℕ
recover_interrupted_runs ts s = (
  ok (count_where (λ r. is_open r.status) s.runs),
  record s {
    runs =
        update_where (λ r. is_open r.status)
          (λ r. record r { status = interrupted; finished_at = some ts; updated_at = ts }) s.runs;
    attempts =
        update_where (λ a. is_running a.status)
          (λ a. record a { status = interrupted; finished_at = some ts; updated_at = ts })
          s.attempts;
  },
)
