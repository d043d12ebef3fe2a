-- ===== src/Store/Jobs.antt =====
-- src/state.rs: the `jobs_state` projection, its outcome columns and the reads of it.
use periodic.Prelude.{
  ℕ, ◌+◌, Bool, true, false, Option, none, some, List, [], ◌∷◌, ◌++◌, Text, codes, text_eq, any,
  find, if◌then◌else◌, and_then,
}
use periodic.Run.{Run, returns, ◌>>=◌}
use periodic.Config.Model.{
  NormalizedSchedule, minute_aligned, hour_aligned, calendar, cron, EffectiveJob, EffectiveConfig,
}
use periodic.Config.Canonical.{job_config_hash}
use periodic.Chrono.{Chrono}
use periodic.Scheduler.Engine.{Occurrence}
use periodic.Scheduler.Table.{next_of}
use periodic.Store.Model.{JobRow, Store, ok, M, update_where}

abbrev pub job_is : Text → JobRow → Bool
job_is job_id row = text_eq row.job_id job_id

unfoldable pub schedule_kind : NormalizedSchedule → Text
schedule_kind (minute_aligned n) = codes "minute"
schedule_kind (hour_aligned n) = codes "hour"
schedule_kind (calendar days at timezone on_day last_day) = codes "calendar"
schedule_kind (cron expression timezone) = codes "cron"

-- The upsert: the outcome columns of an existing row stay.
unfoldable pub upsert_job :
    Text → Text → Text → Text → Option Text → Text → List JobRow → List JobRow
upsert_job job_id state config_hash kind next_run_at ts rows =
    if any (job_is job_id) rows
    then update_where (job_is job_id)
        (λ r. record r {
          state = state;
          config_hash = config_hash;
          schedule_kind = kind;
          next_run_at = next_run_at;
          updated_at = ts;
        })
        rows
    else rows
      ++ (record {
        job_id = job_id;
        state = state;
        config_hash = config_hash;
        schedule_kind = kind;
        next_run_at = next_run_at;
        last_run_id = none;
        last_success_at = none;
        last_failure_at = none;
        consecutive_failures = 0;
        updated_at = ts;
      }
          ∷ [])

-- Success zeroes the failures, failure counts one more; a job that is not there is no error.
unfoldable pub update_job_outcome : Text → Text → Bool → Text → M (Unit {0})
update_job_outcome job_id run_id true ts s = (
  ok tt,
  record s {
    jobs_state =
        update_where (job_is job_id)
          (λ r. record r {
            last_run_id = some run_id;
            last_success_at = some ts;
            consecutive_failures = 0;
            updated_at = ts;
          })
          s.jobs_state;
  },
)
update_job_outcome job_id run_id false ts s = (
  ok tt,
  record s {
    jobs_state =
        update_where (job_is job_id)
          (λ r. record r {
            last_run_id = some run_id;
            last_failure_at = some ts;
            consecutive_failures = r.consecutive_failures + 1;
            updated_at = ts;
          })
          s.jobs_state;
  },
)

unfoldable pub job_exists : Text → Store → Bool
job_exists job_id s = any (job_is job_id) s.jobs_state

unfoldable pub get_job_state : Text → Store → Option JobRow
get_job_state job_id s = find (job_is job_id) s.jobs_state

module _ (c : Chrono) (fuel : ℕ) (sha : Text → Text) where
  -- The last success as an instant; an unreadable one is none.
  unfoldable pub last_success_at : Text → Store → Option ℕ
  last_success_at job_id s =
      and_then (find (job_is job_id) s.jobs_state)
        (λ row. and_then row.last_success_at c.read_instant)

  abbrev pub show_next : Option (Occurrence c fuel) → Option Text
  show_next none = none
  show_next (some occ) = some (c.show_instant occ.zone occ.scheduled_for)

  -- `next_run_at` of a job, none if it is disabled.
  abbrev pub next_run_at : Text → EffectiveJob → ℕ → Run (Option Text)
  next_run_at job_id job now =
      let computed = next_of c fuel job_id job now >>= (λ o. returns (show_next o)) in
      if job.enabled then computed else returns none

  abbrev pub job_state_name : EffectiveJob → Text
  job_state_name job = if job.enabled then codes "active" else codes "disabled"

  abbrev pub project : Text → EffectiveJob → Text → Option Text → List JobRow → List JobRow
  project job_id job ts next rows =
      upsert_job job_id (job_state_name job) (job_config_hash sha job) (schedule_kind job.schedule)
        next ts rows

  abbrev pub reconcile_job :
      ℕ → EffectiveJob → Option Text → (ℕ × List JobRow) → Run (ℕ × List JobRow)
  reconcile_job now job none (count, rows) = returns (count, rows)
  reconcile_job now job (some job_id) (count, rows) = next_run_at job_id job now >>= λ next.
      returns (count + 1, project job_id job (c.show_instant c.utc now) next rows)

  -- The loop of `reconcile`, with the count and the rows so far.
  unfoldable pub reconcile_from : ℕ → List EffectiveJob → (ℕ × List JobRow) → Run (ℕ × List JobRow)
  reconcile_from now [] acc = returns acc
  reconcile_from now (job ∷ jobs) acc =
      reconcile_job now job job.id acc >>= (λ acc'. reconcile_from now jobs acc')

  unfoldable pub reconcile : EffectiveConfig → ℕ → Store → Run (ℕ × Store)
  reconcile config now s = reconcile_from now config.jobs (0, s.jobs_state) >>= λ acc.
      returns (acc.0, record s { jobs_state = acc.1 })
