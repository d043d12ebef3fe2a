-- ===== src/Daemon/Once.antt =====
-- The dispatch of due occurrences: which runs it starts, and that it starts none twice.
use periodic.Prelude.{ℕ, ◌≡◌, refl, ap, Option, none, some, List, [], ◌∷◌, Text, All, All-mono}
use periodic.Config.Parse.{contains}
use periodic.Config.Canonical.{job_config_hash}
use periodic.Chrono.{Chrono}
use periodic.Scheduler.Table.{DueRun}
use periodic.Store.Model.{scheduled, Store}
use periodic.Store.Keys.{Claimed, create_run-Claimed, Reach, Reach-Claimed}
use periodic.Daemon.{claimed_due, dispatch_one, dispatch_due}

module _ (c : Chrono) (sha : Text → Text) where
  dispatch_one-Claimed :
      (d : DueRun) (o : Option Text) (active : List Text) (now : ℕ) (s : Store)
      → Claimed d.occurrence_key s
      → dispatch_one c sha d o active now s ≡ ([], s)
  dispatch_one-Claimed d none active now s h = refl
  dispatch_one-Claimed d (some job_id) active now s h =
      ap (claimed_due c sha d.job job_id _ (contains active job_id) now)
        (create_run-Claimed d.occurrence_key _ job_id (job_config_hash sha d.job) scheduled _ s h)

  dispatch_due-Claimed :
      (due : List DueRun) (active : List Text) (now : ℕ) (s : Store)
      → All (λ d. Claimed d.occurrence_key s) due
      → dispatch_due c sha due active now s ≡ ([], s)
  unfolding dispatch_due
  dispatch_due-Claimed [] active now s h = refl
  dispatch_due-Claimed (d ∷ due) active now s h =
      rw (dispatch_one-Claimed d d.job.id active now s h.0)
        (rw (dispatch_due-Claimed due active now s h.1) refl)

  -- Due occurrences whose keys are all claimed are not dispatched again, after any statements on
  -- the store, at any time and whatever jobs are active: no run is started and nothing is written.
  pub dispatch_due-again :
      (due : List DueRun) (active : List Text) (now : ℕ) (s t : Store)
      → All (λ d. Claimed d.occurrence_key s) due
      → Reach s t
      → dispatch_due c sha due active now t ≡ ([], t)
  dispatch_due-again due active now s t h r = dispatch_due-Claimed due active now t (
      All-mono (λ d. Claimed d.occurrence_key s) (λ d. Claimed d.occurrence_key t)
        (λ d k. Reach-Claimed d.occurrence_key r k) due h)
