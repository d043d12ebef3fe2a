-- ===== src/Daemon/Starts.antt =====
-- The runs that the dispatch of due occurrences starts.
use periodic.Prelude.{
  ℕ, ◌≡◌, refl, Bool, true, false, Option, none, some, List, [], ◌∷◌, ◌++◌, Text, codes, All,
  All-mono, All-append,
}
use periodic.Config.Model.{EffectiveJob}
use periodic.Config.Parse.{contains}
use periodic.Config.Canonical.{job_config_hash}
use periodic.Chrono.{Chrono}
use periodic.Scheduler.Table.{DueRun}
use periodic.Store.Model.{Status, scheduled, Store, Result, ok, err}
use periodic.Store.Runs.{create_run}
use periodic.Store.Keys.{
  Claimed, create_run-claims, create, finish, Reach, here, next, Reach-Claimed,
}
use periodic.Daemon.{RunHandle, rfc, claimed_due, dispatch_one, dispatch_due}

-- A run of the due occurrence: its job has an id and no run in flight, and its key is claimed.
pub record Starts (active : List Text) (t : Store) (h : RunHandle) (d : DueRun) : Type 0 where
  pub same_job : h.job ≡ d.job
  pub job_id : Text
  pub has_id : d.job.id ≡ some job_id
  pub idle : contains active job_id ≡ false
  pub claimed : Claimed d.occurrence_key t

-- A run of one of the due occurrences.
pub data StartsOne (active : List Text) (t : Store) (h : RunHandle) : List DueRun → Type 0 where
  first : {d : DueRun} {due : List DueRun} → Starts active t h d → StartsOne active t h (d ∷ due)
  other :
      {d : DueRun} {due : List DueRun} → StartsOne active t h due → StartsOne active t h (d ∷ due)

Reach-trans : {s t u : Store} → Reach s t → Reach t u → Reach s u
Reach-trans r here = r
Reach-trans r (next q st) = next (Reach-trans r q) st

Starts-Reach :
    (active : List Text) (t u : Store) (h : RunHandle) (d : DueRun)
    → Reach t u
    → Starts active t h d
    → Starts active u h d
Starts-Reach active t u h d r k = record {
  same_job = k.same_job;
  job_id = k.job_id;
  has_id = k.has_id;
  idle = k.idle;
  claimed = Reach-Claimed d.occurrence_key r k.claimed;
}

module _ (c : Chrono) (sha : Text → Text) where
  claimed_due-Reach :
      (job : EffectiveJob) (job_id run_id : Text) (active : Bool) (now : ℕ) (s : Store)
      (r : Result Bool × Store)
      → Reach s r.1
      → Reach s (claimed_due c sha job job_id run_id active now r).1
  claimed_due-Reach job job_id run_id active now s (err e, t) h = h
  claimed_due-Reach job job_id run_id active now s (ok false, t) h = h
  claimed_due-Reach job job_id run_id true now s (ok true, t) h =
      next h (finish run_id Status.skipped_overlap none none (rfc c sha now))
  claimed_due-Reach job job_id run_id false now s (ok true, t) h = h

  dispatch_one-Reach :
      (d : DueRun) (o : Option Text) (active : List Text) (now : ℕ) (s : Store)
      → Reach s (dispatch_one c sha d o active now s).1
  dispatch_one-Reach d none active now s = here
  dispatch_one-Reach d (some job_id) active now s =
      claimed_due-Reach d.job job_id _ (contains active job_id) now s _ (
        next here (
          create (job_id ++ (codes "-" ++ c.show_micros now)) job_id (job_config_hash sha d.job)
            scheduled (some d.occurrence_key) (rfc c sha now)))

  dispatch_due-Reach :
      (due : List DueRun) (active : List Text) (now : ℕ) (s : Store)
      → Reach s (dispatch_due c sha due active now s).1
  unfolding dispatch_due
  dispatch_due-Reach [] active now s = here
  dispatch_due-Reach (d ∷ due) active now s =
      Reach-trans (dispatch_one-Reach d d.job.id active now s) (dispatch_due-Reach due active now _)

  claimed_due-Starts :
      (d : DueRun) (job_id run_id : Text) (active : List Text) (b : Bool) (now : ℕ)
      (r : Result Bool × Store)
      → d.job.id ≡ some job_id
      → contains active job_id ≡ b
      → ((x : Bool) → r.0 ≡ ok x → Claimed d.occurrence_key r.1)
      → let out = claimed_due c sha d.job job_id run_id b now r in
        All (λ h. Starts active out.1 h d) out.0
  claimed_due-Starts d job_id run_id active b now (err e, t) i a k = tt
  claimed_due-Starts d job_id run_id active b now (ok false, t) i a k = tt
  claimed_due-Starts d job_id run_id active true now (ok true, t) i a k = tt
  claimed_due-Starts d job_id run_id active false now (ok true, t) i a k =
      (record { same_job = refl; job_id = job_id; has_id = i; idle = a; claimed = k true refl }, tt)

  dispatch_one-Starts :
      (d : DueRun) (o : Option Text) (active : List Text) (now : ℕ) (s : Store)
      → d.job.id ≡ o
      → All
          (λ h. Starts active (dispatch_one c sha d o active now s).1 h d)
          (dispatch_one c sha d o active now s).0
  dispatch_one-Starts d none active now s i = tt
  dispatch_one-Starts d (some job_id) active now s i =
      let made =
        create_run (job_id ++ (codes "-" ++ c.show_micros now)) job_id (job_config_hash sha d.job)
          scheduled (some d.occurrence_key) (rfc c sha now) s in
      claimed_due-Starts d job_id _ active (contains active job_id) now made i refl (λ x e.
        create_run-claims d.occurrence_key _ job_id (job_config_hash sha d.job) scheduled
          (rfc c sha now) s made.1 x (λ j. (e j, made.1)))

  -- Every run that `dispatch_due` starts is of a due occurrence whose job has an id and no run in
  -- flight, and when the dispatch is done the occurrence's key is claimed in the store.
  pub dispatch_due-StartsOne :
      (due : List DueRun) (active : List Text) (now : ℕ) (s : Store)
      → All
          (λ h. StartsOne active (dispatch_due c sha due active now s).1 h due)
          (dispatch_due c sha due active now s).0
  unfolding dispatch_due
  dispatch_due-StartsOne [] active now s = tt
  dispatch_due-StartsOne (d ∷ due) active now s =
      let one = dispatch_one c sha d d.job.id active now s in
      let rest = dispatch_due c sha due active now one.1 in
      All-append (λ h. StartsOne active rest.1 h (d ∷ due)) one.0 rest.0
        (All-mono (λ h. Starts active one.1 h d) (λ h. StartsOne active rest.1 h (d ∷ due))
          (λ h k.
            first
              (Starts-Reach active one.1 rest.1 h d (dispatch_due-Reach due active now one.1) k))
          one.0 (dispatch_one-Starts d d.job.id active now s refl))
        (All-mono (λ h. StartsOne active rest.1 h due) (λ h. StartsOne active rest.1 h (d ∷ due))
          (λ h k. other k) rest.0 (dispatch_due-StartsOne due active now one.1))
