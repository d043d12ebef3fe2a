-- ===== src/Daemon/Rows.antt =====
-- The rows that the dispatches of the daemon claim.
use periodic.Prelude.{
  ℕ, ◌≡◌, refl, ap, sym, subst, Bool, true, false, Option, none, some, List, [], ◌∷◌, ◌++◌, Text,
  codes,
}
use periodic.Config.Model.{EffectiveJob, MissedRunPolicy}
use periodic.Config.Parse.{contains}
use periodic.Config.Canonical.{job_config_hash}
use periodic.Chrono.{Chrono}
use periodic.Scheduler.Table.{DueRun}
use periodic.Store.Model.{Status, Trigger, scheduled, missed, Store, Result, ok, err}
use periodic.Store.Runs.{create_run}
use periodic.Store.Keys.{create, finish, Reach, here, next}
use periodic.Store.Rows.{Grows, Reach-Grows, Grows-append, create_run-Grows}
use periodic.Daemon.{
  RunHandle, rfc, claimed_due, dispatch_one, dispatch_due, missed_id, claimed_missed,
  dispatch_missed, skipped_missed, dispatch_all, apply_policy,
}

abbrev pub run_ids : List RunHandle → List Text
run_ids [] = []
run_ids (h ∷ runs) = h.run_id ∷ run_ids runs

run_ids-append : (xs ys : List RunHandle) → run_ids (xs ++ ys) ≡ run_ids xs ++ run_ids ys
run_ids-append [] ys = refl
run_ids-append (x ∷ xs) ys = ap (x.run_id ∷◌) (run_ids-append xs ys)

pub Grows-then :
    (s t u : Store) (xs ys : List RunHandle)
    → Grows s (run_ids xs) t
    → Grows t (run_ids ys) u
    → Grows s (run_ids (xs ++ ys)) u
Grows-then s t u xs ys a b =
    subst (λ ids. Grows s ids u) (sym (run_ids-append xs ys)) (Grows-append a b)

module _ (c : Chrono) (sha : Text → Text) where
  -- The result of a claim of the row `run_id`.
  abbrev Claim : Store → Text → Result Bool × Store → Type 1
  Claim s run_id r = Reach s r.1 × (r.0 ≡ ok true → Grows s (run_id ∷ []) r.1)

  create_run-Claim :
      (run_id job_id hash : Text) (trigger : Trigger) (key : Option Text) (ts : Text) (s : Store)
      → Claim s run_id (create_run run_id job_id hash trigger key ts s)
  create_run-Claim run_id job_id hash trigger key ts s =
      let made = create_run run_id job_id hash trigger key ts s in
      (
        next here (create run_id job_id hash trigger key ts),
        λ e. create_run-Grows run_id job_id hash trigger key ts s made.1 (λ i. (e i, made.1)),
      )

  claimed_due-Grows :
      (job : EffectiveJob) (job_id run_id : Text) (active : Bool) (now : ℕ) (s : Store)
      (r : Result Bool × Store)
      → Claim s run_id r
      → let out = claimed_due c sha job job_id run_id active now r in Grows s (run_ids out.0) out.1
  claimed_due-Grows job job_id run_id active now s (err e, t) h = Reach-Grows h.0
  claimed_due-Grows job job_id run_id active now s (ok false, t) h = Reach-Grows h.0
  claimed_due-Grows job job_id run_id true now s (ok true, t) h =
      Reach-Grows (next h.0 (finish run_id Status.skipped_overlap none none (rfc c sha now)))
  claimed_due-Grows job job_id run_id false now s (ok true, t) h = h.1 refl

  dispatch_one-Grows :
      (d : DueRun) (o : Option Text) (active : List Text) (now : ℕ) (s : Store)
      → let out = dispatch_one c sha d o active now s in Grows s (run_ids out.0) out.1
  dispatch_one-Grows d none active now s = Reach-Grows here
  dispatch_one-Grows d (some job_id) active now s =
      claimed_due-Grows d.job job_id _ (contains active job_id) now s _ (
        create_run-Claim (job_id ++ (codes "-" ++ c.show_micros now)) job_id
          (job_config_hash sha d.job) scheduled (some d.occurrence_key) (rfc c sha now) s)

  pub dispatch_due-Grows :
      (due : List DueRun) (active : List Text) (now : ℕ) (s : Store)
      → let out = dispatch_due c sha due active now s in Grows s (run_ids out.0) out.1
  unfolding dispatch_due
  dispatch_due-Grows [] active now s = Reach-Grows here
  dispatch_due-Grows (d ∷ due) active now s =
      let one = dispatch_one c sha d d.job.id active now s in
      let rest = dispatch_due c sha due active now one.1 in
      Grows-then s one.1 rest.1 one.0 rest.0 (dispatch_one-Grows d d.job.id active now s)
        (dispatch_due-Grows due active now one.1)

  claimed_missed-Grows :
      (job : EffectiveJob) (run_id : Text) (s : Store) (r : Result Bool × Store)
      → Claim s run_id r
      → let out = claimed_missed c sha job run_id r in Grows s (run_ids out.0) out.1
  claimed_missed-Grows job run_id s (ok true, t) h = h.1 refl
  claimed_missed-Grows job run_id s (ok false, t) h = Reach-Grows h.0
  claimed_missed-Grows job run_id s (err e, t) h = Reach-Grows h.0

  skipped_missed-Grows :
      (run_id : Text) (now : ℕ) (s : Store) (r : Result Bool × Store)
      → Claim s run_id r
      → let out = skipped_missed c sha run_id now r in Grows s (run_ids out.0) out.1
  skipped_missed-Grows run_id now s (ok true, t) h =
      Reach-Grows (next h.0 (finish run_id Status.skipped none none (rfc c sha now)))
  skipped_missed-Grows run_id now s (ok false, t) h = Reach-Grows h.0
  skipped_missed-Grows run_id now s (err e, t) h = Reach-Grows h.0

  missed-Claim :
      (job : EffectiveJob) (job_id : Text) (o : Text × ℕ) (now : ℕ) (s : Store)
      → Claim s (missed_id c sha job_id o.1) (
          create_run
            (missed_id c sha job_id o.1)
            job_id
            (job_config_hash sha job)
            missed
            (some o.0)
            (rfc c sha now)
            s)
  missed-Claim job job_id o now s =
      create_run-Claim (missed_id c sha job_id o.1) job_id (job_config_hash sha job) missed
        (some o.0) (rfc c sha now) s

  dispatch_missed-Grows :
      (job : EffectiveJob) (job_id : Text) (o : Text × ℕ) (now : ℕ) (s : Store)
      → let out = dispatch_missed c sha job job_id o now s in Grows s (run_ids out.0) out.1
  unfolding dispatch_missed
  dispatch_missed-Grows job job_id (key, i) now s =
      claimed_missed-Grows job (missed_id c sha job_id i) s _
        (missed-Claim job job_id (key, i) now s)

  dispatch_all-Grows :
      (job : EffectiveJob) (job_id : Text) (occs : List (Text × ℕ)) (now : ℕ) (s : Store)
      → let out = dispatch_all c sha job job_id occs now s in Grows s (run_ids out.0) out.1
  unfolding dispatch_all
  dispatch_all-Grows job job_id [] now s = Reach-Grows here
  dispatch_all-Grows job job_id (o ∷ occs) now s =
      let one = dispatch_missed c sha job job_id o now s in
      let rest = dispatch_all c sha job job_id occs now one.1 in
      Grows-then s one.1 rest.1 one.0 rest.0 (dispatch_missed-Grows job job_id o now s)
        (dispatch_all-Grows job job_id occs now one.1)

  pub apply_policy-Grows :
      (policy : MissedRunPolicy) (job : EffectiveJob) (job_id : Text) (occs : List (Text × ℕ))
      (now : ℕ) (s : Store)
      → let out = apply_policy c sha policy job job_id occs now s in Grows s (run_ids out.0) out.1
  unfolding apply_policy
  apply_policy-Grows policy job job_id [] now s = Reach-Grows here
  apply_policy-Grows MissedRunPolicy.skip job job_id (o ∷ occs) now s =
      skipped_missed-Grows _ now s _ (missed-Claim job job_id _ now s)
  apply_policy-Grows MissedRunPolicy.run_once job job_id (o ∷ occs) now s =
      dispatch_missed-Grows job job_id _ now s
  apply_policy-Grows MissedRunPolicy.run_all job job_id (o ∷ occs) now s =
      dispatch_all-Grows job job_id (o ∷ occs) now s
