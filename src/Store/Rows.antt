-- ===== src/Store/Rows.antt =====
-- The rows of the runs: no statement takes one away, and `create_run` adds one with a new id.
use periodic.Prelude.{
  ◌≡◌, refl, inl, inr, ◌≢◌, Bool, Bool-cases, true, false, Option, List, [], ◌∷◌, ◌++◌, Text,
  text_eq, text_eq_refl, any, any-append, arith, sym, ◌∙◌, ap, if_true, if_false, subst, All,
  All-mono, All-append,
}
use periodic.Validation.Ids.{AreDistinct}
use periodic.Store.Model.{Trigger, RunRow, AttemptRow, Store, ok}
use periodic.Store.Runs.{
  has_id, key_taken, new_run, create_run, update_run, mark_run_running, finish_run, update_attempt,
  start_attempt_pid, finish_attempt, recover_interrupted_runs, is_open,
}
use periodic.Store.Jobs.{update_job_outcome}
use periodic.Store.Liveness.{put_daemon_state}
use periodic.Events.{emit}
use periodic.Store.Keys.{
  any-update, start_attempt-runs, Step, create, mark, finish, start, set_pid, finish_try, recover,
  outcome, project, put_state, event, reconcile-runs, Reach, here, next,
}

abbrev pub HasRun : Text → Store → Type 0
HasRun id s = any (has_id id) s.runs ≡ true

create_run-keeps :
    (i id job_id hash : Text) (trigger : Trigger) (k : Option Text) (ts : Text) (s : Store)
    → HasRun i s
    → HasRun i (create_run id job_id hash trigger k ts s).1
unfolding create_run
create_run-keeps i id job_id hash trigger k ts s h = elim (Bool-cases (key_taken k s.runs)) [
  | inl taken ↦ rw taken h
  | inr free ↦ rw free (elim (Bool-cases (any (has_id id) s.runs)) [
    | inl dup ↦ rw dup h
    | inr fresh ↦ rw fresh (any-append (has_id i) s.runs _ ∙ rw h)
  ])
]

update_run-keeps :
    (i id : Text) (f : RunRow → RunRow) (s : Store)
    → ((r : RunRow) → has_id i (f r) ≡ has_id i r)
    → HasRun i s
    → HasRun i (update_run id f s).1
unfolding update_run
update_run-keeps i id f s same h = elim (Bool-cases (any (has_id id) s.runs)) [
  | inl there ↦ rw there (any-update (has_id id) (has_id i) f s.runs same ∙ h)
  | inr missing ↦ rw missing h
]

attempts-keep :
    (i id : Text) (f : AttemptRow → AttemptRow) (s : Store)
    → HasRun i s
    → HasRun i (update_attempt id f s).1
unfolding update_attempt
attempts-keep i id f s h = ground arith

outcome-keeps :
    (i job_id run_id : Text) (b : Bool) (ts : Text) (s : Store)
    → HasRun i s
    → HasRun i (update_job_outcome job_id run_id b ts s).1
unfolding update_job_outcome
outcome-keeps i job_id run_id true ts s h = h
outcome-keeps i job_id run_id false ts s h = h

Step-HasRun : {s t : Store} (i : Text) → Step s t → HasRun i s → HasRun i t
unfolding mark_run_running finish_run start_attempt_pid finish_attempt recover_interrupted_runs emit
    put_daemon_state
Step-HasRun {s} i (create id job_id hash trigger k ts) h =
    create_run-keeps i id job_id hash trigger k ts s h
Step-HasRun {s} i (mark id ts) h = update_run-keeps i id _ s (λ r. refl) h
Step-HasRun {s} i (finish id status code error ts) h = update_run-keeps i id _ s (λ r. refl) h
Step-HasRun {s} i (start id run_id number pid ts) h =
    ap (any (has_id i)) (start_attempt-runs id run_id number pid ts s) ∙ h
Step-HasRun {s} i (set_pid id pid) h = attempts-keep i id _ s h
Step-HasRun {s} i (finish_try id status code signal error ts) h = attempts-keep i id _ s h
Step-HasRun {s} i (recover ts) h =
    any-update (λ r. is_open r.status) (has_id i) _ s.runs (λ r. refl) ∙ h
Step-HasRun {s} i (outcome job_id run_id b ts) h = outcome-keeps i job_id run_id b ts s h
Step-HasRun {s} i (project c fuel sha config now count e) h =
    ap (any (has_id i)) (reconcile-runs c fuel sha config now s _ e) ∙ h
Step-HasRun {s} i (put_state name value ts) h = h
Step-HasRun {s} i (event c kind job_id run_id attempt_id message now) h = h

Reach-HasRun : {s t : Store} (i : Text) → Reach s t → HasRun i s → HasRun i t
Reach-HasRun i here h = h
Reach-HasRun i (next r st) h = Step-HasRun i st (Reach-HasRun i r h)

-- From `s` to `t` no row is lost, and the ids are of new rows, each of another.
pub record Grows (s : Store) (ids : List Text) (t : Store) : Type 0 where
  pub keeps : (i : Text) → HasRun i s → HasRun i t
  pub fresh : All (λ i. any (has_id i) s.runs ≡ false) ids
  pub there : All (λ i. HasRun i t) ids
  pub distinct : AreDistinct ids

pub Reach-Grows : {s t : Store} → Reach s t → Grows s [] t
Reach-Grows r = record { keeps = λ i h. Reach-HasRun i r h; fresh = tt; there = tt; distinct = tt }

pub same_runs-Grows : (s t : Store) → t.runs ≡ s.runs → Grows s [] t
same_runs-Grows s t e = record {
  keeps = λ i h. ap (any (has_id i)) e ∙ h;
  fresh = tt;
  there = tt;
  distinct = tt;
}

not_before :
    (s t : Store) (i : Text)
    → ((i : Text) → HasRun i s → HasRun i t)
    → any (has_id i) t.runs ≡ false
    → any (has_id i) s.runs ≡ false
not_before s t i keeps h = elim (Bool-cases (any (has_id i) s.runs)) [
  | inl was ↦ let k = keeps i was in cc
  | inr not_yet ↦ not_yet
]

AreDistinct-append :
    (xs ys : List Text)
    → AreDistinct xs
    → AreDistinct ys
    → All (λ x. All (λ y. x ≢ y) ys) xs
    → AreDistinct (xs ++ ys)
AreDistinct-append [] ys dx dy apart = dy
AreDistinct-append (x ∷ xs) ys dx dy apart =
    (All-append (λ y. x ≢ y) xs ys dx.0 apart.0, AreDistinct-append xs ys dx.1 dy apart.1)

pub Grows-append :
    {s t u : Store} {xs ys : List Text} → Grows s xs t → Grows t ys u → Grows s (xs ++ ys) u
Grows-append {s} {t} {u} {xs} {ys} a b = record {
  keeps = λ i h. b.keeps i (a.keeps i h);
  fresh =
      All-append (λ i. any (has_id i) s.runs ≡ false) xs ys a.fresh
        (All-mono (λ i. any (has_id i) t.runs ≡ false) (λ i. any (has_id i) s.runs ≡ false)
          (λ i h. not_before s t i a.keeps h) ys b.fresh);
  there =
      All-append (λ i. HasRun i u) xs ys
        (All-mono (λ i. HasRun i t) (λ i. HasRun i u) (λ i h. b.keeps i h) xs a.there) b.there;
  distinct = AreDistinct-append xs ys a.distinct b.distinct (
      All-mono (λ i. HasRun i t) (λ x. All (λ y. x ≢ y) ys)
        (λ x hx.
          All-mono (λ y. any (has_id y) t.runs ≡ false) (λ y. x ≢ y)
            (λ y hy e. let k = ap (λ i. any (has_id i) t.runs) e in cc) ys b.fresh)
        xs a.there);
}

pub Grows-later : {s t u : Store} {ids : List Text} → Grows s ids t → Grows t [] u → Grows s ids u
Grows-later {s} {t} {u} {ids} a b = record {
  keeps = λ i h. b.keeps i (a.keeps i h);
  fresh = a.fresh;
  there = All-mono (λ i. HasRun i t) (λ i. HasRun i u) (λ i h. b.keeps i h) ids a.there;
  distinct = a.distinct;
}

-- A row that `create_run` inserts has an id that was not there.
pub create_run-Grows :
    (id job_id hash : Text) (trigger : Trigger) (k : Option Text) (ts : Text) (s t : Store)
    → create_run id job_id hash trigger k ts s ≡ (ok true, t)
    → Grows s (id ∷ []) t
unfolding create_run
create_run-Grows id job_id hash trigger k ts s t e = record {
  keeps = keeps;
  fresh = (fresh, tt);
  there = (there, tt);
  distinct = (tt, tt);
}
  where
    keeps : (i : Text) → HasRun i s → HasRun i t
    keeps i h =
        subst (HasRun i) (ap (λ r. r.1) e) (create_run-keeps i id job_id hash trigger k ts s h)

    free : key_taken k s.runs ≡ false
    free = elim (Bool-cases (key_taken k s.runs)) [
      | inl taken ↦ let e' = sym (if_true (key_taken k s.runs) _ _ taken) ∙ e in cc
      | inr not_yet ↦ not_yet
    ]

    fresh : any (has_id id) s.runs ≡ false
    fresh = elim (Bool-cases (any (has_id id) s.runs)) [
      | inl dup ↦
          let e' =
            sym (if_true (any (has_id id) s.runs) _ _ dup)
            ∙ (sym (if_false (key_taken k s.runs) _ _ free) ∙ e) in
          cc
      | inr not_yet ↦ not_yet
    ]

    there : HasRun id t
    there =
        let e' =
          sym (if_false (any (has_id id) s.runs) _ _ fresh)
          ∙ (sym (if_false (key_taken k s.runs) _ _ free) ∙ e) in
        let self : text_eq id id ≡ true = text_eq_refl id in
        subst (HasRun id) (ap (λ r. r.1) e') (
          any-append (has_id id) s.runs (new_run id job_id hash trigger k ts ∷ [])
          ∙ rw self (ground arith))
