-- ===== src/Store/Keys.antt =====
-- The dedupe gate of `create_run`: an occurrence key is claimed once, whatever happens in between.
use periodic.Prelude.{
  ℕ, ◌≡◌, refl, inl, inr, Bool, Bool-cases, true, false, not, ◌||◌, Option, some, List, [], ◌∷◌,
  ◌++◌, Text, text_eq, text_eq_refl, any, any-append, arith, sym, ◌∙◌, ap, if_true, if_false,
  if_same, subst,
}
use periodic.Run.{returns, >>=-eq-returns, returns_injective}
use periodic.Config.Model.{ℤ, EffectiveConfig}
use periodic.Chrono.{Chrono}
use periodic.Events.{EventKind, emit}
use periodic.Store.Model.{Status, Trigger, RunRow, AttemptRow, Store, Result, ok, update_where}
use periodic.Store.Runs.{
  has_id, has_key, key_taken, new_run, create_run, update_run, mark_run_running, finish_run,
  start_attempt, update_attempt, attempt_has_id, same_attempt, start_attempt_pid, finish_attempt,
  recover_interrupted_runs, is_open,
}
use periodic.Store.Jobs.{update_job_outcome, reconcile_from, reconcile}
use periodic.Store.Liveness.{put_daemon_state}

abbrev pub Claimed : Text → Store → Type 0
Claimed key s = any (has_key key) s.runs ≡ true

-- An update that leaves the keys alone.
pub any-update {ℓ} :
    {A : Type ℓ} (p q : A → Bool) (f : A → A) (xs : List A)
    → ((x : A) → q (f x) ≡ q x)
    → any q (update_where p f xs) ≡ any q xs
any-update p q f [] h = refl
any-update p q f (x ∷ xs) h = elim (Bool-cases (p x)) [
  | inl yes_p ↦ rw yes_p (rw (h x) (rw (any-update p q f xs h)))
  | inr no_p ↦ rw no_p (rw (any-update p q f xs h))
]

-- A key that is taken stops the insertion, and nothing is written.
pub create_run-Claimed :
    (key id job_id hash : Text) (trigger : Trigger) (ts : Text) (s : Store)
    → Claimed key s
    → create_run id job_id hash trigger (some key) ts s ≡ (ok false, s)
unfolding create_run
create_run-Claimed key id job_id hash trigger ts s h = if_true _ _ _ h

claims_row :
    (key id job_id hash : Text) (trigger : Trigger) (ts : Text) (rows : List RunRow)
    → any (has_key key) (rows ++ (new_run id job_id hash trigger (some key) ts ∷ [])) ≡ true
claims_row key id job_id hash trigger ts rows =
    any-append (has_key key) rows _
    ∙ (let self : text_eq key key ≡ true = text_eq_refl key in rw self (ground arith))

-- A call of `create_run` that returns has claimed its key, whether it inserted the row or found one.
pub create_run-claims :
    (key id job_id hash : Text) (trigger : Trigger) (ts : Text) (s t : Store) (b : Bool)
    → create_run id job_id hash trigger (some key) ts s ≡ (ok b, t)
    → Claimed key t
unfolding create_run
create_run-claims key id job_id hash trigger ts s t b h =
    elim (Bool-cases (any (has_key key) s.runs)) [
      | inl taken ↦
          let e = sym (if_true (any (has_key key) s.runs) _ _ taken) ∙ h in
          subst (λ u. Claimed key u) (ap (λ r. r.1) e) taken
      | inr free ↦
          let e = sym (if_false (any (has_key key) s.runs) _ _ free) ∙ h in
          elim (Bool-cases (any (has_id id) s.runs)) [
            | inl dup ↦ let e' = sym (if_true (any (has_id id) s.runs) _ _ dup) ∙ e in cc
            | inr fresh ↦
                let e' = sym (if_false (any (has_id id) s.runs) _ _ fresh) ∙ e in
                subst (λ u. Claimed key u) (ap (λ r. r.1) e')
                  (claims_row key id job_id hash trigger ts s.runs)
          ]
    ]

create_run-keeps :
    (key id job_id hash : Text) (trigger : Trigger) (k : Option Text) (ts : Text) (s : Store)
    → Claimed key s
    → Claimed key (create_run id job_id hash trigger k ts s).1
unfolding create_run
create_run-keeps key id job_id hash trigger k ts s h = elim (Bool-cases (key_taken k s.runs)) [
  | inl taken ↦ rw taken h
  | inr free ↦ rw free (elim (Bool-cases (any (has_id id) s.runs)) [
    | inl dup ↦ rw dup h
    | inr fresh ↦ rw fresh (any-append (has_key key) s.runs _ ∙ rw h)
  ])
]

update_run-keeps :
    (key id : Text) (f : RunRow → RunRow) (s : Store)
    → ((r : RunRow) → has_key key (f r) ≡ has_key key r)
    → Claimed key s
    → Claimed key (update_run id f s).1
unfolding update_run
update_run-keeps key id f s same h = elim (Bool-cases (any (has_id id) s.runs)) [
  | inl there ↦ rw there (any-update (has_id id) (has_key key) f s.runs same ∙ h)
  | inr missing ↦ rw missing h
]

-- One statement of the executor, the daemon or the command line: every writer of src/state.rs and
-- src/events.rs.
pub data Step (s : Store) : Store → Type 1 where
  create :
      (id job_id hash : Text) (trigger : Trigger) (key : Option Text) (ts : Text)
      → Step s (create_run id job_id hash trigger key ts s).1
  mark : (id ts : Text) → Step s (mark_run_running id ts s).1
  finish :
      (id : Text) (status : Status) (code : Option ℤ) (error : Option Text) (ts : Text)
      → Step s (finish_run id status code error ts s).1
  start :
      (id run_id : Text) (number : ℕ) (pid : Option ℕ) (ts : Text)
      → Step s (start_attempt id run_id number pid ts s).1
  set_pid : (id : Text) (pid : ℕ) → Step s (start_attempt_pid id pid s).1
  finish_try :
      (id : Text) (status : Status) (code : Option ℤ) (signal : Option ℕ) (error : Option Text)
      (ts : Text)
      → Step s (finish_attempt id status code signal error ts s).1
  recover : (ts : Text) → Step s (recover_interrupted_runs ts s).1
  outcome :
      (job_id run_id : Text) (b : Bool) (ts : Text)
      → Step s (update_job_outcome job_id run_id b ts s).1
  project :
      (c : Chrono) (fuel : ℕ) (sha : Text → Text) (config : EffectiveConfig) (now count : ℕ)
      {t : Store}
      → reconcile c fuel sha config now s ≡ returns (count, t)
      → Step s t
  put_state : (name value ts : Text) → Step s (put_daemon_state name value ts s).1
  event :
      (c : Chrono) (kind : EventKind) (job_id run_id : Text) (attempt_id : Option Text)
      (message : Text) (now : ℕ)
      → Step s (emit c kind job_id run_id attempt_id message now s).1

pub data Reach (s : Store) : Store → Type 1 where
  here : Reach s s
  next : {t u : Store} → Reach s t → Step t u → Reach s u

attempts-keep :
    (key id : Text) (f : AttemptRow → AttemptRow) (s : Store)
    → Claimed key s
    → Claimed key (update_attempt id f s).1
unfolding update_attempt
attempts-keep key id f s h = ground arith

pub start_attempt-runs :
    (id run_id : Text) (number : ℕ) (pid : Option ℕ) (ts : Text) (s : Store)
    → (start_attempt id run_id number pid ts s).1.runs ≡ s.runs
unfolding start_attempt
start_attempt-runs id run_id number pid ts s =
    if_same (λ (r : Result (Unit {0}) × Store). r.1.runs)
      (any (attempt_has_id id) s.attempts
        || (any (same_attempt run_id number) s.attempts || not (any (has_id run_id) s.runs)))
      refl refl

start-keeps :
    (key id run_id : Text) (number : ℕ) (pid : Option ℕ) (ts : Text) (s : Store)
    → Claimed key s
    → Claimed key (start_attempt id run_id number pid ts s).1
start-keeps key id run_id number pid ts s h =
    ap (any (has_key key)) (start_attempt-runs id run_id number pid ts s) ∙ h

outcome-keeps :
    (key job_id run_id : Text) (b : Bool) (ts : Text) (s : Store)
    → Claimed key s
    → Claimed key (update_job_outcome job_id run_id b ts s).1
unfolding update_job_outcome
outcome-keeps key job_id run_id true ts s h = h
outcome-keeps key job_id run_id false ts s h = h

-- What reconcile changes is not the runs.
pub reconcile-runs :
    (c : Chrono) (fuel : ℕ) (sha : Text → Text) (config : EffectiveConfig) (now : ℕ) (s : Store)
    (r : ℕ × Store)
    → reconcile c fuel sha config now s ≡ returns r
    → r.1.runs ≡ s.runs
unfolding reconcile
reconcile-runs c fuel sha config now s r h =
    let (acc, e, k) =
      >>=-eq-returns (reconcile_from c fuel sha now config.jobs (0, s.jobs_state)) _ h in
    sym (ap (λ (x : ℕ × Store). x.1.runs) (returns_injective k))

pub Step-Claimed : {s t : Store} (key : Text) → Step s t → Claimed key s → Claimed key t
unfolding mark_run_running finish_run start_attempt_pid finish_attempt recover_interrupted_runs emit
    put_daemon_state
Step-Claimed {s} key (create id job_id hash trigger k ts) h =
    create_run-keeps key id job_id hash trigger k ts s h
Step-Claimed {s} key (mark id ts) h = update_run-keeps key id _ s (λ r. refl) h
Step-Claimed {s} key (finish id status code error ts) h = update_run-keeps key id _ s (λ r. refl) h
Step-Claimed {s} key (start id run_id number pid ts) h = start-keeps key id run_id number pid ts s h
Step-Claimed {s} key (set_pid id pid) h = attempts-keep key id _ s h
Step-Claimed {s} key (finish_try id status code signal error ts) h = attempts-keep key id _ s h
Step-Claimed {s} key (recover ts) h =
    any-update (λ r. is_open r.status) (has_key key) _ s.runs (λ r. refl) ∙ h
Step-Claimed {s} key (outcome job_id run_id b ts) h = outcome-keeps key job_id run_id b ts s h
Step-Claimed {s} key (project c fuel sha config now count e) h =
    ap (any (has_key key)) (reconcile-runs c fuel sha config now s _ e) ∙ h
Step-Claimed {s} key (put_state name value ts) h = h
Step-Claimed {s} key (event c kind job_id run_id attempt_id message now) h = h

pub Reach-Claimed : {s t : Store} (key : Text) → Reach s t → Claimed key s → Claimed key t
Reach-Claimed key here h = h
Reach-Claimed key (next r st) h = Step-Claimed key st (Reach-Claimed key r h)

-- An occurrence runs at most once: after a call of `create_run` with its key has returned without
-- an error, and after any writers of the store and of the events, reconciling among them, every
-- further call with that key inserts nothing and says so.
pub create_run-once :
    (key id job_id hash : Text) (trigger : Trigger) (ts : Text) (s t u : Store) (b : Bool)
    (id' job_id' hash' : Text) (trigger' : Trigger) (ts' : Text)
    → create_run id job_id hash trigger (some key) ts s ≡ (ok b, t)
    → Reach t u
    → create_run id' job_id' hash' trigger' (some key) ts' u ≡ (ok false, u)
create_run-once key id job_id hash trigger ts s t u b id' job_id' hash' trigger' ts' first r =
    create_run-Claimed key id' job_id' hash' trigger' ts' u
      (Reach-Claimed key r (create_run-claims key id job_id hash trigger ts s t b first))
