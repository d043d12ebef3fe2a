-- ===== src/Store/Recovery.antt =====
-- Crash recovery: what `recover_interrupted_runs` leaves behind.
use periodic.Prelude.{◌≡◌, refl, Bool, Bool-cases, false, List, [], ◌∷◌, Text, All, inl, inr, some}
use periodic.Store.Model.{interrupted, RunRow, AttemptRow, Store, ok, update_where, count_where}
use periodic.Store.Runs.{recover_interrupted_runs, is_open, is_running}

module _ {ℓ} {A : Type ℓ} (p : A → Bool) (f : A → A) (closes : (x : A) → p (f x) ≡ false) where
  update_where-closes : (xs : List A) → All (λ x. p x ≡ false) (update_where p f xs)
  update_where-closes [] = tt
  update_where-closes (x ∷ xs) = elim (Bool-cases (p x)) [
    | inl open_x ↦ rw open_x (closes x, update_where-closes xs)
    | inr shut ↦ rw shut (shut, update_where-closes xs)
  ]

-- What holds of no row is changed in no row, and counted in none.
update_where-none {ℓ} :
    {A : Type ℓ} (p : A → Bool) (f : A → A) (xs : List A)
    → All (λ x. p x ≡ false) xs
    → (update_where p f xs ≡ xs) × (count_where p xs ≡ 0)
update_where-none p f [] h = (refl, refl)
update_where-none p f (x ∷ xs) h =
    let (same, zero_left) = update_where-none p f xs h.1 in (rw h.0 (rw same), rw h.0 zero_left)

-- After recovery no run is pending or running and no attempt is running.
pub recover-closed :
    (ts : Text) (s : Store)
    → All (λ r. is_open r.status ≡ false) (recover_interrupted_runs ts s).1.runs
      × All (λ a. is_running a.status ≡ false) (recover_interrupted_runs ts s).1.attempts
unfolding recover_interrupted_runs
recover-closed ts s = (
  update_where-closes (λ (r : RunRow). is_open r.status)
      (λ r. record r { status = interrupted; finished_at = some ts; updated_at = ts }) (λ r. refl)
      s.runs,
  update_where-closes (λ (a : AttemptRow). is_running a.status)
      (λ a. record a { status = interrupted; finished_at = some ts; updated_at = ts }) (λ a. refl)
      s.attempts,
)

-- Recovery closes every open run and attempt, and a second recovery, at any time, finds nothing to
-- interrupt and leaves the store as it is.
pub recover_interrupted_runs-again :
    (ts ts' : Text) (s : Store)
    → let t = (recover_interrupted_runs ts s).1 in
      All (λ r. is_open r.status ≡ false) t.runs
      × All (λ a. is_running a.status ≡ false) t.attempts
      × (recover_interrupted_runs ts' t ≡ (ok 0, t))
unfolding recover_interrupted_runs
recover_interrupted_runs-again ts ts' s =
    let t = (recover_interrupted_runs ts s).1 in
    let (runs, attempts) = recover-closed ts s in
    let r =
      update_where-none (λ (r : RunRow). is_open r.status)
        (λ r. record r { status = interrupted; finished_at = some ts'; updated_at = ts' }) t.runs
        runs in
    let a =
      update_where-none (λ (a : AttemptRow). is_running a.status)
        (λ a. record a { status = interrupted; finished_at = some ts'; updated_at = ts' })
        t.attempts attempts in
    (runs, attempts, λ i. (ok (r.1 i), record t { runs = r.0 i; attempts = a.0 i }))
