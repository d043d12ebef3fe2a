-- ===== src/Executor/Ensures.antt =====
-- What successful statements do to the store, put together along a chain of statements.
use periodic.Prelude.{◌≡◌, refl, ap, subst, Bool, true, false, if◌then◌else◌}
use periodic.Run.{Run, returns, stuck, returns_injective}
use periodic.Store.Model.{Store, Result, ok, err, M}
use periodic.Executor.{X, after, ◌>>=◌, statement, done, waits}

-- A successful run of the statement leads from a store to a related one.
abbrev pub Ensures : {A : Type 0} → (Store → Store → Type 0) → X A → Type 0
Ensures {A} R m = (s s' : Store) (a : A) → m s ≡ returns (ok a, s') → R s s'

pub after-eq-ok :
    {A B : Type 0} (m : Run (Result A × Store)) (f : A → X B) {b : B} {s' : Store}
    → after m f ≡ returns (ok b, s')
    → (a : A) × (s : Store) × (m ≡ returns (ok a, s)) × (f a s ≡ returns (ok b, s'))
after-eq-ok stuck f h = cc
after-eq-ok (returns (ok a, s)) f h = (a, s, refl, h)
after-eq-ok (returns (err e, s)) f h = cc

pub Ensures->>= :
    {A B : Type 0} (P Q R : Store → Store → Type 0)
    → ((s t u : Store) → P s t → Q t u → R s u)
    → (m : X A) (f : A → X B) → Ensures P m
    → ((a : A) → Ensures Q (f a))
    → Ensures R (m >>= f)
Ensures->>= P Q R join m f hm hf s s' b h =
    let (a, t, first, second) = after-eq-ok (m s) f h in
    join s t s' (hm s t a first) (hf a t s' b second)

pub Ensures-statement :
    {A : Type 0} (R : Store → Store → Type 0) (m : M A)
    → ((s : Store) (a : A) → (m s).0 ≡ ok a → R s (m s).1)
    → Ensures R (statement m)
Ensures-statement R m hm s s' a h =
    let e = returns_injective h in subst (λ t. R s t) (ap (λ p. p.1) e) (hm s a (ap (λ p. p.0) e))

pub Ensures-done :
    {A : Type 0} (R : Store → Store → Type 0) (a : A) → ((s : Store) → R s s) → Ensures R (done a)
Ensures-done R a same s s' b h = subst (λ t. R s t) (ap (λ p. p.1) (returns_injective h)) (same s)

pub Ensures-waits :
    {A : Type 0} (R : Store → Store → Type 0) (r : Run A)
    → ((s : Store) → R s s)
    → Ensures R (waits r)
Ensures-waits R stuck same s s' b h = cc
Ensures-waits R (returns a) same s s' b h =
    subst (λ t. R s t) (ap (λ p. p.1) (returns_injective h)) (same s)

-- A statement that branches, of which a branch may fail.
pub ensures-if :
    {A : Type 0} (R : Store → Type 0) (b : Bool) (x y : Result A × Store) {a : A}
    → (x.0 ≡ ok a → R x.1)
    → (y.0 ≡ ok a → R y.1)
    → (if b then x else y).0 ≡ ok a
    → R (if b then x else y).1
ensures-if R true x y hx hy h = hx h
ensures-if R false x y hx hy h = hy h
