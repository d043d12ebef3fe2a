-- ===== src/Mutation/Disk.antt =====
-- What a mutation does to the file.
use periodic.Prelude.{
  ◌≡◌, refl, subst, Bool, true, false, Option, none, some, List, [], ◌∷◌, Text, if◌then◌else◌,
}
use periodic.Run.{Run, returns, ◌>>=◌, >>=-eq-returns, returns_injective}
use periodic.Chrono.{Chrono}
use periodic.Validation.Job.{Machine}
use periodic.Mutation.{
  Mutation, ApplyError, refused, system, Fallible, ok, err, Editor, File, render, validate, persist,
  apply_to_disk,
}

module _ (c : Chrono) (m : Machine) (e : Editor) where
  -- What is left after a mutation: an error and the file as it was, or the rendered text, which is
  -- valid, in the file.
  pub data Applied (f : File) (r : Fallible ApplyError Text)
      : Fallible ApplyError (Unit {0}) × File → Type 0 where
    untouched : (x : ApplyError) → Applied f r (err x, f)
    written :
        (t : Text)
        → r ≡ ok t
        → validate c m e t ≡ true
        → Applied f r (ok tt, record f { content = some t })

  persist-Applied : (f : File) (r : Fallible ApplyError Text) → Applied f r (persist c m e f r)
  persist-Applied f (err x) = untouched x
  persist-Applied f (ok t) = go (validate c m e t) f.writable refl
    where
      go :
          (v w : Bool)
          → validate c m e t ≡ v
          → Applied f (ok t) (
              if v
              then if w then (ok tt, record f { content = some t }) else (err system, f)
              else (err refused, f))
      go true true k = written t refl k
      go true false k = untouched system
      go false w k = untouched refused

  -- A mutation that returns either fails and leaves the file as it was, or writes the whole text that
  -- it renders, and only if that text parses and validates without errors.
  pub apply_to_disk-Applied :
      (f : File) (mutation : Mutation) (out : Fallible ApplyError (Unit {0}) × File)
      → apply_to_disk c m e f mutation ≡ returns out
      → (r : Fallible ApplyError Text) × ((render c m e f mutation ≡ returns r) × Applied f r out)
  unfolding apply_to_disk
  apply_to_disk-Applied f mutation out h =
      let (r, rendered, k) = >>=-eq-returns (render c m e f mutation) _ h in
      (r, (rendered, subst (Applied f r) (returns_injective k) (persist-Applied f r)))

  -- The text of the file is valid.
  abbrev pub IsGood : Option Text → Type 0
  IsGood none = Unit
  IsGood (some t) = validate c m e t ≡ true

  abbrev pub apply_all : List Mutation → File → Run File
  apply_all [] f = returns f
  apply_all (x ∷ xs) f = apply_to_disk c m e f x >>= λ r. apply_all xs r.1

  Applied-IsGood :
      (f : File) (r : Fallible ApplyError Text) (out : Fallible ApplyError (Unit {0}) × File)
      → Applied f r out
      → IsGood f.content
      → IsGood out.1.content
  Applied-IsGood f r out (untouched y) h = h
  Applied-IsGood f r out (written t k valid) h = valid

  -- A configuration that is valid, or cannot be read, stays so through every series of mutations
  -- that returns, with those that fail among them.
  pub apply_all-IsGood :
      (mutations : List Mutation) (f f' : File)
      → IsGood f.content
      → apply_all mutations f ≡ returns f'
      → IsGood f'.content
  apply_all-IsGood [] f f' h k = subst (λ g. IsGood g.content) (returns_injective k) h
  apply_all-IsGood (x ∷ xs) f f' h k =
      let (out, first, rest) = >>=-eq-returns (apply_to_disk c m e f x) _ k in
      let (r, (rendered, applied)) = apply_to_disk-Applied f x out first in
      apply_all-IsGood xs out.1 f' (Applied-IsGood f r out applied h) rest
