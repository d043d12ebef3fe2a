-- ===== src/Commands/Edits.antt =====
-- What `jobs edit` leaves in the file.
use periodic.Prelude.{
  ℕ, ◌≡◌, refl, ap, sym, ◌∙◌, subst, Bool-cases, true, false, Option, none, some, List, Text,
  text_eq_sound, inl, inr, if_true, if_false,
}
use periodic.Run.{returns, >>=-eq-returns, returns_injective}
use periodic.Chrono.{Chrono}
use periodic.Diagnostics.{Diagnostic}
use periodic.Validation.Job.{Machine}
use periodic.Store.Model.{Store}
use periodic.Store.Liveness.{read_daemon_status}
use periodic.Mutation.{ApplyError, Fallible, Editor, File, replace, apply_to_disk, validate}
use periodic.Mutation.Disk.{Applied, untouched, written, apply_to_disk-Applied}
use periodic.Ipc.Handler.{Shared}
use periodic.JobsEdit.{
  Editing, EditResult, Parsed, edited, no_change, aborted, failed, run_edit_loop,
}
use periodic.Commands.{
  Dispatched, claims_running, Call, exit_code, dispatch_to, dispatch_mutation, exits, same_content,
  seed_of, after_edit, run_jobs_edit,
}

module _ (c : Chrono) (m : Machine) (e : Editor) (call : Call) where
  same_content-eq : (a b : Option Text) → same_content c m e call a b ≡ true → a ≡ b
  same_content-eq none none h = refl
  same_content-eq none (some t) h = cc
  same_content-eq (some s) none h = cc
  same_content-eq (some s) (some t) h = ap some (text_eq_sound s t h)

  -- The file after an edit, from the file before the edit and at its end: it is as it was at the end,
  -- or nobody has changed it in between, and it holds a valid text.
  pub data Kept (before : Option Text) (file : File) : File → Type 0 where
    same : Kept before file file
    replaced :
        (t : Text)
        → file.content ≡ before
        → validate c m e t ≡ true
        → Kept before file (record file { content = some t })

  Applied-Kept :
      (before : Option Text) (file : File) (r : Fallible ApplyError Text)
      (out : Fallible ApplyError (Unit {0}) × File)
      → file.content ≡ before
      → Applied c m e file r out
      → Kept before file out.1
  Applied-Kept before file r out same_now (untouched x) = same
  Applied-Kept before file r out same_now (written t rendered valid) = replaced t same_now valid

  replace-Kept :
      (before : Option Text) (content : Text) (s : Store) (sh : Shared) (out : ℕ × Shared)
      → sh.file.content ≡ before
      → claims_running (read_daemon_status c s) ≡ some false
      → exits c m e call (dispatch_mutation c m e call (replace content) s sh) ≡ returns out
      → Kept before sh.file out.1.file
  unfolding dispatch_mutation
  replace-Kept before content s sh out same_now off h =
      let h' : exits c m e call (dispatch_to c m e call (some false) (replace content) sh)
          ≡ returns out =
        ap (λ o. exits c m e call (dispatch_to c m e call o (replace content) sh)) (sym off) ∙ h in
      let (d, k, k') =
        >>=-eq-returns (dispatch_to c m e call (some false) (replace content) sh)
          (λ (d : Dispatched × Shared). returns (exit_code d.0, d.1)) h' in
      let (r, j, j') = >>=-eq-returns (apply_to_disk c m e sh.file (replace content)) _ k in
      let (text, applied) = apply_to_disk-Applied c m e sh.file (replace content) r j in
      subst (Kept before sh.file)
        (ap (λ (x : Dispatched × Shared). x.1.file) (returns_injective j')
          ∙ ap (λ (x : ℕ × Shared). x.1.file) (returns_injective k'))
        (Applied-Kept before sh.file text r same_now applied.1)

  after_edit-Kept :
      (before : Option Text) (r : EditResult) (s : Store) (sh : Shared) (out : ℕ × Shared)
      → claims_running (read_daemon_status c s) ≡ some false
      → after_edit c m e call before r s sh ≡ returns out
      → Kept before sh.file out.1.file
  after_edit-Kept before no_change s sh out off h =
      subst (λ (x : ℕ × Shared). Kept before sh.file x.1.file) (returns_injective h) same
  after_edit-Kept before aborted s sh out off h =
      subst (λ (x : ℕ × Shared). Kept before sh.file x.1.file) (returns_injective h) same
  after_edit-Kept before failed s sh out off h =
      subst (λ (x : ℕ × Shared). Kept before sh.file x.1.file) (returns_injective h) same
  after_edit-Kept before (edited content) s sh out off h =
      elim (Bool-cases (same_content c m e call sh.file.content before)) [
        | inl unchanged ↦
            replace-Kept before content s sh out (same_content-eq sh.file.content before unchanged)
              off (sym (if_true (same_content c m e call sh.file.content before) _ _ unchanged) ∙ h)
        | inr changed ↦
            subst (λ (x : ℕ × Shared). Kept before sh.file x.1.file)
              (returns_injective
                (sym (if_false (same_content c m e call sh.file.content before) _ _ changed) ∙ h))
              same
      ]

  -- `jobs edit` never overwrites what others have written while the editor was open, and never writes
  -- an invalid text: when it returns beside a stopped daemon, the file is as the others left it, or
  -- they have left it as it was and it holds a text that parses and validates without errors.
  pub run_jobs_edit-Kept :
      (parse : Text → Parsed) (message : Diagnostic → Text) (scaffold : Text)
      (answers : List (Text → Editing)) (meanwhile : Shared → Shared) (s : Store) (sh : Shared)
      (out : ℕ × Shared)
      → claims_running (read_daemon_status c s) ≡ some false
      → run_jobs_edit c m e call parse message scaffold answers meanwhile s sh ≡ returns out
      → Kept sh.file.content (meanwhile sh).file out.1.file
  unfolding run_jobs_edit
  run_jobs_edit-Kept parse message scaffold answers meanwhile s sh out off h =
      let (r, k, k') =
        >>=-eq-returns
          (run_edit_loop c m parse message (seed_of c m e call scaffold sh.file.content) answers) _
          h in
      after_edit-Kept sh.file.content r s (meanwhile sh) out off k'
