-- ===== src/Ipc/Handler/Answered.antt =====
-- What an answer of the daemon says of the configuration file and of the loop.
use periodic.Prelude.{
  ℕ, ◌+◌, ◌≡◌, refl, ap, sym, ◌∙◌, subst, Bool, Bool-cases, true, Option, none, some, List, Text,
  codes, text_eq, inl, inr, if_true, if_false, if_same,
}
use periodic.Run.{returns, ◌>>=◌, >>=-eq-returns, returns_injective}
use periodic.Chrono.{Chrono}
use periodic.Validation.Job.{Machine}
use periodic.Mutation.{
  Mutation, ApplyError, refused, system, Fallible, Editor, File, IpcCode, is_mutation_method,
  request_to_mutation, apply_to_disk, ipc_code, handle_request, handle_ipc, validate,
}
use periodic.Mutation.Disk.{Applied, untouched, written, apply_to_disk-Applied, IsGood}
use periodic.Ipc.{
  Request, status, reloading, applied, Response, ok, err, Accept, Codec, accept_loop,
}
use periodic.Ipc.Answers.{accept_loop-keeps}
use periodic.Ipc.Handler.{Shared, queue, on_mutation, on_reload, ipc_handler}

module _ (c : Chrono) (m : Machine) (e : Editor) (pid : ℕ) where
  -- The answers: a status, a reload that is queued, an applied mutation, whose valid text is in the
  -- file, with a reload queued if the loop is there, or an error, with nothing changed.
  pub data Answered (id : Text) (s : Shared) : Response × Shared → Type 0 where
    shown : Answered id s (ok id (status pid), s)
    reloads :
        s.listening ≡ true → Answered id s (ok id reloading, record s { queued = s.queued + 1 })
    applies :
        (t : Text)
        → validate c m e t ≡ true
        → Answered id s (
          ok id (applied s.listening),
          queue (record s { file = record s.file { content = some t } }),
        )
    fails : (code : Text) → Answered id s (err id code, s)

  on_mutation-Answered :
      (id : Text) (s : Shared) (r : Fallible ApplyError Text)
      (out : Fallible ApplyError (Unit {0}) × File)
      → Applied c m e s.file r out
      → Answered id s (on_mutation id s (ipc_code c m e out))
  on_mutation-Answered id s r out (untouched refused) = fails (codes "mutation_failed")
  on_mutation-Answered id s r out (untouched system) = fails (codes "io_error")
  on_mutation-Answered id s r out (written t rendered valid) = applies t valid

  handle_request-Answered :
      (id : Text) (s : Shared) (o : Option Mutation) (out : Fallible IpcCode (Unit {0}) × File)
      → handle_request c m e s.file o ≡ returns out
      → Answered id s (on_mutation id s out)
  handle_request-Answered id s none out h =
      subst (λ x. Answered id s (on_mutation id s x)) (returns_injective h)
        (fails (codes "bad_params"))
  handle_request-Answered id s (some mutation) out h =
      let (done, k, k') =
        >>=-eq-returns (apply_to_disk c m e s.file mutation) (λ r. returns (ipc_code c m e r)) h in
      let (r, done_so) = apply_to_disk-Applied c m e s.file mutation done k in
      subst (λ x. Answered id s (on_mutation id s x)) (returns_injective k')
        (on_mutation-Answered id s r done done_so.1)

  -- Every answer carries the id of its request and is true of what was done: where it says that a
  -- mutation is applied, a valid text is in the file; where it says that a reload is queued, one is;
  -- and where it is an error, neither the file nor the queue has changed, so that a retry cannot apply
  -- a mutation twice.
  pub ipc_handler-Answered :
      (req : Request) (s : Shared) (out : Response × Shared)
      → ipc_handler c m e pid req s ≡ returns out
      → Answered req.id s out
  unfolding ipc_handler handle_ipc
  ipc_handler-Answered req s out h =
      elim (Bool-cases (text_eq req.method (codes "daemon.status"))) [
        | inl is_status ↦
            subst (Answered req.id s)
              (returns_injective
                (sym (if_true (text_eq req.method (codes "daemon.status")) _ _ is_status) ∙ h))
              shown
        | inr not_status ↦
            let h1 =
              sym (if_false (text_eq req.method (codes "daemon.status")) _ _ not_status) ∙ h in
            elim (Bool-cases (text_eq req.method (codes "daemon.reload"))) [
              | inl is_reload ↦
                  subst (Answered req.id s)
                    (returns_injective (
                      sym (if_true (text_eq req.method (codes "daemon.reload")) _ _ is_reload)
                      ∙ h1))
                    reload_answer
              | inr not_reload ↦
                  let h2 =
                    sym (if_false (text_eq req.method (codes "daemon.reload")) _ _ not_reload)
                    ∙ h1 in
                  elim (Bool-cases (is_mutation_method req.method)) [
                    | inl is_mutation ↦
                        mutation_answer
                          (sym (if_true (is_mutation_method req.method) _ _ is_mutation) ∙ h2)
                    | inr unknown ↦
                        subst (Answered req.id s)
                          (returns_injective
                            (sym (if_false (is_mutation_method req.method) _ _ unknown) ∙ h2))
                          (fails (codes "unknown_method"))
                  ]
            ]
      ]
    where
      reload_answer : Answered req.id s (on_reload req.id s)
      reload_answer = elim (Bool-cases s.listening) [
        | inl hears ↦
            subst (Answered req.id s)
              (sym (
                if_true s.listening _ _ hears
                ∙ ap (λ t. (ok req.id reloading, t)) (if_true s.listening _ _ hears)))
              (reloads hears)
        | inr deaf ↦
            subst (Answered req.id s) (sym (if_false s.listening _ _ deaf))
              (fails (codes "shutting_down"))
      ]

      mutation_answer :
          (handle_ipc c m e req.method req.params s.file >>= λ r. returns (on_mutation req.id s r))
            ≡ returns out
          → Answered req.id s out
      mutation_answer k =
          let (done, k1, k2) =
            >>=-eq-returns (handle_ipc c m e req.method req.params s.file)
              (λ r. returns (on_mutation req.id s r)) k in
          subst (Answered req.id s) (returns_injective k2)
            (handle_request-Answered req.id s (request_to_mutation req.method req.params) done k1)

  queue-file : (s : Shared) → s.file ≡ (queue s).file
  queue-file s = sym (if_same (λ (t : Shared). t.file) s.listening refl refl)

  Answered-IsGood :
      (id : Text) (s : Shared) (out : Response × Shared)
      → Answered id s out
      → IsGood c m e s.file.content
      → IsGood c m e out.1.file.content
  Answered-IsGood id s out shown h = h
  Answered-IsGood id s out (reloads o) h = h
  Answered-IsGood id s out (applies t valid) h =
      subst (λ (f : File). IsGood c m e f.content)
        (queue-file (record s { file = record s.file { content = some t } })) valid
  Answered-IsGood id s out (fails code) h = h

  -- A configuration file that is valid, or cannot be read, stays so whatever bytes the clients of the
  -- daemon send, over however many connections.
  pub accept_loop-IsGood :
      (req : Codec Request) (resp : Codec Response) (script : List (Bool × Accept)) (s : Shared)
      (out : Bool × Shared)
      → IsGood c m e s.file.content
      → accept_loop req resp (ipc_handler c m e pid) script s ≡ returns out
      → IsGood c m e out.1.file.content
  accept_loop-IsGood req resp script s out good h =
      accept_loop-keeps req resp (ipc_handler c m e pid) (λ s. IsGood c m e s.file.content) script s
        out (λ r s out p k. Answered-IsGood r.id s out (ipc_handler-Answered r s out k) p) good h
