-- ===== src/Commands/Modes.antt =====
-- A mutation over the socket of a running daemon comes to the same file as one that is applied directly.
use periodic.Prelude.{
  ℕ, ◌≡◌, refl, ap, sym, ◌∙◌, true, false, Option, some, [], ◌∷◌, ◌++◌, Text, if_same,
}
use mathlib.Core.List.{append-nil}
use periodic.Run.{Run, returns, ◌>>=◌, >>=-eq-returns, returns_injective}
use periodic.Chrono.{Chrono}
use periodic.Validation.Job.{Machine}
use periodic.Store.Model.{Store}
use periodic.Store.Liveness.{read_daemon_status}
use periodic.Mutation as Mutation
use periodic.Mutation.{
  Mutation, pause, resume, remove, add, replace, ApplyError, refused, system, Fallible, Editor,
  File, IpcCode, mutation_to_request, request_to_mutation, is_mutation_method, apply_to_disk,
  ipc_code, handle_request, handle_ipc,
}
use periodic.Ipc.{
  Request, Response, Codec, Served, write_message, read_message, received, serve_connection,
}
use periodic.Ipc.Frames.{IsFaithful, read_message-write_message}
use periodic.Ipc.Answers.{written, served, serve_connection-answers}
use periodic.Ipc.Handler.{Shared, queue, on_mutation, ipc_handler}
use periodic.Commands.{
  Dispatched, applied, declined, fails, claims_running, request_of, of_response, of_disk,
  daemon_call, dispatch_to, dispatch_mutation,
}

-- What a client is told of a result.
abbrev pub told : Dispatched → Dispatched
told applied = applied
told declined = declined
told fails = declined

module _ (req : Codec Request) (resp : Codec Response)
    (handler : Request → Shared → Run (Response × Shared)) where
  -- A call whose request and response are encoded faithfully is a call of the handler.
  daemon_call-handler :
      (r : Request) (s : Shared) (out : Response × Shared)
      → IsFaithful req r
      → IsFaithful resp out.0
      → handler r s ≡ returns out
      → daemon_call req resp handler r s ≡ returns (some out.0, out.1)
  unfolding daemon_call
  daemon_call-handler r s out f g h =
      let one : written resp (out.0 ∷ []) ≡ write_message resp out.0 ++ [] = refl in
      let served_one : serve_connection req resp handler (write_message req r) s
          ≡ returns (served req resp handler (out.0 ∷ [], out.1)) =
        ap (λ t. serve_connection req resp handler t s) (sym (append-nil (write_message req r)))
        ∙ (serve_connection-answers req resp handler (r ∷ []) s (f, tt)
            ∙ ap
                (λ (x : Run (Response × Shared)).
                  (x >>= λ (o : Response × Shared). returns (o.0 ∷ [], o.1)) >>= λ o.
                  returns (served req resp handler o))
                h) in
      ap
        (λ (x : Run (Served Shared)).
          x >>= λ out. returns (received (read_message resp out.written), out.state))
        served_one
      ∙ ap (λ x. returns (received x, out.1)) (read_message-write_message resp out.0 [] g)

module _ (c : Chrono) (m : Machine) (e : Editor) (pid : ℕ) where
  -- The daemon's handler on the request of a mutation.
  handler-mutation :
      (mutation : Mutation) (s : Shared)
      → ipc_handler c m e pid (request_of mutation) s ≡ (
          (apply_to_disk c m e s.file mutation >>= λ r. returns (ipc_code c m e r)) >>= λ r.
          returns (on_mutation (request_of mutation).id s r))
  unfolding ipc_handler handle_ipc mutation_to_request request_to_mutation is_mutation_method
  handler-mutation (pause id) s = refl
  handler-mutation (resume id) s = refl
  handler-mutation (remove id) s = refl
  handler-mutation (add block) s = refl
  handler-mutation (replace content) s = refl

  queue-file : (s : Shared) → (queue s).file ≡ s.file
  queue-file s = if_same (λ (t : Shared). t.file) s.listening refl refl

  on_mutation-file :
      (id : Text) (s : Shared) (r : Fallible ApplyError (Unit {0})) (file : File)
      → (on_mutation id s (ipc_code c m e (r, file))).1.file ≡ file
  on_mutation-file id s (Mutation.ok u) file = queue-file (record s { file = file })
  on_mutation-file id s (Mutation.err refused) file = refl
  on_mutation-file id s (Mutation.err system) file = refl

  on_mutation-told :
      (id : Text) (s : Shared) (r : Fallible ApplyError (Unit {0})) (file : File)
      → of_response (some (on_mutation id s (ipc_code c m e (r, file))).0) ≡ told (of_disk r)
  on_mutation-told id s (Mutation.ok u) file = refl
  on_mutation-told id s (Mutation.err refused) file = refl
  on_mutation-told id s (Mutation.err system) file = refl

  -- A mutation has the same effect in both modes: if it returns beside a stopped daemon, it returns
  -- beside a running one, with the same file, and is reported to be applied in both or in neither. A
  -- file that cannot be read or written is an error in the one mode and a refusal in the other. The
  -- request and the response are encoded faithfully.
  pub dispatch_mutation-modes :
      (req : Codec Request) (resp : Codec Response) (mutation : Mutation) (stopped running : Store)
      (s : Shared) (d : Dispatched) (s' : Shared)
      → claims_running (read_daemon_status c stopped) ≡ some false
      → claims_running (read_daemon_status c running) ≡ some true
      → IsFaithful req (request_of mutation)
      → ((out : Response × Shared)
          → ipc_handler c m e pid (request_of mutation) s ≡ returns out
          → IsFaithful resp out.0)
      → let call = daemon_call req resp (ipc_handler c m e pid) in
        dispatch_mutation c m e call mutation stopped s ≡ returns (d, s')
        → (s'' : Shared) × ((dispatch_mutation c m e call mutation running s
              ≡ returns (told d, s''))
            × (s''.file ≡ s'.file))
  unfolding dispatch_mutation
  dispatch_mutation-modes req resp mutation stopped running s d s' off on f g h =
      let call = daemon_call req resp (ipc_handler c m e pid) in
      let id = (request_of mutation).id in
      let direct : dispatch_to c m e call (some false) mutation s ≡ returns (d, s') =
        ap (λ o. dispatch_to c m e call o mutation s) (sym off) ∙ h in
      let (r, k, k') = >>=-eq-returns (apply_to_disk c m e s.file mutation) _ direct in
      let answer = on_mutation id s (ipc_code c m e r) in
      let handled : ipc_handler c m e pid (request_of mutation) s ≡ returns answer =
        handler-mutation mutation s
        ∙ ap
            (λ (x : Run (Fallible ApplyError (Unit {0}) × File)).
              (x >>= λ r. returns (ipc_code c m e r)) >>= λ r. returns (on_mutation id s r))
            k in
      let called =
        daemon_call-handler req resp (ipc_handler c m e pid) (request_of mutation) s answer f
          (g answer handled) handled in
      let same_result : of_disk r.0 ≡ d =
        ap (λ (x : Dispatched × Shared). x.0) (returns_injective k') in
      let same_file : r.1 ≡ s'.file =
        ap (λ (x : Dispatched × Shared). x.1.file) (returns_injective k') in
      (
        answer.1,
        (
          ap (λ o. dispatch_to c m e call o mutation s) on
              ∙ (ap
                    (λ (x : Run (Option Response × Shared)).
                      x >>= λ (r : Option Response × Shared). returns (of_response r.0, r.1))
                    called
                  ∙ ap (λ x. returns (x, answer.1))
                      (on_mutation-told id s r.0 r.1 ∙ ap told same_result)),
          on_mutation-file id s r.0 r.1 ∙ same_file,
        ),
      )
