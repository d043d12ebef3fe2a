-- ===== src/Ipc/Handler.antt =====
-- src/daemon.rs: `ipc_handler`, between the server and the loop of the daemon.
pub mod Answered
use periodic.Prelude.{
  ℕ, ◌+◌, Bool, true, false, Option, none, some, List, [], ◌∷◌, Text, codes, text_eq, if◌then◌else◌,
}
use periodic.Run.{Run, returns, stuck, ◌>>=◌}
use periodic.Chrono.{Chrono}
use periodic.Validation.Job.{Machine}
use periodic.Mutation as Mutation
use periodic.Mutation.{
  Fallible, Editor, File, IpcCode, bad_params, mutation_failed, io_error, is_mutation_method,
  handle_ipc,
}
use periodic.Ipc.{Request, Answer, status, reloading, applied, Response, ok, err}

-- What the handler changes: the configuration file, and the reloads that are queued for the loop. The
-- channel has a receiver as long as the loop is there.
pub record Shared : Type 0 where
  pub file : File
  pub queued : ℕ
  pub listening : Bool

abbrev pub code_text : IpcCode → Text
code_text bad_params = codes "bad_params"
code_text mutation_failed = codes "mutation_failed"
code_text io_error = codes "io_error"

-- The send of a reload.
abbrev pub queue : Shared → Shared
queue s = if s.listening then record s { queued = s.queued + 1 } else s

abbrev pub on_mutation : Text → Shared → Fallible IpcCode (Unit {0}) × File → Response × Shared
on_mutation id s (Mutation.ok u, file) =
    (ok id (applied s.listening), queue (record s { file = file }))
on_mutation id s (Mutation.err code, file) = (err id (code_text code), record s { file = file })

abbrev pub on_reload : Text → Shared → Response × Shared
on_reload id s =
    if s.listening then (ok id reloading, queue s) else (err id (codes "shutting_down"), s)

module _ (c : Chrono) (m : Machine) (e : Editor) (pid : ℕ) where
  unfoldable pub ipc_handler : Request → Shared → Run (Response × Shared)
  ipc_handler req s =
      let mutated =
        handle_ipc c m e req.method req.params s.file >>= (λ r. returns (on_mutation req.id s r)) in
      if text_eq req.method (codes "daemon.status")
      then returns (ok req.id (status pid), s)
      else if text_eq req.method (codes "daemon.reload")
      then returns (on_reload req.id s)
      else if is_mutation_method req.method
      then mutated
      else returns (err req.id (codes "unknown_method"), s)
