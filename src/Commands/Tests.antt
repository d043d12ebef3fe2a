-- ===== src/Commands/Tests.antt =====
-- Examples of the commands, with an editor of texts that all parse.
use periodic.Prelude.{
  ◌≡◌, refl, sym, ◌∙◌, subst, true, false, none, some, [], ◌∷◌, ◌++◌, List, Text, codes,
  to_lowercase, decimal,
}
use periodic.Run.{returns, returns_injective}
use periodic.Config.Parse.{contains, parse_every_interval, parse_duration}
use periodic.Chrono.Fixed.{fixed}
use periodic.Diagnostics.{Diagnostic, concat, has_error}
use periodic.Validation.{check_jobs, validate_config}
use periodic.Validation.Schedule.{check_schedule, check_tokens, is_valid_hhmm, job_path}
use periodic.Validation.Job.{is_kebab, command_resolves, check_job}
use periodic.Store.Model.{Store}
use periodic.Store.Liveness.{
  put_daemon_state, lookup_key, upsert_key, record_daemon_started, read_daemon_status,
}
use periodic.Mutation.{
  Mutation, pause, Editor, is_mutation_method, mutation_to_request, request_to_mutation, render,
  validate, apply_to_disk, handle_ipc,
}
use periodic.Ipc.{Request, applied, Response, ok, Codec}
use periodic.Ipc.Frames.{IsFaithful}
use periodic.Ipc.Handler.{Shared, ipc_handler}
use periodic.JobsEdit.{
  Editing, saved, EditResult, strip_header, Parsed, edit_loop, run_edit_loop, validate_yaml,
}
use periodic.JobsEdit as JobsEdit
use periodic.Commands as Commands
use periodic.Commands.{
  Dispatched, claims_running, request_of, Call, daemon_call, dispatch_mutation, run_jobs_edit,
}
use periodic.Commands.Modes.{told, dispatch_mutation-modes}
use periodic.Commands.Edits.{Kept, run_jobs_edit-Kept}
use periodic.Samples.{machine, raw_config, empty_store}

abbrev editor : Editor
editor = record {
  set_enabled = λ t id b. returns (some (codes "good"));
  remove_job = λ t id. returns none;
  append_job = λ t block. returns (some (t ++ block));
  parse = λ t. some raw_config;
}

abbrev shared : Shared
shared = record {
  file = record { content = some (codes "old"); writable = true };
  queued = 0;
  listening = true;
}

abbrev paused : Shared
paused = record shared { file = record { content = some (codes "good"); writable = true } }

-- A daemon that has just started.
abbrev running : Store
running = (record_daemon_started fixed 7 901 empty_store).1

abbrev mutation : Mutation
mutation = pause (codes "a")

abbrev req : Codec Request
req = record { encode = λ r. codes "p"; decode = λ t. some (request_of mutation) }

abbrev pause_answer : Response
pause_answer = ok (codes "jobs.pause") (applied true)

abbrev resp : Codec Response
resp = record { encode = λ r. codes "r"; decode = λ t. some pause_answer }

abbrev call : Call
call = daemon_call req resp (ipc_handler fixed machine editor 7)

pauses :
    dispatch_mutation fixed machine editor call mutation empty_store shared
    ≡ returns (Commands.applied, paused)
unfolding dispatch_mutation read_daemon_status lookup_key apply_to_disk render validate contains
    parse_every_interval parse_duration concat has_error check_jobs validate_config check_schedule
    check_tokens is_valid_hhmm job_path is_kebab command_resolves check_job to_lowercase
pauses = refl

stopped_status : claims_running (read_daemon_status fixed empty_store) ≡ some false
unfolding read_daemon_status lookup_key
stopped_status = refl

running_status : claims_running (read_daemon_status fixed running) ≡ some true
unfolding read_daemon_status lookup_key record_daemon_started put_daemon_state upsert_key decimal
running_status = refl

handled :
    ipc_handler fixed machine editor 7 (request_of mutation) shared
    ≡ returns (pause_answer, record paused { queued = 1 })
unfolding ipc_handler mutation_to_request is_mutation_method handle_ipc request_to_mutation
    apply_to_disk render validate contains parse_every_interval parse_duration concat has_error
    check_jobs validate_config check_schedule check_tokens is_valid_hhmm job_path is_kebab
    command_resolves check_job to_lowercase
handled = refl

answer-IsFaithful :
    (out : Response × Shared)
    → ipc_handler fixed machine editor 7 (request_of mutation) shared ≡ returns out
    → IsFaithful resp out.0
answer-IsFaithful out h =
    subst (λ (x : Response × Shared). IsFaithful resp x.0) (returns_injective (sym handled ∙ h))
      (record { one_line = refl; decodes = refl })

dispatch_mutation-modes_example :
    (s'' : Shared) × ((dispatch_mutation fixed machine editor call mutation running shared
        ≡ returns (told Commands.applied, s''))
      × (s''.file ≡ paused.file))
dispatch_mutation-modes_example =
    dispatch_mutation-modes fixed machine editor 7 req resp mutation empty_store running shared
      Commands.applied paused stopped_status running_status
      (record { one_line = refl; decodes = refl }) answer-IsFaithful pauses

abbrev parse : Text → Parsed
parse t = JobsEdit.ok raw_config

abbrev message : Diagnostic → Text
message d = []

abbrev answers : List (Text → Editing)
answers = (λ b. saved (codes "new")) ∷ []

abbrev renewed : Shared
renewed = record shared { file = record { content = some (codes "new"); writable = true } }

edits :
    run_jobs_edit fixed machine editor call parse message [] answers (λ sh. sh) empty_store shared
    ≡ returns (0, renewed)
unfolding run_jobs_edit run_edit_loop edit_loop strip_header validate_yaml dispatch_mutation
    read_daemon_status lookup_key apply_to_disk render validate contains parse_every_interval
    parse_duration concat has_error check_jobs validate_config check_schedule check_tokens
    is_valid_hhmm job_path is_kebab command_resolves check_job to_lowercase
edits = refl

run_jobs_edit-Kept_example :
    Kept fixed machine editor call (some (codes "old")) shared.file renewed.file
run_jobs_edit-Kept_example =
    run_jobs_edit-Kept fixed machine editor call parse message [] answers (λ sh. sh) empty_store
      shared (0, renewed) stopped_status edits
