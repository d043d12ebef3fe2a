-- ===== src/Ipc/Tests.antt =====
-- Examples of the server: a codec of ids, and a mutation over the wire.
use periodic.Prelude.{
  ℕ, ◌+◌, ◌≡◌, refl, Bool, true, false, none, some, List, [], ◌∷◌, ◌++◌, codes, to_lowercase,
}
use periodic.Run.{Run, returns, ◌>>=◌}
use periodic.Config.Parse.{contains, parse_every_interval, parse_duration}
use periodic.Chrono.Fixed.{fixed}
use periodic.Diagnostics.{concat, has_error}
use periodic.Validation.{check_jobs, validate_config}
use periodic.Validation.Schedule.{check_schedule, check_tokens, is_valid_hhmm, job_path}
use periodic.Validation.Job.{is_kebab, command_resolves, check_job}
use periodic.Mutation.{
  Editor, string, is_mutation_method, request_to_mutation, render, validate, apply_to_disk,
  handle_ipc,
}
use periodic.Mutation.Disk.{IsGood}
use periodic.Ipc.{
  Request, status, applied, Response, ok, Codec, newline, read_message, Accept, connection,
  would_block, serve_loop, serve_connection, accept_loop,
}
use periodic.Ipc.Frames.{IsFaithful}
use periodic.Ipc.Answers.{written, answers, served, serve_connection-answers}
use periodic.Ipc.Handler.{Shared, ipc_handler}
use periodic.Ipc.Handler.Answered.{Answered, ipc_handler-Answered, accept_loop-IsGood}
use periodic.Samples.{machine, raw_config}

-- A decoder of one request.
abbrev pause_a : Request
pause_a = record {
  id = codes "1";
  method = codes "jobs.pause";
  params = (codes "id", string (codes "a")) ∷ [];
}

abbrev req : Codec Request
req = record { encode = λ r. codes "p"; decode = λ t. some pause_a }

abbrev resp : Codec Response
resp = record { encode = λ r. codes "r"; decode = λ t. none }

abbrev editor : Editor
editor = record {
  set_enabled = λ t id b. returns (some (codes "good"));
  remove_job = λ t id. returns none;
  append_job = λ t block. returns (some (t ++ block));
  parse = λ t. some raw_config;
}

abbrev shared : Shared
shared = record {
  file = record { content = some (codes "old"); writable = true };
  queued = 0;
  listening = true;
}

abbrev paused : Shared
paused = record {
  file = record { content = some (codes "good"); writable = true };
  queued = 1;
  listening = true;
}

pauses :
    ipc_handler fixed machine editor 7 pause_a shared
    ≡ returns (ok (codes "1") (applied true), paused)
unfolding ipc_handler is_mutation_method handle_ipc request_to_mutation apply_to_disk render
    validate contains parse_every_interval parse_duration concat has_error check_jobs
    validate_config check_schedule check_tokens is_valid_hhmm job_path is_kebab command_resolves
    check_job to_lowercase
pauses = refl

ipc_handler-Answered_example :
    Answered fixed machine editor 7 (codes "1") shared (ok (codes "1") (applied true), paused)
ipc_handler-Answered_example =
    ipc_handler-Answered fixed machine editor 7 pause_a shared
      (ok (codes "1") (applied true), paused) pauses

abbrev clients : List (Bool × Accept)
clients =
    (false, would_block)
    ∷ (false, connection (codes "p" ++ (newline ∷ [])))
    ∷ (true, would_block)
    ∷ []

old-IsGood : IsGood fixed machine editor shared.file.content
unfolding validate contains parse_every_interval parse_duration concat has_error check_jobs
    validate_config check_schedule check_tokens is_valid_hhmm job_path is_kebab command_resolves
    check_job to_lowercase
old-IsGood = refl

serves :
    accept_loop req resp (ipc_handler fixed machine editor 7) clients shared
    ≡ returns (true, paused)
unfolding accept_loop serve_connection serve_loop read_message ipc_handler is_mutation_method
    handle_ipc request_to_mutation apply_to_disk render validate contains parse_every_interval
    parse_duration concat has_error check_jobs validate_config check_schedule check_tokens
    is_valid_hhmm job_path is_kebab command_resolves check_job to_lowercase
serves = refl

accept_loop-IsGood_example : IsGood fixed machine editor paused.file.content
accept_loop-IsGood_example =
    accept_loop-IsGood fixed machine editor 7 req resp clients shared (true, paused) old-IsGood
      serves

-- A handler that counts.
abbrev count : Request → ℕ → Run (Response × ℕ)
count r n = returns (ok r.id (status n), n + 1)

pause_a-IsFaithful : IsFaithful req pause_a
pause_a-IsFaithful = record { one_line = refl; decodes = refl }

serve_connection-answers_example :
    serve_connection req resp count (written req (pause_a ∷ pause_a ∷ [])) 0 ≡ (
      answers req resp count (pause_a ∷ pause_a ∷ []) 0 >>= λ out.
      returns (served req resp count out))
serve_connection-answers_example =
    serve_connection-answers req resp count (pause_a ∷ pause_a ∷ []) 0
      (pause_a-IsFaithful, (pause_a-IsFaithful, tt))

-- The responses are counted in the order of the requests.
counted :
    answers req resp count (pause_a ∷ pause_a ∷ []) 0
    ≡ returns (ok (codes "1") (status 0) ∷ ok (codes "1") (status 1) ∷ [], 2)
counted = refl
