-- ===== src/Mutation/Tests.antt =====
-- Examples of mutations.
use periodic.Prelude.{◌≡◌, refl, true, false, none, some, [], ◌∷◌, ◌++◌, Text, codes, to_lowercase}
use periodic.Run.{returns}
use periodic.Config.Parse.{contains, parse_every_interval, parse_duration}
use periodic.Chrono.Fixed.{fixed}
use periodic.Diagnostics.{concat, has_error}
use periodic.Validation.{check_jobs, validate_config}
use periodic.Validation.Schedule.{check_schedule, check_tokens, is_valid_hhmm, job_path}
use periodic.Validation.Job.{is_kebab, command_resolves, check_job}
use periodic.Mutation.{
  pause, remove, ApplyError, refused, Fallible, ok, err, mutation_to_request, request_to_mutation,
  is_mutation_method, Editor, File, render, validate, apply_to_disk,
}
use periodic.Mutation.Disk.{Applied, apply_to_disk-Applied, IsGood, apply_all}
use periodic.Mutation.Wire.{mutation-round_trip}
use periodic.Samples.{machine, raw_config}

-- An editor of texts that all parse.
abbrev editor : Editor
editor = record {
  set_enabled = λ t id b. returns (some (codes "good"));
  remove_job = λ t id. returns none;
  append_job = λ t block. returns (some (t ++ block));
  parse = λ t. some raw_config;
}

abbrev file : File
file = record { content = some (codes "old"); writable = true }

mutation-round_trip_example :
    (request_to_mutation
        (mutation_to_request (pause (codes "a"))).0
        (mutation_to_request (pause (codes "a"))).1
      ≡ some (pause (codes "a")))
    × (is_mutation_method (mutation_to_request (pause (codes "a"))).0 ≡ true)
mutation-round_trip_example = mutation-round_trip (pause (codes "a"))

status_is_other : is_mutation_method (codes "status") ≡ false
unfolding is_mutation_method
status_is_other = refl

-- The file after the pause.
abbrev paused : File
paused = record { content = some (codes "good"); writable = true }

pause_applies :
    apply_to_disk fixed machine editor file (pause (codes "a")) ≡ returns (ok tt, paused)
unfolding apply_to_disk render validate contains parse_every_interval parse_duration concat
    has_error check_jobs validate_config check_schedule check_tokens is_valid_hhmm job_path is_kebab
    command_resolves check_job to_lowercase
pause_applies = refl

apply_to_disk-Applied_example :
    (r : Fallible ApplyError Text) × ((render fixed machine editor file (pause (codes "a"))
        ≡ returns r)
      × Applied fixed machine editor file r (ok tt, paused))
apply_to_disk-Applied_example =
    apply_to_disk-Applied fixed machine editor file (pause (codes "a")) (ok tt, paused)
      pause_applies

old-IsGood : IsGood fixed machine editor file.content
unfolding validate contains parse_every_interval parse_duration concat has_error check_jobs
    validate_config check_schedule check_tokens is_valid_hhmm job_path is_kebab command_resolves
    check_job to_lowercase
old-IsGood = refl

-- A removal that the editor refuses leaves the file.
refusal :
    apply_to_disk fixed machine editor paused (remove (codes "b")) ≡ returns (err refused, paused)
unfolding apply_to_disk render
refusal = refl

pause_then_remove :
    apply_all fixed machine editor (pause (codes "a") ∷ remove (codes "b") ∷ []) file
    ≡ returns paused
pause_then_remove = rw pause_applies (rw refusal refl)
