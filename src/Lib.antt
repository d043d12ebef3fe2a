-- ===== src/Lib.antt =====
-- A model of periodic, a job scheduler: its configuration, the validation of it, the schedule engine
-- and table, the state store, the events, the executor of runs, the loop of the daemon, its socket
-- protocol, and the commands that edit the configuration file.
--
-- The parts. A configuration file is parsed to raw data, validated and normalized to effective jobs.
-- The schedule table holds the next occurrence of each enabled job and pops those that are due. Each
-- becomes a run in the store, unique by its occurrence key, and the executor makes the attempts of
-- the run, with retries, a timeout and cancellation, and records how they end. The daemon's loop
-- dispatches what is due, sleeps, and reloads the configuration when it is told to. A command changes
-- the configuration file itself, or asks a running daemon for it over a socket; both go through the
-- same mutation, which edits the text at the spans of its YAML events and validates the result.
--
-- The files:
--   Prelude, Run       shared names, texts as lists of code points, code that may not return
--   Config             src/config.rs: RawConfig and EffectiveConfig as records, parse_every_interval,
--                      parse_duration, normalize, canonical_job and job_config_hash
--   Diagnostics        src/diagnostics.rs
--   Validation         src/validation.rs: check_job, check_schedule and validate_config return the
--                      diagnostics that the code pushes, in the same order
--   Chrono             what the code uses of chrono, chrono-tz, iana-time-zone and croner: functions
--                      and the laws of a zone; Chrono.Fixed is an instance for the examples
--   Scheduler          src/scheduler.rs: WallClock and Engine have the functions of the engine, Table
--                      the ScheduleTable, whose heap is a list with the earliest entry first
--   Store              src/state.rs: the tables as lists of rows, and each writer as a function from
--                      the store to a result and a store
--   Events             src/events.rs: emit, with its counter in the store
--   Executor           src/executor.rs: run_attempt, the loop over attempts, finalize, execute_run and
--                      run_job, given a script of what the operating system answers; Executor.Wait.Ended
--                      is the relation that the wait for a child is compared with
--   Daemon             src/daemon.rs: dispatch_due, handle_missed_runs with its policies, sleep_until and
--                      DaemonView; a run thread is the handle of the run that it executes. Daemon.Loop
--                      has scheduler_loop, reload, drain_runs, run_foreground, start and stop
--   ConfigEdit         src/config_edit.rs: the walks over the events and locate_job, and in
--                      ConfigEdit.Plan set_enabled, remove_job and append_job; ConfigEdit.Tree is the
--                      reference, documents as trees with the events that the parser emits
--   Mutation           src/config_mutation.rs: apply_to_disk, handle_ipc and the requests; a file is its
--                      text
--   Ipc                src/ipc.rs: read_message, write_message, serve_connection and accept_loop;
--                      Ipc.Handler is ipc_handler of src/daemon.rs
--   JobBlock           src/job_block.rs: derive_id, scalar and build_block; JobBlock.Reader reads the
--                      scalars as YAML does
--   JobsEdit           src/jobs_edit.rs: run_edit_loop with its header
--   Commands           src/main.rs: dispatch_mutation and the commands validate, reload, jobs run, add,
--                      pause, resume, remove and edit, up to their exit codes
--   Doctor             src/doctor.rs: report, daemon_report and run
--   Samples            jobs and stores of the examples
--
-- Instants and local times are nanoseconds from an epoch before all dates, and texts are code points,
-- of which the ASCII tests are modelled; in ConfigEdit they are bytes. Integers of 32 and 64 bits wrap
-- where the source does not check. A panic and an endless loop are both `stuck`.
--
-- Fuel. resolve_wall_clock steps through a gap of a zone by minutes and the calendar loops step by
-- dates or months; each takes the same fuel, which is enough when it covers the longest gap in
-- minutes and ten dates. pop_due takes rounds, one more than there are due entries. The executor's
-- loop takes a script for each attempt that the environment is asked for. The loop over missed
-- occurrences has the source's own cap. The walks over events are given the number of events, and a
-- connection one more than the length of what was sent, which are more than they take. The loops of
-- the daemon and of an edit go as far as their script of rounds or answers.
--
-- Not modelled: reading YAML and JSON, SQL beyond the statements, message texts, the reader threads of a
-- child and their log lines, how threads interleave within a round of the daemon's loop, signals, the
-- listings and the rendering of the commands, the log files and the installation of
-- the service; the panics of chrono at its last date, and a negative process id in the store, which the
-- program does not write. The first is the work of serde and granit_parser and the second of SQLite; the others are input
-- and output, or wait to be modelled.
pub mod Prelude
pub mod Samples
pub mod Config
pub mod Run
pub mod Chrono
pub mod Scheduler
pub mod Diagnostics
pub mod Validation
pub mod Store
pub mod Events
pub mod Executor
pub mod Daemon
pub mod ConfigEdit
pub mod Mutation
pub mod Ipc
pub mod JobBlock
pub mod JobsEdit
pub mod Commands
pub mod Doctor
