-- ===== src/Executor/Wait.antt =====
-- src/executor.rs: the wait for the child process, with cancellation and the timeout.
pub mod Ended
use periodic.Prelude.{
  ℕ, ◌+◌, ◌*◌, ◌^◌, Bool, false, Option, none, some, List, [], ◌∷◌, Text, leb, ltb, if◌then◌else◌,
  unwrap_or,
}
use periodic.Run.{Run, returns, stuck, ◌>>=◌}
use periodic.Chrono.{second_ns}
use periodic.Config.Model.{ℤ, negsuc}

pub data AttemptResult : Type 0 where
  exited : ℤ → AttemptResult
  timeout cancelled : AttemptResult

-- What a tick of `recv_timeout` brings: the exit code, if a signal did not end the child, a failed
-- wait or a closed channel, or nothing within the tick.
pub data Received : Type 0 where
  exit : Option ℤ → Received
  wait_failed nothing : Received

-- A tick, with the cancel flag and the clock as they are read after it.
pub record Poll : Type 0 where
  pub received : Received
  pub cancel : Bool
  pub now : ℕ

-- When the child ends after SIGTERM: in the grace period, after SIGKILL, or not even then.
pub data Drain : Type 0 where
  in_grace after_kill never : Drain

-- What the code waits for without a limit: the child after the signals, and the threads that it joins.
-- A reader ends when no process holds its pipe any longer.
pub record Blocking : Type 0 where
  pub drain : Drain
  pub waiter_ends : Bool
  pub stdout_ends : Bool
  pub stderr_ends : Bool

-- The whole of an attempt as the environment answers it.
pub data Script : Type 0 where
  spawn_failed : (message : Text) (at : ℕ) → Script
  spawned :
      (pid : ℕ) (waiting_from : ℕ) (polls : List Poll) (blocking : Blocking) (finished_at : ℕ)
      → Script

pub data Signal : Type 0 where
  sigterm sigkill : Signal

-- `kill_group` and `drain_after_kill`: the signals sent, and the result handed through.
abbrev pub drain_after_kill : Drain → AttemptResult → Run (AttemptResult × List Signal)
drain_after_kill in_grace result = returns (result, sigterm ∷ [])
drain_after_kill after_kill result = returns (result, sigterm ∷ sigkill ∷ [])
drain_after_kill never result = stuck

abbrev pub past : Option ℕ → ℕ → Bool
past none now = false
past (some deadline) now = leb deadline now

-- What a tick leads to, with the cancel flag and the deadline; `again` is the rest of the loop.
abbrev pub tick :
    Option ℕ
    → Drain
    → Received
    → Bool
    → ℕ
    → Run (AttemptResult × List Signal)
    → Run (AttemptResult × List Signal)
tick deadline drain (exit code) cancel now again = returns (exited (unwrap_or code (negsuc 0)), [])
tick deadline drain wait_failed cancel now again = returns (exited (negsuc 0), [])
tick deadline drain nothing cancel now again =
    if cancel
    then drain_after_kill drain cancelled
    else if past deadline now
    then drain_after_kill drain timeout
    else again

unfoldable pub poll_loop : Option ℕ → Drain → List Poll → Run (AttemptResult × List Signal)
poll_loop deadline drain [] = stuck
poll_loop deadline drain (p ∷ polls) =
    let again = poll_loop deadline drain polls in
    tick deadline drain p.received p.cancel p.now again

-- The instants of the monotonic clock, whose seconds are an `i64`.
abbrev pub instant_bound : ℕ
instant_bound = 2 ^ 63 * second_ns

-- `Instant::now() + Duration::from_secs(s)`, which panics past the last instant.
unfoldable pub deadline_of : Option ℕ → ℕ → Run (Option ℕ)
deadline_of none from = returns none
deadline_of (some secs) from =
    if ltb (from + secs * second_ns) instant_bound
    then returns (some (from + secs * second_ns))
    else stuck

unfoldable pub wait_loop : Option ℕ → ℕ → List Poll → Drain → Run (AttemptResult × List Signal)
wait_loop timeout_secs from polls drain =
    deadline_of timeout_secs from >>= λ deadline. poll_loop deadline drain polls
