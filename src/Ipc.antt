-- ===== src/Ipc.antt =====
-- src/ipc.rs: messages as lines of JSON, and the server that answers them. Texts are what a stream
-- delivers until its end; the JSON encodings of serde_json are parameters, and input and output do not
-- fail.
pub mod Frames
pub mod Answers
pub mod Handler
mod Tests
use periodic.Prelude.{
  ℕ, zero, suc, Bool, true, false, Option, none, some, List, [], ◌∷◌, ◌++◌, Text, codes, ◌==◌,
  if◌then◌else◌, is_empty, trim_end_by, length,
}
use periodic.Run.{Run, returns, stuck, ◌>>=◌}
use periodic.Mutation.{Value}

pub record Request : Type 0 where
  pub id : Text
  pub method : Text
  pub params : List (Text × Value)

-- What the daemon's handler puts into `result`.
pub data Answer : Type 0 where
  status : (pid : ℕ) → Answer
  reloading : Answer
  applied : (reloading : Bool) → Answer

-- The `ok` field is the constructor; the message of an error is left out.
pub data Response : Type 0 where
  ok : (id : Text) (result : Answer) → Response
  err : (id code : Text) → Response

-- `to_vec` and `from_str` for a type.
pub record Codec (A : Type 0) : Type 0 where
  pub encode : A → Text
  pub decode : Text → Option A

abbrev pub newline : ℕ
newline = 10

abbrev pub is_newline : ℕ → Bool
is_newline c = c == newline

unfoldable pub write_message : {A : Type 0} → Codec A → A → Text
write_message codec msg = codec.encode msg ++ (newline ∷ [])

-- `BufRead::read_line`: the line with its line break, if there is one, and what comes behind.
abbrev pub read_line : Text → Text × Text
read_line [] = ([], [])
read_line (c ∷ s) =
    let (line, rest) = read_line s in if is_newline c then (c ∷ [], s) else (c ∷ line, rest)

-- The result of `read_message`: the end of the stream, a message and what comes behind, or an error.
pub data Read (A : Type 0) : Type 0 where
  eof malformed : Read A
  message : (msg : A) (rest : Text) → Read A

abbrev pub parsed : {A : Type 0} → Option A → Text → Read A
parsed none rest = malformed
parsed (some msg) rest = message msg rest

unfoldable pub read_message : {A : Type 0} → Codec A → Text → Read A
read_message codec [] = eof
read_message codec (c ∷ s) =
    let (line, rest) = read_line (c ∷ s) in parsed (codec.decode (trim_end_by is_newline line)) rest

-- What a connection comes to: what was written, whether it was read to its end, and the state of the
-- handler.
pub record Served (S : Type 0) : Type 0 where
  pub written : Text
  pub clean : Bool
  pub state : S

-- `accept`, with what the client of a connection sends.
pub data Accept : Type 0 where
  connection : (stream : Text) → Accept
  would_block fails : Accept

module _ {S : Type 0} (req : Codec Request) (resp : Codec Response)
    (handler : Request → S → Run (Response × S)) where
  abbrev pub answer_to : Response × S → (S → Run (Served S)) → Run (Served S)
  answer_to (r, s) rest =
      rest s >>= λ out. returns (record out { written = write_message resp r ++ out.written })

  abbrev pub serve_read : Read Request → S → (Text → S → Run (Served S)) → Run (Served S)
  serve_read eof s rest = returns (record { written = []; clean = true; state = s })
  serve_read malformed s rest = returns (record { written = []; clean = false; state = s })
  serve_read (message r stream) s rest = handler r s >>= λ out. answer_to out (rest stream)

  -- The loop of `serve_connection`; the fuel is more than the messages.
  unfoldable pub serve_loop : ℕ → Text → S → Run (Served S)
  serve_loop zero stream s = stuck
  serve_loop (suc fuel) stream s = serve_read (read_message req stream) s (serve_loop fuel)

  unfoldable pub serve_connection : Text → S → Run (Served S)
  serve_connection stream s = serve_loop (suc (length stream)) stream s

  -- `accept_loop`, as far as the script of the stop flag and of what `accept` returns goes: whether it
  -- ended without an error, and the state.
  unfoldable pub accept_loop : List (Bool × Accept) → S → Run (Bool × S)
  accept_loop [] s = returns (true, s)
  accept_loop ((stop, connection stream) ∷ script) s =
      let next = serve_connection stream s >>= (λ out. accept_loop script out.state) in
      if stop then returns (true, s) else next
  accept_loop ((stop, would_block) ∷ script) s =
      let next = accept_loop script s in if stop then returns (true, s) else next
  accept_loop ((stop, fails) ∷ script) s = returns (stop, s)

-- `Client::call`, given what the daemon sends back; none is an error.
abbrev pub received : Read Response → Option Response
received (message r rest) = some r
received eof = none
received malformed = none

-- The socket below `XDG_RUNTIME_DIR`, or below the home directory if that is unset or empty; `join` is
-- the one of the paths.
abbrev pub below_home : (Text → Text → Text) → Option Text → Text
below_home join none = join [] (codes ".config/periodic/run/periodic.sock")
below_home join (some home) = join home (codes ".config/periodic/run/periodic.sock")

unfoldable pub socket_path : (Text → Text → Text) → Option Text → Option Text → Text
socket_path join none home = below_home join home
socket_path join (some dir) home =
    if is_empty dir then below_home join home else join dir (codes "periodic/periodic.sock")
