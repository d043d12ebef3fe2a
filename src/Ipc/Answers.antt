-- ===== src/Ipc/Answers.antt =====
-- What a connection comes to: the requests are answered one after the other, in their order.
use periodic.Prelude.{
  ℕ, zero, suc, ◌≤◌, ◌<◌, ◌≡◌, refl, ap, ◌∙◌, subst, Bool, true, false, List, [], ◌∷◌, ◌++◌, Text,
  length, length-append, All, arith,
}
use periodic.Run.{Run, returns, stuck, ◌>>=◌, >>=-eq-returns, returns_injective}
use periodic.Ipc.{
  Request, Response, Codec, write_message, Read, eof, malformed, message, read_message, Served,
  Accept, connection, would_block, fails, answer_to, serve_read, serve_loop, serve_connection,
  accept_loop,
}
use periodic.Ipc.Frames.{IsFaithful, read_message-write_message}

-- What a client writes, request after request.
abbrev pub written : {A : Type 0} → Codec A → List A → Text
written codec [] = []
written codec (a ∷ rest) = write_message codec a ++ written codec rest

module _ {S : Type 0} (req : Codec Request) (resp : Codec Response)
    (handler : Request → S → Run (Response × S)) where
  -- The reference: the handler on each request in turn, and the responses in the same order.
  abbrev pub answers : List Request → S → Run (List Response × S)
  answers [] s = returns ([], s)
  answers (r ∷ rs) s = handler r s >>= λ (out : Response × S).
      answers rs out.1 >>= λ (more : List Response × S). returns (out.0 ∷ more.0, more.1)

  abbrev pub served : List Response × S → Served S
  served (rs, s) = record { written = written resp rs; clean = true; state = s }

  -- One request, when the rest of the stream is answered as the reference says.
  answer_to-answers :
      (fuel : ℕ) (rs : List Request) (one : Run (Response × S))
      → ((s : S)
          → serve_loop req resp handler fuel (written req rs) s
            ≡ (answers rs s >>= λ out. returns (served out)))
      → (one >>= λ out.
          answer_to req resp handler out (serve_loop req resp handler fuel (written req rs)))
        ≡ ((one >>= λ (out : Response × S).
              answers rs out.1 >>= λ (more : List Response × S). returns (out.0 ∷ more.0, more.1))
            >>= λ out. returns (served out))
  answer_to-answers fuel rs stuck rest = refl
  answer_to-answers fuel rs (returns (r, s)) rest =
      ap
        (λ (o : Run (Served S)).
          o >>= λ out. returns (record out { written = write_message resp r ++ out.written }))
        (rest s)
      ∙ go (answers rs s)
    where
      go :
          (o : Run (List Response × S))
          → ((o >>= λ out. returns (served out)) >>= λ (out : Served S).
              returns (record out { written = write_message resp r ++ out.written }))
            ≡ ((o >>= λ (more : List Response × S). returns (r ∷ more.0, more.1)) >>= λ out.
                returns (served out))
      go stuck = refl
      go (returns (rs', s')) = refl

  serve_loop-answers :
      (fuel : ℕ) (rs : List Request) (s : S)
      → All (IsFaithful req) rs
      → length rs < fuel
      → serve_loop req resp handler fuel (written req rs) s
        ≡ (answers rs s >>= λ out. returns (served out))
  unfolding serve_loop read_message
  serve_loop-answers zero rs s f h = ground arith
  serve_loop-answers (suc fuel) [] s f h = refl
  serve_loop-answers (suc fuel) (r ∷ rs) s f h =
      ap (λ x. serve_read req resp handler x s (serve_loop req resp handler fuel))
        (read_message-write_message req r (written req rs) f.0)
      ∙ answer_to-answers fuel rs (handler r s)
          (λ s'. serve_loop-answers fuel rs s' f.1 (omega (arith, h)))

  length-written : (rs : List Request) → length rs ≤ length (written req rs)
  unfolding write_message
  length-written [] = omega arith
  length-written (r ∷ rs) = omega (
    arith,
    length-append (req.encode r ++ (10 ∷ [])) (written req rs),
    length-append (req.encode r) (10 ∷ []),
    length-written rs,
  )

  -- On the messages of any requests, a connection is served to its end: it calls the handler with each
  -- request in turn and writes the responses in the same order.
  pub serve_connection-answers :
      (rs : List Request) (s : S)
      → All (IsFaithful req) rs
      → serve_connection req resp handler (written req rs) s
        ≡ (answers rs s >>= λ out. returns (served out))
  unfolding serve_connection
  serve_connection-answers rs s f =
      serve_loop-answers (suc (length (written req rs))) rs s f (omega (arith, length-written rs))

  -- What a handler keeps, whatever it is asked.
  abbrev pub Keeps : (S → Type 0) → Type 0
  Keeps P = (r : Request) (s : S) (out : Response × S) → P s → handler r s ≡ returns out → P out.1

  serve_read-keeps :
      (P : S → Type 0) (x : Read Request) (s : S) (rest : Text → S → Run (Served S))
      (out : Served S)
      → Keeps P
      → P s
      → ((stream : Text) (s : S) (out : Served S) → P s → rest stream s ≡ returns out → P out.state)
      → serve_read req resp handler x s rest ≡ returns out
      → P out.state
  serve_read-keeps P eof s rest out k p later h =
      subst (λ (o : Served S). P o.state) (returns_injective h) p
  serve_read-keeps P malformed s rest out k p later h =
      subst (λ (o : Served S). P o.state) (returns_injective h) p
  serve_read-keeps P (message r stream) s rest out k p later h =
      let (one, e, h1) =
        >>=-eq-returns (handler r s) (λ out. answer_to req resp handler out (rest stream)) h in
      let (more, e', h2) =
        >>=-eq-returns (rest stream one.1)
          (λ (o : Served S). returns (record o { written = write_message resp one.0 ++ o.written }))
          h1 in
      subst (λ (o : Served S). P o.state) (returns_injective h2)
        (later stream one.1 more (k r s one p e) e')

  serve_loop-keeps :
      (P : S → Type 0) (fuel : ℕ) (stream : Text) (s : S) (out : Served S)
      → Keeps P
      → P s
      → serve_loop req resp handler fuel stream s ≡ returns out
      → P out.state
  unfolding serve_loop
  serve_loop-keeps P zero stream s out k p h = cc
  serve_loop-keeps P (suc fuel) stream s out k p h =
      serve_read-keeps P (read_message req stream) s (serve_loop req resp handler fuel) out k p
        (λ stream s out p h. serve_loop-keeps P fuel stream s out k p h) h

  -- Whatever bytes the clients send, over however many connections, what the handler keeps is kept.
  pub accept_loop-keeps :
      (P : S → Type 0) (script : List (Bool × Accept)) (s : S) (out : Bool × S)
      → Keeps P
      → P s
      → accept_loop req resp handler script s ≡ returns out
      → P out.1
  unfolding accept_loop serve_connection
  accept_loop-keeps P [] s out k p h = subst (λ (o : Bool × S). P o.1) (returns_injective h) p
  accept_loop-keeps P ((true, connection stream) ∷ script) s out k p h =
      subst (λ (o : Bool × S). P o.1) (returns_injective h) p
  accept_loop-keeps P ((false, connection stream) ∷ script) s out k p h =
      let (one, e, h1) =
        >>=-eq-returns (serve_loop req resp handler (suc (length stream)) stream s)
          (λ (o : Served S). accept_loop req resp handler script o.state) h in
      accept_loop-keeps P script one.state out k
        (serve_loop-keeps P (suc (length stream)) stream s one k p e) h1
  accept_loop-keeps P ((true, would_block) ∷ script) s out k p h =
      subst (λ (o : Bool × S). P o.1) (returns_injective h) p
  accept_loop-keeps P ((false, would_block) ∷ script) s out k p h =
      accept_loop-keeps P script s out k p h
  accept_loop-keeps P ((stop, fails) ∷ script) s out k p h =
      subst (λ (o : Bool × S). P o.1) (returns_injective h) p
