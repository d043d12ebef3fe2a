-- ===== src/JobBlock/Reader.antt =====
-- YAML's reading of the scalars that src/job_block.rs writes.
use periodic.Prelude.{
  ℕ, Bool, true, false, not, ◌&&◌, ◌||◌, Option, none, some, and_then, [], ◌∷◌, Text, codes, any,
  ltb, text_eq, ◌==◌, if◌then◌else◌, trim_end_by, to_lowercase,
}
use periodic.JobBlock.{quote, backslash, newline}

-- A scalar is read on one line, so control characters are refused, line breaks with them.
abbrev pub is_control : ℕ → Bool
is_control c = (ltb c 32 && not (c == 9)) || (c == 127)

-- The rest of a double-quoted scalar: up to the first quote that is not escaped.
abbrev pub read_quoted : Text → Option (Text × Text)
read_quoted [] = none
read_quoted (c ∷ []) = if c == quote then some ([], []) else none
read_quoted (c ∷ d ∷ s) =
    let unescaped = and_then (read_quoted s) (λ r. some (d ∷ r.0, r.1)) in
    let plain = and_then (read_quoted (d ∷ s)) (λ r. some (c ∷ r.0, r.1)) in
    if c == quote
    then some ([], d ∷ s)
    else if c == backslash
    then if (d == quote) || (d == backslash) then unescaped else none
    else if is_control c
    then none
    else plain

abbrev pub is_flow_mark : ℕ → Bool
is_flow_mark c = any (λ i. c == i) (codes ",[]{}")

abbrev pub is_white : ℕ → Bool
is_white c = (c == 32) || (c == 9)

-- The characters that may not begin a plain scalar.
abbrev pub begins_plain : ℕ → Bool
begins_plain c =
    not (any (λ i. c == i) (b'-' ∷ b'?' ∷ 32 ∷ 9 ∷ newline ∷ quote ∷ codes ":,[]{}#&*!|>'%@`"))

-- A colon in front of these ends a key.
abbrev pub separates : Text → Bool
separates [] = true
separates (d ∷ s) = is_white d || ((d == newline) || is_flow_mark d)

-- A plain scalar ends at a line break, a character of flow collections, the end of a key, or a
-- comment; `white` is whether a blank stands before.
abbrev pub ends_plain : Bool → ℕ → Text → Bool
ends_plain white c s =
    (c == newline) || (is_flow_mark c || (((c == b':') && separates s) || ((c == b'#') && white)))

abbrev pub until_end : Bool → Text → Text × Text
until_end white [] = ([], [])
until_end white (c ∷ s) =
    let (first, rest) = until_end (is_white c) s in
    if ends_plain white c s then ([], c ∷ s) else (c ∷ first, rest)

-- Plain scalars that are no text: null and the Booleans.
abbrev pub is_word : Text → Bool
is_word t = any (λ n. text_eq n t) (codes "true" ∷ codes "false" ∷ codes "null" ∷ codes "~" ∷ [])

module _ (is_float : Text → Bool) where
  -- A plain scalar without the blanks at its end, if it is a text.
  abbrev pub plain_text : Text → Text → Option (Text × Text)
  plain_text s rest =
      if any is_control s || (is_word (to_lowercase s) || is_float s) then none else some (s, rest)

  -- A scalar of either style, in a flow collection or in a line, and what comes behind it.
  abbrev pub read_scalar : Text → Option (Text × Text)
  read_scalar [] = none
  read_scalar (c ∷ s) =
      let (raw, rest) = until_end false (c ∷ s) in
      if c == quote
      then read_quoted s
      else if begins_plain c
      then plain_text (trim_end_by is_white raw) rest
      else none
