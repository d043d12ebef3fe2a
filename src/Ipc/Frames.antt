-- ===== src/Ipc/Frames.antt =====
-- The framing of messages: what is written is read back, one message at a time.
use periodic.Prelude.{
  all-reverse_aux, ℕ, ◌≡◌, refl, ap, ◌∙◌, true, false, not, some, [], ◌∷◌, ◌++◌, Text, all,
  and-eq-true, if_false, drop_while, trim_end_by, arith,
}
use mathlib.Core.List.{reverse, reverse-append, reverse-reverse, append_assoc}
use periodic.Ipc.{
  Codec, newline, is_newline, write_message, read_line, message, parsed, read_message,
}

-- No line break in a text.
abbrev pub IsLine : Text → Type 0
IsLine s = all (λ c. not (is_newline c)) s ≡ true

-- What serde_json does with a message: its compact encoding has no line break, and is decoded to the
-- message.
pub record IsFaithful {A : Type 0} (codec : Codec A) (a : A) : Type 0 where
  pub one_line : IsLine (codec.encode a)
  pub decodes : codec.decode (codec.encode a) ≡ some a

not_newline : (c : ℕ) → not (is_newline c) ≡ true → is_newline c ≡ false
not_newline c h = ground arith

read_line-line :
    (s rest : Text) → IsLine s → read_line (s ++ (newline ∷ rest)) ≡ (s ++ (newline ∷ []), rest)
read_line-line [] rest h = refl
read_line-line (c ∷ s) rest h =
    let (here, there) = and-eq-true (not (is_newline c)) _ h in
    if_false (is_newline c) _ _ (not_newline c here)
    ∙ ap (λ (x : Text × Text). (c ∷ x.0, x.1)) (read_line-line s rest there)

drop_while-line : (s : Text) → IsLine s → drop_while is_newline s ≡ s
drop_while-line [] h = refl
drop_while-line (c ∷ s) h =
    let (here, there) = and-eq-true (not (is_newline c)) _ h in
    if_false (is_newline c) _ _ (not_newline c here)

trim-line : (s : Text) → IsLine s → trim_end_by is_newline (s ++ (newline ∷ [])) ≡ s
trim-line s h =
    ap (λ t. reverse (drop_while is_newline t)) (reverse-append s (newline ∷ []))
    ∙ (ap reverse
          (drop_while-line (reverse s) (all-reverse_aux (λ c. not (is_newline c)) s [] h refl))
        ∙ reverse-reverse s)

read_message-line :
    {A : Type 0} (codec : Codec A) (s rest : Text)
    → IsLine s
    → read_message codec (s ++ (newline ∷ rest)) ≡ parsed (codec.decode s) rest
unfolding read_message
read_message-line codec [] rest h = refl
read_message-line codec (c ∷ s) rest h =
    ap (λ (x : Text × Text). parsed (codec.decode (trim_end_by is_newline x.0)) x.1)
      (read_line-line (c ∷ s) rest h)
    ∙ ap (λ t. parsed (codec.decode t) rest) (trim-line (c ∷ s) h)

-- A message that has been written is read back, and what comes behind it is left.
pub read_message-write_message :
    {A : Type 0} (codec : Codec A) (a : A) (rest : Text)
    → IsFaithful codec a
    → read_message codec (write_message codec a ++ rest) ≡ message a rest
unfolding write_message
read_message-write_message codec a rest f =
    ap (read_message codec) (append_assoc (codec.encode a) (newline ∷ []) rest)
    ∙ (read_message-line codec (codec.encode a) rest f.one_line ∙ ap (λ o. parsed o rest) f.decodes)
