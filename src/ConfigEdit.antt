-- ===== src/ConfigEdit.antt =====
-- src/config_edit.rs: edits of the source text at the spans of its YAML events. Texts are the bytes
-- of the source here, and spans are offsets in them. The parser of the events is a parameter; an
-- error is `none`, its text is left out, and an index or slice out of range is `stuck`.
pub mod Plan
pub mod Tree
pub mod Walk
pub mod Entries
pub mod Heads
pub mod Locate
pub mod Refine
pub mod Enabled
pub mod LineEnds
pub mod Lines
pub mod Splices
pub mod Surgical
pub mod Append
mod Tests
use periodic.Prelude.{
  ℕ, zero, suc, ◌+◌, ◌-◌, ◌≤◌, Bool, true, false, not, ◌&&◌, Option, none, some, List, [], ◌∷◌,
  ◌++◌, Text, codes, text_eq, is_space, is_empty, ltb, leb, ◌==◌, if◌then◌else◌, drop, take, nth,
  head, any, length, max, and_then, trim_end_by, keep_if,
}
use periodic.Run.{Run, returns, stuck, ◌>>=◌, unwrap}

-- `granit_parser::Event`; `other` is an alias, or the start or end of the stream or a document.
pub data Event : Type 0 where
  mapping_start sequence_start : (flow : Bool) → Event
  mapping_end sequence_end comment other : Event
  scalar : Text → Event

abbrev pub Span : Type 0
Span = Option (ℕ × ℕ)

-- An event with the `byte_range` of its span.
pub record Item : Type 0 where
  pub event : Event
  pub range : Span

abbrev pub Items : Type 0
Items = List Item

-- `&source[..at]` and `&source[at..]`.
abbrev pub slice_to : Text → ℕ → Run Text
slice_to source at = if leb at (length source) then returns (take at source) else stuck

abbrev pub slice_from : Text → ℕ → Run Text
slice_from source at = if leb at (length source) then returns (drop at source) else stuck

unfoldable pub splice : Text → ℕ × ℕ → Text → Run Text
splice source range text = slice_to source range.0 >>= λ before.
    slice_from source range.1 >>= (λ after. returns (before ++ (text ++ after)))

abbrev pub is_comment : Event → Bool
is_comment comment = true
is_comment _ = false

abbrev pub is_mapping_start : Event → Bool
is_mapping_start (mapping_start flow) = true
is_mapping_start _ = false

abbrev pub is_sequence_start : Event → Bool
is_sequence_start (sequence_start flow) = true
is_sequence_start _ = false

abbrev pub is_end : Event → Bool
is_end mapping_end = true
is_end sequence_end = true
is_end _ = false

-- The loop of `skip_comments` over the events from `i` on.
abbrev pub skip_run : Items → ℕ → ℕ
skip_run [] i = i
skip_run (e ∷ events) i =
    let rest = skip_run events (i + 1) in if is_comment e.event then rest else i

unfoldable pub skip_comments : Items → ℕ → ℕ
skip_comments events i = skip_run (drop i events) i

-- The loop of `end_of_node` over the events from `i` on.
unfoldable pub end_loop : Items → ℕ → ℕ → ℕ
end_loop [] depth i = i
end_loop (e ∷ events) depth i =
    let deeper = end_loop events (depth + 1) (i + 1) in
    let shallower = end_loop events (depth - 1) (i + 1) in
    let level = end_loop events depth (i + 1) in
    if is_mapping_start e.event
    then deeper
    else if is_sequence_start e.event
    then deeper
    else if is_end e.event
    then if depth - 1 == 0 then i + 1 else shallower
    else level

abbrev pub end_of : Items → Option Item → ℕ → ℕ
end_of events none start = start + 1
end_of events (some e) start =
    if is_mapping_start e.event
    then end_loop (drop start events) 0 start
    else if is_sequence_start e.event
    then end_loop (drop start events) 0 start
    else start + 1

unfoldable pub end_of_node : Items → ℕ → ℕ
end_of_node events start = end_of events (nth events start) start

-- The head of a loop over the children of a node: the events have run out, or its end is reached.
abbrev pub stops_mapping : Option Item → Bool
stops_mapping none = true
stops_mapping (some e) = elim e.event [ mapping_end ↦ true | _ ↦ false ]

abbrev pub stops_sequence : Option Item → Bool
stops_sequence none = true
stops_sequence (some e) = elim e.event [ sequence_end ↦ true | _ ↦ false ]

-- The loop of `map_entries`; the fuel is more than the events that are left.
unfoldable pub entries_loop : ℕ → Items → ℕ → List (ℕ × ℕ)
entries_loop zero events i = []
entries_loop (suc fuel) events i =
    let value = skip_comments events (i + 1) in
    let rest = entries_loop fuel events (skip_comments events (end_of_node events value)) in
    if stops_mapping (nth events i) then [] else (i, value) ∷ rest

unfoldable pub map_entries : Items → ℕ → List (ℕ × ℕ)
map_entries events start = entries_loop (length events) events (skip_comments events (start + 1))

abbrev pub scalar_of : Option Item → Option Text
scalar_of none = none
scalar_of (some e) = elim e.event [ scalar t ↦ some t | _ ↦ none ]

unfoldable pub scalar_at : Items → ℕ → Option Text
scalar_at events i = scalar_of (nth events i)

-- A comparison with `Some(text)`.
abbrev pub is_text : Text → Option Text → Bool
is_text t none = false
is_text t (some s) = text_eq s t

abbrev pub starts_sequence : Option Item → Bool
starts_sequence none = false
starts_sequence (some e) = is_sequence_start e.event

abbrev pub starts_mapping : Option Item → Bool
starts_mapping none = false
starts_mapping (some e) = is_mapping_start e.event

-- The closure of `jobs_seq_start`, as a search through the entries.
abbrev pub find_jobs : Items → List (ℕ × ℕ) → Option ℕ
find_jobs events [] = none
find_jobs events ((k, v) ∷ entries) =
    if is_text (codes "jobs") (scalar_at events k) && starts_sequence (nth events v)
    then some v
    else find_jobs events entries

-- `position` of the first mapping.
abbrev pub first_mapping : Items → ℕ → Option ℕ
first_mapping [] i = none
first_mapping (e ∷ events) i =
    let rest = first_mapping events (i + 1) in if is_mapping_start e.event then some i else rest

unfoldable pub jobs_seq_start : Items → Option ℕ
jobs_seq_start events =
    and_then (first_mapping events 0) (λ root. find_jobs events (map_entries events root))

abbrev pub entry_is_id : Items → Text → ℕ × ℕ → Bool
entry_is_id events job_id (k, v) =
    is_text (codes "id") (scalar_at events k) && is_text job_id (scalar_at events v)

abbrev pub item_has_id : Items → Text → ℕ → Bool
item_has_id events job_id item =
    starts_mapping (nth events item) && any (entry_is_id events job_id) (map_entries events item)

-- The loop of `find_job_item`; the fuel is more than the events that are left.
unfoldable pub find_loop : ℕ → Items → Text → ℕ → Option ℕ
find_loop zero events job_id i = none
find_loop (suc fuel) events job_id i =
    let rest = find_loop fuel events job_id (skip_comments events (end_of_node events i)) in
    if stops_sequence (nth events i)
    then none
    else if item_has_id events job_id i
    then some i
    else rest

unfoldable pub find_job_item : Items → Text → Option ℕ
find_job_item events job_id =
    and_then (jobs_seq_start events)
      (λ seq. find_loop (length events) events job_id (skip_comments events (seq + 1)))

-- The loop of `last_job_item`.
unfoldable pub last_loop : ℕ → Items → Option ℕ → ℕ → Option ℕ
last_loop zero events last i = last
last_loop (suc fuel) events last i =
    let found = if starts_mapping (nth events i) then some i else last in
    let rest = last_loop fuel events found (skip_comments events (end_of_node events i)) in
    if stops_sequence (nth events i) then last else rest

unfoldable pub last_job_item : Items → ℕ → Option ℕ
last_job_item events seq = last_loop (length events) events none (skip_comments events (seq + 1))

abbrev pub is_flow : Option Item → Bool
is_flow none = false
is_flow (some e) = elim e.event [ mapping_start b ↦ b | sequence_start b ↦ b | _ ↦ false ]

-- An index that does not stand at a flow-style node.
abbrev pub not_flow : Items → ℕ → Option ℕ
not_flow events i = if is_flow (nth events i) then none else some i

unfoldable pub locate_job : Items → Text → Option ℕ
locate_job events job_id = and_then (jobs_seq_start events) (λ seq.
    and_then (not_flow events seq)
      (λ s. and_then (find_job_item events job_id) (λ item. not_flow events item)))
