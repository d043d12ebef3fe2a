-- ===== src/ConfigEdit/Plan.antt =====
-- src/config_edit.rs: where an edit goes, what it writes, and the three edits.
use periodic.Prelude.{
  ℕ, ◌+◌, ◌-◌, Bool, false, not, ◌&&◌, ◌||◌, Option, none, some, List, [], ◌∷◌, ◌++◌, Text, codes,
  is_space, is_empty, ◌==◌, if◌then◌else◌, drop, take, nth, length, max, and_then, trim_end_by,
}
use periodic.Run.{Run, returns, ◌>>=◌, unwrap}
use periodic.ConfigEdit.{
  Items, Span, slice_to, slice_from, splice, is_end, not_flow, starts_mapping, skip_comments,
  end_of_node, map_entries, is_text, scalar_at, jobs_seq_start, last_job_item, locate_job,
}

abbrev pub newline : ℕ
newline = 10

-- `rfind('\n')` and one more, 0 where there is none; `i` bytes are read and `found` is the last.
abbrev pub after_newline : Text → ℕ → ℕ → ℕ
after_newline [] i found = found
after_newline (c ∷ s) i found = after_newline s (i + 1) (if c == newline then i + 1 else found)

-- The start of the line of an offset.
abbrev pub line_start : Text → ℕ → Run ℕ
line_start source at = slice_to source at >>= (λ before. returns (after_newline before 0 0))

-- `find('\n')`.
abbrev pub find_newline : Text → Option ℕ
find_newline [] = none
find_newline (c ∷ s) =
    let rest = and_then (find_newline s) (λ n. some (n + 1)) in
    if c == newline then some 0 else rest

-- What `trim_start` takes away.
abbrev pub leading_space : Text → Text
leading_space [] = []
leading_space (c ∷ s) = if is_space c then c ∷ leading_space s else []

unfoldable pub line_indent_of : Text → ℕ → Run Text
line_indent_of source at = line_start source at >>= λ start.
    slice_from source start >>= (λ line. returns (leading_space line))

abbrev pub literal : Bool → Text
literal enabled = if enabled then codes "true" else codes "false"

abbrev pub Plan : Type 0
Plan = (ℕ × ℕ) × Text

-- The value of an entry `enabled`, if it has a span; otherwise the search goes on.
abbrev pub or_search : Span → Run (Option (ℕ × ℕ)) → Run (Option (ℕ × ℕ))
or_search none rest = rest
or_search (some r) rest = returns (some r)

abbrev pub value_range : Items → ℕ → Run (Option (ℕ × ℕ)) → Run (Option (ℕ × ℕ))
value_range events v rest = unwrap (nth events v) >>= λ e. or_search e.range rest

abbrev pub enabled_range : Items → List (ℕ × ℕ) → Run (Option (ℕ × ℕ))
enabled_range events [] = returns none
enabled_range events ((k, v) ∷ entries) =
    let rest = enabled_range events entries in
    let found = value_range events v rest in
    if is_text (codes "enabled") (scalar_at events k) then found else rest

abbrev pub second_key : ℕ → List (ℕ × ℕ) → ℕ
second_key first_k [] = first_k
second_key first_k ((k, v) ∷ entries) = k

abbrev pub start_or_zero : Span → ℕ
start_or_zero none = 0
start_or_zero (some r) = r.0

-- The end of the line of an offset, or of the source.
abbrev pub line_end : Text → ℕ → Run ℕ
line_end source at = slice_from source at >>= λ after. elim (find_newline after) [
  | none ↦ returns (length source)
  | some n ↦ returns (at + n)
]

abbrev pub inserted : Text → Bool → Text
inserted indent enabled = newline ∷ (indent ++ (codes "enabled: " ++ literal enabled))

abbrev pub insert_after : Text → Text → Bool → Span → Run (Option Plan)
insert_after source indent enabled none = returns none
insert_after source indent enabled (some r) =
    line_end source r.1 >>= λ at. returns (some ((at, at), inserted indent enabled))

-- The new line, after the first entry.
abbrev pub plan_insert : Text → Items → List (ℕ × ℕ) → Bool → Run (Option Plan)
plan_insert source events [] enabled = returns none
plan_insert source events ((first_k, first_v) ∷ entries) enabled =
    unwrap (nth events (second_key first_k entries)) >>= λ key.
    line_indent_of source (start_or_zero key.range) >>= λ indent.
    unwrap (nth events (end_of_node events first_v - 1)) >>= λ last.
    insert_after source indent enabled last.range

abbrev pub plan_from : Text → Items → List (ℕ × ℕ) → Bool → Option (ℕ × ℕ) → Run (Option Plan)
plan_from source events entries enabled (some r) = returns (some (r, literal enabled))
plan_from source events entries enabled none = plan_insert source events entries enabled

unfoldable pub plan_set_enabled : Text → Items → ℕ → Bool → Run (Option Plan)
plan_set_enabled source events item enabled =
    let entries = map_entries events item in
    enabled_range events entries >>= plan_from source events entries enabled

abbrev pub is_blank : ℕ → Bool
is_blank c = (c == 32) || (c == 9)

abbrev pub ends_with_newline : Text → Bool
ends_with_newline [] = false
ends_with_newline (c ∷ []) = c == newline
ends_with_newline (c ∷ d ∷ s) = ends_with_newline (d ∷ s)

-- The greatest end of the spans of events that open or fill a node.
abbrev pub greatest_end : Items → Option ℕ
greatest_end [] = none
greatest_end (e ∷ events) =
    let rest = greatest_end events in
    if is_end e.event then rest else elim e.range [
      | none ↦ rest
      | some r ↦ elim rest [ none ↦ some r.1 | some m ↦ some (max r.1 m) ]
    ]

abbrev pub past_newline : Text → ℕ → Run ℕ
past_newline source at = slice_from source at >>= λ after. elim (find_newline after) [
  | none ↦ returns (length source)
  | some n ↦ returns (at + n + 1)
]

-- The end of the last job, from the end of its content.
abbrev pub last_end : Text → Option ℕ → Run (Option ℕ)
last_end source none = returns none
last_end source (some content_end) = slice_to source content_end >>= λ before.
    let trimmed = trim_end_by is_blank before in
    let to_line_end = past_newline source content_end >>= (λ at. returns (some at)) in
    if ends_with_newline trimmed then returns (some (length trimmed)) else to_line_end

-- The end of a job before the sibling `next`.
abbrev pub sibling_end : Text → Span → Run (Option ℕ)
sibling_end source none = returns none
sibling_end source (some r) = line_start source r.0 >>= λ at. returns (some at)

abbrev pub block_end : Text → Items → ℕ → ℕ → Run (Option ℕ)
block_end source events item after_node =
    let last = last_end source (greatest_end (take (after_node - item) (drop item events))) in
    elim (nth events (skip_comments events after_node)) [
      | none ↦ last
      | some e ↦
          let sibling = sibling_end source e.range in
          if starts_mapping (some e) then sibling else last
    ]

abbrev pub span_from : ℕ → Option ℕ → Option (ℕ × ℕ)
span_from start none = none
span_from start (some stop) = some (start, stop)

abbrev pub span_of : Text → Items → ℕ → Span → Run (Option (ℕ × ℕ))
span_of source events item none = returns none
span_of source events item (some r) = line_start source r.0 >>= λ start.
    block_end source events item (end_of_node events item)
    >>= (λ stop. returns (span_from start stop))

unfoldable pub job_item_line_span : Text → Items → ℕ → Run (Option (ℕ × ℕ))
job_item_line_span source events item =
    unwrap (nth events item) >>= λ e. span_of source events item e.range

-- A splice that has been planned.
abbrev pub carry_out : Text → Option Plan → Run (Option Text)
carry_out source none = returns none
carry_out source (some plan) = splice source plan.0 plan.1 >>= λ out. returns (some out)

abbrev pub remove_plan : Option (ℕ × ℕ) → Option Plan
remove_plan none = none
remove_plan (some range) = some (range, [])

-- A line break if the text before does not end with one, and the block with one line break.
abbrev pub block_text : Text → Text → Text
block_text before block =
    (if not (is_empty before) && not (ends_with_newline before) then newline ∷ [] else [])
    ++ (trim_end_by (λ c. c == newline) block ++ (newline ∷ []))

abbrev pub append_plan : Text → Text → Option (ℕ × ℕ) → Run (Option Plan)
append_plan source block none = returns none
append_plan source block (some range) = slice_to source range.1 >>= λ before.
    returns (some ((range.1, range.1), block_text before block))

abbrev pub append_after : Text → Items → Text → Option ℕ → Run (Option Text)
append_after source events block none = returns none
append_after source events block (some last) = job_item_line_span source events last >>= λ range.
    append_plan source block range >>= carry_out source

module _ (parse : Text → Option Items) where
  abbrev pub with_events : Text → (Items → Run (Option Text)) → Run (Option Text)
  with_events source edit = elim (parse source) [ none ↦ returns none | some events ↦ edit events ]

  abbrev pub at_job : Items → Text → (ℕ → Run (Option Text)) → Run (Option Text)
  at_job events job_id edit = elim (locate_job events job_id) [
    | none ↦ returns none
    | some item ↦ edit item
  ]

  unfoldable pub set_enabled : Text → Text → Bool → Run (Option Text)
  set_enabled source job_id enabled = with_events source λ events.
      at_job events job_id λ item. plan_set_enabled source events item enabled >>= carry_out source

  unfoldable pub remove_job : Text → Text → Run (Option Text)
  remove_job source job_id = with_events source λ events. at_job events job_id λ item.
      job_item_line_span source events item >>= λ range. carry_out source (remove_plan range)

  unfoldable pub append_job : Text → Text → Run (Option Text)
  append_job source block = with_events source λ events.
      elim (and_then (jobs_seq_start events) (λ seq. not_flow events seq)) [
        | none ↦ returns none
        | some seq ↦ append_after source events block (last_job_item events seq)
      ]
