-- ===== src/ConfigEdit/Entries.antt =====
-- The walk over the entries of a mapping in the events of a tree.
use mathlib.Core.List.{append_assoc}
use periodic.Prelude.{
  ℕ, zero, suc, ◌+◌, ◌≤◌, ◌<◌, ◌≡◌, refl, ap, ◌∙◌, Bool, false, Option, none, some, List, [], ◌∷◌,
  ◌++◌, Text, length, length-append, drop, head, nth, arith,
}
use periodic.ConfigEdit.{
  mapping_start, mapping_end, Span, Items, skip_comments, end_of_node, stops_mapping, entries_loop,
  map_entries,
}
use periodic.ConfigEdit.Tree.{
  Node, mapping, Fields, no_fields, field, at_span, comment_items, leaf_event, emit, emit_fields,
  positions,
}
use periodic.ConfigEdit.Walk.{
  drop-past, past_comments, skip_comments-comment_items, emit-Clear, leaf-Clear, end_of_node-emit,
}

-- How many fields a mapping has.
abbrev pub count_fields : Fields → ℕ
count_fields (no_fields comments) = 0
count_fields (field comments key span between value fields) = suc (count_fields fields)

-- Where the parts of a field are that stands at a place `i`, before `behind`.
pub record FieldAt (events : Items) (i k v : ℕ) (key : Option Text) (s : Span) (value : Node)
    (behind : Items) : Type 0 where
  pub at_key : skip_comments events i ≡ k
  pub key_event : nth events k ≡ some (at_span (leaf_event key) s)
  pub at_value : skip_comments events (k + 1) ≡ v
  pub value_events : drop v events ≡ emit value ++ behind
  pub at_end : end_of_node events v ≡ v + length (emit value)
  pub end_events : drop (v + length (emit value)) events ≡ behind

pub field_at :
    (events : Items) (i : ℕ) (cs : List Span) (key : Option Text) (s : Span) (between : List Span)
    (value : Node) (fields : Fields) (behind : Items)
    → drop i events ≡ emit_fields (field cs key s between value fields) ++ behind
    → FieldAt events i
        (i + length cs)
        (i + length cs + 1 + length between)
        key
        s
        value
        (emit_fields fields ++ behind)
unfolding emit_fields
field_at events i cs key s between value fields behind at =
    let inner = comment_items between ++ (emit value ++ emit_fields fields) in
    let at1 = at ∙ append_assoc (comment_items cs) (at_span (leaf_event key) s ∷ inner) behind in
    let at2 = past_comments events i cs (at_span (leaf_event key) s ∷ (inner ++ behind)) at1 in
    let at3 =
      drop-past (i + length cs) events (at_span (leaf_event key) s ∷ []) (inner ++ behind) at2 in
    let at4 =
      at3
      ∙ (append_assoc (comment_items between) (emit value ++ emit_fields fields) behind
          ∙ ap (comment_items between ++◌)
              (append_assoc (emit value) (emit_fields fields) behind)) in
    let at5 =
      past_comments events (i + length cs + 1) between
        (emit value ++ (emit_fields fields ++ behind)) at4 in
    record {
      at_key =
          skip_comments-comment_items events i cs (at_span (leaf_event key) s ∷ (inner ++ behind))
            at1 (leaf-Clear key s (inner ++ behind));
      key_event = ap head at2;
      at_value =
          skip_comments-comment_items events (i + length cs + 1) between
            (emit value ++ (emit_fields fields ++ behind)) at4
            (emit-Clear value (emit_fields fields ++ behind));
      value_events = at5;
      at_end = end_of_node-emit events (i + length cs + 1 + length between) value _ at5;
      end_events = drop-past (i + length cs + 1 + length between) events (emit value) _ at5;
    }

-- A key does not end a mapping.
key_goes_on :
    (key : Option Text) (s : Span) → stops_mapping (some (at_span (leaf_event key) s)) ≡ false
key_goes_on none s = refl
key_goes_on (some t) s = refl

-- The loop over the entries finds the positions of the fields that stand at a place.
entries_loop-positions :
    (fuel : ℕ) (events : Items) (i : ℕ) (fields : Fields) (e : Span) (rest : Items)
    → count_fields fields < fuel
    → drop i events ≡ emit_fields fields ++ (at_span mapping_end e ∷ rest)
    → entries_loop fuel events (skip_comments events i) ≡ positions fields i
unfolding entries_loop emit_fields positions
entries_loop-positions zero events i fields e rest enough at = absurd (omega (arith, enough))
entries_loop-positions (suc fuel) events i (no_fields cs) e rest enough at =
    let here = skip_comments-comment_items events i cs (at_span mapping_end e ∷ rest) at refl in
    let there = past_comments events i cs (at_span mapping_end e ∷ rest) at in rw (here, there) refl
entries_loop-positions (suc fuel) events i (field cs key s between value fields) e rest enough at =
    let f = field_at events i cs key s between value fields (at_span mapping_end e ∷ rest) at in
    rw (f.at_key, f.at_value, f.key_event, key_goes_on key s, f.at_end)
      (ap ((i + length cs, i + length cs + 1 + length between) ∷◌) (
        entries_loop-positions fuel events
          (i + length cs + 1 + length between + length (emit value)) fields e rest
          (omega (arith, enough)) f.end_events))

count_fields-le : (fields : Fields) → count_fields fields ≤ length (emit_fields fields)
unfolding emit_fields
count_fields-le (no_fields cs) = omega arith
count_fields-le (field cs key s between value fields) = omega (
  arith,
  count_fields-le fields,
  length-append (comment_items cs)
      (at_span (leaf_event key) s ∷ (comment_items between ++ (emit value ++ emit_fields fields))),
  length-append (comment_items between) (emit value ++ emit_fields fields),
  length-append (emit value) (emit_fields fields),
)

pub length-drop_le {ℓ} : {A : Type ℓ} (i : ℕ) (xs : List A) → length (drop i xs) ≤ length xs
length-drop_le zero xs = omega arith
length-drop_le (suc i) [] = omega arith
length-drop_le (suc i) (x ∷ xs) = omega (arith, length-drop_le i xs)

-- `map_entries` at a mapping of a tree finds the positions of its fields.
pub map_entries-positions :
    (events : Items) (i : ℕ) (flow : Bool) (s : Span) (fields : Fields) (e : Span) (rest : Items)
    → drop i events ≡ emit (mapping flow s fields e) ++ rest
    → map_entries events i ≡ positions fields (i + 1)
unfolding map_entries emit
map_entries-positions events i flow s fields e rest at =
    let inside =
      drop-past i events (at_span (mapping_start flow) s ∷ []) _ at
      ∙ append_assoc (emit_fields fields) (at_span mapping_end e ∷ []) rest in
    entries_loop-positions (length events) events (i + 1) fields e rest
      (omega (
        arith,
        count_fields-le fields,
        ap (λ xs. length xs) at,
        length-drop_le i events,
        length-append (emit_fields fields ++ (at_span mapping_end e ∷ [])) rest,
        length-append (emit_fields fields) (at_span mapping_end e ∷ []),
      ))
      inside
