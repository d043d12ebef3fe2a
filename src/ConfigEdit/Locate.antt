-- ===== src/ConfigEdit/Locate.antt =====
-- The search for a job in the events of a document is the search in its tree.
use mathlib.Core.List.{append_assoc}
use periodic.Prelude.{
  ℕ, zero, suc, ◌+◌, ◌≤◌, ◌<◌, ◌≡◌, refl, ap, sym, ◌∙◌, Bool, Bool-cases, true, false, ◌&&◌, Option,
  none, some, List, [], ◌∷◌, ◌++◌, Text, codes, length, length-append, drop, head, nth, any, arith,
  if◌then◌else◌, and_then, inl, inr, subst, if_true, if_false, some_injective,
}
use periodic.ConfigEdit.{
  mapping_start, mapping_end, sequence_end, Span, Items, is_text, scalar_of, scalar_at,
  starts_sequence, starts_mapping, find_jobs, entry_is_id, item_has_id, find_loop, skip_comments,
  end_of_node, stops_sequence,
}
use periodic.ConfigEdit.Tree.{
  Node, leaf, mapping, sequence, Fields, no_fields, field, Nodes, no_nodes, node, at_span,
  comment_items, emit, emit_fields, emit_nodes, positions, text_of, has_id, is_job, Found, tree_job,
  is_sequence, tree_jobs,
}
use periodic.ConfigEdit.Walk.{
  drop-past, past_comments, skip_comments-comment_items, emit-Clear, end_of_node-emit,
}
use periodic.ConfigEdit.Entries.{field_at, map_entries-positions}
use periodic.ConfigEdit.Heads.{text_of-head, sequence_head, goes_on_head, key_text}

any-has_id :
    (events : Items) (id : Text) (i : ℕ) (fields : Fields) (behind : Items)
    → drop i events ≡ emit_fields fields ++ behind
    → any (entry_is_id events id) (positions fields i) ≡ has_id id fields
unfolding positions has_id scalar_at
any-has_id events id i (no_fields cs) behind at = refl
any-has_id events id i (field cs key s between value fields) behind at =
    let f = field_at events i cs key s between value fields behind at in
    let v = i + length cs + 1 + length between in
    let k_text : scalar_of (nth events (i + length cs)) ≡ key = rw f.key_event (key_text key s) in
    let v_text : scalar_of (nth events v) ≡ text_of value =
      ap (λ es. scalar_of (head es)) f.value_events
      ∙ text_of-head value (emit_fields fields ++ behind) in
    rw (k_text, v_text, any-has_id events id (v + length (emit value)) fields behind f.end_events)
      refl

item_has_id-is_job :
    (events : Items) (id : Text) (i : ℕ) (n : Node) (behind : Items)
    → drop i events ≡ emit n ++ behind
    → item_has_id events id i ≡ is_job id n
unfolding emit
item_has_id-is_job events id i (leaf none s) behind at = rw at refl
item_has_id-is_job events id i (leaf (some t) s) behind at = rw at refl
item_has_id-is_job events id i (sequence flow s nodes e) behind at = rw at refl
item_has_id-is_job events id i (mapping flow s fields e) behind at =
    let inside =
      drop-past i events (at_span (mapping_start flow) s ∷ []) _ at
      ∙ append_assoc (emit_fields fields) (at_span mapping_end e ∷ []) behind in
    let starts : starts_mapping (nth events i) ≡ true = ap (λ es. starts_mapping (head es)) at in
    rw (starts, map_entries-positions events i flow s fields e behind at)
      (any-has_id events id (i + 1) fields (at_span mapping_end e ∷ behind) inside)

-- The index of what is found.
abbrev pub index : Option Found → Option ℕ
index found = and_then found (λ r. some r.0)

pub find_jobs-tree_jobs :
    (events : Items) (i : ℕ) (fields : Fields) (behind : Items)
    → drop i events ≡ emit_fields fields ++ behind
    → find_jobs events (positions fields i) ≡ index (tree_jobs fields i)
unfolding positions tree_jobs scalar_at
find_jobs-tree_jobs events i (no_fields cs) behind at = refl
find_jobs-tree_jobs events i (field cs key s between value fields) behind at =
    let f = field_at events i cs key s between value fields behind at in
    let v = i + length cs + 1 + length between in
    let k_text : scalar_of (nth events (i + length cs)) ≡ key = rw f.key_event (key_text key s) in
    let starts : starts_sequence (nth events v) ≡ is_sequence value =
      ap (λ es. starts_sequence (head es)) f.value_events
      ∙ sequence_head value (emit_fields fields ++ behind) in
    rw
      (
        k_text,
        starts,
        find_jobs-tree_jobs events (v + length (emit value)) fields behind f.end_events,
      )
      (go (is_text (codes "jobs") key && is_sequence value) v
        (tree_jobs fields (v + length (emit value))))
  where
    go :
        (b : Bool) (v : ℕ) (o : Option Found)
        → (if b then some v else index o) ≡ index (if b then some (v, value) else o)
    go true v o = refl
    go false v o = refl

-- Where the events of a found node are.
abbrev pub Stands : Items → Found → Type 0
Stands events found = (behind : Items) × (drop found.0 events ≡ emit found.1 ++ behind)

pub tree_jobs-Stands :
    (events : Items) (i : ℕ) (fields : Fields) (behind : Items) (found : Found)
    → drop i events ≡ emit_fields fields ++ behind
    → tree_jobs fields i ≡ some found
    → Stands events found
unfolding tree_jobs
tree_jobs-Stands events i (no_fields cs) behind found at h = cc
tree_jobs-Stands events i (field cs key s between value fields) behind found at h =
    let f = field_at events i cs key s between value fields behind at in
    let v = i + length cs + 1 + length between in
    elim (Bool-cases (is_text (codes "jobs") key && is_sequence value)) [
      | inl hit ↦
          let e : some (v, value) ≡ some found = sym (if_true _ _ _ hit) ∙ h in
          subst (Stands events) (some_injective e) (emit_fields fields ++ behind, f.value_events)
      | inr miss ↦
          tree_jobs-Stands events (v + length (emit value)) fields behind found f.end_events
            (sym (if_false (is_text (codes "jobs") key && is_sequence value) _ _ miss) ∙ h)
    ]

record NodeAt (events : Items) (i k : ℕ) (n : Node) (behind : Items) : Type 0 where
  at_node : skip_comments events i ≡ k
  node_events : drop k events ≡ emit n ++ behind
  at_end : end_of_node events k ≡ k + length (emit n)
  end_events : drop (k + length (emit n)) events ≡ behind

node_at :
    (events : Items) (i : ℕ) (cs : List Span) (n : Node) (nodes : Nodes) (behind : Items)
    → drop i events ≡ emit_nodes (node cs n nodes) ++ behind
    → NodeAt events i (i + length cs) n (emit_nodes nodes ++ behind)
unfolding emit_nodes
node_at events i cs n nodes behind at =
    let at1 =
      at
      ∙ (append_assoc (comment_items cs) (emit n ++ emit_nodes nodes) behind
          ∙ ap (comment_items cs ++◌) (append_assoc (emit n) (emit_nodes nodes) behind)) in
    let at2 = past_comments events i cs (emit n ++ (emit_nodes nodes ++ behind)) at1 in
    record {
      at_node =
          skip_comments-comment_items events i cs (emit n ++ (emit_nodes nodes ++ behind)) at1
            (emit-Clear n (emit_nodes nodes ++ behind));
      node_events = at2;
      at_end = end_of_node-emit events (i + length cs) n _ at2;
      end_events = drop-past (i + length cs) events (emit n) _ at2;
    }

abbrev pub count_nodes : Nodes → ℕ
count_nodes (no_nodes cs) = 0
count_nodes (node cs n nodes) = suc (count_nodes nodes)

emit_pos : (n : Node) → 0 < length (emit n)
unfolding emit
emit_pos (leaf t s) = omega arith
emit_pos (mapping flow s fields e) = omega arith
emit_pos (sequence flow s nodes e) = omega arith

pub count_nodes-le : (nodes : Nodes) → count_nodes nodes ≤ length (emit_nodes nodes)
unfolding emit_nodes
count_nodes-le (no_nodes cs) = omega arith
count_nodes-le (node cs n nodes) = omega (
  arith,
  count_nodes-le nodes,
  emit_pos n,
  length-append (comment_items cs) (emit n ++ emit_nodes nodes),
  length-append (emit n) (emit_nodes nodes),
)

pub find_loop-tree_job :
    (fuel : ℕ) (events : Items) (id : Text) (i : ℕ) (nodes : Nodes) (e : Span) (rest : Items)
    → count_nodes nodes < fuel
    → drop i events ≡ emit_nodes nodes ++ (at_span sequence_end e ∷ rest)
    → find_loop fuel events id (skip_comments events i) ≡ index (tree_job id nodes i)
unfolding find_loop tree_job emit_nodes
find_loop-tree_job zero events id i nodes e rest enough at = absurd (omega (arith, enough))
find_loop-tree_job (suc fuel) events id i (no_nodes cs) e rest enough at =
    let here = skip_comments-comment_items events i cs (at_span sequence_end e ∷ rest) at refl in
    let there = past_comments events i cs (at_span sequence_end e ∷ rest) at in
    rw (here, there) refl
find_loop-tree_job (suc fuel) events id i (node cs n nodes) e rest enough at =
    let f = node_at events i cs n nodes (at_span sequence_end e ∷ rest) at in
    let k = i + length cs in
    let on : stops_sequence (nth events k) ≡ false =
      ap (λ es. stops_sequence (head es)) f.node_events
      ∙ goes_on_head n (emit_nodes nodes ++ (at_span sequence_end e ∷ rest)) in
    let again =
      find_loop-tree_job fuel events id (k + length (emit n)) nodes e rest (omega (arith, enough))
        f.end_events in
    rw (f.at_node, on, item_has_id-is_job events id k n _ f.node_events, f.at_end, again)
      (go (is_job id n) k (tree_job id nodes (k + length (emit n))))
  where
    go :
        (b : Bool) (k : ℕ) (o : Option Found)
        → (if b then some k else index o) ≡ index (if b then some (k, n) else o)
    go true k o = refl
    go false k o = refl

pub tree_job-Stands :
    (events : Items) (id : Text) (i : ℕ) (nodes : Nodes) (behind : Items) (found : Found)
    → drop i events ≡ emit_nodes nodes ++ behind
    → tree_job id nodes i ≡ some found
    → Stands events found
unfolding tree_job
tree_job-Stands events id i (no_nodes cs) behind found at h = cc
tree_job-Stands events id i (node cs n nodes) behind found at h =
    let f = node_at events i cs n nodes behind at in
    elim (Bool-cases (is_job id n)) [
      | inl hit ↦
          let e : some (i + length cs, n) ≡ some found = sym (if_true (is_job id n) _ _ hit) ∙ h in
          subst (Stands events) (some_injective e) (emit_nodes nodes ++ behind, f.node_events)
      | inr miss ↦
          tree_job-Stands events id (i + length cs + length (emit n)) nodes behind found
            f.end_events (sym (if_false (is_job id n) _ _ miss) ∙ h)
    ]
