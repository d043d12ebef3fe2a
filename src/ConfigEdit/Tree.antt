-- ===== src/ConfigEdit/Tree.antt =====
-- The reference for the walks over events: a document as a tree, the events that the parser emits for
-- it, and the search for a job in the tree.
use periodic.Prelude.{
  ℕ, ◌+◌, ◌≡◌, Bool, true, false, ◌&&◌, ◌||◌, Option, none, some, List, [], ◌∷◌, ◌++◌, Text, codes,
  if◌then◌else◌, length, and_then, All,
}
use periodic.ConfigEdit.{
  Event, mapping_start, sequence_start, mapping_end, sequence_end, comment, other, scalar, Span,
  Item, Items, is_mapping_start, is_text,
}

-- A node with the spans of its events. `Fields` and `Nodes` are what is inside of a mapping and a
-- sequence, with the spans of the comments before each event; a leaf is a scalar or an alias, and so
-- is a key.
mutual
  pub data Node : Type 0 where
    leaf : (text : Option Text) (span : Span) → Node
    mapping : (flow : Bool) (start : Span) → Fields → (stop : Span) → Node
    sequence : (flow : Bool) (start : Span) → Nodes → (stop : Span) → Node

  pub data Fields : Type 0 where
    no_fields : (comments : List Span) → Fields
    field :
        (comments : List Span) (key : Option Text) (span : Span) (between : List Span)
        → Node
        → Fields
        → Fields

  pub data Nodes : Type 0 where
    no_nodes : (comments : List Span) → Nodes
    node : (comments : List Span) → Node → Nodes → Nodes

abbrev pub at_span : Event → Span → Item
at_span event span = record { event = event; range = span }

abbrev pub comment_items : List Span → Items
comment_items [] = []
comment_items (s ∷ spans) = at_span comment s ∷ comment_items spans

abbrev pub leaf_event : Option Text → Event
leaf_event none = other
leaf_event (some t) = scalar t

unfoldable mutual
  pub emit : Node → Items
  emit (leaf text span) = at_span (leaf_event text) span ∷ []
  emit (mapping flow start fields stop) =
      at_span (mapping_start flow) start ∷ (emit_fields fields ++ (at_span mapping_end stop ∷ []))
  emit (sequence flow start nodes stop) =
      at_span (sequence_start flow) start ∷ (emit_nodes nodes ++ (at_span sequence_end stop ∷ []))

  pub emit_fields : Fields → Items
  emit_fields (no_fields comments) = comment_items comments
  emit_fields (field comments key span between value fields) =
      comment_items comments
      ++ (at_span (leaf_event key) span
          ∷ (comment_items between ++ (emit value ++ emit_fields fields)))

  pub emit_nodes : Nodes → Items
  emit_nodes (no_nodes comments) = comment_items comments
  emit_nodes (node comments n nodes) = comment_items comments ++ (emit n ++ emit_nodes nodes)

-- The indices of the keys and values of a mapping, from the index of its first event on.
unfoldable pub positions : Fields → ℕ → List (ℕ × ℕ)
positions (no_fields comments) i = []
positions (field comments key span between value fields) i =
    let k = i + length comments in
    let v = k + 1 + length between in (k, v) ∷ positions fields (v + length (emit value))

abbrev pub text_of : Node → Option Text
text_of (leaf text span) = text
text_of (mapping flow start fields stop) = none
text_of (sequence flow start nodes stop) = none

-- Some field `id` of the mapping is the text.
unfoldable pub has_id : Text → Fields → Bool
has_id id (no_fields comments) = false
has_id id (field comments key span between value fields) =
    (is_text (codes "id") key && is_text id (text_of value)) || has_id id fields

abbrev pub is_job : Text → Node → Bool
is_job id (leaf text span) = false
is_job id (mapping flow start fields stop) = has_id id fields
is_job id (sequence flow start nodes stop) = false

-- A node and the index of its first event.
abbrev pub Found : Type 0
Found = ℕ × Node

-- The first of the nodes that is a job of the id; `i` is the index of the first event.
unfoldable pub tree_job : Text → Nodes → ℕ → Option Found
tree_job id (no_nodes comments) i = none
tree_job id (node comments n nodes) i =
    let at = i + length comments in
    let rest = tree_job id nodes (at + length (emit n)) in
    if is_job id n then some (at, n) else rest

abbrev pub is_sequence : Node → Bool
is_sequence (sequence flow start nodes stop) = true
is_sequence _ = false

-- The value of the first field `jobs` that is a sequence.
unfoldable pub tree_jobs : Fields → ℕ → Option Found
tree_jobs (no_fields comments) i = none
tree_jobs (field comments key span between value fields) i =
    let v = i + length comments + 1 + length between in
    let rest = tree_jobs fields (v + length (emit value)) in
    if is_text (codes "jobs") key && is_sequence value then some (v, value) else rest

abbrev pub node_is_flow : Node → Bool
node_is_flow (leaf text span) = false
node_is_flow (mapping flow start fields stop) = flow
node_is_flow (sequence flow start nodes stop) = flow

abbrev pub block_style : Found → Option Found
block_style found = if node_is_flow found.1 then none else some found

abbrev pub job_in : Text → Found → Option Found
job_in id (i, leaf text span) = none
job_in id (i, mapping flow start fields stop) = none
job_in id (i, sequence flow start nodes stop) = tree_job id nodes (i + 1)

-- The job of the id in a document whose root is a mapping at index `i`: refused where `jobs` or the
-- job itself has flow style.
abbrev pub tree_locate : Text → Fields → ℕ → Option Found
tree_locate id fields i =
    and_then (tree_jobs fields (i + 1))
      (λ seq. and_then (block_style seq) (λ s. and_then (job_in id s) block_style))

-- A document: what stands before the root, the root and what follows it.
pub record Document : Type 0 where
  pub before : Items
  pub flow : Bool
  pub start : Span
  pub fields : Fields
  pub stop : Span
  pub behind : Items
  pub no_mapping : All (λ e. is_mapping_start e.event ≡ false) before

abbrev pub root : Document → Node
root d = mapping d.flow d.start d.fields d.stop

abbrev pub events_of : Document → Items
events_of d = d.before ++ (emit (root d) ++ d.behind)
