-- ===== src/ConfigEdit/Refine.antt =====
-- `locate_job` on the events of a document refines the search in its tree.
use mathlib.Core.List.{append_assoc}
use periodic.Prelude.{
  ℕ, ◌+◌, ◌≡◌, refl, ap, sym, ◌∙◌, Bool, Bool-cases, true, false, Option-cases, none, some, [], ◌∷◌,
  ◌++◌, Text, length, length-append, drop, head, nth, drop-append, arith, if◌then◌else◌, and_then,
  inl, inr, All, subst, if_true, if_false, some_injective, and-eq-true, codes, ◌&&◌,
}
use periodic.ConfigEdit.{
  mapping_start, sequence_start, mapping_end, sequence_end, Span, Items, is_mapping_start,
  first_mapping, jobs_seq_start, find_loop, find_job_item, is_flow, not_flow, locate_job,
  skip_comments, is_text,
}
use periodic.ConfigEdit.Tree.{
  leaf, mapping, sequence, Fields, no_fields, field, is_sequence, Nodes, at_span, emit, emit_fields,
  emit_nodes, Found, tree_job, tree_jobs, node_is_flow, block_style, job_in, tree_locate, Document,
  root, events_of,
}
use periodic.ConfigEdit.Walk.{drop-past}
use periodic.ConfigEdit.Entries.{map_entries-positions, length-drop_le}
use periodic.ConfigEdit.Heads.{flow_head}
use periodic.ConfigEdit.Locate.{
  index, find_jobs-tree_jobs, Stands, tree_jobs-Stands, find_loop-tree_job, tree_job-Stands,
  count_nodes-le,
}

first_mapping-before :
    (before : Items) (i : ℕ) (rest : Items)
    → All (λ e. is_mapping_start e.event ≡ false) before
    → first_mapping (before ++ rest) i ≡ first_mapping rest (i + length before)
first_mapping-before [] i rest h = ap (first_mapping rest) (omega arith)
first_mapping-before (e ∷ before) i rest h =
    rw h.0 (first_mapping-before before (i + 1) rest h.1 ∙ ap (first_mapping rest) (omega arith))

module _ (d : Document) where
  abbrev r : ℕ
  r = length d.before

  first_mapping-root : first_mapping (events_of d) 0 ≡ some r
  unfolding emit
  first_mapping-root =
      first_mapping-before d.before 0 (emit (root d) ++ d.behind) d.no_mapping
      ∙ ap some (omega arith)

  root_events : drop r (events_of d) ≡ emit (root d) ++ d.behind
  root_events = drop-append d.before (emit (root d) ++ d.behind)

  field_events :
      drop (r + 1) (events_of d) ≡ emit_fields d.fields ++ (at_span mapping_end d.stop ∷ d.behind)
  unfolding emit
  field_events =
      drop-past r (events_of d) (at_span (mapping_start d.flow) d.start ∷ []) _ root_events
      ∙ append_assoc (emit_fields d.fields) (at_span mapping_end d.stop ∷ []) d.behind

  jobs_seq_start-tree_jobs : jobs_seq_start (events_of d) ≡ index (tree_jobs d.fields (r + 1))
  unfolding jobs_seq_start
  jobs_seq_start-tree_jobs =
      rw
        (
          first_mapping-root,
          map_entries-positions (events_of d) r d.flow d.start d.fields d.stop d.behind root_events,
        )
        (find_jobs-tree_jobs (events_of d) (r + 1) d.fields _ field_events)

not_flow-block_style :
    (events : Items) (found : Found)
    → Stands events found
    → not_flow events found.0 ≡ index (block_style found)
not_flow-block_style events (i, n) (behind, at) =
    let same : is_flow (nth events i) ≡ node_is_flow n =
      ap (λ es. is_flow (head es)) at ∙ flow_head n behind in
    rw same (go (node_is_flow n))
  where
    go : (b : Bool) → (if b then none else some i) ≡ index (if b then none else some (i, n))
    go true = refl
    go false = refl

-- The loop through the nodes of a sequence that stands at a place.
job_in-find_loop :
    (events : Items) (id : Text) (i : ℕ) (flow : Bool) (s : Span) (nodes : Nodes) (e : Span)
    → Stands events (i, sequence flow s nodes e)
    → find_loop (length events) events id (skip_comments events (i + 1))
      ≡ index (tree_job id nodes (i + 1))
unfolding emit
job_in-find_loop events id i flow s nodes e (behind, at) =
    let inside =
      drop-past i events (at_span (sequence_start flow) s ∷ []) _ at
      ∙ append_assoc (emit_nodes nodes) (at_span sequence_end e ∷ []) behind in
    find_loop-tree_job (length events) events id (i + 1) nodes e behind
      (omega (
        arith,
        count_nodes-le nodes,
        ap (λ xs. length xs) at,
        length-drop_le i events,
        length-append (emit_nodes nodes ++ (at_span sequence_end e ∷ [])) behind,
        length-append (emit_nodes nodes) (at_span sequence_end e ∷ []),
      ))
      inside

job_in-Stands :
    (events : Items) (id : Text) (i : ℕ) (flow : Bool) (s : Span) (nodes : Nodes) (e : Span)
    (found : Found)
    → Stands events (i, sequence flow s nodes e)
    → tree_job id nodes (i + 1) ≡ some found
    → Stands events found
unfolding emit
job_in-Stands events id i flow s nodes e found (behind, at) h =
    tree_job-Stands events id (i + 1) nodes (at_span sequence_end e ∷ behind) found
      (drop-past i events (at_span (sequence_start flow) s ∷ []) _ at
        ∙ append_assoc (emit_nodes nodes) (at_span sequence_end e ∷ []) behind)
      h

tree_jobs-is_sequence :
    (fields : Fields) (i : ℕ) (found : Found)
    → tree_jobs fields i ≡ some found
    → is_sequence found.1 ≡ true
unfolding tree_jobs
tree_jobs-is_sequence (no_fields cs) i found h = cc
tree_jobs-is_sequence (field cs key s between value fields) i found h =
    elim (Bool-cases (is_text (codes "jobs") key && is_sequence value)) [
      | inl hit ↦
          let e : some (i + length cs + 1 + length between, value) ≡ some found =
            sym (if_true _ _ _ hit) ∙ h in
          subst (λ f. is_sequence f.1 ≡ true) (some_injective e)
            (and-eq-true (is_text (codes "jobs") key) (is_sequence value) hit).1
      | inr miss ↦
          tree_jobs-is_sequence fields (i + length cs + 1 + length between + length (emit value))
            found (sym (if_false (is_text (codes "jobs") key && is_sequence value) _ _ miss) ∙ h)
    ]

module _ (d : Document) (id : Text) where
  -- The job in the sequence that was found.
  locate_in :
      (i : ℕ) (flow : Bool) (s : Span) (nodes : Nodes) (e : Span)
      → Stands (events_of d) (i, sequence flow s nodes e)
      → jobs_seq_start (events_of d) ≡ some i
      → and_then (find_job_item (events_of d) id) (not_flow (events_of d))
        ≡ index (and_then (tree_job id nodes (i + 1)) block_style)
  unfolding find_job_item
  locate_in i flow s nodes e st start =
      rw (start, job_in-find_loop (events_of d) id i flow s nodes e st)
        (elim (Option-cases (tree_job id nodes (i + 1))) [
          | inl missing ↦ rw missing refl
          | inr (found, h) ↦ rw h (
              not_flow-block_style (events_of d) found
                (job_in-Stands (events_of d) id i flow s nodes e found st h))
        ])

  locate_at :
      (found : Found)
      → is_sequence found.1 ≡ true
      → Stands (events_of d) found
      → jobs_seq_start (events_of d) ≡ some found.0
      → locate_job (events_of d) id
        ≡ index (and_then (block_style found) (λ f. and_then (job_in id f) block_style))
  unfolding locate_job
  locate_at (i, leaf t s) q st start = cc
  locate_at (i, mapping flow s fields e) q st start = cc
  locate_at (i, sequence true s nodes e) q st start =
      rw (start, not_flow-block_style (events_of d) (i, sequence true s nodes e) st) refl
  locate_at (i, sequence false s nodes e) q st start =
      rw (start, not_flow-block_style (events_of d) (i, sequence false s nodes e) st)
        (locate_in i false s nodes e st start)

  -- On the events of any document, with comments wherever they may stand, `locate_job` finds what the
  -- search in its tree finds: in the first field `jobs` that is a sequence the first mapping with the
  -- id, refused where the sequence or the mapping has flow style. The index is that of the mapping's
  -- first event. Keys are scalars or aliases.
  pub locate_job-refines :
      locate_job (events_of d) id ≡ index (tree_locate id d.fields (length d.before))
  unfolding locate_job
  locate_job-refines = elim (Option-cases (tree_jobs d.fields (length d.before + 1))) [
    | inl missing ↦ rw (jobs_seq_start-tree_jobs d, missing) refl
    | inr (found, h) ↦
        let start : jobs_seq_start (events_of d) ≡ some found.0 =
          rw (jobs_seq_start-tree_jobs d, h) refl in
        rw h (
          locate_at found (tree_jobs-is_sequence d.fields (length d.before + 1) found h)
            (tree_jobs-Stands (events_of d) (length d.before + 1) d.fields _ found (field_events d)
              h)
            start)
  ]
