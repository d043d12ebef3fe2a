-- ===== src/ConfigEdit/Walk.antt =====
-- The walks over the events of a tree: skipping comments, the end of a node and the entries of a
-- mapping. A place in the stream is the events from there on.
use mathlib.Core.List.{append_assoc}
use periodic.Prelude.{
  ℕ, suc, ◌+◌, ◌-◌, ◌≡◌, refl, ap, sym, ◌∙◌, Bool, true, false, Option, none, some, List, [], ◌∷◌,
  ◌++◌, Text, length, length-append, drop, drop-drop, drop-append, arith, ◌==◌,
}
use periodic.ConfigEdit.{
  Event, mapping_start, sequence_start, mapping_end, sequence_end, Span, Items, is_comment,
  skip_run, skip_comments, end_loop, end_of_node,
}
use periodic.ConfigEdit.Tree.{
  Node, leaf, mapping, sequence, Fields, no_fields, field, Nodes, no_nodes, node, at_span,
  comment_items, leaf_event, emit, emit_fields, emit_nodes,
}

pub length-comment_items : (spans : List Span) → length (comment_items spans) ≡ length spans
length-comment_items [] = refl
length-comment_items (s ∷ spans) = ap suc (length-comment_items spans)

-- Past a part of what stands at a place.
pub drop-past {ℓ} :
    {A : Type ℓ} (i : ℕ) (events xs ys : List A)
    → drop i events ≡ xs ++ ys
    → drop (i + length xs) events ≡ ys
drop-past i events xs ys h =
    sym (drop-drop i (length xs) events) ∙ (ap (drop (length xs)) h ∙ drop-append xs ys)

-- The first event at a place is no comment.
abbrev pub Clear : Items → Type 0
Clear [] = Unit
Clear (e ∷ events) = is_comment e.event ≡ false

skip_run-comment_items :
    (spans : List Span) (rest : Items) (i : ℕ)
    → Clear rest
    → skip_run (comment_items spans ++ rest) i ≡ i + length spans
skip_run-comment_items [] [] i h = omega arith
skip_run-comment_items [] (e ∷ rest) i h = rw h (omega arith)
skip_run-comment_items (s ∷ spans) rest i h =
    skip_run-comment_items spans rest (i + 1) h ∙ omega arith

pub skip_comments-comment_items :
    (events : Items) (i : ℕ) (spans : List Span) (rest : Items)
    → drop i events ≡ comment_items spans ++ rest
    → Clear rest
    → skip_comments events i ≡ i + length spans
unfolding skip_comments
skip_comments-comment_items events i spans rest at clear =
    ap (λ es. skip_run es i) at ∙ skip_run-comment_items spans rest i clear

end_loop-comments :
    (spans : List Span) (rest : Items) (d i : ℕ)
    → end_loop (comment_items spans ++ rest) (suc d) i
      ≡ end_loop rest (suc d) (i + length (comment_items spans))
unfolding end_loop
end_loop-comments [] rest d i = let e : i + 0 ≡ i = omega arith in rw e refl
end_loop-comments (s ∷ spans) rest d i =
    end_loop-comments spans rest d (i + 1) ∙ ap (end_loop rest (suc d)) (omega arith)

-- The loop passes the events of a node, inside of another.
abbrev Passes : Items → Type 0
Passes xs =
    (rest : Items) (d i : ℕ)
    → end_loop (xs ++ rest) (suc d) i ≡ end_loop rest (suc d) (i + length xs)

Passes-append : (xs ys : Items) → Passes xs → Passes ys → Passes (xs ++ ys)
Passes-append xs ys px py rest d i =
    ap (λ es. end_loop es (suc d) i) (append_assoc xs ys rest)
    ∙ (px (ys ++ rest) d i
        ∙ (py rest d (i + length xs)
            ∙ ap (end_loop rest (suc d)) (omega (arith, length-append xs ys))))

Passes-leaf : (t : Option Text) (s : Span) → Passes (at_span (leaf_event t) s ∷ [])
unfolding end_loop
Passes-leaf none s rest d i = refl
Passes-leaf (some t) s rest d i = refl

abbrev opening : Bool → Bool → Event
opening true flow = mapping_start flow
opening false flow = sequence_start flow

abbrev closing : Bool → Event
closing true = mapping_end
closing false = sequence_end

end_loop-opening :
    (b flow : Bool) (s : Span) (events : Items) (d i : ℕ)
    → end_loop (at_span (opening b flow) s ∷ events) d i ≡ end_loop events (suc d) (i + 1)
unfolding end_loop
end_loop-opening true flow s events d i = ap (λ n. end_loop events n (i + 1)) (omega arith)
end_loop-opening false flow s events d i = ap (λ n. end_loop events n (i + 1)) (omega arith)

end_loop-closing :
    (b : Bool) (s : Span) (events : Items) (d i : ℕ)
    → end_loop (at_span (closing b) s ∷ events) (suc (suc d)) i ≡ end_loop events (suc d) (i + 1)
unfolding end_loop
end_loop-closing b s events d i = go b
  where
    one_less : suc (suc d) - 1 ≡ suc d
    one_less = omega arith

    not_zero : (suc d == 0) ≡ false
    not_zero = ground arith

    go :
        (b : Bool)
        → end_loop (at_span (closing b) s ∷ events) (suc (suc d)) i
          ≡ end_loop events (suc d) (i + 1)
    go true = rw (one_less, not_zero) refl
    go false = rw (one_less, not_zero) refl

end_loop-last :
    (b : Bool) (s : Span) (events : Items) (i : ℕ)
    → end_loop (at_span (closing b) s ∷ events) 1 i ≡ i + 1
unfolding end_loop
end_loop-last true s events i = refl
end_loop-last false s events i = refl

abbrev bracket : Bool → Bool → Span → Items → Span → Items
bracket b flow s xs e = at_span (opening b flow) s ∷ (xs ++ (at_span (closing b) e ∷ []))

length-bracket :
    (b flow : Bool) (s : Span) (xs : Items) (e : Span)
    → length (bracket b flow s xs e) ≡ length xs + 2
length-bracket b flow s xs e = omega (arith, length-append xs (at_span (closing b) e ∷ []))

Passes-bracket :
    (b flow : Bool) (s : Span) (xs : Items) (e : Span) → Passes xs → Passes (bracket b flow s xs e)
Passes-bracket b flow s xs e p rest d i =
    end_loop-opening b flow s _ (suc d) i
    ∙ (ap (λ es. end_loop es (suc (suc d)) (i + 1))
          (append_assoc xs (at_span (closing b) e ∷ []) rest)
        ∙ (p (at_span (closing b) e ∷ rest) (suc d) (i + 1)
            ∙ (end_loop-closing b e rest d (i + 1 + length xs)
                ∙ ap (end_loop rest (suc d)) (omega (arith, length-bracket b flow s xs e)))))

-- From the bracket itself the loop ends behind it.
end_loop-bracket :
    (b flow : Bool) (s : Span) (xs : Items) (e : Span) (rest : Items) (i : ℕ)
    → Passes xs
    → end_loop (bracket b flow s xs e ++ rest) 0 i ≡ i + length (bracket b flow s xs e)
end_loop-bracket b flow s xs e rest i p =
    end_loop-opening b flow s _ 0 i
    ∙ (ap (λ es. end_loop es 1 (i + 1)) (append_assoc xs (at_span (closing b) e ∷ []) rest)
        ∙ (p (at_span (closing b) e ∷ rest) 0 (i + 1)
            ∙ (end_loop-last b e rest (i + 1 + length xs)
                ∙ omega (arith, length-bracket b flow s xs e))))

abbrev PassesNode : Node → Type 0
PassesNode n = Passes (emit n)

abbrev PassesFields : Fields → Type 0
PassesFields fields = Passes (emit_fields fields)

abbrev PassesNodes : Nodes → Type 0
PassesNodes nodes = Passes (emit_nodes nodes)

emit-Passes : (n : Node) → PassesNode n
unfolding emit
emit-Passes n = elim n as PassesNode PassesFields PassesNodes [
  | leaf t s ↦ Passes-leaf t s
  | mapping flow s (fields → ih) e ↦ Passes-bracket true flow s _ e ih
  | sequence flow s (nodes → ih) e ↦ Passes-bracket false flow s _ e ih
  | no_fields cs ↦ end_loop-comments cs
  | field cs key s between (value → ihv) (fields → ih) ↦ Passes-append _ _ (end_loop-comments cs) (
      Passes-append (at_span (leaf_event key) s ∷ []) _ (Passes-leaf key s)
        (Passes-append _ _ (end_loop-comments between) (Passes-append _ _ ihv ih)))
  | no_nodes cs ↦ end_loop-comments cs
  | node cs (m → ihm) (nodes → ih) ↦
      Passes-append _ _ (end_loop-comments cs) (Passes-append _ _ ihm ih)
]

emit_fields-Passes : (fields : Fields) → PassesFields fields
unfolding emit_fields
emit_fields-Passes (no_fields cs) = end_loop-comments cs
emit_fields-Passes (field cs key s between value fields) =
    Passes-append _ _ (end_loop-comments cs) (
      Passes-append (at_span (leaf_event key) s ∷ []) _ (Passes-leaf key s) (
        Passes-append _ _ (end_loop-comments between)
          (Passes-append _ _ (emit-Passes value) (emit_fields-Passes fields))))

emit_nodes-Passes : (nodes : Nodes) → PassesNodes nodes
unfolding emit_nodes
emit_nodes-Passes (no_nodes cs) = end_loop-comments cs
emit_nodes-Passes (node cs n nodes) =
    Passes-append _ _ (end_loop-comments cs)
      (Passes-append _ _ (emit-Passes n) (emit_nodes-Passes nodes))

-- The end of a node that stands at a place.
pub end_of_node-emit :
    (events : Items) (i : ℕ) (n : Node) (rest : Items)
    → drop i events ≡ emit n ++ rest
    → end_of_node events i ≡ i + length (emit n)
unfolding end_of_node emit
end_of_node-emit events i (leaf none s) rest at = rw at refl
end_of_node-emit events i (leaf (some t) s) rest at = rw at refl
end_of_node-emit events i (mapping flow s fields e) rest at = rw at (
    ap (λ es. end_loop es 0 i) at
    ∙ end_loop-bracket true flow s _ e rest i (emit_fields-Passes fields))
end_of_node-emit events i (sequence flow s nodes e) rest at = rw at (
    ap (λ es. end_loop es 0 i) at
    ∙ end_loop-bracket false flow s _ e rest i (emit_nodes-Passes nodes))

-- What is emitted for a node is no comment, so a walk stops there.
pub emit-Clear : (n : Node) (rest : Items) → Clear (emit n ++ rest)
unfolding emit
emit-Clear (leaf none s) rest = refl
emit-Clear (leaf (some t) s) rest = refl
emit-Clear (mapping flow s fields e) rest = refl
emit-Clear (sequence flow s nodes e) rest = refl

-- Behind the comments at a place.
pub past_comments :
    (events : Items) (i : ℕ) (cs : List Span) (rest : Items)
    → drop i events ≡ comment_items cs ++ rest
    → drop (i + length cs) events ≡ rest
past_comments events i cs rest at =
    ap (λ k. drop (i + k) events) (sym (length-comment_items cs)) ∙ drop-past i events _ rest at

pub leaf-Clear :
    (t : Option Text) (s : Span) (rest : Items) → Clear (at_span (leaf_event t) s ∷ rest)
leaf-Clear none s rest = refl
leaf-Clear (some t) s rest = refl
