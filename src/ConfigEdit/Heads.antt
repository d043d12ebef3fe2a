-- ===== src/ConfigEdit/Heads.antt =====
-- What src/config_edit.rs reads off the first event of a node.
use periodic.Prelude.{◌≡◌, refl, false, Option, none, some, ◌++◌, Text, head}
use periodic.ConfigEdit.{Span, Items, scalar_of, starts_sequence, is_flow, stops_sequence}
use periodic.ConfigEdit.Tree.{
  Node, leaf, mapping, sequence, at_span, leaf_event, emit, text_of, is_sequence, node_is_flow,
}

-- What the code reads off the first event of a node.
pub text_of-head : (n : Node) (rest : Items) → scalar_of (head (emit n ++ rest)) ≡ text_of n
unfolding emit
text_of-head (leaf none s) rest = refl
text_of-head (leaf (some t) s) rest = refl
text_of-head (mapping flow s fields e) rest = refl
text_of-head (sequence flow s nodes e) rest = refl

pub sequence_head :
    (n : Node) (rest : Items) → starts_sequence (head (emit n ++ rest)) ≡ is_sequence n
unfolding emit
sequence_head (leaf none s) rest = refl
sequence_head (leaf (some t) s) rest = refl
sequence_head (mapping flow s fields e) rest = refl
sequence_head (sequence flow s nodes e) rest = refl

pub flow_head : (n : Node) (rest : Items) → is_flow (head (emit n ++ rest)) ≡ node_is_flow n
unfolding emit
flow_head (leaf none s) rest = refl
flow_head (leaf (some t) s) rest = refl
flow_head (mapping flow s fields e) rest = refl
flow_head (sequence flow s nodes e) rest = refl

pub goes_on_head : (n : Node) (rest : Items) → stops_sequence (head (emit n ++ rest)) ≡ false
unfolding emit
goes_on_head (leaf none s) rest = refl
goes_on_head (leaf (some t) s) rest = refl
goes_on_head (mapping flow s fields e) rest = refl
goes_on_head (sequence flow s nodes e) rest = refl

pub key_text : (key : Option Text) (s : Span) → scalar_of (some (at_span (leaf_event key) s)) ≡ key
key_text none s = refl
key_text (some t) s = refl
