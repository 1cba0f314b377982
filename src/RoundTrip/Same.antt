-- ===== src/RoundTrip/Same.antt =====
-- Nodes and values without the places in their heads.
use skg.Base.{Bytes, ◌≡◌, refl, sym, ap, ◌∙◌}
use skg.Model.{
  Value, Values, Node, Nodes, int, float, bool, string, null, array, object, delete, field, block,
  block_array, empty, nil, cons, no_items, item, value_type, node_key, push_node, push_value,
}
use skg.Merge.Overlay.{has_keyed}
use skg.Merge.Keyed.{IsKeyed, IsKeyedNode, IsKeyedValue, IsKeyedItems}
use skg.RoundTrip.{plain_nodes, plain_node, plain_value, plain_items}

pub plain_nodes-push_node :
    (ns : Nodes) (n : Node)
    → plain_nodes (push_node ns n) ≡ push_node (plain_nodes ns) (plain_node n)
unfolding plain_nodes
plain_nodes-push_node nil n = refl
plain_nodes-push_node (cons x ns) n = ap (cons (plain_node x)) (plain_nodes-push_node ns n)

pub plain_items-push_value :
    (vs : Values) (v : Value)
    → plain_items (push_value vs v) ≡ push_value (plain_items vs) (plain_value v)
unfolding plain_items
plain_items-push_value no_items v = refl
plain_items-push_value (item x vs) v = ap (item (plain_value x)) (plain_items-push_value vs v)

value_type-plain : (v : Value) → value_type (plain_value v) ≡ value_type v
unfolding value_type plain_value
value_type-plain (int n) = refl
value_type-plain (float n) = refl
value_type-plain (bool n) = refl
value_type-plain (string n) = refl
value_type-plain null = refl
value_type-plain (array t xs c) = refl
value_type-plain (object ns c) = refl

pub value_type-same : (v w : Value) → plain_value v ≡ plain_value w → value_type v ≡ value_type w
value_type-same v w e = sym (value_type-plain v) ∙ ap value_type e ∙ value_type-plain w

node_key-plain : (n : Node) → node_key (plain_node n) ≡ node_key n
unfolding node_key plain_node
node_key-plain (delete h t) = refl
node_key-plain (field h v t) = refl
node_key-plain (block h r cs t) = refl
node_key-plain (block_array h xs t) = refl
node_key-plain empty = refl

has_keyed-plain : (k : Bytes) (ns : Nodes) → has_keyed k (plain_nodes ns) ≡ has_keyed k ns
unfolding has_keyed plain_nodes
has_keyed-plain k nil = refl
has_keyed-plain k (cons n ns) = rw (node_key-plain n, has_keyed-plain k ns) refl

mutual
  unfolding plain_nodes plain_node plain_value plain_items

  IsKeyed-plain : (ns : Nodes) → IsKeyed ns → IsKeyed (plain_nodes ns)
  IsKeyed-plain nil h = tt
  IsKeyed-plain (cons n ns) (hn, (k, e, fresh), hs) = (
    IsKeyedNode-plain n hn,
    (k, node_key-plain n ∙ e, has_keyed-plain k ns ∙ fresh),
    IsKeyed-plain ns hs,
  )

  IsKeyedNode-plain : (n : Node) → IsKeyedNode n → IsKeyedNode (plain_node n)
  IsKeyedNode-plain (delete h t) k = tt
  IsKeyedNode-plain (field h v t) k = IsKeyedValue-plain v k
  IsKeyedNode-plain (block h r cs t) k = IsKeyed-plain cs k
  IsKeyedNode-plain (block_array h xs t) k = IsKeyedItems-plain xs k
  IsKeyedNode-plain empty k = k

  IsKeyedValue-plain : (v : Value) → IsKeyedValue v → IsKeyedValue (plain_value v)
  IsKeyedValue-plain (object cs t) k = IsKeyed-plain cs k
  IsKeyedValue-plain (array element xs t) k = IsKeyedItems-plain xs k
  IsKeyedValue-plain (int n) k = tt
  IsKeyedValue-plain (float n) k = tt
  IsKeyedValue-plain (bool n) k = tt
  IsKeyedValue-plain (string n) k = tt
  IsKeyedValue-plain null k = tt

  IsKeyedItems-plain : (vs : Values) → IsKeyedItems vs → IsKeyedItems (plain_items vs)
  IsKeyedItems-plain no_items k = tt
  IsKeyedItems-plain (item v vs) (hv, hs) = (IsKeyedValue-plain v hv, IsKeyedItems-plain vs hs)

mutual
  unfolding plain_nodes plain_node plain_value plain_items

  plain-IsKeyed : (ns : Nodes) → IsKeyed (plain_nodes ns) → IsKeyed ns
  plain-IsKeyed nil h = tt
  plain-IsKeyed (cons n ns) (hn, (k, e, fresh), hs) = (
    plain-IsKeyedNode n hn,
    (k, sym (node_key-plain n) ∙ e, sym (has_keyed-plain k ns) ∙ fresh),
    plain-IsKeyed ns hs,
  )

  plain-IsKeyedNode : (n : Node) → IsKeyedNode (plain_node n) → IsKeyedNode n
  plain-IsKeyedNode (delete h t) k = tt
  plain-IsKeyedNode (field h v t) k = plain-IsKeyedValue v k
  plain-IsKeyedNode (block h r cs t) k = plain-IsKeyed cs k
  plain-IsKeyedNode (block_array h xs t) k = plain-IsKeyedItems xs k
  plain-IsKeyedNode empty k = k

  plain-IsKeyedValue : (v : Value) → IsKeyedValue (plain_value v) → IsKeyedValue v
  plain-IsKeyedValue (object cs t) k = plain-IsKeyed cs k
  plain-IsKeyedValue (array element xs t) k = plain-IsKeyedItems xs k
  plain-IsKeyedValue (int n) k = tt
  plain-IsKeyedValue (float n) k = tt
  plain-IsKeyedValue (bool n) k = tt
  plain-IsKeyedValue (string n) k = tt
  plain-IsKeyedValue null k = tt

  plain-IsKeyedItems : (vs : Values) → IsKeyedItems (plain_items vs) → IsKeyedItems vs
  plain-IsKeyedItems no_items k = tt
  plain-IsKeyedItems (item v vs) (hv, hs) = (plain-IsKeyedValue v hv, plain-IsKeyedItems vs hs)

-- Places do not matter to what is a well-formed overlay.
pub IsKeyed-same : (ns ms : Nodes) → plain_nodes ns ≡ plain_nodes ms → IsKeyed ms → IsKeyed ns
IsKeyed-same ns ms e h = plain-IsKeyed ns (rw e (IsKeyed-plain ms h))
