-- ===== src/Merge/Nesting.antt =====
-- How deep nodes and values nest, before and after a merge.
use skg.Base.{ℕ, zero, suc, ◌≤◌, max, true, false, Bytes, ◌≡◌, arith, Bool-cases, inl, inr}
use skg.Model.{
  Node, Nodes, Value, Values, delete, field, block, block_array, empty, nil, cons, no_items, item,
  array, object, push_node, push_value,
}
use skg.Merge.{merge_nodes, merge_overlay, barrier}
use skg.Merge.Overlay.{has_key, put, join_block, join_all, join_node}
use skg.Merge.Keyed.{IsLoose, IsKeyedNode, IsKeyed-IsLoose, put_keyed-put, key_of}
use skg.Merge.Refine.{merge_overlay-join_all}

-- The levels of braces and brackets.
abbrev mutual
  pub nest_nodes : Nodes → ℕ
  nest_nodes nil = 0
  nest_nodes (cons n ns) = max (nest_node n) (nest_nodes ns)

  pub nest_node : Node → ℕ
  nest_node (delete h t) = 0
  nest_node (field h v t) = nest_value v
  nest_node (block h r cs t) = suc (nest_nodes cs)
  nest_node (block_array h xs t) = suc (nest_items xs)
  nest_node empty = 0

  pub nest_value : Value → ℕ
  nest_value (object children t) = suc (nest_nodes children)
  nest_value (array element xs t) = suc (nest_items xs)
  nest_value _ = 0

  pub nest_items : Values → ℕ
  nest_items no_items = 0
  nest_items (item v vs) = max (nest_value v) (nest_items vs)

put-nest :
    (b : ℕ) (f : Node → Node) (k : Bytes) (n : Node) (xs : Nodes)
    → nest_node n ≤ b
    → ((x : Node) → nest_node x ≤ b → nest_node (f x) ≤ b)
    → nest_nodes xs ≤ b
    → nest_nodes (put f k n xs) ≤ b
unfolding put
put-nest b f k n nil hn hf h = omega arith
put-nest b f k n (cons x xs) hn hf h = elim (Bool-cases (has_key k x)) [
  | inl same ↦ rw same (let hx = hf x (omega arith) in omega arith)
  | inr other ↦ rw other (let more = put-nest b f k n xs hn hf (omega arith) in omega arith)
]

mutual
  unfolding join_all join_node join_block barrier

  join_all-nest :
      (b : ℕ) (c base : Nodes)
      → IsLoose c
      → nest_nodes c ≤ b
      → nest_nodes base ≤ b
      → nest_nodes (join_all c base) ≤ b
  join_all-nest b nil base l hc hb = hb
  join_all-nest b (cons n ns) base (hn, hs) hc hb =
      let (k, e) = key_of n hn in
      let joined : nest_nodes (put (join_node n) k n base) ≤ b =
        put-nest b (join_node n) k n base (omega arith)
          (λ x hx. join_node-nest b n x hn (omega arith) hx) hb in
      rw (put_keyed-put (join_node n) n base e)
        (join_all-nest b ns (put (join_node n) k n base) hs (omega arith) joined)

  join_node-nest :
      (b : ℕ) (n x : Node)
      → IsKeyedNode n
      → nest_node n ≤ b
      → nest_node x ≤ b
      → nest_node (join_node n x) ≤ b
  join_node-nest b (delete h t) x l hn hx = hn
  join_node-nest b (field h v t) x l hn hx = hn
  join_node-nest b (block_array h v t) x l hn hx = hn
  join_node-nest b empty x l hn hx = hn
  join_node-nest b (block h true cs t) x l hn hx = hn
  join_node-nest zero (block h false cs t) (block g r bs u) l hn hx = absurd (omega arith)
  join_node-nest (suc b) (block h false cs t) (block g r bs u) l hn hx =
      let more = join_all-nest b cs bs (IsKeyed-IsLoose cs l) (omega arith) (omega arith) in
      omega arith
  join_node-nest b (block h false cs t) (delete g u) l hn hx = hn
  join_node-nest b (block h false cs t) (field g v u) l hn hx = hn
  join_node-nest b (block h false cs t) (block_array g v u) l hn hx = hn
  join_node-nest b (block h false cs t) empty l hn hx = hn

-- Merging the nodes of a list, each of them well-formed, gives a list that nests no deeper.
pub merge_nodes-nest :
    (nodes : Nodes) → IsLoose nodes → nest_nodes (merge_nodes nodes) ≤ nest_nodes nodes
unfolding merge_nodes merge_overlay
merge_nodes-nest nodes h =
    rw (merge_overlay-join_all nil nodes tt h)
      (join_all-nest (nest_nodes nodes) nodes nil h (omega arith) (omega arith))

pub nest-push_node :
    (ns : Nodes) (n : Node) → nest_nodes (push_node ns n) ≡ max (nest_nodes ns) (nest_node n)
nest-push_node nil n = omega arith
nest-push_node (cons m ns) n = omega (arith, nest-push_node ns n)

pub nest-push_value :
    (vs : Values) (v : Value) → nest_items (push_value vs v) ≡ max (nest_items vs) (nest_value v)
nest-push_value no_items v = omega arith
nest-push_value (item w vs) v = omega (arith, nest-push_value vs v)
