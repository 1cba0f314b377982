-- ===== src/Merge.antt =====
-- rust/src/merge.rs: composition of an overlay onto a base, and materialization. The operations of
-- the file are here; what is proved of them is in the children.
pub mod Comments
pub mod Overlay
pub mod Keyed
pub mod Positions
pub mod Work
pub mod Refine
pub mod Compose
pub mod Nesting
pub mod Lookup
pub mod Final
pub mod Laws
mod Tests
use skg.Base.{
  ℕ, ◌+◌, ◌-◌, Bool, true, false, Option, none, some, List, [], ◌∷◌, ◌++◌, Bytes, ltb, Eq, ◌==◌,
  bytes_eq, option_beq, any, if◌then◌else◌,
}
use skg.Model.{
  Comment, CommentOrigin, origin_eq, Head, Value, Values, Node, Nodes, delete, field, block,
  block_array, empty, nil, cons, no_items, item, array, object, int, float, bool, string, null,
  node_key, length_nodes, push_node, get_node, set_node,
}

-- Whether the comment carries the origin of one in `base`.
unfoldable pub known : List Comment → Comment → Bool
known base c = elim c.origin [
  | none ↦ false
  | some origin ↦ any (λ (kept : Comment). option_beq kept.origin (some origin)) base
]

-- The loop of `concat_comments`: the comments of the overlay that it pushes.
unfoldable pub unknown : List Comment → List Comment → List Comment
unknown base [] = []
unknown base (c ∷ cs) = if known base c then unknown base cs else c ∷ unknown base cs

unfoldable pub concat_comments : List Comment → List Comment → List Comment
unfolding unknown
concat_comments base [] = base
concat_comments [] (c ∷ cs) = c ∷ cs
concat_comments (b ∷ bs) (c ∷ cs) = (b ∷ bs) ++ unknown (b ∷ bs) (c ∷ cs)

-- The vector `result` and the map `index` from keys to positions in it.
pub record Slots : Type 0 where
  pub result : Nodes
  pub index : Bytes → Option ℕ

-- `index.insert(key, position)`
abbrev pub insert_index : Bytes → ℕ → (Bytes → Option ℕ) → Bytes → Option ℕ
insert_index key position index j = if key == j then some position else index j

-- `index.insert(key, result.len()); result.push(node)`
abbrev pub push_slot : Bytes → Node → Slots → Slots
push_slot key node s = record {
  result = push_node s.result node;
  index = insert_index key (length_nodes s.result) s.index;
}

abbrev pub no_slots : Slots
no_slots = record { result = nil; index = λ _. none }

-- The first loop of `merge_nodes_budget`.
unfoldable pub collect_base : Nodes → Slots → Slots
collect_base nil s = s
collect_base (cons node nodes) s =
    collect_base nodes (elim (node_key node) [ none ↦ s | some key ↦ push_slot key node s ])

-- What a merge is given and gives back: `none` where the budget ran out.
abbrev pub Charged : Type 0 → Type 0
Charged A = Option ℕ → Option (A × Option ℕ)

abbrev pub and_then :
    {A B : Type 0} → Option (A × Option ℕ) → (A → Charged B) → Option (B × Option ℕ)
and_then none f = none
and_then (some (a, left)) f = f a left

infixl 5 ◌>>=◌
abbrev pub ◌>>=◌ : {A B : Type 0} → Charged A → (A → Charged B) → Charged B
◌>>=◌ m f remaining = and_then (m remaining) f

abbrev pub pure : {A : Type 0} → A → Charged A
pure a remaining = some (a, remaining)

-- The budget test at the head of `merge_nodes_budget`.
unfoldable pub charge : ℕ → Charged (Unit {0})
charge cost none = some (tt, none)
charge cost (some budget) = if ltb budget cost then none else some (tt, some (budget - cost))

-- A block that lands on anything it does not merge with is a replacement barrier.
unfoldable pub barrier : Node → Node
barrier (block h replace children trailing) = block h true children trailing
barrier node = node

-- The `match (overlay_node, base_node)`; `merge` is the recursive call at the overlay's children.
unfoldable pub merge_pair : (Nodes → Charged Nodes) → Node → Node → Charged Node
unfolding concat_comments barrier
merge_pair merge (block h false children trailing)
      (block base replace base_children base_trailing) =
    do
      merged ← merge base_children
      pure (
          block
            (record base {
              leading_comments = concat_comments base.leading_comments h.leading_comments;
            })
            replace merged (concat_comments base_trailing trailing))
merge_pair merge overlay base = pure (barrier overlay)

-- The end of a round of the second loop, on `index.get(&key)`.
unfoldable pub place_at : (Nodes → Charged Nodes) → Bytes → Node → Slots → Option ℕ → Charged Slots
unfolding merge_pair
place_at merge key overlay s none = pure (push_slot key overlay s)
place_at merge key overlay s (some position) = do
  node ← merge_pair merge overlay (get_node s.result position)
  pure (record s { result = set_node s.result position node })

-- A round, on the key of the overlay node.
unfoldable pub place_key : (Nodes → Charged Nodes) → Node → Slots → Option Bytes → Charged Slots
unfolding place_at
place_key merge overlay s none = pure s
place_key merge overlay s (some key) = place_at merge key overlay s (s.index key)

-- One round of the second loop.
unfoldable pub place : (Nodes → Charged Nodes) → Node → Slots → Charged Slots
unfolding place_key
place merge overlay s = place_key merge overlay s (node_key overlay)

-- The body of `merge_nodes_budget`; `compose` is its second loop, over the overlay.
unfoldable pub merge_body : (Slots → Charged Slots) → Nodes → Nodes → Charged Nodes
unfolding charge collect_base
merge_body compose nil base = do _ ← charge (length_nodes base); pure base
merge_body compose (cons n ns) base = do
  _ ← charge (length_nodes base + length_nodes (cons n ns))
  s ← compose (collect_base base no_slots)
  pure s.result

unfoldable mutual
  pub compose_all : Nodes → Slots → Charged Slots
  compose_all nil s = pure s
  compose_all (cons node nodes) s = place_node node s >>= compose_all nodes

  pub place_node : Node → Slots → Charged Slots
  place_node (block h replace children trailing) =
      place (merge_body (compose_all children) children) (block h replace children trailing)
  place_node overlay = place (λ base. pure base) overlay

-- `merge_nodes_budget`
unfoldable pub merge_nodes_budget : Nodes → Nodes → Charged Nodes
unfolding merge_body
merge_nodes_budget base overlay = merge_body (compose_all overlay) overlay base

-- `expect("unbounded merge cannot fail")`: the panic gives the empty list here.
abbrev pub expect_merged : Option (Nodes × Option ℕ) → Nodes
expect_merged none = nil
expect_merged (some (nodes, left)) = nodes

unfoldable pub merge_overlay : Nodes → Nodes → Nodes
merge_overlay base overlay = expect_merged (merge_nodes_budget base overlay none)

unfoldable pub merge_nodes : Nodes → Nodes
merge_nodes nodes = expect_merged (merge_nodes_budget nil nodes none)

unfoldable mutual
  pub materialize_nodes : Nodes → Nodes
  materialize_nodes nil = nil
  materialize_nodes (cons (delete h t) ns) = materialize_nodes ns
  materialize_nodes (cons empty ns) = materialize_nodes ns
  materialize_nodes (cons (field h v t) ns) =
      cons (field h (materialize_value v) t) (materialize_nodes ns)
  materialize_nodes (cons (block h r cs t) ns) =
      cons (block h false (materialize_nodes cs) t) (materialize_nodes ns)
  materialize_nodes (cons (block_array h xs t) ns) =
      cons (block_array h (materialize_items xs) t) (materialize_nodes ns)

  pub materialize_value : Value → Value
  materialize_value (object children t) = object (materialize_nodes children) t
  materialize_value (array element xs t) = array element (materialize_items xs) t
  materialize_value (int n) = int n
  materialize_value (float f) = float f
  materialize_value (bool b) = bool b
  materialize_value (string s) = string s
  materialize_value null = null

  -- `iter().map(materialize_value).collect()`
  pub materialize_items : Values → Values
  materialize_items no_items = no_items
  materialize_items (item v vs) = item (materialize_value v) (materialize_items vs)
