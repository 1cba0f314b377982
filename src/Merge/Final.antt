-- ===== src/Merge/Final.antt =====
-- rust/src/merge.rs: materialization and final data, without a deletion, an empty node or a replacement
-- flag at any depth.
use skg.Base.{
  ◌↔◌, subst, true, false, some, Bytes, ◌≡◌, refl, ap, ◌∙◌, Bool-cases, inl, inr, arith,
  if◌then◌else◌,
}
use skg.Model.{
  Node, Nodes, Value, Values, delete, field, block, block_array, empty, nil, cons, no_items, item,
  array, object, int, float, bool, string, null, node_key,
}
use skg.Merge.{materialize_nodes, materialize_value, materialize_items, merge_overlay}
use skg.Merge.Overlay.{has_key, has_keyed, find_key}
use skg.Merge.Keyed.{IsKeyed, IsKeyed-IsLoose, has_key→eq}
use skg.Merge.Compose.{merge_overlay-IsKeyed}
use skg.Merge.Lookup.{find_key-merge_overlay, joined}

abbrev mutual
  pub IsFinal : Nodes → Type 0
  IsFinal nil = Unit {0}
  IsFinal (cons (delete h t) ns) = ⊥
  IsFinal (cons empty ns) = ⊥
  IsFinal (cons (field h v t) ns) = IsFinalValue v × IsFinal ns
  IsFinal (cons (block h r cs t) ns) = (r ≡ false) × IsFinal cs × IsFinal ns
  IsFinal (cons (block_array h xs t) ns) = IsFinalItems xs × IsFinal ns

  pub IsFinalValue : Value → Type 0
  IsFinalValue (object children t) = IsFinal children
  IsFinalValue (array element xs t) = IsFinalItems xs
  IsFinalValue _ = Unit {0}

  pub IsFinalItems : Values → Type 0
  IsFinalItems no_items = Unit {0}
  IsFinalItems (item v vs) = IsFinalValue v × IsFinalItems vs

mutual
  unfolding materialize_nodes

  nodes-IsFinal : (ns : Nodes) → IsFinal (materialize_nodes ns)
  nodes-IsFinal nil = tt
  nodes-IsFinal (cons (delete h t) ns) = nodes-IsFinal ns
  nodes-IsFinal (cons empty ns) = nodes-IsFinal ns
  nodes-IsFinal (cons (field h v t) ns) = (value-IsFinal v, nodes-IsFinal ns)
  nodes-IsFinal (cons (block h r cs t) ns) = (refl, nodes-IsFinal cs, nodes-IsFinal ns)
  nodes-IsFinal (cons (block_array h xs t) ns) = (items-IsFinal xs, nodes-IsFinal ns)

  value-IsFinal : (v : Value) → IsFinalValue (materialize_value v)
  value-IsFinal (object cs t) = nodes-IsFinal cs
  value-IsFinal (array element xs t) = items-IsFinal xs
  value-IsFinal (int n) = tt
  value-IsFinal (float n) = tt
  value-IsFinal (bool n) = tt
  value-IsFinal (string n) = tt
  value-IsFinal null = tt

  items-IsFinal : (xs : Values) → IsFinalItems (materialize_items xs)
  items-IsFinal no_items = tt
  items-IsFinal (item v vs) = (value-IsFinal v, items-IsFinal vs)

mutual
  unfolding materialize_nodes

  nodes-id : (ns : Nodes) → IsFinal ns → materialize_nodes ns ≡ ns
  nodes-id nil h = refl
  nodes-id (cons (delete _ _) ns) h = absurd h
  nodes-id (cons empty ns) h = absurd h
  nodes-id (cons (field h v t) ns) (hv, hs) = rw (value-id v hv, nodes-id ns hs)
  nodes-id (cons (block h r cs t) ns) (hr, hc, hs) = rw (hr, nodes-id cs hc, nodes-id ns hs)
  nodes-id (cons (block_array h xs t) ns) (hx, hs) = rw (items-id xs hx, nodes-id ns hs)

  value-id : (v : Value) → IsFinalValue v → materialize_value v ≡ v
  value-id (object cs t) h = rw (nodes-id cs h)
  value-id (array element xs t) h = rw (items-id xs h)
  value-id (int n) h = refl
  value-id (float n) h = refl
  value-id (bool n) h = refl
  value-id (string n) h = refl
  value-id null h = refl

  items-id : (xs : Values) → IsFinalItems xs → materialize_items xs ≡ xs
  items-id no_items h = refl
  items-id (item v vs) (hv, hs) = rw (value-id v hv, items-id vs hs)

-- What materialization gives is final, and it leaves a list of nodes as it is exactly when the list
-- is final.
pub materialize_nodes-IsFinal :
    (ns : Nodes) → IsFinal (materialize_nodes ns) × ((materialize_nodes ns ≡ ns) ↔ IsFinal ns)
materialize_nodes-IsFinal ns =
    (nodes-IsFinal ns, (λ e. subst IsFinal e (nodes-IsFinal ns), nodes-id ns))

-- One node, finished: a deletion is gone.
unfoldable pub finish : Node → Node
finish (delete h t) = empty
finish empty = empty
finish (field h v t) = field h (materialize_value v) t
finish (block h r cs t) = block h false (materialize_nodes cs) t
finish (block_array h xs t) = block_array h (materialize_items xs) t

find_key-absent :
    (k : Bytes) (xs : Nodes) → has_keyed k xs ≡ false → find_key k (materialize_nodes xs) ≡ empty
unfolding has_keyed find_key materialize_nodes node_key
find_key-absent k nil h = refl
find_key-absent k (cons (delete g t) xs) h = ground (arith, find_key-absent k xs)
find_key-absent k (cons empty xs) h = ground (arith, find_key-absent k xs)
find_key-absent k (cons (field g v t) xs) h = ground (arith, find_key-absent k xs)
find_key-absent k (cons (block g r cs t) xs) h = ground (arith, find_key-absent k xs)
find_key-absent k (cons (block_array g v t) xs) h = ground (arith, find_key-absent k xs)

find_key-cons :
    (k : Bytes) (x : Node) (xs : Nodes)
    → find_key k (cons x xs) ≡ (if has_key k x then x else find_key k xs)
unfolding find_key
find_key-cons k x xs = refl

fresh_at :
    (k j : Bytes) (x : Node) (xs : Nodes)
    → has_key k x ≡ true
    → node_key x ≡ some j
    → has_keyed j xs ≡ false
    → has_keyed k xs ≡ false
fresh_at k j x xs same e fresh = let ek : j ≡ k = cc (has_key→eq k x same) in rw ek at fresh

find_key-materialize :
    (k : Bytes) (xs : Nodes)
    → IsKeyed xs
    → find_key k (materialize_nodes xs) ≡ finish (find_key k xs)
unfolding find_key materialize_nodes finish node_key
find_key-materialize k nil h = refl
find_key-materialize k (cons (delete g t) xs) (hx, (j, e, fresh), hs) =
    elim (Bool-cases (has_key k (delete g t))) [
      | inl same ↦ rw same (find_key-absent k xs (fresh_at k j (delete g t) xs same e fresh))
      | inr other ↦ rw other (find_key-materialize k xs hs)
    ]
find_key-materialize k (cons empty xs) (hx, fresh, hs) = absurd hx
find_key-materialize k (cons (field g v t) xs) (hx, fresh, hs) =
    ground (arith, find_key-materialize k xs hs)
find_key-materialize k (cons (block g r cs t) xs) (hx, fresh, hs) =
    ground (arith, find_key-materialize k xs hs)
find_key-materialize k (cons (block_array g v t) xs) (hx, fresh, hs) =
    ground (arith, find_key-materialize k xs hs)

-- In the final data of a merge of two well-formed overlays a key finds its joined node, finished: nothing where the last word on
-- the key is a deletion, whatever the base holds.
pub find_key-materialize-merge_overlay :
    (k : Bytes) (base overlay : Nodes)
    → IsKeyed base
    → IsKeyed overlay
    → find_key k (materialize_nodes (merge_overlay base overlay)) ≡ finish (joined k base overlay)
find_key-materialize-merge_overlay k base overlay hb ho =
    find_key-materialize k (merge_overlay base overlay)
      (merge_overlay-IsKeyed base overlay hb (IsKeyed-IsLoose overlay ho))
    ∙ ap finish (find_key-merge_overlay k base overlay hb ho)
