-- ===== src/Resolve/Guards.antt =====
-- rust/src/resolve.rs: what `load` does besides importing: its tests, the budgets, the chain and the
-- cache. `saturating_sub` is the subtraction that stops at 0.
use skg.Base.{
  ℕ, suc, ◌+◌, ◌-◌, Bool, false, not, Option, none, some, List, [], ◌∷◌, Bytes, codes, ltb, leb,
  nat_eq, if◌then◌else◌, length, any,
}
use skg.Error.{parse}
use skg.Error.Codes.{
  import_not_found, import_chain_too_deep, circular_import, resolution_file_limit,
  resolution_byte_limit, resolution_node_limit, resolution_work_limit,
}
use skg.Model.{
  Value, Values, Node, Nodes, delete, field, block, block_array, empty, nil, cons, no_items, item,
  int, float, bool, string, null, array, object, Document,
}
use skg.Merge.{merge_nodes_budget}
use skg.Result.{Result, ok, err, out_of_fuel}
use skg.Resolve.Path.{component_eq, components, path_beq, parent}
use skg.Resolve.Files.{insert_path, is_prefix}
use skg.Resolve.Options.{Origin, Resolve, Resolved, fail, max_import_depth, pure}

unfoldable pub path_within_root : Bytes → Bytes → Bool
unfolding components is_prefix
path_within_root root target = is_prefix (components root) (components target)

unfoldable mutual
  pub count_nodes : Nodes → ℕ
  count_nodes nil = 0
  count_nodes (cons n ns) = suc (count_node n + count_nodes ns)

  -- What a node adds to the number of the nodes of its list.
  pub count_node : Node → ℕ
  count_node (field h v t) = count_value_nodes v
  count_node (block h r cs t) = count_nodes cs
  count_node (block_array h xs t) = count_items xs
  count_node (delete h t) = 0
  count_node empty = 0

  pub count_value_nodes : Value → ℕ
  count_value_nodes (object cs t) = 1 + count_nodes cs
  count_value_nodes (array e xs t) = 1 + count_items xs
  count_value_nodes (int n) = 1
  count_value_nodes (float f) = 1
  count_value_nodes (bool b) = 1
  count_value_nodes (string s) = 1
  count_value_nodes null = 1

  pub count_items : Values → ℕ
  count_items no_items = 0
  count_items (item v vs) = count_value_nodes v + count_items vs

-- The root test of `load`.
unfoldable pub is_outside : Option Bytes → Bytes → Bool
unfolding path_within_root
is_outside none canonical = false
is_outside (some root) canonical = not (path_within_root root canonical)

-- `chain.contains`
unfoldable pub is_on_chain : Bytes → List Bytes → Bool
is_on_chain canonical chain = any (λ p. path_beq p canonical) chain

-- A finished file, on the limit of the chain beneath it.
unfoldable pub reuse : Option Origin → Bytes → Resolved → Resolve Resolved
reuse origin path cached r =
    if ltb max_import_depth (length r.chain + cached.depth)
    then fail origin path import_chain_too_deep r
    else pure cached r

-- The bytes that are read, against the budget.
unfoldable pub charge_bytes : Option Origin → Bytes → ℕ → Resolve (Unit {0})
charge_bytes origin canonical size r =
    if ltb (r.max_bytes - r.bytes) size
    then fail origin canonical resolution_byte_limit r
    else ok (tt, record r { bytes = r.bytes + size })

unfoldable pub charge_nodes : Option Origin → Bytes → ℕ → Resolve (Unit {0})
charge_nodes origin canonical count r =
    if ltb (r.max_nodes - r.nodes) count
    then fail origin canonical resolution_node_limit r
    else ok (tt, record r { nodes = r.nodes + count })

-- The `match` on a merge that was given `remaining_work`.
unfoldable pub merged_at : Option Origin → Bytes → Option (Nodes × Option ℕ) → Resolve Nodes
merged_at origin canonical (some (nodes, some left)) r =
    ok (nodes, record r { remaining_work = left })
-- `expect("set before merge")`
merged_at origin canonical (some (nodes, none)) r = out_of_fuel
merged_at origin canonical none r = fail origin canonical resolution_work_limit r

unfoldable pub merge_charged : Option Origin → Bytes → Nodes → Nodes → Resolve Nodes
unfolding merged_at
merge_charged origin canonical base overlay r =
    merged_at origin canonical (merge_nodes_budget base overlay (some r.remaining_work)) r

-- `canonical.parent().unwrap_or(".")`
unfoldable pub directory_of : Bytes → Bytes
unfolding parent
directory_of canonical = elim (parent canonical) [ none ↦ codes "." | some directory ↦ directory ]

-- A new file: the tests between the cache and the reading of it, then its place on the chain, whose
-- last file stands first here.
unfoldable pub enter_file : Option Origin → Bytes → Bytes → Resolve (Unit {0})
unfolding is_on_chain
enter_file origin path canonical r =
    if is_on_chain canonical r.chain
    then fail origin canonical circular_import r
    else if ltb max_import_depth (length r.chain)
    then fail origin path import_chain_too_deep r
    else if leb r.max_files r.files
    then fail origin canonical resolution_file_limit r
    else ok (tt, record r { files = r.files + 1; chain = canonical ∷ r.chain })

unfoldable pub read_at : Option Origin → Bytes → Option Bytes → Resolve Bytes
read_at origin canonical none = fail origin canonical import_not_found
read_at origin canonical (some source) = pure source

-- `parse_bytes(..).map_err(..)`
unfoldable pub parsed : Result Document → Resolve Document
parsed (ok document) r = ok (document, r)
parsed (err d) r = err (parse d)
parsed out_of_fuel r = out_of_fuel

abbrev pub popped {ℓ} : {A : Type ℓ} → List A → List A
popped [] = []
popped (a ∷ more) = more

-- The end of `load`: the file is finished and leaves the chain.
unfoldable pub finish_file : Bytes → Document → ℕ → Resolve Resolved
unfolding insert_path
finish_file canonical document depth r =
    let resolved : Resolved = record { document = document; depth = depth } in
    ok (resolved, record r { chain = popped r.chain; done = insert_path canonical resolved r.done })
