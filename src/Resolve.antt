-- ===== src/Resolve.antt =====
-- rust/src/resolve.rs: resolution of an entry file and its imports. A `u64` or `usize` counter is a
-- plain number, and `saturating_sub` is the subtraction that stops at 0.
pub mod Guards
pub mod Options
pub mod Path
pub mod Files
pub mod Meaning
pub mod Done
pub mod State
pub mod Kept
pub mod Loads
pub mod Graph
pub mod Contained
pub mod Circular
pub mod Spending
pub mod Layered
pub mod Ready
pub mod Composed
pub mod Complete
mod Tests
use skg.Base.{
  ℕ, zero, suc, ◌+◌, ◌-◌, ◌*◌, max, Bool, true, false, not, ◌&&◌, ◌||◌, Option, none, some, List,
  [], ◌∷◌, ◌++◌, Bytes, codes, ltb, leb, ◌==◌, nat_eq, if◌then◌else◌, length, any,
}
use skg.Error.{Position, Diagnostic, diagnostic, without_position, ResolveError, parse, resolution}
use skg.Error.Codes.{
  ErrorCode, import_not_found, path_outside_root, import_chain_too_deep, circular_import,
  resolution_file_limit, resolution_byte_limit, resolution_node_limit, resolution_work_limit,
}
use skg.Model.{
  Value, Values, Node, Nodes, delete, field, block, block_array, empty, nil, cons, no_items, item,
  int, float, bool, string, null, array, object, length_nodes, Document,
}
use skg.Merge.{merge_nodes_budget, materialize_nodes}
use skg.Result.{Outcome, Result, ok, err, out_of_fuel, bind}
use skg.Parser.File.{parse_bytes}
use Path.{component_eq, components, path_beq, parent, join}
use Files.{Loader, fs_loader, get_path, insert_path, is_prefix}
use skg.Resolve.Options.{
  Origin, Resolve, ResolveOptions, Resolved, Resolver, default_max_resolve_bytes,
  default_max_resolve_files, default_max_resolve_merge_work, default_max_resolve_nodes, error_at,
  fail, max_import_depth, new_options, non_zero_or, pure, rooted, ◌>>=◌, ◌>>◌,
}
use skg.Resolve.Guards.{
  charge_bytes, charge_nodes, count_items, count_node, count_nodes, count_value_nodes, directory_of,
  enter_file, finish_file, is_on_chain, is_outside, merge_charged, merged_at, parsed,
  path_within_root, popped, read_at, reuse,
}

-- What `load` is given for its recursive call.
abbrev pub Load : Type 0
Load = Bytes → Option Origin → Resolve Resolved

abbrev pub origin_of : Bytes → Position → Option Origin
origin_of canonical position = some (record { path = canonical; position = position })

-- The loop over the imports of the file at `canonical`. A path without a position, at which the source
-- would panic, has no result.
unfoldable pub import_all :
    Load → Bytes → List Bytes → List Position → Nodes → ℕ → Resolve (Nodes × ℕ)
unfolding merge_charged directory_of join
import_all load canonical [] positions merged depth = pure (merged, depth)
import_all load canonical (path ∷ paths) [] merged depth = λ r. out_of_fuel
import_all load canonical (path ∷ paths) (position ∷ positions) merged depth = do
  imported ← load (join (directory_of canonical) path) (origin_of canonical position)
  merged₁ ← merge_charged (origin_of canonical position) canonical merged imported.document.children
  import_all load canonical paths positions merged₁ (max depth (1 + imported.depth))

-- `if !document.import_paths.is_empty()`
unfoldable pub compose_imports :
    Load → Option Origin → Bytes → List Bytes → Document → Resolve (Nodes × ℕ)
unfolding import_all merge_charged
compose_imports load origin canonical [] document = pure (document.children, 0)
compose_imports load origin canonical (path ∷ paths) document = do
  (merged, depth) ← import_all load canonical (path ∷ paths) document.import_positions nil 0
  children ← merge_charged origin canonical merged document.children
  pure (children, depth)

-- The resolver at the start of `resolve_with`, its root canonical.
abbrev pub start : ResolveOptions → Option Bytes → Resolver
start options root = record {
  root = root;
  max_bytes = non_zero_or options.max_bytes default_max_resolve_bytes;
  max_files = non_zero_or options.max_files default_max_resolve_files;
  max_nodes = non_zero_or options.max_nodes default_max_resolve_nodes;
  remaining_work = non_zero_or options.max_merge_work default_max_resolve_merge_work;
  bytes = 0;
  files = 0;
  nodes = 0;
  chain = [];
  done = [];
}

-- The end of `resolve_with`.
abbrev pub finalize : Document → Document
finalize d = record d { children = materialize_nodes d.children; imports_resolved = true }

-- Fuel for `load`: a chain has at most 33 files.
abbrev pub load_fuel : ℕ
load_fuel = 34

module _ (parse_f64 : Bytes → Option ℕ) (loader : Loader) where
  -- `load` from the reading of the file on.
  unfoldable pub load_file : Load → Option Origin → Bytes → Resolve Resolved
  unfolding read_at charge_bytes parse_bytes parsed charge_nodes count_nodes compose_imports
      finish_file
  load_file load origin canonical = do
    source ← read_at origin canonical (loader.read canonical)
    charge_bytes origin canonical (length source)
    document ← parsed (parse_bytes parse_f64 source canonical)
    charge_nodes origin canonical (count_nodes document.children)
    (children, depth) ← compose_imports load origin canonical document.import_paths document
    finish_file canonical (record document { children = children }) depth

  -- `load` from the look into the cache on.
  unfoldable pub load_at : Load → Option Origin → Bytes → Bytes → Option Resolved → Resolve Resolved
  unfolding reuse enter_file load_file
  load_at load origin path canonical (some cached) = reuse origin path cached
  load_at load origin path canonical none = do
    enter_file origin path canonical
    load_file load origin canonical

  -- `load` on what `canonicalize` gave.
  unfoldable pub load_canonical : Load → Option Origin → Bytes → Option Bytes → Resolve Resolved
  unfolding is_outside get_path load_at
  load_canonical load origin path none r = fail origin path import_not_found r
  load_canonical load origin path (some canonical) r =
      if is_outside r.root canonical
      then fail origin canonical path_outside_root r
      else load_at load origin path canonical (get_path canonical r.done) r

  unfoldable pub load : ℕ → Load
  unfolding load_canonical
  load zero path origin r = out_of_fuel
  load (suc f) path origin r = load_canonical (load f) origin path (loader.canonicalize path) r

  unfoldable pub resolve_from :
      Bytes → ResolveOptions → Option Bytes → Outcome ResolveError Document
  unfolding load
  resolve_from entry options root =
      bind (load load_fuel entry none (start options root))
        λ (resolved, r). ok (finalize resolved.document)

  -- `resolve_with`, on what `canonicalize` gave for the root that the options name.
  unfoldable pub resolve_rooted :
      Bytes → ResolveOptions → Bytes → Option Bytes → Outcome ResolveError Document
  unfolding resolve_from
  resolve_rooted entry options root none = err (resolution (without_position import_not_found root))
  resolve_rooted entry options root (some canonical) = resolve_from entry options (some canonical)

  unfoldable pub resolve_at : Bytes → ResolveOptions → Option Bytes → Outcome ResolveError Document
  unfolding resolve_rooted
  resolve_at entry options none = resolve_from entry options none
  resolve_at entry options (some root) =
      resolve_rooted entry options root (loader.canonicalize root)

  unfoldable pub resolve_with : Bytes → ResolveOptions → Outcome ResolveError Document
  unfolding resolve_at
  resolve_with entry options = resolve_at entry options options.root

-- `resolve`: over the file system.
unfoldable pub resolve :
    (parse_f64 : Bytes → Option ℕ) (real_path contents : Bytes → Option Bytes)
    → Bytes
    → ResolveOptions
    → Outcome ResolveError Document
unfolding resolve_with
resolve parse_f64 real_path contents entry options =
    resolve_with parse_f64 (fs_loader real_path contents) entry options
