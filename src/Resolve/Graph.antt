-- ===== src/Resolve/Graph.antt =====
-- rust/src/resolve.rs: `resolve_with` as a whole.
use skg.Base.{
  ℕ, ◌≤◌, true, false, Option, none, some, Bytes, ◌≡◌, refl, arith, Option-cases, inl, inr,
}
use skg.Model.{Nodes, Document}
use skg.Merge.{materialize_nodes}
use skg.Merge.Final.{IsFinal, materialize_nodes-IsFinal}
use skg.Result.{Ensures, holds, failed, Ensures-bind}
use skg.Resolve.Path.{path_beq}
use skg.Resolve.Files.{Loader}
use skg.Resolve.Meaning.{Resolves}
use skg.Resolve.State.{Sane}
use skg.Resolve.Loads.{load-Loaded}
use skg.Resolve.{start, load_fuel, resolve_from, resolve_rooted, resolve_at, resolve_with}
use skg.Resolve.Guards.{path_within_root, is_outside, is_on_chain}
use skg.Resolve.Options.{max_import_depth, ResolveOptions}

module _ (parse_f64 : Bytes → Option ℕ) (loader : Loader) where
  -- The path lies within the root that the options name, if they name one.
  abbrev Contained : Option Bytes → Bytes → Type 0
  Contained none key = Unit {0}
  Contained (some root) key =
      (canonical : Bytes) × (loader.canonicalize root ≡ some canonical)
      × (path_within_root canonical key ≡ true)

  -- What is promised of a resolution.
  pub record Finished (entry : Bytes) (root : Option Bytes) (d : Document) : Type 0 where
    pub target : Bytes
    pub key : Bytes
    pub children : Nodes
    pub depth : ℕ
    pub found : loader.canonicalize entry ≡ some target
    pub same_file : path_beq key target ≡ true
    pub contained : Contained root key
    pub resolves : Resolves parse_f64 loader key children depth
    pub depth_fits : depth ≤ max_import_depth
    pub materialized : d.children ≡ materialize_nodes children
    pub final : IsFinal d.children
    pub marked : d.imports_resolved ≡ true

  pub start-Sane :
      (options : ResolveOptions) (root : Option Bytes) → Sane parse_f64 loader (start options root)
  unfolding is_on_chain
  start-Sane options root = record {
    bytes_fit = omega arith;
    nodes_fit = omega arith;
    files_fit = omega arith;
    counted = omega arith;
    short = omega arith;
    known = tt;
    open_files = λ k on. cc;
  }

  resolve_from-Finished :
      (entry : Bytes) (options : ResolveOptions) (named root : Option Bytes)
      → ((key : Bytes) → is_outside root key ≡ false → Contained named key)
      → Ensures (Finished entry named) (resolve_from parse_f64 loader entry options root)
  unfolding resolve_from
  resolve_from-Finished entry options named root contained =
      Ensures-bind
        (load-Loaded parse_f64 loader load_fuel entry none (start options root)
          (start-Sane options root) (omega arith))
        λ (v, s) x. holds (record {
          target = x.target;
          key = x.key;
          children = v.document.children;
          depth = v.depth;
          found = x.found;
          same_file = x.same_file;
          contained = contained x.key x.known.inside;
          resolves = x.known.resolves;
          depth_fits = omega (arith, x.depth_fits);
          materialized = refl;
          final = (materialize_nodes-IsFinal v.document.children).0;
          marked = refl;
        })

  inside-within :
      (root key : Bytes) → is_outside (some root) key ≡ false → path_within_root root key ≡ true
  unfolding is_outside
  inside-within root key h = ground arith

  resolve_at-Finished :
      (entry : Bytes) (options : ResolveOptions) (root : Option Bytes)
      → Ensures (Finished entry root) (resolve_at parse_f64 loader entry options root)
  unfolding resolve_at resolve_rooted
  resolve_at-Finished entry options none = resolve_from-Finished entry options none none λ key h. tt
  resolve_at-Finished entry options (some root) = elim (Option-cases (loader.canonicalize root)) [
    | inl missing ↦ rw (missing, resolve_rooted) (failed _)
    | inr (canonical, found) ↦
        rw (found, resolve_rooted)
          (resolve_from-Finished entry options (some root) (some canonical)
            λ key h. (canonical, found, inside-within canonical key h))
  ]

  -- Resolution ends within its fuel for every loader, entry and options: in an error, or in a document
  -- whose children are the final data of what the entry file means, at most 32 levels of imports deep,
  -- from a file within the root that the options name.
  pub resolve_with-Finished :
      (entry : Bytes) (options : ResolveOptions)
      → Ensures (Finished entry options.root) (resolve_with parse_f64 loader entry options)
  unfolding resolve_with
  resolve_with-Finished entry options = resolve_at-Finished entry options options.root
