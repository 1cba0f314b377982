-- ===== src/Resolve/Contained.antt =====
-- rust/src/resolve.rs: with a root, what lies outside it has no effect on the resolution.
use skg.Base.{
  ℕ, zero, suc, ◌+◌, ◌≤◌, max, true, false, Option, none, some, List, [], ◌∷◌, Bytes, ◌≡◌, refl,
  sym, ap, ◌∙◌, arith, subst, length, Bool-cases, inl, inr,
}
use skg.Error.{Position}
use skg.Model.{Nodes, nil, Document}
use skg.Merge.Keyed.{IsKeyed, IsKeyed-IsLoose}
use skg.Merge.Compose.{merge_overlay-IsKeyed}
use skg.Result.{Outcome, ok, bind, Ensures, holds, failed}
use skg.Parser.File.{parse_bytes}
use skg.Parser.Whole.{parse_bytes-DocumentSound}
use skg.Resolve.Path.{join}
use skg.Resolve.Files.{Loader, get_path}
use skg.Resolve.State.{Sane, Step, Step-trans, Entered}
use skg.Resolve.Kept.{charge_bytes-Step, charge_nodes-Step, merge_charged-Step, enter_file-Entered}
use skg.Resolve.Loads.{Loads, load-Loaded, read_at-Read, parsed-Parsed}
use skg.Resolve.Graph.{start-Sane}
use skg.Resolve.{
  Load, origin_of, import_all, compose_imports, load_file, load_at, load_canonical, load, load_fuel,
  start, resolve_from, resolve_rooted, finalize, resolve_at, resolve_with,
}
use skg.Resolve.Guards.{
  directory_of, is_outside, read_at, count_nodes, merge_charged, finish_file, path_within_root,
}
use skg.Resolve.Options.{ResolveOptions, Resolved, Resolver, Origin}

-- Two runs that begin alike and go on alike from what the first gives are one.
bind-same {ℓ κ} :
    {E : Type 0} {A : Type ℓ} {B : Type κ} {P : A → Type 0} {m n : Outcome E A}
    {f g : A → Outcome E B}
    → Ensures P m
    → m ≡ n
    → ((a : A) → P a → f a ≡ g a)
    → bind m f ≡ bind n g
bind-same {f} {g} (failed d) e h = ap (λ o. bind o g) e
bind-same {f} {g} (holds {a} p) e h = h a p ∙ ap (λ o. bind o g) e

module _ (parse_f64 : Bytes → Option ℕ) (loader other : Loader) (root : Option Bytes)
    (same_paths : (path : Bytes) → loader.canonicalize path ≡ other.canonicalize path)
    (same_files : (path : Bytes)
      → is_outside root path ≡ false
      → loader.read path ≡ other.read path) where
  -- Two recursive calls that agree on the sound states with this root.
  abbrev Agree : ℕ → Load → Load → Type 0
  Agree f call call' =
      (path : Bytes) (origin : Option Origin) (r : Resolver)
      → Sane parse_f64 loader r
      → r.root ≡ root
      → 34 ≤ f + length r.chain
      → call path origin r ≡ call' path origin r

  import_all-same :
      (f : ℕ) (call call' : Load)
      → Loads parse_f64 loader f call
      → Agree f call call'
      → (canonical : Bytes) (paths : List Bytes) (positions : List Position) (merged : Nodes)
        (depth : ℕ) (r : Resolver)
      → Sane parse_f64 loader r
      → r.root ≡ root
      → 34 ≤ f + length r.chain
      → IsKeyed merged
      → import_all call canonical paths positions merged depth r
        ≡ import_all call' canonical paths positions merged depth r
  unfolding import_all
  import_all-same f call call' hl ha canonical [] positions merged depth r h hr hf hm = refl
  import_all-same f call call' hl ha canonical (path ∷ paths) [] merged depth r h hr hf hm = refl
  import_all-same f call call' hl ha canonical (path ∷ paths) (position ∷ positions) merged depth r
        h hr hf hm =
      bind-same (hl (join (directory_of canonical) path) (origin_of canonical position) r h hf)
        (ha (join (directory_of canonical) path) (origin_of canonical position) r h hr hf)
        λ (imported, s) x.
          bind-same
            (merge_charged-Step parse_f64 loader (origin_of canonical position) canonical merged
              imported.document.children s x.step.sane hm x.known.keyed)
            refl
            λ (merged₁, t) (step, is_merged).
              let both = Step-trans parse_f64 loader x.step step in
              import_all-same f call call' hl ha canonical paths positions merged₁
                (max depth (1 + imported.depth)) t both.sane (both.same.root_is ∙ hr)
                (omega (arith, ap length both.chain_is))
                (rw is_merged (
                  merge_overlay-IsKeyed merged imported.document.children hm
                    (IsKeyed-IsLoose _ x.known.keyed)))

  compose_imports-same :
      (f : ℕ) (call call' : Load)
      → Loads parse_f64 loader f call
      → Agree f call call'
      → (origin : Option Origin) (canonical : Bytes) (paths : List Bytes) (document : Document)
        (r : Resolver)
      → Sane parse_f64 loader r
      → r.root ≡ root
      → 34 ≤ f + length r.chain
      → compose_imports call origin canonical paths document r
        ≡ compose_imports call' origin canonical paths document r
  unfolding compose_imports
  compose_imports-same f call call' hl ha origin canonical [] document r h hr hf = refl
  compose_imports-same f call call' hl ha origin canonical (path ∷ paths) document r h hr hf =
      ap
        (λ o. bind o λ ((merged, depth), s).
          bind (merge_charged origin canonical merged document.children s)
            λ (children, t). ok ((children, depth), t))
        (import_all-same f call call' hl ha canonical (path ∷ paths) document.import_positions nil 0
          r h hr hf tt)

  load_file-same :
      (f : ℕ) (call call' : Load)
      → Loads parse_f64 loader f call
      → Agree f call call'
      → (origin : Option Origin) (canonical : Bytes) (r s : Resolver)
      → Entered parse_f64 loader canonical r s
      → r.root ≡ root
      → is_outside root canonical ≡ false
      → 33 ≤ f + length r.chain
      → load_file parse_f64 loader call origin canonical s
        ≡ load_file parse_f64 other call' origin canonical s
  unfolding load_file
  load_file-same f call call' hl ha origin canonical r s x hr inside hf =
      bind-same (read_at-Read parse_f64 loader origin canonical (loader.read canonical) s)
        (ap (λ o. read_at origin canonical o s) (same_files canonical inside))
        λ (source, s₁) (e₁, is_read).
          bind-same
            (charge_bytes-Step parse_f64 loader origin canonical (length source) s₁ (rw e₁ x.sane))
            refl
            λ (u, s₂) step₂.
              bind-same
                (parsed-Parsed parse_f64 loader (parse_bytes parse_f64 source canonical) s₂
                  (parse_bytes-DocumentSound parse_f64 source canonical))
                refl
                λ (document, s₃) (e₃, is_parsed, d).
                  bind-same
                    (charge_nodes-Step parse_f64 loader origin canonical
                      (count_nodes document.children) s₃ (rw e₃ step₂.sane))
                    refl
                    λ (u₁, s₄) step₄.
                      let before : Step parse_f64 loader s s₄ =
                        Step-trans parse_f64 loader (rw e₁ at step₂) (rw e₃ at step₄) in
                      ap
                        (λ o. bind o λ ((children, depth), s₅).
                          finish_file canonical (record document { children = children }) depth s₅)
                        (compose_imports-same f call call' hl ha origin canonical
                          document.import_paths document s₄ before.sane
                          (before.same.root_is ∙ x.same.root_is ∙ hr)
                          (omega (arith, ap length (before.chain_is ∙ x.chain_is))))

  load_at-same :
      (f : ℕ) (call call' : Load)
      → Loads parse_f64 loader f call
      → Agree f call call'
      → (origin : Option Origin) (path canonical : Bytes) (cached : Option Resolved) (r : Resolver)
      → Sane parse_f64 loader r
      → r.root ≡ root
      → 33 ≤ f + length r.chain
      → is_outside root canonical ≡ false
      → get_path canonical r.done ≡ cached
      → load_at parse_f64 loader call origin path canonical cached r
        ≡ load_at parse_f64 other call' origin path canonical cached r
  unfolding load_at
  load_at-same f call call' hl ha origin path canonical (some v) r h hr hf inside e = refl
  load_at-same f call call' hl ha origin path canonical none r h hr hf inside e =
      bind-same (enter_file-Entered parse_f64 loader origin path canonical r h e) refl
        λ (u, s) x. load_file-same f call call' hl ha origin canonical r s x hr inside hf

  load_canonical-same :
      (f : ℕ) (call call' : Load)
      → Loads parse_f64 loader f call
      → Agree f call call'
      → (origin : Option Origin) (path : Bytes) (o : Option Bytes) (r : Resolver)
      → Sane parse_f64 loader r
      → r.root ≡ root
      → 33 ≤ f + length r.chain
      → load_canonical parse_f64 loader call origin path o r
        ≡ load_canonical parse_f64 other call' origin path o r
  unfolding load_canonical
  load_canonical-same f call call' hl ha origin path none r h hr hf = refl
  load_canonical-same f call call' hl ha origin path (some canonical) r h hr hf =
      elim (Bool-cases (is_outside r.root canonical)) [
        | inl out ↦ rw out refl
        | inr inside ↦ rw inside (
            load_at-same f call call' hl ha origin path canonical (get_path canonical r.done) r h hr
              hf (subst (λ t. is_outside t canonical ≡ false) hr inside) refl)
      ]

  load-same : (f : ℕ) → Agree f (load parse_f64 loader f) (load parse_f64 other f)
  unfolding load
  load-same zero path origin r h hr hf = refl
  load-same (suc f) path origin r h hr hf =
      load_canonical-same f (load parse_f64 loader f) (load parse_f64 other f)
        (load-Loaded parse_f64 loader f) (load-same f) origin path (loader.canonicalize path) r h hr
        (omega arith)
      ∙ ap (λ o. load_canonical parse_f64 other (load parse_f64 other f) origin path o r)
          (same_paths path)

  resolve_from-same :
      (entry : Bytes) (options : ResolveOptions)
      → resolve_from parse_f64 loader entry options root
        ≡ resolve_from parse_f64 other entry options root
  unfolding resolve_from
  resolve_from-same entry options =
      ap (λ o. bind o λ (v, s). ok (finalize v.document))
        (load-same load_fuel entry none (start options root)
          (start-Sane parse_f64 loader options root) refl (omega arith))

-- A resolution with a root depends on no file outside the root: two loaders that canonicalize alike,
-- and read alike what lies within the canonical root, give the same outcome, errors included.
pub resolve_with-contained :
    (parse_f64 : Bytes → Option ℕ) (loader other : Loader) (entry root canonical : Bytes)
    (options : ResolveOptions)
    → options.root ≡ some root
    → loader.canonicalize root ≡ some canonical
    → ((path : Bytes) → loader.canonicalize path ≡ other.canonicalize path)
    → ((path : Bytes) → path_within_root canonical path ≡ true → loader.read path ≡ other.read path)
    → resolve_with parse_f64 loader entry options ≡ resolve_with parse_f64 other entry options
unfolding resolve_with
resolve_with-contained parse_f64 loader other entry root canonical options named found same_paths
      same_files =
    rw (named, resolve_at, sym (same_paths root), found, resolve_rooted)
      (resolve_from-same parse_f64 loader other (some canonical) same_paths
        (λ path inside. same_files path (unfold is_outside in ground arith)) entry options)
