-- ===== src/Resolve/Loads.antt =====
-- rust/src/resolve.rs: `load`, by its fuel, the invariant of the state, and what the graph means.
use skg.Base.{
  ℕ, zero, suc, ◌+◌, ◌≤◌, max, true, false, Option, none, some, List, [], ◌∷◌, Bytes, ◌≡◌, refl,
  sym, ap, ◌∙◌, arith, subst, length, ltb,
}
use skg.Error.{Position}
use skg.Model.{Nodes, nil, Document}
use skg.Merge.{merge_overlay, merge_nodes}
use skg.Merge.Keyed.{IsKeyed, IsKeyed-IsLoose}
use skg.Merge.Compose.{merge_overlay-IsKeyed, merge_nodes-IsKeyed_self}
use skg.Result.{
  Result, ok, err, out_of_fuel, Ensures, holds, failed, Ensures-bind, Ensures-if, Ensures-map,
}
use skg.Parser.File.{parse_bytes}
use skg.Parser.Whole.{DocumentSound, parse_bytes-DocumentSound}
use skg.Resolve.Path.{path_beq, join}
use skg.Resolve.Files.{Loader, get_path}
use skg.Resolve.Meaning.{ImportsTo}
use skg.Resolve.Meaning.Resolves.{file}
use skg.Resolve.Meaning.ImportsTo.{no_more, import}
use skg.Resolve.Done.{path_beq_refl}
use skg.Resolve.State.{
  Same-refl, Same-trans, Known, Sane, Step, Step-trans, get_path-Known, Entered,
}
use skg.Resolve.Kept.{
  charge_bytes-Step, charge_nodes-Step, merge_charged-Step, enter_file-Entered, finish_file-Step,
}
use skg.Resolve.{
  Load, origin_of, import_all, compose_imports, load_file, load_at, load_canonical, load,
}
use skg.Resolve.Guards.{is_outside, reuse, read_at, parsed, count_nodes, directory_of}
use skg.Resolve.Options.{max_import_depth, Resolved, Resolver, Origin}

-- A well-formed overlay stands for itself over nothing.
pub merge_overlay_nil : (ns : Nodes) → IsKeyed ns → ns ≡ merge_overlay nil ns
unfolding merge_nodes merge_overlay
merge_overlay_nil ns h = sym (merge_nodes-IsKeyed_self ns h)

module _ (parse_f64 : Bytes → Option ℕ) (loader : Loader) where
  -- What `load` gives.
  pub record Loaded (path : Bytes) (r : Resolver) (v : Resolved) (s : Resolver) : Type 0 where
    pub step : Step parse_f64 loader r s
    pub target : Bytes
    pub key : Bytes
    pub found : loader.canonicalize path ≡ some target
    pub same_file : path_beq key target ≡ true
    pub known : Known parse_f64 loader r.root key v
    pub depth_fits : length r.chain + v.depth ≤ max_import_depth

  abbrev pub LoadedPair : Bytes → Resolver → Resolved × Resolver → Type 0
  LoadedPair path r (v, s) = Loaded path r v s

  -- What is asked of the recursive call, at a fuel.
  abbrev pub Loads : ℕ → Load → Type 0
  Loads f call =
      (path : Bytes) (origin : Option Origin) (r : Resolver)
      → Sane parse_f64 loader r
      → 34 ≤ f + length r.chain
      → Ensures (LoadedPair path r) (call path origin r)

  record Composed (canonical : Bytes) (paths : List Bytes) (merged : Nodes) (depth : ℕ)
      (r : Resolver) (result : Nodes) (end : ℕ) (s : Resolver) : Type 0 where
    pub step : Step parse_f64 loader r s
    pub imports : ImportsTo parse_f64 loader canonical paths merged depth result end
    pub keyed : IsKeyed result
    pub depth_fits : end + length r.chain ≤ suc max_import_depth

  abbrev ComposedPair : Bytes → List Bytes → Nodes → ℕ → Resolver → (Nodes × ℕ) × Resolver → Type 0
  ComposedPair canonical paths merged depth r ((result, end), s) =
      Composed canonical paths merged depth r result end s

  Step-refl : (r : Resolver) → Sane parse_f64 loader r → Step parse_f64 loader r r
  Step-refl r h = record { sane = h; same = Same-refl r; chain_is = refl }

  import_all-Composed :
      (f : ℕ) (call : Load)
      → Loads f call
      → (canonical : Bytes) (paths : List Bytes) (positions : List Position) (merged : Nodes)
        (depth : ℕ) (r : Resolver)
      → length paths ≡ length positions
      → Sane parse_f64 loader r
      → 34 ≤ f + length r.chain
      → IsKeyed merged
      → depth + length r.chain ≤ suc max_import_depth
      → Ensures
          (ComposedPair canonical paths merged depth r)
          (import_all call canonical paths positions merged depth r)
  unfolding import_all
  import_all-Composed f call hl canonical [] positions merged depth r e h hf hm hd =
      holds (record { step = Step-refl r h; imports = no_more; keyed = hm; depth_fits = hd })
  import_all-Composed f call hl canonical (path ∷ paths) [] merged depth r e h hf hm hd =
      absurd (omega arith)
  import_all-Composed f call hl canonical (path ∷ paths) (position ∷ positions) merged depth r e h
        hf hm hd =
      Ensures-bind (hl (join (directory_of canonical) path) (origin_of canonical position) r h hf)
        λ (imported, s) x.
          Ensures-bind
            (merge_charged-Step parse_f64 loader (origin_of canonical position) canonical merged
              imported.document.children s x.step.sane hm x.known.keyed)
            λ (merged₁, t) (step, is_merged).
              let both = Step-trans parse_f64 loader x.step step in
              let keyed₁ : IsKeyed merged₁ = rw is_merged (
                merge_overlay-IsKeyed merged imported.document.children hm
                  (IsKeyed-IsLoose _ x.known.keyed)) in
              let same_length = ap length both.chain_is in
              Ensures-map
                (import_all-Composed f call hl canonical paths positions merged₁
                  (max depth (1 + imported.depth)) t (omega arith) both.sane
                  (omega (arith, same_length)) keyed₁ (omega (arith, same_length, x.depth_fits)))
                λ ((result, end), u) y. record {
                  step = Step-trans parse_f64 loader both y.step;
                  imports = import x.found x.same_file x.known.resolves (rw is_merged at y.imports);
                  keyed = y.keyed;
                  depth_fits = omega (arith, y.depth_fits, same_length);
                }

  -- The children of a document over its imports.
  record Overlaid (canonical : Bytes) (document : Document) (r : Resolver) (children : Nodes)
      (depth : ℕ) (s : Resolver) : Type 0 where
    pub step : Step parse_f64 loader r s
    pub merged : Nodes
    pub imports : ImportsTo parse_f64 loader canonical document.import_paths nil 0 merged depth
    pub over : children ≡ merge_overlay merged document.children
    pub keyed : IsKeyed children
    pub depth_fits : depth + length r.chain ≤ suc max_import_depth

  abbrev OverlaidPair : Bytes → Document → Resolver → (Nodes × ℕ) × Resolver → Type 0
  OverlaidPair canonical document r ((children, depth), s) =
      Overlaid canonical document r children depth s

  compose_imports-Overlaid :
      (f : ℕ) (call : Load)
      → Loads f call
      → (origin : Option Origin) (canonical : Bytes) (paths : List Bytes) (document : Document)
        (r : Resolver)
      → document.import_paths ≡ paths
      → DocumentSound document
      → Sane parse_f64 loader r
      → 34 ≤ f + length r.chain
      → Ensures
          (OverlaidPair canonical document r)
          (compose_imports call origin canonical paths document r)
  unfolding compose_imports
  compose_imports-Overlaid f call hl origin canonical [] document r e d h hf = holds (record {
    step = Step-refl r h;
    merged = nil;
    imports = subst (λ ps. ImportsTo parse_f64 loader canonical ps nil 0 nil 0) (sym e) no_more;
    over = merge_overlay_nil document.children d.keyed;
    keyed = d.keyed;
    depth_fits = omega (arith, h.short);
  })
  compose_imports-Overlaid f call hl origin canonical (path ∷ paths) document r e d h hf =
      Ensures-bind
        (import_all-Composed f call hl canonical (path ∷ paths) document.import_positions nil 0 r
          (sym (ap length e) ∙ d.placed.parallel) h hf tt (omega (arith, h.short)))
        λ ((merged, depth), s) x.
          Ensures-bind
            (merge_charged-Step parse_f64 loader origin canonical merged document.children s
              x.step.sane x.keyed d.keyed)
            λ (children, t) (step, over). holds (record {
              step = Step-trans parse_f64 loader x.step step;
              merged = merged;
              imports =
                  subst (λ ps. ImportsTo parse_f64 loader canonical ps nil 0 merged depth) (sym e)
                    x.imports;
              over = over;
              keyed = rw over (
                  merge_overlay-IsKeyed merged document.children x.keyed
                    (IsKeyed-IsLoose _ d.keyed));
              depth_fits = x.depth_fits;
            })

  pub read_at-Read :
      (origin : Option Origin) (canonical : Bytes) (o : Option Bytes) (r : Resolver)
      → Ensures (λ (source, s). (s ≡ r) × (o ≡ some source)) (read_at origin canonical o r)
  unfolding read_at
  read_at-Read origin canonical none r = failed _
  read_at-Read origin canonical (some source) r = holds (refl, refl)

  pub parsed-Parsed :
      (o : Result Document) (r : Resolver)
      → Ensures DocumentSound o
      → Ensures (λ (d, s). (s ≡ r) × (o ≡ ok d) × DocumentSound d) (parsed o r)
  unfolding parsed
  parsed-Parsed (ok d) r (holds h) = holds (refl, refl, h)
  parsed-Parsed (err e) r h = failed _
  parsed-Parsed out_of_fuel r h = elim h [ ]

  -- A file that is on the chain, on top of the chain of `r`.
  abbrev FilePair : Bytes → Resolver → Resolved × Resolver → Type 0
  FilePair canonical r (v, s) =
      Step parse_f64 loader r s
      × Known parse_f64 loader r.root canonical v
      × (length r.chain + v.depth ≤ max_import_depth)

  load_file-Step :
      (f : ℕ) (call : Load)
      → Loads f call
      → (origin : Option Origin) (canonical : Bytes) (r s : Resolver)
      → Entered parse_f64 loader canonical r s
      → is_outside r.root canonical ≡ false
      → 33 ≤ f + length r.chain
      → Ensures (FilePair canonical r) (load_file parse_f64 loader call origin canonical s)
  unfolding load_file
  load_file-Step f call hl origin canonical r s x inside hf =
      Ensures-bind (read_at-Read origin canonical (loader.read canonical) s)
        λ (source, s₁) (e₁, is_read).
          Ensures-bind
            (charge_bytes-Step parse_f64 loader origin canonical (length source) s₁ (rw e₁ x.sane))
            λ (u, s₂) step₂.
              Ensures-bind
                (parsed-Parsed (parse_bytes parse_f64 source canonical) s₂
                  (parse_bytes-DocumentSound parse_f64 source canonical))
                λ (document, s₃) (e₃, is_parsed, d).
                  Ensures-bind
                    (charge_nodes-Step parse_f64 loader origin canonical
                      (count_nodes document.children) s₃ (rw e₃ step₂.sane))
                    λ (u₁, s₄) step₄.
                      let before : Step parse_f64 loader s s₄ =
                        Step-trans parse_f64 loader (rw e₁ at step₂) (rw e₃ at step₄) in
                      let on_chain : length s₄.chain ≡ suc (length r.chain) =
                        ap length (before.chain_is ∙ x.chain_is) in
                      Ensures-bind
                        (compose_imports-Overlaid f call hl origin canonical document.import_paths
                          document s₄ refl d before.sane (omega (arith, on_chain)))
                        λ ((children, depth), s₅) y.
                          let all_steps = Step-trans parse_f64 loader before y.step in
                          let same = Same-trans x.same all_steps.same in
                          let known : Known parse_f64 loader r.root canonical (record {
                            document = record document { children = children };
                            depth = depth;
                          }) =
                            record {
                              inside = inside;
                              keyed = y.keyed;
                              resolves = file is_read is_parsed y.imports y.over;
                            } in
                          Ensures-map
                            (finish_file-Step parse_f64 loader canonical
                              (record document { children = children }) depth r s₅ all_steps.sane
                              same (all_steps.chain_is ∙ x.chain_is) x.new
                              (subst
                                (λ root. Known parse_f64 loader root canonical (record {
                                  document = record document { children = children };
                                  depth = depth;
                                }))
                                (sym same.root_is) known))
                            λ (v, s₆) (step₆, is_v). (
                              step₆,
                              rw is_v known,
                              rw is_v (omega (arith, y.depth_fits, on_chain)),
                            )

  reuse-Loaded :
      (origin : Option Origin) (path target key : Bytes) (v : Resolved) (r : Resolver)
      → Sane parse_f64 loader r
      → loader.canonicalize path ≡ some target
      → path_beq key target ≡ true
      → Known parse_f64 loader r.root key v
      → Ensures (LoadedPair path r) (reuse origin path v r)
  unfolding reuse
  reuse-Loaded origin path target key v r h found same known =
      Ensures-if (ltb max_import_depth (length r.chain + v.depth)) (λ _. failed _)
        λ fits. holds (record {
          step = Step-refl r h;
          target = target;
          key = key;
          found = found;
          same_file = same;
          known = known;
          depth_fits = ground arith;
        })

  load_at-Loaded :
      (f : ℕ) (call : Load)
      → Loads f call
      → (origin : Option Origin) (path target : Bytes) (cached : Option Resolved) (r : Resolver)
      → Sane parse_f64 loader r
      → 33 ≤ f + length r.chain
      → loader.canonicalize path ≡ some target
      → is_outside r.root target ≡ false
      → get_path target r.done ≡ cached
      → Ensures (LoadedPair path r) (load_at parse_f64 loader call origin path target cached r)
  unfolding load_at
  load_at-Loaded f call hl origin path target (some v) r h hf found inside e =
      let (key, same, known) = get_path-Known parse_f64 loader r.root target r.done v h.known e in
      reuse-Loaded origin path target key v r h found same known
  load_at-Loaded f call hl origin path target none r h hf found inside e =
      Ensures-bind (enter_file-Entered parse_f64 loader origin path target r h e) λ (u, s) x.
        Ensures-map (load_file-Step f call hl origin target r s x inside hf)
          λ (v, t) (step, known, depth_fits). record {
            step = step;
            target = target;
            key = target;
            found = found;
            same_file = path_beq_refl target;
            known = known;
            depth_fits = depth_fits;
          }

  load_canonical-Loaded :
      (f : ℕ) (call : Load)
      → Loads f call
      → (origin : Option Origin) (path : Bytes) (o : Option Bytes) (r : Resolver)
      → Sane parse_f64 loader r
      → 33 ≤ f + length r.chain
      → loader.canonicalize path ≡ o
      → Ensures (LoadedPair path r) (load_canonical parse_f64 loader call origin path o r)
  unfolding load_canonical
  load_canonical-Loaded f call hl origin path none r h hf found = failed _
  load_canonical-Loaded f call hl origin path (some target) r h hf found =
      Ensures-if (is_outside r.root target) (λ _. failed _)
        λ inside.
          load_at-Loaded f call hl origin path target (get_path target r.done) r h hf found inside
            refl

  -- On a sound state `load` ends within its fuel. A file that it gives is inside the root and is what
  -- its path means, its imports fit under the chain, and the state is sound as before, with the same
  -- chain and limits.
  pub load-Loaded :
      (f : ℕ) (path : Bytes) (origin : Option Origin) (r : Resolver)
      → Sane parse_f64 loader r
      → 34 ≤ f + length r.chain
      → Ensures (λ (v, s). Loaded path r v s) (load parse_f64 loader f path origin r)
  unfolding load
  load-Loaded zero path origin r h hf = absurd (omega (arith, h.short))
  load-Loaded (suc f) path origin r h hf =
      load_canonical-Loaded f (load parse_f64 loader f) (load-Loaded f) origin path
        (loader.canonicalize path) r h (omega arith) refl
