-- ===== src/Resolve/Complete.antt =====
-- rust/src/resolve.rs: `load` and `resolve_with` on a layered graph of files that the budgets allow.
use skg.Base.{
  ℕ, zero, suc, ◌+◌, ◌≤◌, false, Option, none, some, List, Bytes, ◌≡◌, refl, sym, ap, ◌∙◌, arith,
  length,
}
use mathlib.Core.Option
use skg.Model.{Nodes, nil, Document}
use skg.Merge.{merge_overlay, materialize_nodes}
use skg.Merge.Keyed.{IsKeyed}
use skg.Merge.Work.{merge_work}
use skg.Parser.Whole.{parse_bytes-DocumentSound}
use skg.Result.{Ensures-ok, Yields, spent, yields, Yields-bind, Yields-Ensures, Result, ok}
use skg.Parser.File.{parse_bytes}
use skg.Resolve.Path.{Component}
use skg.Resolve.Files.{Loader, get_path}
use skg.Resolve.Graph.{resolve_with-Finished}
use skg.Resolve.Guards.{finish_file, is_outside, is_on_chain, count_nodes, read_at, parsed}
use skg.Resolve.Spending.{
  level, content_of, Allows, Agrees, Spends, Spends-refl, Spends-trans, charge_bytes-Yields,
  charge_nodes-Yields,
}
use skg.Resolve.Layered.{Layered, AllLayered}
use skg.Resolve.Layered.Layered.{file}
use skg.Resolve.{
  compose_imports, Load, load_file, load_at, load_canonical, load, start, load_fuel, resolve_from,
  resolve_rooted, resolve_at, resolve_with,
}
use skg.Resolve.Options.{◌>>=◌, max_import_depth, Resolved, Resolver, ResolveOptions, Origin}
use skg.Resolve.Ready.{
  Ready, Ready-Spends, Given, Answers, entered, enter_file-Ready, reuse-Yields, entered-Ready,
  finish_file-Yields, Layered-inside,
}
use skg.Resolve.Composed.{compose_imports-Yields}

module _ (parse_f64 : Bytes → Option ℕ) (loader : Loader) (root : Option Bytes)
    (rank : List Component → ℕ) (content : List Component → Nodes) where
  read_at-Yields :
      (origin : Option Origin) (canonical source : Bytes) (o : Option Bytes) (r : Resolver)
      → o ≡ some source
      → Agrees rank content r
      → Yields
          (λ (x, s). (x ≡ source) × Spends rank content 0 0 0 0 r s)
          (read_at origin canonical o r)
  unfolding read_at
  read_at-Yields origin canonical source o r e h =
      rw e (yields (refl, Spends-refl rank content r h))

  parsed-Yields :
      (o : Result Document) (document : Document) (r : Resolver)
      → o ≡ ok document
      → Agrees rank content r
      → Yields (λ (d, s). (d ≡ document) × Spends rank content 0 0 0 0 r s) (parsed o r)
  unfolding parsed
  parsed-Yields o document r e h = rw e (yields (refl, Spends-refl rank content r h))

  -- The end of `load`, from the imports of the parsed document on.
  compose_finish-Yields :
      (call : Load)
      → Answers parse_f64 loader root rank content call
      → (origin : Option Origin) (canonical : Bytes) (document : Document) (merged : Nodes)
        (size f b n w : ℕ) (r s : Resolver)
      → AllLayered parse_f64 loader root rank content canonical document.import_paths nil merged f b
          n w
      → content_of content canonical ≡ merge_overlay merged document.children
      → IsKeyed document.children
      → Ready parse_f64 loader root rank content (level rank canonical) r
      → Allows
          (1 + f)
          (size + b)
          (count_nodes document.children + n)
          (merge_work merged document.children + w)
          r
      → Spends rank content 0 size
          (count_nodes document.children)
          0
          (entered parse_f64 loader root rank content canonical r)
          s
      → Yields
          (Given parse_f64 loader root rank content canonical
            (1 + f)
            (size + b)
            (count_nodes document.children + n)
            (merge_work merged document.children + w)
            r)
          ((compose_imports call origin canonical document.import_paths document
              >>= λ (children, depth).
                  finish_file canonical (record document { children = children }) depth)
            s)
  compose_finish-Yields call hl origin canonical document merged size f b n w r s layers is_content
        keyed h allows before =
      Yields-bind
        (compose_imports-Yields parse_f64 loader root rank content call hl origin canonical
          document.import_paths document merged f b n w s layers keyed
          (λ k lower.
            Ready-Spends parse_f64 loader root rank content
              (entered-Ready parse_f64 loader root rank content canonical r h k lower) before)
          before.agrees
          (record {
            files_fit = omega (arith, allows.files_fit, before.files_le, before.max_files_is);
            bytes_fit = omega (arith, allows.bytes_fit, before.bytes_le, before.max_bytes_is);
            nodes_fit = omega (arith, allows.nodes_fit, before.nodes_le, before.max_nodes_is);
            work_fits = omega (arith, allows.work_fits, before.work_le);
          }))
        λ ((children, depth), t) (five, is_result, le).
          finish_file-Yields parse_f64 loader root rank content canonical
            (record document { children = children }) depth f _ _ _ r t
            (Spends-trans rank content before five (omega arith) (omega arith) (omega arith)
              (omega arith))
            (is_result ∙ sym is_content) le

  -- What is read, parsed and counted of an entered file.
  load_file-Yields :
      (call : Load)
      → Answers parse_f64 loader root rank content call
      → (origin : Option Origin) (canonical : Bytes) (f b n w : ℕ) (r : Resolver)
      → Layered parse_f64 loader root rank content canonical f b n w
      → Ready parse_f64 loader root rank content (level rank canonical) r
      → Allows f b n w r
      → Yields (Given parse_f64 loader root rank content canonical f b n w r) (
          load_file parse_f64 loader call origin canonical
            (entered parse_f64 loader root rank content canonical r))
  unfolding load_file
  load_file-Yields call hl origin canonical f b n w r
        (file {source = source} {document = document} {merged = merged} {f = f₀} {b = b₀} {n = n₀}
          {w = w₀} inside is_read is_parsed layers is_content)
        h allows =
      let r₀ = entered parse_f64 loader root rank content canonical r in
      let sound = Ensures-ok (parse_bytes-DocumentSound parse_f64 source canonical) is_parsed in
      Yields-bind
        (read_at-Yields origin canonical source (loader.read canonical) r₀ is_read h.agrees)
        λ (source₁, s₁) (e₁, one).
          let size : length source₁ ≡ length source = ap length e₁ in
          Yields-bind
            (charge_bytes-Yields rank content origin canonical (length source₁) s₁
              (omega (arith, size, one.bytes_le, one.max_bytes_is, allows.bytes_fit)) one.agrees)
            λ (u, s₂) two.
              let so_far : Spends rank content 0 (length source) 0 0 r₀ s₂ =
                Spends-trans rank content one two (omega arith) (omega (arith, size)) (omega arith)
                  (omega arith) in
              Yields-bind
                (parsed-Yields (parse_bytes parse_f64 source₁ canonical) document s₂
                  (ap (λ x. parse_bytes parse_f64 x canonical) e₁ ∙ is_parsed) two.agrees)
                λ (document₁, s₃) (e₃, three).
                  let upto : Spends rank content 0 (length source) 0 0 r₀ s₃ =
                    Spends-trans rank content so_far three (omega arith) (omega arith) (omega arith)
                      (omega arith) in
                  rw e₃ (
                    Yields-bind
                      (charge_nodes-Yields rank content origin canonical
                        (count_nodes document.children) s₃
                        (omega (arith, upto.nodes_le, upto.max_nodes_is, allows.nodes_fit))
                        upto.agrees)
                      λ (u₁, s₄) four.
                        compose_finish-Yields call hl origin canonical document merged
                          (length source) f₀ b₀ n₀ w₀ r s₄ layers is_content sound.keyed h allows
                          (Spends-trans rank content upto four (omega arith) (omega arith)
                            (omega arith) (omega arith)))

  load_at-Yields :
      (call : Load)
      → Answers parse_f64 loader root rank content call
      → (origin : Option Origin) (path canonical : Bytes) (f b n w : ℕ) (cached : Option Resolved)
        (r : Resolver)
      → get_path canonical r.done ≡ cached
      → Layered parse_f64 loader root rank content canonical f b n w
      → Ready parse_f64 loader root rank content (level rank canonical) r
      → Allows f b n w r
      → Yields
          (Given parse_f64 loader root rank content canonical f b n w r)
          (load_at parse_f64 loader call origin path canonical cached r)
  unfolding load_at
  load_at-Yields call hl origin path canonical f b n w (some v) r e layer h allows =
      reuse-Yields parse_f64 loader root rank content origin path canonical v f b n w r h
        (h.agrees canonical v e)
  load_at-Yields call hl origin path canonical f b n w none r e layer h allows =
      rw
        (enter_file-Ready parse_f64 loader root rank content origin path canonical r h (
          omega
            (arith, (Layered-inside parse_f64 loader root rank content layer).1, allows.files_fit)))
        (load_file-Yields call hl origin canonical f b n w r layer h allows)

  load-Yields : (fuel : ℕ) → Answers parse_f64 loader root rank content (load parse_f64 loader fuel)
  unfolding load load_canonical
  load-Yields zero path target origin f b n w r found layer h allows = spent
  load-Yields (suc fuel) path target origin f b n w r found layer h allows =
      let inside : is_outside r.root target ≡ false =
        ap (λ o. is_outside o target) h.root_is
        ∙ (Layered-inside parse_f64 loader root rank content layer).0 in
      rw (found, load_canonical, inside)
        (load_at-Yields (load parse_f64 loader fuel) (load-Yields fuel) origin path target f b n w
          (get_path target r.done) r refl layer h allows)

  resolve_from-Yields :
      (entry target : Bytes) (options : ResolveOptions) (f b n w : ℕ)
      → loader.canonicalize entry ≡ some target
      → Layered parse_f64 loader root rank content target f b n w
      → level rank target ≤ max_import_depth
      → Allows f b n w (start options root)
      → Yields
          (λ d. d.children ≡ materialize_nodes (content_of content target))
          (resolve_from parse_f64 loader entry options root)
  unfolding resolve_from is_on_chain get_path Given
  resolve_from-Yields entry target options f b n w found layer shallow allows =
      let ready : Ready parse_f64 loader root rank content (level rank target)
          (start options root) =
        record {
          root_is = refl;
          above = λ key on. cc;
          room = omega (arith, shallow);
          agrees = λ key v e. cc;
        } in
      Yields-bind
        (load-Yields load_fuel entry target none f b n w (start options root) found layer ready
          allows)
        λ (v, s) (_, fit). yields (ap materialize_nodes fit.children_are)

  -- The root that the options name is found.
  resolve_at-rooted :
      (entry : Bytes) (options : ResolveOptions) (named canonical : Option Bytes)
      → Option.map loader.canonicalize named ≡ Option.map some canonical
      → resolve_at parse_f64 loader entry options named
        ≡ resolve_from parse_f64 loader entry options canonical
  unfolding resolve_at resolve_rooted
  resolve_at-rooted entry options none none e = refl
  resolve_at-rooted entry options none (some c) e = cc
  resolve_at-rooted entry options (some named) none e = cc
  resolve_at-rooted entry options (some named) (some c) e =
      let found : loader.canonicalize named ≡ some c = cc in rw (found, resolve_rooted) refl

  -- A graph of files that are found, within the root and parsed, each on a lower level than those that
  -- import it and none above level 32, is resolved wherever the budgets allow its files, bytes, nodes
  -- and work, counted as often as they are imported: without an error, to the final data of what the
  -- entry file has over its imports.
  pub resolve_with-Layered :
      (entry target : Bytes) (options : ResolveOptions) (f b n w : ℕ)
      → Option.map loader.canonicalize options.root ≡ Option.map some root
      → loader.canonicalize entry ≡ some target
      → Layered parse_f64 loader root rank content target f b n w
      → level rank target ≤ max_import_depth
      → Allows f b n w (start options root)
      → (d : Document) × (resolve_with parse_f64 loader entry options ≡ ok d)
        × (d.children ≡ materialize_nodes (content_of content target))
  unfolding resolve_with
  resolve_with-Layered entry target options f b n w rooted found layer shallow allows =
      Yields-Ensures
        (rw (resolve_at-rooted entry options options.root root rooted)
          (resolve_from-Yields entry target options f b n w found layer shallow allows))
        (resolve_with-Finished parse_f64 loader entry options)
