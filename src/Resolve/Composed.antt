-- ===== src/Resolve/Composed.antt =====
-- rust/src/resolve.rs: the imports of a file of a layered graph.
use skg.Base.{
  ℕ, suc, ◌+◌, ◌≤◌, max, Option, List, [], ◌∷◌, Bytes, ◌≡◌, refl, sym, ap, ◌∙◌, arith, subst,
}
use skg.Error.{Position}
use skg.Model.{Nodes, nil, Document}
use skg.Merge.{merge_overlay}
use skg.Merge.Keyed.{IsKeyed, IsKeyed-IsLoose}
use skg.Merge.Compose.{merge_overlay-IsKeyed}
use skg.Merge.Work.{merge_work}
use skg.Resolve.Loads.{merge_overlay_nil}
use skg.Result.{Yields, spent, yields, Yields-bind, Yields-map}
use skg.Resolve.Path.{Component, join}
use skg.Resolve.Files.{Loader}
use skg.Resolve.Guards.{directory_of}
use skg.Resolve.Spending.{
  level, content_of, Allows, Agrees, Spends, Spends-refl, Spends-trans, Allows-Spends,
  merge_charged-Yields,
}
use skg.Resolve.Layered.{Layered-IsKeyed, AllLayered-IsKeyed, AllLayered}
use skg.Resolve.Layered.AllLayered.{no_more, import}
use skg.Resolve.{Load, origin_of, import_all, compose_imports}
use skg.Resolve.Options.{Resolver, Origin}
use skg.Resolve.Ready.{Ready, Ready-Spends, Given, Answers}

module _ (parse_f64 : Bytes → Option ℕ) (loader : Loader) (root : Option Bytes)
    (rank : List Component → ℕ) (content : List Component → Nodes) where
  -- What the imports of the file at `canonical` leave, composed to the nodes.
  abbrev pub ImportedPair :
      Bytes → Nodes → ℕ → ℕ → ℕ → ℕ → Resolver → (Nodes × ℕ) × Resolver → Type 0
  ImportedPair canonical expected f b n w r ((nodes, depth), s) =
      Spends rank content f b n w r s × (nodes ≡ expected) × (depth ≤ level rank canonical)

  import_all-Yields :
      (call : Load)
      → Answers parse_f64 loader root rank content call
      → (canonical : Bytes) (paths : List Bytes) (positions : List Position) (merged result : Nodes)
        (depth f b n w : ℕ) (r : Resolver)
      → AllLayered parse_f64 loader root rank content canonical paths merged result f b n w
      → IsKeyed merged
      → ((k : ℕ) → suc k ≤ level rank canonical → Ready parse_f64 loader root rank content k r)
      → Agrees rank content r
      → Allows f b n w r
      → depth ≤ level rank canonical
      → Yields
          (ImportedPair canonical result f b n w r)
          (import_all call canonical paths positions merged depth r)
  unfolding import_all Given
  import_all-Yields call hl canonical [] positions merged result depth f b n w r no_more keyed h
        agrees allows hd =
      yields (Spends-refl rank content r agrees, refl, hd)
  import_all-Yields call hl canonical (path ∷ paths) [] merged result depth f b n w r layers keyed h
        agrees allows hd =
      spent
  import_all-Yields call hl canonical (path ∷ paths) (position ∷ positions) merged result depth f b
        n w r
        (import {target = target} {f = f₀} {b = b₀} {n = n₀} {w = w₀} {f₁ = f₁} {b₁ = b₁} {n₁ = n₁}
          {w₁ = w₁} found lower layer layers)
        keyed h agrees allows hd =
      Yields-bind
        (hl (join (directory_of canonical) path) target (origin_of canonical position) _ _ _ _ r
          found layer (h (level rank target) (omega (arith, lower)))
          (Allows-Spends rank content allows (Spends-refl rank content r agrees) (omega arith)
            (omega arith) (omega arith) (omega arith)))
        λ (imported, s) (one, fit).
          let its_keyed = Layered-IsKeyed parse_f64 loader root rank content layer in
          let is_content = fit.children_are in
          let cost : merge_work merged imported.document.children
              ≡ merge_work merged (content_of content target) =
            ap (merge_work merged) is_content in
          Yields-bind
            (merge_charged-Yields rank content (origin_of canonical position) canonical merged
              imported.document.children s keyed (subst IsKeyed (sym is_content) its_keyed)
              (omega (arith, cost, one.work_le, allows.work_fits)) one.agrees)
            λ (merged₁, t) (is_merged, two).
              let both : Spends rank content f₀ b₀ n₀
                  (merge_work merged (content_of content target) + w₀) r t =
                Spends-trans rank content one two (omega arith) (omega arith) (omega arith)
                  (omega (arith, cost)) in
              let expected : merged₁ ≡ merge_overlay merged (content_of content target) =
                is_merged ∙ ap (merge_overlay merged) is_content in
              Yields-map
                (import_all-Yields call hl canonical paths positions merged₁ result
                  (max depth (1 + imported.depth)) f₁ b₁ n₁ w₁ t (rw expected layers)
                  (rw expected (
                    merge_overlay-IsKeyed merged (content_of content target) keyed
                      (IsKeyed-IsLoose _ its_keyed)))
                  (λ k le. Ready-Spends parse_f64 loader root rank content (h k le) both) two.agrees
                  (Allows-Spends rank content allows both (omega arith) (omega arith) (omega arith)
                    (omega arith))
                  (omega (arith, fit.depth_le, lower)))
                λ ((end, below), u) (three, is_result, le). (
                  Spends-trans rank content both three (omega arith) (omega arith) (omega arith)
                      (omega arith),
                  is_result,
                  le,
                )

  pub compose_imports-Yields :
      (call : Load)
      → Answers parse_f64 loader root rank content call
      → (origin : Option Origin) (canonical : Bytes) (paths : List Bytes) (document : Document)
        (merged : Nodes) (f b n w : ℕ) (r : Resolver)
      → AllLayered parse_f64 loader root rank content canonical paths nil merged f b n w
      → IsKeyed document.children
      → ((k : ℕ) → suc k ≤ level rank canonical → Ready parse_f64 loader root rank content k r)
      → Agrees rank content r
      → Allows f b n (merge_work merged document.children + w) r
      → Yields
          (ImportedPair canonical
            (merge_overlay merged document.children)
            f
            b
            n
            (merge_work merged document.children + w)
            r)
          (compose_imports call origin canonical paths document r)
  unfolding compose_imports
  compose_imports-Yields call hl origin canonical [] document merged f b n w r no_more keyed h
        agrees allows =
      let none_spent = Spends-refl rank content r agrees in
      yields (
        Spends-trans rank content none_spent none_spent (omega arith) (omega arith) (omega arith)
            (omega arith),
        merge_overlay_nil document.children keyed,
        omega arith,
      )
  compose_imports-Yields call hl origin canonical (path ∷ paths) document merged f b n w r layers
        keyed h agrees allows =
      Yields-bind
        (import_all-Yields call hl canonical (path ∷ paths) document.import_positions nil merged 0 f
          b n w r layers tt h agrees
          (Allows-Spends rank content allows (Spends-refl rank content r agrees) (omega arith)
            (omega arith) (omega arith) (omega arith))
          (omega arith))
        λ ((merged₁, depth), s) (one, is_merged, le).
          let cost : merge_work merged₁ document.children ≡ merge_work merged document.children =
            ap (λ ns. merge_work ns document.children) is_merged in
          Yields-bind
            (merge_charged-Yields rank content origin canonical merged₁ document.children s
              (rw is_merged (AllLayered-IsKeyed parse_f64 loader root rank content layers tt)) keyed
              (omega (arith, cost, one.work_le, allows.work_fits)) one.agrees)
            λ (children, t) (over, two). yields (
              Spends-trans rank content one two (omega arith) (omega arith) (omega arith)
                  (omega (arith, cost)),
              over ∙ ap (λ ns. merge_overlay ns document.children) is_merged,
              le,
            )
