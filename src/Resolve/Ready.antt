-- ===== src/Resolve/Ready.antt =====
-- rust/src/resolve.rs: a resolver that may load a file of a layered graph, and the steps of `load` on
-- the chain and the cache.
use skg.Base.{
  ℕ, suc, ◌+◌, ◌≤◌, true, false, Option, some, List, ◌∷◌, Bytes, ◌≡◌, refl, sym, ap, ◌∙◌, arith,
  subst, length, ltb, leb, Bool-cases, inl, inr,
}
use skg.Model.{Nodes, Document}
use skg.Result.{Yields, yields, ok}
use skg.Resolve.Path.{Component, path_beq}
use skg.Resolve.Files.{Loader, get_path, insert_path}
use skg.Resolve.Done.{path_beq_iff, get_path-insert_path}
use skg.Resolve.Guards.{is_outside, is_on_chain, enter_file, finish_file, popped, reuse}
use skg.Resolve.Spending.{level, content_of, Fits, Allows, Agrees, Spends}
use skg.Resolve.Layered.{Layered}
use skg.Resolve.Layered.Layered.{file}
use skg.Resolve.{Load}
use skg.Resolve.Options.{max_import_depth, Resolved, Resolver, Origin}

module _ (parse_f64 : Bytes → Option ℕ) (loader : Loader) (root : Option Bytes)
    (rank : List Component → ℕ) (content : List Component → Nodes) where
  level_same : (k p : Bytes) → path_beq k p ≡ true → level rank k ≡ level rank p
  level_same k p h = ap rank ((path_beq_iff k p).0 h)

  -- The resolver may load a file of this level: each file on the chain has a higher one, and there is
  -- room on the chain for all that are lower.
  pub record Ready (n : ℕ) (r : Resolver) : Type 0 where
    pub root_is : r.root ≡ root
    pub above : (key : Bytes) → is_on_chain key r.chain ≡ true → suc n ≤ level rank key
    pub room : length r.chain + n ≤ max_import_depth
    pub agrees : Agrees rank content r

  -- What a step that spends no more than was planned leaves ready.
  pub Ready-Spends :
      {n f b m w : ℕ} {r s : Resolver} → Ready n r → Spends rank content f b m w r s → Ready n s
  Ready-Spends {n} {r} {s} h k = record {
    root_is = k.root_is ∙ h.root_is;
    above = λ key on. h.above key (subst (λ chain. is_on_chain key chain ≡ true) k.chain_is on);
    room = omega (arith, h.room, ap length k.chain_is);
    agrees = k.agrees;
  }

  Ready-lower : {n m : ℕ} {r : Resolver} → Ready n r → m ≤ n → Ready m r
  Ready-lower h le = record {
    root_is = h.root_is;
    above = λ key on. omega (arith, h.above key on, le);
    room = omega (arith, h.room, le);
    agrees = h.agrees;
  }

  -- What a file leaves that is given.
  unfoldable pub Given : Bytes → ℕ → ℕ → ℕ → ℕ → Resolver → Resolved × Resolver → Type 0
  Given canonical f b n w r (v, s) = Spends rank content f b n w r s × Fits rank content canonical v

  abbrev pub Answers : Load → Type 0
  Answers call =
      (path target : Bytes) (origin : Option Origin) (f b n w : ℕ) (r : Resolver)
      → loader.canonicalize path ≡ some target
      → Layered parse_f64 loader root rank content target f b n w
      → Ready (level rank target) r
      → Allows f b n w r
      → Yields (Given target f b n w r) (call path origin r)

  -- The resolver that has a file on its chain.
  abbrev pub entered : Bytes → Resolver → Resolver
  entered canonical r = record r { files = r.files + 1; chain = canonical ∷ r.chain }

  pub enter_file-Ready :
      (origin : Option Origin) (path canonical : Bytes) (r : Resolver)
      → Ready (level rank canonical) r
      → suc r.files ≤ r.max_files
      → enter_file origin path canonical r ≡ ok (tt, entered canonical r)
  unfolding enter_file
  enter_file-Ready origin path canonical r h fits =
      let off : is_on_chain canonical r.chain ≡ false =
        elim (Bool-cases (is_on_chain canonical r.chain)) [
          | inl on ↦ absurd (omega (arith, h.above canonical on))
          | inr off ↦ off
        ] in
      let deep : ltb max_import_depth (length r.chain) ≡ false = ground (arith, h.room) in
      let many : leb r.max_files r.files ≡ false = ground arith in rw (off, deep, many) refl

  pub Layered-inside :
      {canonical : Bytes} {f b n w : ℕ}
      → Layered parse_f64 loader root rank content canonical f b n w
      → (is_outside root canonical ≡ false) × (1 ≤ f)
  Layered-inside (file inside is_read is_parsed layers e) = (inside, omega arith)

  pub reuse-Yields :
      (origin : Option Origin) (path canonical : Bytes) (v : Resolved) (f b n w : ℕ) (r : Resolver)
      → Ready (level rank canonical) r
      → Fits rank content canonical v
      → Yields (Given canonical f b n w r) (reuse origin path v r)
  unfolding reuse Given
  reuse-Yields origin path canonical v f b n w r h fit =
      let fits : ltb max_import_depth (length r.chain + v.depth) ≡ false =
        ground (arith, h.room, fit.depth_le) in
      rw fits (
        yields (
          record {
            root_is = refl;
            chain_is = refl;
            max_files_is = refl;
            max_bytes_is = refl;
            max_nodes_is = refl;
            files_le = omega arith;
            bytes_le = omega arith;
            nodes_le = omega arith;
            work_le = omega arith;
            agrees = h.agrees;
          },
          fit,
        ))

  Fits-same :
      (k p : Bytes) (v : Resolved)
      → path_beq k p ≡ true
      → Fits rank content k v
      → Fits rank content p v
  Fits-same k p v same h = record {
    depth_le = omega (arith, h.depth_le, level_same k p same);
    children_are = h.children_are ∙ ap content ((path_beq_iff k p).0 same);
  }

  -- The finished file has its content.
  insert_path-Agrees :
      (canonical : Bytes) (v : Resolved) (r : Resolver)
      → Agrees rank content r
      → Fits rank content canonical v
      → (key : Bytes) (w : Resolved) → get_path key (insert_path canonical v r.done) ≡ some w
      → Fits rank content key w
  insert_path-Agrees canonical v r h fit key w e =
      let found = sym (get_path-insert_path canonical key v r.done) ∙ e in
      elim (Bool-cases (path_beq canonical key)) [
        | inl same ↦
            let is_v : some v ≡ some w = rw same at found in
            let equal : v ≡ w = cc in
            subst (Fits rank content key) equal (Fits-same canonical key v same fit)
        | inr other ↦ h key w (rw other at found)
      ]

  pub entered-Ready :
      (canonical : Bytes) (r : Resolver)
      → Ready (level rank canonical) r
      → (k : ℕ) → suc k ≤ level rank canonical
      → Ready k (entered canonical r)
  unfolding is_on_chain
  entered-Ready canonical r h k lower = record {
    root_is = h.root_is;
    above = λ key on. elim (Bool-cases (path_beq canonical key)) [
      | inl same ↦ omega (arith, lower, level_same canonical key same)
      | inr other ↦ omega (arith, lower, h.above key (rw other at on))
    ];
    room = omega (arith, h.room, lower);
    agrees = h.agrees;
  }

  pub finish_file-Yields :
      (canonical : Bytes) (document : Document) (depth f b n w : ℕ) (r s : Resolver)
      → Spends rank content f b n w (entered canonical r) s
      → document.children ≡ content_of content canonical
      → depth ≤ level rank canonical
      → Yields (Given canonical (1 + f) b n w r) (finish_file canonical document depth s)
  unfolding finish_file Given
  finish_file-Yields canonical document depth f b n w r s h e le =
      let v : Resolved = record { document = document; depth = depth } in
      let fit : Fits rank content canonical v = record { depth_le = le; children_are = e } in
      yields (
        record {
          root_is = h.root_is;
          chain_is = ap popped h.chain_is;
          max_files_is = h.max_files_is;
          max_bytes_is = h.max_bytes_is;
          max_nodes_is = h.max_nodes_is;
          files_le = omega (arith, h.files_le);
          bytes_le = h.bytes_le;
          nodes_le = h.nodes_le;
          work_le = h.work_le;
          agrees = insert_path-Agrees canonical v s h.agrees fit;
        },
        fit,
      )
