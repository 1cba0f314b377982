-- ===== src/Resolve/Spending.antt =====
-- rust/src/resolve.rs: the budgets, and the steps of the resolver that spend them, on finished files
-- that have the content that is expected of them.
use skg.Base.{ℕ, ◌+◌, ◌-◌, ◌≤◌, false, Option, some, List, Bytes, ◌≡◌, refl, ◌∙◌, arith, ltb}
use skg.Model.{Nodes}
use skg.Merge.{merge_overlay}
use skg.Merge.Keyed.{IsKeyed, IsKeyed-IsLoose}
use skg.Merge.Work.{merge_work, spend}
use skg.Merge.Refine.{merge_nodes_budget-spend, merge_overlay-join_all}
use skg.Result.{Yields, yields}
use skg.Resolve.Path.{Component, components}
use skg.Resolve.Files.{get_path}
use skg.Resolve.Guards.{charge_bytes, charge_nodes, merged_at, merge_charged}
use skg.Resolve.Options.{Resolved, Resolver, Origin}

-- The budgets allow as many more files, bytes and nodes, and as much work.
pub record Allows (f b n w : ℕ) (r : Resolver) : Type 0 where
  pub files_fit : r.files + f ≤ r.max_files
  pub bytes_fit : r.bytes + b ≤ r.max_bytes
  pub nodes_fit : r.nodes + n ≤ r.max_nodes
  pub work_fits : w ≤ r.remaining_work

-- What is said of a path by its components alone, so of all its spellings.
abbrev pub level : (List Component → ℕ) → Bytes → ℕ
level rank path = rank (components path)

abbrev pub content_of : (List Component → Nodes) → Bytes → Nodes
content_of content path = content (components path)

module _ (rank : List Component → ℕ) (content : List Component → Nodes) where
  -- A finished file has its content, and imports no deeper than its level.
  pub record Fits (key : Bytes) (v : Resolved) : Type 0 where
    pub depth_le : v.depth ≤ level rank key
    pub children_are : v.document.children ≡ content_of content key

  abbrev pub Agrees : Resolver → Type 0
  Agrees r = (key : Bytes) (v : Resolved) → get_path key r.done ≡ some v → Fits key v

  -- A step that spends no more, and keeps the rest but for the work and the finished files.
  pub record Spends (f b n w : ℕ) (r s : Resolver) : Type 0 where
    pub root_is : s.root ≡ r.root
    pub chain_is : s.chain ≡ r.chain
    pub max_files_is : s.max_files ≡ r.max_files
    pub max_bytes_is : s.max_bytes ≡ r.max_bytes
    pub max_nodes_is : s.max_nodes ≡ r.max_nodes
    pub files_le : s.files ≤ r.files + f
    pub bytes_le : s.bytes ≤ r.bytes + b
    pub nodes_le : s.nodes ≤ r.nodes + n
    pub work_le : r.remaining_work ≤ s.remaining_work + w
    pub agrees : Agrees s

  pub Spends-refl : (r : Resolver) → Agrees r → Spends 0 0 0 0 r r
  Spends-refl r h = record {
    root_is = refl;
    chain_is = refl;
    max_files_is = refl;
    max_bytes_is = refl;
    max_nodes_is = refl;
    files_le = omega arith;
    bytes_le = omega arith;
    nodes_le = omega arith;
    work_le = omega arith;
    agrees = h;
  }

  pub Spends-trans :
      {f b n w f₁ b₁ n₁ w₁ f₂ b₂ n₂ w₂ : ℕ} {r s t : Resolver}
      → Spends f b n w r s
      → Spends f₁ b₁ n₁ w₁ s t
      → f + f₁ ≤ f₂
      → b + b₁ ≤ b₂
      → n + n₁ ≤ n₂
      → w + w₁ ≤ w₂
      → Spends f₂ b₂ n₂ w₂ r t
  Spends-trans h k hf hb hn hw = record {
    root_is = k.root_is ∙ h.root_is;
    chain_is = k.chain_is ∙ h.chain_is;
    max_files_is = k.max_files_is ∙ h.max_files_is;
    max_bytes_is = k.max_bytes_is ∙ h.max_bytes_is;
    max_nodes_is = k.max_nodes_is ∙ h.max_nodes_is;
    files_le = omega (arith, h.files_le, k.files_le, hf);
    bytes_le = omega (arith, h.bytes_le, k.bytes_le, hb);
    nodes_le = omega (arith, h.nodes_le, k.nodes_le, hn);
    work_le = omega (arith, h.work_le, k.work_le, hw);
    agrees = k.agrees;
  }

  -- What is left after a step.
  pub Allows-Spends :
      {f b n w f₁ b₁ n₁ w₁ f₂ b₂ n₂ w₂ : ℕ} {r s : Resolver}
      → Allows f₂ b₂ n₂ w₂ r
      → Spends f b n w r s
      → f + f₁ ≤ f₂
      → b + b₁ ≤ b₂
      → n + n₁ ≤ n₂
      → w + w₁ ≤ w₂
      → Allows f₁ b₁ n₁ w₁ s
  Allows-Spends h k hf hb hn hw = record {
    files_fit = omega (arith, h.files_fit, k.files_le, k.max_files_is, hf);
    bytes_fit = omega (arith, h.bytes_fit, k.bytes_le, k.max_bytes_is, hb);
    nodes_fit = omega (arith, h.nodes_fit, k.nodes_le, k.max_nodes_is, hn);
    work_fits = omega (arith, h.work_fits, k.work_le, hw);
  }

  pub charge_bytes-Yields :
      (origin : Option Origin) (canonical : Bytes) (size : ℕ) (r : Resolver)
      → r.bytes + size ≤ r.max_bytes
      → Agrees r
      → Yields (λ (u, s). Spends 0 size 0 0 r s) (charge_bytes origin canonical size r)
  unfolding charge_bytes
  charge_bytes-Yields origin canonical size r fits h =
      let test : ltb (r.max_bytes - r.bytes) size ≡ false = ground arith in
      rw test (
        yields (record {
          root_is = refl;
          chain_is = refl;
          max_files_is = refl;
          max_bytes_is = refl;
          max_nodes_is = refl;
          files_le = omega arith;
          bytes_le = omega arith;
          nodes_le = omega arith;
          work_le = omega arith;
          agrees = h;
        }))

  pub charge_nodes-Yields :
      (origin : Option Origin) (canonical : Bytes) (count : ℕ) (r : Resolver)
      → r.nodes + count ≤ r.max_nodes
      → Agrees r
      → Yields (λ (u, s). Spends 0 0 count 0 r s) (charge_nodes origin canonical count r)
  unfolding charge_nodes
  charge_nodes-Yields origin canonical count r fits h =
      let test : ltb (r.max_nodes - r.nodes) count ≡ false = ground arith in
      rw test (
        yields (record {
          root_is = refl;
          chain_is = refl;
          max_files_is = refl;
          max_bytes_is = refl;
          max_nodes_is = refl;
          files_le = omega arith;
          bytes_le = omega arith;
          nodes_le = omega arith;
          work_le = omega arith;
          agrees = h;
        }))

  -- A merge that the budget allows.
  pub merge_charged-Yields :
      (origin : Option Origin) (canonical : Bytes) (base overlay : Nodes) (r : Resolver)
      → IsKeyed base
      → IsKeyed overlay
      → merge_work base overlay ≤ r.remaining_work
      → Agrees r
      → Yields
          (λ (ns, s).
            (ns ≡ merge_overlay base overlay) × Spends 0 0 0 (merge_work base overlay) r s)
          (merge_charged origin canonical base overlay r)
  unfolding merge_charged merged_at spend
  merge_charged-Yields origin canonical base overlay r hb ho fits h =
      let loose = IsKeyed-IsLoose overlay ho in
      let enough : ltb r.remaining_work (merge_work base overlay) ≡ false = ground arith in
      rw
        (
          merge_nodes_budget-spend base overlay (some r.remaining_work) hb loose,
          merge_overlay-join_all base overlay hb loose,
          enough,
        )
        (yields (
          refl,
          record {
            root_is = refl;
            chain_is = refl;
            max_files_is = refl;
            max_bytes_is = refl;
            max_nodes_is = refl;
            files_le = omega arith;
            bytes_le = omega arith;
            nodes_le = omega arith;
            work_le = omega arith;
            agrees = h;
          },
        ))
