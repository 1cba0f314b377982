-- ===== src/Resolve/State.antt =====
-- The invariant of the resolver's state, and what a step of `load` keeps.
use skg.Base.{
  ℕ, suc, ◌+◌, ◌≤◌, true, false, Option, none, some, List, [], ◌∷◌, Bytes, ◌≡◌, refl, ◌∙◌, arith,
  subst, length, Bool-cases, inl, inr,
}
use skg.Merge.Keyed.{IsKeyed}
use skg.Resolve.Path.{path_beq}
use skg.Resolve.Files.{Loader, get_path}
use skg.Resolve.Meaning.{Resolves}
use skg.Resolve.Guards.{is_outside, is_on_chain}
use skg.Resolve.Options.{max_import_depth, Resolved, Resolver}

-- A step leaves the root and the limits, and adds no work to what is left of it.
pub record Same (r s : Resolver) : Type 0 where
  pub root_is : s.root ≡ r.root
  pub bytes_is : s.max_bytes ≡ r.max_bytes
  pub files_is : s.max_files ≡ r.max_files
  pub nodes_is : s.max_nodes ≡ r.max_nodes
  pub work_is : s.remaining_work ≤ r.remaining_work

pub Same-refl : (r : Resolver) → Same r r
Same-refl r = record {
  root_is = refl;
  bytes_is = refl;
  files_is = refl;
  nodes_is = refl;
  work_is = omega arith;
}

pub Same-trans : {r s t : Resolver} → Same r s → Same s t → Same r t
Same-trans h k = record {
  root_is = k.root_is ∙ h.root_is;
  bytes_is = k.bytes_is ∙ h.bytes_is;
  files_is = k.files_is ∙ h.files_is;
  nodes_is = k.nodes_is ∙ h.nodes_is;
  work_is = omega (arith, h.work_is, k.work_is);
}

module _ (parse_f64 : Bytes → Option ℕ) (loader : Loader) where
  -- A finished file: it is inside the root, and stands for what its path means.
  pub record Known (root : Option Bytes) (key : Bytes) (v : Resolved) : Type 0 where
    pub inside : is_outside root key ≡ false
    pub keyed : IsKeyed v.document.children
    pub resolves : Resolves parse_f64 loader key v.document.children v.depth

  abbrev pub AllKnown : Option Bytes → List (Bytes × Resolved) → Type 0
  AllKnown root [] = Unit {0}
  AllKnown root ((key, v) ∷ more) = Known root key v × AllKnown root more

  pub record Sane (r : Resolver) : Type 0 where
    pub bytes_fit : r.bytes ≤ r.max_bytes
    pub nodes_fit : r.nodes ≤ r.max_nodes
    pub files_fit : r.files ≤ r.max_files
    -- Each file that was counted is finished or on the chain.
    pub counted : r.files ≡ length r.chain + length r.done
    pub short : length r.chain ≤ suc max_import_depth
    pub known : AllKnown r.root r.done
    -- No file on the chain is finished.
    pub open_files : (k : Bytes) → is_on_chain k r.chain ≡ true → get_path k r.done ≡ none

  pub get_path-Known :
      (root : Option Bytes) (p : Bytes) (l : List (Bytes × Resolved)) (v : Resolved)
      → AllKnown root l
      → get_path p l ≡ some v
      → (key : Bytes) × (path_beq key p ≡ true) × Known root key v
  unfolding get_path
  get_path-Known root p [] v h e = cc
  get_path-Known root p ((k, w) ∷ more) v (hw, hs) e = elim (Bool-cases (path_beq k p)) [
    | inl same ↦
        let first : some w ≡ some v = rw same at e in
        let equal : w ≡ v = cc in (k, same, subst (Known root k) equal hw)
    | inr other ↦ get_path-Known root p more v hs (rw other at e)
  ]

  -- A step keeps the invariant and the chain.
  pub record Step (r s : Resolver) : Type 0 where
    pub sane : Sane s
    pub same : Same r s
    pub chain_is : s.chain ≡ r.chain

  pub Step-trans : {r s t : Resolver} → Step r s → Step s t → Step r t
  Step-trans h k = record {
    sane = k.sane;
    same = Same-trans h.same k.same;
    chain_is = k.chain_is ∙ h.chain_is;
  }

  -- A file that is entered is new: it was neither on the chain nor finished.
  pub record Entered (canonical : Bytes) (r s : Resolver) : Type 0 where
    pub sane : Sane s
    pub same : Same r s
    pub chain_is : s.chain ≡ canonical ∷ r.chain
    pub new : is_on_chain canonical r.chain ≡ false
    pub room : length r.chain ≤ max_import_depth
