-- ===== src/Resolve/Circular.antt =====
-- rust/src/resolve.rs: files that import each other in a circle.
use skg.Base.{ℕ, Option, some, List, [], ◌∷◌, Bytes, ◌≡◌, refl, sym, ap, ◌∙◌, subst, ◌⊎◌, inl, inr}
use skg.Error.{ResolveError}
use skg.Model.{Nodes, Document}
use skg.Result.{Outcome, ok, err, Ensures, holds, failed}
use skg.Parser.File.{parse_bytes}
use skg.Resolve.{resolve_with}
use skg.Resolve.Files.{Loader}
use skg.Resolve.Done.{path_beq_iff}
use skg.Resolve.Graph.{resolve_with-Finished}
use skg.Resolve.Guards.{directory_of}
use skg.Resolve.Meaning.{Resolves, ImportsTo}
use skg.Resolve.Meaning.Resolves.{file}
use skg.Resolve.Meaning.ImportsTo.{no_more, import}
use skg.Resolve.Options.{ResolveOptions}
use skg.Resolve.Path.{Component, components, join}

-- The path is one of the paths.
abbrev pub IsAmong : Bytes → List Bytes → Type 0
IsAmong path [] = ⊥
IsAmong path (p ∷ ps) = (p ≡ path) ⊎ IsAmong path ps

-- A run that ends, and not in a value.
Ensures-refuted :
    {E A : Type 0} {P : A → Type 0} {run : Outcome E A}
    → Ensures P run
    → ((a : A) → P a → ⊥)
    → (e : E) × (run ≡ err e)
Ensures-refuted (failed e) none_holds = (e, refl)
Ensures-refuted (holds {a} h) none_holds = absurd (none_holds a h)

module _ (parse_f64 : Bytes → Option ℕ) (loader : Loader) (among : List Component → Type 0) where
  -- Each of the files, as far as it is read and parsed, imports one of them.
  abbrev pub Circles : Type 0
  Circles =
      (canonical source : Bytes) (document : Document)
      → among (components canonical)
      → loader.read canonical ≡ some source
      → parse_bytes parse_f64 source canonical ≡ ok document
      → (path : Bytes) × (target : Bytes) × IsAmong path document.import_paths
        × (loader.canonicalize (join (directory_of canonical) path) ≡ some target)
        × among (components target)

  mutual
    -- No such file has a meaning.
    Resolves-Circles :
        {key : Bytes} {children : Nodes} {depth : ℕ}
        → Circles
        → among (components key)
        → Resolves parse_f64 loader key children depth
        → ⊥
    Resolves-Circles {key} circles here (file {source} {document} is_read is_parsed imports over) =
        let (path, target, is_import, found, there) =
          circles key source document here is_read is_parsed in
        ImportsTo-Circles path target circles is_import found there imports

    ImportsTo-Circles :
        {canonical : Bytes} {paths : List Bytes} {merged result : Nodes} {depth end : ℕ}
        (path target : Bytes)
        → Circles
        → IsAmong path paths
        → loader.canonicalize (join (directory_of canonical) path) ≡ some target
        → among (components target)
        → ImportsTo parse_f64 loader canonical paths merged depth result end
        → ⊥
    ImportsTo-Circles path target circles is_import found there no_more = is_import
    ImportsTo-Circles {canonical} path target circles (inl e) found there
          (import {target = t} {key = key} found₁ same resolves more) =
        let equal : some t ≡ some target =
          sym found₁ ∙ ap (λ p. loader.canonicalize (join (directory_of canonical) p)) e ∙ found in
        let is_target : t ≡ target = cc in
        let key_is : components target ≡ components key =
          sym ((path_beq_iff key t).0 same ∙ ap components is_target) in
        Resolves-Circles circles (subst among key_is there) resolves
    ImportsTo-Circles path target circles (inr later) found there
          (import found₁ same resolves more) =
        ImportsTo-Circles path target circles later found there more

  -- Where each of some files imports one of them, resolution from one of them ends in an error, whatever
  -- the options are.
  pub resolve_with-Circles :
      (entry target : Bytes) (options : ResolveOptions)
      → Circles
      → loader.canonicalize entry ≡ some target
      → among (components target)
      → (e : ResolveError) × (resolve_with parse_f64 loader entry options ≡ err e)
  resolve_with-Circles entry target options circles found here =
      Ensures-refuted (resolve_with-Finished parse_f64 loader entry options) λ d h.
        let equal : some target ≡ some h.target = sym found ∙ h.found in
        let is_target : target ≡ h.target = cc in
        let key_is : components target ≡ components h.key =
          ap components is_target ∙ sym ((path_beq_iff h.key h.target).0 h.same_file) in
        Resolves-Circles circles (subst among key_is here) h.resolves
