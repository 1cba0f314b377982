-- ===== src/Resolve/Meaning.antt =====
-- What an import graph means, with no cache, no chain and no budget: a file's children over those of
-- its imports, in the order of the imports. Two spellings of one path name one file.
use skg.Base.{ℕ, ◌+◌, max, true, Option, some, List, [], ◌∷◌, Bytes, ◌≡◌}
use skg.Model.{Nodes, nil, Document}
use skg.Merge.{merge_overlay}
use skg.Result.{ok}
use skg.Parser.File.{parse_bytes}
use skg.Resolve.Guards.{directory_of}
use skg.Resolve.Path.{join, path_beq}
use skg.Resolve.Files.{Loader}

module _ (parse_f64 : Bytes → Option ℕ) (loader : Loader) where
  mutual
    -- The file at a canonical path, its composed children, and the depth of the imports beneath it.
    pub data Resolves : Bytes → Nodes → ℕ → Type 0 where
      file :
          {canonical source : Bytes} {document : Document} {merged children : Nodes} {depth : ℕ}
          → loader.read canonical ≡ some source
          → parse_bytes parse_f64 source canonical ≡ ok document
          → ImportsTo canonical document.import_paths nil 0 merged depth
          → children ≡ merge_overlay merged document.children
          → Resolves canonical children depth

    -- The imports of the file at `canonical`, composed onto nodes in turn.
    pub data ImportsTo : Bytes → List Bytes → Nodes → ℕ → Nodes → ℕ → Type 0 where
      no_more :
          {canonical : Bytes} {merged : Nodes} {depth : ℕ}
          → ImportsTo canonical [] merged depth merged depth
      import :
          {canonical path target key : Bytes} {paths : List Bytes} {merged children result : Nodes}
          {depth below end : ℕ}
          → loader.canonicalize (join (directory_of canonical) path) ≡ some target
          → path_beq key target ≡ true
          → Resolves key children below
          → ImportsTo canonical paths
              (merge_overlay merged children)
              (max depth (1 + below))
              result
              end
          → ImportsTo canonical (path ∷ paths) merged depth result end
