-- ===== src/Resolve/Layered.antt =====
-- rust/src/resolve.rs: the graphs of files that are found, parsed and layered, with what resolving them
-- costs.
use skg.Base.{ℕ, ◌+◌, ◌≤◌, false, Option, some, List, [], ◌∷◌, Bytes, ◌≡◌, length}
use skg.Model.{Nodes, nil, Document}
use skg.Merge.{merge_overlay}
use skg.Merge.Keyed.{IsKeyed, IsKeyed-IsLoose}
use skg.Merge.Work.{merge_work}
use skg.Merge.Compose.{merge_overlay-IsKeyed}
use skg.Result.{ok, Ensures-ok}
use skg.Parser.Whole.{parse_bytes-DocumentSound}
use skg.Parser.File.{parse_bytes}
use skg.Resolve.Path.{Component, join}
use skg.Resolve.Files.{Loader}
use skg.Resolve.Guards.{is_outside, count_nodes, directory_of}
use skg.Resolve.Spending.{level, content_of}

module _ (parse_f64 : Bytes → Option ℕ) (loader : Loader) (root : Option Bytes)
    (rank : List Component → ℕ) (content : List Component → Nodes) where
  mutual
    -- A file that is within the root, read and parsed, and so are its imports, each of a lower level;
    -- its content is its children over theirs. With the files, bytes and nodes of all of them and the
    -- work of composing them, counted as often as they are imported.
    pub data Layered : Bytes → ℕ → ℕ → ℕ → ℕ → Type 0 where
      file :
          {canonical source : Bytes} {document : Document} {merged : Nodes} {f b n w : ℕ}
          → is_outside root canonical ≡ false
          → loader.read canonical ≡ some source
          → parse_bytes parse_f64 source canonical ≡ ok document
          → AllLayered canonical document.import_paths nil merged f b n w
          → content_of content canonical ≡ merge_overlay merged document.children
          → Layered canonical
              (1 + f)
              (length source + b)
              (count_nodes document.children + n)
              (merge_work merged document.children + w)

    -- The imports of the file at `canonical`, composed onto nodes in turn.
    pub data AllLayered : Bytes → List Bytes → Nodes → Nodes → ℕ → ℕ → ℕ → ℕ → Type 0 where
      no_more : {canonical : Bytes} {merged : Nodes} → AllLayered canonical [] merged merged 0 0 0 0
      import :
          {canonical path target : Bytes} {paths : List Bytes} {merged result : Nodes}
          {f b n w f₁ b₁ n₁ w₁ : ℕ}
          → loader.canonicalize (join (directory_of canonical) path) ≡ some target
          → 1 + level rank target ≤ level rank canonical
          → Layered target f b n w
          → AllLayered canonical paths
              (merge_overlay merged (content_of content target))
              result
              f₁
              b₁
              n₁
              w₁
          → AllLayered canonical
              (path ∷ paths)
              merged
              result
              (f + f₁)
              (b + b₁)
              (n + n₁)
              (merge_work merged (content_of content target) + w + w₁)

  -- What is composed of layered files is well-formed.
  mutual
    pub Layered-IsKeyed :
        {canonical : Bytes} {f b n w : ℕ}
        → Layered canonical f b n w
        → IsKeyed (content_of content canonical)
    Layered-IsKeyed {canonical}
          (file {source} {document} {merged} inside is_read is_parsed layers e) =
        let d = Ensures-ok (parse_bytes-DocumentSound parse_f64 source canonical) is_parsed in
        rw e (
          merge_overlay-IsKeyed merged document.children (AllLayered-IsKeyed layers tt)
            (IsKeyed-IsLoose _ d.keyed))

    pub AllLayered-IsKeyed :
        {canonical : Bytes} {paths : List Bytes} {merged result : Nodes} {f b n w : ℕ}
        → AllLayered canonical paths merged result f b n w
        → IsKeyed merged
        → IsKeyed result
    AllLayered-IsKeyed no_more h = h
    AllLayered-IsKeyed (import {target = target} {merged = merged} found lower layer layers) h =
        AllLayered-IsKeyed layers (
          merge_overlay-IsKeyed merged (content_of content target) h
            (IsKeyed-IsLoose _ (Layered-IsKeyed layer)))
