-- ===== src/Resolve/Tests.antt =====
-- Runs of the resolver over files in memory.
use skg.Base.{
  sym, ap, subst, ◌∙◌, inl, Bool, ℕ, ◌++◌, arith, ◌↔◌, if◌then◌else◌, List, [], ◌∷◌, Bytes, codes,
  ◌≡◌, refl, Option, none, some, bytes_beq, bytes_eq, true,
}
use skg.Error.{ResolveError, resolution, diagnostic}
use skg.Error.Codes.{circular_import, path_outside_root}
use skg.Model.{new_document, Nodes, field, nil, cons, int, pos, Document}
use skg.Merge.{materialize_nodes, concat_comments}
use skg.Result.{Outcome, Result, ok, err, Ensures}
use skg.Parser.File.{parse_bytes}
use skg.Merge.{merge_overlay}
use skg.Merge.Work.{merge_work, work_all}
use skg.Resolve.Guards.{count_nodes, directory_of}
use skg.Resolve.Path.{components_beq}
use skg.Resolve.Layered.{Layered}
use skg.Resolve.Layered.Layered.{file}
use skg.Resolve.Layered.AllLayered.{no_more, import}
use skg.Resolve.Complete.{resolve_with-Layered}
use skg.Parser.Tests.{sample_f64, run_parser}
use skg.Resolve.{resolve_with, start, load}
use skg.Resolve.Guards.{path_within_root, is_outside}
use skg.Resolve.Options.{new_options, rooted}
use skg.Resolve.Path.{components, Component, path_beq, parent}
use skg.Resolve.Files.{
  Loader, MemoryLoader, memory_loader, canonicalize, read, normalize_path, is_prefix,
}
use skg.Resolve.Done.{path_within_root_iff}
use skg.Resolve.Loads.{Loaded, load-Loaded}
use skg.Resolve.Graph.{Finished, start-Sane, resolve_with-Finished}
use skg.Resolve.Contained.{resolve_with-contained}
use skg.Resolve.Circular.{Circles, IsAmong, resolve_with-Circles}

normal_paths :
    (normalize_path (codes "/w") (codes "a/./b/../c.skg") ≡ codes "/w/a/c.skg")
    × (normalize_path (codes "/w") (codes "/../x//y/") ≡ codes "/x/y")
    × (parent (codes "/a//b/c") ≡ some (codes "/a//b"))
    × (parent (codes "/") ≡ none)
    × (path_beq (codes "/a/./b") (codes "/a//b/") ≡ true)
unfolding normalize_path parent path_beq bytes_beq
normal_paths = (refl, refl, refl, refl, refl)

abbrev files : MemoryLoader
files = record {
  base = codes "/w";
  files =
      (codes "/w/main", codes "import [\"a\", \"d/b\"]\nx: 1")
      ∷ (codes "/w/a", codes "x: 2 y: 3")
      ∷ (codes "/w/d/b", codes "import \"../a\"\nz: 4")
      ∷ (codes "/w/loop", codes "import \"./loop\"")
      ∷ (codes "/w/d/out", codes "import \"../a\"")
      ∷ [];
}

abbrev node : Bytes → Bytes → ℕ → ℕ → ℕ → Nodes → Nodes
node path key line col n = cons (
    field (record { path = path; key = key; line = line; col = col; leading_comments = [] })
      (int (pos n)) none)

children_of : Outcome ResolveError Document → Option Nodes
children_of (ok d) = some d.children
children_of _ = none

diamond :
    children_of (resolve_with sample_f64 (memory_loader files) (codes "main") new_options)
    ≡ some (
        node
          (codes "/w/main")
          (codes "x")
          2
          1
          1
          (node (codes "/w/a") (codes "y") 1 6 3 (node (codes "/w/d/b") (codes "z") 2 1 4 nil)))
unfolding children_of resolve_with run_parser bytes_beq materialize_nodes canonicalize read
    normalize_path concat_comments path_beq is_prefix
diamond = refl

circular :
    resolve_with sample_f64 (memory_loader files) (codes "loop") new_options
    ≡ err (resolution (diagnostic circular_import (codes "/w/loop") (record { line = 1; col = 8 })))
unfolding children_of resolve_with run_parser bytes_beq materialize_nodes canonicalize read
    normalize_path concat_comments path_beq is_prefix
circular = refl

outside :
    resolve_with sample_f64 (memory_loader files) (codes "d/out") (rooted (codes "/w/d"))
    ≡ err (
        resolution (diagnostic path_outside_root (codes "/w/d/out") (record { line = 1; col = 8 })))
unfolding children_of resolve_with run_parser bytes_beq materialize_nodes canonicalize read
    normalize_path concat_comments path_beq is_prefix
outside = refl

-- The same files within /w/d, and none elsewhere.
abbrev fenced : Loader
fenced = record {
  canonicalize = canonicalize files;
  read = λ path. if path_within_root (codes "/w/d") path then read files path else none;
}

fenced-same :
    (path : Bytes)
    → path_within_root (codes "/w/d") path ≡ true
    → read files path ≡ fenced.read path
fenced-same path h = rw h refl

resolve_with-Finished_example :
    Ensures
      (Finished sample_f64 (memory_loader files) (codes "main") none)
      (resolve_with sample_f64 (memory_loader files) (codes "main") new_options)
resolve_with-Finished_example =
    resolve_with-Finished sample_f64 (memory_loader files) (codes "main") new_options

resolve_with-contained_example :
    resolve_with sample_f64 (memory_loader files) (codes "d/out") (rooted (codes "/w/d"))
    ≡ resolve_with sample_f64 fenced (codes "d/out") (rooted (codes "/w/d"))
unfolding canonicalize bytes_beq normalize_path path_beq is_prefix
resolve_with-contained_example =
    resolve_with-contained sample_f64 (memory_loader files) fenced (codes "d/out") (codes "/w/d")
      (codes "/w/d") (rooted (codes "/w/d")) refl refl (λ path. refl) fenced-same

load-Loaded_example :
    Ensures
      (λ (v, s).
        Loaded sample_f64 (memory_loader files) (codes "main") (start new_options none) v s)
      (load sample_f64 (memory_loader files) 34 (codes "main") none (start new_options none))
load-Loaded_example =
    load-Loaded sample_f64 (memory_loader files) 34 (codes "main") none (start new_options none)
      (start-Sane sample_f64 (memory_loader files) new_options none) (omega arith)

-- A file under every path, which imports itself.
abbrev mirrored : Bytes
mirrored = codes "import \"./loop\"\nx: 1"

abbrev mirror : Loader
mirror = record { canonicalize = λ path. some (codes "/w/loop"); read = λ path. some mirrored }

imports_of : Result Document → List Bytes
imports_of (ok d) = d.import_paths
imports_of _ = []

mirrored-imports :
    (path : Bytes) → imports_of (parse_bytes sample_f64 mirrored path) ≡ codes "./loop" ∷ []
unfolding imports_of run_parser bytes_beq
mirrored-imports path = refl

mirror-Circles : Circles sample_f64 mirror (λ cs. Unit {0})
unfolding imports_of
mirror-Circles canonical source document here is_read is_parsed =
    let equal : some mirrored ≡ some source = is_read in
    let is_source : mirrored ≡ source = cc in
    let imports : document.import_paths ≡ codes "./loop" ∷ [] =
      sym (ap imports_of is_parsed)
      ∙ sym (ap (λ t. imports_of (parse_bytes sample_f64 t canonical)) is_source)
      ∙ mirrored-imports canonical in
    (
      codes "./loop",
      codes "/w/loop",
      subst (IsAmong (codes "./loop")) (sym imports) (inl refl),
      refl,
      tt,
    )

resolve_with-Circles_example :
    (e : ResolveError) × (resolve_with sample_f64 mirror (codes "loop") new_options ≡ err e)
resolve_with-Circles_example =
    resolve_with-Circles sample_f64 mirror (λ cs. Unit {0}) (codes "loop") (codes "/w/loop")
      new_options mirror-Circles refl tt

path_within_root_iff_example :
    (path_within_root (codes "/w") (codes "/w/d") ≡ true)
    ↔ ((rest : List Component) × (components (codes "/w/d") ≡ components (codes "/w") ++ rest))
path_within_root_iff_example = path_within_root_iff (codes "/w") (codes "/w/d")

document_or : Document → Result Document → Document
document_or d (ok e) = e
document_or d _ = d

-- What /w/a and /w/d/b say.
abbrev leaf : Document
leaf = document_or (new_document []) (parse_bytes sample_f64 (codes "x: 2 y: 3") (codes "/w/a"))

abbrev importer : Document
importer =
    document_or (new_document [])
      (parse_bytes sample_f64 (codes "import \"../a\"\nz: 4") (codes "/w/d/b"))

abbrev leaf_content : Nodes
leaf_content = merge_overlay nil leaf.children

abbrev is_leaf : List Component → Bool
is_leaf cs = components_beq cs (components (codes "/w/a"))

abbrev rank_of_files : List Component → ℕ
rank_of_files cs = if is_leaf cs then 0 else 1

abbrev content_of_files : List Component → Nodes
content_of_files cs =
    if is_leaf cs
    then leaf_content
    else merge_overlay (merge_overlay nil leaf_content) importer.children

leaf-Layered :
    Layered sample_f64
      (memory_loader files)
      none
      rank_of_files
      content_of_files
      (codes "/w/a")
      1
      9
      4
      2
unfolding run_parser bytes_beq canonicalize read normalize_path path_beq is_prefix is_outside
    document_or count_nodes merge_work work_all merge_overlay
leaf-Layered =
    file {source = codes "x: 2 y: 3"} {document = leaf} {merged = nil} refl refl refl no_more refl

importer-Layered :
    Layered sample_f64
      (memory_loader files)
      none
      rank_of_files
      content_of_files
      (codes "/w/d/b")
      2
      27
      6
      7
unfolding run_parser bytes_beq canonicalize read normalize_path path_beq is_prefix is_outside
    document_or count_nodes merge_work work_all merge_overlay directory_of
importer-Layered =
    file {source = codes "import \"../a\"\nz: 4"} {document = importer} refl refl refl
      (import {target = codes "/w/a"} refl (omega arith) leaf-Layered no_more) refl

resolve_with-Layered_example :
    (d : Document) × (resolve_with sample_f64 (memory_loader files) (codes "d/b") new_options
      ≡ ok d)
    × (d.children ≡ materialize_nodes (content_of_files (components (codes "/w/d/b"))))
unfolding canonicalize bytes_beq normalize_path path_beq is_prefix
resolve_with-Layered_example =
    resolve_with-Layered sample_f64 (memory_loader files) none rank_of_files content_of_files
      (codes "d/b") (codes "/w/d/b") new_options 2 27 6 7 refl refl importer-Layered (omega arith)
      (record {
        files_fit = omega arith;
        bytes_fit = omega arith;
        nodes_fit = omega arith;
        work_fits = omega arith;
      })
