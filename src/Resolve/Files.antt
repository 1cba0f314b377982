-- ===== src/Resolve/Files.antt =====
-- rust/src/resolve.rs: the loader, and the one in memory. What fails with an `io::Error` is `none`,
-- since the resolver drops the error.
use skg.Base.{
  ◌+◌, Bool, true, false, Option, none, some, List, [], ◌∷◌, Bytes, ◌==◌, nat_eq, bytes_eq,
  if◌then◌else◌, any, take, codes,
}
use mathlib.Core.Option
use skg.Parser.Text.{max_file_size}
use skg.Resolve.Path.{
  Component, cur_dir, parent_dir, component_eq, components, path_beq, is_absolute, join, pop,
  as_os_str,
}

-- The trait `Loader`.
pub record Loader : Type 0 where
  pub canonicalize : Bytes → Option Bytes
  pub read : Bytes → Option Bytes

-- `FsLoader`: `real_path` stands for `std::fs::canonicalize`, and `contents` for the bytes that a
-- file gives to the one who reads it to the end.
abbrev pub fs_loader : (Bytes → Option Bytes) → (Bytes → Option Bytes) → Loader
fs_loader real_path contents = record {
  canonicalize = real_path;
  read = λ path. Option.map (take (max_file_size + 1)) (contents path);
}

pub record MemoryLoader : Type 0 where
  pub base : Bytes
  pub files : List (Bytes × Bytes)

-- The loop of `normalize_path`.
unfoldable pub normalize_onto : Bytes → List Component → Bytes
unfolding pop join
normalize_onto out [] = out
normalize_onto out (cur_dir ∷ cs) = normalize_onto out cs
normalize_onto out (parent_dir ∷ cs) = normalize_onto (pop out) cs
normalize_onto out (other ∷ cs) = normalize_onto (join out (as_os_str other)) cs

abbrev root_if_empty : Bytes → Bytes
root_if_empty [] = codes "/"
root_if_empty (c ∷ cs) = c ∷ cs

unfoldable pub normalize_path : Bytes → Bytes → Bytes
unfolding normalize_onto components
normalize_path base path =
    root_if_empty
      (normalize_onto [] (components (if is_absolute path then path else join base path)))

-- `HashMap::get`, on paths.
unfoldable pub get_path {ℓ} : {A : Type ℓ} → Bytes → List (Bytes × A) → Option A
get_path path [] = none
get_path path ((k, a) ∷ more) = if path_beq k path then some a else get_path path more

-- `HashMap::insert`: the key that is there stays, its value does not.
unfoldable pub insert_path {ℓ} : {A : Type ℓ} → Bytes → A → List (Bytes × A) → List (Bytes × A)
insert_path path a [] = (path, a) ∷ []
insert_path path a ((k, b) ∷ more) =
    let rest = insert_path path a more in if path_beq k path then (k, a) ∷ more else (k, b) ∷ rest

-- `MemoryLoader::insert`
unfoldable pub insert : Bytes → Bytes → MemoryLoader → MemoryLoader
unfolding normalize_path insert_path
insert path contents m = record m {
  files = insert_path (normalize_path m.base path) contents m.files;
}

-- Whether the second list of components begins with the first.
unfoldable pub is_prefix : List Component → List Component → Bool
is_prefix [] ts = true
is_prefix (r ∷ rs) [] = false
is_prefix (r ∷ rs) (t ∷ ts) = if r == t then is_prefix rs ts else false

-- `Path::starts_with`
abbrev starts_with : Bytes → Bytes → Bool
starts_with path prefix = is_prefix (components prefix) (components path)

abbrev is_some {ℓ} : {A : Type ℓ} → Option A → Bool
is_some none = false
is_some (some a) = true

unfoldable pub canonicalize : MemoryLoader → Bytes → Option Bytes
unfolding normalize_path get_path is_prefix
canonicalize m path =
    let canonical = normalize_path m.base path in
    if is_some (get_path canonical m.files)
    then some canonical
    else if any (λ (file : Bytes × Bytes). starts_with file.0 canonical) m.files
    then some canonical
    else none

unfoldable pub read : MemoryLoader → Bytes → Option Bytes
unfolding normalize_path get_path
read m path = get_path (normalize_path m.base path) m.files

abbrev pub memory_loader : MemoryLoader → Loader
memory_loader m = record { canonicalize = canonicalize m; read = read m }
