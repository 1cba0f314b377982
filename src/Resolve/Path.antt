-- ===== src/Resolve/Path.antt =====
-- `std::path` on Unix, as rust/src/resolve.rs uses it: a path is its bytes, and two paths are equal
-- where their components are.
use skg.Base.{
  Bool, true, false, ◌&&◌, ◌||◌, Option, none, some, List, [], ◌∷◌, ◌++◌, Bytes, ◌≡◌, ◌↔◌, ◌==◌,
  nat_eq, Eq, bytes_eq, bytes_beq_iff, if◌then◌else◌, arith, codes,
}

-- `Component`; a path of Unix has no prefix.
pub data Component : Type 0 where
  root_dir cur_dir parent_dir : Component
  normal : Bytes → Component

abbrev pub component_beq : Component → Component → Bool
component_beq root_dir root_dir = true
component_beq cur_dir cur_dir = true
component_beq parent_dir parent_dir = true
component_beq (normal a) (normal b) = a == b
component_beq _ _ = false

pub component_beq_iff : (a b : Component) → (component_beq a b ≡ true) ↔ (a ≡ b)
component_beq_iff root_dir b = ground arith
component_beq_iff cur_dir b = ground arith
component_beq_iff parent_dir b = ground arith
component_beq_iff (normal a) root_dir = ground arith
component_beq_iff (normal a) cur_dir = ground arith
component_beq_iff (normal a) parent_dir = ground arith
component_beq_iff (normal a) (normal b) = ground (arith, bytes_beq_iff a b)

instance abbrev pub component_eq : Eq Component
component_eq = record { same = component_beq; same_iff = component_beq_iff }

-- The pieces between the slashes.
unfoldable pub segments : Bytes → List Bytes
segments [] = [] ∷ []
segments (c ∷ cs) = elim (segments cs) [
  | [] ↦ [] ∷ []
  | s ∷ more ↦ if c == b'/' then [] ∷ s ∷ more else (c ∷ s) ∷ more
]

unfoldable pub is_absolute : Bytes → Bool
is_absolute [] = false
is_absolute (c ∷ cs) = c == b'/'

-- Empty pieces and inner dots are no components.
abbrev is_skipped : Bytes → Bool
is_skipped s = s == [] || s == codes "."

abbrev component_of : Bytes → Component
component_of s = if s == codes ".." then parent_dir else normal s

unfoldable pub body_components : List Bytes → List Component
body_components [] = []
body_components (s ∷ ss) =
    let rest = body_components ss in if is_skipped s then rest else component_of s ∷ rest

-- `Path::components`: a dot counts where it starts a relative path.
unfoldable pub components_of : Bool → List Bytes → List Component
unfolding body_components
components_of true ss = root_dir ∷ body_components ss
components_of false [] = []
components_of false (s ∷ ss) =
    if s == codes "." then cur_dir ∷ body_components ss else body_components (s ∷ ss)

unfoldable pub components : Bytes → List Component
unfolding components_of segments is_absolute
components path = components_of (is_absolute path) (segments path)

unfoldable pub components_beq : List Component → List Component → Bool
components_beq [] [] = true
components_beq (a ∷ cs) (b ∷ ds) = a == b && components_beq cs ds
components_beq _ _ = false

-- `PathBuf::eq`, which hashing agrees with.
unfoldable pub path_beq : Bytes → Bytes → Bool
unfolding components components_beq
path_beq a b = components_beq (components a) (components b)

-- The pieces joined by slashes.
unfoldable pub unsegment : List Bytes → Bytes
unsegment [] = []
unsegment (s ∷ []) = s
unsegment (s ∷ t ∷ ss) = s ++ b'/' ∷ unsegment (t ∷ ss)

-- The pieces in reverse order, less the last ones that are no components; the first piece of a path
-- is never passed.
unfoldable pub drop_skipped : List Bytes → List Bytes
drop_skipped [] = []
drop_skipped (s ∷ []) = s ∷ []
drop_skipped (s ∷ t ∷ ss) =
    let rest = drop_skipped (t ∷ ss) in if is_skipped s then rest else s ∷ t ∷ ss

abbrev reverse_onto : List Bytes → List Bytes → List Bytes
reverse_onto [] ys = ys
reverse_onto (x ∷ xs) ys = reverse_onto xs (x ∷ ys)

-- The path of the pieces that are left, which are in reverse order; an absolute path keeps its root.
abbrev path_of : Bool → List Bytes → Bytes
path_of absolute (s ∷ []) = if absolute then codes "/" else s
path_of absolute ss = unsegment (reverse_onto ss [])

-- `Path::parent` on the pieces in reverse order, the last of them a component or the first piece.
unfoldable pub parent_at : Bool → List Bytes → Option Bytes
unfolding drop_skipped unsegment
parent_at absolute [] = none
parent_at true (s ∷ []) = none
parent_at false ([] ∷ []) = none
parent_at false ((c ∷ s) ∷ []) = some []
parent_at absolute (s ∷ t ∷ ss) = some (path_of absolute (drop_skipped (t ∷ ss)))

unfoldable pub parent : Bytes → Option Bytes
unfolding parent_at segments is_absolute drop_skipped
parent path = parent_at (is_absolute path) (drop_skipped (reverse_onto (segments path) []))

unfoldable pub ends_with_slash : Bytes → Bool
ends_with_slash [] = false
ends_with_slash (c ∷ []) = c == b'/'
ends_with_slash (c ∷ d ∷ cs) = ends_with_slash (d ∷ cs)

-- `PathBuf::push`, and `Path::join`: an absolute path replaces.
unfoldable pub join : Bytes → Bytes → Bytes
unfolding is_absolute ends_with_slash
join base path =
    if is_absolute path
    then path
    else if base == [] || ends_with_slash base
    then base ++ path
    else base ++ b'/' ∷ path

-- `PathBuf::pop`
unfoldable pub pop : Bytes → Bytes
unfolding parent
pop path = elim (parent path) [ none ↦ path | some up ↦ up ]

-- The spelling of a component.
abbrev pub as_os_str : Component → Bytes
as_os_str root_dir = codes "/"
as_os_str cur_dir = codes "."
as_os_str parent_dir = codes ".."
as_os_str (normal s) = s
