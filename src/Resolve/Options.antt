-- ===== src/Resolve/Options.antt =====
-- rust/src/resolve.rs: the limits, the options, the struct Resolver and its diagnostics. A `u64` or
-- `usize` counter is a plain number.
use skg.Base.{ℕ, ◌*◌, Option, none, some, List, Bytes, ◌==◌, nat_eq, if◌then◌else◌}
use skg.Error.{Position, diagnostic, without_position, ResolveError, resolution}
use skg.Error.Codes.{ErrorCode}
use skg.Model.{Document}
use skg.Result.{Outcome, ok, err, bind}
use skg.Resolve.Path.{component_eq}

abbrev pub max_import_depth : ℕ
max_import_depth = 32

abbrev pub default_max_resolve_bytes : ℕ
default_max_resolve_bytes = 64 * 1024 * 1024

abbrev pub default_max_resolve_files : ℕ
default_max_resolve_files = 1024

abbrev pub default_max_resolve_nodes : ℕ
default_max_resolve_nodes = 8000000

abbrev pub default_max_resolve_merge_work : ℕ
default_max_resolve_merge_work = 64000000

-- Where an import was written.
pub record Origin : Type 0 where
  pub path : Bytes
  pub position : Position

pub record Resolved : Type 0 where
  pub document : Document
  pub depth : ℕ

pub record ResolveOptions : Type 0 where
  pub root : Option Bytes
  pub max_bytes : ℕ
  pub max_files : ℕ
  pub max_nodes : ℕ
  pub max_merge_work : ℕ

-- `ResolveOptions::new`
abbrev pub new_options : ResolveOptions
new_options = record {
  root = none;
  max_bytes = default_max_resolve_bytes;
  max_files = default_max_resolve_files;
  max_nodes = default_max_resolve_nodes;
  max_merge_work = default_max_resolve_merge_work;
}

abbrev pub rooted : Bytes → ResolveOptions
rooted root = record new_options { root = some root }

abbrev pub non_zero_or : ℕ → ℕ → ℕ
non_zero_or value default = if value == 0 then default else value

-- The struct `Resolver`, less its loader.
pub record Resolver : Type 0 where
  pub root : Option Bytes
  pub max_bytes : ℕ
  pub max_files : ℕ
  pub max_nodes : ℕ
  pub remaining_work : ℕ
  pub bytes : ℕ
  pub files : ℕ
  pub nodes : ℕ
  pub chain : List Bytes
  pub done : List (Bytes × Resolved)

abbrev pub Resolve {ℓ} : Type ℓ → Type ℓ
Resolve A = Resolver → Outcome ResolveError (A × Resolver)

abbrev pub pure {ℓ} : {A : Type ℓ} → A → Resolve A
pure a r = ok (a, r)

infixl 5 ◌>>=◌
abbrev pub ◌>>=◌ {ℓ κ} : {A : Type ℓ} {B : Type κ} → Resolve A → (A → Resolve B) → Resolve B
◌>>=◌ m f r = bind (m r) λ (a, s). f a s

infixl 5 ◌>>◌
abbrev pub ◌>>◌ {ℓ κ} : {A : Type ℓ} {B : Type κ} → Resolve A → Resolve B → Resolve B
m >> n = m >>= λ _. n

-- `Resolver::diagnostic`
abbrev pub error_at : Option Origin → Bytes → ErrorCode → ResolveError
error_at (some origin) path code = resolution (diagnostic code origin.path origin.position)
error_at none path code = resolution (without_position code path)

abbrev pub fail {ℓ} : {A : Type ℓ} → Option Origin → Bytes → ErrorCode → Resolve A
fail origin path code r = err (error_at origin path code)
