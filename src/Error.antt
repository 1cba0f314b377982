-- ===== src/Error.antt =====
-- rust/src/error.rs: positions, the error codes, diagnostics. The human-readable message of a
-- diagnostic is left out: the source promises nothing about it.
pub mod Codes
pub mod Native
pub mod Display
mod Tests
use skg.Base.{ℕ, Bytes}
use Codes.{ErrorCode}

-- A 1-based source position, in bytes. A `u32` is a plain number: sources are at most 10 MiB.
pub record Position : Type 0 where
  pub line : ℕ
  pub col : ℕ

pub record Diagnostic : Type 0 where
  pub code : ErrorCode
  pub path : Bytes
  pub line : ℕ
  pub col : ℕ

-- `Diagnostic::new`
abbrev pub diagnostic : ErrorCode → Bytes → Position → Diagnostic
diagnostic code path at = record { code = code; path = path; line = at.line; col = at.col }

-- `Diagnostic::without_position`
abbrev pub without_position : ErrorCode → Bytes → Diagnostic
without_position code path = record { code = code; path = path; line = 0; col = 0 }

pub data ResolveError : Type 0 where
  parse resolution : Diagnostic → ResolveError

-- `ResolveError::diagnostic`
abbrev pub diagnostic_of : ResolveError → Diagnostic
diagnostic_of (parse d) = d
diagnostic_of (resolution d) = d

-- `ResolveError::code`
abbrev pub code_of : ResolveError → ErrorCode
code_of e = (diagnostic_of e).code
