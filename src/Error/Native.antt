-- ===== src/Error/Native.antt =====
-- rust/src/error.rs: the errors of typed decoding, less their messages.
use skg.Base.{ℕ, Bytes, codes, []}

pub data NativeCode : Type 0 where
  parse_error type_mismatch missing_field unknown_field invalid_enum number_out_of_range
        inexact_number unsupported_type nesting_too_deep custom_error :
      NativeCode

-- `NativeCode::as_str`
unfoldable pub native_name : NativeCode → Bytes
native_name parse_error = codes "parse_error"
native_name type_mismatch = codes "type_mismatch"
native_name missing_field = codes "missing_field"
native_name unknown_field = codes "unknown_field"
native_name invalid_enum = codes "invalid_enum"
native_name number_out_of_range = codes "number_out_of_range"
native_name inexact_number = codes "inexact_number"
native_name unsupported_type = codes "unsupported_type"
native_name nesting_too_deep = codes "nesting_too_deep"
native_name custom_error = codes "custom_error"

-- Where a typed conversion failure came from.
pub record SourceLocation : Type 0 where
  pub path : Bytes
  pub line : ℕ
  pub col : ℕ

-- `SourceLocation::default`
abbrev pub no_location : SourceLocation
no_location = record { path = []; line = 0; col = 0 }

pub record DecodeError : Type 0 where
  pub code : NativeCode
  pub field_path : Bytes
  pub source : SourceLocation
