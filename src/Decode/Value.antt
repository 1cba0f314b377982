-- ===== src/Decode/Value.antt =====
-- rust/src/de.rs: the values that are decoded, the decoder's errors, and the state of a decoder.
use skg.Base.{
  ℕ, ◌+◌, Bool, false, Option, none, some, List, [], ◌∷◌, ◌++◌, Bytes, leb, if◌then◌else◌,
}
use skg.Error.Native.{NativeCode, SourceLocation, no_location, DecodeError}
use skg.Model.{
  ℤ, Head, Value, Values, Node, Nodes, int, float, bool, string, null, array, object, field, block,
  block_array, delete, empty,
}
use skg.Result.{Outcome, ok, err, out_of_fuel}
use skg.Decode.Pointer.{Segment, render_path, escape_key}

abbrev pub max_native_nesting_depth : ℕ
max_native_nesting_depth = 256

pub record DecodeOptions : Type 0 where
  pub reject_unknown_fields : Bool
  pub allow_lossy_numbers : Bool

-- `DecodeOptions::new`
abbrev pub new_decode_options : DecodeOptions
new_decode_options = record { reject_unknown_fields = false; allow_lossy_numbers = false }

-- The source's enum has the constructors' names in capitals, each with what it holds of the value.
pub data Val : Type 0 where
  int_val : ℤ → Val
  float_val : ℕ → Val
  bool_val : Bool → Val
  str_val : Bytes → Val
  null_val : Val
  array_val : Values → Val
  object_val : Nodes → Val

unfoldable pub view_value : Value → Val
view_value (int n) = int_val n
view_value (float f) = float_val f
view_value (bool b) = bool_val b
view_value (string s) = str_val s
view_value null = null_val
view_value (array element items t) = array_val items
view_value (object children t) = object_val children

unfoldable pub view_node : Node → Option Val
unfolding view_value
view_node (field h v t) = some (view_value v)
view_node (block h replace children t) = some (object_val children)
view_node (block_array h items t) = some (array_val items)
view_node (delete h t) = none
view_node empty = none

abbrev at_head : Head → SourceLocation
at_head h = record { path = h.path; line = h.line; col = h.col }

unfoldable pub node_location : Node → SourceLocation
node_location (field h v t) = at_head h
node_location (block h replace children t) = at_head h
node_location (block_array h items t) = at_head h
node_location (delete h t) = at_head h
node_location empty = no_location

pub data ErrorKind : Type 0 where
  type_mismatch : ErrorKind
  missing_field : Bytes → ErrorKind
  unknown_field invalid_enum number_out_of_range inexact_number unsupported_type nesting_too_deep
        custom :
      ErrorKind

-- The struct `Error`, less its message.
pub record Error : Type 0 where
  pub kind : ErrorKind
  pub path : Option Bytes
  pub source : Option SourceLocation

-- `Error::new`
abbrev pub new_error : ErrorKind → Error
new_error kind = record { kind = kind; path = none; source = none }

-- `Error::code`
unfoldable pub native_code : ErrorKind → NativeCode
native_code type_mismatch = NativeCode.type_mismatch
native_code (missing_field name) = NativeCode.missing_field
native_code unknown_field = NativeCode.unknown_field
native_code invalid_enum = NativeCode.invalid_enum
native_code number_out_of_range = NativeCode.number_out_of_range
native_code inexact_number = NativeCode.inexact_number
native_code unsupported_type = NativeCode.unsupported_type
native_code nesting_too_deep = NativeCode.nesting_too_deep
native_code custom = NativeCode.custom_error

-- The constructors of `serde::de::Error`.
abbrev pub error_custom : Error
error_custom = new_error custom

abbrev pub error_missing_field : Bytes → Error
error_missing_field name = new_error (missing_field name)

abbrev pub error_unknown_field : Error
error_unknown_field = new_error unknown_field

abbrev pub error_unknown_variant : Error
error_unknown_variant = new_error invalid_enum

-- `or_insert`: a value that is there is kept.
abbrev pub or_else : {A : Type 0} → Option A → A → Option A
or_else none a = some a
or_else (some b) a = some b

abbrev pub or_default : {A : Type 0} → Option A → A → A
or_default none a = a
or_default (some b) a = b

-- `Error::at`
unfoldable pub located : Bytes → SourceLocation → Error → Error
located path source e = record e { path = or_else e.path path; source = or_else e.source source }

unfoldable pub convert_error : Error → DecodeError
unfolding native_code
convert_error e = record {
  code = native_code e.kind;
  field_path = or_default e.path [];
  source = or_default e.source no_location;
}

-- What completes the pointer of a struct's error that has none.
unfoldable pub missing_suffix : ErrorKind → Bytes
unfolding escape_key
missing_suffix (missing_field name) = b'/' ∷ escape_key name
missing_suffix _ = []

unfoldable pub fill_struct_error : Bytes → SourceLocation → Error → Error
unfolding located escape_key
fill_struct_error path source e = located (path ++ missing_suffix e.kind) source e

abbrev pub Decoded {ℓ} : Type ℓ → Type ℓ
Decoded A = Outcome Error A

-- `Result::map_err`
abbrev pub map_err {ℓ} : {A : Type ℓ} → (Error → Error) → Decoded A → Decoded A
map_err f (ok a) = ok a
map_err f (err e) = err (f e)
map_err f out_of_fuel = out_of_fuel

pub record ValueDeserializer : Type 0 where
  pub value : Val
  pub options : DecodeOptions
  pub source : SourceLocation
  pub segments : List Segment
  pub depth : ℕ

-- `take`: what is left of the deserializer.
abbrev pub taken : ValueDeserializer → ValueDeserializer
taken d = record d { value = null_val }

unfoldable pub path_at : ValueDeserializer → Bytes
unfolding render_path
path_at d = render_path d.segments

-- `type_error`, `range_error`, `inexact_error`, and `number_mismatch`, which is the first but for its
-- message.
unfoldable pub error_here : ErrorKind → ValueDeserializer → Error
unfolding located path_at
error_here kind d = located (path_at d) d.source (new_error kind)

unfoldable pub child :
    ValueDeserializer → Val → Segment → SourceLocation → Decoded ValueDeserializer
unfolding located render_path
child d value segment source =
    if leb max_native_nesting_depth d.depth
    then err (error_here nesting_too_deep d)
    else ok (record {
      value = value;
      options = d.options;
      source = source;
      segments = d.segments ++ segment ∷ [];
      depth = d.depth + 1;
    })
