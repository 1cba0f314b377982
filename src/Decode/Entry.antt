-- ===== src/Decode/Entry.antt =====
-- rust/src/de.rs: the entry points of decoding. A target type is what it makes of a deserializer.
use skg.Base.{ℕ, Bytes, codes, [], Option}
use skg.Error.{Diagnostic}
use skg.Error.Native.{NativeCode, DecodeError}
use skg.Model.{Document}
use skg.Merge.{materialize_nodes}
use skg.Result.{Outcome, Result, ok, err, out_of_fuel}
use skg.Parser.File.{parse_bytes}
use skg.Decode.Value.{
  DecodeOptions, new_decode_options, object_val, convert_error, Decoded, ValueDeserializer,
}

-- A result with its errors converted.
unfoldable pub converted : {A : Type 0} → Decoded A → Outcome DecodeError A
unfolding convert_error
converted (ok a) = ok a
converted (err e) = err (convert_error e)
converted out_of_fuel = out_of_fuel

-- The deserializer of a document's root.
abbrev pub root_deserializer : Document → DecodeOptions → ValueDeserializer
root_deserializer document options = record {
  value = object_val (materialize_nodes document.children);
  options = options;
  source = record { path = document.path; line = 0; col = 0 };
  segments = [];
  depth = 0;
}

module _ {T : Type 0} (deserialize : ValueDeserializer → Decoded T) where
  unfoldable pub from_document_with : Document → DecodeOptions → Outcome DecodeError T
  unfolding converted
  from_document_with document options = converted (deserialize (root_deserializer document options))

  unfoldable pub from_document : Document → Outcome DecodeError T
  unfolding from_document_with
  from_document document = from_document_with document new_decode_options

  abbrev pub parse_failure : Diagnostic → DecodeError
  parse_failure d = record {
    code = NativeCode.parse_error;
    field_path = [];
    source = record { path = d.path; line = d.line; col = d.col };
  }

  unfoldable pub from_parsed : Result Document → DecodeOptions → Outcome DecodeError T
  unfolding from_document_with
  from_parsed (ok document) options = from_document_with document options
  from_parsed (err d) options = err (parse_failure d)
  from_parsed out_of_fuel options = out_of_fuel

  unfoldable pub from_bytes_with :
      (parse_f64 : Bytes → Option ℕ) → Bytes → Bytes → DecodeOptions → Outcome DecodeError T
  unfolding from_parsed parse_bytes
  from_bytes_with parse_f64 source path options =
      from_parsed (parse_bytes parse_f64 source path) options

  unfoldable pub from_bytes : (parse_f64 : Bytes → Option ℕ) → Bytes → Outcome DecodeError T
  unfolding from_bytes_with
  from_bytes parse_f64 source =
      from_bytes_with parse_f64 source (codes "<string>") new_decode_options

  unfoldable pub from_str_with :
      (parse_f64 : Bytes → Option ℕ) → Bytes → Bytes → DecodeOptions → Outcome DecodeError T
  unfolding from_bytes_with
  from_str_with parse_f64 source path options = from_bytes_with parse_f64 source path options

  unfoldable pub from_str : (parse_f64 : Bytes → Option ℕ) → Bytes → Outcome DecodeError T
  unfolding from_bytes_with
  from_str parse_f64 source = from_bytes_with parse_f64 source (codes "<string>") new_decode_options
