-- ===== src/Decode/Tests.antt =====
-- Runs of the decoder.
use skg.Base.{
  if◌then◌else◌, leb, ℕ, ◌++◌, map, ◌↔◌, ◌⊎◌, ◌≢◌, arith, true, false, [], ◌∷◌, Bytes, codes, ◌≡◌,
  refl, none, some, bytes_beq, bytes_eq,
}
use skg.Model.{pos, negsuc, nil, cons, field, block, Head, int, Document}
use skg.Merge.{materialize_nodes}
use skg.Result.{ok, err}
use skg.Parser.Tests.{sample_f64, run_parser}
use skg.Parser.File.{parse_bytes}
use skg.Decode.Pointer.{key, index, render_path}
use skg.Decode.Numbers.{Casts, integer_exact, unsigned_abs, as_signed, as_unsigned}
use skg.Decode.Value.{
  type_mismatch, Decoded, new_decode_options, ValueDeserializer, int_val, object_val, new_error,
  missing_field, number_out_of_range, error_here,
}
use skg.Decode.Visitor.{Visitor}
use skg.Decode.Scalars.{deserialize_signed, deserialize_unsigned}
use skg.Decode.Visit.{deserialize_struct}
use skg.Decode.Entry.{from_bytes_with, from_document_with}
use skg.Decode.Collect.{Data, table_of, table, entry, no_entry, whole, collect, collector}
use skg.Decode.Exact.{Scaled, integer_exact_iff}
use skg.Decode.Ranges.{deserialize_signed_lem, deserialize_unsigned_lem}
use skg.Decode.Unescape.{read_pointer, read_pointer-render_path, segment_text}
use skg.Decode.Whole.{from_document_with-collect, from_bytes_with-collect}
use skg.Decode.Access.{decode_child}
use skg.Decode.Depth.{IsChild, decode_child-IsChild}
use skg.Decode.Missing.{deserialize_struct-missing_field}

-- Stand for the conversions, which these runs do not come to.
abbrev pub no_casts : Casts
no_casts = record {
  f64_as_f32 = λ f. 0;
  f32_as_f64 = λ f. 0;
  i64_as_f32 = λ n. 0;
  i64_as_f64 = λ n. 0;
}

abbrev source : Bytes
source = codes "a: 1 b { c: -3 }"

abbrev head : Bytes → ℕ → Head
head k col = record { path = codes "f"; key = k; line = 1; col = col; leading_comments = [] }

abbrev document : Document
document = record {
  path = codes "f";
  skg_version = none;
  schema_version = none;
  import_paths = [];
  import_positions = [];
  children = cons (field (head (codes "a") 1) (int (pos 1)) none) (
      cons
        (block (head (codes "b") 6) false
          (cons (field (head (codes "c") 10) (int (negsuc 2)) none) nil) [])
        nil);
  imports_resolved = false;
  leading_comments = [];
  trailing_comments = [];
}

source-document : parse_bytes sample_f64 source (codes "f") ≡ ok document
unfolding run_parser bytes_beq
source-document = refl

collected_run :
    from_document_with (collect no_casts 256) document new_decode_options
    ≡ ok (
        table (
          entry
            (codes "a")
            (whole (pos 1))
            (entry (codes "b") (table (entry (codes "c") (whole (negsuc 2)) no_entry)) no_entry)))
unfolding from_document_with materialize_nodes collect
collected_run = refl

from_document_with-collect_example :
    from_document_with (collect no_casts 256) document new_decode_options
    ≡ ok (table (table_of (materialize_nodes document.children)))
from_document_with-collect_example =
    from_document_with-collect no_casts document new_decode_options (omega arith)

from_bytes_with-collect_example :
    from_bytes_with (collect no_casts 256) sample_f64 source (codes "f") new_decode_options
    ≡ ok (table (table_of (materialize_nodes document.children)))
from_bytes_with-collect_example =
    from_bytes_with-collect sample_f64 no_casts source (codes "f") new_decode_options document
      source-document

integer_exact_iff_example :
    (integer_exact (pos 0x20000000000000) 53 ≡ true)
    ↔ Scaled 53 (unsigned_abs (pos 0x20000000000000))
integer_exact_iff_example = integer_exact_iff (pos 0x20000000000000) 53 (omega arith)

not_exact : integer_exact (pos 0x20000000000001) 53 ≡ false
unfolding integer_exact
not_exact = refl

abbrev at_port : ValueDeserializer
at_port = record {
  value = int_val (pos 200);
  options = new_decode_options;
  source = record { path = codes "f"; line = 1; col = 1 };
  segments = key (codes "a/~b") ∷ index 12 ∷ [];
  depth = 2;
}

deserialize_signed_lem_example :
    ((as_signed 7 (pos 200) ≡ pos 200)
      × (deserialize_signed no_casts (collector (collect no_casts 1)) 7 at_port
          ≡ (collector (collect no_casts 1)).visit_signed 8 (pos 200)))
    ⊎ ((as_signed 7 (pos 200) ≢ pos 200)
        × (deserialize_signed no_casts (collector (collect no_casts 1)) 7 at_port
            ≡ err (error_here number_out_of_range at_port)))
deserialize_signed_lem_example =
    deserialize_signed_lem no_casts (collector (collect no_casts 1)) 7 (pos 200) at_port refl

deserialize_unsigned_lem_example :
    ((pos (as_unsigned 8 (pos 200)) ≡ pos 200)
      × (deserialize_unsigned no_casts (collector (collect no_casts 1)) 8 at_port
          ≡ (collector (collect no_casts 1)).visit_unsigned 8 (as_unsigned 8 (pos 200))))
    ⊎ ((pos (as_unsigned 8 (pos 200)) ≢ pos 200)
        × (deserialize_unsigned no_casts (collector (collect no_casts 1)) 8 at_port
            ≡ err (error_here number_out_of_range at_port)))
deserialize_unsigned_lem_example =
    deserialize_unsigned_lem no_casts (collector (collect no_casts 1)) 8 (pos 200) at_port refl

out_of_range_run :
    deserialize_signed no_casts (collector (collect no_casts 1)) 7 at_port
    ≡ err (record {
      kind = number_out_of_range;
      path = some (codes "/a~1~0b/12");
      source = some at_port.source;
    })
unfolding deserialize_signed error_here
out_of_range_run = refl

read_pointer-render_path_example :
    read_pointer (render_path at_port.segments) ≡ map segment_text at_port.segments
read_pointer-render_path_example = read_pointer-render_path at_port.segments

-- A visitor of a struct without its one field.
abbrev misses : Visitor Data
misses = record (collector (collect no_casts 1)) {
  visit_map = λ m. err (new_error (missing_field (codes "id")));
}

abbrev at_struct : ValueDeserializer
at_struct = record at_port { value = object_val nil }

deserialize_struct-missing_field_example :
    (pointer : Bytes) × (deserialize_struct no_casts misses at_struct
      ≡ err (record {
        kind = missing_field (codes "id");
        path = some pointer;
        source = some at_struct.source;
      }))
    × (read_pointer pointer ≡ map segment_text at_struct.segments ++ codes "id" ∷ [])
deserialize_struct-missing_field_example =
    deserialize_struct-missing_field no_casts misses at_struct nil (codes "id") refl refl

-- A seed that fails below the limit of the depth.
abbrev shallow : ValueDeserializer → Decoded Data
shallow c = if leb c.depth 256 then collect no_casts 1 c else err (new_error type_mismatch)

shallow-same :
    (c : ValueDeserializer)
    → IsChild at_port (int_val (pos 3)) (index 4) at_port.source c
    → collect no_casts 1 c ≡ shallow c
shallow-same c h = let fits : leb c.depth 256 ≡ true = ground (arith, h.depth_fits) in rw fits refl

decode_child-IsChild_example :
    decode_child (collect no_casts 1) at_port (int_val (pos 3)) (index 4) at_port.source
    ≡ decode_child shallow at_port (int_val (pos 3)) (index 4) at_port.source
decode_child-IsChild_example =
    decode_child-IsChild (collect no_casts 1) shallow at_port (int_val (pos 3)) (index 4)
      at_port.source shallow-same
