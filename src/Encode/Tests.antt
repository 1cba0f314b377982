-- ===== src/Encode/Tests.antt =====
-- Runs of the encoder.
use skg.Base.{◌≢◌, true, false, arith, none, some, [], ◌∷◌, codes, ◌≡◌, refl, bytes_eq}
use skg.Model.{pos, negsuc, Document, no_items}
use skg.Result.{ok, err, bind, out_of_fuel}
use skg.Decode.Value.{new_decode_options}
use skg.Decode.Entry.{from_document_with}
use skg.Decode.Tests.{no_casts}
use skg.Decode.Collect.{
  Table, nothing, whole, text, list, table, no_data, datum, no_entry, entry, collect,
}
use skg.Encode.{
  Serializer, enter, end_frame, array_frame, new_serializer, invalid_value, unsupported,
  finish_variant, map_frame, homogeneous_from, to_document,
}
use skg.Encode.Methods.{
  serialize_map, serialize_key, serialize_struct, serialize_field, serialize_str, serialize_u64,
}
use skg.Encode.Client.{encode_data, value_of_data, IsEncodableTable}
use skg.Encode.Balance.{
  Reached, started, opened, refused, Balanced, Reached-Balanced, end_frame-Reached,
}
use skg.Encode.RoundTrip.{to_document-from_document_with}

abbrev sample : Table
sample =
    entry (codes "a b") (list (datum (whole (negsuc 4)) (datum nothing no_data)))
      (entry (codes "c") (table (entry (codes "d") (text (codes "x")) no_entry)) no_entry)

sample-IsEncodable : IsEncodableTable sample
unfolding homogeneous_from value_of_data
sample-IsEncodable = ((refl, (tt, (tt, tt))), ((tt, tt), tt))

to_document-from_document_with_example :
    (document : Document) × (to_document (encode_data (table sample)) ≡ ok document)
    × (from_document_with (collect no_casts 256) document new_decode_options ≡ ok (table sample))
to_document-from_document_with_example =
    to_document-from_document_with sample no_casts new_decode_options sample-IsEncodable
      (omega arith)

mixed :
    to_document (
      encode_data (
        table (
          entry
            (codes "a")
            (list (datum nothing (datum (whole (pos 1)) (datum (text []) no_data))))
            no_entry)))
    ≡ err invalid_value
unfolding to_document encode_data
mixed = refl

-- A struct of one text field, as the key of a map, leaves its text as the pending key of its own frame.
struct_key :
    bind (serialize_map new_serializer) (
      serialize_key (λ s.
        bind (serialize_struct s) (serialize_field (codes "name") (serialize_str (codes "x")))))
    ≡ ok (record new_serializer {
      stack = map_frame [] (some (codes "x")) false ∷ map_frame [] none true ∷ [];
      depth = 2;
    })
unfolding serialize_map serialize_key serialize_struct serialize_field serialize_str
struct_key = refl

out_of_i64 : serialize_u64 0x8000000000000000 new_serializer ≡ err (invalid_value, new_serializer)
unfolding serialize_u64
out_of_i64 = refl

-- A serializer in a sequence, the last that has a level left, after a refused opening.
abbrev in_sequence : Serializer
in_sequence = record new_serializer { depth = 129; stack = array_frame no_items ∷ [] }

in_sequence-Reached : Reached 127 1 0 1 in_sequence
unfolding enter
in_sequence-Reached =
    refused (map_frame [] none true) unsupported (opened (array_frame no_items) started refl) refl

Reached-Balanced_example : Balanced 127 1 0 1 in_sequence
Reached-Balanced_example = Reached-Balanced 127 1 0 1 in_sequence in_sequence-Reached

end_frame-Reached_example :
    (end_frame in_sequence ≢ out_of_fuel) × (finish_variant in_sequence ≢ out_of_fuel)
end_frame-Reached_example = end_frame-Reached 127 0 0 1 in_sequence in_sequence-Reached
