-- ===== src/RoundTrip/Tests.antt =====
-- Documents and data that are written and read again.
use skg.Base.{
  ℕ, suc, ◌-◌, ◌≤◌, true, false, Option, none, some, [], ◌++◌, Bytes, codes, ◌≡◌, refl, ap, ◌∙◌,
  arith, length, length-append, take, bytes_beq, ltb, ◌^◌, if◌then◌else◌, nat_eq,
}
use skg.Model.{
  Head, ValueType, Value, Values, Nodes, pos, negsuc, int, float, string, null, array, object,
  delete, field, block, block_array, nil, cons, no_items, item, Document, new_document, node_key,
  value_type,
}
use skg.Merge.Overlay.{has_keyed}
use skg.Merge.Keyed.{IsKeyed}
use skg.Result.{ok}
use skg.Lexer.Scan.{is_digit}
use skg.Parser.Text.{digits_value, is_finite, first_invalid_utf8, max_file_size}
use skg.Parser.Arrays.{join_type}
use skg.Parser.File.{parse_bytes}
use skg.Parser.Tests.{run_parser}
use skg.Emit.{
  digits, int_text, emit, emit_from, emit_comment_lines, write_key, write_string, format_float,
  trailing_text, blank_line,
}
use skg.Emit.Quote.{take-length}
use skg.Emit.Decimal.{digits_value-digits}
use skg.Format.{parse, format}
use skg.Decode.Collect.{
  Table, nothing, whole, real, text, list, table, no_data, datum, no_entry, entry, collect,
}
use skg.Decode.Tests.{no_casts}
use skg.Decode.Entry.{from_str}
use skg.Encode.{to_string, homogeneous_from}
use skg.Encode.Client.{encode_data, IsEncodableTable, value_of_data}
use skg.RoundTrip.{ShowsFloats, as_integer, AreWritable, row_type}
use skg.RoundTrip.Texts.{digits-IsWhole}
use skg.RoundTrip.Whole.{parse_bytes-emit, IsBare, Says}
use skg.RoundTrip.Encoded.{from_str-to_string, text_of, IsNativeTable, has_name}
use skg.RoundTrip.Formatted.{format-format}

-- Floats that are shown as their bit patterns.
abbrev show_bits : ℕ → Bytes
show_bits f = digits (suc f) f

-- A number of 64 bits.
abbrev in_64_bits : Option ℕ → Option ℕ
in_64_bits none = none
in_64_bits (some f) = if ltb f (2 ^ 64) then some f else none

abbrev parse_bits : Bytes → Option ℕ
parse_bits t = in_64_bits (digits_value 0 (take (length t - 2) t))

parse_bits_shown : (f : ℕ) → is_finite f ≡ true → parse_bits (show_bits f ++ codes ".0") ≡ some f
unfolding is_finite
parse_bits_shown f finite =
    let shorter : length (show_bits f ++ codes ".0") - 2 ≡ length (show_bits f) =
      omega (arith, length-append (show_bits f) (codes ".0")) in
    let small : ltb f (2 ^ 64) ≡ true = ground arith in
    ap (λ n. in_64_bits (digits_value 0 (take n (show_bits f ++ codes ".0")))) shorter
    ∙ ap (λ t. in_64_bits (digits_value 0 t)) (take-length (show_bits f) (codes ".0"))
    ∙ ap in_64_bits (digits_value-digits (suc f) f (omega arith))
    ∙ rw small refl

show_bits-ShowsFloats : ShowsFloats show_bits parse_bits
show_bits-ShowsFloats f finite = record {
  minus = false;
  whole = show_bits f;
  fraction = codes "0";
  is_whole = digits-IsWhole f;
  some_digit = refl;
  all_digits = unfold is_digit in refl;
  shown = as_integer refl refl;
  parsed = parse_bits_shown f finite;
}

abbrev head : Bytes → Head
head key = record { path = []; key = key; line = 0; col = 0; leading_comments = [] }

abbrev rows : Values
rows =
    item (object (cons (field (head (codes "id")) (float 7) none) nil) [])
      (item null (item (object nil []) no_items))

abbrev mixed : Value
mixed = array ValueType.int (item null (item (int (negsuc 3)) no_items)) []

abbrev sample : Nodes
sample = cons (field (head (codes "import")) (string (codes "a\nb")) none) (
    cons (field (head (codes "xs")) mixed none) (
      cons (block (head (codes "b c")) true (cons (delete (head (codes "import")) none) nil) [])
        (cons (block_array (head (codes "rows")) rows []) nil)))

abbrev document : Document
document = record (new_document []) { children = sample }

document-IsBare : IsBare document
document-IsBare = record {
  no_skg_version = refl;
  no_schema_version = refl;
  no_imports = refl;
  no_leading = refl;
  no_trailing = refl;
}

sample-IsKeyed : IsKeyed sample
unfolding node_key has_keyed bytes_beq
sample-IsKeyed = (
  tt,
  (codes "import", refl, refl),
  (
    (tt, (tt, tt)),
    (codes "xs", refl, refl),
    (
      (tt, (codes "import", refl, refl), tt),
      (codes "b c", refl, refl),
      (((tt, (codes "id", refl, refl), tt), (tt, (tt, tt))), (codes "rows", refl, refl), tt),
    ),
  ),
)

sample-AreWritable : AreWritable sample
unfolding is_finite join_type value_type row_type
sample-AreWritable = (
  (refl, tt, tt),
  (
    (
      refl,
      tt,
      (
        (some ValueType.int, (ValueType.null, refl, (ValueType.int, refl, refl)), refl),
        (tt, (omega arith, tt)),
      ),
    ),
    (
      (refl, (refl, tt)),
      (
        (
          refl,
          (
            some ValueType.object,
            (
              ValueType.object,
              refl,
              (ValueType.object, refl, (ValueType.object, refl, (refl, tt))),
            ),
          ),
          (((refl, tt, refl), tt), (tt, (tt, tt))),
        ),
        tt,
      ),
    ),
  ),
)

emitted :
    emit show_bits document
    ≡ codes
        "\"import\": \"\"\"a\nb\"\"\"\nxs: [null, -4]\n\n@replace \"b c\" {\n  @delete import\n}\n\nrows [\n  {\n    id: 7.0\n  }\n  null\n  {\n  }\n]\n"
unfolding emit digits emit_from emit_comment_lines write_key write_string int_text trailing_text
    blank_line format_float is_finite
emitted = refl

text_length : length (emit show_bits document) ≤ max_file_size
text_length = rw emitted (omega arith)

text_valid : first_invalid_utf8 (emit show_bits document) ≡ none
unfolding first_invalid_utf8
text_valid = rw emitted refl

parse_bytes-emit_example :
    (parsed : Document) × (parse_bytes parse_bits (emit show_bits document) (codes "f") ≡ ok parsed)
    × Says sample parsed
parse_bytes-emit_example =
    parse_bytes-emit show_bits parse_bits show_bits-ShowsFloats document (codes "f") document-IsBare
      sample-AreWritable sample-IsKeyed (omega arith) text_length text_valid

abbrev settings : Table
settings = entry (codes "a b") (list (datum (whole (negsuc 4)) (datum nothing no_data))) (
    entry (codes "rows")
      (list
        (datum nothing (datum (table (entry (codes "s") (text (codes "x\n")) no_entry)) no_data)))
      (entry (codes "f") (real 7) no_entry))

settings-IsEncodable : IsEncodableTable settings
unfolding homogeneous_from value_of_data is_finite
settings-IsEncodable = ((refl, (tt, (tt, tt))), ((refl, (tt, ((tt, tt), tt))), (refl, tt)))

settings-IsNative : IsNativeTable settings
unfolding has_name bytes_beq
settings-IsNative =
    ((omega arith, (tt, tt)), refl, ((tt, ((tt, refl, tt), tt)), refl, (tt, refl, tt)))

settings_text :
    text_of show_bits settings
    ≡ codes "\"a b\": [-5, null]\n\nrows [\n  null\n  {\n    s: \"\"\"x\n\"\"\"\n  }\n]\nf: 7.0\n"
unfolding emit emit_from digits emit_comment_lines write_key write_string int_text trailing_text
    blank_line format_float is_finite value_of_data
settings_text = refl

settings_valid : first_invalid_utf8 (text_of show_bits settings) ≡ none
unfolding first_invalid_utf8
settings_valid = rw settings_text refl

from_str-to_string_example :
    (source : Bytes) × (to_string show_bits (encode_data (table settings)) ≡ ok source)
    × (from_str (collect no_casts 256) parse_bits source ≡ ok (table settings))
from_str-to_string_example =
    from_str-to_string show_bits parse_bits show_bits-ShowsFloats settings no_casts
      settings-IsEncodable settings-IsNative (omega arith) (rw settings_text (omega arith))
      settings_valid

abbrev parsed_head : Bytes → Head
parsed_head key = record {
  path = codes "<string>";
  key = key;
  line = 1;
  col = 1;
  leading_comments = [];
}

abbrev parsed : Document
parsed = record (new_document (codes "<string>")) {
  children = cons (field (parsed_head (codes "a")) (int (pos 5)) none) nil;
}

parsed_of : parse parse_bits (codes "a :5") ≡ ok parsed
unfolding parse run_parser bytes_beq
parsed_of = refl

parsed-IsBare : IsBare parsed
parsed-IsBare = record {
  no_skg_version = refl;
  no_schema_version = refl;
  no_imports = refl;
  no_leading = refl;
  no_trailing = refl;
}

parsed_text : emit show_bits parsed ≡ codes "a: 5\n"
unfolding emit emit_from digits emit_comment_lines write_key int_text trailing_text
parsed_text = refl

parsed_valid : first_invalid_utf8 (emit show_bits parsed) ≡ none
unfolding first_invalid_utf8
parsed_valid = rw parsed_text refl

format-format_example :
    (text : Bytes) × (format parse_bits show_bits (codes "a :5") ≡ ok text)
    × (format parse_bits show_bits text ≡ ok text)
format-format_example =
    format-format show_bits parse_bits show_bits-ShowsFloats (codes "a :5") parsed parsed_of
      parsed-IsBare ((refl, tt, omega arith), tt) (rw parsed_text (omega arith)) parsed_valid
