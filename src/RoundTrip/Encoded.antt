-- ===== src/RoundTrip/Encoded.antt =====
-- rust/src/ser.rs and rust/src/de.rs: data that is encoded to a text, and decoded from it.
use skg.Base.{
  ℕ, ◌≤◌, Bool, true, false, none, some, [], ◌∷◌, Bytes, codes, ◌≡◌, refl, sym, ap, ap₂, ◌∙◌, ◌==◌,
  nat_eq, bytes_eq, Option, length, arith, ltb, if◌then◌else◌,
}
use skg.Model.{
  ValueType, Value, Values, Nodes, array, object, delete, field, block, block_array, empty, nil,
  cons, no_items, item, node_key,
}
use skg.Merge.{materialize_nodes, materialize_value, materialize_items}
use skg.Merge.Overlay.{has_keyed}
use skg.Merge.Keyed.{IsKeyed, IsKeyedNode, IsKeyedValue, IsKeyedItems}
use skg.Result.{ok}
use skg.Parser.Text.{max_file_size, first_invalid_utf8}
use skg.Emit.{emit}
use skg.Emit.Decimal.{InRange}
use skg.Decode.Numbers.{Casts}
use skg.Decode.Collect.{
  Data, Datas, Table, whole, real, list, table, no_data, datum, no_entry, entry, data_of, datas_of,
  table_of, collect,
}
use skg.Decode.Entry.{from_str}
use skg.Decode.Value.{new_decode_options}
use skg.Decode.Whole.{from_bytes_with-collect}
use skg.Encode.{to_string, named_node}
use skg.Encode.Client.{
  encode_data, value_of_data, values_of, nodes_of, IsEncodable, AreEncodable, IsEncodableTable,
  levels,
}
use skg.Encode.RoundTrip.{encoded_document, to_document-encode_data, nodes_nest, nodes_restored}
use skg.RoundTrip.{
  plain_nodes, plain_value, plain_items, IsWritable, AreWritable, AreWritableItems, IsWritableNode,
  AreRows, ShowsFloats,
}
use skg.RoundTrip.Typed.{homogeneous-HasType, homogeneous-AreRows}
use skg.RoundTrip.Whole.{parse_bytes-emit, IsBare}

-- Whether a table has an entry of a name.
unfoldable pub has_name : Bytes → Table → Bool
has_name k no_entry = false
has_name k (entry j x t) = if j == k then true else has_name k t

-- Integers of the machine, and entries of distinct names in every table.
abbrev mutual
  pub IsNative : Data → Type 0
  IsNative (whole n) = InRange n
  IsNative (list xs) = AreNative xs
  IsNative (table t) = IsNativeTable t
  IsNative _ = Unit {0}

  pub AreNative : Datas → Type 0
  AreNative no_data = Unit {0}
  AreNative (datum x xs) = IsNative x × AreNative xs

  pub IsNativeTable : Table → Type 0
  IsNativeTable no_entry = Unit {0}
  IsNativeTable (entry k x t) = IsNative x × (has_name k t ≡ false) × IsNativeTable t

named_node-key : (k : Bytes) (v : Value) → node_key (named_node k v) ≡ some k
unfolding named_node node_key
named_node-key k (array ValueType.object items t) = refl
named_node-key k (array _ items t) = refl
named_node-key k _ = refl

has_keyed-nodes_of : (k : Bytes) (t : Table) → has_keyed k (nodes_of t) ≡ has_name k t
unfolding has_keyed has_name value_of_data
has_keyed-nodes_of k no_entry = refl
has_keyed-nodes_of k (entry j x t) =
    rw (named_node-key j (value_of_data x), has_keyed-nodes_of k t) refl

named_node-IsKeyedNode : (k : Bytes) (v : Value) → IsKeyedValue v → IsKeyedNode (named_node k v)
unfolding named_node
named_node-IsKeyedNode k (array ValueType.object items t) h = h
named_node-IsKeyedNode k (array _ items t) h = h
named_node-IsKeyedNode k _ h = h

mutual
  unfolding value_of_data

  value_IsKeyed : (d : Data) → IsNative d → IsKeyedValue (value_of_data d)
  value_IsKeyed (list xs) h = values_IsKeyed xs h
  value_IsKeyed (table t) h = nodes_IsKeyed t h
  value_IsKeyed _ h = tt

  values_IsKeyed : (xs : Datas) → AreNative xs → IsKeyedItems (values_of xs)
  values_IsKeyed no_data h = tt
  values_IsKeyed (datum x xs) (hx, hs) = (value_IsKeyed x hx, values_IsKeyed xs hs)

  nodes_IsKeyed : (t : Table) → IsNativeTable t → IsKeyed (nodes_of t)
  nodes_IsKeyed no_entry h = tt
  nodes_IsKeyed (entry k x t) (hx, fresh, ht) = (
    named_node-IsKeyedNode k (value_of_data x) (value_IsKeyed x hx),
    (k, named_node-key k (value_of_data x), has_keyed-nodes_of k t ∙ fresh),
    nodes_IsKeyed t ht,
  )

-- An array of objects has rows.
abbrev RowsOf : Value → Type 0
RowsOf (array element xs t) = element ≡ ValueType.object → AreRows xs
RowsOf _ = Unit {0}

named_node-IsWritableNode :
    (k : Bytes) (v : Value) → IsWritable v → RowsOf v → IsWritableNode (named_node k v)
unfolding named_node
named_node-IsWritableNode k (object cs []) w r = (refl, w)
named_node-IsWritableNode k (object cs (c ∷ t)) w r = absurd w
named_node-IsWritableNode k (array ValueType.object xs []) w r = (refl, r refl, w.1)
named_node-IsWritableNode k (array ValueType.object xs (c ∷ t)) w r = absurd w
named_node-IsWritableNode k (array _ xs []) w r = (refl, tt, w)
named_node-IsWritableNode k (array _ xs (c ∷ t)) w r = absurd w
named_node-IsWritableNode k _ w r = (refl, tt, w)

value_of_data-RowsOf : (d : Data) → IsEncodable d → RowsOf (value_of_data d)
unfolding value_of_data
value_of_data-RowsOf (list xs) (h, hs) = λ e. homogeneous-AreRows (values_of xs) h e
value_of_data-RowsOf _ h = tt

-- What stands for data that can be encoded can be written.
mutual
  unfolding value_of_data

  value_IsWritable : (d : Data) → IsEncodable d → IsNative d → IsWritable (value_of_data d)
  value_IsWritable (whole n) h r = r
  value_IsWritable (real f) h r = h
  value_IsWritable (list xs) (h, hs) r =
      (homogeneous-HasType (values_of xs) h, values_AreWritable xs hs r)
  value_IsWritable (table t) h r = nodes_AreWritable t h r
  value_IsWritable _ h r = tt

  values_AreWritable :
      (xs : Datas) → AreEncodable xs → AreNative xs → AreWritableItems (values_of xs)
  values_AreWritable no_data h r = tt
  values_AreWritable (datum x xs) (h, hs) (r, rs) =
      (value_IsWritable x h r, values_AreWritable xs hs rs)

  nodes_AreWritable : (t : Table) → IsEncodableTable t → IsNativeTable t → AreWritable (nodes_of t)
  nodes_AreWritable no_entry h r = tt
  nodes_AreWritable (entry k x t) (h, hs) (r, fresh, rs) = (
    named_node-IsWritableNode k (value_of_data x) (value_IsWritable x h r)
        (value_of_data-RowsOf x h),
    nodes_AreWritable t hs rs,
  )

-- The data of nodes does not depend on the places in their heads, nor on materialization.
mutual
  unfolding plain_nodes

  data_of-plain : (v : Value) → data_of (plain_value v) ≡ data_of v
  data_of-plain (array element xs t) = ap list (datas_of-plain xs)
  data_of-plain (object cs t) = ap table (table_of-plain cs)
  data_of-plain _ = refl

  datas_of-plain : (vs : Values) → datas_of (plain_items vs) ≡ datas_of vs
  datas_of-plain no_items = refl
  datas_of-plain (item v vs) = ap₂ datum (data_of-plain v) (datas_of-plain vs)

  table_of-plain : (ns : Nodes) → table_of (plain_nodes ns) ≡ table_of ns
  table_of-plain nil = refl
  table_of-plain (cons (delete h t) ns) = table_of-plain ns
  table_of-plain (cons empty ns) = table_of-plain ns
  table_of-plain (cons (field h v t) ns) = ap₂ (entry h.key) (data_of-plain v) (table_of-plain ns)
  table_of-plain (cons (block h r cs t) ns) =
      ap₂ (entry h.key) (ap table (table_of-plain cs)) (table_of-plain ns)
  table_of-plain (cons (block_array h xs t) ns) =
      ap₂ (entry h.key) (ap list (datas_of-plain xs)) (table_of-plain ns)

mutual
  unfolding materialize_nodes

  data_of-materialize : (v : Value) → data_of (materialize_value v) ≡ data_of v
  data_of-materialize (array element xs t) = ap list (datas_of-materialize xs)
  data_of-materialize (object cs t) = ap table (table_of-materialize cs)
  data_of-materialize _ = refl

  datas_of-materialize : (vs : Values) → datas_of (materialize_items vs) ≡ datas_of vs
  datas_of-materialize no_items = refl
  datas_of-materialize (item v vs) = ap₂ datum (data_of-materialize v) (datas_of-materialize vs)

  table_of-materialize : (ns : Nodes) → table_of (materialize_nodes ns) ≡ table_of ns
  table_of-materialize nil = refl
  table_of-materialize (cons (delete h t) ns) = table_of-materialize ns
  table_of-materialize (cons empty ns) = table_of-materialize ns
  table_of-materialize (cons (field h v t) ns) =
      ap₂ (entry h.key) (data_of-materialize v) (table_of-materialize ns)
  table_of-materialize (cons (block h r cs t) ns) =
      ap₂ (entry h.key) (ap table (table_of-materialize cs)) (table_of-materialize ns)
  table_of-materialize (cons (block_array h xs t) ns) =
      ap₂ (entry h.key) (ap list (datas_of-materialize xs)) (table_of-materialize ns)

-- The text of a table.
abbrev pub text_of : (ℕ → Bytes) → Table → Bytes
text_of show_f64 t = emit show_f64 (encoded_document t)

module _ (show_f64 : ℕ → Bytes) (parse_f64 : Bytes → Option ℕ)
    (floats : ShowsFloats show_f64 parse_f64) where
  to_string-encode_data :
      (t : Table)
      → IsEncodableTable t
      → levels (table t) ≤ 128
      → length (text_of show_f64 t) ≤ max_file_size
      → to_string show_f64 (encode_data (table t)) ≡ ok (text_of show_f64 t)
  unfolding to_string
  to_string-encode_data t h hd small =
      let fits : ltb max_file_size (length (text_of show_f64 t)) ≡ false = ground arith in
      rw (to_document-encode_data t h hd, fits) refl

  -- A table is encoded to its text without an error, and the text decodes as the same table, without
  -- an error. Its floats are finite and are shown and parsed as `ShowsFloat` states, its integers are in the range of an `i64`, its
  -- lists are of one type, its names are distinct in every table, it has at most 128 levels, and the
  -- text is valid UTF-8 and no longer than `max_file_size`.
  pub from_str-to_string :
      (t : Table) (casts : Casts)
      → IsEncodableTable t
      → IsNativeTable t
      → levels (table t) ≤ 128
      → length (text_of show_f64 t) ≤ max_file_size
      → first_invalid_utf8 (text_of show_f64 t) ≡ none
      → (source : Bytes) × (to_string show_f64 (encode_data (table t)) ≡ ok source)
        × (from_str (collect casts 256) parse_f64 source ≡ ok (table t))
  unfolding from_str
  from_str-to_string t casts h r hd small valid =
      let bare : IsBare (encoded_document t) = record {
        no_skg_version = refl;
        no_schema_version = refl;
        no_imports = refl;
        no_leading = refl;
        no_trailing = refl;
      } in
      let (parsed, e, says) =
        parse_bytes-emit show_f64 parse_f64 floats (encoded_document t) (codes "<string>") bare
          (nodes_AreWritable t h r) (nodes_IsKeyed t r) (omega (arith, hd, nodes_nest t)) small
          valid in
      (
        text_of show_f64 t,
        to_string-encode_data t h hd small,
        from_bytes_with-collect parse_f64 casts (text_of show_f64 t) (codes "<string>")
              new_decode_options parsed e
            ∙ ap (λ u. ok (table u))
                (table_of-materialize parsed.children
                  ∙ sym (table_of-plain parsed.children)
                  ∙ ap table_of says.same
                  ∙ table_of-plain (nodes_of t)
                  ∙ nodes_restored t),
      )
