-- ===== src/Decode/Whole.antt =====
-- rust/src/de.rs: decoding into the self-describing type.
use skg.Base.{ℕ, zero, suc, ◌+◌, ◌<◌, ◌≤◌, false, Option, Bytes, leb, ◌≡◌, refl, ap, arith}
use skg.Error.Native.{SourceLocation}
use skg.Model.{
  Value, Values, no_items, item, Nodes, nil, cons, int, float, bool, string, null, array, object,
  field, block, block_array, delete, empty, length_nodes, node_key, Document,
}
use skg.Merge.{materialize_nodes, materialize_value, materialize_items}
use skg.Merge.Nesting.{nest_nodes, nest_value, nest_items}
use skg.Result.{ok, Ensures-ok}
use skg.Parser.File.{parse_bytes}
use skg.Parser.Whole.{DocumentSound, parse_bytes-DocumentSound}
use skg.Decode.Pointer.{Segment, key, index}
use skg.Decode.Numbers.{Casts}
use skg.Decode.Value.{
  DecodeOptions, Val, view_value, view_node, node_location, array_val, object_val, Decoded, map_err,
  ValueDeserializer, taken, child,
}
use skg.Decode.Access.{
  next_element_seed, next_key_seed, next_value_seed, decode_child, next_element, next_value,
  value_of, skip_dead, key_of,
}
use skg.Decode.Visitor.{count_of}
use skg.Decode.Visit.{deserialize_any, any_at}
use skg.Decode.Entry.{
  root_deserializer, from_bytes_with, from_parsed, from_document_with, converted,
}
use skg.Decode.Collect.{
  Datas, Table, data_of, datas_of, table_of, table, list, collect, collector, collect_elements,
  collect_entries,
}

-- A child of a deserializer that is not too deep is decoded as the seed decodes it.
decode_child-ok :
    {T : Type 0} (seed : ValueDeserializer → Decoded T) (d : ValueDeserializer) (value : Val)
    (segment : Segment) (source : SourceLocation) (x : T)
    → d.depth < 256
    → ((c : ValueDeserializer) → c.value ≡ value → c.depth ≡ d.depth + 1 → seed c ≡ ok x)
    → decode_child seed d value segment source ≡ ok x
unfolding decode_child child
decode_child-ok seed d value segment source x shallow seeds =
    let no : leb 256 d.depth ≡ false = ground arith in rw no (ap (map_err _) (seeds _ refl refl))

module _ (casts : Casts) where
  array_collected :
      (vs : Values) (f : ℕ) (d : ValueDeserializer) (xs : Datas)
      → d.value ≡ array_val vs
      → collect_elements
          (collect casts f)
          (suc (count_of vs))
          (record { de = taken d; items = vs; next_index = 0 })
        ≡ ok xs
      → collect casts (suc f) d ≡ ok (list xs)
  unfolding collect deserialize_any any_at collector
  array_collected vs f d xs e h = rw (e, h) refl

  object_collected :
      (ns : Nodes) (f : ℕ) (d : ValueDeserializer) (t : Table)
      → d.value ≡ object_val ns
      → collect_entries
          (collect casts f)
          (suc (length_nodes ns))
          (record { de = taken d; children = ns })
        ≡ ok t
      → collect casts (suc f) d ≡ ok (table t)
  unfolding collect deserialize_any any_at collector
  object_collected ns f d t e h = rw (e, h) refl

  mutual
    unfolding collect deserialize_any any_at view_value collector collect_elements next_element_seed
        next_element collect_entries next_key_seed next_value_seed next_value value_of skip_dead
        key_of view_node node_key

    value_collected :
        (v : Value) (f : ℕ) (d : ValueDeserializer)
        → d.value ≡ view_value v
        → nest_value v < f
        → d.depth + nest_value v ≤ 256
        → collect casts f d ≡ ok (data_of v)
    value_collected v zero d e hf hd = absurd (omega (arith, hf))
    value_collected (int n) (suc f) d e hf hd = rw e refl
    value_collected (float n) (suc f) d e hf hd = rw e refl
    value_collected (bool n) (suc f) d e hf hd = rw e refl
    value_collected (string n) (suc f) d e hf hd = rw e refl
    value_collected null (suc f) d e hf hd = rw e refl
    value_collected (array t items c) (suc f) d e hf hd =
        array_collected items f d (datas_of items) e (
          items_collected items f (suc (count_of items)) 0 (taken d) (omega arith)
            (omega (arith, hf)) (omega (arith, hd)))
    value_collected (object children c) (suc f) d e hf hd =
        object_collected children f d (table_of children) e (
          nodes_collected children f (suc (length_nodes children)) (taken d) (omega arith)
            (omega (arith, hf)) (omega (arith, hd)))

    items_collected :
        (vs : Values) (f n i : ℕ) (d : ValueDeserializer)
        → count_of vs < n
        → nest_items vs < f
        → d.depth + nest_items vs < 256
        → collect_elements (collect casts f) n (record { de = d; items = vs; next_index = i })
          ≡ ok (datas_of vs)
    items_collected vs f zero i d hn hf hd = absurd (omega (arith, hn))
    items_collected no_items f (suc n) i d hn hf hd = refl
    items_collected (item v vs) f (suc n) i d hn hf hd =
        rw
          (
            decode_child-ok (collect casts f) d (view_value v) (index i) d.source (data_of v)
                (omega (arith, hd))
                (λ c same deeper.
                  value_collected v f c same (omega (arith, hf)) (omega (arith, hd, deeper))),
            items_collected vs f n (i + 1) d (omega (arith, hn)) (omega (arith, hf))
                (omega (arith, hd)),
          )
          refl

    nodes_collected :
        (ns : Nodes) (f n : ℕ) (d : ValueDeserializer)
        → length_nodes ns < n
        → nest_nodes ns < f
        → d.depth + nest_nodes ns < 256
        → collect_entries (collect casts f) n (record { de = d; children = ns }) ≡ ok (table_of ns)
    nodes_collected ns f zero d hn hf hd = absurd (omega (arith, hn))
    nodes_collected nil f (suc n) d hn hf hd = refl
    nodes_collected (cons (delete h t) ns) f (suc n) d hn hf hd =
        nodes_collected ns f (suc n) d (omega (arith, hn)) (omega (arith, hf)) (omega (arith, hd))
    nodes_collected (cons empty ns) f (suc n) d hn hf hd =
        nodes_collected ns f (suc n) d (omega (arith, hn)) (omega (arith, hf)) (omega (arith, hd))
    nodes_collected (cons (field h v t) ns) f (suc n) d hn hf hd =
        rw
          (
            decode_child-ok (collect casts f) d (view_value v) (key h.key)
                (node_location (field h v t)) (data_of v) (omega (arith, hd))
                (λ c same deeper.
                  value_collected v f c same (omega (arith, hf)) (omega (arith, hd, deeper))),
            nodes_collected ns f n d (omega (arith, hn)) (omega (arith, hf)) (omega (arith, hd)),
          )
          refl
    nodes_collected ns zero n d hn hf hd = absurd (omega (arith, hf))
    nodes_collected (cons (block h r cs t) ns) (suc f) (suc n) d hn hf hd =
        rw
          (
            decode_child-ok (collect casts (suc f)) d (object_val cs) (key h.key)
                (node_location (block h r cs t)) (table (table_of cs)) (omega (arith, hd))
                (λ c same deeper. object_collected cs f c (table_of cs) same (
                  nodes_collected cs f (suc (length_nodes cs)) (taken c) (omega arith)
                    (omega (arith, hf)) (omega (arith, hd, deeper)))),
            nodes_collected ns (suc f) n d (omega (arith, hn)) (omega (arith, hf))
                (omega (arith, hd)),
          )
          refl
    nodes_collected (cons (block_array h xs t) ns) (suc f) (suc n) d hn hf hd =
        rw
          (
            decode_child-ok (collect casts (suc f)) d (array_val xs) (key h.key)
                (node_location (block_array h xs t)) (list (datas_of xs)) (omega (arith, hd))
                (λ c same deeper. array_collected xs f c (datas_of xs) same (
                  items_collected xs f (suc (count_of xs)) 0 (taken c) (omega arith)
                    (omega (arith, hf)) (omega (arith, hd, deeper)))),
            nodes_collected ns (suc f) n d (omega (arith, hn)) (omega (arith, hf))
                (omega (arith, hd)),
          )
          refl

mutual
  unfolding materialize_nodes

  materialize_nodes-nest : (ns : Nodes) → nest_nodes (materialize_nodes ns) ≤ nest_nodes ns
  materialize_nodes-nest nil = omega arith
  materialize_nodes-nest (cons (delete h t) ns) = omega (arith, materialize_nodes-nest ns)
  materialize_nodes-nest (cons empty ns) = omega (arith, materialize_nodes-nest ns)
  materialize_nodes-nest (cons (field h v t) ns) =
      omega (arith, materialize_value-nest v, materialize_nodes-nest ns)
  materialize_nodes-nest (cons (block h r cs t) ns) =
      omega (arith, materialize_nodes-nest cs, materialize_nodes-nest ns)
  materialize_nodes-nest (cons (block_array h xs t) ns) =
      omega (arith, materialize_items-nest xs, materialize_nodes-nest ns)

  materialize_value-nest : (v : Value) → nest_value (materialize_value v) ≤ nest_value v
  materialize_value-nest (object cs t) = omega (arith, materialize_nodes-nest cs)
  materialize_value-nest (array element xs t) = omega (arith, materialize_items-nest xs)
  materialize_value-nest (int n) = omega arith
  materialize_value-nest (float n) = omega arith
  materialize_value-nest (bool n) = omega arith
  materialize_value-nest (string n) = omega arith
  materialize_value-nest null = omega arith

  materialize_items-nest : (xs : Values) → nest_items (materialize_items xs) ≤ nest_items xs
  materialize_items-nest no_items = omega arith
  materialize_items-nest (item v vs) =
      omega (arith, materialize_value-nest v, materialize_items-nest vs)

-- A document whose nodes nest at most 254 deep is decoded into the self-describing type, with 256 units
-- of fuel and whatever the options are, without an error as the data of its materialized nodes.
pub from_document_with-collect :
    (casts : Casts) (document : Document) (options : DecodeOptions)
    → nest_nodes document.children ≤ 254
    → from_document_with (collect casts 256) document options
      ≡ ok (table (table_of (materialize_nodes document.children)))
unfolding from_document_with converted
from_document_with-collect casts document options h =
    let ns : Nodes = materialize_nodes document.children in
    let fits : nest_nodes ns ≤ 254 = omega (arith, h, materialize_nodes-nest document.children) in
    let d : ValueDeserializer = root_deserializer document options in
    ap converted (
      object_collected casts ns 255 d (table_of ns) refl (
        nodes_collected casts ns 255 (suc (length_nodes ns)) (taken d) (omega arith)
          (omega (arith, fits)) (omega (arith, fits))))

-- A source that parses is decoded into the self-describing type, with 256 units of fuel and whatever the
-- options are, without an error as the data of its materialized nodes.
pub from_bytes_with-collect :
    (parse_f64 : Bytes → Option ℕ) (casts : Casts) (source path : Bytes) (options : DecodeOptions)
    (document : Document)
    → parse_bytes parse_f64 source path ≡ ok document
    → from_bytes_with (collect casts 256) parse_f64 source path options
      ≡ ok (table (table_of (materialize_nodes document.children)))
unfolding from_bytes_with from_parsed
from_bytes_with-collect parse_f64 casts source path options document parses =
    let sound : DocumentSound document =
      Ensures-ok (parse_bytes-DocumentSound parse_f64 source path) parses in
    rw (parses, from_parsed)
      (from_document_with-collect casts document options (omega (arith, sound.nested)))
