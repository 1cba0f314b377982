-- ===== src/Encode/RoundTrip.antt =====
-- rust/src/ser.rs and rust/src/de.rs: a document that is encoded, decoded again.
use skg.Base.{[], suc, ◌≤◌, max, Bytes, ◌≡◌, refl, ap, ap₂, ◌∙◌, arith}
use skg.Model.{new_document, ValueType, Value, Nodes, array, object, cons, Document}
use skg.Merge.{materialize_nodes}
use skg.Merge.Final.{IsFinal, IsFinalValue, IsFinalItems, materialize_nodes-IsFinal}
use skg.Merge.Nesting.{nest_nodes, nest_node, nest_value, nest_items}
use skg.Result.{ok}
use skg.Decode.Numbers.{Casts}
use skg.Decode.Value.{DecodeOptions}
use skg.Decode.Entry.{from_document_with}
use skg.Decode.Collect.{
  Data, Datas, Table, list, table, no_data, datum, no_entry, entry, data_of, datas_of, table_of,
  collect,
}
use skg.Decode.Whole.{from_document_with-collect}
use skg.Encode.{
  attach, attach_value, attach_root, named_node, finish, finish_at, to_document, new_serializer,
}
use skg.Encode.Client.{
  encode_data, value_of_data, values_of, nodes_of, IsEncodableTable, levels, levels_of, levels_in,
}
use skg.Encode.Whole.{data_encoded}

named_node-table_of :
    (k : Bytes) (v : Value) (ns : Nodes)
    → table_of (cons (named_node k v) ns) ≡ entry k (data_of v) (table_of ns)
unfolding named_node
named_node-table_of k (array ValueType.object items t) ns = refl
named_node-table_of k (array _ items t) ns = refl
named_node-table_of k (object children t) ns = refl
named_node-table_of k _ ns = refl

named_node-IsFinal :
    (k : Bytes) (v : Value) (ns : Nodes)
    → IsFinalValue v
    → IsFinal ns
    → IsFinal (cons (named_node k v) ns)
unfolding named_node
named_node-IsFinal k (array ValueType.object items t) ns hv hs = (hv, hs)
named_node-IsFinal k (array _ items t) ns hv hs = (hv, hs)
named_node-IsFinal k (object children t) ns hv hs = (refl, hv, hs)
named_node-IsFinal k _ ns hv hs = (hv, hs)

named_node-nest : (k : Bytes) (v : Value) → nest_node (named_node k v) ≡ nest_value v
unfolding named_node
named_node-nest k (array ValueType.object items t) = refl
named_node-nest k (array _ items t) = refl
named_node-nest k _ = refl

-- The value that stands for data has that data, is final, and nests as deep.
mutual
  unfolding value_of_data

  value_restored : (d : Data) → data_of (value_of_data d) ≡ d
  value_restored (list xs) = ap list (values_restored xs)
  value_restored (table t) = ap table (nodes_restored t)
  value_restored _ = refl

  values_restored : (xs : Datas) → datas_of (values_of xs) ≡ xs
  values_restored no_data = refl
  values_restored (datum x xs) = ap₂ datum (value_restored x) (values_restored xs)

  pub nodes_restored : (t : Table) → table_of (nodes_of t) ≡ t
  nodes_restored no_entry = refl
  nodes_restored (entry k x t) =
      named_node-table_of k (value_of_data x) (nodes_of t)
      ∙ ap₂ (entry k) (value_restored x) (nodes_restored t)

mutual
  unfolding value_of_data

  value_IsFinal : (d : Data) → IsFinalValue (value_of_data d)
  value_IsFinal (list xs) = values_IsFinal xs
  value_IsFinal (table t) = nodes_IsFinal t
  value_IsFinal _ = tt

  values_IsFinal : (xs : Datas) → IsFinalItems (values_of xs)
  values_IsFinal no_data = tt
  values_IsFinal (datum x xs) = (value_IsFinal x, values_IsFinal xs)

  nodes_IsFinal : (t : Table) → IsFinal (nodes_of t)
  nodes_IsFinal no_entry = tt
  nodes_IsFinal (entry k x t) =
      named_node-IsFinal k (value_of_data x) (nodes_of t) (value_IsFinal x) (nodes_IsFinal t)

mutual
  unfolding value_of_data

  value_nest : (d : Data) → nest_value (value_of_data d) ≡ levels d
  value_nest (list xs) = ap suc (values_nest xs)
  value_nest (table t) = ap suc (nodes_nest t)
  value_nest _ = refl

  values_nest : (xs : Datas) → nest_items (values_of xs) ≡ levels_of xs
  values_nest no_data = refl
  values_nest (datum x xs) = ap₂ max (value_nest x) (values_nest xs)

  pub nodes_nest : (t : Table) → nest_nodes (nodes_of t) ≡ levels_in t
  nodes_nest no_entry = refl
  nodes_nest (entry k x t) =
      ap₂ max (named_node-nest k (value_of_data x) ∙ value_nest x) (nodes_nest t)

-- The document of a table.
abbrev pub encoded_document : Table → Document
encoded_document t = record (new_document []) { children = nodes_of t }

pub to_document-encode_data :
    (t : Table)
    → IsEncodableTable t
    → levels (table t) ≤ 128
    → to_document (encode_data (table t)) ≡ ok (encoded_document t)
unfolding to_document attach attach_value attach_root finish finish_at value_of_data
to_document-encode_data t h hd =
    rw (data_encoded (table t) new_serializer refl h (omega (arith, hd))) refl

-- A table with finite floats and lists of one type, of at most 128 levels, is encoded without an error,
-- and the document decodes as the same table, whatever the options are.
pub to_document-from_document_with :
    (t : Table) (casts : Casts) (options : DecodeOptions)
    → IsEncodableTable t
    → levels (table t) ≤ 128
    → (document : Document) × (to_document (encode_data (table t)) ≡ ok document)
      × (from_document_with (collect casts 256) document options ≡ ok (table t))
to_document-from_document_with t casts options h hd =
    let kept : materialize_nodes (nodes_of t) ≡ nodes_of t =
      (materialize_nodes-IsFinal (nodes_of t)).1.1 (nodes_IsFinal t) in
    (
      encoded_document t,
      to_document-encode_data t h hd,
      from_document_with-collect casts (encoded_document t) options
            (omega (arith, hd, nodes_nest t))
          ∙ ap (λ ns. ok (table (table_of ns))) kept
          ∙ ap (λ u. ok (table u)) (nodes_restored t),
    )
