-- ===== src/Encode/Client.antt =====
-- The self-describing type as a client of the encoder of rust/src/ser.rs, and the value that it stands
-- for.
use skg.Base.{ℕ, suc, max, true, [], ◌≡◌}
use skg.Model.{
  Value, Values, Nodes, int, float, bool, string, null, array, object, no_items, item, nil, cons,
}
use skg.Parser.Text.{is_finite}
use skg.Result.{bind, ok}
use skg.Decode.Collect.{
  Data, Datas, Table, nothing, truth, whole, real, text, list, table, no_data, datum, no_entry,
  entry,
}
use skg.Encode.{Serialize, array_element_type, named_node, homogeneous_from, end_frame}
use skg.Encode.Methods.{
  serialize_unit, serialize_bool, serialize_signed, serialize_f64, serialize_str, serialize_seq,
  serialize_struct, serialize_element, serialize_field,
}
use mathlib.Core.Option.{none}

-- A list is serialized as a sequence, and a table as a struct of its entries.
unfoldable mutual
  unfolding serialize_unit serialize_bool serialize_signed serialize_f64 serialize_str serialize_seq
      serialize_struct serialize_element serialize_field end_frame

  pub encode_data : Data → Serialize
  encode_data nothing s = serialize_unit s
  encode_data (truth b) s = serialize_bool b s
  encode_data (whole n) s = serialize_signed n s
  encode_data (real f) s = serialize_f64 f s
  encode_data (text t) s = serialize_str t s
  encode_data (list xs) s = bind (bind (serialize_seq s) (encode_items xs)) end_frame
  encode_data (table t) s = bind (bind (serialize_struct s) (encode_fields t)) end_frame

  pub encode_items : Datas → Serialize
  encode_items no_data s = ok s
  encode_items (datum x xs) s = bind (serialize_element (encode_data x) s) (encode_items xs)

  pub encode_fields : Table → Serialize
  encode_fields no_entry s = ok s
  encode_fields (entry k x t) s = bind (serialize_field k (encode_data x) s) (encode_fields t)

unfoldable mutual
  unfolding array_element_type named_node

  pub value_of_data : Data → Value
  value_of_data nothing = null
  value_of_data (truth b) = bool b
  value_of_data (whole n) = int n
  value_of_data (real f) = float f
  value_of_data (text t) = string t
  value_of_data (list xs) = array (array_element_type (values_of xs)) (values_of xs) []
  value_of_data (table t) = object (nodes_of t) []

  pub values_of : Datas → Values
  values_of no_data = no_items
  values_of (datum x xs) = item (value_of_data x) (values_of xs)

  pub nodes_of : Table → Nodes
  nodes_of no_entry = nil
  nodes_of (entry k x t) = cons (named_node k (value_of_data x)) (nodes_of t)

-- What the grammar can say: finite floats, and lists of one type and nulls.
abbrev mutual
  pub IsEncodable : Data → Type 0
  IsEncodable (real f) = is_finite f ≡ true
  IsEncodable (list xs) = (homogeneous_from none (values_of xs) ≡ true) × AreEncodable xs
  IsEncodable (table t) = IsEncodableTable t
  IsEncodable _ = Unit {0}

  pub AreEncodable : Datas → Type 0
  AreEncodable no_data = Unit {0}
  AreEncodable (datum x xs) = IsEncodable x × AreEncodable xs

  pub IsEncodableTable : Table → Type 0
  IsEncodableTable no_entry = Unit {0}
  IsEncodableTable (entry k x t) = IsEncodable x × IsEncodableTable t

-- The levels of lists and tables.
abbrev mutual
  pub levels : Data → ℕ
  levels (list xs) = suc (levels_of xs)
  levels (table t) = suc (levels_in t)
  levels _ = 0

  pub levels_of : Datas → ℕ
  levels_of no_data = 0
  levels_of (datum x xs) = max (levels x) (levels_of xs)

  pub levels_in : Table → ℕ
  levels_in no_entry = 0
  levels_in (entry k x t) = max (levels x) (levels_in t)
