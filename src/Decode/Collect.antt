-- ===== src/Decode/Collect.antt =====
-- A self-describing target type for the decoder of rust/src/de.rs, as serde's clients write them: its
-- visitor keeps what it is given, and asks for elements and entries until there are none.
use skg.Base.{ℕ, zero, suc, Bool, none, some, Bytes}
use skg.Model.{
  ℤ, pos, Value, Values, no_items, item, Nodes, nil, cons, int, float, bool, string, null, array,
  object, field, block, block_array, delete, empty, length_nodes,
}
use skg.Result.{ok, err, out_of_fuel, bind}
use skg.Decode.Numbers.{Casts}
use skg.Decode.Value.{Decoded, ValueDeserializer, new_error, type_mismatch}
use skg.Decode.Access.{
  SeqDeserializer, MapDeserializer, StrDeserializer, next_element_seed, next_key_seed,
  next_value_seed,
}
use skg.Decode.Visitor.{Visitor, count_of}
use skg.Decode.Visit.{deserialize_any}

mutual
  pub data Data : Type 0 where
    nothing : Data
    truth : Bool → Data
    whole : ℤ → Data
    real : ℕ → Data
    text : Bytes → Data
    list : Datas → Data
    table : Table → Data

  pub data Datas : Type 0 where
    no_data : Datas
    datum : Data → Datas → Datas

  pub data Table : Type 0 where
    no_entry : Table
    entry : Bytes → Data → Table → Table

-- The data of a value: comments, positions and the types of elements are forgotten, and the nodes that
-- carry no value are left out.
abbrev mutual
  pub data_of : Value → Data
  data_of (int n) = whole n
  data_of (float f) = real f
  data_of (bool b) = truth b
  data_of (string s) = text s
  data_of null = nothing
  data_of (array element items t) = list (datas_of items)
  data_of (object children t) = table (table_of children)

  pub datas_of : Values → Datas
  datas_of no_items = no_data
  datas_of (item v vs) = datum (data_of v) (datas_of vs)

  pub table_of : Nodes → Table
  table_of nil = no_entry
  table_of (cons (delete h t) ns) = table_of ns
  table_of (cons empty ns) = table_of ns
  table_of (cons (field h v t) ns) = entry h.key (data_of v) (table_of ns)
  table_of (cons (block h r cs t) ns) = entry h.key (table (table_of cs)) (table_of ns)
  table_of (cons (block_array h xs t) ns) = entry h.key (list (datas_of xs)) (table_of ns)

module _ (seed : ValueDeserializer → Decoded Data) where
  -- The elements from the next on.
  unfoldable pub collect_elements : ℕ → SeqDeserializer → Decoded Datas
  unfolding next_element_seed
  collect_elements zero s = out_of_fuel
  collect_elements (suc f) s =
      let (element, s') = next_element_seed seed s in
      bind element λ o. elim o [
        | none ↦ ok no_data
        | some x ↦ bind (collect_elements f s') λ xs. ok (datum x xs)
      ]

  abbrev key_text : StrDeserializer → Decoded Bytes
  key_text d = ok d.text

  -- The entries from the next on.
  unfoldable pub collect_entries : ℕ → MapDeserializer → Decoded Table
  unfolding next_key_seed next_value_seed
  collect_entries zero m = out_of_fuel
  collect_entries (suc f) m =
      let (key, m') = next_key_seed key_text m in
      bind key λ o. elim o [
        | none ↦ ok no_entry
        | some k ↦
            let (value, m'') = next_value_seed seed m' in
            bind value λ x. bind (collect_entries f m'') λ t. ok (entry k x t)
      ]

  abbrev refused : Decoded Data
  refused = err (new_error type_mismatch)

  unfoldable pub collector : Visitor Data
  unfolding collect_elements collect_entries
  collector = record {
    visit_bool = λ b. ok (truth b);
    visit_signed = λ bits n. ok (whole n);
    visit_unsigned = λ bits n. ok (whole (pos n));
    visit_f32 = λ f. refused;
    visit_f64 = λ f. ok (real f);
    visit_char = λ c. ok (text c);
    visit_borrowed_str = λ s. ok (text s);
    visit_bytes = λ s. refused;
    visit_none = ok nothing;
    visit_some = seed;
    visit_unit = ok nothing;
    visit_newtype_struct = seed;
    visit_seq = λ s. bind (collect_elements (suc (count_of s.items)) s) λ xs. ok (list xs);
    visit_map = λ m. bind (collect_entries (suc (length_nodes m.children)) m) λ t. ok (table t);
    visit_enum = λ access. refused;
  }

-- The target type: a level of the value takes a unit of fuel.
unfoldable pub collect : Casts → ℕ → ValueDeserializer → Decoded Data
unfolding collector deserialize_any
collect casts zero d = out_of_fuel
collect casts (suc f) d = deserialize_any casts (collector (collect casts f)) d
