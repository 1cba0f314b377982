-- ===== src/Decode/Visit.antt =====
-- rust/src/de.rs: `serde::Deserializer` for ValueDeserializer, on any value, arrays and objects.
use skg.Base.{
  ℕ, Bool, true, false, ◌&&◌, Option, some, List, [], ◌∷◌, Bytes, ◌==◌, nat_eq, if◌then◌else◌,
}
use skg.Model.{Nodes, nil, cons, node_key}
use skg.Result.{err, bind}
use skg.Decode.Pointer.{Segment, key, index}
use skg.Decode.Numbers.{Casts}
use skg.Decode.Value.{
  Val, int_val, float_val, bool_val, str_val, null_val, array_val, object_val, view_node,
  type_mismatch, unknown_field, new_error, Decoded, map_err, fill_struct_error, ValueDeserializer,
  taken, path_at, error_here,
}
use skg.Decode.Access.{
  new_seq, new_map, str_enum, object_enum, VariantAccess, unit_only, object_variant,
  payload_deserializer,
}
use skg.Decode.Visitor.{Visitor, live_nodes, count_of, mismatch}

module _ {V : Type 0} (casts : Casts) (visitor : Visitor V) where
  unfoldable pub any_at : Val → ValueDeserializer → Decoded V
  any_at (int_val n) d = visitor.visit_signed 64 n
  any_at (float_val f) d = visitor.visit_f64 f
  any_at (bool_val b) d = visitor.visit_bool b
  any_at (str_val s) d = visitor.visit_borrowed_str s
  any_at null_val d = visitor.visit_unit
  any_at (array_val items) d = visitor.visit_seq (new_seq (taken d) items)
  any_at (object_val children) d = visitor.visit_map (new_map (taken d) children)

  unfoldable pub deserialize_any : ValueDeserializer → Decoded V
  unfolding any_at
  deserialize_any d = any_at d.value d

  unfoldable pub bytes_at : Val → ValueDeserializer → Decoded V
  unfolding mismatch
  bytes_at (str_val s) d = visitor.visit_bytes s
  bytes_at (array_val items) d = visitor.visit_seq (new_seq (taken d) items)
  bytes_at _ d = mismatch (taken d)

  unfoldable pub deserialize_bytes : ValueDeserializer → Decoded V
  unfolding bytes_at
  deserialize_bytes d = bytes_at d.value d

  abbrev pub deserialize_newtype_struct : ValueDeserializer → Decoded V
  deserialize_newtype_struct d = visitor.visit_newtype_struct d

  unfoldable pub seq_at : Val → ValueDeserializer → Decoded V
  unfolding mismatch
  seq_at (array_val items) d = visitor.visit_seq (new_seq (taken d) items)
  seq_at _ d = mismatch (taken d)

  unfoldable pub deserialize_seq : ValueDeserializer → Decoded V
  unfolding seq_at
  deserialize_seq d = seq_at d.value d

  unfoldable pub tuple_at : ℕ → Val → ValueDeserializer → Decoded V
  unfolding mismatch
  tuple_at len (array_val items) d =
      if count_of items == len
      then visitor.visit_seq (new_seq (taken d) items)
      else mismatch (taken d)
  tuple_at len _ d = mismatch (taken d)

  unfoldable pub deserialize_tuple : ℕ → ValueDeserializer → Decoded V
  unfolding tuple_at
  deserialize_tuple len d = tuple_at len d.value d

  unfoldable pub map_at : Val → ValueDeserializer → Decoded V
  unfolding mismatch
  map_at (object_val children) d = visitor.visit_map (new_map (taken d) children)
  map_at _ d = mismatch (taken d)

  unfoldable pub deserialize_map : ValueDeserializer → Decoded V
  unfolding map_at
  deserialize_map d = map_at d.value d

  unfoldable pub struct_at : Val → ValueDeserializer → Decoded V
  unfolding mismatch fill_struct_error path_at
  struct_at (object_val children) d =
      map_err (fill_struct_error (path_at d) d.source)
        (visitor.visit_map (new_map (taken d) children))
  struct_at _ d = mismatch (taken d)

  unfoldable pub deserialize_struct : ValueDeserializer → Decoded V
  unfolding struct_at
  deserialize_struct d = struct_at d.value d

  -- The entry that `deserialize_enum` finds, with its key and the value that it carries.
  unfoldable pub enum_entry : Option Bytes → Option Val → ValueDeserializer → Decoded V
  unfolding mismatch
  enum_entry (some tag) (some inner) d = visitor.visit_enum (
      object_enum (record {
        tag = tag;
        inner = inner;
        options = d.options;
        source = d.source;
        segments = d.segments;
        depth = d.depth;
      }))
  enum_entry _ _ d = mismatch d

  unfoldable pub enum_of : Nodes → ValueDeserializer → Decoded V
  unfolding mismatch enum_entry node_key view_node
  enum_of (cons node nil) d = enum_entry (node_key node) (view_node node) d
  enum_of _ d = mismatch d

  unfoldable pub enum_at : Val → ValueDeserializer → Decoded V
  unfolding mismatch enum_of live_nodes
  enum_at (str_val tag) d = visitor.visit_enum (str_enum tag)
  enum_at (object_val children) d = enum_of (live_nodes children) d
  enum_at _ d = mismatch d

  unfoldable pub deserialize_enum : ValueDeserializer → Decoded V
  unfolding enum_at
  deserialize_enum d = enum_at d.value d

  -- Whether the last segment is a key.
  abbrev pub ends_in_key : List Segment → Bool
  ends_in_key [] = false
  ends_in_key (key k ∷ []) = true
  ends_in_key (index i ∷ []) = false
  ends_in_key (segment ∷ (other ∷ segments)) = ends_in_key (other ∷ segments)

  unfoldable pub deserialize_ignored_any : ValueDeserializer → Decoded V
  deserialize_ignored_any d =
      if d.options.reject_unknown_fields && ends_in_key d.segments
      then err (error_here unknown_field d)
      else visitor.visit_unit

  -- `struct_variant`
  unfoldable pub struct_variant : VariantAccess → Decoded V
  unfolding payload_deserializer struct_at
  struct_variant unit_only = err (new_error type_mismatch)
  struct_variant (object_variant access) = bind (payload_deserializer access) deserialize_struct
