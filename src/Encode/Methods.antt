-- ===== src/Encode/Methods.antt =====
-- rust/src/ser.rs: `serde::Serializer` for Serializer, and what serde builds containers with.
use skg.Base.{
  ℕ, ◌+◌, ◌^◌, Bool, true, false, not, Option, none, some, List, [], ◌∷◌, Bytes, ltb, leb,
  if◌then◌else◌,
}
use skg.Model.{
  ℤ, pos, ValueType, Value, Values, int, float, bool, string, null, array, no_items, item,
}
use skg.Parser.Text.{is_finite}
use skg.Result.{ok, err, bind}
use skg.Decode.Numbers.{Casts}
use skg.Encode.{
  invalid_value, unsupported, max_depth, Frame, array_frame, map_frame, new_serializer, Serialize,
  attach, enter, set_key, single_entry, finish_variant, on_failure, Serializer,
}

unfoldable pub serialize_bool : Bool → Serialize
unfolding attach
serialize_bool v = attach (bool v)

-- `serialize_i8` to `serialize_i64`.
unfoldable pub serialize_signed : ℤ → Serialize
unfolding attach
serialize_signed v = attach (int v)

-- `serialize_u8` to `serialize_u32`.
unfoldable pub serialize_unsigned : ℕ → Serialize
unfolding attach
serialize_unsigned v = attach (int (pos v))

unfoldable pub serialize_u64 : ℕ → Serialize
unfolding attach
serialize_u64 v s = if leb (2 ^ 63) v then err (invalid_value, s) else attach (int (pos v)) s

unfoldable pub serialize_f64 : ℕ → Serialize
unfolding attach is_finite
serialize_f64 v s = if not (is_finite v) then err (invalid_value, s) else attach (float v) s

unfoldable pub serialize_f32 : Casts → ℕ → Serialize
unfolding serialize_f64
serialize_f32 casts v = serialize_f64 (casts.f32_as_f64 v)

-- `serialize_char` and `serialize_str`.
unfoldable pub serialize_str : Bytes → Serialize
unfolding attach
serialize_str v = attach (string v)

abbrev pub byte_items : Bytes → Values
byte_items [] = no_items
byte_items (b ∷ bs) = item (int (pos b)) (byte_items bs)

unfoldable pub serialize_bytes : Bytes → Serialize
unfolding attach
serialize_bytes v = attach (array ValueType.int (byte_items v) [])

-- `serialize_none`, `serialize_unit` and `serialize_unit_struct`.
unfoldable pub serialize_unit : Serialize
unfolding attach
serialize_unit = attach null

-- `serialize_some` and `serialize_newtype_struct`.
unfoldable pub serialize_some : Serialize → Serialize
serialize_some value = value

unfoldable pub serialize_unit_variant : Bytes → Serialize
unfolding attach
serialize_unit_variant variant = attach (string variant)

unfoldable pub attach_payload : Bytes → Option Value → Serialize
unfolding attach single_entry
attach_payload variant none s = err (invalid_value, s)
attach_payload variant (some payload) s = attach (single_entry variant payload) s

unfoldable pub serialize_newtype_variant : Bytes → Serialize → Serialize
unfolding attach_payload
serialize_newtype_variant variant value s =
    if ltb max_depth (s.depth + 1)
    then err (unsupported, s)
    else bind (on_failure (λ _. s) (value (record new_serializer { depth = s.depth + 1 })))
        λ scratch. attach_payload variant scratch.root s

-- `serialize_seq`, `serialize_tuple` and `serialize_tuple_struct`.
unfoldable pub serialize_seq : Serialize
unfolding enter
serialize_seq = enter (array_frame no_items)

-- `serialize_tuple_variant`, and its fields and end.
unfoldable pub serialize_tuple_variant : Serialize
serialize_tuple_variant s = err (unsupported, s)

unfoldable pub serialize_map : Serialize
unfolding enter
serialize_map = enter (map_frame [] none true)

unfoldable pub serialize_struct : Serialize
unfolding enter
serialize_struct = enter (map_frame [] none false)

unfoldable pub serialize_struct_variant : Bytes → Serialize
unfolding enter
serialize_struct_variant variant s =
    bind (enter (map_frame [] none false) s)
      λ s'. ok (record s' { pending_variants = variant ∷ s'.pending_variants })

-- `serialize_element`, and the field of a tuple struct and the value of a map.
unfoldable pub serialize_element : Serialize → Serialize
serialize_element value = value

abbrev no_key_slot : Serializer → Serializer
no_key_slot s = record s { key_slot = false }

unfoldable pub serialize_key : Serialize → Serialize
serialize_key value s =
    bind (on_failure no_key_slot (value (record s { key_slot = true }))) λ s'. ok (no_key_slot s')

-- The field of a struct and of a struct variant.
unfoldable pub serialize_field : Bytes → Serialize → Serialize
unfolding set_key
serialize_field k value s = bind (set_key s.stack k s) value

unfoldable pub without_key : List Frame → List Frame
without_key (map_frame entries pending sort ∷ frames) = map_frame entries none sort ∷ frames
without_key frames = frames

unfoldable pub skip_field : Serialize
unfolding without_key
skip_field s = ok (record s { stack = without_key s.stack })

-- The `end` of a struct variant.
unfoldable pub end_variant : Serialize
unfolding finish_variant
end_variant = finish_variant
