-- ===== src/Decode/Access.antt =====
-- rust/src/de.rs: what a visitor is given to read arrays, objects and enum tags with. A seed is the
-- function that it deserializes an element with.
use skg.Base.{
  ℕ, ◌+◌, Bool, true, false, Option, none, some, List, [], ◌∷◌, ◌++◌, Bytes, leb, if◌then◌else◌,
}
use skg.Error.Native.{SourceLocation}
use skg.Model.{
  Values, no_items, item, Node, Nodes, nil, cons, field, block, block_array, delete, empty,
  node_key,
}
use skg.Result.{ok, err, out_of_fuel, bind}
use skg.Decode.Pointer.{Segment, key, index, render_path, escape_key}
use skg.Decode.Value.{
  max_native_nesting_depth, DecodeOptions, Val, object_val, view_value, view_node, node_location,
  type_mismatch, unsupported_type, nesting_too_deep, new_error, or_default, located, Decoded,
  map_err, ValueDeserializer, error_here, child,
}

abbrev pub map_ok {ℓ κ} : {A : Type ℓ} {B : Type κ} → (A → B) → Decoded A → Decoded B
map_ok f m = bind m λ a. ok (f a)

-- The items are those from the index on.
pub record SeqDeserializer : Type 0 where
  pub de : ValueDeserializer
  pub items : Values
  pub next_index : ℕ

abbrev pub new_seq : ValueDeserializer → Values → SeqDeserializer
new_seq d items = record { de = d; items = items; next_index = 0 }

-- The children are those from the index on.
pub record MapDeserializer : Type 0 where
  pub de : ValueDeserializer
  pub children : Nodes

abbrev pub new_map : ValueDeserializer → Nodes → MapDeserializer
new_map d children = record { de = d; children = children }

-- Deserializer for object keys, field names and enum tags.
pub record StrDeserializer : Type 0 where
  pub text : Bytes

module _ {T : Type 0} (seed : ValueDeserializer → Decoded T) where
  -- An element, or an error of it at its pointer.
  unfoldable pub decode_child : ValueDeserializer → Val → Segment → SourceLocation → Decoded T
  unfolding child render_path located
  decode_child d value segment source =
      bind (child d value segment source)
        λ c. map_err (located (render_path (d.segments ++ segment ∷ [])) source) (seed c)

  -- `next_element_seed`
  unfoldable pub next_element : Values → SeqDeserializer → Decoded (Option T) × SeqDeserializer
  unfolding decode_child view_value
  next_element no_items s = (ok none, s)
  next_element (item v vs) s = (
    map_ok some (decode_child s.de (view_value v) (index s.next_index) s.de.source),
    record s { items = vs; next_index = s.next_index + 1 },
  )

  unfoldable pub next_element_seed : SeqDeserializer → Decoded (Option T) × SeqDeserializer
  unfolding next_element
  next_element_seed s = next_element s.items s

  -- `next_value_seed` on a node that carries a value, if it does.
  unfoldable pub value_of : ValueDeserializer → Node → Option Val → Decoded T
  unfolding decode_child node_key node_location
  value_of d node none = err (error_here type_mismatch d)
  value_of d node (some value) =
      decode_child d value (key (or_default (node_key node) [])) (node_location node)

  -- `next_value_seed`: out of range, where the source panics, it has no result.
  unfoldable pub next_value : Nodes → MapDeserializer → Decoded T × MapDeserializer
  unfolding value_of view_node
  next_value nil m = (out_of_fuel, m)
  next_value (cons node nodes) m =
      (value_of m.de node (view_node node), record m { children = nodes })

  unfoldable pub next_value_seed : MapDeserializer → Decoded T × MapDeserializer
  unfolding next_value
  next_value_seed m = next_value m.children m

-- The nodes from the first on that is no deletion and not empty.
unfoldable pub skip_dead : Nodes → Nodes
skip_dead nil = nil
skip_dead (cons (delete h t) ns) = skip_dead ns
skip_dead (cons empty ns) = skip_dead ns
skip_dead (cons (field h v t) ns) = cons (field h v t) ns
skip_dead (cons (block h r cs t) ns) = cons (block h r cs t) ns
skip_dead (cons (block_array h xs t) ns) = cons (block_array h xs t) ns

module _ {K : Type 0} (seed : StrDeserializer → Decoded K) where
  unfoldable pub key_of : Nodes → Decoded (Option K)
  unfolding node_key
  key_of nil = ok none
  key_of (cons node nodes) = map_ok some (seed (record { text = or_default (node_key node) [] }))

  unfoldable pub next_key_seed : MapDeserializer → Decoded (Option K) × MapDeserializer
  unfolding skip_dead key_of
  next_key_seed m = let live = skip_dead m.children in (key_of live, record m { children = live })

pub record ObjectEnumAccess : Type 0 where
  pub tag : Bytes
  pub inner : Val
  pub options : DecodeOptions
  pub source : SourceLocation
  pub segments : List Segment
  pub depth : ℕ

-- `StrEnumAccess` and `ObjectEnumAccess`.
pub data EnumAccess : Type 0 where
  str_enum : Bytes → EnumAccess
  object_enum : ObjectEnumAccess → EnumAccess

-- `UnitOnly` and `ObjectEnumAccess`.
pub data VariantAccess : Type 0 where
  unit_only : VariantAccess
  object_variant : ObjectEnumAccess → VariantAccess

unfoldable pub variant_seed :
    {T : Type 0} → (StrDeserializer → Decoded T) → EnumAccess → Decoded (T × VariantAccess)
variant_seed seed (str_enum tag) = map_ok (λ t. (t, unit_only)) (seed (record { text = tag }))
variant_seed seed (object_enum access) =
    map_ok (λ t. (t, object_variant access)) (seed (record { text = access.tag }))

-- Whether a node is neither a deletion nor empty.
abbrev pub is_live : Node → Bool
is_live (delete h t) = false
is_live empty = false
is_live _ = true

unfoldable pub any_live : Nodes → Bool
any_live nil = false
any_live (cons node nodes) = if is_live node then true else any_live nodes

unfoldable pub has_payload : Val → Bool
unfolding any_live
has_payload (object_val children) = any_live children
has_payload _ = true

unfoldable pub unit_variant : VariantAccess → Decoded (Unit {0})
unfolding has_payload render_path escape_key located
unit_variant unit_only = ok tt
unit_variant (object_variant access) =
    if has_payload access.inner
    then err (
        located (render_path access.segments ++ b'/' ∷ escape_key access.tag) access.source
          (new_error type_mismatch))
    else ok tt

-- `payload_deserializer`
unfoldable pub payload_deserializer : ObjectEnumAccess → Decoded ValueDeserializer
unfolding located render_path
payload_deserializer access =
    if leb max_native_nesting_depth access.depth
    then err (located (render_path access.segments) access.source (new_error nesting_too_deep))
    else ok (record {
      value = access.inner;
      options = access.options;
      source = access.source;
      segments = access.segments ++ key access.tag ∷ [];
      depth = access.depth + 1;
    })

unfoldable pub newtype_variant_seed :
    {T : Type 0} → (ValueDeserializer → Decoded T) → VariantAccess → Decoded T
unfolding payload_deserializer
newtype_variant_seed seed unit_only = err (new_error type_mismatch)
newtype_variant_seed seed (object_variant access) = bind (payload_deserializer access) seed

unfoldable pub tuple_variant : {T : Type 0} → VariantAccess → Decoded T
tuple_variant unit_only = err (new_error type_mismatch)
tuple_variant (object_variant access) = err (new_error unsupported_type)
