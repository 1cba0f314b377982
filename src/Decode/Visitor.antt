-- ===== src/Decode/Visitor.antt =====
-- rust/src/de.rs: serde's visitors, and what the methods of the deserializer share.
use skg.Base.{ℕ, suc, ◌/◌, Bool, false, [], ◌∷◌, Bytes, ◌==◌, nat_eq, if◌then◌else◌, all}
use skg.Model.{ℤ, Values, no_items, item, Nodes, nil, cons}
use skg.Result.{err}
use skg.Decode.Value.{type_mismatch, Decoded, ValueDeserializer, error_here}
use skg.Decode.Access.{SeqDeserializer, MapDeserializer, EnumAccess, is_live}

-- serde's trait `Visitor`; an integer method is named by the number of bits.
pub record Visitor (V : Type 0) : Type 0 where
  pub visit_bool : Bool → Decoded V
  pub visit_signed : ℕ → ℤ → Decoded V
  pub visit_unsigned : ℕ → ℕ → Decoded V
  pub visit_f32 : ℕ → Decoded V
  pub visit_f64 : ℕ → Decoded V
  pub visit_char : Bytes → Decoded V
  pub visit_borrowed_str : Bytes → Decoded V
  pub visit_bytes : Bytes → Decoded V
  pub visit_none : Decoded V
  pub visit_some : ValueDeserializer → Decoded V
  pub visit_unit : Decoded V
  pub visit_newtype_struct : ValueDeserializer → Decoded V
  pub visit_seq : SeqDeserializer → Decoded V
  pub visit_map : MapDeserializer → Decoded V
  pub visit_enum : EnumAccess → Decoded V

-- Whether a byte goes on with the character before it.
abbrev goes_on : ℕ → Bool
goes_on c = c / 64 == 2

-- Whether a text is one character: a byte that begins one, and bytes that go on. A character is the
-- list of its bytes.
unfoldable pub is_char : Bytes → Bool
is_char [] = false
is_char (c ∷ cs) = all goes_on cs

unfoldable pub live_nodes : Nodes → Nodes
live_nodes nil = nil
live_nodes (cons node nodes) =
    let rest = live_nodes nodes in if is_live node then cons node rest else rest

abbrev pub count_of : Values → ℕ
count_of no_items = 0
count_of (item v vs) = suc (count_of vs)

-- `number_mismatch`, and `type_error` with whatever message.
unfoldable pub mismatch : {V : Type 0} → ValueDeserializer → Decoded V
unfolding error_here
mismatch d = err (error_here type_mismatch d)
