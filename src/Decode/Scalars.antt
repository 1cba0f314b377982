-- ===== src/Decode/Scalars.antt =====
-- rust/src/de.rs: `serde::Deserializer` for ValueDeserializer, on values without parts.
use skg.Base.{ℕ, suc, Bool, not, ◌&&◌, nat_eq, if◌then◌else◌}
use skg.Model.{pos}
use skg.Result.{err}
use skg.Decode.Numbers.{
  signed_fails, unsigned_fails, as_signed, as_unsigned, int_ltb, integer_exact, is_finite_32,
  f64_beq, Casts,
}
use skg.Decode.Value.{
  Val, int_val, float_val, bool_val, str_val, null_val, number_out_of_range, inexact_number,
  Decoded, ValueDeserializer, error_here,
}
use skg.Decode.Visitor.{Visitor, is_char, mismatch}

module _ {V : Type 0} (casts : Casts) (visitor : Visitor V) where
  unfoldable pub bool_at : Val → ValueDeserializer → Decoded V
  unfolding mismatch
  bool_at (bool_val b) d = visitor.visit_bool b
  bool_at _ d = mismatch d

  unfoldable pub deserialize_bool : ValueDeserializer → Decoded V
  unfolding bool_at
  deserialize_bool d = bool_at d.value d

  -- The macro `deserialize_signed`, at a type with so many bits and one for the sign.
  unfoldable pub signed_at : ℕ → Val → ValueDeserializer → Decoded V
  unfolding mismatch signed_fails as_signed
  signed_at bits (int_val n) d =
      if signed_fails bits n
      then err (error_here number_out_of_range d)
      else visitor.visit_signed (suc bits) (as_signed bits n)
  signed_at bits _ d = mismatch d

  unfoldable pub deserialize_signed : ℕ → ValueDeserializer → Decoded V
  unfolding signed_at
  deserialize_signed bits d = signed_at bits d.value d

  -- The macro `deserialize_unsigned`.
  unfoldable pub unsigned_at : ℕ → Val → ValueDeserializer → Decoded V
  unfolding mismatch unsigned_fails as_unsigned
  unsigned_at bits (int_val n) d =
      if unsigned_fails bits n
      then err (error_here number_out_of_range d)
      else visitor.visit_unsigned bits (as_unsigned bits n)
  unsigned_at bits _ d = mismatch d

  unfoldable pub deserialize_unsigned : ℕ → ValueDeserializer → Decoded V
  unfolding unsigned_at
  deserialize_unsigned bits d = unsigned_at bits d.value d

  unfoldable pub u64_at : Val → ValueDeserializer → Decoded V
  unfolding mismatch as_unsigned
  u64_at (int_val n) d =
      if int_ltb n (pos 0)
      then err (error_here number_out_of_range d)
      else visitor.visit_unsigned 64 (as_unsigned 64 n)
  u64_at _ d = mismatch d

  unfoldable pub deserialize_u64 : ValueDeserializer → Decoded V
  unfolding u64_at
  deserialize_u64 d = u64_at d.value d

  -- A number as an `f32`, and whether it is so exactly.
  unfoldable pub narrowed_at : ValueDeserializer → ℕ → Bool → Decoded V
  unfolding is_finite_32
  narrowed_at d narrowed exact =
      if not (is_finite_32 narrowed)
      then err (error_here number_out_of_range d)
      else if not d.options.allow_lossy_numbers && not exact
      then err (error_here inexact_number d)
      else visitor.visit_f32 narrowed

  unfoldable pub f32_at : Val → ValueDeserializer → Decoded V
  unfolding mismatch narrowed_at f64_beq integer_exact
  f32_at (float_val f) d =
      narrowed_at d (casts.f64_as_f32 f) (f64_beq (casts.f32_as_f64 (casts.f64_as_f32 f)) f)
  f32_at (int_val n) d = narrowed_at d (casts.i64_as_f32 n) (integer_exact n 24)
  f32_at _ d = mismatch d

  unfoldable pub deserialize_f32 : ValueDeserializer → Decoded V
  unfolding f32_at
  deserialize_f32 d = f32_at d.value d

  unfoldable pub f64_at : Val → ValueDeserializer → Decoded V
  unfolding mismatch integer_exact
  f64_at (float_val f) d = visitor.visit_f64 f
  f64_at (int_val n) d =
      if not d.options.allow_lossy_numbers && not (integer_exact n 53)
      then err (error_here inexact_number d)
      else visitor.visit_f64 (casts.i64_as_f64 n)
  f64_at _ d = mismatch d

  unfoldable pub deserialize_f64 : ValueDeserializer → Decoded V
  unfolding f64_at
  deserialize_f64 d = f64_at d.value d

  unfoldable pub char_at : Val → ValueDeserializer → Decoded V
  unfolding mismatch is_char
  char_at (str_val s) d = if is_char s then visitor.visit_char s else mismatch d
  char_at _ d = mismatch d

  unfoldable pub deserialize_char : ValueDeserializer → Decoded V
  unfolding char_at
  deserialize_char d = char_at d.value d

  -- `deserialize_str`, and `deserialize_string` and `deserialize_identifier`, which differ in messages.
  unfoldable pub str_at : Val → ValueDeserializer → Decoded V
  unfolding mismatch
  str_at (str_val s) d = visitor.visit_borrowed_str s
  str_at _ d = mismatch d

  unfoldable pub deserialize_str : ValueDeserializer → Decoded V
  unfolding str_at
  deserialize_str d = str_at d.value d

  unfoldable pub option_at : Val → ValueDeserializer → Decoded V
  option_at null_val d = visitor.visit_none
  option_at _ d = visitor.visit_some d

  unfoldable pub deserialize_option : ValueDeserializer → Decoded V
  unfolding option_at
  deserialize_option d = option_at d.value d

  unfoldable pub unit_at : Val → ValueDeserializer → Decoded V
  unfolding mismatch
  unit_at null_val d = visitor.visit_unit
  unit_at _ d = mismatch d

  unfoldable pub deserialize_unit : ValueDeserializer → Decoded V
  unfolding unit_at
  deserialize_unit d = unit_at d.value d
