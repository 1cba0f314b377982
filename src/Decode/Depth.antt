-- ===== src/Decode/Depth.antt =====
-- rust/src/de.rs: how deep the deserializers are that a visitor's seeds are run on.
use skg.Base.{
  ◌+◌, ◌≤◌, [], ◌∷◌, ◌++◌, length, length-append, leb, ◌≡◌, refl, sym, ap, ◌∙◌, arith, Bool-cases,
  inl, inr,
}
use skg.Error.Native.{SourceLocation}
use skg.Decode.Pointer.{Segment, render_path}
use skg.Decode.Value.{
  max_native_nesting_depth, Val, Decoded, ValueDeserializer, child, map_err, located,
}
use skg.Decode.Access.{decode_child}

-- A deserializer for a child: its value and place, and no deeper than the limit.
pub record IsChild (d : ValueDeserializer) (value : Val) (segment : Segment)
    (source : SourceLocation) (c : ValueDeserializer) : Type 0 where
  pub value_is : c.value ≡ value
  pub source_is : c.source ≡ source
  pub options_are : c.options ≡ d.options
  pub segments_are : c.segments ≡ d.segments ++ segment ∷ []
  pub depth_fits : c.depth ≤ max_native_nesting_depth
  pub depth_counts : d.depth ≡ length d.segments → c.depth ≡ length c.segments

-- Two seeds that agree on the deserializers of a child, which have its value, its source and its
-- pointer, and are at most 256 deep, decode the child alike: a seed is run on no other.
pub decode_child-IsChild :
    {T : Type 0} (seed other : ValueDeserializer → Decoded T) (d : ValueDeserializer) (value : Val)
    (segment : Segment) (source : SourceLocation)
    → ((c : ValueDeserializer) → IsChild d value segment source c → seed c ≡ other c)
    → decode_child seed d value segment source ≡ decode_child other d value segment source
unfolding decode_child child
decode_child-IsChild seed other d value segment source agree =
    elim (Bool-cases (leb max_native_nesting_depth d.depth)) [
      | inl deep ↦ rw deep refl
      | inr room ↦ rw room (
          ap (map_err (located (render_path (d.segments ++ segment ∷ [])) source)) (
            agree _ (record {
              value_is = refl;
              source_is = refl;
              options_are = refl;
              segments_are = refl;
              depth_fits = ground (arith, room);
              depth_counts =
                  λ counts. ap (λ n. n + 1) counts ∙ sym (length-append d.segments (segment ∷ []));
            })))
    ]
