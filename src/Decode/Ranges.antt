-- ===== src/Decode/Ranges.antt =====
-- rust/src/de.rs: the range tests before the casts to the integer types.
use skg.Base.{
  ℕ, suc, ◌-◌, ◌*◌, ◌%◌, ◌^◌, ◌<◌, ◌≤◌, false, ◌||◌, ltb, ◌≡◌, ◌≢◌, ◌↔◌, ◌⊎◌, refl, sym, ap, ◌∙◌,
  subst, arith, Bool-cases, inl, inr, if◌then◌else◌,
}
use native.Mathlib.Nat.{pow-succ', one-le-pow, mod-lt, mod-eq_of_lt}
use skg.Model.{ℤ, pos, negsuc}
use skg.Result.{err}
use skg.Decode.Numbers.{signed_fails, unsigned_fails, as_signed, as_unsigned, Casts}
use skg.Decode.Value.{int_val, ValueDeserializer, error_here, number_out_of_range}
use skg.Decode.Visitor.{Visitor}
use skg.Decode.Scalars.{deserialize_signed, deserialize_unsigned, signed_at, unsigned_at}

to_ℕ : ℤ → ℕ
to_ℕ (pos n) = n
to_ℕ (negsuc n) = n

-- The low bits, over the number of values h of half of the type.
wrapped : ℕ → ℕ → ℤ
wrapped h low = if ltb low h then pos low else negsuc (2 * h - 1 - low)

wrapped_small : (h low : ℕ) → low < h → wrapped h low ≡ pos low
unfolding wrapped
wrapped_small h low l = ground arith

wrapped_large : (h low : ℕ) → h ≤ low → wrapped h low ≡ negsuc (2 * h - 1 - low)
unfolding wrapped
wrapped_large h low l = ground arith

wrapped_fits : (h low : ℕ) → low < 2 * h → to_ℕ (wrapped h low) < h
unfolding wrapped to_ℕ
wrapped_fits h low l = ground arith

twice : (h n : ℕ) → n < h → n < 2 * h
twice h n l = omega arith

below : (n m : ℕ) → 1 ≤ m → (ltb n 0 || ltb (m - 1) n) ≡ false → n < m
below n m h passes = ground arith

within_max : (n m : ℕ) → n < m → (ltb n 0 || ltb (m - 1) n) ≡ false
within_max n m h = ground arith

-- What the cast does to an integer, by the number h of values of half of the type.
cast : ℕ → ℤ → ℤ
cast h (pos n) = wrapped h (n % (2 * h))
cast h (negsuc n) = wrapped h (2 * h - 1 - n % (2 * h))

cast_fits : (h : ℕ) (n : ℤ) → 0 < h → to_ℕ (cast h n) < h
unfolding cast
cast_fits h (pos n) l = wrapped_fits h _ (mod-lt n (omega arith))
cast_fits h (negsuc n) l = wrapped_fits h _ (omega arith)

cast_keeps : (h : ℕ) (n : ℤ) → to_ℕ n < h → cast h n ≡ n
unfolding cast to_ℕ
cast_keeps h (pos n) l =
    rw (mod-eq_of_lt (subst (λ m. n < m) refl (twice h n l))) (wrapped_small h n l)
cast_keeps h (negsuc n) l =
    rw (mod-eq_of_lt (twice h n l)) (wrapped_large h _ (omega arith) ∙ ap negsuc (omega arith))

signed_fails-to_ℕ : (bits : ℕ) (n : ℤ) → (signed_fails bits n ≡ false) ↔ (to_ℕ n < 2 ^ bits)
unfolding signed_fails to_ℕ
signed_fails-to_ℕ bits (pos n) = ground (arith, one-le-pow bits 2 (omega arith))
signed_fails-to_ℕ bits (negsuc n) = ground (arith, one-le-pow bits 2 (omega arith))

as_signed-cast : (bits : ℕ) (n : ℤ) → as_signed bits n ≡ cast (2 ^ bits) n
unfolding as_signed cast wrapped
as_signed-cast bits (pos n) = rw (pow-succ' 2 bits) refl
as_signed-cast bits (negsuc n) = rw (pow-succ' 2 bits) refl

-- The range test of a signed type passes exactly the integers that the cast keeps.
pub signed_fails_iff : (bits : ℕ) (n : ℤ) → (signed_fails bits n ≡ false) ↔ (as_signed bits n ≡ n)
signed_fails_iff bits n = (
  (λ passes. as_signed-cast bits n ∙ cast_keeps (2 ^ bits) n ((signed_fails-to_ℕ bits n).0 passes)),
  (λ kept. (signed_fails-to_ℕ bits n).1 (
      subst (λ m. to_ℕ m < 2 ^ bits) (sym (as_signed-cast bits n) ∙ kept)
        (cast_fits (2 ^ bits) n (one-le-pow bits 2 (omega arith))))),
)

-- The range test of an unsigned type passes exactly the integers that the cast keeps.
pub unsigned_fails_iff :
    (bits : ℕ) (n : ℤ) → (unsigned_fails bits n ≡ false) ↔ (pos (as_unsigned bits n) ≡ n)
unfolding unsigned_fails as_unsigned to_ℕ
unsigned_fails_iff bits (pos n) = (
  (λ passes. ap pos (mod-eq_of_lt (below n (2 ^ bits) (one-le-pow bits 2 (omega arith)) passes))),
  (λ kept.
      within_max n (2 ^ bits)
        (subst (λ m. m < 2 ^ bits) (ap to_ℕ kept) (mod-lt n (one-le-pow bits 2 (omega arith))))),
)
unsigned_fails_iff bits (negsuc n) = ground arith

module _ {V : Type 0} (casts : Casts) (visitor : Visitor V) (bits : ℕ) (n : ℤ)
    (d : ValueDeserializer) where
  -- An integer that a signed type holds, which is one that the cast to the type keeps, is visited as it
  -- is; any other is out of range.
  pub deserialize_signed_lem :
      d.value ≡ int_val n
      → ((as_signed bits n ≡ n)
          × (deserialize_signed casts visitor bits d ≡ visitor.visit_signed (suc bits) n))
        ⊎ ((as_signed bits n ≢ n)
            × (deserialize_signed casts visitor bits d ≡ err (error_here number_out_of_range d)))
  unfolding deserialize_signed signed_at
  deserialize_signed_lem at = elim (Bool-cases (signed_fails bits n)) [
    | inl fails ↦ inr (
      (λ kept. let passes = (signed_fails_iff bits n).1 kept in cc),
      rw (at, signed_at, fails) refl,
    )
    | inr passes ↦
        let kept = (signed_fails_iff bits n).0 passes in
        inl (kept, rw (at, signed_at, passes, kept) refl)
  ]

  -- An integer that an unsigned type holds, which is one that the cast to the type keeps, is visited as
  -- it is; any other is out of range.
  pub deserialize_unsigned_lem :
      d.value ≡ int_val n
      → ((pos (as_unsigned bits n) ≡ n)
          × (deserialize_unsigned casts visitor bits d
              ≡ visitor.visit_unsigned bits (as_unsigned bits n)))
        ⊎ ((pos (as_unsigned bits n) ≢ n)
            × (deserialize_unsigned casts visitor bits d ≡ err (error_here number_out_of_range d)))
  unfolding deserialize_unsigned unsigned_at
  deserialize_unsigned_lem at = elim (Bool-cases (unsigned_fails bits n)) [
    | inl fails ↦ inr (
      (λ kept. let passes = (unsigned_fails_iff bits n).1 kept in cc),
      rw (at, unsigned_at, fails) refl,
    )
    | inr passes ↦ inl ((unsigned_fails_iff bits n).0 passes, rw (at, unsigned_at, passes) refl)
  ]
