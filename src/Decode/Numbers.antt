-- ===== src/Decode/Numbers.antt =====
-- rust/src/de.rs: the tests and casts of numbers. An `f64` is its bit pattern, as an `f32` is.
use skg.Base.{
  ℕ, zero, suc, ◌+◌, ◌-◌, ◌/◌, ◌%◌, ◌^◌, Bool, true, false, not, ◌&&◌, ◌||◌, ltb, leb, ◌==◌, nat_eq,
  if◌then◌else◌,
}
use skg.Model.{ℤ, pos, negsuc}

-- `<` on integers.
abbrev pub int_ltb : ℤ → ℤ → Bool
int_ltb (pos m) (pos n) = ltb m n
int_ltb (pos m) (negsuc n) = false
int_ltb (negsuc m) (pos n) = true
int_ltb (negsuc m) (negsuc n) = ltb n m

-- The bounds of the signed and the unsigned types, by the number of their bits less one or their bits.
abbrev pub signed_min : ℕ → ℤ
signed_min bits = negsuc (2 ^ bits - 1)

abbrev pub max_of : ℕ → ℤ
max_of bits = pos (2 ^ bits - 1)

-- The low bits of an integer in two's complement.
abbrev pub low_bits : ℕ → ℤ → ℕ
low_bits bits (pos n) = n % 2 ^ bits
low_bits bits (negsuc n) = 2 ^ bits - 1 - n % 2 ^ bits

-- `n as i..`, into a type with one bit more for the sign.
unfoldable pub as_signed : ℕ → ℤ → ℤ
as_signed bits n =
    let low = low_bits (suc bits) n in
    if ltb low (2 ^ bits) then pos low else negsuc (2 ^ suc bits - 1 - low)

-- `n as u..`
unfoldable pub as_unsigned : ℕ → ℤ → ℕ
as_unsigned bits n = low_bits bits n

-- The range tests before the casts.
unfoldable pub signed_fails : ℕ → ℤ → Bool
signed_fails bits n = int_ltb n (signed_min bits) || int_ltb (max_of bits) n

unfoldable pub unsigned_fails : ℕ → ℤ → Bool
unsigned_fails bits n = int_ltb n (pos 0) || int_ltb (max_of bits) n

-- `unsigned_abs`
abbrev pub unsigned_abs : ℤ → ℕ
unsigned_abs (pos n) = n
unsigned_abs (negsuc n) = n + 1

-- How many bits a number of at most so many bits needs.
unfoldable pub bit_length : ℕ → ℕ → ℕ
bit_length zero n = 0
bit_length (suc bits) n = let rest = bit_length bits (n / 2) in if n == 0 then 0 else suc rest

-- `u64::leading_zeros`
unfoldable pub leading_zeros : ℕ → ℕ
unfolding bit_length
leading_zeros n = 64 - bit_length 64 n

-- `trailing_zeros` of a number of so many bits.
unfoldable pub low_zeros : ℕ → ℕ → ℕ
low_zeros zero n = 0
low_zeros (suc bits) n = let rest = low_zeros bits (n / 2) in if n % 2 == 1 then 0 else suc rest

-- `needed <= 0 || trailing_zeros >= needed`, where a needed that is negative is 0 here.
unfoldable pub integer_exact : ℤ → ℕ → Bool
unfolding leading_zeros low_zeros
integer_exact n precision =
    let magnitude = unsigned_abs n in
    let needed = 64 - leading_zeros magnitude - precision in
    leb needed 0 || leb needed (low_zeros 64 magnitude)

-- `f32::is_finite`
unfoldable pub is_finite_32 : ℕ → Bool
is_finite_32 bits = ltb bits (2 ^ 32) && not (bits / 2 ^ 23 % 2 ^ 8 == 2 ^ 8 - 1)

abbrev is_nan : ℕ → Bool
is_nan bits = (bits / 2 ^ 52 % 2 ^ 11 == 2 ^ 11 - 1) && not (bits % 2 ^ 52 == 0)

-- `==` on `f64`: no NaN is equal to anything, and the two zeros are equal.
unfoldable pub f64_beq : ℕ → ℕ → Bool
f64_beq a b = not (is_nan a) && not (is_nan b) && (a == b || (a % 2 ^ 63 == 0 && b % 2 ^ 63 == 0))

-- The conversions of the language between number types, on bit patterns.
pub record Casts : Type 0 where
  pub f64_as_f32 : ℕ → ℕ
  pub f32_as_f64 : ℕ → ℕ
  pub i64_as_f32 : ℤ → ℕ
  pub i64_as_f64 : ℤ → ℕ
