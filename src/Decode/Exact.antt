-- ===== src/Decode/Exact.antt =====
-- rust/src/de.rs: `integer_exact`.
use skg.Base.{
  ℕ, zero, suc, ◌+◌, ◌-◌, ◌*◌, ◌/◌, ◌%◌, ◌^◌, ◌<◌, ◌≤◌, true, false, ◌||◌, leb, ◌==◌, nat_eq, ◌≡◌,
  ◌↔◌, sym, ap, ◌∙◌, subst, arith, Bool-cases, inl, inr, ◌⊎◌,
}
use native.Mathlib.Nat.{
  pow-succ', one-le-pow, mul_left_comm, mul-lt-mul_of_pos_right, mul_assoc, lt_of_mul-lt-mul_right,
}
use skg.Model.{ℤ}
use skg.Decode.Numbers.{unsigned_abs, bit_length, low_zeros, integer_exact}

double : (n : ℕ) → 2 ^ suc n ≡ 2 * 2 ^ n
double n = pow-succ' 2 n

times_double : (m e : ℕ) → m * 2 ^ suc e ≡ 2 * (m * 2 ^ e)
times_double m e = ap (λ p. m * p) (double e) ∙ mul_left_comm m 2 (2 ^ e)

bit_length_lt : (f n b : ℕ) → n < 2 ^ f → bit_length f n ≤ b → n < 2 ^ b
unfolding bit_length
bit_length_lt zero n b h hb = omega (arith, one-le-pow b 2 (omega arith))
bit_length_lt (suc f) n zero h hb = ground arith
bit_length_lt (suc f) n (suc b) h hb = elim (Bool-cases (n == 0)) [
  | inl none_set ↦ ground (arith, one-le-pow (suc b) 2 (omega arith))
  | inr some_set ↦
      let below = bit_length_lt f (n / 2) b (omega (arith, double f)) (ground arith) in
      omega (arith, double b)
]

-- A number needs at most b bits where it is below 2 ^ b.
lt_bit_length : (f n b : ℕ) → n < 2 ^ b → bit_length f n ≤ b
unfolding bit_length
lt_bit_length zero n b h = omega arith
lt_bit_length (suc f) n zero h = ground arith
lt_bit_length (suc f) n (suc b) h =
    let rest = lt_bit_length f (n / 2) b (omega (arith, double b)) in ground arith

half : (n k : ℕ) → n ≡ 2 * k → n / 2 ≡ k
half n k h = omega arith

even : (n k : ℕ) → n ≡ 2 * k → (n % 2 == 1) ≡ false
even n k h = ground arith

halved : (n k : ℕ) → n / 2 ≡ k → n % 2 ≡ 0 → n ≡ 2 * k
halved n k h e = omega arith

even_of : (n : ℕ) → (n % 2 == 1) ≡ false → n % 2 ≡ 0
even_of n h = ground arith

low_zeros_divides : (f n : ℕ) → (q : ℕ) × (n ≡ q * 2 ^ low_zeros f n)
unfolding low_zeros
low_zeros_divides zero n = (n, omega arith)
low_zeros_divides (suc f) n = elim (Bool-cases (n % 2 == 1)) [
  | inl odd ↦ (n, rw odd (omega arith))
  | inr twofold ↦
      let (q, e) = low_zeros_divides f (n / 2) in
      (q, rw twofold (halved n _ e (even_of n twofold) ∙ sym (times_double q _)))
]

low_zeros_most : (f n m e : ℕ) → n ≡ m * 2 ^ e → 0 < n → n < 2 ^ f → e ≤ low_zeros f n
unfolding low_zeros
low_zeros_most f n m zero h hn hf = omega arith
low_zeros_most zero n m (suc e) h hn hf = absurd (omega arith)
low_zeros_most (suc f) n m (suc e) h hn hf =
    let twice : n ≡ 2 * (m * 2 ^ e) = h ∙ times_double m e in
    let rest =
      low_zeros_most f (n / 2) m e (half n _ twice) (omega arith) (omega (arith, double f)) in
    rw (even n _ twice) (omega (arith, rest))

-- A number is a significand of at most p bits, scaled.
abbrev pub Scaled : ℕ → ℕ → Type 0
Scaled p n = (m : ℕ) × (e : ℕ) × (n ≡ m * 2 ^ e) × (m < 2 ^ p)

pow_add : (m n : ℕ) → 2 ^ (m + n) ≡ 2 ^ m * 2 ^ n
pow_add m zero = let whole : m + 0 ≡ m = omega arith in rw whole (omega arith)
pow_add m (suc n) =
    ap (λ k. 2 ^ k) (omega arith)
    ∙ double (m + n)
    ∙ ap (λ p. 2 * p) (pow_add m n)
    ∙ mul_left_comm 2 (2 ^ m) (2 ^ n)
    ∙ ap (λ p. 2 ^ m * p) (sym (double n))

-- The scale in two parts.
rescaled : (q t k : ℕ) → k ≤ t → q * 2 ^ t ≡ q * 2 ^ (t - k) * 2 ^ k
rescaled q t k h =
    ap (λ s. q * 2 ^ s) (omega arith)
    ∙ ap (λ s. q * s) (pow_add (t - k) k)
    ∙ sym (mul_assoc q (2 ^ (t - k)) (2 ^ k))

scaled_below : (m e p : ℕ) → m < 2 ^ p → m * 2 ^ e < 2 ^ (p + e)
scaled_below m e p h = rw (pow_add p e) (mul-lt-mul_of_pos_right h (one-le-pow e 2 (omega arith)))

bits_enough : (n p : ℕ) → n < 2 ^ 64 → bit_length 64 n ≤ p → Scaled p n
bits_enough n p h hp = (n, 0, omega arith, bit_length_lt 64 n p h hp)

zeros_enough :
    (n p : ℕ) → n < 2 ^ 64 → p < bit_length 64 n → bit_length 64 n - p ≤ low_zeros 64 n → Scaled p n
zeros_enough n p h hp hz =
    let k : ℕ = bit_length 64 n - p in
    let (q, e) = low_zeros_divides 64 n in
    let split : n ≡ q * 2 ^ (low_zeros 64 n - k) * 2 ^ k = e ∙ rescaled q (low_zeros 64 n) k hz in
    let below : n < 2 ^ (p + k) = bit_length_lt 64 n (p + k) h (omega (arith, hp)) in
    (
      q * 2 ^ (low_zeros 64 n - k),
      k,
      split,
      lt_of_mul-lt-mul_right (2 ^ k)
          (subst (λ x. x < 2 ^ p * 2 ^ k) split (subst (λ x. n < x) (pow_add p k) below)),
    )

positive : (n p : ℕ) → p < bit_length 64 n → 0 < n
positive zero p hp = absurd (omega (arith, hp, lt_bit_length 64 0 p (one-le-pow p 2 (omega arith))))
positive (suc n) p hp = omega arith

zeros_needed :
    (n p : ℕ) → n < 2 ^ 64 → p < bit_length 64 n → Scaled p n → bit_length 64 n - p ≤ low_zeros 64 n
zeros_needed n p h hp (m, e, scaled, fits) =
    let below : n < 2 ^ (p + e) =
      subst (λ x. x < 2 ^ (p + e)) (sym scaled) (scaled_below m e p fits) in
    let bits = lt_bit_length 64 n (p + e) below in
    let some_bit : 0 < n = positive n p hp in
    omega (arith, low_zeros_most 64 n m e scaled some_bit h, bits)

le_or_lt : (a b : ℕ) → (a ≤ b) ⊎ (b < a)
le_or_lt a b = elim (Bool-cases (leb a b)) [
  | inl fits ↦ inl (ground (arith, fits))
  | inr more ↦ inr (ground (arith, more))
]

-- The test, on the number of bits and the number of low zeros.
test_iff :
    (b p z : ℕ)
    → b ≤ 64
    → ((leb (64 - (64 - b) - p) 0 || leb (64 - (64 - b) - p) z) ≡ true) ↔ (p < b → b - p ≤ z)
test_iff b p z h =
    let needed : 64 - (64 - b) - p ≡ b - p = omega arith in
    rw needed (
      (λ on more. ground arith),
      (λ k. elim (Bool-cases (leb b p)) [
        | inl fits ↦ ground (arith, fits)
        | inr long ↦ let fits = k (ground (arith, long)) in ground (arith, fits)
      ]),
    )

-- `integer_exact` holds of an integer whose magnitude has at most 64 bits exactly where the magnitude is
-- a number of at most `precision` bits, scaled by a power of two.
pub integer_exact_iff :
    (n : ℤ) (precision : ℕ)
    → unsigned_abs n < 2 ^ 64
    → (integer_exact n precision ≡ true) ↔ Scaled precision (unsigned_abs n)
unfolding integer_exact
integer_exact_iff n precision h =
    let size = unsigned_abs n in
    let test =
      test_iff (bit_length 64 size) precision (low_zeros 64 size) (lt_bit_length 64 size 64 h) in
    (
      (λ on. elim (le_or_lt (bit_length 64 size) precision) [
        | inl fits ↦ bits_enough size precision h fits
        | inr more ↦ zeros_enough size precision h more (test.0 on more)
      ]),
      (λ s. test.1 λ more. zeros_needed size precision h more s),
    )
