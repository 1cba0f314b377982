-- ===== src/Emit/Decimal.antt =====
-- rust/src/emit.rs and rust/src/parser.rs: integers, written and parsed.
use skg.Base.{
  ℕ, zero, suc, ◌+◌, ◌-◌, ◌*◌, ◌/◌, ◌%◌, ◌^◌, ◌<◌, ◌≤◌, true, false, some, [], ◌∷◌, ◌++◌, Bytes,
  ltb, ◌==◌, nat_eq, ◌≡◌, refl, ap, ◌∙◌, arith, Bool-cases, inl, inr,
}
use mathlib.Core.Option
use skg.Model.{ℤ, pos, negsuc}
use skg.Lexer.Scan.{is_digit}
use skg.Parser.Text.{digits_value, parse_digits, parse_i64}
use skg.Emit.{digits, int_text}

digits_value-snoc :
    (v w d : ℕ) (xs : Bytes)
    → digits_value v xs ≡ some w
    → d < 10
    → digits_value v (xs ++ (b'0' + d) ∷ []) ≡ some (w * 10 + d)
unfolding digits_value is_digit
digits_value-snoc v w d [] h hd = ground arith
digits_value-snoc v w d (x ∷ xs) h hd = elim (Bool-cases (is_digit x)) [
  | inl on ↦ rw on (digits_value-snoc (v * 10 + (x - b'0')) w d xs (rw on at h) hd)
  | inr off ↦ absurd (ground (arith, h, off))
]

pub quotient_lt : (n f : ℕ) → 10 ≤ n → n < suc f → n / 10 < f
quotient_lt n f h hf = omega arith

pub remainder_lt : (n : ℕ) → n % 10 < 10
remainder_lt n = omega arith

divided : (n : ℕ) → n / 10 * 10 + n % 10 ≡ n
divided n = omega arith

small : (n : ℕ) → n < 10 → n % 10 ≡ n
small n h = omega arith

pub digits_value-digits : (f n : ℕ) → n < f → digits_value 0 (digits f n) ≡ some n
unfolding digits
digits_value-digits zero n h = absurd (omega arith)
digits_value-digits (suc f) n h = elim (Bool-cases (ltb n 10)) [
  | inl one ↦
      rw (one, small n (ground arith))
        (digits_value-snoc 0 0 n [] (unfold digits_value in refl) (ground arith)
          ∙ ap some (omega arith))
  | inr more ↦ rw more (
      digits_value-snoc 0 (n / 10) (n % 10) (digits f (n / 10))
        (digits_value-digits f (n / 10) (quotient_lt n f (ground arith) h)) (remainder_lt n)
      ∙ ap some (divided n))
]

-- The digits start with a digit.
pub digits-first :
    (f n : ℕ) → n < f → (c : ℕ) × (cs : Bytes) × (digits f n ≡ c ∷ cs) × (is_digit c ≡ true)
unfolding digits is_digit
digits-first zero n h = absurd (omega arith)
digits-first (suc f) n h = elim (Bool-cases (ltb n 10)) [
  | inl one ↦ (b'0' + n % 10, [], rw one refl, ground (arith, remainder_lt n))
  | inr more ↦
      let (c, cs, e, first) = digits-first f (n / 10) (quotient_lt n f (ground arith) h) in
      (c, cs ++ (b'0' + n % 10) ∷ [], rw (more, e) refl, first)
]

parse_digits-cons :
    (limit n c : ℕ) (cs : Bytes)
    → digits_value 0 (c ∷ cs) ≡ some n
    → n ≤ limit
    → parse_digits limit (c ∷ cs) ≡ some n
unfolding parse_digits Option.bind
parse_digits-cons limit n c cs h hl = rw h (ground arith)

parse_digits-digits : (limit f n : ℕ) → n < f → n ≤ limit → parse_digits limit (digits f n) ≡ some n
parse_digits-digits limit f n h hl =
    let (c, cs, e, first) = digits-first f n h in
    rw e (parse_digits-cons limit n c cs (rw e at (digits_value-digits f n h)) hl)

parse_i64-unsigned :
    (n c : ℕ) (cs : Bytes)
    → is_digit c ≡ true
    → parse_digits (2 ^ 63 - 1) (c ∷ cs) ≡ some n
    → parse_i64 (c ∷ cs) ≡ some (pos n)
unfolding parse_i64 is_digit
parse_i64-unsigned n c cs first h =
    let no_minus : (c == b'-') ≡ false = ground arith in
    let no_plus : (c == b'+') ≡ false = ground arith in rw (no_minus, no_plus, h) refl

-- The range of an `i64`.
abbrev pub InRange : ℤ → Type 0
InRange (pos n) = n < 2 ^ 63
InRange (negsuc n) = n < 2 ^ 63

-- An integer in the range of an `i64` is read back from its decimal text.
pub parse_i64-int_text : (z : ℤ) → InRange z → parse_i64 (int_text z) ≡ some z
unfolding int_text
parse_i64-int_text (pos n) h =
    let (c, cs, e, first) = digits-first (suc n) n (omega arith) in
    let parsed = parse_digits-digits (2 ^ 63 - 1) (suc n) n (omega arith) (omega arith) in
    rw e (parse_i64-unsigned n c cs first (rw e at parsed))
parse_i64-int_text (negsuc n) h =
    unfold parse_i64 in
    rw (parse_digits-digits (2 ^ 63) (suc (suc n)) (suc n) (omega arith) (omega arith)) refl
