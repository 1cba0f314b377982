-- ===== src/RoundTrip/Texts.antt =====
-- rust/src/emit.rs: the tokens that keys and scalars are written as.
use skg.Base.{
  ℕ, zero, suc, ◌+◌, ◌-◌, ◌/◌, ◌%◌, ◌<◌, true, false, not, ◌&&◌, ◌||◌, some, [], ◌∷◌, ◌++◌, Bytes,
  codes, ◌≡◌, refl, ap, ◌∙◌, ◌==◌, nat_eq, all, any, Bool-cases, inl, inr, arith, get_elem?,
  append_assoc, length, ltb, leb, length-append, all-append,
}
use skg.Model.{ℤ, pos, negsuc}
use skg.Lexer.{has_leading_zero}
use skg.Lexer.Scan.{Tag, is_digit, is_identifier}
use skg.Lexer.Cursor.{lexer_at}
use skg.Lexer.Spell.{Lexes, Delimited}
use skg.Lexer.Spell.Words.{Lexes-identifier}
use skg.Lexer.Spell.Numbers.{IsWhole, Lexes-int}
use skg.Lexer.Spell.Quoted.{Lexes-triple}
use skg.Parser.Text.{is_directive, unescape_string}
use skg.Parser.Keys.{is_triple_quoted}
use skg.Emit.{
  digits, int_text, write_quoted, write_escaped, write_key, write_string, can_emit_multiline,
}
use skg.Emit.Quote.{take-length, unescape_string-write_quoted, write_escaped-first}
use skg.Emit.Literal.{next-write_quoted, quoted_first}
use skg.Emit.Decimal.{quotient_lt, remainder_lt}

Delimited-quote : (rest : Bytes) → Delimited rest → quoted_first rest ≡ false
Delimited-quote [] h = refl
Delimited-quote (c ∷ cs) h = ground arith

-- A quoted text is one string token.
Lexes-write_quoted :
    (s rest : Bytes)
    → Delimited rest
    → Lexes (write_quoted s ++ rest) Tag.string (write_quoted s) rest
Lexes-write_quoted s rest d = record {
  read = λ line col.
      let (e, unescaped) = next-write_quoted s rest line col (Delimited-quote rest d) in
      record {
        token = record { tag = Tag.string; text = write_quoted s; line = line; col = col };
        lexer = lexer_at rest line (col + length (write_quoted s));
        gives = e;
        tag_is = refl;
        text_is = refl;
        rest_is = refl;
      };
}

pub is_triple_quoted-write_quoted : (s : Bytes) → is_triple_quoted (write_quoted s) ≡ false
unfolding is_triple_quoted write_quoted write_escaped
is_triple_quoted-write_quoted [] = refl
is_triple_quoted-write_quoted (c ∷ cs) = rw (write_escaped-first (c ∷ cs) (b'"' ∷ []) (cc)) refl

pub digits-all : (f n : ℕ) → all is_digit (digits f n) ≡ true
unfolding digits is_digit
digits-all zero n = refl
digits-all (suc f) n = elim (Bool-cases (ltb n 10)) [
  | inl one ↦ rw one (ground (arith, remainder_lt n))
  | inr more ↦
      rw more (
        all-append _ (digits f (n / 10)) _ (digits-all f (n / 10)) (ground (arith, remainder_lt n)))
]

-- A number that is not zero does not start with the digit zero.
digits-nonzero :
    (f n : ℕ)
    → n < f
    → 0 < n
    → (c : ℕ) × (cs : Bytes) × (digits f n ≡ c ∷ cs) × ((c == b'0') ≡ false)
unfolding digits
digits-nonzero zero n h more = absurd (omega arith)
digits-nonzero (suc f) n h positive = elim (Bool-cases (ltb n 10)) [
  | inl one ↦ (b'0' + n % 10, [], rw one refl, ground arith)
  | inr more ↦
      let (c, cs, e, first) =
        digits-nonzero f (n / 10) (quotient_lt n f (ground arith) h) (ground arith) in
      (c, cs ++ (b'0' + n % 10) ∷ [], rw (more, e) refl, first)
]

IsWhole-cons :
    (c : ℕ) (cs : Bytes) → all is_digit (c ∷ cs) ≡ true → (c == b'0') ≡ false → IsWhole (c ∷ cs)
unfolding has_leading_zero
IsWhole-cons c cs h first = record {
  some_digit = refl;
  all_digits = h;
  no_zero = ground (arith, first);
}

pub digits-IsWhole : (n : ℕ) → IsWhole (digits (suc n) n)
unfolding digits has_leading_zero is_digit
digits-IsWhole zero = record { some_digit = refl; all_digits = refl; no_zero = refl }
digits-IsWhole (suc n) =
    let (c, cs, e, first) = digits-nonzero (suc (suc n)) (suc n) (omega arith) (omega arith) in
    rw e (IsWhole-cons c cs (rw e at (digits-all (suc (suc n)) (suc n))) first)

pub Lexes-int_text :
    (z : ℤ) (rest : Bytes) → Delimited rest → Lexes (int_text z ++ rest) Tag.int (int_text z) rest
unfolding int_text
Lexes-int_text (pos n) rest d = Lexes-int false (digits (suc n) n) rest (digits-IsWhole n) d
Lexes-int_text (negsuc n) rest d =
    Lexes-int true (digits (suc (suc n)) (suc n)) rest (digits-IsWhole (suc n)) d

-- A string token that is read as the text `s`.
pub record Says (s src rest : Bytes) : Type 0 where
  pub text : Bytes
  pub lexes : Lexes (src ++ rest) Tag.string text rest
  pub unescaped : unescape_string text ≡ some s

abbrev triple : Bytes
triple = codes "\"\"\""

get-append : (xs ys : Bytes) (i : ℕ) → get_elem? (xs ++ ys) (length xs + i) ≡ get_elem? ys i
get-append [] ys i = let e : 0 + i ≡ i = omega arith in ap (get_elem? ys) e
get-append (x ∷ xs) ys i =
    let e : suc (length xs) + i ≡ suc (length xs + i) = omega arith in
    ap (get_elem? (x ∷ xs ++ ys)) e ∙ get-append xs ys i

length-append_triple : (s : Bytes) → length (s ++ triple) ≡ length s + 3
length-append_triple s = length-append s triple

-- The byte at `i` of the closing quotes.
closing_quote :
    (s : Bytes) (i k : ℕ)
    → k ≡ suc (suc (suc (length s + i)))
    → get_elem? triple i ≡ some b'"'
    → get_elem? (triple ++ (s ++ triple)) k ≡ some b'"'
closing_quote s i k e h = rw e (get-append s triple i ∙ h)

unescape_string-triple : (s : Bytes) → unescape_string (triple ++ (s ++ triple)) ≡ some s
unfolding unescape_string
unescape_string-triple s =
    let n = length (triple ++ (s ++ triple)) in
    let e = length-append_triple s in
    let e₁ : get_elem? (triple ++ (s ++ triple)) (n - 1) ≡ some b'"' =
      closing_quote s 2 _ (omega arith) refl in
    let e₂ : get_elem? (triple ++ (s ++ triple)) (n - 2) ≡ some b'"' =
      closing_quote s 1 _ (omega arith) refl in
    let e₃ : get_elem? (triple ++ (s ++ triple)) (n - 3) ≡ some b'"' =
      closing_quote s 0 _ (omega arith) refl in
    let short : ltb n 2 ≡ false = ground arith in
    let long : leb 6 n ≡ true = ground arith in
    let inner : n - 3 - 3 ≡ length s = omega arith in
    rw (e₁, e₂, e₃, short, long, inner, take-length s triple) refl

-- A string of either form.
pub write_string-Says : (s rest : Bytes) → Delimited rest → Says s (write_string s) rest
unfolding write_string can_emit_multiline
write_string-Says s rest d = elim (Bool-cases (any (λ c. c == b'\n') s && can_emit_multiline s)) [
  | inl multi ↦ rw multi (record {
    text = codes "\"\"\"" ++ (s ++ codes "\"\"\"");
    lexes =
        rw (append_assoc s (codes "\"\"\"") rest)
          (Lexes-triple s rest (ground (arith, multi)) (ground (arith, multi)));
    unescaped = unescape_string-triple s;
  })
  | inr single ↦ rw single (record {
    text = write_quoted s;
    lexes = unfold write_quoted in Lexes-write_quoted s rest d;
    unescaped = unescape_string-write_quoted s;
  })
]

-- A key, quoted or not.
pub data Named (key src rest : Bytes) (depth : ℕ) : Type 0 where
  quoted : Lexes (src ++ rest) Tag.string (write_quoted key) rest → Named key src rest depth
  plain :
      Lexes (src ++ rest) Tag.ident key rest
      → (depth ≡ 0 → is_directive key ≡ false)
      → Named key src rest depth

pub write_key-Named :
    (key rest : Bytes) (depth : ℕ) → Delimited rest → Named key (write_key key depth) rest depth
unfolding write_key
write_key-Named key rest depth d =
    elim (Bool-cases (is_identifier key && (ltb 0 depth || not (is_directive key)))) [
      | inl bare ↦ rw bare (
          plain (Lexes-identifier key rest (ground (arith, bare)) d)
            (λ top. ground (arith, bare, top)))
      | inr other ↦ rw other (quoted (Lexes-write_quoted key rest d))
    ]
