-- ===== src/Lexer/Spell/Numbers.antt =====
-- rust/src/lexer.rs: number literals, read from their spelling.
use skg.Base.{
  ℕ, Bool, true, false, ◌||◌, some, [], ◌∷◌, ◌++◌, Bytes, codes, ◌≡◌, refl, ◌==◌, nat_eq, all,
  arith, option_beq, get_elem?,
}
use skg.Lexer.{
  lex_byte, lex_other, lex_negative_number, lex_number, lex_fraction, is_empty, lex_integer_end,
  scan_sign, has_leading_zero, punctuation, some_and,
}
use skg.Lexer.Scan.{
  Lexer, Tag, is_digit, is_ident_char, is_ident_start, is_space, scan_while, token, position,
  advance, advance_past, peek,
}
use skg.Lexer.Cursor.{lexer_at}
use skg.Lexer.Spell.{Lexes, Read, Lexes-byte, first_is, Delimited, scan-Scanned, Scanned}

-- What lies behind a number: no byte that would go on with it.
record Ends (rest : Bytes) : Type 0 where
  pub no_digit : first_is is_digit rest ≡ false
  pub no_point : option_beq (get_elem? rest 0) (some b'.') ≡ false
  pub no_ident : some_and (get_elem? rest 0) is_ident_char ≡ false
  pub no_suffix :
      some_and (get_elem? rest 0) (λ suffix. is_ident_char suffix || suffix == b'.') ≡ false

Delimited-Ends : (rest : Bytes) → Delimited rest → Ends rest
unfolding is_ident_char is_ident_start is_digit
Delimited-Ends [] h = absurd (cc)
Delimited-Ends (c ∷ cs) h = record {
  no_digit = ground arith;
  no_point = ground arith;
  no_ident = ground arith;
  no_suffix = ground arith;
}

-- The digits of a literal: at least one, and no zero before others.
pub record IsWhole (digits : Bytes) : Type 0 where
  pub some_digit : is_empty digits ≡ false
  pub all_digits : all is_digit digits ≡ true
  pub no_zero : has_leading_zero digits ≡ false

lex_number-int :
    (l u : Lexer) (sign digits rest : Bytes)
    → scan_sign l ≡ (sign, u)
    → u.rest ≡ digits ++ rest
    → IsWhole digits
    → Ends rest
    → Read Tag.int (sign ++ digits) rest (lex_number l)
unfolding lex_number lex_integer_end
lex_number-int l u sign digits rest e eu w ends =
    let s : Scanned digits rest (scan_while is_digit u) =
      rw eu (scan-Scanned is_digit digits rest u.line u.col w.all_digits ends.no_digit) in
    let after = (scan_while is_digit u).1 in
    rw (e, s.text_is, s.rest_is, ends.no_point, w.no_zero, ends.no_ident)
      (record {
        token = token Tag.int (sign ++ digits) (position l);
        lexer = after;
        gives = refl;
        tag_is = refl;
        text_is = refl;
        rest_is = s.rest_is;
      })

lex_fraction-float :
    (l m : Lexer) (text fraction rest : Bytes)
    → m.rest ≡ fraction ++ rest
    → is_empty fraction ≡ false
    → all is_digit fraction ≡ true
    → Ends rest
    → Read Tag.float (text ++ fraction) rest (lex_fraction (position l) text false m)
unfolding lex_fraction
lex_fraction-float l m text fraction rest em full digits ends =
    let s : Scanned fraction rest (scan_while is_digit m) =
      rw em (scan-Scanned is_digit fraction rest m.line m.col digits ends.no_digit) in
    let after = (scan_while is_digit m).1 in
    rw (s.text_is, s.rest_is, full, ends.no_suffix)
      (record {
        token = token Tag.float (text ++ fraction) (position l);
        lexer = after;
        gives = refl;
        tag_is = refl;
        text_is = refl;
        rest_is = s.rest_is;
      })

advance-rest : (l : Lexer) (c : ℕ) (cs : Bytes) → l.rest ≡ c ∷ cs → (advance l).rest ≡ cs
advance-rest l c cs e = rw e refl

digit_point : first_is is_digit (codes ".") ≡ false
unfolding is_digit
digit_point = refl

lex_number-point :
    (l u : Lexer) (sign digits : Bytes)
    → scan_sign l ≡ (sign, u)
    → (scan_while is_digit u).0 ≡ digits
    → option_beq (peek (scan_while is_digit u).1) (some b'.') ≡ true
    → lex_number l
      ≡ lex_fraction
          (position l)
          (sign ++ digits ++ codes ".")
          (has_leading_zero digits)
          (advance (scan_while is_digit u).1)
unfolding lex_number
lex_number-point l u sign digits e d point = rw (e, d, point) refl

lex_number-float :
    (l u : Lexer) (sign digits fraction rest : Bytes)
    → scan_sign l ≡ (sign, u)
    → u.rest ≡ digits ++ (b'.' ∷ fraction ++ rest)
    → IsWhole digits
    → is_empty fraction ≡ false
    → all is_digit fraction ≡ true
    → Ends rest
    → Read Tag.float ((sign ++ digits ++ codes ".") ++ fraction) rest (lex_number l)
lex_number-float l u sign digits fraction rest e eu w full fd ends =
    let s : Scanned digits (b'.' ∷ fraction ++ rest) (scan_while is_digit u) = rw eu (
      scan-Scanned is_digit digits (b'.' ∷ fraction ++ rest) u.line u.col w.all_digits
        digit_point) in
    let after = (scan_while is_digit u).1 in
    let point : option_beq (peek after) (some b'.') ≡ true = rw s.rest_is refl in
    rw (lex_number-point l u sign digits e s.text_is point, w.no_zero)
      (lex_fraction-float l (advance after) (sign ++ digits ++ codes ".") fraction rest
        (advance-rest after b'.' (fraction ++ rest) s.rest_is) full fd ends)

-- A number starts with a minus sign or a digit, and the lexer goes to `lex_number`.
abbrev pub sign_of : Bool → Bytes
sign_of true = codes "-"
sign_of false = []

record Starts (minus : Bool) (digits tail : Bytes) : Type 0 where
  pub byte : ℕ
  pub bytes : Bytes
  pub unsigned : ℕ → ℕ → Lexer
  pub spelled : sign_of minus ++ digits ++ tail ≡ byte ∷ bytes
  pub no_space : is_space byte ≡ false
  pub to_number :
      (line col : ℕ)
      → lex_byte byte (lexer_at (byte ∷ bytes) line col)
        ≡ lex_number (lexer_at (byte ∷ bytes) line col)
  pub signed :
      (line col : ℕ)
      → scan_sign (lexer_at (byte ∷ bytes) line col) ≡ (sign_of minus, unsigned line col)
  pub rest_is : (line col : ℕ) → (unsigned line col).rest ≡ digits ++ tail

lex_byte-digit : (c : ℕ) (l : Lexer) → is_digit c ≡ true → lex_byte c l ≡ lex_number l
unfolding lex_byte lex_other punctuation is_digit
lex_byte-digit c l h = ground arith

digit-space : (c : ℕ) → is_digit c ≡ true → is_space c ≡ false
unfolding is_digit is_space
digit-space c h = ground arith

scan_sign-digit :
    (c : ℕ) (cs : Bytes) (line col : ℕ)
    → is_digit c ≡ true
    → scan_sign (lexer_at (c ∷ cs) line col) ≡ ([], lexer_at (c ∷ cs) line col)
unfolding scan_sign is_digit
scan_sign-digit c cs line col h =
    let no_minus : (c == b'-') ≡ false = ground arith in rw no_minus refl

lex_byte-minus :
    (d : ℕ) (cs : Bytes) (line col : ℕ)
    → is_digit d ≡ true
    → lex_byte b'-' (lexer_at (b'-' ∷ d ∷ cs) line col)
      ≡ lex_number (lexer_at (b'-' ∷ d ∷ cs) line col)
unfolding lex_byte lex_other punctuation lex_negative_number
lex_byte-minus d cs line col h = rw h refl

IsWhole-first :
    (digits : Bytes)
    → IsWhole digits
    → (d : ℕ) × (ds : Bytes) × (digits ≡ d ∷ ds) × (is_digit d ≡ true)
IsWhole-first [] w = absurd (let e = w.some_digit in cc)
IsWhole-first (d ∷ ds) w = (d, ds, refl, let e = w.all_digits in ground (arith, e))

sign_of-Starts : (minus : Bool) (digits tail : Bytes) → IsWhole digits → Starts minus digits tail
sign_of-Starts true digits tail w =
    let (d, ds, e, h) = IsWhole-first digits w in
    record {
      byte = b'-';
      bytes = digits ++ tail;
      unsigned = λ line col. advance_past b'-' (digits ++ tail) line col;
      spelled = refl;
      no_space = unfold is_space in refl;
      to_number = λ line col. rw e (lex_byte-minus d (ds ++ tail) line col h);
      signed = λ line col. unfold scan_sign in refl;
      rest_is = λ line col. refl;
    }
sign_of-Starts false digits tail w =
    let (d, ds, e, h) = IsWhole-first digits w in
    record {
      byte = d;
      bytes = ds ++ tail;
      unsigned = λ line col. lexer_at (d ∷ ds ++ tail) line col;
      spelled = rw e refl;
      no_space = digit-space d h;
      to_number = λ line col. lex_byte-digit d _ h;
      signed = λ line col. scan_sign-digit d (ds ++ tail) line col h;
      rest_is = λ line col. rw e refl;
    }

-- An integer literal.
pub Lexes-int :
    (minus : Bool) (digits rest : Bytes)
    → IsWhole digits
    → Delimited rest
    → Lexes (sign_of minus ++ digits ++ rest) Tag.int (sign_of minus ++ digits) rest
Lexes-int minus digits rest w d =
    let s = sign_of-Starts minus digits rest w in
    rw s.spelled (
      Lexes-byte s.byte s.bytes s.no_space λ line col. rw (s.to_number line col) (
        lex_number-int _ (s.unsigned line col) (sign_of minus) digits rest (s.signed line col)
          (s.rest_is line col) w (Delimited-Ends rest d)))

-- A float literal, with its point.
pub Lexes-float :
    (minus : Bool) (digits fraction rest : Bytes)
    → IsWhole digits
    → is_empty fraction ≡ false
    → all is_digit fraction ≡ true
    → Delimited rest
    → Lexes
        (sign_of minus ++ digits ++ (b'.' ∷ fraction ++ rest))
        Tag.float
        ((sign_of minus ++ digits ++ codes ".") ++ fraction)
        rest
Lexes-float minus digits fraction rest w full fd d =
    let s = sign_of-Starts minus digits (b'.' ∷ fraction ++ rest) w in
    rw s.spelled (
      Lexes-byte s.byte s.bytes s.no_space λ line col. rw (s.to_number line col) (
        lex_number-float _ (s.unsigned line col) (sign_of minus) digits fraction rest
          (s.signed line col) (s.rest_is line col) w full fd (Delimited-Ends rest d)))
