-- ===== src/RoundTrip/Scalars.antt =====
-- rust/src/emit.rs and rust/src/parser.rs: scalar values, written and parsed.
use skg.Base.{
  ℕ, Bool, true, false, ◌||◌, Option, some, [], ◌∷◌, ◌++◌, Bytes, codes, ◌≡◌, refl, ◌∙◌, ◌==◌,
  nat_eq, all, any, arith, subst, append_assoc,
}
use skg.Model.{Value, int, float, bool, string, null, array, object}
use skg.Result.{ok}
use skg.Lexer.{is_empty, punctuation}
use skg.Lexer.Scan.{Tag, Token, tag_eq, is_digit, is_space}
use skg.Lexer.Spell.{Lexes, Lexes-punctuation, Delimited}
use skg.Lexer.Spell.Words.{Lexes-true, Lexes-false, Lexes-null}
use skg.Lexer.Spell.Numbers.{IsWhole, sign_of, Lexes-float}
use skg.Parser.Text.{is_finite, parse_i64, unescape_string}
use skg.Parser.State.{Parser, Parse, place_of}
use skg.Parser.Grammar.{scalar_at, int_value, float_value, string_value}
use skg.Emit.{emit_value, format_float, int_text}
use skg.Emit.Decimal.{parse_i64-int_text}
use skg.RoundTrip.{IsWritable, ShowsFloat, ShowsFloats, ShowsPoint, as_integer, as_decimal}
use skg.RoundTrip.Layout.{array_text, object_text}
use skg.RoundTrip.Texts.{Lexes-int_text, write_string-Says}

-- The kinds of token that start a value.
abbrev pub StartsValue : Tag → Type 0
StartsValue tag =
    ((tag == Tag.r_bracket) ≡ false)
    × ((tag == Tag.comma) ≡ false)
    × ((tag == Tag.eof) ≡ false)
    × ((tag == Tag.comment) ≡ false)

any-append : (p : ℕ → Bool) (xs ys : Bytes) → any p (xs ++ ys) ≡ any p xs || any p ys
any-append p [] ys = refl
any-append p (x ∷ xs) ys = ground (arith, any-append p xs ys)

digits_no_point : (xs : Bytes) → all is_digit xs ≡ true → any (λ c. c == b'.') xs ≡ false
unfolding is_digit
digits_no_point [] h = refl
digits_no_point (x ∷ xs) h = ground (arith, h, digits_no_point xs)

sign_no_point : (minus : Bool) → any (λ c. c == b'.') (sign_of minus) ≡ false
sign_no_point true = refl
sign_no_point false = refl

Lexes-literal :
    (minus : Bool) (whole fraction rest : Bytes)
    → IsWhole whole
    → is_empty fraction ≡ false
    → all is_digit fraction ≡ true
    → Delimited rest
    → let text = sign_of minus ++ whole ++ b'.' ∷ fraction in
      Lexes (text ++ rest) Tag.float text rest
Lexes-literal minus whole fraction rest w full fd d =
    let before = sign_of minus ++ whole in
    rw (append_assoc before (b'.' ∷ fraction) rest) (
      subst (λ t. Lexes (before ++ b'.' ∷ (fraction ++ rest)) Tag.float t rest)
        (append_assoc before (codes ".") fraction)
        (Lexes-float minus whole fraction rest w full fd d))

abbrev pub IsScalar : Value → Type 0
IsScalar (array element xs t) = ⊥
IsScalar (object cs t) = ⊥
IsScalar _ = Unit {0}

module _ (show_f64 : ℕ → Bytes) (parse_f64 : Bytes → Option ℕ) where
  -- The literal that a finite float is written as.
  abbrev float_text : {f : ℕ} → ShowsFloat show_f64 parse_f64 f → Bytes
  float_text x = sign_of x.minus ++ x.whole ++ b'.' ∷ x.fraction

  format_float-shown :
      (f : ℕ) (minus : Bool) (whole fraction : Bytes)
      → is_finite f ≡ true
      → all is_digit whole ≡ true
      → ShowsPoint (show_f64 f) (sign_of minus) whole fraction
      → format_float show_f64 f ≡ sign_of minus ++ whole ++ b'.' ∷ fraction
  unfolding format_float
  format_float-shown f minus whole fraction finite digits (as_integer e zero) =
      let none_in : any (λ c. c == b'.') (sign_of minus ++ whole) ≡ false =
        any-append (λ c. c == b'.') (sign_of minus) whole
        ∙ (rw (sign_no_point minus, digits_no_point whole digits) refl) in
      rw (finite, e, none_in, zero) refl
  format_float-shown f minus whole fraction finite digits (as_decimal e) =
      let some_in : any (λ c. c == b'.') (sign_of minus ++ whole ++ b'.' ∷ fraction) ≡ true =
        any-append (λ c. c == b'.') (sign_of minus ++ whole) (b'.' ∷ fraction) ∙ ground arith in
      rw (finite, e, some_in) refl

  -- A scalar is written as one token, from which the parser makes the scalar.
  pub record ScalarText (v : Value) (src rest : Bytes) : Type 0 where
    pub tag : Tag
    pub text : Bytes
    pub lexes : Lexes (src ++ rest) tag text rest
    pub starts : StartsValue tag
    pub reader : Token → Parse Value
    pub reads : (t : Token) → t.tag ≡ tag → scalar_at parse_f64 t.tag t ≡ some (reader t)
    pub gives : (t : Token) (q : Parser) → t.text ≡ text → reader t q ≡ ok (v, q)

  pub scalar_text :
      (v : Value) (depth : ℕ) (rest : Bytes)
      → ShowsFloats show_f64 parse_f64
      → IsScalar v
      → IsWritable v
      → Delimited rest
      → ScalarText v (emit_value show_f64 v depth) rest
  unfolding emit_value scalar_at
  scalar_text (int n) depth rest floats s w d = record {
    tag = Tag.int;
    text = int_text n;
    lexes = Lexes-int_text n rest d;
    starts = (refl, refl, refl, refl);
    reader = λ t. int_value (place_of t) (parse_i64 t.text);
    reads = λ t e. rw e refl;
    gives = λ t q e. unfold int_value in rw (e, parse_i64-int_text n w) refl;
  }
  scalar_text (float f) depth rest floats s w d =
      let x = floats f w in
      let e = format_float-shown f x.minus x.whole x.fraction w x.is_whole.all_digits x.shown in
      rw e (record {
        tag = Tag.float;
        text = float_text x;
        lexes =
            Lexes-literal x.minus x.whole x.fraction rest x.is_whole x.some_digit x.all_digits d;
        starts = (refl, refl, refl, refl);
        reader = λ t. float_value (place_of t) (parse_f64 t.text);
        reads = λ t e. rw e refl;
        gives = λ t q e. unfold float_value in rw (e, x.parsed, w) refl;
      })
  scalar_text (bool true) depth rest floats s w d = record {
    tag = Tag.bool_true;
    text = codes "true";
    lexes = Lexes-true rest d;
    starts = (refl, refl, refl, refl);
    reader = λ t q. ok (bool true, q);
    reads = λ t e. rw e refl;
    gives = λ t q e. refl;
  }
  scalar_text (bool false) depth rest floats s w d = record {
    tag = Tag.bool_false;
    text = codes "false";
    lexes = Lexes-false rest d;
    starts = (refl, refl, refl, refl);
    reader = λ t q. ok (bool false, q);
    reads = λ t e. rw e refl;
    gives = λ t q e. refl;
  }
  scalar_text (string v) depth rest floats s w d =
      let x = write_string-Says v rest d in
      record {
        tag = Tag.string;
        text = x.text;
        lexes = x.lexes;
        starts = (refl, refl, refl, refl);
        reader = λ t. string_value (place_of t) (unescape_string t.text);
        reads = λ t e. rw e refl;
        gives = λ t q e. unfold string_value in rw (e, x.unescaped) refl;
      }
  scalar_text null depth rest floats s w d = record {
    tag = Tag.null_literal;
    text = codes "null";
    lexes = Lexes-null rest d;
    starts = (refl, refl, refl, refl);
    reader = λ t q. ok (null, q);
    reads = λ t e. rw e refl;
    gives = λ t q e. refl;
  }
  scalar_text (array element xs t) depth rest floats s w d = absurd s
  scalar_text (object cs t) depth rest floats s w d = absurd s

-- A value starts with a token that no array ends or goes on with.
pub record ValueStart (src : Bytes) : Type 0 where
  pub tag : Tag
  pub text : Bytes
  pub more : Bytes
  pub lexes : Lexes src tag text more
  pub starts : StartsValue tag

module _ (show_f64 : ℕ → Bytes) (parse_f64 : Bytes → Option ℕ) where
  scalar_start :
      (v : Value) (at : ℕ) (rest : Bytes)
      → ShowsFloats show_f64 parse_f64
      → IsScalar v
      → IsWritable v
      → Delimited rest
      → ValueStart (emit_value show_f64 v at ++ rest)
  scalar_start v at rest floats sc w d =
      let x = scalar_text show_f64 parse_f64 v at rest floats sc w d in
      record { tag = x.tag; text = x.text; more = rest; lexes = x.lexes; starts = x.starts }

  pub value_start :
      (v : Value) (at : ℕ) (rest : Bytes)
      → ShowsFloats show_f64 parse_f64
      → IsWritable v
      → Delimited rest
      → ValueStart (emit_value show_f64 v at ++ rest)
  value_start (array element xs []) at rest floats w d =
      rw (array_text show_f64 at element xs rest) (record {
        tag = Tag.l_bracket;
        text = codes "[";
        more = _;
        lexes =
            Lexes-punctuation b'[' Tag.l_bracket _ (unfold is_space in refl) refl
              (unfold punctuation in refl);
        starts = (refl, refl, refl, refl);
      })
  value_start (object cs []) at rest floats w d = rw (object_text show_f64 at cs rest) (record {
    tag = Tag.l_brace;
    text = codes "{";
    more = _;
    lexes =
        Lexes-punctuation b'{' Tag.l_brace _ (unfold is_space in refl) refl
          (unfold punctuation in refl);
    starts = (refl, refl, refl, refl);
  })
  value_start (array element xs (c ∷ t)) at rest floats w d = absurd w
  value_start (object cs (c ∷ t)) at rest floats w d = absurd w
  value_start (int n) at rest floats w d = scalar_start (int n) at rest floats tt w d
  value_start (float n) at rest floats w d = scalar_start (float n) at rest floats tt w d
  value_start (bool n) at rest floats w d = scalar_start (bool n) at rest floats tt w d
  value_start (string n) at rest floats w d = scalar_start (string n) at rest floats tt w d
  value_start null at rest floats w d = scalar_start null at rest floats tt w d
