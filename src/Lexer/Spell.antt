-- ===== src/Lexer/Spell.antt =====
-- rust/src/lexer.rs: the token that `next` gives for its spelling, whatever the position.
pub mod Words
pub mod Numbers
pub mod Quoted
use skg.Base.{
  ℕ, ◌+◌, Bool, true, false, ◌||◌, Option, none, some, [], ◌∷◌, ◌++◌, Bytes, codes, ◌≡◌, refl, ◌==◌,
  nat_eq, all, Bool-cases, inl, inr, arith,
}
use skg.Result.{Outcome, ok}
use skg.Lexer.{next, lex_token, lex_byte, punctuation, some_and}
use skg.Lexer.Scan.{
  Lexed, Lexer, Tag, Token, advance_past, is_digit, is_ident_char, is_ident_start, is_space, peek,
  scan, skip_whitespace,
}
use skg.Lexer.Cursor.{lexer_at}

-- The outcome is a token of the given kind and text, with `more` behind it.
pub record Read (tag : Tag) (text more : Bytes) (outcome : Lexed) : Type 0 where
  pub token : Token
  pub lexer : Lexer
  pub gives : outcome ≡ ok (token, lexer)
  pub tag_is : token.tag ≡ tag
  pub text_is : token.text ≡ text
  pub rest_is : lexer.rest ≡ more

-- Wherever the bytes `src` stand, the lexer reads that token from them.
pub record Lexes (src : Bytes) (tag : Tag) (text more : Bytes) : Type 0 where
  pub read : (line col : ℕ) → Read tag text more (next (lexer_at src line col))

abbrev pub first_is : (ℕ → Bool) → Bytes → Bool
first_is test [] = false
first_is test (c ∷ cs) = test c

-- The bytes that the emitter puts behind a key, a value or an item.
abbrev pub is_delimiter : ℕ → Bool
is_delimiter c = c == b'\n' || c == b' ' || c == b',' || c == b']' || c == b':'

abbrev pub Delimited : Bytes → Type 0
Delimited rest = first_is is_delimiter rest ≡ true

skip-blank :
    (c : ℕ) (cs : Bytes) (line col : ℕ)
    → is_space c ≡ true
    → skip_whitespace (lexer_at (c ∷ cs) line col) ≡ skip_whitespace (advance_past c cs line col)
unfolding scan
skip-blank c cs line col h = rw (skip_whitespace, h) refl

skip-byte :
    (c : ℕ) (cs : Bytes) (line col : ℕ)
    → is_space c ≡ false
    → skip_whitespace (lexer_at (c ∷ cs) line col) ≡ lexer_at (c ∷ cs) line col
unfolding scan
skip-byte c cs line col h = rw (skip_whitespace, h) refl

-- White space before a token does not change it.
pub Lexes-blank :
    {src text more : Bytes} {tag : Tag} (c : ℕ)
    → is_space c ≡ true
    → Lexes src tag text more
    → Lexes (c ∷ src) tag text more
unfolding next
Lexes-blank {src} {text} {more} {tag} c h k = record {
  read = λ line col.
      let ahead = advance_past c src line col in
      rw (skip-blank c src line col h) (k.read ahead.line ahead.col);
}

pub Lexes-blanks :
    {src text more : Bytes} {tag : Tag} (blank : Bytes)
    → all is_space blank ≡ true
    → Lexes src tag text more
    → Lexes (blank ++ src) tag text more
Lexes-blanks [] h k = k
Lexes-blanks (c ∷ blank) h k = elim (Bool-cases (is_space c)) [
  | inl e ↦ Lexes-blank c e (Lexes-blanks blank (rw e at h) k)
  | inr e ↦ absurd (ground (arith, h, e))
]

-- The token of a byte that is no space.
pub Lexes-byte :
    {text more : Bytes} {tag : Tag} (c : ℕ) (cs : Bytes)
    → is_space c ≡ false
    → ((line col : ℕ) → Read tag text more (lex_byte c (lexer_at (c ∷ cs) line col)))
    → Lexes (c ∷ cs) tag text more
unfolding next lex_token
Lexes-byte c cs h k = record { read = λ line col. rw (skip-byte c cs line col h) (k line col) }

pub Lexes-punctuation :
    (c : ℕ) (tag : Tag) (cs : Bytes)
    → is_space c ≡ false
    → (c == b'@') ≡ false
    → punctuation c ≡ some tag
    → Lexes (c ∷ cs) tag (c ∷ []) cs
unfolding lex_byte
Lexes-punctuation c tag cs space at h = Lexes-byte c cs space λ line col.
    rw (at, h)
      (record {
        token = record { tag = tag; text = c ∷ []; line = line; col = col };
        lexer = advance_past c cs line col;
        gives = refl;
        tag_is = refl;
        text_is = refl;
        rest_is = refl;
      })

pub Lexes-at : (cs : Bytes) → Lexes (b'@' ∷ cs) Tag.at (codes "@") cs
unfolding lex_byte
Lexes-at cs = Lexes-byte b'@' cs (unfold is_space in refl) λ line col. record {
  token = record { tag = Tag.at; text = codes "@"; line = line; col = col };
  lexer = advance_past b'@' cs line col;
  gives = refl;
  tag_is = refl;
  text_is = refl;
  rest_is = refl;
}

pub Lexes-end : Lexes [] Tag.eof [] []
unfolding next scan lex_token
Lexes-end = record {
  read = λ line col. record {
    token = record { tag = Tag.eof; text = []; line = line; col = col };
    lexer = lexer_at [] line col;
    gives = refl;
    tag_is = refl;
    text_is = refl;
    rest_is = refl;
  };
}

-- A scan passes the bytes of `text`, which pass the test, and stops at the rest.
pub record Scanned (text rest : Bytes) (outcome : Bytes × Lexer) : Type 0 where
  pub text_is : outcome.0 ≡ text
  pub rest_is : outcome.1.rest ≡ rest

pub scan-Scanned :
    (test : ℕ → Bool) (text rest : Bytes) (line col : ℕ)
    → all test text ≡ true
    → first_is test rest ≡ false
    → Scanned text rest (scan test (text ++ rest) line col)
unfolding scan
scan-Scanned test [] [] line col h k = record { text_is = refl; rest_is = refl }
scan-Scanned test [] (c ∷ cs) line col h k = rw k (record { text_is = refl; rest_is = refl })
scan-Scanned test (c ∷ text) rest line col h k = elim (Bool-cases (test c)) [
  | inl e ↦
      let ahead = advance_past c (text ++ rest) line col in
      let more = scan-Scanned test text rest ahead.line ahead.col (rw e at h) k in
      rw e (record { text_is = rw more.text_is; rest_is = more.rest_is })
  | inr e ↦ absurd (ground (arith, h, e))
]
