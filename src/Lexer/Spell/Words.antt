-- ===== src/Lexer/Spell/Words.antt =====
-- rust/src/lexer.rs: identifiers and reserved words, read from their spelling.
use skg.Base.{ℕ, true, false, [], ◌∷◌, ◌++◌, Bytes, codes, ◌≡◌, refl, nat_eq, all, arith, subst}
use skg.Lexer.{lex_byte, lex_other, lex_ident, ident_tag, punctuation}
use skg.Lexer.Scan.{
  Lexer, Tag, is_digit, is_ident_char, is_ident_start, is_identifier, is_reserved, is_space,
  scan_while, token, position,
}
use skg.Lexer.Cursor.{lexer_at}
use skg.Lexer.Spell.{Lexes, Lexes-byte, first_is, Delimited, scan-Scanned}

pub Delimited-ident : (rest : Bytes) → Delimited rest → first_is is_ident_char rest ≡ false
unfolding is_ident_char is_ident_start is_digit
Delimited-ident [] h = refl
Delimited-ident (c ∷ cs) h = ground arith

lex_byte-ident : (c : ℕ) (l : Lexer) → is_ident_start c ≡ true → lex_byte c l ≡ lex_ident l
unfolding lex_byte lex_other punctuation is_ident_start is_digit
lex_byte-ident c l h = ground arith

ident_start-space : (c : ℕ) → is_ident_start c ≡ true → is_space c ≡ false
unfolding is_ident_start is_space
ident_start-space c h = ground arith

-- A word is read whole, up to a byte that cannot be part of it.
Lexes-word :
    (c : ℕ) (cs rest : Bytes)
    → is_ident_start c ≡ true
    → all is_ident_char cs ≡ true
    → first_is is_ident_char rest ≡ false
    → Lexes (c ∷ cs ++ rest) (ident_tag (c ∷ cs)) (c ∷ cs) rest
unfolding lex_ident
Lexes-word c cs rest h hs stop = Lexes-byte c (cs ++ rest) (ident_start-space c h) λ line col.
    let l = lexer_at (c ∷ cs ++ rest) line col in
    let whole : all is_ident_char (c ∷ cs) ≡ true = unfold is_ident_char in rw h hs in
    let s = scan-Scanned is_ident_char (c ∷ cs) rest line col whole stop in
    rw (lex_byte-ident c l h) (record {
      token =
          token (ident_tag (scan_while is_ident_char l).0) (scan_while is_ident_char l).0
            (position l);
      lexer = (scan_while is_ident_char l).1;
      gives = refl;
      tag_is = rw s.text_is;
      text_is = s.text_is;
      rest_is = s.rest_is;
    })

-- An identifier lexes as one.
pub Lexes-identifier :
    (key rest : Bytes)
    → is_identifier key ≡ true
    → Delimited rest
    → Lexes (key ++ rest) Tag.ident key rest
unfolding is_identifier ident_tag is_reserved
Lexes-identifier [] rest h d = absurd (cc)
Lexes-identifier (c ∷ cs) rest h d =
    let start : is_ident_start c ≡ true = ground (arith, h) in
    let chars : all is_ident_char cs ≡ true = ground (arith, h) in
    let tag : ident_tag (c ∷ cs) ≡ Tag.ident = ground (arith, h) in
    subst (λ t. Lexes (c ∷ cs ++ rest) t (c ∷ cs) rest) tag
      (Lexes-word c cs rest start chars (Delimited-ident rest d))

pub Lexes-true :
    (rest : Bytes) → Delimited rest → Lexes (codes "true" ++ rest) Tag.bool_true (codes "true") rest
unfolding ident_tag is_ident_start is_ident_char
Lexes-true rest d = Lexes-word b't' (codes "rue") rest refl refl (Delimited-ident rest d)

pub Lexes-false :
    (rest : Bytes)
    → Delimited rest
    → Lexes (codes "false" ++ rest) Tag.bool_false (codes "false") rest
unfolding ident_tag is_ident_start is_ident_char
Lexes-false rest d = Lexes-word b'f' (codes "alse") rest refl refl (Delimited-ident rest d)

pub Lexes-null :
    (rest : Bytes)
    → Delimited rest
    → Lexes (codes "null" ++ rest) Tag.null_literal (codes "null") rest
unfolding ident_tag is_ident_start is_ident_char
Lexes-null rest d = Lexes-word b'n' (codes "ull") rest refl refl (Delimited-ident rest d)
