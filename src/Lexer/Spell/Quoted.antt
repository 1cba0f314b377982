-- ===== src/Lexer/Spell/Quoted.antt =====
-- rust/src/lexer.rs: multi-line strings, read from their spelling.
use skg.Base.{ℕ, ◌+◌, false, [], ◌∷◌, ◌++◌, Bytes, codes, ◌≡◌, refl, nat_eq, arith}
use skg.Result.{ok}
use skg.Lexer.{lex_byte, lex_other, punctuation}
use skg.Lexer.Text.{scan_multiline, lex_string, starts_closing}
use skg.Lexer.Scan.{Lexer, Tag, is_space, token, advance_past}
use skg.Lexer.Spell.{Lexes, Lexes-byte}
use skg.Emit.{has_triple, ends_with_quote}

abbrev triple : Bytes
triple = codes "\"\"\""

-- The scan ends at the closing quotes, behind a text that holds none and does not end in a quote.
record Closes (text rest : Bytes) (line col : ℕ) : Type 0 where
  pub lexer : Lexer
  pub gives : scan_multiline (text ++ (triple ++ rest)) line col ≡ ok (text ++ triple, lexer)
  pub rest_is : lexer.rest ≡ rest

no_closing :
    (c : ℕ) (cs rest : Bytes)
    → has_triple (c ∷ cs) ≡ false
    → ends_with_quote (c ∷ cs) ≡ false
    → starts_closing (c ∷ cs ++ (triple ++ rest)) ≡ false
unfolding has_triple ends_with_quote
no_closing c [] rest h e = ground (arith, h, e)
no_closing c (d ∷ []) rest h e = ground (arith, h, e)
no_closing c (d ∷ f ∷ cs) rest h e = ground (arith, h, e)

has_triple-tail : (c : ℕ) (cs : Bytes) → has_triple (c ∷ cs) ≡ false → has_triple cs ≡ false
unfolding has_triple
has_triple-tail c cs h = ground (arith, h)

ends_with_quote-tail :
    (c : ℕ) (cs : Bytes) → ends_with_quote (c ∷ cs) ≡ false → ends_with_quote cs ≡ false
unfolding ends_with_quote
ends_with_quote-tail c [] h = refl
ends_with_quote-tail c (d ∷ cs) h = h

scan_multiline-Closes :
    (text rest : Bytes) (line col : ℕ)
    → has_triple text ≡ false
    → ends_with_quote text ≡ false
    → Closes text rest line col
unfolding scan_multiline
scan_multiline-Closes [] rest line col h e = record { lexer = _; gives = refl; rest_is = refl }
scan_multiline-Closes (c ∷ cs) rest line col h e =
    let ahead = advance_past c (cs ++ (triple ++ rest)) line col in
    let more =
      scan_multiline-Closes cs rest ahead.line ahead.col (has_triple-tail c cs h)
        (ends_with_quote-tail c cs e) in
    record {
      lexer = more.lexer;
      gives = rw (no_closing c cs rest h e, more.gives) refl;
      rest_is = more.rest_is;
    }

pub Lexes-triple :
    (text rest : Bytes)
    → has_triple text ≡ false
    → ends_with_quote text ≡ false
    → Lexes (triple ++ (text ++ (triple ++ rest))) Tag.string (triple ++ (text ++ triple)) rest
unfolding lex_byte lex_other punctuation lex_string
Lexes-triple text rest h e = Lexes-byte b'"' _ (unfold is_space in refl) λ line col.
    let c = scan_multiline-Closes text rest line (col + 1 + 1 + 1) h e in
    rw c.gives (record {
      token = token Tag.string (triple ++ (text ++ triple)) (record { line = line; col = col });
      lexer = c.lexer;
      gives = refl;
      tag_is = refl;
      text_is = refl;
      rest_is = c.rest_is;
    })
