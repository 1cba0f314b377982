-- ===== src/Lexer/Strings.antt =====
-- rust/src/lexer.rs: the tokens of strings, comments and identifiers, and the bytes that they are read
-- from.
use skg.Base.{
  length-append_bytes, ℕ, ◌+◌, ◌<◌, Bool, true, not, ◌&&◌, [], ◌∷◌, ◌++◌, Bytes, codes, ◌≡◌, refl,
  ◌⊎◌, inl, inr, arith, ◌==◌, nat_eq, length, get_elem?,
}
use skg.Error.{Position}
use skg.Result.{Result, Ensures, holds, failed, Ensures-bind, Ensures-if}
use skg.Lexer.{lex_ident}
use skg.Lexer.Text.{
  scan_multiline, as_token, starts_closing, is_quote, strip_return, lex_comment, lex_string,
}
use skg.Lexer.Scan.{
  Tag, Token, Lexer, position, advance_past, advance, scan, is_ident_start, is_ident_char, token,
}
use skg.Lexer.Cursor.{
  Moves, Moves-append, advance_past-Moves, scan-Moves, scan_string-Passes, Passes, lexer_at, locate,
  push_text-Passes,
}

-- The token `t` stands where the lexer `l` does, and `m` stands behind the bytes that spell it. A
-- comment before a line end in CRLF style leaves the carriage return out of its text.
pub record Reads (l : Lexer) (t : Token) (m : Lexer) : Type 0 where
  pub consumed : Bytes
  pub moves : Moves l consumed m
  pub placed : ◌≡◌ {A = Position} (record { line = t.line; col = t.col }) (position l)
  pub spelled : (consumed ≡ t.text) ⊎ ((t.tag ≡ Tag.comment) × (consumed ≡ t.text ++ b'\r' ∷ []))
  pub progress : ((t.tag ≡ Tag.eof) × (l.rest ≡ [])) ⊎ (0 < length consumed)

abbrev pub ReadsPair : Lexer → Token × Lexer → Type 0
ReadsPair l (t, m) = Reads l t m

-- A token whose text is what was passed.
pub Reads-token :
    (tag : Tag) (l m : Lexer) (text : Bytes)
    → Moves l text m
    → 0 < length text
    → Reads l (token tag text (position l)) m
Reads-token tag l m text h pos = record {
  consumed = text;
  moves = h;
  placed = refl;
  spelled = inl refl;
  progress = inr pos;
}

closing-Moves :
    (c : ℕ) (cs : Bytes) (line col : ℕ)
    → starts_closing (c ∷ cs) ≡ true
    → Moves
        (lexer_at (c ∷ cs) line col)
        (codes "\"\"\"")
        (advance (advance (advance_past c cs line col)))
unfolding locate
closing-Moves c [] line col h = ground arith
closing-Moves c (d ∷ []) line col h = ground arith
closing-Moves c (d ∷ e ∷ cs) line col h =
    let hc : c ≡ b'"' = ground arith in
    let hd : d ≡ b'"' = ground arith in
    let he : e ≡ b'"' = ground arith in
    record { splits = rw (hc, hd, he); located = rw (hc, hd, he) }

scan_multiline-Passes :
    (cs : Bytes) (line col : ℕ)
    → Ensures (Passes (lexer_at cs line col)) (scan_multiline cs line col)
unfolding scan_multiline
scan_multiline-Passes [] line col = failed _
scan_multiline-Passes (c ∷ cs) line col =
    let next = advance_past c cs line col in
    Ensures-if (starts_closing (c ∷ cs)) (λ closing. holds (closing-Moves c cs line col closing))
      λ _.
        push_text-Passes (lexer_at (c ∷ cs) line col) next (c ∷ []) _
          (advance_past-Moves c cs line col) (scan_multiline-Passes cs next.line next.col)

as_token-Reads :
    (tag : Tag) (l m : Lexer) (opening : Bytes) (r : Result (Bytes × Lexer))
    → Moves l opening m
    → 0 < length opening
    → Ensures (Passes m) r
    → Ensures (ReadsPair l) (as_token tag (position l) opening r)
as_token-Reads tag l m opening r h pos hr = Ensures-bind hr λ (text, after) p. holds (
    Reads-token tag l after (opening ++ text) (Moves-append h p)
      (omega (arith, length-append_bytes opening text)))

pub lex_string-Reads :
    (cs : Bytes) (line col : ℕ)
    → let l = lexer_at (b'"' ∷ cs) line col in Ensures (ReadsPair l) (lex_string l)
unfolding lex_string
lex_string-Reads cs line col =
    let opened = advance_past b'"' cs line col in
    let tripled = advance (advance opened) in
    Ensures-if (is_quote (get_elem? cs 0) && is_quote (get_elem? cs 1))
      (λ triple.
        as_token-Reads Tag.string (lexer_at (b'"' ∷ cs) line col) tripled _ _
          (closing-Moves b'"' cs line col triple) (omega arith)
          (scan_multiline-Passes tripled.rest tripled.line tripled.col))
      (λ _.
        as_token-Reads Tag.string (lexer_at (b'"' ∷ cs) line col) opened _ _
          (advance_past-Moves b'"' cs line col) (omega arith)
          (scan_string-Passes cs line (col + 1)))

-- A text without its last carriage return.
strip_return-cases :
    (text : Bytes) → (text ≡ strip_return text) ⊎ (text ≡ strip_return text ++ b'\r' ∷ [])
unfolding strip_return
strip_return-cases [] = inl refl
strip_return-cases (c ∷ []) = ground arith
strip_return-cases (c ∷ d ∷ cs) = ground (arith, strip_return-cases (d ∷ cs))

pub scan-pos :
    (test : ℕ → Bool) (c : ℕ) (cs : Bytes) (line col : ℕ)
    → test c ≡ true
    → 0 < length (scan test (c ∷ cs) line col).0
unfolding scan
scan-pos test c cs line col h = rw h (omega arith)

pub lex_comment-Reads :
    (cs : Bytes) (line col : ℕ)
    → let l = lexer_at (b'#' ∷ cs) line col in Ensures (ReadsPair l) (lex_comment l)
unfolding lex_comment
lex_comment-Reads cs line col =
    let test = λ (c : ℕ). not (c == b'\n') in
    let (text, after) = scan test (b'#' ∷ cs) line col in
    holds (record {
      consumed = text;
      moves = scan-Moves test (b'#' ∷ cs) line col;
      placed = refl;
      spelled = elim (strip_return-cases text) [ inl e ↦ inl e | inr e ↦ inr (refl, e) ];
      progress = inr (scan-pos test b'#' cs line col refl);
    })

pub lex_ident-Reads :
    (c : ℕ) (cs : Bytes) (line col : ℕ)
    → is_ident_start c ≡ true
    → let l = lexer_at (c ∷ cs) line col in Ensures (ReadsPair l) (lex_ident l)
unfolding lex_ident
lex_ident-Reads c cs line col h = holds (
    Reads-token _ (lexer_at (c ∷ cs) line col) _ _ (scan-Moves is_ident_char (c ∷ cs) line col)
      (scan-pos is_ident_char c cs line col (unfold is_ident_char in rw h)))
