-- ===== src/Lexer.antt =====
-- rust/src/lexer.rs. The cursor `pos` into the source is the list of the bytes from it on; a loop
-- that moves it gives the bytes that it passed and the lexer behind them. `from_utf8_lossy` changes
-- nothing, since the parser has validated the source.
pub mod Strings
pub mod Text
pub mod Scan
mod Tests
pub mod Cursor
pub mod Tokens
pub mod Spell
use skg.Base.{
  ℕ, zero, suc, ◌+◌, ◌<◌, Bool, true, false, not, ◌&&◌, ◌||◌, Option, none, some, List, [], ◌∷◌,
  ◌++◌, Bytes, codes, ltb, within, Eq, ◌==◌, nat_eq, bytes_eq, bytes_beq, option_beq, if◌then◌else◌,
  length, all, get_elem?, get_or, ◌≡◌, refl, sym, ap, ◌∙◌, ◌↔◌, ==_iff,
}
use skg.Error.{Position, Diagnostic, diagnostic}
use skg.Error.Codes.{
  ErrorCode, unexpected_char, unterminated_string, invalid_escape, invalid_int, invalid_float,
}
use skg.Result
use skg.Result.{Result, ok, err}
use skg.Lexer.Scan.{
  Lexed, Lexer, Tag, Token, advance, advance_bytes, advance_past, at, bool_false, bool_true, colon,
  comma, fail_at, ident, is_digit, is_ident_char, is_ident_start, is_identifier, is_reserved,
  is_space, l_brace, l_bracket, new_lexer, null_literal, peek, peek_ahead, position, r_brace,
  r_bracket, scan, scan_while, skip_whitespace, tag_beq, tag_beq_iff, tag_eq, tag_index, token,
}
use skg.Lexer.Text.{
  is_escape, lex_comment, lex_string, scan_comment, scan_multiline, scan_string, strip_return,
}

abbrev some_and : Option ℕ → (ℕ → Bool) → Bool
some_and none test = false
some_and (some c) test = test c

-- `self.pos - int_start > 1 && self.src[int_start] == b'0'`
unfoldable pub has_leading_zero : Bytes → Bool
has_leading_zero digits = ltb 1 (length digits) && option_beq (get_elem? digits 0) (some b'0')

abbrev pub is_empty : Bytes → Bool
is_empty [] = true
is_empty (c ∷ cs) = false

-- Behind the decimal point of a literal that starts at `start`, whose text up to it is `text`.
unfoldable pub lex_fraction : Position → Bytes → Bool → Lexer → Lexed
unfolding scan is_digit is_ident_char
lex_fraction start text leading_zero l =
    let (fraction, after) = scan_while is_digit l in
    if is_empty fraction || leading_zero
    then fail_at start invalid_float
    else if some_and (peek after) (λ suffix. is_ident_char suffix || suffix == b'.')
    then fail_at start invalid_float
    else ok (token Tag.float (text ++ fraction) start, after)

-- Behind the integer part.
unfoldable pub lex_integer_end : Position → Bytes → Bool → Lexer → Lexed
unfolding is_ident_char
lex_integer_end start text leading_zero l =
    if leading_zero
    then fail_at start invalid_int
    else if some_and (peek l) is_ident_char
    then fail_at start (
        if some_and (peek l) (λ suffix. suffix == b'e' || suffix == b'E')
        then invalid_float
        else invalid_int)
    else ok (token Tag.int text start, l)

unfoldable pub scan_sign : Lexer → Bytes × Lexer
scan_sign l = if option_beq (peek l) (some b'-') then (codes "-", advance l) else ([], l)

unfoldable pub lex_number : Lexer → Lexed
unfolding scan_sign scan is_digit has_leading_zero lex_fraction lex_integer_end
lex_number l =
    let (sign, unsigned) = scan_sign l in
    let (digits, after) = scan_while is_digit unsigned in
    let leading_zero = has_leading_zero digits in
    if option_beq (peek after) (some b'.')
    then lex_fraction (position l) (sign ++ digits ++ codes ".") leading_zero (advance after)
    else lex_integer_end (position l) (sign ++ digits) leading_zero after

unfoldable pub lex_negative_number : Lexer → Lexed
unfolding lex_number
lex_negative_number l =
    if some_and (peek_ahead l 1) is_digit
    then lex_number l
    else fail_at (position l) unexpected_char

unfoldable pub ident_tag : Bytes → Tag
unfolding bytes_beq
ident_tag text =
    if text == codes "true"
    then bool_true
    else if text == codes "false"
    then bool_false
    else if text == codes "null"
    then null_literal
    else ident

unfoldable pub lex_ident : Lexer → Lexed
unfolding scan is_ident_char ident_tag
lex_ident l =
    let (text, after) = scan_while is_ident_char l in
    ok (token (ident_tag text) text (position l), after)

-- `none` for a byte that is no punctuation.
unfoldable pub punctuation : ℕ → Option Tag
punctuation c =
    if c == b':'
    then some colon
    else if c == b'{'
    then some l_brace
    else if c == b'}'
    then some r_brace
    else if c == b'['
    then some l_bracket
    else if c == b']'
    then some r_bracket
    else if c == b','
    then some comma
    else none

-- The `match c` of `next`, below the punctuation.
unfoldable pub lex_other : ℕ → Lexer → Lexed
unfolding lex_comment lex_string lex_negative_number lex_number lex_ident
lex_other c l =
    if c == b'#'
    then lex_comment l
    else if c == b'"'
    then lex_string l
    else if c == b'-'
    then lex_negative_number l
    else if c == b'.'
    then fail_at (position l)
        (if some_and (peek_ahead l 1) is_digit then invalid_float else unexpected_char)
    else if is_digit c
    then lex_number l
    else if is_ident_start c
    then lex_ident l
    else fail_at (position l) unexpected_char

unfoldable pub lex_byte : ℕ → Lexer → Lexed
unfolding lex_other punctuation
lex_byte c l =
    if c == b'@'
    then ok (token Tag.at (codes "@") (position l), advance l)
    else elim (punctuation c) [
      | some tag ↦ ok (token tag (c ∷ []) (position l), advance l)
      | none ↦ lex_other c l
    ]

-- `next`, once the white space is skipped.
unfoldable pub lex_token : Lexer → Lexed
unfolding lex_byte
lex_token l = elim (peek l) [ none ↦ ok (token Tag.eof [] (position l), l) | some c ↦ lex_byte c l ]

unfoldable pub next : Lexer → Lexed
unfolding lex_token scan is_space
next l = lex_token (skip_whitespace l)
