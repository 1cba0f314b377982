-- ===== src/Lexer/Text.antt =====
-- rust/src/lexer.rs: comments and strings.
use skg.Result
use skg.Base.{
  ℕ, ◌+◌, Bool, not, ◌&&◌, ◌||◌, Option, some, [], ◌∷◌, ◌++◌, Bytes, codes, ◌==◌, nat_eq, bytes_eq,
  option_beq, if◌then◌else◌, get_elem?,
}
use skg.Error.{Position}
use skg.Error.Codes.{unterminated_string, invalid_escape}
use skg.Result.{Result, ok, err}
use skg.Lexer.Scan.{
  Lexed, Lexer, Tag, advance, advance_past, fail_at, peek, peek_ahead, position, scan, scan_while,
  tag_eq, token,
}

-- The loop of `lex_comment`; it meets no newline, so its step is that of `advance`.
unfoldable pub scan_comment : Lexer → Bytes × Lexer
unfolding scan
scan_comment = scan_while (λ c. not (c == b'\n'))

-- `if end > start && self.src[end - 1] == b'\r' { end -= 1; }`
unfoldable pub strip_return : Bytes → Bytes
strip_return [] = []
strip_return (c ∷ []) = if c == b'\r' then [] else c ∷ []
strip_return (c ∷ d ∷ cs) = c ∷ strip_return (d ∷ cs)

unfoldable pub lex_comment : Lexer → Lexed
unfolding scan_comment strip_return
lex_comment l =
    let (text, after) = scan_comment l in
    ok (token Tag.comment (strip_return text) (position l), after)

abbrev pub push_text : Bytes → Result (Bytes × Lexer) → Result (Bytes × Lexer)
push_text text r = Result.bind r λ (more, l). ok (text ++ more, l)

unfoldable pub is_escape : ℕ → Bool
is_escape c = c == b'"' || c == b'\\' || c == b'n' || c == b't'

-- The loop of `lex_string`, from the byte behind the opening quote: the text up to the closing quote,
-- which it holds too, and the lexer behind it.
unfoldable pub scan_string : Bytes → ℕ → ℕ → Result (Bytes × Lexer)
unfolding is_escape
scan_string [] line col = fail_at (record { line = line; col = col }) unterminated_string
scan_string (c ∷ []) line col =
    if c == b'\\'
    then fail_at (record { line = line; col = col }) unterminated_string
    else if c == b'"'
    then ok (c ∷ [], advance_past c [] line col)
    else if c == b'\n'
    then fail_at (record { line = line; col = col }) unterminated_string
    else push_text (c ∷ []) (scan_string [] line (col + 1))
scan_string (c ∷ e ∷ cs) line col =
    let escaped =
      (let more = scan_string cs line (col + 2) in
        if is_escape e
        then push_text (c ∷ e ∷ []) more
        else fail_at (record { line = line; col = col }) invalid_escape) in
    let plain = push_text (c ∷ []) (scan_string (e ∷ cs) line (col + 1)) in
    if c == b'\\'
    then escaped
    else if c == b'"'
    then ok (c ∷ [], advance_past c (e ∷ cs) line col)
    else if c == b'\n'
    then fail_at (record { line = line; col = col }) unterminated_string
    else plain

abbrev pub is_quote : Option ℕ → Bool
is_quote c = option_beq c (some b'"')

abbrev pub starts_closing : Bytes → Bool
starts_closing cs =
    is_quote (get_elem? cs 0) && is_quote (get_elem? cs 1) && is_quote (get_elem? cs 2)

-- The loop of `lex_multiline_string`: the text and the three closing quotes.
unfoldable pub scan_multiline : Bytes → ℕ → ℕ → Result (Bytes × Lexer)
scan_multiline [] line col = fail_at (record { line = line; col = col }) unterminated_string
scan_multiline (c ∷ cs) line col =
    let next = advance_past c cs line col in
    let more = push_text (c ∷ []) (scan_multiline cs next.line next.col) in
    if starts_closing (c ∷ cs) then ok (codes "\"\"\"", advance (advance next)) else more

abbrev pub as_token : Tag → Position → Bytes → Result (Bytes × Lexer) → Lexed
as_token tag start opening r =
    Result.bind r λ (text, after). ok (token tag (opening ++ text) start, after)

unfoldable pub lex_string : Lexer → Lexed
unfolding scan_string scan_multiline
lex_string l =
    let opened = advance l in
    let tripled = advance (advance opened) in
    if is_quote (peek opened) && is_quote (peek_ahead opened 1)
    then as_token Tag.string (position l) (codes "\"\"\"")
        (scan_multiline tripled.rest tripled.line tripled.col)
    else as_token Tag.string (position l) (codes "\"")
        (scan_string opened.rest opened.line opened.col)
