-- ===== src/Parser/State.antt =====
-- The parser's state and its token operations. A method is a function from the state to its result
-- and the new state; where it fails the parse ends, so no state is kept.
use skg.Base.{
  ℕ, zero, suc, ◌+◌, ◌-◌, not, ◌&&◌, Option, none, some, List, [], ◌∷◌, ◌++◌, Bytes, ltb, ◌==◌,
  nat_eq, if◌then◌else◌, length,
}
use skg.Error.{Position, diagnostic}
use skg.Error.Codes.{
  ErrorCode, expected_colon, expected_rbrace, expected_rbracket, expected_string, expected_ident,
  unexpected_token, nesting_too_deep,
}
use skg.Model.{Comment, SourceIdentity}
use skg.Result
use skg.Result.{Result, ok, err, out_of_fuel}
use skg.Lexer.{next}
use skg.Lexer.Scan.{Tag, Token, Lexer, tag_eq}
use skg.Parser.Text.{max_nesting_depth}

pub record Parser : Type 0 where
  pub lex : Lexer
  pub peeked : Option Token
  pub path : Bytes
  pub source : Bytes
  pub source_identity : Option SourceIdentity
  pub depth : ℕ
  pub comment_buf : List Comment
  pub next_comment : ℕ

abbrev pub Parse {ℓ} : Type ℓ → Type ℓ
Parse A = Parser → Result (A × Parser)

abbrev pub pure {ℓ} : {A : Type ℓ} → A → Parse A
pure a p = ok (a, p)

infixl 5 ◌>>=◌ ◌>>◌
abbrev pub ◌>>=◌ {ℓ κ} : {A : Type ℓ} {B : Type κ} → Parse A → (A → Parse B) → Parse B
◌>>=◌ m f p = Result.bind (m p) λ (a, q). f a q

abbrev pub ◌>>◌ {ℓ κ} : {A : Type ℓ} {B : Type κ} → Parse A → Parse B → Parse B
m >> k = m >>= λ _. k

-- `Err(self.error(position, code, …))`
abbrev pub fail {ℓ} : {A : Type ℓ} → Position → ErrorCode → Parse A
fail place code p = err (diagnostic code p.path place)

-- `Position::new(token.line, token.col)`
abbrev pub place_of : Token → Position
place_of t = record { line = t.line; col = t.col }

-- A lexer failure is given the path.
unfoldable pub with_path : Parser → Result (Token × Lexer) → Result (Token × Parser)
with_path p (ok (t, lex)) = ok (t, record p { lex = lex })
with_path p (err d) = err (record d { path = p.path })
with_path p out_of_fuel = out_of_fuel

unfoldable pub next_token : Parse Token
unfolding with_path
next_token p = with_path p (next p.lex)

-- The identity that `record_comment` gives a comment; it is built at the first one.
abbrev pub identity_of : Option SourceIdentity → Bytes → Bytes → SourceIdentity
identity_of none path source = record { path = path; bytes = source }
identity_of (some identity) path source = identity

abbrev pub identity : Parser → SourceIdentity
identity p = identity_of p.source_identity p.path p.source

abbrev pub comment_of : Bytes → Parser → Comment
comment_of text p = record {
  text = text;
  origin = some (record { source = identity p; sequence = p.next_comment });
}

unfoldable pub record_comment : Bytes → Parse Comment
record_comment text p = ok (
  comment_of text p,
  record p { source_identity = some (identity p); next_comment = p.next_comment + 1 },
)

-- `self.comment_buf.push(comment)`
unfoldable pub buffer_comment : Comment → Parse (Unit {0})
buffer_comment c p = ok (tt, record p { comment_buf = p.comment_buf ++ c ∷ [] })

-- The `while` of `peek`. A round reads a comment, so the bytes that are left are fuel enough.
unfoldable pub skip_comments : ℕ → Token → Parse Token
unfolding next_token record_comment buffer_comment
skip_comments zero t p = out_of_fuel
skip_comments (suc f) t p =
    let more =
      (do c ← record_comment t.text; buffer_comment c; u ← next_token; skip_comments f u) p in
    if t.tag == Tag.comment then more else ok (t, p)

abbrev pub set_peeked : Token → Parse (Unit {0})
set_peeked t p = ok (tt, record p { peeked = some t })

unfoldable pub fill_peeked : Parse Token
unfolding next_token skip_comments
fill_peeked p =
    (do t ← next_token; u ← skip_comments (suc (length p.lex.rest)) t; set_peeked u; pure u) p

unfoldable pub peek_at : Option Token → Parse Token
peek_at (some t) p = ok (t, p)
peek_at none p = fill_peeked p

unfoldable pub peek : Parse Token
unfolding peek_at fill_peeked
peek p = peek_at p.peeked p

unfoldable pub consume_at : Option Token → Parse Token
consume_at (some t) p = ok (t, record p { peeked = none })
consume_at none p = next_token p

unfoldable pub consume : Parse Token
unfolding consume_at next_token
consume p = consume_at p.peeked p

unfoldable pub drain_comments : Parse (List Comment)
drain_comments p = ok (p.comment_buf, record p { comment_buf = [] })

-- `try_trailing_comment`, on the raw token that it reads.
unfoldable pub trailing_of : ℕ → Token → Parse (Option Comment)
unfolding record_comment buffer_comment
trailing_of line t p =
    if t.tag == Tag.comment && t.line == line
    then (do c ← record_comment t.text; pure (some c)) p
    else if t.tag == Tag.comment
    then (do c ← record_comment t.text; buffer_comment c; pure none) p
    else ok (none, record p { peeked = some t })

unfoldable pub trailing_at : Option Token → ℕ → Parse (Option Comment)
unfolding trailing_of next_token
trailing_at (some t) line p = ok (none, p)
trailing_at none line p = (next_token >>= trailing_of line) p

unfoldable pub try_trailing_comment : ℕ → Parse (Option Comment)
unfolding trailing_at
try_trailing_comment line p = trailing_at p.peeked line p

-- `self.lex.position().line`
abbrev pub lexer_line : Parse ℕ
lexer_line p = ok (p.lex.line, p)

unfoldable pub expected_code : Tag → ErrorCode
expected_code Tag.colon = expected_colon
expected_code Tag.r_brace = expected_rbrace
expected_code Tag.r_bracket = expected_rbracket
expected_code Tag.string = expected_string
expected_code Tag.ident = expected_ident
expected_code _ = unexpected_token

unfoldable pub expect_tag : Tag → Token → Parse Token
unfolding expected_code
expect_tag tag t p =
    if not (t.tag == tag) then fail (place_of t) (expected_code tag) p else ok (t, p)

unfoldable pub expect : Tag → Parse Token
unfolding expect_tag consume
expect tag = consume >>= expect_tag tag

unfoldable pub enter : Position → Parse (Unit {0})
enter place p =
    if ltb max_nesting_depth (p.depth + 1)
    then fail place nesting_too_deep p
    else ok (tt, record p { depth = p.depth + 1 })

unfoldable pub leave : Parse (Unit {0})
leave p = ok (tt, record p { depth = p.depth - 1 })
