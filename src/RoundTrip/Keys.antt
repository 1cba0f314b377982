-- ===== src/RoundTrip/Keys.antt =====
-- rust/src/emit.rs and rust/src/parser.rs: keys, written and parsed, and the tokens that nodes start
-- with.
use skg.Base.{
  ℕ, true, false, ◌&&◌, none, some, [], ◌∷◌, ◌++◌, Bytes, codes, ◌≡◌, refl, ap, ◌∙◌, ◌==◌, nat_eq,
  all,
}
use skg.Model.{Node, delete, field, block, block_array, empty}
use skg.Result.{Yields, yields, Yields-bind, Yields-map}
use skg.Lexer.Scan.{Tag, Token, tag_eq, is_space}
use skg.Lexer.Spell.{Lexes, Lexes-blanks, Lexes-at, Delimited}
use skg.Parser.Text.{is_directive}
use skg.Parser.State.{Parser}
use skg.Parser.Keys.{parse_key, unescaped, is_triple_quoted}
use skg.Emit.{write_key, write_quoted, emit_node, write_indent}
use skg.Emit.Quote.{unescape_string-write_quoted}
use skg.RoundTrip.{IsWritableNode}
use skg.RoundTrip.Texts.{Named, quoted, plain, write_key-Named, is_triple_quoted-write_quoted}
use skg.RoundTrip.Stream.{Stream, Goes, peek-Shown, consume-Taken, expect-Taken}
use skg.RoundTrip.Layout.{
  write_indent_blank, margin, margin_blank, delete_text, field_text, block_text, replace_text,
  block_array_text,
}

-- A key is read, and the text behind it is left.
abbrev pub KeyRead : Bytes → Bytes → ℕ → Token × Parser → Type 0
KeyRead key rest depth (t, q) = (t.text ≡ key) × Stream q rest depth

parse_key-Named :
    {p : Parser} {src : Bytes} {depth : ℕ} (key rest : Bytes) (at : ℕ)
    → Named key src rest at
    → Stream p (src ++ rest) depth
    → Yields (KeyRead key rest depth) (parse_key p)
unfolding parse_key unescaped
parse_key-Named key rest at (quoted k) s =
    Yields-bind (peek-Shown s refl k) λ (t, q) (tag_is, text_is, s').
      let test : (t.tag == Tag.string) ≡ true = ap (λ x. x == Tag.string) tag_is in
      let single : is_triple_quoted t.text ≡ false =
        ap is_triple_quoted text_is ∙ is_triple_quoted-write_quoted key in
      rw (test, single)
        (Yields-bind (consume-Taken s' k) λ (u, r) (tag_is', text_is', s'').
          rw (text_is', unescape_string-write_quoted key) (yields (refl, s'')))
parse_key-Named key rest at (plain k top) s =
    Yields-bind (peek-Shown s refl k) λ (t, q) (tag_is, text_is, s').
      let test : (t.tag == Tag.string) ≡ false = ap (λ x. x == Tag.string) tag_is in
      rw test (
        Yields-map (expect-Taken Tag.ident s' k) λ (u, r) (tag_is', text_is', s''). (text_is', s''))

-- A key that is written is read back.
pub parse_key-write_key :
    {p : Parser} {depth : ℕ} (key rest : Bytes) (at : ℕ)
    → Delimited rest
    → Stream p (write_key key at ++ rest) depth
    → Yields (KeyRead key rest depth) (parse_key p)
parse_key-write_key key rest at d s = parse_key-Named key rest at (write_key-Named key rest at d) s

-- The token that a node starts with: no closing brace, no end and, at the top, no directive.
pub record NodeStart (at : ℕ) (src : Bytes) : Type 0 where
  pub tag : Tag
  pub text : Bytes
  pub more : Bytes
  pub lexes : Lexes src tag text more
  pub not_comment : (tag == Tag.comment) ≡ false
  pub not_brace : (tag == Tag.r_brace) ≡ false
  pub not_eof : (tag == Tag.eof) ≡ false
  pub not_directive : at ≡ 0 → (tag == Tag.ident && is_directive text) ≡ false

pub NodeStart-Goes : {at : ℕ} {src : Bytes} → NodeStart at src → Goes src
NodeStart-Goes n = record {
  tag = n.tag;
  text = n.text;
  more = n.more;
  lexes = n.lexes;
  not_comment = n.not_comment;
}

NodeStart-blank :
    {at : ℕ} {src : Bytes} (blank : Bytes)
    → all is_space blank ≡ true
    → NodeStart at src
    → NodeStart at (blank ++ src)
NodeStart-blank blank h n = record {
  tag = n.tag;
  text = n.text;
  more = n.more;
  lexes = Lexes-blanks blank h n.lexes;
  not_comment = n.not_comment;
  not_brace = n.not_brace;
  not_eof = n.not_eof;
  not_directive = n.not_directive;
}

at_start : (at : ℕ) (src : Bytes) → NodeStart at (b'@' ∷ src)
at_start at src = record {
  tag = Tag.at;
  text = codes "@";
  more = src;
  lexes = Lexes-at src;
  not_comment = refl;
  not_brace = refl;
  not_eof = refl;
  not_directive = λ top. refl;
}

named_start :
    {src : Bytes} (key rest : Bytes) (at : ℕ) → Named key src rest at → NodeStart at (src ++ rest)
named_start key rest at (quoted k) = record {
  tag = Tag.string;
  text = write_quoted key;
  more = rest;
  lexes = k;
  not_comment = refl;
  not_brace = refl;
  not_eof = refl;
  not_directive = λ top. refl;
}
named_start key rest at (plain k safe) = record {
  tag = Tag.ident;
  text = key;
  more = rest;
  lexes = k;
  not_comment = refl;
  not_brace = refl;
  not_eof = refl;
  not_directive = safe;
}

key_start : (key rest : Bytes) (at : ℕ) → Delimited rest → NodeStart at (write_key key at ++ rest)
key_start key rest at d = named_start key rest at (write_key-Named key rest at d)

-- What a node is written as starts with such a token.
pub node_start :
    (show_f64 : ℕ → Bytes) (i at : ℕ) (n : Node) (rest : Bytes)
    → IsWritableNode n
    → NodeStart at (emit_node show_f64 i n at ++ rest)
node_start f i at (delete h none) rest w =
    rw (delete_text f i at h rest w)
      (NodeStart-blank (write_indent at) (write_indent_blank at) (at_start at _))
node_start f i at (field h v none) rest (e, fv, w) =
    rw (field_text f i at h v rest e)
      (NodeStart-blank (write_indent at) (write_indent_blank at) (key_start h.key _ at refl))
node_start f i at (block h true cs []) rest (e, w) =
    rw (replace_text f i at h cs rest e)
      (NodeStart-blank (margin i at) (margin_blank i at) (at_start at _))
node_start f i at (block h false cs []) rest (e, w) =
    rw (block_text f i at h cs rest e)
      (NodeStart-blank (margin i at) (margin_blank i at) (key_start h.key _ at refl))
node_start f i at (block_array h xs []) rest (e, o, w) =
    rw (block_array_text f i at h xs rest e)
      (NodeStart-blank (margin i at) (margin_blank i at) (key_start h.key _ at refl))
node_start f i at (delete h (some c)) rest w = absurd w
node_start f i at (field h v (some c)) rest w = absurd w
node_start f i at (block h r cs (c ∷ t)) rest w = absurd w
node_start f i at (block_array h xs (c ∷ t)) rest w = absurd w
node_start f i at empty rest w = absurd w
