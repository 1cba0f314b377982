-- ===== src/RoundTrip/Stream.antt =====
-- rust/src/parser.rs: the text that is ahead of a parser, and what its token operations read of it.
use skg.Base.{
  ℕ, suc, true, false, Option, none, some, [], ◌++◌, Bytes, ◌≡◌, refl, sym, ◌∙◌, ◌==◌, nat_eq, all,
  subst, append_assoc, length, all-append,
}
use skg.Result.{Result, ok, Yields, yields, Yields-bind}
use skg.Lexer.{next}
use skg.Lexer.Scan.{Lexer, Tag, Token, tag_eq, tag_beq_iff, is_space}
use skg.Lexer.Spell.{Lexes, Read, Lexes-blanks}
use skg.Parser.State.{
  Parser, consume, consume_at, peek, peek_at, fill_peeked, skip_comments, next_token, with_path,
  expect, expect_tag, drain_comments, try_trailing_comment, trailing_at, trailing_of,
}

-- `src` lies before the lexer, behind white space at most.
pub record Before (l : Lexer) (src : Bytes) : Type 0 where
  pub blank : Bytes
  pub is_blank : all is_space blank ≡ true
  pub rest_is : l.rest ≡ blank ++ src

-- The token that is peeked, if there is one, is the first of `src`.
pub record Peeked (t : Token) (l : Lexer) (src : Bytes) : Type 0 where
  pub start : Lexer
  pub before : Before start src
  pub gives : next start ≡ ok (t, l)
  pub not_comment : (t.tag == Tag.comment) ≡ false

abbrev pub Ahead : Option Token → Lexer → Bytes → Type 0
Ahead none l src = Before l src
Ahead (some t) l src = Peeked t l src

-- The parser stands before `src`, at a depth, with no comment in its buffer.
pub record Stream (p : Parser) (src : Bytes) (depth : ℕ) : Type 0 where
  pub ahead : Ahead p.peeked p.lex src
  pub no_comments : p.comment_buf ≡ []
  pub depth_is : p.depth ≡ depth

Before-blank :
    {l : Lexer} {src : Bytes} (blank : Bytes)
    → all is_space blank ≡ true
    → Before l (blank ++ src)
    → Before l src
Before-blank {l} {src} blank h b = record {
  blank = b.blank ++ blank;
  is_blank = all-append is_space b.blank blank b.is_blank h;
  rest_is = b.rest_is ∙ sym (append_assoc b.blank blank src);
}

Ahead-blank :
    (o : Option Token) (l : Lexer) (src blank : Bytes)
    → all is_space blank ≡ true
    → Ahead o l (blank ++ src)
    → Ahead o l src
Ahead-blank none l src blank h a = Before-blank blank h a
Ahead-blank (some t) l src blank h a = record {
  start = a.start;
  before = Before-blank blank h a.before;
  gives = a.gives;
  not_comment = a.not_comment;
}

-- White space ahead can be left out.
pub Stream-blank :
    {p : Parser} {src : Bytes} {depth : ℕ} (blank : Bytes)
    → all is_space blank ≡ true
    → Stream p (blank ++ src) depth
    → Stream p src depth
Stream-blank {p} {src} blank h s = record {
  ahead = Ahead-blank p.peeked p.lex src blank h s.ahead;
  no_comments = s.no_comments;
  depth_is = s.depth_is;
}

Before-Read :
    {src text more : Bytes} {tag : Tag} (l : Lexer)
    → Before l src
    → Lexes src tag text more
    → Read tag text more (next l)
Before-Read {src} {text} {more} {tag} l b k =
    let r = (Lexes-blanks b.blank b.is_blank k).read l.line l.col in
    subst (λ rest. Read tag text more (next (record { rest = rest; line = l.line; col = l.col })))
      (sym b.rest_is) r

-- What reading a token gives: the token, and the parser before the rest.
abbrev pub Taken : Tag → Bytes → Bytes → ℕ → Token × Parser → Type 0
Taken tag text more depth (t, q) = (t.tag ≡ tag) × (t.text ≡ text) × Stream q more depth

with_path-Taken :
    {tag : Tag} {text more : Bytes} {depth : ℕ} (p : Parser) (outcome : Result (Token × Lexer))
    → p.peeked ≡ none
    → p.comment_buf ≡ []
    → p.depth ≡ depth
    → Read tag text more outcome
    → Yields (Taken tag text more depth) (with_path p outcome)
unfolding with_path
with_path-Taken {tag} {text} {more} {depth} p outcome e c d r = rw r.gives (
    yields (
      r.tag_is,
      r.text_is,
      record {
        ahead =
            subst (λ o. Ahead o r.lexer more) (sym e)
              (record { blank = []; is_blank = refl; rest_is = r.rest_is });
        no_comments = c;
        depth_is = d;
      },
    ))

consume_at-Taken :
    {tag : Tag} {src text more : Bytes} {depth : ℕ} (o : Option Token) (p : Parser)
    → p.peeked ≡ o
    → Ahead o p.lex src
    → p.comment_buf ≡ []
    → p.depth ≡ depth
    → Lexes src tag text more
    → Yields (Taken tag text more depth) (consume_at o p)
unfolding consume_at next_token
consume_at-Taken none p e a c d k = with_path-Taken p (next p.lex) e c d (Before-Read p.lex a k)
consume_at-Taken (some t) p e a c d k =
    let r = Before-Read a.start a.before k in
    let same : ◌≡◌ {A = Result (Token × Lexer)} (ok (t, p.lex)) (ok (r.token, r.lexer)) =
      sym a.gives ∙ r.gives in
    yields (
      cc (same, r.tag_is),
      cc (same, r.text_is),
      record {
        ahead = record { blank = []; is_blank = refl; rest_is = cc (same, r.rest_is) };
        no_comments = c;
        depth_is = d;
      },
    )

-- `consume` takes the first token of the text ahead.
pub consume-Taken :
    {p : Parser} {src text more : Bytes} {tag : Tag} {depth : ℕ}
    → Stream p src depth
    → Lexes src tag text more
    → Yields (Taken tag text more depth) (consume p)
unfolding consume
consume-Taken {p} s k = consume_at-Taken p.peeked p refl s.ahead s.no_comments s.depth_is k

-- What looking at the next token gives: the token, and the parser before the same text.
abbrev pub Shown : Tag → Bytes → Bytes → ℕ → Token × Parser → Type 0
Shown tag text src depth (t, q) = (t.tag ≡ tag) × (t.text ≡ text) × Stream q src depth

skip_comments-none :
    (f : ℕ) (t : Token) (p : Parser)
    → (t.tag == Tag.comment) ≡ false
    → skip_comments (suc f) t p ≡ ok (t, p)
unfolding skip_comments
skip_comments-none f t p h = rw h refl

next_token-Read :
    {tag : Tag} {text more : Bytes} (p : Parser) (r : Read tag text more (next p.lex))
    → next_token p ≡ ok (r.token, record p { lex = r.lexer })
unfolding next_token with_path
next_token-Read p r = rw r.gives refl

fill_peeked-Shown :
    {tag : Tag} {src text more : Bytes} {depth : ℕ} (p : Parser)
    → Before p.lex src
    → p.comment_buf ≡ []
    → p.depth ≡ depth
    → (tag == Tag.comment) ≡ false
    → Lexes src tag text more
    → Yields (Shown tag text src depth) (fill_peeked p)
unfolding fill_peeked
fill_peeked-Shown p b c d h k =
    let r = Before-Read p.lex b k in
    let plain : (r.token.tag == Tag.comment) ≡ false = rw r.tag_is h in
    rw (next_token-Read p r, skip_comments-none (length p.lex.rest) r.token _ plain)
      (yields (
        r.tag_is,
        r.text_is,
        record {
          ahead = record { start = p.lex; before = b; gives = r.gives; not_comment = plain };
          no_comments = c;
          depth_is = d;
        },
      ))

peek_at-Shown :
    {tag : Tag} {src text more : Bytes} {depth : ℕ} (o : Option Token) (p : Parser)
    → p.peeked ≡ o
    → Ahead o p.lex src
    → Stream p src depth
    → (tag == Tag.comment) ≡ false
    → Lexes src tag text more
    → Yields (Shown tag text src depth) (peek_at o p)
unfolding peek_at
peek_at-Shown none p e a s h k = fill_peeked-Shown p a s.no_comments s.depth_is h k
peek_at-Shown (some t) p e a s h k =
    let r = Before-Read a.start a.before k in
    let same : ◌≡◌ {A = Result (Token × Lexer)} (ok (t, p.lex)) (ok (r.token, r.lexer)) =
      sym a.gives ∙ r.gives in
    yields (cc (same, r.tag_is), cc (same, r.text_is), s)

-- `peek` shows the first token of the text ahead, which is no comment.
pub peek-Shown :
    {p : Parser} {src text more : Bytes} {tag : Tag} {depth : ℕ}
    → Stream p src depth
    → (tag == Tag.comment) ≡ false
    → Lexes src tag text more
    → Yields (Shown tag text src depth) (peek p)
unfolding peek
peek-Shown {p} s h k = peek_at-Shown p.peeked p refl s.ahead s h k

-- `expect` takes a token of the kind that it expects.
pub expect-Taken :
    {p : Parser} {src text more : Bytes} {depth : ℕ} (tag : Tag)
    → Stream p src depth
    → Lexes src tag text more
    → Yields (Taken tag text more depth) (expect tag p)
unfolding expect expect_tag
expect-Taken tag s k = Yields-bind (consume-Taken s k) λ (t, q) (tag_is, text_is, s').
    let same : (t.tag == tag) ≡ true = (tag_beq_iff t.tag tag).1 tag_is in
    rw same (yields (tag_is, text_is, s'))

pub drain_comments-Stream :
    {p : Parser} {src : Bytes} {depth : ℕ}
    → Stream p src depth
    → Yields (λ (cs, q). (cs ≡ []) × Stream q src depth) (drain_comments p)
unfolding drain_comments
drain_comments-Stream s =
    yields (s.no_comments, record { ahead = s.ahead; no_comments = refl; depth_is = s.depth_is })

-- The text goes on with a token that is no comment.
pub record Goes (src : Bytes) : Type 0 where
  pub tag : Tag
  pub text : Bytes
  pub more : Bytes
  pub lexes : Lexes src tag text more
  pub not_comment : (tag == Tag.comment) ≡ false

trailing_at-Stream :
    {src : Bytes} {depth : ℕ} (o : Option Token) (line : ℕ) (p : Parser)
    → p.peeked ≡ o
    → Ahead o p.lex src
    → Stream p src depth
    → Goes src
    → Yields (λ (t, q). (t ≡ none) × Stream q src depth) (trailing_at o line p)
unfolding trailing_at trailing_of
trailing_at-Stream none line p e a s g =
    let r = Before-Read p.lex a g.lexes in
    let plain : (r.token.tag == Tag.comment) ≡ false = rw r.tag_is g.not_comment in
    rw (next_token-Read p r, plain)
      (yields (
        refl,
        record {
          ahead = record { start = p.lex; before = a; gives = r.gives; not_comment = plain };
          no_comments = s.no_comments;
          depth_is = s.depth_is;
        },
      ))
trailing_at-Stream (some t) line p e a s g = yields (refl, s)

-- No comment trails where the text goes on with another token.
pub try_trailing_comment-Stream :
    {p : Parser} {src : Bytes} {depth : ℕ} (line : ℕ)
    → Stream p src depth
    → Goes src
    → Yields (λ (t, q). (t ≡ none) × Stream q src depth) (try_trailing_comment line p)
unfolding try_trailing_comment
try_trailing_comment-Stream {p} line s g = trailing_at-Stream p.peeked line p refl s.ahead s g
