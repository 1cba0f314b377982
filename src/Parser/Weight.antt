-- ===== src/Parser/Weight.antt =====
-- rust/src/parser.rs: what a token counts for, and what the parser keeps between tokens.
use skg.Base.{
  length-append_bytes, ℕ, zero, suc, ◌+◌, ◌<◌, ◌≤◌, true, Option, none, some, [], ◌∷◌, ◌++◌, ◌≡◌,
  refl, ap, ◌∙◌, inl, inr, arith, ◌==◌, nat_eq, if◌then◌else◌, length,
}
use skg.Result.{Result, Ensures, holds, failed, Ensures-bind, Ensures-if, Ensures-map}
use skg.Lexer.Scan.{Tag, Token, Lexer, tag_eq, tag_beq_iff}
use skg.Lexer.Tokens.{NextReads, next-Reads}
use skg.Parser.State.{
  Parser, next_token, with_path, record_comment, buffer_comment, skip_comments, identity,
  comment_of,
}

-- The bytes that a token used up, at least.
unfoldable pub weight : Token → ℕ
weight t = if t.tag == Tag.eof then 0 else 1

abbrev pub peeked_weight : Option Token → ℕ
peeked_weight none = 0
peeked_weight (some t) = weight t

-- What is left to parse.
unfoldable pub size : Parser → ℕ
size p = length p.lex.rest + peeked_weight p.peeked

-- `q` comes after `p` in a parse, `lost` or more behind it, at the same depth of the same file.
pub record After (p q : Parser) (lost : ℕ) : Type 0 where
  pub path_is : q.path ≡ p.path
  pub depth_is : q.depth ≡ p.depth
  pub size_is : size q + lost ≤ size p

pub After-trans : {p q r : Parser} {a b : ℕ} → After p q a → After q r b → After p r (a + b)
After-trans h k = record {
  path_is = k.path_is ∙ h.path_is;
  depth_is = k.depth_is ∙ h.depth_is;
  size_is = omega arith;
}

pub After-le : {p q : Parser} {a : ℕ} (b : ℕ) → b ≤ a → After p q a → After p q b
After-le b le h = record { path_is = h.path_is; depth_is = h.depth_is; size_is = omega arith }

pub After-refl : (p : Parser) → After p p 0
After-refl p = record { path_is = refl; depth_is = refl; size_is = omega arith }

-- A raw token is read: the lexer alone moves.
pub record Raw (p : Parser) (t : Token) (q : Parser) : Type 0 where
  pub path_is : q.path ≡ p.path
  pub depth_is : q.depth ≡ p.depth
  pub peeked_is : q.peeked ≡ p.peeked
  pub left : length q.lex.rest + weight t ≤ length p.lex.rest

abbrev pub RawPair : Parser → Token × Parser → Type 0
RawPair p (t, q) = Raw p t q

weight-le : (t : Token) → weight t ≤ 1
unfolding weight
weight-le t = ground arith

weight-eof : (t : Token) → t.tag ≡ Tag.eof → weight t ≡ 0
unfolding weight
weight-eof t e = rw e

NextReads-left :
    (l m : Lexer) (t : Token) → NextReads l t m → length m.rest + weight t ≤ length l.rest
NextReads-left l m t h =
    let r = h.reads in
    let skipped = ap length h.skipped.splits ∙ length-append_bytes h.blank h.start.rest in
    let passed = ap length r.moves.splits ∙ length-append_bytes r.consumed m.rest in
    elim r.progress [
      | inl (e, nothing) ↦ omega (arith, skipped, passed, weight-eof t e, ap length nothing)
      | inr some_bytes ↦ omega (arith, skipped, passed, weight-le t)
    ]

with_path-Raw :
    (p : Parser) {r : Result (Token × Lexer)}
    → Ensures (λ (t, m). NextReads p.lex t m) r
    → Ensures (RawPair p) (with_path p r)
unfolding with_path
with_path-Raw p (holds {a = (t, m)} h) = holds (record {
  path_is = refl;
  depth_is = refl;
  peeked_is = refl;
  left = NextReads-left p.lex m t h;
})
with_path-Raw p (failed d) = failed _

pub next_token-Raw : (p : Parser) → Ensures (RawPair p) (next_token p)
unfolding next_token
next_token-Raw p = with_path-Raw p (next-Reads p.lex)

weight-comment : (t : Token) → (t.tag == Tag.comment) ≡ true → weight t ≡ 1
unfolding weight
weight-comment t h = let e = (tag_beq_iff t.tag Tag.comment).0 h in rw e

-- The state behind a comment that is recorded and buffered.
abbrev buffered : Token → Parser → Parser
buffered t p = record p {
  source_identity = some (identity p);
  next_comment = p.next_comment + 1;
  comment_buf = p.comment_buf ++ comment_of t.text p ∷ [];
}

-- With more fuel than bytes left the comments are skipped.
pub skip_comments-Raw :
    (f : ℕ) (t : Token) (p : Parser)
    → length p.lex.rest + weight t < f
    → Ensures
        (λ (u, q).
          (q.path ≡ p.path)
          × (q.depth ≡ p.depth)
          × (q.peeked ≡ p.peeked)
          × (length q.lex.rest + weight u ≤ length p.lex.rest + weight t))
        (skip_comments f t p)
unfolding skip_comments record_comment buffer_comment
skip_comments-Raw zero t p h = absurd (omega arith)
skip_comments-Raw (suc f) t p h =
    Ensures-if (t.tag == Tag.comment)
      (λ e.
        let one = weight-comment t e in
        Ensures-bind (next_token-Raw (buffered t p)) λ (u, q) r.
          let left = r.left in
          Ensures-map (skip_comments-Raw f u q (omega arith)) λ (v, s) (h₁, h₂, h₃, h₄).
            (h₁ ∙ r.path_is, h₂ ∙ r.depth_is, h₃ ∙ r.peeked_is, omega arith))
      (λ _. holds (refl, refl, refl, omega arith))
