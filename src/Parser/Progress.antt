-- ===== src/Parser/Progress.antt =====
-- rust/src/parser.rs: the token operations, by the bytes that they leave, the path and the depth.
use skg.Base.{
  ℕ, suc, not, ◌&&◌, Option, none, some, ◌≡◌, ◌≢◌, refl, ◌∙◌, arith, ◌==◌, nat_eq, length,
}
use skg.Result.{Ensures, holds, failed, Ensures-bind, Ensures-if, Ensures-map}
use skg.Lexer.Scan.{Tag, Token, tag_eq, tag_beq_iff}
use skg.Parser.State.{
  Parser, record_comment, buffer_comment, fill_peeked, peek, peek_at, consume, consume_at,
  drain_comments, try_trailing_comment, trailing_at, trailing_of, expect, expect_tag,
}
use skg.Parser.Weight.{After, After-refl, Raw, next_token-Raw, size, skip_comments-Raw, weight}

-- The token ahead, which stays.
pub record Ahead (p : Parser) (t : Token) (q : Parser) : Type 0 where
  pub after : After p q 0
  pub peeked_is : q.peeked ≡ some t

abbrev pub AheadPair : Parser → Token × Parser → Type 0
AheadPair p (t, q) = Ahead p t q

fill_peeked-Ahead : (p : Parser) → p.peeked ≡ none → Ensures (AheadPair p) (fill_peeked p)
unfolding fill_peeked size
fill_peeked-Ahead p empty = Ensures-bind (next_token-Raw p) λ (t, q) r.
    let left = r.left in
    Ensures-bind (skip_comments-Raw (suc (length p.lex.rest)) t q (omega arith))
      λ (u, s) (h₁, h₂, h₃, h₄). holds (record {
        after = record {
          path_is = h₁ ∙ r.path_is;
          depth_is = h₂ ∙ r.depth_is;
          size_is = rw empty (omega arith);
        };
        peeked_is = refl;
      })

peek_at-Ahead : (o : Option Token) (p : Parser) → p.peeked ≡ o → Ensures (AheadPair p) (peek_at o p)
unfolding peek_at
peek_at-Ahead none p e = fill_peeked-Ahead p e
peek_at-Ahead (some t) p e = holds (record { after = After-refl p; peeked_is = e })

pub peek-Ahead : (p : Parser) → Ensures (AheadPair p) (peek p)
unfolding peek
peek-Ahead p = peek_at-Ahead p.peeked p refl

-- A token is consumed.
abbrev pub ConsumedPair : Parser → Token × Parser → Type 0
ConsumedPair p (t, q) = After p q (weight t)

consume_at-After :
    (o : Option Token) (p : Parser) → p.peeked ≡ o → Ensures (ConsumedPair p) (consume_at o p)
unfolding consume_at size
consume_at-After none p e = Ensures-map (next_token-Raw p) λ (t, q) r.
    let left = r.left in
    let empty = r.peeked_is ∙ e in
    record { path_is = r.path_is; depth_is = r.depth_is; size_is = rw (empty, e) (omega arith) }
consume_at-After (some t) p e =
    holds (record { path_is = refl; depth_is = refl; size_is = rw e (omega arith) })

pub consume-After : (p : Parser) → Ensures (ConsumedPair p) (consume p)
unfolding consume
consume-After p = consume_at-After p.peeked p refl

consume_at-Ahead :
    (o : Option Token) (p : Parser) (t : Token)
    → p.peeked ≡ o
    → o ≡ some t
    → Ensures (λ (u, q). (u ≡ t) × After p q (weight t)) (consume_at o p)
unfolding consume_at size
consume_at-Ahead none p t e h = cc
consume_at-Ahead (some u) p t e h =
    let same : u ≡ t = cc in
    holds (same, record { path_is = refl; depth_is = refl; size_is = rw (e, same) (omega arith) })

-- The token that is ahead is the one consumed.
pub consume-Ahead :
    (p : Parser) (t : Token)
    → p.peeked ≡ some t
    → Ensures (λ (u, q). (u ≡ t) × After p q (weight t)) (consume p)
unfolding consume
consume-Ahead p t e = consume_at-Ahead p.peeked p t refl e

pub drain_comments-After :
    (p : Parser) → Ensures (λ (cs, q). After p q 0 × (q.peeked ≡ p.peeked)) (drain_comments p)
unfolding drain_comments size
drain_comments-After p =
    holds (record { path_is = refl; depth_is = refl; size_is = omega arith }, refl)

pub expect-After :
    (tag : Tag) (p : Parser)
    → Ensures (λ (t, q). After p q (weight t) × (t.tag ≡ tag)) (expect tag p)
unfolding expect expect_tag
expect-After tag p = Ensures-bind (consume-After p) λ (t, q) h.
    Ensures-if (not (t.tag == tag)) (λ _. failed _)
      λ e. holds (h, (tag_beq_iff t.tag tag).0 (ground arith))

pub weight_other : (t : Token) → t.tag ≢ Tag.eof → weight t ≡ 1
unfolding weight
weight_other t h = ground (arith, tag_beq_iff t.tag Tag.eof)

trailing_of-After :
    (line : ℕ) (t : Token) (p q : Parser)
    → p.peeked ≡ none
    → Raw p t q
    → Ensures (λ (c, s). After p s 0) (trailing_of line t q)
unfolding trailing_of record_comment buffer_comment size
trailing_of-After line t p q e r =
    let left = r.left in
    let empty = r.peeked_is ∙ e in
    Ensures-if (t.tag == Tag.comment && t.line == line)
      (λ _. holds (record {
        path_is = r.path_is;
        depth_is = r.depth_is;
        size_is = rw (empty, e) (omega arith);
      }))
      (λ _.
        Ensures-if (t.tag == Tag.comment)
          (λ _. holds (record {
            path_is = r.path_is;
            depth_is = r.depth_is;
            size_is = rw (empty, e) (omega arith);
          }))
          (λ _.
            holds (record {
              path_is = r.path_is;
              depth_is = r.depth_is;
              size_is = rw e (omega arith);
            })))

trailing_at-After :
    (o : Option Token) (line : ℕ) (p : Parser)
    → p.peeked ≡ o
    → Ensures (λ (c, q). After p q 0) (trailing_at o line p)
unfolding trailing_at
trailing_at-After none line p e =
    Ensures-bind (next_token-Raw p) λ (t, q) r. trailing_of-After line t p q e r
trailing_at-After (some t) line p e = holds (After-refl p)

pub try_trailing_comment-After :
    (line : ℕ) (p : Parser) → Ensures (λ (c, q). After p q 0) (try_trailing_comment line p)
unfolding try_trailing_comment
try_trailing_comment-After line p = trailing_at-After p.peeked line p refl
