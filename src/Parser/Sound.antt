-- ===== src/Parser/Sound.antt =====
-- rust/src/parser.rs: keys, operations and the node that a value makes, by the bytes left, the depth
-- and the well-formed nodes.
use skg.Base.{
  ℕ, suc, ◌+◌, ◌<◌, ◌≤◌, Bool, true, false, not, ◌&&◌, Option, none, some, Bytes, codes, ◌≡◌, ◌≢◌,
  refl, sym, ◌∙◌, arith, ◌==◌, nat_eq, bytes_eq, if◌then◌else◌, ltb,
}
use skg.Error.{Position}
use skg.Model.{
  Head, ValueType, Value, Node, int, array, object, delete, field, block, block_array, empty,
  no_items,
}
use skg.Merge.Keyed.{IsKeyedNode, IsKeyedValue}
use skg.Merge.Nesting.{nest_node, nest_value}
use skg.Result.{Ensures, holds, failed, Ensures-bind, Ensures-if, Ensures-map}
use skg.Lexer.Scan.{Tag, Token, tag_eq, tag_beq_iff}
use skg.Parser.Text.{max_nesting_depth, unescape_string}
use skg.Parser.State.{Parser, Parse, place_of, consume, enter}
use skg.Parser.Grammar.{delete_of, operation_head, expect_body, block_of}
use skg.Parser.Keys.{unescaped, is_triple_quoted, parse_key, set_path, field_of, node_of}
use skg.Parser.Progress.{
  Ahead, peek-Ahead, consume-Ahead, expect-After, weight_other, try_trailing_comment-After,
}
use skg.Parser.Weight.{weight, size, After, After-trans, After-le}

pub Ensures-branch {ℓ κ} :
    {A : Type ℓ} {P : A × Parser → Type κ} (b : Bool) (m n : Parse A) (p : Parser)
    → (b ≡ true → Ensures P (m p))
    → (b ≡ false → Ensures P (n p))
    → Ensures P ((if b then m else n) p)
Ensures-branch true m n p hm hn = hm refl
Ensures-branch false m n p hm hn = hn refl

-- A token with a tag other than the end of the file weighs one.
pub weight_tag : (t : Token) (tag : Tag) → (t.tag == tag) ≡ true → tag ≢ Tag.eof → weight t ≡ 1
weight_tag t tag h ne =
    let e = (tag_beq_iff t.tag tag).0 h in weight_other t (λ eof. ne (sym e ∙ eof))

pub weight_is : (t : Token) (tag : Tag) → t.tag ≡ tag → tag ≢ Tag.eof → weight t ≡ 1
weight_is t tag e ne = weight_other t (λ eof. ne (sym e ∙ eof))

-- A token ahead, of a tag other than the end of the file, is consumed.
pub consume_tag :
    (p q : Parser) (t : Token) (tag : Tag)
    → Ahead p t q
    → (t.tag == tag) ≡ true
    → tag ≢ Tag.eof
    → Ensures (λ (u, r). After p r 1) (consume q)
consume_tag p q t tag a h ne = Ensures-map (consume-Ahead q t a.peeked_is) λ (u, r) (same, after).
    After-le 1 (omega (arith, weight_tag t tag h ne)) (After-trans a.after after)

pub unescaped-After :
    (place : Position) (o : Option Bytes) (p : Parser)
    → Ensures (λ (s, q). q ≡ p) (unescaped place o p)
unfolding unescaped
unescaped-After place none p = failed _
unescaped-After place (some s) p = holds refl

pub parse_key-After : (p : Parser) → Ensures (λ (t, q). After p q 1) (parse_key p)
unfolding parse_key
parse_key-After p = Ensures-bind (peek-Ahead p) λ (ahead, q) a.
    Ensures-branch (ahead.tag == Tag.string && not (is_triple_quoted ahead.text)) _ _ q
      (λ h. Ensures-bind (consume_tag p q ahead Tag.string a (ground arith) (cc)) λ (t, r) after.
        Ensures-bind (unescaped-After (place_of t) (unescape_string t.text) r)
          λ (s, u) e. holds (rw e after))
      (λ _. Ensures-map (expect-After Tag.ident q) λ (t, r) (after, e).
        After-le 1 (omega (arith, weight_is t Tag.ident e (cc))) (After-trans a.after after))

-- What a value's parse gives: at least a byte is read, and the limit on nesting is kept.
pub record Valued (lost : ℕ) (p : Parser) (v : Value) (q : Parser) : Type 0 where
  pub after : After p q lost
  pub keyed : IsKeyedValue v
  pub nested : nest_value v + p.depth ≤ max_nesting_depth

abbrev pub ValuedPair : ℕ → Parser → Value × Parser → Type 0
ValuedPair lost p (v, q) = Valued lost p v q

pub record Noded (lost : ℕ) (p : Parser) (n : Node) (q : Parser) : Type 0 where
  pub after : After p q lost
  pub keyed : IsKeyedNode n
  pub nested : nest_node n + p.depth ≤ max_nesting_depth

abbrev pub NodedPair : ℕ → Parser → Node × Parser → Type 0
NodedPair lost p (n, q) = Noded lost p n q

-- Inside a brace or a bracket: a level deeper, or behind the closing one.
pub record Inside (p : Parser) (v : Value) (q : Parser) (deeper : ℕ) : Type 0 where
  pub path_is : q.path ≡ p.path
  pub depth_is : q.depth + deeper ≡ p.depth
  pub size_is : size q ≤ size p
  pub keyed : IsKeyedValue v
  pub nested : nest_value v + p.depth ≤ suc max_nesting_depth

abbrev pub InsidePair : ℕ → Parser → Value × Parser → Type 0
InsidePair deeper p (v, q) = Inside p v q deeper

abbrev pub HasRoom : Parser → Type 0
HasRoom p = p.depth ≤ max_nesting_depth

pub enter-deeper :
    (place : Position) (p : Parser)
    → Ensures
        (λ (u, q).
          (q.path ≡ p.path)
          × (q.depth ≡ p.depth + 1)
          × (size q ≡ size p)
          × (p.depth < max_nesting_depth))
        (enter place p)
unfolding enter size
enter-deeper place p =
    Ensures-if (ltb max_nesting_depth (p.depth + 1)) (λ _. failed _)
      λ h. holds (refl, refl, refl, ground arith)

pub set_path-Noded :
    {lost : ℕ} {p q : Parser} {n : Node} (path : Bytes)
    → Noded lost p n q
    → Noded lost p (set_path path n) q
unfolding set_path
set_path-Noded {n = delete h t} path x = record {
  after = x.after;
  keyed = x.keyed;
  nested = x.nested;
}
set_path-Noded {n = field h v t} path x = record {
  after = x.after;
  keyed = x.keyed;
  nested = x.nested;
}
set_path-Noded {n = block h r cs t} path x = record {
  after = x.after;
  keyed = x.keyed;
  nested = x.nested;
}
set_path-Noded {n = block_array h xs t} path x = record {
  after = x.after;
  keyed = x.keyed;
  nested = x.nested;
}
set_path-Noded {n = empty} path x = x

pub field_of-Noded :
    {lost : ℕ} {p q : Parser} (h : Head) (v : Value)
    → Valued lost p v q
    → Ensures (NodedPair lost p) (field_of h v q)
unfolding field_of
field_of-Noded {lost} {p} {q} h v x =
    Ensures-bind (try_trailing_comment-After q.lex.line q) λ (t, r) after. holds (record {
      after = After-le lost (omega arith) (After-trans x.after after);
      keyed = x.keyed;
      nested = x.nested;
    })

-- The node that a value makes is as deep as the value.
pub node_of-Noded :
    {lost : ℕ} {p q : Parser} (h : Head) (colonless : Bool) (v : Value)
    → Valued lost p v q
    → Ensures (NodedPair lost p) (node_of h colonless v q)
unfolding node_of
node_of-Noded h c (object cs t) x =
    holds (record { after = x.after; keyed = x.keyed; nested = x.nested })
node_of-Noded h c (array ValueType.object xs t) x =
    holds (record { after = x.after; keyed = x.keyed; nested = x.nested })
node_of-Noded h true (array element no_items t) x =
    holds (record { after = x.after; keyed = x.keyed; nested = x.nested })
node_of-Noded h c v x = field_of-Noded h v x

pub delete_of-Noded :
    {lost : ℕ} {p q : Parser} (h : Head)
    → After p q lost
    → HasRoom p
    → Ensures (NodedPair lost p) (delete_of h q)
unfolding delete_of
delete_of-Noded {lost} {p} {q} h after room =
    Ensures-bind (try_trailing_comment-After q.lex.line q) λ (t, r) more. holds (record {
      after = After-le lost (omega arith) (After-trans after more);
      keyed = tt;
      nested = omega arith;
    })

-- `block_of` meets objects alone.
abbrev pub IsObject : Value → Type 0
IsObject (object cs t) = Unit {0}
IsObject _ = ⊥

pub block_of-Noded :
    {lost : ℕ} {p q : Parser} (h : Head) (v : Value)
    → IsObject v
    → Valued lost p v q
    → Ensures (NodedPair lost p) (block_of h v q)
unfolding block_of
block_of-Noded h (object cs t) o x =
    holds (record { after = x.after; keyed = x.keyed; nested = x.nested })
block_of-Noded h (int n) o x = absurd o
block_of-Noded h _ o x = absurd o

abbrev pub HeadPair : Parser → (Bool × Token) × Parser → Type 0
HeadPair p (r, q) = After p q 1

pub operation_head-After :
    (p q : Parser) (t : Token)
    → Ahead p t q
    → (t.tag == Tag.at) ≡ true
    → Ensures (HeadPair p) (operation_head q)
unfolding operation_head
operation_head-After p q t a h = Ensures-bind (consume_tag p q t Tag.at a h (cc)) λ (u, r) after.
    Ensures-bind (expect-After Tag.ident r) λ (operation, s) (after₁, e).
      Ensures-branch
        (not (operation.text == codes "delete") && not (operation.text == codes "replace")) _ _ s
        (λ _. failed _)
        λ _. Ensures-bind (parse_key-After s) λ (key, v) after₂.
          holds (After-le 1 (omega arith) (After-trans after (After-trans after₁ after₂)))

pub expect_body-After : (p : Parser) → Ensures (λ (t, q). After p q 1) (expect_body p)
unfolding expect_body
expect_body-After p = Ensures-bind (peek-Ahead p) λ (t, q) a.
    Ensures-branch (not (t.tag == Tag.l_brace)) _ _ q (λ _. failed _)
      λ h. consume_tag p q t Tag.l_brace a (ground arith) (cc)
