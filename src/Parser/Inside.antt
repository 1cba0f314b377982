-- ===== src/Parser/Inside.antt =====
-- rust/src/parser.rs: the steps of a call of the descent on values, arrays and objects.
use skg.Base.{
  ℕ, ◌+◌, ◌≤◌, Bool, true, Option, none, some, ◌≡◌, refl, ◌∙◌, arith, ◌==◌, nat_eq, bytes_eq,
}
use skg.Model.{Value, Node}
use skg.Result.{Ensures, holds, failed, Ensures-bind, Ensures-map}
use skg.Lexer.Scan.{Tag, Token, tag_eq}
use skg.Parser.State.{Parser, Parse, place_of}
use skg.Parser.Grammar.{value_or, bracketed}
use skg.Parser.Arrays.{
  ArrayState, new_array, ArrayMove, close, skip_comma, read, refuse, array_move, note_missing,
  array_step,
}
use skg.Parser.Progress.{Ahead}
use skg.Parser.Weight.{weight, size, After, After-trans, After-le}
use skg.Parser.Sound.{
  consume_tag, Valued, ValuedPair, Noded, Inside, InsidePair, HasRoom, IsObject, enter-deeper,
}
use skg.Parser.Steps.{
  ScalarSound, Kept, note_missing-Kept, push_item-Kept, close_array-Inside, leave-lower,
}

abbrev pub ObjectPair : ℕ → Parser → Value × Parser → Type 0
ObjectPair lost p (v, q) = Valued lost p v q × IsObject v

abbrev pub LoopPair : Parser → Value × Parser → Type 0
LoopPair p (v, q) = Inside p v q 1 × IsObject v

-- What follows a step is as far behind what came before it.
pub Valued-After :
    {a b : ℕ} {p q r : Parser} {v : Value} → After p q a → Valued b q v r → Valued (a + b) p v r
Valued-After after x = record {
  after = After-trans after x.after;
  keyed = x.keyed;
  nested = omega (arith, after.depth_is, x.nested);
}

pub Noded-After :
    {a b : ℕ} {p q r : Parser} {n : Node} → After p q a → Noded b q n r → Noded (a + b) p n r
Noded-After after x = record {
  after = After-trans after x.after;
  keyed = x.keyed;
  nested = omega (arith, after.depth_is, x.nested);
}

pub Valued-le : {a : ℕ} {p q : Parser} {v : Value} (b : ℕ) → b ≤ a → Valued a p v q → Valued b p v q
Valued-le b le x = record { after = After-le b le x.after; keyed = x.keyed; nested = x.nested }

pub Noded-le : {a : ℕ} {p q : Parser} {n : Node} (b : ℕ) → b ≤ a → Noded a p n q → Noded b p n q
Noded-le b le x = record { after = After-le b le x.after; keyed = x.keyed; nested = x.nested }

pub Inside-After :
    {a d : ℕ} {p q r : Parser} {v : Value} → After p q a → Inside q v r d → Inside p v r d
Inside-After after x = record {
  path_is = x.path_is ∙ after.path_is;
  depth_is = x.depth_is ∙ after.depth_is;
  size_is = omega (arith, x.size_is, after.size_is);
  keyed = x.keyed;
  nested = omega (arith, x.nested, after.depth_is);
}

-- A value that is read a level deeper, and behind the bracket that closes it.
pub entered :
    {p q r : Parser} {v : Value}
    → q.path ≡ p.path
    → q.depth ≡ p.depth + 1
    → size q ≡ size p
    → Inside q v r 1
    → Valued 0 p v r
entered path_is depth_is size_is x = record {
  after = record {
    path_is = x.path_is ∙ path_is;
    depth_is = omega (arith, x.depth_is, depth_is);
    size_is = omega (arith, x.size_is, size_is);
  };
  keyed = x.keyed;
  nested = omega (arith, x.nested, depth_is);
}

pub value_or-Valued :
    {p q : Parser} (t : Token) (o : Option (Parse Value)) (others : Parse Value)
    → After p q (weight t)
    → HasRoom p
    → ScalarSound t o
    → Ensures (ValuedPair 1 p) (others q)
    → Ensures (ValuedPair 1 p) (value_or o others q)
value_or-Valued t none others after room s h = h
value_or-Valued t (some m) others after room (one, s) h =
    Ensures-map (s _) λ (v, r) (same, keyed, flat). record {
      after = (let le : 1 ≤ weight t = omega (arith, one) in After-le 1 le (rw same after));
      keyed = keyed;
      nested = omega (arith, flat);
    }

pub bracketed-Valued :
    (loop : Parse Value) (t : Token) (p : Parser)
    → ((q : Parser) → size q ≡ size p → HasRoom q → Ensures (InsidePair 0 q) (loop q))
    → Ensures (ValuedPair 0 p) (bracketed loop t p)
bracketed-Valued loop t p h =
    Ensures-bind (enter-deeper (place_of t) p) λ (u, q) (path_is, depth_is, size_is, more).
      Ensures-bind (h q size_is (omega (arith, depth_is))) λ (v, r) x.
        Ensures-bind (leave-lower r) λ (w, z) (path_is₁, depth_is₁, size_is₁). holds (
          entered path_is depth_is size_is (record {
            path_is = path_is₁ ∙ x.path_is;
            depth_is = omega (arith, x.depth_is, depth_is);
            size_is = omega (arith, x.size_is);
            keyed = x.keyed;
            nested = x.nested;
          }))

pub no_items-Kept : (p : Parser) → HasRoom p → Kept p.depth new_array
no_items-Kept p room = record { keyed = tt; nested = omega arith }

pub array_move-skip :
    (colonless : Bool) (s : ArrayState) (tag : Tag)
    → array_move colonless s tag ≡ skip_comma
    → (tag == Tag.comma) ≡ true
unfolding array_move
array_move-skip colonless s tag e = ground arith

pub array_step-Inside :
    (next_value : Parse Value) (loop : ArrayState → Parse Value) (s : ArrayState) (o p : Parser)
    (t : Token) (move : ArrayMove)
    → Ahead o t p
    → Kept o.depth s
    → (move ≡ skip_comma → (t.tag == Tag.comma) ≡ true)
    → Ensures (ValuedPair 1 p) (next_value p)
    → ((s' : ArrayState) (q : Parser)
        → After o q 1
        → Kept o.depth s'
        → Ensures (InsidePair 0 q) (loop s' q))
    → Ensures (InsidePair 0 o) (array_step next_value loop s t move p)
unfolding array_step
array_step-Inside next_value loop s o p t close a k comma hv hl =
    Ensures-map
      (close_array-Inside s p
        (record { keyed = k.keyed; nested = omega (arith, k.nested, a.after.depth_is) }))
      λ (v, r) x. Inside-After a.after x
array_step-Inside next_value loop s o p t skip_comma a k comma hv hl =
    Ensures-bind (consume_tag o p t Tag.comma a (comma refl) (cc)) λ (u, q) after.
      Ensures-map (hl _ q after (record { keyed = k.keyed; nested = k.nested }))
        λ (v, r) x. Inside-After after x
array_step-Inside next_value loop s o p t (refuse code) a k comma hv hl = failed _
array_step-Inside next_value loop s o p t read a k comma hv hl = Ensures-bind hv λ (v, q) x.
    Ensures-bind
      (push_item-Kept (place_of t) v o.depth (note_missing (place_of t) s) q
        (note_missing-Kept (place_of t) o.depth s k) x.keyed
        (omega (arith, x.nested, a.after.depth_is)))
      λ (pushed, r) (e, kept).
        let after : After o r 1 = rw e (After-le 1 (omega arith) (After-trans a.after x.after)) in
        Ensures-map (hl pushed r after kept) λ (w, u) y. Inside-After after y
