-- ===== src/Parser/Descent.antt =====
-- rust/src/parser.rs: the recursive descent, from the steps of Sound and Steps.
use skg.Base.{
  ℕ, zero, suc, ◌+◌, ◌*◌, ◌<◌, ◌≤◌, Bool, true, false, Option, List, Bytes, ◌≡◌, refl, arith, ◌==◌,
  nat_eq, bytes_eq,
}
use skg.Error.{Position}
use skg.Model.{Comment, Head, Nodes, nil, push_node}
use skg.Merge.Keyed.{IsLoose}
use skg.Merge.Nesting.{nest_nodes, nest-push_node}
use skg.Result.{Ensures, holds, failed, Ensures-bind, Ensures-map}
use skg.Lexer.Scan.{Tag, Token, tag_eq}
use skg.Parser.Text.{max_nesting_depth}
use skg.Parser.State.{Parser, place_of}
use skg.Parser.Grammar.{
  parse_node, parse_body, parse_operation, parse_object, object_loop, parse_value, array_loop,
}
use skg.Parser.Arrays.{ArrayState, new_array, array_move}
use skg.Parser.Keys.{head_of}
use skg.Parser.Progress.{Ahead, peek-Ahead, consume-After, drain_comments-After}
use skg.Parser.Weight.{size, After-trans}
use skg.Parser.Sound.{
  Ensures-branch, weight_tag, consume_tag, parse_key-After, ValuedPair, NodedPair, InsidePair,
  HasRoom, enter-deeper, set_path-Noded, node_of-Noded, delete_of-Noded, block_of-Noded,
  operation_head-After, expect_body-After,
}
use skg.Parser.Steps.{scalar_at-ScalarSound, IsLoose-push_node, Kept, close_object-Inside}
use skg.Parser.Inside.{
  Inside-After, LoopPair, Noded-After, Noded-le, ObjectPair, Valued-After, Valued-le,
  array_move-skip, array_step-Inside, bracketed-Valued, entered, no_items-Kept, value_or-Valued,
}

module _ (parse_f64 : Bytes → Option ℕ) where
  mutual
    unfolding parse_node

    pub parse_node-Noded :
        (f : ℕ) (p : Parser)
        → 4 * size p + 1 < f
        → HasRoom p
        → Ensures (NodedPair 1 p) (parse_node parse_f64 f p)
    parse_node-Noded zero p hf room = absurd (omega arith)
    parse_node-Noded (suc f) p hf room =
        Ensures-bind (drain_comments-After p) λ (leading, q) (after, same).
          Ensures-bind (peek-Ahead q) λ (ahead, r) a.
            Ensures-bind
              (Ensures-branch (ahead.tag == Tag.at) _ _ r
                (λ h.
                  parse_operation-Noded f leading q r ahead a h
                    (omega (arith, after.size_is, a.after.size_is)) (omega (arith, after.depth_is)))
                (λ h. Ensures-bind (parse_key-After r) λ (name, w) after₁.
                  Ensures-map
                    (parse_body-Noded f (head_of name leading) w
                      (omega (arith, after.size_is, a.after.size_is, after₁.size_is))
                      (omega (arith, after.depth_is, a.after.depth_is, after₁.depth_is)))
                    λ (n, u) x.
                      Noded-le 1 (omega arith) (Noded-After a.after (Noded-After after₁ x))))
              λ (n, u) x.
                holds (set_path-Noded p.path (Noded-le 1 (omega arith) (Noded-After after x)))

    parse_operation-Noded :
        (f : ℕ) (leading : List Comment) (o p : Parser) (t : Token)
        → Ahead o t p
        → (t.tag == Tag.at) ≡ true
        → 4 * size o < f
        → HasRoom o
        → Ensures (NodedPair 1 o) (parse_operation parse_f64 f leading p)
    parse_operation-Noded zero leading o p t a h hf room = absurd (omega arith)
    parse_operation-Noded (suc f) leading o p t a h hf room =
        Ensures-bind (operation_head-After o p t a h) λ ((deletes, key), q) after.
          Ensures-branch deletes _ _ q (λ _. delete_of-Noded (head_of key leading) after room)
            (λ _. Ensures-bind (expect_body-After q) λ (t₁, r) after₁.
              Ensures-bind
                (parse_object-Valued f (place_of t₁) r
                  (omega (arith, after.size_is, after₁.size_is))
                  (omega (arith, after.depth_is, after₁.depth_is)))
                λ (v, u) (x, o₁).
                  block_of-Noded (head_of key leading) v o₁
                    (Valued-le 1 (omega arith) (Valued-After after (Valued-After after₁ x))))

    parse_object-Valued :
        (f : ℕ) (place : Position) (p : Parser)
        → 4 * size p + 3 < f
        → HasRoom p
        → Ensures (ObjectPair 0 p) (parse_object parse_f64 f place p)
    parse_object-Valued zero place p hf room = absurd (omega arith)
    parse_object-Valued (suc f) place p hf room =
        Ensures-bind (enter-deeper place p) λ (u, q) (path_is, depth_is, size_is, more).
          Ensures-map
            (object_loop-Inside f nil q (omega (arith, size_is)) (omega (arith, depth_is))
              (omega (arith, depth_is)) tt (omega (arith, depth_is)))
            λ (v, r) (x, o). (entered path_is depth_is size_is x, o)

    object_loop-Inside :
        (f : ℕ) (ns : Nodes) (p : Parser)
        → 4 * size p + 2 < f
        → HasRoom p
        → 0 < p.depth
        → IsLoose ns
        → nest_nodes ns + p.depth ≤ max_nesting_depth
        → Ensures (LoopPair p) (object_loop parse_f64 f ns p)
    object_loop-Inside zero ns p hf room hd h hn = absurd (omega arith)
    object_loop-Inside (suc f) ns p hf room hd h hn = Ensures-bind (peek-Ahead p) λ (t, q) a.
        Ensures-branch (t.tag == Tag.r_brace) _ _ q
          (λ _.
            Ensures-map
              (close_object-Inside ns q h (omega (arith, a.after.depth_is))
                (omega (arith, a.after.depth_is)))
              λ (v, r) (x, o). (Inside-After a.after x, o))
          (λ _.
            Ensures-branch (t.tag == Tag.eof) _ _ q (λ _. failed _)
              λ _.
                Ensures-bind
                  (parse_node-Noded f q (omega (arith, a.after.size_is))
                    (omega (arith, a.after.depth_is)))
                  λ (child, r) x.
                    Ensures-map
                      (object_loop-Inside f (push_node ns child) r
                        (omega (arith, a.after.size_is, x.after.size_is))
                        (omega (arith, a.after.depth_is, x.after.depth_is))
                        (omega (arith, a.after.depth_is, x.after.depth_is))
                        (IsLoose-push_node ns child h x.keyed)
                        (omega (
                          arith,
                          nest-push_node ns child,
                          x.nested,
                          a.after.depth_is,
                          x.after.depth_is,
                        )))
                      λ (v, u) (y, o). (Inside-After (After-trans a.after x.after) y, o))

    parse_value-Valued :
        (f : ℕ) (p : Parser)
        → 4 * size p < f
        → HasRoom p
        → Ensures (ValuedPair 1 p) (parse_value parse_f64 f p)
    parse_value-Valued zero p hf room = absurd (omega arith)
    parse_value-Valued (suc f) p hf room = Ensures-bind (consume-After p) λ (t, q) after.
        value_or-Valued t _ _ after room (scalar_at-ScalarSound parse_f64 t.tag t refl) (
          Ensures-branch (t.tag == Tag.l_brace) _ _ q
            (λ h.
              let one = weight_tag t Tag.l_brace h (cc) in
              Ensures-map
                (parse_object-Valued f (place_of t) q (omega (arith, after.size_is, one))
                  (omega (arith, after.depth_is)))
                λ (v, r) (x, o). Valued-le 1 (omega (arith, one)) (Valued-After after x))
            (λ _.
              Ensures-branch (t.tag == Tag.l_bracket) _ _ q
                (λ h.
                  let one = weight_tag t Tag.l_bracket h (cc) in
                  Ensures-map
                    (bracketed-Valued (array_loop parse_f64 f false new_array) t q
                      λ r size_is room₁.
                        array_loop-Inside f false new_array r
                          (omega (arith, after.size_is, one, size_is)) room₁
                          (no_items-Kept r room₁))
                    λ (v, r) x. Valued-le 1 (omega (arith, one)) (Valued-After after x))
                (λ _. failed _)))

    array_loop-Inside :
        (f : ℕ) (colonless : Bool) (s : ArrayState) (p : Parser)
        → 4 * size p + 1 < f
        → HasRoom p
        → Kept p.depth s
        → Ensures (InsidePair 0 p) (array_loop parse_f64 f colonless s p)
    array_loop-Inside zero colonless s p hf room k = absurd (omega arith)
    array_loop-Inside (suc f) colonless s p hf room k = Ensures-bind (peek-Ahead p) λ (t, q) a.
        array_step-Inside _ _ s p q t (array_move colonless s t.tag) a k
          (array_move-skip colonless s t.tag)
          (parse_value-Valued f q (omega (arith, a.after.size_is))
            (omega (arith, a.after.depth_is)))
          λ s' r after k'.
            array_loop-Inside f colonless s' r (omega (arith, after.size_is))
              (omega (arith, after.depth_is))
              (record { keyed = k'.keyed; nested = omega (arith, k'.nested, after.depth_is) })

    parse_body-Noded :
        (f : ℕ) (h : Head) (p : Parser)
        → 4 * size p + 1 < f
        → HasRoom p
        → Ensures (NodedPair 0 p) (parse_body parse_f64 f h p)
    parse_body-Noded zero h p hf room = absurd (omega arith)
    parse_body-Noded (suc f) h p hf room = Ensures-bind (peek-Ahead p) λ (t, q) a.
        Ensures-branch (t.tag == Tag.colon) _ _ q
          (λ e. Ensures-bind (consume_tag p q t Tag.colon a e (cc)) λ (u, r) after.
            Ensures-bind
              (parse_value-Valued f r (omega (arith, after.size_is))
                (omega (arith, after.depth_is)))
              λ (v, w) x.
                node_of-Noded h false v (Valued-le 0 (omega arith) (Valued-After after x)))
          (λ _.
            Ensures-branch (t.tag == Tag.l_brace) _ _ q
              (λ _.
                Ensures-bind
                  (parse_value-Valued f q (omega (arith, a.after.size_is))
                    (omega (arith, a.after.depth_is)))
                  λ (v, w) x.
                    node_of-Noded h false v (Valued-le 0 (omega arith) (Valued-After a.after x)))
              (λ _.
                Ensures-branch (t.tag == Tag.l_bracket) _ _ q
                  (λ e. Ensures-bind (consume_tag p q t Tag.l_bracket a e (cc)) λ (u, r) after.
                    Ensures-bind
                      (bracketed-Valued (array_loop parse_f64 f true new_array) t r
                        λ w size_is room₁.
                          array_loop-Inside f true new_array w
                            (omega (arith, after.size_is, size_is)) room₁ (no_items-Kept w room₁))
                      λ (v, w) x.
                        node_of-Noded h true v (Valued-le 0 (omega arith) (Valued-After after x)))
                  (λ _. failed _)))
