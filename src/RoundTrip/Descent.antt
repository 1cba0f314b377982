-- ===== src/RoundTrip/Descent.antt =====
-- rust/src/emit.rs and rust/src/parser.rs: nodes and values, written and parsed. Whatever its fuel,
-- the descent does not fail on what was written, and gives what reads like the original.
use skg.Base.{
  ℕ, zero, suc, ◌+◌, ◌≤◌, Bool, true, false, Option, none, some, List, [], ◌∷◌, ◌++◌, Bytes, codes,
  ◌≡◌, refl, sym, ap, ◌∙◌, nat_eq, bytes_eq, all, arith,
}
use skg.Error.{Position}
use skg.Model.{
  Comment, Head, ValueType, Value, Values, Node, Nodes, int, float, bool, string, null, array,
  object, delete, field, block, block_array, empty, nil, cons, no_items, item, push_node,
  push_value, value_type,
}
use skg.Merge.Keyed.{IsKeyed, IsKeyedNode, IsKeyedValue, IsKeyedItems}
use skg.Merge.Nesting.{nest_nodes, nest_node, nest_value, nest_items}
use skg.Merge.Positions.{append_nodes, append_nodes-push, append_nodes-nil}
use skg.Encode.Whole.{append_values, append_values-nil}
use skg.Result.{Yields, yields, spent, Yields-bind, Yields-map}
use skg.Lexer.Scan.{Tag, tag_eq, is_space}
use skg.Lexer.{punctuation}
use skg.Lexer.Spell.{Delimited}
use skg.Parser.Text.{max_nesting_depth}
use skg.Parser.State.{Parser, place_of}
use skg.Parser.Arrays.{join_type}
use skg.Parser.Grammar.{
  parse_node, parse_body, parse_operation, parse_object, object_loop, parse_value, array_loop,
  scalar_at, block_of,
}
use skg.Emit.{write_key, emit_from, emit_node, emit_value, emit_items, emit_lines, write_indent}
use skg.RoundTrip.{
  plain_nodes, plain_node, plain_value, plain_items, IsWritable, IsWritableNode, AreWritable,
  AreWritableItems, Joins, ShowsFloats, plain_head, IsFieldValue, AreRows, RowsFrom,
}
use skg.RoundTrip.Same.{plain_nodes-push_node, value_type-same, IsKeyed-same}
use skg.RoundTrip.Bodies.{
  bracket, brace, items_Delimited, nodes_Goes, closing_Goes, object_shape, block_array_of,
  pushed_items,
}
use skg.RoundTrip.Scalars.{value_start, scalar_text, IsScalar}
use skg.RoundTrip.Stream.{Stream, Goes, peek-Shown, consume-Taken, Stream-blank}
use skg.RoundTrip.Rounds.{
  array_step-close, array_step-comma, array_step-read, array_move-close, array_move-comma,
}
use skg.RoundTrip.Heads.{
  keyed_reads, operated_reads, operation_head-delete, operation_head-replace, expect_body-Stream,
  same_head,
}
use skg.Parser.Keys.{head_of, node_of}
use skg.RoundTrip.Layout.{
  no_items_text, nil_text, no_lines_text, margin, margin_blank, delete_text, field_text, block_text,
  replace_text, block_array_text, block_tail, line_text, write_indent_blank, object_text,
  array_text, first_item_text, next_item_text, nodes_text,
}
use skg.RoundTrip.Keys.{node_start}
use skg.RoundTrip.Steps.{
  rowed, RowState, RowState-block, array_move-row, push_item-row, mark, enter-Stream, leave-Stream,
  opened, array_move-read, push_item-opened, ArrayRead, close_array-Read, ObjectRead,
  close_object-Read, NodeRead, node_of-Read, delete_of-Read,
}

-- The children that are read and those that are still ahead.
abbrev pub Loop : Nodes → Nodes → Nodes → Type 0
Loop ms ns all = append_nodes (plain_nodes ms) (plain_nodes ns) ≡ plain_nodes all

module _ (show_f64 : ℕ → Bytes) (parse_f64 : Bytes → Option ℕ)
    (floats : ShowsFloats show_f64 parse_f64) where
  -- A value that reads like `v`.
  abbrev ValueRead : Value → Bytes → ℕ → Value × Parser → Type 0
  ValueRead v rest depth (w, q) = (plain_value w ≡ plain_value v) × Stream q rest depth

  scalar_reads :
      (f : ℕ) (p : Parser) (v : Value) (at depth : ℕ) (rest : Bytes)
      → IsScalar v
      → IsWritable v
      → Delimited rest
      → Stream p (emit_value show_f64 v at ++ rest) depth
      → Yields (ValueRead v rest depth) (parse_value parse_f64 f p)
  unfolding parse_node
  scalar_reads zero p v at depth rest sc w d s = spent
  scalar_reads (suc f) p v at depth rest sc w d s =
      let x = scalar_text show_f64 parse_f64 v at rest floats sc w d in
      Yields-bind (consume-Taken s x.lexes) λ (t, q) (tag_is, text_is, s').
        rw (x.reads t tag_is, x.gives t q text_is) (yields (refl, s'))

  mutual
    unfolding parse_node scalar_at plain_nodes append_nodes node_of block_of value_type is_space
        punctuation

    value_reads :
        (f : ℕ) (p : Parser) (v : Value) (at depth : ℕ) (rest : Bytes)
        → IsWritable v
        → IsKeyedValue v
        → nest_value v + depth ≤ max_nesting_depth
        → Delimited rest
        → Stream p (emit_value show_f64 v at ++ rest) depth
        → Yields (ValueRead v rest depth) (parse_value parse_f64 f p)
    value_reads zero p v at depth rest w k room d s = spent
    value_reads (suc f) p (array element xs []) at depth rest ((final, joins, typed), ws) k room d
          s =
        Yields-bind
          (consume-Taken (rw (array_text show_f64 at element xs rest) at s)
            (mark b'[' Tag.l_bracket _ refl refl refl))
          λ (t, q) (tag_is, text_is, s'). rw tag_is (
            Yields-bind (enter-Stream (place_of t) (omega arith) s') λ (u, r) s₁.
              Yields-bind
                (items_due f r no_items none xs final at (depth + 1) rest joins ws k (omega arith)
                  s₁)
                λ (w, x) (ys, e, same, s₂).
                  Yields-bind (leave-Stream s₂) λ (u, y) s₃. yields (rw (e, typed, same) refl, s₃))
    value_reads (suc f) p (object cs []) at depth rest w k room d s =
        Yields-bind
          (consume-Taken (rw (object_text show_f64 at cs rest) at s)
            (mark b'{' Tag.l_brace _ refl refl refl))
          λ (t, q) (tag_is, text_is, s'). rw tag_is (
            Yields-map
              (object_reads f (place_of t) q cs (suc at) depth (write_indent at) rest w k room
                (write_indent_blank at) (Stream-blank (codes "\n") refl s'))
              λ (w, x) (ds, e, same, s₁). (rw (e, same) refl, s₁))
    value_reads f p (array element xs (c ∷ t)) at depth rest w k room d s = absurd w
    value_reads f p (object cs (c ∷ t)) at depth rest w k room d s = absurd w
    value_reads f p (int n) at depth rest w k room d s =
        scalar_reads f p (int n) at depth rest tt w d s
    value_reads f p (float n) at depth rest w k room d s =
        scalar_reads f p (float n) at depth rest tt w d s
    value_reads f p (bool n) at depth rest w k room d s =
        scalar_reads f p (bool n) at depth rest tt w d s
    value_reads f p (string n) at depth rest w k room d s =
        scalar_reads f p (string n) at depth rest tt w d s
    value_reads f p null at depth rest w k room d s = scalar_reads f p null at depth rest tt w d s

    -- Items that are due: behind the opening bracket of an inline array or behind a comma.
    items_due :
        (f : ℕ) (p : Parser) (ys : Values) (o : Option ValueType) (xs : Values)
        (final : Option ValueType) (at depth : ℕ) (rest : Bytes)
        → Joins o xs final
        → AreWritableItems xs
        → IsKeyedItems xs
        → nest_items xs + depth ≤ max_nesting_depth
        → Stream p (emit_items show_f64 true xs at ++ b']' ∷ rest) depth
        → Yields
            (ArrayRead final (append_values (plain_items ys) (plain_items xs)) rest depth)
            (array_loop parse_f64 f false (opened ys o true) p)
    items_due zero p ys o xs final at depth rest j w k room s = spent
    items_due (suc f) p ys o no_items final at depth rest j w k room s =
        let s₀ = rw (no_items_text show_f64 true at (b']' ∷ rest)) at s in
        Yields-bind (peek-Shown s₀ refl (bracket rest)) λ (t, q) (tag_is, text_is, s').
          rw
            (
              tag_is,
              array_move-close false (opened ys o true),
              ← j,
              append_values-nil (plain_items ys),
            )
            (array_step-close _ _ _ _ q (close_array-Read ys o true s' (bracket rest)))
    items_due (suc f) p ys o (item v vs) final at depth rest (ty, j, js) (wv, ws) (kv, ks) room s =
        let s₀ = rw (first_item_text show_f64 at v vs (b']' ∷ rest)) at s in
        let d = items_Delimited show_f64 vs at rest in
        let x = value_start show_f64 parse_f64 v (suc at) _ floats wv d in
        Yields-bind (peek-Shown s₀ x.starts.3 x.lexes) λ (t, q) (tag_is, text_is, s').
          rw (tag_is, array_move-read false ys o x.tag x.starts)
            (array_step-read _ _ _ _ q (value_reads f q v (suc at) depth _ wv kv (omega arith) d s')
              λ w r (same, s₁). (
                opened (push_value ys w) (some ty) false,
                push_item-opened (place_of t) w ys o ty r
                    (ap (join_type o) (value_type-same w v same) ∙ j),
                rw (← pushed_items ys vs w v same) (
                    items_next f r (push_value ys w) (some ty) vs final at depth rest js ws ks
                      (omega arith) s₁),
              ))

    -- Behind an item.
    items_next :
        (f : ℕ) (p : Parser) (ys : Values) (o : Option ValueType) (vs : Values)
        (final : Option ValueType) (at depth : ℕ) (rest : Bytes)
        → Joins o vs final
        → AreWritableItems vs
        → IsKeyedItems vs
        → nest_items vs + depth ≤ max_nesting_depth
        → Stream p (emit_items show_f64 false vs at ++ b']' ∷ rest) depth
        → Yields
            (ArrayRead final (append_values (plain_items ys) (plain_items vs)) rest depth)
            (array_loop parse_f64 f false (opened ys o false) p)
    items_next zero p ys o vs final at depth rest j w k room s = spent
    items_next (suc f) p ys o no_items final at depth rest j w k room s =
        let s₀ = rw (no_items_text show_f64 false at (b']' ∷ rest)) at s in
        Yields-bind (peek-Shown s₀ refl (bracket rest)) λ (t, q) (tag_is, text_is, s').
          rw
            (
              tag_is,
              array_move-close false (opened ys o false),
              ← j,
              append_values-nil (plain_items ys),
            )
            (array_step-close _ _ _ _ q (close_array-Read ys o false s' (bracket rest)))
    items_next (suc f) p ys o (item v vs) final at depth rest j w k room s =
        let comma = mark b',' Tag.comma _ refl refl refl in
        let s₀ = rw (next_item_text show_f64 at v vs (b']' ∷ rest)) at s in
        Yields-bind (peek-Shown s₀ refl comma) λ (t, q) (tag_is, text_is, s').
          rw (tag_is, array_move-comma false ys o)
            (array_step-comma _ _ _ _ q (consume-Taken s' comma) λ u r (tag_is', text_is', s₁).
              items_due f r ys o (item v vs) final at depth rest j w k room (
                rw (first_item_text show_f64 at v vs (b']' ∷ rest))
                  (Stream-blank (codes " ") refl s₁)))

    object_reads :
        (f : ℕ) (place : Position) (p : Parser) (cs : Nodes) (at depth : ℕ) (blank rest : Bytes)
        → AreWritable cs
        → IsKeyed cs
        → suc (nest_nodes cs) + depth ≤ max_nesting_depth
        → all is_space blank ≡ true
        → Stream p (emit_from show_f64 0 cs at ++ (blank ++ b'}' ∷ rest)) depth
        → Yields (ObjectRead cs rest depth) (parse_object parse_f64 f place p)
    object_reads zero place p cs at depth blank rest w k room hb s = spent
    object_reads (suc f) place p cs at depth blank rest w k room hb s =
        Yields-bind (enter-Stream place (omega arith) s) λ (u, q) s₁.
          children_read f q nil cs cs 0 at depth blank rest w k (omega arith) hb refl k s₁

    children_read :
        (f : ℕ) (p : Parser) (ms ns all_nodes : Nodes) (i at depth : ℕ) (blank rest : Bytes)
        → AreWritable ns
        → IsKeyed ns
        → nest_nodes ns + (depth + 1) ≤ max_nesting_depth
        → all is_space blank ≡ true
        → Loop ms ns all_nodes
        → IsKeyed all_nodes
        → Stream p (emit_from show_f64 i ns at ++ (blank ++ b'}' ∷ rest)) (depth + 1)
        → Yields (ObjectRead all_nodes rest depth) (object_loop parse_f64 f ms p)
    children_read zero p ms ns all_nodes i at depth blank rest w k room hb l ka s = spent
    children_read (suc f) p ms nil all_nodes i at depth blank rest w k room hb l ka s =
        let s₀ = Stream-blank blank hb (rw (nil_text show_f64 i at (blank ++ b'}' ∷ rest)) at s) in
        let same = sym (append_nodes-nil (plain_nodes ms)) ∙ l in
        Yields-bind (peek-Shown s₀ refl (brace rest)) λ (t, q) (tag_is, text_is, s').
          rw tag_is (
            close_object-Read ms all_nodes same (IsKeyed-same ms all_nodes same ka) s' (brace rest))
    children_read (suc f) p ms (cons n ns) all_nodes i at depth blank rest (wn, ws) (kn, fresh, ks)
          room hb l ka s =
        let tail = emit_from show_f64 (suc i) ns at ++ (blank ++ b'}' ∷ rest) in
        let s₀ = rw (nodes_text show_f64 i at n ns (blank ++ b'}' ∷ rest)) at s in
        let x = node_start show_f64 i at n tail wn in
        let go = nodes_Goes show_f64 (suc i) at ns _ ws (closing_Goes blank rest hb) in
        Yields-bind (peek-Shown s₀ x.not_comment x.lexes) λ (t, q) (tag_is, text_is, s').
          rw (tag_is, x.not_brace, x.not_eof)
            (Yields-bind (node_reads f q n i at (depth + 1) tail wn kn (omega arith) go s')
              λ (m, r) (same, s₁).
                let looped : Loop (push_node ms m) ns all_nodes =
                  rw (plain_nodes-push_node ms m, same)
                    (append_nodes-push (plain_nodes ms) (plain_node n) (plain_nodes ns) ∙ l) in
                children_read f r (push_node ms m) ns all_nodes (suc i) at depth blank rest ws ks
                  (omega arith) hb looped ka s₁)

    pub node_reads :
        (f : ℕ) (p : Parser) (n : Node) (i at depth : ℕ) (rest : Bytes)
        → IsWritableNode n
        → IsKeyedNode n
        → nest_node n + depth ≤ max_nesting_depth
        → Goes rest
        → Stream p (emit_node show_f64 i n at ++ rest) depth
        → Yields (NodeRead n rest depth) (parse_node parse_f64 f p)
    node_reads zero p n i at depth rest w k room go s = spent
    node_reads (suc f) p (delete h none) i at depth rest w k room go s =
        operated_reads parse_f64 f p (delete h none) depth (write_indent at) _ rest
          (write_indent_blank at) (rw (delete_text show_f64 i at h rest w) at s)
          λ leading q none_left s₁. delete_reads f q h at depth rest leading w none_left go s₁
    node_reads (suc f) p (field h v none) i at depth rest (e, fv, w) k room go s =
        keyed_reads parse_f64 f p (field h v none) h at depth (write_indent at) _ rest e
          (write_indent_blank at) refl (rw (field_text show_f64 i at h v rest e) at s)
          λ name leading q same s₁.
            field_reads f q h (head_of name leading) v at depth rest same fv w k room go s₁
    node_reads (suc f) p (block h true cs []) i at depth rest (e, w) k room go s =
        operated_reads parse_f64 f p (block h true cs []) depth (margin i at) _ rest
          (margin_blank i at) (rw (replace_text show_f64 i at h cs rest e) at s)
          λ leading q none_left s₁.
            replace_reads f q h cs at depth rest leading e none_left w k room s₁
    node_reads (suc f) p (block h false cs []) i at depth rest (e, w) k room go s =
        keyed_reads parse_f64 f p (block h false cs []) h at depth (margin i at) _ rest e
          (margin_blank i at) refl (rw (block_text show_f64 i at h cs rest e) at s)
          λ name leading q same s₁.
            block_reads f q h (head_of name leading) cs at depth rest same w k room s₁
    node_reads (suc f) p (block_array h xs []) i at depth rest (e, o, w) k room go s =
        keyed_reads parse_f64 f p (block_array h xs []) h at depth (margin i at) _ rest e
          (margin_blank i at) refl (rw (block_array_text show_f64 i at h xs rest e) at s)
          λ name leading q same s₁.
            block_array_reads f q h (head_of name leading) xs at depth rest same o w k room s₁
    node_reads f p (delete h (some c)) i at depth rest w k room go s = absurd w
    node_reads f p (field h v (some c)) i at depth rest w k room go s = absurd w
    node_reads f p (block h r cs (c ∷ t)) i at depth rest w k room go s = absurd w
    node_reads f p (block_array h xs (c ∷ t)) i at depth rest w k room go s = absurd w
    node_reads f p empty i at depth rest w k room go s = absurd w

    delete_reads :
        (f : ℕ) (p : Parser) (h : Head) (at depth : ℕ) (rest : Bytes) (leading : List Comment)
        → h.leading_comments ≡ []
        → leading ≡ []
        → Goes rest
        → Stream p (codes "@delete " ++ (write_key h.key at ++ b'\n' ∷ rest)) depth
        → Yields (NodeRead (delete h none) rest depth) (parse_operation parse_f64 f leading p)
    delete_reads zero p h at depth rest leading e none_left go s = spent
    delete_reads (suc f) p h at depth rest leading e none_left go s =
        Yields-bind (operation_head-delete p h.key _ at depth refl s)
          λ ((deletes, key), q) (which, key_is, s₁). rw which (
            delete_of-Read h (head_of key leading) (same_head h key leading e key_is none_left)
              (Stream-blank (codes "\n") refl s₁) go)

    replace_reads :
        (f : ℕ) (p : Parser) (h : Head) (cs : Nodes) (at depth : ℕ) (rest : Bytes)
        (leading : List Comment)
        → h.leading_comments ≡ []
        → leading ≡ []
        → AreWritable cs
        → IsKeyed cs
        → suc (nest_nodes cs) + depth ≤ max_nesting_depth
        → Stream p (codes "@replace " ++ block_tail show_f64 at h cs rest) depth
        → Yields (NodeRead (block h true cs []) rest depth) (parse_operation parse_f64 f leading p)
    replace_reads zero p h cs at depth rest leading e none_left w k room s = spent
    replace_reads (suc f) p h cs at depth rest leading e none_left w k room s =
        Yields-bind (operation_head-replace p h.key _ at depth refl s)
          λ ((deletes, key), q) (which, key_is, s₁). rw which (
            Yields-bind (expect_body-Stream (Stream-blank (codes " ") refl s₁)) λ (t, r) s₂.
              Yields-bind
                (object_reads f (place_of t) r cs (suc at) depth (write_indent at) (b'\n' ∷ rest) w
                  k room (write_indent_blank at) (Stream-blank (codes "\n") refl s₂))
                λ (v, x) (ds, is, same, s₃).
                  let heads = same_head h key leading e key_is none_left in
                  rw is (yields (rw (heads, same) refl, Stream-blank (codes "\n") refl s₃)))

    field_reads :
        (f : ℕ) (p : Parser) (h g : Head) (v : Value) (at depth : ℕ) (rest : Bytes)
        → plain_head g ≡ plain_head h
        → IsFieldValue v
        → IsWritable v
        → IsKeyedValue v
        → nest_value v + depth ≤ max_nesting_depth
        → Goes rest
        → Stream p (codes ": " ++ (emit_value show_f64 v at ++ b'\n' ∷ rest)) depth
        → Yields (NodeRead (field h v none) rest depth) (parse_body parse_f64 f g p)
    field_reads zero p h g v at depth rest same fv w k room go s = spent
    field_reads (suc f) p h g v at depth rest same fv w k room go s =
        let colon = mark b':' Tag.colon _ refl refl refl in
        Yields-bind (peek-Shown s refl colon) λ (t, q) (tag_is, text_is, s₁). rw tag_is (
          Yields-bind (consume-Taken s₁ colon) λ (u, r) (tag_is', text_is', s₂).
            Yields-bind
              (value_reads f r v at depth (b'\n' ∷ rest) w k room refl
                (Stream-blank (codes " ") refl s₂))
              λ (x, y) (same_value, s₃).
                node_of-Read h g v x same same_value fv (Stream-blank (codes "\n") refl s₃) go)

    block_reads :
        (f : ℕ) (p : Parser) (h g : Head) (cs : Nodes) (at depth : ℕ) (rest : Bytes)
        → plain_head g ≡ plain_head h
        → AreWritable cs
        → IsKeyed cs
        → suc (nest_nodes cs) + depth ≤ max_nesting_depth
        → Stream p
            (codes " {\n"
              ++ (emit_from show_f64 0 cs (suc at) ++ (write_indent at ++ (codes "}\n" ++ rest))))
            depth
        → Yields (NodeRead (block h false cs []) rest depth) (parse_body parse_f64 f g p)
    block_reads zero p h g cs at depth rest same w k room s = spent
    block_reads (suc f) p h g cs at depth rest same w k room s =
        let s₀ = Stream-blank (codes " ") refl s in
        let open_brace = mark b'{' Tag.l_brace _ refl refl refl in
        Yields-bind (peek-Shown s₀ refl open_brace) λ (t, q) (tag_is, text_is, s₁). rw tag_is (
          Yields-bind
            (value_reads f q (object cs []) at depth (b'\n' ∷ rest) w k room refl
              (rw (object_text show_f64 at cs (b'\n' ∷ rest)) s₁))
            λ (x, r) (same_value, s₂).
              let (ds, is, same_nodes) = object_shape x cs same_value in
              rw is (yields (rw (same, same_nodes) refl, Stream-blank (codes "\n") refl s₂)))

    block_array_reads :
        (f : ℕ) (p : Parser) (h g : Head) (xs : Values) (at depth : ℕ) (rest : Bytes)
        → plain_head g ≡ plain_head h
        → AreRows xs
        → AreWritableItems xs
        → IsKeyedItems xs
        → suc (nest_items xs) + depth ≤ max_nesting_depth
        → Stream p
            (codes " [\n"
              ++ (emit_lines show_f64 xs (suc at) ++ (write_indent at ++ (codes "]\n" ++ rest))))
            depth
        → Yields (NodeRead (block_array h xs []) rest depth) (parse_body parse_f64 f g p)
    block_array_reads zero p h g xs at depth rest same o w k room s = spent
    block_array_reads (suc f) p h g xs at depth rest same (final, rows) w k room s =
        let s₀ = Stream-blank (codes " ") refl s in
        let open_bracket = mark b'[' Tag.l_bracket _ refl refl refl in
        Yields-bind (peek-Shown s₀ refl open_bracket) λ (t, q) (tag_is, text_is, s₁). rw tag_is (
          Yields-bind (consume-Taken s₁ open_bracket) λ (u, r) (tag_is', text_is', s₂).
            Yields-bind {Before = ArrayRead final (plain_items xs) (b'\n' ∷ rest) depth}
              (Yields-bind (enter-Stream (place_of t) (omega arith) s₂) λ (v, x) s₃.
                Yields-bind
                  (lines_reads f x no_items none true none xs final (suc at) (depth + 1)
                    (write_indent at) (b'\n' ∷ rest) tt rows w k (omega arith)
                    (write_indent_blank at) (Stream-blank (codes "\n") refl s₃))
                  λ (value, y) (ys, e, same_items, s₄).
                    Yields-bind (leave-Stream s₄) λ (v, z) s₅. yields (ys, e, same_items, s₅))
              λ (value, y) (ys, e, same_items, s₆).
                block_array_of h g xs ys final value y same rows same_items e
                  (Stream-blank (codes "\n") refl s₆))

    lines_reads :
        (f : ℕ) (p : Parser) (ys : Values) (o : Option ValueType) (need : Bool)
        (missing : Option Position) (vs : Values) (final : Option ValueType) (at depth : ℕ)
        (blank rest : Bytes)
        → RowState o missing
        → RowsFrom o vs final
        → AreWritableItems vs
        → IsKeyedItems vs
        → nest_items vs + depth ≤ max_nesting_depth
        → all is_space blank ≡ true
        → Stream p (emit_lines show_f64 vs at ++ (blank ++ b']' ∷ rest)) depth
        → Yields
            (ArrayRead final (append_values (plain_items ys) (plain_items vs)) rest depth)
            (array_loop parse_f64 f true (rowed ys o need missing) p)
    lines_reads zero p ys o need missing vs final at depth blank rest h rows w k room hb s = spent
    lines_reads (suc f) p ys o need missing no_items final at depth blank rest h (e, b) w k room hb
          s =
        let s₀ =
          Stream-blank blank hb (rw (no_lines_text show_f64 at (blank ++ b']' ∷ rest)) at s) in
        Yields-bind (peek-Shown s₀ refl (bracket rest)) λ (t, q) (tag_is, text_is, s').
          rw
            (
              tag_is,
              array_move-close true (rowed ys o need missing),
              RowState-block o missing b h,
              ← e,
              append_values-nil (plain_items ys),
            )
            (array_step-close _ _ _ _ q (close_array-Read ys o need s' (bracket rest)))
    lines_reads (suc f) p ys o need missing (item v vs) final at depth blank rest h (ty, j, rows)
          (wv, ws) (kv, ks) room hb s =
        let tail = emit_lines show_f64 vs at ++ (blank ++ b']' ∷ rest) in
        let s₀ =
          Stream-blank (write_indent at) (write_indent_blank at)
            (rw (line_text show_f64 at v vs (blank ++ b']' ∷ rest)) at s) in
        let x = value_start show_f64 parse_f64 v at (b'\n' ∷ tail) floats wv refl in
        Yields-bind (peek-Shown s₀ x.starts.3 x.lexes) λ (t, q) (tag_is, text_is, s').
          rw (tag_is, array_move-row ys o need missing x.tag x.starts h)
            (array_step-read _ _ _ _ q
              (value_reads f q v at depth (b'\n' ∷ tail) wv kv (omega arith) refl s')
              λ w r (same, s₁).
                let (m, pushed, h') =
                  push_item-row (place_of t) w ys o (value_type v) ty need missing r h
                    (value_type-same w v same) j in
                (
                  rowed (push_value ys w) (some ty) false m,
                  pushed,
                  rw (← pushed_items ys vs w v same) (
                      lines_reads f r (push_value ys w) (some ty) false m vs final at depth blank
                        rest h' rows ws ks (omega arith) hb (Stream-blank (codes "\n") refl s₁)),
                ))
