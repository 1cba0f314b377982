-- ===== src/RoundTrip/Bodies.antt =====
-- rust/src/emit.rs and rust/src/parser.rs: facts of the shapes that the descent meets.
use skg.Base.{
  ℕ, true, false, Option, none, some, [], ◌∷◌, ◌++◌, Bytes, codes, ◌≡◌, refl, sym, nat_eq, all,
}
use skg.Model.{
  Head, block_array, ValueType, type_eq, Value, Values, Nodes, int, float, bool, string, null,
  array, object, nil, cons, no_items, item, push_value,
}
use skg.Result.{Yields, yields}
use skg.Parser.State.{Parser}
use skg.Parser.Keys.{node_of}
use skg.Lexer.{punctuation}
use skg.Lexer.Scan.{Tag, tag_eq, is_space}
use skg.Lexer.Spell.{Lexes, Lexes-blanks, Delimited}
use skg.Parser.Arrays.{type_or_string}
use skg.Emit.{emit_from, emit_items}
use skg.RoundTrip.{
  plain_head, plain_node, plain_nodes, plain_value, plain_items, RowsFrom, AreWritable,
}
use skg.Encode.Whole.{append_values, append_values-push}
use skg.RoundTrip.Same.{plain_items-push_value}
use skg.RoundTrip.Stream.{Stream, Goes}
use skg.RoundTrip.Keys.{NodeStart-Goes, node_start}
use skg.RoundTrip.Layout.{nodes_text}
use skg.RoundTrip.Steps.{mark, NodeRead}

-- A value that reads like an object is one.
pub object_shape :
    (w : Value) (cs : Nodes)
    → plain_value w ≡ plain_value (object cs [])
    → (ds : Nodes) × (w ≡ object ds []) × (plain_nodes ds ≡ plain_nodes cs)
unfolding plain_value
object_shape (object ds t) cs e = (ds, cc, cc)
object_shape (array element xs t) cs e = cc
object_shape (int n) cs e = cc
object_shape (float n) cs e = cc
object_shape (bool n) cs e = cc
object_shape (string n) cs e = cc
object_shape null cs e = cc

pub no_items_shape : (ys : Values) → plain_items ys ≡ no_items → ys ≡ no_items
unfolding plain_items
no_items_shape no_items e = refl
no_items_shape (item v vs) e = cc

pub bracket : (rest : Bytes) → Lexes (b']' ∷ rest) Tag.r_bracket (codes "]") rest
bracket rest =
    mark b']' Tag.r_bracket rest (unfold is_space in refl) refl (unfold punctuation in refl)

pub brace : (rest : Bytes) → Lexes (b'}' ∷ rest) Tag.r_brace (codes "}") rest
brace rest = mark b'}' Tag.r_brace rest (unfold is_space in refl) refl (unfold punctuation in refl)

module _ (show_f64 : ℕ → Bytes) where
  -- Behind an item of an inline array stands a comma or the closing bracket.
  pub items_Delimited :
      (vs : Values) (at : ℕ) (rest : Bytes)
      → Delimited (emit_items show_f64 false vs at ++ b']' ∷ rest)
  unfolding emit_from
  items_Delimited no_items at rest = refl
  items_Delimited (item v vs) at rest = refl

  -- Behind a node stands another node or the end of the block.
  pub nodes_Goes :
      (i at : ℕ) (ns : Nodes) (rest : Bytes)
      → AreWritable ns
      → Goes rest
      → Goes (emit_from show_f64 i ns at ++ rest)
  unfolding emit_from
  nodes_Goes i at nil rest w g = g
  nodes_Goes i at (cons n ns) rest (wn, ws) g =
      rw (nodes_text show_f64 i at n ns rest) (NodeStart-Goes (node_start show_f64 i at n _ wn))

pub closing_Goes : (blank rest : Bytes) → all is_space blank ≡ true → Goes (blank ++ b'}' ∷ rest)
closing_Goes blank rest h = record {
  tag = Tag.r_brace;
  text = codes "}";
  more = rest;
  lexes = Lexes-blanks blank h (brace rest);
  not_comment = refl;
}

-- Behind a row the element type ends as that of objects.
rows_object :
    (t : ValueType) (vs : Values) (final : Option ValueType)
    → RowsFrom (some t) vs final
    → final ≡ some ValueType.object
rows_object ValueType.object no_items final (e, h) = sym e
rows_object ValueType.null no_items final (e, h) = absurd h
rows_object _ no_items final (e, h) = absurd h
rows_object t (item v vs) final (u, e, rows) = rows_object u vs final rows

-- The node of a block array.
pub block_array_of :
    {rest : Bytes} {depth : ℕ} (h g : Head) (xs ys : Values) (final : Option ValueType)
    (value : Value) (p : Parser)
    → plain_head g ≡ plain_head h
    → RowsFrom none xs final
    → plain_items ys ≡ plain_items xs
    → value ≡ array (type_or_string final) ys []
    → Stream p rest depth
    → Yields (NodeRead (block_array h xs []) rest depth) (node_of g true value p)
unfolding node_of plain_node plain_items
block_array_of h g no_items ys final value p e (none_is, o) same is s =
    rw (is, ← none_is, no_items_shape ys same) (yields (rw e refl, s))
block_array_of h g (item v vs) ys final value p e (t, j, rows) same is s =
    rw (is, rows_object t vs final rows) (yields (rw (e, same) refl, s))

pub pushed_items :
    (ys vs : Values) (w v : Value)
    → plain_value w ≡ plain_value v
    → append_values (plain_items (push_value ys w)) (plain_items vs)
      ≡ append_values (plain_items ys) (plain_items (item v vs))
unfolding plain_items
pushed_items ys vs w v same =
    rw (plain_items-push_value ys w, same)
      (append_values-push (plain_items ys) (plain_value v) (plain_items vs))
