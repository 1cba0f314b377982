-- ===== src/Parser/Grammar.antt =====
-- The recursive descent of rust/src/parser.rs. A call that goes down, or a further round of a loop,
-- takes a unit of fuel. `str::parse::<f64>` is not in this repository: it is the parameter
-- `parse_f64`, from a float literal to the bit pattern of its value.
use skg.Base.{
  ℕ, zero, suc, Bool, true, false, not, ◌&&◌, Option, none, some, List, Bytes, codes, ◌==◌, nat_eq,
  bytes_eq, bytes_beq, if◌then◌else◌,
}
use skg.Error.{Position}
use skg.Error.Codes.{
  expected_value, expected_node_body, expected_replacement_block, unknown_overlay_operation,
  unterminated_block, invalid_int, invalid_float, invalid_escape,
}
use skg.Model.{
  Comment, Head, ℤ, type_eq, Value, Node, Nodes, int, float, bool, string, null, object, delete,
  block, empty, nil, push_node,
}
use skg.Merge.{merge_nodes}
use skg.Result.{out_of_fuel}
use skg.Lexer.Scan.{Tag, Token, tag_eq}
use skg.Parser.Text.{parse_i64, is_finite, unescape_string}
use skg.Parser.State.{
  Parse, pure, ◌>>=◌, ◌>>◌, fail, place_of, peek, consume, drain_comments, try_trailing_comment,
  lexer_line, expect, enter, leave,
}
use skg.Parser.Keys.{head_of, node_of, parse_key, set_path}
use skg.Parser.Arrays.{ArrayState, array_move, array_step, new_array}

-- The arms of `parse_value` for scalars, then the others.
abbrev pub value_or : Option (Parse Value) → Parse Value → Parse Value
value_or (some value) others = value
value_or none others = others

-- What `parse_value` and `parse_node_body` do behind an opening bracket.
abbrev pub bracketed : Parse Value → Token → Parse Value
bracketed loop t = do enter (place_of t); value ← loop; leave; pure value

-- The end of the loop of `parse_object`, at its closing brace.
unfoldable pub close_object : Nodes → Parse Value
close_object children = do
  trailing ← drain_comments
  consume
  leave
  pure (object (merge_nodes children) trailing)

unfoldable pub int_value : Position → Option ℤ → Parse Value
int_value place none = fail place invalid_int
int_value place (some n) = pure (int n)

unfoldable pub float_value : Position → Option ℕ → Parse Value
float_value place none = fail place invalid_float
float_value place (some f) = if not (is_finite f) then fail place invalid_float else pure (float f)

unfoldable pub string_value : Position → Option Bytes → Parse Value
string_value place none = fail place invalid_escape
string_value place (some s) = pure (string s)

-- `@delete key`, behind the key.
unfoldable pub delete_of : Head → Parse Node
delete_of h = do line ← lexer_line; trailing ← try_trailing_comment line; pure (delete h trailing)

-- `parse_operation` up to its key: whether it deletes, and the key.
unfoldable pub operation_head : Parse (Bool × Token)
unfolding bytes_beq
operation_head = do
  consume
  operation ← expect Tag.ident
  if not (operation.text == codes "delete") && not (operation.text == codes "replace")
      then fail (place_of operation) unknown_overlay_operation
      else (do key ← parse_key; pure (operation.text == codes "delete", key))

-- `@replace key`, up to its opening brace.
unfoldable pub expect_body : Parse Token
expect_body = do
  open_token ← peek
  if not (open_token.tag == Tag.l_brace)
      then fail (place_of open_token) expected_replacement_block
      else consume

unfoldable pub block_of : Head → Value → Parse Node
block_of h (object children trailing) = pure (block h true children trailing)
-- `unreachable!`
block_of h value = pure empty

module _ (parse_f64 : Bytes → Option ℕ) where
  -- A scalar token, or `none` for one that opens or is no value.
  unfoldable pub scalar_at : Tag → Token → Option (Parse Value)
  unfolding int_value float_value string_value
  scalar_at Tag.int t = some (int_value (place_of t) (parse_i64 t.text))
  scalar_at Tag.float t = some (float_value (place_of t) (parse_f64 t.text))
  scalar_at Tag.bool_true t = some (pure (bool true))
  scalar_at Tag.bool_false t = some (pure (bool false))
  scalar_at Tag.null_literal t = some (pure null)
  scalar_at Tag.string t = some (string_value (place_of t) (unescape_string t.text))
  scalar_at _ t = none

  abbrev pub scalar : Token → Option (Parse Value)
  scalar t = scalar_at t.tag t

  unfoldable mutual
    -- `parse_node` and `parse_node_body`
    pub parse_node : ℕ → Parse Node
    parse_node zero p = out_of_fuel
    parse_node (suc f) p =
        (do
          leading ← drain_comments
          ahead ← peek
          node ←
              (if ahead.tag == Tag.at
                then parse_operation f leading
                else (do name ← parse_key; parse_body f (head_of name leading)))
          pure (set_path p.path node))
          p

    -- `parse_node_body` behind the key
    pub parse_body : ℕ → Head → Parse Node
    parse_body zero h p = out_of_fuel
    parse_body (suc f) h p =
        (do
          t ← peek
          if t.tag == Tag.colon
              then (do consume; value ← parse_value f; node_of h false value)
              else if t.tag == Tag.l_brace
              then (do value ← parse_value f; node_of h false value)
              else if t.tag == Tag.l_bracket
              then (do
                consume
                value ← bracketed (array_loop f true new_array) t
                node_of h true value)
              else fail (place_of t) expected_node_body)
          p

    pub parse_operation : ℕ → List Comment → Parse Node
    parse_operation zero leading p = out_of_fuel
    parse_operation (suc f) leading p =
        (do
          (deletes, key) ← operation_head
          if deletes then delete_of (head_of key leading) else (do
            open_token ← expect_body
            value ← parse_object f (place_of open_token)
            block_of (head_of key leading) value))
          p

    pub parse_object : ℕ → Position → Parse Value
    parse_object zero place p = out_of_fuel
    parse_object (suc f) place p = (do enter place; object_loop f nil) p

    pub object_loop : ℕ → Nodes → Parse Value
    object_loop zero children p = out_of_fuel
    object_loop (suc f) children p =
        (do
          t ← peek
          if t.tag == Tag.r_brace
              then close_object children
              else if t.tag == Tag.eof
              then fail (place_of t) unterminated_block
              else (do child ← parse_node f; object_loop f (push_node children child)))
          p

    pub parse_value : ℕ → Parse Value
    parse_value zero p = out_of_fuel
    parse_value (suc f) p =
        (do
          t ← consume
          value_or (scalar t) (
              if t.tag == Tag.l_brace
              then parse_object f (place_of t)
              else if t.tag == Tag.l_bracket
              then bracketed (array_loop f false new_array) t
              else fail (place_of t) expected_value))
          p

    -- `parse_array`
    pub array_loop : ℕ → Bool → ArrayState → Parse Value
    array_loop zero colonless s p = out_of_fuel
    array_loop (suc f) colonless s p =
        (do
          t ← peek
          array_step (parse_value f) (array_loop f colonless) s t (array_move colonless s t.tag))
          p
