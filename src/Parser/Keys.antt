-- ===== src/Parser/Keys.antt =====
-- rust/src/parser.rs: keys, and the nodes that a value makes.
use skg.Base.{
  Bool, true, false, not, ◌&&◌, Option, none, some, List, [], Bytes, ◌==◌, nat_eq, bytes_eq,
  if◌then◌else◌, option_beq, get_elem?,
}
use skg.Error.{Position}
use skg.Error.Codes.{invalid_escape}
use skg.Model.{
  Comment, Head, ValueType, type_eq, Value, Node, array, object, delete, field, block, block_array,
  empty, no_items,
}
use skg.Lexer.Scan.{Tag, Token, tag_eq}
use skg.Parser.Text.{unescape_string}
use skg.Parser.State.{
  Parse, pure, ◌>>=◌, fail, place_of, peek, consume, try_trailing_comment, lexer_line, expect,
}

-- `unescape_string(..).map_err(..)`
unfoldable pub unescaped : Position → Option Bytes → Parse Bytes
unescaped place none = fail place invalid_escape
unescaped place (some s) = pure s

-- `text.starts_with("\"\"\"")`
unfoldable pub is_triple_quoted : Bytes → Bool
is_triple_quoted text =
    option_beq (get_elem? text 0) (some b'"')
    && option_beq (get_elem? text 1) (some b'"')
    && option_beq (get_elem? text 2) (some b'"')

unfoldable pub parse_key : Parse Token
unfolding is_triple_quoted unescaped
parse_key = do
  ahead ← peek
  if ahead.tag == Tag.string && not (is_triple_quoted ahead.text)
      then (do
        t ← consume
        decoded ← unescaped (place_of t) (unescape_string t.text)
        pure (record t { text = decoded }))
      else expect Tag.ident

-- What `parse_node` writes into the node.
unfoldable pub set_path : Bytes → Node → Node
set_path path (delete h t) = delete (record h { path = path }) t
set_path path (field h v t) = field (record h { path = path }) v t
set_path path (block h r cs t) = block (record h { path = path }) r cs t
set_path path (block_array h xs t) = block_array (record h { path = path }) xs t
set_path path empty = empty

abbrev pub head_of : Token → List Comment → Head
head_of name leading = record {
  path = [];
  key = name.text;
  line = name.line;
  col = name.col;
  leading_comments = leading;
}

unfoldable pub field_of : Head → Value → Parse Node
field_of h value = do
  line ← lexer_line
  trailing ← try_trailing_comment line
  pure (field h value trailing)

-- The end of `parse_node_body`: the node that a value makes.
unfoldable pub node_of : Head → Bool → Value → Parse Node
unfolding field_of
node_of h colonless (object children trailing) = pure (block h false children trailing)
node_of h colonless (array ValueType.object items trailing) = pure (block_array h items trailing)
node_of h true (array element no_items trailing) = pure (block_array h no_items trailing)
node_of h colonless value = field_of h value
