-- ===== src/Emit/Tests.antt =====
-- Runs of the emitter, and the round trips of a string and a number.
use skg.Base.{some, none, [], ◌++◌, Bytes, codes, ◌≡◌, refl, true, ◌+◌, length, arith}
use skg.Model.{Head, negsuc, Nodes, delete, field, block, nil, cons, int, string}
use skg.Result.{ok}
use skg.Lexer.{next}
use skg.Lexer.Scan.{Tag}
use skg.Parser.Text.{parse_i64, unescape_string}
use skg.Emit.{
  write_quoted, write_key, write_string, blank_line, trailing_text, int_text, emit_nodes, emit_from,
  emit_comment_lines,
}
use skg.Emit.Literal.{next-write_quoted}
use skg.Emit.Decimal.{parse_i64-int_text}

abbrev head : Bytes → Head
head key = record { path = []; key = key; line = 1; col = 1; leading_comments = [] }

abbrev sample : Nodes
sample = cons (field (head (codes "a b")) (int (negsuc 41)) none) (
    cons
      (block (head (codes "b")) true
        (cons (delete (head (codes "import")) none)
          (cons (field (head (codes "s")) (string (codes "x\"y")) none) nil))
        [])
      nil)

emit_nodes_of_sample :
    emit_nodes (λ f. []) sample 0
    ≡ codes "\"a b\": -42\n\n@replace b {\n  @delete import\n  s: \"x\\\"y\"\n}\n"
unfolding emit_from emit_comment_lines write_key write_string int_text trailing_text blank_line
emit_nodes_of_sample = refl

next-write_quoted_example :
    (next (record { rest = write_quoted (codes "a\"b") ++ codes ": 1"; line = 1; col = 1 })
      ≡ ok (
        record { tag = Tag.string; text = write_quoted (codes "a\"b"); line = 1; col = 1 },
        record { rest = codes ": 1"; line = 1; col = 1 + length (write_quoted (codes "a\"b")) },
      ))
    × (unescape_string (write_quoted (codes "a\"b")) ≡ some (codes "a\"b"))
next-write_quoted_example = next-write_quoted (codes "a\"b") (codes ": 1") 1 1 refl

parse_i64-int_text_example : parse_i64 (int_text (negsuc 41)) ≡ some (negsuc 41)
parse_i64-int_text_example = parse_i64-int_text (negsuc 41) (omega arith)
