-- ===== src/Parser/Tests.antt =====
-- Runs of the parser, and the float parsing that they are given.
use skg.Base.{
  ◌↔◌, ℕ, List, [], ◌∷◌, Bytes, codes, ◌≡◌, refl, Option, none, some, true, false, bytes_eq,
  bytes_beq, ◌==◌, if◌then◌else◌,
}
use skg.Model.{
  Comment, Head, Nodes, bool, null, object, field, block, block_array, delete, nil, cons, no_items,
  item, Document,
}
use skg.Result.{Ensures, Result, ok}
use mathlib.Core.Option
use skg.Model.{node_key, value_type}
use skg.Parser.Text.{
  is_directive, is_absolute_import_path, parse_i64, is_finite, check_version, unescape_string,
  first_invalid_utf8,
}
use skg.Parser.State.{
  next_token, record_comment, buffer_comment, skip_comments, fill_peeked, peek, consume,
  drain_comments, try_trailing_comment, expected_code, expect_tag, expect, enter, leave,
}
use skg.Parser.Grammar.{
  close_object, delete_of, operation_head, expect_body, block_of, scalar_at, string_value,
  parse_node, parse_body, parse_operation, parse_object, object_loop, parse_value, array_loop,
}
use skg.Parser.Arrays.{
  array_move, note_missing, join_type, settle, push_item, push_typed, close_at, array_step,
  close_array,
}
use skg.Parser.Keys.{unescaped, is_triple_quoted, parse_key, set_path, node_of}
use skg.Parser.File.{
  append_import, import_loop, parse_imports, set_checked, set_skg_version, set_version,
  capture_leading, parse_directive, document_of, parse_child, file_loop, parse_file, parse_source,
  parse_bytes,
}
use skg.Lexer.{next}
use skg.Parser.Utf8.{IsUtf8, first_invalid_utf8_iff}
use skg.Parser.Whole.{DocumentSound, parse_bytes-DocumentSound}
use skg.Merge.{merge_nodes, merge_nodes_budget, compose_all, place}

-- Stands for `str::parse::<f64>` at the literals of these tests.
abbrev pub sample_f64 : Bytes → Option ℕ
sample_f64 text = if text == codes "0.5" then some 0x3FE0000000000000 else none

abbrev head : Bytes → ℕ → ℕ → List Comment → Head
head key line col leading = record {
  path = codes "f";
  key = key;
  line = line;
  col = col;
  leading_comments = leading;
}

-- On an `unfolding` line it opens the whole parser.
unfoldable pub run_parser : Unit {0}
unfolding is_directive is_absolute_import_path parse_i64 is_finite check_version unescape_string
    first_invalid_utf8 next_token record_comment buffer_comment skip_comments fill_peeked peek
    consume drain_comments try_trailing_comment expected_code expect_tag expect enter leave
    unescaped is_triple_quoted parse_key set_path node_of array_move note_missing join_type settle
    push_item push_typed close_at array_step close_array close_object delete_of operation_head
    expect_body block_of scalar_at string_value parse_node parse_body parse_operation parse_object
    object_loop parse_value array_loop append_import import_loop parse_imports set_checked
    set_skg_version set_version capture_leading parse_directive document_of parse_child file_loop
    parse_file parse_source parse_bytes next merge_nodes merge_nodes_budget compose_all place
    node_key value_type Option.bind
run_parser = tt

-- The children of the document that a source parses to.
children_of : Result Document → Option Nodes
children_of (ok d) = some d.children
children_of _ = none

abbrev source : Bytes
source = codes "a: [1, -2]\nb { x: true }\nb { y: null }\n@delete a\nc [{} null]"

children_of_source :
    children_of (parse_bytes sample_f64 source (codes "f"))
    ≡ some (
        cons (delete (head (codes "a") 4 9 []) none) (
          cons
            (block
              (head (codes "b") 2 1 [])
              false
              (cons
                (field (head (codes "x") 2 5 []) (bool true) none)
                (cons (field (head (codes "y") 3 5 []) null none) nil))
              [])
            (cons
              (block_array (head (codes "c") 5 1 []) (item (object nil []) (item null no_items)) [])
              nil)))
unfolding children_of run_parser bytes_beq
children_of_source = refl

parse_bytes-DocumentSound_example :
    Ensures DocumentSound (parse_bytes sample_f64 source (codes "f"))
parse_bytes-DocumentSound_example = parse_bytes-DocumentSound sample_f64 source (codes "f")

abbrev accented : Bytes
accented = 0x61 ∷ 0xC3 ∷ 0xA9 ∷ []

first_invalid_utf8_iff_example : (first_invalid_utf8 accented ≡ none) ↔ IsUtf8 accented
first_invalid_utf8_iff_example = first_invalid_utf8_iff accented
