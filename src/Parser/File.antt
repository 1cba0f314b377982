-- ===== src/Parser/File.antt =====
-- `parse_file` with its imports, and `parse_bytes`, of rust/src/parser.rs.
use skg.Base.{
  ℕ, zero, suc, ◌+◌, ◌*◌, Bool, true, false, not, ◌&&◌, Option, none, some, List, [], ◌∷◌, ◌++◌,
  Bytes, codes, ltb, ◌==◌, nat_eq, bytes_eq, bytes_beq, if◌then◌else◌, length,
}
use skg.Error.{Position, diagnostic, without_position}
use skg.Error.Codes.{
  directive_after_body, duplicate_skg_version, duplicate_schema_version, malformed_skg_version,
  unsupported_skg_version, unterminated_import_list, expected_comma, expected_import_path,
  absolute_import_path, file_too_large, invalid_utf8,
}
use skg.Model.{Comment, Nodes, nil, cons, push_node, Document}
use skg.Merge.{merge_nodes}
use skg.Result
use skg.Result.{Result, ok, err, out_of_fuel}
use skg.Lexer.Scan.{Tag, Token, tag_eq, new_lexer}
use skg.Parser.Text.{
  VersionCheck, is_directive, is_absolute_import_path, supported, malformed, unsupported,
  check_version, unescape_string, first_invalid_utf8, max_file_size,
}
use skg.Parser.State.{
  Parser, Parse, pure, ◌>>=◌, ◌>>◌, fail, place_of, peek, consume, drain_comments, expect,
}
use skg.Parser.Grammar.{parse_node}
use skg.Parser.Keys.{unescaped}

-- The variables of the loop of `parse_file`.
pub record FileState : Type 0 where
  pub skg_version : Option Bytes
  pub schema_version : Option Bytes
  pub import_paths : List Bytes
  pub import_positions : List Position
  pub children : Nodes
  pub file_leading : List Comment
  pub captured_file_leading : Bool

abbrev pub new_file : FileState
new_file = record {
  skg_version = none;
  schema_version = none;
  import_paths = [];
  import_positions = [];
  children = nil;
  file_leading = [];
  captured_file_leading = false;
}

-- The two vectors that `parse_imports` appends to.
pub record Imports : Type 0 where
  pub paths : List Bytes
  pub positions : List Position

unfoldable pub append_import : Imports → Token → Parse Imports
unfolding unescaped
append_import imports t = do
  path ← unescaped (place_of t) (unescape_string t.text)
  if is_absolute_import_path path
      then fail (place_of t) absolute_import_path
      else pure (record {
        paths = imports.paths ++ path ∷ [];
        positions = imports.positions ++ place_of t ∷ [];
      })

-- The loop of `parse_imports`, behind the opening bracket.
unfoldable pub import_loop : ℕ → Bool → Imports → Parse Imports
import_loop zero need_path imports p = out_of_fuel
import_loop (suc f) need_path imports p =
    (do
      t ← peek
      if t.tag == Tag.r_bracket
          then (do consume; pure imports)
          else if t.tag == Tag.eof
          then fail (place_of t) unterminated_import_list
          else if need_path
          then (do
            text ← expect Tag.string
            more ← append_import imports text
            import_loop f false more)
          else if not (t.tag == Tag.comma)
          then fail (place_of t) expected_comma
          else (do consume; import_loop f true imports))
      p

unfoldable pub parse_imports : ℕ → Imports → Parse Imports
unfolding import_loop append_import
parse_imports f imports = do
  t ← peek
  if t.tag == Tag.string
      then (do text ← consume; append_import imports text)
      else if t.tag == Tag.l_bracket
      then (do consume; import_loop f true imports)
      else fail (place_of t) expected_import_path

abbrev pub is_some : {A : Type 0} → Option A → Bool
is_some none = false
is_some (some a) = true

-- The `match check_version(&value)`.
unfoldable pub set_checked : VersionCheck → Position → Bytes → FileState → Parse FileState
set_checked supported place value s = pure (record s { skg_version = some value })
set_checked malformed place value s = fail place malformed_skg_version
set_checked unsupported place value s = fail place unsupported_skg_version

unfoldable pub set_skg_version : Position → Bytes → FileState → Parse FileState
unfolding set_checked
set_skg_version place value s = set_checked (check_version value) place value s

-- A version directive, on its name, the value's token and the decoded value.
unfoldable pub set_version : Bytes → Position → Bytes → FileState → Parse FileState
unfolding set_skg_version bytes_beq
set_version directive place value s =
    if directive == codes "skg_version"
    then (if is_some s.skg_version
        then fail place duplicate_skg_version
        else set_skg_version place value s)
    else if is_some s.schema_version
    then fail place duplicate_schema_version
    else pure (record s { schema_version = some value })

abbrev pub is_nil : Nodes → Bool
is_nil nil = true
is_nil (cons n ns) = false

-- `drain_comments_into(&mut file_leading)`, with the flag.
unfoldable pub capture_leading : FileState → Parse FileState
capture_leading s = do
  leading ← drain_comments
  pure (record s { file_leading = s.file_leading ++ leading; captured_file_leading = true })

-- A header directive, which `t` names.
unfoldable pub parse_directive : ℕ → Token → FileState → Parse FileState
unfolding capture_leading parse_imports set_version bytes_beq
parse_directive f t s =
    if not (is_nil s.children) then fail (place_of t) directive_after_body else (do
      s₁ ← capture_leading s
      directive ← consume
      if directive.text == codes "import"
          then (do
            imports ←
                parse_imports f
                  (record { paths = s₁.import_paths; positions = s₁.import_positions })
            pure (record s₁ { import_paths = imports.paths; import_positions = imports.positions }))
          else (do
            expect Tag.colon
            value_token ← expect Tag.string
            value ← unescaped (place_of value_token) (unescape_string value_token.text)
            set_version directive.text (place_of value_token) value s₁))

-- Behind the loop. Comments of a file with nothing else stand at its top.
unfoldable pub document_of : FileState → Parse Document
document_of s p =
    (do
      trailing ← drain_comments
      pure (record {
        path = p.path;
        skg_version = s.skg_version;
        schema_version = s.schema_version;
        import_paths = s.import_paths;
        import_positions = s.import_positions;
        children = merge_nodes s.children;
        imports_resolved = false;
        leading_comments =
            (if s.captured_file_leading then s.file_leading else s.file_leading ++ trailing);
        trailing_comments = (if s.captured_file_leading then trailing else []);
      }))
      p

abbrev pub new_parser : Bytes → Bytes → Parser
new_parser src path = record {
  lex = new_lexer src;
  peeked = none;
  path = path;
  source = src;
  source_identity = none;
  depth = 0;
  comment_buf = [];
  next_comment = 0;
}

-- Fuel for a source: four units for each byte, and four more.
abbrev pub fuel_for : Bytes → ℕ
fuel_for src = 4 * length src + 4

abbrev pub value_of : Result (Document × Parser) → Result Document
value_of r = Result.bind r λ (document, p). ok document

module _ (parse_f64 : Bytes → Option ℕ) where
  -- A node of the body.
  unfoldable pub parse_child : ℕ → FileState → Parse FileState
  unfolding capture_leading
  parse_child f s = do
    s₁ ← (if s.captured_file_leading then pure s else capture_leading s)
    node ← parse_node parse_f64 f
    pure (record s₁ { children = push_node s₁.children node })

  -- The loop of `parse_file`.
  unfoldable pub file_loop : ℕ → FileState → Parse FileState
  unfolding parse_child parse_directive
  file_loop zero s p = out_of_fuel
  file_loop (suc f) s p =
      (do
        t ← peek
        if t.tag == Tag.eof then pure s else (do
          more ←
              (if t.tag == Tag.ident && is_directive t.text
                then parse_directive f t s
                else parse_child f s)
          file_loop f more))
        p

  unfoldable pub parse_file : ℕ → Parse Document
  unfolding file_loop document_of
  parse_file f = do s ← file_loop f new_file; document_of s

  -- `parse_bytes` behind the check of its size, on the first position that is not UTF-8.
  unfoldable pub parse_source : Option Position → Bytes → Bytes → Result Document
  unfolding parse_file
  parse_source (some place) src path = err (diagnostic invalid_utf8 path place)
  parse_source none src path = value_of (parse_file (fuel_for src) (new_parser src path))

  unfoldable pub parse_bytes : Bytes → Bytes → Result Document
  unfolding parse_source
  parse_bytes src path =
      if ltb max_file_size (length src)
      then err (without_position file_too_large path)
      else parse_source (first_invalid_utf8 src) src path
