-- ===== src/Emit.antt =====
-- rust/src/emit.rs: canonical text. What a function of the source pushes onto its buffer is what it
-- gives here. A character of several bytes has no byte that is escaped, so the loop over characters is
-- one over bytes. The `Display` of `f64` is not in this repository: it is the parameter `show_f64`.
pub mod Quote
pub mod Literal
pub mod Decimal
mod Tests
use skg.Base.{
  ℕ, zero, suc, ◌+◌, ◌/◌, ◌%◌, Bool, true, false, not, ◌&&◌, ◌||◌, Option, none, some, List, [],
  ◌∷◌, ◌++◌, Bytes, codes, ltb, ◌==◌, nat_eq, if◌then◌else◌, length, option_beq, get_elem?, any,
}
use skg.Model.{
  Comment, Head, ℤ, pos, negsuc, Value, Values, Node, Nodes, int, float, bool, string, null, array,
  object, delete, field, block, block_array, empty, nil, cons, no_items, item, Document,
}
use skg.Lexer.Scan.{is_identifier}
use skg.Parser.Text.{is_directive, is_finite}

unfoldable pub write_indent : ℕ → Bytes
write_indent zero = []
write_indent (suc depth) = codes "  " ++ write_indent depth

-- A round of `write_escaped`.
unfoldable pub escape : ℕ → Bytes
escape c =
    if c == b'"'
    then b'\\' ∷ b'"' ∷ []
    else if c == b'\\'
    then b'\\' ∷ b'\\' ∷ []
    else if c == b'\n'
    then b'\\' ∷ b'n' ∷ []
    else if c == b'\t'
    then b'\\' ∷ b't' ∷ []
    else c ∷ []

unfoldable pub write_escaped : Bytes → Bytes
unfolding escape
write_escaped [] = []
write_escaped (c ∷ cs) = escape c ++ write_escaped cs

unfoldable pub write_quoted : Bytes → Bytes
unfolding write_escaped
write_quoted value = b'"' ∷ write_escaped value ++ b'"' ∷ []

unfoldable pub write_key : Bytes → ℕ → Bytes
unfolding is_identifier is_directive write_quoted
write_key key depth =
    if is_identifier key && (ltb 0 depth || not (is_directive key)) then key else write_quoted key

unfoldable pub emit_comment_lines : List Comment → ℕ → Bytes
unfolding write_indent
emit_comment_lines [] depth = []
emit_comment_lines (c ∷ cs) depth =
    write_indent depth ++ c.text ++ b'\n' ∷ emit_comment_lines cs depth

-- `s.contains("\"\"\"")`
unfoldable pub has_triple : Bytes → Bool
has_triple [] = false
has_triple (c ∷ cs) =
    let more = has_triple cs in
    if c == b'"'
      && option_beq (get_elem? cs 0) (some b'"')
      && option_beq (get_elem? cs 1) (some b'"')
    then true
    else more

-- `s.ends_with('"')`
unfoldable pub ends_with_quote : Bytes → Bool
ends_with_quote [] = false
ends_with_quote (c ∷ []) = c == b'"'
ends_with_quote (c ∷ d ∷ cs) = ends_with_quote (d ∷ cs)

unfoldable pub can_emit_multiline : Bytes → Bool
unfolding has_triple ends_with_quote
can_emit_multiline s = if has_triple s then false else not (ends_with_quote s)

-- `Value::String` in `emit_value`
unfoldable pub write_string : Bytes → Bytes
unfolding can_emit_multiline write_escaped
write_string s =
    if any (λ c. c == b'\n') s && can_emit_multiline s
    then codes "\"\"\"" ++ s ++ codes "\"\"\""
    else b'"' ∷ write_escaped s ++ b'"' ∷ []

-- The decimal digits of a number, as `to_string` writes them; a digit takes a unit of fuel.
unfoldable pub digits : ℕ → ℕ → Bytes
digits zero n = []
digits (suc f) n =
    let more = digits f (n / 10) in (if ltb n 10 then [] else more) ++ (b'0' + n % 10) ∷ []

-- `i64::to_string`; a number has fewer digits than its value is large.
unfoldable pub int_text : ℤ → Bytes
unfolding digits
int_text (pos n) = digits (suc n) n
int_text (negsuc n) = b'-' ∷ digits (suc (suc n)) (suc n)

-- `if let Some(trailing) = ...`
unfoldable pub trailing_text : Option Comment → Bytes
trailing_text none = []
trailing_text (some c) = b' ' ∷ c.text

-- The blank line before a block that is not the first node of the file.
unfoldable pub blank_line : ℕ → ℕ → Bytes
blank_line i depth = if ltb 0 i && depth == 0 then b'\n' ∷ [] else []

-- `import` statements of an unresolved document.
unfoldable pub import_lines : List Bytes → Bytes
unfolding write_quoted
import_lines [] = []
import_lines (path ∷ []) = codes "  " ++ write_quoted path ++ b'\n' ∷ []
import_lines (path ∷ next ∷ paths) =
    codes "  " ++ write_quoted path ++ b',' ∷ b'\n' ∷ import_lines (next ∷ paths)

unfoldable pub emit_imports : List Bytes → Bytes
unfolding import_lines
emit_imports [] = []
emit_imports (path ∷ []) = codes "import " ++ write_quoted path ++ b'\n' ∷ []
emit_imports (path ∷ next ∷ paths) =
    codes "import [\n" ++ import_lines (path ∷ next ∷ paths) ++ codes "]\n"

abbrev is_some {ℓ} : {A : Type ℓ} → Option A → Bool
is_some none = false
is_some (some a) = true

unfoldable pub emit_version : Bytes → Option Bytes → Bytes
unfolding write_quoted
emit_version name none = []
emit_version name (some version) = name ++ codes ": " ++ write_quoted version ++ b'\n' ∷ []

module _ (show_f64 : ℕ → Bytes) where
  unfoldable pub format_float : ℕ → Bytes
  format_float f =
      if not (is_finite f)
      then codes "null"
      else if any (λ c. c == b'.') (show_f64 f)
      then show_f64 f
      else show_f64 f ++ codes ".0"

  unfoldable mutual
    -- `emit_nodes`, from the node at index `i`
    pub emit_from : ℕ → Nodes → ℕ → Bytes
    emit_from i nil depth = []
    emit_from i (cons n ns) depth = emit_node i n depth ++ emit_from (suc i) ns depth

    pub emit_node : ℕ → Node → ℕ → Bytes
    emit_node i (delete h t) depth =
        emit_comment_lines h.leading_comments depth
        ++ write_indent depth
        ++ codes "@delete "
        ++ write_key h.key depth
        ++ trailing_text t
        ++ b'\n' ∷ []
    emit_node i (field h v t) depth =
        emit_comment_lines h.leading_comments depth
        ++ write_indent depth
        ++ write_key h.key depth
        ++ codes ": "
        ++ emit_value v depth
        ++ trailing_text t
        ++ b'\n' ∷ []
    emit_node i (block h replace cs t) depth =
        blank_line i depth
        ++ emit_comment_lines h.leading_comments depth
        ++ write_indent depth
        ++ (if replace then codes "@replace " else [])
        ++ write_key h.key depth
        ++ codes " {\n"
        ++ emit_from 0 cs (suc depth)
        ++ emit_comment_lines t (suc depth)
        ++ write_indent depth
        ++ codes "}\n"
    emit_node i (block_array h xs t) depth =
        blank_line i depth
        ++ emit_comment_lines h.leading_comments depth
        ++ write_indent depth
        ++ write_key h.key depth
        ++ codes " [\n"
        ++ emit_lines xs (suc depth)
        ++ emit_comment_lines t (suc depth)
        ++ write_indent depth
        ++ codes "]\n"
    emit_node i empty depth = []

    -- The items of a block array, each on a line.
    pub emit_lines : Values → ℕ → Bytes
    emit_lines no_items depth = []
    emit_lines (item v vs) depth =
        write_indent depth ++ emit_value v depth ++ b'\n' ∷ emit_lines vs depth

    pub emit_value : Value → ℕ → Bytes
    emit_value (int n) depth = int_text n
    emit_value (float f) depth = format_float f
    emit_value (bool true) depth = codes "true"
    emit_value (bool false) depth = codes "false"
    emit_value (string s) depth = write_string s
    emit_value null depth = codes "null"
    emit_value (object cs t) depth =
        codes "{\n"
        ++ emit_from 0 cs (suc depth)
        ++ emit_comment_lines t (suc depth)
        ++ write_indent depth
        ++ b'}' ∷ []
    emit_value (array element xs []) depth = b'[' ∷ emit_items true xs depth ++ b']' ∷ []
    emit_value (array element xs (c ∷ t)) depth =
        b'[' ∷ emit_items true xs depth
        ++ b'\n' ∷ emit_comment_lines (c ∷ t) (suc depth)
        ++ write_indent depth
        ++ b']' ∷ []

    -- The items of an inline array at `depth`; the first has no separator.
    pub emit_items : Bool → Values → ℕ → Bytes
    emit_items first no_items depth = []
    emit_items first (item v vs) depth =
        (if first then [] else codes ", ") ++ emit_value v (suc depth) ++ emit_items false vs depth

  abbrev pub emit_nodes : Nodes → ℕ → Bytes
  emit_nodes = emit_from 0

  abbrev is_nil : Nodes → Bool
  is_nil nil = true
  is_nil _ = false

  abbrev has_imports : Document → Bool
  has_imports d = not d.imports_resolved && not (length d.import_paths == 0)

  unfoldable pub emit : Document → Bytes
  unfolding emit_from emit_comment_lines emit_imports emit_version
  emit d =
      let has_header = is_some d.skg_version || is_some d.schema_version || has_imports d in
      emit_comment_lines d.leading_comments 0
      ++ emit_version (codes "skg_version") d.skg_version
      ++ (if has_imports d then emit_imports d.import_paths else [])
      ++ emit_version (codes "schema_version") d.schema_version
      ++ (if has_header && not (is_nil d.children) then b'\n' ∷ [] else [])
      ++ emit_nodes d.children 0
      ++ emit_comment_lines d.trailing_comments 0
