-- ===== src/RoundTrip/Formatted.antt =====
-- rust/src/lib.rs: a formatted source, formatted again.
use skg.Base.{
  ℕ, suc, ◌≤◌, Bool, true, false, Option, none, [], ◌∷◌, ◌++◌, Bytes, codes, ◌≡◌, refl, sym, ap,
  ap₂, ◌∙◌, length,
}
use skg.Model.{
  Value, Values, Node, Nodes, int, float, bool, string, null, array, object, delete, field, block,
  block_array, empty, nil, cons, no_items, item, Document,
}
use skg.Result.{ok}
use skg.Result.{Ensures-ok}
use skg.Parser.Text.{max_file_size, first_invalid_utf8}
use skg.Parser.Whole.{parse_bytes-DocumentSound}
use skg.Emit.{emit, emit_nodes, emit_from, emit_node, emit_value, emit_items, emit_lines}
use skg.Format.{parse, parse_source, format}
use skg.RoundTrip.{plain_nodes, plain_node, plain_value, plain_items, AreWritable, ShowsFloats}
use skg.RoundTrip.Whole.{parse_bytes-emit, emit-IsBare, IsBare, Says}

module _ (show_f64 : ℕ → Bytes) where
  -- What is written does not depend on the places in the heads of nodes.
  mutual
    unfolding plain_nodes emit_from

    emit_from-plain :
        (i : ℕ) (ns : Nodes) (at : ℕ)
        → emit_from show_f64 i (plain_nodes ns) at ≡ emit_from show_f64 i ns at
    emit_from-plain i nil at = refl
    emit_from-plain i (cons n ns) at =
        ap₂ ◌++◌ (emit_node-plain i n at) (emit_from-plain (suc i) ns at)

    emit_node-plain :
        (i : ℕ) (n : Node) (at : ℕ)
        → emit_node show_f64 i (plain_node n) at ≡ emit_node show_f64 i n at
    emit_node-plain i (delete h t) at = refl
    emit_node-plain i (field h v t) at = rw (emit_value-plain v at) refl
    emit_node-plain i (block h r cs t) at = rw (emit_from-plain 0 cs (suc at)) refl
    emit_node-plain i (block_array h xs t) at = rw (emit_lines-plain xs (suc at)) refl
    emit_node-plain i empty at = refl

    emit_lines-plain :
        (vs : Values) (at : ℕ) → emit_lines show_f64 (plain_items vs) at ≡ emit_lines show_f64 vs at
    emit_lines-plain no_items at = refl
    emit_lines-plain (item v vs) at = rw (emit_value-plain v at, emit_lines-plain vs at) refl

    emit_value-plain :
        (v : Value) (at : ℕ) → emit_value show_f64 (plain_value v) at ≡ emit_value show_f64 v at
    emit_value-plain (object cs t) at = rw (emit_from-plain 0 cs (suc at)) refl
    emit_value-plain (array element xs []) at = rw (emit_items-plain true xs at) refl
    emit_value-plain (array element xs (c ∷ t)) at = rw (emit_items-plain true xs at) refl
    emit_value-plain (int n) at = refl
    emit_value-plain (float n) at = refl
    emit_value-plain (bool n) at = refl
    emit_value-plain (string n) at = refl
    emit_value-plain null at = refl

    emit_items-plain :
        (first : Bool) (vs : Values) (at : ℕ)
        → emit_items show_f64 first (plain_items vs) at ≡ emit_items show_f64 first vs at
    emit_items-plain first no_items at = refl
    emit_items-plain first (item v vs) at =
        rw (emit_value-plain v (suc at), emit_items-plain false vs at) refl

  emit-Says : (d e : Document) → IsBare d → Says d.children e → emit show_f64 e ≡ emit show_f64 d
  emit-Says d e b says =
      emit-IsBare show_f64 e says.bare
      ∙ sym (emit_from-plain 0 e.children 0)
      ∙ ap (λ ns. emit_nodes show_f64 ns 0) says.same
      ∙ emit_from-plain 0 d.children 0
      ∙ sym (emit-IsBare show_f64 d b)

module _ (show_f64 : ℕ → Bytes) (parse_f64 : Bytes → Option ℕ)
    (floats : ShowsFloats show_f64 parse_f64) where
  -- Formatting is idempotent: what `format` gives for a source is formatted to itself, without an error.
  -- The source parses to a document without a header and comments that a text can say (`AreWritable`), floats are shown and
  -- parsed as `ShowsFloat` states, and what is given is valid UTF-8 and no longer than
  -- `max_file_size`.
  pub format-format :
      (source : Bytes) (document : Document)
      → parse parse_f64 source ≡ ok document
      → IsBare document
      → AreWritable document.children
      → length (emit show_f64 document) ≤ max_file_size
      → first_invalid_utf8 (emit show_f64 document) ≡ none
      → (text : Bytes) × (format parse_f64 show_f64 source ≡ ok text)
        × (format parse_f64 show_f64 text ≡ ok text)
  unfolding format parse parse_source
  format-format source document parses b w small valid =
      let text = emit show_f64 document in
      let path = codes "<string>" in
      let sound = Ensures-ok (parse_bytes-DocumentSound parse_f64 source path) parses in
      let (again, e, says) =
        parse_bytes-emit show_f64 parse_f64 floats document path b w sound.keyed sound.nested small
          valid in
      (text, rw parses refl, rw e (ap ok (emit-Says show_f64 document again b says)))
