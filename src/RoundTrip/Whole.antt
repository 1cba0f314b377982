-- ===== src/RoundTrip/Whole.antt =====
-- rust/src/emit.rs and rust/src/parser.rs: a whole document, written and parsed.
use skg.Base.{
  ℕ, zero, suc, ◌≤◌, Bool, true, false, ◌&&◌, Option, none, [], ◌++◌, Bytes, ◌≡◌, refl, sym, ap,
  ◌∙◌, ◌==◌, nat_eq, arith, if◌then◌else◌, ltb, length, append-nil, ap₂, Bool-cases, inl, inr,
}
use skg.Model.{Node, Nodes, nil, cons, push_node, Document}
use skg.Merge.Keyed.{IsKeyed}
use skg.Merge.Nesting.{nest_nodes}
use skg.Merge.Compose.{merge_nodes-IsKeyed_self}
use skg.Merge.Positions.{append_nodes, append_nodes-push, append_nodes-nil}
use skg.Result.{ok, Yields, yields, spent, Yields-bind, Yields-Ensures}
use skg.Lexer.Scan.{Tag, Token, tag_eq}
use skg.Lexer.Spell.{Lexes-end}
use skg.Parser.Text.{max_nesting_depth, max_file_size, first_invalid_utf8, is_directive}
use skg.Parser.State.{Parser}
use skg.Parser.File.{
  FileState, new_file, capture_leading, file_loop, parse_file, document_of, parse_source,
  parse_bytes, new_parser, fuel_for,
}
use skg.Parser.Whole.{parse_bytes-DocumentSound}
use skg.Emit.{emit, emit_nodes, emit_from, emit_comment_lines, emit_version, emit_imports}
use skg.RoundTrip.{plain_nodes, plain_node, AreWritable, ShowsFloats}
use skg.RoundTrip.Same.{IsKeyed-same, plain_nodes-push_node}
use skg.RoundTrip.Stream.{Stream, Goes, peek-Shown, drain_comments-Stream}
use skg.RoundTrip.Layout.{nil_text, nodes_text}
use skg.RoundTrip.Keys.{node_start}
use skg.RoundTrip.Bodies.{nodes_Goes}
use skg.RoundTrip.Descent.{Loop, node_reads}

-- A document without a header and without comments of its own.
pub record IsBare (d : Document) : Type 0 where
  pub no_skg_version : d.skg_version ≡ none
  pub no_schema_version : d.schema_version ≡ none
  pub no_imports : d.import_paths ≡ []
  pub no_leading : d.leading_comments ≡ []
  pub no_trailing : d.trailing_comments ≡ []

-- What is read so far of such a document.
record BareFile (s : FileState) : Type 0 where
  pub no_skg_version : s.skg_version ≡ none
  pub no_schema_version : s.schema_version ≡ none
  pub no_imports : s.import_paths ≡ []
  pub no_leading : s.file_leading ≡ []

-- The document says what `children` do, and nothing else.
pub record Says (children : Nodes) (d : Document) : Type 0 where
  pub bare : IsBare d
  pub same : plain_nodes d.children ≡ plain_nodes children

end-Goes : Goes []
end-Goes = record { tag = Tag.eof; text = []; more = []; lexes = Lexes-end; not_comment = refl }

-- Reading no leading comments changes nothing that is said.
abbrev Captured : FileState → Bytes → FileState × Parser → Type 0
Captured s src (s', q) = BareFile s' × (s'.children ≡ s.children) × Stream q src 0

capture_leading-Captured :
    (s : FileState) (p : Parser) (src : Bytes)
    → BareFile s
    → Stream p src 0
    → Yields (Captured s src) (capture_leading s p)
unfolding capture_leading
capture_leading-Captured s p src b st =
    Yields-bind (drain_comments-Stream st) λ (leading, q) (none_left, st'). yields (
      record {
        no_skg_version = b.no_skg_version;
        no_schema_version = b.no_schema_version;
        no_imports = b.no_imports;
        no_leading = rw (b.no_leading, none_left) refl;
      },
      refl,
      st',
    )

captured :
    (test : Bool) (s : FileState) (p : Parser) (src : Bytes)
    → BareFile s
    → Stream p src 0
    → Yields (Captured s src) ((if test then (λ q. ok (s, q)) else capture_leading s) p)
captured true s p src b st = yields (b, refl, st)
captured false s p src b st = capture_leading-Captured s p src b st

document_of-Says :
    (s : FileState) (p : Parser) (children : Nodes)
    → BareFile s
    → plain_nodes s.children ≡ plain_nodes children
    → IsKeyed children
    → Stream p [] 0
    → Yields (λ (d, q). Says children d) (document_of s p)
unfolding document_of
document_of-Says s p children b same k st =
    Yields-bind (drain_comments-Stream st) λ (trailing, q) (none_left, st').
      let merged = merge_nodes-IsKeyed_self s.children (IsKeyed-same s.children children same k) in
      yields (record {
        bare = record {
          no_skg_version = b.no_skg_version;
          no_schema_version = b.no_schema_version;
          no_imports = b.no_imports;
          no_leading = ground (arith, b.no_leading, none_left);
          no_trailing = ground (arith, none_left);
        };
        same = ap plain_nodes merged ∙ same;
      })

pub emit-IsBare :
    (show_f64 : ℕ → Bytes) (d : Document)
    → IsBare d
    → emit show_f64 d ≡ emit_nodes show_f64 d.children 0
unfolding emit emit_comment_lines emit_version emit_imports
emit-IsBare show_f64 d b = elim (Bool-cases d.imports_resolved) [
  | inl resolved ↦
      rw
        (b.no_skg_version, b.no_schema_version, b.no_imports, b.no_leading, b.no_trailing, resolved)
        (append-nil _)
  | inr unresolved ↦
      rw
        (
          b.no_skg_version, b.no_schema_version, b.no_imports, b.no_leading, b.no_trailing,
          unresolved,
        )
        (append-nil _)
]

-- The first token of a node is no directive at the top.
not_directive :
    {tag : Tag} {text : Bytes} (t : Token)
    → t.tag ≡ tag
    → t.text ≡ text
    → (tag == Tag.ident && is_directive text) ≡ false
    → (t.tag == Tag.ident && is_directive t.text) ≡ false
not_directive t tag_is text_is h =
    ap₂ (λ tag text. tag == Tag.ident && is_directive text) tag_is text_is ∙ h

-- The loop once a node more is read.
Loop-push_node :
    (ms ns all_nodes : Nodes) (m n : Node)
    → plain_node m ≡ plain_node n
    → Loop ms (cons n ns) all_nodes
    → Loop (push_node ms m) ns all_nodes
unfolding plain_nodes
Loop-push_node ms ns all_nodes m n same l =
    rw (plain_nodes-push_node ms m, same)
      (append_nodes-push (plain_nodes ms) (plain_node n) (plain_nodes ns) ∙ l)

module _ (show_f64 : ℕ → Bytes) (parse_f64 : Bytes → Option ℕ)
    (floats : ShowsFloats show_f64 parse_f64) where
  abbrev FileRead : Nodes → FileState × Parser → Type 0
  FileRead all_nodes (s, q) =
      BareFile s × (plain_nodes s.children ≡ plain_nodes all_nodes) × Stream q [] 0

  -- With a node read.
  abbrev Grown : Bytes → Nodes → Nodes → FileState × Parser → Type 0
  Grown tail ns all_nodes (s, q) = BareFile s × Loop s.children ns all_nodes × Stream q tail 0

  file_reads :
      (f : ℕ) (p : Parser) (s : FileState) (ns all_nodes : Nodes) (i : ℕ)
      → AreWritable ns
      → IsKeyed ns
      → nest_nodes ns ≤ max_nesting_depth
      → Loop s.children ns all_nodes
      → BareFile s
      → Stream p (emit_from show_f64 i ns 0 ++ []) 0
      → Yields (FileRead all_nodes) (file_loop parse_f64 f s p)
  unfolding file_loop plain_nodes
  file_reads zero p s ns all_nodes i w k room l b st = spent
  file_reads (suc f) p s nil all_nodes i w k room l b st =
      Yields-bind (peek-Shown (rw (nil_text show_f64 i 0 []) at st) refl Lexes-end)
        λ (t, q) (tag_is, text_is, st').
          rw (ap (λ tag. tag == Tag.eof) tag_is)
            (yields (b, sym (append_nodes-nil (plain_nodes s.children)) ∙ l, st'))
  file_reads (suc f) p s (cons n ns) all_nodes i (wn, ws) (kn, fresh, ks) room l b st =
      let tail = emit_from show_f64 (suc i) ns 0 ++ [] in
      let x = node_start show_f64 i 0 n tail wn in
      Yields-bind (peek-Shown (rw (nodes_text show_f64 i 0 n ns []) at st) x.not_comment x.lexes)
        λ (t, q) (tag_is, text_is, st₁).
          rw
            (
              ap (λ tag. tag == Tag.eof) tag_is ∙ x.not_eof,
              not_directive t tag_is text_is (x.not_directive refl),
            )
            (Yields-bind {Before = Grown tail ns all_nodes}
              (Yields-bind (captured s.captured_file_leading s q _ b st₁) λ (s₁, r) (b₁, kept, st₂).
                Yields-bind
                  (node_reads show_f64 parse_f64 floats f r n i 0 0 tail wn kn (omega arith)
                    (nodes_Goes show_f64 (suc i) 0 ns [] ws end-Goes) st₂)
                  λ (m, u) (same, st₃).
                    let looped : Loop (push_node s₁.children m) ns all_nodes =
                      Loop-push_node s₁.children ns all_nodes m n same (rw kept l) in
                    yields (
                      record {
                        no_skg_version = b₁.no_skg_version;
                        no_schema_version = b₁.no_schema_version;
                        no_imports = b₁.no_imports;
                        no_leading = b₁.no_leading;
                      },
                      looped,
                      st₃,
                    ))
              λ (s₂, v) (b₂, looped, st₄).
                file_reads f v s₂ ns all_nodes (suc i) ws ks (omega arith) looped b₂ st₄)

  parse_file_reads :
      (f : ℕ) (src path : Bytes) (ns : Nodes)
      → AreWritable ns
      → IsKeyed ns
      → nest_nodes ns ≤ max_nesting_depth
      → src ≡ emit_nodes show_f64 ns 0
      → Yields (λ (d, q). Says ns d) (parse_file parse_f64 f (new_parser src path))
  unfolding parse_file plain_nodes append_nodes
  parse_file_reads f src path ns w k room e =
      let start : Stream (new_parser src path) (emit_nodes show_f64 ns 0 ++ []) 0 = record {
        ahead = record { blank = []; is_blank = refl; rest_is = e ∙ sym (append-nil _) };
        no_comments = refl;
        depth_is = refl;
      } in
      let bare : BareFile new_file = record {
        no_skg_version = refl;
        no_schema_version = refl;
        no_imports = refl;
        no_leading = refl;
      } in
      Yields-bind (file_reads f (new_parser src path) new_file ns ns 0 w k room refl bare start)
        λ (s, q) (b, same, st). document_of-Says s q ns b same k st

  parse_bytes_reads :
      (src path : Bytes) (ns : Nodes)
      → AreWritable ns
      → IsKeyed ns
      → nest_nodes ns ≤ max_nesting_depth
      → src ≡ emit_nodes show_f64 ns 0
      → length src ≤ max_file_size
      → first_invalid_utf8 src ≡ none
      → Yields (Says ns) (parse_bytes parse_f64 src path)
  unfolding parse_bytes parse_source
  parse_bytes_reads src path ns w k room e small valid =
      let fits : ltb max_file_size (length src) ≡ false = ground arith in
      rw (fits, valid)
        (Yields-bind (parse_file_reads (fuel_for src) src path ns w k room e)
          λ (d, q) says. yields says)

  -- What `emit` writes for a document without a header and comments is parsed, within the parser's
  -- fuel and without a diagnostic, to a document that says the same: the same nodes but for the file and the
  -- positions in their heads, no header and no comments. The children are a well-formed overlay that nests at most `max_nesting_depth`
  -- deep and holds what a text can say (`AreWritable`), floats are shown and parsed as `ShowsFloat`
  -- states, and the text is valid UTF-8 and no longer than `max_file_size`.
  pub parse_bytes-emit :
      (d : Document) (path : Bytes)
      → IsBare d
      → AreWritable d.children
      → IsKeyed d.children
      → nest_nodes d.children ≤ max_nesting_depth
      → length (emit show_f64 d) ≤ max_file_size
      → first_invalid_utf8 (emit show_f64 d) ≡ none
      → (parsed : Document) × (parse_bytes parse_f64 (emit show_f64 d) path ≡ ok parsed)
        × Says d.children parsed
  parse_bytes-emit d path bare w k room small valid =
      Yields-Ensures
        (parse_bytes_reads (emit show_f64 d) path d.children w k room (emit-IsBare show_f64 d bare)
          small valid)
        (parse_bytes-DocumentSound parse_f64 (emit show_f64 d) path)
