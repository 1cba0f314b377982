-- ===== src/Parser/Whole.antt =====
-- rust/src/parser.rs: the whole file, with its loops over directives, imports and nodes.
use skg.Base.{
  ℕ, zero, suc, ◌+◌, ◌*◌, ◌<◌, ◌≤◌, true, not, ◌&&◌, Option, none, some, Bytes, codes, ◌≡◌, refl,
  ◌∙◌, arith, ◌==◌, nat_eq, bytes_eq, ltb, length,
}
use skg.Error.{Position}
use skg.Model.{Document, push_node}
use skg.Merge.Keyed.{IsKeyed, IsLoose}
use skg.Merge.Compose.{merge_nodes-IsKeyed}
use skg.Merge.Nesting.{nest_nodes, nest-push_node, merge_nodes-nest}
use skg.Result.{Ensures, holds, failed, Ensures-bind, Ensures-if, Ensures-map}
use skg.Lexer.Scan.{Tag, Token, tag_eq}
use skg.Parser.Text.{
  max_nesting_depth, max_file_size, is_directive, unescape_string, check_version, VersionCheck,
  supported, malformed, unsupported, first_invalid_utf8,
}
use skg.Parser.State.{Parser, place_of}
use skg.Parser.Grammar.{parse_node}
use skg.Parser.File.{
  FileState, new_file, set_checked, set_skg_version, set_version, capture_leading, parse_directive,
  document_of, is_some, is_nil, parse_source, new_parser, fuel_for, parse_child, file_loop,
  parse_file, parse_bytes,
}
use skg.Parser.Progress.{Ahead, peek-Ahead, drain_comments-After, expect-After}
use skg.Parser.Weight.{size, After, After-trans, After-le, After-refl}
use skg.Parser.Sound.{Ensures-branch, consume_tag, unescaped-After}
use skg.Parser.Steps.{IsLoose-push_node}
use skg.Parser.Imports.{Placed, no_imports-Placed, parse_imports-After}
use skg.Parser.Descent.{parse_node-Noded}

-- The nodes that are read so far.
record Body (s : FileState) : Type 0 where
  pub loose : IsLoose s.children
  pub nested : nest_nodes s.children ≤ max_nesting_depth
  pub placed : Placed s.import_paths s.import_positions

-- What is promised of a document: a well-formed overlay, nested no deeper than the limit, and a
-- position for each import, none of which is absolute.
pub record DocumentSound (d : Document) : Type 0 where
  pub keyed : IsKeyed d.children
  pub nested : nest_nodes d.children ≤ max_nesting_depth
  pub placed : Placed d.import_paths d.import_positions

abbrev BodyPair : ℕ → Parser → FileState × Parser → Type 0
BodyPair lost p (s, q) = Body s × After p q lost

capture_leading-Body :
    (s : FileState) (p : Parser)
    → Body s
    → Ensures (λ (s', q). Body s' × After p q 0 × (q.peeked ≡ p.peeked)) (capture_leading s p)
unfolding capture_leading
capture_leading-Body s p b = Ensures-bind (drain_comments-After p) λ (cs, q) (after, same).
    holds (record { loose = b.loose; nested = b.nested; placed = b.placed }, after, same)

set_checked-Body :
    (c : VersionCheck) (place : Position) (value : Bytes) (s : FileState) (p : Parser)
    → Body s
    → Ensures (λ (s', q). Body s' × (q ≡ p)) (set_checked c place value s p)
unfolding set_checked
set_checked-Body supported place value s p b =
    holds (record { loose = b.loose; nested = b.nested; placed = b.placed }, refl)
set_checked-Body malformed place value s p b = failed _
set_checked-Body unsupported place value s p b = failed _

set_version-Body :
    (directive : Bytes) (place : Position) (value : Bytes) (s : FileState) (p : Parser)
    → Body s
    → Ensures (λ (s', q). Body s' × (q ≡ p)) (set_version directive place value s p)
unfolding set_version set_skg_version
set_version-Body directive place value s p b =
    Ensures-branch (directive == codes "skg_version") _ _ p
      (λ _.
        Ensures-branch (is_some s.skg_version) _ _ p (λ _. failed _)
          λ _. set_checked-Body (check_version value) place value s p b)
      λ _.
        Ensures-branch (is_some s.schema_version) _ _ p (λ _. failed _)
          λ _. holds (record { loose = b.loose; nested = b.nested; placed = b.placed }, refl)

parse_directive-Body :
    (f : ℕ) (t : Token) (s : FileState) (o p : Parser)
    → Ahead o t p
    → (t.tag == Tag.ident) ≡ true
    → size o < f
    → Body s
    → Ensures (BodyPair 1 o) (parse_directive f t s p)
unfolding parse_directive
parse_directive-Body f t s o p a e hf b =
    Ensures-branch (not (is_nil s.children)) _ _ p (λ _. failed _)
      λ _. Ensures-bind (capture_leading-Body s p b) λ (s₁, q) (b₁, after, same).
        let ahead : Ahead o t q = record {
          after = After-le 0 (omega arith) (After-trans a.after after);
          peeked_is = same ∙ a.peeked_is;
        } in
        Ensures-bind (consume_tag o q t Tag.ident ahead e (cc)) λ (directive, r) after₁.
          Ensures-branch (directive.text == codes "import") _ _ r
            (λ _.
              Ensures-bind (parse_imports-After f _ r (omega (arith, after₁.size_is)) b₁.placed)
                λ (imports, w) (after₂, h). holds (
                  record { loose = b₁.loose; nested = b₁.nested; placed = h },
                  After-le 1 (omega arith) (After-trans after₁ after₂),
                ))
            λ _. Ensures-bind (expect-After Tag.colon r) λ (c, w) (after₂, _).
              Ensures-bind (expect-After Tag.string w) λ (value_token, x) (after₃, _).
                Ensures-bind
                  (unescaped-After (place_of value_token) (unescape_string value_token.text) x)
                  λ (value, y) same₁.
                    Ensures-map
                      (set_version-Body directive.text (place_of value_token) value s₁ y b₁)
                      λ (s₂, z) (b₂, same₂). (
                        b₂,
                        rw (same₂, same₁)
                            (After-le 1 (omega arith)
                              (After-trans after₁ (After-trans after₂ after₃))),
                      )

document_of-After :
    (s : FileState) (p : Parser) → Body s → Ensures (λ (d, q). DocumentSound d) (document_of s p)
unfolding document_of
document_of-After s p b = Ensures-bind (drain_comments-After p) λ (trailing, q) after.
    holds (record {
      keyed = merge_nodes-IsKeyed s.children b.loose;
      nested = omega (arith, merge_nodes-nest s.children b.loose, b.nested);
      placed = b.placed;
    })

module _ (parse_f64 : Bytes → Option ℕ) where
  child-Body :
      (f : ℕ) (s : FileState) (p : Parser)
      → 4 * size p + 1 < f
      → p.depth ≡ 0
      → Body s
      → Ensures
          (λ (n, q). Body (record s { children = push_node s.children n }) × After p q 1)
          (parse_node parse_f64 f p)
  child-Body f s p hf d b =
      Ensures-map (parse_node-Noded parse_f64 f p hf (omega (arith, d))) λ (n, q) x. (
        record {
          loose = IsLoose-push_node s.children n b.loose x.keyed;
          nested = omega (arith, nest-push_node s.children n, x.nested, b.nested);
          placed = b.placed;
        },
        x.after,
      )

  parse_child-Body :
      (f : ℕ) (s : FileState) (p : Parser)
      → 4 * size p + 1 < f
      → p.depth ≡ 0
      → Body s
      → Ensures (BodyPair 1 p) (parse_child parse_f64 f s p)
  unfolding parse_child
  parse_child-Body f s p hf d b =
      Ensures-bind
        (Ensures-branch {P = λ (s', q). Body s' × After p q 0} s.captured_file_leading _ _ p
          (λ _. holds (b, After-refl p))
          (λ _. Ensures-map (capture_leading-Body s p b) λ (s', q) (b', after, same). (b', after)))
        λ (s₁, q) (b₁, after).
          Ensures-bind (child-Body f s₁ q (omega (arith, after.size_is)) (after.depth_is ∙ d) b₁)
            λ (n, r) (b₂, after₁). holds (b₂, After-le 1 (omega arith) (After-trans after after₁))

  file_loop-Body :
      (f : ℕ) (s : FileState) (p : Parser)
      → 4 * size p + 2 < f
      → p.depth ≡ 0
      → Body s
      → Ensures (λ (s', q). Body s') (file_loop parse_f64 f s p)
  unfolding file_loop
  file_loop-Body zero s p hf d b = absurd (omega arith)
  file_loop-Body (suc f) s p hf d b = Ensures-bind (peek-Ahead p) λ (t, q) a.
      Ensures-branch (t.tag == Tag.eof) _ _ q (λ _. holds b)
        λ _.
          Ensures-bind
            (Ensures-branch {P = BodyPair 1 p} (t.tag == Tag.ident && is_directive t.text) _ _ q
              (λ e. parse_directive-Body f t s p q a (ground arith) (omega arith) b)
              (λ _.
                Ensures-map
                  (parse_child-Body f s q (omega (arith, a.after.size_is)) (a.after.depth_is ∙ d) b)
                  λ (s', r) (b', after).
                    (b', After-le 1 (omega arith) (After-trans a.after after))))
            λ (s', r) (b', after).
              file_loop-Body f s' r (omega (arith, after.size_is)) (after.depth_is ∙ d) b'

  parse_source-DocumentSound :
      (o : Option Position) (src path : Bytes)
      → Ensures DocumentSound (parse_source parse_f64 o src path)
  unfolding parse_source parse_file
  parse_source-DocumentSound (some place) src path = failed _
  parse_source-DocumentSound none src path =
      Ensures-bind
        (Ensures-bind
          (file_loop-Body (fuel_for src) new_file (new_parser src path) (unfold size in omega arith)
            refl (record { loose = tt; nested = omega arith; placed = no_imports-Placed }))
          λ (s, q) b. document_of-After s q b)
        λ (d, q) sound. holds sound

  -- Parsing ends within its fuel for every source: in a diagnostic, or in a document whose children are
  -- a well-formed overlay that nests at most `max_nesting_depth` deep, and whose imports have a position
  -- each and are relative.
  pub parse_bytes-DocumentSound :
      (src path : Bytes) → Ensures DocumentSound (parse_bytes parse_f64 src path)
  unfolding parse_bytes
  parse_bytes-DocumentSound src path =
      Ensures-if (ltb max_file_size (length src)) (λ _. failed _)
        λ _. parse_source-DocumentSound (first_invalid_utf8 src) src path
