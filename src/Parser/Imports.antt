-- ===== src/Parser/Imports.antt =====
-- rust/src/parser.rs: import statements.
use skg.Base.{
  all, List, [], ◌∷◌, ◌++◌, length-append, ℕ, zero, suc, ◌<◌, Bool, true, false, not, Bytes, ◌≡◌,
  refl, arith, ◌==◌, nat_eq, bytes_eq, length,
}
use skg.Error.{Position}
use skg.Result.{Ensures, holds, failed, Ensures-bind, Ensures-map}
use skg.Lexer.Scan.{Tag, Token, tag_eq}
use skg.Parser.Text.{is_absolute_import_path, unescape_string}
use skg.Parser.State.{Parser, place_of}
use skg.Parser.File.{Imports, append_import, import_loop, parse_imports}
use skg.Parser.Progress.{peek-Ahead, expect-After}
use skg.Parser.Weight.{size, After, After-trans, After-le}
use skg.Parser.Sound.{Ensures-branch, weight_is, consume_tag, unescaped-After}

-- The imports of a file: each path has its position, and none is absolute.
pub record Placed (paths : List Bytes) (positions : List Position) : Type 0 where
  pub parallel : length paths ≡ length positions
  pub relative : all (λ path. not (is_absolute_import_path path)) paths ≡ true

pub no_imports-Placed : Placed [] []
no_imports-Placed = record { parallel = refl; relative = refl }

all-snoc :
    (test : Bytes → Bool) (xs : List Bytes) (x : Bytes)
    → all test xs ≡ true
    → test x ≡ true
    → all test (xs ++ x ∷ []) ≡ true
all-snoc test [] x h hx = rw hx refl
all-snoc test (y ∷ ys) x h hx = ground (arith, all-snoc test ys x)

abbrev PlacedPair : Parser → Imports × Parser → Type 0
PlacedPair p (i, q) = After p q 0 × Placed i.paths i.positions

append_import-Placed :
    (imports : Imports) (t : Token) (p : Parser)
    → Placed imports.paths imports.positions
    → Ensures (λ (i, q). (q ≡ p) × Placed i.paths i.positions) (append_import imports t p)
unfolding append_import
append_import-Placed imports t p h =
    Ensures-bind (unescaped-After (place_of t) (unescape_string t.text) p) λ (path, q) e.
      Ensures-branch (is_absolute_import_path path) _ _ q (λ _. failed _)
        λ relative. holds (
          e,
          record {
            parallel = omega (
              arith,
              h.parallel,
              length-append imports.paths (path ∷ []),
              length-append imports.positions (place_of t ∷ []),
            );
            relative = all-snoc _ imports.paths path h.relative (rw relative refl);
          },
        )

import_loop-After :
    (f : ℕ) (need_path : Bool) (imports : Imports) (p : Parser)
    → size p < f
    → Placed imports.paths imports.positions
    → Ensures (PlacedPair p) (import_loop f need_path imports p)
unfolding import_loop
import_loop-After zero need_path imports p hf h = absurd (omega arith)
import_loop-After (suc f) need_path imports p hf h = Ensures-bind (peek-Ahead p) λ (t, q) a.
    Ensures-branch (t.tag == Tag.r_bracket) _ _ q
      (λ e.
        Ensures-bind (consume_tag p q t Tag.r_bracket a e (cc))
          λ (u, r) after. holds (After-le 0 (omega arith) after, h))
      λ _.
        Ensures-branch (t.tag == Tag.eof) _ _ q (λ _. failed _)
          λ _.
            Ensures-branch need_path _ _ q
              (λ _. Ensures-bind (expect-After Tag.string q) λ (text, r) (after, e).
                let one = weight_is text Tag.string e (cc) in
                Ensures-bind (append_import-Placed imports text r h) λ (more, w) (same, h').
                  let left : size w < f =
                    rw same (omega (arith, after.size_is, a.after.size_is, one)) in
                  Ensures-map (import_loop-After f false more w left h') λ (i, z) (rest, h''). (
                    After-le 0 (omega arith)
                        (After-trans a.after (After-trans after (rw same at rest))),
                    h'',
                  ))
              λ _.
                Ensures-branch (not (t.tag == Tag.comma)) _ _ q (λ _. failed _)
                  λ e.
                    Ensures-bind (consume_tag p q t Tag.comma a (ground arith) (cc)) λ (u, r) after.
                      Ensures-map
                        (import_loop-After f true imports r (omega (arith, after.size_is)) h)
                        λ (i, z) (rest, h'). (After-le 0 (omega arith) (After-trans after rest), h')

pub parse_imports-After :
    (f : ℕ) (imports : Imports) (p : Parser)
    → size p < f
    → Placed imports.paths imports.positions
    → Ensures (PlacedPair p) (parse_imports f imports p)
unfolding parse_imports
parse_imports-After f imports p hf h = Ensures-bind (peek-Ahead p) λ (t, q) a.
    Ensures-branch (t.tag == Tag.string) _ _ q
      (λ e. Ensures-bind (consume_tag p q t Tag.string a e (cc)) λ (text, r) after.
        Ensures-map (append_import-Placed imports text r h)
          λ (i, w) (same, h'). (rw same (After-le 0 (omega arith) after), h'))
      λ _.
        Ensures-branch (t.tag == Tag.l_bracket) _ _ q
          (λ e. Ensures-bind (consume_tag p q t Tag.l_bracket a e (cc)) λ (u, r) after.
            Ensures-map (import_loop-After f true imports r (omega (arith, after.size_is)) h)
              λ (i, z) (rest, h'). (After-le 0 (omega arith) (After-trans after rest), h'))
          (λ _. failed _)
