-- ===== src/Parser/Steps.antt =====
-- rust/src/parser.rs: scalars, the state of an array and the closing of a bracket.
use skg.Base.{
  ℕ, ◌+◌, ◌-◌, ◌<◌, ◌≤◌, not, Option, none, some, Bytes, ◌≡◌, refl, ◌∙◌, arith, Bool-cases, inl,
  inr,
}
use skg.Error.{Position}
use skg.Model.{
  Value, Values, Node, Nodes, ValueType, nil, cons, no_items, item, value_type, push_node,
  push_value, ℤ,
}
use skg.Merge.Keyed.{IsKeyedNode, IsKeyedValue, IsKeyedItems, IsLoose}
use skg.Merge.Compose.{merge_nodes-IsKeyed}
use skg.Merge.Nesting.{nest_nodes, nest_value, nest_items, merge_nodes-nest, nest-push_value}
use skg.Result.{Ensures, holds, failed, Ensures-bind}
use skg.Lexer.Scan.{Tag, Token}
use skg.Parser.Text.{max_nesting_depth, is_finite, unescape_string, parse_i64}
use skg.Parser.State.{Parser, Parse, place_of, leave}
use skg.Parser.Grammar.{close_object, int_value, float_value, string_value, scalar_at}
use skg.Parser.Arrays.{
  ArrayState, note_missing, join_type, settle, push_item, push_typed, close_at, close_array,
}
use skg.Parser.Progress.{drain_comments-After, consume-After}
use skg.Parser.Weight.{weight, size}
use skg.Parser.Sound.{weight_is, Inside, InsidePair, IsObject}

-- A value without parts, and the parser as it was.
abbrev Plain : Parser → Value × Parser → Type 0
Plain p (v, q) = (q ≡ p) × IsKeyedValue v × (nest_value v ≡ 0)

-- A scalar token makes such a value, and is not the end of the file.
abbrev pub ScalarSound : Token → Option (Parse Value) → Type 0
ScalarSound t none = Unit {0}
ScalarSound t (some m) = (weight t ≡ 1) × ((p : Parser) → Ensures (Plain p) (m p))

int_value-Plain :
    (place : Position) (o : Option ℤ) (p : Parser) → Ensures (Plain p) (int_value place o p)
unfolding int_value
int_value-Plain place none p = failed _
int_value-Plain place (some n) p = holds (refl, tt, refl)

float_value-Plain :
    (place : Position) (o : Option ℕ) (p : Parser) → Ensures (Plain p) (float_value place o p)
unfolding float_value
float_value-Plain place none p = failed _
float_value-Plain place (some f) p = elim (Bool-cases (not (is_finite f))) [
  | inl off ↦ rw off (failed _)
  | inr on ↦ rw on (holds (refl, tt, refl))
]

string_value-Plain :
    (place : Position) (o : Option Bytes) (p : Parser) → Ensures (Plain p) (string_value place o p)
unfolding string_value
string_value-Plain place none p = failed _
string_value-Plain place (some s) p = holds (refl, tt, refl)

pub scalar_at-ScalarSound :
    (parse_f64 : Bytes → Option ℕ) (tag : Tag) (t : Token)
    → t.tag ≡ tag
    → ScalarSound t (scalar_at parse_f64 tag t)
unfolding scalar_at
scalar_at-ScalarSound f Tag.int t e =
    (weight_is t Tag.int e (cc), int_value-Plain (place_of t) (parse_i64 t.text))
scalar_at-ScalarSound f Tag.float t e =
    (weight_is t Tag.float e (cc), float_value-Plain (place_of t) (f t.text))
scalar_at-ScalarSound f Tag.bool_true t e =
    (weight_is t Tag.bool_true e (cc), λ p. holds (refl, tt, refl))
scalar_at-ScalarSound f Tag.bool_false t e =
    (weight_is t Tag.bool_false e (cc), λ p. holds (refl, tt, refl))
scalar_at-ScalarSound f Tag.null_literal t e =
    (weight_is t Tag.null_literal e (cc), λ p. holds (refl, tt, refl))
scalar_at-ScalarSound f Tag.string t e =
    (weight_is t Tag.string e (cc), string_value-Plain (place_of t) (unescape_string t.text))
scalar_at-ScalarSound f _ t e = tt

pub IsLoose-push_node :
    (ns : Nodes) (n : Node) → IsLoose ns → IsKeyedNode n → IsLoose (push_node ns n)
IsLoose-push_node nil n h hn = (hn, tt)
IsLoose-push_node (cons m ns) n (hm, hs) hn = (hm, IsLoose-push_node ns n hs hn)

IsKeyedItems-push_value :
    (vs : Values) (v : Value) → IsKeyedItems vs → IsKeyedValue v → IsKeyedItems (push_value vs v)
IsKeyedItems-push_value no_items v h hv = (hv, tt)
IsKeyedItems-push_value (item w vs) v (hw, hs) hv = (hw, IsKeyedItems-push_value vs v hs hv)

-- The items of an array that is read at depth `d`.
pub record Kept (d : ℕ) (s : ArrayState) : Type 0 where
  pub keyed : IsKeyedItems s.items
  pub nested : nest_items s.items + d ≤ max_nesting_depth

abbrev pub KeptPair : ℕ → Parser → ArrayState × Parser → Type 0
KeptPair d p (s, q) = (q ≡ p) × Kept d s

pub note_missing-Kept :
    (place : Position) (d : ℕ) (s : ArrayState) → Kept d s → Kept d (note_missing place s)
unfolding note_missing
note_missing-Kept place d s h = record { keyed = h.keyed; nested = h.nested }

settle-same :
    (et : ValueType) (missing : Option Position) (p : Parser)
    → Ensures (λ (m, q). q ≡ p) (settle et missing p)
unfolding settle
settle-same ValueType.object missing p = holds refl
settle-same ValueType.null missing p = holds refl
settle-same et none p = holds refl
settle-same et (some place) p = failed _

push_typed-Kept :
    (o : Option ValueType) (place : Position) (v : Value) (d : ℕ) (s : ArrayState) (p : Parser)
    → Kept d s
    → IsKeyedValue v
    → nest_value v + d ≤ max_nesting_depth
    → Ensures (KeptPair d p) (push_typed o place v s p)
unfolding push_typed
push_typed-Kept none place v d s p h hv hn = failed _
push_typed-Kept (some et) place v d s p h hv hn =
    Ensures-bind (settle-same et s.first_missing_separator p) λ (m, q) e. holds (
      e,
      record {
        keyed = IsKeyedItems-push_value s.items v h.keyed hv;
        nested = omega (arith, nest-push_value s.items v);
      },
    )

pub push_item-Kept :
    (place : Position) (v : Value) (d : ℕ) (s : ArrayState) (p : Parser)
    → Kept d s
    → IsKeyedValue v
    → nest_value v + d ≤ max_nesting_depth
    → Ensures (KeptPair d p) (push_item place v s p)
unfolding push_item
push_item-Kept place v d s p =
    push_typed-Kept (join_type s.element_type (value_type v)) place v d s p

close_at-Inside :
    (o : Option Position) (s : ArrayState) (p : Parser)
    → Kept p.depth s
    → Ensures (InsidePair 0 p) (close_at o s p)
unfolding close_at
close_at-Inside (some place) s p h = failed _
close_at-Inside none s p h = Ensures-bind (drain_comments-After p) λ (cs, q) (after, e).
    Ensures-bind (consume-After q) λ (t, r) after₁. holds (record {
      path_is = after₁.path_is ∙ after.path_is;
      depth_is = omega (arith, after₁.depth_is, after.depth_is);
      size_is = omega (arith, after₁.size_is, after.size_is);
      keyed = h.keyed;
      nested = omega (arith, h.nested);
    })

pub close_array-Inside :
    (s : ArrayState) (p : Parser) → Kept p.depth s → Ensures (InsidePair 0 p) (close_array s p)
unfolding close_array
close_array-Inside s p h = close_at-Inside s.first_missing_separator s p h

pub leave-lower :
    (p : Parser)
    → Ensures (λ (u, q). (q.path ≡ p.path) × (q.depth ≡ p.depth - 1) × (size q ≡ size p)) (leave p)
unfolding leave size
leave-lower p = holds (refl, refl, refl)

-- The closing brace leaves the level that the opening one entered.
pub close_object-Inside :
    (ns : Nodes) (p : Parser)
    → IsLoose ns
    → nest_nodes ns + p.depth ≤ max_nesting_depth
    → 0 < p.depth
    → Ensures (λ (v, q). Inside p v q 1 × IsObject v) (close_object ns p)
unfolding close_object
close_object-Inside ns p h hn hd = Ensures-bind (drain_comments-After p) λ (cs, q) (after, e).
    Ensures-bind (consume-After q) λ (t, r) after₁.
      Ensures-bind (leave-lower r) λ (u, x) (path_is, depth_is, size_is). holds (
        record {
          path_is = path_is ∙ after₁.path_is ∙ after.path_is;
          depth_is = omega (arith, after₁.depth_is, after.depth_is);
          size_is = omega (arith, after₁.size_is, after.size_is);
          keyed = merge_nodes-IsKeyed ns h;
          nested = omega (arith, merge_nodes-nest ns h);
        },
        tt,
      )
