-- ===== src/Merge/Positions.antt =====
-- The key index of `merge_nodes_budget` as a function of the list that it indexes.
use skg.Base.{
  ℕ, suc, true, false, Option, none, some, Bytes, ◌≡◌, refl, sym, ap, ◌∙◌, Bool-cases, inl, inr,
  arith, if◌then◌else◌, ◌||◌, bytes_eq, bytes_beq_iff,
}
use mathlib.Core.Option
use skg.Model.{Node, Nodes, nil, cons, node_key, length_nodes, push_node, get_node, set_node}
use skg.Merge.{Slots, insert_index, push_slot, no_slots, collect_base}
use skg.Merge.Overlay.{has_key, has_keyed, find_key, put}
use skg.Merge.Keyed.{IsKeyed, Keeps, has_key→eq, has_key_eq, has_key_self}

unfoldable pub position : Bytes → Nodes → Option ℕ
position key nil = none
position key (cons n ns) = if has_key key n then some 0 else Option.map suc (position key ns)

-- What the two variables `result` and `index` hold once `result` is `nodes`.
abbrev pub slots_of : Nodes → Slots
slots_of nodes = record { result = nodes; index = λ key. position key nodes }

pub position-absent : (k : Bytes) (xs : Nodes) → has_keyed k xs ≡ false → position k xs ≡ none
unfolding position has_keyed
position-absent k nil h = refl
position-absent k (cons x xs) h = ground (arith, position-absent k xs)

pub put-push :
    (f : Node → Node) (k : Bytes) (n : Node) (xs : Nodes)
    → has_keyed k xs ≡ false
    → put f k n xs ≡ push_node xs n
unfolding put has_keyed
put-push f k n nil h = refl
put-push f k n (cons x xs) h = ground (arith, put-push f k n xs)

pub has_keyed-push :
    (j : Bytes) (n : Node) (xs : Nodes)
    → has_keyed j (push_node xs n) ≡ has_keyed j xs || has_key j n
unfolding has_keyed
has_keyed-push j n nil = ground arith
has_keyed-push j n (cons x xs) = ground (arith, has_keyed-push j n xs)

position-push :
    (k j : Bytes) (n : Node) (xs : Nodes)
    → node_key n ≡ some k
    → has_keyed k xs ≡ false
    → position j (push_node xs n) ≡ insert_index k (length_nodes xs) (λ key. position key xs) j
unfolding position has_keyed
position-push k j n nil e h = ground arith
position-push k j n (cons x xs) e h = ground (arith, position-push k j n xs e, bytes_beq_iff k j)

pub push_slot-slots_of :
    (k : Bytes) (n : Node) (xs : Nodes)
    → node_key n ≡ some k
    → has_keyed k xs ≡ false
    → push_slot k n (slots_of xs) ≡ slots_of (push_node xs n)
push_slot-slots_of k n xs e h =
    λ i. record { result = push_node xs n; index = λ j. sym (position-push k j n xs e h) i }

-- A key that is present stands at its position, and a joining there rewrites that slot alone.
pub record Found (k : Bytes) (xs : Nodes) : Type 0 where
  pub at : ℕ
  pub position_is : position k xs ≡ some at
  pub get_is : get_node xs at ≡ find_key k xs
  pub put_is : (f : Node → Node) (n : Node) → put f k n xs ≡ set_node xs at (f (get_node xs at))

pub find_slot : (k : Bytes) (xs : Nodes) → has_keyed k xs ≡ true → Found k xs
unfolding position put has_keyed find_key
find_slot k nil h = cc
find_slot k (cons x xs) h = elim (Bool-cases (has_key k x)) [
  | inl same ↦ record { at = 0; position_is = rw same; get_is = rw same; put_is = λ f n. rw same }
  | inr other ↦
      let found = find_slot k xs (rw other at h) in
      record {
        at = suc found.at;
        position_is = rw (other, found.position_is);
        get_is = rw (other, found.get_is);
        put_is = λ f n. rw (other, found.put_is f n);
      }
]

pub position-put :
    (f : Node → Node) (k j : Bytes) (n : Node) (xs : Nodes)
    → Keeps k f
    → has_keyed k xs ≡ true
    → position j (put f k n xs) ≡ position j xs
unfolding position put has_keyed
position-put f k j n nil keep h = cc
position-put f k j n (cons x xs) keep h = elim (Bool-cases (has_key k x)) [
  | inl same ↦ let ex = has_key→eq k x same in rw (same, has_key_eq j (f x) x (keep x ex ∙ sym ex))
  | inr other ↦ ground (arith, position-put f k j n xs keep)
]

pub has_keyed_eq : (j k : Bytes) (ys : Nodes) → j ≡ k → has_keyed j ys ≡ has_keyed k ys
has_keyed_eq j k ys e = ap (λ key. has_keyed key ys) e

unfoldable pub append_nodes : Nodes → Nodes → Nodes
append_nodes nil ys = ys
append_nodes (cons x xs) ys = cons x (append_nodes xs ys)

pub append_nodes-push :
    (xs : Nodes) (y : Node) (ys : Nodes)
    → append_nodes (push_node xs y) ys ≡ append_nodes xs (cons y ys)
unfolding append_nodes
append_nodes-push nil y ys = refl
append_nodes-push (cons x xs) y ys = ap (cons x) (append_nodes-push xs y ys)

pub append_nodes-nil : (xs : Nodes) → append_nodes xs nil ≡ xs
unfolding append_nodes
append_nodes-nil nil = refl
append_nodes-nil (cons x xs) = ap (cons x) (append_nodes-nil xs)

-- No key of `ys` is in `xs`.
abbrev pub Apart : Nodes → Nodes → Type 0
Apart ys xs = (j : Bytes) → has_keyed j ys ≡ true → has_keyed j xs ≡ false

pub Apart-head :
    (y : Node) (ys xs : Nodes) {k : Bytes}
    → node_key y ≡ some k
    → Apart (cons y ys) xs
    → has_keyed k xs ≡ false
unfolding has_keyed
Apart-head y ys xs {k} e apart = apart k (rw (has_key_self k y e))

pub Apart-push :
    (y : Node) (ys xs : Nodes) {k : Bytes}
    → node_key y ≡ some k
    → has_keyed k ys ≡ false
    → Apart (cons y ys) xs
    → Apart ys (push_node xs y)
unfolding has_keyed
Apart-push y ys xs {k} e fresh apart j on =
    has_keyed-push j y xs ∙ ground (arith, apart j, has_key→eq j y, has_keyed_eq j k ys, e)

pub Apart-nil : (ys : Nodes) → Apart ys nil
unfolding has_keyed
Apart-nil ys j on = refl

collect_base-append :
    (ys xs : Nodes)
    → IsKeyed ys
    → Apart ys xs
    → collect_base ys (slots_of xs) ≡ slots_of (append_nodes xs ys)
unfolding collect_base
collect_base-append nil xs h apart = rw append_nodes-nil
collect_base-append (cons y ys) xs (hy, (k, e, fresh), hs) apart = rw e (
    rw (push_slot-slots_of k y xs e (Apart-head y ys xs e apart)) (
      collect_base-append ys (push_node xs y) hs (Apart-push y ys xs e fresh apart)
      ∙ ap slots_of (append_nodes-push xs y ys)))

-- The first loop builds the index of a well-formed base.
pub collect_base-slots_of :
    (base : Nodes) → IsKeyed base → collect_base base no_slots ≡ slots_of base
unfolding append_nodes position has_keyed
collect_base-slots_of base h = collect_base-append base nil h (λ j _. refl)
