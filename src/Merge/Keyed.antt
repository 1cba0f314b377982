-- ===== src/Merge/Keyed.antt =====
-- Well-formed overlays: distinct keys and no empty node in every list of nodes, at any depth.
use skg.Base.{
  true, false, some, Bytes, ◌≡◌, refl, Bool-cases, inl, inr, arith, option_beq_eq, option_beq_refl,
  ◌||◌, ◌∙◌, sym, ap, option_beq, bytes_eq, bytes_beq_iff,
}
use skg.Model.{
  Node, Nodes, Value, Values, delete, field, block, block_array, empty, nil, cons, no_items, item,
  array, object, node_key,
}
use skg.Merge.{concat_comments, barrier}
use skg.Merge.Overlay.{
  has_key, has_keyed, find_key, join_block, put, put_keyed, join_all, join_node,
}

-- The node has a key, and no node of the list has it.
abbrev pub Fresh : Node → Nodes → Type 0
Fresh n ns = (key : Bytes) × (node_key n ≡ some key) × (has_keyed key ns ≡ false)

abbrev mutual
  pub IsKeyed : Nodes → Type 0
  IsKeyed nil = Unit {0}
  IsKeyed (cons n ns) = IsKeyedNode n × Fresh n ns × IsKeyed ns

  pub IsKeyedNode : Node → Type 0
  IsKeyedNode (delete h t) = Unit {0}
  IsKeyedNode (field h v t) = IsKeyedValue v
  IsKeyedNode (block h r cs t) = IsKeyed cs
  IsKeyedNode (block_array h xs t) = IsKeyedItems xs
  IsKeyedNode empty = ⊥

  pub IsKeyedValue : Value → Type 0
  IsKeyedValue (object children t) = IsKeyed children
  IsKeyedValue (array element xs t) = IsKeyedItems xs
  IsKeyedValue _ = Unit {0}

  pub IsKeyedItems : Values → Type 0
  IsKeyedItems no_items = Unit {0}
  IsKeyedItems (item v vs) = IsKeyedValue v × IsKeyedItems vs

-- Joining keeps the key of the base where the two keys agree.
pub node_key-join_node :
    (y x : Node) → node_key y ≡ node_key x → node_key (join_node y x) ≡ node_key x
unfolding node_key join_node join_block barrier
node_key-join_node (delete h t) x e = e
node_key-join_node (field h v t) x e = e
node_key-join_node (block_array h xs t) x e = e
node_key-join_node empty x e = e
node_key-join_node (block h true cs t) x e = e
node_key-join_node (block h false cs t) (block b r bs bt) e = refl
node_key-join_node (block h false cs t) (delete b bt) e = e
node_key-join_node (block h false cs t) (field b v bt) e = e
node_key-join_node (block h false cs t) (block_array b v bt) e = e
node_key-join_node (block h false cs t) empty e = e

pub has_key→eq : (k : Bytes) (x : Node) → has_key k x ≡ true → node_key x ≡ some k
has_key→eq k x h = option_beq_eq (node_key x) (some k) h

pub has_key_self : (k : Bytes) (x : Node) → node_key x ≡ some k → has_key k x ≡ true
has_key_self k x e = rw e (option_beq_refl (some k))

pub has_key_eq : (j : Bytes) (x y : Node) → node_key x ≡ node_key y → has_key j x ≡ has_key j y
has_key_eq j x y e = ap (λ k. option_beq k (some j)) e

-- `f` is a joining at key `k`: it keeps the key of what it is applied to.
abbrev pub Keeps : Bytes → (Node → Node) → Type 0
Keeps k f = (x : Node) → node_key x ≡ some k → node_key (f x) ≡ some k

pub Keeps-join_node : (k : Bytes) (n : Node) → node_key n ≡ some k → Keeps k (join_node n)
Keeps-join_node k n e x ex = node_key-join_node n x (e ∙ sym ex) ∙ ex

module _ (f : Node → Node) (k j : Bytes) (n : Node) (e : node_key n ≡ some k)
    (keep : Keeps k f) where
  pub has_keyed-put : (xs : Nodes) → has_keyed j (put f k n xs) ≡ has_key j n || has_keyed j xs
  unfolding has_keyed put
  has_keyed-put nil = ground arith
  has_keyed-put (cons x xs) = elim (Bool-cases (has_key k x)) [
    | inl same ↦
        let ex = has_key→eq k x same in
        rw same
          (ground (arith, has_key_eq j (f x) n (keep x ex ∙ sym e), has_key_eq j x n (ex ∙ sym e)))
    | inr other ↦ rw other (ground (arith, has_keyed-put xs))
  ]

pub has_key_sym :
    (k j : Bytes) (x n : Node)
    → node_key x ≡ some j
    → node_key n ≡ some k
    → has_key k x ≡ false
    → has_key j n ≡ false
has_key_sym k j x n ex en h = ground (arith, bytes_beq_iff j k, bytes_beq_iff k j)

module _ (f : Node → Node) (k : Bytes) (n : Node) (e : node_key n ≡ some k) (keep : Keeps k f)
    (kept : (x : Node) → IsKeyedNode x → IsKeyedNode (f x)) (new : IsKeyedNode n) where
  pub put-IsKeyed : (xs : Nodes) → IsKeyed xs → IsKeyed (put f k n xs)
  unfolding put
  put-IsKeyed nil h = (new, (k, e, unfold has_keyed in refl), tt)
  put-IsKeyed (cons x xs) (hx, (j, ex, fresh), hs) = elim (Bool-cases (has_key k x)) [
    | inl same ↦
        let ek = has_key→eq k x same in rw same (kept x hx, (k, keep x ek, ground (arith)), hs)
    | inr other ↦ rw other (
      hx,
      (j, ex, has_keyed-put f k j n e keep xs ∙ rw (has_key_sym k j x n ex e other, fresh)),
      put-IsKeyed xs hs,
    )
  ]

pub put_keyed-put :
    (f : Node → Node) (n : Node) (base : Nodes) {k : Bytes}
    → node_key n ≡ some k
    → put_keyed f n base ≡ put f k n base
unfolding put_keyed
put_keyed-put f n base e = ground arith

-- Each node is well-formed, and keys may repeat: what the parser collects.
abbrev pub IsLoose : Nodes → Type 0
IsLoose nil = Unit {0}
IsLoose (cons n ns) = IsKeyedNode n × IsLoose ns

pub IsKeyed-IsLoose : (ns : Nodes) → IsKeyed ns → IsLoose ns
IsKeyed-IsLoose nil h = tt
IsKeyed-IsLoose (cons n ns) (hn, fresh, hs) = (hn, IsKeyed-IsLoose ns hs)

pub key_of : (n : Node) → IsKeyedNode n → (k : Bytes) × (node_key n ≡ some k)
unfolding node_key
key_of (delete h t) hn = (h.key, refl)
key_of (field h v t) hn = (h.key, refl)
key_of (block h r cs t) hn = (h.key, refl)
key_of (block_array h xs t) hn = (h.key, refl)
key_of empty hn = absurd hn

mutual
  unfolding join_all join_node join_block barrier concat_comments

  join_all-Keyed : (c base : Nodes) → IsLoose c → IsKeyed base → IsKeyed (join_all c base)
  join_all-Keyed nil base hc hb = hb
  join_all-Keyed (cons n ns) base (hn, hs) hb =
      let (k, e) = key_of n hn in
      join_all-Keyed ns (put_keyed (join_node n) n base) hs (
        rw (put_keyed-put (join_node n) n base e) (
          put-IsKeyed (join_node n) k n e (Keeps-join_node k n e) (λ x. join_node-Keyed n x hn) hn
            base hb))

  join_node-Keyed : (n x : Node) → IsKeyedNode n → IsKeyedNode x → IsKeyedNode (join_node n x)
  join_node-Keyed (delete h t) x hn hx = hn
  join_node-Keyed (field h v t) x hn hx = hn
  join_node-Keyed (block_array h v t) x hn hx = hn
  join_node-Keyed empty x hn hx = hn
  join_node-Keyed (block h true cs t) x hn hx = hn
  join_node-Keyed (block h false cs t) (block b r bs bt) hn hx =
      join_all-Keyed cs bs (IsKeyed-IsLoose cs hn) hx
  join_node-Keyed (block h false cs t) (delete b bt) hn hx = hn
  join_node-Keyed (block h false cs t) (field b v bt) hn hx = hn
  join_node-Keyed (block h false cs t) (block_array b v bt) hn hx = hn
  join_node-Keyed (block h false cs t) empty hn hx = hn

-- Joining well-formed nodes onto a well-formed overlay gives a well-formed overlay.
pub join_all-IsKeyed : (c base : Nodes) → IsLoose c → IsKeyed base → IsKeyed (join_all c base)
join_all-IsKeyed = join_all-Keyed

pub join_node-IsKeyed : (n x : Node) → IsKeyedNode n → IsKeyedNode x → IsKeyedNode (join_node n x)
join_node-IsKeyed = join_node-Keyed

pub find_key-IsKeyed :
    (k : Bytes) (xs : Nodes) → IsKeyed xs → has_keyed k xs ≡ true → IsKeyedNode (find_key k xs)
unfolding find_key has_keyed
find_key-IsKeyed k nil h on = cc
find_key-IsKeyed k (cons x xs) h on = elim (Bool-cases (has_key k x)) [
  | inl same ↦ rw same h.0
  | inr other ↦ rw other (find_key-IsKeyed k xs h.2 (rw other at on))
]
