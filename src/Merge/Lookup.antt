-- ===== src/Merge/Lookup.antt =====
-- rust/src/merge.rs: what a key finds after a merge.
use skg.Base.{false, some, Bytes, ◌≡◌, refl, sym, ◌∙◌, Bool-cases, inl, inr, arith, if◌then◌else◌}
use skg.Model.{Node, Nodes, nil, cons, node_key}
use skg.Merge.{merge_overlay}
use skg.Merge.Overlay.{has_key, has_keyed, find_key, put, join_all, join_node}
use skg.Merge.Keyed.{
  IsKeyed, IsKeyed-IsLoose, Keeps, Keeps-join_node, has_key_self, has_key→eq, has_key_eq,
  has_keyed-put, put_keyed-put,
}
use skg.Merge.Refine.{merge_overlay-join_all}

module _ (f : Node → Node) (k : Bytes) (n : Node) (e : node_key n ≡ some k) (keep : Keeps k f) where
  find_key-put :
      (xs : Nodes) → find_key k (put f k n xs) ≡ (if has_keyed k xs then f (find_key k xs) else n)
  unfolding find_key put has_keyed
  find_key-put nil = rw (has_key_self k n e)
  find_key-put (cons x xs) = elim (Bool-cases (has_key k x)) [
    | inl same ↦ rw (same, has_key_self k (f x) (keep x (has_key→eq k x same)))
    | inr other ↦ rw (other, other, find_key-put xs)
  ]

  find_key-put_ne :
      (j : Bytes) (xs : Nodes) → has_key j n ≡ false → find_key j (put f k n xs) ≡ find_key j xs
  unfolding find_key put
  find_key-put_ne j nil off = rw off
  find_key-put_ne j (cons x xs) off = elim (Bool-cases (has_key k x)) [
    | inl same ↦
        let ex = has_key→eq k x same in
        ground (arith, has_key_eq j (f x) n (keep x ex ∙ sym e), has_key_eq j x n (ex ∙ sym e))
    | inr other ↦ rw other (ground (arith, find_key-put_ne j xs off))
  ]

-- The overlay's node joined onto the base's, or the one that there is, or the empty node.
unfoldable pub joined : Bytes → Nodes → Nodes → Node
joined k base overlay =
    if has_keyed k overlay
    then (if has_keyed k base
        then join_node (find_key k overlay) (find_key k base)
        else find_key k overlay)
    else find_key k base

joined-same :
    (k : Bytes) (n : Node) (ns b : Nodes)
    → node_key n ≡ some k
    → has_keyed k ns ≡ false
    → joined k (put (join_node n) k n b) ns ≡ joined k b (cons n ns)
unfolding joined has_keyed find_key
joined-same k n ns b e fresh =
    rw (fresh, has_key_self k n e) (find_key-put (join_node n) k n e (Keeps-join_node k n e) b)

joined-other :
    (k j : Bytes) (n : Node) (ns b : Nodes)
    → node_key n ≡ some j
    → has_key k n ≡ false
    → joined k (put (join_node n) j n b) ns ≡ joined k b (cons n ns)
unfolding joined has_keyed find_key
joined-other k j n ns b e other =
    let keep = Keeps-join_node j n e in
    rw (
      other,
      find_key-put_ne (join_node n) j n e keep k b other,
      has_keyed-put (join_node n) j k n e keep b,
      other,
    )

find_key-join_all : (k : Bytes) (c b : Nodes) → IsKeyed c → find_key k (join_all c b) ≡ joined k b c
unfolding join_all
find_key-join_all k nil b h = unfold joined has_keyed in refl
find_key-join_all k (cons n ns) b (hn, (j, e, fresh), hs) = rw (put_keyed-put (join_node n) n b e) (
    find_key-join_all k ns (put (join_node n) j n b) hs ∙ elim (Bool-cases (has_key k n)) [
      | inl same ↦
          let ek : j ≡ k = cc (has_key→eq k n same) in
          rw ek (joined-same k n ns b (has_key→eq k n same) (rw ek at fresh))
      | inr other ↦ joined-other k j n ns b e other
    ])

-- In the composition of two well-formed overlays a key finds the overlay's node joined onto the base's
-- node; where only one of the two lists has the key, it finds that node unchanged.
pub find_key-merge_overlay :
    (k : Bytes) (base overlay : Nodes)
    → IsKeyed base
    → IsKeyed overlay
    → find_key k (merge_overlay base overlay) ≡ joined k base overlay
find_key-merge_overlay k base overlay hb ho =
    rw (merge_overlay-join_all base overlay hb (IsKeyed-IsLoose overlay ho))
      (find_key-join_all k overlay base ho)
