-- ===== src/Merge/Laws.antt =====
-- The abstract composition of overlays in turn, or of two of them first.
use skg.Base.{
  true, false, some, Bytes, ◌≡◌, refl, sym, ap, ◌∙◌, Bool-cases, inl, inr, arith, bytes_eq,
}
use skg.Model.{Node, Nodes, delete, field, block, block_array, empty, nil, cons, node_key}
use skg.Merge.{barrier}
use skg.Merge.Comments.{concat_comments_assoc}
use skg.Merge.Overlay.{has_key, has_keyed, join_block, put, join_all, join_node}
use skg.Merge.Keyed.{
  IsKeyed, IsKeyedNode, Keeps, Keeps-join_node, has_key→eq, has_key_self, has_key_eq, has_keyed-put,
  put_keyed-put, has_key_sym, put-IsKeyed, join_node-IsKeyed,
}

module _ (f g w : Node → Node) (k : Bytes) (z y : Node) (ey : node_key y ≡ some k)
    (keep : Keeps k g) (agree : (x : Node) → f (g x) ≡ w x) where
  put-put : (a : Nodes) → put f k z (put g k y a) ≡ put w k (f y) a
  unfolding put
  put-put nil = rw (has_key_self k y ey)
  put-put (cons x xs) = elim (Bool-cases (has_key k x)) [
    | inl same ↦ rw (same, has_key_self k (g x) (keep x (has_key→eq k x same)), agree x)
    | inr other ↦ rw (other, other, put-put xs)
  ]

module _ (f g : Node → Node) (k j : Bytes) (z y : Node) (ez : node_key z ≡ some k)
    (ey : node_key y ≡ some j) (keep_f : Keeps k f) (keep_g : Keeps j g)
    (apart : has_key k y ≡ false) where
  put_comm : (a : Nodes) → has_keyed k a ≡ true → put f k z (put g j y a) ≡ put g j y (put f k z a)
  unfolding put has_keyed
  put_comm nil h = cc
  put_comm (cons x xs) h = elim (Bool-cases (has_key k x)) [
    | inl at_k ↦
        let ex = has_key→eq k x at_k in
        ground
          (arith, has_key_sym k j y x ey ex apart, has_key_sym k j y (f x) ey (keep_f x ex) apart)
    | inr off_k ↦ elim (Bool-cases (has_key j x)) [
      | inl at_j ↦ ground (arith, has_key_eq k (g x) y (keep_g x (has_key→eq j x at_j) ∙ sym ey))
      | inr off_j ↦ ground (arith, put_comm xs)
    ]
  ]

-- A node whose key the base holds may be joined before an overlay without that key.
put-join_all :
    (k : Bytes) (z : Node) (f : Node → Node)
    → node_key z ≡ some k
    → Keeps k f
    → (ys a : Nodes) → IsKeyed ys
    → has_keyed k ys ≡ false
    → has_keyed k a ≡ true
    → put f k z (join_all ys a) ≡ join_all ys (put f k z a)
unfolding join_all has_keyed
put-join_all k z f ez keep nil a h off on = refl
put-join_all k z f ez keep (cons y ys) a (hy, (j, ey, fresh), hs) off on =
    let apart : has_key k y ≡ false = ground arith in
    let keep_y = Keeps-join_node j y ey in
    let still : has_keyed k (put (join_node y) j y a) ≡ true =
      ground (arith, has_keyed-put (join_node y) j k y ey keep_y a) in
    rw (put_keyed-put (join_node y) y a ey, put_keyed-put (join_node y) y (put f k z a) ey)
      (put-join_all k z f ez keep ys (put (join_node y) j y a) hs (ground arith) still
        ∙ ap (join_all ys) (put_comm f (join_node y) k j z y ez ey keep keep_y apart a on))

-- One more overlay node on top: after the composition, or before it on the upper overlay.
module _ (k : Bytes) (z : Node) (ez : node_key z ≡ some k)
    (agree : (y x : Node)
      → IsKeyedNode y
      → join_node z (join_node y x) ≡ join_node (join_node z y) x) where
  put-join_all_top :
      (b a : Nodes)
      → IsKeyed b
      → put (join_node z) k z (join_all b a) ≡ join_all (put (join_node z) k z b) a
  unfolding join_all put
  put-join_all_top nil a h = sym (put_keyed-put (join_node z) z a ez)
  put-join_all_top (cons y ys) a (hy, (j, ey, fresh), hs) = elim (Bool-cases (has_key k y)) [
    | inl same ↦
        let ek = has_key→eq k y same in
        let keep_y = Keeps-join_node k y ek in
        let ew = Keeps-join_node k z ez y ek in
        let off : has_keyed k ys ≡ false = ground arith in
        let on : has_keyed k (put (join_node y) k y a) ≡ true =
          ground (arith, has_keyed-put (join_node y) k k y ek keep_y a) in
        rw
          (
            same,
            put_keyed-put (join_node y) y a ek,
            put_keyed-put (join_node (join_node z y)) (join_node z y) a ew,
          )
          (put-join_all k z (join_node z) ez (Keeps-join_node k z ez) ys _ hs off on
            ∙ ap (join_all ys) (
                put-put (join_node z) (join_node y) (join_node (join_node z y)) k z y ek keep_y
                  (λ x. agree y x hy) a))
    | inr other ↦
        rw (other, put_keyed-put (join_node y) y a ey)
          (put-join_all_top ys (put (join_node y) j y a) hs)
  ]

mutual
  unfolding join_all join_node join_block barrier

  pub join_all_assoc :
      (c b a : Nodes)
      → IsKeyed c
      → IsKeyed b
      → join_all c (join_all b a) ≡ join_all (join_all c b) a
  join_all_assoc nil b a hc hb = refl
  join_all_assoc (cons z zs) b a (hz, (k, ez, fresh), hs) hb =
      let top = put-join_all_top k z ez (λ y x hy. join_node_assoc z y x hz hy) b a hb in
      let hp =
        put-IsKeyed (join_node z) k z ez (Keeps-join_node k z ez)
          (λ x hx. join_node-IsKeyed z x hz hx) hz b hb in
      rw (put_keyed-put (join_node z) z (join_all b a) ez, put_keyed-put (join_node z) z b ez)
        (ap (join_all zs) top ∙ join_all_assoc zs (put (join_node z) k z b) a hs hp)

  join_node_assoc :
      (z y x : Node)
      → IsKeyedNode z
      → IsKeyedNode y
      → join_node z (join_node y x) ≡ join_node (join_node z y) x
  join_node_assoc (delete h t) y x hz hy = refl
  join_node_assoc (field h v t) y x hz hy = refl
  join_node_assoc (block_array h v t) y x hz hy = refl
  join_node_assoc empty y x hz hy = refl
  join_node_assoc (block h true cs t) y x hz hy = refl
  join_node_assoc (block h false cs t) (block g true bs u) x hz hy = refl
  join_node_assoc (block h false cs t) (block g false bs u) (block b r ds v) hz hy = rw (
    concat_comments_assoc b.leading_comments g.leading_comments h.leading_comments,
    concat_comments_assoc v u t,
    join_all_assoc cs bs ds hz hy,
  )
  join_node_assoc (block h false cs t) (block g false bs u) x hz hy = refl
  join_node_assoc (block h false cs t) y x hz hy = refl
