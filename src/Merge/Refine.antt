-- ===== src/Merge/Refine.antt =====
-- rust/src/merge.rs: `merge_nodes_budget` beside the abstract composition and its work.
use skg.Base.{
  List, ℕ, ◌+◌, true, false, Option, none, some, Bytes, ◌≡◌, refl, Bool-cases, inl, inr, arith,
}
use skg.Model.{
  Comment, Head, Node, Nodes, delete, field, block, block_array, empty, nil, cons, node_key,
  length_nodes, push_node,
}
use skg.Merge.{
  Slots, Charged, pure, barrier, merge_pair, place, place_key, place_at, merge_body, compose_all,
  place_node, merge_nodes_budget, merge_overlay,
}
use skg.Merge.Overlay.{has_keyed, find_key, join_block, put, put_keyed, join_all, join_node}
use skg.Merge.Keyed.{
  IsKeyed, IsKeyedNode, IsLoose, IsKeyed-IsLoose, key_of, Keeps-join_node, put-IsKeyed,
  put_keyed-put, join_node-IsKeyed, find_key-IsKeyed,
}
use skg.Merge.Positions.{
  position, slots_of, position-absent, put-push, push_slot-slots_of, find_slot, position-put,
  collect_base-slots_of,
}
use skg.Merge.Work.{
  find, work_pair, work_all, work_node, merge_work, spend, charge-spend, spend-bind, spend-pure,
}

-- `m` is charged `w` and gives `a`.
abbrev Costs : {A : Type 0} → Charged A → ℕ → A → Type 0
Costs m w a = (r : Option ℕ) → m r ≡ spend w a r

Costs-eq : {A : Type 0} (m : Charged A) (w v : ℕ) (a : A) → w ≡ v → Costs m w a → Costs m v a
Costs-eq m w v a e h r = rw (← e) (h r)

merge_body-Costs :
    (compose : Slots → Charged Slots) (overlay base : Nodes)
    → IsKeyed base
    → Costs (compose (slots_of base)) (work_all overlay base) (slots_of (join_all overlay base))
    → Costs
        (merge_body compose overlay base)
        (length_nodes base + length_nodes overlay + work_all overlay base)
        (join_all overlay base)
unfolding merge_body
merge_body-Costs compose nil base h hc =
    Costs-eq _ (length_nodes base + 0) _ _ (unfold work_all in omega arith) (
      unfold join_all in
      spend-bind _ 0 _ _ tt base (charge-spend (length_nodes base)) (spend-pure base))
merge_body-Costs compose (cons n ns) base h hc =
    let cost = length_nodes base + length_nodes (cons n ns) in
    let work = work_all (cons n ns) base in
    Costs-eq _ (cost + (work + 0)) _ _ (omega arith) (
      spend-bind cost (work + 0) _ _ tt _ (charge-spend cost) (
        spend-bind work 0 _ (λ s. pure s.result) (slots_of (join_all (cons n ns) base)) _
          (rw (collect_base-slots_of base h) hc) (spend-pure _)))

find-find_key :
    (n : Node) (base : Nodes) {k : Bytes} → node_key n ≡ some k → find n base ≡ find_key k base
unfolding find
find-find_key n base e = ground arith

find_key-absent : (k : Bytes) (xs : Nodes) → has_keyed k xs ≡ false → find_key k xs ≡ empty
unfolding find_key has_keyed
find_key-absent k nil h = refl
find_key-absent k (cons x xs) h = ground (arith, find_key-absent k xs)

work_node-empty : (n : Node) → work_node n empty ≡ 0
unfolding work_node work_pair
work_node-empty (block h true cs t) = refl
work_node-empty (block h false cs t) = refl
work_node-empty _ = refl

-- A key that the base lacks is appended, free of charge.
place_at-absent :
    (merge : Nodes → Charged Nodes) (n : Node) (k : Bytes) (base : Nodes)
    → node_key n ≡ some k
    → has_keyed k base ≡ false
    → Costs
        (place_at merge k n (slots_of base) (position k base))
        0
        (slots_of (put (join_node n) k n base))
unfolding place_at
place_at-absent merge n k base e off =
    rw
      (
        position-absent k base off,
        push_slot-slots_of k n base e off,
        put-push (join_node n) k n base off,
      )
      (spend-pure (slots_of (push_node base n)))

slots_of-put :
    (n : Node) (k : Bytes) (base : Nodes)
    → node_key n ≡ some k
    → has_keyed k base ≡ true
    → slots_of (put (join_node n) k n base)
      ≡ record { result = put (join_node n) k n base; index = λ key. position key base }
slots_of-put n k base e on = λ i. record {
  result = put (join_node n) k n base;
  index = λ j. position-put (join_node n) k j n base (Keeps-join_node k n e) on i;
}

-- A key that the base has is joined in place.
place_at-present :
    (merge : Nodes → Charged Nodes) (n : Node) (k : Bytes) (base : Nodes)
    → node_key n ≡ some k
    → has_keyed k base ≡ true
    → Costs
        (merge_pair merge n (find_key k base))
        (work_node n (find_key k base))
        (join_node n (find_key k base))
    → Costs
        (place_at merge k n (slots_of base) (position k base))
        (work_node n (find_key k base))
        (slots_of (put (join_node n) k n base))
unfolding place_at
place_at-present merge n k base e on hm =
    let found = find_slot k base on in
    let work = work_node n (find_key k base) in
    rw (found.position_is, slots_of-put n k base e on, found.put_is (join_node n) n, found.get_is)
      (Costs-eq _ (work + 0) work _ (omega arith)
        (spend-bind work 0 _ _ (join_node n (find_key k base)) _ hm (spend-pure _)))

place-Costs :
    (merge : Nodes → Charged Nodes) (n : Node) (k : Bytes) (base : Nodes)
    → node_key n ≡ some k
    → (has_keyed k base ≡ true
        → Costs
            (merge_pair merge n (find_key k base))
            (work_node n (find_key k base))
            (join_node n (find_key k base)))
    → Costs
        (place merge n (slots_of base))
        (work_node n (find n base))
        (slots_of (put_keyed (join_node n) n base))
unfolding place place_key
place-Costs merge n k base e hm =
    rw (put_keyed-put (join_node n) n base e, find-find_key n base e, e)
      (elim (Bool-cases (has_keyed k base)) [
        | inl on ↦ place_at-present merge n k base e on (hm on)
        | inr off ↦
            rw (find_key-absent k base off, work_node-empty n)
              (place_at-absent merge n k base e off)
      ])

-- A block that merges with a block costs the merge of the children; with anything else, nothing.
pair-Costs :
    (merge : Nodes → Charged Nodes) (h : Head) (cs : Nodes) (t : List Comment) (x : Node)
    → ((bs : Nodes)
        → IsKeyed bs
        → Costs (merge bs) (length_nodes bs + length_nodes cs + work_all cs bs) (join_all cs bs))
    → IsKeyedNode x
    → Costs
        (merge_pair merge (block h false cs t) x)
        (work_node (block h false cs t) x)
        (join_node (block h false cs t) x)
unfolding merge_pair join_node join_block work_node work_pair
pair-Costs merge h cs t (block b r bs u) hm hx =
    let work = length_nodes bs + length_nodes cs + work_all cs bs in
    Costs-eq _ (work + 0) work _ (omega arith)
      (spend-bind work 0 _ _ (join_all cs bs) _ (hm bs hx) (spend-pure _))
pair-Costs merge h cs t x hm hx = spend-pure _

mutual
  unfolding compose_all place_node merge_pair join_all join_node join_block work_all work_node
      work_pair barrier

  compose_all-Costs :
      (c base : Nodes)
      → IsLoose c
      → IsKeyed base
      → Costs (compose_all c (slots_of base)) (work_all c base) (slots_of (join_all c base))
  compose_all-Costs nil base hc hb = spend-pure (slots_of base)
  compose_all-Costs (cons n ns) base (hn, hs) hb =
      let (k, e) = key_of n hn in
      let joined = put_keyed (join_node n) n base in
      let hj : IsKeyed joined = rw (put_keyed-put (join_node n) n base e) (
        put-IsKeyed (join_node n) k n e (Keeps-join_node k n e)
          (λ x hx. join_node-IsKeyed n x hn hx) hn base hb) in
      spend-bind (work_node n (find n base)) (work_all ns joined) _ _ (slots_of joined) _
        (place_node-Costs n base k e hn hb) (compose_all-Costs ns joined hs hj)

  place_node-Costs :
      (n : Node) (base : Nodes) (k : Bytes)
      → node_key n ≡ some k
      → IsKeyedNode n
      → IsKeyed base
      → Costs
          (place_node n (slots_of base))
          (work_node n (find n base))
          (slots_of (put_keyed (join_node n) n base))
  place_node-Costs (block h false cs t) base k e hn hb =
      place-Costs (merge_body (compose_all cs) cs) (block h false cs t) k base e (λ on.
        pair-Costs (merge_body (compose_all cs) cs) h cs t (find_key k base)
          (λ bs hbs.
            merge_body-Costs (compose_all cs) cs bs hbs
              (compose_all-Costs cs bs (IsKeyed-IsLoose cs hn) hbs))
          (find_key-IsKeyed k base hb on))
  place_node-Costs (block h true cs t) base k e hn hb =
      place-Costs _ (block h true cs t) k base e (λ on. spend-pure _)
  place_node-Costs (delete h t) base k e hn hb =
      place-Costs _ (delete h t) k base e (λ on. spend-pure _)
  place_node-Costs (field h v t) base k e hn hb =
      place-Costs _ (field h v t) k base e (λ on. spend-pure _)
  place_node-Costs (block_array h v t) base k e hn hb =
      place-Costs _ (block_array h v t) k base e (λ on. spend-pure _)
  place_node-Costs empty base k e hn hb = place-Costs _ empty k base e (λ on. spend-pure _)

-- The outcome of a merge of well-formed nodes onto a well-formed overlay is the abstract composition; it
-- is charged the composition's work, and fails exactly where the budget is less.
pub merge_nodes_budget-spend :
    (base overlay : Nodes) (remaining : Option ℕ)
    → IsKeyed base
    → IsLoose overlay
    → merge_nodes_budget base overlay remaining
      ≡ spend (merge_work base overlay) (join_all overlay base) remaining
unfolding merge_nodes_budget merge_work
merge_nodes_budget-spend base overlay remaining hb ho =
    merge_body-Costs (compose_all overlay) overlay base hb (compose_all-Costs overlay base ho hb)
      remaining

-- The unbounded merge of two well-formed overlays is the abstract composition.
pub merge_overlay-join_all :
    (base overlay : Nodes)
    → IsKeyed base
    → IsLoose overlay
    → merge_overlay base overlay ≡ join_all overlay base
unfolding merge_overlay spend
merge_overlay-join_all base overlay hb ho = rw (merge_nodes_budget-spend base overlay none hb ho)
