-- ===== src/Merge/Work.antt =====
-- The work that a merge is charged for, on the abstract composition: the slots of both lists at
-- every pair of blocks that is merged.
use skg.Base.{
  ℕ, ◌+◌, ◌-◌, true, false, Option, none, some, ltb, Bool-cases, inl, inr, if◌then◌else◌, ◌≡◌, refl,
  arith,
}
use skg.Model.{Node, Nodes, block, nil, cons, empty, node_key, length_nodes}
use skg.Merge.{Charged, ◌>>=◌, pure, charge}
use skg.Merge.Overlay.{find_key, put_keyed, join_node}

-- The base node that the overlay node meets, or the empty node.
unfoldable pub find : Node → Nodes → Node
find node base = elim (node_key node) [ none ↦ empty | some key ↦ find_key key base ]

unfoldable pub work_pair : (Nodes → ℕ) → Node → Node → ℕ
work_pair work (block h false cs t) (block b r bs bt) = work bs
work_pair work overlay base = 0

-- `length_nodes base + length_nodes overlay` for each call, the recursive ones included.
unfoldable mutual
  pub work_all : Nodes → Nodes → ℕ
  work_all nil base = 0
  work_all (cons n ns) base =
      work_node n (find n base) + work_all ns (put_keyed (join_node n) n base)

  pub work_node : Node → Node → ℕ
  work_node (block h r cs t) base =
      work_pair (λ bs. length_nodes bs + length_nodes cs + work_all cs bs) (block h r cs t) base
  work_node overlay base = 0

unfoldable pub merge_work : Nodes → Nodes → ℕ
merge_work base overlay = length_nodes base + length_nodes overlay + work_all overlay base

-- The outcome of a step that is charged `cost` and then gives `a`.
unfoldable pub spend : {A : Type 0} → ℕ → A → Charged A
spend cost a none = some (a, none)
spend cost a (some budget) = if ltb budget cost then none else some (a, some (budget - cost))

pub charge-spend : (cost : ℕ) (r : Option ℕ) → charge cost r ≡ spend cost tt r
unfolding charge spend
charge-spend cost none = refl
charge-spend cost (some budget) = refl

ltb-add : (b w v : ℕ) → ltb b w ≡ true → ltb b (w + v) ≡ true
ltb-add b w v h = ground arith

ltb-sub : (b w v : ℕ) → ltb b w ≡ false → ltb (b - w) v ≡ ltb b (w + v)
ltb-sub b w v h = ground arith

sub-sub : (b w v : ℕ) → b - w - v ≡ b - (w + v)
sub-sub b w v = omega arith

pub spend-bind :
    {A B : Type 0} (w v : ℕ) (m : Charged A) (f : A → Charged B) (a : A) (b : B)
    → ((r : Option ℕ) → m r ≡ spend w a r)
    → ((r : Option ℕ) → f a r ≡ spend v b r)
    → (r : Option ℕ) → (m >>= f) r ≡ spend (w + v) b r
unfolding spend
spend-bind w v m f a b hm hf none = rw (hm none, ◌>>=◌) (hf none)
spend-bind w v m f a b hm hf (some budget) =
    rw (hm (some budget), ◌>>=◌)
      (elim (Bool-cases (ltb budget w)) [
        | inl short ↦ rw (short, ltb-add budget w v short)
        | inr enough ↦
            rw (enough, hf (some (budget - w))) (rw (ltb-sub budget w v enough, sub-sub budget w v))
      ])

pub spend-pure : {A : Type 0} (a : A) (r : Option ℕ) → pure a r ≡ spend 0 a r
unfolding spend
spend-pure a none = refl
spend-pure a (some budget) = ground arith
