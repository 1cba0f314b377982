-- ===== src/Merge/Compose.antt =====
-- rust/src/merge.rs: `merge_overlay` and `merge_nodes` on well-formed overlays.
use skg.Base.{true, false, some, Bytes, ◌≡◌, refl, sym, ◌∙◌, arith}
use skg.Model.{
  Node, Nodes, delete, field, block, block_array, empty, nil, cons, node_key, push_node,
}
use skg.Merge.{merge_overlay, merge_nodes, barrier}
use skg.Merge.Comments.{HasOrigins, concat_comments_self}
use skg.Merge.Overlay.{has_keyed, join_block, put, join_all, join_node}
use skg.Merge.Keyed.{
  IsKeyed, IsKeyedNode, IsLoose, IsKeyed-IsLoose, join_all-IsKeyed, put_keyed-put, has_key_self,
}
use skg.Merge.Laws.{join_all_assoc}
use skg.Merge.Positions.{
  append_nodes, append_nodes-push, append_nodes-nil, Apart, Apart-nil, Apart-head, Apart-push,
  put-push,
}
use skg.Merge.Refine.{merge_overlay-join_all}

-- Composing a list of well-formed nodes onto a well-formed overlay gives a well-formed overlay.
pub merge_overlay-IsKeyed :
    (base overlay : Nodes) → IsKeyed base → IsLoose overlay → IsKeyed (merge_overlay base overlay)
merge_overlay-IsKeyed base overlay hb ho =
    rw (merge_overlay-join_all base overlay hb ho) (join_all-IsKeyed overlay base ho hb)

-- Nodes that are each well-formed merge to a well-formed overlay: distinct keys and no empty node.
pub merge_nodes-IsKeyed : (nodes : Nodes) → IsLoose nodes → IsKeyed (merge_nodes nodes)
unfolding merge_nodes merge_overlay
merge_nodes-IsKeyed nodes h = merge_overlay-IsKeyed nil nodes tt h

-- Three well-formed overlays compose to the same nodes, whichever two are composed first.
pub merge_overlay_assoc :
    (a b c : Nodes)
    → IsKeyed a
    → IsKeyed b
    → IsKeyed c
    → merge_overlay (merge_overlay a b) c ≡ merge_overlay a (merge_overlay b c)
merge_overlay_assoc a b c ha hb hc =
    let lb = IsKeyed-IsLoose b hb in
    let lc = IsKeyed-IsLoose c hc in
    let hbc = IsKeyed-IsLoose _ (merge_overlay-IsKeyed b c hb lc) in
    rw
      (
        merge_overlay-join_all _ c (merge_overlay-IsKeyed a b ha lb) lc,
        merge_overlay-join_all a b ha lb,
        merge_overlay-join_all a (merge_overlay b c) ha hbc,
        merge_overlay-join_all b c hb lc,
      )
      (join_all_assoc c b a hc hb)

join_all-append : (ys xs : Nodes) → IsKeyed ys → Apart ys xs → join_all ys xs ≡ append_nodes xs ys
unfolding join_all
join_all-append nil xs h apart = sym (append_nodes-nil xs)
join_all-append (cons y ys) xs (hy, (k, e, fresh), hs) apart =
    rw
      (
        put_keyed-put (join_node y) y xs e,
        put-push (join_node y) k y xs (Apart-head y ys xs e apart),
      )
      (join_all-append ys (push_node xs y) hs (Apart-push y ys xs e fresh apart)
        ∙ append_nodes-push xs y ys)

-- A well-formed overlay is composed already: merging its nodes changes nothing.
pub merge_nodes-IsKeyed_self : (nodes : Nodes) → IsKeyed nodes → merge_nodes nodes ≡ nodes
unfolding merge_nodes merge_overlay
merge_nodes-IsKeyed_self nodes h =
    merge_overlay-join_all nil nodes tt (IsKeyed-IsLoose nodes h)
    ∙ join_all-append nodes nil h (Apart-nil nodes)
    ∙ unfold append_nodes in refl

-- The comments of every block come from a source.
abbrev mutual
  pub IsSourced : Nodes → Type 0
  IsSourced nil = Unit {0}
  IsSourced (cons n ns) = IsSourcedNode n × IsSourced ns

  pub IsSourcedNode : Node → Type 0
  IsSourcedNode (block h r cs t) = HasOrigins h.leading_comments × HasOrigins t × IsSourced cs
  IsSourcedNode _ = Unit {0}

put-append :
    (f : Node → Node) (k : Bytes) (y : Node) (xs ys : Nodes)
    → node_key y ≡ some k
    → has_keyed k xs ≡ false
    → put f k y (append_nodes xs (cons y ys)) ≡ append_nodes xs (cons (f y) ys)
unfolding put append_nodes has_keyed
put-append f k y nil ys e off = rw (has_key_self k y e)
put-append f k y (cons x xs) ys e off = ground (arith, put-append f k y xs ys e)

mutual
  unfolding join_all join_node join_block barrier append_nodes

  join_all_self :
      (ys xs : Nodes)
      → IsKeyed ys
      → IsSourced ys
      → Apart ys xs
      → join_all ys (append_nodes xs ys) ≡ append_nodes xs ys
  join_all_self nil xs h s apart = refl
  join_all_self (cons y ys) xs (hy, (k, e, fresh), hs) (sy, ss) apart =
      rw
        (
          put_keyed-put (join_node y) y (append_nodes xs (cons y ys)) e,
          put-append (join_node y) k y xs ys e (Apart-head y ys xs e apart),
          join_node_self y hy sy,
          ← append_nodes-push xs y ys,
        )
        (join_all_self ys (push_node xs y) hs ss (Apart-push y ys xs e fresh apart))

  join_node_self : (y : Node) → IsKeyedNode y → IsSourcedNode y → join_node y y ≡ y
  join_node_self (delete h t) hy s = refl
  join_node_self (field h v t) hy s = refl
  join_node_self (block_array h v t) hy s = refl
  join_node_self empty hy s = refl
  join_node_self (block h true cs t) hy s = refl
  join_node_self (block h false cs t) hy (sh, st, sc) = rw (
    concat_comments_self h.leading_comments sh,
    concat_comments_self t st,
    join_all_self cs nil hy sc (Apart-nil cs),
  )

-- A well-formed overlay whose block comments all have an origin is unchanged when it is composed with
-- itself: a file that is met twice adds nothing the second time.
pub merge_overlay_self :
    (nodes : Nodes) → IsKeyed nodes → IsSourced nodes → merge_overlay nodes nodes ≡ nodes
unfolding append_nodes
merge_overlay_self nodes h s =
    merge_overlay-join_all nodes nodes h (IsKeyed-IsLoose nodes h)
    ∙ join_all_self nodes nil h s (Apart-nil nodes)
