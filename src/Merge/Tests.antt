-- ===== src/Merge/Tests.antt =====
-- Runs of the merge on a base and an overlay with a block, a deletion and comments, and the laws there.
use skg.Base.{
  ℕ, false, none, some, List, [], ◌∷◌, Bytes, codes, ◌≡◌, arith, ◌↔◌, refl, bytes_eq, bytes_beq,
}
use skg.Model.{
  Comment, CommentOrigin, Head, pos, Nodes, delete, field, block, nil, cons, int, null, object,
  node_key,
}
use skg.Merge.{
  concat_comments, known, merge_overlay, merge_nodes, merge_nodes_budget, compose_all, place,
  materialize_nodes,
}
use skg.Merge.Comments.{concat_comments_assoc}
use skg.Merge.Overlay.{find_key, has_keyed, join_all}
use skg.Merge.Keyed.{IsKeyed, IsLoose}
use skg.Merge.Work.{merge_work, spend}
use skg.Merge.Refine.{merge_nodes_budget-spend}
use skg.Merge.Compose.{
  merge_overlay-IsKeyed, merge_overlay_assoc, merge_nodes-IsKeyed_self, merge_overlay_self,
  IsSourced,
}
use skg.Merge.Lookup.{joined, find_key-merge_overlay}
use skg.Merge.Final.{IsFinal, finish, materialize_nodes-IsFinal, find_key-materialize-merge_overlay}

abbrev origin : ℕ → CommentOrigin
origin n = record { source = record { path = codes "f"; bytes = codes "# a" }; sequence = n }

abbrev comment : ℕ → Comment
comment n = record { text = codes "# a"; origin = some (origin n) }

abbrev head : Bytes → List Comment → Head
head key leading = record {
  path = codes "f";
  key = key;
  line = 1;
  col = 1;
  leading_comments = leading;
}

abbrev base : Nodes
base =
    cons
      (block (head (codes "b") (comment 0 ∷ [])) false
        (cons (field (head (codes "x") []) (int (pos 1)) none) nil) [])
      (cons (field (head (codes "a") []) null none) nil)

abbrev overlay : Nodes
overlay =
    cons
      (block (head (codes "b") (comment 0 ∷ comment 1 ∷ [])) false
        (cons (field (head (codes "y") []) (int (pos 2)) none) nil) [])
      (cons (delete (head (codes "a") []) none) nil)

abbrev replacement : Nodes
replacement = cons (block (head (codes "a") []) false nil []) nil

abbrev merged : Nodes
merged =
    cons
      (block (head (codes "b") (comment 0 ∷ comment 1 ∷ [])) false
        (cons (field (head (codes "x") []) (int (pos 1)) none)
          (cons (field (head (codes "y") []) (int (pos 2)) none) nil))
        [])
      (cons (delete (head (codes "a") []) none) nil)

base-IsKeyed : IsKeyed base
unfolding node_key has_keyed bytes_beq
base-IsKeyed =
    ((tt, (codes "x", refl, refl), tt), (codes "b", refl, refl), (tt, (codes "a", refl, refl), tt))

overlay-IsKeyed : IsKeyed overlay
unfolding node_key has_keyed bytes_beq
overlay-IsKeyed =
    ((tt, (codes "y", refl, refl), tt), (codes "b", refl, refl), (tt, (codes "a", refl, refl), tt))

replacement-IsKeyed : IsKeyed replacement
unfolding node_key has_keyed bytes_beq
replacement-IsKeyed = (tt, (codes "a", refl, refl), tt)

merge_overlay_of_base : merge_overlay base overlay ≡ merged
unfolding merge_overlay merge_nodes_budget compose_all place node_key concat_comments known
    bytes_beq
merge_overlay_of_base = refl

merge_overlay_assoc_example :
    merge_overlay (merge_overlay base overlay) replacement
    ≡ merge_overlay base (merge_overlay overlay replacement)
merge_overlay_assoc_example =
    merge_overlay_assoc base overlay replacement base-IsKeyed overlay-IsKeyed replacement-IsKeyed

abbrev loose : Nodes
loose =
    cons (field (head (codes "a") []) (object base []) none) (
      cons (delete (head (codes "b") []) none)
        (cons (block (head (codes "b") []) false nil []) nil))

loose-IsLoose : IsLoose loose
loose-IsLoose = (base-IsKeyed, (tt, (tt, tt)))

overlay-IsLoose : IsLoose overlay
overlay-IsLoose = (overlay-IsKeyed.0, (tt, tt))

base-IsSourced : IsSourced base
base-IsSourced = ((((λ e. ground arith), tt), tt, (tt, tt)), (tt, tt))

merge_overlay-IsKeyed_example : IsKeyed (merge_overlay base overlay)
merge_overlay-IsKeyed_example = merge_overlay-IsKeyed base overlay base-IsKeyed overlay-IsLoose

merge_nodes-IsKeyed_self_example : merge_nodes base ≡ base
merge_nodes-IsKeyed_self_example = merge_nodes-IsKeyed_self base base-IsKeyed

merge_overlay_self_example : merge_overlay base base ≡ base
merge_overlay_self_example = merge_overlay_self base base-IsKeyed base-IsSourced

merge_nodes_budget-spend_example :
    merge_nodes_budget base overlay (some 6)
    ≡ spend (merge_work base overlay) (join_all overlay base) (some 6)
merge_nodes_budget-spend_example =
    merge_nodes_budget-spend base overlay (some 6) base-IsKeyed overlay-IsLoose

find_key-merge_overlay_example :
    find_key (codes "b") (merge_overlay base overlay) ≡ joined (codes "b") base overlay
find_key-merge_overlay_example =
    find_key-merge_overlay (codes "b") base overlay base-IsKeyed overlay-IsKeyed

find_key-materialize-merge_overlay_example :
    find_key (codes "a") (materialize_nodes (merge_overlay base overlay))
    ≡ finish (joined (codes "a") base overlay)
find_key-materialize-merge_overlay_example =
    find_key-materialize-merge_overlay (codes "a") base overlay base-IsKeyed overlay-IsKeyed

materialize_nodes-IsFinal_example :
    IsFinal (materialize_nodes merged) × ((materialize_nodes merged ≡ merged) ↔ IsFinal merged)
materialize_nodes-IsFinal_example = materialize_nodes-IsFinal merged

concat_comments_assoc_example :
    concat_comments (concat_comments (comment 0 ∷ []) (comment 0 ∷ comment 1 ∷ [])) (comment 1 ∷ [])
    ≡ concat_comments
        (comment 0 ∷ [])
        (concat_comments (comment 0 ∷ comment 1 ∷ []) (comment 1 ∷ []))
concat_comments_assoc_example =
    concat_comments_assoc (comment 0 ∷ []) (comment 0 ∷ comment 1 ∷ []) (comment 1 ∷ [])
