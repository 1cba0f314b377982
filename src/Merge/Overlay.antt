-- ===== src/Merge/Overlay.antt =====
-- The abstract composition: an overlay node is joined onto the base node with its key, or appended.
use skg.Base.{Bool, true, false, none, some, Bytes, bytes_eq, option_beq, if◌then◌else◌}
use skg.Model.{Node, Nodes, block, empty, nil, cons, node_key}
use skg.Merge.{concat_comments, barrier}

-- Whether the node has this key.
abbrev pub has_key : Bytes → Node → Bool
has_key key node = option_beq (node_key node) (some key)

-- Whether some node of the list has this key.
unfoldable pub has_keyed : Bytes → Nodes → Bool
has_keyed key nil = false
has_keyed key (cons n ns) = if has_key key n then true else has_keyed key ns

-- The first node with this key, or the empty node.
unfoldable pub find_key : Bytes → Nodes → Node
find_key key nil = empty
find_key key (cons n ns) = if has_key key n then n else find_key key ns

-- A block on a block keeps the base's fields and joins the children; else the overlay replaces.
unfoldable pub join_block : (Nodes → Nodes) → Node → Node → Node
join_block children (block h false cs t) (block base r base_children base_t) =
    block
      (record base { leading_comments = concat_comments base.leading_comments h.leading_comments })
      r (children base_children) (concat_comments base_t t)
join_block children overlay base = barrier overlay

-- Apply `f` at the node with this key, or append `node`.
unfoldable pub put : (Node → Node) → Bytes → Node → Nodes → Nodes
put f key node nil = cons node nil
put f key node (cons x xs) = if has_key key x then cons (f x) xs else cons x (put f key node xs)

unfoldable pub put_keyed : (Node → Node) → Node → Nodes → Nodes
unfolding put
put_keyed f node base = elim (node_key node) [ none ↦ base | some key ↦ put f key node base ]

unfoldable mutual
  pub join_all : Nodes → Nodes → Nodes
  join_all nil base = base
  join_all (cons n ns) base = join_all ns (put_keyed (join_node n) n base)

  pub join_node : Node → Node → Node
  join_node (block h r cs t) base = join_block (join_all cs) (block h r cs t) base
  join_node overlay base = barrier overlay
