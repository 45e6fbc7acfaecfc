-- ===== src/RbTree/Prune.antt =====
-- src/Contained_RBTree.c: `RBTreeNode_Prune`, which takes a node out of its tree.
pub mod Balance
pub mod Contents
pub mod Removes
use daemonproxy.Common.{
  ℕ, Bool, true, false, not, ◌&&◌, ◌||◌, Option, some, none, List, [], ◌∷◌, ◌++◌, if◌then◌else◌,
}
use daemonproxy.RbTree.{
  Color, red, black, Tree, leaf, node, Frame, left_of, right_of, color_black, is_black, set_color,
  left_child, right_child, left_rotate, right_rotate, zip, sibling,
}
use daemonproxy.RbTree.Spot.{Spot, leftmost, rightmost}

module _ {ℓ} {A : Type ℓ} where
  abbrev pub is_leaf : Tree A → Bool
  is_leaf leaf = true
  is_leaf (node c l a r) = false

  -- Case 2a: the sibling is red from now on, and the parent is the next node.
  abbrev pub moved : Frame A → Tree A → Tree A
  moved (left_of c a s) t = node c t a (set_color red s)
  moved (right_of c s a) t = node c (set_color red s) a t

  abbrev pub nephews_black : Frame A → Bool
  nephews_black f = is_black (right_child (sibling f)) && is_black (left_child (sibling f))

  abbrev pub black_right : Tree A → Tree A
  black_right leaf = leaf
  black_right (node c l a r) = node c l a (set_color black r)

  abbrev pub black_left : Tree A → Tree A
  black_left leaf = leaf
  black_left (node c l a r) = node c (set_color black l) a r

  -- Cases 3 and 4: the sibling takes the parent's place and color, behind a rotation of its own where
  -- the far nephew is black.
  abbrev pub settled : Frame A → Tree A → Tree A
  settled (left_of c a s) t =
      let near = if is_black (right_child s) then right_rotate s else s in
      left_rotate (node black t a (set_color c (black_right near)))
  settled (right_of c s a) t =
      let near = if is_black (left_child s) then left_rotate s else s in
      right_rotate (node black (set_color c (black_left near)) a t)

  -- Case 1: the red sibling is rotated over the parent; the parent's frame from then on, and that above.
  abbrev pub inner : Frame A → Frame A
  inner (left_of c a s) = left_of red a (left_child s)
  inner (right_of c s a) = right_of red (right_child s) a

  abbrev pub outer : Frame A → List (Frame A)
  outer (left_of c a leaf) = []
  outer (left_of c a (node d sl x sr)) = left_of black x sr ∷ []
  outer (right_of c leaf a) = []
  outer (right_of c (node d sl x sr) a) = right_of black sl x ∷ []

  -- Behind case 1: the parent is red, so the round that follows is the last.
  abbrev pub fix_last : Frame A → Tree A → List (Frame A) → Option (Tree A)
  fix_last f t p =
      if is_leaf (sibling f) || not (is_black (sibling f))
      then none
      else if nephews_black f
      then some (zip (set_color black (moved f t)) p)
      else some (zip (settled f t) p)

  -- The loop of `RBTreeNode_PruneLeaf` at the node `t`, which lacks a black node: the whole tree.
  -- `none` is a sibling that is the sentinel, or red behind case 1, which the source would recolor or
  -- rotate.
  unfoldable pub fix : Tree A → List (Frame A) → Option (Tree A)
  fix t [] = some (set_color black t)
  fix t (f ∷ p) =
      let up = fix (moved f t) p in
      if not (is_black t)
      then some (zip (set_color black t) (f ∷ p))
      else if is_leaf (sibling f)
      then none
      else if not (is_black (sibling f))
      then fix_last (inner f) t (outer f ++ p)
      else if nephews_black f
      then up
      else some (zip (settled f t) p)

  -- `RBTreeNode_PruneLeaf` of a node with these children
  unfoldable pub prune_leaf : Color → Tree A → Tree A → List (Frame A) → Option (Tree A)
  unfolding fix
  prune_leaf red l r p = some (zip leaf p)
  prune_leaf black (node c l a m) r p = some (zip (node black l a m) p)
  prune_leaf black leaf (node c l a r) p = some (zip (node black l a r) p)
  prune_leaf black leaf leaf p = fix leaf p

  abbrev pub is_black_leaf : Spot A → Bool
  is_black_leaf s = color_black s.color && is_leaf s.left && is_leaf s.right

  abbrev prune_spot : Spot A → Option (Tree A)
  prune_spot s = prune_leaf s.color s.left s.right s.up

  -- By the children. The source prunes the successor, and then puts it in the node's place; as pruning
  -- looks at no object, the successor's object is in that place from the start here.
  unfoldable pub prune_in : Color → Tree A → A → Tree A → List (Frame A) → Option (Tree A)
  unfolding leftmost rightmost prune_leaf
  prune_in color leaf a r p = prune_leaf color leaf r p
  prune_in color (node d l b m) a leaf p = prune_leaf color (node d l b m) leaf p
  prune_in color (node d l b m) a (node e n c r) p =
      let next = leftmost e n c r [] in
      let prev = rightmost d l b m [] in
      if is_black_leaf next
      then prune_spot (rightmost d l b m (left_of color prev.obj (node e n c r) ∷ p))
      else prune_spot (leftmost e n c r (right_of color (node d l b m) next.obj ∷ p))

  -- `RBTreeNode_Prune` of a node that is in a tree; what is left of the tree
  abbrev pub prune : Spot A → Option (Tree A)
  prune s = prune_in s.color s.left s.obj s.right s.up
