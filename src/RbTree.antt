-- ===== src/RbTree.antt =====
-- src/Contained_RBTree.c: the red-black tree that the services and the descriptors are found by.
-- A node is its subtree, with the sentinel as `leaf`, and the parent pointers from a node up to the
-- root sentinel are the path to it, the nearest parent first. `less x a` is `Compare(x, a) < 0`.
pub mod Contents
pub mod Balance
pub mod Add
pub mod Find
pub mod Spot
pub mod Prune
mod Examples
use daemonproxy.Common.{
  ℕ, Bool, true, false, not, Option, some, none, List, [], ◌∷◌, ◌++◌, if◌then◌else◌,
}
use daemonproxy.Strseg.{Order, less, same, greater}

pub data Color : Type 0 where
  red black : Color

pub data Tree {ℓ} (A : Type ℓ) : Type ℓ where
  leaf : Tree A
  node : Color → Tree A → A → Tree A → Tree A

-- A parent: its color, its object, and its other side.
pub data Frame {ℓ} (A : Type ℓ) : Type ℓ where
  left_of : Color → A → Tree A → Frame A
  right_of : Color → Tree A → A → Frame A

abbrev pub color_black : Color → Bool
color_black red = false
color_black black = true

module _ {ℓ} {A : Type ℓ} where
  -- The sentinel is black.
  abbrev pub is_black : Tree A → Bool
  is_black leaf = true
  is_black (node c l a r) = color_black c

  abbrev pub set_color : Color → Tree A → Tree A
  set_color c leaf = leaf
  set_color c (node d l a r) = node c l a r

  abbrev pub left_child : Tree A → Tree A
  left_child leaf = leaf
  left_child (node c l a r) = l

  abbrev pub right_child : Tree A → Tree A
  right_child leaf = leaf
  right_child (node c l a r) = r

  -- The rotations, on either side of the parent. No caller rotates the sentinel up.
  abbrev pub right_rotate : Tree A → Tree A
  right_rotate (node c (node d l x m) y r) = node d l x (node c m y r)
  right_rotate t = t

  abbrev pub left_rotate : Tree A → Tree A
  left_rotate (node c l x (node d m y r)) = node d (node c l x m) y r
  left_rotate t = t

  -- The parent, with this subtree in its place.
  abbrev pub fill : Frame A → Tree A → Tree A
  fill (left_of c a r) t = node c t a r
  fill (right_of c l a) t = node c l a t

  -- The whole tree.
  abbrev pub zip : Tree A → List (Frame A) → Tree A
  zip t [] = t
  zip t (f ∷ p) = zip (fill f t) p

  abbrev pub sibling : Frame A → Tree A
  sibling (left_of c a r) = r
  sibling (right_of c l a) = l

  -- The sibling is red: it and the current node get the parent's black.
  abbrev pub recolored : Frame A → Tree A → Tree A
  recolored (left_of c a r) cur = node red (set_color black cur) a (set_color black r)
  recolored (right_of c l a) cur = node red (set_color black l) a (set_color black cur)

  -- `Parent->Color= Red; Parent->Parent->Color= Black` behind the rotation
  abbrev pub red_left : Tree A → Tree A
  red_left leaf = leaf
  red_left (node c l a r) = node black (set_color red l) a r

  abbrev pub red_right : Tree A → Tree A
  red_right leaf = leaf
  red_right (node c l a r) = node black l a (set_color red r)

  -- The "prep-slide", where the red child is on the inner side, and the rotation of the parent
  abbrev pub rotated : Frame A → Tree A → Tree A
  rotated (left_of c a r) cur =
      let prep = if is_black (right_child cur) then cur else left_rotate cur in
      red_right (right_rotate (node c prep a r))
  rotated (right_of c l a) cur =
      let prep = if is_black (left_child cur) then cur else right_rotate cur in
      red_left (left_rotate (node c l a prep))

  -- `RBTreeNode_Balance` of the node `cur`, two parents up in each round; the whole tree. `none` is a
  -- red root, where the source would take the root sentinel for a parent.
  unfoldable pub balance : Tree A → List (Frame A) → Option (Tree A)
  balance cur [] = if is_black cur then some cur else none
  balance cur (f ∷ []) =
      if is_black cur
      then some (fill f cur)
      else if not (is_black (sibling f))
      then some (recolored f cur)
      else some (rotated f cur)
  balance cur (f ∷ g ∷ p) =
      let up = balance (fill g (recolored f cur)) p in
      if is_black cur
      then some (zip cur (f ∷ g ∷ p))
      else if not (is_black (sibling f))
      then up
      else some (zip (rotated f cur) (g ∷ p))

  -- The loop of `RBTree_Add` down to the place of the new node.
  unfoldable pub descend : (A → Bool) → Tree A → List (Frame A) → List (Frame A)
  descend before leaf p = p
  descend before (node c l a r) p =
      let to_left = descend before l (left_of c a r ∷ p) in
      let to_right = descend before r (right_of c l a ∷ p) in if before a then to_left else to_right

  abbrev pub blacken : Option (Tree A) → Option (Tree A)
  blacken none = none
  blacken (some t) = some (set_color black t)

  abbrev pub add_at : A → List (Frame A) → Option (Tree A)
  add_at x [] = some (node red leaf x leaf)
  add_at x (f ∷ p) = balance (fill f (node red leaf x leaf)) p

  -- `RBTree_Add` of a node that is in no tree
  unfoldable pub add : (A → A → Bool) → A → Tree A → Option (Tree A)
  unfolding balance descend
  add less_than x t = blacken (add_at x (descend (less_than x) t []))

  -- `RBTree_Find`: the nearest node, and how the key compares to it.
  unfoldable pub find : (A → Order) → Tree A → Option (A × Order)
  find cmp leaf = none
  find cmp (node c l a r) =
      let to_left = find cmp l in
      let to_right = find cmp r in
      elim (cmp a) [
        | less ↦ elim to_left [ none ↦ some (a, less) | some found ↦ some found ]
        | greater ↦ elim to_right [ none ↦ some (a, greater) | some found ↦ some found ]
        | same ↦ some (a, same)
      ]

  abbrev pub to_list : Tree A → List A
  to_list leaf = []
  to_list (node c l a r) = to_list l ++ (a ∷ to_list r)
