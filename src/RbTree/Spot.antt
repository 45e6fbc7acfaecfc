-- ===== src/RbTree/Spot.antt =====
-- src/Contained_RBTree.c: a node in its tree, and the nodes next to it.
use daemonproxy.Common.{
  Option, some, none, List, [], ◌∷◌, ◌++◌, ◌≡◌, refl, sym, ap, subst, ◌∙◌, append_assoc, append-nil,
}
use daemonproxy.RbTree.{Color, Tree, leaf, node, Frame, left_of, right_of, zip, to_list}

-- A node: its color, its children and its object, and the path of its parents.
pub record Spot {ℓ} (A : Type ℓ) : Type ℓ where
  pub color : Color
  pub left : Tree A
  pub obj : A
  pub right : Tree A
  pub up : List (Frame A)

module _ {ℓ} {A : Type ℓ} where
  abbrev pub subtree : Spot A → Tree A
  subtree s = node s.color s.left s.obj s.right

  abbrev pub whole : Spot A → Tree A
  whole s = zip (subtree s) s.up

  -- `RBTreeNode_GetLeftmost` and `RBTreeNode_GetRightmost` of a node with these four fields
  unfoldable pub leftmost : Color → Tree A → A → Tree A → List (Frame A) → Spot A
  leftmost c leaf a r p = record { color = c; left = leaf; obj = a; right = r; up = p }
  leftmost c (node d l b m) a r p = leftmost d l b m (left_of c a r ∷ p)

  unfoldable pub rightmost : Color → Tree A → A → Tree A → List (Frame A) → Spot A
  rightmost c l a leaf p = record { color = c; left = l; obj = a; right = leaf; up = p }
  rightmost c l a (node d m b r) p = rightmost d m b r (right_of c l a ∷ p)

  -- Up to the first parent that the node is left of, or right of; the root sentinel is none.
  unfoldable pub climb_next : Tree A → List (Frame A) → Option (Spot A)
  climb_next t [] = none
  climb_next t (right_of c l a ∷ p) = climb_next (node c l a t) p
  climb_next t (left_of c a r ∷ p) =
      some (record { color = c; left = t; obj = a; right = r; up = p })

  unfoldable pub climb_prev : Tree A → List (Frame A) → Option (Spot A)
  climb_prev t [] = none
  climb_prev t (left_of c a r ∷ p) = climb_prev (node c t a r) p
  climb_prev t (right_of c l a ∷ p) =
      some (record { color = c; left = l; obj = a; right = t; up = p })

  abbrev next_in : Tree A → Spot A → Option (Spot A)
  next_in leaf s = climb_next (subtree s) s.up
  next_in (node d l b m) s = some (leftmost d l b m (right_of s.color s.left s.obj ∷ s.up))

  abbrev prev_in : Tree A → Spot A → Option (Spot A)
  prev_in leaf s = climb_prev (subtree s) s.up
  prev_in (node d m b r) s = some (rightmost d m b r (left_of s.color s.obj s.right ∷ s.up))

  -- `RBTreeNode_GetNext`
  unfoldable pub get_next : Spot A → Option (Spot A)
  unfolding leftmost climb_next
  get_next s = next_in s.right s

  -- `RBTreeNode_GetPrev`
  unfoldable pub get_prev : Spot A → Option (Spot A)
  unfolding rightmost climb_prev
  get_prev s = prev_in s.left s

  -- The objects of the tree before and behind the subtree at the end of a path.
  abbrev pub before : List (Frame A) → List A
  before [] = []
  before (left_of c a r ∷ p) = before p
  before (right_of c l a ∷ p) = before p ++ (to_list l ++ (a ∷ []))

  abbrev pub behind : List (Frame A) → List A
  behind [] = []
  behind (left_of c a r ∷ p) = a ∷ (to_list r ++ behind p)
  behind (right_of c l a ∷ p) = behind p

  pub to_list-around :
      (t : Tree A) (p : List (Frame A)) → to_list (zip t p) ≡ before p ++ (to_list t ++ behind p)
  to_list-around t [] = sym (append-nil (to_list t))
  to_list-around t (left_of c a r ∷ p) =
      to_list-around (node c t a r) p
      ∙ ap (λ s. before p ++ s) (append_assoc (to_list t) (a ∷ to_list r) (behind p))
  to_list-around t (right_of c l a ∷ p) =
      to_list-around (node c l a t) p
      ∙ ap (λ s. before p ++ s) (append_assoc (to_list l) (a ∷ to_list t) (behind p))
      ∙ sym (
          append_assoc (before p) (to_list l ++ (a ∷ [])) (to_list t ++ behind p)
          ∙ ap (λ s. before p ++ s) (append_assoc (to_list l) (a ∷ []) (to_list t ++ behind p)))

  -- The objects behind the node, in order, and those before it.
  abbrev pub rest : Spot A → List A
  rest s = to_list s.right ++ behind s.up

  abbrev pub front : Spot A → List A
  front s = before s.up ++ to_list s.left

  -- A step from the node: to the node of the first object behind it in the same tree, or to none.
  pub data Steps (t : Tree A) : List A → Option (Spot A) → Type ℓ where
    stop : Steps t [] none
    step : {s : Spot A} → whole s ≡ t → Steps t (s.obj ∷ rest s) (some s)

  leftmost-Steps :
      (c : Color) (l : Tree A) (a : A) (r : Tree A) (p : List (Frame A))
      → Steps
          (zip (node c l a r) p)
          (to_list (node c l a r) ++ behind p)
          (some (leftmost c l a r p))
  unfolding leftmost
  leftmost-Steps c leaf a r p = step refl
  leftmost-Steps c (node d l b m) a r p =
      subst
        (λ xs.
          Steps (zip (node c (node d l b m) a r) p) xs
            (some (leftmost d l b m (left_of c a r ∷ p))))
        (sym (append_assoc (to_list (node d l b m)) (a ∷ to_list r) (behind p)))
        (leftmost-Steps d l b m (left_of c a r ∷ p))

  climb-Steps : (t : Tree A) (p : List (Frame A)) → Steps (zip t p) (behind p) (climb_next t p)
  unfolding climb_next
  climb-Steps t [] = stop
  climb-Steps t (right_of c l a ∷ p) = climb-Steps (node c l a t) p
  climb-Steps t (left_of c a r ∷ p) = step refl

  -- `RBTreeNode_GetNext` goes to the node of the next object in order, in the same tree, and to none
  -- from the last.
  pub get_next-Steps : (s : Spot A) → Steps (whole s) (rest s) (get_next s)
  unfolding get_next
  get_next-Steps s = by_right s.color s.left s.obj s.right s.up
    where
      by_right :
          (c : Color) (l : Tree A) (a : A) (r : Tree A) (p : List (Frame A))
          → Steps
              (zip (node c l a r) p)
              (to_list r ++ behind p)
              (next_in r (record { color = c; left = l; obj = a; right = r; up = p }))
      by_right c l a leaf p = climb-Steps (node c l a leaf) p
      by_right c l a (node d rl b rm) p = leftmost-Steps d rl b rm (right_of c l a ∷ p)
