-- ===== src/RbTree/Prune/Removes.antt =====
-- src/Contained_RBTree.c, `RBTreeNode_Prune`: one object less, and a red-black tree.
use daemonproxy.Common.{
  Option, some, none, List, [], ◌∷◌, ◌++◌, ◌≡◌, refl, sym, ap, subst, ◌∙◌, inl, inr, by_test,
  append_assoc, append-nil,
}
use daemonproxy.RbTree.{Color, Tree, leaf, node, Frame, left_of, right_of, to_list}
use daemonproxy.RbTree.Balance.{IsTree, Adds, adds}
use daemonproxy.RbTree.Contents.{Lists}
use daemonproxy.RbTree.Spot.{
  Spot, whole, leftmost, rightmost, before, behind, front, rest, to_list-around,
}
use daemonproxy.RbTree.Prune.{prune_leaf, is_black_leaf, prune_in, prune}
use daemonproxy.RbTree.Prune.Balance.{Fits, left-Fits, right-Fits, unzip, prune-Adds}
use daemonproxy.RbTree.Prune.Contents.{around, prune_leaf-Lists}

module _ {ℓ} {A : Type ℓ} where
  abbrev Leaves : Spot A → Type ℓ
  Leaves s = Lists (front s ++ rest s) (prune_leaf s.color s.left s.right s.up)

  leftmost-Leaves :
      (c : Color) (l : Tree A) (a : A) (r : Tree A) (p : List (Frame A))
      → Fits (node c l a r) p
      → Leaves (leftmost c l a r p)
  unfolding leftmost
  leftmost-Leaves c leaf a r p h = prune_leaf-Lists c leaf a r p h (inl refl)
  leftmost-Leaves c (node d l b m) a r p h =
      leftmost-Leaves d l b m (left_of c a r ∷ p) (left-Fits c (node d l b m) a a r p h)

  rightmost-Leaves :
      (c : Color) (l : Tree A) (a : A) (r : Tree A) (p : List (Frame A))
      → Fits (node c l a r) p
      → Leaves (rightmost c l a r p)
  unfolding rightmost
  rightmost-Leaves c l a leaf p h = prune_leaf-Lists c l a leaf p h (inr refl)
  rightmost-Leaves c l a (node d m b r) p h =
      rightmost-Leaves d m b r (right_of c l a ∷ p) (right-Fits c l a a (node d m b r) p h)

  -- The first object of a subtree, with nothing of the subtree before it.
  front-leftmost :
      (c : Color) (l : Tree A) (a : A) (r : Tree A) (p : List (Frame A))
      → front (leftmost c l a r p) ≡ before p
  unfolding leftmost
  front-leftmost c leaf a r p = append-nil (before p)
  front-leftmost c (node d l b m) a r p = front-leftmost d l b m (left_of c a r ∷ p)

  -- The object that a path without parents finds is the same.
  rest-leftmost :
      (c : Color) (l : Tree A) (a : A) (r : Tree A) (p q : List (Frame A))
      → (leftmost c l a r q).obj ∷ rest (leftmost c l a r p) ≡ to_list (node c l a r) ++ behind p
  unfolding leftmost
  rest-leftmost c leaf a r p q = refl
  rest-leftmost c (node d l b m) a r p q =
      rest-leftmost d l b m (left_of c a r ∷ p) (left_of c a r ∷ q)
      ∙ sym (append_assoc (to_list (node d l b m)) (a ∷ to_list r) (behind p))

  rest-rightmost :
      (c : Color) (l : Tree A) (a : A) (r : Tree A) (p : List (Frame A))
      → rest (rightmost c l a r p) ≡ behind p
  unfolding rightmost
  rest-rightmost c l a leaf p = refl
  rest-rightmost c l a (node d m b r) p = rest-rightmost d m b r (right_of c l a ∷ p)

  front-rightmost :
      (c : Color) (l : Tree A) (a : A) (r : Tree A) (p q : List (Frame A))
      → front (rightmost c l a r p) ++ ((rightmost c l a r q).obj ∷ [])
        ≡ before p ++ to_list (node c l a r)
  unfolding rightmost
  front-rightmost c l a leaf p q = append_assoc (before p) (to_list l) (a ∷ [])
  front-rightmost c l a (node d m b r) p q =
      front-rightmost d m b r (right_of c l a ∷ p) (right_of c l a ∷ q)
      ∙ append_assoc (before p) (to_list l ++ (a ∷ [])) (to_list (node d m b r))
      ∙ ap (λ s. before p ++ s) (append_assoc (to_list l) (a ∷ []) (to_list (node d m b r)))

  -- The successor of the node takes its place.
  by_successor :
      (c : Color) (ls : Tree A) (e : Color) (n : Tree A) (x : A) (r : Tree A) (p : List (Frame A))
      → let s = leftmost e n x r (right_of c ls (leftmost e n x r []).obj ∷ p) in
        front s ++ rest s ≡ around ls (node e n x r) p
  by_successor c ls e n x r p =
      let b = (leftmost e n x r []).obj in
      let s = leftmost e n x r (right_of c ls b ∷ p) in
      ap (λ t. t ++ rest s)
        (front-leftmost e n x r (right_of c ls b ∷ p)
          ∙ sym (append_assoc (before p) (to_list ls) (b ∷ [])))
      ∙ append_assoc (before p ++ to_list ls) (b ∷ []) (rest s)
      ∙ ap (λ t. (before p ++ to_list ls) ++ t) (rest-leftmost e n x r (right_of c ls b ∷ p) [])

  by_predecessor :
      (c : Color) (d : Color) (l : Tree A) (x : A) (m : Tree A) (rs : Tree A) (p : List (Frame A))
      → let s = rightmost d l x m (left_of c (rightmost d l x m []).obj rs ∷ p) in
        front s ++ rest s ≡ around (node d l x m) rs p
  by_predecessor c d l x m rs p =
      let b = (rightmost d l x m []).obj in
      let s = rightmost d l x m (left_of c b rs ∷ p) in
      ap (λ t. front s ++ t) (rest-rightmost d l x m (left_of c b rs ∷ p))
      ∙ sym (append_assoc (front s) (b ∷ []) (to_list rs ++ behind p))
      ∙ ap (λ t. t ++ (to_list rs ++ behind p)) (front-rightmost d l x m (left_of c b rs ∷ p) [])

  prune_in-Lists :
      (c : Color) (l : Tree A) (a : A) (r : Tree A) (p : List (Frame A))
      → Fits (node c l a r) p
      → Lists (around l r p) (prune_in c l a r p)
  unfolding prune_in
  prune_in-Lists c leaf a r p h = prune_leaf-Lists c leaf a r p h (inl refl)
  prune_in-Lists c (node d l b m) a leaf p h =
      prune_leaf-Lists c (node d l b m) a leaf p h (inr refl)
  prune_in-Lists c (node d l b m) a (node e n x r) p h =
      by_test (Lists (around (node d l b m) (node e n x r) p)) (is_black_leaf (leftmost e n x r []))
        _ _
        (λ q.
          let f = left_of c (rightmost d l b m []).obj (node e n x r) ∷ p in
          let s = rightmost d l b m f in
          subst (λ xs. Lists xs (prune_leaf s.color s.left s.right s.up))
            (by_predecessor c d l b m (node e n x r) p)
            (rightmost-Leaves d l b m f (left-Fits c (node d l b m) a _ (node e n x r) p h)))
        (λ q.
          let f = right_of c (node d l b m) (leftmost e n x r []).obj ∷ p in
          let s = leftmost e n x r f in
          subst (λ xs. Lists xs (prune_leaf s.color s.left s.right s.up))
            (by_successor c (node d l b m) e n x r p)
            (leftmost-Leaves e n x r f (right-Fits c (node d l b m) a _ (node e n x r) p h)))

  -- A result of `RBTreeNode_Prune`.
  pub data Removed (s : Spot A) : Option (Tree A) → Type ℓ where
    removed :
        {u : Tree A}
        → IsTree u
        → to_list (whole s) ≡ front s ++ (s.obj ∷ rest s)
        → to_list u ≡ front s ++ rest s
        → Removed s (some u)

  Adds-Removed :
      (s : Spot A) (r : Option (Tree A)) → Adds r → Lists (front s ++ rest s) r → Removed s r
  Adds-Removed s none h e = elim h [ ]
  Adds-Removed s (some u) (adds h) e =
      removed h
        (to_list-around (node s.color s.left s.obj s.right) s.up
          ∙ ap (λ t. before s.up ++ t)
              (append_assoc (to_list s.left) (s.obj ∷ to_list s.right) (behind s.up))
          ∙ sym (append_assoc (before s.up) (to_list s.left) (s.obj ∷ rest s)))
        e

  -- `RBTreeNode_Prune` takes one object, that of the node, out of a red-black tree, and leaves the
  -- others in order in a red-black tree. No round recolors or rotates the sentinel.
  pub prune-Removed : (s : Spot A) → IsTree (whole s) → Removed s (prune s)
  prune-Removed s h = Adds-Removed s (prune s) (prune-Adds s h) (
      prune_in-Lists s.color s.left s.obj s.right s.up
        (unzip (node s.color s.left s.obj s.right) s.up h))
