-- ===== src/RbTree/Contents.antt =====
-- src/Contained_RBTree.c: the objects of a tree in order, as a node is added.
use daemonproxy.Common.{
  Bool, true, false, not, Option, some, none, List, [], ◌∷◌, ◌++◌, All, if◌then◌else◌, ◌≡◌, refl,
  sym, ap, ◌∙◌, append_assoc, Bool-cases, by_test, inl, inr,
}
use daemonproxy.RbTree.{
  Color, red, black, Tree, leaf, node, Frame, left_of, right_of, is_black, set_color, left_child,
  right_child, left_rotate, right_rotate, fill, zip, sibling, recolored, rotated, red_left,
  red_right, balance, descend, blacken, add_at, add, to_list,
}

-- The tests that `RBTree_Add` makes are those of an order, in which nodes may be equal.
pub record IsOrder {ℓ} {A : Type ℓ} (less_than : A → A → Bool) : Type ℓ where
  pub asym : (a b : A) → less_than a b ≡ true → less_than b a ≡ false
  pub not_less_trans :
      (a b c : A) → less_than a b ≡ false → less_than b c ≡ false → less_than a c ≡ false

module _ {ℓ} {A : Type ℓ} where
  -- The reference: the new object goes behind those that it is not less than.
  abbrev pub insert_sorted : (A → A → Bool) → A → List A → List A
  insert_sorted less_than x [] = x ∷ []
  insert_sorted less_than x (y ∷ ys) =
      if less_than x y then x ∷ y ∷ ys else y ∷ insert_sorted less_than x ys

  -- No object is less than one before it.
  abbrev pub AreSorted : (A → A → Bool) → List A → Type 0
  AreSorted less_than [] = Unit
  AreSorted less_than (y ∷ ys) = All (λ z. less_than z y ≡ false) ys × AreSorted less_than ys

  pub to_list-set_color : (c : Color) (t : Tree A) → to_list (set_color c t) ≡ to_list t
  to_list-set_color c leaf = refl
  to_list-set_color c (node d l a r) = refl

  to_list-red_left : (t : Tree A) → to_list (red_left t) ≡ to_list t
  to_list-red_left leaf = refl
  to_list-red_left (node c l a r) = ap (λ s. s ++ (a ∷ to_list r)) (to_list-set_color red l)

  to_list-red_right : (t : Tree A) → to_list (red_right t) ≡ to_list t
  to_list-red_right leaf = refl
  to_list-red_right (node c l a r) = ap (λ s. to_list l ++ (a ∷ s)) (to_list-set_color red r)

  pub to_list-left_rotate : (t : Tree A) → to_list (left_rotate t) ≡ to_list t
  to_list-left_rotate leaf = refl
  to_list-left_rotate (node c l x leaf) = refl
  to_list-left_rotate (node c l x (node d m y r)) =
      append_assoc (to_list l) (x ∷ to_list m) (y ∷ to_list r)

  pub to_list-right_rotate : (t : Tree A) → to_list (right_rotate t) ≡ to_list t
  to_list-right_rotate leaf = refl
  to_list-right_rotate (node c leaf y r) = refl
  to_list-right_rotate (node c (node d l x m) y r) =
      sym (append_assoc (to_list l) (x ∷ to_list m) (y ∷ to_list r))

  pub to_list-fill :
      (f : Frame A) (t u : Tree A) → to_list t ≡ to_list u → to_list (fill f t) ≡ to_list (fill f u)
  to_list-fill (left_of c a r) t u e = ap (λ s. s ++ (a ∷ to_list r)) e
  to_list-fill (right_of c l a) t u e = ap (λ s. to_list l ++ (a ∷ s)) e

  pub to_list-zip :
      (t u : Tree A) (p : List (Frame A))
      → to_list t ≡ to_list u
      → to_list (zip t p) ≡ to_list (zip u p)
  to_list-zip t u [] e = e
  to_list-zip t u (f ∷ p) e = to_list-zip (fill f t) (fill f u) p (to_list-fill f t u e)

  to_list-recolored : (f : Frame A) (t : Tree A) → to_list (recolored f t) ≡ to_list (fill f t)
  to_list-recolored (left_of c a r) t =
      rw (to_list-set_color black t, to_list-set_color black r) refl
  to_list-recolored (right_of c l a) t =
      rw (to_list-set_color black t, to_list-set_color black l) refl

  to_list-rotated : (f : Frame A) (t : Tree A) → to_list (rotated f t) ≡ to_list (fill f t)
  to_list-rotated (left_of c a r) t =
      let prep = if is_black (right_child t) then t else left_rotate t in
      to_list-red_right (right_rotate (node c prep a r))
      ∙ to_list-right_rotate (node c prep a r)
      ∙ to_list-fill (left_of c a r) prep t (
          by_test (λ s. to_list s ≡ to_list t) (is_black (right_child t)) t (left_rotate t)
            (λ e. refl) (λ e. to_list-left_rotate t))
  to_list-rotated (right_of c l a) t =
      let prep = if is_black (left_child t) then t else right_rotate t in
      to_list-red_left (left_rotate (node c l a prep))
      ∙ to_list-left_rotate (node c l a prep)
      ∙ to_list-fill (right_of c l a) prep t (
          by_test (λ s. to_list s ≡ to_list t) (is_black (left_child t)) t (right_rotate t)
            (λ e. refl) (λ e. to_list-right_rotate t))

  -- The objects of the tree that is left, if there is one.
  abbrev pub Lists : List A → Option (Tree A) → Type ℓ
  Lists xs none = Unit
  Lists xs (some t) = to_list t ≡ xs

  balance-Lists :
      (cur : Tree A) (p : List (Frame A)) (xs : List A)
      → to_list (zip cur p) ≡ xs
      → Lists xs (balance cur p)
  unfolding balance
  balance-Lists cur [] xs e = by_test (Lists xs) (is_black cur) _ _ (λ b. e) (λ b. tt)
  balance-Lists cur (f ∷ []) xs e =
      by_test (Lists xs) (is_black cur) _ _ (λ b. e)
        (λ b.
          by_test (Lists xs) (not (is_black (sibling f))) _ _ (λ s. to_list-recolored f cur ∙ e)
            (λ s. to_list-rotated f cur ∙ e))
  balance-Lists cur (f ∷ g ∷ p) xs e =
      by_test (Lists xs) (is_black cur) _ _ (λ b. e)
        (λ b.
          by_test (Lists xs) (not (is_black (sibling f))) _ _
            (λ s.
              balance-Lists (fill g (recolored f cur)) p xs
                (to_list-zip (recolored f cur) (fill f cur) (g ∷ p) (to_list-recolored f cur) ∙ e))
            (λ s. to_list-zip (rotated f cur) (fill f cur) (g ∷ p) (to_list-rotated f cur) ∙ e))

  -- The new node as a leaf of the tree, before the balance.
  hang : (A → Bool) → A → Tree A → Tree A
  hang before x leaf = node red leaf x leaf
  hang before x (node c l a r) =
      if before a then node c (hang before x l) a r else node c l a (hang before x r)

  zip-descend :
      (before : A → Bool) (x : A) (t : Tree A) (p : List (Frame A))
      → zip (node red leaf x leaf) (descend before t p) ≡ zip (hang before x t) p
  unfolding descend hang
  zip-descend before x leaf p = refl
  zip-descend before x (node c l a r) p = elim (Bool-cases (before a)) [
    | inl e ↦ rw e (zip-descend before x l (left_of c a r ∷ p))
    | inr e ↦ rw e (zip-descend before x r (right_of c l a ∷ p))
  ]

  add_at-Lists :
      (x : A) (p : List (Frame A)) → Lists (to_list (zip (node red leaf x leaf) p)) (add_at x p)
  add_at-Lists x [] = refl
  add_at-Lists x (f ∷ p) = balance-Lists (fill f (node red leaf x leaf)) p _ refl

  insert-before :
      (less_than : A → A → Bool) (x a : A) (xs ys : List A)
      → less_than x a ≡ true
      → insert_sorted less_than x (xs ++ (a ∷ ys)) ≡ insert_sorted less_than x xs ++ (a ∷ ys)
  insert-before less_than x a [] ys e = rw e refl
  insert-before less_than x a (b ∷ xs) ys e = elim (Bool-cases (less_than x b)) [
    | inl h ↦ rw h refl
    | inr h ↦ rw h (ap (λ s. b ∷ s) (insert-before less_than x a xs ys e))
  ]

  insert-behind :
      (less_than : A → A → Bool) (x : A) (xs ys : List A)
      → All (λ b. less_than x b ≡ false) xs
      → insert_sorted less_than x (xs ++ ys) ≡ xs ++ insert_sorted less_than x ys
  insert-behind less_than x [] ys h = refl
  insert-behind less_than x (b ∷ xs) ys h =
      rw (h.0) (ap (λ s. b ∷ s) (insert-behind less_than x xs ys h.1))

  pub sorted-left :
      (less_than : A → A → Bool) (xs ys : List A)
      → AreSorted less_than (xs ++ ys)
      → AreSorted less_than xs
  sorted-left less_than [] ys h = tt
  sorted-left less_than (x ∷ xs) ys h = (all-left xs h.0, sorted-left less_than xs ys h.1)
    where
      all-left :
          (zs : List A)
          → All (λ z. less_than z x ≡ false) (zs ++ ys)
          → All (λ z. less_than z x ≡ false) zs
      all-left [] h = tt
      all-left (z ∷ zs) h = (h.0, all-left zs h.1)

  pub sorted-right :
      (less_than : A → A → Bool) (xs ys : List A)
      → AreSorted less_than (xs ++ ys)
      → AreSorted less_than ys
  sorted-right less_than [] ys h = h
  sorted-right less_than (x ∷ xs) ys h = sorted-right less_than xs ys h.1

  -- What stands before `a` is not more than `a`.
  sorted-before :
      (less_than : A → A → Bool) (a : A) (xs ys : List A)
      → AreSorted less_than (xs ++ (a ∷ ys))
      → All (λ b. less_than a b ≡ false) xs
  sorted-before less_than a [] ys h = tt
  sorted-before less_than a (x ∷ xs) ys h = (at_a xs h.0, sorted-before less_than a xs ys h.1)
    where
      at_a :
          (zs : List A) → All (λ z. less_than z x ≡ false) (zs ++ (a ∷ ys)) → less_than a x ≡ false
      at_a [] h = h.0
      at_a (z ∷ zs) h = at_a zs h.1

  not_less-All :
      (less_than : A → A → Bool) (x a : A) (xs : List A)
      → IsOrder less_than
      → less_than x a ≡ false
      → All (λ b. less_than a b ≡ false) xs
      → All (λ b. less_than x b ≡ false) xs
  not_less-All less_than x a [] o e h = tt
  not_less-All less_than x a (b ∷ xs) o e h =
      (o.not_less_trans x a b e h.0, not_less-All less_than x a xs o e h.1)

  to_list-hang :
      (less_than : A → A → Bool) (x : A) (t : Tree A)
      → IsOrder less_than
      → AreSorted less_than (to_list t)
      → to_list (hang (less_than x) x t) ≡ insert_sorted less_than x (to_list t)
  unfolding hang
  to_list-hang less_than x leaf o s = refl
  to_list-hang less_than x (node c l a r) o s = elim (Bool-cases (less_than x a)) [
    | inl e ↦ rw e (
        ap (λ u. u ++ (a ∷ to_list r))
          (to_list-hang less_than x l o (sorted-left less_than (to_list l) (a ∷ to_list r) s))
        ∙ sym (insert-before less_than x a (to_list l) (to_list r) e))
    | inr e ↦
        let ahead =
          not_less-All less_than x a (to_list l) o e
            (sorted-before less_than a (to_list l) (to_list r) s) in
        let here : insert_sorted less_than x (a ∷ to_list r)
            ≡ a ∷ insert_sorted less_than x (to_list r) =
          rw e refl in
        rw e (
          ap (λ u. to_list l ++ (a ∷ u))
            (to_list-hang less_than x r o (sorted-right less_than (to_list l) (a ∷ to_list r) s).1)
          ∙ sym (
              insert-behind less_than x (to_list l) (a ∷ to_list r) ahead
              ∙ ap (λ u. to_list l ++ u) here))
  ]

  pub add-Lists :
      (less_than : A → A → Bool) (x : A) (t : Tree A)
      → IsOrder less_than
      → AreSorted less_than (to_list t)
      → Lists (insert_sorted less_than x (to_list t)) (add less_than x t)
  unfolding add
  add-Lists less_than x t o s =
      blackened (add_at x (descend (less_than x) t []))
        (add_at-Lists x (descend (less_than x) t []))
    where
      hung :
          to_list (zip (node red leaf x leaf) (descend (less_than x) t []))
          ≡ insert_sorted less_than x (to_list t)
      hung = ap to_list (zip-descend (less_than x) x t []) ∙ to_list-hang less_than x t o s

      blackened :
          (r : Option (Tree A))
          → Lists (to_list (zip (node red leaf x leaf) (descend (less_than x) t []))) r
          → Lists (insert_sorted less_than x (to_list t)) (blacken r)
      blackened none h = tt
      blackened (some u) h = to_list-set_color black u ∙ h ∙ hung
