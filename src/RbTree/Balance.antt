-- ===== src/RbTree/Balance.antt =====
-- src/Contained_RBTree.c: a tree stays red-black as a node is added.
use daemonproxy.Common.{
  ℕ, zero, suc, Bool, true, false, not, Option, some, none, List, [], ◌∷◌, ◌≡◌, refl, arith, ◌⊎◌,
  inl, inr, by_test,
}
use daemonproxy.RbTree.{
  red, black, Tree, leaf, node, Frame, left_of, right_of, is_black, set_color, fill, zip, sibling,
  recolored, rotated, balance, descend, blacken, add_at, add,
}

module _ {ℓ} {A : Type ℓ} where
  -- Each way down from the node has `n` black nodes, and no red node has a red child.
  abbrev pub IsRb : ℕ → Tree A → Type 0
  IsRb n leaf = n ≡ 0
  IsRb n (node red l a r) = (is_black l ≡ true) × (is_black r ≡ true) × IsRb n l × IsRb n r
  IsRb zero (node black l a r) = ⊥
  IsRb (suc n) (node black l a r) = IsRb n l × IsRb n r

  -- The parent, if there is one, is black; a red node has one.
  abbrev pub BlackAbove : List (Frame A) → Type 0
  BlackAbove [] = ⊥
  BlackAbove (left_of black a r ∷ p) = Unit
  BlackAbove (right_of black l a ∷ p) = Unit
  BlackAbove (left_of red a r ∷ p) = ⊥
  BlackAbove (right_of red l a ∷ p) = ⊥

  -- The tree is red-black but for the subtree at the end of the path, where `n` black nodes are due.
  abbrev pub IsPath : ℕ → List (Frame A) → Type 0
  IsPath n [] = Unit
  IsPath n (left_of black a r ∷ p) = IsRb n r × IsPath (suc n) p
  IsPath n (right_of black l a ∷ p) = IsRb n l × IsPath (suc n) p
  IsPath n (left_of red a r ∷ p) = (is_black r ≡ true) × IsRb n r × BlackAbove p × IsPath n p
  IsPath n (right_of red l a ∷ p) = (is_black l ≡ true) × IsRb n l × BlackAbove p × IsPath n p

  -- A red-black tree with a black root.
  pub record IsTree (t : Tree A) : Type 0 where
    pub height : ℕ
    pub is_rb : IsRb height t
    pub root_black : is_black t ≡ true

  -- A node of the loop: it is black and in order, or red below a black parent with one red child at most.
  abbrev Almost : ℕ → Tree A → Type 0
  Almost n leaf = ⊥
  Almost n (node black l a r) = ⊥
  Almost n (node red l a r) = IsRb n l × IsRb n r × ((is_black l ≡ true) ⊎ (is_black r ≡ true))

  abbrev Loops : ℕ → Tree A → List (Frame A) → Type 0
  Loops n cur p = ((is_black cur ≡ true) × IsRb n cur) ⊎ Almost n cur × BlackAbove p

  -- A result of the loop, before the root is made black.
  data Balanced : Option (Tree A) → Type ℓ where
    balanced : {t : Tree A} → IsTree (set_color black t) → Balanced (some t)

  black_root : (n : ℕ) (t : Tree A) → IsRb n t → IsTree (set_color black t)
  black_root n leaf h = record { height = 0; is_rb = refl; root_black = refl }
  black_root n (node red l a r) h = record { height = suc n; is_rb = (h.2, h.3); root_black = refl }
  black_root zero (node black l a r) h = elim h [ ]
  black_root (suc n) (node black l a r) h = record { height = suc n; is_rb = h; root_black = refl }

  -- A subtree in order makes the tree red-black.
  pub zip-Whole :
      (n : ℕ) (t : Tree A) (p : List (Frame A))
      → IsRb n t
      → (is_black t ≡ true) ⊎ BlackAbove p
      → IsPath n p
      → IsTree (zip t p)
  zip-Whole n t [] h (inl b) k = record { height = n; is_rb = h; root_black = b }
  zip-Whole n t [] h (inr b) k = elim b [ ]
  zip-Whole n t (left_of black a r ∷ p) h b k =
      zip-Whole (suc n) (node black t a r) p (h, k.0) (inl refl) k.1
  zip-Whole n t (right_of black l a ∷ p) h b k =
      zip-Whole (suc n) (node black l a t) p (k.0, h) (inl refl) k.1
  zip-Whole n t (left_of red a r ∷ p) h (inl b) k =
      zip-Whole n (node red t a r) p (b, k.0, h, k.1) (inr k.2) k.3
  zip-Whole n t (right_of red l a ∷ p) h (inl b) k =
      zip-Whole n (node red l a t) p (k.0, b, k.1, h) (inr k.2) k.3
  zip-Whole n t (left_of red a r ∷ p) h (inr b) k = elim b [ ]
  zip-Whole n t (right_of red l a ∷ p) h (inr b) k = elim b [ ]

  zip-IsTree :
      (n : ℕ) (t : Tree A) (p : List (Frame A))
      → IsRb n t
      → (is_black t ≡ true) ⊎ BlackAbove p
      → IsPath n p
      → IsTree (set_color black (zip t p))
  zip-IsTree n t p h b k = let w = zip-Whole n t p h b k in black_root w.height (zip t p) w.is_rb

  -- The rotation of a black parent leaves a black node of its height.
  rotated-IsRb :
      (n : ℕ) (f : Frame A) (p : List (Frame A)) (cur : Tree A)
      → is_black (sibling f) ≡ true
      → BlackAbove (f ∷ p)
      → IsPath n (f ∷ p)
      → Almost n cur
      → IsRb (suc n) (rotated f cur) × (is_black (rotated f cur) ≡ true) × IsPath (suc n) p
  rotated-IsRb n (right_of red l a) p cur s u k h = elim u [ ]
  rotated-IsRb n (left_of red a r) p cur s u k h = elim u [ ]
  rotated-IsRb n (right_of black l a) p leaf s u k h = elim h [ ]
  rotated-IsRb n (left_of black a r) p leaf s u k h = elim h [ ]
  rotated-IsRb n (right_of black l a) p (node black cl b cr) s u k h = elim h [ ]
  rotated-IsRb n (left_of black a r) p (node black cl b cr) s u k h = elim h [ ]
  rotated-IsRb n (right_of black l a) p (node red leaf b cr) s u k h =
      (((s, refl, k.0, h.0), h.1), refl, k.1)
  rotated-IsRb n (right_of black l a) p (node red (node black ll y lr) b cr) s u k h =
      (((s, refl, k.0, h.0), h.1), refl, k.1)
  rotated-IsRb n (right_of black l a) p (node red (node red ll y lr) b cr) s u k (hl, hr, inl e) =
      cc
  rotated-IsRb n (right_of black l a) p (node red (node red ll y lr) b cr) s u k (hl, hr, inr e) =
      (((s, hl.0, k.0, hl.2), (hl.1, e, hl.3, hr)), refl, k.1)
  rotated-IsRb n (left_of black a r) p (node red cl b leaf) s u k h =
      ((h.0, (refl, s, h.1, k.0)), refl, k.1)
  rotated-IsRb n (left_of black a r) p (node red cl b (node black rl y rr)) s u k h =
      ((h.0, (refl, s, h.1, k.0)), refl, k.1)
  rotated-IsRb n (left_of black a r) p (node red cl b (node red rl y rr)) s u k (hl, hr, inr e) = cc
  rotated-IsRb n (left_of black a r) p (node red cl b (node red rl y rr)) s u k (hl, hr, inl e) =
      (((e, hr.0, hl, hr.2), (hr.1, s, hr.3, k.0)), refl, k.1)

  -- A red node with a red child and a red sibling gives its parent's black to both.
  recolored-IsRb :
      (n : ℕ) (f : Frame A) (p : List (Frame A)) (cur : Tree A)
      → is_black (sibling f) ≡ false
      → BlackAbove (f ∷ p)
      → IsPath n (f ∷ p)
      → Almost n cur
      → IsRb (suc n) (recolored f cur) × (is_black (recolored f cur) ≡ false) × IsPath (suc n) p
  recolored-IsRb n (right_of red l a) p cur s u k h = elim u [ ]
  recolored-IsRb n (left_of red a r) p cur s u k h = elim u [ ]
  recolored-IsRb n (right_of black l a) p leaf s u k h = elim h [ ]
  recolored-IsRb n (left_of black a r) p leaf s u k h = elim h [ ]
  recolored-IsRb n (right_of black l a) p (node black cl b cr) s u k h = elim h [ ]
  recolored-IsRb n (left_of black a r) p (node black cl b cr) s u k h = elim h [ ]
  recolored-IsRb n (right_of black leaf a) p (node red cl b cr) s u k h = cc
  recolored-IsRb n (right_of black (node black ll y lr) a) p (node red cl b cr) s u k h = cc
  recolored-IsRb n (right_of black (node red ll y lr) a) p (node red cl b cr) s u k h =
      ((refl, refl, (k.0.2, k.0.3), (h.0, h.1)), refl, k.1)
  recolored-IsRb n (left_of black a leaf) p (node red cl b cr) s u k h = cc
  recolored-IsRb n (left_of black a (node black ll y lr)) p (node red cl b cr) s u k h = cc
  recolored-IsRb n (left_of black a (node red ll y lr)) p (node red cl b cr) s u k h =
      ((refl, refl, (h.0, h.1), (k.0.2, k.0.3)), refl, k.1)

  -- The next round: the grandparent is black and in order, or red with one red child.
  fill-Loops :
      (n : ℕ) (g : Frame A) (p : List (Frame A)) (t : Tree A)
      → IsRb n t
      → IsPath n (g ∷ p)
      → (m : ℕ) × IsPath m p × Loops m (fill g t) p
  fill-Loops n (left_of black a r) p t h k = (suc n, k.1, inl (refl, (h, k.0)))
  fill-Loops n (right_of black l a) p t h k = (suc n, k.1, inl (refl, (k.0, h)))
  fill-Loops n (left_of red a r) p t h k = (n, k.3, inr ((h, k.1, inr k.0), k.2))
  fill-Loops n (right_of red l a) p t h k = (n, k.3, inr ((k.1, h, inl k.0), k.2))

  not-black : (n : ℕ) (cur : Tree A) → Almost n cur → is_black cur ≡ false
  not-black n (node red l a r) h = refl
  not-black n leaf h = elim h [ ]
  not-black n (node black l a r) h = elim h [ ]

  balance-Balanced :
      (n : ℕ) (cur : Tree A) (p : List (Frame A))
      → IsPath n p
      → Loops n cur p
      → Balanced (balance cur p)
  unfolding balance
  balance-Balanced n cur [] k (inl (b, h)) = rw b (balanced (black_root n cur h))
  balance-Balanced n cur [] k (inr (h, u)) = elim u [ ]
  balance-Balanced n cur (f ∷ []) k (inl (b, h)) =
      rw b (balanced (zip-IsTree n cur (f ∷ []) h (inl b) k))
  balance-Balanced n cur (f ∷ []) k (inr (h, u)) = rw (not-black n cur h) (
      by_test Balanced (not (is_black (sibling f))) _ _
        (λ e. balanced (
          black_root (suc n) (recolored f cur)
            (recolored-IsRb n f [] cur (ground (arith, e)) u k h).0))
        (λ e. balanced (
          black_root (suc n) (rotated f cur)
            (rotated-IsRb n f [] cur (ground (arith, e)) u k h).0)))
  balance-Balanced n cur (f ∷ g ∷ p) k (inl (b, h)) =
      rw b (balanced (zip-IsTree n cur (f ∷ g ∷ p) h (inl b) k))
  balance-Balanced n cur (f ∷ g ∷ p) k (inr (h, u)) = rw (not-black n cur h) (
      by_test Balanced (not (is_black (sibling f))) _ _
        (λ e.
          let up = recolored-IsRb n f (g ∷ p) cur (ground (arith, e)) u k h in
          let (m, path, loops) = fill-Loops (suc n) g p (recolored f cur) up.0 up.2 in
          balance-Balanced m (fill g (recolored f cur)) p path loops)
        (λ e.
          let top = rotated-IsRb n f (g ∷ p) cur (ground (arith, e)) u k h in
          balanced (zip-IsTree (suc n) (rotated f cur) (g ∷ p) top.0 (inl top.1) top.2)))

  descend-IsPath :
      (before : A → Bool) (n : ℕ) (t : Tree A) (p : List (Frame A))
      → IsRb n t
      → (is_black t ≡ true) ⊎ BlackAbove p
      → IsPath n p
      → IsPath 0 (descend before t p)
  unfolding descend
  descend-IsPath before zero leaf p h b k = k
  descend-IsPath before (suc n) leaf p h b k = cc
  descend-IsPath before zero (node black l a r) p h b k = elim h [ ]
  descend-IsPath before (suc n) (node black l a r) p h b k =
      by_test (IsPath 0) (before a) _ _
        (λ e. descend-IsPath before n l (left_of black a r ∷ p) h.0 (inr tt) (h.1, k))
        (λ e. descend-IsPath before n r (right_of black l a ∷ p) h.1 (inr tt) (h.0, k))
  descend-IsPath before n (node red l a r) p h (inl b) k = cc
  descend-IsPath before n (node red l a r) p h (inr b) k =
      by_test (IsPath 0) (before a) _ _
        (λ e. descend-IsPath before n l (left_of red a r ∷ p) h.2 (inl h.0) (h.1, h.3, b, k))
        (λ e. descend-IsPath before n r (right_of red l a ∷ p) h.3 (inl h.1) (h.0, h.2, b, k))

  -- A tree that a node was added to.
  pub data Adds : Option (Tree A) → Type ℓ where
    adds : {t : Tree A} → IsTree t → Adds (some t)

  blacken-Adds : (r : Option (Tree A)) → Balanced r → Adds (blacken r)
  blacken-Adds none x = elim x [ ]
  blacken-Adds (some t) (balanced h) = adds h

  add_at-Balanced : (x : A) (p : List (Frame A)) → IsPath 0 p → Balanced (add_at x p)
  add_at-Balanced x [] k = balanced (record { height = 1; is_rb = (refl, refl); root_black = refl })
  add_at-Balanced x (f ∷ p) k =
      let (m, path, loops) = fill-Loops 0 f p (node red leaf x leaf) (refl, refl, refl, refl) k in
      balance-Balanced m (fill f (node red leaf x leaf)) p path loops

  -- `RBTree_Add` never takes the root sentinel for a parent, and leaves a red-black tree: the root is
  -- black, no red node has a red child, and each way down has as many black nodes. The tree was one.
  pub add-Adds :
      (less_than : A → A → Bool) (x : A) (t : Tree A) → IsTree t → Adds (add less_than x t)
  unfolding add
  add-Adds less_than x t h = blacken-Adds _ (
      add_at-Balanced x (descend (less_than x) t [])
        (descend-IsPath (less_than x) h.height t [] h.is_rb (inl h.root_black) tt))
