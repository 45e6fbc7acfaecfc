-- ===== src/RbTree/Prune/Balance.antt =====
-- src/Contained_RBTree.c: a tree stays red-black as a node is taken out.
use daemonproxy.Common.{
  ℕ, zero, suc, Bool, true, false, not, ◌&&◌, some, List, [], ◌∷◌, ◌++◌, ◌≡◌, refl, arith, ◌⊎◌, inl,
  inr, by_test,
}
use daemonproxy.RbTree.{
  Color, red, black, Tree, leaf, node, Frame, left_of, right_of, is_black, set_color, left_child,
  right_child, zip, sibling,
}
use daemonproxy.RbTree.Balance.{IsRb, BlackAbove, IsPath, IsTree, zip-Whole, Adds, adds}
use daemonproxy.RbTree.Spot.{Spot, leftmost, rightmost}
use daemonproxy.RbTree.Prune.{
  is_leaf, moved, nephews_black, settled, inner, outer, fix_last, fix, prune_leaf, is_black_leaf,
  prune_in, prune,
}

both : (a b : Bool) → (a && b) ≡ true → (a ≡ true) × (b ≡ true)
both a b e = ground (arith, e)

module _ {ℓ} {A : Type ℓ} where
  -- A subtree that fits its place.
  pub record Fits (u : Tree A) (p : List (Frame A)) : Type 0 where
    pub height : ℕ
    pub is_rb : IsRb height u
    pub colors : (is_black u ≡ true) ⊎ BlackAbove p
    pub path : IsPath height p

  fitting : (u : Tree A) (p : List (Frame A)) → Fits u p → Adds (some (zip u p))
  fitting u p h = adds (zip-Whole h.height u p h.is_rb h.colors h.path)

  -- The parent's place, with black children.
  Fits-left :
      (c : Color) (n : ℕ) (a : A) (s : Tree A) (p : List (Frame A)) (u : Tree A) (x : A)
      (v : Tree A)
      → IsPath n (left_of c a s ∷ p)
      → IsRb n u
      → is_black u ≡ true
      → IsRb n v
      → is_black v ≡ true
      → Fits (node c u x v) p
  Fits-left red n a s p u x v k hu bu hv bv = record {
    height = n;
    is_rb = (bu, bv, hu, hv);
    colors = inr k.2;
    path = k.3;
  }
  Fits-left black n a s p u x v k hu bu hv bv = record {
    height = suc n;
    is_rb = (hu, hv);
    colors = inl refl;
    path = k.1;
  }

  Fits-right :
      (c : Color) (n : ℕ) (s : Tree A) (a : A) (p : List (Frame A)) (u : Tree A) (x : A)
      (v : Tree A)
      → IsPath n (right_of c s a ∷ p)
      → IsRb n u
      → is_black u ≡ true
      → IsRb n v
      → is_black v ≡ true
      → Fits (node c u x v) p
  Fits-right red n s a p u x v k hu bu hv bv = record {
    height = n;
    is_rb = (bu, bv, hu, hv);
    colors = inr k.2;
    path = k.3;
  }
  Fits-right black n s a p u x v k hu bu hv bv = record {
    height = suc n;
    is_rb = (hu, hv);
    colors = inl refl;
    path = k.1;
  }

  sibling-IsRb : (n : ℕ) (f : Frame A) (p : List (Frame A)) → IsPath n (f ∷ p) → IsRb n (sibling f)
  sibling-IsRb n (left_of red a s) p k = k.1
  sibling-IsRb n (left_of black a s) p k = k.0
  sibling-IsRb n (right_of red s a) p k = k.1
  sibling-IsRb n (right_of black s a) p k = k.0

  sibling-not_leaf : (n : ℕ) (s : Tree A) → IsRb (suc n) s → is_leaf s ≡ false
  sibling-not_leaf n leaf h = cc
  sibling-not_leaf n (node c l a r) h = refl

  -- A rotation ends the loop: the lacking black node is there.
  settled-Fits :
      (n : ℕ) (t : Tree A) (f : Frame A) (p : List (Frame A))
      → IsRb n t
      → is_black (sibling f) ≡ true
      → nephews_black f ≡ false
      → IsRb (suc n) (sibling f)
      → IsPath (suc n) (f ∷ p)
      → Fits (settled f t) p
  settled-Fits n t (left_of c a leaf) p ht b e h k = cc
  settled-Fits n t (left_of c a (node red sl x sr)) p ht b e h k = cc
  settled-Fits n t (left_of c a (node black sl x (node red r1 y r2))) p ht b e h k =
      Fits-left c (suc n) a _ p (node black t a sl) x (node black r1 y r2) k (ht, h.0) refl
        (h.1.2, h.1.3) refl
  settled-Fits n t (left_of c a (node black leaf x leaf)) p ht b e h k = cc
  settled-Fits n t (left_of c a (node black (node black l1 y l2) x leaf)) p ht b e h k = cc
  settled-Fits n t (left_of c a (node black (node red l1 y l2) x leaf)) p ht b e h k =
      Fits-left c (suc n) a _ p (node black t a l1) y (node black l2 x leaf) k (ht, h.0.2) refl
        (h.0.3, h.1) refl
  settled-Fits n t (left_of c a (node black leaf x (node black r1 z r2))) p ht b e h k = cc
  settled-Fits n t (left_of c a (node black (node black l1 y l2) x (node black r1 z r2))) p ht b e h
        k =
      cc
  settled-Fits n t (left_of c a (node black (node red l1 y l2) x (node black r1 z r2))) p ht b e h
        k =
      Fits-left c (suc n) a _ p (node black t a l1) y (node black l2 x (node black r1 z r2)) k
        (ht, h.0.2) refl (h.0.3, h.1) refl
  settled-Fits n t (right_of c leaf a) p ht b e h k = cc
  settled-Fits n t (right_of c (node red sl x sr) a) p ht b e h k = cc
  settled-Fits n t (right_of c (node black (node red l1 y l2) x sr) a) p ht b e h k =
      Fits-right c (suc n) _ a p (node black l1 y l2) x (node black sr a t) k (h.0.2, h.0.3) refl
        (h.1, ht) refl
  settled-Fits n t (right_of c (node black leaf x leaf) a) p ht b e h k = cc
  settled-Fits n t (right_of c (node black leaf x (node black r1 y r2)) a) p ht b e h k = cc
  settled-Fits n t (right_of c (node black leaf x (node red r1 y r2)) a) p ht b e h k =
      Fits-right c (suc n) _ a p (node black leaf x r1) y (node black r2 a t) k (h.0, h.1.2) refl
        (h.1.3, ht) refl
  settled-Fits n t (right_of c (node black (node black l1 z l2) x leaf) a) p ht b e h k = cc
  settled-Fits n t (right_of c (node black (node black l1 z l2) x (node black r1 y r2)) a) p ht b e
        h k =
      cc
  settled-Fits n t (right_of c (node black (node black l1 z l2) x (node red r1 y r2)) a) p ht b e h
        k =
      Fits-right c (suc n) _ a p (node black (node black l1 z l2) x r1) y (node black r2 a t) k
        (h.0, h.1.2) refl (h.1.3, ht) refl

  -- The node of the loop lacks a black node, or is red and would not as a black one.
  abbrev Lacks : ℕ → Tree A → List (Frame A) → Type 0
  Lacks n t p =
      IsPath (suc n) p
      × ((is_black t ≡ true) × IsRb n t ⊎ (is_black t ≡ false) × IsRb (suc n) (set_color black t))

  -- The sibling of case 2a, as a red node.
  red-IsRb :
      (n : ℕ) (s : Tree A)
      → is_black s ≡ true
      → is_black (right_child s) ≡ true
      → is_black (left_child s) ≡ true
      → IsRb (suc n) s
      → IsRb n (set_color red s)
  red-IsRb n leaf b r l h = cc
  red-IsRb n (node red sl x sr) b r l h = cc
  red-IsRb n (node black sl x sr) b r l h = (l, r, h.0, h.1)

  moved-Lacks :
      (n : ℕ) (t : Tree A) (f : Frame A) (p : List (Frame A))
      → IsRb n t
      → IsRb n (set_color red (sibling f))
      → IsPath (suc n) (f ∷ p)
      → (m : ℕ) × Lacks m (moved f t) p
  moved-Lacks n t (left_of black a s) p ht hs k = (suc n, (k.1, inl (refl, (ht, hs))))
  moved-Lacks n t (right_of black s a) p ht hs k = (suc n, (k.1, inl (refl, (hs, ht))))
  moved-Lacks n t (left_of red a s) p ht hs k = (n, (k.3, inr (refl, (ht, hs))))
  moved-Lacks n t (right_of red s a) p ht hs k = (n, (k.3, inr (refl, (hs, ht))))

  moved-Fits :
      (n : ℕ) (t : Tree A) (f : Frame A) (p : List (Frame A))
      → IsRb n t
      → IsRb n (set_color red (sibling f))
      → IsPath (suc n) p
      → Fits (set_color black (moved f t)) p
  moved-Fits n t (left_of c a s) p ht hs k = record {
    height = suc n;
    is_rb = (ht, hs);
    colors = inl refl;
    path = k;
  }
  moved-Fits n t (right_of c s a) p ht hs k = record {
    height = suc n;
    is_rb = (hs, ht);
    colors = inl refl;
    path = k;
  }

  -- Case 1 leaves the node below a red parent with a black sibling.
  case_1 :
      (n : ℕ) (f : Frame A) (p : List (Frame A))
      → is_black (sibling f) ≡ false
      → IsPath (suc n) (f ∷ p)
      → IsPath (suc n) (inner f ∷ (outer f ++ p))
        × (is_black (sibling (inner f)) ≡ true)
        × IsPath (suc n) (outer f ++ p)
  case_1 n (left_of c a leaf) p b k = cc
  case_1 n (left_of c a (node black sl x sr)) p b k = cc
  case_1 n (left_of red a (node red sl x sr)) p b k = cc
  case_1 n (left_of black a (node red sl x sr)) p b k =
      ((k.0.0, k.0.2, tt, (k.0.3, k.1)), k.0.0, (k.0.3, k.1))
  case_1 n (right_of c leaf a) p b k = cc
  case_1 n (right_of c (node black sl x sr) a) p b k = cc
  case_1 n (right_of red (node red sl x sr) a) p b k = cc
  case_1 n (right_of black (node red sl x sr) a) p b k =
      ((k.0.1, k.0.3, tt, (k.0.2, k.1)), k.0.1, (k.0.2, k.1))

  fix_last-Adds :
      (n : ℕ) (t : Tree A) (f : Frame A) (p : List (Frame A))
      → IsRb n t
      → is_black (sibling f) ≡ true
      → IsPath (suc n) (f ∷ p)
      → IsPath (suc n) p
      → Adds (fix_last f t p)
  fix_last-Adds n t f p ht b k q =
      let hs = sibling-IsRb (suc n) f p k in
      rw (sibling-not_leaf n (sibling f) hs, b)
        (by_test Adds (nephews_black f) _ _
          (λ e.
            let (far, near) =
              both (is_black (right_child (sibling f))) (is_black (left_child (sibling f))) e in
            fitting _ p (moved-Fits n t f p ht (red-IsRb n (sibling f) b far near hs) q))
          (λ e. fitting _ p (settled-Fits n t f p ht b e hs k)))

  fix-Adds : (n : ℕ) (t : Tree A) (p : List (Frame A)) → Lacks n t p → Adds (fix t p)
  unfolding fix
  fix-Adds n t [] (k, inr (b, h)) =
      fitting (set_color black t) []
        (record { height = suc n; is_rb = h; colors = inl (blackened t); path = tt })
    where
      blackened : (t : Tree A) → is_black (set_color black t) ≡ true
      blackened leaf = refl
      blackened (node c l a r) = refl
  fix-Adds n leaf [] (k, inl (b, h)) = adds (record { height = n; is_rb = h; root_black = refl })
  fix-Adds n (node black l a r) [] (k, inl (b, h)) =
      adds (record { height = n; is_rb = h; root_black = refl })
  fix-Adds n (node red l a r) [] (k, inl (b, h)) = cc
  fix-Adds n leaf (f ∷ p) (k, inr (b, h)) = cc
  fix-Adds n (node black l a r) (f ∷ p) (k, inr (b, h)) = cc
  fix-Adds n (node red l a r) (f ∷ p) (k, inr (b, h)) =
      fitting (node black l a r) (f ∷ p)
        (record { height = suc n; is_rb = h; colors = inl refl; path = k })
  fix-Adds n t (f ∷ p) (k, inl (b, h)) =
      let hs = sibling-IsRb (suc n) f p k in
      rw (b, sibling-not_leaf n (sibling f) hs)
        (by_test Adds (not (is_black (sibling f))) _ _
          (λ e.
            let c = case_1 n f p (ground (arith, e)) k in
            fix_last-Adds n t (inner f) (outer f ++ p) h c.1 c.0 c.2)
          (λ e.
            by_test Adds (nephews_black f) _ _
              (λ w.
                let (far, near) =
                  both (is_black (right_child (sibling f))) (is_black (left_child (sibling f))) w in
                let (m, lacks) =
                  moved-Lacks n t f p h (red-IsRb n (sibling f) (ground (arith, e)) far near hs)
                    k in
                fix-Adds m (moved f t) p lacks)
              (λ w. fitting _ p (settled-Fits n t f p h (ground (arith, e)) w hs k))))

  -- With a leaf on one side, the other is a leaf or a red node.
  prune_leaf-Adds :
      (c : Color) (l : Tree A) (a : A) (r : Tree A) (p : List (Frame A))
      → Fits (node c l a r) p
      → (is_leaf l ≡ true) ⊎ (is_leaf r ≡ true)
      → Adds (prune_leaf c l r p)
  unfolding prune_leaf
  prune_leaf-Adds red leaf a r p h e =
      fitting leaf p
        (record { height = h.height; is_rb = h.is_rb.2; colors = inl refl; path = h.path })
  prune_leaf-Adds red (node d l b m) a leaf p h e =
      fitting leaf p
        (record { height = h.height; is_rb = h.is_rb.3; colors = inl refl; path = h.path })
  prune_leaf-Adds red (node d l b m) a (node f n x r) p h (inl e) = cc
  prune_leaf-Adds red (node d l b m) a (node f n x r) p h (inr e) = cc
  prune_leaf-Adds black l a r p h e = by_height h.height l r h.is_rb h.path e
    where
      by_height :
          (n : ℕ) (l r : Tree A)
          → IsRb n (node black l a r)
          → IsPath n p
          → (is_leaf l ≡ true) ⊎ (is_leaf r ≡ true)
          → Adds (prune_leaf black l r p)
      by_height zero l r h k e = elim h [ ]
      by_height (suc n) leaf leaf h k e = fix-Adds n leaf p (k, inl (refl, h.0))
      by_height (suc n) leaf (node red rl b rr) h k e =
          fitting (node black rl b rr) p
            (record { height = suc n; is_rb = (h.1.2, h.1.3); colors = inl refl; path = k })
      by_height (suc zero) leaf (node black rl b rr) h k e = elim (h.1) [ ]
      by_height (suc (suc n)) leaf (node black rl b rr) h k e = cc
      by_height (suc n) (node red ll b lr) r h k e =
          fitting (node black ll b lr) p
            (record { height = suc n; is_rb = (h.0.2, h.0.3); colors = inl refl; path = k })
      by_height (suc zero) (node black ll b lr) r h k e = elim (h.0) [ ]
      by_height (suc (suc n)) (node black ll b lr) leaf h k e = cc
      by_height (suc (suc n)) (node black ll b lr) (node f rl x rr) h k (inl e) = cc
      by_height (suc (suc n)) (node black ll b lr) (node f rl x rr) h k (inr e) = cc

  -- A subtree of a fitting one fits; the object of the parent does not matter.
  pub left-Fits :
      (c : Color) (l : Tree A) (a x : A) (r : Tree A) (p : List (Frame A))
      → Fits (node c l a r) p
      → Fits l (left_of c x r ∷ p)
  left-Fits red l a x r p h = elim (h.colors) [
    | inl b ↦ cc
    | inr b ↦ record {
      height = h.height;
      is_rb = h.is_rb.2;
      colors = inl (h.is_rb.0);
      path = (h.is_rb.1, h.is_rb.3, b, h.path);
    }
  ]
  left-Fits black l a x r p h = by_height h.height h.is_rb h.path
    where
      by_height : (n : ℕ) → IsRb n (node black l a r) → IsPath n p → Fits l (left_of black x r ∷ p)
      by_height zero h k = elim h [ ]
      by_height (suc n) h k = record { height = n; is_rb = h.0; colors = inr tt; path = (h.1, k) }

  pub right-Fits :
      (c : Color) (l : Tree A) (a x : A) (r : Tree A) (p : List (Frame A))
      → Fits (node c l a r) p
      → Fits r (right_of c l x ∷ p)
  right-Fits red l a x r p h = elim (h.colors) [
    | inl b ↦ cc
    | inr b ↦ record {
      height = h.height;
      is_rb = h.is_rb.3;
      colors = inl (h.is_rb.1);
      path = (h.is_rb.0, h.is_rb.2, b, h.path);
    }
  ]
  right-Fits black l a x r p h = by_height h.height h.is_rb h.path
    where
      by_height : (n : ℕ) → IsRb n (node black l a r) → IsPath n p → Fits r (right_of black l x ∷ p)
      by_height zero h k = elim h [ ]
      by_height (suc n) h k = record { height = n; is_rb = h.1; colors = inr tt; path = (h.0, k) }

  leftmost-Adds :
      (c : Color) (l : Tree A) (a : A) (r : Tree A) (p : List (Frame A))
      → Fits (node c l a r) p
      → let s = leftmost c l a r p in Adds (prune_leaf s.color s.left s.right s.up)
  unfolding leftmost
  leftmost-Adds c leaf a r p h = prune_leaf-Adds c leaf a r p h (inl refl)
  leftmost-Adds c (node d l b m) a r p h =
      leftmost-Adds d l b m (left_of c a r ∷ p) (left-Fits c (node d l b m) a a r p h)

  rightmost-Adds :
      (c : Color) (l : Tree A) (a : A) (r : Tree A) (p : List (Frame A))
      → Fits (node c l a r) p
      → let s = rightmost c l a r p in Adds (prune_leaf s.color s.left s.right s.up)
  unfolding rightmost
  rightmost-Adds c l a leaf p h = prune_leaf-Adds c l a leaf p h (inr refl)
  rightmost-Adds c l a (node d m b r) p h =
      rightmost-Adds d m b r (right_of c l a ∷ p) (right-Fits c l a a (node d m b r) p h)

  prune_in-Adds :
      (c : Color) (l : Tree A) (a : A) (r : Tree A) (p : List (Frame A))
      → Fits (node c l a r) p
      → Adds (prune_in c l a r p)
  unfolding prune_in
  prune_in-Adds c leaf a r p h = prune_leaf-Adds c leaf a r p h (inl refl)
  prune_in-Adds c (node d l b m) a leaf p h = prune_leaf-Adds c (node d l b m) a leaf p h (inr refl)
  prune_in-Adds c (node d l b m) a (node e n x r) p h =
      by_test Adds (is_black_leaf (leftmost e n x r [])) _ _
        (λ q.
          rightmost-Adds d l b m (left_of c (rightmost d l b m []).obj (node e n x r) ∷ p)
            (left-Fits c (node d l b m) a _ (node e n x r) p h))
        (λ q.
          leftmost-Adds e n x r (right_of c (node d l b m) (leftmost e n x r []).obj ∷ p)
            (right-Fits c (node d l b m) a _ (node e n x r) p h))

  -- Each subtree of a red-black tree fits its place.
  pub unzip : (t : Tree A) (p : List (Frame A)) → IsTree (zip t p) → Fits t p
  unzip t [] h = record {
    height = h.height;
    is_rb = h.is_rb;
    colors = inl (h.root_black);
    path = tt;
  }
  unzip t (left_of c a r ∷ p) h = left-Fits c t a a r p (unzip (node c t a r) p h)
  unzip t (right_of c l a ∷ p) h = right-Fits c l a a t p (unzip (node c l a t) p h)

  pub prune-Adds :
      (s : Spot A) → IsTree (zip (node s.color s.left s.obj s.right) s.up) → Adds (prune s)
  prune-Adds s h =
      prune_in-Adds s.color s.left s.obj s.right s.up
        (unzip (node s.color s.left s.obj s.right) s.up h)
