-- ===== src/RbTree/Prune/Contents.antt =====
-- src/Contained_RBTree.c: a node that is taken out leaves the other objects in order.
use daemonproxy.Common.{
  ℕ, zero, suc, true, not, ◌||◌, List, [], ◌∷◌, ◌++◌, if◌then◌else◌, ◌≡◌, refl, sym, ap, ◌∙◌, ◌⊎◌,
  inl, inr, by_test, append_assoc, append-nil,
}
use daemonproxy.RbTree.{
  Color, red, black, Tree, leaf, node, Frame, left_of, right_of, is_black, set_color, left_child,
  right_child, left_rotate, right_rotate, zip, fill, sibling, to_list,
}
use daemonproxy.RbTree.Balance.{IsRb}
use daemonproxy.RbTree.Contents.{
  Lists, to_list-set_color, to_list-left_rotate, to_list-right_rotate, to_list-zip,
}
use daemonproxy.RbTree.Spot.{before, behind, to_list-around}
use daemonproxy.RbTree.Prune.{
  is_leaf, moved, nephews_black, black_right, black_left, settled, inner, outer, fix_last, fix,
  prune_leaf,
}
use daemonproxy.RbTree.Prune.Balance.{Fits}

module _ {ℓ} {A : Type ℓ} where
  to_list-moved : (f : Frame A) (t : Tree A) → to_list (moved f t) ≡ to_list (fill f t)
  to_list-moved (left_of c a s) t = ap (λ u. to_list t ++ (a ∷ u)) (to_list-set_color red s)
  to_list-moved (right_of c s a) t = ap (λ u. u ++ (a ∷ to_list t)) (to_list-set_color red s)

  to_list-black_right : (t : Tree A) → to_list (black_right t) ≡ to_list t
  to_list-black_right leaf = refl
  to_list-black_right (node c l a r) = ap (λ u. to_list l ++ (a ∷ u)) (to_list-set_color black r)

  to_list-black_left : (t : Tree A) → to_list (black_left t) ≡ to_list t
  to_list-black_left leaf = refl
  to_list-black_left (node c l a r) = ap (λ u. u ++ (a ∷ to_list r)) (to_list-set_color black l)

  to_list-settled : (f : Frame A) (t : Tree A) → to_list (settled f t) ≡ to_list (fill f t)
  to_list-settled (left_of c a s) t =
      let near = if is_black (right_child s) then right_rotate s else s in
      to_list-left_rotate (node black t a (set_color c (black_right near)))
      ∙ ap (λ u. to_list t ++ (a ∷ u))
          (to_list-set_color c (black_right near)
            ∙ to_list-black_right near
            ∙ by_test (λ u. to_list u ≡ to_list s) (is_black (right_child s)) (right_rotate s) s
                (λ e. to_list-right_rotate s) (λ e. refl))
  to_list-settled (right_of c s a) t =
      let near = if is_black (left_child s) then left_rotate s else s in
      to_list-right_rotate (node black (set_color c (black_left near)) a t)
      ∙ ap (λ u. u ++ (a ∷ to_list t))
          (to_list-set_color c (black_left near)
            ∙ to_list-black_left near
            ∙ by_test (λ u. to_list u ≡ to_list s) (is_black (left_child s)) (left_rotate s) s
                (λ e. to_list-left_rotate s) (λ e. refl))

  zip-case_1 :
      (f : Frame A) (t : Tree A) (p : List (Frame A))
      → to_list (zip t (inner f ∷ (outer f ++ p))) ≡ to_list (zip t (f ∷ p))
  zip-case_1 (left_of c a leaf) t p = to_list-zip (node red t a leaf) (node c t a leaf) p refl
  zip-case_1 (left_of c a (node d sl x sr)) t p =
      to_list-zip (node black (node red t a sl) x sr) (node c t a (node d sl x sr)) p
        (append_assoc (to_list t) (a ∷ to_list sl) (x ∷ to_list sr))
  zip-case_1 (right_of c leaf a) t p = to_list-zip (node red leaf a t) (node c leaf a t) p refl
  zip-case_1 (right_of c (node d sl x sr) a) t p =
      to_list-zip (node black sl x (node red sr a t)) (node c (node d sl x sr) a t) p
        (sym (append_assoc (to_list sl) (x ∷ to_list sr) (a ∷ to_list t)))

  fix_last-Lists :
      (f : Frame A) (t : Tree A) (p : List (Frame A)) (xs : List A)
      → to_list (zip t (f ∷ p)) ≡ xs
      → Lists xs (fix_last f t p)
  fix_last-Lists f t p xs e =
      by_test (Lists xs) (is_leaf (sibling f) || not (is_black (sibling f))) _ _ (λ q. tt)
        (λ q.
          by_test (Lists xs) (nephews_black f) _ _
            (λ w.
              to_list-zip (set_color black (moved f t)) (fill f t) p
                (to_list-set_color black (moved f t) ∙ to_list-moved f t)
              ∙ e)
            (λ w. to_list-zip (settled f t) (fill f t) p (to_list-settled f t) ∙ e))

  fix-Lists :
      (t : Tree A) (p : List (Frame A)) (xs : List A) → to_list (zip t p) ≡ xs → Lists xs (fix t p)
  unfolding fix
  fix-Lists t [] xs e = to_list-set_color black t ∙ e
  fix-Lists t (f ∷ p) xs e =
      by_test (Lists xs) (not (is_black t)) _ _
        (λ q. to_list-zip (set_color black t) t (f ∷ p) (to_list-set_color black t) ∙ e)
        (λ q.
          by_test (Lists xs) (is_leaf (sibling f)) _ _ (λ w. tt)
            (λ w.
              by_test (Lists xs) (not (is_black (sibling f))) _ _
                (λ b. fix_last-Lists (inner f) t (outer f ++ p) xs (zip-case_1 f t p ∙ e))
                (λ b.
                  by_test (Lists xs) (nephews_black f) _ _
                    (λ n.
                      fix-Lists (moved f t) p xs
                        (to_list-zip (moved f t) (fill f t) p (to_list-moved f t) ∙ e))
                    (λ n. to_list-zip (settled f t) (fill f t) p (to_list-settled f t) ∙ e))))

  -- A red node with a leaf on one side has one on the other.
  red_leaf : (n : ℕ) (t : Tree A) → n ≡ 0 → IsRb n t → is_black t ≡ true → to_list t ≡ []
  red_leaf n leaf e h b = refl
  red_leaf n (node red l a r) e h b = cc
  red_leaf zero (node black l a r) e h b = elim h [ ]
  red_leaf (suc n) (node black l a r) e h b = cc

  abbrev pub around : Tree A → Tree A → List (Frame A) → List A
  around l r p = (before p ++ to_list l) ++ (to_list r ++ behind p)

  around_one :
      (t l r : Tree A) (p : List (Frame A))
      → to_list t ≡ to_list l ++ to_list r
      → to_list (zip t p) ≡ around l r p
  around_one t l r p e =
      to_list-around t p
      ∙ ap (λ s. before p ++ (s ++ behind p)) e
      ∙ ap (λ s. before p ++ s) (append_assoc (to_list l) (to_list r) (behind p))
      ∙ sym (append_assoc (before p) (to_list l) (to_list r ++ behind p))

  pub prune_leaf-Lists :
      (c : Color) (l : Tree A) (a : A) (r : Tree A) (p : List (Frame A))
      → Fits (node c l a r) p
      → (is_leaf l ≡ true) ⊎ (is_leaf r ≡ true)
      → Lists (around l r p) (prune_leaf c l r p)
  unfolding prune_leaf
  prune_leaf-Lists red leaf a r p h e =
      around_one leaf leaf r p (sym (red_leaf h.height r (h.is_rb.2) (h.is_rb.3) (h.is_rb.1)))
  prune_leaf-Lists red (node d l b m) a leaf p h e = around_one leaf (node d l b m) leaf p (
      sym (
        append-nil (to_list (node d l b m))
        ∙ red_leaf h.height (node d l b m) (h.is_rb.3) (h.is_rb.2) (h.is_rb.0)))
  prune_leaf-Lists red (node d l b m) a (node f n x r) p h (inl e) = cc
  prune_leaf-Lists red (node d l b m) a (node f n x r) p h (inr e) = cc
  prune_leaf-Lists black (node d l b m) a leaf p h e =
      around_one (node black l b m) (node d l b m) leaf p
        (sym (append-nil (to_list (node d l b m))))
  prune_leaf-Lists black (node d l b m) a (node f n x r) p h (inl e) = cc
  prune_leaf-Lists black (node d l b m) a (node f n x r) p h (inr e) = cc
  prune_leaf-Lists black leaf a (node f n x r) p h e =
      around_one (node black n x r) leaf (node f n x r) p refl
  prune_leaf-Lists black leaf a leaf p h e = fix-Lists leaf p _ (around_one leaf leaf leaf p refl)
