-- ===== src/RbTree/Add.antt =====
-- src/Contained_RBTree.c, `RBTree_Add`: a sorted insertion that keeps the tree balanced.
use daemonproxy.Common.{
  Bool, false, Option, some, none, List, [], ◌∷◌, All, ◌≡◌, sym, subst, Bool-cases, inl, inr,
}
use daemonproxy.RbTree.{Tree, add, to_list}
use daemonproxy.RbTree.Contents.{IsOrder, insert_sorted, AreSorted, Lists, add-Lists}
use daemonproxy.RbTree.Balance.{IsTree, Adds, adds, add-Adds}

module _ {ℓ} {A : Type ℓ} where
  -- A result of `RBTree_Add`.
  pub data Inserted (less_than : A → A → Bool) (x : A) (t : Tree A) : Option (Tree A) → Type ℓ where
    inserted :
        {u : Tree A}
        → IsTree u
        → to_list u ≡ insert_sorted less_than x (to_list t)
        → AreSorted less_than (to_list u)
        → Inserted less_than x t (some u)

  All-insert :
      (less_than : A → A → Bool) (x y : A) (ys : List A)
      → less_than x y ≡ false
      → All (λ z. less_than z y ≡ false) ys
      → All (λ z. less_than z y ≡ false) (insert_sorted less_than x ys)
  All-insert less_than x y [] e h = (e, tt)
  All-insert less_than x y (z ∷ zs) e h = elim (Bool-cases (less_than x z)) [
    | inl l ↦ rw l (e, h)
    | inr l ↦ rw l (h.0, All-insert less_than x y zs e h.1)
  ]

  All-behind :
      (less_than : A → A → Bool) (x y : A) (ys : List A)
      → IsOrder less_than
      → less_than y x ≡ false
      → All (λ z. less_than z y ≡ false) ys
      → All (λ z. less_than z x ≡ false) ys
  All-behind less_than x y [] o e h = tt
  All-behind less_than x y (z ∷ zs) o e h =
      (o.not_less_trans z y x h.0 e, All-behind less_than x y zs o e h.1)

  pub insert_sorted-AreSorted :
      (less_than : A → A → Bool) (x : A) (ys : List A)
      → IsOrder less_than
      → AreSorted less_than ys
      → AreSorted less_than (insert_sorted less_than x ys)
  insert_sorted-AreSorted less_than x [] o s = (tt, tt)
  insert_sorted-AreSorted less_than x (y ∷ ys) o s = elim (Bool-cases (less_than x y)) [
    | inl l ↦ rw l ((o.asym x y l, All-behind less_than x y ys o (o.asym x y l) s.0), s)
    | inr l ↦ rw l (All-insert less_than x y ys l s.0, insert_sorted-AreSorted less_than x ys o s.1)
  ]

  Adds-Inserted :
      (less_than : A → A → Bool) (x : A) (t : Tree A) (r : Option (Tree A))
      → IsOrder less_than
      → AreSorted less_than (to_list t)
      → Adds r
      → Lists (insert_sorted less_than x (to_list t)) r
      → Inserted less_than x t r
  Adds-Inserted less_than x t none o s h e = elim h [ ]
  Adds-Inserted less_than x t (some u) o s (adds h) e =
      inserted h e
        (subst (AreSorted less_than) (sym e) (insert_sorted-AreSorted less_than x (to_list t) o s))

  -- `RBTree_Add` is sorted insertion: the objects of the new tree are those of the old one and the new
  -- one, in order, the new one behind those equal to it. The tree stays red-black, and no round of the
  -- balance takes the root sentinel for a parent. The tree was red-black and its objects in order, and
  -- the comparison is an order, in which objects may be equal.
  pub add-Inserted :
      (less_than : A → A → Bool) (x : A) (t : Tree A)
      → IsOrder less_than
      → IsTree t
      → AreSorted less_than (to_list t)
      → Inserted less_than x t (add less_than x t)
  add-Inserted less_than x t o h s =
      Adds-Inserted less_than x t (add less_than x t) o s (add-Adds less_than x t h)
        (add-Lists less_than x t o s)
