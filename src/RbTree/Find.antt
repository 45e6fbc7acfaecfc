-- ===== src/RbTree/Find.antt =====
-- src/Contained_RBTree.c, `RBTree_Find`: what it finds among the objects in order.
use daemonproxy.Common.{
  Option, some, none, List, [], ◌∷◌, ◌++◌, All, All-append, ◌≡◌, ◌≢◌, refl, sym, ap, ◌∙◌,
  append_assoc,
}
use daemonproxy.Strseg.{Order, less, same, greater}
use daemonproxy.RbTree.{Tree, leaf, node, find, to_list}

-- Behind an object that the key is not above, it is below or at each; behind one that it is below, it
-- is below each.
abbrev Follows : Order → Order → Type 0
Follows less o = o ≡ less
Follows same o = o ≢ greater
Follows greater o = Unit

above_only : (o p : Order) → Follows o p → p ≡ greater → o ≡ greater
above_only less p f e = cc
above_only same p f e = absurd (f e)
above_only greater p f e = refl

module _ {ℓ} {A : Type ℓ} where
  -- The key's comparisons agree with the order of the objects.
  abbrev pub AreSplit : (A → Order) → List A → Type 0
  AreSplit cmp [] = Unit
  AreSplit cmp (y ∷ ys) = All (λ z. Follows (cmp y) (cmp z)) ys × AreSplit cmp ys

  abbrev pub AllAre : Order → (A → Order) → List A → Type 0
  AllAre o cmp = All (λ z. cmp z ≡ o)

  -- What the search answers: the tree is empty; an object that compares as equal; or, when the key is
  -- behind all of `pre` and before all of `post`, the neighbour on one side.
  pub data Finds (cmp : A → Order) (xs : List A) : Option (A × Order) → Type ℓ where
    empty : xs ≡ [] → Finds cmp xs none
    hit :
        (pre post : List A) (a : A)
        → xs ≡ pre ++ (a ∷ post)
        → cmp a ≡ same
        → Finds cmp xs (some (a, same))
    below :
        (pre post : List A) (a : A)
        → xs ≡ pre ++ (a ∷ post)
        → AllAre greater cmp pre
        → AllAre less cmp (a ∷ post)
        → Finds cmp xs (some (a, less))
    above :
        (pre post : List A) (a : A)
        → xs ≡ pre ++ (a ∷ post)
        → AllAre greater cmp pre
        → cmp a ≡ greater
        → AllAre less cmp post
        → Finds cmp xs (some (a, greater))

  split-left : (cmp : A → Order) (xs ys : List A) → AreSplit cmp (xs ++ ys) → AreSplit cmp xs
  split-left cmp [] ys h = tt
  split-left cmp (x ∷ xs) ys h = (all-left xs h.0, split-left cmp xs ys h.1)
    where
      all-left :
          (zs : List A)
          → All (λ z. Follows (cmp x) (cmp z)) (zs ++ ys)
          → All (λ z. Follows (cmp x) (cmp z)) zs
      all-left [] h = tt
      all-left (z ∷ zs) h = (h.0, all-left zs h.1)

  split-right : (cmp : A → Order) (xs ys : List A) → AreSplit cmp (xs ++ ys) → AreSplit cmp ys
  split-right cmp [] ys h = h
  split-right cmp (x ∷ xs) ys h = split-right cmp xs ys h.1

  -- The key is below what stands behind an object that it is below.
  less-behind :
      (cmp : A → Order) (a : A) (ys : List A)
      → cmp a ≡ less
      → AreSplit cmp (a ∷ ys)
      → AllAre less cmp ys
  less-behind cmp a ys e h = each ys h.0
    where
      each : (zs : List A) → All (λ z. Follows (cmp a) (cmp z)) zs → AllAre less cmp zs
      each [] k = tt
      each (z ∷ zs) k = (rw e at k.0, each zs k.1)

  -- The key is above what stands before an object that it is above.
  greater-before :
      (cmp : A → Order) (a : A) (xs ys : List A)
      → cmp a ≡ greater
      → AreSplit cmp (xs ++ (a ∷ ys))
      → AllAre greater cmp xs
  greater-before cmp a [] ys e h = tt
  greater-before cmp a (x ∷ xs) ys e h =
      (above_only (cmp x) (cmp a) (at_a xs h.0) e, greater-before cmp a xs ys e h.1)
    where
      at_a :
          (zs : List A)
          → All (λ z. Follows (cmp x) (cmp z)) (zs ++ (a ∷ ys))
          → Follows (cmp x) (cmp a)
      at_a [] h = h.0
      at_a (z ∷ zs) h = at_a zs h.1

  joined :
      (xs pre post ys : List A) (b : A)
      → xs ≡ pre ++ (b ∷ post)
      → xs ++ ys ≡ pre ++ (b ∷ (post ++ ys))
  joined xs pre post ys b e = ap (λ s. s ++ ys) e ∙ append_assoc pre (b ∷ post) ys

  in_left :
      (cmp : A → Order) (xs ys : List A) (a : A) (r : Option (A × Order))
      → AllAre less cmp (a ∷ ys)
      → Finds cmp xs r
      → Finds cmp (xs ++ (a ∷ ys)) (elim r [ none ↦ some (a, less) | some found ↦ some found ])
  in_left cmp xs ys a none h (empty e) = below [] ys a (ap (λ s. s ++ (a ∷ ys)) e) tt h
  in_left cmp xs ys a (some f) h (hit pre post b e s) =
      hit pre (post ++ (a ∷ ys)) b (joined xs pre post (a ∷ ys) b e) s
  in_left cmp xs ys a (some f) h (below pre post b e g l) =
      below pre (post ++ (a ∷ ys)) b (joined xs pre post (a ∷ ys) b e) g
        (l.0, All-append (λ z. cmp z ≡ less) post (a ∷ ys) l.1 h)
  in_left cmp xs ys a (some f) h (above pre post b e g m l) =
      above pre (post ++ (a ∷ ys)) b (joined xs pre post (a ∷ ys) b e) g m
        (All-append (λ z. cmp z ≡ less) post (a ∷ ys) l h)

  behind :
      (xs ys pre post : List A) (a b : A)
      → ys ≡ pre ++ (b ∷ post)
      → xs ++ (a ∷ ys) ≡ (xs ++ (a ∷ pre)) ++ (b ∷ post)
  behind xs ys pre post a b e =
      ap (λ s. xs ++ (a ∷ s)) e ∙ sym (append_assoc xs (a ∷ pre) (b ∷ post))

  in_right :
      (cmp : A → Order) (xs ys : List A) (a : A) (r : Option (A × Order))
      → AllAre greater cmp xs
      → cmp a ≡ greater
      → Finds cmp ys r
      → Finds cmp (xs ++ (a ∷ ys)) (elim r [ none ↦ some (a, greater) | some found ↦ some found ])
  in_right cmp xs ys a none h q (empty e) = above xs [] a (ap (λ s. xs ++ (a ∷ s)) e) h q tt
  in_right cmp xs ys a (some f) h q (hit pre post b e s) =
      hit (xs ++ (a ∷ pre)) post b (behind xs ys pre post a b e) s
  in_right cmp xs ys a (some f) h q (below pre post b e g l) =
      below (xs ++ (a ∷ pre)) post b (behind xs ys pre post a b e)
        (All-append (λ z. cmp z ≡ greater) xs (a ∷ pre) h (q, g)) l
  in_right cmp xs ys a (some f) h q (above pre post b e g m l) =
      above (xs ++ (a ∷ pre)) post b (behind xs ys pre post a b e)
        (All-append (λ z. cmp z ≡ greater) xs (a ∷ pre) h (q, g)) m l

  at_node :
      (cmp : A → Order) (xs ys : List A) (a : A) (o : Order) (left right : Option (A × Order))
      → cmp a ≡ o
      → AreSplit cmp (xs ++ (a ∷ ys))
      → Finds cmp xs left
      → Finds cmp ys right
      → Finds cmp (xs ++ (a ∷ ys)) (elim o [
        | less ↦ elim left [ none ↦ some (a, less) | some found ↦ some found ]
        | greater ↦ elim right [ none ↦ some (a, greater) | some found ↦ some found ]
        | same ↦ some (a, same)
      ])
  at_node cmp xs ys a less left right q s fl fr =
      in_left cmp xs ys a left (q, less-behind cmp a ys q (split-right cmp xs (a ∷ ys) s)) fl
  at_node cmp xs ys a same left right q s fl fr = hit xs ys a refl q
  at_node cmp xs ys a greater left right q s fl fr =
      in_right cmp xs ys a right (greater-before cmp a xs ys q s) q fr

  -- `RBTree_Find` answers with an object that compares as equal, if there is one. Else its answer is a
  -- neighbour of the key's place: the first object that the key is below, or the last that it is above;
  -- only for an empty tree there is none. The comparisons with the key agree with the order of the
  -- objects.
  pub find-Finds :
      (cmp : A → Order) (t : Tree A) → AreSplit cmp (to_list t) → Finds cmp (to_list t) (find cmp t)
  unfolding find
  find-Finds cmp leaf s = empty refl
  find-Finds cmp (node c l a r) s =
      at_node cmp (to_list l) (to_list r) a (cmp a) (find cmp l) (find cmp r) refl s
        (find-Finds cmp l (split-left cmp (to_list l) (a ∷ to_list r) s))
        (find-Finds cmp r (split-right cmp (to_list l) (a ∷ to_list r) s).1)
