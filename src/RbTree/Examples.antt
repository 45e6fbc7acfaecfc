-- ===== src/RbTree/Examples.antt =====
-- src/Contained_RBTree.c: the theorems at a tree of numbers, and tests.
use daemonproxy.Common.{ℕ, some, [], ◌∷◌, ◌≡◌, refl, arith, ltb, if◌then◌else◌}
use daemonproxy.Strseg.{Order, less, same, greater}
use daemonproxy.RbTree.{Tree, leaf, node, red, black, left_of, add, find, balance, descend, to_list}
use daemonproxy.RbTree.Balance.{IsTree}
use daemonproxy.RbTree.Contents.{IsOrder, AreSorted}
use daemonproxy.RbTree.Add.{Inserted, add-Inserted}
use daemonproxy.RbTree.Find.{Finds, AreSplit, find-Finds}
use daemonproxy.RbTree.Spot.{
  Spot, whole, rest, Steps, get_next, get_next-Steps, leftmost, rightmost,
}
use daemonproxy.RbTree.Prune.{prune, prune_in, prune_leaf, fix}
use daemonproxy.RbTree.Prune.Removes.{Removed, prune-Removed}

abbrev single : ℕ → Tree ℕ
single n = node black leaf n leaf

abbrev five : Tree ℕ
five = node black (single 1) 2 (node red (single 3) 4 (single 6))

five-IsTree : IsTree five
five-IsTree = record {
  height = 2;
  is_rb = ((refl, refl), (refl, refl, (refl, refl), (refl, refl)));
  root_black = refl;
}

ltb-IsOrder : IsOrder ltb
ltb-IsOrder = record { asym = λ a b h. ground arith; not_less_trans = λ a b c h k. ground arith }

five-AreSorted : AreSorted ltb (to_list five)
five-AreSorted = (
  (refl, (refl, (refl, (refl, tt)))),
  ((refl, (refl, (refl, tt))), ((refl, (refl, tt)), ((refl, tt), (tt, tt)))),
)

-- The red sibling of a red parent is recolored.
added :
    add ltb 7 five
    ≡ some
        (node black (single 1) 2 (node red (single 3) 4 (node black leaf 6 (node red leaf 7 leaf))))
unfolding add balance descend
added = refl

-- Three in order are rotated.
rotated_up :
    add ltb 9 (node black leaf 7 (node red leaf 8 leaf))
    ≡ some (node black (node red leaf 7 leaf) 8 (node red leaf 9 leaf))
unfolding add balance descend
rotated_up = refl

add-Inserted_example : Inserted ltb 5 five (add ltb 5 five)
add-Inserted_example = add-Inserted ltb 5 five ltb-IsOrder five-IsTree five-AreSorted

abbrev to_five : ℕ → Order
to_five n = if ltb 5 n then less else if ltb n 5 then greater else same

-- The search for a missing 5 ends at 6.
found : find to_five five ≡ some (6, less)
unfolding find
found = refl

five-AreSplit : AreSplit to_five (to_list five)
five-AreSplit =
    ((tt, (tt, (tt, (tt, tt)))), ((tt, (tt, (tt, tt))), ((tt, (tt, tt)), ((tt, tt), (tt, tt)))))

find-Finds_example : Finds to_five (to_list five) (find to_five five)
find-Finds_example = find-Finds to_five five five-AreSplit

-- The node of 1, below the root.
abbrev first_spot : Spot ℕ
first_spot = record {
  color = black;
  left = leaf;
  obj = 1;
  right = leaf;
  up = left_of black 2 (node red (single 3) 4 (single 6)) ∷ [];
}

get_next-Steps_example : Steps (whole first_spot) (rest first_spot) (get_next first_spot)
get_next-Steps_example = get_next-Steps first_spot

-- Its sibling is red.
pruned :
    prune first_spot ≡ some (node black (node black leaf 2 (node red leaf 3 leaf)) 4 (single 6))
unfolding prune_in prune_leaf fix leftmost rightmost
pruned = refl

prune-Removed_example : Removed first_spot (prune first_spot)
prune-Removed_example = prune-Removed first_spot five-IsTree
