-- ===== src/Fd/Replace.antt =====
-- src/fd.c, `fd_new_file` and `fd_new_pipe`: a new object takes the place of the one that has its name.
use daemonproxy.Common.{
  ℕ, suc, ◌<◌, Bool, true, false, ◌||◌, Option, some, none, List, [], ◌∷◌, Bytes, ◌==◌,
  if◌then◌else◌, ◌≡◌, ◌≢◌, refl, sym, ap, ◌∙◌, arith, All,
}
use daemonproxy.Strseg.{Order, less, same, greater, cmp_bytes}
use daemonproxy.Strseg.Cmp.{eq_bytes, cmp_bytes-flip, cmp_bytes_trans, cmp_bytes-same, flip}
use daemonproxy.RbTree.Contents.{insert_sorted, IsOrder, AreSorted}
use daemonproxy.RbTree.Add.{insert_sorted-AreSorted}
use daemonproxy.Fd.{
  Fd, pipe, is_less, less_name, by_name, peer_of, peer_at, remove, update, clear_peer, is_num,
}
use daemonproxy.Fd.Laws.{
  IsUnique, Keeps, All-remove, All-update, All-insert_sorted, remove-update, update-IsUnique,
  remove-AreSorted, update-AreSorted, IsPlace, remove-insert-IsUnique, changed, by_name-update,
  by_name-remove-insert, peer_at-remove, peer_at-insert,
}

-- The other end of an other end is the object itself, so no end points at an object that is gone.
abbrev pub ArePaired : List Fd → Type 0
ArePaired fs = (x y : ℕ) → peer_at x fs ≡ some y → peer_at y fs ≡ some x

-- The objects in order, their names and pointers unique, the pointers below `n`, and the pipes paired
pub record IsTable (n : ℕ) (fs : List Fd) : Type 0 where
  pub sorted : AreSorted less_name fs
  pub unique : IsUnique fs
  pub below : All (λ f. f.id < n) fs
  pub paired : ArePaired fs

not_less_bytes :
    (a b c : Bytes)
    → is_less (cmp_bytes a b) ≡ false
    → is_less (cmp_bytes b c) ≡ false
    → is_less (cmp_bytes a c) ≡ false
not_less_bytes a b c h k = by_order (cmp_bytes a c) refl (cmp_bytes a b) refl
  where
    by_order : (o : Order) → cmp_bytes a c ≡ o → (p : Order) → cmp_bytes a b ≡ p → is_less o ≡ false
    by_order same e p q = refl
    by_order greater e p q = refl
    by_order less e less q = rw q at h
    by_order less e same q = ap is_less (sym e ∙ ap (λ s. cmp_bytes s c) (cmp_bytes-same a b q)) ∙ k
    by_order less e greater q =
        ap is_less (sym (cmp_bytes_trans b a c (cmp_bytes-flip a b ∙ ap flip q) e)) ∙ k

pub less_name-IsOrder : IsOrder less_name
less_name-IsOrder = record {
  asym = λ a b h. less_asym a.name b.name h;
  not_less_trans = λ a b c h k. not_less_bytes a.name b.name c.name h k;
}
  where
    less_asym : (a b : Bytes) → is_less (cmp_bytes a b) ≡ true → is_less (cmp_bytes b a) ≡ false
    less_asym a b h = rw (cmp_bytes-flip a b) (flipped (cmp_bytes a b) h)
      where
        flipped : (o : Order) → is_less o ≡ true → is_less (flip o) ≡ false
        flipped less e = refl
        flipped same e = refl
        flipped greater e = cc

-- The object at `i` goes, whose other end is `p`, and `f` comes.
abbrev pub replace : ℕ → Option ℕ → Fd → List Fd → List Fd
replace i p f fs = remove i (clear_peer p (insert_sorted less_name f fs))

abbrev pub without_peer : Fd → Fd
without_peer f = record f { attr = pipe none }

-- Behind the loss of the other end `p`
abbrev pub cleared : Option ℕ → Option Fd → Option Fd
cleared none o = o
cleared (some j) o = changed j without_peer o

absent-peer_at : (n : ℕ) (fs : List Fd) → All (λ f. f.id < n) fs → peer_at n fs ≡ none
unfolding peer_at
absent-peer_at n [] h = refl
absent-peer_at n (f ∷ fs) h = ground (arith, absent-peer_at n fs h.1, h.0)

pub fresh : (n : ℕ) (fs : List Fd) → All (λ f. f.id < n) fs → All (λ f. f.id ≢ n) fs
fresh n [] h = tt
fresh n (f ∷ fs) h = ((λ e. ground (arith, h.0)), fresh n fs h.1)

pub keeps : Keeps without_peer
keeps f = (refl, refl)

changed-if :
    (j : ℕ) (b : Bool) (f : Fd) (o : Option Fd)
    → f.id ≢ j
    → changed j without_peer (if b then some f else o)
      ≡ (if b then some f else changed j without_peer o)
changed-if j true f o h = let other : (f.id == j) ≡ false = ground (arith, h) in rw other refl
changed-if j false f o h = refl

pub peer_at-without :
    (x j : ℕ) (fs : List Fd)
    → peer_at x (update j without_peer fs) ≡ (if x == j then none else peer_at x fs)
unfolding peer_at update
peer_at-without x j [] = ground arith
peer_at-without x j (f ∷ fs) = ground (arith, peer_at-without x j fs)

module _ (n i : ℕ) (p : Option ℕ) (f : Fd) (fs : List Fd) (t : IsTable n fs) (own : f.id ≡ n)
    (place : IsPlace i f fs) (apart : f.id ≢ i) (peer : peer_at i fs ≡ p)
    (lone : peer_of f.attr ≡ none) where
  abbrev longer : List Fd
  longer = insert_sorted less_name f fs

  is_fresh : All (λ g. g.id ≢ f.id) fs
  is_fresh = rw own (fresh n fs t.below)

  other-apart : (j : ℕ) → peer_at i fs ≡ some j → f.id ≢ j
  other-apart j e k = ground (
    arith,
    t.paired i j e,
    sym (ap (λ x. peer_at x fs) (sym own ∙ k)),
    absent-peer_at n fs t.below,
  )

  pub by_name-replace :
      (name : Bytes)
      → by_name name (replace i p f fs)
        ≡ (if eq_bytes name f.name then some f else cleared p (by_name name fs))
  by_name-replace name = by_peer p peer
    where
      found :
          by_name name (remove i longer)
          ≡ (if eq_bytes name f.name then some f else by_name name fs)
      found = by_name-remove-insert name i f fs apart place

      by_peer :
          (q : Option ℕ)
          → peer_at i fs ≡ q
          → by_name name (replace i q f fs)
            ≡ (if eq_bytes name f.name then some f else cleared q (by_name name fs))
      by_peer none e = found
      by_peer (some j) e =
          ap (by_name name) (remove-update i j without_peer longer keeps)
          ∙ by_name-update name j without_peer (remove i longer) keeps
          ∙ ap (changed j without_peer) found
          ∙ changed-if j (eq_bytes name f.name) f (by_name name fs) (other-apart j e)

  pub peer_at-replace :
      (x : ℕ)
      → peer_at x (replace i p f fs)
        ≡ (if (x == i) || (x == f.id) || is_num x p then none else peer_at x fs)
  peer_at-replace x = by_peer p peer
    where
      inserted : peer_at x longer ≡ (if x == f.id then none else peer_at x fs)
      inserted =
          peer_at-insert x f fs is_fresh
          ∙ ap (λ (o : Option ℕ). if x == f.id then o else peer_at x fs) lone

      by_peer :
          (q : Option ℕ)
          → peer_at i fs ≡ q
          → peer_at x (replace i q f fs)
            ≡ (if (x == i) || (x == f.id) || is_num x q then none else peer_at x fs)
      by_peer none e = ground (arith, peer_at-remove x i longer, inserted)
      by_peer (some j) e = ground (
        arith,
        peer_at-remove x i (update j without_peer longer),
        inserted,
        peer_at-without x j longer,
      )

  removed :
      AreSorted less_name (remove i longer)
      × IsUnique (remove i longer)
      × All (λ g. g.id < suc n) (remove i longer)
  removed = (
    remove-AreSorted i longer (insert_sorted-AreSorted less_name f fs less_name-IsOrder t.sorted),
    remove-insert-IsUnique i f fs apart place t.unique,
    All-remove _ i longer (All-insert_sorted _ f fs (omega (arith, own)) (later fs t.below)),
  )
    where
      later : (gs : List Fd) → All (λ g. g.id < n) gs → All (λ g. g.id < suc n) gs
      later [] h = tt
      later (g ∷ gs) h = (omega (arith, h.0), later gs h.1)

  replaced :
      AreSorted less_name (replace i p f fs)
      × IsUnique (replace i p f fs)
      × All (λ g. g.id < suc n) (replace i p f fs)
  replaced = by_peer p
    where
      by_peer :
          (q : Option ℕ)
          → AreSorted less_name (replace i q f fs)
            × IsUnique (replace i q f fs)
            × All (λ g. g.id < suc n) (replace i q f fs)
      by_peer none = removed
      by_peer (some j) = rw (remove-update i j without_peer longer keeps) (
        update-AreSorted j without_peer (remove i longer) keeps removed.0,
        update-IsUnique j without_peer (remove i longer) keeps removed.1,
        All-update (λ g. g.id < suc n) j without_peer (remove i longer) (λ g h. h) removed.2,
      )

  still-paired :
      (q : Option ℕ) (x y : ℕ)
      → peer_at i fs ≡ q
      → (if (x == i) || (x == f.id) || is_num x q then none else peer_at x fs) ≡ some y
      → (if (y == i) || (y == f.id) || is_num y q then none else peer_at y fs) ≡ some x
  still-paired none x y e h = ground (arith, t.paired x y, e, absent-peer_at n fs t.below, own)
  still-paired (some j) x y e h =
      ground (arith, t.paired x y, t.paired i j e, e, absent-peer_at n fs t.below, own)

  pub replace-IsTable : IsTable (suc n) (replace i p f fs)
  replace-IsTable = record {
    sorted = replaced.0;
    unique = replaced.1;
    below = replaced.2;
    paired = λ x y e. peer_at-replace y ∙ still-paired p x y peer (sym (peer_at-replace x) ∙ e);
  }
