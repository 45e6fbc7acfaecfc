-- ===== src/Fd/Ends.antt =====
-- src/fd.c, `fd_new_pipe`: the two ends of a new pipe in the index.
use daemonproxy.Common.{
  ℕ, ◌<◌, Bool, true, false, Option, some, none, List, [], ◌∷◌, Bytes, ◌==◌, if◌then◌else◌, ◌≡◌,
  ◌≢◌, refl, sym, ap, ◌∙◌, arith, All, Bool-cases, inl, inr, by_test, subst,
}
use daemonproxy.Strseg.Cmp.{eq_bytes}
use daemonproxy.RbTree.Contents.{insert_sorted, AreSorted}
use daemonproxy.Fd.{Fd, pipe, less_name, by_name, has_id, peer_at, remove, update, clear_peer}
use daemonproxy.Fd.Laws.{
  Keeps, All-update, update-IsUnique, update-AreSorted, peer_at-update, chosen-Keeps, chosen,
}
use daemonproxy.Fd.Replace.{ArePaired, IsTable, less_name-IsOrder, without_peer, keeps}

update-insert :
    (j : ℕ) (g : Fd → Fd) (f : Fd) (fs : List Fd)
    → Keeps g
    → f.id ≢ j
    → update j g (insert_sorted less_name f fs) ≡ insert_sorted less_name f (update j g fs)
unfolding update
update-insert j g f [] k n = let apart : (f.id == j) ≡ false = ground (arith, n) in rw apart refl
update-insert j g f (h ∷ hs) k n =
    let apart : (f.id == j) ≡ false = ground (arith, n) in
    rw (chosen-Keeps j g h k).1 (elim (Bool-cases (less_name f h)) [
      | inl e ↦ rw (e, apart) refl
      | inr e ↦ rw e (ap (λ l. chosen j g h ∷ l) (update-insert j g f hs k n))
    ])

-- What stands behind an object that is not less stays behind the new one.
insert-front :
    (f g : Fd) (fs : List Fd)
    → less_name f g ≡ true
    → All (λ h. less_name h g ≡ false) fs
    → (i : ℕ) → f ∷ remove i fs ≡ insert_sorted less_name f (remove i fs)
unfolding remove
insert-front f g [] e s i = refl
insert-front f g (h ∷ hs) e s i =
    by_test (λ (l : List Fd). f ∷ l ≡ insert_sorted less_name f l) (h.id == i) _ _
      (λ q. insert-front f g hs e s.1 i)
      (λ q. elim (Bool-cases (less_name f h)) [
        | inl r ↦ rw r refl
        | inr r ↦ ground (arith, e, less_name-IsOrder.not_less_trans f h g r s.0)
      ])

remove-insert :
    (i : ℕ) (f : Fd) (fs : List Fd)
    → AreSorted less_name fs
    → f.id ≢ i
    → remove i (insert_sorted less_name f fs) ≡ insert_sorted less_name f (remove i fs)
unfolding remove
remove-insert i f [] s n = let apart : (f.id == i) ≡ false = ground (arith, n) in rw apart refl
remove-insert i f (g ∷ gs) s n =
    let apart : (f.id == i) ≡ false = ground (arith, n) in
    elim (Bool-cases (less_name f g)) [
      | inl e ↦
          rw (e, apart)
            (elim (Bool-cases (g.id == i)) [
              | inl q ↦ rw q (insert-front f g gs e s.0 i)
              | inr q ↦ rw q (rw e refl)
            ])
      | inr e ↦ rw e (elim (Bool-cases (g.id == i)) [
        | inl q ↦ rw q (remove-insert i f gs s.1 n)
        | inr q ↦ rw q (rw e (ap (λ l. g ∷ l) (remove-insert i f gs s.1 n)))
      ])
    ]

-- The old object of the first name goes before the second new object comes, as far as the index tells.
pub old-before-new :
    (i : ℕ) (p : Option ℕ) (f : Fd) (fs : List Fd)
    → AreSorted less_name fs
    → f.id ≢ i
    → p ≢ some f.id
    → remove i (clear_peer p (insert_sorted less_name f fs))
      ≡ insert_sorted less_name f (remove i (clear_peer p fs))
old-before-new i none f fs s n m = remove-insert i f fs s n
old-before-new i (some j) f fs s n m =
    ap (remove i) (update-insert j without_peer f fs keeps (λ e. m (ap some (sym e))))
    ∙ remove-insert i f (update j without_peer fs) (update-AreSorted j without_peer fs keeps s) n

pub has_id-by_name :
    (name : Bytes) (o : Fd) (fs : List Fd) → by_name name fs ≡ some o → has_id o.id fs ≡ true
unfolding by_name
has_id-by_name name o [] e = cc
has_id-by_name name o (f ∷ fs) e = elim (Bool-cases (eq_bytes name f.name)) [
  | inl q ↦
      let here : f ≡ o = cc (e, ap (λ (b : Bool). if b then some f else by_name name fs) q) in
      subst (λ (x : Fd). has_id x.id (f ∷ fs) ≡ true) here (ground arith)
  | inr q ↦ ground (
    arith,
    has_id-by_name name o fs (sym (ap (λ (b : Bool). if b then some f else by_name name fs) q) ∙ e),
  )
]

has_id-update :
    (x i : ℕ) (g : Fd → Fd) (fs : List Fd) → Keeps g → has_id x (update i g fs) ≡ has_id x fs
unfolding update
has_id-update x i g [] k = refl
has_id-update x i g (f ∷ fs) k = rw ((chosen-Keeps i g f k).0, has_id-update x i g fs k) refl

module _ (n i j : ℕ) (g h : Fd → Fd) (fs : List Fd) (kg : Keeps g) (kh : Keeps h)
    (ag : (f : Fd) → (g f).attr ≡ pipe (some j)) (ah : (f : Fd) → (h f).attr ≡ pipe (some i))
    (apart : i ≢ j) (hi : has_id i fs ≡ true) (hj : has_id j fs ≡ true) (li : peer_at i fs ≡ none)
    (lj : peer_at j fs ≡ none) (t : IsTable n fs) where
  pub joined :
      (x : ℕ)
      → peer_at x (update j h (update i g fs))
        ≡ (if x == j then some i else if x == i then some j else peer_at x fs)
  joined x = ground (
    arith,
    peer_at-update x j h (pipe (some i)) (update i g fs) kh ah,
    peer_at-update x i g (pipe (some j)) fs kg ag,
    has_id-update j i g fs kg,
    hi,
    hj,
  )

  join-ArePaired : ArePaired (update j h (update i g fs))
  join-ArePaired x y e = joined y ∙ ground (arith, sym (joined x) ∙ e, t.paired x y, li, lj, apart)

  -- Two objects that no pipe has for an end become the ends of one.
  pub join-IsTable : IsTable n (update j h (update i g fs))
  join-IsTable = record {
    sorted = update-AreSorted j h _ kh (update-AreSorted i g fs kg t.sorted);
    unique = update-IsUnique j h _ kh (update-IsUnique i g fs kg t.unique);
    below =
        All-update (λ f. f.id < n) j h _ (λ f b. rw (kh f).0 b)
          (All-update (λ f. f.id < n) i g fs (λ f b. rw (kg f).0 b) t.below);
    paired = join-ArePaired;
  }
