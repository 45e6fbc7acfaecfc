-- ===== src/Fd/Olds.antt =====
-- src/fd.c, `fd_new_pipe`: the old objects of its two names, and a new one that goes again.
use daemonproxy.Common.{
  ℕ, suc, ◌<◌, false, Option, some, none, List, [], ◌∷◌, Bytes, ◌==◌, ◌≡◌, ◌≢◌, refl, sym, ap, ◌∙◌,
  arith, All, by_test, subst, ==_refl,
}
use daemonproxy.RbTree.Contents.{insert_sorted}
use daemonproxy.RbTree.Add.{insert_sorted-AreSorted}
use daemonproxy.Fd.{
  Fd, Fds, less_name, by_name, peer_of, remove, clear_peer, lookup_id, delete, delete_at, close_num,
  new_object, entered,
}
use daemonproxy.Fd.Make.{deleted_first}
use daemonproxy.Fd.Laws.{remove-absent, All-insert_sorted}
use daemonproxy.Fd.Replace.{IsTable, replace, cleared, less_name-IsOrder, fresh}
use daemonproxy.Fd.Place.{
  gone, old_peer, close_old, by_name-IsPlaced, Deletes, delete-Deletes, lookup_id-insert,
  lookup_id-by_name, peer_at-absent, absent, IsBelow, by_name-IsBelow,
}
use daemonproxy.Fd.Ends.{old-before-new}

pub delete_at-cleared :
    (p : Option ℕ) (old : Option Fd) (t : Fds)
    → ((o : Fd) → cleared p old ≡ some o → lookup_id o.id t.index ≡ some o)
    → delete_at (cleared p old) t ≡ delete_at old t
delete_at-cleared none old t h = refl
delete_at-cleared (some j) none t h = refl
delete_at-cleared (some j) (some o) t h =
    by_test
      (λ (x : Fd). lookup_id x.id t.index ≡ some x → delete_at (some x) t ≡ delete_at (some o) t)
      (o.id == j) _ _ (λ e g. rw (g, delete_at) refl) (λ e g. refl) (h _ refl)

pub close_old-cleared :
    (p : Option ℕ) (old : Option Fd) (t : Fds) → close_old (cleared p old) t ≡ close_old old t
close_old-cleared none old t = refl
close_old-cleared (some j) none t = refl
close_old-cleared (some j) (some o) t =
    by_test (λ (x : Fd). close_old (some x) t ≡ close_old (some o) t) (o.id == j) _ _ (λ e. refl)
      (λ e. refl)

-- The close of an old object looks at the log and the descriptors closed.
pub close_old-closed :
    (old : Option Fd) (s t : Fds)
    → s.closed ≡ t.closed
    → (close_old old s).closed ≡ (close_old old t).closed
close_old-closed none s t e = e
close_old-closed (some o) s t e = by_num o.num
  where
    by_num : (num : Option ℕ) → (close_num num s).closed ≡ (close_num num t).closed
    by_num none = e
    by_num (some n) = ap (λ l. n ∷ l) e

-- With both new objects in, the first old one goes.
pub first-Deletes :
    (f h : Fd) (old : Option Fd) (s t : Fds)
    → IsTable s.next_id s.index
    → f.id ≡ s.next_id
    → h.id ≡ suc s.next_id
    → by_name f.name s.index ≡ old
    → t.index ≡ insert_sorted less_name h (insert_sorted less_name f s.index)
    → Deletes old
        (insert_sorted less_name h (replace (gone old s.next_id) (old_peer old) f s.index))
        t
first-Deletes f h none s t v o q e k = record {
  state = t;
  deleted = refl;
  index_is =
      k
      ∙ ap (insert_sorted less_name h) (
          sym (
            remove-absent (suc (suc s.next_id)) (insert_sorted less_name f s.index) (
              All-insert_sorted _ f s.index (λ r. omega (arith, r, o))
                (absent s.next_id (suc (suc s.next_id)) s.index (omega arith) v.below))));
  next_is = refl;
  memory_is = refl;
  closed_is = refl;
  log_is = refl;
}
first-Deletes f h (some old) s t v o q e k =
    let placed = by_name-IsPlaced s.next_id f s.index (some old) v o e in
    let bound = by_name-IsBelow f.name s.next_id s.index v.below in
    let low : old.id < s.next_id = subst (IsBelow s.next_id) e bound in
    let here : lookup_id old.id t.index ≡ some old =
      ap (lookup_id old.id) k
      ∙ lookup_id-insert old.id h (insert_sorted less_name f s.index)
          (λ r. omega (arith, r, q, low))
      ∙ lookup_id-insert old.id f s.index placed.apart
      ∙ lookup_id-by_name f.name old s.index v.unique e in
    let peer_low : peer_of old.attr ≢ some h.id = λ r. cc (
      v.paired old.id h.id (placed.peered ∙ r),
      peer_at-absent h.id s.index (absent s.next_id h.id s.index (omega (arith, q)) v.below),
    ) in
    subst (λ l. Deletes (some old) l t)
      (ap (λ l. remove old.id (clear_peer (peer_of old.attr) l)) k
        ∙ old-before-new old.id (peer_of old.attr) h (insert_sorted less_name f s.index)
            (insert_sorted-AreSorted less_name f s.index less_name-IsOrder v.sorted)
            (λ r. omega (arith, r, q, low)) peer_low)
      (delete-Deletes old old t here refl)

pub lookup_id-new :
    (f : Fd) (fs : List Fd)
    → All (λ g. g.id ≢ f.id) fs
    → lookup_id f.id (insert_sorted less_name f fs) ≡ some f
lookup_id-new f [] h = rw (==_refl f.id) refl
lookup_id-new f (g ∷ gs) h =
    by_test (λ (l : List Fd). lookup_id f.id l ≡ some f) (less_name f g) _ _
      (λ e. rw (==_refl f.id) refl)
      (λ e.
        let apart : (g.id == f.id) ≡ false = ground (arith, h.0) in
        rw apart (lookup_id-new f gs h.1))

pub remove-new :
    (f : Fd) (fs : List Fd)
    → All (λ g. g.id ≢ f.id) fs
    → remove f.id (insert_sorted less_name f fs) ≡ fs
unfolding remove
remove-new f [] h = rw (==_refl f.id) refl
remove-new f (g ∷ gs) h =
    let apart : (g.id == f.id) ≡ false = ground (arith, h.0) in
    by_test (λ (l : List Fd). remove f.id l ≡ g ∷ gs) (less_name f g) _ _
      (λ e. rw (==_refl f.id) (remove-absent f.id (g ∷ gs) h))
      (λ e. rw apart (ap (λ l. g ∷ l) (remove-new f gs h.1)))

pub IsTable-suc : (n : ℕ) (fs : List Fd) → IsTable n fs → IsTable (suc n) fs
IsTable-suc n fs v = record {
  sorted = v.sorted;
  unique = v.unique;
  below = later fs v.below;
  paired = v.paired;
}
  where
    later : (gs : List Fd) → All (λ g. g.id < n) gs → All (λ g. g.id < suc n) gs
    later [] h = tt
    later (g ∷ gs) h = (omega (arith, h.0), later gs h.1)

-- The second object cannot be had: the first one goes, which nothing knew.
pub first_deleted :
    (name : Bytes) (size : ℕ) (s : Fds)
    → IsTable s.next_id s.index
    → (t : Fds) × (deleted_first s.next_id (entered name size s) ≡ some (none, t))
      × (t.index ≡ s.index)
      × (t.closed ≡ s.closed)
      × (t.log ≡ s.log)
      × IsTable t.next_id t.index
first_deleted name size s v =
    let f = new_object s.next_id name size in
    let others = fresh s.next_id s.index v.below in
    (
      delete f (entered name size s),
      rw (lookup_id-new f s.index others, deleted_first) refl,
      remove-new f s.index others,
      refl,
      refl,
      subst (IsTable (suc s.next_id)) (sym (remove-new f s.index others))
          (IsTable-suc s.next_id s.index v),
    )
