-- ===== src/Fd/Delete.antt =====
-- src/fd.c, `fd_delete`: what becomes of the table of names.
use daemonproxy.Common.{
  ℕ, ◌<◌, false, ◌||◌, Option, some, none, List, [], ◌∷◌, Bytes, ◌==◌, if◌then◌else◌, ◌≡◌, refl,
  sym, ap, ◌∙◌, arith, Bool-cases, inl, inr, subst,
}
use daemonproxy.Strseg.Cmp.{eq_bytes, eq_bytes_iff}
use daemonproxy.Fd.{
  Fd, Fds, by_name, peer_of, peer_at, remove, update, clear_peer, is_num, delete_at, new_object,
}
use daemonproxy.Fd.Laws.{
  IsPlace, place-name, All-remove, All-update, by_name-update, by_name-remove, remove-update,
  remove-IsUnique, update-IsUnique, remove-AreSorted, update-AreSorted, peer_at-remove,
}
use daemonproxy.Fd.Replace.{ArePaired, IsTable, cleared, without_peer, keeps, peer_at-without}
use daemonproxy.Fd.Place.{
  close_old, delete-Deletes, by_name-IsPlaced, lookup_id-by_name, lookup_id-peer_at,
}

-- What `fd_delete` of the object `f` of a name leaves.
pub record Deleted (name : Bytes) (f : Fd) (s : Fds) (t : Fds) : Type 0 where
  pub is_table : IsTable t.next_id t.index
  pub name_free : by_name name t.index ≡ none
  pub others :
      (m : Bytes)
      → eq_bytes m name ≡ false
      → by_name m t.index ≡ cleared (peer_of f.attr) (by_name m s.index)
  pub closed_is : t.closed ≡ (close_old (some f) s).closed
  pub log_is : t.log ≡ (close_old (some f) s).log

by_name-removed :
    (i : ℕ) (f : Fd) (fs : List Fd) → IsPlace i f fs → by_name f.name (remove i fs) ≡ none
unfolding by_name remove
by_name-removed i f [] h = refl
by_name-removed i f (g ∷ gs) h = elim (Bool-cases (g.id == i)) [
  | inl e ↦ rw e (by_name-removed i f gs h.1)
  | inr e ↦ rw e (elim (Bool-cases (eq_bytes f.name g.name)) [
    | inl q ↦ absurd (ground (arith, e, h.0.0 (sym ((eq_bytes_iff f.name g.name).0 q))))
    | inr q ↦ rw q (by_name-removed i f gs h.1)
  ])
]

peer_at-left :
    (x i : ℕ) (p : Option ℕ) (fs : List Fd)
    → peer_at x (remove i (clear_peer p fs))
      ≡ (if (x == i) || is_num x p then none else peer_at x fs)
peer_at-left x i none fs = ground (arith, peer_at-remove x i fs)
peer_at-left x i (some j) fs =
    ground (arith, peer_at-remove x i (update j without_peer fs), peer_at-without x j fs)

left-ArePaired :
    (i : ℕ) (p : Option ℕ) (fs : List Fd)
    → peer_at i fs ≡ p
    → ArePaired fs
    → ArePaired (remove i (clear_peer p fs))
left-ArePaired i p fs e h x y k =
    peer_at-left y i p fs ∙ by_peer p e (sym (peer_at-left x i p fs) ∙ k)
  where
    by_peer :
        (q : Option ℕ)
        → peer_at i fs ≡ q
        → (if (x == i) || is_num x q then none else peer_at x fs) ≡ some y
        → (if (y == i) || is_num y q then none else peer_at y fs) ≡ some x
    by_peer none r m = ground (arith, h x y, r)
    by_peer (some j) r m = ground (arith, h x y, h i j r, r)

left-IsTable :
    (n i : ℕ) (p : Option ℕ) (fs : List Fd)
    → peer_at i fs ≡ p
    → IsTable n fs
    → IsTable n (remove i (clear_peer p fs))
left-IsTable n i none fs e v = record {
  sorted = remove-AreSorted i fs v.sorted;
  unique = remove-IsUnique i fs v.unique;
  below = All-remove _ i fs v.below;
  paired = left-ArePaired i none fs e v.paired;
}
left-IsTable n i (some j) fs e v = record {
  sorted = remove-AreSorted i _ (update-AreSorted j without_peer fs keeps v.sorted);
  unique = remove-IsUnique i _ (update-IsUnique j without_peer fs keeps v.unique);
  below = All-remove _ i _ (All-update (λ f. f.id < n) j without_peer fs (λ f h. h) v.below);
  paired = left-ArePaired i (some j) fs e v.paired;
}

by_name-left :
    (m : Bytes) (i : ℕ) (p : Option ℕ) (fs : List Fd)
    → by_name m (remove i (clear_peer p fs)) ≡ cleared p (by_name m (remove i fs))
by_name-left m i none fs = refl
by_name-left m i (some j) fs =
    ap (by_name m) (remove-update i j without_peer fs keeps)
    ∙ by_name-update m j without_peer (remove i fs) keeps

cleared-none : (p : Option ℕ) → cleared p none ≡ none
cleared-none none = refl
cleared-none (some j) = refl

-- `fd_delete` of the object of a name frees the name. Every other name stands for what it did, but that
-- the other end of a pipe whose end goes has no other end any more. The descriptor is closed, and a log
-- that wrote to it looks for another. The table stays in order, its names unique and its pipes paired.
pub delete-Deleted :
    (name : Bytes) (f : Fd) (s : Fds)
    → IsTable s.next_id s.index
    → by_name name s.index ≡ some f
    → (t : Fds) × (delete_at (some f) s ≡ some t) × Deleted name f s t
delete-Deleted name f s v e =
    let here = lookup_id-by_name name f s.index v.unique e in
    let d = delete-Deletes f f s here refl in
    let p = peer_of f.attr in
    let placed =
      by_name-IsPlaced s.next_id (new_object s.next_id name 0) s.index (some f) v refl e in
    (
      d.state,
      d.deleted,
      record {
        is_table =
            subst (λ n. IsTable n d.state.index) (sym d.next_is)
              (subst (IsTable s.next_id) (sym d.index_is)
                (left-IsTable s.next_id f.id p s.index (lookup_id-peer_at f.id f s.index here) v));
        name_free =
            ap (by_name name) d.index_is
            ∙ by_name-left name f.id p s.index
            ∙ ap (cleared p)
                (by_name-removed f.id (new_object s.next_id name 0) s.index placed.place)
            ∙ cleared-none p;
        others = λ m n.
            ap (by_name m) d.index_is
            ∙ by_name-left m f.id p s.index
            ∙ ap (cleared p) (
                by_name-remove m name f.id s.index n
                  (place-name f.id (new_object s.next_id name 0) s.index placed.place));
        closed_is = d.closed_is;
        log_is = d.log_is;
      },
    )
