-- ===== src/Fd/File.antt =====
-- src/fd.c, `fd_new_file`: what becomes of the table of names.
use daemonproxy.Common.{
  ℕ, suc, ◌+◌, ◌-◌, ◌<◌, Bool, true, false, Option, some, none, List, [], ◌∷◌, Bytes, length, ltb,
  ◌==◌, if◌then◌else◌, ◌≡◌, refl, sym, ap, ◌∙◌, arith, Bool-cases, inl, inr, ◌⊎◌, subst,
  Option-cases, ==_refl,
}
use daemonproxy.Strseg.Cmp.{eq_bytes, eq_bytes_refl}
use daemonproxy.Fd.{
  Fd, Fds, FdFlags, file, by_name, peer_of, peer_at, update, fd_new, granted, new_object, entered,
  insert_new, count,
}
use daemonproxy.Fd.Make.{append_elipses, is_constant, as_file, file_made, new_file}
use daemonproxy.Fd.Laws.{
  Keeps, changed, by_name-update, update-IsUnique, update-AreSorted, All-update,
}
use daemonproxy.Fd.Replace.{
  IsTable, replace, cleared, by_name-replace, peer_at-replace, replace-IsTable,
}
use daemonproxy.Fd.Place.{
  gone, old_peer, close_old, IsPlaced, by_name-IsPlaced, Deletes, delete_at-Deletes, changed_below,
  cleared-IsBelow, by_name-IsBelow, close_old-entered,
}

-- What `fd_new_file` answers.
pub data Filed (name : Bytes) (num : Option ℕ) (flags : FdFlags) (path : Bytes) (s : Fds)
    : Option (Option ℕ × Fds) → Type 0 where
  refused :
      (is_constant (by_name name s.index) ≡ true)
        ⊎ (fd_new (length name + 1 + length path + 1) name s ≡ none)
      → Filed name num flags path s (some (none, s))
  filed :
      (t : Fds) (f : Fd)
      → is_constant (by_name name s.index) ≡ false
      → IsTable t.next_id t.index
      → by_name name t.index ≡ some f
      → (f.num ≡ num)
        × (f.flags ≡ flags)
        × (f.attr ≡ file (append_elipses (f.size - length name - 1) path))
      → ((m : Bytes)
          → eq_bytes m name ≡ false
          → by_name m t.index ≡ cleared (old_peer (by_name name s.index)) (by_name m s.index))
      → t.closed ≡ (close_old (by_name name s.index) s).closed
      → t.log ≡ (close_old (by_name name s.index) s).log
      → Filed name num flags path s (some (some f.id, t))

-- What `fd_new` makes.
pub record Made (name : Bytes) (s : Fds) (r : ℕ × Fds) : Type 0 where
  pub size : ℕ
  pub room : length name < size
  pub is_entered : (s.next_id, entered name size s) ≡ r

if_some {ℓ} :
    {A : Type ℓ} (b : Bool) (x y : A)
    → (if b then none else some x) ≡ some y
    → (b ≡ false) × (x ≡ y)
if_some true x y e = cc
if_some false x y e = (refl, cc)

pub fd_new-Made :
    (asked : ℕ) (name : Bytes) (s : Fds) (r : ℕ × Fds)
    → fd_new asked name s ≡ some r
    → Made name s r
unfolding fd_new
fd_new-Made asked name s r e = by_grant (granted s.memory (count s.index) asked s.next_id) e
  where
    by_grant : (g : Option ℕ) → insert_new name s g ≡ some r → Made name s r
    by_grant none q = cc
    by_grant (some size) q =
        let in_room = if_some (ltb size (length name + 1)) (s.next_id, entered name size s) r q in
        record { size = size; room = ground (arith, in_room.0); is_entered = in_room.1 }

peer_at-alone :
    (x i : ℕ) (g : Fd → Fd) (fs : List Fd)
    → Keeps g
    → ((f : Fd) → peer_of (g f).attr ≡ none)
    → peer_at x (update i g fs) ≡ (if x == i then none else peer_at x fs)
unfolding peer_at update
peer_at-alone x i g [] k a = ground arith
peer_at-alone x i g (f ∷ fs) k a = ground (arith, peer_at-alone x i g fs k a, (k f).0, a f)

-- A change of an object that no other one points at
update-IsTable :
    (n i : ℕ) (g : Fd → Fd) (fs : List Fd)
    → Keeps g
    → ((f : Fd) → peer_of (g f).attr ≡ none)
    → peer_at i fs ≡ none
    → IsTable n fs
    → IsTable n (update i g fs)
update-IsTable n i g fs k a lone t = record {
  sorted = update-AreSorted i g fs k t.sorted;
  unique = update-IsUnique i g fs k t.unique;
  below = All-update (λ f. f.id < n) i g fs (λ f h. rw (k f).0 h) t.below;
  paired = λ x y e. same_peer y ∙ t.paired x y (sym (same_peer x) ∙ e);
}
  where
    same_peer : (x : ℕ) → peer_at x (update i g fs) ≡ peer_at x fs
    same_peer x = elim (Bool-cases (x == i)) [
      | inl e ↦
          let here : x ≡ i = ground (arith, e) in
          peer_at-alone x i g fs k a ∙ rw e (sym (ap (λ y. peer_at y fs) here ∙ lone))
      | inr e ↦ peer_at-alone x i g fs k a ∙ rw e refl
    ]

module _ (name : Bytes) (num : Option ℕ) (flags : FdFlags) (path : Bytes) (s : Fds) (size : ℕ)
    (v : IsTable s.next_id s.index) where
  abbrev made : Fd
  made = new_object s.next_id name size

  abbrev old : Option Fd
  old = by_name name s.index

  abbrev set_file : Fd → Fd
  set_file = as_file num flags path

  deletes :
      Deletes old (replace (gone old s.next_id) (old_peer old) made s.index) (entered name size s)
  deletes = delete_at-Deletes made old s (entered name size s) v refl refl refl

  placed : IsPlaced s.next_id made s.index old
  placed = by_name-IsPlaced s.next_id made s.index old v refl refl

  abbrev result : Fds
  result = record deletes.state { index = update s.next_id set_file deletes.state.index }

  by_name-result :
      (m : Bytes)
      → by_name m result.index
        ≡ changed s.next_id set_file
            (if eq_bytes m name then some made else cleared (old_peer old) (by_name m s.index))
  by_name-result m =
      by_name-update m s.next_id set_file deletes.state.index (λ f. (refl, refl))
      ∙ ap (λ l. changed s.next_id set_file (by_name m l)) deletes.index_is
      ∙ ap (changed s.next_id set_file) (
          by_name-replace s.next_id (gone old s.next_id) (old_peer old) made s.index v refl
            placed.place placed.apart placed.peered refl m)

  lone : peer_at s.next_id deletes.state.index ≡ none
  lone =
      ap (peer_at s.next_id) deletes.index_is
      ∙ peer_at-replace s.next_id (gone old s.next_id) (old_peer old) made s.index v refl
          placed.place placed.apart placed.peered refl s.next_id
      ∙ ground (arith, ==_refl s.next_id)

  result-IsTable : IsTable result.next_id result.index
  result-IsTable =
      let longer =
        replace-IsTable s.next_id (gone old s.next_id) (old_peer old) made s.index v refl
          placed.place placed.apart placed.peered refl in
      subst (λ n. IsTable n result.index) (sym deletes.next_is)
        (update-IsTable (suc s.next_id) s.next_id set_file deletes.state.index (λ f. (refl, refl))
          (λ f. refl) lone (subst (IsTable (suc s.next_id)) (sym deletes.index_is) longer))

  result-new : by_name name result.index ≡ some (set_file made)
  result-new = by_name-result name ∙ rw (eq_bytes_refl name) (rw (==_refl s.next_id) refl)

  result-others :
      (m : Bytes)
      → eq_bytes m name ≡ false
      → by_name m result.index ≡ cleared (old_peer old) (by_name m s.index)
  result-others m e =
      by_name-result m
      ∙ rw e (
          changed_below s.next_id s.next_id set_file (cleared (old_peer old) (by_name m s.index))
            (omega arith)
            (cleared-IsBelow s.next_id (old_peer old) (by_name m s.index)
              (by_name-IsBelow m s.next_id s.index v.below)))

  Filed-result :
      is_constant old ≡ false → Filed name num flags path s (some (some s.next_id, result))
  Filed-result c =
      filed result (set_file made) c result-IsTable result-new (refl, refl, refl) result-others
        (deletes.closed_is ∙ (close_old-entered old name size s).0)
        (deletes.log_is ∙ (close_old-entered old name size s).1)

  file_made-Filed :
      is_constant old ≡ false
      → (r : Option ℕ × Fds) × (file_made old num flags path s
            (some (s.next_id, entered name size s))
          ≡ some r)
        × Filed name num flags path s (some r)
  file_made-Filed c =
      ((some s.next_id, result), rw (deletes.deleted, file_made) refl, Filed-result c)

-- `fd_new_file` never faults on a table of objects. It is refused only if the object of the name is a
-- constant, or there is no memory for one more; then nothing changes. Else the name stands for the new
-- object, with the path, cut to the buffer if it has to be; every other name stands for what it did, but
-- that the other end of a pipe whose end goes has no other end any more; the old object's descriptor is
-- closed, and a log that wrote to it looks for another. The table stays in order, its names unique and
-- its pipes paired.
pub new_file-Filed :
    (name : Bytes) (num : Option ℕ) (flags : FdFlags) (path : Bytes) (s : Fds)
    → IsTable s.next_id s.index
    → (r : Option ℕ × Fds) × (new_file name num flags path s ≡ some r)
      × Filed name num flags path s (some r)
unfolding new_file
new_file-Filed name num flags path s v = elim (Bool-cases (is_constant (by_name name s.index))) [
  | inl c ↦ ((none, s), rw c refl, refused (inl c))
  | inr c ↦ elim (Option-cases (fd_new (length name + 1 + length path + 1) name s)) [
    | inl e ↦ ((none, s), rw c (rw e refl), refused (inr e))
    | inr (r, e) ↦
        let m = fd_new-Made (length name + 1 + length path + 1) name s r e in
        let f = file_made-Filed name num flags path s m.size v c in
        (f.0, rw c (rw (e ∙ ap some (sym m.is_entered)) f.1), f.2)
  ]
]
