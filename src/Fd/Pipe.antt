-- ===== src/Fd/Pipe.antt =====
-- src/fd.c, `fd_new_pipe`: what becomes of the table of names.
use daemonproxy.Common.{
  ℕ, suc, ◌+◌, Bool, true, false, ◌||◌, Option, some, none, List, Bytes, length, ◌==◌,
  if◌then◌else◌, ◌≡◌, ◌≢◌, refl, sym, ap, ◌∙◌, arith, Bool-cases, inl, inr, ◌⊎◌, by_test, subst,
  Option-cases, ==_refl,
}
use daemonproxy.Strseg.Cmp.{eq_bytes, eq_bytes_iff, eq_bytes_refl, eq_bytes_ne}
use daemonproxy.RbTree.Contents.{insert_sorted}
use daemonproxy.Fd.{
  Fd, Fds, FdFlags, pipe, less_name, by_name, has_id, peer_at, update, lookup_id, fd_new,
  new_object, entered,
}
use daemonproxy.Fd.Make.{
  is_constant, as_read_end, as_write_end, join_ends, replace_olds, pipe_made, new_pipe,
}
use daemonproxy.Fd.Laws.{changed, by_name-update}
use daemonproxy.Fd.Replace.{
  IsTable, replace, cleared, by_name-replace, peer_at-replace, replace-IsTable,
}
use daemonproxy.Fd.Place.{
  gone, old-there, old_peer, close_old, IsPlaced, by_name-IsPlaced, Deletes, delete_at-Deletes,
  changed_below, by_name-IsBelow, cleared-IsBelow,
}
use daemonproxy.Fd.File.{fd_new-Made}
use daemonproxy.Fd.Ends.{has_id-by_name, join-IsTable}
use daemonproxy.Fd.Olds.{
  delete_at-cleared, close_old-cleared, close_old-closed, first-Deletes, first_deleted,
}

-- One of the objects of the names is a constant, or one of the new objects cannot be had.
abbrev pub RefusesPipe : Bytes → Bytes → Fds → Type 0
RefusesPipe name1 name2 s =
    (is_constant (by_name name1 s.index) || is_constant (by_name name2 s.index) ≡ true)
    ⊎ (fd_new (length name1 + 1) name1 s ≡ none)
    ⊎ (r : ℕ × Fds) × (fd_new (length name1 + 1) name1 s ≡ some r)
      × (fd_new (length name2 + 1) name2 r.1 ≡ none)

-- The other end of the pipe that the first name stood for, and that of the second name, if the pipes are
-- not the same.
abbrev pub first_peer : Bytes → Fds → Option ℕ
first_peer name1 s = old_peer (by_name name1 s.index)

abbrev pub second_peer : Bytes → Bytes → Fds → Option ℕ
second_peer name1 name2 s = old_peer (cleared (first_peer name1 s) (by_name name2 s.index))

-- What `fd_new_pipe` answers.
pub data Piped (name1 : Bytes) (num1 : Option ℕ) (name2 : Bytes) (num2 : Option ℕ) (flags : FdFlags)
    (s : Fds) : Option (Option ℕ × Fds) → Type 0 where
  refused :
      (t : Fds)
      → RefusesPipe name1 name2 s
      → IsTable t.next_id t.index
      → t.index ≡ s.index
      → t.closed ≡ s.closed
      → t.log ≡ s.log
      → Piped name1 num1 name2 num2 flags s (some (none, t))
  piped :
      (t : Fds) (f g : Fd)
      → is_constant (by_name name1 s.index) || is_constant (by_name name2 s.index) ≡ false
      → IsTable t.next_id t.index
      → by_name name1 t.index ≡ some f
      → by_name name2 t.index ≡ some g
      → (f.id ≡ s.next_id) × (g.id ≡ suc s.next_id)
      → (f.attr ≡ pipe (some g.id)) × (g.attr ≡ pipe (some f.id))
      → (f.num ≡ num1) × (g.num ≡ num2)
      → (f.flags ≡ record flags { reads = flags.socket; writes = flags.socket })
        × (g.flags ≡ record flags { writes = true })
      → ((m : Bytes)
          → eq_bytes m name1 ≡ false
          → eq_bytes m name2 ≡ false
          → by_name m t.index
            ≡ cleared
                (second_peer name1 name2 s)
                (cleared (first_peer name1 s) (by_name m s.index)))
      → t.closed ≡ (close_old (by_name name2 s.index) (close_old (by_name name1 s.index) s)).closed
      → Piped name1 num1 name2 num2 flags s (some (some f.id, t))

module _ (name1 : Bytes) (num1 : Option ℕ) (name2 : Bytes) (num2 : Option ℕ) (flags : FdFlags)
    (s : Fds) (size1 size2 : ℕ) (v : IsTable s.next_id s.index)
    (other : eq_bytes name2 name1 ≡ false) where
  abbrev f1 : Fd
  f1 = new_object s.next_id name1 size1

  abbrev f2 : Fd
  f2 = new_object (suc s.next_id) name2 size2

  abbrev both : Fds
  both = entered name2 size2 (entered name1 size1 s)

  abbrev old1 : Option Fd
  old1 = by_name name1 s.index

  abbrev old2 : Option Fd
  old2 = by_name name2 s.index

  placed1 : IsPlaced s.next_id f1 s.index old1
  placed1 = by_name-IsPlaced s.next_id f1 s.index old1 v refl refl

  abbrev index1 : List Fd
  index1 = replace (gone old1 s.next_id) (old_peer old1) f1 s.index

  table1 : IsTable (suc s.next_id) index1
  table1 =
      replace-IsTable s.next_id (gone old1 s.next_id) (old_peer old1) f1 s.index v refl
        placed1.place placed1.apart placed1.peered refl

  by_name-index1 :
      (m : Bytes)
      → by_name m index1
        ≡ (if eq_bytes m name1 then some f1 else cleared (old_peer old1) (by_name m s.index))
  by_name-index1 m =
      by_name-replace s.next_id (gone old1 s.next_id) (old_peer old1) f1 s.index v refl
        placed1.place placed1.apart placed1.peered refl m

  -- The second old object, behind the loss of its other end if that was the first
  abbrev old2' : Option Fd
  old2' = cleared (old_peer old1) old2

  old2-there : by_name name2 index1 ≡ old2'
  old2-there = by_name-index1 name2 ∙ rw other refl

  first : Deletes old1 (insert_sorted less_name f2 index1) both
  first = first-Deletes f1 f2 old1 s both v refl refl refl refl

  -- The table that the second replacement starts from
  abbrev half : Fds
  half = record first.state { index = index1; next_id = suc s.next_id }

  second :
      Deletes old2' (replace (gone old2' (suc s.next_id)) (old_peer old2') f2 index1) first.state
  second = delete_at-Deletes f2 old2' half first.state table1 refl old2-there first.index_is

  old2-found : (o : Fd) → old2' ≡ some o → lookup_id o.id first.state.index ≡ some o
  old2-found o e = old-there f2 o half first.state table1 refl (old2-there ∙ e) first.index_is

  placed2 : IsPlaced (suc s.next_id) f2 index1 old2'
  placed2 = by_name-IsPlaced (suc s.next_id) f2 index1 old2' table1 refl old2-there

  abbrev index2 : List Fd
  index2 = replace (gone old2' (suc s.next_id)) (old_peer old2') f2 index1

  table2 : IsTable (suc (suc s.next_id)) index2
  table2 =
      replace-IsTable (suc s.next_id) (gone old2' (suc s.next_id)) (old_peer old2') f2 index1 table1
        refl placed2.place placed2.apart placed2.peered refl

  by_name-index2 :
      (m : Bytes)
      → by_name m index2
        ≡ (if eq_bytes m name2 then some f2 else cleared (old_peer old2') (by_name m index1))
  by_name-index2 m =
      by_name-replace (suc s.next_id) (gone old2' (suc s.next_id)) (old_peer old2') f2 index1 table1
        refl placed2.place placed2.apart placed2.peered refl m

  lone1 : peer_at s.next_id index2 ≡ none
  lone1 =
      peer_at-replace (suc s.next_id) (gone old2' (suc s.next_id)) (old_peer old2') f2 index1 table1
        refl placed2.place placed2.apart placed2.peered refl s.next_id
      ∙ ground (
        arith,
        peer_at-replace s.next_id (gone old1 s.next_id) (old_peer old1) f1 s.index v refl
            placed1.place placed1.apart placed1.peered refl s.next_id,
        ==_refl s.next_id,
      )

  lone2 : peer_at (suc s.next_id) index2 ≡ none
  lone2 =
      peer_at-replace (suc s.next_id) (gone old2' (suc s.next_id)) (old_peer old2') f2 index1 table1
        refl placed2.place placed2.apart placed2.peered refl (suc s.next_id)
      ∙ ground (arith, ==_refl (suc s.next_id))

  abbrev set1 : Fd → Fd
  set1 = as_read_end num1 flags (suc s.next_id)

  abbrev set2 : Fd → Fd
  set2 = as_write_end num2 flags s.next_id

  -- The first new object, which no old one had for its other end
  first-cleared : (p : Option ℕ) → (o : Fd) × (cleared p (some f1) ≡ some o) × (o.id ≡ s.next_id)
  first-cleared none = (f1, refl, refl)
  first-cleared (some j) =
      by_test (λ (x : Fd). (o : Fd) × (some x ≡ some o) × (o.id ≡ s.next_id)) (s.next_id == j) _ _
        (λ e. (_, refl, refl)) (λ e. (_, refl, refl))

  abbrev end1 : Fd
  end1 = (first-cleared (old_peer old2')).0

  name1-index2 : by_name name1 index2 ≡ some end1
  name1-index2 =
      by_name-index2 name1
      ∙ rw (eq_bytes_ne name1 name2 (λ e. cc (other, (eq_bytes_iff name2 name1).1 (sym e)))) (
          ap (cleared (old_peer old2')) (by_name-index1 name1 ∙ rw (eq_bytes_refl name1) refl)
          ∙ (first-cleared (old_peer old2')).1)

  name2-index2 : by_name name2 index2 ≡ some f2
  name2-index2 = by_name-index2 name2 ∙ rw (eq_bytes_refl name2) refl

  abbrev ends : Fds
  ends = join_ends num1 num2 flags s.next_id (suc s.next_id) second.state

  ends-IsTable : IsTable ends.next_id ends.index
  ends-IsTable =
      let has1 =
        subst (λ i. has_id i index2 ≡ true) (first-cleared (old_peer old2')).2
          (has_id-by_name name1 end1 index2 name1-index2) in
      let has2 = has_id-by_name name2 f2 index2 name2-index2 in
      subst (λ n. IsTable n ends.index) (sym (second.next_is ∙ first.next_is))
        (subst
          (λ l.
            IsTable (suc (suc s.next_id)) (update (suc s.next_id) set2 (update s.next_id set1 l)))
          (sym second.index_is)
          (join-IsTable (suc (suc s.next_id)) s.next_id (suc s.next_id) set1 set2 index2
            (λ f. (refl, refl)) (λ f. (refl, refl)) (λ f. refl) (λ f. refl) (λ e. omega (arith, e))
            has1 has2 lone1 lone2 table2))

  by_name-ends :
      (m : Bytes)
      → by_name m ends.index
        ≡ changed (suc s.next_id) set2 (changed s.next_id set1 (by_name m index2))
  by_name-ends m =
      ap (λ l. by_name m (update (suc s.next_id) set2 (update s.next_id set1 l))) second.index_is
      ∙ by_name-update m (suc s.next_id) set2 (update s.next_id set1 index2) (λ f. (refl, refl))
      ∙ ap (changed (suc s.next_id) set2)
          (by_name-update m s.next_id set1 index2 (λ f. (refl, refl)))

  ends-first : by_name name1 ends.index ≡ some (set1 end1)
  ends-first =
      let here : (end1.id == s.next_id) ≡ true =
        ground (arith, (first-cleared (old_peer old2')).2) in
      let apart : (end1.id == suc s.next_id) ≡ false =
        ground (arith, (first-cleared (old_peer old2')).2) in
      by_name-ends name1
      ∙ ap (λ o. changed (suc s.next_id) set2 (changed s.next_id set1 o)) name1-index2
      ∙ ap (λ (b : Bool). changed (suc s.next_id) set2 (some (if b then set1 end1 else end1))) here
      ∙ ap (λ (b : Bool). some (if b then set2 (set1 end1) else set1 end1)) apart

  ends-second : by_name name2 ends.index ≡ some (set2 f2)
  ends-second =
      let here : (suc s.next_id == suc s.next_id) ≡ true = ==_refl (suc s.next_id) in
      let apart : (suc s.next_id == s.next_id) ≡ false = ground arith in
      by_name-ends name2
      ∙ ap (λ o. changed (suc s.next_id) set2 (changed s.next_id set1 o)) name2-index2
      ∙ ap (λ (b : Bool). changed (suc s.next_id) set2 (some (if b then set1 f2 else f2))) apart
      ∙ ap (λ (b : Bool). some (if b then set2 f2 else f2)) here

  ends-others :
      (m : Bytes)
      → eq_bytes m name1 ≡ false
      → eq_bytes m name2 ≡ false
      → by_name m ends.index
        ≡ cleared (old_peer old2') (cleared (old_peer old1) (by_name m s.index))
  ends-others m e1 e2 =
      let o = cleared (old_peer old2') (cleared (old_peer old1) (by_name m s.index)) in
      let there : by_name m index2 ≡ o =
        by_name-index2 m ∙ rw e2 (ap (cleared (old_peer old2')) (by_name-index1 m ∙ rw e1 refl)) in
      let low = cleared-IsBelow s.next_id (old_peer old2') _ (
        cleared-IsBelow s.next_id (old_peer old1) _
          (by_name-IsBelow m s.next_id s.index v.below)) in
      by_name-ends m
      ∙ ap (λ q. changed (suc s.next_id) set2 (changed s.next_id set1 q)) there
      ∙ ap (changed (suc s.next_id) set2)
          (changed_below s.next_id s.next_id set1 o (omega arith) low)
      ∙ changed_below s.next_id (suc s.next_id) set2 o (omega arith) low

  ends-closed : ends.closed ≡ (close_old old2 (close_old old1 s)).closed
  ends-closed =
      second.closed_is
      ∙ ap (λ (u : Fds). u.closed) (close_old-cleared (old_peer old1) old2 first.state)
      ∙ close_old-closed old2 first.state (close_old old1 s)
          (first.closed_is ∙ close_old-closed old1 both s refl)

  ends-made :
      replace_olds old1 old2 num1 num2 flags s.next_id (suc s.next_id) both
      ≡ some (some s.next_id, ends)
  ends-made =
      rw (first.deleted, replace_olds)
        (rw
          (
            sym (delete_at-cleared (old_peer old1) old2 first.state old2-found) ∙ second.deleted,
            replace_olds,
          )
          refl)

  Piped-ends :
      is_constant old1 || is_constant old2 ≡ false
      → Piped name1 num1 name2 num2 flags s (some (some s.next_id, ends))
  Piped-ends c =
      let own = (first-cleared (old_peer old2')).2 in
      subst (λ i. Piped name1 num1 name2 num2 flags s (some (some i, ends))) own
        (piped ends (set1 end1) (set2 f2) c ends-IsTable ends-first ends-second (own, refl)
          (refl, ap (λ i. pipe (some i)) (sym own)) (refl, refl) (refl, refl) ends-others
          ends-closed)

if_false {ℓ} : {A : Type ℓ} (b : Bool) (x y : A) → b ≡ false → (if b then x else y) ≡ y
if_false true x y e = cc
if_false false x y e = refl

-- `fd_new_pipe` with two names never faults on a table of objects. If the object of either name is a
-- constant, or there is no memory for two more, nothing changes. Else the names stand for two new
-- objects, each the other end of the other, with the descriptors given, and both the read and the write
-- flag of the first one say whether it is a socket; every other name stands for what it did, but that
-- the other end of a pipe whose end goes has no other end any more; the old objects' descriptors are
-- closed. The table stays in order, its names unique and its pipes paired.
pub new_pipe-Piped :
    (name1 : Bytes) (num1 : Option ℕ) (name2 : Bytes) (num2 : Option ℕ) (flags : FdFlags) (s : Fds)
    → name1 ≢ name2
    → IsTable s.next_id s.index
    → (r : Option ℕ × Fds) × (new_pipe name1 num1 name2 num2 flags s ≡ some r)
      × Piped name1 num1 name2 num2 flags s (some r)
unfolding new_pipe
new_pipe-Piped name1 num1 name2 num2 flags s ne v =
    elim (Bool-cases (is_constant (by_name name1 s.index) || is_constant (by_name name2 s.index))) [
      | inl c ↦ ((none, s), rw c refl, refused s (inl c) v refl refl refl)
      | inr c ↦ elim (Option-cases (fd_new (length name1 + 1) name1 s)) [
        | inl e ↦ ((none, s), rw c (rw e refl), refused s (inr (inl e)) v refl refl refl)
        | inr (r, e) ↦
            let m = fd_new-Made (length name1 + 1) name1 s r e in
            let made = e ∙ ap some (sym m.is_entered) in
            elim (Option-cases (fd_new (length name2 + 1) name2 (entered name1 m.size s))) [
              | inl q ↦
                  let d = first_deleted name1 m.size s v in
                  (
                    (none, d.0),
                    rw c (rw made (rw (q, pipe_made) d.1)),
                    refused d.0 (inr (inr ((_, entered name1 m.size s), made, q))) d.5 d.2 d.3 d.4,
                  )
              | inr (r2, q) ↦
                  let m2 = fd_new-Made (length name2 + 1) name2 (entered name1 m.size s) r2 q in
                  let made2 = q ∙ ap some (sym m2.is_entered) in
                  let apart = eq_bytes_ne name2 name1 (λ k. ne (sym k)) in
                  (
                    (some s.next_id, ends name1 num1 name2 num2 flags s m.size m2.size v apart),
                    rw c (
                        rw made (
                          rw (made2, pipe_made)
                            (ends-made name1 num1 name2 num2 flags s m.size m2.size v apart))),
                    Piped-ends name1 num1 name2 num2 flags s m.size m2.size v apart c,
                  )
            ]
      ]
    ]
