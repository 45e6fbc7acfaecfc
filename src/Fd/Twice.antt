-- ===== src/Fd/Twice.antt =====
-- src/fd.c, `fd_new_pipe`: one name for both ends.
use daemonproxy.Common.{
  ℕ, suc, ◌+◌, ◌<◌, Bool, false, Option, some, none, List, [], ◌∷◌, Bytes, length, ◌==◌, ◌≡◌, refl,
  sym, ap, ◌∙◌, arith, Bool-cases, inl, inr, subst, by_test, ◌||◌,
}
use daemonproxy.RbTree.Contents.{insert_sorted}
use daemonproxy.Fd.{
  Fd, Fds, FdFlags, less_name, by_name, peer_of, remove, clear_peer, lookup_id, delete_at,
  delete_again, heap, fd_new, new_object, entered,
}
use daemonproxy.Fd.Make.{replace_olds, pipe_made, new_pipe}
use daemonproxy.Fd.Replace.{IsTable, replace}
use daemonproxy.Fd.Place.{lookup_id-insert, IsBelow, by_name-IsBelow}
use daemonproxy.Fd.File.{fd_new-Made}
use daemonproxy.Fd.Olds.{first-Deletes}

lookup_id-remove : (i : ℕ) (fs : List Fd) → lookup_id i (remove i fs) ≡ none
unfolding remove
lookup_id-remove i [] = refl
lookup_id-remove i (f ∷ fs) = elim (Bool-cases (f.id == i)) [
  | inl e ↦ rw e (lookup_id-remove i fs)
  | inr e ↦ rw e (rw e (lookup_id-remove i fs))
]

deleted-twice :
    (name : Bytes) (num1 num2 : Option ℕ) (flags : FdFlags) (s : Fds) (old : Fd) (size1 size2 : ℕ)
    (grants : ℕ → Bool)
    → s.memory ≡ heap grants
    → IsTable s.next_id s.index
    → by_name name s.index ≡ some old
    → replace_olds
        (some old)
        (some old)
        num1
        num2
        flags
        s.next_id
        (suc s.next_id)
        (entered name size2 (entered name size1 s))
      ≡ none
deleted-twice name num1 num2 flags s old size1 size2 grants m v there =
    let f = new_object s.next_id name size1 in
    let h = new_object (suc s.next_id) name size2 in
    let both = entered name size2 (entered name size1 s) in
    let d = first-Deletes f h (some old) s both v refl refl there refl in
    let low : old.id < s.next_id =
      subst (IsBelow s.next_id) there (by_name-IsBelow name s.next_id s.index v.below) in
    let left = replace old.id (peer_of old.attr) f s.index in
    let again : lookup_id old.id d.state.index ≡ none =
      ap (lookup_id old.id) d.index_is
      ∙ lookup_id-insert old.id h left (λ r. omega (arith, r, low))
      ∙ lookup_id-remove old.id
          (clear_peer (peer_of old.attr) (insert_sorted less_name f s.index)) in
    rw (d.deleted, replace_olds) (rw (again, delete_at) (rw (d.memory_is ∙ m, delete_again) refl))

-- With objects on the heap, `fd_new_pipe` with the same name for both ends faults where an object has that name, unless it is a
-- constant, and there is memory for two more: it deletes that object twice.
pub new_pipe-faults :
    (name : Bytes) (num1 num2 : Option ℕ) (flags : FdFlags) (s : Fds) (old : Fd) (r1 r2 : ℕ × Fds)
    (grants : ℕ → Bool)
    → s.memory ≡ heap grants
    → IsTable s.next_id s.index
    → by_name name s.index ≡ some old
    → old.flags.is_const ≡ false
    → fd_new (length name + 1) name s ≡ some r1
    → fd_new (length name + 1) name r1.1 ≡ some r2
    → new_pipe name num1 name num2 flags s ≡ none
unfolding new_pipe
new_pipe-faults name num1 num2 flags s old r1 r2 grants m v there c e1 e2 =
    let m1 = fd_new-Made (length name + 1) name s r1 e1 in
    let t = entered name m1.size s in
    let e2' = ap (λ (r : ℕ × Fds). fd_new (length name + 1) name r.1) m1.is_entered ∙ e2 in
    let m2 = fd_new-Made (length name + 1) name t r2 e2' in
    let made2 = e2' ∙ ap some (sym m2.is_entered) in
    rw there (
      by_test (λ (r : Option (Option ℕ × Fds)). r ≡ none) (old.flags.is_const || old.flags.is_const)
        _ _ (λ q. absurd (ground (arith, q, c)))
        (λ q. rw (e1 ∙ ap some (sym m1.is_entered)) (
          rw (made2, pipe_made)
            (deleted-twice name num1 num2 flags s old m1.size m2.size grants m v there))))
