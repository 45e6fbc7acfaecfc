-- ===== src/Fd/Place.antt =====
-- src/fd.c: the object that has a name, and its place in the index.
use daemonproxy.Common.{
  ℕ, suc, ◌≤◌, ◌<◌, Bool, false, Option, some, none, List, [], ◌∷◌, Bytes, ◌==◌, if◌then◌else◌, ◌≡◌,
  ◌≢◌, refl, sym, ap, ◌∙◌, arith, All, Bool-cases, inl, inr, by_test, subst,
}
use daemonproxy.Strseg.Cmp.{eq_bytes, eq_bytes_iff}
use daemonproxy.RbTree.Contents.{insert_sorted}
use daemonproxy.Fd.{
  Fd, Fds, less_name, by_name, peer_of, peer_at, remove, clear_peer, lookup_id, delete, delete_at,
  close_num, entered,
}
use daemonproxy.Fd.Laws.{All-insert_sorted, IsUnique, IsPlace, changed, remove-absent}
use daemonproxy.Fd.Replace.{IsTable, replace, cleared}

pub All-by_name {ℓ} :
    (P : Fd → Type ℓ) (name : Bytes) (fs : List Fd) (o : Fd)
    → All P fs
    → by_name name fs ≡ some o
    → P o
unfolding by_name
All-by_name P name [] o h e = cc
All-by_name P name (f ∷ fs) o h e = elim (Bool-cases (eq_bytes name f.name)) [
  | inl q ↦ subst P (cc (e, ap (λ (b : Bool). if b then some f else by_name name fs) q)) h.0
  | inr q ↦
      All-by_name P name fs o h.1
        (sym (ap (λ (b : Bool). if b then some f else by_name name fs) q) ∙ e)
]

-- No object has the name: a number that is no pointer serves for the one that goes.
IsPlace-none :
    (n i : ℕ) (f : Fd) (fs : List Fd)
    → f.id ≡ n
    → n < i
    → All (λ g. g.id < n) fs
    → by_name f.name fs ≡ none
    → IsPlace i f fs
unfolding by_name
IsPlace-none n i f [] o l b e = tt
IsPlace-none n i f (g ∷ gs) o l b e = elim (Bool-cases (eq_bytes f.name g.name)) [
  | inl q ↦ cc (e, ap (λ (b : Bool). if b then some g else by_name f.name gs) q)
  | inr q ↦ (
    (
      (λ k. cc (q, (eq_bytes_iff f.name g.name).1 (sym k))),
      (λ k. absurd (omega (arith, k, b.0))),
      (λ k. omega (arith, k, b.0, o)),
    ),
    IsPlace-none n i f gs o l b.1
        (sym (ap (λ (b : Bool). if b then some g else by_name f.name gs) q) ∙ e),
  )
]

place-below :
    (n i : ℕ) (f : Fd) (fs : List Fd)
    → f.id ≡ n
    → All (λ g. g.id < n) fs
    → All (λ g. g.id ≢ f.id) fs
place-below n i f [] o b = tt
place-below n i f (g ∷ gs) o b = ((λ k. omega (arith, k, b.0, o)), place-below n i f gs o b.1)

-- The object that has the name is the one that goes.
IsPlace-some :
    (f o : Fd) (fs : List Fd)
    → IsUnique fs
    → All (λ g. g.id ≢ f.id) fs
    → by_name f.name fs ≡ some o
    → IsPlace o.id f fs
unfolding by_name
IsPlace-some f o [] u b e = tt
IsPlace-some f o (g ∷ gs) u b e = elim (Bool-cases (eq_bytes f.name g.name)) [
  | inl q ↦
      let here : g ≡ o = cc (e, ap (λ (b : Bool). if b then some g else by_name f.name gs) q) in
      let same_name : f.name ≡ g.name = (eq_bytes_iff f.name g.name).0 q in
      subst (λ (x : Fd). IsPlace x.id f (g ∷ gs)) here
        (((λ k. refl), (λ k. sym same_name), b.0), rest same_name gs u.0 b.1)
  | inr q ↦
      let later = sym (ap (λ (b : Bool). if b then some g else by_name f.name gs) q) ∙ e in
      let apart = All-by_name (λ h. (h.name ≢ g.name) × (h.id ≢ g.id)) f.name gs o u.0 later in
      (
        (
          (λ k. cc (q, (eq_bytes_iff f.name g.name).1 (sym k))),
          (λ k. absurd (apart.1 (sym k))),
          b.0,
        ),
        IsPlace-some f o gs u.1 b.1 later,
      )
]
  where
    rest :
        f.name ≡ g.name
        → (hs : List Fd) → All (λ h. (h.name ≢ g.name) × (h.id ≢ g.id)) hs
        → All (λ h. h.id ≢ f.id) hs
        → IsPlace g.id f hs
    rest k [] d b = tt
    rest k (h ∷ hs) d b =
        (((λ e. absurd (d.0.0 (e ∙ k))), (λ e. absurd (d.0.1 e)), b.0), rest k hs d.1 b.1)

pub lookup_id-by_name :
    (name : Bytes) (o : Fd) (fs : List Fd)
    → IsUnique fs
    → by_name name fs ≡ some o
    → lookup_id o.id fs ≡ some o
unfolding by_name
lookup_id-by_name name o [] u e = cc
lookup_id-by_name name o (f ∷ fs) u e = elim (Bool-cases (eq_bytes name f.name)) [
  | inl q ↦
      let here : f ≡ o = cc (e, ap (λ (b : Bool). if b then some f else by_name name fs) q) in
      subst (λ (x : Fd). lookup_id x.id (f ∷ fs) ≡ some x) here (ground arith)
  | inr q ↦
      let later = sym (ap (λ (b : Bool). if b then some f else by_name name fs) q) ∙ e in
      let apart = All-by_name (λ h. (h.name ≢ f.name) × (h.id ≢ f.id)) name fs o u.0 later in
      ground (arith, apart.1, lookup_id-by_name name o fs u.1 later)
]

pub lookup_id-id : (i : ℕ) (o : Fd) (fs : List Fd) → lookup_id i fs ≡ some o → o.id ≡ i
lookup_id-id i o [] e = cc
lookup_id-id i o (f ∷ fs) e = elim (Bool-cases (f.id == i)) [
  | inl q ↦
      let here : f ≡ o = cc (e, ap (λ (b : Bool). if b then some f else lookup_id i fs) q) in
      sym (ap (λ (x : Fd). x.id) here) ∙ ground (arith, q)
  | inr q ↦
      lookup_id-id i o fs (sym (ap (λ (b : Bool). if b then some f else lookup_id i fs) q) ∙ e)
]

pub lookup_id-peer_at :
    (i : ℕ) (o : Fd) (fs : List Fd) → lookup_id i fs ≡ some o → peer_at i fs ≡ peer_of o.attr
unfolding peer_at
lookup_id-peer_at i o [] e = cc
lookup_id-peer_at i o (f ∷ fs) e = elim (Bool-cases (f.id == i)) [
  | inl q ↦
      let here : f ≡ o = cc (e, ap (λ (b : Bool). if b then some f else lookup_id i fs) q) in
      rw q (ap (λ (x : Fd). peer_of x.attr) here)
  | inr q ↦ rw q (
      lookup_id-peer_at i o fs
        (sym (ap (λ (b : Bool). if b then some f else lookup_id i fs) q) ∙ e))
]

pub lookup_id-insert :
    (i : ℕ) (f : Fd) (fs : List Fd)
    → f.id ≢ i
    → lookup_id i (insert_sorted less_name f fs) ≡ lookup_id i fs
lookup_id-insert i f [] n = let apart : (f.id == i) ≡ false = ground (arith, n) in rw apart refl
lookup_id-insert i f (g ∷ gs) n =
    let apart : (f.id == i) ≡ false = ground (arith, n) in
    by_test (λ (l : List Fd). lookup_id i l ≡ lookup_id i (g ∷ gs)) (less_name f g) _ _
      (λ e. rw apart refl)
      (λ e. ap (λ (l : Option Fd). if g.id == i then some g else l) (lookup_id-insert i f gs n))

-- The pointer of the object that goes; where none does, one that no object has.
abbrev pub gone : Option Fd → ℕ → ℕ
gone none n = suc (suc n)
gone (some o) n = o.id

abbrev pub old_peer : Option Fd → Option ℕ
old_peer none = none
old_peer (some o) = peer_of o.attr

-- Behind the close of the old object's descriptor
abbrev pub close_old : Option Fd → Fds → Fds
close_old none s = s
close_old (some o) s = close_num o.num s

-- The new object `f` has the place of `old`, the object of its name.
pub record IsPlaced (n : ℕ) (f : Fd) (fs : List Fd) (old : Option Fd) : Type 0 where
  pub place : IsPlace (gone old n) f fs
  pub apart : f.id ≢ gone old n
  pub peered : peer_at (gone old n) fs ≡ old_peer old

pub peer_at-absent : (i : ℕ) (fs : List Fd) → All (λ f. f.id ≢ i) fs → peer_at i fs ≡ none
unfolding peer_at
peer_at-absent i [] h = refl
peer_at-absent i (f ∷ fs) h = ground (arith, peer_at-absent i fs h.1, h.0)

pub absent : (n i : ℕ) (fs : List Fd) → n < i → All (λ f. f.id < n) fs → All (λ f. f.id ≢ i) fs
absent n i [] l b = tt
absent n i (f ∷ fs) l b = ((λ e. omega (arith, e, b.0)), absent n i fs l b.1)

pub by_name-IsPlaced :
    (n : ℕ) (f : Fd) (fs : List Fd) (old : Option Fd)
    → IsTable n fs
    → f.id ≡ n
    → by_name f.name fs ≡ old
    → IsPlaced n f fs old
by_name-IsPlaced n f fs none t o e = record {
  place = IsPlace-none n (suc (suc n)) f fs o (omega arith) t.below e;
  apart = λ k. omega (arith, k, o);
  peered = peer_at-absent (suc (suc n)) fs (absent n (suc (suc n)) fs (omega arith) t.below);
}
by_name-IsPlaced n f fs (some old) t o e =
    let others = place-below n n f fs o t.below in
    record {
      place = IsPlace-some f old fs t.unique others e;
      apart = λ k. All-by_name (λ g. g.id ≢ f.id) f.name fs old others e (sym k);
      peered = lookup_id-peer_at old.id old fs (lookup_id-by_name f.name old fs t.unique e);
    }

-- What `fd_delete` of the object of a name leaves.
pub record Deletes (old : Option Fd) (index : List Fd) (t : Fds) : Type 0 where
  pub state : Fds
  pub deleted : delete_at old t ≡ some state
  pub index_is : state.index ≡ index
  pub next_is : state.next_id ≡ t.next_id
  pub memory_is : state.memory ≡ t.memory
  pub closed_is : state.closed ≡ (close_old old t).closed
  pub log_is : state.log ≡ (close_old old t).log

close_num-keeps :
    (num : Option ℕ) (s : Fds) (index : List Fd)
    → let c = close_num num (record s { index = index }) in
      (c.index ≡ index)
      × (c.next_id ≡ s.next_id)
      × (c.memory ≡ s.memory)
      × (c.closed ≡ (close_num num s).closed)
      × (c.log ≡ (close_num num s).log)
close_num-keeps none s index = (refl, refl, refl, refl, refl)
close_num-keeps (some n) s index = (refl, refl, refl, refl, refl)

pub delete-Deletes :
    (o d : Fd) (t : Fds)
    → lookup_id o.id t.index ≡ some d
    → d.num ≡ o.num
    → Deletes (some o) (remove o.id (clear_peer (peer_of d.attr) t.index)) t
delete-Deletes o d t e k =
    let left = clear_peer (peer_of d.attr) t.index in
    let keeps = close_num-keeps d.num t left in
    record {
      state = delete d t;
      deleted = rw (e, delete_at) refl;
      index_is = ap (remove d.id) keeps.0 ∙ ap (λ i. remove i left) (lookup_id-id o.id d t.index e);
      next_is = keeps.1;
      memory_is = keeps.2;
      closed_is = keeps.3 ∙ ap (λ (num : Option ℕ). (close_num num t).closed) k;
      log_is = keeps.4 ∙ ap (λ (num : Option ℕ). (close_num num t).log) k;
    }

-- The new object of a name is in, and the old one is there.
pub old-there :
    (f old : Fd) (s t : Fds)
    → IsTable s.next_id s.index
    → f.id ≡ s.next_id
    → by_name f.name s.index ≡ some old
    → t.index ≡ insert_sorted less_name f s.index
    → lookup_id old.id t.index ≡ some old
old-there f old s t v o e k =
    let placed = by_name-IsPlaced s.next_id f s.index (some old) v o e in
    ap (lookup_id old.id) k
    ∙ lookup_id-insert old.id f s.index placed.apart
    ∙ lookup_id-by_name f.name old s.index v.unique e

-- The new object of a name is in, and the old one goes.
pub delete_at-Deletes :
    (f : Fd) (old : Option Fd) (s t : Fds)
    → IsTable s.next_id s.index
    → f.id ≡ s.next_id
    → by_name f.name s.index ≡ old
    → t.index ≡ insert_sorted less_name f s.index
    → Deletes old (replace (gone old s.next_id) (old_peer old) f s.index) t
delete_at-Deletes f none s t v o e k = record {
  state = t;
  deleted = refl;
  index_is =
      k
      ∙ sym (
          remove-absent (suc (suc s.next_id)) (insert_sorted less_name f s.index) (
            All-insert_sorted _ f s.index (λ q. omega (arith, q, o))
              (absent s.next_id (suc (suc s.next_id)) s.index (omega arith) v.below)));
  next_is = refl;
  memory_is = refl;
  closed_is = refl;
  log_is = refl;
}
delete_at-Deletes f (some old) s t v o e k =
    subst (λ l. Deletes (some old) (remove old.id (clear_peer (peer_of old.attr) l)) t) k
      (delete-Deletes old old t (old-there f old s t v o e k) refl)

pub close_old-entered :
    (old : Option Fd) (name : Bytes) (size : ℕ) (s : Fds)
    → ((close_old old (entered name size s)).closed ≡ (close_old old s).closed)
      × ((close_old old (entered name size s)).log ≡ (close_old old s).log)
close_old-entered none name size s = (refl, refl)
close_old-entered (some o) name size s = by_num o.num
  where
    by_num :
        (num : Option ℕ)
        → ((close_num num (entered name size s)).closed ≡ (close_num num s).closed)
          × ((close_num num (entered name size s)).log ≡ (close_num num s).log)
    by_num none = (refl, refl)
    by_num (some n) = (refl, refl)

-- An object below `n`, or none
abbrev pub IsBelow : ℕ → Option Fd → Type 0
IsBelow n none = Unit
IsBelow n (some f) = f.id < n

pub by_name-IsBelow :
    (name : Bytes) (n : ℕ) (fs : List Fd) → All (λ f. f.id < n) fs → IsBelow n (by_name name fs)
unfolding by_name
by_name-IsBelow name n [] h = tt
by_name-IsBelow name n (f ∷ fs) h =
    by_test (IsBelow n) (eq_bytes name f.name) _ _ (λ e. h.0) (λ e. by_name-IsBelow name n fs h.1)

pub cleared-IsBelow : (n : ℕ) (p : Option ℕ) (o : Option Fd) → IsBelow n o → IsBelow n (cleared p o)
cleared-IsBelow n none o h = h
cleared-IsBelow n (some j) none h = tt
cleared-IsBelow n (some j) (some f) h =
    by_test (λ (g : Fd). g.id < n) (f.id == j) _ _ (λ e. h) (λ e. h)

pub changed_below :
    (n i : ℕ) (g : Fd → Fd) (o : Option Fd) → n ≤ i → IsBelow n o → changed i g o ≡ o
changed_below n i g none l h = refl
changed_below n i g (some f) l h =
    let apart : (f.id == i) ≡ false = ground (arith, h, l) in rw apart refl
