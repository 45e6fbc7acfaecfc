-- ===== src/Fd/Laws.antt =====
-- src/fd.c: the index of the objects, as they are inserted, removed and changed.
use daemonproxy.Common.{
  ℕ, Bool, true, false, ◌&&◌, Option, some, none, List, [], ◌∷◌, Bytes, ◌==◌, if◌then◌else◌, ◌≡◌,
  ◌≢◌, refl, sym, ap, ◌∙◌, arith, All, Bool-cases, inl, inr, by_test,
}
use daemonproxy.Strseg.{cmp_bytes}
use daemonproxy.Strseg.Cmp.{eq_bytes, eq_bytes_iff, eq_bytes_ne}
use daemonproxy.RbTree.Contents.{insert_sorted, AreSorted}
use daemonproxy.Fd.{Attr, Fd, is_less, less_name, by_name, has_id, peer_of, peer_at, remove, update}

-- No two objects have a name or a pointer in common.
abbrev pub IsUnique : List Fd → Type 0
IsUnique [] = Unit
IsUnique (f ∷ fs) = All (λ g. (g.name ≢ f.name) × (g.id ≢ f.id)) fs × IsUnique fs

-- A change of an object that keeps its pointer and its name
abbrev pub Keeps : (Fd → Fd) → Type 0
Keeps g = (f : Fd) → ((g f).id ≡ f.id) × ((g f).name ≡ f.name)

abbrev pub chosen : ℕ → (Fd → Fd) → Fd → Fd
chosen i g f = if f.id == i then g f else f

pub chosen-Keeps :
    (i : ℕ) (g : Fd → Fd) (f : Fd)
    → Keeps g
    → ((chosen i g f).id ≡ f.id) × ((chosen i g f).name ≡ f.name)
chosen-Keeps i g f k =
    by_test (λ (h : Fd). (h.id ≡ f.id) × (h.name ≡ f.name)) (f.id == i) (g f) f (λ e. k f)
      (λ e. (refl, refl))

pub All-remove {ℓ} : (P : Fd → Type ℓ) (i : ℕ) (fs : List Fd) → All P fs → All P (remove i fs)
unfolding remove
All-remove P i [] h = tt
All-remove P i (f ∷ fs) h =
    by_test (All P) (f.id == i) _ _ (λ e. All-remove P i fs h.1) (λ e. (h.0, All-remove P i fs h.1))

pub All-update {ℓ} :
    (P : Fd → Type ℓ) (i : ℕ) (g : Fd → Fd) (fs : List Fd)
    → ((f : Fd) → P f → P (g f))
    → All P fs
    → All P (update i g fs)
unfolding update
All-update P i g [] k h = tt
All-update P i g (f ∷ fs) k h =
    (by_test P (f.id == i) (g f) f (λ e. k f h.0) (λ e. h.0), All-update P i g fs k h.1)

pub All-insert_sorted {ℓ} :
    (P : Fd → Type ℓ) (f : Fd) (fs : List Fd)
    → P f
    → All P fs
    → All P (insert_sorted less_name f fs)
All-insert_sorted P f [] p h = (p, tt)
All-insert_sorted P f (g ∷ gs) p h =
    by_test (All P) (less_name f g) _ _ (λ e. (p, h)) (λ e. (h.0, All-insert_sorted P f gs p h.1))

-- Those that a removal leaves have another pointer.
All-left {ℓ} :
    (P : Fd → Type ℓ) (i : ℕ) (fs : List Fd)
    → All (λ f. (f.id == i) ≡ false → P f) fs
    → All P (remove i fs)
unfolding remove
All-left P i [] h = tt
All-left P i (f ∷ fs) h =
    by_test (All P) (f.id == i) _ _ (λ e. All-left P i fs h.1) (λ e. (h.0 e, All-left P i fs h.1))

pub remove-update :
    (i j : ℕ) (g : Fd → Fd) (fs : List Fd)
    → Keeps g
    → remove i (update j g fs) ≡ update j g (remove i fs)
unfolding remove update
remove-update i j g [] k = refl
remove-update i j g (f ∷ fs) k = elim (Bool-cases (f.id == i)) [
  | inl e ↦ rw ((chosen-Keeps j g f k).0, e) (remove-update i j g fs k)
  | inr e ↦ rw ((chosen-Keeps j g f k).0, e) (ap (λ l. chosen j g f ∷ l) (remove-update i j g fs k))
]

pub remove-IsUnique : (i : ℕ) (fs : List Fd) → IsUnique fs → IsUnique (remove i fs)
unfolding remove
remove-IsUnique i [] u = tt
remove-IsUnique i (f ∷ fs) u =
    by_test IsUnique (f.id == i) _ _ (λ e. remove-IsUnique i fs u.1)
      (λ e. (All-remove _ i fs u.0, remove-IsUnique i fs u.1))

pub update-IsUnique :
    (i : ℕ) (g : Fd → Fd) (fs : List Fd) → Keeps g → IsUnique fs → IsUnique (update i g fs)
unfolding update
update-IsUnique i g [] k u = tt
update-IsUnique i g (f ∷ fs) k u =
    let kept = chosen-Keeps i g f k in
    (
      All-update _ i g fs (λ h p. ((λ e. p.0 (sym (k h).1 ∙ e)), (λ e. p.1 (sym (k h).0 ∙ e))))
          (rw (kept.0, kept.1) u.0),
      update-IsUnique i g fs k u.1,
    )

pub remove-AreSorted :
    (i : ℕ) (fs : List Fd) → AreSorted less_name fs → AreSorted less_name (remove i fs)
unfolding remove
remove-AreSorted i [] s = tt
remove-AreSorted i (f ∷ fs) s =
    by_test (AreSorted less_name) (f.id == i) _ _ (λ e. remove-AreSorted i fs s.1)
      (λ e. (All-remove _ i fs s.0, remove-AreSorted i fs s.1))

pub update-AreSorted :
    (i : ℕ) (g : Fd → Fd) (fs : List Fd)
    → Keeps g
    → AreSorted less_name fs
    → AreSorted less_name (update i g fs)
unfolding update
update-AreSorted i g [] k s = tt
update-AreSorted i g (f ∷ fs) k s =
    let kept = chosen-Keeps i g f k in
    (
      All-update (λ h. is_less (cmp_bytes h.name (chosen i g f).name) ≡ false) i g fs
          (λ h p. rw (k h).1 p) (rw kept.1 s.0),
      update-AreSorted i g fs k s.1,
    )

-- What only the object at `i` may have in common with `f`
abbrev pub IsPlace : ℕ → Fd → List Fd → Type 0
IsPlace i f = All (λ g. (g.name ≡ f.name → g.id ≡ i) × (g.id ≡ i → g.name ≡ f.name) × (g.id ≢ f.id))

others-differ :
    (i : ℕ) (f : Fd) (fs : List Fd)
    → IsPlace i f fs
    → All (λ g. (g.id == i) ≡ false → (g.name ≢ f.name) × (g.id ≢ f.id)) fs
others-differ i f [] h = tt
others-differ i f (g ∷ gs) h =
    ((λ e. ((λ q. absurd (ground (arith, h.0.0 q, e))), h.0.2)), others-differ i f gs h.1)

pub remove-insert-IsUnique :
    (i : ℕ) (f : Fd) (fs : List Fd)
    → f.id ≢ i
    → IsPlace i f fs
    → IsUnique fs
    → IsUnique (remove i (insert_sorted less_name f fs))
unfolding remove
remove-insert-IsUnique i f [] n h u = by_test IsUnique (f.id == i) _ _ (λ e. tt) (λ e. (tt, tt))
remove-insert-IsUnique i f (g ∷ gs) n h u = elim (Bool-cases (less_name f g)) [
  | inl e ↦ rw e (
      by_test IsUnique (f.id == i) _ _ (λ q. remove-IsUnique i (g ∷ gs) u)
        (λ q. (All-left _ i (g ∷ gs) (others-differ i f (g ∷ gs) h), remove-IsUnique i (g ∷ gs) u)))
  | inr e ↦
      let later = remove-insert-IsUnique i f gs n h.1 u.1 in
      rw e (
        by_test IsUnique (g.id == i) _ _ (λ q. later)
          (λ q. (
            All-remove _ i (insert_sorted less_name f gs) (
                All-insert_sorted _ f gs
                  ((λ r. absurd (ground (arith, h.0.0 (sym r), q))), (λ r. h.0.2 (sym r))) u.0),
            later,
          )))
]

pub remove-absent : (i : ℕ) (fs : List Fd) → All (λ f. f.id ≢ i) fs → remove i fs ≡ fs
unfolding remove
remove-absent i [] h = refl
remove-absent i (f ∷ fs) h = elim (Bool-cases (f.id == i)) [
  | inl e ↦ absurd (h.0 (ground (arith, e)))
  | inr e ↦ rw e (ap (λ l. f ∷ l) (remove-absent i fs h.1))
]

-- The search by name

abbrev pub changed : ℕ → (Fd → Fd) → Option Fd → Option Fd
changed i g none = none
changed i g (some f) = some (chosen i g f)

pub by_name-update :
    (name : Bytes) (i : ℕ) (g : Fd → Fd) (fs : List Fd)
    → Keeps g
    → by_name name (update i g fs) ≡ changed i g (by_name name fs)
unfolding by_name update
by_name-update name i g [] k = refl
by_name-update name i g (f ∷ fs) k =
    rw (chosen-Keeps i g f k).1 (elim (Bool-cases (eq_bytes name f.name)) [
      | inl e ↦ rw e refl
      | inr e ↦ rw e (by_name-update name i g fs k)
    ])

pub by_name-remove :
    (name other : Bytes) (i : ℕ) (fs : List Fd)
    → eq_bytes name other ≡ false
    → All (λ g. g.id ≡ i → g.name ≡ other) fs
    → by_name name (remove i fs) ≡ by_name name fs
unfolding by_name remove
by_name-remove name other i [] n h = refl
by_name-remove name other i (f ∷ fs) n h = elim (Bool-cases (f.id == i)) [
  | inl e ↦
      let same_name : f.name ≡ other = h.0 (ground (arith, e)) in
      rw (e, same_name, n) (by_name-remove name other i fs n h.1)
  | inr e ↦
      rw e (
        ap (λ l. if eq_bytes name f.name then some f else l) (by_name-remove name other i fs n h.1))
]

pub place-name :
    (i : ℕ) (f : Fd) (fs : List Fd) → IsPlace i f fs → All (λ g. g.id ≡ i → g.name ≡ f.name) fs
place-name i f [] h = tt
place-name i f (g ∷ gs) h = (h.0.1, place-name i f gs h.1)

if_same :
    (a b : Bool) (x y l : Option Fd)
    → b ≡ a
    → (if a then x else l) ≡ (if a then x else if b then y else l)
if_same true b x y l e = refl
if_same false b x y l e = rw e refl

if_swap :
    (a b : Bool) (x y l : Option Fd)
    → (a ≡ true → b ≡ false)
    → (if b then y else if a then x else l) ≡ (if a then x else if b then y else l)
if_swap true b x y l h = rw (h refl) refl
if_swap false true x y l h = refl
if_swap false false x y l h = refl

pub by_name-remove-insert :
    (name : Bytes) (i : ℕ) (f : Fd) (fs : List Fd)
    → f.id ≢ i
    → IsPlace i f fs
    → by_name name (remove i (insert_sorted less_name f fs))
      ≡ (if eq_bytes name f.name then some f else by_name name fs)
unfolding by_name remove
by_name-remove-insert name i f [] n h =
    let apart : (f.id == i) ≡ false = ground (arith, n) in rw apart refl
by_name-remove-insert name i f (g ∷ gs) n h =
    let apart : (f.id == i) ≡ false = ground (arith, n) in
    let later = by_name-remove-insert name i f gs n h.1 in
    elim (Bool-cases (less_name f g)) [
      | inl e ↦
          rw (e, apart)
            (elim (Bool-cases (eq_bytes name f.name)) [
              | inl q ↦ rw q refl
              | inr q ↦ rw q (by_name-remove name f.name i (g ∷ gs) q (place-name i f (g ∷ gs) h))
            ])
      | inr e ↦ rw e (elim (Bool-cases (g.id == i)) [
        | inl p ↦
            let same_name : g.name ≡ f.name = h.0.1 (ground (arith, p)) in
            rw p (
              later
              ∙ if_same (eq_bytes name f.name) (eq_bytes name g.name) (some f) (some g)
                  (by_name name gs) (ap (eq_bytes name) same_name))
        | inr p ↦
            rw (p, later)
              (if_swap (eq_bytes name f.name) (eq_bytes name g.name) (some f) (some g)
                (by_name name gs)
                (λ q. eq_bytes_ne name g.name (λ r.
                  absurd (ground (arith, p, h.0.0 (sym r ∙ (eq_bytes_iff name f.name).0 q))))))
      ])
    ]

-- The other ends of pipes

pub peer_at-remove :
    (x i : ℕ) (fs : List Fd) → peer_at x (remove i fs) ≡ (if x == i then none else peer_at x fs)
unfolding peer_at remove
peer_at-remove x i [] = ground arith
peer_at-remove x i (f ∷ fs) = ground (arith, peer_at-remove x i fs)

pub peer_at-update :
    (x i : ℕ) (g : Fd → Fd) (a : Attr) (fs : List Fd)
    → Keeps g
    → ((f : Fd) → (g f).attr ≡ a)
    → peer_at x (update i g fs) ≡ (if (x == i) && has_id i fs then peer_of a else peer_at x fs)
unfolding peer_at update
peer_at-update x i g a [] k e = ground arith
peer_at-update x i g a (f ∷ fs) k e = ground (arith, peer_at-update x i g a fs k e, (k f).0, e f)

pub peer_at-insert :
    (x : ℕ) (f : Fd) (fs : List Fd)
    → All (λ g. g.id ≢ f.id) fs
    → peer_at x (insert_sorted less_name f fs)
      ≡ (if x == f.id then peer_of f.attr else peer_at x fs)
unfolding peer_at
peer_at-insert x f [] h = ground arith
peer_at-insert x f (g ∷ gs) h = ground (arith, peer_at-insert x f gs h.1, h.0)
