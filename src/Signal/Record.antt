-- ===== src/Signal/Record.antt =====
-- src/signal.c: what `record_signal`, `merge_new_signals` and `sig_mark_seen` do to the counts.
use daemonproxy.Common.{
  ℕ, ◌+◌, ◌-◌, ◌%◌, ◌^◌, ◌≤◌, ◌<◌, Bool, true, false, ◌||◌, [], ◌∷◌, ◌==◌, if◌then◌else◌, ◌≡◌, ◌≢◌,
  refl, subst, arith, All, ◌⊎◌, inl, inr, Bool-cases,
}
use daemonproxy.Signal.{SigStatus, Slots, claim, record_signal, merge_slots, discount, mark_seen}

-- The count that a table keeps of a signal.
abbrev pub pending_of : ℕ → Slots → ℕ
pending_of sig [] = 0
pending_of sig (s ∷ rest) = if s.signum == sig then s.number_pending else pending_of sig rest

abbrev pub AllFree : Slots → Type 0
AllFree = All (λ s. s.signum ≡ 0)

abbrev pub Absent : ℕ → Slots → Type 0
Absent sig = All (λ s. s.signum ≢ sig)

-- The slots in use stand in front, and no two are of one signal.
abbrev pub IsTable : Slots → Type 0
IsTable [] = Unit
IsTable (s ∷ rest) =
    (s.signum ≡ 0) × AllFree rest ⊎ (s.signum ≢ 0) × Absent s.signum rest × IsTable rest

-- The signal has a slot, or there is a free one.
abbrev pub has_slot : ℕ → Slots → Bool
has_slot sig [] = false
has_slot sig (s ∷ rest) = s.signum == 0 || s.signum == sig || has_slot sig rest

pending_of-free : (sig : ℕ) (t : Slots) → sig ≢ 0 → AllFree t → pending_of sig t ≡ 0
pending_of-free sig [] n f = refl
pending_of-free sig (s ∷ rest) n f = ground (arith, pending_of-free sig rest n f.1)

pending_of-Absent : (sig : ℕ) (t : Slots) → Absent sig t → pending_of sig t ≡ 0
pending_of-Absent sig [] f = refl
pending_of-Absent sig (s ∷ rest) f = ground (arith, pending_of-Absent sig rest f.1)

record_self :
    (t : Slots) (sig ts count : ℕ)
    → sig ≢ 0
    → IsTable t
    → has_slot sig t ≡ true
    → pending_of sig (record_signal t sig ts count) ≡ (pending_of sig t + 1) % 2 ^ 32
unfolding record_signal
record_self [] sig ts count n i h = cc
record_self (s ∷ []) sig ts count n i h = ground arith
record_self (s ∷ u ∷ rest) sig ts count n (inl i) h =
    ground (arith, pending_of-free sig (u ∷ rest) n i.1)
record_self (s ∷ u ∷ rest) sig ts count n (inr i) h =
    ground (arith, record_self (u ∷ rest) sig ts count n i.2)

record_other :
    (t : Slots) (sig ts count j : ℕ)
    → j ≢ sig
    → j ≢ 0
    → IsTable t
    → has_slot sig t ≡ true
    → pending_of j (record_signal t sig ts count) ≡ pending_of j t
unfolding record_signal
record_other [] sig ts count j n z i h = cc
record_other (s ∷ []) sig ts count j n z i h = ground arith
record_other (s ∷ u ∷ rest) sig ts count j n z (inl i) h =
    ground (arith, pending_of-free j (u ∷ rest) z i.1)
record_other (s ∷ u ∷ rest) sig ts count j n z (inr i) h =
    ground (arith, record_other (u ∷ rest) sig ts count j n z i.2)

record_Absent :
    (t : Slots) (sig ts count j : ℕ)
    → j ≢ sig
    → Absent j t
    → Absent j (record_signal t sig ts count)
unfolding record_signal
record_Absent [] sig ts count j n a = tt
record_Absent (s ∷ []) sig ts count j n a = ground arith
record_Absent (s ∷ u ∷ rest) sig ts count j n a =
    ground (arith, record_Absent (u ∷ rest) sig ts count j n a.1)

free-Absent : (sig : ℕ) (t : Slots) → sig ≢ 0 → AllFree t → Absent sig t
free-Absent sig [] n f = tt
free-Absent sig (s ∷ rest) n f = ground (arith, free-Absent sig rest n f.1)

free-IsTable : (t : Slots) → AllFree t → IsTable t
free-IsTable [] f = tt
free-IsTable (s ∷ rest) f = inl f

claim-signum : (sig ts : ℕ) (s : SigStatus) → (claim sig ts s).signum ≡ sig
claim-signum sig ts s = ground arith

claimed-IsTable :
    (sig ts : ℕ) (s : SigStatus) (rest : Slots)
    → sig ≢ 0
    → Absent sig rest
    → IsTable rest
    → IsTable (claim sig ts s ∷ rest)
claimed-IsTable sig ts s rest n a i = inr (rw (claim-signum sig ts s) (n, a, i))

-- The slots of a table stay in order.
pub record_IsTable :
    (t : Slots) (sig ts count : ℕ) → sig ≢ 0 → IsTable t → IsTable (record_signal t sig ts count)
unfolding record_signal
record_IsTable [] sig ts count n i = tt
record_IsTable (s ∷ []) sig ts count n i = claimed-IsTable sig ts s [] n tt tt
record_IsTable (s ∷ u ∷ rest) sig ts count n (inl i) =
    let test : (s.signum == 0 || s.signum == sig) ≡ true = ground arith in
    rw test (
      claimed-IsTable sig ts s (u ∷ rest) n (free-Absent sig (u ∷ rest) n i.1)
        (free-IsTable (u ∷ rest) i.1))
record_IsTable (s ∷ u ∷ rest) sig ts count n (inr i) =
    elim (Bool-cases (s.signum == 0 || s.signum == sig)) [
      | inl e ↦
          let same : s.signum ≡ sig = ground arith in
          rw e
            (claimed-IsTable sig ts s (u ∷ rest) n (subst (λ k. Absent k (u ∷ rest)) same i.1) i.2)
      | inr e ↦ rw e (
          inr (
            i.0,
            record_Absent (u ∷ rest) sig ts count s.signum (ground arith) i.1,
            record_IsTable (u ∷ rest) sig ts count n i.2,
          ))
    ]

-- `record_signal` adds one to the count of its signal and leaves all others alone, where the signal
-- has a slot or one is free.
pub record_signal-counts :
    (t : Slots) (sig ts count j : ℕ)
    → sig ≢ 0
    → j ≢ 0
    → IsTable t
    → has_slot sig t ≡ true
    → pending_of j (record_signal t sig ts count)
      ≡ (if j == sig then (pending_of j t + 1) % 2 ^ 32 else pending_of j t)
record_signal-counts t sig ts count j n z i h =
    ground (arith, record_self t sig ts count n i h, record_other t sig ts count j)

-- In a table of new signals, the slots in use are those with a count.
abbrev pub IsCounted : Slots → Type 0
IsCounted =
    All (λ s. (s.signum ≡ 0) × (s.number_pending ≡ 0) ⊎ (s.signum ≢ 0) × (s.number_pending ≢ 0))

abbrev pub free_count : Slots → ℕ
free_count [] = 0
free_count (s ∷ rest) = (if s.signum == 0 then 1 else 0) + free_count rest

abbrev pub used_count : Slots → ℕ
used_count [] = 0
used_count (s ∷ rest) = (if s.signum == 0 then 0 else 1) + used_count rest

has_slot-free : (sig : ℕ) (t : Slots) → 0 < free_count t → has_slot sig t ≡ true
has_slot-free sig [] h = elim h [ ]
has_slot-free sig (s ∷ rest) h = ground (arith, has_slot-free sig rest)

free-record :
    (t : Slots) (sig ts count : ℕ) → free_count t ≤ free_count (record_signal t sig ts count) + 1
unfolding record_signal
free-record [] sig ts count = omega arith
free-record (s ∷ []) sig ts count = ground arith
free-record (s ∷ u ∷ rest) sig ts count = ground (arith, free-record (u ∷ rest) sig ts count)

-- A merge counts each new signal once, however often it was received since the last merge. The new
-- signals stand in a table of their own, and there are free slots for all of them.
pub merge_slots-once :
    (new t : Slots) (j : ℕ)
    → j ≢ 0
    → IsTable new
    → IsCounted new
    → IsTable t
    → used_count new ≤ free_count t
    → pending_of j (merge_slots t new)
      ≡ (if pending_of j new == 0 then pending_of j t else (pending_of j t + 1) % 2 ^ 32)
unfolding merge_slots
merge_slots-once [] t j z d c i h = refl
merge_slots-once (n ∷ ns) t j z (inl d) c i h = ground (arith, pending_of-free j ns z d.1)
merge_slots-once (n ∷ ns) t j z (inr d) c i h =
    let sig = n.signum in
    let ts = n.last_received_ts in
    let count = n.number_pending in
    let room : has_slot sig t ≡ true = has_slot-free sig t (ground arith) in
    ground (
      arith,
      record_signal-counts t sig ts count j d.0 z i room,
      pending_of-Absent sig ns d.1,
      merge_slots-once ns (record_signal t sig ts count) j z d.2 c.1
          (record_IsTable t sig ts count d.0 i) (ground (arith, free-record t sig ts count)),
    )

discount_bounds :
    (pending count : ℕ)
    → pending < 2 ^ 31
    → count < 2 ^ 31
    → discount pending count ≡ pending - count
discount_bounds pending count hp hc = ground arith

-- `sig_mark_seen` takes a count off the signal's own, down to 0 at the lowest, and no other changes.
pub mark_seen-counts :
    (t : Slots) (sig count j : ℕ)
    → pending_of sig t < 2 ^ 31
    → count < 2 ^ 31
    → pending_of j (mark_seen sig count t)
      ≡ (if j == sig then pending_of j t - count else pending_of j t)
unfolding mark_seen
mark_seen-counts [] sig count j hp hc = ground arith
mark_seen-counts (s ∷ rest) sig count j hp hc =
    ground (arith, mark_seen-counts rest sig count j, discount_bounds s.number_pending count)
