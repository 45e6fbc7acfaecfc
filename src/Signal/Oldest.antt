-- ===== src/Signal/Oldest.antt =====
-- src/signal.c, `sig_get_new_events`: the oldest event after a timestamp, and the loop over them that
-- src/controller.c and src/service.c make.
use daemonproxy.Common.{
  ℕ, ◌+◌, ◌≤◌, ◌<◌, true, false, Option, none, some, [], ◌∷◌, length, ltb, if◌then◌else◌, ◌≡◌, refl,
  arith, All, ◌⊎◌, inl, inr, Bool-cases, after, half_word,
}
use daemonproxy.Signal.{SigStatus, Slots, is_pending, is_new, beats, oldest, get_new_events}

pub data In (s : SigStatus) : Slots → Type 0 where
  here : {t : Slots} → In s (s ∷ t)
  there : {u : SigStatus} {t : Slots} → In s t → In s (u ∷ t)

abbrev pub IsTimed : SigStatus → Type 0
IsTimed s = (0 < s.last_received_ts) × (s.last_received_ts < half_word)

-- The clock has not wrapped, and no slot with a count has the timestamp 0.
abbrev pub AreTimes : Slots → Type 0
AreTimes = All (λ s. (is_pending s ≡ false) ⊎ IsTimed s)

-- A slot that is new has a count, so it has its time.
pub is_new-cases :
    (since : ℕ) (s : SigStatus)
    → (is_pending s ≡ false) ⊎ IsTimed s
    → (is_new since s ≡ false) ⊎ (is_new since s ≡ true) × IsTimed s
is_new-cases since s (inl n) = inl (ground arith)
is_new-cases since s (inr t) = elim (Bool-cases (is_new since s)) [
  | inl e ↦ inr (e, t)
  | inr e ↦ inl e
]

pub after_lt : (a b : ℕ) → a < half_word → b < half_word → after a b ≡ ltb b a
after_lt a b ha hb = ground arith

-- What `sig_get_new_events` answers: that nothing is new, or an event that is, and no older one.
pub data Oldest (since : ℕ) (t : Slots) : Option SigStatus → Type 0 where
  nothing : All (λ u. is_new since u ≡ false) t → Oldest since t none
  event :
      {s : SigStatus}
      → In s t
      → is_new since s ≡ true
      → All (λ u. (is_new since u ≡ false) ⊎ (s.last_received_ts ≤ u.last_received_ts)) t
      → Oldest since t (some s)

-- The loop from an event found before.
record Older (since : ℕ) (b : SigStatus) (t : Slots) (r : Option SigStatus) : Type 0 where
  s : SigStatus
  is : r ≡ some s
  from : (s ≡ b) ⊎ In s t
  new : is_new since s ≡ true
  le : s.last_received_ts ≤ b.last_received_ts
  least : All (λ u. (is_new since u ≡ false) ⊎ (s.last_received_ts ≤ u.last_received_ts)) t

behind : {s b : SigStatus} (u : SigStatus) (t : Slots) → (s ≡ b) ⊎ In s t → (s ≡ b) ⊎ In s (u ∷ t)
behind u t (inl q) = inl q
behind u t (inr i) = inr (there i)

oldest-Older :
    (since : ℕ) (b : SigStatus) (t : Slots)
    → is_new since b ≡ true
    → b.last_received_ts < half_word
    → AreTimes t
    → Older since b t (oldest since (some b) t)
unfolding oldest
oldest-Older since b [] n h a = record {
  s = b;
  is = refl;
  from = inl refl;
  new = n;
  le = omega arith;
  least = tt;
}
oldest-Older since b (u ∷ t) n h a = elim (is_new-cases since u a.0) [
  | inl e ↦
      let o = oldest-Older since b t n h a.1 in
      rw e (record {
        s = o.s;
        is = o.is;
        from = behind u t o.from;
        new = o.new;
        le = o.le;
        least = (inl e, o.least);
      })
  | inr (e, tu) ↦ elim (Bool-cases (beats u (some b))) [
    | inl f ↦
        let o = oldest-Older since u t e tu.1 a.1 in
        rw (e, f)
          (record {
            s = o.s;
            is = o.is;
            from = elim (o.from) [ inl q ↦ inr (rw q here) | inr i ↦ inr (there i) ];
            new = o.new;
            le = ground (arith, o.le, after_lt b.last_received_ts u.last_received_ts h tu.1);
            least = (inr o.le, o.least);
          })
    | inr f ↦
        let o = oldest-Older since b t n h a.1 in
        rw (e, f)
          (record {
            s = o.s;
            is = o.is;
            from = behind u t o.from;
            new = o.new;
            le = o.le;
            least = (
              inr (ground (arith, o.le, after_lt b.last_received_ts u.last_received_ts h tu.1)),
              o.least,
            );
          })
  ]
]

skip :
    (since : ℕ) (u : SigStatus) (t : Slots) (r : Option SigStatus)
    → is_new since u ≡ false
    → Oldest since t r
    → Oldest since (u ∷ t) r
skip since u t r n (nothing a) = nothing (n, a)
skip since u t r n (event i e l) = event (there i) e (inl n, l)

first :
    (since : ℕ) (u : SigStatus) (t : Slots) (r : Option SigStatus)
    → Older since u t r
    → Oldest since (u ∷ t) r
first since u t r o =
    rw (o.is)
      (event (elim (o.from) [ inl q ↦ rw q here | inr i ↦ there i ]) o.new (inr o.le, o.least))

oldest-Oldest : (since : ℕ) (t : Slots) → AreTimes t → Oldest since t (oldest since none t)
unfolding oldest
oldest-Oldest since [] a = nothing tt
oldest-Oldest since (u ∷ t) a = elim (is_new-cases since u a.0) [
  | inl e ↦ rw e (skip since u t _ e (oldest-Oldest since t a.1))
  | inr (e, tu) ↦ rw e (first since u t _ (oldest-Older since u t e tu.1 a.1))
]

-- `sig_get_new_events` returns false exactly if no slot with a count is later than the timestamp, and
-- else such a slot of the table with no earlier one. The timestamps of those
-- with a count are nonzero and below 2^63.
pub get_new_events-Oldest :
    (since : ℕ) (t : Slots) → AreTimes t → Oldest since t (get_new_events since t)
unfolding get_new_events
get_new_events-Oldest since t a = oldest-Oldest since t a

abbrev pub count_new : ℕ → Slots → ℕ
count_new since [] = 0
count_new since (u ∷ t) = (if is_new since u then 1 else 0) + count_new since t

pub In-times :
    (since : ℕ) {s : SigStatus} {t : Slots}
    → is_new since s ≡ true
    → In s t
    → AreTimes t
    → IsTimed s
In-times since {s} n here a = elim (is_new-cases since s a.0) [ inl e ↦ cc | inr (e, ts) ↦ ts ]
In-times since n (there i) a = In-times since n i a.1

-- What is later than `s` is later than what `s` is later than.
pub is_new_mono :
    (since : ℕ) (s u : SigStatus)
    → since < half_word
    → IsTimed s
    → IsTimed u
    → is_new since s ≡ true
    → is_new s.last_received_ts u ≡ true
    → (is_new since u ≡ true) × (s.last_received_ts < u.last_received_ts)
is_new_mono since s u h hs hu n m = ground (
  arith,
  after_lt s.last_received_ts since hs.1 h,
  after_lt u.last_received_ts since hu.1 h,
  after_lt u.last_received_ts s.last_received_ts hu.1 hs.1,
)

not-is_new_self : (s : SigStatus) → 0 < s.last_received_ts → is_new s.last_received_ts s ≡ false
not-is_new_self s h = ground arith

abbrev weight : ℕ → SigStatus → ℕ
weight since u = if is_new since u then 1 else 0

weight-le :
    (since : ℕ) (s u : SigStatus)
    → since < half_word
    → IsTimed s
    → is_new since s ≡ true
    → (is_pending u ≡ false) ⊎ IsTimed u
    → weight s.last_received_ts u ≤ weight since u
weight-le since s u h hs n a = elim (is_new-cases s.last_received_ts u a) [
  | inl e ↦ rw e (omega arith)
  | inr (e, tu) ↦ rw (e, (is_new_mono since s u h hs tu n e).0) (omega arith)
]

count-le :
    (since : ℕ) (s : SigStatus) (t : Slots)
    → since < half_word
    → IsTimed s
    → is_new since s ≡ true
    → AreTimes t
    → count_new s.last_received_ts t ≤ count_new since t
count-le since s [] h hs n a = omega arith
count-le since s (u ∷ t) h hs n a =
    omega (arith, weight-le since s u h hs n a.0, count-le since s t h hs n a.1)

pub count-lt :
    (since : ℕ) {s : SigStatus} {t : Slots}
    → since < half_word
    → is_new since s ≡ true
    → In s t
    → AreTimes t
    → count_new s.last_received_ts t < count_new since t
count-lt since {s} h n (here {t}) a =
    let i : In s (s ∷ t) = here in
    let ts = In-times since n i a in
    ground (arith, not-is_new_self s ts.0, count-le since s t h ts n a.1)
count-lt since {s} h n (there {u} {t} i) a =
    omega (arith, weight-le since s u h (In-times since n i a.1) n a.0, count-lt since h n i a.1)

pub count-length : (since : ℕ) (t : Slots) → count_new since t ≤ length t
count-length since [] = omega arith
count-length since (u ∷ t) = ground (arith, count-length since t)
