-- ===== src/Signal/Deliver.antt =====
-- src/signal.c and src/controller.c (`ctl_deliver_signals`): the loop over `sig_get_new_events`.
use daemonproxy.Common.{
  ℕ, zero, suc, ◌≤◌, ◌<◌, true, false, List, [], ◌∷◌, Option, none, some, length, ◌≡◌, arith, All,
  ◌⊎◌, inl, inr, half_word,
}
use daemonproxy.Signal.{SigStatus, Slots, is_new, get_new_events, event_loop, events_since}
use daemonproxy.Signal.Oldest.{
  In, In-times, AreTimes, IsTimed, is_new-cases, Oldest, nothing, event, get_new_events-Oldest,
  count_new, count-lt, count-length, is_new_mono, after_lt,
}

-- Each event is later than the one before it, the first than `since`.
abbrev pub Ascending : ℕ → List SigStatus → Type 0
Ascending since [] = Unit
Ascending since (s ∷ rest) = (since < s.last_received_ts) × Ascending s.last_received_ts rest

abbrev pub Delivered : ℕ → List SigStatus → Type 0
Delivered ts [] = ⊥
Delivered ts (s ∷ rest) = (ts ≡ s.last_received_ts) ⊎ Delivered ts rest

-- The slots of the table that a slot list has not left out.
abbrev pub Covers : ℕ → List SigStatus → Slots → Type 0
Covers since events = All (λ u. (is_new since u ≡ false) ⊎ Delivered u.last_received_ts events)

pub record Delivers (since : ℕ) (t : Slots) (events : List SigStatus) : Type 0 where
  pub ascending : Ascending since events
  pub sound : All (λ s. In s t × (is_new since s ≡ true)) events
  pub complete : Covers since events t

no_event : (since : ℕ) (t : Slots) → All (λ u. is_new since u ≡ false) t → Covers since [] t
no_event since [] n = tt
no_event since (u ∷ t) n = (inl n.0, no_event since t n.1)

Covers-step :
    (since : ℕ) (s : SigStatus) (events : List SigStatus) (t : Slots)
    → IsTimed s
    → AreTimes t
    → All (λ u. (is_new since u ≡ false) ⊎ (s.last_received_ts ≤ u.last_received_ts)) t
    → Covers s.last_received_ts events t
    → Covers since (s ∷ events) t
Covers-step since s events [] hs a l c = tt
Covers-step since s events (u ∷ t) hs a l c =
    (covered l.0 c.0, Covers-step since s events t hs a.1 l.1 c.1)
  where
    covered :
        (is_new since u ≡ false) ⊎ (s.last_received_ts ≤ u.last_received_ts)
        → (is_new s.last_received_ts u ≡ false) ⊎ Delivered u.last_received_ts events
        → (is_new since u ≡ false) ⊎ Delivered u.last_received_ts (s ∷ events)
    covered (inl e) d = inl e
    covered (inr h) (inr d) = inr (inr d)
    covered (inr h) (inl e) = elim (is_new-cases since u a.0) [
      | inl n ↦ inl n
      | inr (n, tu) ↦
          inr (inl (ground (arith, after_lt u.last_received_ts s.last_received_ts tu.1 hs.1)))
    ]

sound-step :
    (since : ℕ) (s : SigStatus) (t : Slots) (events : List SigStatus)
    → since < half_word
    → IsTimed s
    → AreTimes t
    → is_new since s ≡ true
    → All (λ e. In e t × (is_new s.last_received_ts e ≡ true)) events
    → All (λ e. In e t × (is_new since e ≡ true)) events
sound-step since s t [] h hs a n d = tt
sound-step since s t (e ∷ events) h hs a n d = (
  (d.0.0, (is_new_mono since s e h hs (In-times s.last_received_ts d.0.1 d.0.0 a) n d.0.1).0),
  sound-step since s t events h hs a n d.1,
)

-- One round: the rounds after it deliver what is later than the event.
deliver-step :
    (fuel since : ℕ) (t : Slots) (r : Option SigStatus)
    → since < half_word
    → AreTimes t
    → Oldest since t r
    → ((s : SigStatus)
        → In s t
        → is_new since s ≡ true
        → Delivers s.last_received_ts t (event_loop fuel s.last_received_ts t))
    → Delivers since t (elim r [ none ↦ [] | some s ↦ s ∷ event_loop fuel s.last_received_ts t ])
deliver-step fuel since t none h a (nothing n) later = record {
  ascending = tt;
  sound = tt;
  complete = no_event since t n;
}
deliver-step fuel since t (some s) h a (event i n l) later =
    let d = later s i n in
    let times = In-times since n i a in
    record {
      ascending = (ground (arith, after_lt s.last_received_ts since times.1 h), d.ascending);
      sound = ((i, n), sound-step since s t _ h times a n d.sound);
      complete = Covers-step since s _ t times a l d.complete;
    }

event_loop-Delivers :
    (fuel since : ℕ) (t : Slots)
    → since < half_word
    → AreTimes t
    → count_new since t < fuel
    → Delivers since t (event_loop fuel since t)
unfolding event_loop
event_loop-Delivers zero since t h a c = elim c [ ]
event_loop-Delivers (suc fuel) since t h a c =
    deliver-step fuel since t (get_new_events since t) h a (get_new_events-Oldest since t a)
      (λ s i n.
        event_loop-Delivers fuel s.last_received_ts t (In-times since n i a).1 a
          (omega (arith, count-lt since h n i a)))

-- The loop that follows the timestamp of each event to the next ends within one round for each slot.
-- Its events are slots of the table that have a count and are later than `since`, in strictly
-- ascending order, and every such slot has its timestamp among them. Timestamps of slots
-- with a count are nonzero and, with `since`, below 2^63.
pub events_since-Delivers :
    (since : ℕ) (t : Slots)
    → since < half_word
    → AreTimes t
    → Delivers since t (events_since since t)
events_since-Delivers since t h a =
    event_loop-Delivers (suc (length t)) since t h a (omega (arith, count-length since t))
