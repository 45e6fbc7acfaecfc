-- ===== src/Signal.antt =====
-- src/signal.c: the tables of received signals.
-- A table is a list of slots (16 in the program); counts are `int`s and timestamps `int64_t`s, both as
-- bit patterns. The handlers, the self-pipe and the signal mask are outside the model: `sig_handler`
-- adds to `new_signals` by `record_signal`, and the main loop merges with the signals blocked.

pub mod Record
pub mod Oldest
pub mod Deliver
mod Examples
use daemonproxy.Common.{
  ℕ, zero, suc, ◌+◌, ◌-◌, ◌%◌, ◌^◌, Bool, true, false, not, ◌&&◌, ◌||◌, Option, none, some, List,
  [], ◌∷◌, map, length, ltb, leb, ◌==◌, if◌then◌else◌, after, add64,
}

pub record SigStatus : Type 0 where
  pub signum : ℕ
  pub last_received_ts : ℕ
  pub number_pending : ℕ

abbrev pub free_slot : SigStatus
free_slot = record { signum = 0; last_received_ts = 0; number_pending = 0 }

abbrev pub Slots : Type 0
Slots = List SigStatus

-- The slot that the search stopped at: count up, or claim it.
abbrev pub claim : ℕ → ℕ → SigStatus → SigStatus
claim sig ts s =
    if s.signum == sig
    then record s { last_received_ts = ts; number_pending = (s.number_pending + 1) % 2 ^ 32 }
    else record { signum = sig; last_received_ts = ts; number_pending = 1 }

-- `record_signal`: it stops at the signal's slot, at a free one, or at the last. The source takes a
-- count too, and does not use it.
unfoldable pub record_signal : Slots → ℕ → ℕ → ℕ → Slots
record_signal [] sig ts count = []
record_signal (s ∷ []) sig ts count = claim sig ts s ∷ []
record_signal (s ∷ t ∷ rest) sig ts count =
    let later = record_signal (t ∷ rest) sig ts count in
    if s.signum == 0 || s.signum == sig then claim sig ts s ∷ t ∷ rest else s ∷ later

-- The timestamp that `sig_handler` gives: none is 0, and none the previous one.
unfoldable pub handler_ts : ℕ → ℕ → ℕ
handler_ts prev now =
    let t = if now == prev then add64 now 1 else now in if t == 0 then add64 t 1 else t

-- `sig_handler`: the previous timestamp and the new signals.
unfoldable pub sig_handler : ℕ → ℕ → ℕ → Slots → ℕ × Slots
unfolding handler_ts record_signal
sig_handler sig now prev new = let ts = handler_ts prev now in (ts, record_signal new sig ts 1)

-- The loop of `merge_new_signals`, which stops at the first slot with no count.
unfoldable pub merge_slots : Slots → Slots → Slots
unfolding record_signal
merge_slots signals [] = signals
merge_slots signals (n ∷ ns) =
    let rest =
      merge_slots (record_signal signals n.signum n.last_received_ts n.number_pending) ns in
    if n.number_pending == 0 then signals else rest

-- `merge_new_signals`: the known signals, and the new ones wiped.
unfoldable pub merge_new_signals : Slots → Slots → Slots × Slots
unfolding merge_slots
merge_new_signals signals new = (merge_slots signals new, map (λ _. free_slot) new)

abbrev pub is_pending : SigStatus → Bool
is_pending s = ltb 0 s.number_pending && ltb s.number_pending (2 ^ 31)

-- The first two tests of `sig_get_new_events`.
abbrev pub is_new : ℕ → SigStatus → Bool
is_new since s = is_pending s && (since == 0 || after s.last_received_ts since)

-- `oldest < 0 || signals[oldest].last_received_ts - signals[i].last_received_ts > 0`
abbrev pub beats : SigStatus → Option SigStatus → Bool
beats s none = true
beats s (some o) = after o.last_received_ts s.last_received_ts

unfoldable pub oldest : ℕ → Option SigStatus → Slots → Option SigStatus
oldest since best [] = best
oldest since best (s ∷ rest) =
    oldest since (if is_new since s && beats s best then some s else best) rest

-- `sig_get_new_events`; `none` is its result false.
unfoldable pub get_new_events : ℕ → Slots → Option SigStatus
unfolding oldest
get_new_events since signals = oldest since none signals

-- `while (sig_get_new_events(ts, &signum, &ts, &count))`, with the events in order.
unfoldable pub event_loop : ℕ → ℕ → Slots → List SigStatus
event_loop zero since signals = []
event_loop (suc fuel) since signals = elim (get_new_events since signals) [
  | none ↦ []
  | some s ↦ s ∷ event_loop fuel s.last_received_ts signals
]

-- The loop makes one round for each slot at most.
abbrev pub events_since : ℕ → Slots → List SigStatus
events_since since signals = event_loop (suc (length signals)) since signals

-- `number_pending -= count`, and 0 for what falls below it.
abbrev pub discount : ℕ → ℕ → ℕ
discount pending count =
    let left = (pending + 2 ^ 32 - count % 2 ^ 32) % 2 ^ 32 in if leb (2 ^ 31) left then 0 else left

-- `sig_mark_seen`
unfoldable pub mark_seen : ℕ → ℕ → Slots → Slots
mark_seen sig count [] = []
mark_seen sig count (s ∷ rest) =
    if s.signum == sig
    then record s { number_pending = discount s.number_pending count } ∷ rest
    else s ∷ mark_seen sig count rest
