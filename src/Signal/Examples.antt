-- ===== src/Signal/Examples.antt =====
-- src/signal.c: the theorems at concrete tables, and tests.
use daemonproxy.Common.{ℕ, ◌+◌, ◌%◌, ◌^◌, [], ◌∷◌, ◌≡◌, refl, arith, ◌==◌, if◌then◌else◌}
use daemonproxy.Signal.{
  SigStatus, free_slot, Slots, record_signal, merge_slots, get_new_events, event_loop, events_since,
}
use daemonproxy.Signal.Record.{pending_of, record_signal-counts, merge_slots-once}
use daemonproxy.Signal.Oldest.{Oldest, get_new_events-Oldest}
use daemonproxy.Signal.Deliver.{Delivers, events_since-Delivers}

abbrev slot : ℕ → ℕ → ℕ → SigStatus
slot sig ts n = record { signum = sig; last_received_ts = ts; number_pending = n }

-- SIGINT at 50, twice, and SIGTERM at 20; SIGHUP is cleared.
abbrev table : Slots
table = slot 2 50 2 ∷ slot 1 30 0 ∷ slot 15 20 1 ∷ free_slot ∷ []

-- Three SIGHUPs since the last merge.
abbrev hups : Slots
hups = slot 1 70 3 ∷ free_slot ∷ []

events_of_table : events_since 0 table ≡ slot 15 20 1 ∷ slot 2 50 2 ∷ []
unfolding event_loop get_new_events
events_of_table = refl

-- The three are counted as one.
merged_hups : pending_of 1 (merge_slots table hups) ≡ 1
unfolding merge_slots
merged_hups = refl

record_signal-counts_example : pending_of 2 (record_signal table 2 90 1) ≡ 3
record_signal-counts_example =
    record_signal-counts table 2 90 1 2 (omega arith) (omega arith) (ground arith) refl

merge_slots-once_example :
    pending_of 1 (merge_slots table hups)
    ≡ (if pending_of 1 hups == 0 then pending_of 1 table else (pending_of 1 table + 1) % 2 ^ 32)
merge_slots-once_example =
    merge_slots-once hups table 1 (omega arith) (ground arith) (ground arith) (ground arith)
      (omega arith)

get_new_events-Oldest_example : Oldest 20 table (get_new_events 20 table)
get_new_events-Oldest_example = get_new_events-Oldest 20 table (ground arith)

events_since-Delivers_example : Delivers 0 table (events_since 0 table)
events_since-Delivers_example = events_since-Delivers 0 table (omega arith) (ground arith)
