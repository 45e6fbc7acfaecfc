-- ===== src/Controller/Signals.antt =====
-- src/controller.c: `ctl_get_arg_signal`, and the command `signal.clear`. The list of signals, which the
-- build generates, is a parameter.
use daemonproxy.Common.{
  ℕ, ◌/◌, ◌^◌, false, not, ◌||◌, Option, some, none, [], ◌∷◌, Bytes, length, ltb, ◌==◌,
  if◌then◌else◌, is_negative, ◌≡◌, ◌≢◌, refl, ap, arith, All,
}
use daemonproxy.Strseg.{Seg, tok_next, atoi, is_digit}
use daemonproxy.Signal.{SigStatus, Slots, mark_seen}
use daemonproxy.Service.Settings.{SigList, sig_num_by_name}
use daemonproxy.Controller.Terminate.{get_arg_int}

-- What the command sets `command_error` to.
pub data SignalError : Type 0 where
  expected_signal invalid_number expected_count : SignalError

-- The error, or the number and what is left of the command
pub data SignalArg : Type 0 where
  bad_signal : SignalError → SignalArg
  signal_arg : ℕ → Seg → SignalArg

abbrev number_arg : Seg → Option (ℕ × Bytes) → SignalArg
number_arg rest none = bad_signal invalid_number
number_arg rest (some (i, left)) =
    if ltb 0 (length left) || is_negative i || not (i / 2 ^ 16 == 0)
    then bad_signal invalid_number
    else signal_arg i rest

-- The source refuses a name whose number is below 0; `sig_num_by_name` gives none.
abbrev signal_of : SigList → Option (Bytes × Seg) → SignalArg
signal_of sig_list none = bad_signal expected_signal
signal_of sig_list (some ([], rest)) = bad_signal expected_signal
signal_of sig_list (some (c ∷ cs, rest)) =
    if is_digit c
    then number_arg rest (atoi (c ∷ cs))
    else signal_arg (sig_num_by_name sig_list (c ∷ cs)) rest

-- `ctl_get_arg_signal`
unfoldable pub get_arg_signal : SigList → Seg → SignalArg
unfolding tok_next atoi sig_num_by_name
get_arg_signal sig_list command = signal_of sig_list (tok_next b'\t' command)

abbrev clear_count : ℕ → Slots → Option (ℕ × Seg) → Option SignalError × Slots
clear_count sig slots none = (some expected_count, slots)
clear_count sig slots (some count) = (none, mark_seen sig count.0 slots)

abbrev clear_of : Slots → SignalArg → Option SignalError × Slots
clear_of slots (bad_signal e) = (some e, slots)
clear_of slots (signal_arg sig rest) = clear_count sig slots (get_arg_int rest)

-- `ctl_cmd_signal_clear`
unfoldable pub cmd_signal_clear : SigList → Seg → Slots → Option SignalError × Slots
unfolding get_arg_signal get_arg_int mark_seen
cmd_signal_clear sig_list command slots = clear_of slots (get_arg_signal sig_list command)

mark_seen-absent :
    (sig count : ℕ) (slots : Slots)
    → All (λ (s : SigStatus). s.signum ≢ sig) slots
    → mark_seen sig count slots ≡ slots
unfolding mark_seen
mark_seen-absent sig count [] h = refl
mark_seen-absent sig count (s ∷ rest) h =
    let apart : (s.signum == sig) ≡ false = ground (arith, h.0) in
    rw apart (ap (λ r. s ∷ r) (mark_seen-absent sig count rest h.1))

-- `signal.clear` with a name that no signal has, and a count, reports no error. It changes no signal of a
-- table that has no free slot.
signal_clear_unknown :
    (sig_list : SigList) (c : ℕ) (cs : Bytes) (rest left : Seg) (count : ℕ) (command : Seg)
    (slots : Slots)
    → tok_next b'\t' command ≡ some (c ∷ cs, rest)
    → is_digit c ≡ false
    → sig_num_by_name sig_list (c ∷ cs) ≡ 0
    → get_arg_int rest ≡ some (count, left)
    → All (λ (s : SigStatus). s.signum ≢ 0) slots
    → cmd_signal_clear sig_list command slots ≡ (none, slots)
unfolding cmd_signal_clear get_arg_signal
signal_clear_unknown sig_list c cs rest left count command slots t d n g h =
    rw (t, d, n, g) (ap (λ r. (none, r)) (mark_seen-absent 0 count slots h))
