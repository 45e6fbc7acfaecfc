-- ===== src/Controller/Examples.antt =====
-- src/controller.c: the theorems at a concrete connection, and tests.
use daemonproxy.Common.{Bool, true, false, Option, some, [], ◌∷◌, codes, ◌≡◌, refl, arith}
use daemonproxy.Controller.Send.{takes, blocks, Out, eol_len, flush_loop, flush_outbuf, write_to}
use daemonproxy.Controller.Send.Lines.{AreLines}
use daemonproxy.Controller.Send.Tells.{nothing, event, tells, IsOut}
use daemonproxy.Controller.Send.Moved.{Moved, flush_outbuf-Moved}
use daemonproxy.Controller.Send.Write.{Written, write_to-Written}
use daemonproxy.Controller.Receive.{gives, waits, ends, Inp, line, next_command, found, cut_line}
use daemonproxy.Controller.Receive.Stream.{commands}
use daemonproxy.Controller.Receive.Steps.{expected}
use daemonproxy.Common.{none}
use daemonproxy.Strseg.{seg, scan, tok_next, atoi, atoi_loop}
use daemonproxy.Controller.Terminate.{
  Exit, do_terminate, do_guard, ExitCommand, code_given, get_arg_int, run_exits, run_exits_refused,
  terminate,
}
use daemonproxy.Common.{◌++◌}
use daemonproxy.Strseg.Cmp.{eq_bytes}
use daemonproxy.Signal.{Slots, free_slot, mark_seen}
use daemonproxy.Service.Settings.{SigList, sig_num_by_name}
use daemonproxy.Controller.Signals.{get_arg_signal, cmd_signal_clear}

-- One event waits. The pipe takes two bytes, and then blocks.
abbrev slow : Out
slow = record {
  send_buf = codes "up\n";
  send_open = true;
  send_overflow = false;
  send_blocked_ts = 0;
  sent = [];
  answers = takes 1 ∷ blocks ∷ [];
}

slow-IsOut : IsOut (codes "up\n" ∷ []) slow
unfolding eol_len
slow-IsOut = record {
  told = tells refl (event (codes "up\n") nothing);
  whole = refl;
  fits = omega arith;
}

abbrev slow_flushed : Option (Bool × Out)
slow_flushed = some (
  false,
  record slow { send_buf = codes "\n"; sent = codes "up"; send_blocked_ts = 7; answers = [] },
)

flush_slow : flush_outbuf 7 slow ≡ slow_flushed
unfolding flush_loop eol_len
flush_slow = refl

flush_outbuf-Moved_example : (p : Bool × Out) × (flush_outbuf 7 slow ≡ some p) × Moved slow (some p)
flush_outbuf-Moved_example = flush_outbuf-Moved 7 slow slow-IsOut refl

down-AreLines : AreLines (codes "down\n")
unfolding eol_len
down-AreLines = refl

write_to-Written_example :
    Written (codes "up\n" ∷ []) (codes "down\n") (write_to 7 (codes "down\n") slow)
write_to-Written_example = write_to-Written 7 (codes "down\n") slow down-AreLines slow-IsOut

-- Two lines in three reads, and an end without a newline.
abbrev two_lines : Inp
two_lines = record {
  recv_buf = codes "ec";
  recv_open = true;
  recv_overflow = false;
  append_final_newline = false;
  reads = gives b'h' (codes "o\ta\nst") ∷ waits ∷ gives b'a' (codes "te\nx") ∷ ends ∷ [];
}

two_commands : expected two_lines ≡ line (codes "echo\ta") ∷ line (codes "state") ∷ []
unfolding commands
two_commands = refl

-- Behind the end, a last line without a newline takes the lines before it along.
abbrev merged : Inp
merged = record {
  recv_buf = codes "echo a\necho b";
  recv_open = false;
  recv_overflow = false;
  append_final_newline = true;
  reads = [];
}

merged_lines : next_command merged ≡ found (codes "echo a\necho b") []
unfolding next_command cut_line
merged_lines = refl

-- The guard is 77.
abbrev guarded : Exit
guarded = record { guard = 77; exec_on_exit = true; exitcode = none; now = 5; next = 9 }

abbrev wrong_code : ExitCommand
wrong_code = do_terminate (seg (codes "3\t78"))

abbrev no_code : ExitCommand
no_code = do_guard (seg (codes "-"))

wrong_given : code_given wrong_code ≡ some 78
unfolding code_given get_arg_int tok_next scan atoi atoi_loop
wrong_given = refl

none_given : code_given no_code ≡ none
unfolding code_given get_arg_int tok_next scan atoi atoi_loop
none_given = refl

right_code : (terminate (seg (codes "3\t77")) guarded).1.exitcode ≡ some 3
unfolding terminate get_arg_int tok_next scan atoi atoi_loop
right_code = refl

run_exits_refused_example : run_exits (wrong_code ∷ no_code ∷ []) guarded ≡ guarded
run_exits_refused_example =
    run_exits_refused (wrong_code ∷ no_code ∷ []) guarded (λ h. omega (arith, h))
      ((λ h. ground (arith, h, wrong_given)), ((λ h. ground (arith, h, none_given)), tt))

abbrev hangups : Slots
hangups = record { signum = 1; last_received_ts = 5; number_pending = 3 } ∷ []

-- The names of the list have 8 chars.
abbrev hangup : SigList
hangup = (1, codes "HUP" ++ (0 ∷ 0 ∷ 0 ∷ 0 ∷ 0 ∷ [])) ∷ []

one_left :
    cmd_signal_clear hangup (seg (codes "SIGHUP\t2")) hangups
    ≡ (none, record { signum = 1; last_received_ts = 5; number_pending = 1 } ∷ [])
unfolding cmd_signal_clear get_arg_signal get_arg_int mark_seen tok_next scan atoi atoi_loop
    sig_num_by_name eq_bytes
one_left = refl

-- An unknown name stands for the free slots, and a count below 0 adds to them.
ghosts :
    cmd_signal_clear hangup (seg (codes "FOO\t-5")) (free_slot ∷ [])
    ≡ (none, record free_slot { number_pending = 5 } ∷ [])
unfolding cmd_signal_clear get_arg_signal get_arg_int mark_seen tok_next scan atoi atoi_loop
    sig_num_by_name eq_bytes
ghosts = refl
