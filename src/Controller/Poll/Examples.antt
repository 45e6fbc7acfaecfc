-- ===== src/Controller/Poll/Examples.antt =====
-- src/controller.c, `ctl_run`: the theorem at two blocked connections, and tests.
use daemonproxy.Common.{true, false, some, none, [], ◌∷◌, codes, ◌≡◌, refl, arith, of_seconds}
use daemonproxy.Strseg.{seg, scan, tok_next, atoi, atoi_loop}
use daemonproxy.Controller.Send.{Out, blocks, eol_len, flush_loop}
use daemonproxy.Controller.Send.Tells.{nothing, event, tells, IsOut}
use daemonproxy.Controller.Receive.{Inp}
use daemonproxy.Controller.Terminate.{get_arg_int}
use daemonproxy.Controller.Poll.{
  Link, reset_greater, invalid_timeout, wait_until, timed_out, poll, poll_all, event_timeout,
}
use daemonproxy.Controller.Poll.Wakes.{AllPolled, poll_all-Polled}

abbrev quiet : Inp
quiet = record {
  recv_buf = [];
  recv_open = true;
  recv_overflow = false;
  append_final_newline = true;
  reads = [];
}

-- One event waits, since the time 5; the pipe is full.
abbrev stuck_out : Out
stuck_out = record {
  send_buf = codes "up\n";
  send_open = true;
  send_overflow = false;
  send_blocked_ts = 5;
  sent = [];
  answers = blocks ∷ [];
}

stuck_out-IsOut : IsOut (codes "up\n" ∷ []) stuck_out
unfolding eol_len
stuck_out-IsOut = record {
  told = tells refl (event (codes "up\n") nothing);
  whole = refl;
  fits = omega arith;
}

abbrev patient : Link
patient = record {
  out = stuck_out;
  inp = quiet;
  write_timeout_reset = 10;
  write_timeout_close = 20;
}

abbrev impatient : Link
impatient = record patient { write_timeout_reset = 1; write_timeout_close = 2 }

-- At the time 9 the one is closed, and the main loop wakes at 15 for the other.
poll_two :
    poll_all 9 100 (impatient ∷ patient ∷ [])
    ≡ some (
      timed_out 100
          ∷ wait_until 15 100 (record patient { out = record stuck_out { answers = [] } })
          ∷ [],
      15,
    )
unfolding poll_all poll flush_loop eol_len
poll_two = refl

poll_all-Polled_example :
    AllPolled 9 100 (impatient ∷ patient ∷ []) (poll_all 9 100 (impatient ∷ patient ∷ []))
poll_all-Polled_example =
    poll_all-Polled 9 100 (impatient ∷ patient ∷ []) (omega arith) (omega arith) (omega arith) (
      record {
        events = codes "up\n" ∷ [];
        out_IsOut = stuck_out-IsOut;
        past = omega arith;
        ordered = omega arith;
        bounded = omega arith;
      },
      (
        record {
          events = codes "up\n" ∷ [];
          out_IsOut = stuck_out-IsOut;
          past = omega arith;
          ordered = omega arith;
          bounded = omega arith;
        },
        tt,
      ),
    )

timeouts_set : event_timeout (seg (codes "3\t60")) patient ≡ (
  none,
  record patient { write_timeout_reset = of_seconds 3; write_timeout_close = of_seconds 60 },
)
unfolding event_timeout get_arg_int tok_next scan atoi atoi_loop
timeouts_set = refl

timeouts_refused : event_timeout (seg (codes "60\t3")) patient ≡ (some reset_greater, patient)
unfolding event_timeout get_arg_int tok_next scan atoi atoi_loop
timeouts_refused = refl

timeouts_invalid :
    event_timeout (seg (codes "3\t2147483648")) patient ≡ (some invalid_timeout, patient)
unfolding event_timeout get_arg_int tok_next scan atoi atoi_loop
timeouts_invalid = refl
