-- ===== src/Controller/Poll/Timeouts.antt =====
-- src/controller.c, `ctl_cmd_event_pipe_timeout`: the timeouts stay in order, and in range.
use daemonproxy.Common.{by_test, ℕ, ◌≤◌, ◌<◌, ◌||◌, Option, some, none, arith, gt_signed, half_word}
use daemonproxy.Strseg.{Seg}
use daemonproxy.Controller.Terminate.{get_arg_int}
use daemonproxy.Controller.Poll.{
  Link, TimeoutError, is_invalid, set_timeouts, timeouts_to, timeouts_from, event_timeout,
}

-- The first timeout is not later than the second, and the second is a number of seconds of an int.
abbrev pub HasTimeouts : Link → Type 0
HasTimeouts l =
    (l.write_timeout_reset ≤ l.write_timeout_close) × (l.write_timeout_close < half_word)

set_timeouts-HasTimeouts :
    (reset close : ℕ) (l : Link) → HasTimeouts l → HasTimeouts ((set_timeouts reset close l).1)
set_timeouts-HasTimeouts reset close l h =
    by_test (λ (r : Option TimeoutError × Link). HasTimeouts (r.1))
      (is_invalid reset || is_invalid close) _ _ (λ t. h)
      (λ t.
        by_test (λ (r : Option TimeoutError × Link). HasTimeouts (r.1)) (gt_signed reset close) _ _
          (λ u. h) (λ u. (ground (arith, t, u), ground (arith, t))))

-- `conn.event_timeout` keeps the timeouts in order and in range, whatever its arguments are.
pub event_timeout-HasTimeouts :
    (command : Seg) (l : Link) → HasTimeouts l → HasTimeouts ((event_timeout command l).1)
unfolding event_timeout
event_timeout-HasTimeouts command l h = from (get_arg_int command)
  where
    to : (reset : ℕ) (r : Option (ℕ × Seg)) → HasTimeouts ((timeouts_to reset r l).1)
    to reset none = h
    to reset (some close) = set_timeouts-HasTimeouts reset close.0 l h

    from : (r : Option (ℕ × Seg)) → HasTimeouts ((timeouts_from r l).1)
    from none = h
    from (some reset) = to reset.0 (get_arg_int reset.1)
