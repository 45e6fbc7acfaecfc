-- ===== src/Controller/Poll.antt =====
-- src/controller.c, `ctl_run`: its second loop, which flushes the connections and gives up on those
-- that stay blocked; and `conn.event_timeout`. `wake_on_writeable` and `wake_on_readable` are flags of
-- the result. Integers and timestamps are 64-bit patterns.
pub mod Blocks
pub mod Wakes
pub mod Timeouts
mod Examples
use daemonproxy.Common.{
  ℕ, ◌*◌, ◌%◌, ◌^◌, Bool, true, false, not, ◌&&◌, ◌||◌, Option, some, none, List, [], ◌∷◌, length,
  ltb, leb, if◌then◌else◌, add64, sub64, after, gt_signed, is_negative, of_seconds,
}
use daemonproxy.Strseg.{Seg}
use daemonproxy.Controller.Send.{Out, flush_outbuf}
use daemonproxy.Controller.Receive.{Inp, recv_buf_size}
use daemonproxy.Controller.Terminate.{get_arg_int}

pub record Link : Type 0 where
  pub out : Out
  pub inp : Inp
  pub write_timeout_reset : ℕ
  pub write_timeout_close : ℕ

-- A connection behind its round of the loop, `none` if it was closed; `wake->next`; and the waits.
pub record Polled : Type 0 where
  pub link : Option Link
  pub next : ℕ
  pub on_writeable : Bool
  pub on_readable : Bool

abbrev pub reads_more : Link → Bool
reads_more l = l.inp.recv_open && ltb (length l.inp.recv_buf) recv_buf_size

abbrev pub at_rest : ℕ → Link → Polled
at_rest next l = record {
  link = some l;
  next = next;
  on_writeable = false;
  on_readable = reads_more l;
}

abbrev pub timed_out : ℕ → Polled
timed_out next = record { link = none; next = next; on_writeable = false; on_readable = false }

-- The wait for the pipe, until `check` at most.
abbrev pub wait_until : ℕ → ℕ → Link → Polled
wait_until check next l = record {
  link = some l;
  next = if after next check then check else next;
  on_writeable = true;
  on_readable = reads_more l;
}

abbrev pub overflowed : Link → Link
overflowed l = record l { out = record l.out { send_overflow = true } }

-- Behind half the timeout.
abbrev pub still_late : ℕ → ℕ → Link → Polled
still_late now next l =
    let check = add64 l.out.send_blocked_ts l.write_timeout_close in
    if leb recv_buf_size (length l.inp.recv_buf)
    then wait_until check now (overflowed l)
    else wait_until check next l

-- What is done about a connection that is `lateness` late.
abbrev pub still_blocked : ℕ → ℕ → ℕ → Link → Polled
still_blocked lateness now next l =
    if not (gt_signed l.write_timeout_close lateness)
    then timed_out next
    else if not (gt_signed l.write_timeout_reset lateness)
    then still_late now next l
    else wait_until (add64 l.out.send_blocked_ts l.write_timeout_reset) next l

abbrev pub flushed_to : ℕ → ℕ → Link → Polled
flushed_to now next l = at_rest (if ltb 0 (length l.inp.recv_buf) then now else next) l

abbrev pub poll_flushed : ℕ → ℕ → Link → Option (Bool × Out) → Option Polled
poll_flushed now next l none = none
poll_flushed now next l (some (done, o)) =
    if not done && o.send_open
    then some (still_blocked (sub64 now o.send_blocked_ts) now next (record l { out = o }))
    else some (flushed_to now next (record l { out = o }))

-- The loop's body.
unfoldable pub poll : ℕ → ℕ → Link → Option Polled
poll now next l =
    if l.out.send_open && ltb 0 (length l.out.send_buf)
    then poll_flushed now next l (flush_outbuf now l.out)
    else some (at_rest next l)

abbrev pub put_first : Polled → Option (List Polled × ℕ) → Option (List Polled × ℕ)
put_first p none = none
put_first p (some r) = some (p ∷ r.0, r.1)

abbrev pub poll_then : (ℕ → Option (List Polled × ℕ)) → Option Polled → Option (List Polled × ℕ)
poll_then again none = none
poll_then again (some p) = put_first p (again p.next)

-- The loop, over the connections in use, with `wake->next` behind it.
unfoldable pub poll_all : ℕ → ℕ → List Link → Option (List Polled × ℕ)
unfolding poll
poll_all now next [] = some ([], next)
poll_all now next (l ∷ ls) = poll_then (λ n. poll_all now n ls) (poll now next l)

-- What the command sets `command_error` to.
pub data TimeoutError : Type 0 where
  expected_integer invalid_timeout reset_greater : TimeoutError

-- `x > 0x7FFFFFFF || x < 0`
abbrev pub is_invalid : ℕ → Bool
is_invalid x = gt_signed x 0x7FFFFFFF || is_negative x

abbrev pub set_timeouts : ℕ → ℕ → Link → Option TimeoutError × Link
set_timeouts reset close l =
    if is_invalid reset || is_invalid close
    then (some invalid_timeout, l)
    else if gt_signed reset close
    then (some reset_greater, l)
    else (
      none,
      record l { write_timeout_reset = of_seconds reset; write_timeout_close = of_seconds close },
    )

abbrev pub timeouts_to : ℕ → Option (ℕ × Seg) → Link → Option TimeoutError × Link
timeouts_to reset none l = (some expected_integer, l)
timeouts_to reset (some close) l = set_timeouts reset close.0 l

abbrev pub timeouts_from : Option (ℕ × Seg) → Link → Option TimeoutError × Link
timeouts_from none l = (some expected_integer, l)
timeouts_from (some reset) l = timeouts_to reset.0 (get_arg_int reset.1) l

-- `ctl_cmd_event_pipe_timeout`
unfoldable pub event_timeout : Seg → Link → Option TimeoutError × Link
unfolding get_arg_int
event_timeout command l = timeouts_from (get_arg_int command) l
