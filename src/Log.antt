-- ===== src/Log.antt =====
-- src/log.c: the log, its buffer, and the descriptor that it is written to.
-- The first `log_buf_pos` bytes of `log_buffer` are a list; `written` is all that a descriptor has
-- taken. `answers` are those of the writes to come; behind the last one a write fails.
pub mod Level
pub mod Told
pub mod Drain
pub mod Silent
mod Examples
use daemonproxy.Common.{
  ℕ, zero, suc, ◌+◌, ◌-◌, ◌%◌, ◌^◌, Bool, true, false, not, ◌&&◌, ◌||◌, Option, some, none, List,
  [], ◌∷◌, ◌++◌, Bytes, codes, length, take, drop, ltb, ◌==◌, if◌then◌else◌, ℤ, pos, leb_int,
  decimal, after, add64,
}
use daemonproxy.Log.Level.{level_name, log_level_debug}

-- What `write` answers: it takes so many bytes of those given, or it fails, for any reason.
pub data LogAnswer : Type 0 where
  takes : ℕ → LogAnswer
  fails : LogAnswer

pub record Log : Type 0 where
  pub filter : ℤ
  pub dest_name : Bytes
  pub buffer : Bytes
  -- `log_fd`; none is -1
  pub fd : Option ℕ
  -- `log_msg_lost`, an int, as its 32-bit pattern
  pub msg_lost : ℕ
  pub log_blocked : Bool
  pub next_attempt : ℕ
  pub written : Bytes
  pub answers : List LogAnswer

-- `sizeof(log_buffer)`
abbrev pub log_size : ℕ
log_size = 1024

-- LOG_RETRY_DELAY, half a second
abbrev pub log_retry_delay : ℕ
log_retry_delay = 2147483648

-- `%d` of an int
abbrev pub decimal_int : ℕ → Bytes
decimal_int n = if ltb n (2 ^ 31) then decimal n else b'-' ∷ decimal (2 ^ 32 - n)

abbrev pub lost_line : ℕ → Bytes
lost_line n = codes "warning: lost " ++ decimal_int n ++ codes " log messages\n"

-- The line that tells how many messages were lost, if it fits.
unfoldable pub tell_lost : Log → Log
tell_lost l =
    if l.msg_lost == 0
    then l
    else if ltb (length (lost_line l.msg_lost)) (log_size - length l.buffer)
    then record l { buffer = l.buffer ++ lost_line l.msg_lost; msg_lost = 0 }
    else l

-- Behind a `write` that took `n` bytes
abbrev pub consumed : ℕ → List LogAnswer → Log → Log
consumed n later l = record l {
  buffer = drop n l.buffer;
  written = l.written ++ take n l.buffer;
  answers = later;
}

-- `while (log_buf_pos > 0)`
unfoldable pub write_out : List LogAnswer → Log → Bool × Log
unfolding tell_lost
write_out [] l =
    if length l.buffer == 0
    then (true, l)
    else (false, record l { log_blocked = true; answers = [] })
write_out (fails ∷ later) l =
    if length l.buffer == 0
    then (true, l)
    else (false, record l { log_blocked = true; answers = later })
write_out (takes n ∷ later) l =
    let next = write_out later (tell_lost (consumed n later l)) in
    if length l.buffer == 0 then (true, l) else next

abbrev pub has_fd : Log → Bool
has_fd l = elim l.fd [ none ↦ false | some fd ↦ true ]

unfoldable pub log_flush : Log → Bool × Log
unfolding write_out
log_flush l = if not (has_fd l) || l.log_blocked then (false, l) else write_out l.answers l

-- Behind the search for a descriptor
unfoldable pub attach_to : Option ℕ → Log → Bool × Log
unfolding log_flush
attach_to none l = (false, record l { fd = none; log_blocked = true })
attach_to (some fd) l =
    let opened = record l { fd = some fd; log_blocked = false; next_attempt = 0 } in
    (true, if ltb 0 (length l.buffer) then (log_flush opened).1 else opened)

-- `log_fd_attach`, with what `fd_by_name` and `fd_get_fdnum` answer for a name. The result tells
-- whether there is a descriptor.
abbrev pub attach : (Bytes → Option ℕ) → Log → Bool × Log
attach fd_by_name l =
    let named = not (has_fd l) && ltb 0 (length l.dest_name) in
    attach_to (if named then fd_by_name l.dest_name else l.fd) l

abbrev pub fd_reset : Log → Log
fd_reset l = record l { fd = none; log_blocked = true; next_attempt = 0 }

-- `log_fd_set_name`; the name is shorter than the buffer for it.
abbrev pub fd_set_name : (Bytes → Option ℕ) → Bytes → Log → Log
fd_set_name fd_by_name name l = (attach fd_by_name (record (fd_reset l) { dest_name = name })).1

abbrev pub lose : Log → Bool × Log
lose l = (false, record l { msg_lost = (l.msg_lost + 1) % 2 ^ 32 })

-- The room that `snprintf` is given, at `p`.
abbrev pub fits : Bytes → Bytes → Bool
fits s buffer = ltb (length s) (log_size - length buffer)

abbrev pub level_prefix : ℤ → Bytes
level_prefix level = level_name level ++ codes ": "

-- The line of a message
abbrev pub message : ℤ → Bytes → Bytes
message level msg = level_prefix level ++ msg ++ codes "\n"

-- `log_write`, where `msg` is the text that the format makes. The bytes that a truncated print leaves
-- are behind `log_buf_pos`.
unfoldable pub log_write : ℤ → Bytes → Log → Bool × Log
unfolding log_flush level_name
log_write level msg l =
    if leb_int level l.filter
    then (true, l)
    else if not (l.msg_lost == 0)
    then lose l
    else if not (fits (level_prefix level) l.buffer)
    then lose l
    else if not (fits msg (l.buffer ++ level_prefix level))
    then lose l
    else (true, (log_flush (record l { buffer = l.buffer ++ message level msg })).1)

-- The part of `wake_t` that the log uses.
pub record Wake : Type 0 where
  pub now : ℕ
  pub next : ℕ
  pub fd_write : List ℕ
  pub fd_ready_write : ℕ → Bool

abbrev pub wake_at_time : ℕ → Wake → Wake
wake_at_time ts w = record w { next = if after w.next ts then ts else w.next }

abbrev pub wake_on_writeable_only : ℕ → Wake → Wake
wake_on_writeable_only fd w = record w { fd_write = fd ∷ w.fd_write }

-- When the log_flush failed again: no more trust in the descriptor's being writable.
abbrev pub retry_at : ℕ → Log → Log
retry_at now l =
    let ts = add64 now log_retry_delay in
    if l.log_blocked then record l { next_attempt = if ts == 0 then 1 else ts } else l

-- Whether a log_blocked log tries again.
abbrev pub is_due : ℕ → Wake → Log → Bool
is_due fd w l = w.fd_ready_write fd || not (l.next_attempt == 0) && after w.now l.next_attempt

unfoldable pub retry : Wake → Log → Log
unfolding log_flush
retry w l = retry_at w.now (log_flush (record l { log_blocked = false; next_attempt = 0 })).1

-- The wake event of a log that is still log_blocked
abbrev pub wake_blocked : ℕ → Wake → Log → Wake
wake_blocked fd w l =
    if not l.log_blocked
    then w
    else if not (l.next_attempt == 0)
    then wake_at_time l.next_attempt w
    else wake_on_writeable_only fd w

-- `log_run` with a descriptor
abbrev pub run_with : ℕ → Wake → Log → Wake × Log
run_with fd w l =
    let tried = if l.log_blocked && is_due fd w l then retry w l else l in
    (wake_blocked fd w tried, tried)

abbrev pub run_in : Option ℕ → Wake → Log → Wake × Log
run_in none w l = (w, l)
run_in (some fd) w l = run_with fd w l

-- `log_run`
unfoldable pub log_run : (Bytes → Option ℕ) → Wake → Log → Wake × Log
unfolding attach_to retry
log_run fd_by_name w l =
    let attached = if has_fd l then l else (attach fd_by_name l).1 in run_in attached.fd w attached

-- The log as `log_init` leaves it, on the standard error
abbrev pub new_log : List LogAnswer → Log
new_log answers = record {
  filter = log_level_debug;
  dest_name = [];
  buffer = [];
  fd = some 2;
  msg_lost = 0;
  log_blocked = false;
  next_attempt = 0;
  written = [];
  answers = answers;
}
