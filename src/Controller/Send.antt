-- ===== src/Controller/Send.antt =====
-- src/controller.c, `ctl_write` and `ctl_flush_outbuf`: the events that wait for one connection.
-- The `send_buf_pos` bytes of the buffer are a list. The pipe is what it has taken so far, and its
-- answers to the writes to come; behind the last answer it is full.
pub mod Lines
pub mod Tells
pub mod Flush
pub mod Moved
pub mod Write
use daemonproxy.Common.{
  ℕ, zero, suc, ◌+◌, ◌*◌, Bool, true, false, not, ◌||◌, Option, some, none, List, [], ◌∷◌, ◌++◌,
  map, Bytes, codes, length, take, drop, min, ltb, ◌==◌, if◌then◌else◌,
}

-- What `write` answers: it takes so many bytes and one more, at most what it is given; it would block
-- or was interrupted; or it fails.
pub data Answer : Type 0 where
  takes : ℕ → Answer
  blocks breaks : Answer

pub record Out : Type 0 where
  pub send_buf : Bytes
  pub send_open : Bool
  pub send_overflow : Bool
  pub send_blocked_ts : ℕ
  pub sent : Bytes
  pub answers : List Answer

-- CONTROLLER_SEND_BUF_SIZE
abbrev pub send_buf_size : ℕ
send_buf_size = 2048

abbrev pub overflow_line : Bytes
overflow_line = codes "overflow\n"

-- The length of the lines that have an end: one more than the offset of the last newline, or 0.
unfoldable pub eol_len : Bytes → ℕ
eol_len [] = 0
eol_len (c ∷ cs) =
    let later = eol_len cs in if ltb 0 later then suc later else if c == b'\n' then 1 else 0

abbrev pub blocked : ℕ → Out → Out
blocked now o = record o {
  send_blocked_ts =
      if o.send_blocked_ts == 0 then (if now == 0 then 1 else now) else o.send_blocked_ts;
}

-- The write of `n` bytes; `again` is the next round of the loop.
abbrev pub write_lines :
    (Out → Option (Bool × Out)) → ℕ → ℕ → List Answer → Out → Option (Bool × Out)
write_lines again now n [] o = some (false, blocked now o)
write_lines again now n (takes k ∷ later) o = again (record o {
  send_buf = drop (min (suc k) n) o.send_buf;
  send_blocked_ts = 0;
  sent = o.sent ++ take (min (suc k) n) o.send_buf;
  answers = later;
})
write_lines again now n (blocks ∷ later) o =
    some (false, blocked now (record o { answers = later }))
write_lines again now n (breaks ∷ later) o =
    some (true, record o { send_open = false; answers = later })

-- One round of `while (ctl->send_buf_pos)`, by the buffer, and what follows the loop.
abbrev pub flush_round : (Out → Option (Bool × Out)) → ℕ → Bytes → Out → Option (Bool × Out)
flush_round again now [] o =
    if o.send_overflow
    then again (record o { send_buf = overflow_line; send_overflow = false })
    else some (true, o)
flush_round again now (c ∷ cs) o =
    if not o.send_open
    then again (record o { send_buf = [] })
    else if eol_len (c ∷ cs) == 0
    then (if o.send_overflow then again (record o { send_buf = [] }) else some (false, o))
    else write_lines again now (eol_len (c ∷ cs)) o.answers o

-- `ctl_flush_outbuf` on fuel; `none` is the lack of it.
unfoldable pub flush_loop : ℕ → ℕ → Out → Option (Bool × Out)
unfolding eol_len
flush_loop zero now o = none
flush_loop (suc fuel) now o = flush_round (flush_loop fuel now) now o.send_buf o

-- Two rounds for each answer, and those for the overflow line.
abbrev pub flush_outbuf : ℕ → Out → Option (Bool × Out)
flush_outbuf now o = flush_loop (2 * length o.answers + 4) now o

-- Behind the flush: on to `check_space` if it made progress, else the message is dropped.
abbrev pub after_flush : (Out → Option Out) → ℕ → Option (Bool × Out) → Option Out
after_flush again pos none = none
after_flush again pos (some (done, o)) =
    if not (pos == length o.send_buf) then again o else some (record o { send_overflow = true })

-- `check_space`
unfoldable pub put_msg : ℕ → ℕ → Bytes → Out → Option Out
unfolding flush_loop
put_msg zero now msg o = none
put_msg (suc fuel) now msg o =
    let flushed = after_flush (put_msg fuel now msg) (length o.send_buf) (flush_outbuf now o) in
    if ltb (length msg + length o.send_buf) send_buf_size
    then some (record o { send_buf = o.send_buf ++ msg })
    else flushed

-- `ctl_write` of the text `msg` to one connection. A flush that makes progress takes a byte at least.
unfoldable pub write_to : ℕ → Bytes → Out → Option Out
unfolding put_msg
write_to now msg o =
    if not o.send_open || o.send_overflow
    then some o
    else put_msg (suc (length o.send_buf)) now msg o
