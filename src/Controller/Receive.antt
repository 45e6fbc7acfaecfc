-- ===== src/Controller/Receive.antt =====
-- src/controller.c: the command lines of one connection, from `ctl_read_more` to
-- `ctl_state_end_command`. The `recv_buf_pos` bytes of the buffer are a list, and the reads to come are
-- the answers of `read`; behind the last nothing more arrives. A line stands without its newline.
pub mod Stream
pub mod Lines
pub mod Steps
pub mod Serve
use daemonproxy.Common.{
  ℕ, zero, suc, ◌+◌, ◌-◌, ◌*◌, Bool, true, false, not, ◌&&◌, ◌||◌, Option, some, none, List, [],
  ◌∷◌, ◌++◌, Bytes, length, take, drop, ltb, leb, ◌==◌, if◌then◌else◌,
}

-- What `read` answers: a byte and more of them, of which it returns as many as there is room for, and
-- the next read those left; nothing yet; or the end, or an error.
pub data ReadAnswer : Type 0 where
  gives : ℕ → Bytes → ReadAnswer
  waits ends : ReadAnswer

pub record Inp : Type 0 where
  pub recv_buf : Bytes
  pub recv_open : Bool
  pub recv_overflow : Bool
  pub append_final_newline : Bool
  pub reads : List ReadAnswer

-- CONTROLLER_RECV_BUF_SIZE
abbrev pub recv_buf_size : ℕ
recv_buf_size = 1024

abbrev pub leave : Bytes → List ReadAnswer → List ReadAnswer
leave [] later = later
leave (c ∷ cs) later = gives c cs ∷ later

abbrev pub read_from : List ReadAnswer → Inp → Bool × Inp
read_from [] inp = (false, inp)
read_from (gives c cs ∷ later) inp =
    let room = recv_buf_size - length inp.recv_buf in
    (
      true,
      record inp {
        recv_buf = inp.recv_buf ++ take room (c ∷ cs);
        reads = leave (drop room (c ∷ cs)) later;
      },
    )
read_from (waits ∷ later) inp = (false, record inp { reads = later })
read_from (ends ∷ later) inp = (false, record inp { recv_open = false; reads = later })

-- `ctl_read_more`
unfoldable pub read_more : Inp → Bool × Inp
read_more inp =
    if not inp.recv_open || leb recv_buf_size (length inp.recv_buf)
    then (false, inp)
    else read_from inp.reads inp

-- The line before the first newline, and what stands behind it.
unfoldable pub cut_line : Bytes → Option (Bytes × Bytes)
cut_line [] = none
cut_line (c ∷ cs) =
    let later = cut_line cs in
    if c == b'\n' then some ([], cs) else elim later [ none ↦ none | some r ↦ some (c ∷ r.0, r.1) ]

-- How `ctl_state_next_command` leaves: it waits for input, it has begun to skip a line, it has a line
-- and what stands behind, or the connection closes.
pub data Next : Type 0 where
  blocked : Next
  skips : Inp → Next
  found : Bytes → Bytes → Next
  closes : Next

abbrev pub last_is_eol : Bytes → Bool
last_is_eol [] = false
last_is_eol (c ∷ []) = c == b'\n'
last_is_eol (c ∷ d ∷ cs) = last_is_eol (d ∷ cs)

-- While the connection is open, and behind its end
abbrev pub next_open : Option (Bytes × Bytes) → Inp → Next
next_open (some r) inp = found r.0 r.1
next_open none inp =
    if leb recv_buf_size (length inp.recv_buf)
    then skips (record inp { recv_overflow = true; recv_buf = take 1 inp.recv_buf })
    else blocked

abbrev pub next_ended : Bytes → Option (Bytes × Bytes) → Inp → Next
next_ended [] eol inp = closes
next_ended (c ∷ cs) eol inp =
    if not (last_is_eol (c ∷ cs)) && inp.append_final_newline
    then found (c ∷ cs) []
    else elim eol [ none ↦ closes | some r ↦ found r.0 r.1 ]

-- `ctl_state_next_command`, behind the signals
unfoldable pub next_command : Inp → Next
unfolding cut_line
next_command inp =
    if inp.recv_open
    then next_open (cut_line inp.recv_buf) inp
    else next_ended inp.recv_buf (cut_line inp.recv_buf) inp

-- What `ctl_state_run_command` is given: a line, or the first byte of one that is too long.
pub data Command : Type 0 where
  line : Bytes → Command
  too_long : ℕ → Command

abbrev pub first_byte : Bytes → ℕ
first_byte [] = 0
first_byte (c ∷ cs) = c

abbrev pub command_of : Bool → Bytes → Command
command_of true l = too_long (first_byte l)
command_of false l = line l

-- The flag is reset, and `ctl_state_end_command` moves up what stands behind the line.
abbrev pub end_command : Bytes → Inp → Inp
end_command rest inp = record inp { recv_overflow = false; recv_buf = rest }

abbrev pub after_next : (Inp → List Command) → Next → Inp → List Command
after_next again blocked inp = again (read_more inp).1
after_next again (skips new) inp = again new
after_next again (found l rest) inp = command_of inp.recv_overflow l ∷ again (end_command rest inp)
after_next again closes inp = []

-- The read at the start of `ctl_run`, if the descriptor is readable then
abbrev pub polled : Bool → Inp → Inp
polled true inp = (read_more inp).1
polled false inp = inp

abbrev pub next_poll : List Bool → Bool
next_poll [] = false
next_poll (p ∷ ps) = p

-- The commands of a connection, as the rounds of `ctl_run` meet them. Before each round of the state
-- machine the main loop may have come round and read, by the list, whether lines wait or not; and it does
-- read when the state machine waits for input. No command here ends the input, as `exit` does.
unfoldable pub serve : ℕ → List Bool → Inp → List Command
unfolding next_command read_more
serve zero polls inp = []
serve (suc fuel) polls inp =
    let new = polled (next_poll polls) inp in
    after_next (serve fuel (drop 1 polls)) (next_command new) new

-- The bytes to come.
abbrev pub stream_of : List ReadAnswer → Bytes
stream_of [] = []
stream_of (gives c cs ∷ later) = c ∷ (cs ++ stream_of later)
stream_of (waits ∷ later) = stream_of later
stream_of (ends ∷ later) = []

abbrev pub bytes_of : List ReadAnswer → ℕ
bytes_of [] = 0
bytes_of (gives c cs ∷ later) = suc (length cs) + bytes_of later
bytes_of (waits ∷ later) = bytes_of later
bytes_of (ends ∷ later) = bytes_of later

-- Each round takes a byte from the reads, or from the buffer, or an answer.
abbrev pub serve_rounds : Inp → ℕ
serve_rounds inp = 2 * bytes_of inp.reads + length inp.recv_buf + length inp.reads

abbrev pub serve_all : List Bool → Inp → List Command
serve_all polls inp = serve (suc (suc (serve_rounds inp))) polls inp
