-- ===== src/Controller/Send/Tells.antt =====
-- src/controller.c: what a script can read from the stream of events of its connection.
use daemonproxy.Common.{◌<◌, Bool, true, false, List, [], ◌∷◌, ◌++◌, Bytes, length, ◌≡◌}
use daemonproxy.Controller.Send.{Out, overflow_line, send_buf_size}
use daemonproxy.Controller.Send.Lines.{AreLines}

-- The stream `s` tells the messages `ms`: each is whole in it, in order, or lost, and an overflow line
-- stands between a lost message and the next that is not. The flag says that a loss is not told yet.
pub data Told : List Bytes → Bool → Bytes → Type 0 where
  nothing : Told [] false []
  event :
      {ms : List Bytes} {s : Bytes} (m : Bytes)
      → Told ms false s
      → Told (ms ++ (m ∷ [])) false (s ++ m)
  lost :
      {ms : List Bytes} {p : Bool} {s : Bytes} (m : Bytes)
      → Told ms p s
      → Told (ms ++ (m ∷ [])) true s
  marker : {ms : List Bytes} {s : Bytes} → Told ms true s → Told ms false (s ++ overflow_line)

-- An open connection tells all the messages, by what it has sent and holds. One that broke tells
-- those up to then, and has sent a part of that.
pub data Tells (ms : List Bytes) (o : Out) : Type 0 where
  tells : o.send_open ≡ true → Told ms o.send_overflow (o.sent ++ o.send_buf) → Tells ms o
  broke :
      {before : List Bytes} {p : Bool} (after : List Bytes) (rest : Bytes)
      → o.send_open ≡ false
      → ms ≡ before ++ after
      → Told before p (o.sent ++ rest)
      → Tells ms o

pub record IsOut (ms : List Bytes) (o : Out) : Type 0 where
  pub told : Tells ms o
  pub whole : AreLines o.send_buf
  pub fits : length o.send_buf < send_buf_size
