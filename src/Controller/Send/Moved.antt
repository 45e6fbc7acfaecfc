-- ===== src/Controller/Send/Moved.antt =====
-- src/controller.c, `ctl_flush_outbuf`: what it has sent and holds is what it had.
use daemonproxy.Common.{
  by_test, ℕ, zero, suc, ◌+◌, ◌*◌, ◌≤◌, Bool, true, false, not, Option, some, none, List, [], ◌∷◌,
  ◌++◌, Bytes, length, take, drop, min, ◌==◌, ◌≡◌, refl, sym, ap, ◌∙◌, subst, arith, ◌⊎◌, inl, inr,
  append_assoc, append-nil, take-append-drop, length-append,
}
use daemonproxy.Controller.Send.{
  Answer, takes, blocks, breaks, Out, overflow_line, eol_len, write_lines, flush_round, flush_loop,
  flush_outbuf,
}
use daemonproxy.Controller.Send.Lines.{AreLines, drop-AreLines, overflow-AreLines}
use daemonproxy.Controller.Send.Tells.{IsOut}
use daemonproxy.Controller.Send.Flush.{Flushed, flushed, flush_outbuf-Flushed}

-- All that was sent, and what waits behind it.
abbrev pub stream : Out → Bytes
stream o = o.sent ++ o.send_buf

-- What a flush does to an open connection: it sends some of what waits; it sends all of that, and behind
-- it the overflow line that was due waits or is sent; or the connection breaks, and a part of the one or
-- the other was sent.
pub data Moved (o : Out) : Option (Bool × Out) → Type 0 where
  lacks_fuel : Moved o none
  sends :
      {done : Bool} {new : Out}
      → new.send_open ≡ true
      → new.send_overflow ≡ o.send_overflow
      → stream new ≡ stream o
      → length o.sent ≤ length new.sent
      → Moved o (some (done, new))
  marks :
      {done : Bool} {new : Out}
      → new.send_open ≡ true
      → (o.send_overflow ≡ true) × (new.send_overflow ≡ false)
      → stream new ≡ stream o ++ overflow_line
      → length (stream o) ≤ length new.sent
      → Moved o (some (done, new))
  breaks_off :
      {done : Bool} {new : Out} (rest : Bytes)
      → new.send_open ≡ false
      → (new.sent ++ rest ≡ stream o)
        ⊎ (o.send_overflow ≡ true) × (new.sent ++ rest ≡ stream o ++ overflow_line)
      → Moved o (some (done, new))

-- A write moves bytes from the buffer to what was sent.
Moved-write :
    {o mid : Out} {r : Option (Bool × Out)}
    → mid.send_overflow ≡ o.send_overflow
    → stream mid ≡ stream o
    → length o.sent ≤ length mid.sent
    → Moved mid r
    → Moved o r
Moved-write f s n lacks_fuel = lacks_fuel
Moved-write f s n (sends e g t k) = sends e (g ∙ f) (t ∙ s) (omega (arith, n, k))
Moved-write f s n (marks e g t k) =
    marks e (sym f ∙ g.0, g.1) (t ∙ ap (λ x. x ++ overflow_line) s) (omega (arith, k, ap length s))
Moved-write f s n (breaks_off rest e (inl t)) = breaks_off rest e (inl (t ∙ s))
Moved-write f s n (breaks_off rest e (inr t)) =
    breaks_off rest e (inr (sym f ∙ t.0, t.1 ∙ ap (λ x. x ++ overflow_line) s))

-- The overflow line comes into an empty buffer.
Moved-mark :
    {r : Option (Bool × Out)} (o : Out)
    → o.send_buf ≡ []
    → o.send_overflow ≡ true
    → Moved (record o { send_buf = overflow_line; send_overflow = false }) r
    → Moved o r
Moved-mark o b f lacks_fuel = lacks_fuel
Moved-mark o b f (sends e g t k) =
    marks e (f, g)
      (t
        ∙ sym (
            ap (λ x. (o.sent ++ x) ++ overflow_line) b
            ∙ ap (λ x. x ++ overflow_line) (append-nil o.sent)))
      (omega (arith, k, length-append o.sent o.send_buf, ap length b))
Moved-mark o b f (marks e g t k) = cc (g.0)
Moved-mark o b f (breaks_off rest e (inl t)) = breaks_off rest e (
    inr (
      f,
      t
          ∙ sym (
              ap (λ x. (o.sent ++ x) ++ overflow_line) b
              ∙ ap (λ x. x ++ overflow_line) (append-nil o.sent)),
    ))
Moved-mark o b f (breaks_off rest e (inr t)) = cc (t.0)

module _ (now : ℕ) where
  write_lines-Moved :
      (fuel : ℕ) (o : Out) (n : ℕ) (answers : List Answer)
      → ((mid : Out)
          → AreLines mid.send_buf
          → mid.send_open ≡ true
          → Moved mid (flush_loop fuel now mid))
      → o.send_open ≡ true
      → AreLines o.send_buf
      → Moved o (write_lines (flush_loop fuel now) now n answers o)
  write_lines-Moved fuel o n [] ih e i = sends e refl refl (omega arith)
  write_lines-Moved fuel o n (blocks ∷ later) ih e i = sends e refl refl (omega arith)
  write_lines-Moved fuel o n (breaks ∷ later) ih e i = breaks_off o.send_buf refl (inl refl)
  write_lines-Moved fuel o n (takes k ∷ later) ih e i =
      let m = min (suc k) n in
      Moved-write refl
        (append_assoc o.sent (take m o.send_buf) (drop m o.send_buf)
          ∙ ap (λ x. o.sent ++ x) (take-append-drop m o.send_buf))
        (omega (arith, length-append o.sent (take m o.send_buf)))
        (ih
          (record o {
            send_buf = drop m o.send_buf;
            send_blocked_ts = 0;
            sent = o.sent ++ take m o.send_buf;
            answers = later;
          })
          (drop-AreLines m o.send_buf i) e)

  flush_round-Moved :
      (fuel : ℕ) (o : Out) (buf : Bytes)
      → ((mid : Out)
          → AreLines mid.send_buf
          → mid.send_open ≡ true
          → Moved mid (flush_loop fuel now mid))
      → o.send_buf ≡ buf
      → AreLines o.send_buf
      → o.send_open ≡ true
      → Moved o (flush_round (flush_loop fuel now) now buf o)
  flush_round-Moved fuel o [] ih b i e =
      by_test (Moved o) (o.send_overflow) _ _ (λ p. Moved-mark o b p (ih _ overflow-AreLines e))
        (λ p. sends e refl refl (omega arith))
  flush_round-Moved fuel o (c ∷ cs) ih b i e =
      let full : eol_len (c ∷ cs) ≡ suc (length cs) = subst AreLines b i in
      let positive : (suc (length cs) == 0) ≡ false = ground arith in
      by_test (Moved o) (not o.send_open) _ _ (λ q. absurd (ground (arith, q, e)))
        (λ q. rw (full, positive) (write_lines-Moved fuel o (suc (length cs)) o.answers ih e i))

  flush_loop-Moved :
      (fuel : ℕ) (o : Out)
      → AreLines o.send_buf
      → o.send_open ≡ true
      → Moved o (flush_loop fuel now o)
  unfolding flush_loop
  flush_loop-Moved zero o i e = lacks_fuel
  flush_loop-Moved (suc fuel) o i e =
      flush_round-Moved fuel o o.send_buf (λ mid j q. flush_loop-Moved fuel mid j q) refl i e

ended :
    {ms : List Bytes} {o : Out} (r : Option (Bool × Out))
    → Flushed ms o r
    → Moved o r
    → (p : Bool × Out) × (r ≡ some p) × Moved o (some p)
ended none h m = elim h [ ]
ended (some p) (flushed i s) m = (p, refl, m)

-- `ctl_flush_outbuf` of an open connection ends within two rounds for each write and four more. What it
-- has sent and holds behind it is then what it had sent and held before, no less sent, and behind it, if
-- a loss was to be told, the overflow line or not; that line comes in when all before it is sent. If the
-- connection breaks, a part of that was sent. The connection is as `ctl_write` leaves it.
pub flush_outbuf-Moved :
    (now : ℕ) {ms : List Bytes} (o : Out)
    → IsOut ms o
    → o.send_open ≡ true
    → (p : Bool × Out) × (flush_outbuf now o ≡ some p) × Moved o (some p)
flush_outbuf-Moved now o i e =
    ended (flush_outbuf now o) (flush_outbuf-Flushed now o i)
      (flush_loop-Moved now (2 * length o.answers + 4) o i.whole e)
