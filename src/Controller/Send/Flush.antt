-- ===== src/Controller/Send/Flush.antt =====
-- src/controller.c, `ctl_flush_outbuf`: it ends, and what it leaves.
use daemonproxy.Common.{
  by_test, ℕ, zero, suc, ◌+◌, ◌*◌, ◌≤◌, ◌<◌, Bool, true, false, not, Option, some, List, [], ◌∷◌,
  ◌++◌, Bytes, length, take, drop, min, ltb, ◌==◌, if◌then◌else◌, ◌≡◌, refl, sym, ap, subst, ◌∙◌,
  arith, ◌⊎◌, inl, inr, Bool-cases, length-drop, append_assoc, append-nil, take-append-drop,
}
use daemonproxy.Controller.Send.{
  Answer, takes, blocks, breaks, Out, send_buf_size, overflow_line, eol_len, blocked, write_lines,
  flush_round, flush_loop, flush_outbuf,
}
use daemonproxy.Controller.Send.Lines.{AreLines, drop-AreLines, overflow-AreLines}
use daemonproxy.Controller.Send.Tells.{Told, marker, Tells, tells, broke, IsOut}

-- A flush ends and tells the messages as before. It takes a buffer that no loss waits behind to one
-- no longer, that no loss waits behind.
pub data Flushed (ms : List Bytes) (o : Out) : Option (Bool × Out) → Type 0 where
  flushed :
      {done : Bool} {new : Out}
      → IsOut ms new
      → (o.send_overflow ≡ true)
        ⊎ (new.send_overflow ≡ false) × (length new.send_buf ≤ length o.send_buf)
      → Flushed ms o (some (done, new))

abbrev rounds : Out → ℕ
rounds o =
    2 * length o.answers
    + ((if o.send_overflow then 2 else 0) + (if ltb 0 (length o.send_buf) then 1 else 0))

-- A step to a state with a buffer no longer.
Flushed-step :
    {ms : List Bytes} {o mid : Out} {r : Option (Bool × Out)}
    → (o.send_overflow ≡ true)
      ⊎ (mid.send_overflow ≡ false) × (length mid.send_buf ≤ length o.send_buf)
    → Flushed ms mid r
    → Flushed ms o r
Flushed-step (inl p) (flushed i s) = flushed i (inl p)
Flushed-step (inr p) (flushed i (inl q)) = cc
Flushed-step (inr p) (flushed i (inr q)) = flushed i (inr (q.0, omega (arith, p.1, q.1)))

-- What the pipe has taken moves from the buffer to the stream.
Tells-sent :
    {ms : List Bytes} (o : Out) (n ts : ℕ) (later : List Answer)
    → o.send_open ≡ true
    → Tells ms o
    → Tells ms (record o {
      send_buf = drop n o.send_buf;
      send_blocked_ts = ts;
      sent = o.sent ++ take n o.send_buf;
      answers = later;
    })
Tells-sent {ms} o n ts later e (tells q t) = tells e (
    subst (λ s. Told ms o.send_overflow s)
      (sym (
        append_assoc o.sent (take n o.send_buf) (drop n o.send_buf)
        ∙ ap (λ s. o.sent ++ s) (take-append-drop n o.send_buf)))
      t)
Tells-sent o n ts later e (broke after rest q m t) = cc

-- The fields that a message is read from are as before.
Tells-same :
    {ms : List Bytes} {o new : Out}
    → new.send_open ≡ o.send_open
    → new.send_overflow ≡ o.send_overflow
    → new.sent ≡ o.sent
    → new.send_buf ≡ o.send_buf
    → Tells ms o
    → Tells ms new
Tells-same {ms} a b c d (tells q t) = tells (a ∙ q) (rw (b, c, d) t)
Tells-same a b c d (broke {p} after rest q m t) = broke {p = p} after rest (a ∙ q) m (rw c t)

-- Nothing more is sent.
Tells-broken :
    {ms : List Bytes} {o new : Out}
    → new.send_open ≡ false
    → new.sent ≡ o.sent
    → Tells ms o
    → Tells ms new
Tells-broken {ms} {o} e s (tells q t) =
    broke {p = o.send_overflow} [] o.send_buf e (sym (append-nil ms)) (rw s t)
Tells-broken e s (broke {p} after rest q m t) = broke {p = p} after rest e m (rw s t)

shorter :
    {ms : List Bytes} {o : Out} (n : ℕ) → IsOut ms o → length (drop n o.send_buf) < send_buf_size
shorter {ms} {o} n i = omega (arith, i.fits, length-drop n o.send_buf)

sent-IsOut :
    {ms : List Bytes} (o : Out) (n ts : ℕ) (later : List Answer)
    → o.send_open ≡ true
    → IsOut ms o
    → IsOut ms (record o {
      send_buf = drop n o.send_buf;
      send_blocked_ts = ts;
      sent = o.sent ++ take n o.send_buf;
      answers = later;
    })
sent-IsOut o n ts later e i = record {
  told = Tells-sent o n ts later e i.told;
  whole = drop-AreLines n o.send_buf i.whole;
  fits = shorter n i;
}

blocked-IsOut :
    {ms : List Bytes} (o : Out) (now : ℕ) (later : List Answer)
    → IsOut ms o
    → IsOut ms (blocked now (record o { answers = later }))
blocked-IsOut o now later i = record {
  told = Tells-same refl refl refl refl i.told;
  whole = i.whole;
  fits = i.fits;
}

cleared-IsOut :
    {ms : List Bytes} (o : Out)
    → o.send_open ≡ false
    → IsOut ms o
    → IsOut ms (record o { send_buf = [] })
unfolding eol_len
cleared-IsOut o e i = record { told = Tells-broken e refl i.told; whole = refl; fits = omega arith }

Tells-marked :
    {ms : List Bytes} (o : Out)
    → o.send_buf ≡ []
    → o.send_overflow ≡ true
    → Tells ms o
    → Tells ms (record o { send_buf = overflow_line; send_overflow = false })
Tells-marked {ms} o b p (tells q t) = tells q (
    marker (
      subst (λ s. Told ms true s) (append-nil o.sent)
        (subst (λ f. Told ms f (o.sent ++ [])) p
          (subst (λ s. Told ms o.send_overflow (o.sent ++ s)) b t))))
Tells-marked o b p (broke after rest q m t) = broke after rest q m t

marked-IsOut :
    {ms : List Bytes} (o : Out)
    → o.send_buf ≡ []
    → o.send_overflow ≡ true
    → IsOut ms o
    → IsOut ms (record o { send_buf = overflow_line; send_overflow = false })
marked-IsOut o b p i = record {
  told = Tells-marked o b p i.told;
  whole = overflow-AreLines;
  fits = omega arith;
}

keeps :
    (o : Out) (n : ℕ)
    → (o.send_overflow ≡ true)
      ⊎ (o.send_overflow ≡ false) × (length (drop n o.send_buf) ≤ length o.send_buf)
keeps o n = elim (Bool-cases (o.send_overflow)) [
  | inl p ↦ inl p
  | inr p ↦ inr (p, omega (arith, length-drop n o.send_buf))
]

module _ (now : ℕ) {ms : List Bytes} where
  write_lines-Flushed :
      (fuel : ℕ) (o : Out) (n : ℕ) (answers : List Answer)
      → ((mid : Out) → IsOut ms mid → rounds mid < fuel → Flushed ms mid (flush_loop fuel now mid))
      → o.answers ≡ answers
      → o.send_open ≡ true
      → IsOut ms o
      → rounds o < suc fuel
      → 0 < n
      → 0 < length o.send_buf
      → Flushed ms o (write_lines (flush_loop fuel now) now n answers o)
  write_lines-Flushed fuel o n [] ih a e i h p b =
      flushed
        (record { told = Tells-same refl refl refl refl i.told; whole = i.whole; fits = i.fits })
        (keeps o 0)
  write_lines-Flushed fuel o n (blocks ∷ later) ih a e i h p b =
      flushed (blocked-IsOut o now later i) (keeps o 0)
  write_lines-Flushed fuel o n (breaks ∷ later) ih a e i h p b =
      flushed (record { told = Tells-broken refl refl i.told; whole = i.whole; fits = i.fits })
        (keeps o 0)
  write_lines-Flushed fuel o n (takes k ∷ later) ih a e i h p b =
      let mid : Out = record o {
        send_buf = drop (min (suc k) n) o.send_buf;
        send_blocked_ts = 0;
        sent = o.sent ++ take (min (suc k) n) o.send_buf;
        answers = later;
      } in
      Flushed-step (keeps o (min (suc k) n))
        (ih mid (sent-IsOut o (min (suc k) n) 0 later e i) (ground (arith, h, b, ap length a)))

  flush_round-Flushed :
      (fuel : ℕ) (o : Out) (buf : Bytes)
      → ((mid : Out) → IsOut ms mid → rounds mid < fuel → Flushed ms mid (flush_loop fuel now mid))
      → o.send_buf ≡ buf
      → IsOut ms o
      → rounds o < suc fuel
      → Flushed ms o (flush_round (flush_loop fuel now) now buf o)
  flush_round-Flushed fuel o [] ih b i h =
      by_test (Flushed ms o) (o.send_overflow) _ _
        (λ p. Flushed-step (inl p) (
          ih (record o { send_buf = overflow_line; send_overflow = false }) (marked-IsOut o b p i)
            (ground (arith, h, p, ap length b))))
        (λ p. flushed i (inr (p, omega arith)))
  flush_round-Flushed fuel o (c ∷ cs) ih b i h =
      by_test (Flushed ms o) (not o.send_open) _ _
        (λ e. Flushed-step (keeps_none o) (
          ih (record o { send_buf = [] }) (cleared-IsOut o (ground (arith, e)) i)
            (ground (arith, h, ap length b))))
        (λ e.
          let full : eol_len (c ∷ cs) ≡ suc (length cs) = subst AreLines b i.whole in
          let positive : (suc (length cs) == 0) ≡ false = ground arith in
          rw (full, positive)
            (write_lines-Flushed fuel o (suc (length cs)) o.answers ih refl (ground (arith, e)) i h
              (omega arith) (omega (arith, ap length b))))
    where
      keeps_none :
          (o : Out) → (o.send_overflow ≡ true) ⊎ (o.send_overflow ≡ false) × (0 ≤ length o.send_buf)
      keeps_none o = elim (Bool-cases (o.send_overflow)) [
        | inl p ↦ inl p
        | inr p ↦ inr (p, omega arith)
      ]

  flush_loop-Flushed :
      (fuel : ℕ) (o : Out) → IsOut ms o → rounds o < fuel → Flushed ms o (flush_loop fuel now o)
  unfolding flush_loop
  flush_loop-Flushed zero o i h = elim h [ ]
  flush_loop-Flushed (suc fuel) o i h =
      flush_round-Flushed fuel o o.send_buf (λ mid j l. flush_loop-Flushed fuel mid j l) refl i h

-- `ctl_flush_outbuf` ends within two rounds for each write and four more. An open connection goes on
-- to tell every message: what it has sent and holds is the same, but for an overflow line, once the
-- buffer is empty, behind messages that were lost; lines stay whole, and the buffer fits. A connection
-- that breaks has sent a part of that.
pub flush_outbuf-Flushed :
    (now : ℕ) {ms : List Bytes} (o : Out) → IsOut ms o → Flushed ms o (flush_outbuf now o)
flush_outbuf-Flushed now o i = flush_loop-Flushed now (2 * length o.answers + 4) o i (ground arith)
