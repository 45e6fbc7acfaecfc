-- ===== src/Controller/Send/Write.antt =====
-- src/controller.c, `ctl_write`: each message is told, whole or as lost.
use daemonproxy.Common.{
  by_test, ℕ, zero, suc, ◌+◌, ◌<◌, Bool, true, false, not, ◌||◌, Option, some, none, List, [], ◌∷◌,
  ◌++◌, Bytes, length, ltb, ◌==◌, ◌≡◌, refl, sym, ap, subst, ◌∙◌, arith, inl, inr, length-append,
  append_assoc,
}
use daemonproxy.Controller.Send.{Out, send_buf_size, flush_outbuf, after_flush, put_msg, write_to}
use daemonproxy.Controller.Send.Lines.{AreLines, append-AreLines}
use daemonproxy.Controller.Send.Tells.{Told, event, lost, Tells, tells, broke, IsOut}
use daemonproxy.Controller.Send.Flush.{Flushed, flushed, flush_outbuf-Flushed}

-- A write ends, and the connection tells the messages and this one.
pub data Written (ms : List Bytes) (m : Bytes) : Option Out → Type 0 where
  written : {new : Out} → IsOut (ms ++ (m ∷ [])) new → Written ms m (some new)

module _ (m : Bytes) {ms : List Bytes} where
  Tells-later :
      (o : Out) (new : Out)
      → o.send_open ≡ false
      → new.send_open ≡ false
      → new.sent ≡ o.sent
      → Tells ms o
      → Tells (ms ++ (m ∷ [])) new
  Tells-later o new e n s (tells q t) = cc
  Tells-later o new e n s (broke {before} {p} after rest q h t) =
      broke {p = p} (after ++ (m ∷ [])) rest n
        (ap (λ l. l ++ (m ∷ [])) h ∙ append_assoc before after (m ∷ [])) (rw s t)

  Tells-lost : (o : Out) → Tells ms o → Tells (ms ++ (m ∷ [])) (record o { send_overflow = true })
  Tells-lost o (tells q t) = tells q (lost m t)
  Tells-lost o (broke after rest q h t) =
      Tells-later o (record o { send_overflow = true }) q q refl (broke after rest q h t)

  Tells-put :
      (o : Out)
      → o.send_overflow ≡ false
      → Tells ms o
      → Tells (ms ++ (m ∷ [])) (record o { send_buf = o.send_buf ++ m })
  Tells-put o f (tells q t) = tells q (
      subst (λ p. Told (ms ++ (m ∷ [])) p (o.sent ++ (o.send_buf ++ m))) (sym f)
        (subst (λ s. Told (ms ++ (m ∷ [])) false s) (append_assoc o.sent o.send_buf m)
          (event m (subst (λ p. Told ms p (o.sent ++ o.send_buf)) f t))))
  Tells-put o f (broke after rest q h t) =
      Tells-later o (record o { send_buf = o.send_buf ++ m }) q q refl (broke after rest q h t)

  put-IsOut :
      (o : Out)
      → AreLines m
      → o.send_overflow ≡ false
      → length m + length o.send_buf < send_buf_size
      → IsOut ms o
      → IsOut (ms ++ (m ∷ [])) (record o { send_buf = o.send_buf ++ m })
  put-IsOut o l f h i = record {
    told = Tells-put o f i.told;
    whole = append-AreLines o.send_buf m i.whole l;
    fits = omega (arith, h, length-append o.send_buf m);
  }

  module _ (now : ℕ) (lines : AreLines m) where
    after_flush-Written :
        (fuel : ℕ) (o : Out) (r : Option (Bool × Out))
        → ((mid : Out)
            → IsOut ms mid
            → mid.send_overflow ≡ false
            → length mid.send_buf < fuel
            → Written ms m (put_msg fuel now m mid))
        → o.send_overflow ≡ false
        → length o.send_buf < suc fuel
        → Flushed ms o r
        → Written ms m (after_flush (put_msg fuel now m) (length o.send_buf) r)
    after_flush-Written fuel o none ih f h x = elim x [ ]
    after_flush-Written fuel o (some (done, new)) ih f h (flushed i (inl p)) = cc
    after_flush-Written fuel o (some (done, new)) ih f h (flushed i (inr s)) =
        by_test (Written ms m) (not (length o.send_buf == length new.send_buf)) _ _
          (λ e. ih new i s.0 (ground (arith, e, h, s.1)))
          (λ e. written (record { told = Tells-lost new i.told; whole = i.whole; fits = i.fits }))

    put_msg-Written :
        (fuel : ℕ) (o : Out)
        → IsOut ms o
        → o.send_overflow ≡ false
        → length o.send_buf < fuel
        → Written ms m (put_msg fuel now m o)
    unfolding put_msg
    put_msg-Written zero o i f h = elim h [ ]
    put_msg-Written (suc fuel) o i f h =
        by_test (Written ms m) (ltb (length m + length o.send_buf) send_buf_size) _ _
          (λ e. written (put-IsOut o lines f (ground (arith, e)) i))
          (λ e.
            after_flush-Written fuel o (flush_outbuf now o)
              (λ mid j g l. put_msg-Written fuel mid j g l) f h (flush_outbuf-Flushed now o i))

    -- The connection is closed, or a loss waits to be told.
    skipped :
        (o : Out)
        → (not o.send_open || o.send_overflow) ≡ true
        → IsOut ms o
        → IsOut (ms ++ (m ∷ [])) o
    skipped o e i = record { told = skips o e i.told; whole = i.whole; fits = i.fits }
      where
        skips :
            (o : Out)
            → (not o.send_open || o.send_overflow) ≡ true
            → Tells ms o
            → Tells (ms ++ (m ∷ [])) o
        skips o e (broke after rest q h t) = Tells-later o o q q refl (broke after rest q h t)
        skips o e (tells q t) =
            let p : o.send_overflow ≡ true = ground (arith, e, q) in
            tells q (subst (λ p. Told (ms ++ (m ∷ [])) p (o.sent ++ o.send_buf)) (sym p) (lost m t))

-- `ctl_write` ends, whatever the pipe answers. An open connection then tells the messages so far and
-- this one: what it has sent and holds is whole messages in order, each of them there or lost, with an
-- overflow line, or the flag for one, behind those lost. The buffer fits and holds whole lines. A
-- connection that breaks has sent a part of that. The message is of whole lines.
pub write_to-Written :
    (now : ℕ) (m : Bytes) {ms : List Bytes} (o : Out)
    → AreLines m
    → IsOut ms o
    → Written ms m (write_to now m o)
unfolding write_to
write_to-Written now m {ms} o l i =
    by_test (Written ms m) (not o.send_open || o.send_overflow) _ _
      (λ e. written (skipped m now l o e i))
      (λ e. put_msg-Written m now l (suc (length o.send_buf)) o i (ground (arith, e)) (omega arith))
