-- ===== src/Controller/Poll/Blocks.antt =====
-- src/controller.c, `ctl_flush_outbuf`: what it leaves when the pipe is blocked.
use daemonproxy.Common.{
  by_test, ℕ, zero, suc, ◌<◌, Bool, true, false, not, Option, some, none, List, [], ◌∷◌, Bytes,
  length, min, ◌==◌, ◌≡◌, ◌≢◌, refl, ap, ◌∙◌, subst, arith, ◌⊎◌, inl, inr,
}
use daemonproxy.Controller.Send.{
  Answer, takes, blocks, breaks, Out, eol_len, blocked, write_lines, flush_round, flush_loop,
}
use daemonproxy.Controller.Send.Lines.{AreLines, drop-AreLines, overflow-AreLines}

-- The time since which the pipe is blocked: it is now, or the time from before, and then the pipe has
-- taken nothing since.
abbrev pub Since : ℕ → Out → Out → Type 0
Since now o new =
    (new.send_blocked_ts ≡ now)
    ⊎ (o.send_blocked_ts ≢ 0) × (new.send_blocked_ts ≡ o.send_blocked_ts) × (new.sent ≡ o.sent)

-- What a flush leaves: nothing, and no loss to tell; a connection that is closed; or lines that wait
-- for the pipe.
pub data Left (now : ℕ) (o : Out) : Option (Bool × Out) → Type 0 where
  lacks_fuel : Left now o none
  sent_all :
      {new : Out} → new.send_buf ≡ [] → new.send_overflow ≡ false → Left now o (some (true, new))
  broken : {done : Bool} {new : Out} → new.send_open ≡ false → Left now o (some (done, new))
  stuck :
      {new : Out}
      → new.send_open ≡ true
      → 0 < length new.send_buf
      → Since now o new
      → Left now o (some (false, new))

Left-step :
    {now : ℕ} {o mid : Out} {r : Option (Bool × Out)}
    → (mid.send_blocked_ts ≡ 0) ⊎ (mid.send_blocked_ts ≡ o.send_blocked_ts) × (mid.sent ≡ o.sent)
    → Left now mid r
    → Left now o r
Left-step s lacks_fuel = lacks_fuel
Left-step s (sent_all b f) = sent_all b f
Left-step s (broken e) = broken e
Left-step s (stuck e b (inl q)) = stuck e b (inl q)
Left-step (inl z) (stuck e b (inr q)) = absurd (q.0 z)
Left-step (inr z) (stuck e b (inr q)) =
    stuck e b (inr (subst (λ t. t ≢ 0) z.0 q.0, q.1 ∙ z.0, q.2 ∙ z.1))

nil-AreLines : AreLines []
unfolding eol_len
nil-AreLines = refl

module _ (now : ℕ) (nonzero : now ≢ 0) where
  blocked-Since :
      (o : Out) (later : List Answer) → Since now o (blocked now (record o { answers = later }))
  blocked-Since o later =
      by_test
        (λ t. (t ≡ now) ⊎ (o.send_blocked_ts ≢ 0) × (t ≡ o.send_blocked_ts) × (o.sent ≡ o.sent))
        (o.send_blocked_ts == 0) _ _
        (λ z. inl (
          by_test (λ t. t ≡ now) (now == 0) _ _ (λ q. absurd (nonzero (ground (arith, q))))
            (λ q. refl)))
        (λ z. inr (ground (arith, z), refl, refl))

  write_lines-Left :
      (fuel : ℕ) (o : Out) (n : ℕ) (answers : List Answer)
      → ((mid : Out) → AreLines mid.send_buf → Left now mid (flush_loop fuel now mid))
      → o.send_open ≡ true
      → AreLines o.send_buf
      → 0 < length o.send_buf
      → Left now o (write_lines (flush_loop fuel now) now n answers o)
  write_lines-Left fuel o n [] ih e i b = stuck e b (blocked-Since o o.answers)
  write_lines-Left fuel o n (blocks ∷ later) ih e i b = stuck e b (blocked-Since o later)
  write_lines-Left fuel o n (breaks ∷ later) ih e i b = broken refl
  write_lines-Left fuel o n (takes k ∷ later) ih e i b =
      Left-step (inl refl) (ih _ (drop-AreLines (min (suc k) n) o.send_buf i))

  flush_round-Left :
      (fuel : ℕ) (o : Out) (buf : Bytes)
      → ((mid : Out) → AreLines mid.send_buf → Left now mid (flush_loop fuel now mid))
      → o.send_buf ≡ buf
      → AreLines o.send_buf
      → Left now o (flush_round (flush_loop fuel now) now buf o)
  flush_round-Left fuel o [] ih b i =
      by_test (Left now o) (o.send_overflow) _ _
        (λ p. Left-step (inr (refl, refl)) (ih _ overflow-AreLines)) (λ p. sent_all b p)
  flush_round-Left fuel o (c ∷ cs) ih b i =
      by_test (Left now o) (not o.send_open) _ _
        (λ e. Left-step (inr (refl, refl)) (ih (record o { send_buf = [] }) nil-AreLines))
        (λ e.
          let full : eol_len (c ∷ cs) ≡ suc (length cs) = subst AreLines b i in
          let positive : (suc (length cs) == 0) ≡ false = ground arith in
          rw (full, positive)
            (write_lines-Left fuel o (suc (length cs)) o.answers ih (ground (arith, e)) i
              (omega (arith, ap length b))))

  -- A flush of whole lines leaves nothing, or a closed connection, or lines that wait for the pipe; for
  -- these the time since which it is blocked is right. The clock is not 0.
  pub flush_loop-Left :
      (fuel : ℕ) (o : Out) → AreLines o.send_buf → Left now o (flush_loop fuel now o)
  unfolding flush_loop
  flush_loop-Left zero o i = lacks_fuel
  flush_loop-Left (suc fuel) o i =
      flush_round-Left fuel o o.send_buf (λ mid j. flush_loop-Left fuel mid j) refl i
