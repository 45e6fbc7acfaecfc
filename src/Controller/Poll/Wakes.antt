-- ===== src/Controller/Poll/Wakes.antt =====
-- src/controller.c, `ctl_run`: blocked connections are closed in time, and the main loop wakes for it.
use daemonproxy.Common.{
  by_test, ℕ, ◌+◌, ◌-◌, ◌≤◌, ◌<◌, Bool, true, false, not, ◌&&◌, Option, some, List, [], ◌∷◌, Bytes,
  length, ltb, leb, if◌then◌else◌, ◌≡◌, ◌∙◌, ◌≢◌, refl, sym, arith, ◌⊎◌, inl, inr, All, add64,
  sub64, after, gt_signed, half_word,
}
use daemonproxy.Controller.Send.{Out}
use daemonproxy.Controller.Send.Tells.{IsOut}
use daemonproxy.Controller.Send.Flush.{Flushed, flushed, flush_outbuf-Flushed}
use daemonproxy.Controller.Receive.{recv_buf_size}
use daemonproxy.Controller.Poll.{
  Link, Polled, at_rest, timed_out, wait_until, still_late, still_blocked, flushed_to, poll_flushed,
  poll, put_first, poll_then, poll_all,
}
use daemonproxy.Controller.Poll.Blocks.{Since, Left, sent_all, broken, stuck, flush_loop-Left}

sub64-small : (a b : ℕ) → b ≤ a → a < half_word → sub64 a b ≡ a - b
sub64-small a b h k = omega (arith, h, k)

add64-small : (a b : ℕ) → a + b < half_word → add64 a b ≡ a + b
add64-small a b h = omega (arith, h)

after-small : (a b : ℕ) → a < half_word → b < half_word → after a b ≡ ltb b a
after-small a b h k = ground (arith, h, k)

gt_signed-small : (a b : ℕ) → a < half_word → b < half_word → gt_signed a b ≡ ltb b a
gt_signed-small a b h k = ground (arith, h, k)

-- A connection whose timeouts are in order, and blocked since a time that is not to come. Its events
-- are as `ctl_write` leaves them.
pub record IsLink (now : ℕ) (l : Link) : Type 0 where
  pub events : List Bytes
  pub out_IsOut : IsOut events l.out
  pub past : l.out.send_blocked_ts ≤ now
  pub ordered : l.write_timeout_reset ≤ l.write_timeout_close
  pub bounded : now + l.write_timeout_close < half_word

-- Lines wait in `o`, what the flush left of the connection `l`.
abbrev pub Waits : ℕ → Link → Out → Type 0
Waits now l o = (o.send_open ≡ true) × (0 < length o.send_buf) × Since now l.out o

-- The time by which the main loop looks at a connection again that is blocked since `ts`: the first
-- timeout, or the second one behind the first. Both are to come.
abbrev pub WakesFor : ℕ → ℕ → ℕ → Link → Type 0
WakesFor now bound ts l =
    (now < ts + l.write_timeout_reset) × (bound ≤ ts + l.write_timeout_reset)
    ⊎ (ts + l.write_timeout_reset ≤ now)
      × (now < ts + l.write_timeout_close)
      × (bound ≤ ts + l.write_timeout_close)

-- The overflow flag is as the flush left it, or it is set, which is for a late connection whose input
-- buffer is full; then the main loop does not sleep.
abbrev pub Marks : ℕ → ℕ → Link → Out → Bool → Type 0
Marks now bound l o flag =
    (flag ≡ o.send_overflow)
    ⊎ (flag ≡ true)
      × (o.send_blocked_ts + l.write_timeout_reset ≤ now)
      × (recv_buf_size ≤ length l.inp.recv_buf)
      × (bound ≤ now)

-- What becomes of the connection `l`, where the main loop wakes by `bound`.
pub data Polls (now bound : ℕ) (l : Link) : Polled → Type 0 where
  idles :
      {next : ℕ}
      → (l.out.send_open ≡ false) ⊎ (l.out.send_buf ≡ [])
      → Polls now bound l (at_rest next l)
  flushes :
      {o : Out} {next : ℕ}
      → (o.send_open ≡ false) ⊎ (o.send_buf ≡ [])
      → (length l.inp.recv_buf ≡ 0) ⊎ (bound ≤ now)
      → Polls now bound l (at_rest next (record l { out = o }))
  closes :
      {next : ℕ} (o : Out)
      → Waits now l o
      → o.send_blocked_ts + l.write_timeout_close ≤ now
      → Polls now bound l (timed_out next)
  stays :
      {p : Polled} (o : Out) (flag : Bool)
      → Waits now l o
      → p.link ≡ some (record l { out = record o { send_overflow = flag } })
      → p.on_writeable ≡ true
      → WakesFor now bound o.send_blocked_ts l
      → Marks now bound l o flag
      → Polls now bound l p

WakesFor-earlier :
    {now bound earlier : ℕ} (ts : ℕ) (l : Link)
    → earlier ≤ bound
    → WakesFor now bound ts l
    → WakesFor now earlier ts l
WakesFor-earlier ts l h (inl q) = inl (q.0, omega (arith, h, q.1))
WakesFor-earlier ts l h (inr q) = inr (q.0, q.1, omega (arith, h, q.2))

Marks-earlier :
    {now bound earlier : ℕ} (l : Link) (o : Out) {flag : Bool}
    → earlier ≤ bound
    → Marks now bound l o flag
    → Marks now earlier l o flag
Marks-earlier l o h (inl q) = inl q
Marks-earlier l o h (inr q) = inr (q.0, q.1, q.2, omega (arith, h, q.3))

Polls-earlier :
    {now bound earlier : ℕ} {l : Link} {p : Polled}
    → earlier ≤ bound
    → Polls now bound l p
    → Polls now earlier l p
Polls-earlier h (idles e) = idles e
Polls-earlier h (flushes e (inl q)) = flushes e (inl q)
Polls-earlier h (flushes e (inr q)) = flushes e (inr (omega (arith, h, q)))
Polls-earlier h (closes o w q) = closes o w q
Polls-earlier {l} h (stays o flag w e t wake mark) =
    stays o flag w e t (WakesFor-earlier _ l h wake) (Marks-earlier l o h mark)

-- One round of the loop, which moves `wake->next` to no time before now.
pub data Round (now next : ℕ) (l : Link) : Option Polled → Type 0 where
  round :
      {p : Polled} → Polls now p.next l p → now ≤ p.next → p.next ≤ next → Round now next l (some p)

-- The times that a wait for `check` sets `wake->next` to.
abbrev EarlierOf : ℕ → ℕ → ℕ → ℕ → Type 0
EarlierOf now check from n = (now ≤ n) × (n ≤ check) × (n ≤ from)

earlier-EarlierOf :
    (now check from : ℕ)
    → now ≤ from
    → from < half_word
    → now < check
    → check < half_word
    → EarlierOf now check from (if after from check then check else from)
earlier-EarlierOf now check from h k late c =
    let order : after from check ≡ ltb check from = after-small from check k c in
    by_test (EarlierOf now check from) (after from check) _ _
      (λ t. (omega (arith, late), omega arith, ground (arith, sym order ∙ t)))
      (λ t. (h, ground (arith, sym order ∙ t), omega arith))

module _ (now next : ℕ) (sooner : now ≤ next) (small : next < half_word) where
  Round-wait :
      (l : Link) (o : Out) (flag : Bool) (check from : ℕ)
      → Waits now l o
      → now ≤ from
      → from ≤ next
      → now < check
      → check < half_word
      → WakesFor now check o.send_blocked_ts l
      → Marks now from l o flag
      → Round now next l
          (some (wait_until check from (record l { out = record o { send_overflow = flag } })))
  Round-wait l o flag check from w f g late c wake mark =
      let e = earlier-EarlierOf now check from f (omega (arith, g, small)) late c in
      round (stays o flag w refl refl (WakesFor-earlier _ l e.1 wake) (Marks-earlier l o e.2 mark))
        e.0 (omega (arith, e.2, g))

  module _ (l : Link) (i : IsLink now l) (o : Out) (w : Waits now l o) where
    blocked-past : o.send_blocked_ts ≤ now
    blocked-past = elim (w.2) [ inl q ↦ omega (arith, q) | inr q ↦ omega (arith, q.1, i.past) ]

    Round-late :
        o.send_blocked_ts + l.write_timeout_reset ≤ now
        → now < o.send_blocked_ts + l.write_timeout_close
        → Round now next l (some (still_late now next (record l { out = o })))
    Round-late h k =
        let bound : o.send_blocked_ts + l.write_timeout_close < half_word =
          omega (arith, blocked-past, i.bounded) in
        rw (add64-small o.send_blocked_ts l.write_timeout_close bound) (
          by_test (λ p. Round now next l (some p)) (leb recv_buf_size (length l.inp.recv_buf)) _ _
            (λ t.
              Round-wait l o true _ now w (omega arith) sooner k bound (inr (h, k, omega arith))
                (inr (refl, h, ground (arith, t), omega arith)))
            (λ t.
              Round-wait l o o.send_overflow _ next w sooner (omega arith) k bound
                (inr (h, k, omega arith)) (inl refl)))

    Round-lateness :
        (lateness : ℕ)
        → lateness ≡ now - o.send_blocked_ts
        → Round now next l (some (still_blocked lateness now next (record l { out = o })))
    Round-lateness lateness q =
        let below : lateness < half_word = omega (arith, q, i.bounded) in
        let close : gt_signed l.write_timeout_close lateness ≡ ltb lateness l.write_timeout_close =
          gt_signed-small _ lateness (omega (arith, i.bounded)) below in
        let reset : gt_signed l.write_timeout_reset lateness ≡ ltb lateness l.write_timeout_reset =
          gt_signed-small _ lateness (omega (arith, i.bounded, i.ordered)) below in
        rw (close, reset)
          (by_test (λ p. Round now next l (some p)) (not (ltb lateness l.write_timeout_close)) _ _
            (λ t. round (closes o w (ground (arith, t, q, blocked-past))) sooner (omega arith))
            (λ t.
              let k : now < o.send_blocked_ts + l.write_timeout_close =
                ground (arith, t, q, blocked-past) in
              by_test (λ p. Round now next l (some p)) (not (ltb lateness l.write_timeout_reset)) _
                _ (λ u. Round-late (ground (arith, u, q, blocked-past)) k)
                (λ u.
                  let h : now < o.send_blocked_ts + l.write_timeout_reset =
                    ground (arith, u, q, blocked-past) in
                  let bound : o.send_blocked_ts + l.write_timeout_reset < half_word =
                    omega (arith, blocked-past, i.bounded, i.ordered) in
                  rw (add64-small o.send_blocked_ts l.write_timeout_reset bound) (
                    Round-wait l o o.send_overflow _ next w sooner (omega arith) h bound
                      (inl (h, omega arith)) (inl refl)))))

    Round-blocked :
        Round now next l
          (some (still_blocked (sub64 now o.send_blocked_ts) now next (record l { out = o })))
    Round-blocked =
        Round-lateness _ (sub64-small now o.send_blocked_ts blocked-past (omega (arith, i.bounded)))

  Round-flushed :
      (l : Link) (o : Out)
      → (o.send_open ≡ false) ⊎ (o.send_buf ≡ [])
      → Round now next l (some (flushed_to now next (record l { out = o })))
  Round-flushed l o e =
      by_test (λ n. Round now next l (some (at_rest n (record l { out = o }))))
        (ltb 0 (length l.inp.recv_buf)) _ _
        (λ t. round (flushes e (inr (omega arith))) (omega arith) sooner)
        (λ t. round (flushes e (inl (ground (arith, t)))) sooner (omega arith))

  Round-poll_flushed :
      (l : Link) (i : IsLink now l) {r : Option (Bool × Out)}
      → Flushed i.events l.out r
      → Left now l.out r
      → Round now next l (poll_flushed now next l r)
  Round-poll_flushed l i (flushed {new} j s) (sent_all b f) = Round-flushed l new (inr b)
  Round-poll_flushed l i (flushed {done} {new} j s) (broken e) =
      by_test (Round now next l) (not done && new.send_open) _ _
        (λ t. absurd (ground (arith, t, e))) (λ t. Round-flushed l new (inl e))
  Round-poll_flushed l i (flushed {new} j s) (stuck e b t) =
      by_test (Round now next l) (new.send_open) _ _ (λ q. Round-blocked l i new (e, b, t))
        (λ q. Round-flushed l new (inl q))

  poll-Round : now ≢ 0 → (l : Link) → IsLink now l → Round now next l (poll now next l)
  unfolding poll
  poll-Round nonzero l i =
      by_test (Round now next l) (l.out.send_open && ltb 0 (length l.out.send_buf)) _ _
        (λ t.
          Round-poll_flushed l i (flush_outbuf-Flushed now l.out i.out_IsOut)
            (flush_loop-Left now nonzero _ l.out (i.out_IsOut.whole)))
        (λ t.
          round (idles (shut_or_empty (l.out.send_open) (l.out.send_buf) t)) sooner (omega arith))
    where
      shut_or_empty :
          (b : Bool) (s : Bytes) → (b && ltb 0 (length s)) ≡ false → (b ≡ false) ⊎ (s ≡ [])
      shut_or_empty false s h = inl refl
      shut_or_empty true [] h = inr refl
      shut_or_empty true (c ∷ cs) h = inl (ground (arith, h))

-- Each of the connections with what becomes of it.
pub data Each (now bound : ℕ) : List Link → List Polled → Type 0 where
  no_link : Each now bound [] []
  each_link :
      {l : Link} {p : Polled} {ls : List Link} {ps : List Polled}
      → Polls now bound l p
      → Each now bound ls ps
      → Each now bound (l ∷ ls) (p ∷ ps)

-- All connections get their round, and for each of them the main loop wakes by the time behind the
-- last round, which is not before now and not later than without them.
pub data AllPolled (now next : ℕ) (ls : List Link) : Option (List Polled × ℕ) → Type 0 where
  all_polled :
      {ps : List Polled} {bound : ℕ}
      → Each now bound ls ps
      → now ≤ bound
      → bound ≤ next
      → AllPolled now next ls (some (ps, bound))

put_first-AllPolled :
    {now next : ℕ} {l : Link} {ls : List Link} {p : Polled} {r : Option (List Polled × ℕ)}
    → Polls now p.next l p
    → p.next ≤ next
    → AllPolled now p.next ls r
    → AllPolled now next (l ∷ ls) (put_first p r)
put_first-AllPolled q h (all_polled e f g) =
    all_polled (each_link (Polls-earlier g q) e) f (omega (arith, g, h))

poll_then-AllPolled :
    {now next : ℕ} {l : Link} {ls : List Link} {r : Option Polled}
    (again : ℕ → Option (List Polled × ℕ))
    → ((n : ℕ) → now ≤ n → n ≤ next → AllPolled now n ls (again n))
    → Round now next l r
    → AllPolled now next (l ∷ ls) (poll_then again r)
poll_then-AllPolled again ih (round {p} q f g) = put_first-AllPolled q g (ih p.next f g)

-- The loop of `ctl_run` that flushes the connections ends, whatever the pipes answer. Each connection
-- then has nothing to send, or its pipe is broken, and where commands wait behind such a flush, the main
-- loop does not sleep. Or it is closed, just where its pipe has taken nothing for the time of its close
-- timeout. Or its lines wait for the pipe to be writeable, and the main loop wakes by its next timeout,
-- which is to come. The connections are as `ctl_write` leaves them, with timeouts in order, the clock is
-- not 0 and `wake->next` not before it, and no timestamp reaches 2^63.
pub poll_all-Polled :
    (now next : ℕ) (ls : List Link)
    → now ≢ 0
    → now ≤ next
    → next < half_word
    → All (IsLink now) ls
    → AllPolled now next ls (poll_all now next ls)
unfolding poll_all
poll_all-Polled now next [] z h k i = all_polled no_link h (omega arith)
poll_all-Polled now next (l ∷ ls) z h k i =
    poll_then-AllPolled (λ n. poll_all now n ls)
      (λ n f g. poll_all-Polled now n ls z f (omega (arith, g, k)) i.1)
      (poll-Round now next h k z l i.0)
