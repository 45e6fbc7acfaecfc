-- ===== src/Service/Machine/Restart.antt =====
-- src/service.c, `svc_run`: what becomes of a service that was reaped.
use daemonproxy.Common.{
  ℕ, suc, ◌<◌, true, false, if◌then◌else◌, after, before, add64, sub64, gt_signed, ◌≡◌, refl, ap,
  ◌∙◌, arith, word, half_word,
}
use daemonproxy.Signal.{Slots}
use daemonproxy.Service.Machine.{
  down, start, reaped, World, ForkEnv, RunResult, ran, handle_start, begin_start, start_at,
  wait_start, after_reap, run_in, run, svc_run, notify_state,
}
use daemonproxy.Service.Machine.Inv.{handle_start-eq}

-- A service that waits to be started again.
pub record Waits (w : World) (r : RunResult) : Type 0 where
  pub new : World
  pub is_ran : r ≡ ran new
  pub in_start : new.svc.state ≡ start
  pub no_pid : new.svc.pid ≡ 0
  pub later : new.svc.start_time ≡ start_at w.now (add64 w.now w.svc.restart_interval)
  pub ahead : after new.svc.start_time w.now ≡ true
  pub wakes : after new.next new.svc.start_time ≡ false

interval-waits :
    (now interval : ℕ)
    → now < word
    → 0 < interval
    → suc interval < half_word
    → after (start_at now (add64 now interval)) now ≡ true
interval-waits now interval n p h = ground arith

run-reaped :
    (signals : Slots) (env : ForkEnv) (w : World)
    → w.svc.state ≡ reaped
    → svc_run signals env w ≡ run 2 signals env (after_reap signals w)
unfolding run
run-reaped signals env w e = ap (λ q. run_in (run 2 signals env) signals env q w) e

-- The service is started again, and its time is not come.
restarted :
    (signals : Slots) (env : ForkEnv) (w : World) (when : ℕ)
    → w.svc.state ≡ down
    → after (start_at w.now when) w.now ≡ true
    → run 2 signals env (notify_state (handle_start when w).1)
      ≡ ran (wait_start (notify_state (begin_start when w)))
unfolding run
restarted signals env w when e h = rw (handle_start-eq when w e, h)

-- The service behind the notice that it was reaped.
abbrev taken_down : World → World
taken_down w = let told = notify_state w in record told { svc = record told.svc { state = down } }

-- A service with `auto_restart` that ran for less than its restart interval is not forked at once: the
-- run leaves it in state start, with no pid, and with a start time one interval ahead, by which the
-- main loop wakes. The interval is positive and below 2^63 - 1, and the clock a 64-bit pattern.
pub svc_run-Waits :
    (signals : Slots) (env : ForkEnv) (w : World)
    → w.svc.state ≡ reaped
    → w.svc.auto_restart ≡ true
    → gt_signed w.svc.restart_interval (sub64 w.svc.reap_time w.svc.start_time) ≡ true
    → 0 < w.svc.restart_interval
    → suc w.svc.restart_interval < half_word
    → w.now < word
    → Waits w (svc_run signals env w)
svc_run-Waits signals env w e a g p h n =
    let when = add64 w.now w.svc.restart_interval in
    let ahead = interval-waits w.now w.svc.restart_interval n p h in
    let reached : after_reap signals w ≡ notify_state (handle_start when (taken_down w)).1 =
      rw (a, g) in
    record {
      new = wait_start (notify_state (begin_start when (taken_down w)));
      is_ran =
          run-reaped signals env w e
          ∙ ap (run 2 signals env) reached
          ∙ restarted signals env (taken_down w) when refl ahead;
      in_start = refl;
      no_pid = refl;
      later = refl;
      ahead = ahead;
      wakes = next-wakes w.now (start_at w.now when);
    }
  where
    next-wakes : (now t : ℕ) → after (if before t now then t else now) t ≡ false
    next-wakes now t = ground arith
