-- ===== src/Service/Machine/Run.antt =====
-- src/service.c, `svc_run`: how a run of the state machine ends.
use daemonproxy.Common.{
  ℕ, suc, ◌<◌, Bool, true, false, not, ◌||◌, some, ◌==◌, if◌then◌else◌, after, before, add64, ◌≡◌,
  ◌≢◌, refl, subst, ap, sym, ◌∙◌, arith, inl, inr, Bool-cases, word,
}
use daemonproxy.Signal.{Slots}
use daemonproxy.Service.Machine.{
  State, undef, down, start, up, reaped, Service, World, ForkEnv, ForkResult, forked, failed,
  crashed, RunResult, ran, aborted, handle_start, begin_start, start_at, do_fork, uses_control,
  is_waiting, wait_start, started, fork_retry_delay, restart_when, after_reap, check_sigwake,
  run_start, run_in, run, svc_run, set_active, notify_state,
}
use daemonproxy.Service.Machine.Inv.{StateInv, IsValid, begin_start-IsValid, handle_start-eq}

-- A service at rest is down or up, or it waits for a time to come, by which the main loop wakes.
abbrev pub Rests : State → World → Type 0
Rests down w = Unit
Rests up w = Unit
Rests start w = (is_waiting w ≡ true) × (after w.next w.svc.start_time ≡ false)
Rests reaped w = ⊥
Rests undef w = ⊥

-- How a run ends: at rest and valid, or with the crash for want of a controller.
pub data Settles (env : ForkEnv) (s : Service) : RunResult → Type 0 where
  settled : {w : World} → IsValid w.svc → Rests w.svc.state w → Settles env s (ran w)
  no_controller : uses_control s ≡ true → env.has_controller ≡ false → Settles env s aborted

next-wakes : (now next t : ℕ) → after (if before t next then t else next) t ≡ false
next-wakes now next t = ground arith

valid_in :
    {q : State} (s : Service)
    → s.state ≡ q
    → s.in_pid_index ≡ not (s.pid == 0)
    → StateInv q s
    → IsValid s
valid_in s e i h = record { indexed = i; state_inv = subst (λ q. StateInv q s) (sym e) h }

StateInv-in : {q : State} (s : Service) → s.state ≡ q → IsValid s → StateInv q s
StateInv-in s e v = subst (λ q. StateInv q s) e v.state_inv

Rests-in : {q : State} (w : World) → w.svc.state ≡ q → Rests q w → Rests w.svc.state w
Rests-in w e h = subst (λ q. Rests q w) (sym e) h

-- A retry lies ahead.
retry-waits : (now : ℕ) → now < word → after (start_at now (add64 now fork_retry_delay)) now ≡ true
retry-waits now h = ground arith

do_fork-crashed :
    (env : ForkEnv) (s : Service)
    → do_fork env s ≡ crashed
    → (uses_control s ≡ true) × (env.has_controller ≡ false)
unfolding do_fork
do_fork-crashed env s h = ground arith

do_fork-forked :
    (env : ForkEnv) (s : Service) (pid : ℕ) → do_fork env s ≡ forked pid → env.fork ≡ some pid
unfolding do_fork
do_fork-forked env s pid h = ground arith

module _ (signals : Slots) (env : ForkEnv) (s : Service) where
  wait-Settles :
      (again : World → RunResult) (w : World)
      → w.svc.state ≡ start
      → IsValid w.svc
      → is_waiting w ≡ true
      → Settles env s (run_start again env w)
  wait-Settles again w e v h =
      let i = StateInv-in w.svc e v in
      rw h (
        settled (valid_in (wait_start w).svc e v.indexed (refl, i.1, i.2, i.3, i.4))
          (Rests-in (wait_start w) e (h, next-wakes w.now w.next w.svc.start_time)))

  down-Settles :
      (w : World)
      → w.svc.state ≡ down
      → w.svc.in_pid_index ≡ not (w.svc.pid == 0)
      → Settles env s (ran (record w { svc = set_active false w.svc }))
  down-Settles w e i =
      let rested : World = record w { svc = set_active false w.svc } in
      settled (valid_in rested.svc e i refl) (Rests-in rested e tt)

  up-Settles :
      (w : World)
      → w.svc.state ≡ up
      → IsValid w.svc
      → Settles env s (ran (record w { svc = set_active false w.svc }))
  up-Settles w e v =
      let rested : World = record w { svc = set_active false w.svc } in
      let i = StateInv-in w.svc e v in
      settled (valid_in rested.svc e v.indexed (refl, i.1, i.2, i.3)) (Rests-in rested e tt)

  started-Settles :
      (pid : ℕ) (w : World)
      → w.svc.state ≡ start
      → IsValid w.svc
      → pid ≢ 0
      → Settles env s (ran (started pid w))
  started-Settles pid w e v p =
      let i = StateInv-in w.svc e v in
      settled (record { indexed = ground arith; state_inv = (refl, p, ground arith, i.3) }) tt

  retry-Settles :
      (fuel : ℕ) (w : World)
      → w.svc.state ≡ start
      → IsValid w.svc
      → w.now < word
      → Settles env s (run (suc fuel) signals env (handle_start (add64 w.now fork_retry_delay) w).1)
  unfolding run
  retry-Settles fuel w e v n = rw (handle_start-eq (add64 w.now fork_retry_delay) w e) (
      wait-Settles (run fuel signals env) (begin_start (add64 w.now fork_retry_delay) w) refl
        (begin_start-IsValid (add64 w.now fork_retry_delay) w v.indexed) (retry-waits w.now n))

  fork-Settles :
      (fuel : ℕ) (w : World) (r : ForkResult)
      → do_fork env w.svc ≡ r
      → w.svc.state ≡ start
      → IsValid w.svc
      → w.now < word
      → env.fork ≢ some 0
      → uses_control w.svc ≡ uses_control s
      → Settles env s (elim r [
        | forked pid ↦ ran (started pid w)
        | failed ↦ run (suc fuel) signals env (handle_start (add64 w.now fork_retry_delay) w).1
        | crashed ↦ aborted
      ])
  fork-Settles fuel w (forked pid) q e v n f u =
      started-Settles pid w e v (λ z. f (do_fork-forked env w.svc pid q ∙ ap some z))
  fork-Settles fuel w failed q e v n f u = retry-Settles fuel w e v n
  fork-Settles fuel w crashed q e v n f u =
      let c = do_fork-crashed env w.svc q in no_controller (sym u ∙ c.0) c.1

  start-Settles :
      (fuel : ℕ) (w : World)
      → w.svc.state ≡ start
      → IsValid w.svc
      → w.now < word
      → env.fork ≢ some 0
      → uses_control w.svc ≡ uses_control s
      → Settles env s (run_start (run (suc fuel) signals env) env w)
  start-Settles fuel w e v n f u = elim (Bool-cases (is_waiting w)) [
    | inl waits ↦ wait-Settles (run (suc fuel) signals env) w e v waits
    | inr due ↦ rw due (fork-Settles fuel w (do_fork env w.svc) refl e v n f u)
  ]

  -- The service behind a `svc_run` in state reaped, up to the restart.
  abbrev downed : World → World
  downed w = let told = notify_state w in record told { svc = record told.svc { state = down } }

  abbrev restarts : World → Bool
  restarts w = (downed w).svc.auto_restart || check_sigwake signals (downed w).svc

  restarting-Settles :
      (w : World)
      → w.svc.in_pid_index ≡ not (w.svc.pid == 0)
      → w.now < word
      → env.fork ≢ some 0
      → uses_control w.svc ≡ uses_control s
      → Settles env s
          (run 2 signals env (notify_state (handle_start (restart_when (downed w)) (downed w)).1))
  unfolding run
  restarting-Settles w i n f u =
      let when = restart_when (downed w) in
      rw (handle_start-eq when (downed w) refl) (
        start-Settles 0 (notify_state (begin_start when (downed w))) refl
          (begin_start-IsValid when (downed w) i) n f u)

  resting-Settles :
      (w : World)
      → w.svc.in_pid_index ≡ not (w.svc.pid == 0)
      → Settles env s (run 2 signals env (downed w))
  unfolding run
  resting-Settles w i = down-Settles (downed w) refl i

  reaped-Settles :
      (w : World)
      → w.svc.in_pid_index ≡ not (w.svc.pid == 0)
      → w.now < word
      → env.fork ≢ some 0
      → uses_control w.svc ≡ uses_control s
      → Settles env s (run 2 signals env (after_reap signals w))
  reaped-Settles w i n f u = elim (Bool-cases (restarts w)) [
    | inl yes_restart ↦ rw yes_restart (restarting-Settles w i n f u)
    | inr no_restart ↦ rw no_restart (resting-Settles w i)
  ]

  run_in-Settles :
      (q : State) (w : World)
      → w.svc.state ≡ q
      → IsValid w.svc
      → w.now < word
      → env.fork ≢ some 0
      → uses_control w.svc ≡ uses_control s
      → Settles env s (run_in (run 2 signals env) signals env q w)
  run_in-Settles undef w e v n f u = absurd (StateInv-in w.svc e v)
  run_in-Settles down w e v n f u = down-Settles w e v.indexed
  run_in-Settles start w e v n f u = start-Settles 1 w e v n f u
  run_in-Settles up w e v n f u = up-Settles w e v
  run_in-Settles reaped w e v n f u = reaped-Settles w v.indexed n f u

-- `svc_run` always ends, behind two gotos at most. It leaves the service valid and at rest: down or up
-- and off the active list, or on it and waiting for a time to come, by which the main loop wakes. The
-- one exception is a crash, which needs a service that uses the control handles, and no controller
-- left for it. The service is valid before, the clock a 64-bit pattern, and fork gives no pid 0.
pub svc_run-Settles :
    (signals : Slots) (env : ForkEnv) (w : World)
    → IsValid w.svc
    → w.now < word
    → env.fork ≢ some 0
    → Settles env w.svc (svc_run signals env w)
unfolding run
svc_run-Settles signals env w v n f = run_in-Settles signals env w.svc w.svc.state w refl v n f refl
