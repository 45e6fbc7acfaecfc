-- ===== src/Service/Machine.antt =====
-- src/service.c: one service, with the main loop's clock, and its state machine.
-- The active list and the index by pid are the flags that say whether the service is in them. Events
-- are recorded as the arguments that `svc_notify_state` passes on.
pub mod Run
pub mod Restart
pub mod Inv
use daemonproxy.Common.{
  ℕ, zero, suc, ◌+◌, ◌-◌, ◌*◌, ◌^◌, Bool, true, false, not, ◌&&◌, ◌||◌, Option, none, some, List,
  [], ◌∷◌, ◌++◌, Bytes, ltb, leb, ◌==◌, if◌then◌else◌, after, before, add64, sub64, gt_signed,
}
use daemonproxy.Signal.{SigStatus, Slots, events_since, event_loop}

pub data State : Type 0 where
  undef down start up reaped : State

pub record Service : Type 0 where
  pub state : State
  pub name : Bytes
  pub vars : Bytes
  pub pid : ℕ
  pub in_pid_index : Bool
  pub active : Bool
  pub auto_restart : Bool
  pub sigwake : Bool
  pub uses_control_event : Bool
  pub uses_control_cmd : Bool
  pub uses_control_socket : Bool
  pub wait_status : ℕ
  pub start_time : ℕ
  pub reap_time : ℕ
  pub restart_interval : ℕ
  pub autostart_signals : List ℕ

-- The arguments of `ctl_notify_svc_state`.
pub record Notice : Type 0 where
  pub name : Bytes
  pub up_ts : ℕ
  pub reap_ts : ℕ
  pub wstat : ℕ
  pub pid : ℕ

-- The service, `wake->now` and `wake->next`, and the events sent so far.
pub record World : Type 0 where
  pub svc : Service
  pub now : ℕ
  pub next : ℕ
  pub notices : List Notice

-- The service as `svc_ctor` leaves it.
abbrev pub new_service : Bytes → Service
new_service name = record {
  state = down;
  name = name;
  vars = [];
  pid = 0;
  in_pid_index = false;
  active = false;
  auto_restart = false;
  sigwake = false;
  uses_control_event = false;
  uses_control_cmd = false;
  uses_control_socket = false;
  wait_status = 0;
  start_time = 0;
  reap_time = 0;
  restart_interval = 0;
  autostart_signals = [];
}

-- `svc_notify_state`
abbrev pub notify_state : World → World
notify_state w = record w {
  notices =
      w.notices
      ++ (record {
        name = w.svc.name;
        up_ts = w.svc.start_time;
        reap_ts = w.svc.reap_time;
        wstat = w.svc.wait_status;
        pid = w.svc.pid;
      }
          ∷ []);
}

-- `svc_set_active`
abbrev pub set_active : Bool → Service → Service
set_active on s = record s { active = on }

-- `svc_change_pid`: out of the index under the old pid, if there is one, and in under the new.
abbrev pub change_pid : ℕ → Service → Service
change_pid pid s =
    let out = if s.pid == 0 then s.in_pid_index else false in
    record s { pid = pid; in_pid_index = if pid == 0 then out else true }

abbrev pub fork_retry_delay : ℕ
fork_retry_delay = 3 * 2 ^ 32

-- An `int` of -1.
abbrev pub minus_one : ℕ
minus_one = 2 ^ 32 - 1

abbrev pub is_startable : State → Bool
is_startable down = true
is_startable start = true
is_startable _ = false

-- The time that `svc_handle_start` sets: not before now, and never 0.
abbrev pub start_at : ℕ → ℕ → ℕ
start_at now when = let t = if after when now then when else now in if t == 0 then 1 else t

-- What `svc_handle_start` does where the service can be started.
abbrev pub begin_start : ℕ → World → World
begin_start when w =
    let s = change_pid 0 (record w.svc { state = start; start_time = start_at w.now when }) in
    let waiting = record s { reap_time = 0; wait_status = minus_one; active = true } in
    record (notify_state (record w { svc = waiting })) { next = w.now }

-- `svc_handle_start`
unfoldable pub handle_start : ℕ → World → Bool × World
handle_start when w = if is_startable w.svc.state then (true, begin_start when w) else (false, w)

-- `svc_cancel_start`, by the state
abbrev pub cancel_in : State → World → Bool × World
cancel_in start w = (
  true,
  notify_state (record w { svc = record w.svc { state = down; start_time = 0; active = false } }),
)
cancel_in _ w = (false, w)

unfoldable pub cancel_start : World → Bool × World
cancel_start w = cancel_in w.svc.state w

-- `svc_handle_reaped`, by the state
abbrev pub reap_in : State → ℕ → World → World
reap_in up wstat w = record w {
  svc = record w.svc { wait_status = wstat; state = reaped; reap_time = w.now; active = true };
  next = w.now;
}
reap_in _ wstat w = w

unfoldable pub handle_reaped : ℕ → World → World
handle_reaped wstat w = reap_in w.svc.state wstat w

abbrev pub mem : ℕ → List ℕ → Bool
mem n [] = false
mem n (m ∷ ms) = m == n || mem n ms

abbrev any_wakes : List ℕ → List SigStatus → Bool
any_wakes sigs [] = false
any_wakes sigs (e ∷ es) = mem e.signum sigs || any_wakes sigs es

-- `svc_check_sigwake`
unfoldable pub check_sigwake : Slots → Service → Bool
unfolding event_loop
check_sigwake signals s =
    if not s.sigwake then false else any_wakes s.autostart_signals (events_since 0 signals)

-- What the system calls of `svc_do_fork` answer: `ctl_alloc`, `socketpair`, `ctl_ctor` and `fork`.
pub record ForkEnv : Type 0 where
  pub has_controller : Bool
  pub socketpair_ok : Bool
  pub ctor_ok : Bool
  pub fork : Option ℕ

-- A crash is the null pointer that `ctl_free` is given where no controller is left.
pub data ForkResult : Type 0 where
  forked : ℕ → ForkResult
  failed crashed : ForkResult

abbrev pub uses_control : Service → Bool
uses_control s = s.uses_control_socket || s.uses_control_event || s.uses_control_cmd

abbrev of_fork : Option ℕ → ForkResult
of_fork none = failed
of_fork (some pid) = forked pid

-- `svc_do_fork`, in the parent. The child goes on to `svc_do_exec`.
unfoldable pub do_fork : ForkEnv → Service → ForkResult
do_fork env s =
    if uses_control s
    then (if not env.has_controller
        then crashed
        else if not env.socketpair_ok
        then failed
        else if not env.ctor_ok
        then failed
        else of_fork env.fork)
    else of_fork env.fork

-- A run ends, or aborts: by an assertion on the state, or by the crash of `svc_do_fork`.
pub data RunResult : Type 0 where
  ran : World → RunResult
  aborted out_of_fuel : RunResult

abbrev pub is_waiting : World → Bool
is_waiting w = after w.svc.start_time w.now

-- SVC_STATE_START before its time
abbrev pub wait_start : World → World
wait_start w = record w {
  svc = set_active true w.svc;
  next = if before w.svc.start_time w.next then w.svc.start_time else w.next;
}

-- SVC_STATE_START behind a fork, falling through to SVC_STATE_UP
abbrev pub started : ℕ → World → World
started pid w =
    let s = record (change_pid pid w.svc) {
      start_time = if w.now == 0 then 1 else w.now;
      state = up;
    } in
    let told = notify_state (record w { svc = s }) in
    record told { svc = set_active false told.svc }

-- The time of a restart: later, if the service ran for less than its interval.
abbrev pub restart_when : World → ℕ
restart_when w =
    if gt_signed w.svc.restart_interval (sub64 w.svc.reap_time w.svc.start_time)
    then add64 w.now w.svc.restart_interval
    else w.now

-- SVC_STATE_REAPED, up to its `goto`
abbrev pub after_reap : Slots → World → World
after_reap signals w =
    let told = notify_state w in
    let downed = record told { svc = record told.svc { state = down } } in
    if downed.svc.auto_restart || check_sigwake signals downed.svc
    then notify_state (handle_start (restart_when downed) downed).1
    else downed

-- SVC_STATE_START: wait, or fork; `again` is the `goto`.
abbrev pub run_start : (World → RunResult) → ForkEnv → World → RunResult
run_start again env w = if is_waiting w then ran (wait_start w) else elim (do_fork env w.svc) [
  | forked pid ↦ ran (started pid w)
  | failed ↦ again (handle_start (add64 w.now fork_retry_delay) w).1
  | crashed ↦ aborted
]

-- The switch of `svc_run`
abbrev pub run_in : (World → RunResult) → Slots → ForkEnv → State → World → RunResult
run_in again signals env start w = run_start again env w
run_in again signals env up w = ran (record w { svc = set_active false w.svc })
run_in again signals env reaped w = again (after_reap signals w)
run_in again signals env down w = ran (record w { svc = set_active false w.svc })
run_in again signals env undef w = aborted

-- `svc_run`; each `goto re_switch_state` takes a unit of fuel.
unfoldable pub run : ℕ → Slots → ForkEnv → World → RunResult
run zero signals env w = out_of_fuel
run (suc fuel) signals env w = run_in (run fuel signals env) signals env w.svc.state w

-- A run makes two gotos at most: behind REAPED, and behind a fork that failed.
abbrev pub svc_run : Slots → ForkEnv → World → RunResult
svc_run = run 3
