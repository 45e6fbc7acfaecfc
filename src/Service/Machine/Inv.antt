-- ===== src/Service/Machine/Inv.antt =====
-- src/service.c: what holds of a service between the calls of the main loop, in each state.
use daemonproxy.Common.{
  ℕ, Bool, true, false, not, Bytes, ◌==◌, if◌then◌else◌, ◌≡◌, ◌≢◌, refl, ap, arith, ◌⊎◌, inl, inr,
}
use daemonproxy.Service.Machine.{
  State, undef, down, start, up, reaped, Service, World, new_service, minus_one, handle_start,
  cancel_start, handle_reaped, start_at, begin_start, is_startable, cancel_in, reap_in,
}

-- What each state says of the other fields.
abbrev pub StateInv : State → Service → Type 0
StateInv undef s = ⊥
StateInv down s = s.active ≡ false
StateInv start s =
    (s.active ≡ true)
    × (s.pid ≡ 0)
    × (s.start_time ≢ 0)
    × (s.reap_time ≡ 0)
    × (s.wait_status ≡ minus_one)
StateInv up s = (s.active ≡ false) × (s.pid ≢ 0) × (s.start_time ≢ 0) × (s.reap_time ≡ 0)
StateInv reaped s = (s.active ≡ true) × (s.pid ≢ 0) × (s.start_time ≢ 0)

-- The service stands in the index by pid exactly while it has a pid.
pub record IsValid (s : Service) : Type 0 where
  pub indexed : s.in_pid_index ≡ not (s.pid == 0)
  pub state_inv : StateInv s.state s

pub new_service-IsValid : (name : Bytes) → IsValid (new_service name)
new_service-IsValid name = record { indexed = refl; state_inv = refl }

start_at-ne-zero : (now when : ℕ) → start_at now when ≢ 0
start_at-ne-zero now when = ground arith

pub begin_start-IsValid :
    (when : ℕ) (w : World)
    → w.svc.in_pid_index ≡ not (w.svc.pid == 0)
    → IsValid (begin_start when w).svc
begin_start-IsValid when w i = record {
  indexed = ground arith;
  state_inv = (refl, refl, start_at-ne-zero w.now when, refl, refl);
}

-- What `svc_handle_start` answers, by the state that it was called in.
abbrev pub Starts : State → World → Bool × World → Type 0
Starts q w r =
    (r.0 ≡ true) × (r.1.svc.state ≡ start) × (r.1.next ≡ w.now) × ((q ≡ down) ⊎ (q ≡ start))
    ⊎ (r.0 ≡ false) × (r.1 ≡ w) × ((q ≡ up) ⊎ (q ≡ reaped))

-- The functions at a known state.
pub handle_start-eq :
    {q : State} (when : ℕ) (w : World)
    → w.svc.state ≡ q
    → handle_start when w ≡ (if is_startable q then (true, begin_start when w) else (false, w))
unfolding handle_start
handle_start-eq when w e =
    ap (λ q. if is_startable q then (true, begin_start when w) else (false, w)) e

cancel_start-eq : {q : State} (w : World) → w.svc.state ≡ q → cancel_start w ≡ cancel_in q w
unfolding cancel_start
cancel_start-eq w e = ap (λ q. cancel_in q w) e

handle_reaped-eq :
    {q : State} (wstat : ℕ) (w : World)
    → w.svc.state ≡ q
    → handle_reaped wstat w ≡ reap_in q wstat w
unfolding handle_reaped
handle_reaped-eq wstat w e = ap (λ q. reap_in q wstat w) e

handle_start-state :
    (q : State) (when : ℕ) (w : World)
    → w.svc.state ≡ q
    → IsValid w.svc
    → StateInv q w.svc
    → IsValid (handle_start when w).1.svc × Starts q w (handle_start when w)
handle_start-state undef when w e v i = absurd i
handle_start-state down when w e v i =
    rw (handle_start-eq when w e)
      (begin_start-IsValid when w v.indexed, inl (refl, refl, refl, inl refl))
handle_start-state start when w e v i =
    rw (handle_start-eq when w e)
      (begin_start-IsValid when w v.indexed, inl (refl, refl, refl, inr refl))
handle_start-state up when w e v i = rw (handle_start-eq when w e) (v, inr (refl, refl, inl refl))
handle_start-state reaped when w e v i =
    rw (handle_start-eq when w e) (v, inr (refl, refl, inr refl))

-- `svc_handle_start` succeeds exactly in the states down and start. Then the service waits in state
-- start, and the main loop wakes at once; else nothing changes. The service stays valid: as it waits
-- it is active, has no pid, and stands in no index by pid.
pub handle_start-IsValid :
    (when : ℕ) (w : World)
    → IsValid w.svc
    → IsValid (handle_start when w).1.svc × Starts w.svc.state w (handle_start when w)
handle_start-IsValid when w v = handle_start-state w.svc.state when w refl v v.state_inv

cancel_start-state :
    (q : State) (w : World)
    → w.svc.state ≡ q
    → IsValid w.svc
    → IsValid (cancel_start w).1.svc
      × ((q ≡ start) × ((cancel_start w).0 ≡ true) × ((cancel_start w).1.svc.state ≡ down)
          ⊎ (q ≢ start) × (cancel_start w ≡ (false, w)))
cancel_start-state start w e v =
    rw (cancel_start-eq w e)
      (record { indexed = v.indexed; state_inv = refl }, inl (refl, refl, refl))
cancel_start-state undef w e v = rw (cancel_start-eq w e) (v, inr ((λ q. cc), refl))
cancel_start-state down w e v = rw (cancel_start-eq w e) (v, inr ((λ q. cc), refl))
cancel_start-state up w e v = rw (cancel_start-eq w e) (v, inr ((λ q. cc), refl))
cancel_start-state reaped w e v = rw (cancel_start-eq w e) (v, inr ((λ q. cc), refl))

handle_reaped-state :
    (q : State) (wstat : ℕ) (w : World)
    → w.svc.state ≡ q
    → IsValid w.svc
    → StateInv q w.svc
    → IsValid (handle_reaped wstat w).svc
      × ((q ≡ up)
            × ((handle_reaped wstat w).svc.state ≡ reaped)
            × ((handle_reaped wstat w).svc.wait_status ≡ wstat)
            × ((handle_reaped wstat w).next ≡ w.now)
          ⊎ (q ≢ up) × (handle_reaped wstat w ≡ w))
handle_reaped-state up wstat w e v i =
    rw (handle_reaped-eq wstat w e)
      (record { indexed = v.indexed; state_inv = (refl, i.1, i.2) }, inl (refl, refl, refl, refl))
handle_reaped-state undef wstat w e v i = absurd i
handle_reaped-state down wstat w e v i = rw (handle_reaped-eq wstat w e) (v, inr ((λ q. cc), refl))
handle_reaped-state start wstat w e v i = rw (handle_reaped-eq wstat w e) (v, inr ((λ q. cc), refl))
handle_reaped-state reaped wstat w e v i =
    rw (handle_reaped-eq wstat w e) (v, inr ((λ q. cc), refl))

-- `svc_cancel_start` takes a waiting service back to down, keeps it valid, and does nothing in any
-- other state.
pub cancel_start-IsValid :
    (w : World)
    → IsValid w.svc
    → IsValid (cancel_start w).1.svc
      × ((w.svc.state ≡ start) × ((cancel_start w).0 ≡ true) × ((cancel_start w).1.svc.state ≡ down)
          ⊎ (w.svc.state ≢ start) × (cancel_start w ≡ (false, w)))
cancel_start-IsValid w v = cancel_start-state w.svc.state w refl v

-- `svc_handle_reaped` marks a running service as reaped, with its wait status, and wakes the main loop
-- at once; in any other state it does nothing. The service stays valid.
pub handle_reaped-IsValid :
    (wstat : ℕ) (w : World)
    → IsValid w.svc
    → IsValid (handle_reaped wstat w).svc
      × ((w.svc.state ≡ up)
            × ((handle_reaped wstat w).svc.state ≡ reaped)
            × ((handle_reaped wstat w).svc.wait_status ≡ wstat)
            × ((handle_reaped wstat w).next ≡ w.now)
          ⊎ (w.svc.state ≢ up) × (handle_reaped wstat w ≡ w))
handle_reaped-IsValid wstat w v = handle_reaped-state w.svc.state wstat w refl v v.state_inv
