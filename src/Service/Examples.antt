-- ===== src/Service/Examples.antt =====
-- src/service.c: the theorems at a concrete service, and tests.
use daemonproxy.Common.{
  true, false, not, ◌&&◌, some, none, List, [], ◌∷◌, ◌++◌, Bytes, codes, ◌≡◌, refl, arith, ltb,
  length, if◌then◌else◌,
}
use daemonproxy.Signal.{free_slot}
use daemonproxy.Service.Vars.{
  pool, heap, has_room, set_var, find_var, new_len, store_var, grow, shift,
}
use daemonproxy.Strseg.Cmp.{eq_bytes}
use daemonproxy.Service.Vars.Entries.{Entry, encode, AreEntries, assign}
use daemonproxy.Service.Vars.Refine.{set_var-refines}
use daemonproxy.Service.Vars.Laws.{IsVars, Sets, set_var-Sets}
use daemonproxy.Service.Machine.{
  down, up, reaped, World, new_service, ForkEnv, handle_start, svc_run,
}
use daemonproxy.Service.Machine.Inv.{IsValid, Starts, handle_start-IsValid}
use daemonproxy.Service.Machine.Run.{Settles, svc_run-Settles}
use daemonproxy.Service.Machine.Restart.{Waits, svc_run-Waits}
use daemonproxy.Service.Machine.{Service, check_sigwake}
use daemonproxy.Common.{◌*◌, ◌^◌, ltb}
use daemonproxy.Service.Settings.{
  SigList, sig_num_by_name, key_tags, key_args, get_tags, get_argv, get_fds, get_triggers, set_tags,
  set_argv, set_fds, set_triggers, check_name,
}
use daemonproxy.Service.Settings.Stored.{SetsOnly, set_tags-set_argv}
use daemonproxy.Service.Settings.Fds.{SetFds, set_fds-SetFds}
use daemonproxy.Service.Settings.Triggers.{SetTriggers, set_triggers-SetTriggers}

-- tags=a, args=sh
abbrev entries : List Entry
entries = ((codes "tags"), (codes "a")) ∷ ((codes "args"), (codes "sh")) ∷ []

abbrev is_short : Bytes
is_short = encode entries

short-AreEntries : AreEntries entries
short-AreEntries = ground arith

short-IsVars : IsVars is_short
unfolding eq_bytes
short-IsVars = record {
  entries = entries;
  encoded = refl;
  well_formed = short-AreEntries;
  distinct = ((refl, tt), (tt, tt));
}

-- A longer value moves the tail up.
replaced :
    set_var (pool 40) 170 (codes "tags") (some (codes "b c")) is_short
    ≡ some (encode (((codes "tags"), (codes "b c")) ∷ ((codes "args"), (codes "sh")) ∷ []))
unfolding set_var new_len find_var store_var shift grow
replaced = refl

no_room : set_var (pool 16) 170 (codes "tags") (some (codes "b c")) is_short ≡ none
unfolding set_var new_len find_var store_var shift grow
no_room = refl

set_var-refines_example : set_var (heap (λ size. ltb size 100)) 170 (codes "args") none is_short ≡ (
    if ltb (length is_short) (length (encode (assign (codes "args") none entries)))
      && not (
          has_room
            (heap (λ size. ltb size 100))
            (length (encode (assign (codes "args") none entries))))
    then none
    else some (encode (assign (codes "args") none entries)))
set_var-refines_example =
    set_var-refines (heap (λ size. ltb size 100)) 170 (codes "args") none entries short-AreEntries

set_var-Sets_example :
    Sets
      (pool 40)
      (codes "fds")
      (some (codes "null"))
      is_short
      (set_var (pool 40) 170 (codes "fds") (some (codes "null")) is_short)
set_var-Sets_example =
    set_var-Sets (pool 40) 170 (codes "fds") (some (codes "null")) (ground arith) short-IsVars

abbrev at_once : World
at_once = record { svc = new_service (codes "sshd"); now = 1000; next = 5000; notices = [] }

-- Started, and due.
abbrev due : World
due = (handle_start 1000 at_once).1

abbrev env : ForkEnv
env = record { has_controller = true; socketpair_ok = true; ctor_ok = true; fork = some 42 }

abbrev new-IsValid : IsValid at_once.svc
new-IsValid = record { indexed = refl; state_inv = refl }

due-IsValid : IsValid due.svc
unfolding handle_start
due-IsValid = record { indexed = refl; state_inv = (refl, refl, (λ e. cc), refl, refl) }

handle_start-IsValid_example :
    IsValid (handle_start 1000 at_once).1.svc × Starts down at_once (handle_start 1000 at_once)
handle_start-IsValid_example = handle_start-IsValid 1000 at_once new-IsValid

-- A service that runs as process 42.
abbrev running : World
running = record at_once {
  svc = record at_once.svc { state = up; pid = 42; in_pid_index = true; start_time = 1000 };
}

running-IsValid : IsValid running.svc
running-IsValid = record {
  indexed = refl;
  state_inv = (refl, (λ e. omega (arith, e)), (λ e. omega (arith, e)), refl);
}

svc_run-Settles_example : Settles env due.svc (svc_run (free_slot ∷ []) env due)
unfolding handle_start
svc_run-Settles_example =
    svc_run-Settles (free_slot ∷ []) env due due-IsValid (omega arith) (λ e. ground (arith, e))

-- Reaped two seconds behind its start, with an interval of five.
abbrev quick : World
quick = record running {
  svc = record running.svc {
    state = reaped;
    active = true;
    auto_restart = true;
    start_time = 1 * 2 ^ 32;
    reap_time = 3 * 2 ^ 32;
    restart_interval = 5 * 2 ^ 32;
  };
  now = 3 * 2 ^ 32;
}

svc_run-Waits_example : Waits quick (svc_run (free_slot ∷ []) env quick)
svc_run-Waits_example =
    svc_run-Waits (free_slot ∷ []) env quick refl refl (ground arith) (omega arith) (omega arith)
      (omega arith)

abbrev exited : World
exited = record quick { svc = record quick.svc { auto_restart = false } }

exited_unwoken : check_sigwake (free_slot ∷ []) exited.svc ≡ false
unfolding check_sigwake
exited_unwoken = refl

abbrev sshd : Service
sshd = record at_once.svc { vars = is_short }

set_tags-set_argv_example :
    SetsOnly
      (pool 40)
      key_tags
      (codes "web")
      sshd
      get_tags
      (get_argv ∷ get_fds ∷ get_triggers ∷ [])
      (set_tags (pool 40) 170 (codes "web") sshd)
    × SetsOnly
        (pool 40)
        key_args
        (codes "web")
        sshd
        get_argv
        (get_tags ∷ get_fds ∷ get_triggers ∷ [])
        (set_argv (pool 40) 170 (codes "web") sshd)
set_tags-set_argv_example =
    set_tags-set_argv (pool 40) 170 (codes "web") sshd (ground arith) short-IsVars

set_fds-SetFds_example :
    SetFds (codes "null\tcontrol.cmd") sshd (set_fds (pool 40) 170 (codes "null\tcontrol.cmd") sshd)
set_fds-SetFds_example =
    set_fds-SetFds (pool 40) 170 (codes "null\tcontrol.cmd") sshd (ground arith) short-IsVars

abbrev sig_list : SigList
sig_list =
    (1, codes "HUP" ++ (0 ∷ 0 ∷ 0 ∷ 0 ∷ 0 ∷ []))
    ∷ (15, codes "TERM" ++ (0 ∷ 0 ∷ 0 ∷ 0 ∷ []))
    ∷ (0, [])
    ∷ []

sigterm : sig_num_by_name sig_list (codes "SIGTERM") ≡ 15
unfolding sig_num_by_name eq_bytes
sigterm = refl

good_name : check_name (codes "web-1.x") ≡ true
unfolding check_name
good_name = refl

abbrev world_sshd : World
world_sshd = record at_once { svc = sshd }

set_triggers-SetTriggers_example : SetTriggers sig_list (codes "always\tSIGHUP") world_sshd (
    set_triggers sig_list
      (λ n. ltb n 65)
      (free_slot ∷ [])
      (pool 60)
      170
      (codes "always\tSIGHUP")
      world_sshd)
set_triggers-SetTriggers_example =
    set_triggers-SetTriggers sig_list (λ n. ltb n 65) (free_slot ∷ []) (pool 60) 170
      (codes "always\tSIGHUP") world_sshd (ground arith) short-IsVars
      (record { indexed = refl; state_inv = refl })
