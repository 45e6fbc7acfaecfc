-- ===== src/Controller/Files/Examples.antt =====
-- src/controller.c: the commands on descriptors at a table of one file, and tests.
use daemonproxy.Common.{true, Option, some, none, List, [], ◌∷◌, Bytes, codes, ◌≡◌, refl, arith}
use daemonproxy.Strseg.{Seg, seg, tok_next, fields, tok_all}
use daemonproxy.Log.{new_log}
use daemonproxy.Fd.{Fd, Fds, no_flags, file, heap, peer_at}
use daemonproxy.Fd.Replace.{IsTable}
use daemonproxy.Controller.Flags.{
  parse_open_flags, fd_state, reopened, fd_state-reopens, file_flags, pipe_flags, open_flags,
}
use daemonproxy.Controller.Files.{FdEnv, Outcome, cmd_fd_open, cmd_fd_pipe}
use daemonproxy.Controller.Files.Opens.{Opens, cmd_fd_open-Opens}
use daemonproxy.Controller.Files.Keeps.{
  FdCommand, does_open, does_delete, does_pipe, does_take, run_fds, DiffersIn, run_fds-IsTable,
}

abbrev in_file : Fd
in_file = record {
  id = 0;
  name = codes "in";
  num = some 5;
  flags = record no_flags { reads = true; nonblock = true };
  attr = file (codes "/tmp/in");
  size = 11;
}

abbrev one : Fds
one = record {
  index = in_file ∷ [];
  memory = heap (λ i. true);
  next_id = 1;
  log = new_log [];
  closed = [];
}

one-IsTable : IsTable one.next_id one.index
unfolding peer_at
one-IsTable = record {
  sorted = (tt, tt);
  unique = (tt, tt);
  below = omega arith;
  paired = λ x y e. ground (arith, e);
}

abbrev env : FdEnv
env = record {
  open_file = λ flags path. some 8;
  open_pair = λ flags. some (9, 10);
  set_nonblock = λ num. true;
  load_flags = λ num. no_flags;
}

fd_state-reopens_example :
    (flags : Bytes) × (fields b'\t' (fd_state in_file one.index)
      ≡ codes "fd.state" ∷ codes "in" ∷ codes "file" ∷ flags ∷ codes "/tmp/in" ∷ [])
    × (parse_open_flags flags ≡ some (reopened in_file.flags))
fd_state-reopens_example =
    fd_state-reopens in_file (codes "/tmp/in") one.index refl refl (omega arith) (omega arith)

abbrev open_line : Seg
open_line = seg (codes "out\twrite,create\t/tmp/out")

cmd_fd_open-Opens_example : Opens env open_line one (cmd_fd_open env open_line one)
cmd_fd_open-Opens_example = cmd_fd_open-Opens env open_line one one-IsTable

abbrev told : Option Outcome → List Bytes
told none = []
told (some r) = r.events

open_event :
    told (cmd_fd_open env open_line one) ≡ codes "fd.state\tout\tfile\twrite,create\t/tmp/out" ∷ []
unfolding cmd_fd_open file_flags open_flags tok_all
open_event = refl

pipe_events :
    told (cmd_fd_pipe env (seg (codes "r\tw\tunix,nonblock")) one)
    ≡ codes "fd.state\tr\tpipe\tunix,stream,nonblock,to\tw"
      ∷ codes "fd.state\tw\tpipe\tunix,stream,nonblock,to\tr"
      ∷ []
unfolding cmd_fd_pipe tok_all pipe_flags
pipe_events = refl

abbrev commands : List (FdEnv × FdCommand)
commands =
    (env, does_open open_line)
    ∷ (env, does_pipe (seg (codes "r\tw")))
    ∷ (env, does_delete (seg (codes "r")))
    ∷ (env, does_take (7 ∷ []) (seg (codes "in")))
    ∷ []

run_fds-IsTable_example : (t : Fds) × (run_fds commands one ≡ some t) × IsTable t.next_id t.index
unfolding DiffersIn tok_next
run_fds-IsTable_example =
    run_fds-IsTable commands one one-IsTable (tt, ((λ e. ground (arith, e)), (tt, (tt, tt))))
