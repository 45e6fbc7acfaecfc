-- ===== src/Controller/Files/Keeps.antt =====
-- src/controller.c: the table of names under the commands `fd.open`, `fd.pipe`, `fd.take` and `fd.delete`.
use daemonproxy.Common.{
  ℕ, true, false, not, ◌&&◌, Option, some, none, List, [], ◌∷◌, Bytes, codes, ◌≡◌, ◌≢◌, refl, sym,
  ap, ◌∙◌, by_test, All,
}
use daemonproxy.Strseg.{Seg, tok_next}
use daemonproxy.Fd.{Fds, FdFlags}
use daemonproxy.Fd.Replace.{IsTable}
use daemonproxy.Fd.File.{Filed, refused, filed, new_file-Filed}
use daemonproxy.Fd.Pipe.{Piped, new_pipe-Piped}
use daemonproxy.Fd.Pipe
use daemonproxy.Fd.Delete.{delete-Deleted}
use daemonproxy.Controller.Files.{
  FdEnv, Outcome, FdArg, bad_arg, fd_arg, get_arg_fd, told_file, cmd_fd_open, told_deleted,
  delete_named, cmd_fd_delete, take_named, cmd_fd_take, parse_pipe_flags, told_pipe, pipe_pair,
  pipe_with, pipe_second, pipe_first, cmd_fd_pipe,
}
use daemonproxy.Controller.Files.Opens.{
  IsFdArg, is_bad, is_fd, get_arg_fd-IsFdArg, Opens, refuses, opens, cmd_fd_open-Opens,
}

-- A command that does not fault, and leaves a table.
pub data Keeps (s : Fds) : Option Outcome → Type 0 where
  keeps : (r : Outcome) → IsTable r.fds.next_id r.fds.index → Keeps s (some r)

pub data FdCommand : Type 0 where
  does_open does_delete does_pipe : Seg → FdCommand
  does_take : List ℕ → Seg → FdCommand

abbrev pub run_fd : FdEnv → FdCommand → Fds → Option Outcome
run_fd env (does_open command) s = cmd_fd_open env command s
run_fd env (does_delete command) s = cmd_fd_delete command s
run_fd env (does_pipe command) s = cmd_fd_pipe env command s
run_fd env (does_take nums command) s = (cmd_fd_take env nums command s).0

abbrev pub fds_of : Option Outcome → Option Fds
fds_of none = none
fds_of (some r) = some r.fds

-- Several commands, with what the system answers to each
abbrev pub run_fds : List (FdEnv × FdCommand) → Fds → Option Fds
run_fds [] s = some s
run_fds ((env, c) ∷ cs) s = elim (fds_of (run_fd env c s)) [ none ↦ none | some t ↦ run_fds cs t ]

abbrev token_behind : Option (Bytes × Seg) → Option Bytes
token_behind none = none
token_behind (some r) = elim (tok_next b'\t' r.1) [ none ↦ none | some q ↦ some q.0 ]

abbrev token : Option (Bytes × Seg) → Option Bytes
token none = none
token (some r) = some r.0

-- A pipe has two names for its ends.
unfoldable pub DiffersIn : FdCommand → Type 0
DiffersIn (does_open command) = Unit
DiffersIn (does_delete command) = Unit
DiffersIn (does_take nums command) = Unit
DiffersIn (does_pipe command) =
    token (tok_next b'\t' command) ≢ token_behind (tok_next b'\t' command)

Opens-Keeps :
    (env : FdEnv) (command : Seg) (s : Fds) (r : Option Outcome)
    → IsTable s.next_id s.index
    → Opens env command s r
    → Keeps s r
Opens-Keeps env command s none v o = elim o [ ]
Opens-Keeps env command s (some r) v (refuses e t c w k) = keeps _ w
Opens-Keeps env command s (some r) v (opens name opts path flags num f t a q o w k l) = keeps _ w

told_file-Keeps :
    (name : Bytes) (flags : FdFlags) (path : Bytes) (num : ℕ) (s : Fds)
    (r : Option (Option ℕ × Fds))
    → IsTable s.next_id s.index
    → Filed name (some num) flags path s r
    → Keeps s (told_file num r)
told_file-Keeps name flags path num s none v o = elim o [ ]
told_file-Keeps name flags path num s (some r) v (refused w) = keeps _ v
told_file-Keeps name flags path num s (some r) v (filed t f k table there is others closed log) =
    keeps _ table

told_pipe-Keeps :
    (name1 name2 : Bytes) (num1 num2 : ℕ) (flags : FdFlags) (s : Fds) (r : Option (Option ℕ × Fds))
    → Piped name1 (some num1) name2 (some num2) flags s r
    → Keeps s (told_pipe num1 num2 r)
told_pipe-Keeps name1 name2 num1 num2 flags s none o = elim o [ ]
told_pipe-Keeps name1 name2 num1 num2 flags s (some r) (Pipe.refused t y w k c l) = keeps _ w
told_pipe-Keeps name1 name2 num1 num2 flags s (some r) (Pipe.piped t f g c w h1 h2 z a n l o k) =
    keeps _ w

module _ (env : FdEnv) (s : Fds) (v : IsTable s.next_id s.index) where
  take_named-Keeps :
      (num : ℕ) (tok : Option (Bytes × Seg)) (arg : FdArg)
      → IsFdArg false true s.index tok arg
      → Keeps s (take_named env num s arg)
  take_named-Keeps num tok (bad_arg e) (is_bad _) = keeps _ v
  take_named-Keeps num tok (fd_arg name fd rest) (is_fd _ _ _ c b k x q) =
      let r = new_file-Filed name (some num) (env.load_flags num) (codes "unknown") s v in
      rw (r.1, told_file)
        (told_file-Keeps name (env.load_flags num) (codes "unknown") num s (some r.0) v r.2)

  delete_named-Keeps :
      (tok : Option (Bytes × Seg)) (arg : FdArg)
      → IsFdArg true true s.index tok arg
      → Keeps s (delete_named s arg)
  delete_named-Keeps tok (bad_arg e) (is_bad _) = keeps _ v
  delete_named-Keeps tok (fd_arg name none rest) (is_fd _ _ _ c b k x q) = cc x
  delete_named-Keeps tok (fd_arg name (some f) rest) (is_fd _ _ _ c b k x q) =
      let d = delete-Deleted name f s v b in rw (d.1, told_deleted) (keeps _ d.2.is_table)

  pipe_with-Keeps :
      (name1 name2 : Bytes)
      → name1 ≢ name2
      → (flags : Option FdFlags) → Keeps s (pipe_with env name1 name2 s flags)
  pipe_with-Keeps name1 name2 n none = keeps _ v
  pipe_with-Keeps name1 name2 n (some flags) = by_pair (env.open_pair flags)
    where
      by_pair : (pair : Option (ℕ × ℕ)) → Keeps s (pipe_pair env name1 name2 flags s pair)
      by_pair none = keeps _ v
      by_pair (some (num1, num2)) =
          let r = new_pipe-Piped name1 (some num1) name2 (some num2) flags s n v in
          by_test (Keeps s) (flags.nonblock && not (env.set_nonblock num1 && env.set_nonblock num2))
            _ _ (λ e. keeps _ v)
            (λ e.
              rw (r.1, told_pipe) (told_pipe-Keeps name1 name2 num1 num2 flags s (some r.0) r.2))

  pipe_second-Keeps :
      (name1 : Bytes) (tok : Option (Bytes × Seg)) (arg : FdArg)
      → IsFdArg false true s.index tok arg
      → some name1 ≢ token tok
      → Keeps s (pipe_second env name1 s arg)
  pipe_second-Keeps name1 tok (bad_arg e) (is_bad _) n = keeps _ v
  pipe_second-Keeps name1 tok (fd_arg name2 fd rest) (is_fd _ _ _ c b k x q) n =
      pipe_with-Keeps name1 name2 (λ e. n (ap some e ∙ sym (ap token q)))
        (parse_pipe_flags (tok_next b'\t' rest))

  pipe_first-Keeps :
      (tok : Option (Bytes × Seg)) (arg : FdArg)
      → IsFdArg false true s.index tok arg
      → token tok ≢ token_behind tok
      → Keeps s (pipe_first env s arg)
  pipe_first-Keeps tok (bad_arg e) (is_bad _) n = keeps _ v
  pipe_first-Keeps tok (fd_arg name1 fd rest) (is_fd _ _ _ c b k x q) n =
      pipe_second-Keeps name1 (tok_next b'\t' rest) (get_arg_fd false true s.index rest)
        (get_arg_fd-IsFdArg false true s.index rest)
        (λ e. n (ap token q ∙ e ∙ sym (ap token_behind q ∙ behind (tok_next b'\t' rest) refl)))
    where
      behind :
          (next : Option (Bytes × Seg))
          → tok_next b'\t' rest ≡ next
          → token_behind (some (name1, rest)) ≡ token (tok_next b'\t' rest)
      behind none e = rw (e, token_behind) refl
      behind (some r) e = rw (e, token_behind) refl

run_fd-Keeps :
    (env : FdEnv) (c : FdCommand) (s : Fds)
    → IsTable s.next_id s.index
    → DiffersIn c
    → Keeps s (run_fd env c s)
unfolding DiffersIn cmd_fd_delete cmd_fd_take cmd_fd_pipe
run_fd-Keeps env (does_open command) s v d =
    Opens-Keeps env command s (cmd_fd_open env command s) v (cmd_fd_open-Opens env command s v)
run_fd-Keeps env (does_delete command) s v d =
    delete_named-Keeps env s v (tok_next b'\t' command) (get_arg_fd true true s.index command)
      (get_arg_fd-IsFdArg true true s.index command)
run_fd-Keeps env (does_take [] command) s v d = keeps _ v
run_fd-Keeps env (does_take (num ∷ nums) command) s v d =
    take_named-Keeps env s v num (tok_next b'\t' command) (get_arg_fd false true s.index command)
      (get_arg_fd-IsFdArg false true s.index command)
run_fd-Keeps env (does_pipe command) s v d =
    pipe_first-Keeps env s v (tok_next b'\t' command) (get_arg_fd false true s.index command)
      (get_arg_fd-IsFdArg false true s.index command) d

Keeps-done :
    (s : Fds) (r : Option Outcome)
    → Keeps s r
    → (o : Outcome) × (r ≡ some o) × IsTable o.fds.next_id o.fds.index
Keeps-done s none k = elim k [ ]
Keeps-done s (some r) (keeps _ w) = (r, refl, w)

-- No sequence of the commands `fd.open`, `fd.delete`, `fd.pipe` and `fd.take` faults, whatever their
-- lines are and whatever the system answers, unless a line of `fd.pipe` begins with the same word twice.
-- The table of names stays in order, its names unique, and each end of a pipe the other end of its own
-- other end.
pub run_fds-IsTable :
    (cs : List (FdEnv × FdCommand)) (s : Fds)
    → IsTable s.next_id s.index
    → All (λ c. DiffersIn c.1) cs
    → (t : Fds) × (run_fds cs s ≡ some t) × IsTable t.next_id t.index
run_fds-IsTable [] s v d = (s, refl, v)
run_fds-IsTable ((env, c) ∷ cs) s v d =
    let k = Keeps-done s (run_fd env c s) (run_fd-Keeps env c s v d.0) in
    let more = run_fds-IsTable cs k.0.fds k.2 d.1 in
    (more.0, rw (k.1, run_fds, fds_of) more.1, more.2)
