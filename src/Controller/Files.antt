-- ===== src/Controller/Files.antt =====
-- src/controller.c: the commands `fd.open`, `fd.pipe`, `fd.take` and `fd.delete`.
-- What the system answers is a parameter. A command gives the error that it sets, the table behind it,
-- and the events for all connections, without their newlines; `none` is a fault.
pub mod Opens
pub mod Keeps
mod Examples
use daemonproxy.Common.{
  ℕ, Bool, true, false, not, ◌&&◌, Option, some, none, List, [], ◌∷◌, Bytes, codes, if◌then◌else◌,
}
use daemonproxy.Strseg.{Seg, tok_next, fields}
use daemonproxy.Strseg.Cmp.{eq_bytes}
use daemonproxy.Strseg.Token.{join}
use daemonproxy.Service.Settings.{check_name}
use daemonproxy.Fd.{Fd, Fds, FdFlags, no_flags, by_name, delete_at, lookup_id, peer_of}
use daemonproxy.Fd.Make.{is_constant, new_file, new_pipe, new_unknown}
use daemonproxy.Controller.Flags.{parse_open_flags, fd_state}

-- What a command sets `command_error` to.
pub data FileError : Type 0 where
  expected_fd_name invalid_fd_name cannot_alter no_such_fd missing_flags missing_path : FileError
  unexpected_argument unknown_flag open_failed no_fd_object no_ancillary_fd : FileError

-- `open` with the flags of an object, `pipe` or `socketpair`, `fcntl`, and `fd_load_flags`
pub record FdEnv : Type 0 where
  pub open_file : FdFlags → Bytes → Option ℕ
  pub open_pair : FdFlags → Option (ℕ × ℕ)
  pub set_nonblock : ℕ → Bool
  pub load_flags : ℕ → FdFlags

pub record Outcome : Type 0 where
  pub error : Option FileError
  pub fds : Fds
  pub events : List Bytes

-- `ctl_get_arg_fd`: the error, or the name, its object, and what is left of the command.
pub data FdArg : Type 0 where
  bad_arg : FileError → FdArg
  fd_arg : Bytes → Option Fd → Seg → FdArg

abbrev pub is_none : Option Fd → Bool
is_none none = true
is_none (some f) = false

abbrev pub checked_fd : Bool → Bool → Bytes → Seg → Option Fd → FdArg
checked_fd existing assignable name rest fd =
    if assignable && is_constant fd
    then bad_arg cannot_alter
    else if existing && is_none fd
    then bad_arg no_such_fd
    else fd_arg name fd rest

abbrev pub named_fd : Bool → Bool → List Fd → Option (Bytes × Seg) → FdArg
named_fd existing assignable fs none = bad_arg expected_fd_name
named_fd existing assignable fs (some ([], rest)) = bad_arg expected_fd_name
named_fd existing assignable fs (some (c ∷ cs, rest)) =
    if not (check_name (c ∷ cs))
    then bad_arg invalid_fd_name
    else checked_fd existing assignable (c ∷ cs) rest (by_name (c ∷ cs) fs)

unfoldable pub get_arg_fd : Bool → Bool → List Fd → Seg → FdArg
unfolding check_name by_name tok_next
get_arg_fd existing assignable fs command = named_fd existing assignable fs (tok_next b'\t' command)

abbrev pub fails : FileError → Fds → Option Outcome
fails e s = some (record { error = some e; fds = s; events = [] })

-- `close` of a descriptor that no object has
abbrev pub close_fd : ℕ → Fds → Fds
close_fd n s = record s { closed = n ∷ s.closed }

-- `ctl_notify_fd_state(NULL, fd)`
abbrev pub state_of : ℕ → List Fd → List Bytes
state_of i fs = elim (lookup_id i fs) [ none ↦ [] | some f ↦ fd_state f fs ∷ [] ]

-- Behind `fd_new_file` or `fd_new_unknown` of a descriptor
abbrev pub told_file : ℕ → Option (Option ℕ × Fds) → Option Outcome
told_file num none = none
told_file num (some (none, s)) = fails no_fd_object (close_fd num s)
told_file num (some (some i, s)) =
    some (record { error = none; fds = s; events = state_of i s.index })

abbrev pub opened_file : Bytes → FdFlags → Bytes → Fds → Option ℕ → Option Outcome
opened_file name flags path s none = fails open_failed s
opened_file name flags path s (some num) = told_file num (new_file name (some num) flags path s)

abbrev pub open_with : FdEnv → Bytes → Bytes → Fds → Option FdFlags → Option Outcome
open_with env name path s none = fails unknown_flag s
open_with env name path s (some flags) = opened_file name flags path s (env.open_file flags path)

abbrev pub open_last : FdEnv → Bytes → Bytes → Bytes → Fds → Option (Bytes × Seg) → Option Outcome
open_last env name opts path s none = open_with env name path s (parse_open_flags opts)
open_last env name opts path s (some more) = fails unexpected_argument s

abbrev pub open_path : FdEnv → Bytes → Bytes → Fds → Option (Bytes × Seg) → Option Outcome
open_path env name opts s none = fails missing_path s
open_path env name opts s (some (path, rest)) = open_last env name opts path s (tok_next b'\t' rest)

abbrev pub open_opts : FdEnv → Bytes → Fds → Option (Bytes × Seg) → Option Outcome
open_opts env name s none = fails missing_flags s
open_opts env name s (some (opts, rest)) = open_path env name opts s (tok_next b'\t' rest)

abbrev pub open_named : FdEnv → Fds → FdArg → Option Outcome
open_named env s (bad_arg e) = fails e s
open_named env s (fd_arg name fd rest) = open_opts env name s (tok_next b'\t' rest)

-- `ctl_cmd_fd_open`
unfoldable pub cmd_fd_open : FdEnv → Seg → Fds → Option Outcome
unfolding get_arg_fd tok_next new_file
cmd_fd_open env command s = open_named env s (get_arg_fd false true s.index command)

abbrev pub deleted_line : Bytes → Bytes
deleted_line name = join b'\t' (codes "fd.state" ∷ name ∷ codes "deleted" ∷ [])

abbrev pub told_deleted : Bytes → Option Fds → Option Outcome
told_deleted name none = none
told_deleted name (some s) =
    some (record { error = none; fds = s; events = deleted_line name ∷ [] })

abbrev pub delete_named : Fds → FdArg → Option Outcome
delete_named s (bad_arg e) = fails e s
delete_named s (fd_arg name none rest) = none
delete_named s (fd_arg name (some fd) rest) = told_deleted name (delete_at (some fd) s)

-- `ctl_cmd_fd_delete`
unfoldable pub cmd_fd_delete : Seg → Fds → Option Outcome
unfolding get_arg_fd
cmd_fd_delete command s = delete_named s (get_arg_fd true true s.index command)

abbrev pub take_named : FdEnv → ℕ → Fds → FdArg → Option Outcome
take_named env num s (bad_arg e) = fails e (close_fd num s)
take_named env num s (fd_arg name fd rest) = told_file num (new_unknown env.load_flags name num s)

-- `ctl_cmd_fd_take`, with the descriptors that came along; those that are left
unfoldable pub cmd_fd_take : FdEnv → List ℕ → Seg → Fds → Option Outcome × List ℕ
unfolding get_arg_fd new_file
cmd_fd_take env [] command s = (fails no_ancillary_fd s, [])
cmd_fd_take env (num ∷ nums) command s =
    (take_named env num s (get_arg_fd false true s.index command), nums)

-- One option of `ctl_cmd_fd_pipe`; an empty one and a single dash are skipped.
unfoldable pub set_pipe_flag : Bytes → FdFlags → Option FdFlags
unfolding eq_bytes
set_pipe_flag [] flags = some flags
set_pipe_flag (c ∷ cs) flags =
    let opt : Bytes = c ∷ cs in
    if eq_bytes opt (codes "-")
    then some flags
    else if eq_bytes opt (codes "unix")
    then some (record flags { socket = true; sock_inet = false })
    else if eq_bytes opt (codes "udp")
    then some (record flags { socket = true; sock_inet = true; sock_dgram = true })
    else if eq_bytes opt (codes "tcp")
    then some (record flags { socket = true; sock_inet = true; sock_dgram = false })
    else if eq_bytes opt (codes "dgram")
    then some (record flags { socket = true; sock_dgram = true })
    else if eq_bytes opt (codes "inet")
    then some (record flags { socket = true; sock_inet = true })
    else if eq_bytes opt (codes "inet6")
    then some (record flags { socket = true; sock_inet6 = true })
    else if eq_bytes opt (codes "stream")
    then some (record flags { socket = true; sock_dgram = false; sock_seq = false })
    else if eq_bytes opt (codes "seqpacket")
    then some (record flags { socket = true; sock_seq = true })
    else if eq_bytes opt (codes "nonblock")
    then some (record flags { nonblock = true })
    else none

-- The loop over the options; it makes no round for an empty option at the end, which is skipped here.
unfoldable pub pipe_options : List Bytes → FdFlags → Option FdFlags
unfolding set_pipe_flag
pipe_options [] flags = some flags
pipe_options (opt ∷ opts) flags = elim (set_pipe_flag opt flags) [
  | none ↦ none
  | some g ↦ pipe_options opts g
]

abbrev pub parse_pipe_flags : Option (Bytes × Seg) → Option FdFlags
parse_pipe_flags none = some no_flags
parse_pipe_flags (some (opts, rest)) = pipe_options (fields b',' opts) no_flags

abbrev pub peer_state : ℕ → List Fd → List Bytes
peer_state i fs = elim (lookup_id i fs) [
  | none ↦ []
  | some f ↦ elim (peer_of f.attr) [ none ↦ [] | some j ↦ state_of j fs ]
]

abbrev pub told_pipe : ℕ → ℕ → Option (Option ℕ × Fds) → Option Outcome
told_pipe num1 num2 none = none
told_pipe num1 num2 (some (none, s)) = fails no_fd_object (close_fd num2 (close_fd num1 s))
told_pipe num1 num2 (some (some i, s)) = some (record {
  error = none;
  fds = s;
  events = elim (state_of i s.index) [
    | [] ↦ peer_state i s.index
    | e ∷ es ↦ e ∷ peer_state i s.index
  ];
})

abbrev pub pipe_pair : FdEnv → Bytes → Bytes → FdFlags → Fds → Option (ℕ × ℕ) → Option Outcome
pipe_pair env name1 name2 flags s none = fails open_failed s
pipe_pair env name1 name2 flags s (some (num1, num2)) =
    if flags.nonblock && not (env.set_nonblock num1 && env.set_nonblock num2)
    then fails open_failed s
    else told_pipe num1 num2 (new_pipe name1 (some num1) name2 (some num2) flags s)

abbrev pub pipe_with : FdEnv → Bytes → Bytes → Fds → Option FdFlags → Option Outcome
pipe_with env name1 name2 s none = fails unknown_flag s
pipe_with env name1 name2 s (some flags) = pipe_pair env name1 name2 flags s (env.open_pair flags)

abbrev pub pipe_second : FdEnv → Bytes → Fds → FdArg → Option Outcome
pipe_second env name1 s (bad_arg e) = fails e s
pipe_second env name1 s (fd_arg name2 fd rest) =
    pipe_with env name1 name2 s (parse_pipe_flags (tok_next b'\t' rest))

abbrev pub pipe_first : FdEnv → Fds → FdArg → Option Outcome
pipe_first env s (bad_arg e) = fails e s
pipe_first env s (fd_arg name1 fd rest) =
    pipe_second env name1 s (get_arg_fd false true s.index rest)

-- `ctl_cmd_fd_pipe`
unfoldable pub cmd_fd_pipe : FdEnv → Seg → Fds → Option Outcome
unfolding get_arg_fd pipe_options new_pipe
cmd_fd_pipe env command s = pipe_first env s (get_arg_fd false true s.index command)
