-- ===== src/Controller/Logging.antt =====
-- src/controller.c: the commands `log.filter` and `log.dest`, on src/log.c.
-- The events are those that `ctl_write` sends to the connection of the command, without their newlines.
pub mod Filter
mod Examples
use daemonproxy.Common.{
  ℕ, zero, suc, Bool, true, false, Option, some, none, List, [], ◌∷◌, ◌++◌, Bytes, codes,
  if◌then◌else◌, ℤ, pos, negsuc,
}
use daemonproxy.Strseg.{Seg, tok_next}
use daemonproxy.Strseg.Cmp.{eq_bytes}
use daemonproxy.Strseg.Token.{join}
use daemonproxy.Log.{Log, fd_set_name}
use daemonproxy.Log.Level.{level_name, level_by_name, clamp_level}
use daemonproxy.Fd.{Fd, Fds, by_name}
use daemonproxy.Controller.Files.{FileError, FdArg, bad_arg, fd_arg, is_none, get_arg_fd}

-- What the commands set `command_error` to.
pub data LogError : Type 0 where
  invalid_loglevel missing_argument unknown_type : LogError
  bad_fd : FileError → LogError

pub record Filtered : Type 0 where
  pub error : Option LogError
  pub log : Log
  pub events : List Bytes

abbrev pub next_level : ℤ → ℤ
next_level (pos n) = pos (suc n)
next_level (negsuc zero) = pos zero
next_level (negsuc (suc n)) = negsuc n

abbrev pub previous_level : ℤ → ℤ
previous_level (pos zero) = negsuc zero
previous_level (pos (suc n)) = pos n
previous_level (negsuc n) = negsuc (suc n)

abbrev pub level_arg : ℤ → Bytes → Option ℤ
level_arg filter arg =
    if eq_bytes arg (codes "+")
    then some (next_level filter)
    else if eq_bytes arg (codes "-")
    then some (previous_level filter)
    else level_by_name arg

abbrev pub filter_line : ℤ → Bytes
filter_line level = join b'\t' (codes "log.filter" ∷ level_name level ∷ [])

abbrev pub told_filter : Log → Filtered
told_filter l = record { error = none; log = l; events = filter_line l.filter ∷ [] }

abbrev pub set_filter : Log → Option ℤ → Filtered
set_filter l none = record { error = some invalid_loglevel; log = l; events = [] }
set_filter l (some level) = told_filter (record l { filter = clamp_level level })

abbrev pub filter_arg : Log → Option (Bytes × Seg) → Filtered
filter_arg l none = told_filter l
filter_arg l (some (arg, rest)) = set_filter l (level_arg l.filter arg)

-- `ctl_cmd_log_filter`
unfoldable pub cmd_log_filter : Seg → Log → Filtered
unfolding tok_next eq_bytes level_name
cmd_log_filter command l = filter_arg l (tok_next b'\t' command)

pub record Directed : Type 0 where
  pub error : Option LogError
  pub fds : Fds
  pub events : List Bytes

-- `fd_by_name` and `fd_get_fdnum`
abbrev pub num_by_name : List Fd → Bytes → Option ℕ
num_by_name index name = elim (by_name name index) [ none ↦ none | some f ↦ f.num ]

abbrev pub missing_warning : Bytes → Bytes
missing_warning name = codes "warning\tfd \"" ++ name ++ codes "\" does not exist"

abbrev pub log_to : Fds → FdArg → Directed
log_to s (bad_arg e) = record { error = some (bad_fd e); fds = s; events = [] }
log_to s (fd_arg name fd rest) = record {
  error = none;
  fds = record s { log = fd_set_name (num_by_name s.index) name s.log };
  events = if is_none fd then missing_warning name ∷ [] else [];
}

abbrev pub dest_of : Fds → Option (Bytes × Seg) → Directed
dest_of s none = record { error = some missing_argument; fds = s; events = [] }
dest_of s (some (arg, rest)) =
    if eq_bytes arg (codes "fd")
    then log_to s (get_arg_fd false false s.index rest)
    else record { error = some unknown_type; fds = s; events = [] }

-- `ctl_cmd_log_dest`
unfoldable pub cmd_log_dest : Seg → Fds → Directed
unfolding tok_next eq_bytes by_name get_arg_fd
cmd_log_dest command s = dest_of s (tok_next b'\t' command)
