-- ===== src/Fd/Make.antt =====
-- src/fd.c: the functions that make the objects of files, pipes and the special handles.
use daemonproxy.Common.{
  ℕ, ◌+◌, ◌-◌, Bool, true, false, ◌||◌, Option, some, none, ◌++◌, Bytes, codes, length, take, ltb,
  leb, if◌then◌else◌,
}
use daemonproxy.Fd.{
  FdFlags, no_flags, Fd, Fds, by_name, remove, update, fd_new, delete, lookup_id, delete_at, file,
  pipe,
}

-- `append_elipses`
unfoldable pub append_elipses : ℕ → Bytes → Bytes
append_elipses bufsize source =
    if ltb (length source) bufsize
    then source
    else if leb 4 bufsize
    then take (bufsize - 4) source ++ codes "..."
    else codes "..."

abbrev pub is_constant : Option Fd → Bool
is_constant none = false
is_constant (some f) = f.flags.is_const

abbrev pub as_file : Option ℕ → FdFlags → Bytes → Fd → Fd
as_file num flags path f = record f {
  num = num;
  flags = flags;
  attr = file (append_elipses (f.size - length f.name - 1) path);
}

abbrev pub file_made :
    Option Fd → Option ℕ → FdFlags → Bytes → Fds → Option (ℕ × Fds) → Option (Option ℕ × Fds)
file_made old num flags path s none = some (none, s)
file_made old num flags path s (some (i, t)) = elim (delete_at old t) [
  | none ↦ none
  | some u ↦ some (some i, record u { index = update i (as_file num flags path) u.index })
]

-- `fd_new_file`; the pointer to the new object, if there is one. `none` is a fault.
unfoldable pub new_file : Bytes → Option ℕ → FdFlags → Bytes → Fds → Option (Option ℕ × Fds)
unfolding fd_new by_name remove update append_elipses
new_file name num flags path s =
    let old = by_name name s.index in
    if is_constant old
    then some (none, s)
    else file_made old num flags path s (fd_new (length name + 1 + length path + 1) name s)

-- The first end; the source resets its read flag in place of the second one's.
abbrev pub as_read_end : Option ℕ → FdFlags → ℕ → Fd → Fd
as_read_end num flags peer f = record f {
  num = num;
  flags = record flags { reads = flags.socket; writes = flags.socket };
  attr = pipe (some peer);
}

abbrev pub as_write_end : Option ℕ → FdFlags → ℕ → Fd → Fd
as_write_end num flags peer f = record f {
  num = num;
  flags = record flags { writes = true };
  attr = pipe (some peer);
}

abbrev pub join_ends : Option ℕ → Option ℕ → FdFlags → ℕ → ℕ → Fds → Fds
join_ends num1 num2 flags i j s = record s {
  index = update j (as_write_end num2 flags i) (update i (as_read_end num1 flags j) s.index);
}

-- Both objects are there: the old ones go.
abbrev pub replace_olds :
    Option Fd → Option Fd → Option ℕ → Option ℕ → FdFlags → ℕ → ℕ → Fds → Option (Option ℕ × Fds)
replace_olds old1 old2 num1 num2 flags i j s = elim (delete_at old1 s) [
  | none ↦ none
  | some t ↦ elim (delete_at old2 t) [
    | none ↦ none
    | some u ↦ some (some i, join_ends num1 num2 flags i j u)
  ]
]

abbrev pub deleted_first : ℕ → Fds → Option (Option ℕ × Fds)
deleted_first i s = elim (lookup_id i s.index) [ none ↦ none | some f ↦ some (none, delete f s) ]

abbrev pub pipe_made :
    Option Fd
    → Option Fd
    → Option ℕ
    → Option ℕ
    → FdFlags
    → Bytes
    → Fds
    → Option (ℕ × Fds)
    → Option (Option ℕ × Fds)
pipe_made old1 old2 num1 num2 flags name2 s none = some (none, s)
pipe_made old1 old2 num1 num2 flags name2 s (some (i, t)) =
    elim (fd_new (length name2 + 1) name2 t) [
      | none ↦ deleted_first i t
      | some (j, u) ↦ replace_olds old1 old2 num1 num2 flags i j u
    ]

-- `fd_new_pipe`
unfoldable pub new_pipe :
    Bytes → Option ℕ → Bytes → Option ℕ → FdFlags → Fds → Option (Option ℕ × Fds)
unfolding fd_new by_name remove update
new_pipe name1 num1 name2 num2 flags s =
    let old1 = by_name name1 s.index in
    let old2 = by_name name2 s.index in
    if is_constant old1 || is_constant old2
    then some (none, s)
    else pipe_made old1 old2 num1 num2 flags name2 s (fd_new (length name1 + 1) name1 s)

-- `fd_new_unknown`, with the flags that `fd_load_flags` asks the system for
abbrev pub new_unknown : (ℕ → FdFlags) → Bytes → ℕ → Fds → Option (Option ℕ × Fds)
new_unknown load_flags name num s = new_file name (some num) (load_flags num) (codes "unknown") s

abbrev pub special_flags : Bool → Bool → FdFlags
special_flags reads writes = record no_flags {
  special = true;
  is_const = true;
  reads = reads;
  writes = writes;
}

-- The next `fd_new_file` of a chain by `&&`
abbrev pub and_file :
    Bytes → Option ℕ → FdFlags → Bytes → Option (Option ℕ × Fds) → Option (Option ℕ × Fds)
and_file name num flags path none = none
and_file name num flags path (some (none, s)) = some (none, s)
and_file name num flags path (some (some i, s)) = new_file name num flags path s

-- `fd_init_special_handles`, with the descriptor that the open of /dev/null gives, or none
unfoldable pub init_special_handles : Option ℕ → Fds → Option (Option ℕ × Fds)
unfolding new_file
init_special_handles dev_null s =
    and_file (codes "control.socket") none (special_flags true true)
      (codes "daemonproxy control socket")
      (and_file (codes "control.event") none (special_flags true false)
        (codes "daemonproxy event stream")
        (and_file (codes "control.cmd") none (special_flags false true)
          (codes "daemonproxy command pipe")
          (new_file (codes "null") dev_null (special_flags true true) (codes "/dev/null") s)))
