-- ===== src/Controller/Files/Opens.antt =====
-- src/controller.c, `ctl_get_arg_fd`, `ctl_cmd_fd_open` and `ctl_cmd_fd_delete`.
use daemonproxy.Common.{
  ℕ, Bool, true, false, not, ◌&&◌, ◌-◌, ◌+◌, ◌⊎◌, inl, inr, Option, some, none, List, [], ◌∷◌,
  Bytes, length, ◌≡◌, refl, sym, arith, by_test, subst,
}
use daemonproxy.Strseg.{Seg, tok_next}
use daemonproxy.Service.Settings.{check_name}
use daemonproxy.Fd.{Fd, Fds, FdFlags, file, by_name, fd_new}
use daemonproxy.Fd.Make.{is_constant, append_elipses}
use daemonproxy.Fd.Replace.{IsTable}
use daemonproxy.Fd.Place.{lookup_id-by_name}
use daemonproxy.Fd.File.{Filed, refused, filed, new_file-Filed}
use daemonproxy.Controller.Flags.{fd_state, parse_open_flags}
use daemonproxy.Controller.Files.{
  FileError, expected_fd_name, invalid_fd_name, cannot_alter, missing_flags, missing_path,
  unexpected_argument, unknown_flag, open_failed, no_fd_object, FdEnv, Outcome, FdArg, bad_arg,
  fd_arg, is_none, named_fd, get_arg_fd, state_of, told_file, opened_file, open_with, open_last,
  open_path, open_opts, open_named, cmd_fd_open, close_fd,
}

-- What `ctl_get_arg_fd` answers.
pub data IsFdArg (existing assignable : Bool) (fs : List Fd) (tok : Option (Bytes × Seg))
    : FdArg → Type 0 where
  is_bad : (e : FileError) → IsFdArg existing assignable fs tok (bad_arg e)
  is_fd :
      (name : Bytes) (fd : Option Fd) (rest : Seg)
      → check_name name ≡ true
      → by_name name fs ≡ fd
      → assignable && is_constant fd ≡ false
      → existing && is_none fd ≡ false
      → tok ≡ some (name, rest)
      → IsFdArg existing assignable fs tok (fd_arg name fd rest)

named_fd-IsFdArg :
    (existing assignable : Bool) (fs : List Fd) (tok : Option (Bytes × Seg))
    → IsFdArg existing assignable fs tok (named_fd existing assignable fs tok)
named_fd-IsFdArg existing assignable fs none = is_bad _
named_fd-IsFdArg existing assignable fs (some ([], rest)) = is_bad _
named_fd-IsFdArg existing assignable fs (some (c ∷ cs, rest)) =
    let P = IsFdArg existing assignable fs (some (c ∷ cs, rest)) in
    let fd = by_name (c ∷ cs) fs in
    by_test P (not (check_name (c ∷ cs))) _ _ (λ e. is_bad _)
      (λ e.
        by_test P (assignable && is_constant fd) _ _ (λ q. is_bad _)
          (λ q.
            by_test P (existing && is_none fd) _ _ (λ r. is_bad _)
              (λ r. is_fd (c ∷ cs) fd rest (ground (arith, e)) refl q r refl)))

pub get_arg_fd-IsFdArg :
    (existing assignable : Bool) (fs : List Fd) (command : Seg)
    → IsFdArg existing assignable fs
        (tok_next b'\t' command)
        (get_arg_fd existing assignable fs command)
unfolding get_arg_fd
get_arg_fd-IsFdArg existing assignable fs command =
    named_fd-IsFdArg existing assignable fs (tok_next b'\t' command)

-- The first word of the command, where it is a valid name of no constant object, and what follows it.
pub record Named (command : Seg) (s : Fds) (name : Bytes) (rest : Seg) : Type 0 where
  pub word : tok_next b'\t' command ≡ some (name, rest)
  pub valid : check_name name ≡ true
  pub not_constant : is_constant (by_name name s.index) ≡ false

-- The command has such a name, and two words more: the options and the path.
pub record OpenArgs (command : Seg) (s : Fds) (name opts path : Bytes) : Type 0 where
  pub behind_name : Seg
  pub behind_opts : Seg
  pub behind_path : Seg
  pub named : Named command s name behind_name
  pub opts_word : tok_next b'\t' behind_name ≡ some (opts, behind_opts)
  pub path_word : tok_next b'\t' behind_opts ≡ some (path, behind_path)
  pub no_more : tok_next b'\t' behind_path ≡ none

-- Why `fd.open` sets an error.
pub data Cause (env : FdEnv) (command : Seg) (s : Fds) : FileError → Type 0 where
  no_name :
      (tok_next b'\t' command ≡ none) ⊎ (rest : Seg) × (tok_next b'\t' command ≡ some ([], rest))
      → Cause env command s expected_fd_name
  bad_name :
      {name : Bytes} {rest : Seg}
      → tok_next b'\t' command ≡ some (name, rest)
      → check_name name ≡ false
      → Cause env command s invalid_fd_name
  constant_name :
      {name : Bytes} {rest : Seg}
      → tok_next b'\t' command ≡ some (name, rest)
      → is_constant (by_name name s.index) ≡ true
      → Cause env command s cannot_alter
  no_opts :
      {name : Bytes} {rest : Seg}
      → Named command s name rest
      → tok_next b'\t' rest ≡ none
      → Cause env command s missing_flags
  no_path :
      {name opts : Bytes} {rest more : Seg}
      → Named command s name rest
      → tok_next b'\t' rest ≡ some (opts, more)
      → tok_next b'\t' more ≡ none
      → Cause env command s missing_path
  too_many :
      {name opts path : Bytes} {rest more last : Seg} {word : Bytes × Seg}
      → Named command s name rest
      → tok_next b'\t' rest ≡ some (opts, more)
      → tok_next b'\t' more ≡ some (path, last)
      → tok_next b'\t' last ≡ some word
      → Cause env command s unexpected_argument
  bad_option :
      {name opts path : Bytes}
      → OpenArgs command s name opts path
      → parse_open_flags opts ≡ none
      → Cause env command s unknown_flag
  not_opened :
      {name opts path : Bytes} {flags : FdFlags}
      → OpenArgs command s name opts path
      → parse_open_flags opts ≡ some flags
      → env.open_file flags path ≡ none
      → Cause env command s open_failed
  no_object :
      {name opts path : Bytes} {flags : FdFlags} {num : ℕ}
      → OpenArgs command s name opts path
      → parse_open_flags opts ≡ some flags
      → env.open_file flags path ≡ some num
      → fd_new (length name + 1 + length path + 1) name s ≡ none
      → Cause env command s no_fd_object

-- What `fd.open` does.
pub data Opens (env : FdEnv) (command : Seg) (s : Fds) : Option Outcome → Type 0 where
  refuses :
      (e : FileError) (t : Fds)
      → Cause env command s e
      → IsTable t.next_id t.index
      → t.index ≡ s.index
      → Opens env command s (some (record { error = some e; fds = t; events = [] }))
  opens :
      (name opts path : Bytes) (flags : FdFlags) (num : ℕ) (f : Fd) (t : Fds)
      → OpenArgs command s name opts path
      → parse_open_flags opts ≡ some flags
      → env.open_file flags path ≡ some num
      → IsTable t.next_id t.index
      → by_name name t.index ≡ some f
      → (f.num ≡ some num)
        × (f.flags ≡ flags)
        × (f.attr ≡ file (append_elipses (f.size - length name - 1) path))
      → Opens env command s
          (some (record { error = none; fds = t; events = fd_state f t.index ∷ [] }))

state_of-by_name :
    (n : ℕ) (name : Bytes) (f : Fd) (fs : List Fd)
    → IsTable n fs
    → by_name name fs ≡ some f
    → state_of f.id fs ≡ fd_state f fs ∷ []
state_of-by_name n name f fs v e = rw (lookup_id-by_name name f fs v.unique e, state_of) refl

module _ (env : FdEnv) (command : Seg) (s : Fds) (v : IsTable s.next_id s.index) where
  module _ (name opts path : Bytes) (args : OpenArgs command s name opts path) where
    told_file-Opens :
        (num : ℕ) (flags : FdFlags) (r : Option (Option ℕ × Fds))
        → parse_open_flags opts ≡ some flags
        → env.open_file flags path ≡ some num
        → Filed name (some num) flags path s r
        → Opens env command s (told_file num r)
    told_file-Opens num flags none q o h = elim h [ ]
    told_file-Opens num flags (some r) q o (refused (inl w)) = cc (w, args.named.not_constant)
    told_file-Opens num flags (some r) q o (refused (inr w)) =
        refuses _ (close_fd num s) (no_object args q o w) v refl
    told_file-Opens num flags (some r) q o (filed t f k table there is others closed log) =
        subst
          (λ events. Opens env command s (some (record { error = none; fds = t; events = events })))
          (sym (state_of-by_name t.next_id name f t.index table there))
          (opens name opts path flags num f t args q o table there is)

    opened_file-Opens :
        (flags : FdFlags) (num : Option ℕ)
        → parse_open_flags opts ≡ some flags
        → env.open_file flags path ≡ num
        → Opens env command s (opened_file name flags path s num)
    opened_file-Opens flags none q o = refuses _ s (not_opened args q o) v refl
    opened_file-Opens flags (some num) q o =
        let r = new_file-Filed name (some num) flags path s v in
        rw (r.1, told_file) (told_file-Opens num flags (some r.0) q o r.2)

    open_with-Opens :
        (flags : Option FdFlags)
        → parse_open_flags opts ≡ flags
        → Opens env command s (open_with env name path s flags)
    open_with-Opens none q = refuses _ s (bad_option args q) v refl
    open_with-Opens (some flags) q = opened_file-Opens flags (env.open_file flags path) q refl

  open_opts-Opens :
      (name : Bytes) (rest : Seg) (tok : Option (Bytes × Seg))
      → Named command s name rest
      → tok_next b'\t' rest ≡ tok
      → Opens env command s (open_opts env name s tok)
  open_opts-Opens name rest none n q = refuses _ s (no_opts n q) v refl
  open_opts-Opens name rest (some (opts, more)) n q = with_path (tok_next b'\t' more) refl
    where
      with_last :
          (path : Bytes) (last : Seg) (tok : Option (Bytes × Seg))
          → tok_next b'\t' more ≡ some (path, last)
          → tok_next b'\t' last ≡ tok
          → Opens env command s (open_last env name opts path s tok)
      with_last path last none p k =
          open_with-Opens name opts path
            (record {
              behind_name = rest;
              behind_opts = more;
              behind_path = last;
              named = n;
              opts_word = q;
              path_word = p;
              no_more = k;
            })
            (parse_open_flags opts) refl
      with_last path last (some word) p k = refuses _ s (too_many n q p k) v refl

      with_path :
          (tok : Option (Bytes × Seg))
          → tok_next b'\t' more ≡ tok
          → Opens env command s (open_path env name opts s tok)
      with_path none p = refuses _ s (no_path n q p) v refl
      with_path (some (path, last)) p = with_last path last (tok_next b'\t' last) p refl

  open_named-Opens :
      (tok : Option (Bytes × Seg))
      → tok_next b'\t' command ≡ tok
      → Opens env command s (open_named env s (named_fd false true s.index tok))
  open_named-Opens none q = refuses _ s (no_name (inl q)) v refl
  open_named-Opens (some ([], rest)) q = refuses _ s (no_name (inr (rest, q))) v refl
  open_named-Opens (some (c ∷ cs, rest)) q =
      let P : FdArg → Type 0 = λ arg. Opens env command s (open_named env s arg) in
      by_test P (not (check_name (c ∷ cs))) _ _
        (λ e. refuses _ s (bad_name q (ground (arith, e))) v refl)
        (λ e.
          by_test P (is_constant (by_name (c ∷ cs) s.index)) _ _
            (λ k. refuses _ s (constant_name q k) v refl)
            (λ k.
              open_opts-Opens (c ∷ cs) rest (tok_next b'\t' rest)
                (record { word = q; valid = ground (arith, e); not_constant = k }) refl))

-- `fd.open` never faults. It sets an error only for the cause that the error names, the table of names is
-- then as before, and there is no event. Else the words of the command are a name, valid and of no
-- constant, options and a path; the name stands for an object with the flags of the options and the
-- descriptor that `open` gave for them and the path; the table is in order, its names unique and its
-- pipes paired, and the one event for all connections tells of that object.
pub cmd_fd_open-Opens :
    (env : FdEnv) (command : Seg) (s : Fds)
    → IsTable s.next_id s.index
    → Opens env command s (cmd_fd_open env command s)
unfolding cmd_fd_open get_arg_fd
cmd_fd_open-Opens env command s v = open_named-Opens env command s v (tok_next b'\t' command) refl
