-- ===== src/Controller/Flags.antt =====
-- src/controller.c: the flags that `fd.open` takes, and those that an `fd.state` event tells of a file.
-- The switch on the first char only spares comparisons with names that begin with another one.
use native.Mathlib.Decide.{ℕ_discrete}
use daemonproxy.Common.{
  ℕ, Bool, true, false, not, ◌&&◌, ◌||◌, Option, some, none, List, [], ◌∷◌, ◌++◌, Bytes, codes,
  if◌then◌else◌, ◌≡◌, ◌≢◌, refl, ap, ◌∙◌, arith, ◌==◌, decimal, All, All-append, Lacks, by_test,
}
use daemonproxy.Strseg.{fields, tok_all}
use daemonproxy.Strseg.Cmp.{eq_bytes}
use daemonproxy.Fd.{FdFlags, no_flags, Fd, Attr, file, pipe, lookup_id}
use daemonproxy.Strseg.Token.{join, fields-join}

-- One option of `ctl_cmd_fd_open`; an empty one is skipped, `none` is an unknown one.
unfoldable pub set_open_flag : Bytes → FdFlags → Option FdFlags
unfolding eq_bytes
set_open_flag [] flags = some flags
set_open_flag (c ∷ cs) flags =
    let opt : Bytes = c ∷ cs in
    if eq_bytes opt (codes "append")
    then some (record flags { appends = true })
    else if eq_bytes opt (codes "create")
    then some (record flags { creates = true })
    else if eq_bytes opt (codes "mkdir")
    then some (record flags { mkdir = true })
    else if eq_bytes opt (codes "read")
    then some (record flags { reads = true })
    else if eq_bytes opt (codes "trunc")
    then some (record flags { truncs = true })
    else if eq_bytes opt (codes "write")
    then some (record flags { writes = true })
    else if eq_bytes opt (codes "nonblock")
    then some (record flags { nonblock = true })
    else none

-- The loop over the options
unfoldable pub open_flags : List Bytes → FdFlags → Option FdFlags
unfolding set_open_flag
open_flags [] flags = some flags
open_flags (opt ∷ opts) flags = elim (set_open_flag opt flags) [
  | none ↦ none
  | some g ↦ open_flags opts g
]

abbrev pub parse_open_flags : Bytes → Option FdFlags
parse_open_flags opts = open_flags (fields b',' opts) no_flags

abbrev pub text_if : Bool → Bytes → Bytes
text_if b text = if b then text else []

-- The flags of a file in `ctl_notify_fd_state`
unfoldable pub file_flags : FdFlags → Bytes
file_flags flags =
    (if flags.writes
      then (if flags.reads then codes "read,write" else codes "write")
      else codes "read")
    ++ text_if flags.appends (codes ",append")
    ++ text_if flags.creates (codes ",create")
    ++ text_if flags.truncs (codes ",trunc")
    ++ text_if flags.nonblock (codes ",nonblock")
    ++ text_if flags.mkdir (codes ",mkdir")

abbrev socket_domain : FdFlags → Bytes
socket_domain flags =
    if flags.sock_inet
    then codes "inet"
    else if flags.sock_inet6
    then codes "inet6"
    else codes "unix"

abbrev socket_type : FdFlags → Bytes
socket_type flags =
    if flags.sock_dgram
    then codes "dgram"
    else if flags.sock_seq
    then codes "seqpacket"
    else codes "stream"

unfoldable pub pipe_flags : FdFlags → Bytes
pipe_flags flags =
    text_if flags.socket (socket_domain flags ++ codes ",")
    ++ text_if flags.socket (socket_type flags ++ codes ",")
    ++ text_if flags.nonblock (codes "nonblock,")
    ++ (if flags.writes || flags.socket then codes "to" else codes "from")

unfoldable pub socket_flags : FdFlags → Bytes
socket_flags flags =
    socket_domain flags
    ++ codes ","
    ++ socket_type flags
    ++ text_if flags.binds (codes ",bind")
    ++ text_if (not (flags.listen == 0)) (codes ",listen=" ++ decimal flags.listen)
    ++ text_if flags.mkdir (codes ",mkdir")
    ++ text_if flags.nonblock (codes ",nonblock")

abbrev name_of : Option Fd → Bytes
name_of none = codes "?"
name_of (some f) = f.name

abbrev peer_name : Option ℕ → List Fd → Bytes
peer_name none fs = codes "?"
peer_name (some i) fs = name_of (lookup_id i fs)

-- The type, the flags and the description
abbrev described : FdFlags → Attr → List Fd → List Bytes
described flags (pipe peer) fs = codes "pipe" ∷ pipe_flags flags ∷ peer_name peer fs ∷ []
described flags (file path) fs =
    if flags.socket
    then (if flags.special then codes "special" else codes "socket")
      ∷ socket_flags flags
      ∷ path
      ∷ []
    else (if flags.special then codes "special" else codes "file") ∷ file_flags flags ∷ path ∷ []

-- `ctl_notify_fd_state`: the line, without its newline, about an object of the table
abbrev pub fd_state : Fd → List Fd → Bytes
fd_state f fs = join b'\t' (codes "fd.state" ∷ f.name ∷ described f.flags f.attr fs)

FdFlags-discrete : Discrete (Option FdFlags)
FdFlags-discrete = hlevel ℕ_discrete

abbrev opened : Bool → Bool → Bool → Bool → Bool → Bool → Bool → FdFlags
opened reads writes creates appends mkdir truncs nonblock = record no_flags {
  reads = reads;
  writes = writes;
  creates = creates;
  appends = appends;
  mkdir = mkdir;
  truncs = truncs;
  nonblock = nonblock;
}

all_bool : (Bool → Bool) → Bool
all_bool p = p true && p false

all_bool_sound : (p : Bool → Bool) → all_bool p ≡ true → (b : Bool) → p b ≡ true
unfolding all_bool
all_bool_sound p h true = ground (arith, h)
all_bool_sound p h false = ground (arith, h)

is_yes {ℓ} : {A : Type ℓ} → Dec A → Bool
is_yes (yes a) = true
is_yes (no n) = false

is_yes_sound {ℓ} : {A : Type ℓ} (d : Dec A) → is_yes d ≡ true → A
unfolding is_yes
is_yes_sound (yes a) h = a
is_yes_sound (no n) h = cc

-- The flags of a file are those that its event tells.
reads_back : Bool → Bool → Bool → Bool → Bool → Bool → Bool → Bool
reads_back r w c a m t n = is_yes (
    FdFlags-discrete (parse_open_flags (file_flags (opened r w c a m t n)))
      (some (opened (r || not w) w c a m t n)))

all_read_back :
    all_bool (λ r. all_bool (λ w. all_bool (λ c.
      all_bool (λ a. all_bool (λ m. all_bool (λ t. all_bool (λ n. reads_back r w c a m t n)))))))
    ≡ true
unfolding all_bool reads_back is_yes FdFlags-discrete open_flags file_flags tok_all ℕ_discrete
all_read_back = refl

-- What `fd.open` makes of the flags that an event tells.
abbrev pub reopened : FdFlags → FdFlags
reopened flags =
    opened (flags.reads || not flags.writes) flags.writes flags.creates flags.appends flags.mkdir
      flags.truncs flags.nonblock

parse_open_flags-file_flags :
    (flags : FdFlags) → parse_open_flags (file_flags flags) ≡ some (reopened flags)
unfolding reads_back file_flags
parse_open_flags-file_flags flags =
    let r = flags.reads in
    let w = flags.writes in
    let c = flags.creates in
    let a = flags.appends in
    let m = flags.mkdir in
    let t = flags.truncs in
    let n = flags.nonblock in
    let h1 = all_bool_sound _ all_read_back r in
    let h2 = all_bool_sound _ h1 w in
    let h3 = all_bool_sound _ h2 c in
    let h4 = all_bool_sound _ h3 a in
    let h5 = all_bool_sound _ h4 m in
    let h6 = all_bool_sound _ h5 t in
    is_yes_sound
      (FdFlags-discrete (parse_open_flags (file_flags (opened r w c a m t n)))
        (some (opened (r || not w) w c a m t n)))
      (all_bool_sound _ h6 n)

text_if-Lacks : (c : ℕ) (b : Bool) (text : Bytes) → Lacks c text → Lacks c (text_if b text)
text_if-Lacks c true text h = h
text_if-Lacks c false text h = tt

file_flags-Lacks : (flags : FdFlags) → Lacks b'\t' (file_flags flags)
unfolding file_flags
file_flags-Lacks flags =
    let P : ℕ → Type 0 = λ c. c ≢ b'\t' in
    let access =
      by_test (All P) flags.writes (if flags.reads then codes "read,write" else codes "write")
        (codes "read")
        (λ e.
          by_test (All P) flags.reads (codes "read,write") (codes "write") (λ q. omega arith)
            (λ q. omega arith))
        (λ e. omega arith) in
    All-append P _ _
      (All-append P _ _
        (All-append P _ _
          (All-append P _ _
            (All-append P _ _ access
              (text_if-Lacks b'\t' flags.appends (codes ",append") (omega arith)))
            (text_if-Lacks b'\t' flags.creates (codes ",create") (omega arith)))
          (text_if-Lacks b'\t' flags.truncs (codes ",trunc") (omega arith)))
        (text_if-Lacks b'\t' flags.nonblock (codes ",nonblock") (omega arith)))
      (text_if-Lacks b'\t' flags.mkdir (codes ",mkdir") (omega arith))

-- The event of a file: behind `fd.state` its name, `file` or `special`, its flags, and its path. The
-- flags are options of `fd.open`, which make of them the flags that the file has, but that a file with
-- neither the read nor the write flag is told to be read. Name and path have no tab.
pub fd_state-reopens :
    (f : Fd) (path : Bytes) (fs : List Fd)
    → f.attr ≡ file path
    → f.flags.socket ≡ false
    → Lacks b'\t' f.name
    → Lacks b'\t' path
    → (flags : Bytes) × (fields b'\t' (fd_state f fs)
        ≡ codes "fd.state"
          ∷ f.name
          ∷ (if f.flags.special then codes "special" else codes "file")
          ∷ flags
          ∷ path
          ∷ [])
      × (parse_open_flags flags ≡ some (reopened f.flags))
fd_state-reopens f path fs a s n p =
    let kind = if f.flags.special then codes "special" else codes "file" in
    let told : List Bytes = f.name ∷ kind ∷ file_flags f.flags ∷ path ∷ [] in
    let line : fd_state f fs ≡ join b'\t' (codes "fd.state" ∷ told) =
      ap (λ (at : Attr). join b'\t' (codes "fd.state" ∷ f.name ∷ described f.flags at fs)) a
      ∙ ap
          (λ (b : Bool). join b'\t' (
            codes "fd.state"
            ∷ f.name
            ∷ (if b
                then (if f.flags.special then codes "special" else codes "socket")
                  ∷ socket_flags f.flags
                  ∷ path
                  ∷ []
                else kind ∷ file_flags f.flags ∷ path ∷ [])))
          s in
    let kind_lacks : Lacks b'\t' kind =
      by_test (Lacks b'\t') f.flags.special (codes "special") (codes "file") (λ e. omega arith)
        (λ e. omega arith) in
    (
      file_flags f.flags,
      ap (fields b'\t') line
          ∙ fields-join b'\t' (codes "fd.state") told (omega arith)
              (n, (kind_lacks, (file_flags-Lacks f.flags, (p, tt)))),
      parse_open_flags-file_flags f.flags,
    )
