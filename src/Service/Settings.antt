-- ===== src/Service/Settings.antt =====
-- src/service.c: the settings of a service, kept in its variables and in flags, and src/signal.c,
-- `sig_num_by_name`. The list of signals, which the build generates, is a parameter, and so are the
-- numbers that `sigaddset` accepts. The storage of the variables and its undefined bytes are those of
-- Service/Vars.
pub mod Stored
pub mod Fds
pub mod Triggers
use daemonproxy.Common.{
  ℕ, zero, suc, ◌+◌, ◌-◌, Bool, true, false, not, ◌&&◌, ◌||◌, Option, some, none, List, [], ◌∷◌,
  ◌++◌, Bytes, codes, length, drop, replicate, ltb, leb, ◌==◌, if◌then◌else◌, seconds, is_negative,
}
use daemonproxy.Strseg.{Seg, seg, spent, tok_all, fields}
use daemonproxy.Strseg.Cmp.{eq_bytes}
use daemonproxy.Signal.{Slots}
use daemonproxy.Service.Vars.{Storage, get_var, set_var}
use daemonproxy.Service.Machine.{Service, World, handle_start, check_sigwake}

abbrev name_buf_size : ℕ
name_buf_size = 32

abbrev pub is_name_char : ℕ → Bool
is_name_char c =
    (leb b'a' c && leb c b'z')
    || (leb b'A' c && leb c b'Z')
    || (leb b'0' c && leb c b'9')
    || c == b'.'
    || c == b'_'
    || c == b'-'

abbrev all_name_chars : Bytes → Bool
all_name_chars [] = true
all_name_chars (c ∷ cs) = if not (is_name_char c) then false else all_name_chars cs

-- `svc_check_name`
unfoldable pub check_name : Bytes → Bool
check_name name = if leb name_buf_size (length name) then false else all_name_chars name

-- A setting of length 0 or less is unset.
abbrev pub null_if_empty : Bytes → Option Bytes
null_if_empty [] = none
null_if_empty (c ∷ cs) = some (c ∷ cs)

abbrev pub or_else : Bytes → Option Bytes → Bytes
or_else d none = d
or_else d (some v) = v

abbrev pub key_tags : Bytes
key_tags = codes "tags"

abbrev pub key_args : Bytes
key_args = codes "args"

abbrev pub key_fds : Bytes
key_fds = codes "fds"

abbrev pub key_triggers : Bytes
key_triggers = codes "triggers"

-- The getter of a setting, by the name of the variable
unfoldable pub get_setting : Bytes → Service → Bytes
get_setting key s = or_else [] (get_var s.vars key)

abbrev pub three_nulls : Bytes
three_nulls = codes "null\tnull\tnull"

-- `svc_get_fds`
unfoldable pub get_fds : Service → Bytes
get_fds s = or_else three_nulls (get_var s.vars key_fds)

abbrev pub stored : Service → Option Bytes → Bool × Service
stored s none = (false, s)
stored s (some vars) = (true, record s { vars = vars })

-- The setter of a setting, by the name of the variable
unfoldable pub set_setting : Storage → ℕ → Bytes → Bytes → Service → Bool × Service
set_setting storage junk key value s =
    stored s (set_var storage junk key (null_if_empty value) s.vars)

-- `svc_get_tags`, `svc_get_argv` and `svc_get_triggers`
abbrev pub get_tags : Service → Bytes
get_tags s = get_setting key_tags s

abbrev pub get_argv : Service → Bytes
get_argv s = get_setting key_args s

abbrev pub get_triggers : Service → Bytes
get_triggers s = get_setting key_triggers s

-- `svc_set_tags` and `svc_set_argv`
abbrev pub set_tags : Storage → ℕ → Bytes → Service → Bool × Service
set_tags storage junk new_tags s = set_setting storage junk key_tags new_tags s

abbrev pub set_argv : Storage → ℕ → Bytes → Service → Bool × Service
set_argv storage junk new_argv s = set_setting storage junk key_args new_argv s

-- `svc_set_restart_interval`, where `interval >> 32` of a negative number is negative.
unfoldable pub set_restart_interval : ℕ → Service → Bool × Service
set_restart_interval interval s =
    if is_negative interval || ltb (seconds interval) 1
    then (false, s)
    else (true, record s { restart_interval = interval })

-- The loop of `svc_set_fds` over the names
unfoldable pub use_names : List Bytes → Service → Service
unfolding eq_bytes
use_names [] s = s
use_names (name ∷ names) s = use_names names (record s {
  uses_control_event = if eq_bytes name (codes "control.event") then true else s.uses_control_event;
  uses_control_cmd = if eq_bytes name (codes "control.cmd") then true else s.uses_control_cmd;
  uses_control_socket =
      if eq_bytes name (codes "control.socket") then true else s.uses_control_socket;
})

abbrev pub use_fds : Bytes → Service → Service
use_fds fds s =
    use_names (fields b'\t' fds) (record s {
      uses_control_event = false;
      uses_control_cmd = false;
      uses_control_socket = false;
    })

abbrev pub fds_stored : Bytes → Bool × Service → Bool × Service
fds_stored fds (false, s) = (false, s)
fds_stored fds (true, s) = (true, use_fds fds s)

-- `svc_set_fds`; a negative length is 0.
unfoldable pub set_fds : Storage → ℕ → Bytes → Service → Bool × Service
unfolding use_names
set_fds storage junk fds s =
    if eq_bytes fds three_nulls
    then (true, use_fds fds (stored s (set_var storage junk key_fds none s.vars)).1)
    else fds_stored fds (stored s (set_var storage junk key_fds (some fds) s.vars))

-- An entry of the generated list: the number, and the name as 8 chars.
abbrev pub SigList : Type 0
SigList = List (ℕ × Bytes)

abbrev find_sig : SigList → Bytes → ℕ
find_sig [] search = 0
find_sig ((signum, signame) ∷ rest) search =
    if signum == 0 then 0 else if eq_bytes signame search then signum else find_sig rest search

abbrev pub strip_sig : Bytes → Bytes
strip_sig (a ∷ b ∷ c ∷ d ∷ rest) =
    if a == b'S' && b == b'I' && c == b'G' then d ∷ rest else a ∷ b ∷ c ∷ d ∷ rest
strip_sig name = name

-- `sig_num_by_name`
unfoldable pub sig_num_by_name : SigList → Bytes → ℕ
sig_num_by_name sig_list name =
    let short = strip_sig name in
    if ltb 8 (length short) then 0 else find_sig sig_list (short ++ replicate (8 - length short) 0)

-- `autostart`, `sigs` and `enable_sigs`
pub record Parsed : Type 0 where
  pub always : Bool
  pub sigs : List ℕ
  pub enable : Bool

-- The loop of `svc_set_triggers`, which stops at the first empty trigger; `none` is its result false.
unfoldable pub parse_triggers : SigList → (ℕ → Bool) → List Bytes → Parsed → Option Parsed
unfolding eq_bytes sig_num_by_name
parse_triggers sig_list addable [] t = some t
parse_triggers sig_list addable ([] ∷ rest) t = some t
parse_triggers sig_list addable ((c ∷ cs) ∷ rest) t =
    let signum = sig_num_by_name sig_list (c ∷ cs) in
    let as_always = parse_triggers sig_list addable rest (record t { always = true }) in
    let as_signal =
      parse_triggers sig_list addable rest (record t { sigs = signum ∷ t.sigs; enable = true }) in
    if eq_bytes (c ∷ cs) (codes "always")
    then as_always
    else if ltb 0 signum
    then (if addable signum then as_signal else none)
    else none

-- The end of `svc_set_triggers`: the flags, and a start if one is due.
unfoldable pub apply_triggers : Slots → Parsed → World → World
unfolding handle_start check_sigwake
apply_triggers signals t w =
    let s = record w.svc {
      auto_restart = t.always;
      autostart_signals = t.sigs;
      sigwake = t.enable;
    } in
    let told : World = record w { svc = s } in
    if s.auto_restart || check_sigwake signals s then (handle_start w.now told).1 else told

abbrev pub triggers_stored : Slots → Parsed → World → Bool × Service → Bool × World
triggers_stored signals t w (false, s) = (false, w)
triggers_stored signals t w (true, s) = (true, apply_triggers signals t (record w { svc = s }))

abbrev pub triggers_parsed : Slots → Storage → ℕ → Bytes → World → Option Parsed → Bool × World
triggers_parsed signals storage junk tsv w none = (false, w)
triggers_parsed signals storage junk tsv w (some t) =
    triggers_stored signals t w
      (stored w.svc (set_var storage junk key_triggers (null_if_empty tsv) w.svc.vars))

-- `svc_set_triggers`
unfoldable pub set_triggers :
    SigList → (ℕ → Bool) → Slots → Storage → ℕ → Bytes → World → Bool × World
unfolding parse_triggers apply_triggers
set_triggers sig_list addable signals storage junk tsv w =
    triggers_parsed signals storage junk tsv w (
      parse_triggers sig_list addable (fields b'\t' tsv)
        (record { always = false; sigs = []; enable = false }))
