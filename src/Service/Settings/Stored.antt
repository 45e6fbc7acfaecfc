-- ===== src/Service/Settings/Stored.antt =====
-- src/service.c: a setting that is stored is read back, and the others stay.
use daemonproxy.Common.{
  ℕ, Bool, true, false, Option, some, none, [], ◌∷◌, Bytes, length, ltb, if◌then◌else◌, ◌≡◌, refl,
  ap, ◌∙◌, arith, Lacks, List, All,
}
use daemonproxy.Strseg.{Seg}
use daemonproxy.Strseg.Cmp.{eq_bytes, eq_bytes_refl}
use daemonproxy.Service.Vars.{Storage, search, get_var, set_var, new_len}
use daemonproxy.Service.Vars.Laws.{IsStorable, IsVars, Sets, full, set, set_var-Sets}
use daemonproxy.Service.Machine.{Service}
use daemonproxy.Service.Settings.{
  null_if_empty, or_else, get_setting, stored, set_setting, get_tags, get_argv, get_fds,
  get_triggers, set_tags, set_argv, key_tags, key_args, key_fds, key_triggers, three_nulls,
}

-- The service is as before, or has variables that differ by the one set.
pub data Stored (key : Bytes) (value : Option Bytes) (s : Service) : Bool × Service → Type 0 where
  refused : Stored key value s (false, s)
  kept :
      {vars : Bytes}
      → IsVars vars
      → ((k : Bytes) → get_var vars k ≡ (if eq_bytes key k then value else get_var s.vars k))
      → Stored key value s (true, record s { vars = vars })

Sets-Stored :
    {storage : Storage} {key : Bytes} {value : Option Bytes} {s : Service} {r : Option Bytes}
    → Sets storage key value s.vars r
    → Stored key value s (stored s r)
Sets-Stored (full v size e q h n) = refused
Sets-Stored (set i g l) = kept i l

pub stored-Stored :
    (storage : Storage) (junk : ℕ) (key : Bytes) (value : Option Bytes) (s : Service)
    → IsStorable key value
    → IsVars s.vars
    → Stored key value s (stored s (set_var storage junk key value s.vars))
stored-Stored storage junk key value s p i = Sets-Stored (set_var-Sets storage junk key value p i)

new_len-unset :
    (name : Bytes) (found : Option (ℕ × Seg)) (len : ℕ)
    → ltb len (new_len name none found len) ≡ false
unfolding new_len
new_len-unset name none len = ground arith
new_len-unset name (some old) len = ground arith

-- To unset a variable takes no room.
pub stored_unset :
    (storage : Storage) (junk : ℕ) (key : Bytes) (s : Service)
    → (stored s (set_var storage junk key none s.vars)).0 ≡ true
unfolding set_var
stored_unset storage junk key s = rw (new_len-unset key (search key s.vars).found (length s.vars))

-- What `svc_set_tags` and `svc_set_argv` leave: the service as before, or one that answers with the
-- value, and for every other variable as before.
pub data SetSetting (key value : Bytes) (s : Service) : Bool × Service → Type 0 where
  refused : SetSetting key value s (false, s)
  kept :
      {vars : Bytes}
      → IsVars vars
      → get_setting key (record s { vars = vars }) ≡ value
      → ((k : Bytes)
          → get_var vars k ≡ (if eq_bytes key k then null_if_empty value else get_var s.vars k))
      → SetSetting key value s (true, record s { vars = vars })

or_else-null_if_empty : (value : Bytes) → or_else [] (null_if_empty value) ≡ value
or_else-null_if_empty [] = refl
or_else-null_if_empty (c ∷ cs) = refl

pub Stored-SetSetting :
    {key value : Bytes} {s : Service} {r : Bool × Service}
    → Stored key (null_if_empty value) s r
    → SetSetting key value s r
unfolding get_setting
Stored-SetSetting refused = refused
Stored-SetSetting {key} {value} (kept i l) =
    kept i
      (ap (or_else []) {y = null_if_empty value} (l key ∙ rw (eq_bytes_refl key) refl)
        ∙ or_else-null_if_empty value)
      l

pub null_if_empty-IsStorable :
    (key value : Bytes)
    → Lacks b'=' key
    → Lacks 0 key
    → Lacks 0 value
    → IsStorable key (null_if_empty value)
null_if_empty-IsStorable key [] e n v = tt
null_if_empty-IsStorable key (c ∷ cs) e n v = (e, n, v)

-- The getters read other variables than that of `key`, or the one of `key`.
other-setting :
    (key other value vars : Bytes) (s : Service)
    → eq_bytes key other ≡ false
    → ((k : Bytes)
        → get_var vars k ≡ (if eq_bytes key k then null_if_empty value else get_var s.vars k))
    → get_var vars other ≡ get_var s.vars other
other-setting key other value vars s e l = l other ∙ rw e refl

-- What a setter leaves of a service: it fails, for want of room, and changes nothing; or the variables are
-- well formed, and the getters `get` and `others` answer with the new text and as before.
pub data SetsOnly (storage : Storage) (key value : Bytes) (s : Service) (get : Service → Bytes)
    (others : List (Service → Bytes)) : Bool × Service → Type 0 where
  fails :
      Sets storage key (null_if_empty value) s.vars none
      → SetsOnly storage key value s get others (false, s)
  sets :
      {t : Service}
      → IsVars t.vars
      → get t ≡ value
      → All (λ (g : Service → Bytes). g t ≡ g s) others
      → SetsOnly storage key value s get others (true, t)

Sets-SetsOnly :
    {storage : Storage} {key value : Bytes} {s : Service} {r : Option Bytes}
    (others : List (Service → Bytes))
    → ((vars : Bytes)
        → ((k : Bytes)
            → get_var vars k ≡ (if eq_bytes key k then null_if_empty value else get_var s.vars k))
        → All (λ (g : Service → Bytes). g (record s { vars = vars }) ≡ g s) others)
    → Sets storage key (null_if_empty value) s.vars r
    → SetsOnly storage key value s (get_setting key) others (stored s r)
unfolding get_setting
Sets-SetsOnly others k (full v size e q h n) = fails (full v size e q h n)
Sets-SetsOnly {key = key} {value = value} others k (set {new} i g l) =
    sets i
      (ap (or_else []) {y = null_if_empty value} (l key ∙ rw (eq_bytes_refl key) refl)
        ∙ or_else-null_if_empty value)
      (k new l)

-- `svc_set_tags` fails only where `svc_set_var` does, for want of room, and then changes nothing. Else
-- `svc_get_tags` answers with the new text from then on, the empty text included, and the getters of the
-- argument list, the descriptors and the triggers as before. `svc_set_argv` does the same for the
-- argument list, and leaves the tags. The text holds no NUL, and the variables are well formed.
pub set_tags-set_argv :
    (storage : Storage) (junk : ℕ) (value : Bytes) (s : Service)
    → Lacks 0 value
    → IsVars s.vars
    → SetsOnly storage key_tags value s get_tags
        (get_argv ∷ get_fds ∷ get_triggers ∷ [])
        (set_tags storage junk value s)
      × SetsOnly storage key_args value s get_argv
          (get_tags ∷ get_fds ∷ get_triggers ∷ [])
          (set_argv storage junk value s)
unfolding set_setting get_setting get_fds eq_bytes
set_tags-set_argv storage junk value s n i = (
  Sets-SetsOnly (get_argv ∷ get_fds ∷ get_triggers ∷ [])
      (λ vars l. (
        ap (or_else []) (other-setting key_tags key_args value vars s refl l),
        (
          ap (or_else three_nulls) (other-setting key_tags key_fds value vars s refl l),
          (ap (or_else []) (other-setting key_tags key_triggers value vars s refl l), tt),
        ),
      ))
      (set_var-Sets storage junk key_tags (null_if_empty value)
        (null_if_empty-IsStorable key_tags value (ground arith) (ground arith) n) i),
  Sets-SetsOnly (get_tags ∷ get_fds ∷ get_triggers ∷ [])
      (λ vars l. (
        ap (or_else []) (other-setting key_args key_tags value vars s refl l),
        (
          ap (or_else three_nulls) (other-setting key_args key_fds value vars s refl l),
          (ap (or_else []) (other-setting key_args key_triggers value vars s refl l), tt),
        ),
      ))
      (set_var-Sets storage junk key_args (null_if_empty value)
        (null_if_empty-IsStorable key_args value (ground arith) (ground arith) n) i),
)
