-- ===== src/Service/Settings/Fds.antt =====
-- src/service.c, `svc_set_fds`: the flags of the control handles agree with the list of names.
use daemonproxy.Common.{
  ℕ, Bool, true, false, ◌||◌, Option, some, none, List, [], ◌∷◌, Bytes, codes, if◌then◌else◌, ◌≡◌,
  refl, ap, sym, ◌∙◌, subst, arith, Lacks, Bool-cases, inl, inr,
}
use daemonproxy.Strseg.{fields}
use daemonproxy.Strseg.Cmp.{eq_bytes, eq_bytes_refl, eq_bytes_iff}
use daemonproxy.Service.Vars.{Storage, get_var}
use daemonproxy.Service.Vars.Laws.{IsVars}
use daemonproxy.Service.Machine.{Service}
use daemonproxy.Service.Settings.{
  or_else, get_fds, three_nulls, key_fds, use_names, use_fds, fds_stored, set_fds,
}
use daemonproxy.Service.Settings.Stored.{Stored, refused, kept, stored-Stored, stored_unset}

-- The name is in the list.
abbrev pub is_listed : Bytes → List Bytes → Bool
is_listed name [] = false
is_listed name (n ∷ ns) = eq_bytes n name || is_listed name ns

-- The flags of `new` are those of the names, and its variables are in order.
pub record Uses (fds : Bytes) (new : Service) : Type 0 where
  pub event_flag : new.uses_control_event ≡ is_listed (codes "control.event") (fields b'\t' fds)
  pub cmd_flag : new.uses_control_cmd ≡ is_listed (codes "control.cmd") (fields b'\t' fds)
  pub socket_flag : new.uses_control_socket ≡ is_listed (codes "control.socket") (fields b'\t' fds)

-- What `svc_set_fds` leaves: the service as before, or one that answers with the new names, and whose
-- flags agree with them.
pub data SetFds (fds : Bytes) (s : Service) : Bool × Service → Type 0 where
  unchanged : SetFds fds s (false, s)
  changed :
      {new : Service}
      → IsVars new.vars
      → get_fds new ≡ fds
      → Uses fds new
      → SetFds fds s (true, new)

flag_or : (b c : Bool) → (if b then true else c) ≡ (c || b)
flag_or b c = ground arith

use_names-event :
    (names : List Bytes) (s : Service)
    → (use_names names s).uses_control_event
      ≡ (s.uses_control_event || is_listed (codes "control.event") names)
unfolding use_names
use_names-event [] s = ground arith
use_names-event (n ∷ ns) s = use_names-event ns _ ∙ ground arith

use_names-cmd :
    (names : List Bytes) (s : Service)
    → (use_names names s).uses_control_cmd
      ≡ (s.uses_control_cmd || is_listed (codes "control.cmd") names)
unfolding use_names
use_names-cmd [] s = ground arith
use_names-cmd (n ∷ ns) s = use_names-cmd ns _ ∙ ground arith

use_names-socket :
    (names : List Bytes) (s : Service)
    → (use_names names s).uses_control_socket
      ≡ (s.uses_control_socket || is_listed (codes "control.socket") names)
unfolding use_names
use_names-socket [] s = ground arith
use_names-socket (n ∷ ns) s = use_names-socket ns _ ∙ ground arith

use_names-vars : (names : List Bytes) (s : Service) → (use_names names s).vars ≡ s.vars
unfolding use_names
use_names-vars [] s = refl
use_names-vars (n ∷ ns) s = use_names-vars ns _

use_fds-Uses : (fds : Bytes) (s : Service) → Uses fds (use_fds fds s)
use_fds-Uses fds s =
    let none_yet : Service = record s {
      uses_control_event = false;
      uses_control_cmd = false;
      uses_control_socket = false;
    } in
    record {
      event_flag = use_names-event (fields b'\t' fds) none_yet;
      cmd_flag = use_names-cmd (fields b'\t' fds) none_yet;
      socket_flag = use_names-socket (fields b'\t' fds) none_yet;
    }

use_fds-vars : (fds : Bytes) (s : Service) → (use_fds fds s).vars ≡ s.vars
use_fds-vars fds s = use_names-vars (fields b'\t' fds) _

get_fds-stored :
    (value : Option Bytes) (s new : Service) (vars : Bytes)
    → new.vars ≡ vars
    → ((k : Bytes) → get_var vars k ≡ (if eq_bytes key_fds k then value else get_var s.vars k))
    → get_fds new ≡ or_else three_nulls value
unfolding get_fds
get_fds-stored value s new vars e l =
    rw e (ap (or_else three_nulls) {y = value} (l key_fds ∙ rw (eq_bytes_refl key_fds) refl))

fds_stored-SetFds :
    (fds : Bytes) (s : Service) (r : Bool × Service)
    → Stored key_fds (some fds) s r
    → SetFds fds s (fds_stored fds r)
fds_stored-SetFds fds s (false, _) refused = unchanged
fds_stored-SetFds fds s (true, new) (kept {vars} i l) =
    changed (subst IsVars (sym (use_fds-vars fds new)) i)
      (get_fds-stored (some fds) s (use_fds fds new) vars (use_fds-vars fds new) l)
      (use_fds-Uses fds new)

unset-SetFds :
    (s : Service) (r : Bool × Service)
    → r.0 ≡ true
    → Stored key_fds none s r
    → SetFds three_nulls s (true, use_fds three_nulls r.1)
unset-SetFds s (false, _) e refused = cc
unset-SetFds s (true, new) e (kept {vars} i l) =
    changed (subst IsVars (sym (use_fds-vars three_nulls new)) i)
      (get_fds-stored none s (use_fds three_nulls new) vars (use_fds-vars three_nulls new) l)
      (use_fds-Uses three_nulls new)

-- `svc_set_fds` either changes nothing, or `svc_get_fds` answers with the new names from then on, the
-- default names included, which are not stored; and the three flags say which control handles are
-- among the tab-separated names. The names hold no NUL, and the variables are well formed.
pub set_fds-SetFds :
    (storage : Storage) (junk : ℕ) (fds : Bytes) (s : Service)
    → Lacks 0 fds
    → IsVars s.vars
    → SetFds fds s (set_fds storage junk fds s)
unfolding set_fds
set_fds-SetFds storage junk fds s n i = elim (Bool-cases (eq_bytes fds three_nulls)) [
  | inl e ↦
      let default : fds ≡ three_nulls = (eq_bytes_iff fds three_nulls).0 e in
      rw (default, eq_bytes_refl three_nulls)
        (unset-SetFds s _ (stored_unset storage junk key_fds s)
          (stored-Stored storage junk key_fds none s tt i))
  | inr e ↦ rw e (
      fds_stored-SetFds fds s _
        (stored-Stored storage junk key_fds (some fds) s (ground arith, ground arith, n) i))
]
