-- ===== src/Service/Settings/Triggers.antt =====
-- src/service.c, `svc_set_triggers`: the flags agree with the list of triggers.
use daemonproxy.Common.{
  by_test, ℕ, Bool, true, false, not, ◌&&◌, ◌||◌, Option, some, none, List, [], ◌∷◌, Bytes, codes,
  ltb, ◌==◌, ◌≡◌, refl, sym, ◌∙◌, subst, arith, Lacks, Bool-cases, inl, inr,
}
use daemonproxy.Strseg.{fields}
use daemonproxy.Strseg.Cmp.{eq_bytes}
use daemonproxy.Signal.{Slots}
use daemonproxy.Service.Vars.{Storage}
use daemonproxy.Service.Vars.Laws.{IsVars}
use daemonproxy.Service.Machine.{
  State, undef, down, start, up, reaped, Service, World, handle_start, is_startable, check_sigwake,
  mem,
}
use daemonproxy.Service.Machine.Inv.{IsValid, StateInv, handle_start-IsValid}
use daemonproxy.Service.Settings.{
  SigList, sig_num_by_name, Parsed, parse_triggers, null_if_empty, key_triggers, get_setting,
  apply_triggers, triggers_stored, triggers_parsed, set_triggers,
}
use daemonproxy.Service.Settings.Stored.{
  SetSetting, refused, kept, Stored-SetSetting, stored-Stored, null_if_empty-IsStorable,
}

-- The triggers before the first that is empty.
abbrev pub listed : List Bytes → List Bytes
listed [] = []
listed ([] ∷ rest) = []
listed ((c ∷ cs) ∷ rest) = (c ∷ cs) ∷ listed rest

abbrev pub is_always : Bytes → Bool
is_always t = eq_bytes t (codes "always")

abbrev pub any_always : List Bytes → Bool
any_always [] = false
any_always (t ∷ ts) = is_always t || any_always ts

abbrev pub any_signal : List Bytes → Bool
any_signal [] = false
any_signal (t ∷ ts) = not (is_always t) || any_signal ts

-- The signal is named by a trigger.
abbrev pub any_named : SigList → ℕ → List Bytes → Bool
any_named sig_list n [] = false
any_named sig_list n (t ∷ ts) =
    (not (is_always t) && sig_num_by_name sig_list t == n) || any_named sig_list n ts

data Parses (sig_list : SigList) (ts : List Bytes) (t : Parsed) : Option Parsed → Type 0 where
  failed : Parses sig_list ts t none
  parsed :
      {u : Parsed}
      → u.always ≡ (t.always || any_always ts)
      → u.enable ≡ (t.enable || any_signal ts)
      → ((n : ℕ) → mem n u.sigs ≡ (mem n t.sigs || any_named sig_list n ts))
      → Parses sig_list ts t (some u)

always-step :
    (sig_list : SigList) (name : Bytes) (ts : List Bytes) (t : Parsed) (r : Option Parsed)
    → is_always name ≡ true
    → Parses sig_list ts (record t { always = true }) r
    → Parses sig_list (name ∷ ts) t r
always-step sig_list name ts t none e failed = failed
always-step sig_list name ts t (some u) e (parsed a b c) =
    parsed (ground (arith, a, e)) (ground (arith, b, e)) (λ n. ground (arith, c n, e))

signal-step :
    (sig_list : SigList) (name : Bytes) (ts : List Bytes) (t : Parsed) (r : Option Parsed)
    → is_always name ≡ false
    → Parses sig_list ts
        (record t { sigs = sig_num_by_name sig_list name ∷ t.sigs; enable = true })
        r
    → Parses sig_list (name ∷ ts) t r
signal-step sig_list name ts t none e failed = failed
signal-step sig_list name ts t (some u) e (parsed a b c) =
    parsed (ground (arith, a, e)) (ground (arith, b, e)) (λ n. ground (arith, c n, e))

parse_triggers-Parses :
    (sig_list : SigList) (addable : ℕ → Bool) (ts : List Bytes) (t : Parsed)
    → Parses sig_list (listed ts) t (parse_triggers sig_list addable ts t)
unfolding parse_triggers
parse_triggers-Parses sig_list addable [] t =
    parsed (ground arith) (ground arith) (λ n. ground arith)
parse_triggers-Parses sig_list addable ([] ∷ rest) t =
    parsed (ground arith) (ground arith) (λ n. ground arith)
parse_triggers-Parses sig_list addable ((c ∷ cs) ∷ rest) t =
    let signum = sig_num_by_name sig_list (c ∷ cs) in
    by_test (Parses sig_list ((c ∷ cs) ∷ listed rest) t) (is_always (c ∷ cs)) _ _
      (λ e.
        always-step sig_list (c ∷ cs) (listed rest) t _ e
          (parse_triggers-Parses sig_list addable rest _))
      (λ e.
        by_test (Parses sig_list ((c ∷ cs) ∷ listed rest) t) (ltb 0 signum) _ _
          (λ p.
            by_test (Parses sig_list ((c ∷ cs) ∷ listed rest) t) (addable signum) _ _
              (λ q.
                signal-step sig_list (c ∷ cs) (listed rest) t _ e
                  (parse_triggers-Parses sig_list addable rest _))
              (λ q. failed))
          (λ p. failed))

-- The flags of a service with the triggers `tsv`.
pub record Triggered (sig_list : SigList) (tsv : Bytes) (s : Service) : Type 0 where
  pub text : get_setting key_triggers s ≡ tsv
  pub restart_flag : s.auto_restart ≡ any_always (listed (fields b'\t' tsv))
  pub sigwake_flag : s.sigwake ≡ any_signal (listed (fields b'\t' tsv))
  pub wake_signals :
      (n : ℕ) → mem n s.autostart_signals ≡ any_named sig_list n (listed (fields b'\t' tsv))

-- What `svc_set_triggers` leaves: nothing new, or a valid service with the triggers.
pub data SetTriggers (sig_list : SigList) (tsv : Bytes) (w : World) : Bool × World → Type 0 where
  unchanged : SetTriggers sig_list tsv w (false, w)
  changed :
      {new : World}
      → Triggered sig_list tsv new.svc
      → IsVars new.svc.vars
      → IsValid new.svc
      → SetTriggers sig_list tsv w (true, new)

-- `svc_handle_start` leaves the settings alone.
record SameSettings (s new : Service) : Type 0 where
  vars : new.vars ≡ s.vars
  auto_restart : new.auto_restart ≡ s.auto_restart
  sigwake : new.sigwake ≡ s.sigwake
  signals : new.autostart_signals ≡ s.autostart_signals

handle_start-SameSettings : (when : ℕ) (w : World) → SameSettings w.svc (handle_start when w).1.svc
unfolding handle_start
handle_start-SameSettings when w = elim (Bool-cases (is_startable w.svc.state)) [
  | inl e ↦ rw e (record { vars = refl; auto_restart = refl; sigwake = refl; signals = refl })
  | inr e ↦ rw e (record { vars = refl; auto_restart = refl; sigwake = refl; signals = refl })
]

-- The service with new variables and triggers.
abbrev retagged : Bytes → Parsed → Service → Service
retagged vars t s = record s {
  vars = vars;
  auto_restart = t.always;
  autostart_signals = t.sigs;
  sigwake = t.enable;
}

retagged-StateInv :
    (q : State) (s : Service) (vars : Bytes) (t : Parsed)
    → StateInv q s
    → StateInv q (retagged vars t s)
retagged-StateInv undef s vars t i = i
retagged-StateInv down s vars t i = i
retagged-StateInv start s vars t i = i
retagged-StateInv up s vars t i = i
retagged-StateInv reaped s vars t i = i

retagged-IsValid :
    (s : Service) (vars : Bytes) (t : Parsed) → IsValid s → IsValid (retagged vars t s)
retagged-IsValid s vars t v = record {
  indexed = v.indexed;
  state_inv = retagged-StateInv s.state s vars t v.state_inv;
}

module _ (sig_list : SigList) (signals : Slots) (tsv : Bytes) (w : World) where
  started-SetTriggers :
      (s new : Service) → SameSettings s new → Triggered sig_list tsv s → Triggered sig_list tsv new
  unfolding get_setting
  started-SetTriggers s new k t = record {
    text = rw (k.vars) (t.text);
    restart_flag = k.auto_restart ∙ t.restart_flag;
    sigwake_flag = k.sigwake ∙ t.sigwake_flag;
    wake_signals = λ n. rw (k.signals) (t.wake_signals n);
  }

  applied-SetTriggers :
      (t : Parsed) (vars : Bytes)
      → IsVars vars
      → IsValid w.svc
      → Triggered sig_list tsv (retagged vars t w.svc)
      → SetTriggers sig_list tsv w
          (true, apply_triggers signals t (record w { svc = record w.svc { vars = vars } }))
  unfolding apply_triggers
  applied-SetTriggers t vars i v g =
      let told : World = record w { svc = retagged vars t w.svc } in
      let valid = retagged-IsValid w.svc vars t v in
      let same = handle_start-SameSettings w.now told in
      elim (Bool-cases (t.always || check_sigwake signals (retagged vars t w.svc))) [
        | inl e ↦ rw e (
            changed (started-SetTriggers told.svc (handle_start w.now told).1.svc same g)
              (subst IsVars (sym (same.vars)) i) (handle_start-IsValid w.now told valid).0)
        | inr e ↦ rw e (changed g i valid)
      ]

  stored-SetTriggers :
      (t : Parsed) (r : Bool × Service)
      → IsValid w.svc
      → t.always ≡ any_always (listed (fields b'\t' tsv))
      → t.enable ≡ any_signal (listed (fields b'\t' tsv))
      → ((n : ℕ) → mem n t.sigs ≡ any_named sig_list n (listed (fields b'\t' tsv)))
      → SetSetting key_triggers tsv w.svc r
      → SetTriggers sig_list tsv w (triggers_stored signals t w r)
  unfolding get_setting
  stored-SetTriggers t (false, _) v a b c refused = unchanged
  stored-SetTriggers t (true, _) v a b c (kept {vars} i text others) =
      applied-SetTriggers t vars i v
        (record { text = text; restart_flag = a; sigwake_flag = b; wake_signals = c })

  parsed-SetTriggers :
      (storage : Storage) (junk : ℕ) (r : Option Parsed)
      → Lacks 0 tsv
      → IsVars w.svc.vars
      → IsValid w.svc
      → Parses sig_list
          (listed (fields b'\t' tsv))
          (record { always = false; sigs = []; enable = false })
          r
      → SetTriggers sig_list tsv w (triggers_parsed signals storage junk tsv w r)
  parsed-SetTriggers storage junk none l i v failed = unchanged
  parsed-SetTriggers storage junk (some t) l i v (parsed a b c) = stored-SetTriggers t _ v a b c (
      Stored-SetSetting (
        stored-Stored storage junk key_triggers (null_if_empty tsv) w.svc
          (null_if_empty-IsStorable key_triggers tsv (ground arith) (ground arith) l) i))

-- `svc_set_triggers` either changes nothing, or the text is read back, and the flags say what the
-- triggers before the first empty one say: `auto_restart` that `always` is among them, `sigwake` that
-- any other is, and the set of signals which numbers they name. The service stays valid, whether it is
-- started at once or not. The text holds no NUL, and the variables and the service are well formed.
pub set_triggers-SetTriggers :
    (sig_list : SigList) (addable : ℕ → Bool) (signals : Slots) (storage : Storage) (junk : ℕ)
    (tsv : Bytes) (w : World)
    → Lacks 0 tsv
    → IsVars w.svc.vars
    → IsValid w.svc
    → SetTriggers sig_list tsv w (set_triggers sig_list addable signals storage junk tsv w)
unfolding set_triggers
set_triggers-SetTriggers sig_list addable signals storage junk tsv w l i v =
    parsed-SetTriggers sig_list signals tsv w storage junk _ l i v
      (parse_triggers-Parses sig_list addable (fields b'\t' tsv) _)
