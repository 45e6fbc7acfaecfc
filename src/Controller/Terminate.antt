-- ===== src/Controller/Terminate.antt =====
-- src/controller.c: `ctl_get_arg_int`, and the commands `terminate` and `terminate.guard`. Integers are
-- 64-bit patterns. The guard of 0 is no guard.
use daemonproxy.Common.{
  ℕ, ◌%◌, ◌^◌, Bool, false, not, ◌&&◌, Option, some, none, List, [], ◌∷◌, Bytes, length, ltb, ◌==◌,
  if◌then◌else◌, ◌≡◌, ◌≢◌, refl, ap, ◌∙◌, arith, All, by_test,
}
use daemonproxy.Strseg.{Seg, tok_next, atoi}

-- What the commands set `command_error` to.
pub data CommandError : Type 0 where
  expected_integer guard_required guard_incorrect cannot_exit expected_sign code_zero : CommandError
  guard_already_set guard_not_set : CommandError

-- `opt_terminate_guard`, `opt_exec_on_exit`, `main_terminate` with `main_exitcode`, and the clock
pub record Exit : Type 0 where
  pub guard : ℕ
  pub exec_on_exit : Bool
  pub exitcode : Option ℕ
  pub now : ℕ
  pub next : ℕ

abbrev int_from : Option (ℕ × Bytes) → Seg → Option (ℕ × Seg)
int_from none rest = none
int_from (some v) rest = if ltb 0 (length v.1) then none else some (v.0, rest)

abbrev int_arg : Option (Bytes × Seg) → Option (ℕ × Seg)
int_arg none = none
int_arg (some r) = int_from (atoi r.0) r.1

-- `ctl_get_arg_int`, with what is left of the command
unfoldable pub get_arg_int : Seg → Option (ℕ × Seg)
unfolding tok_next atoi
get_arg_int command = int_arg (tok_next b'\t' command)

abbrev exits : ℕ → Exit → Option CommandError × Exit
exits x e =
    if not (e.guard == 0) && not e.exec_on_exit
    then (some cannot_exit, e)
    else (none, record e { exitcode = some (x % 2 ^ 32); next = e.now })

abbrev exits_guarded : ℕ → Option (ℕ × Seg) → Exit → Option CommandError × Exit
exits_guarded x none e = (some guard_required, e)
exits_guarded x (some y) e = if not (e.guard == y.0) then (some guard_incorrect, e) else exits x e

abbrev exits_with : Option (ℕ × Seg) → Exit → Option CommandError × Exit
exits_with none e = (some expected_integer, e)
exits_with (some x) e =
    if not (e.guard == 0) then exits_guarded x.0 (get_arg_int x.1) e else exits x.0 e

-- `ctl_cmd_terminate`; the error, if it fails
unfoldable pub terminate : Seg → Exit → Option CommandError × Exit
unfolding get_arg_int
terminate command e = exits_with (get_arg_int command) e

abbrev guards : Bool → Option (ℕ × Seg) → Exit → Option CommandError × Exit
guards plus none e = (some expected_integer, e)
guards plus (some code) e =
    if code.0 == 0
    then (some code_zero, e)
    else if plus
    then (if not (e.guard == 0)
        then (some guard_already_set, e)
        else (none, record e { guard = code.0 }))
    else if e.guard == 0
    then (some guard_not_set, e)
    else if not (code.0 == e.guard)
    then (some guard_incorrect, e)
    else (none, record e { guard = 0 })

abbrev guards_with : Option (Bytes × Seg) → Exit → Option CommandError × Exit
guards_with none e = (some expected_sign, e)
guards_with (some ([], rest)) e = (some expected_sign, e)
guards_with (some (c ∷ [], rest)) e =
    if not (c == b'-') && not (c == b'+')
    then (some expected_sign, e)
    else guards (c == b'+') (get_arg_int rest) e
guards_with (some (c ∷ d ∷ cs, rest)) e = (some expected_sign, e)

-- `ctl_cmd_terminate_guard`
unfoldable pub terminate_guard : Seg → Exit → Option CommandError × Exit
unfolding get_arg_int tok_next
terminate_guard command e = guards_with (tok_next b'\t' command) e

-- A command of the two, with its arguments.
pub data ExitCommand : Type 0 where
  do_terminate do_guard : Seg → ExitCommand

abbrev pub run_exit : ExitCommand → Exit → Exit
run_exit (do_terminate args) e = (terminate args e).1
run_exit (do_guard args) e = (terminate_guard args e).1

abbrev pub run_exits : List ExitCommand → Exit → Exit
run_exits [] e = e
run_exits (c ∷ cs) e = run_exits cs (run_exit c e)

abbrev code_of : Option (ℕ × Seg) → Option ℕ
code_of none = none
code_of (some x) = some x.0

abbrev code_behind : Option (Bytes × Seg) → Option ℕ
code_behind none = none
code_behind (some r) = code_of (get_arg_int r.1)

-- The code that a command gives: its second argument, where that is an integer.
unfoldable pub code_given : ExitCommand → Option ℕ
unfolding tok_next
code_given (do_terminate args) = code_behind (tok_next b'\t' args)
code_given (do_guard args) = code_behind (tok_next b'\t' args)

int_arg-rest :
    (r : Option (Bytes × Seg)) (x : ℕ) (rest : Seg)
    → int_arg r ≡ some (x, rest)
    → code_behind r ≡ code_of (get_arg_int rest)
int_arg-rest none x rest h = cc
int_arg-rest (some (tok, left)) x rest h = same (atoi tok) h
  where
    same :
        (v : Option (ℕ × Bytes))
        → int_from v left ≡ some (x, rest)
        → code_of (get_arg_int left) ≡ code_of (get_arg_int rest)
    same none e = cc
    same (some v) e = ap (λ s. code_of (get_arg_int s)) (ground (arith, e))

abbrev Refused : Exit → Option CommandError × Exit → Type 0
Refused e r = r.1 ≡ e

module _ (e : Exit) (guarded : e.guard ≢ 0) where
  exits-refused :
      (x : ℕ) (second : Option (ℕ × Seg))
      → code_of second ≢ some e.guard
      → (exits_guarded x second e).1 ≡ e
  exits-refused x none n = refl
  exits-refused x (some (y, rest)) n =
      by_test (Refused e) (not (e.guard == y)) _ _ (λ t. refl)
        (λ t. absurd (n (ap some (ground (arith, t)))))

  terminate-refused :
      (r : Option (Bytes × Seg)) (first : Option (ℕ × Seg))
      → int_arg r ≡ first
      → code_behind r ≢ some e.guard
      → (exits_with first e).1 ≡ e
  terminate-refused r none q n = refl
  terminate-refused r (some (x, rest)) q n =
      by_test (Refused e) (not (e.guard == 0)) _ _
        (λ t. exits-refused x (get_arg_int rest) (λ c. n (int_arg-rest r x rest q ∙ c)))
        (λ t. absurd (guarded (ground (arith, t))))

  guards-refused :
      (plus : Bool) (second : Option (ℕ × Seg))
      → code_of second ≢ some e.guard
      → (guards plus second e).1 ≡ e
  guards-refused plus none n = refl
  guards-refused plus (some (code, rest)) n =
      let apart : code ≢ e.guard = λ c. n (ap some c) in
      let here : (e.guard == 0) ≡ false = ground (arith, guarded) in
      let other : (code == e.guard) ≡ false = ground (arith, apart) in
      by_test (Refused e) (code == 0) _ _ (λ t. refl)
        (λ t.
          by_test (Refused e) plus _ _
            (λ p.
              by_test (Refused e) (not (e.guard == 0)) _ _ (λ s. refl)
                (λ s. absurd (guarded (ground (arith, s)))))
            (λ p.
              by_test (Refused e) (e.guard == 0) _ _ (λ s. refl)
                (λ s.
                  by_test (Refused e) (not (code == e.guard)) _ _ (λ u. refl)
                    (λ u. absurd (apart (ground (arith, u)))))))

  guard-refused :
      (r : Option (Bytes × Seg)) → code_behind r ≢ some e.guard → (guards_with r e).1 ≡ e
  guard-refused none n = refl
  guard-refused (some ([], rest)) n = refl
  guard-refused (some (c ∷ d ∷ cs, rest)) n = refl
  guard-refused (some (c ∷ [], rest)) n =
      by_test (Refused e) (not (c == b'-') && not (c == b'+')) _ _ (λ t. refl)
        (λ t. guards-refused (c == b'+') (get_arg_int rest) n)

run_exit-refused :
    (c : ExitCommand) (e : Exit) → e.guard ≢ 0 → code_given c ≢ some e.guard → run_exit c e ≡ e
unfolding code_given terminate terminate_guard get_arg_int
run_exit-refused (do_terminate args) e g n = terminate-refused e g (tok_next b'\t' args) _ refl n
run_exit-refused (do_guard args) e g n = guard-refused e g (tok_next b'\t' args) n

-- While a terminate guard is set, no sequence of `terminate` and `terminate.guard` commands changes
-- anything, unless one of them gives the guard's code as its second argument: the program is not told
-- to exit, and the guard stays.
pub run_exits_refused :
    (cs : List ExitCommand) (e : Exit)
    → e.guard ≢ 0
    → All (λ c. code_given c ≢ some e.guard) cs
    → run_exits cs e ≡ e
run_exits_refused [] e g n = refl
run_exits_refused (c ∷ cs) e g n =
    ap (run_exits cs) (run_exit-refused c e g n.0) ∙ run_exits_refused cs e g n.1
