-- ===== src/Log/Drain.antt =====
-- src/log.c, `log_flush` and `log_run`: a descriptor that takes what is written empties the log.
use daemonproxy.Common.{
  ℕ, zero, suc, ◌+◌, ◌-◌, ◌/◌, ◌%◌, ◌^◌, ◌≤◌, ◌<◌, Bool, true, false, not, ◌&&◌, ◌||◌, Option, some,
  none, List, [], ◌∷◌, ◌++◌, Bytes, codes, length, take, drop, ltb, ◌==◌, if◌then◌else◌, All,
  digits, ◌≡◌, refl, sym, ap, subst, ◌∙◌, arith, append_assoc, append-nil, take-append-drop,
  length-append, length-drop, by_test,
}
use daemonproxy.Log.{
  LogAnswer, takes, fails, Log, log_size, decimal_int, lost_line, tell_lost, consumed, write_out,
  has_fd, log_flush, Wake, retry_at, is_due, retry, wake_blocked, run_in, log_run,
}

length-digits : (fuel n : ℕ) → length (digits fuel n) ≤ fuel
unfolding digits
length-digits zero n = omega arith
length-digits (suc fuel) n =
    by_test (λ (ds : Bytes). length ds ≤ suc fuel) (ltb n 10) _ _ (λ e. omega arith)
      (λ e. omega (
        arith,
        length-digits fuel (n / 10),
        length-append (digits fuel (n / 10)) ((b'0' + n % 10) ∷ []),
      ))

length-decimal_int : (n : ℕ) → length (decimal_int n) ≤ 11
length-decimal_int n =
    by_test (λ (ds : Bytes). length ds ≤ 11) (ltb n (2 ^ 31)) _ _
      (λ e. omega (arith, length-digits 10 n)) (λ e. omega (arith, length-digits 10 (2 ^ 32 - n)))

lost_line-fits : (n : ℕ) → length (lost_line n) < log_size
lost_line-fits n = omega (
  arith,
  length-decimal_int n,
  length-append (codes "warning: lost ") (decimal_int n ++ codes " log messages\n"),
  length-append (decimal_int n) (codes " log messages\n"),
)

-- The line that is due.
abbrev pub due_line : ℕ → Bytes
due_line zero = []
due_line (suc n) = lost_line (suc n)

-- All that is to be written.
abbrev pub pending : Log → Bytes
pending l = l.buffer ++ due_line l.msg_lost

-- Messages are lost only behind others that wait.
abbrev pub IsReady : Log → Type 0
IsReady l = length l.buffer ≡ 0 → l.msg_lost ≡ 0

abbrev TakesSome : LogAnswer → Type 0
TakesSome (takes zero) = ⊥
TakesSome (takes (suc n)) = Unit
TakesSome fails = ⊥

-- Each write takes a byte at least.
abbrev pub AllTake : List LogAnswer → Type 0
AllTake = All TakesSome

-- The log `r` has written all that `l` had to.
pub record Drained (l : Log) (r : Log) : Type 0 where
  pub empty : r.buffer ≡ []
  pub none_lost : r.msg_lost ≡ 0
  pub written_all : r.written ≡ l.written ++ pending l
  pub blocked_as : r.log_blocked ≡ l.log_blocked

due_line_ne : (n : ℕ) → (n == 0) ≡ false → due_line n ≡ lost_line n
due_line_ne zero e = ground arith
due_line_ne (suc n) e = refl

pending-tell_lost :
    (l : Log)
    → (pending (tell_lost l) ≡ pending l)
      × ((tell_lost l).written ≡ l.written)
      × ((tell_lost l).log_blocked ≡ l.log_blocked)
      × IsReady (tell_lost l)
unfolding tell_lost
pending-tell_lost l =
    let told = lost_line l.msg_lost in
    let P : Log → Type 0 = λ t.
      (pending t ≡ pending l)
      × (t.written ≡ l.written)
      × (t.log_blocked ≡ l.log_blocked)
      × IsReady t in
    by_test P (l.msg_lost == 0) _ _ (λ e. (refl, refl, refl, λ q. ground arith))
      (λ e.
        by_test P (ltb (length told) (log_size - length l.buffer)) _ _
          (λ q. (
            append-nil (l.buffer ++ told)
                ∙ ap (λ s. l.buffer ++ s) (sym (due_line_ne l.msg_lost e)),
            refl,
            refl,
            λ k. refl,
          ))
          (λ q. (refl, refl, refl, λ k. absurd (ground (arith, lost_line-fits l.msg_lost)))))

empty_list : (b : Bytes) → length b ≡ 0 → b ≡ []
empty_list [] e = refl
empty_list (c ∷ cs) e = ground arith

Drained-empty : (l : Log) → (length l.buffer == 0) ≡ true → IsReady l → Drained l l
Drained-empty l e h =
    let b : l.buffer ≡ [] = empty_list l.buffer (ground arith) in
    let n : l.msg_lost ≡ 0 = h (ground arith) in
    record {
      empty = b;
      none_lost = n;
      written_all =
          sym (append-nil l.written)
          ∙ ap (λ s. l.written ++ s) (sym (ap (λ s. s ++ due_line l.msg_lost) b ∙ ap due_line n));
      blocked_as = refl;
    }

-- The result of a loop that wrote all.
abbrev Drains : Log → Bool × Log → Type 0
Drains l r = (r.0 ≡ true) × Drained l r.1

rejoined :
    (l : Log) (n : ℕ)
    → (l.written ++ take n l.buffer) ++ (drop n l.buffer ++ due_line l.msg_lost)
      ≡ l.written ++ pending l
rejoined l n =
    append_assoc l.written (take n l.buffer) (drop n l.buffer ++ due_line l.msg_lost)
    ∙ ap (λ s. l.written ++ s)
        (sym (append_assoc (take n l.buffer) (drop n l.buffer) (due_line l.msg_lost))
          ∙ ap (λ s. s ++ due_line l.msg_lost) (take-append-drop n l.buffer))

write_out-Drains :
    (later : List LogAnswer) (l : Log)
    → AllTake later
    → length (pending l) ≤ length later
    → IsReady l
    → Drains l (write_out later l)
unfolding write_out
write_out-Drains [] l t n h =
    by_test (Drains l) (length l.buffer == 0) _ _ (λ e. (refl, Drained-empty l e h))
      (λ e. absurd (ground (arith, n, length-append l.buffer (due_line l.msg_lost))))
write_out-Drains (fails ∷ later) l t n h = elim t.0 [ ]
write_out-Drains (takes zero ∷ later) l t n h = elim t.0 [ ]
write_out-Drains (takes (suc k) ∷ later) l t n h =
    let took = consumed (suc k) later l in
    let told = pending-tell_lost took in
    by_test (Drains l) (length l.buffer == 0) (true, l) (write_out later (tell_lost took))
      (λ e. (refl, Drained-empty l e h))
      (λ e.
        let less : length (pending (tell_lost took)) ≤ length later = rw told.0 (
          ground (
            arith,
            n,
            e,
            length-append l.buffer (due_line l.msg_lost),
            length-append (drop (suc k) l.buffer) (due_line l.msg_lost),
            length-drop (suc k) l.buffer,
          )) in
        let r = write_out-Drains later (tell_lost took) t.1 less told.3 in
        (
          r.0,
          record {
            empty = r.1.empty;
            none_lost = r.1.none_lost;
            written_all =
                r.1.written_all
                ∙ ap (λ s. s ++ pending (tell_lost took)) told.1
                ∙ ap (λ s. took.written ++ s) told.0
                ∙ rejoined l (suc k);
            blocked_as = r.1.blocked_as ∙ told.2;
          },
        ))

-- A run of the log wrote all, and needs no wake.
pub record RunDrained (l : Log) (w : Wake) (r : Wake × Log) : Type 0 where
  pub same_wake : r.0 ≡ w
  pub written_all : r.1.written ≡ l.written ++ pending l
  pub empty : r.1.buffer ≡ []
  pub none_lost : r.1.msg_lost ≡ 0
  pub unblocked : r.1.log_blocked ≡ false

abbrev again_of : Log → Log
again_of l = record l { log_blocked = false; next_attempt = 0 }

if_true {ℓ} : {A : Type ℓ} (b : Bool) (x y : A) → b ≡ true → (if b then x else y) ≡ x
if_true true x y e = refl
if_true false x y e = ground arith

if_false {ℓ} : {A : Type ℓ} (b : Bool) (x y : A) → b ≡ false → (if b then x else y) ≡ y
if_false true x y e = ground arith
if_false false x y e = refl

log_flush-opened :
    (fd : ℕ) (l : Log) → l.fd ≡ some fd → log_flush (again_of l) ≡ write_out l.answers (again_of l)
unfolding log_flush
log_flush-opened fd l f =
    if_false (not (has_fd l) || false) (false, again_of l) (write_out l.answers (again_of l))
      (ap (λ (o : Option ℕ). not (elim o as (λ x. Bool) [ none ↦ false | some n ↦ true ]) || false)
        f)

retry-opened :
    (fd : ℕ) (w : Wake) (l : Log)
    → l.fd ≡ some fd
    → (write_out l.answers (again_of l)).1.log_blocked ≡ false
    → retry w l ≡ (write_out l.answers (again_of l)).1
unfolding retry
retry-opened fd w l f u =
    ap (λ (r : Bool × Log). retry_at w.now r.1) (log_flush-opened fd l f)
    ∙ if_false (write_out l.answers (again_of l)).1.log_blocked _ _ u

-- `log_run` writes all that waits, and the line on the lost messages, if the log was log_blocked and it is
-- time to try again: the descriptor is writable or the time of the next attempt has come. The writes
-- to come take a byte each at least, there are enough of them for the bytes, and messages were lost
-- only behind others that wait.
pub log_run-drains :
    (fd_by_name : Bytes → Option ℕ) (fd : ℕ) (w : Wake) (l : Log)
    → l.fd ≡ some fd
    → l.log_blocked ≡ true
    → is_due fd w l ≡ true
    → AllTake l.answers
    → length (pending l) ≤ length l.answers
    → IsReady l
    → RunDrained l w (log_run fd_by_name w l)
unfolding log_run
log_run-drains fd_by_name fd w l f b d t n h =
    let r = (write_out l.answers (again_of l)).1 in
    let tried = write_out-Drains l.answers (again_of l) t n h in
    let unblocked : r.log_blocked ≡ false = tried.1.blocked_as in
    let here : has_fd l ≡ true =
      ap (λ (o : Option ℕ). elim o as (λ x. Bool) [ none ↦ false | some m ↦ true ]) f in
    let ran : log_run fd_by_name w l ≡ (w, r) =
      ap (λ (a : Log). run_in a.fd w a) (if_true (has_fd l) l _ here)
      ∙ ap (λ o. run_in o w l) f
      ∙ ap (λ (a : Log). (wake_blocked fd w a, a))
          (if_true (l.log_blocked && is_due fd w l) (retry w l) l (ground (arith, b, d))
            ∙ retry-opened fd w l f unblocked)
      ∙ ap (λ (v : Wake). (v, r)) (if_true (not r.log_blocked) w _ (ap not unblocked)) in
    subst (RunDrained l w) (sym ran) (record {
      same_wake = refl;
      written_all = tried.1.written_all;
      empty = tried.1.empty;
      none_lost = tried.1.none_lost;
      unblocked = unblocked;
    })
