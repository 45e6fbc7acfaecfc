-- ===== src/Log/Silent.antt =====
-- src/log.c: a log that stays silent.
use daemonproxy.Common.{
  ℕ, suc, ◌+◌, ◌%◌, ◌^◌, ◌<◌, ◌≤◌, Bool, false, not, ◌&&◌, ◌||◌, Option, some, none, List, [], ◌∷◌,
  ◌++◌, Bytes, codes, length, ltb, ◌==◌, if◌then◌else◌, ℤ, leb_int, ◌≡◌, ◌≢◌, refl, ap, ◌∙◌, arith,
  length-append, by_test,
}
use daemonproxy.Log.{
  LogAnswer, takes, fails, Log, log_size, write_out, has_fd, log_flush, attach_to, fd_reset,
  fd_set_name, lose, fits, level_prefix, message, log_write, Wake, is_due, retry, run_in, log_run,
}
use daemonproxy.Log.Told.{Op, logs, runs, names, resets, filters, step, steps}

-- The log lost messages, `n` at most, and nothing waits.
abbrev pub IsSilent : ℕ → Log → Type 0
IsSilent n l = (l.buffer ≡ []) × (l.msg_lost ≢ 0) × (l.msg_lost ≤ n)

-- Silent still, and nothing more was written.
abbrev StaysSilent : ℕ → Log → Log → Type 0
StaysSilent n l r = IsSilent n r × (r.written ≡ l.written)

write_out-silent :
    {n : ℕ} (later : List LogAnswer) (l : Log)
    → IsSilent n l
    → StaysSilent n l (write_out later l).1
unfolding write_out
write_out-silent {n} [] l h =
    by_test (λ (r : Bool × Log). StaysSilent n l r.1) (length l.buffer == 0) _ _ (λ e. (h, refl))
      (λ e. (h, refl))
write_out-silent {n} (fails ∷ later) l h =
    by_test (λ (r : Bool × Log). StaysSilent n l r.1) (length l.buffer == 0) _ _ (λ e. (h, refl))
      (λ e. (h, refl))
write_out-silent {n} (takes m ∷ later) l h =
    by_test (λ (r : Bool × Log). StaysSilent n l r.1) (length l.buffer == 0) _ _ (λ e. (h, refl))
      (λ e. absurd (ground (arith, ap length h.0)))

log_flush-silent : {n : ℕ} (l : Log) → IsSilent n l → StaysSilent n l (log_flush l).1
unfolding log_flush
log_flush-silent {n} l h =
    by_test (λ (r : Bool × Log). StaysSilent n l r.1) (not (has_fd l) || l.log_blocked) _ _
      (λ e. (h, refl)) (λ e. write_out-silent l.answers l h)

attach_to-silent :
    {n : ℕ} (fd : Option ℕ) (l : Log) → IsSilent n l → StaysSilent n l (attach_to fd l).1
unfolding attach_to
attach_to-silent {n} none l h = (h, refl)
attach_to-silent {n} (some fd) l h =
    let opened = record l { fd = some fd; log_blocked = false; next_attempt = 0 } in
    by_test (StaysSilent n l) (ltb 0 (length l.buffer)) _ _ (λ e. log_flush-silent opened h)
      (λ e. (h, refl))

retry-silent : {n : ℕ} (w : Wake) (l : Log) → IsSilent n l → StaysSilent n l (retry w l)
unfolding retry
retry-silent {n} w l h =
    let again = record l { log_blocked = false; next_attempt = 0 } in
    by_test (StaysSilent n l) (log_flush again).1.log_blocked _ _ (λ e. log_flush-silent again h)
      (λ e. log_flush-silent again h)

run_in-silent :
    {n : ℕ} (fd : Option ℕ) (w : Wake) (l : Log) → IsSilent n l → StaysSilent n l (run_in fd w l).1
run_in-silent {n} none w l h = (h, refl)
run_in-silent {n} (some fd) w l h =
    by_test (StaysSilent n l) (l.log_blocked && is_due fd w l) _ _ (λ e. retry-silent w l h)
      (λ e. (h, refl))

IsSilent-suc : {n : ℕ} (l : Log) → IsSilent n l → IsSilent (suc n) l
IsSilent-suc l h = (h.0, h.1, omega (arith, h.2))

lose-silent : {n : ℕ} (l : Log) → suc n < 2 ^ 31 → IsSilent n l → StaysSilent (suc n) l (lose l).1
lose-silent {n} l k h =
    let no_wrap : (l.msg_lost + 1) % 2 ^ 32 ≡ suc l.msg_lost = omega (arith, k, h.2) in
    ((h.0, omega (arith, no_wrap), omega (arith, no_wrap, h.2)), refl)

log_write-silent :
    {n : ℕ} (level : ℤ) (msg : Bytes) (l : Log)
    → suc n < 2 ^ 31
    → IsSilent n l
    → StaysSilent (suc n) l (log_write level msg l).1
unfolding log_write
log_write-silent {n} level msg l k h =
    by_test (λ (r : Bool × Log). StaysSilent (suc n) l r.1) (leb_int level l.filter) _ _
      (λ e. (IsSilent-suc l h, refl))
      (λ e.
        by_test (λ (r : Bool × Log). StaysSilent (suc n) l r.1) (not (l.msg_lost == 0)) _ _
          (λ q. lose-silent l k h) (λ q. absurd (ground (arith, h.1))))

log_run-silent :
    {n : ℕ} (fd_by_name : Bytes → Option ℕ) (w : Wake) (l : Log)
    → IsSilent n l
    → StaysSilent n l (log_run fd_by_name w l).1
unfolding log_run
log_run-silent {n} fd_by_name w l h =
    let named =
      if not (has_fd l) && ltb 0 (length l.dest_name) then fd_by_name l.dest_name else l.fd in
    let attached = if has_fd l then l else (attach_to named l).1 in
    let first =
      by_test (StaysSilent n l) (has_fd l) l (attach_to named l).1 (λ e. (h, refl))
        (λ e. attach_to-silent named l h) in
    let more = run_in-silent attached.fd w attached first.0 in (more.0, more.1 ∙ first.1)

-- A step loses one message at most.
step-silent :
    {n : ℕ} (o : Op) (l : Log) → suc n < 2 ^ 31 → IsSilent n l → StaysSilent (suc n) l (step o l)
step-silent (logs level msg) l k h = log_write-silent level msg l k h
step-silent (runs fd_by_name w) l k h =
    let r = log_run-silent fd_by_name w l h in (IsSilent-suc (log_run fd_by_name w l).1 r.0, r.1)
step-silent (names fd_by_name name) l k h =
    let r = attach_to-silent _ (record (fd_reset l) { dest_name = name }) h in
    (IsSilent-suc (fd_set_name fd_by_name name l) r.0, r.1)
step-silent resets l k h = (IsSilent-suc l h, refl)
step-silent (filters value) l k h = (IsSilent-suc l h, refl)

steps-silent :
    (n : ℕ) (os : List Op) (l : Log)
    → n + length os < 2 ^ 31
    → IsSilent n l
    → (steps os l).written ≡ l.written
steps-silent n [] l k h = refl
steps-silent n (o ∷ os) l k h =
    let first = step-silent o l (omega (arith, k)) h in
    steps-silent (suc n) os (step o l) (omega (arith, k)) first.0 ∙ first.1

long-silent :
    (level : ℤ) (msg : Bytes) (l : Log)
    → leb_int level l.filter ≡ false
    → l.buffer ≡ []
    → log_size < length (message level msg)
    → l.msg_lost + 1 < 2 ^ 31
    → StaysSilent (l.msg_lost + 1) l (log_write level msg l).1
unfolding log_write
long-silent level msg l f b n k =
    let P : Bool × Log → Type 0 = λ r. StaysSilent (l.msg_lost + 1) l r.1 in
    let no_wrap : (l.msg_lost + 1) % 2 ^ 32 ≡ l.msg_lost + 1 = omega (arith, k) in
    let lost : P (lose l) = ((b, omega (arith, no_wrap), omega (arith, no_wrap)), refl) in
    by_test P (leb_int level l.filter) _ _ (λ e. absurd (ground (arith, f)))
      (λ e.
        by_test P (not (l.msg_lost == 0)) _ _ (λ q. lost)
          (λ q.
            by_test P (not (fits (level_prefix level) l.buffer)) _ _ (λ r. lost)
              (λ r.
                by_test P (not (fits msg (l.buffer ++ level_prefix level))) _ _ (λ t. lost)
                  (λ t. absurd (
                    ground (
                      arith,
                      n,
                      length-append (level_prefix level) (msg ++ codes "\n"),
                      length-append msg (codes "\n"),
                      length-append l.buffer (level_prefix level),
                    ))))))

-- A message that is longer than the whole buffer, logged while nothing waits, silences the log: whatever
-- is done with it from then on, and whichever descriptor it gets, it writes nothing more, as long as the
-- count of lost messages is an int: the messages lost before and the steps are fewer than 2^31 together. The filter lets the message pass.
pub long-silences :
    (level : ℤ) (msg : Bytes) (os : List Op) (l : Log)
    → leb_int level l.filter ≡ false
    → l.buffer ≡ []
    → log_size < length (message level msg)
    → l.msg_lost + 1 + length os < 2 ^ 31
    → (steps (logs level msg ∷ os) l).written ≡ l.written
long-silences level msg os l f b n k =
    let first = long-silent level msg l f b n (omega (arith, k)) in
    steps-silent (l.msg_lost + 1) os (step (logs level msg) l) k first.0 ∙ first.1
