-- ===== src/Log/Told.antt =====
-- src/log.c: what becomes of each message.
use daemonproxy.Common.{
  ℕ, zero, suc, ◌+◌, ◌-◌, ◌%◌, ◌^◌, ◌<◌, ◌≤◌, Bool, true, false, not, ◌&&◌, ◌||◌, Option, some,
  none, List, [], ◌∷◌, ◌++◌, Bytes, codes, length, take, drop, ltb, ◌==◌, if◌then◌else◌, ℤ, leb_int,
  ◌≡◌, sym, ap, subst, ◌∙◌, arith, append_assoc, append-nil, take-append-drop, length-append,
  length-drop, by_test, Bool-cases, inl, inr,
}
use daemonproxy.Log.{
  LogAnswer, takes, fails, Log, log_size, lost_line, tell_lost, consumed, write_out, has_fd,
  log_flush, attach_to, attach, fd_reset, fd_set_name, lose, fits, level_prefix, message, log_write,
  Wake, is_due, retry, run_in, log_run, new_log,
}
use daemonproxy.Log.Level.{clamp_level}

-- The lines of messages in order, the number of messages lost behind the last line, and the text: each
-- line is there in full, or counted in a line that tells how many in a row were lost.
pub data Told : List Bytes → ℕ → Bytes → Type 0 where
  start : Told [] 0 []
  line : {ms : List Bytes} {s : Bytes} (m : Bytes) → Told ms 0 s → Told (ms ++ (m ∷ [])) 0 (s ++ m)
  lost :
      {ms : List Bytes} {n : ℕ} {s : Bytes} (m : Bytes)
      → Told ms n s
      → Told (ms ++ (m ∷ [])) (suc n) s
  tells :
      {ms : List Bytes} {n : ℕ} {s : Bytes} → Told ms (suc n) s → Told ms 0 (s ++ lost_line (suc n))

-- What was written and what waits tell of the messages, and what waits fits the buffer.
abbrev pub IsTold : List Bytes → Log → Type 0
IsTold ms l = Told ms l.msg_lost (l.written ++ l.buffer) × (length l.buffer ≤ log_size)

-- No more are counted than there are.
Told-lost : {ms : List Bytes} {n : ℕ} {s : Bytes} → Told ms n s → n ≤ length ms
Told-lost start = omega arith
Told-lost (line {ms} m t) = omega arith
Told-lost (lost {ms} m t) = omega (arith, Told-lost t, length-append ms (m ∷ []))
Told-lost (tells t) = omega arith

consumed-IsTold :
    (ms : List Bytes) (n : ℕ) (later : List LogAnswer) (l : Log)
    → IsTold ms l
    → IsTold ms (consumed n later l)
consumed-IsTold ms n later l h = (
  subst (Told ms l.msg_lost)
      (sym (
        append_assoc l.written (take n l.buffer) (drop n l.buffer)
        ∙ ap (λ s. l.written ++ s) (take-append-drop n l.buffer)))
      h.0,
  omega (arith, h.1, length-drop n l.buffer),
)

tells_lost :
    (ms : List Bytes) (n : ℕ) (s : Bytes)
    → (n == 0) ≡ false
    → Told ms n s
    → Told ms 0 (s ++ lost_line n)
tells_lost ms zero s e t = ground arith
tells_lost ms (suc n) s e t = tells t

tell_lost-IsTold : (ms : List Bytes) (l : Log) → IsTold ms l → IsTold ms (tell_lost l)
unfolding tell_lost
tell_lost-IsTold ms l h =
    let due = lost_line l.msg_lost in
    by_test (IsTold ms) (l.msg_lost == 0) _ _ (λ e. h)
      (λ e.
        by_test (IsTold ms) (ltb (length due) (log_size - length l.buffer)) _ _
          (λ q. (
            subst (Told ms 0) (append_assoc l.written l.buffer due)
                (tells_lost ms l.msg_lost (l.written ++ l.buffer) e h.0),
            ground (arith, length-append l.buffer due, q),
          ))
          (λ q. h))

write_out-IsTold :
    (ms : List Bytes) (later : List LogAnswer) (l : Log)
    → IsTold ms l
    → IsTold ms (write_out later l).1
unfolding write_out
write_out-IsTold ms [] l h =
    by_test (λ (r : Bool × Log). IsTold ms r.1) (length l.buffer == 0) _ _ (λ e. h) (λ e. h)
write_out-IsTold ms (fails ∷ later) l h =
    by_test (λ (r : Bool × Log). IsTold ms r.1) (length l.buffer == 0) _ _ (λ e. h) (λ e. h)
write_out-IsTold ms (takes n ∷ later) l h =
    by_test (λ (r : Bool × Log). IsTold ms r.1) (length l.buffer == 0) _ _ (λ e. h)
      (λ e.
        write_out-IsTold ms later (tell_lost (consumed n later l))
          (tell_lost-IsTold ms (consumed n later l) (consumed-IsTold ms n later l h)))

log_flush-IsTold : (ms : List Bytes) (l : Log) → IsTold ms l → IsTold ms (log_flush l).1
unfolding log_flush
log_flush-IsTold ms l h =
    by_test (λ (r : Bool × Log). IsTold ms r.1) (not (has_fd l) || l.log_blocked) _ _ (λ e. h)
      (λ e. write_out-IsTold ms l.answers l h)

attach_to-IsTold :
    (ms : List Bytes) (fd : Option ℕ) (l : Log) → IsTold ms l → IsTold ms (attach_to fd l).1
unfolding attach_to
attach_to-IsTold ms none l h = h
attach_to-IsTold ms (some fd) l h =
    let opened = record l { fd = some fd; log_blocked = false; next_attempt = 0 } in
    by_test (IsTold ms) (ltb 0 (length l.buffer)) _ _ (λ e. log_flush-IsTold ms opened h) (λ e. h)

retry-IsTold : (ms : List Bytes) (w : Wake) (l : Log) → IsTold ms l → IsTold ms (retry w l)
unfolding retry
retry-IsTold ms w l h =
    let tried = (log_flush (record l { log_blocked = false; next_attempt = 0 })).1 in
    let told = log_flush-IsTold ms (record l { log_blocked = false; next_attempt = 0 }) h in
    by_test (IsTold ms) tried.log_blocked _ _ (λ e. told) (λ e. told)

log_run-IsTold :
    (ms : List Bytes) (fd_by_name : Bytes → Option ℕ) (w : Wake) (l : Log)
    → IsTold ms l
    → IsTold ms (log_run fd_by_name w l).1
unfolding log_run
log_run-IsTold ms fd_by_name w l h =
    let attached = if has_fd l then l else (attach fd_by_name l).1 in
    ran attached.fd attached
      (by_test (IsTold ms) (has_fd l) _ _ (λ e. h) (λ e. attach_to-IsTold ms _ l h))
  where
    ran : (fd : Option ℕ) (a : Log) → IsTold ms a → IsTold ms (run_in fd w a).1
    ran none a k = k
    ran (some fd) a k =
        by_test (IsTold ms) (a.log_blocked && is_due fd w a) _ _ (λ e. retry-IsTold ms w a k)
          (λ e. k)

IsTold-lose :
    (ms : List Bytes) (m : Bytes) (l : Log)
    → suc (length ms) < 2 ^ 31
    → IsTold ms l
    → IsTold (ms ++ (m ∷ [])) (lose l).1
IsTold-lose ms m l k h =
    let no_wrap : (l.msg_lost + 1) % 2 ^ 32 ≡ suc l.msg_lost = omega (arith, k, Told-lost h.0) in
    (subst (λ n. Told (ms ++ (m ∷ [])) n (l.written ++ l.buffer)) (sym no_wrap) (lost m h.0), h.1)

IsTold-line :
    (ms : List Bytes) (m : Bytes) (l : Log)
    → IsTold ms l
    → l.msg_lost ≡ 0
    → length l.buffer + length m ≤ log_size
    → IsTold (ms ++ (m ∷ [])) (record l { buffer = l.buffer ++ m })
IsTold-line ms m l h e n = (
  subst (λ k. Told (ms ++ (m ∷ [])) k (l.written ++ (l.buffer ++ m))) (sym e)
      (subst (Told (ms ++ (m ∷ [])) 0) (append_assoc l.written l.buffer m)
        (line m (subst (λ k. Told ms k (l.written ++ l.buffer)) e h.0))),
  omega (arith, n, length-append l.buffer m),
)

-- The messages that a write adds: one, unless the filter leaves it out.
abbrev pub passes : ℤ → Bytes → Log → List Bytes
passes level msg l = if leb_int level l.filter then [] else message level msg ∷ []

-- Unless a test drops the message
or_lost :
    (ms : List Bytes) (l : Log) (b : Bool) (r : Bool × Log)
    → IsTold ms (lose l).1
    → (b ≡ false → IsTold ms r.1)
    → IsTold ms (if b then lose l else r).1
or_lost ms l b r h k = by_test (λ (r : Bool × Log). IsTold ms r.1) b (lose l) r (λ e. h) k

log_write-IsTold :
    (ms : List Bytes) (level : ℤ) (msg : Bytes) (l : Log)
    → suc (length ms) < 2 ^ 31
    → IsTold ms l
    → IsTold (ms ++ passes level msg l) (log_write level msg l).1
unfolding log_write
log_write-IsTold ms level msg l k h = elim (Bool-cases (leb_int level l.filter)) [
  | inl e ↦ rw e (subst (λ xs. IsTold xs l) (sym (append-nil ms)) h)
  | inr e ↦
      let more = ms ++ (message level msg ∷ []) in
      let dropped = IsTold-lose ms (message level msg) l k h in
      let longer = record l { buffer = l.buffer ++ message level msg } in
      let sent : Bool × Log = (true, (log_flush longer).1) in
      let no_room = not (fits msg (l.buffer ++ level_prefix level)) in
      let by_room = if no_room then lose l else sent in
      let no_prefix = not (fits (level_prefix level) l.buffer) in
      rw e (
        or_lost more l (not (l.msg_lost == 0)) (if no_prefix then lose l else by_room) dropped
          (λ none_lost. or_lost more l no_prefix by_room dropped (λ p.
            or_lost more l no_room sent dropped (λ q. log_flush-IsTold more longer (
              IsTold-line ms (message level msg) l h (ground arith) (
                ground (
                  arith,
                  q,
                  length-append (level_prefix level) (msg ++ codes "\n"),
                  length-append msg (codes "\n"),
                  length-append l.buffer (level_prefix level),
                )))))))
]

-- What the daemon does with its log.
pub data Op : Type 0 where
  logs : ℤ → Bytes → Op
  runs : (Bytes → Option ℕ) → Wake → Op
  names : (Bytes → Option ℕ) → Bytes → Op
  resets : Op
  filters : ℤ → Op

abbrev pub step : Op → Log → Log
step (logs level msg) l = (log_write level msg l).1
step (runs fd_by_name w) l = (log_run fd_by_name w l).1
step (names fd_by_name name) l = fd_set_name fd_by_name name l
step resets l = fd_reset l
step (filters value) l = record l { filter = clamp_level value }

abbrev pub steps : List Op → Log → Log
steps [] l = l
steps (o ∷ os) l = steps os (step o l)

abbrev pub step_messages : Op → Log → List Bytes
step_messages (logs level msg) l = passes level msg l
step_messages (runs fd_by_name w) l = []
step_messages (names fd_by_name name) l = []
step_messages resets l = []
step_messages (filters value) l = []

-- The lines of the messages that the filter lets pass at their time.
abbrev pub messages : List Op → Log → List Bytes
messages [] l = []
messages (o ∷ os) l = step_messages o l ++ messages os (step o l)

step-IsTold :
    (ms : List Bytes) (o : Op) (l : Log)
    → suc (length ms) < 2 ^ 31
    → IsTold ms l
    → IsTold (ms ++ step_messages o l) (step o l)
step-IsTold ms (logs level msg) l k h = log_write-IsTold ms level msg l k h
step-IsTold ms (runs fd_by_name w) l k h = rw (append-nil ms) (log_run-IsTold ms fd_by_name w l h)
step-IsTold ms (names fd_by_name name) l k h =
    rw (append-nil ms) (attach_to-IsTold ms _ (record (fd_reset l) { dest_name = name }) h)
step-IsTold ms resets l k h = rw (append-nil ms) h
step-IsTold ms (filters value) l k h = rw (append-nil ms) h

step_messages-length : (o : Op) (l : Log) → length (step_messages o l) ≤ 1
step_messages-length (logs level msg) l =
    by_test (λ (ms : List Bytes). length ms ≤ 1) (leb_int level l.filter) _ _ (λ e. omega arith)
      (λ e. omega arith)
step_messages-length (runs fd_by_name w) l = omega arith
step_messages-length (names fd_by_name name) l = omega arith
step_messages-length resets l = omega arith
step_messages-length (filters value) l = omega arith

steps-IsTold :
    (ms : List Bytes) (os : List Op) (l : Log)
    → length ms + length os < 2 ^ 31
    → IsTold ms l
    → IsTold (ms ++ messages os l) (steps os l)
steps-IsTold ms [] l k h = rw (append-nil ms) h
steps-IsTold ms (o ∷ os) l k h =
    let more = step_messages o l in
    subst (λ xs. IsTold xs (steps os (step o l))) (append_assoc ms more (messages os (step o l)))
      (steps-IsTold (ms ++ more) os (step o l)
        (omega (arith, k, length-append ms more, step_messages-length o l))
        (step-IsTold ms o l (omega (arith, k)) h))

-- What is done with a new log in less than 2^31 steps, and however its writes are answered: what was
-- written and what waits have each message that the filter let pass in full, and in order, or count it in
-- a line that tells how many messages in a row were lost; those lost behind the last line are counted in
-- `msg_lost`. The buffer is never exceeded.
pub new_log-IsTold :
    (os : List Op) (answers : List LogAnswer)
    → length os < 2 ^ 31
    → IsTold (messages os (new_log answers)) (steps os (new_log answers))
new_log-IsTold os answers k =
    steps-IsTold [] os (new_log answers) (omega (arith, k)) (start, omega arith)
