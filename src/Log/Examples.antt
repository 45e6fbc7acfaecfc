-- ===== src/Log/Examples.antt =====
-- src/log.c: the theorems at concrete logs, and tests.
use daemonproxy.Common.{
  ℕ, zero, suc, true, Option, none, List, [], ◌∷◌, Bytes, codes, replicate, digits, ◌≡◌, refl,
  arith,
}
use daemonproxy.Log.{
  LogAnswer, takes, fails, Log, Wake, new_log, log_write, log_run, log_flush, write_out, tell_lost,
  attach_to, retry,
}
use daemonproxy.Log.Level.{level_name, log_level_error}
use daemonproxy.Log.Told.{Op, logs, runs, resets, steps, messages, IsTold, new_log-IsTold}
use daemonproxy.Log.Drain.{RunDrained, AllTake, log_run-drains}
use daemonproxy.Log.Silent.{long-silences}

abbrev answers : List LogAnswer
answers = takes 5 ∷ fails ∷ takes 20 ∷ []

written_in_parts :
    (log_write log_level_error (codes "no") (new_log answers)).1.buffer ≡ codes ": no\n"
unfolding log_write log_flush write_out tell_lost level_name
written_in_parts = refl

abbrev wake : Wake
wake = record { now = 70; next = 900; fd_write = []; fd_ready_write = λ fd. true }

abbrev no_names : Bytes → Option ℕ
no_names name = none

abbrev ops : List Op
ops =
    logs log_level_error (codes "no")
    ∷ logs log_level_error (replicate 1020 b'x')
    ∷ runs no_names wake
    ∷ resets
    ∷ []

new_log-IsTold_example : IsTold (messages ops (new_log answers)) (steps ops (new_log answers))
new_log-IsTold_example = new_log-IsTold ops answers (omega arith)

-- Two messages lost behind a line that waits
abbrev waiting : Log
waiting = record (new_log (replicate 60 (takes 3))) {
  buffer = codes "info: up\n";
  msg_lost = 2;
  log_blocked = true;
}

told_lost :
    (log_run no_names wake waiting).1.written ≡ codes "info: up\nwarning: lost 2 log messages\n"
unfolding log_run attach_to retry log_flush write_out tell_lost digits
told_lost = refl

all_take : (n : ℕ) → AllTake (replicate n (takes 3))
all_take zero = tt
all_take (suc n) = (tt, all_take n)

log_run-drains_example : RunDrained waiting wake (log_run no_names wake waiting)
unfolding digits
log_run-drains_example =
    log_run-drains no_names 2 wake waiting refl refl refl (all_take 60) (omega arith)
      (λ e. ground arith)

long-silences_example :
    (steps (logs log_level_error (replicate 1020 b'x') ∷ ops) (new_log answers)).written ≡ []
unfolding level_name
long-silences_example =
    long-silences log_level_error (replicate 1020 b'x') ops (new_log answers) refl refl
      (omega arith) (omega arith)
