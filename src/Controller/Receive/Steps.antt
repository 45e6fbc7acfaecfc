-- ===== src/Controller/Receive/Steps.antt =====
-- src/controller.c: one round of the input, by what it finds.
use daemonproxy.Common.{
  ℕ, zero, suc, ◌≤◌, ◌<◌, Bool, true, false, not, ◌||◌, none, List, [], ◌∷◌, ◌++◌, Bytes, length,
  take, drop, by_test, leb, ◌==◌, if◌then◌else◌, ◌≡◌, refl, ap, sym, ◌∙◌, arith,
}
use daemonproxy.Controller.Receive.{
  ReadAnswer, Inp, recv_buf_size, blocked, skips, read_from, read_more, cut_line, next_open,
  next_ended, next_command, Command, after_next, serve, serve_rounds, stream_of, polled, next_poll,
}
use daemonproxy.Controller.Receive.Stream.{commands, Cut, no_line, skip-first, skip-full}

-- What can still be read.
abbrev pub to_read : Bool → List ReadAnswer → Bytes
to_read true reads = stream_of reads
to_read false reads = []

-- What the rest of the input stands for.
abbrev pub expected : Inp → List Command
expected inp = commands inp.recv_overflow [] (inp.recv_buf ++ to_read inp.recv_open inp.reads)

-- The buffer fits, and a last line without a newline is to be ignored.
pub record IsInp (inp : Inp) : Type 0 where
  pub fits : length inp.recv_buf ≤ recv_buf_size
  pub ignores : inp.append_final_newline ≡ false

abbrev pub Serves : ℕ → Type 0
Serves fuel =
    (polls : List Bool) (mid : Inp)
    → IsInp mid
    → serve_rounds mid < fuel
    → serve fuel polls mid ≡ expected mid

pub first-skipped : (c : ℕ) (cs : Bytes) → cut_line (c ∷ cs) ≡ none → (c == b'\n') ≡ false
unfolding cut_line
first-skipped c cs h = ground (arith, h)

pub commands-byte :
    (skip : Bool) (c : ℕ) (s : Bytes)
    → (c == b'\n') ≡ false
    → commands skip [] (c ∷ s) ≡ commands skip (c ∷ []) s
unfolding commands
commands-byte skip c s n = rw n refl

-- A full buffer with no line in it is cut down to its first byte.
pub skipped :
    (skip : Bool) (buf s : Bytes)
    → cut_line buf ≡ none
    → Cut buf none
    → recv_buf_size ≤ length buf
    → commands true [] (take 1 buf ++ s) ≡ commands skip [] (buf ++ s)
skipped skip [] s n k h = absurd (omega (arith, h))
skipped skip (c ∷ cs) s n (no_line e) h =
    commands-byte true c s (first-skipped c cs n)
    ∙ skip-first c [] cs s
    ∙ sym (skip-full skip (c ∷ cs) s h)
    ∙ sym (e skip [] s)

pub next-open :
    (inp : Inp) → inp.recv_open ≡ true → next_command inp ≡ next_open (cut_line inp.recv_buf) inp
unfolding next_command
next-open inp o =
    ap
      (λ b.
        if b
        then next_open (cut_line inp.recv_buf) inp
        else next_ended inp.recv_buf (cut_line inp.recv_buf) inp)
      o

pub read_more-eq :
    (inp : Inp)
    → inp.recv_open ≡ true
    → leb recv_buf_size (length inp.recv_buf) ≡ false
    → read_more inp ≡ read_from inp.reads inp
unfolding read_more
read_more-eq inp o f =
    let test : (not inp.recv_open || leb recv_buf_size (length inp.recv_buf)) ≡ false =
      ground (arith, o, f) in
    ap (λ b. if b then (false, inp) else read_from inp.reads inp) test

-- A round of the state machine that waits, behind which the main loop reads.
pub reads :
    (again : Inp → List Command) (inp : Inp)
    → inp.recv_open ≡ true
    → cut_line inp.recv_buf ≡ none
    → leb recv_buf_size (length inp.recv_buf) ≡ false
    → after_next again (next_command inp) inp ≡ again (read_from inp.reads inp).1
reads again inp o c f =
    ap (λ n. after_next again n inp)
      (next-open inp o
        ∙ ap (λ r. next_open r inp) c
        ∙ ap
            (λ b.
              if b
              then skips (record inp { recv_overflow = true; recv_buf = take 1 inp.recv_buf })
              else blocked)
            f)
    ∙ ap (λ r. again r.1) (read_more-eq inp o f)

-- To read where nothing arrives changes nothing.
pub polled-idle : (b : Bool) (inp : Inp) → inp.reads ≡ [] → polled b inp ≡ inp
unfolding read_more
polled-idle false inp r = refl
polled-idle true inp r =
    by_test (λ (q : Bool × Inp). q.1 ≡ inp)
      (not inp.recv_open || leb recv_buf_size (length inp.recv_buf)) _ _ (λ e. refl)
      (λ e. ap (λ q. (read_from q inp).1) r)

-- An open connection to which nothing arrives has no line to wait for.
pub idle :
    (fuel : ℕ) (polls : List Bool) (inp : Inp)
    → inp.recv_open ≡ true
    → inp.reads ≡ []
    → cut_line inp.recv_buf ≡ none
    → leb recv_buf_size (length inp.recv_buf) ≡ false
    → serve fuel polls inp ≡ []
unfolding serve
idle zero polls inp o r c f = refl
idle (suc fuel) polls inp o r c f =
    ap (λ new. after_next (serve fuel (drop 1 polls)) (next_command new) new)
      (polled-idle (next_poll polls) inp r)
    ∙ reads (serve fuel (drop 1 polls)) inp o c f
    ∙ ap (λ q. serve fuel (drop 1 polls) (read_from q inp).1) r
    ∙ idle fuel (drop 1 polls) inp o r c f

-- A stream without a newline stands for no command.
pub no_commands :
    (inp : Inp) → Cut inp.recv_buf none → commands inp.recv_overflow [] (inp.recv_buf ++ []) ≡ []
unfolding commands
no_commands inp (no_line e) = e inp.recv_overflow [] []
