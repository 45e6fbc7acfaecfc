-- ===== src/Controller/Receive/Stream.antt =====
-- src/controller.c: the commands that a stream of bytes stands for, however it is cut into reads.
use daemonproxy.Common.{
  ℕ, ◌≤◌, ◌<◌, Bool, true, false, ◌||◌, Option, some, none, List, [], ◌∷◌, ◌++◌, Bytes, length, leb,
  ◌==◌, if◌then◌else◌, ◌≡◌, refl, ap, sym, ◌∙◌, arith, append-nil, append_assoc, length-append,
  by_test,
}
use daemonproxy.Controller.Receive.{Command, command_of, cut_line, recv_buf_size}

-- Each newline ends a command. One whose line does not fit into the buffer with its newline, or that
-- was being skipped before, is too long. `acc` is the line so far.
unfoldable pub commands : Bool → Bytes → Bytes → List Command
commands skip acc [] = []
commands skip acc (c ∷ cs) =
    let done = commands false [] cs in
    let more = commands skip (acc ++ (c ∷ [])) cs in
    if c == b'\n' then command_of (skip || leb recv_buf_size (length acc)) acc ∷ done else more

-- What `cut_line` finds.
pub data Cut (buf : Bytes) : Option (Bytes × Bytes) → Type 0 where
  no_line :
      ((skip : Bool) (acc s : Bytes) → commands skip acc (buf ++ s) ≡ commands skip (acc ++ buf) s)
      → Cut buf none
  one_line :
      {l rest : Bytes}
      → length l < length buf
      → length rest < length buf
      → ((skip : Bool) (acc s : Bytes)
          → commands skip acc (buf ++ s)
            ≡ command_of (skip || leb recv_buf_size (length (acc ++ l))) (acc ++ l)
              ∷ commands false [] (rest ++ s))
      → Cut buf (some (l, rest))

Cut-step :
    (c : ℕ) (cs : Bytes) (r : Option (Bytes × Bytes))
    → (c == b'\n') ≡ false
    → Cut cs r
    → Cut (c ∷ cs) (elim r [ none ↦ none | some r ↦ some (c ∷ r.0, r.1) ])
unfolding commands
Cut-step c cs none n (no_line e) = no_line (λ skip acc s.
    rw n (e skip (acc ++ (c ∷ [])) s ∙ ap (λ a. commands skip a s) (append_assoc acc (c ∷ []) cs)))
Cut-step c cs (some (l, rest)) n (one_line h k e) =
    one_line (omega (arith, h)) (omega (arith, k)) (λ skip acc s. rw n (
      e skip (acc ++ (c ∷ [])) s
      ∙ ap
          (λ a. command_of (skip || leb recv_buf_size (length a)) a ∷ commands false [] (rest ++ s))
          (append_assoc acc (c ∷ []) l)))

pub cut_line-Cut : (buf : Bytes) → Cut buf (cut_line buf)
unfolding cut_line commands
cut_line-Cut [] = no_line (λ skip acc s. ap (λ a. commands skip a s) (sym (append-nil acc)))
cut_line-Cut (c ∷ cs) =
    by_test (Cut (c ∷ cs)) (c == b'\n') _ _
      (λ e. one_line (omega arith) (omega arith) (λ skip acc s. rw (e, append-nil acc)))
      (λ n. Cut-step c cs (cut_line cs) n (cut_line-Cut cs))

-- A line that is being skipped counts by its first byte.
pub skip-first : (a : ℕ) (xs ys s : Bytes) → commands true (a ∷ xs) s ≡ commands true (a ∷ ys) s
unfolding commands
skip-first a xs ys [] = refl
skip-first a xs ys (c ∷ cs) = rw (skip-first a (xs ++ (c ∷ [])) (ys ++ (c ∷ [])) cs)

-- A line that does not fit is skipped.
pub skip-full :
    (skip : Bool) (acc s : Bytes)
    → recv_buf_size ≤ length acc
    → commands skip acc s ≡ commands true acc s
unfolding commands
skip-full skip acc [] h = refl
skip-full skip acc (c ∷ cs) h =
    let full : (skip || leb recv_buf_size (length acc)) ≡ true = ground (arith, h) in
    rw (full, skip-full skip (acc ++ (c ∷ [])) cs (omega (arith, h, length-append acc (c ∷ []))))
