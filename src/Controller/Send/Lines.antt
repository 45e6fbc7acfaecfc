-- ===== src/Controller/Send/Lines.antt =====
-- src/controller.c: buffers that end with a line's end, or are empty.
use daemonproxy.Common.{ℕ, zero, suc, [], ◌∷◌, ◌++◌, Bytes, length, drop, ◌≡◌, refl, arith}
use daemonproxy.Controller.Send.{eol_len, overflow_line}

abbrev pub AreLines : Bytes → Type 0
AreLines s = eol_len s ≡ length s

tail-AreLines : (c : ℕ) (cs : Bytes) → AreLines (c ∷ cs) → AreLines cs
unfolding eol_len
tail-AreLines c cs h = ground arith

cons-AreLines : (c d : ℕ) (cs : Bytes) → AreLines (d ∷ cs) → AreLines (c ∷ d ∷ cs)
unfolding eol_len
cons-AreLines c d cs h = ground arith

pub drop-AreLines : (n : ℕ) (s : Bytes) → AreLines s → AreLines (drop n s)
unfolding eol_len
drop-AreLines zero s h = h
drop-AreLines (suc n) [] h = refl
drop-AreLines (suc n) (c ∷ cs) h = drop-AreLines n cs (tail-AreLines c cs h)

pub append-AreLines : (a b : Bytes) → AreLines a → AreLines b → AreLines (a ++ b)
unfolding eol_len
append-AreLines [] b ha hb = hb
append-AreLines (c ∷ []) [] ha hb = ha
append-AreLines (c ∷ []) (d ∷ ds) ha hb = cons-AreLines c d ds hb
append-AreLines (c ∷ d ∷ cs) b ha hb =
    cons-AreLines c d (cs ++ b) (append-AreLines (d ∷ cs) b (tail-AreLines c (d ∷ cs) ha) hb)

pub overflow-AreLines : AreLines overflow_line
unfolding eol_len
overflow-AreLines = refl
