-- ===== src/Strseg/Number.antt =====
-- src/strseg.c, `strseg_atoi` and `strseg_parse_size`: the numbers that they read.
use native.Mathlib.Nat.{mul-div_cancel}
use daemonproxy.Common.{
  ℕ, ◌+◌, ◌-◌, ◌*◌, ◌%◌, ◌^◌, ◌&&◌, Option, ◌<◌, true, false, none, some, [], ◌∷◌, ◌++◌, Bytes, ◌≡◌,
  refl, ap, arith, ◌∙◌, length, All, drop, ltb, ◌==◌, if◌then◌else◌, word, add64, mul64, neg64,
  half_word, ==_iff, Bool-cases, inl, inr, ◌⊎◌,
}
use daemonproxy.Strseg.{
  is_digit, atoi_loop, atoi, size_suffix, size_mul, size, overflows, size_check, scale_size,
  parse_size,
}

-- The number that decimal digits stand for, behind digits worth `acc`.
abbrev pub value : ℕ → Bytes → ℕ
value acc [] = acc
value acc (d ∷ ds) = value (acc * 10 + (d - b'0')) ds

abbrev pub AllDigits : Bytes → Type 0
AllDigits = All (λ d. is_digit d ≡ true)

-- No digit stands first.
abbrev pub EndsNumber : Bytes → Type 0
EndsNumber [] = Unit
EndsNumber (c ∷ cs) = is_digit c ≡ false

atoi_loop_stop :
    (n acc : ℕ) (rest : Bytes) → EndsNumber rest → atoi_loop n acc rest ≡ (n, acc, rest)
unfolding atoi_loop
atoi_loop_stop n acc [] h = refl
atoi_loop_stop n acc (c ∷ cs) h = rw h

step_mod : (acc d : ℕ) → add64 (mul64 (acc % word) 10) d ≡ (acc * 10 + d) % word
step_mod acc d = omega arith

atoi_loop-value :
    (n acc : ℕ) (ds rest : Bytes)
    → AllDigits ds
    → EndsNumber rest
    → atoi_loop n (acc % word) (ds ++ rest) ≡ (n + length ds, value acc ds % word, rest)
unfolding atoi_loop
atoi_loop-value n acc [] rest h e = rw (atoi_loop_stop n (acc % word) rest e) (ground arith)
atoi_loop-value n acc (d ∷ ds) rest h e =
    rw (h.0, step_mod acc (d - b'0'), atoi_loop-value (n + 1) (acc * 10 + (d - b'0')) ds rest h.1 e)
      (ground arith)

-- A digit is no minus sign, so the number has none.
atoi-digits :
    (d : ℕ) (ds rest : Bytes)
    → AllDigits (d ∷ ds)
    → EndsNumber rest
    → atoi (d ∷ ds ++ rest) ≡ some (value 0 (d ∷ ds) % word, rest)
unfolding atoi
atoi-digits d ds rest h e = ground (arith, atoi_loop-value 0 0 (d ∷ ds) rest h e)

atoi-minus :
    (d : ℕ) (ds rest : Bytes)
    → AllDigits (d ∷ ds)
    → EndsNumber rest
    → atoi (b'-' ∷ d ∷ ds ++ rest) ≡ some (neg64 (value 0 (d ∷ ds) % word), rest)
unfolding atoi
atoi-minus d ds rest h e = ground (arith, atoi_loop-value 0 0 (d ∷ ds) rest h e)

atoi-none : (rest : Bytes) → EndsNumber rest → (atoi rest ≡ none) ⊎ (rest ≡ b'-' ∷ drop 1 rest)
unfolding atoi atoi_loop
atoi-none [] e = inl refl
atoi-none (c ∷ cs) e = elim (Bool-cases (c == b'-')) [
  | inl minus ↦ inr (ap (λ k. k ∷ cs) (omega (arith, (==_iff c b'-').0 minus)))
  | inr plain ↦ inl (rw (plain, e) refl)
]

atoi_minus_none : (rest : Bytes) → EndsNumber rest → atoi (b'-' ∷ rest) ≡ none
unfolding atoi
atoi_minus_none rest e = rw (atoi_loop_stop 0 0 rest e) refl

-- Of digits `strseg_atoi` reads their number modulo 2^64, behind a '-' its negation, and leaves the
-- rest, which begins with no digit. Of such a rest alone, if it begins with no '-' either, and of a
-- '-' with the rest behind it, it reads no number.
pub atoi-value :
    (d : ℕ) (ds rest : Bytes)
    → AllDigits (d ∷ ds)
    → EndsNumber rest
    → (atoi (d ∷ ds ++ rest) ≡ some (value 0 (d ∷ ds) % word, rest))
      × (atoi (b'-' ∷ d ∷ ds ++ rest) ≡ some (neg64 (value 0 (d ∷ ds) % word), rest))
      × ((atoi rest ≡ none) ⊎ (rest ≡ b'-' ∷ drop 1 rest))
      × (atoi (b'-' ∷ rest) ≡ none)
atoi-value d ds rest h e =
    (atoi-digits d ds rest h e, atoi-minus d ds rest h e, atoi-none rest e, atoi_minus_none rest e)

-- The letters of the suffixes that multiply, with their powers of 1024 or 1000.
pub data IsLetter : ℕ → ℕ → Type 0 where
  b_letter : IsLetter b'b' 0
  b_capital : IsLetter b'B' 0
  k_letter : IsLetter b'k' 1
  k_capital : IsLetter b'K' 1
  m_letter : IsLetter b'm' 2
  m_capital : IsLetter b'M' 2
  g_letter : IsLetter b'g' 3
  g_capital : IsLetter b'G' 3

-- What stands behind a letter on its own: no "B", and no "iB".
pub data Alone : Bytes → Type 0 where
  ends_there : Alone []
  one_behind : (c : ℕ) → (c == b'B') ≡ false → Alone (c ∷ [])
  more_behind :
      (c d : ℕ) (rest : Bytes)
      → (c == b'B') ≡ false
      → (c == b'i' && d == b'B') ≡ false
      → Alone (c ∷ d ∷ rest)

-- A suffix, its multiplier, and what stands behind it.
pub data IsSuffix : Bytes → ℕ → Bytes → Type 0 where
  letter :
      {c n : ℕ} {rest : Bytes} → IsLetter c n → Alone rest → IsSuffix (c ∷ rest) (1024 ^ n) rest
  si : {c n : ℕ} {rest : Bytes} → IsLetter c n → IsSuffix (c ∷ b'B' ∷ rest) (1000 ^ n) rest
  binary :
      {c n : ℕ} {rest : Bytes} → IsLetter c n → IsSuffix (c ∷ b'i' ∷ b'B' ∷ rest) (1024 ^ n) rest

letter-binary : (c n : ℕ) → IsLetter c n → size_mul c 1024 ≡ some (1024 ^ n)
unfolding size_mul
letter-binary c n b_letter = refl
letter-binary c n b_capital = refl
letter-binary c n k_letter = refl
letter-binary c n k_capital = refl
letter-binary c n m_letter = refl
letter-binary c n m_capital = refl
letter-binary c n g_letter = refl
letter-binary c n g_capital = refl

letter-si : (c n : ℕ) → IsLetter c n → size_mul c 1000 ≡ some (1000 ^ n)
unfolding size_mul
letter-si c n b_letter = refl
letter-si c n b_capital = refl
letter-si c n k_letter = refl
letter-si c n k_capital = refl
letter-si c n m_letter = refl
letter-si c n m_capital = refl
letter-si c n g_letter = refl
letter-si c n g_capital = refl

letter-pos : (c n : ℕ) → IsLetter c n → (0 < 1024 ^ n) × (0 < 1000 ^ n)
letter-pos c n b_letter = (omega arith, omega arith)
letter-pos c n b_capital = (omega arith, omega arith)
letter-pos c n k_letter = (omega arith, omega arith)
letter-pos c n k_capital = (omega arith, omega arith)
letter-pos c n m_letter = (omega arith, omega arith)
letter-pos c n m_capital = (omega arith, omega arith)
letter-pos c n g_letter = (omega arith, omega arith)
letter-pos c n g_capital = (omega arith, omega arith)

letter-not_digit : (c n : ℕ) → IsLetter c n → is_digit c ≡ false
letter-not_digit c n b_letter = refl
letter-not_digit c n b_capital = refl
letter-not_digit c n k_letter = refl
letter-not_digit c n k_capital = refl
letter-not_digit c n m_letter = refl
letter-not_digit c n m_capital = refl
letter-not_digit c n g_letter = refl
letter-not_digit c n g_capital = refl

suffix-EndsNumber : {s rest : Bytes} {mul : ℕ} → IsSuffix s mul rest → EndsNumber s
suffix-EndsNumber (letter {c} {n} l a) = letter-not_digit c n l
suffix-EndsNumber (si {c} {n} l) = letter-not_digit c n l
suffix-EndsNumber (binary {c} {n} l) = letter-not_digit c n l

suffix-pos : {s rest : Bytes} {mul : ℕ} → IsSuffix s mul rest → 0 < mul
suffix-pos (letter {c} {n} l a) = (letter-pos c n l).0
suffix-pos (si {c} {n} l) = (letter-pos c n l).1
suffix-pos (binary {c} {n} l) = (letter-pos c n l).0

Alone-suffix : (c : ℕ) (rest : Bytes) → Alone rest → size_suffix (c ∷ rest) ≡ (1, 1024)
unfolding size_suffix
Alone-suffix c [] a = refl
Alone-suffix c (d ∷ []) (one_behind _ e) = rw e refl
Alone-suffix c (d ∷ x ∷ rest) (more_behind _ _ _ e f) = rw (e, f) refl

si-suffix : (c : ℕ) (rest : Bytes) → size_suffix (c ∷ b'B' ∷ rest) ≡ (2, 1000)
unfolding size_suffix
si-suffix c [] = refl
si-suffix c (x ∷ rest) = refl

by_suffix-scale :
    (val c : ℕ) (cs : Bytes) (len : ℕ) {factor mul : ℕ}
    → size_suffix (c ∷ cs) ≡ (len, factor)
    → size_mul c factor ≡ some mul
    → scale_size val (c ∷ cs) ≡ size_check val mul (drop len (c ∷ cs))
unfolding scale_size
by_suffix-scale val c cs len e m =
    ap
      (λ (p : ℕ × ℕ). elim (size_mul c p.1) [
        | none ↦ size true val (c ∷ cs)
        | some mul ↦ size_check val mul (drop p.0 (c ∷ cs))
      ])
      e
    ∙ ap
        (λ (r : Option ℕ). elim r [
          | none ↦ size true val (c ∷ cs)
          | some mul ↦ size_check val mul (drop len (c ∷ cs))
        ])
        m

-- The scale by a suffix is the check of its multiplier.
suffix-scale :
    (val : ℕ) {s rest : Bytes} {mul : ℕ}
    → IsSuffix s mul rest
    → scale_size val s ≡ size_check val mul rest
unfolding size_suffix
suffix-scale val (letter {c} {n} {rest} l a) =
    by_suffix-scale val c rest 1 (Alone-suffix c rest a) (letter-binary c n l)
suffix-scale val (si {c} {n} {rest} l) =
    by_suffix-scale val c (b'B' ∷ rest) 2 (si-suffix c rest) (letter-si c n l)
suffix-scale val (binary {c} {n} {rest} l) =
    by_suffix-scale val c (b'i' ∷ b'B' ∷ rest) 3 refl (letter-binary c n l)

size_check-exact :
    (val mul : ℕ) (rest : Bytes)
    → val < half_word
    → 0 < mul
    → size_check val mul rest
      ≡ (if ltb (val * mul) half_word then size true (val * mul) rest else overflows)
size_check-exact val mul rest hv hm = ground (arith, hv, mul-div_cancel val hm)

-- A size is digits, a letter b, k, m or g, small or capital, and "B" or "iB" behind the letter or not. Of
-- digits whose number is below 2^63, and such a suffix, `strseg_parse_size` reads the number times the
-- power of 1024 for the letter, or of 1000 in front of a "B", and leaves what stands behind the suffix.
-- That is where the product is below 2^63: else its test of an overflow overflows itself.
pub parse_size-scales :
    (d : ℕ) (ds s rest : Bytes) (mul : ℕ)
    → AllDigits (d ∷ ds)
    → value 0 (d ∷ ds) < half_word
    → IsSuffix s mul rest
    → let product = value 0 (d ∷ ds) * mul in
      parse_size (d ∷ ds ++ s)
      ≡ some (if ltb product half_word then size true product rest else overflows)
unfolding parse_size
parse_size-scales d ds s rest mul h hv suffix =
    let whole : value 0 (d ∷ ds) % word ≡ value 0 (d ∷ ds) = omega arith in
    rw (atoi-digits d ds s h (suffix-EndsNumber suffix), whole, parse_size)
      (ap some (
        suffix-scale (value 0 (d ∷ ds)) suffix
        ∙ size_check-exact (value 0 (d ∷ ds)) mul rest hv (suffix-pos suffix)))
