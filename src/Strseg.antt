-- ===== src/Strseg.antt =====
-- src/strseg.c: the length-terminated strings and their scanners.
-- A `strseg_t` is its bytes; `spent` is the one whose length `strseg_tok_next` has set to -1. A char
-- is an unsigned number, so `strseg_cmp` orders bytes as a platform with unsigned char does.
pub mod Cmp
pub mod Token
pub mod Number
mod Examples
use daemonproxy.Common.{
  ℕ, zero, suc, ◌+◌, ◌-◌, ◌*◌, ◌/◌, Bool, true, false, not, ◌&&◌, ◌||◌, Option, none, some, List,
  [], ◌∷◌, Bytes, length, drop, ltb, leb, ◌==◌, if◌then◌else◌, add64, mul64, neg64, half_word,
  is_negative,
}

pub data Seg : Type 0 where
  seg : Bytes → Seg
  spent : Seg

-- The sign of what `strseg_cmp` returns.
pub data Order : Type 0 where
  less same greater : Order

-- The loop, and the comparison of the lengths when one string runs out.
unfoldable pub cmp_bytes : Bytes → Bytes → Order
cmp_bytes [] [] = same
cmp_bytes [] (y ∷ ys) = less
cmp_bytes (x ∷ xs) [] = greater
cmp_bytes (x ∷ xs) (y ∷ ys) =
    if not (x == y) then (if ltb x y then less else greater) else cmp_bytes xs ys

unfoldable pub cmp : Seg → Seg → Order
unfolding cmp_bytes
cmp (seg a) (seg b) = cmp_bytes a b
cmp (seg a) spent = greater
cmp spent (seg b) = less
cmp spent spent = same

-- The bytes before the first separator, and what is left of the input behind it.
unfoldable pub scan : ℕ → Bytes → Bytes × Seg
scan sep [] = ([], spent)
scan sep (c ∷ cs) =
    let (tok, rest) = scan sep cs in if c == sep then ([], seg cs) else (c ∷ tok, rest)

-- `none` is the `false` of `strseg_tok_next`; else the token, and the string that is left.
unfoldable pub tok_next : ℕ → Seg → Option (Bytes × Seg)
unfolding scan
tok_next sep spent = none
tok_next sep (seg s) = some (scan sep s)

-- `while (strseg_tok_next(&s, sep, &tok))`, with the tokens in order; fuel bounds the rounds.
unfoldable pub tok_all : ℕ → ℕ → Seg → List Bytes
unfolding tok_next
tok_all zero sep s = []
tok_all (suc fuel) sep s = elim (tok_next sep s) [ none ↦ [] | some r ↦ r.0 ∷ tok_all fuel sep r.1 ]

-- What the loop yields for a string: it makes at most one round for each byte, and one more.
abbrev pub fields : ℕ → Bytes → List Bytes
fields sep s = tok_all (suc (length s)) sep (seg s)

-- The result, the string as truncated, and the remainder.
unfoldable pub split_1 : ℕ → Bytes → Bool × Bytes × Bytes
split_1 sep [] = (false, [], [])
split_1 sep (c ∷ cs) =
    let (found, head, rest) = split_1 sep cs in
    if c == sep then (true, [], cs) else (found, c ∷ head, rest)

abbrev pub is_digit : ℕ → Bool
is_digit c = leb b'0' c && leb c b'9'

-- The digits from here on: how many, the accumulated int64_t, and the rest.
unfoldable pub atoi_loop : ℕ → ℕ → Bytes → ℕ × ℕ × Bytes
atoi_loop n accum [] = (n, accum, [])
atoi_loop n accum (c ∷ cs) =
    let rest = atoi_loop (n + 1) (add64 (mul64 accum 10) (c - b'0')) cs in
    if is_digit c then rest else (n, accum, c ∷ cs)

-- The value as an int64_t pattern, and the string behind it.
abbrev atoi_finish : Bool → ℕ × ℕ × Bytes → Option (ℕ × Bytes)
atoi_finish minus (n, accum, rest) =
    if n == 0 then none else some (if minus then neg64 accum else accum, rest)

unfoldable pub atoi : Bytes → Option (ℕ × Bytes)
unfolding atoi_loop
atoi [] = atoi_finish false (atoi_loop 0 0 [])
atoi (c ∷ cs) =
    if c == b'-'
    then atoi_finish true (atoi_loop 0 0 cs)
    else atoi_finish false (atoi_loop 0 0 (c ∷ cs))

-- `suffix_len` and `factor`
unfoldable pub size_suffix : Bytes → ℕ × ℕ
size_suffix (a ∷ b ∷ []) = if b == b'B' then (2, 1000) else (1, 1024)
size_suffix (a ∷ b ∷ c ∷ cs) =
    if b == b'i' && c == b'B' then (3, 1024) else if b == b'B' then (2, 1000) else (1, 1024)
size_suffix _ = (1, 1024)

-- The switch, which falls through from 'g' to 'm' to 'k'; `none` is its default case.
unfoldable pub size_mul : ℕ → ℕ → Option ℕ
size_mul c factor =
    if c == b't' || c == b'T'
    then some (half_word - 1)
    else if c == b'g' || c == b'G'
    then some (factor * factor * factor)
    else if c == b'm' || c == b'M'
    then some (factor * factor)
    else if c == b'k' || c == b'K'
    then some factor
    else if c == b'b' || c == b'B'
    then some 1
    else none

-- The result, `*val`, and the string. The test of an overflow computes `*val * mul`; where that does
-- not fit an int64_t, the result is what the compiler makes of it, which C leaves undefined.
pub data Size : Type 0 where
  size : Bool → ℕ → Bytes → Size
  overflows : Size

abbrev pub size_check : ℕ → ℕ → Bytes → Size
size_check val mul rest =
    if is_negative val
    then size false (neg64 1) rest
    else if not (ltb (val * mul) half_word)
    then overflows
    else if not (val * mul / mul == val)
    then size false 1 rest
    else size true (val * mul) rest

unfoldable pub scale_size : ℕ → Bytes → Size
scale_size val [] = size true val []
scale_size val (c ∷ cs) =
    let (suffix_len, factor) = size_suffix (c ∷ cs) in
    elim (size_mul c factor) [
      | none ↦ size true val (c ∷ cs)
      | some mul ↦ size_check val mul (drop suffix_len (c ∷ cs))
    ]

-- `strseg_parse_size`; `none` where no integer was read.
unfoldable pub parse_size : Bytes → Option Size
parse_size s = elim (atoi s) [ none ↦ none | some r ↦ some (scale_size r.0 r.1) ]
