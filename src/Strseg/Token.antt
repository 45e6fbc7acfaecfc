-- ===== src/Strseg/Token.antt =====
-- src/strseg.c, `strseg_tok_next` and `strseg_split_1`: what the tokens of a string are.
use daemonproxy.Common.{
  ℕ, zero, suc, ◌+◌, ◌≤◌, ◌<◌, Bool, true, false, List, [], ◌∷◌, ◌++◌, Bytes, ◌≡◌, refl, ap, sym,
  ◌∙◌, length-append, arith, ◌==◌, if◌then◌else◌, length, All, Lacks,
}
use daemonproxy.Strseg.{Seg, seg, spent, scan, tok_all, fields, split_1}

-- The tokens put together again, with a separator between each two.
abbrev pub join : ℕ → List Bytes → Bytes
join sep [] = []
join sep (t ∷ []) = t
join sep (t ∷ u ∷ ts) = t ++ (sep ∷ join sep (u ∷ ts))

abbrev pub count : ℕ → Bytes → ℕ
count c [] = 0
count c (b ∷ bs) = (if b == c then 1 else 0) + count c bs

-- What one call of `strseg_tok_next` makes of `s`.
abbrev Scanned : ℕ → Bytes → Bytes × Seg → Type 0
Scanned sep s (tok, seg rest) = (s ≡ tok ++ (sep ∷ rest)) × Lacks sep tok
Scanned sep s (tok, spent) = (s ≡ tok) × Lacks sep tok

scan-Scanned : (sep : ℕ) (s : Bytes) → Scanned sep s (scan sep s)
unfolding scan
scan-Scanned sep [] = (refl, tt)
scan-Scanned sep (c ∷ cs) = ground (arith, scan-Scanned sep cs)

pub count-Lacks : (c : ℕ) (s : Bytes) → Lacks c s → count c s ≡ 0
count-Lacks c [] h = refl
count-Lacks c (b ∷ bs) h = ground (arith, count-Lacks c bs h.1)

pub count-append : (c : ℕ) (s t : Bytes) → count c (s ++ t) ≡ count c s + count c t
count-append c [] t = omega arith
count-append c (b ∷ bs) t = omega (arith, count-append c bs t)

-- The tokens `ts` are the fields of `s`.
pub record AreFields (sep : ℕ) (s : Bytes) (ts : List Bytes) : Type 0 where
  pub joined : join sep ts ≡ s
  pub separate : All (Lacks sep) ts
  pub number : length ts ≡ suc (count sep s)

join-cons :
    (sep : ℕ) (t : Bytes) (ts : List Bytes)
    → 0 < length ts
    → join sep (t ∷ ts) ≡ t ++ (sep ∷ join sep ts)
join-cons sep t [] h = elim h [ ]
join-cons sep t (u ∷ ts) h = refl

fields_one : (sep : ℕ) (s tok : Bytes) → s ≡ tok → Lacks sep tok → AreFields sep s (tok ∷ [])
fields_one sep s tok e h = record {
  joined = sym e;
  separate = (h, tt);
  number = rw (e, count-Lacks sep tok h) (omega arith);
}

fields_more :
    (sep : ℕ) (s tok rest : Bytes) (ts : List Bytes)
    → s ≡ tok ++ (sep ∷ rest)
    → Lacks sep tok
    → AreFields sep rest ts
    → AreFields sep s (tok ∷ ts)
fields_more sep s tok rest ts e h f = record {
  joined =
      join-cons sep tok ts (omega (arith, f.number)) ∙ ap (λ r. tok ++ (sep ∷ r)) f.joined ∙ sym e;
  separate = (h, f.separate);
  number =
      rw (e, count-append sep tok (sep ∷ rest), count-Lacks sep tok h) (ground (arith, f.number));
}

tok_all-spent : (fuel sep : ℕ) → tok_all fuel sep spent ≡ []
unfolding tok_all
tok_all-spent zero sep = refl
tok_all-spent (suc fuel) sep = refl

-- One round of the loop: `later` is what the rounds after it yield for a shorter string.
tok_step :
    (fuel sep : ℕ) (s : Bytes) (r : Bytes × Seg)
    → Scanned sep s r
    → ((rest : Bytes) → length rest < length s → AreFields sep rest (tok_all fuel sep (seg rest)))
    → AreFields sep s (r.0 ∷ tok_all fuel sep r.1)
tok_step fuel sep s (tok, seg rest) x later =
    fields_more sep s tok rest _ x.0 x.1
      (later rest (omega (arith, ap length x.0, length-append tok (sep ∷ rest))))
tok_step fuel sep s (tok, spent) x later = rw tok_all-spent (fields_one sep s tok x.0 x.1)

tok_all-AreFields :
    (fuel sep : ℕ) (s : Bytes) → length s < fuel → AreFields sep s (tok_all fuel sep (seg s))
unfolding tok_all
tok_all-AreFields zero sep s h = elim h [ ]
tok_all-AreFields (suc fuel) sep s h =
    tok_step fuel sep s (scan sep s) (scan-Scanned sep s)
      (λ rest l. tok_all-AreFields fuel sep rest (omega arith))

-- The loop over `strseg_tok_next` yields the fields of the string: joined by the separator they give
-- the string back, none of them holds a separator, and there is one more than there are separators.
pub fields-AreFields : (sep : ℕ) (s : Bytes) → AreFields sep s (fields sep s)
fields-AreFields sep s = tok_all-AreFields (suc (length s)) sep s (omega arith)

pub scan-append :
    (sep : ℕ) (tok rest : Bytes) → Lacks sep tok → scan sep (tok ++ (sep ∷ rest)) ≡ (tok, seg rest)
unfolding scan
scan-append sep [] rest h = ground arith
scan-append sep (c ∷ cs) rest h = ground (arith, scan-append sep cs rest h.1)

pub scan-Lacks : (sep : ℕ) (tok : Bytes) → Lacks sep tok → scan sep tok ≡ (tok, spent)
unfolding scan
scan-Lacks sep [] h = refl
scan-Lacks sep (c ∷ cs) h = ground (arith, scan-Lacks sep cs h.1)

tok_all-join :
    (fuel sep : ℕ) (t : Bytes) (ts : List Bytes)
    → length ts < fuel
    → Lacks sep t
    → All (Lacks sep) ts
    → tok_all fuel sep (seg (join sep (t ∷ ts))) ≡ t ∷ ts
unfolding tok_all
tok_all-join zero sep t ts h l ls = elim h [ ]
tok_all-join (suc fuel) sep t [] h l ls = rw (scan-Lacks sep t l, tok_all-spent fuel sep)
tok_all-join (suc fuel) sep t (u ∷ us) h l ls =
    rw (scan-append sep t (join sep (u ∷ us)) l)
      (ap (◌∷◌ t) (tok_all-join fuel sep u us (omega arith) ls.0 ls.1))

length-join : (sep : ℕ) (t : Bytes) (ts : List Bytes) → length ts ≤ length (join sep (t ∷ ts))
length-join sep t [] = omega arith
length-join sep t (u ∷ us) =
    omega (arith, length-append t (sep ∷ join sep (u ∷ us)), length-join sep u us)

-- Splitting what was joined: any tokens without the separator, at least one, come back unchanged.
pub fields-join :
    (sep : ℕ) (t : Bytes) (ts : List Bytes)
    → Lacks sep t
    → All (Lacks sep) ts
    → fields sep (join sep (t ∷ ts)) ≡ t ∷ ts
fields-join sep t ts l ls = tok_all-join _ sep t ts (omega (arith, length-join sep t ts)) l ls

-- What `strseg_split_1` makes of `s`.
abbrev Split : ℕ → Bytes → Bool × Bytes × Bytes → Type 0
Split sep s (true, head, rest) = (s ≡ head ++ (sep ∷ rest)) × Lacks sep head
Split sep s (false, head, rest) = (head ≡ s) × (rest ≡ []) × Lacks sep s

-- `strseg_split_1` returns true exactly if the separator is there, and then cuts the string at its
-- first occurrence; else the string is unchanged and the remainder empty.
pub split_1-Split : (sep : ℕ) (s : Bytes) → Split sep s (split_1 sep s)
unfolding split_1
split_1-Split sep [] = (refl, refl, tt)
split_1-Split sep (c ∷ cs) = ground (arith, split_1-Split sep cs)
