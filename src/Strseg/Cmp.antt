-- ===== src/Strseg/Cmp.antt =====
-- src/strseg.c, `strseg_cmp`: the order that the name indexes are sorted by.
use daemonproxy.Common.{Bool, true, false, [], ◌∷◌, Bytes, ◌≡◌, ◌≢◌, refl, ◌↔◌, ap, arith}
use daemonproxy.Strseg.{Seg, seg, spent, Order, less, same, greater, cmp_bytes, cmp}

-- The order with the sides exchanged.
abbrev pub flip : Order → Order
flip less = greater
flip same = same
flip greater = less

pub cmp_bytes_refl : (a : Bytes) → cmp_bytes a a ≡ same
unfolding cmp_bytes
cmp_bytes_refl [] = refl
cmp_bytes_refl (x ∷ xs) = ground (arith, cmp_bytes_refl xs)

pub cmp_bytes-same : (a b : Bytes) → cmp_bytes a b ≡ same → a ≡ b
unfolding cmp_bytes
cmp_bytes-same [] [] h = refl
cmp_bytes-same [] (y ∷ ys) h = cc
cmp_bytes-same (x ∷ xs) [] h = cc
cmp_bytes-same (x ∷ xs) (y ∷ ys) h = ground (arith, cmp_bytes-same xs ys)

pub cmp_bytes-flip : (a b : Bytes) → cmp_bytes b a ≡ flip (cmp_bytes a b)
unfolding cmp_bytes
cmp_bytes-flip [] [] = refl
cmp_bytes-flip [] (y ∷ ys) = refl
cmp_bytes-flip (x ∷ xs) [] = refl
cmp_bytes-flip (x ∷ xs) (y ∷ ys) = ground (arith, cmp_bytes-flip xs ys)

pub cmp_bytes_trans :
    (a b c : Bytes) → cmp_bytes a b ≡ less → cmp_bytes b c ≡ less → cmp_bytes a c ≡ less
unfolding cmp_bytes
cmp_bytes_trans [] [] c h k = cc
cmp_bytes_trans [] (y ∷ ys) [] h k = cc
cmp_bytes_trans [] (y ∷ ys) (z ∷ zs) h k = refl
cmp_bytes_trans (x ∷ xs) [] c h k = cc
cmp_bytes_trans (x ∷ xs) (y ∷ ys) [] h k = cc
cmp_bytes_trans (x ∷ xs) (y ∷ ys) (z ∷ zs) h k = ground (arith, cmp_bytes_trans xs ys zs)

cmp-same_iff : (a b : Seg) → (cmp a b ≡ same) ↔ (a ≡ b)
unfolding cmp
cmp-same_iff (seg a) (seg b) =
    (λ h. ap seg (cmp_bytes-same a b h), λ e. ground (arith, cmp_bytes_refl a))
cmp-same_iff (seg a) spent = (λ h. cc, λ e. cc)
cmp-same_iff spent (seg b) = (λ h. cc, λ e. cc)
cmp-same_iff spent spent = (λ h. refl, λ e. refl)

cmp-flip : (a b : Seg) → cmp b a ≡ flip (cmp a b)
unfolding cmp
cmp-flip (seg a) (seg b) = cmp_bytes-flip a b
cmp-flip (seg a) spent = refl
cmp-flip spent (seg b) = refl
cmp-flip spent spent = refl

-- "Less" by `strseg_cmp` is transitive.
pub cmp_trans : (a b c : Seg) → cmp a b ≡ less → cmp b c ≡ less → cmp a c ≡ less
unfolding cmp
cmp_trans (seg a) (seg b) (seg c) h k = cmp_bytes_trans a b c h k
cmp_trans (seg a) (seg b) spent h k = cc
cmp_trans (seg a) spent c h k = cc
cmp_trans spent b (seg c) h k = refl
cmp_trans spent (seg b) spent h k = cc
cmp_trans spent spent spent h k = cc

-- `strseg_cmp` gives 0 exactly on equal strings, and changes sign when its arguments are exchanged,
-- for all strings and those of length -1. So of two strings that differ one is less.
pub cmp_order : (a b : Seg) → ((cmp a b ≡ same) ↔ (a ≡ b)) × (cmp b a ≡ flip (cmp a b))
cmp_order a b = (cmp-same_iff a b, cmp-flip a b)

-- `0 == strseg_cmp(a, b)`
abbrev pub is_same : Order → Bool
is_same less = false
is_same same = true
is_same greater = false

unfoldable pub eq_bytes : Bytes → Bytes → Bool
unfolding cmp
eq_bytes a b = is_same (cmp (seg a) (seg b))

pub eq_bytes_iff : (a b : Bytes) → (eq_bytes a b ≡ true) ↔ (a ≡ b)
unfolding eq_bytes
eq_bytes_iff a b =
    (λ h. cmp_bytes-same a b (ground arith), λ e. rw e (ground (arith, cmp_bytes_refl b)))

pub eq_bytes_refl : (a : Bytes) → eq_bytes a a ≡ true
eq_bytes_refl a = (eq_bytes_iff a a).1 refl

pub eq_bytes_ne : (a b : Bytes) → a ≢ b → eq_bytes a b ≡ false
eq_bytes_ne a b ne = ground (arith, eq_bytes_iff a b)
