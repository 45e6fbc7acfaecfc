-- ===== src/Service/Vars/Write.antt =====
-- src/service.c, the copies of `svc_set_var`: what the buffer holds when they are done.
use daemonproxy.Common.{
  ℕ, zero, suc, ◌+◌, ◌-◌, ◌≤◌, ◌<◌, false, none, some, List, [], ◌∷◌, ◌++◌, Bytes, take, drop,
  replicate, ltb, ◌==◌, length, ◌≡◌, refl, ap, sym, ◌∙◌, arith, length-append, take-append,
  take-length, drop-append, append_assoc, append-nil, length-take, take-append-drop, Bool-cases,
  ==_iff, inl, inr,
}
use daemonproxy.Strseg.{Seg, seg}
use daemonproxy.Service.Vars.{Search, write_at, resize, put_value, grow, shift, store_var}

-- A buffer of another size: what was there, and junk behind it where it grew.
take-add {ℓ} :
    {A : Type ℓ} (xs ys : List A) (n : ℕ) → take (length xs + n) (xs ++ ys) ≡ xs ++ take n ys
take-add [] ys n = ap (λ k. take k ys) (omega arith)
take-add (x ∷ xs) ys n =
    let e : suc (length xs) + n ≡ suc (length xs + n) = omega arith in
    rw e (ap (◌∷◌ x) (take-add xs ys n))

drop-nil {ℓ} : (A : Type ℓ) (n : ℕ) → drop {A = A} n [] ≡ []
drop-nil A zero = refl
drop-nil A (suc n) = refl

drop-drop {ℓ} : {A : Type ℓ} (m n : ℕ) (xs : List A) → drop m (drop n xs) ≡ drop (n + m) xs
drop-drop m zero xs = let e : m ≡ zero + m = omega arith in ap (λ k. drop k xs) e
drop-drop {A} m (suc n) [] = rw (drop-nil A m, drop-nil A (suc n + m))
drop-drop m (suc n) (x ∷ xs) =
    let e : suc n + m ≡ suc (n + m) = omega arith in rw e (drop-drop m n xs)

pub write_at-append :
    (h x y : Bytes) (at : ℕ)
    → at ≡ length h
    → write_at at x (h ++ y) ≡ (h ++ x) ++ drop (length x) y
write_at-append h x y at e =
    rw (e, take-append h y, ← drop-drop (length x) (length h) (h ++ y), drop-append h y)
      (sym (append_assoc h x (drop (length x) y)))

-- A block copied some bytes behind `h`.
write_at-behind :
    (h y t : Bytes) (n at : ℕ)
    → at ≡ length h + n
    → (z : Bytes) × (write_at at t (h ++ y) ≡ h ++ (take n y ++ (t ++ z)))
write_at-behind h y t n at e =
    (drop (at + length t) (h ++ y), rw (e, take-add h y n) (append_assoc h (take n y) _))

take-append_eq {ℓ} : {A : Type ℓ} (xs ys : List A) (n : ℕ) → n ≡ length xs → take n (xs ++ ys) ≡ xs
take-append_eq xs ys n e = rw e (take-append xs ys)

drop-append_eq {ℓ} : {A : Type ℓ} (xs ys : List A) (n : ℕ) → n ≡ length xs → drop n (xs ++ ys) ≡ ys
drop-append_eq xs ys n e = rw e (drop-append xs ys)

-- The value and its NUL over what stands behind `h`.
put_value-append :
    (h x v : Bytes) (at : ℕ)
    → at ≡ length h
    → put_value v (at, h ++ x) ≡ ((h ++ v) ++ (0 ∷ [])) ++ drop (suc (length v)) x
put_value-append h x v at e =
    rw
      (
        write_at-append h v x at e,
        write_at-append (h ++ v) (0 ∷ []) (drop (length v) x) (at + length v)
            (omega (arith, length-append h v)),
        drop-drop 1 (length v) x,
      )
      (ap (λ k. ((h ++ v) ++ (0 ∷ [])) ++ drop k x) one_more)
  where
    one_more : length v + 1 ≡ suc (length v)
    one_more = omega arith

-- The value's place is made: `gap` of its length and one more, and the tail behind it.
pub put_value-gap :
    (h gap t z v : Bytes) (at size : ℕ)
    → at ≡ length h
    → length gap ≡ suc (length v)
    → size ≡ length h + length v + 1 + length t
    → take size (put_value v (at, h ++ (gap ++ (t ++ z)))) ≡ h ++ (v ++ (0 ∷ t))
put_value-gap h gap t z v at size ea eg es =
    rw
      (
        put_value-append h (gap ++ (t ++ z)) v at ea,
        drop-append_eq gap (t ++ z) (suc (length v)) (sym eg),
      )
      (rw (← append_assoc ((h ++ v) ++ (0 ∷ [])) t z) (
        take-append_eq _ z size (
          omega (
            arith,
            length-append ((h ++ v) ++ (0 ∷ [])) t,
            length-append (h ++ v) (0 ∷ []),
            length-append h v,
          ))
        ∙ append_assoc _ (0 ∷ []) t
        ∙ append_assoc h v (0 ∷ t)))

-- The value and its NUL, in a buffer that ends with them.
put_value-end :
    (h x v : Bytes) (at size : ℕ)
    → at ≡ length h
    → size ≡ length h + length v + 1
    → take size (put_value v (at, h ++ x)) ≡ h ++ (v ++ (0 ∷ []))
put_value-end h x v at size ea es = rw (put_value-append h x v at ea) (
    take-append_eq ((h ++ v) ++ (0 ∷ [])) _ size
      (omega (arith, length-append (h ++ v) (0 ∷ []), length-append h v))
    ∙ append_assoc h v (0 ∷ []))

-- A buffer that has grown begins with what it held.
resize-append :
    (junk size : ℕ) (buf : Bytes)
    → length buf ≤ size
    → resize junk size buf ≡ buf ++ take (size - length buf) (replicate size junk)
resize-append junk size buf h =
    let e : size ≡ length buf + (size - length buf) = omega arith in
    ap (λ k. take k (buf ++ replicate size junk)) e
    ∙ take-add buf (replicate size junk) (size - length buf)

length-replicate : (n a : ℕ) → length (replicate n a) ≡ n
length-replicate zero a = refl
length-replicate (suc n) a = ap suc (length-replicate n a)

grow_more :
    (junk size : ℕ) (vars : Bytes)
    → (j : Bytes) × (grow junk size vars ≡ vars ++ j) × (size ≤ length vars + length j)
unfolding grow
grow_more junk size vars = elim (Bool-cases (ltb (length vars) size)) [
  | inl more ↦ (
    take (size - length vars) (replicate size junk),
    rw more (resize-append junk size vars (ground arith)),
    omega
        (arith, length-take (size - length vars) (replicate size junk), length-replicate size junk),
  )
  | inr less ↦ ([], rw less (sym (append-nil vars)), ground arith)
]

-- A new name: it goes behind the end, with '=', the value and a NUL.
pub store_var-new :
    (junk : ℕ) (name v vars : Bytes) (size : ℕ)
    → size ≡ length vars + (length name + 1 + length v + 1)
    → store_var junk name
        (some v)
        (record { found = none; tail_at = length vars; tail = [] })
        size
        vars
      ≡ vars ++ ((name ++ (b'=' ∷ v)) ++ (0 ∷ []))
store_var-new junk name v vars size es =
    let (j, e, l) = grow_more junk size vars in
    let named = write_at-append vars name j (length vars) refl in
    let equals =
      write_at-append (vars ++ name) (b'=' ∷ []) (drop (length name) j) (length vars + length name)
        (omega (arith, length-append vars name)) in
    unfold store_var shift in
    rw (e, named, equals)
      (put_value-end ((vars ++ name) ++ (b'=' ∷ [])) _ v (length vars + length name + 1) size
          (omega (arith, joined)) (omega (arith, joined))
        ∙ append_assoc (vars ++ name) (b'=' ∷ []) (v ++ (0 ∷ []))
        ∙ append_assoc vars name (b'=' ∷ (v ++ (0 ∷ [])))
        ∙ ap (◌++◌ vars) (sym (append_assoc name (b'=' ∷ v) (0 ∷ []))))
  where
    joined : length ((vars ++ name) ++ (b'=' ∷ [])) ≡ length vars + length name + 1
    joined = omega (arith, length-append (vars ++ name) (b'=' ∷ []), length-append vars name)

-- The tail is moved so that a value of `n` bytes and its NUL fit in front of it.
shift-gap :
    (h w t j : Bytes) (n size : ℕ)
    → size ≡ length h + n + 1 + length t
    → size ≤ length h + length w + 1 + length t + length j
    → (gap : Bytes) × (z : Bytes) × (shift
          (length h + length w + 1)
          (length h + length w + 1 + length t)
          size
          t
          (h ++ ((w ++ (0 ∷ t)) ++ j))
        ≡ h ++ (gap ++ (t ++ z)))
      × (length gap ≡ suc n)
unfolding shift
shift-gap h w [] j n size es l =
    let y = (w ++ (0 ∷ [])) ++ j in
    (
      take (suc n) y,
      drop (suc n) y,
      rw take-append-drop,
      omega
          (arith, length-take (suc n) y, length-append (w ++ (0 ∷ [])) j, length-append w (0 ∷ [])),
    )
shift-gap h w (c ∷ cs) j n size es l =
    elim (Bool-cases (size == length h + length w + 1 + length (c ∷ cs))) [
      | inl e ↦ (
        w ++ (0 ∷ []),
        j,
        rw e (
            ap (◌++◌ h)
              (append_assoc w (0 ∷ c ∷ cs) j ∙ sym (append_assoc w (0 ∷ []) (c ∷ cs ++ j)))),
        omega (arith, length-append w (0 ∷ []), (==_iff size _).0 e),
      )
      | inr ne ↦
          let y = (w ++ (0 ∷ c ∷ cs)) ++ j in
          let at = length h + length w + 1 + size - (length h + length w + 1 + length (c ∷ cs)) in
          let (z, e) = write_at-behind h y (c ∷ cs) (suc n) at (omega arith) in
          (
            take (suc n) y,
            z,
            rw ne e,
            omega (
              arith,
              length-take (suc n) y,
              length-append (w ++ (0 ∷ c ∷ cs)) j,
              length-append w (0 ∷ c ∷ cs),
            ),
          )
    ]

-- A name that is there: the value is exchanged, and the tail follows it.
pub store_var-old :
    (junk : ℕ) (name v h w t : Bytes) (size : ℕ)
    → size ≡ length h + length v + 1 + length t
    → store_var junk name
        (some v)
        (record { found = some (length h, seg w); tail_at = length h + length w + 1; tail = t })
        size
        (h ++ (w ++ (0 ∷ t)))
      ≡ h ++ (v ++ (0 ∷ t))
unfolding store_var
store_var-old junk name v h w t size es =
    let (j, e, l) = grow_more junk size (h ++ (w ++ (0 ∷ t))) in
    let (gap, z, m, g) = shift-gap h w t j (length v) size es (omega (arith, len)) in
    rw (e, len, append_assoc h (w ++ (0 ∷ t)) j, m)
      (put_value-gap h gap t z v (length h) size refl g es)
  where
    len : length (h ++ (w ++ (0 ∷ t))) ≡ length h + length w + 1 + length t
    len = omega (arith, length-append h (w ++ (0 ∷ t)), length-append w (0 ∷ t))

grow-le : (junk size : ℕ) (vars : Bytes) → size ≤ length vars → grow junk size vars ≡ vars
unfolding grow
grow-le junk size vars h = ground arith

-- The tail moves from behind `x` to its front.
shift-gone :
    (p x t : Bytes)
    → 0 < length x
    → (z : Bytes) × (shift
          (length p + length x)
          (length p + length x + length t)
          (length p + length t)
          t
          (p ++ (x ++ t))
        ≡ (p ++ t) ++ z)
unfolding shift
shift-gone p x [] h = (x, rw (append-nil x, append-nil p))
shift-gone p x (c ∷ cs) h =
    let at =
      length p
      + length x
      + (length p + length (c ∷ cs))
      - (length p + length x + length (c ∷ cs)) in
    (
      drop (length (c ∷ cs)) (x ++ (c ∷ cs)),
      rw test (write_at-append p (c ∷ cs) (x ++ (c ∷ cs)) at (omega arith)),
    )
  where
    test : (length p + length (c ∷ cs) == length p + length x + length (c ∷ cs)) ≡ false
    test = ground arith

-- No value: the tail moves over the entry `x`.
pub store_var-gone :
    (junk : ℕ) (name p x t : Bytes) (old : ℕ × Seg)
    → 0 < length x
    → store_var junk name none
        (record { found = some old; tail_at = length p + length x; tail = t })
        (length p + length t)
        (p ++ (x ++ t))
      ≡ p ++ t
unfolding store_var
store_var-gone junk name p x t old h =
    let (z, e) = shift-gone p x t h in
    rw (grow-le junk (length p + length t) (p ++ (x ++ t)) (omega (arith, len)), len, e)
      (take-append_eq (p ++ t) z _ (omega (arith, length-append p t)))
  where
    len : length (p ++ (x ++ t)) ≡ length p + length x + length t
    len = omega (arith, length-append p (x ++ t), length-append x t)

-- No value and no such name: nothing changes.
pub store_var-none :
    (junk : ℕ) (name vars : Bytes) (s : Search)
    → s.tail ≡ []
    → store_var junk name none s (length vars) vars ≡ vars
unfolding store_var shift
store_var-none junk name vars s h =
    rw (h, grow-le junk (length vars) vars (omega arith)) (take-length vars)
