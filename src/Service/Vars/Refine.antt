-- ===== src/Service/Vars/Refine.antt =====
-- src/service.c: the packed buffer refines a list of names and values.
use daemonproxy.Common.{
  ℕ, ◌+◌, not, ◌&&◌, Option, none, some, List, [], ◌∷◌, ◌++◌, Bytes, ltb, length, if◌then◌else◌,
  ◌≡◌, refl, ap, sym, ◌∙◌, arith, length-append, append_assoc, inl, inr, subst,
}
use daemonproxy.Strseg.{seg, spent}
use daemonproxy.Service.Vars.{
  Storage, has_room, Search, search, get_var, new_len, store_var, set_var,
}
use daemonproxy.Service.Vars.Entries.{
  Entry, encode, AreEntries, Absent, find_entry, lookup, assign, encode-append, lookup-Absent,
  lookup-at, assign-Absent, assign-at,
}
use daemonproxy.Service.Vars.Find.{hit, find_var-Absent, find_var-at, length-encode}
use daemonproxy.Service.Vars.Write.{store_var-none, store_var-new, store_var-old, store_var-gone}

abbrev miss : List Entry → Search
miss es = record { found = none; tail_at = 0 + length (encode es); tail = [] }

search-Absent :
    (name : Bytes) (es : List Entry)
    → AreEntries es
    → Absent name es
    → search name (encode es) ≡ miss es
search-Absent name es w a = find_var-Absent _ name 0 es w a (omega (arith, length-encode es))

search-at :
    (name : Bytes) (before : List Entry) (v : Bytes) (behind : List Entry)
    → AreEntries (before ++ ((name, v) ∷ behind))
    → Absent name before
    → search name (encode (before ++ ((name, v) ∷ behind)))
      ≡ hit name (0 + length (encode before)) v behind
search-at name before v behind w a = find_var-at _ name 0 before v behind w a (
    omega (
      arith,
      length-encode (before ++ ((name, v) ∷ behind)),
      length-append before ((name, v) ∷ behind),
    ))

-- The value of a search that found the name.
abbrev value_of : Search → Option Bytes
value_of s = elim (s.found) [ none ↦ none | some r ↦ elim r.1 [ spent ↦ some [] | seg v ↦ some v ] ]

get_var-value_of :
    (name vars : Bytes) (s : Search) → search name vars ≡ s → get_var vars name ≡ value_of s
unfolding get_var
get_var-value_of name vars s e = ap value_of e

-- `svc_get_var` finds what the list of entries holds under the name.
pub get_var-refines :
    (name : Bytes) (es : List Entry) → AreEntries es → get_var (encode es) name ≡ lookup name es
get_var-refines name es w = elim (find_entry name es) [
  | inl a ↦ get_var-value_of name _ _ (search-Absent name es w a) ∙ sym (lookup-Absent name es a)
  | inr h ↦
      let at = search-at name h.before h.val h.behind (subst AreEntries h.splits w) h.absent in
      rw h.splits
        (get_var-value_of name _ _ at ∙ sym (lookup-at name h.before h.val h.behind h.absent))
]

-- What `svc_set_var` is to do behind a search: the new length is that of the new entries, and the
-- copies give them.
abbrev Stores : ℕ → Bytes → Option Bytes → List Entry → Search → Type 0
Stores junk name value es s =
    let new = encode (assign name value es) in
    (new_len name value s.found (length (encode es)) ≡ length new)
    × (store_var junk name value s (length new) (encode es) ≡ new)

Stores-Absent :
    (junk : ℕ) (name : Bytes) (value : Option Bytes) (es : List Entry)
    → Absent name es
    → Stores junk name value es (miss es)
unfolding new_len
Stores-Absent junk name none es a =
    rw ((assign-Absent name [] es a).1) (refl, store_var-none junk name (encode es) (miss es) refl)
Stores-Absent junk name (some v) es a =
    rw ((assign-Absent name v es a).0, encode-append, zero_add)
      (omega (arith, size), store_var-new junk name v (encode es) _ (omega (arith, size)))
  where
    zero_add : 0 + length (encode es) ≡ length (encode es)
    zero_add = omega arith

    size :
        length (encode es ++ encode ((name, v) ∷ []))
        ≡ length (encode es) + (length name + 1 + length v + 1)
    size = omega (
      arith,
      length-append (encode es) (encode ((name, v) ∷ [])),
      length-append (name ++ (b'=' ∷ v)) (0 ∷ []),
      length-append name (b'=' ∷ v),
    )

-- The length of a buffer that holds the entry.
length-encode-at :
    (name : Bytes) (before : List Entry) (v : Bytes) (behind : List Entry)
    → length (encode (before ++ ((name, v) ∷ behind)))
      ≡ length (encode before) + length name + 1 + length v + 1 + length (encode behind)
length-encode-at name before v behind = omega (
  arith,
  ap length (encode-append before ((name, v) ∷ behind)),
  length-append (encode before) (encode ((name, v) ∷ behind)),
  length-append (name ++ (b'=' ∷ v)) (0 ∷ encode behind),
  length-append name (b'=' ∷ v),
)

-- The buffer cut behind the '=' of the entry.
encode-at :
    (name : Bytes) (before : List Entry) (v : Bytes) (behind : List Entry)
    → encode (before ++ ((name, v) ∷ behind))
      ≡ (encode before ++ (name ++ (b'=' ∷ []))) ++ (v ++ (0 ∷ encode behind))
encode-at name before v behind =
    encode-append before ((name, v) ∷ behind)
    ∙ ap (◌++◌ (encode before)) (
        append_assoc name (b'=' ∷ v) (0 ∷ encode behind)
        ∙ sym (append_assoc name (b'=' ∷ []) (v ++ (0 ∷ encode behind))))
    ∙ sym (append_assoc (encode before) (name ++ (b'=' ∷ [])) (v ++ (0 ∷ encode behind)))

-- The offsets of a hit, as lengths of what stands before them.
hit-value :
    (name : Bytes) (before : List Entry) (w : Bytes) (behind : List Entry)
    → let h = encode before ++ (name ++ (b'=' ∷ [])) in
      hit name (0 + length (encode before)) w behind ≡ record {
        found = some (length h, seg w);
        tail_at = length h + length w + 1;
        tail = encode behind;
      }
hit-value name before w behind = ground (
  arith,
  length-append (encode before) (name ++ (b'=' ∷ [])),
  length-append name (b'=' ∷ []),
  length-append name (b'=' ∷ w),
)

hit-entry :
    (name : Bytes) (before : List Entry) (w : Bytes) (behind : List Entry)
    → let p = encode before in
      hit name (0 + length p) w behind ≡ record {
        found = some (0 + length p + (length name + 1), seg w);
        tail_at = length p + length ((name ++ (b'=' ∷ w)) ++ (0 ∷ []));
        tail = encode behind;
      }
hit-entry name before w behind = ground (arith, length-append (name ++ (b'=' ∷ w)) (0 ∷ []))

encode-entry-at :
    (name : Bytes) (before : List Entry) (w : Bytes) (behind : List Entry)
    → encode (before ++ ((name, w) ∷ behind))
      ≡ encode before ++ (((name ++ (b'=' ∷ w)) ++ (0 ∷ [])) ++ encode behind)
encode-entry-at name before w behind =
    encode-append before ((name, w) ∷ behind)
    ∙ ap (◌++◌ (encode before)) (sym (append_assoc (name ++ (b'=' ∷ w)) (0 ∷ []) (encode behind)))

Stores-old :
    (junk : ℕ) (name v : Bytes) (before : List Entry) (w : Bytes) (behind : List Entry)
    → Absent name before
    → Stores junk name
        (some v)
        (before ++ ((name, w) ∷ behind))
        (hit name (0 + length (encode before)) w behind)
unfolding new_len
Stores-old junk name v before w behind a = rw ((assign-at name v before w behind a).0) (
  omega (arith, length-encode-at name before v behind, length-encode-at name before w behind),
  stored,
)
  where
    h : Bytes
    h = encode before ++ (name ++ (b'=' ∷ []))

    stored :
        store_var junk name
          (some v)
          (hit name (0 + length (encode before)) w behind)
          (length (encode (before ++ ((name, v) ∷ behind))))
          (encode (before ++ ((name, w) ∷ behind)))
        ≡ encode (before ++ ((name, v) ∷ behind))
    stored =
        rw
          (
            hit-value name before w behind,
            encode-at name before v behind,
            encode-at name before w behind,
          )
          (store_var-old junk name v h w (encode behind) _ (
            omega (
              arith,
              length-append h (v ++ (0 ∷ encode behind)),
              length-append v (0 ∷ encode behind),
            )))

Stores-gone :
    (junk : ℕ) (name : Bytes) (before : List Entry) (w : Bytes) (behind : List Entry)
    → Absent name before
    → Stores junk name none
        (before ++ ((name, w) ∷ behind))
        (hit name (0 + length (encode before)) w behind)
unfolding new_len
Stores-gone junk name before w behind a = rw ((assign-at name [] before w behind a).1) (
  omega (arith, size, length-encode-at name before w behind),
  rw
      (
        hit-entry name before w behind,
        encode-append before behind,
        encode-entry-at name before w behind,
        length-append (encode before) (encode behind),
      )
      (store_var-gone junk name (encode before) ((name ++ (b'=' ∷ w)) ++ (0 ∷ [])) (encode behind) _
        (omega (arith, length-append (name ++ (b'=' ∷ w)) (0 ∷ [])))),
)
  where
    size : length (encode (before ++ behind)) ≡ length (encode before) + length (encode behind)
    size = rw (encode-append before behind) (length-append (encode before) (encode behind))

Stores-found :
    (junk : ℕ) (name : Bytes) (value : Option Bytes) (before : List Entry) (w : Bytes)
    (behind : List Entry)
    → Absent name before
    → Stores junk name value
        (before ++ ((name, w) ∷ behind))
        (hit name (0 + length (encode before)) w behind)
Stores-found junk name none = Stores-gone junk name
Stores-found junk name (some v) = Stores-old junk name v

-- What the search finds, and what the copies make of it.
set_var-Stores :
    (junk : ℕ) (name : Bytes) (value : Option Bytes) (es : List Entry)
    → AreEntries es
    → Stores junk name value es (search name (encode es))
set_var-Stores junk name value es w = elim (find_entry name es) [
  | inl a ↦ rw (search-Absent name es w a) (Stores-Absent junk name value es a)
  | inr h ↦
      let at = search-at name h.before h.val h.behind (subst AreEntries h.splits w) h.absent in
      rw (h.splits, at) (Stores-found junk name value h.before h.val h.behind h.absent)
]

-- `svc_set_var` on a buffer of well-formed entries gives the buffer of the entries with the new value
-- assigned, or removed for a null value, whatever the undefined bytes are; it fails, and changes
-- nothing, exactly if the buffer has to grow and has no room.
pub set_var-refines :
    (storage : Storage) (junk : ℕ) (name : Bytes) (value : Option Bytes) (es : List Entry)
    → AreEntries es
    → let new = encode (assign name value es) in
      set_var storage junk name value (encode es) ≡ (
        if ltb (length (encode es)) (length new) && not (has_room storage (length new))
        then none
        else some new)
unfolding set_var
set_var-refines storage junk name value es w =
    let (len, stored) = set_var-Stores junk name value es w in rw (len, stored)
