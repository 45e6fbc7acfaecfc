-- ===== src/Service/Vars/Laws.antt =====
-- src/service.c: the laws of a service's variables, and the invariant of their buffer.
use daemonproxy.Common.{
  ℕ, ◌+◌, ◌<◌, ◌≤◌, ◌++◌, ◌⊎◌, length-append, true, false, not, ◌&&◌, Option, none, some, List, [],
  ◌∷◌, Bytes, ltb, length, if◌then◌else◌, ◌≡◌, refl, ap, sym, ◌∙◌, arith, inl, inr, Bool-cases,
  subst,
}
use daemonproxy.Strseg.Cmp.{eq_bytes, eq_bytes_iff}
use daemonproxy.Service.Vars.{Storage, has_room, get_var, set_var}
use daemonproxy.Service.Vars.Entries.{
  Entry, encode, IsEntry, AreEntries, Absent, AreDistinct, lookup, lookup-Absent, assign,
}
use daemonproxy.Service.Vars.Refine.{get_var-refines, set_var-refines}

-- A name and a value that can be stored; a null value always can.
abbrev pub IsStorable : Bytes → Option Bytes → Type 0
IsStorable name none = Unit
IsStorable name (some v) = IsEntry (name, v)

assign-AreEntries :
    (name : Bytes) (value : Option Bytes) (es : List Entry)
    → IsStorable name value
    → AreEntries es
    → AreEntries (assign name value es)
unfolding assign
assign-AreEntries name none [] s w = tt
assign-AreEntries name (some v) [] s w = (s, tt)
assign-AreEntries name none ((k, u) ∷ es) s w = elim (Bool-cases (eq_bytes k name)) [
  | inl e ↦ rw e (w.1)
  | inr e ↦ rw e (w.0, assign-AreEntries name none es s w.1)
]
assign-AreEntries name (some v) ((k, u) ∷ es) s w = elim (Bool-cases (eq_bytes k name)) [
  | inl e ↦ rw e ((w.0.0, w.0.1, s.2), w.1)
  | inr e ↦ rw e (w.0, assign-AreEntries name (some v) es s w.1)
]

-- An entry of another name stays absent.
assign-Absent :
    (k name : Bytes) (value : Option Bytes) (es : List Entry)
    → eq_bytes name k ≡ false
    → Absent k es
    → Absent k (assign name value es)
unfolding assign
assign-Absent k name none [] ne a = tt
assign-Absent k name (some v) [] ne a = (ne, tt)
assign-Absent k name none ((j, u) ∷ es) ne a = elim (Bool-cases (eq_bytes j name)) [
  | inl e ↦ rw e (a.1)
  | inr e ↦ rw e (a.0, assign-Absent k name none es ne a.1)
]
assign-Absent k name (some v) ((j, u) ∷ es) ne a = elim (Bool-cases (eq_bytes j name)) [
  | inl e ↦ rw e (a.0, a.1)
  | inr e ↦ rw e (a.0, assign-Absent k name (some v) es ne a.1)
]

eq_bytes_sym : (a b : Bytes) → eq_bytes a b ≡ eq_bytes b a
eq_bytes_sym a b = ground (arith, eq_bytes_iff a b, eq_bytes_iff b a)

assign-AreDistinct :
    (name : Bytes) (value : Option Bytes) (es : List Entry)
    → AreDistinct es
    → AreDistinct (assign name value es)
unfolding assign
assign-AreDistinct name none [] d = tt
assign-AreDistinct name (some v) [] d = (tt, tt)
assign-AreDistinct name none ((k, u) ∷ es) d = elim (Bool-cases (eq_bytes k name)) [
  | inl e ↦ rw e (d.1)
  | inr e ↦ rw e (
    assign-Absent k name none es (eq_bytes_sym name k ∙ e) d.0,
    assign-AreDistinct name none es d.1,
  )
]
assign-AreDistinct name (some v) ((k, u) ∷ es) d = elim (Bool-cases (eq_bytes k name)) [
  | inl e ↦ rw e (d.0, d.1)
  | inr e ↦ rw e (
    assign-Absent k name (some v) es (eq_bytes_sym name k ∙ e) d.0,
    assign-AreDistinct name (some v) es d.1,
  )
]

-- The entry that stands first has the name, and is gone.
lookup-removed :
    (k name j u : Bytes) (es : List Entry)
    → eq_bytes j name ≡ true
    → Absent j es
    → lookup k (assign name none ((j, u) ∷ es))
      ≡ (if eq_bytes name k then none else lookup k ((j, u) ∷ es))
unfolding lookup assign
lookup-removed k name j u es e a = elim (Bool-cases (eq_bytes name k)) [
  | inl same ↦
      let absent : lookup k es ≡ none =
        lookup-Absent k es
          (subst (λ n. Absent n es) ((eq_bytes_iff j name).0 e ∙ (eq_bytes_iff name k).0 same) a) in
      rw (e, same, absent)
  | inr other ↦
      let apart : eq_bytes j k ≡ false = rw ((eq_bytes_iff j name).0 e) other in
      rw (e, other, apart)
]

lookup-assign :
    (k name : Bytes) (value : Option Bytes) (es : List Entry)
    → AreDistinct es
    → lookup k (assign name value es) ≡ (if eq_bytes name k then value else lookup k es)
unfolding lookup assign
lookup-assign k name none [] d = ground arith
lookup-assign k name (some v) [] d = refl
lookup-assign k name none ((j, u) ∷ es) d = elim (Bool-cases (eq_bytes j name)) [
  | inl e ↦ lookup-removed k name j u es e d.0
  | inr e ↦ rw e (
      ground (
        arith,
        lookup-assign k name none es d.1,
        eq_bytes_iff name k,
        eq_bytes_iff j k,
        eq_bytes_iff j name,
      ))
]
lookup-assign k name (some v) ((j, u) ∷ es) d = ground (
  arith,
  lookup-assign k name (some v) es d.1,
  eq_bytes_iff j name,
  eq_bytes_iff name k,
  eq_bytes_iff j k,
)

-- The bytes that a buffer needs which has `old` for a name, and is to have `v`: a new entry is the name,
-- a '=', the value and a NUL.
abbrev pub Needs : Bytes → Bytes → Option Bytes → Bytes → ℕ → Type 0
Needs vars name none v size = size ≡ length vars + (length name + length v + 2)
Needs vars name (some u) v size = size + length u ≡ length vars + length v

-- The length of an entry in the buffer.
entry-length :
    (k v s : Bytes) → length ((k ++ (b'=' ∷ v)) ++ (0 ∷ s)) ≡ length k + length v + 2 + length s
entry-length k v s =
    omega (arith, length-append (k ++ (b'=' ∷ v)) (0 ∷ s), length-append k (b'=' ∷ v))

removed-length :
    (name : Bytes) (es : List Entry) → length (encode (assign name none es)) ≤ length (encode es)
unfolding assign
removed-length name [] = omega arith
removed-length name ((k, u) ∷ es) = elim (Bool-cases (eq_bytes k name)) [
  | inl e ↦ rw e (omega (arith, entry-length k u (encode es)))
  | inr e ↦ rw e (
      omega (
        arith,
        entry-length k u (encode es),
        entry-length k u (encode (assign name none es)),
        removed-length name es,
      ))
]

-- Entries in front of the one of the name need their own bytes.
Needs-entry :
    (s t name : Bytes) (old : Option Bytes) (v : Bytes) (n : ℕ)
    → length t ≡ n + length s
    → (size : ℕ) → Needs s name old v size
    → Needs t name old v (n + size)
Needs-entry s t name none v n h size q = omega (arith, h, q)
Needs-entry s t name (some u) v n h size q = omega (arith, h, q)

assigned-Needs :
    (name v : Bytes) (es : List Entry)
    → Needs (encode es) name (lookup name es) v (length (encode (assign name (some v) es)))
unfolding assign lookup
assigned-Needs name v [] = omega (arith, entry-length name v [])
assigned-Needs name v ((k, u) ∷ es) = elim (Bool-cases (eq_bytes k name)) [
  | inl e ↦ rw e (omega (arith, entry-length k u (encode es), entry-length k v (encode es)))
  | inr e ↦ rw e (
      subst (Needs (encode ((k, u) ∷ es)) name (lookup name es) v)
        (sym (entry-length k u (encode (assign name (some v) es))))
        (Needs-entry (encode es) (encode ((k, u) ∷ es)) name (lookup name es) v
          (length k + length u + 2) (entry-length k u (encode es)) _ (assigned-Needs name v es)))
]

-- The buffer is empty, or NUL-terminated name=value strings, with no name twice.
pub record IsVars (vars : Bytes) : Type 0 where
  pub entries : List Entry
  pub encoded : vars ≡ encode entries
  pub well_formed : AreEntries entries
  pub distinct : AreDistinct entries

-- A new service has no variables.
pub empty-IsVars : IsVars []
empty-IsVars = record { entries = []; encoded = refl; well_formed = tt; distinct = tt }

-- What holds of a result of `svc_set_var`: a failure is that a value needs more bytes than the buffer has,
-- and there is no room for them; and a new buffer is well formed, has room for all that it has grown,
-- and answers for the name with the value, and for every other name as before.
pub data Sets (storage : Storage) (name : Bytes) (value : Option Bytes) (vars : Bytes)
    : Option Bytes → Type 0 where
  full :
      (v : Bytes) (size : ℕ)
      → value ≡ some v
      → Needs vars name (get_var vars name) v size
      → length vars < size
      → has_room storage size ≡ false
      → Sets storage name value vars none
  set :
      {new : Bytes}
      → IsVars new
      → (length new ≤ length vars) ⊎ (has_room storage (length new) ≡ true)
      → ((k : Bytes) → get_var new k ≡ (if eq_bytes name k then value else get_var vars k))
      → Sets storage name value vars (some new)

-- The variables behave as a map: a `svc_set_var` that succeeds keeps the buffer well formed, is seen
-- by `svc_get_var` under its name, a null value as absence, and changes no other name. It fails only
-- where the value needs more bytes than the buffer has, the old value's bytes reused, and there is no room
-- for that many. The buffer is well formed before, and a name
-- with a value has no `=`, and neither of them a NUL.
pub set_var-Sets :
    (storage : Storage) (junk : ℕ) (name : Bytes) (value : Option Bytes) {vars : Bytes}
    → IsStorable name value
    → IsVars vars
    → Sets storage name value vars (set_var storage junk name value vars)
set_var-Sets storage junk name value {vars} s i =
    let new = encode (assign name value i.entries) in
    rw (i.encoded, set_var-refines storage junk name value i.entries i.well_formed)
      (elim (Bool-cases
        (ltb (length (encode i.entries)) (length new) && not (has_room storage (length new)))) [
          | inl fails ↦ rw fails (refused value refl (ground arith) (ground arith))
          | inr done ↦ rw done (set assigned (in_room done) seen)
        ])
  where
    grown : ℕ
    grown = length (encode (assign name value i.entries))

    refused :
        (w : Option Bytes)
        → value ≡ w
        → length (encode i.entries) < grown
        → has_room storage grown ≡ false
        → Sets storage name value (encode i.entries) none
    refused none e less no_room = absurd (
        omega (
          arith,
          less,
          ap (λ w. length (encode (assign name w i.entries))) e,
          removed-length name i.entries,
        ))
    refused (some v) e less no_room =
        full v grown e
          (subst (λ o. Needs (encode i.entries) name o v grown)
            (sym (get_var-refines name i.entries i.well_formed))
            (subst
              (λ w.
                Needs (encode i.entries) name (lookup name i.entries) v
                  (length (encode (assign name w i.entries))))
              (sym e) (assigned-Needs name v i.entries)))
          less no_room

    in_room :
        ltb (length (encode i.entries)) grown && not (has_room storage grown) ≡ false
        → (grown ≤ length (encode i.entries)) ⊎ (has_room storage grown ≡ true)
    in_room done = elim (Bool-cases (has_room storage grown)) [
      | inl e ↦ inr e
      | inr e ↦ inl (ground (arith, done, e))
    ]

    assigned : IsVars (encode (assign name value i.entries))
    assigned = record {
      entries = assign name value i.entries;
      encoded = refl;
      well_formed = assign-AreEntries name value i.entries s i.well_formed;
      distinct = assign-AreDistinct name value i.entries i.distinct;
    }

    seen :
        (k : Bytes)
        → get_var (encode (assign name value i.entries)) k
          ≡ (if eq_bytes name k then value else get_var (encode i.entries) k)
    seen k =
        get_var-refines k _ assigned.well_formed
        ∙ lookup-assign k name value i.entries i.distinct
        ∙ ap (λ l. if eq_bytes name k then value else l)
            (sym (get_var-refines k i.entries i.well_formed))
