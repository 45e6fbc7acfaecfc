-- ===== src/Service/Vars/Entries.antt =====
-- The buffer of src/service.c's variables as the list of names and values that it holds.
use daemonproxy.Common.{
  false, Option, none, some, List, [], ◌∷◌, ◌++◌, Bytes, if◌then◌else◌, ◌≡◌, refl, ap, sym, All,
  Lacks, append_assoc, Bool-cases, inl, inr, ◌⊎◌,
}
use daemonproxy.Strseg.Cmp.{eq_bytes, eq_bytes_iff, eq_bytes_refl}

abbrev pub Entry : Type 0
Entry = Bytes × Bytes

abbrev pub encode_entry : Entry → Bytes
encode_entry (k, v) = k ++ (b'=' ∷ v)

abbrev pub encode : List Entry → Bytes
encode [] = []
encode (e ∷ es) = encode_entry e ++ (0 ∷ encode es)

-- No name holds a '=' or a NUL, no value a NUL.
abbrev pub IsEntry : Entry → Type 0
IsEntry (k, v) = Lacks b'=' k × Lacks 0 k × Lacks 0 v

abbrev pub AreEntries : List Entry → Type 0
AreEntries = All IsEntry

-- What the variables mean: the first entry of a name counts.
unfoldable pub lookup : Bytes → List Entry → Option Bytes
lookup name [] = none
lookup name ((k, v) ∷ es) = if eq_bytes k name then some v else lookup name es

-- A new value stands in place of the old one, a new name at the end; `none` removes.
unfoldable pub assign : Bytes → Option Bytes → List Entry → List Entry
assign name none [] = []
assign name (some v) [] = (name, v) ∷ []
assign name none ((k, w) ∷ es) = if eq_bytes k name then es else (k, w) ∷ assign name none es
assign name (some v) ((k, w) ∷ es) =
    if eq_bytes k name then (k, v) ∷ es else (k, w) ∷ assign name (some v) es

-- No entry has the name.
abbrev pub Absent : Bytes → List Entry → Type 0
Absent name = All (λ e. eq_bytes e.0 name ≡ false)

-- No two entries share a name.
abbrev pub AreDistinct : List Entry → Type 0
AreDistinct [] = Unit
AreDistinct ((k, v) ∷ es) = Absent k es × AreDistinct es

-- The first entry of the name, with what stands before and behind it.
pub record At (name : Bytes) (es : List Entry) : Type 0 where
  pub before : List Entry
  pub val : Bytes
  pub behind : List Entry
  pub splits : es ≡ before ++ ((name, val) ∷ behind)
  pub absent : Absent name before

pub find_entry : (name : Bytes) (es : List Entry) → Absent name es ⊎ At name es
find_entry name [] = inl tt
find_entry name ((k, v) ∷ es) = elim (Bool-cases (eq_bytes k name)) [
  | inl e ↦ inr (record {
    before = [];
    val = v;
    behind = es;
    splits = rw ((eq_bytes_iff k name).0 e) refl;
    absent = tt;
  })
  | inr ne ↦ elim (find_entry name es) [
    | inl a ↦ inl (ne, a)
    | inr h ↦ inr (record {
      before = (k, v) ∷ h.before;
      val = h.val;
      behind = h.behind;
      splits = ap (◌∷◌ (k, v)) h.splits;
      absent = (ne, h.absent);
    })
  ]
]

pub encode-append : (es fs : List Entry) → encode (es ++ fs) ≡ encode es ++ encode fs
encode-append [] fs = refl
encode-append (e ∷ es) fs =
    rw (encode-append es fs) (sym (append_assoc (encode_entry e) (0 ∷ encode es) (encode fs)))

pub lookup-Absent : (name : Bytes) (es : List Entry) → Absent name es → lookup name es ≡ none
unfolding lookup
lookup-Absent name [] h = refl
lookup-Absent name ((k, v) ∷ es) h = rw (h.0) (lookup-Absent name es h.1)

pub assign-Absent :
    (name v : Bytes) (es : List Entry)
    → Absent name es
    → (assign name (some v) es ≡ es ++ ((name, v) ∷ [])) × (assign name none es ≡ es)
unfolding assign
assign-Absent name v [] h = (refl, refl)
assign-Absent name v ((k, w) ∷ es) h =
    let (a, b) = assign-Absent name v es h.1 in (rw (h.0, a), rw (h.0, b))

pub lookup-at :
    (name : Bytes) (before : List Entry) (v : Bytes) (behind : List Entry)
    → Absent name before
    → lookup name (before ++ ((name, v) ∷ behind)) ≡ some v
unfolding lookup
lookup-at name [] v behind h = rw (eq_bytes_refl name)
lookup-at name ((k, w) ∷ es) v behind h = rw (h.0) (lookup-at name es v behind h.1)

pub assign-at :
    (name v : Bytes) (before : List Entry) (w : Bytes) (behind : List Entry)
    → Absent name before
    → (assign name (some v) (before ++ ((name, w) ∷ behind)) ≡ before ++ ((name, v) ∷ behind))
      × (assign name none (before ++ ((name, w) ∷ behind)) ≡ before ++ behind)
unfolding assign
assign-at name v [] w behind h = (rw (eq_bytes_refl name), rw (eq_bytes_refl name))
assign-at name v ((k, u) ∷ es) w behind h =
    let (a, b) = assign-at name v es w behind h.1 in (rw (h.0, a), rw (h.0, b))
