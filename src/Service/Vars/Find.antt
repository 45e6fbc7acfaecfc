-- ===== src/Service/Vars/Find.antt =====
-- src/service.c: where the search loop of `svc_get_var` and `svc_set_var` stops.
use daemonproxy.Common.{
  ℕ, zero, suc, ◌+◌, ◌≤◌, ◌<◌, none, some, List, [], ◌∷◌, ◌++◌, Bytes, length, if◌then◌else◌, ◌≡◌,
  ◌≢◌, refl, ap, ◌∙◌, arith, Lacks, All-append, length-append,
}
use daemonproxy.Strseg.{Seg, seg, spent, scan, tok_next}
use daemonproxy.Strseg.Cmp.{eq_bytes, eq_bytes_refl}
use daemonproxy.Strseg.Token.{scan-append}
use daemonproxy.Service.Vars.{Search, match_var, find_var}
use daemonproxy.Service.Vars.Entries.{Entry, encode_entry, encode, IsEntry, AreEntries, Absent}

-- The offsets of the value and of the tail, for an entry that stands at `pos`.
abbrev pub hit : Bytes → ℕ → Bytes → List Entry → Search
hit name pos v behind = record {
  found = some (pos + (length name + 1), seg v);
  tail_at = pos + (length (encode_entry (name, v)) + 1);
  tail = encode behind;
}

entry-Lacks : (k v : Bytes) → IsEntry (k, v) → Lacks 0 (encode_entry (k, v))
entry-Lacks k v h = All-append (λ b. b ≢ 0) k (b'=' ∷ v) h.1 ((omega arith), h.2)

-- What a round makes of the token and the rest that `scan` found.
abbrev round : ℕ → Bytes → ℕ → Bytes × Seg → Search
round fuel name pos r = elim (match_var name r.0) [
  | some kv ↦ record {
    found = some (pos + (length kv.0 + 1), kv.1);
    tail_at = pos + (length r.0 + 1);
    tail = elim r.1 [ spent ↦ [] | seg t ↦ t ];
  }
  | none ↦ find_var fuel name (pos + (length r.0 + 1)) r.1
]

find_var-round :
    (fuel : ℕ) (name : Bytes) (pos : ℕ) (s : Bytes)
    → 0 < length s
    → find_var (suc fuel) name pos (seg s) ≡ round fuel name pos (scan 0 s)
unfolding find_var
find_var-round fuel name pos [] h = elim h [ ]
find_var-round fuel name pos (c ∷ cs) h = refl

match_var-entry :
    (name k v : Bytes)
    → Lacks b'=' k
    → match_var name (encode_entry (k, v)) ≡ (if eq_bytes k name then some (k, seg v) else none)
unfolding tok_next
match_var-entry name k v h = rw (scan-append b'=' k v h)

find_var-entry :
    (fuel : ℕ) (name : Bytes) (pos : ℕ) (k v : Bytes) (es : List Entry)
    → IsEntry (k, v)
    → find_var (suc fuel) name pos (seg (encode ((k, v) ∷ es))) ≡ (
        if eq_bytes k name
        then hit k pos v es
        else find_var fuel name (pos + (length (encode_entry (k, v)) + 1)) (seg (encode es)))
find_var-entry fuel name pos k v es h =
    find_var-round fuel name pos _
      (omega (arith, length-append (encode_entry (k, v)) (0 ∷ encode es)))
    ∙ ap (round fuel name pos) (scan-append 0 (encode_entry (k, v)) (encode es) (entry-Lacks k v h))
    ∙ ground (arith, match_var-entry name k v h.0)

pub find_var-Absent :
    (fuel : ℕ) (name : Bytes) (pos : ℕ) (es : List Entry)
    → AreEntries es
    → Absent name es
    → length es < fuel
    → find_var fuel name pos (seg (encode es))
      ≡ record { found = none; tail_at = pos + length (encode es); tail = [] }
find_var-Absent zero name pos es w a h = elim h [ ]
find_var-Absent (suc fuel) name pos [] w a h = unfold find_var in ground arith
find_var-Absent (suc fuel) name pos ((k, v) ∷ es) w a h =
    find_var-entry fuel name pos k v es w.0
    ∙ rw a.0 (
        find_var-Absent fuel name _ es w.1 a.1 (omega arith)
        ∙ ap (λ p. record { found = none; tail_at = p; tail = [] })
            (omega (arith, length-append (encode_entry (k, v)) (0 ∷ encode es))))

pub find_var-at :
    (fuel : ℕ) (name : Bytes) (pos : ℕ) (before : List Entry) (v : Bytes) (behind : List Entry)
    → AreEntries (before ++ ((name, v) ∷ behind))
    → Absent name before
    → length before < fuel
    → find_var fuel name pos (seg (encode (before ++ ((name, v) ∷ behind))))
      ≡ hit name (pos + length (encode before)) v behind
find_var-at zero name pos before v behind w a h = elim h [ ]
find_var-at (suc fuel) name pos [] v behind w a h =
    find_var-entry fuel name pos name v behind w.0
    ∙ rw (eq_bytes_refl name) (ap (λ p. hit name p v behind) (omega arith))
find_var-at (suc fuel) name pos ((k, u) ∷ es) v behind w a h =
    find_var-entry fuel name pos k u _ w.0
    ∙ rw a.0 (
        find_var-at fuel name _ es v behind w.1 a.1 (omega arith)
        ∙ ap (λ p. hit name p v behind)
            (omega (arith, length-append (encode_entry (k, u)) (0 ∷ encode es))))

-- The buffer has a byte for each entry at least, so the fuel of `search` is enough.
pub length-encode : (es : List Entry) → length es ≤ length (encode es)
length-encode [] = omega arith
length-encode (e ∷ es) =
    omega (arith, length-append (encode_entry e) (0 ∷ encode es), length-encode es)
