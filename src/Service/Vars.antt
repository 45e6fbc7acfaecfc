-- ===== src/Service/Vars.antt =====
-- src/service.c, `svc_get_var` and `svc_set_var`: the variables of a service, packed as name=value
-- strings with a NUL behind each in one buffer. The buffer is the list of its `vars.len` bytes, and a
-- pointer into it is an offset.
pub mod Entries
pub mod Find
pub mod Write
pub mod Refine
pub mod Laws
use daemonproxy.Common.{
  ℕ, zero, suc, ◌+◌, ◌-◌, ◌≤◌, Bool, true, false, not, ◌&&◌, Option, none, some, [], ◌∷◌, ◌++◌,
  Bytes, length, take, drop, replicate, ltb, leb, ◌==◌, if◌then◌else◌,
}
use daemonproxy.Strseg.{Seg, seg, spent, tok_next}
use daemonproxy.Strseg.Cmp.{eq_bytes}

-- Where the buffer lives: in the service pool, with so many bytes behind the name, or on the heap,
-- where `realloc` succeeds for the sizes that pass the test.
pub data Storage : Type 0 where
  pool : ℕ → Storage
  heap : (ℕ → Bool) → Storage

-- Whether the buffer can grow to `size` bytes.
abbrev pub has_room : Storage → ℕ → Bool
has_room (pool buf_size) size = leb size buf_size
has_room (heap realloc) size = realloc size

-- Where the loop stopped: the offset and the text of the value found, and those of the tail.
pub record Search : Type 0 where
  pub found : Option (ℕ × Seg)
  pub tail_at : ℕ
  pub tail : Bytes

-- The test of the loop's body on one name=value string: the value, where its name is `name`.
abbrev pub match_var : Bytes → Bytes → Option (Bytes × Seg)
match_var name entry = elim (tok_next b'=' (seg entry)) [
  | none ↦ none
  | some r ↦ if eq_bytes r.0 name then some r else none
]

-- `while (tail.len > 0 && strseg_tok_next(&tail, '\0', &oldval))`, one round for each unit of fuel.
unfoldable pub find_var : ℕ → Bytes → ℕ → Seg → Search
unfolding tok_next eq_bytes
find_var zero name pos tail = record { found = none; tail_at = pos; tail = [] }
find_var (suc fuel) name pos spent = record { found = none; tail_at = pos; tail = [] }
find_var (suc fuel) name pos (seg []) = record { found = none; tail_at = pos; tail = [] }
find_var (suc fuel) name pos (seg (c ∷ cs)) = elim (tok_next 0 (seg (c ∷ cs))) [
  | none ↦ record { found = none; tail_at = pos; tail = [] }
  | some r ↦
      let next = pos + (length r.0 + 1) in
      elim (match_var name r.0) [
        | some kv ↦ record {
          found = some (pos + (length kv.0 + 1), kv.1);
          tail_at = next;
          tail = elim r.1 [ spent ↦ [] | seg t ↦ t ];
        }
        | none ↦ find_var fuel name next r.1
      ]
]

-- Each round consumes a byte at least.
abbrev pub search : Bytes → Bytes → Search
search name vars = find_var (suc (length vars)) name 0 (seg vars)

-- `svc_get_var`: the value, if the name is there.
unfoldable pub get_var : Bytes → Bytes → Option Bytes
unfolding find_var
get_var vars name = elim ((search name vars).found) [
  | none ↦ none
  | some r ↦ elim r.1 [ spent ↦ some [] | seg v ↦ some v ]
]

-- Bytes copied into the buffer, and a buffer of another size: `junk` stands for each byte that the
-- allocation leaves undefined.
abbrev pub write_at : ℕ → Bytes → Bytes → Bytes
write_at pos xs buf = take pos buf ++ (xs ++ drop (pos + length xs) buf)

abbrev pub resize : ℕ → ℕ → Bytes → Bytes
resize junk size buf = take size (buf ++ replicate size junk)

-- One more than the length of a string.
abbrev pub len1 : Seg → ℕ
len1 spent = 0
len1 (seg s) = suc (length s)

-- `vars.len + sizediff`
unfoldable pub new_len : Bytes → Option Bytes → Option (ℕ × Seg) → ℕ → ℕ
new_len name (some v) (some old) len = len + suc (length v) - len1 old.1
new_len name none (some old) len = len - (len1 old.1 + length name + 1)
new_len name (some v) none len = len + (length name + 1 + length v + 1)
new_len name none none len = len

-- `if (!found && value)`: the name and '=' behind the buffer's end. With the offset of the value.
abbrev pub put_name : Bytes → Option (ℕ × Seg) → ℕ → Bytes → ℕ × Bytes
put_name name (some old) tail_at buf = (old.0, buf)
put_name name none tail_at buf = (
  tail_at + length name + 1,
  write_at (tail_at + length name) (b'=' ∷ []) (write_at tail_at name buf),
)

-- `if (value)`: the value and its NUL.
abbrev pub put_value : Bytes → ℕ × Bytes → Bytes
put_value v (at, buf) = write_at (at + length v) (0 ∷ []) (write_at at v buf)

abbrev pub put_var : Bytes → Option Bytes → Search → Bytes → Bytes
put_var name none s buf = buf
put_var name (some v) s buf = put_value v (put_name name s.found s.tail_at buf)

-- `realloc`, where the variables grow.
unfoldable pub grow : ℕ → ℕ → Bytes → Bytes
grow junk size vars = if ltb (length vars) size then resize junk size vars else vars

-- `if (sizediff && tail.len > 0) memmove(tail.data + sizediff, tail.data, tail.len)`
unfoldable pub shift : ℕ → ℕ → ℕ → Bytes → Bytes → Bytes
shift tail_at len size [] buf = buf
shift tail_at len size (t ∷ ts) buf =
    if not (size == len) then write_at (tail_at + size - len) (t ∷ ts) buf else buf

-- What the buffer holds behind the copies; `size` is its new length.
unfoldable pub store_var : ℕ → Bytes → Option Bytes → Search → ℕ → Bytes → Bytes
store_var junk name value s size vars =
    take size
      (put_var name value s (shift s.tail_at (length vars) size s.tail (grow junk size vars)))

-- `svc_set_var`; `none` is the result false, which leaves the buffer as it was.
unfoldable pub set_var : Storage → ℕ → Bytes → Option Bytes → Bytes → Option Bytes
set_var storage junk name value vars =
    let s = search name vars in
    let size = new_len name value s.found (length vars) in
    if ltb (length vars) size && not (has_room storage size)
    then none
    else some (store_var junk name value s size vars)
