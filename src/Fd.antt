-- ===== src/Fd.antt =====
-- src/fd.c: the named file descriptors, and the objects that stand for them.
-- A pointer to an object is its `id`, a number that no earlier object had. The index by name is the list
-- of its objects in order: RbTree shows that the tree inserts, finds and removes as this list does. The
-- array `fd_list` holds the same objects; only their number is used here. The pipe flag and the union of
-- an object are its `attr`. Descriptors at -1 are `none`.
pub mod Make
pub mod Laws
pub mod Replace
pub mod Place
pub mod File
pub mod Ends
pub mod Olds
pub mod Pipe
pub mod Twice
pub mod Delete
mod Examples
use daemonproxy.Common.{
  ℕ, suc, ◌+◌, ◌-◌, Bool, true, false, not, ◌&&◌, ◌||◌, Option, some, none, List, [], ◌∷◌, ◌++◌,
  Bytes, codes, length, take, ltb, leb, ◌==◌, if◌then◌else◌,
}
use daemonproxy.Strseg.{Order, less, same, greater, cmp_bytes}
use daemonproxy.Strseg.Cmp.{eq_bytes}
use daemonproxy.RbTree.Contents.{insert_sorted}
use daemonproxy.Log.{Log, fd_reset}

pub record FdFlags : Type 0 where
  pub reads : Bool
  pub writes : Bool
  pub creates : Bool
  pub appends : Bool
  pub mkdir : Bool
  pub truncs : Bool
  pub nonblock : Bool
  pub socket : Bool
  pub sock_inet : Bool
  pub sock_inet6 : Bool
  pub sock_dgram : Bool
  pub sock_seq : Bool
  pub binds : Bool
  pub special : Bool
  pub is_const : Bool
  pub listen : ℕ

abbrev pub no_flags : FdFlags
no_flags = record {
  reads = false;
  writes = false;
  creates = false;
  appends = false;
  mkdir = false;
  truncs = false;
  nonblock = false;
  socket = false;
  sock_inet = false;
  sock_inet6 = false;
  sock_dgram = false;
  sock_seq = false;
  binds = false;
  special = false;
  is_const = false;
  listen = 0;
}

-- A path, or the other end of a pipe; an end whose other end is gone has none.
pub data Attr : Type 0 where
  file : Bytes → Attr
  pipe : Option ℕ → Attr

pub record Fd : Type 0 where
  pub id : ℕ
  pub name : Bytes
  pub num : Option ℕ
  pub flags : FdFlags
  pub attr : Attr
  -- The bytes of the buffer
  pub size : ℕ

-- A pool of so many objects, with so many bytes in each buffer; or the heap, which grants an object or
-- not, the enlarged list included.
pub data Memory : Type 0 where
  pool : ℕ → ℕ → Memory
  heap : (ℕ → Bool) → Memory

pub record Fds : Type 0 where
  pub index : List Fd
  pub memory : Memory
  pub next_id : ℕ
  pub log : Log
  -- The descriptors given to `close`, the last one first
  pub closed : List ℕ

abbrev pub is_less : Order → Bool
is_less less = true
is_less same = false
is_less greater = false

abbrev pub less_name : Fd → Fd → Bool
less_name f g = is_less (cmp_bytes f.name g.name)

-- `fd_by_name`
unfoldable pub by_name : Bytes → List Fd → Option Fd
unfolding eq_bytes
by_name name [] = none
by_name name (f ∷ fs) =
    let later = by_name name fs in if eq_bytes name f.name then some f else later

abbrev pub has_id : ℕ → List Fd → Bool
has_id i [] = false
has_id i (f ∷ fs) = f.id == i || has_id i fs

abbrev pub peer_of : Attr → Option ℕ
peer_of (file path) = none
peer_of (pipe peer) = peer

-- `fd_get_pipe_peer` of the object at a pointer
unfoldable pub peer_at : ℕ → List Fd → Option ℕ
peer_at i [] = none
peer_at i (f ∷ fs) = let later = peer_at i fs in if f.id == i then peer_of f.attr else later

unfoldable pub remove : ℕ → List Fd → List Fd
remove i [] = []
remove i (f ∷ fs) = let later = remove i fs in if f.id == i then later else f ∷ later

unfoldable pub update : ℕ → (Fd → Fd) → List Fd → List Fd
update i g [] = []
update i g (f ∷ fs) = (if f.id == i then g f else f) ∷ update i g fs

-- Bytes for a buffer: those of a pool's object, those asked for, or none.
abbrev pub granted : Memory → ℕ → ℕ → ℕ → Option ℕ
granted (pool limit each) count asked id = if leb limit count then none else some each
granted (heap grants) count asked id = if grants id then some asked else none

abbrev pub count : List Fd → ℕ
count fs = length fs

abbrev pub new_object : ℕ → Bytes → ℕ → Fd
new_object id name size = record {
  id = id;
  name = name;
  num = none;
  flags = no_flags;
  attr = file [];
  size = size;
}

-- Behind the new object's entry into the index
abbrev pub entered : Bytes → ℕ → Fds → Fds
entered name size s = record s {
  index = insert_sorted less_name (new_object s.next_id name size) s.index;
  next_id = suc s.next_id;
}

abbrev pub insert_new : Bytes → Fds → Option ℕ → Option (ℕ × Fds)
insert_new name s none = none
insert_new name s (some size) =
    if ltb size (length name + 1) then none else some (s.next_id, entered name size s)

-- `fd_new`, with the bytes that its buffer asks for
unfoldable pub fd_new : ℕ → Bytes → Fds → Option (ℕ × Fds)
fd_new asked name s = insert_new name s (granted s.memory (count s.index) asked s.next_id)

abbrev pub clear_peer : Option ℕ → List Fd → List Fd
clear_peer none fs = fs
clear_peer (some j) fs = update j (λ (f : Fd). record f { attr = pipe none }) fs

abbrev pub is_num : ℕ → Option ℕ → Bool
is_num n none = false
is_num n (some m) = m == n

-- The close of a descriptor; a log that writes to it has to look for another.
abbrev pub close_num : Option ℕ → Fds → Fds
close_num none s = s
close_num (some n) s = record s {
  log = if is_num n s.log.fd then fd_reset s.log else s.log;
  closed = n ∷ s.closed;
}

-- `fd_delete`
abbrev pub delete : Fd → Fds → Fds
delete f s =
    let cleared = record s { index = clear_peer (peer_of f.attr) s.index } in
    let closed = close_num f.num cleared in record closed { index = remove f.id closed.index }

abbrev pub lookup_id : ℕ → List Fd → Option Fd
lookup_id i [] = none
lookup_id i (f ∷ fs) = if f.id == i then some f else lookup_id i fs

-- A second `fd_delete` of an object: on the heap it was freed, which is a fault. That of a pool is as it
-- was, and is in neither the index nor the list; its other end and its descriptor are used again.
abbrev pub delete_again : Memory → Fd → Fds → Option Fds
delete_again (pool limit each) old s = some (delete old s)
delete_again (heap grants) old s = none

-- `if (old) fd_delete(old)`, at the pointer to an object as it was; `none` is a fault.
abbrev pub delete_at : Option Fd → Fds → Option Fds
delete_at none s = some s
delete_at (some old) s = elim (lookup_id old.id s.index) [
  | none ↦ delete_again s.memory old s
  | some f ↦ some (delete f s)
]

-- The index behind the object of a pointer
abbrev pub behind_id : ℕ → List Fd → List Fd
behind_id i [] = []
behind_id i (f ∷ fs) = if f.id == i then fs else behind_id i fs

abbrev pub first_of : List Fd → Option Fd
first_of [] = none
first_of (f ∷ fs) = some f

-- The first object whose name comes behind a name
abbrev pub behind_name : Bytes → List Fd → Option Fd
behind_name name [] = none
behind_name name (f ∷ fs) = if is_less (cmp_bytes name f.name) then some f else behind_name name fs

-- `fd_iter_next`
abbrev pub iter_next : Option ℕ → Bytes → List Fd → Option Fd
iter_next none from_name fs = behind_name from_name fs
iter_next (some i) from_name fs = first_of (behind_id i fs)
