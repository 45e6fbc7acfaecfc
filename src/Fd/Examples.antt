-- ===== src/Fd/Examples.antt =====
-- src/fd.c: the theorems at a table of three objects, and tests.
use daemonproxy.Common.{ℕ, true, Option, some, none, List, [], ◌∷◌, Bytes, codes, ◌≡◌, refl, arith}
use daemonproxy.Strseg.{cmp_bytes}
use daemonproxy.Strseg.Cmp.{eq_bytes}
use daemonproxy.Log.{new_log}
use daemonproxy.Fd.{
  Fd, Fds, no_flags, file, pipe, heap, pool, by_name, peer_at, fd_new, delete_at, entered,
  iter_next,
}
use daemonproxy.Fd.Make.{append_elipses, new_file, new_pipe, init_special_handles}
use daemonproxy.Fd.Replace.{IsTable}
use daemonproxy.Fd.File.{Filed, new_file-Filed}
use daemonproxy.Fd.Pipe.{Piped, new_pipe-Piped}
use daemonproxy.Fd.Twice.{new_pipe-faults}
use daemonproxy.Fd.Delete.{Deleted, delete-Deleted}

abbrev out_file : Fd
out_file = record {
  id = 0;
  name = codes "out";
  num = some 5;
  flags = record no_flags { writes = true };
  attr = file (codes "/tmp/out");
  size = 13;
}

abbrev end_of : ℕ → Bytes → ℕ → ℕ → Fd
end_of id name num peer = record {
  id = id;
  name = name;
  num = some num;
  flags = no_flags;
  attr = pipe (some peer);
  size = 2;
}

abbrev three : Fds
three = record {
  index = out_file ∷ end_of 1 (codes "r") 7 2 ∷ end_of 2 (codes "w") 8 1 ∷ [];
  memory = heap (λ i. true);
  next_id = 3;
  log = record (new_log []) { fd = some 5 };
  closed = [];
}

three-IsTable : IsTable three.next_id three.index
unfolding peer_at cmp_bytes
three-IsTable = record {
  sorted = ((refl, (refl, tt)), ((refl, tt), (tt, tt)));
  unique = (
    (
      ((λ e. ground (arith, e)), (λ e. omega (arith, e))),
      (((λ e. ground (arith, e)), (λ e. omega (arith, e))), tt),
    ),
    ((((λ e. ground (arith, e)), (λ e. omega (arith, e))), tt), (tt, tt)),
  );
  below = omega arith;
  paired = λ x y e. ground (arith, e);
}

new_file-Filed_example :
    let r = new_file (codes "r") (some 9) no_flags (codes "/etc/x") three in
    (p : Option ℕ × Fds) × (r ≡ some p)
    × Filed (codes "r") (some 9) no_flags (codes "/etc/x") three (some p)
new_file-Filed_example =
    new_file-Filed (codes "r") (some 9) no_flags (codes "/etc/x") three three-IsTable

new_pipe-Piped_example :
    let r = new_pipe (codes "r") (some 9) (codes "out") (some 10) no_flags three in
    (p : Option ℕ × Fds) × (r ≡ some p)
    × Piped (codes "r") (some 9) (codes "out") (some 10) no_flags three (some p)
new_pipe-Piped_example =
    new_pipe-Piped (codes "r") (some 9) (codes "out") (some 10) no_flags three
      (λ e. ground (arith, e)) three-IsTable

delete-Deleted_example :
    (t : Fds) × (delete_at (some out_file) three ≡ some t) × Deleted (codes "out") out_file three t
unfolding by_name eq_bytes
delete-Deleted_example = delete-Deleted (codes "out") out_file three three-IsTable refl

new_pipe-faults_example :
    new_pipe (codes "out") (some 9) (codes "out") (some 10) no_flags three ≡ none
unfolding by_name eq_bytes fd_new
new_pipe-faults_example =
    new_pipe-faults (codes "out") (some 9) (some 10) no_flags three out_file
      (3, entered (codes "out") 4 three)
      (4, entered (codes "out") 4 (entered (codes "out") 4 three)) (λ i. true) refl three-IsTable
      refl refl refl refl

-- A path that the buffer of a pool's object cannot hold
cut_path : append_elipses 9 (codes "/var/log/messages") ≡ codes "/var/..."
unfolding append_elipses
cut_path = refl

-- A constant cannot be replaced.
kept :
    new_file (codes "null") none no_flags [] (record three {
      index =
          record out_file { name = codes "null"; flags = record no_flags { is_const = true } } ∷ [];
    })
    ≡ some (
      none,
      record three {
        index =
            record out_file { name = codes "null"; flags = record no_flags { is_const = true } }
            ∷ [];
      },
    )
unfolding new_file
kept = refl

abbrev names : List Fd → List Bytes
names [] = []
names (f ∷ fs) = f.name ∷ names fs

abbrev names_made : Option (Option ℕ × Fds) → List Bytes
names_made none = []
names_made (some r) = names r.1.index

special_names :
    names_made
      (init_special_handles (some 3) (record three { index = []; next_id = 0; memory = pool 7 96 }))
    ≡ codes "control.cmd" ∷ codes "control.event" ∷ codes "control.socket" ∷ codes "null" ∷ []
unfolding init_special_handles cmp_bytes
special_names = refl

next_after : iter_next none (codes "p") three.index ≡ some (end_of 1 (codes "r") 7 2)
unfolding cmp_bytes
next_after = refl

-- The objects of a pool are not freed: the second deletion closes the descriptor again, and two objects
-- have the name.
abbrev new_twice : Option (Option ℕ × Fds)
new_twice =
    new_pipe (codes "out") (some 9) (codes "out") (some 10) no_flags
      (record three { memory = pool 9 96 })

same_names : names_made new_twice ≡ codes "out" ∷ codes "out" ∷ codes "r" ∷ codes "w" ∷ []
unfolding new_pipe cmp_bytes
same_names = refl

abbrev closed_by : Option (Option ℕ × Fds) → List ℕ
closed_by none = []
closed_by (some r) = r.1.closed

closed_twice : closed_by new_twice ≡ 5 ∷ 5 ∷ []
unfolding new_pipe cmp_bytes
closed_twice = refl
