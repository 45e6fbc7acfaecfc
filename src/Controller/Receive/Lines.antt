-- ===== src/Controller/Receive/Lines.antt =====
-- src/controller.c, `ctl_read_more`: what a read moves from the stream to the buffer.
use daemonproxy.Common.{
  ℕ, suc, ◌+◌, ◌-◌, ◌*◌, ◌≤◌, ◌<◌, List, [], ◌∷◌, ◌++◌, Bytes, length, take, drop, ◌≡◌, refl, ap,
  sym, ◌∙◌, arith, append_assoc, length-append, length-take, length-drop, take-append-drop,
}
use daemonproxy.Controller.Receive.{ReadAnswer, recv_buf_size, leave, stream_of, bytes_of}

pub stream_of-leave :
    (x : Bytes) (later : List ReadAnswer) → stream_of (leave x later) ≡ x ++ stream_of later
stream_of-leave [] later = refl
stream_of-leave (c ∷ cs) later = refl

bytes_of-leave :
    (x : Bytes) (later : List ReadAnswer) → bytes_of (leave x later) ≡ length x + bytes_of later
bytes_of-leave [] later = omega arith
bytes_of-leave (c ∷ cs) later = omega arith

length-leave : (x : Bytes) (later : List ReadAnswer) → length (leave x later) ≤ suc (length later)
length-leave [] later = omega arith
length-leave (c ∷ cs) later = omega arith

-- The buffer and the stream behind it are the same bytes.
pub read_stream :
    (n : ℕ) (buf x : Bytes) (later : List ReadAnswer)
    → (buf ++ take n x) ++ stream_of (leave (drop n x) later) ≡ buf ++ (x ++ stream_of later)
read_stream n buf x later =
    append_assoc buf (take n x) (stream_of (leave (drop n x) later))
    ∙ ap (λ t. buf ++ (take n x ++ t)) (stream_of-leave (drop n x) later)
    ∙ ap (λ t. buf ++ t) (sym (append_assoc (take n x) (drop n x) (stream_of later)))
    ∙ ap (λ t. buf ++ (t ++ stream_of later)) (take-append-drop n x)

pub read_fits :
    (buf x : Bytes)
    → length buf < recv_buf_size
    → length (buf ++ take (recv_buf_size - length buf) x) ≤ recv_buf_size
read_fits buf x h = omega (
  arith,
  h,
  length-append buf (take (recv_buf_size - length buf) x),
  length-take (recv_buf_size - length buf) x,
)

-- A read takes a byte at least, where there is room.
pub read_progress :
    (n c : ℕ) (buf cs : Bytes) (later : List ReadAnswer)
    → 0 < n
    → 2 * bytes_of (leave (drop n (c ∷ cs)) later)
        + length (buf ++ take n (c ∷ cs))
        + length (leave (drop n (c ∷ cs)) later)
      < 2 * (suc (length cs) + bytes_of later) + length buf + suc (length later)
read_progress n c buf cs later h = omega (
  arith,
  h,
  bytes_of-leave (drop n (c ∷ cs)) later,
  length-leave (drop n (c ∷ cs)) later,
  length-append buf (take n (c ∷ cs)),
  length-take n (c ∷ cs),
  length-drop n (c ∷ cs),
)
