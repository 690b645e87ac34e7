-- ===== src/Ops/Steps.antt =====
-- `Read._read_chunk` of ovirt_imageio/_internal/ops.py, by what the backend returns.
use ovirt_imageio.Base.{
  ℕ, ◌+◌, ◌-◌, ◌%◌, min, ◌≡◌, Bool, true, false, List, ◌++◌, ltb, ◌==◌, if◌then◌else◌, length, take,
  drop,
}
use ovirt_imageio.Base.Exec.{ok, err}
use ovirt_imageio.Util.{round_up}
use ovirt_imageio.Backends.{Backend}
use ovirt_imageio.Ops.{canceled_error, partial_content, Run, read_chunk}

module _ {S : Type 0} (b : Backend S) (size offset buf_size : ℕ) (canceled : ℕ → Bool)
    (block_size position : ℕ) (r : Run S) (tells : b.tell r.backend ≡ (ok position, r.backend))
    (blocks : b.block_size r.backend ≡ block_size) (skip : ℕ) where
  pub read_chunk-unaligned :
      (position % block_size == 0) ≡ false
      → read_chunk b size offset buf_size canceled skip r ≡ (err (partial_content size r.todo), r)
  unfolding read_chunk
  read_chunk-unaligned odd = rw tells (rw blocks (rw odd))

  module _ (t : S) (bytes : List ℕ) (even : (position % block_size == 0) ≡ true)
      (reads : b.readinto (min buf_size (round_up r.todo block_size)) r.backend
        ≡ (ok bytes, t)) where
    pub read_chunk-empty :
        (length bytes == 0) ≡ true
        → read_chunk b size offset buf_size canceled skip r
          ≡ (err (partial_content size r.todo), record r { backend = t })
    unfolding read_chunk
    read_chunk-empty e = rw tells (rw blocks (rw even (rw reads (rw e))))

    pub read_chunk-bytes :
        (length bytes == 0) ≡ false
        → ltb (length bytes) skip ≡ false
        → let n : ℕ = min (length bytes - skip) r.todo in
          read_chunk b size offset buf_size canceled skip r ≡ (
            (if canceled r.chunks then err canceled_error else ok tt),
            record {
              backend = t;
              todo = r.todo - n;
              chunks = r.chunks + 1;
              sent = r.sent ++ take n (drop skip bytes);
            },
          )
    unfolding read_chunk
    read_chunk-bytes e f = rw tells (rw blocks (rw even (rw reads (rw e (rw f)))))
