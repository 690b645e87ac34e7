-- ===== src/Ops.antt =====
-- ovirt_imageio/_internal/ops.py: the operations that move bytes between a backend and a stream.
--
-- An operation runs on a backend of `Backends`. `_done` is the size less the field `todo`; a
-- `PartialContent` error carries the size and `todo`. Another thread may cancel an operation at any
-- time: `canceled k` says whether the flag is set when the k-th chunk ends. Clocks and logs are left out,
-- and so are exceptions of the stream that `Read` writes to.
pub mod Steps
pub mod Canceled
pub mod Chunks
pub mod Read
pub mod Writing
use ovirt_imageio.Base.{
  ℕ, zero, suc, ◌+◌, ◌-◌, ◌%◌, min, Bool, true, false, not, Option, none, some, List, [], ◌∷◌, ◌++◌,
  ltb, ◌==◌, if◌then◌else◌, length, take, drop,
}
use ovirt_imageio.Base.Exec.{
  Exec, Result, ok, err, pure, raise, gets, modify, raise_if, ◌>>=◌, ◌>>◌,
}
use ovirt_imageio.Util.{round_up}
use ovirt_imageio.Backends.{Backend, Error}

-- What an operation raises.
pub data Raised : Type 0 where
  end_of_stream : Raised
  canceled_error : Raised
  partial_content : ℕ → ℕ → Raised
  backend_error : Error → Raised
  out_of_fuel : Raised

-- The state of a running operation: the backend, what is left to do, the chunks so far, and what was
-- written to the stream.
pub record Run (S : Type 0) : Type 0 where
  pub backend : S
  pub todo : ℕ
  pub chunks : ℕ
  pub sent : List ℕ

module _ {S A : Type 0} where
  abbrev lifted : Result Error A × S → Run S → Result Raised A × Run S
  lifted (ok a, s) r = (ok a, record r { backend = s })
  lifted (err e, s) r = (err (backend_error e), record r { backend = s })

  -- A call of a backend's method.
  unfoldable pub call : Exec Error S A → Exec Raised (Run S) A
  call m r = lifted (m r.backend) r

module _ {S : Type 0} (b : Backend S) (size offset buf_size : ℕ) (canceled : ℕ → Bool) where
  abbrev Action : Type 0
  Action = Exec Raised (Run S) (Unit {0})

  -- The end of a chunk: "if self._canceled: raise Canceled".
  unfoldable pub check_canceled : Action
  check_canceled r =
      (if canceled r.chunks then err canceled_error else ok tt, record r { chunks = r.chunks + 1 })

  -- `Read._read_chunk`. A read of fewer than `skip` bytes makes the size negative: nothing is written,
  -- and the number of bytes done falls.
  unfoldable pub read_chunk : ℕ → Action
  unfolding call check_canceled
  read_chunk skip = do
    position ← call b.tell
    block_size ← gets (λ r. b.block_size r.backend)
    todo ← gets (λ r. r.todo)
    raise_if (not (position % block_size == 0)) (partial_content size todo)
    let aligned_todo = round_up todo block_size
    bytes ← call (b.readinto (min buf_size aligned_todo))
    let count = length bytes
    raise_if (count == 0) (partial_content size todo)
    let n : ℕ = min (count - skip) todo
    modify (λ r. record r {
      sent = r.sent ++ take n (drop skip bytes);
      todo = if ltb count skip then todo + (skip - count) else todo - n;
    })
    check_canceled

  -- `while self._todo: self._read_chunk()`
  unfoldable pub read_loop : ℕ → Action
  unfolding read_chunk
  read_loop zero r = (err out_of_fuel, r)
  read_loop (suc fuel) r =
      let rest = (read_chunk 0 >> read_loop fuel) r in if r.todo == 0 then (ok tt, r) else rest

  -- `Read._run`. Each chunk moves a byte at least, so the size is enough fuel.
  unfoldable pub read_run : Action
  unfolding read_chunk read_loop call
  read_run = do
    block_size ← gets (λ r. b.block_size r.backend)
    let skip = offset % block_size
    call (b.seek (offset - skip))
    (if skip == 0 then pure tt else read_chunk skip)
    read_loop (size + 1)

-- A new operation.
abbrev pub start : {S : Type 0} → S → ℕ → Run S
start s size = record { backend = s; todo = size; chunks = 0; sent = [] }
