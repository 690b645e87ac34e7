-- ===== src/Ops/Writing.antt =====
-- `Write`, `Zero` and `Flush` of ovirt_imageio/_internal/ops.py.
--
-- The stream that `Write` reads from may return fewer bytes than it is asked for: `serve k` bounds what
-- the k-th call of `readinto` returns. `canceled` is as in `Ops`.
pub mod Chunks
pub mod Stored
pub mod Loop
pub mod Zeroed
use ovirt_imageio.Base.{
  ℕ, zero, suc, ◌+◌, ◌-◌, ◌*◌, ◌%◌, min, Bool, true, false, not, Option, none, some, List, [], ◌++◌,
  ltb, ◌==◌, if◌then◌else◌, length, take, drop,
}
use ovirt_imageio.Base.Exec.{
  Exec, Result, ok, err, pure, raise, gets, modify, raise_if, ◌>>=◌, ◌>>◌,
}
use ovirt_imageio.Backends.{Backend, Error}
use ovirt_imageio.Ops.{
  Raised, end_of_stream, canceled_error, partial_content, backend_error, out_of_fuel,
}

-- A running operation: the backend, what is left in the stream and how often it was read, the bytes
-- done and the chunks so far.
pub record Writer (S : Type 0) : Type 0 where
  pub backend : S
  pub stream : List ℕ
  pub reads : ℕ
  pub done : ℕ
  pub chunks : ℕ

module _ {S A : Type 0} where
  abbrev lifted : Result Error A × S → Writer S → Result Raised A × Writer S
  lifted (ok a, s) w = (ok a, record w { backend = s })
  lifted (err e, s) w = (err (backend_error e), record w { backend = s })

  -- A call of a backend's method.
  unfoldable pub call : Exec Error S A → Exec Raised (Writer S) A
  call m w = lifted (m w.backend) w

module _ {S : Type 0} (serve : ℕ → ℕ) where
  -- One call of `self._src.readinto` with room for `n` bytes.
  abbrev pub served : ℕ → Writer S → ℕ
  served n w = min (min n (serve w.reads)) (length w.stream)

  abbrev pub after_read : ℕ → Writer S → Writer S
  after_read n w = record w { stream = drop (served n w) w.stream; reads = w.reads + 1 }

  -- The inner reading loop: until `count` bytes are there or the stream ends. Also whether it ended
  -- within the fuel.
  unfoldable pub receive : ℕ → ℕ → Writer S → List ℕ × Writer S × Bool
  receive zero count w = ([], w, count == 0)
  receive (suc fuel) count w =
      let n = served count w in
      let rest = receive fuel (count - n) (after_read count w) in
      if count == 0
      then ([], w, true)
      else if n == 0
      then ([], after_read count w, true)
      else (take n w.stream ++ rest.0, rest.1, rest.2)

-- `Zero.MAX_STEP`
abbrev pub max_zero_step : ℕ
max_zero_step = 128 * 1048576

module _ {S : Type 0} (b : Backend S) where
  abbrev Action : Type 0
  Action = Exec Raised (Writer S) (Unit {0})

  -- The inner writing loop: the backend may write a part of the bytes.
  unfoldable pub store : ℕ → List ℕ → Action
  unfolding call
  store zero bytes w = (err out_of_fuel, w)
  store (suc fuel) bytes w =
      let rest = (call (b.write bytes) >>= λ n. store fuel (drop n bytes)) w in
      if length bytes == 0 then (ok tt, w) else rest

  module _ (size : Option ℕ) (offset buf_size : ℕ) (serve : ℕ → ℕ) (canceled : ℕ → Bool) where
    -- `Write._todo`
    unfoldable pub todo : Writer S → ℕ
    todo w = elim size [ none ↦ buf_size | some n ↦ n - w.done ]

    -- The error of a chunk that ended early.
    unfoldable pub ended : ℕ → Raised
    ended done = elim size [ none ↦ end_of_stream | some n ↦ partial_content n (n - done) ]

    unfoldable pub check_canceled : Action
    check_canceled w = (
      if canceled w.chunks then err canceled_error else ok tt,
      record w { chunks = w.chunks + 1 },
    )

    -- `Write._write_chunk`; the view of the buffer has no more room than the buffer.
    unfoldable pub write_chunk : ℕ → Action
    unfolding receive store ended check_canceled
    write_chunk count w =
        let view : ℕ = min count buf_size in
        let (bytes, w', received) = receive serve view view w in
        (do
          raise_if (not received) out_of_fuel
          store (length bytes + 1) bytes
          modify (λ v. record v { done = v.done + length bytes })
          done ← gets (λ v. v.done)
          raise_if (ltb (length bytes) count) (ended done)
          check_canceled)
          w'

    -- `while self._todo`
    unfoldable pub write_loop : ℕ → Action
    unfolding todo write_chunk
    write_loop zero w = (err out_of_fuel, w)
    write_loop (suc fuel) w =
        let rest = (write_chunk (min (todo w) buf_size) >> write_loop fuel) w in
        if todo w == 0 then (ok tt, w) else rest

    -- The `try` block of `Write._run`.
    unfoldable pub write_body : ℕ → Action
    unfolding call todo write_chunk write_loop
    write_body fuel = do
      call (b.seek offset)
      block_size ← gets (λ w. b.block_size w.backend)
      left ← gets todo
      let unaligned = offset % block_size
      (if unaligned == 0 then pure tt else write_chunk (min left (block_size - unaligned)))
      write_loop fuel

    -- `except EOF: pass`
    abbrev pub caught : Result Raised (Unit {0}) × Writer S → Result Raised (Unit {0}) × Writer S
    caught (err end_of_stream, w) = (ok tt, w)
    caught (r, w) = (r, w)

    -- `Write._run`
    unfoldable pub write_run : Bool → ℕ → Action
    unfolding write_body call
    write_run flush fuel =
        (λ w. caught (write_body fuel w)) >> (if flush then call b.flush else pure tt)

  module _ (size offset : ℕ) (canceled : ℕ → Bool) where
    -- The loop of `Zero._run`.
    unfoldable pub zero_loop : ℕ → Action
    unfolding call
    zero_loop zero w = (err out_of_fuel, w)
    zero_loop (suc fuel) w =
        let rest =
          (do
            n ← call (b.zero (min (size - w.done) max_zero_step))
            modify (λ v. record v { done = v.done + n; chunks = v.chunks + 1 })
            raise_if (canceled w.chunks) canceled_error
            zero_loop fuel)
            w in
        if size - w.done == 0 then (ok tt, w) else rest

    -- `Zero._run`
    unfoldable pub zero_run : Bool → ℕ → Action
    unfolding zero_loop call
    zero_run flush fuel = do
      call (b.seek offset)
      zero_loop fuel
      (if flush then call b.flush else pure tt)

  -- `Flush._run`
  unfoldable pub flush_run : Action
  unfolding call
  flush_run = call b.flush

-- A new operation, on a stream with these bytes.
abbrev pub start : {S : Type 0} → S → List ℕ → Writer S
start s stream = record { backend = s; stream = stream; reads = 0; done = 0; chunks = 0 }
