-- ===== src/Ops/Read.antt =====
-- `Read` of ovirt_imageio/_internal/ops.py: its loop and the whole operation.
use ovirt_imageio.Base.{
  ℕ, zero, suc, ◌+◌, ◌-◌, ◌%◌, ◌≤◌, ◌<◌, ◌≡◌, refl, Bool, ◌⊎◌, inl, inr, List, arith, subst, sym,
  length, take, drop, ==-cases,
}
use ovirt_imageio.Base.Exec.{continue, Result, ok, err}
use ovirt_imageio.Backends.{Backend}
use ovirt_imageio.Backends.Reader.{IsReader}
use ovirt_imageio.Ops.{
  Raised, canceled_error, partial_content, Run, call, read_chunk, read_loop, read_run, start,
}
use ovirt_imageio.Ops.Canceled.{GoesOn, Stopped, GoesOn-Checked, Stopped-Checked}
use ovirt_imageio.Ops.Chunks.{IsSent, IsReading, Chunk, aligned_lem, chunk_lem}

round_down_even : (n m : ℕ) → 0 < m → (n - n % m) % m ≡ 0
round_down_even n m h = grind arith

module _ {S : Type 0} (b : Backend S) (Ready : S → Type 0) (position : S → ℕ) (content : List ℕ)
    (block_size : ℕ) (reader : IsReader b Ready position content block_size)
    (size offset buf_size : ℕ) (canceled : ℕ → Bool) (aligned : buf_size % block_size ≡ 0)
    (buffer : 0 < buf_size) (inside : offset ≤ length content) where
  abbrev IsReading' : Run S → Type 0
  IsReading' r =
      IsReading b Ready position content block_size reader size offset buf_size canceled aligned
        buffer inside r

  abbrev Chunk' : ℕ → Run S → Result Raised (Unit {0}) × Run S → Type 0
  Chunk' skip r p =
      Chunk b Ready position content block_size reader size offset buf_size canceled aligned buffer
        inside skip r p

  abbrev IsSent' : Run S → Type 0
  IsSent' r =
      IsSent b Ready position content block_size reader size offset buf_size canceled aligned buffer
        inside r

  -- How the operation ends, by what it raises: all bytes are sent, or it was canceled, or the content
  -- ended before all were sent.
  abbrev Ending : Result Raised (Unit {0}) × Run S → Type 0
  Ending (x, r) =
      IsSent' r
      × (((x ≡ ok tt) × (r.todo ≡ 0) × GoesOn canceled r.chunks)
          ⊎ ((x ≡ err canceled_error) × Stopped canceled r.chunks)
          ⊎ ((x ≡ err (partial_content size r.todo))
              × GoesOn canceled r.chunks
              × (0 < r.todo)
              × (offset + (size - r.todo) ≡ length content)))

  -- What follows a chunk.
  after-Chunk :
      (skip : ℕ) (r : Run S) (p : Result Raised (Unit {0}) × Run S)
      (k : Run S → Result Raised (Unit {0}) × Run S)
      → Chunk' skip r p
      → GoesOn canceled r.chunks
      → ((r' : Run S)
          → IsReading' r'
          → (skip ≡ 0 → r'.todo < r.todo)
          → GoesOn canceled r'.chunks
          → Ending (k r'))
      → Ending (continue p (λ _. k))
  after-Chunk skip r (ok tt, r') k (v, inl (_, less, c)) g h =
      h r' v less (GoesOn-Checked canceled r.chunks r'.chunks c g)
  after-Chunk skip r (ok tt, r') k (v, inr (inl (e, _))) g h = cc
  after-Chunk skip r (ok tt, r') k (v, inr (inr (e, _, _, _))) g h = cc
  after-Chunk skip r (err x, r') k (v, inl (e, _, _)) g h = cc
  after-Chunk skip r (err x, r') k (v, inr (inl (e, c))) g h =
      (v.is_sent, inr (inl (e, Stopped-Checked canceled r.chunks r'.chunks c g)))
  after-Chunk skip r (err x, r') k (v, inr (inr (e, same, more, at))) g h =
      (v.is_sent, inr (inr (e, subst (GoesOn canceled) (sym same) g, more, at)))

  loop_lem :
      (fuel : ℕ) (r : Run S)
      → r.todo < fuel
      → IsReading' r
      → GoesOn canceled r.chunks
      → Ending (read_loop b size offset buf_size canceled fuel r)
  unfolding read_loop
  loop_lem zero r h v g = absurd (omega arith)
  loop_lem (suc fuel) r h v g = elim (==-cases r.todo 0) [
    | inl (t, done) ↦ rw t (v.is_sent, inl (refl, done, g))
    | inr (t, more) ↦ rw t (
        after-Chunk 0 r (read_chunk b size offset buf_size canceled 0 r)
          (read_loop b size offset buf_size canceled fuel)
          (chunk_lem b Ready position content block_size reader size offset buf_size canceled
            aligned buffer inside r (omega arith) v)
          g λ r' v' less g'. loop_lem fuel r' (omega (arith, less refl)) v' g')
  ]

  start-IsSent : (t : S) → IsSent' (start t size)
  start-IsSent t =
      let z : size - size ≡ 0 = omega arith in
      record { todo_le = omega arith; sent = rw z refl; within = omega arith }

  -- The first chunk, if the offset is not aligned, and then the loop.
  run_lem :
      (s : S)
      → Ready s
      → 0 < size
      → Ending (read_run b size offset buf_size canceled (start s size))
  unfolding read_run call
  run_lem s rd pos =
      let skip = offset % block_size in
      let (t, e, rt, at) = reader.seeks (offset - skip) s rd in
      let le : skip ≤ offset = omega arith in
      let even = round_down_even offset block_size reader.positive in
      let small : skip < block_size = omega (arith, reader.positive) in
      let loop = λ (r' : Run S) (v : IsReading' r') (g : GoesOn canceled r'.chunks).
        loop_lem (size + 1) r' (omega (arith, v.is_sent.todo_le)) v g in
      rw (reader.same_block_size s rd) (
        rw e (elim (==-cases skip 0) [
          | inl (z, zero_skip) ↦ rw z (
              loop (start t size)
                (record {
                  ready = rt;
                  is_sent = start-IsSent t;
                  at = λ h. omega arith;
                  whole = λ h. (omega arith, inl (rw at even));
                })
                tt)
          | inr (nz, _) ↦ rw nz (
              after-Chunk skip (start t size)
                (read_chunk b size offset buf_size canceled skip (start t size))
                (read_loop b size offset buf_size canceled (size + 1))
                (aligned_lem b Ready position content block_size reader size offset buf_size
                  canceled aligned buffer inside skip (start t size) rt (start-IsSent t) pos small
                  (omega arith) (rw at even))
                tt (λ r' v less g. loop r' v g))
        ]))

-- A read of at least one byte from a backend that meets `IsReader`, at an offset that is not behind the
-- end of its content, with a buffer of whole blocks, to a stream whose writes do not raise. It ends, and
-- what it has sent is the content from the offset on, as far as it got. Either all the bytes were sent
-- and it returns, or it raises a partial content error because it has sent all that there is, and in
-- both cases the cancel flag was not set when any of its chunks ended; or it raises the cancellation,
-- and the flag was set when its last chunk ended and not before.
pub read_run_lem :
    {S : Type 0} (b : Backend S) (Ready : S → Type 0) (position : S → ℕ) (content : List ℕ)
    (block_size : ℕ)
    → IsReader b Ready position content block_size
    → (size offset buf_size : ℕ) (canceled : ℕ → Bool) → buf_size % block_size ≡ 0
    → 0 < buf_size
    → offset ≤ length content
    → (s : S) → Ready s
    → 0 < size
    → let (x, r) = read_run b size offset buf_size canceled (start s size) in
      (r.sent ≡ take (size - r.todo) (drop offset content))
      × (((x ≡ ok tt) × (r.todo ≡ 0) × GoesOn canceled r.chunks)
          ⊎ ((x ≡ err canceled_error) × Stopped canceled r.chunks)
          ⊎ ((x ≡ err (partial_content size r.todo))
              × GoesOn canceled r.chunks
              × (0 < r.todo)
              × (offset + (size - r.todo) ≡ length content)))
read_run_lem b Ready position content block_size reader size offset buf_size canceled al pos inside
      s rd h =
    let (sent, ending) =
      run_lem b Ready position content block_size reader size offset buf_size canceled al pos inside
        s rd h in
    (sent.sent, ending)
