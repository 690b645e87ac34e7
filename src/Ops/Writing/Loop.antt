-- ===== src/Ops/Writing/Loop.antt =====
-- The loop of `Write` of ovirt_imageio/_internal/ops.py, and the whole operation.
use ovirt_imageio.Base.{
  ℕ, zero, suc, ◌+◌, ◌-◌, ◌%◌, ◌≤◌, ◌<◌, min, ◌≡◌, refl, ◌∙◌, Bool, true, false, inl, inr, ◌⊎◌,
  Option, none, some, List, arith, subst, sym, if◌then◌else◌, length, ==-cases, Option-cases,
}
use ovirt_imageio.Base.Bytes.{byte_at}
use ovirt_imageio.Base.Exec.{Result, ok, err, continue, pure}
use ovirt_imageio.Backends.{Backend}
use ovirt_imageio.Backends.Writer.{IsWriter, overlaid}
use ovirt_imageio.Ops.Canceled.{GoesOn, Stopped, GoesOn-Checked, Stopped-Checked}
use ovirt_imageio.Ops.{Raised, canceled_error, partial_content, end_of_stream}
use ovirt_imageio.Ops.Writing.{
  Writer, call, todo, ended, write_chunk, write_loop, write_body, write_run, caught, start,
}
use ovirt_imageio.Ops.Writing.Stored.{IsWriting, Chunk, chunk_lem}

module _ {S : Type 0} (b : Backend S) (image : S → ℕ → ℕ) (size : Option ℕ) (offset : ℕ)
    (stream : List ℕ) (canceled : ℕ → Bool) (before : ℕ → ℕ) where
  -- The operation has done what it was asked for.
  abbrev pub Complete : ℕ → Type 0
  Complete done = elim size [ none ↦ done ≡ length stream | some n ↦ done ≡ n ]

  -- How the operation ends: what the image holds, and what is raised.
  abbrev pub WriteEnd : Result Raised (Unit {0}) × Writer S → Type 0
  WriteEnd (x, w) =
      ((i : ℕ) → image w.backend i ≡ overlaid before offset w.done (byte_at stream) i)
      × (w.done ≤ length stream)
      × (((x ≡ ok tt) × Complete w.done × GoesOn canceled w.chunks)
          ⊎ ((x ≡ err canceled_error) × Stopped canceled w.chunks)
          ⊎ ((n : ℕ) × (size ≡ some n)
              × GoesOn canceled w.chunks
              × (x ≡ err (partial_content n (n - w.done)))
              × (w.done ≡ length stream)
              × (w.done < n)))

module _ {S : Type 0} (b : Backend S) (Ready : S → Type 0) (position : S → ℕ) (image : S → ℕ → ℕ)
    (block_size : ℕ) (writer : IsWriter b Ready position image block_size) (size : Option ℕ)
    (offset buf_size : ℕ) (serve : ℕ → ℕ) (canceled : ℕ → Bool) (serves : (k : ℕ) → 0 < serve k)
    (room : block_size ≤ buf_size) (stream : List ℕ) (before : ℕ → ℕ) where
  abbrev IsWriting' : Writer S → Type 0
  IsWriting' w =
      IsWriting b Ready position image block_size writer size offset buf_size serve canceled serves
        room stream before w

  abbrev Chunk' : ℕ → Writer S → Result Raised (Unit {0}) × Writer S → Type 0
  Chunk' =
      Chunk b Ready position image block_size writer size offset buf_size serve canceled serves room
        stream before

  abbrev left_of : Writer S → ℕ
  left_of = todo b size offset buf_size serve canceled

  abbrev end_error : ℕ → Raised
  end_error = ended b size offset buf_size serve canceled

  -- No more is done than the size, if there is one.
  abbrev Bounded : Writer S → Type 0
  Bounded w = (n : ℕ) → size ≡ some n → w.done ≤ n

  -- How the loop ends.
  abbrev LoopEnd : Result Raised (Unit {0}) × Writer S → Type 0
  LoopEnd (x, v) =
      IsWriting' v
      × Bounded v
      × (((x ≡ ok tt) × (left_of v ≡ 0) × GoesOn canceled v.chunks)
          ⊎ ((x ≡ err canceled_error) × Stopped canceled v.chunks)
          ⊎ ((x ≡ err (end_error v.done))
              × GoesOn canceled v.chunks
              × (v.done ≡ length stream)
              × (0 < left_of v)))

  bounded_lem :
      (w v : Writer S) (count : ℕ)
      → Bounded w
      → count ≤ left_of w
      → v.done ≤ w.done + count
      → Bounded v
  unfolding todo
  bounded_lem w v count bw le up n e =
      let t : left_of w ≡ n - w.done = rw e refl in omega (arith, bw n e)

  left_pos :
      (w v : Writer S) (count : ℕ)
      → 0 < buf_size
      → Bounded w
      → count ≤ left_of w
      → v.done < w.done + count
      → 0 < left_of v
  unfolding todo
  left_pos w v count pos bw le up = elim (Option-cases size) [
    | inl e ↦ rw e pos
    | inr (n, e) ↦ let t : left_of w ≡ n - w.done = rw e refl in rw e (omega (arith, bw n e))
  ]

  -- What follows a chunk.
  after-Chunk :
      (w : Writer S) (count : ℕ) (p : Result Raised (Unit {0}) × Writer S)
      (k : Writer S → Result Raised (Unit {0}) × Writer S)
      → 0 < buf_size
      → count ≤ left_of w
      → Bounded w
      → Chunk' count w p
      → GoesOn canceled w.chunks
      → ((v : Writer S)
          → IsWriting' v
          → Bounded v
          → v.done ≡ w.done + count
          → GoesOn canceled v.chunks
          → LoopEnd (k v))
      → LoopEnd (continue p (λ _. k))
  after-Chunk w count (ok tt, v) k pos le bw (iv, up, inl (_, e, c)) g h =
      h v iv (bounded_lem w v count bw le up) e (GoesOn-Checked canceled w.chunks v.chunks c g)
  after-Chunk w count (ok tt, v) k pos le bw (iv, up, inr (inl (e, _))) g h = cc
  after-Chunk w count (ok tt, v) k pos le bw (iv, up, inr (inr (e, _, _, _))) g h = cc
  after-Chunk w count (err x, v) k pos le bw (iv, up, inl (e, _, _)) g h = cc
  after-Chunk w count (err x, v) k pos le bw (iv, up, inr (inl (e, c))) g h = (
    iv,
    bounded_lem w v count bw le up,
    inr (inl (e, Stopped-Checked canceled w.chunks v.chunks c g)),
  )
  after-Chunk w count (err x, v) k pos le bw (iv, up, inr (inr (e, same, at, lt))) g h = (
    iv,
    bounded_lem w v count bw le up,
    inr (inr (e, subst (GoesOn canceled) (sym same) g, at, left_pos w v count pos bw le lt)),
  )

  loop_lem :
      (fuel : ℕ) (w : Writer S)
      → 0 < buf_size
      → length stream - w.done < fuel
      → Bounded w
      → IsWriting' w
      → GoesOn canceled w.chunks
      → LoopEnd (write_loop b size offset buf_size serve canceled fuel w)
  unfolding write_loop
  loop_lem zero w pos h bw v g = absurd (omega arith)
  loop_lem (suc fuel) w pos h bw v g = elim (==-cases (left_of w) 0) [
    | inl (t, z) ↦ rw t (v, bw, inl (refl, z, g))
    | inr (t, nz) ↦
        let count = min (left_of w) buf_size in
        rw t (
          after-Chunk w count (write_chunk b size offset buf_size serve canceled count w)
            (write_loop b size offset buf_size serve canceled fuel) pos (omega arith) bw
            (chunk_lem b Ready position image block_size writer size offset buf_size serve canceled
              serves room stream before count w (omega arith) v)
            g λ u iu bu e gu. loop_lem fuel u pos (omega (arith, iu.within)) bu iu gu)
  ]

  body_lem :
      (fuel : ℕ) (s : S)
      → 0 < buf_size
      → length stream < fuel
      → Ready s
      → ((i : ℕ) → image s i ≡ before i)
      → LoopEnd (write_body b size offset buf_size serve canceled fuel (start s stream))
  unfolding write_body call
  body_lem fuel s pos h rd same =
      let (t, e, rt, at, keeps) = writer.seeks offset s rd in
      let w = start t stream in
      let iw : IsWriting' w = record {
        ready = rt;
        at = omega arith;
        within = omega arith;
        left = refl;
        holds = λ i. ground (arith, keeps i, same i);
      } in
      let bw : Bounded w = λ n _. omega arith in
      let unaligned = offset % block_size in
      let count = min (left_of w) (block_size - unaligned) in
      rw e (
        rw (writer.same_block_size t rt) (elim (==-cases unaligned 0) [
          | inl (z, _) ↦ rw z (loop_lem fuel w pos (omega arith) bw iw tt)
          | inr (nz, _) ↦ rw nz (
              after-Chunk w count (write_chunk b size offset buf_size serve canceled count w)
                (write_loop b size offset buf_size serve canceled fuel) pos (omega arith) bw
                (chunk_lem b Ready position image block_size writer size offset buf_size serve
                  canceled serves room stream before count w (omega arith) iw)
                tt λ u iu bu _ gu. loop_lem fuel u pos (omega (arith, iu.within)) bu iu gu)
        ]))

  finish_flush :
      (flush : Bool) (v : Writer S)
      → IsWriting' v
      → Complete b image size offset stream canceled before v.done
      → GoesOn canceled v.chunks
      → WriteEnd b image size offset stream canceled before
          ((if flush then call b.flush else pure tt) v)
  unfolding call
  finish_flush true v iv c g =
      let (t, e, rt, keeps) = writer.flushes v.backend iv.ready in
      rw e ((λ i. keeps i ∙ iv.holds i), iv.within, inl (refl, c, g))
  finish_flush false v iv c g = (iv.holds, iv.within, inl (refl, c, g))

  finish_lem :
      (flush : Bool) (p : Result Raised (Unit {0}) × Writer S)
      → 0 < buf_size
      → LoopEnd p
      → WriteEnd b image size offset stream canceled before (
          continue
            (caught b size offset buf_size serve canceled p)
            (λ _. if flush then call b.flush else pure tt))
  unfolding todo ended
  finish_lem flush (ok tt, v) pos (iv, bw, inl (_, z, g)) =
      finish_flush flush v iv
        (elim (Option-cases size) [
          | inl e ↦ absurd (let t : left_of v ≡ buf_size = rw e refl in omega arith)
          | inr (n, e) ↦
              let t : left_of v ≡ n - v.done = rw e refl in
              let d : v.done ≡ n = omega (arith, bw n e) in rw e d
        ])
        g
  finish_lem flush (ok tt, v) pos (iv, bw, inr (inl (e, _))) = cc
  finish_lem flush (ok tt, v) pos (iv, bw, inr (inr (e, _, _, _))) = cc
  finish_lem flush (err x, v) pos (iv, bw, inl (e, _, _)) = cc
  finish_lem flush (err x, v) pos (iv, bw, inr (inl (e, g))) =
      let q : x ≡ canceled_error = cc in rw q (iv.holds, iv.within, inr (inl (refl, g)))
  finish_lem flush (err x, v) pos (iv, bw, inr (inr (e, g, at, more))) =
      let q : x ≡ end_error v.done = cc in
      elim (Option-cases size) [
        | inl f ↦
            let r : end_error v.done ≡ end_of_stream = rw f refl in
            rw (q ∙ r) (finish_flush flush v iv (rw f at) g)
        | inr (n, f) ↦
            let r : end_error v.done ≡ partial_content n (n - v.done) = rw f refl in
            let t : left_of v ≡ n - v.done = rw f refl in
            rw (q ∙ r) (iv.holds, iv.within, inr (inr (n, f, g, refl, at, omega arith)))
      ]

-- A write to a backend that meets `IsWriter`, with a buffer of a block at least, from a stream that
-- returns bytes until it ends, and with fuel above the length of the stream. It ends, and the image
-- then holds the first bytes of the stream at the offset, as many as were done, and is unchanged
-- elsewhere. Either it returns, with all of the size done, or all of the stream if no size is given, or
-- the stream ended before the size and it raises a partial content error, and in both cases the cancel
-- flag was not set when any of its chunks ended; or it raises the cancellation, and the flag was set
-- when its last chunk ended and not before.
pub write_run_lem :
    {S : Type 0} (b : Backend S) (Ready : S → Type 0) (position : S → ℕ) (image : S → ℕ → ℕ)
    (block_size : ℕ)
    → IsWriter b Ready position image block_size
    → (size : Option ℕ) (offset buf_size : ℕ) (serve : ℕ → ℕ) (canceled : ℕ → Bool)
    → ((k : ℕ) → 0 < serve k)
    → block_size ≤ buf_size
    → (stream : List ℕ) (s : S) → Ready s
    → (fuel : ℕ) (flush : Bool) → length stream < fuel
    → WriteEnd b image size offset stream canceled
        (image s)
        (write_run b size offset buf_size serve canceled flush fuel (start s stream))
unfolding write_run call
write_run_lem b Ready position image block_size writer size offset buf_size serve canceled serves
      room stream s rd fuel flush h =
    let pos : 0 < buf_size = omega (arith, writer.positive) in
    finish_lem b Ready position image block_size writer size offset buf_size serve canceled serves
      room stream (image s) flush
      (write_body b size offset buf_size serve canceled fuel (start s stream)) pos
      (body_lem b Ready position image block_size writer size offset buf_size serve canceled serves
        room stream (image s) fuel s pos h rd (λ i. refl))
