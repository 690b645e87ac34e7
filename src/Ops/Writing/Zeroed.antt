-- ===== src/Ops/Writing/Zeroed.antt =====
-- `Zero` of ovirt_imageio/_internal/ops.py, and the image.
use ovirt_imageio.Base.{
  ℕ, zero, suc, ◌+◌, ◌-◌, ◌≤◌, ◌<◌, min, ◌≡◌, refl, ◌∙◌, Bool, true, false, inl, inr, ◌⊎◌, [],
  arith, if◌then◌else◌, ==-cases, Bool-cases,
}
use ovirt_imageio.Base.Exec.{Result, ok, err, continue, pure}
use ovirt_imageio.Backends.{Backend}
use ovirt_imageio.Backends.Writer.{IsWriter, overlaid}
use ovirt_imageio.Ops.Canceled.{GoesOn, Stopped, GoesOn-Checked, Stopped-Checked}
use ovirt_imageio.Ops.{Raised, canceled_error}
use ovirt_imageio.Ops.Writing.{Writer, call, max_zero_step, zero_loop, zero_run, start}

-- How a zero operation ends, and what the image then holds.
abbrev pub ZeroEnd :
    {S : Type 0}
    → (S → ℕ → ℕ)
    → ℕ
    → ℕ
    → (ℕ → Bool)
    → (ℕ → ℕ)
    → Result Raised (Unit {0}) × Writer S
    → Type 0
ZeroEnd image size offset canceled before (x, w) =
    ((i : ℕ) → image w.backend i ≡ overlaid before offset w.done (λ _. 0) i)
    × (((x ≡ ok tt) × (w.done ≡ size) × GoesOn canceled w.chunks)
        ⊎ ((x ≡ err canceled_error) × (w.done ≤ size) × Stopped canceled w.chunks))

module _ {S : Type 0} (b : Backend S) (Ready : S → Type 0) (position : S → ℕ) (image : S → ℕ → ℕ)
    (block_size : ℕ) (writer : IsWriter b Ready position image block_size) (size offset : ℕ)
    (canceled : ℕ → Bool) (before : ℕ → ℕ) where
  record IsZeroing (w : Writer S) : Type 0 where
    ready : Ready w.backend
    at : position w.backend ≡ offset + w.done
    within : w.done ≤ size
    holds : (i : ℕ) → image w.backend i ≡ overlaid before offset w.done (λ _. 0) i

  abbrev Loop : Result Raised (Unit {0}) × Writer S → Type 0
  Loop (x, w) =
      IsZeroing w
      × (((x ≡ ok tt) × (w.done ≡ size) × GoesOn canceled w.chunks)
          ⊎ ((x ≡ err canceled_error) × Stopped canceled w.chunks))

  loop_lem :
      (fuel : ℕ) (w : Writer S)
      → size - w.done < fuel
      → IsZeroing w
      → GoesOn canceled w.chunks
      → Loop (zero_loop b size offset canceled fuel w)
  unfolding zero_loop call
  loop_lem zero w h v g = absurd (omega arith)
  loop_lem (suc fuel) w h v g = elim (==-cases (size - w.done) 0) [
    | inl (t, z) ↦ rw t (v, inl (refl, omega (arith, v.within), g))
    | inr (t, nz) ↦
        let (s, n, e, rs, pos, le, at, holds) =
          writer.zeroes (min (size - w.done) max_zero_step) w.backend v.ready (omega arith) in
        let u : Writer S = record w { backend = s; done = w.done + n; chunks = w.chunks + 1 } in
        let iu : IsZeroing u = record {
          ready = rs;
          at = omega (arith, v.at);
          within = omega arith;
          holds = λ i. ground (arith, holds i, v.holds i, v.at);
        } in
        rw t (
          rw e (elim (Bool-cases (canceled w.chunks)) [
            | inl stop ↦
                rw stop (iu, inr (refl, Stopped-Checked canceled w.chunks u.chunks (stop, refl) g))
            | inr go ↦ rw go (
                loop_lem fuel u (omega arith) iu
                  (GoesOn-Checked canceled w.chunks u.chunks (go, refl) g))
          ]))
  ]

  finish_lem :
      (flush : Bool) (p : Result Raised (Unit {0}) × Writer S)
      → Loop p
      → ZeroEnd image size offset canceled before
          (continue p (λ _. if flush then call b.flush else pure tt))
  unfolding call
  finish_lem true (ok tt, w) (v, inl (_, d, g)) =
      let (t, e, rt, keeps) = writer.flushes w.backend v.ready in
      rw e (λ i. keeps i ∙ v.holds i, inl (refl, d, g))
  finish_lem false (ok tt, w) (v, inl (_, d, g)) = (v.holds, inl (refl, d, g))
  finish_lem flush (ok tt, w) (v, inr (e, _)) = cc
  finish_lem flush (err x, w) (v, inl (e, _, _)) = cc
  finish_lem flush (err x, w) (v, inr (e, g)) = (v.holds, inr (e, v.within, g))

-- A zero operation on a backend that meets `IsWriter`, with fuel above its size. It ends, and the image
-- is then zero in the range that was done and unchanged elsewhere. Either it returns with the whole
-- size done, and the cancel flag was not set when any of its steps ended, or it raises the cancellation,
-- and the flag was set when its last step ended and not before.
pub zero_run_lem :
    {S : Type 0} (b : Backend S) (Ready : S → Type 0) (position : S → ℕ) (image : S → ℕ → ℕ)
    (block_size : ℕ)
    → IsWriter b Ready position image block_size
    → (size offset : ℕ) (canceled : ℕ → Bool) (s : S) → Ready s
    → (fuel : ℕ) (flush : Bool) → size < fuel
    → ZeroEnd image size offset canceled
        (image s)
        (zero_run b size offset canceled flush fuel (start s []))
unfolding zero_run call
zero_run_lem b Ready position image block_size writer size offset canceled s rd fuel flush h =
    let (t, e, rt, at, keeps) = writer.seeks offset s rd in
    rw e (
      finish_lem b Ready position image block_size writer size offset canceled (image s) flush
        (zero_loop b size offset canceled fuel (start t []))
        (loop_lem b Ready position image block_size writer size offset canceled (image s) fuel
          (start t []) (omega arith)
          (record {
            ready = rt;
            at = omega arith;
            within = omega arith;
            holds = λ i. ground (arith, keeps i);
          })
          tt))
