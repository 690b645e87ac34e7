-- ===== src/Ops/Writing/Chunks.antt =====
-- The inner loops of `Write` of ovirt_imageio/_internal/ops.py.
use ovirt_imageio.Base.{
  ℕ, zero, suc, ◌+◌, ◌-◌, ◌≤◌, ◌<◌, ◌≡◌, refl, ap, sym, ◌∙◌, true, inl, inr, List, [], ◌∷◌, ◌++◌,
  arith, length, take, drop, length-drop, ==-cases, take-take-drop, drop-drop,
}
use ovirt_imageio.Base.Bytes.{byte_at, byte_at-drop}
use ovirt_imageio.Base.Exec.{ok}
use ovirt_imageio.Backends.{Backend}
use ovirt_imageio.Backends.Writer.{IsWriter, overlaid}
use ovirt_imageio.Ops.Writing.{Writer, call, served, after_read, receive, store}

-- Only the stream moved.
pub record SameBut {S : Type 0} (v w : Writer S) : Type 0 where
  pub backend : w.backend ≡ v.backend
  pub done : w.done ≡ v.done
  pub chunks : w.chunks ≡ v.chunks

module _ {ℓ} {A : Type ℓ} where
  take-empty : (n : ℕ) (xs : List A) → length xs ≡ 0 → take n xs ≡ []
  take-empty zero xs e = refl
  take-empty (suc n) [] e = refl
  take-empty (suc n) (x ∷ xs) e = absurd (omega arith)

  drop-empty : (m n : ℕ) (xs : List A) → length xs ≡ 0 → drop m xs ≡ drop n xs
  drop-empty zero zero [] e = refl
  drop-empty zero (suc n) [] e = refl
  drop-empty (suc m) zero [] e = refl
  drop-empty (suc m) (suc n) [] e = refl
  drop-empty m n (x ∷ xs) e = absurd (omega arith)

module _ {S : Type 0} (serve : ℕ → ℕ) (serves : (k : ℕ) → 0 < serve k) where
  -- What is received is the start of the stream, up to `count` bytes, whatever the sizes of the reads.
  pub receive_lem :
      (fuel count : ℕ) (w : Writer S)
      → count ≤ fuel
      → ((receive serve fuel count w).0 ≡ take count w.stream)
        × ((receive serve fuel count w).1.stream ≡ drop count w.stream)
        × SameBut w (receive serve fuel count w).1
        × ((receive serve fuel count w).2 ≡ true)
  unfolding receive
  receive_lem zero zero w h =
      (refl, refl, record { backend = refl; done = refl; chunks = refl }, refl)
  receive_lem zero (suc count) w h = absurd (omega arith)
  receive_lem (suc fuel) count w h = elim (==-cases count 0) [
    | inl (t, z) ↦
        rw t (rw z (refl, refl, record { backend = refl; done = refl; chunks = refl }, refl))
    | inr (t, nz) ↦ elim (==-cases (served serve count w) 0) [
      | inl (u, empty) ↦
          let ended : length w.stream ≡ 0 = omega (arith, serves w.reads) in
          rw t (
            rw u (
              sym (take-empty count w.stream ended),
              drop-empty (served serve count w) count w.stream ended,
              record { backend = refl; done = refl; chunks = refl },
              refl,
            ))
      | inr (u, some_bytes) ↦
          let n = served serve count w in
          let (got, left, same, ended) =
            receive_lem fuel (count - n) (after_read serve count w) (omega arith) in
          rw t (
            rw u (
              ap (λ ys. take n w.stream ++ ys) got
                  ∙ sym (take-take-drop n (count - n) count w.stream (omega arith)),
              left ∙ drop-drop (count - n) n count w.stream (omega arith),
              record { backend = same.backend; done = same.done; chunks = same.chunks },
              ended,
            ))
    ]
  ]

module _ {S : Type 0} (b : Backend S) (Ready : S → Type 0) (position : S → ℕ) (image : S → ℕ → ℕ)
    (block_size : ℕ) (writer : IsWriter b Ready position image block_size) where
  -- What `store` leaves behind: the bytes are in the image and nothing else has changed.
  pub record IsStored (bytes : List ℕ) (w v : Writer S) : Type 0 where
    pub ready : Ready v.backend
    pub at : position v.backend ≡ position w.backend + length bytes
    pub holds :
        (i : ℕ)
        → image v.backend i
          ≡ overlaid (image w.backend) (position w.backend) (length bytes) (byte_at bytes) i
    pub stream : v.stream ≡ w.stream
    pub done : v.done ≡ w.done
    pub chunks : v.chunks ≡ w.chunks

  pub store_lem :
      (fuel : ℕ) (bytes : List ℕ) (w : Writer S)
      → length bytes < fuel
      → Ready w.backend
      → (v : Writer S) × (store b fuel bytes w ≡ (ok tt, v)) × IsStored bytes w v
  unfolding store call
  store_lem zero bytes w h rd = absurd (omega arith)
  store_lem (suc fuel) bytes w h rd = elim (==-cases (length bytes) 0) [
    | inl (t, z) ↦ rw t (
      w,
      refl,
      record {
        ready = rd;
        at = omega arith;
        holds = λ i. ground arith;
        stream = refl;
        done = refl;
        chunks = refl;
      },
    )
    | inr (t, nz) ↦
        let (s, n, e, rs, pos, le, at, holds) = writer.writes bytes w.backend rd (omega arith) in
        let (v, f, st) =
          store_lem fuel (drop n bytes) (record w { backend = s })
            (omega (arith, length-drop n bytes)) rs in
        rw (t, e)
          (
            v,
            f,
            record {
              ready = st.ready;
              at = omega (arith, st.at, length-drop n bytes);
              holds = λ i. ground (
                arith,
                st.holds i,
                holds i,
                length-drop n bytes,
                byte_at-drop n bytes (i - position s),
              );
              stream = st.stream;
              done = st.done;
              chunks = st.chunks;
            },
          )
  ]
