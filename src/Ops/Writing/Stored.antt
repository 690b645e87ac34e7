-- ===== src/Ops/Writing/Stored.antt =====
-- One chunk of `Write` of ovirt_imageio/_internal/ops.py, and the image.
use ovirt_imageio.Base.{
  ℕ, zero, suc, ◌+◌, ◌-◌, ◌≤◌, ◌<◌, min, ◌≡◌, refl, ap, sym, ◌∙◌, Bool, true, false, inl, inr, ◌⊎◌,
  Option, List, [], ◌∷◌, arith, length, take, drop, length-take, length-drop, ltb-cases, leb-cases,
  Bool-cases, drop-drop,
}
use ovirt_imageio.Base.Bytes.{byte_at, byte_at-take, byte_at-drop}
use ovirt_imageio.Base.Exec.{Result, ok, err}
use ovirt_imageio.Backends.{Backend}
use ovirt_imageio.Backends.Writer.{IsWriter, overlaid}
use ovirt_imageio.Ops.Canceled.{Checked}
use ovirt_imageio.Ops.{Raised, canceled_error}
use ovirt_imageio.Ops.Writing.{Writer, receive, ended, check_canceled, write_chunk}
use ovirt_imageio.Ops.Writing.Chunks.{SameBut, receive_lem, IsStored, store_lem}

same_byte : (xs : List ℕ) (i j : ℕ) → i ≡ j → byte_at xs i ≡ byte_at xs j
same_byte xs i j e = ap (byte_at xs) e

drop-past : (m n : ℕ) (xs : List ℕ) → length xs ≤ m → length xs ≤ n → drop m xs ≡ drop n xs
drop-past zero zero [] h k = refl
drop-past zero (suc n) [] h k = refl
drop-past (suc m) zero [] h k = refl
drop-past (suc m) (suc n) [] h k = refl
drop-past zero n (x ∷ xs) h k = absurd (omega arith)
drop-past (suc m) zero (x ∷ xs) h k = absurd (omega arith)
drop-past (suc m) (suc n) (x ∷ xs) h k = drop-past m n xs (omega arith) (omega arith)

drop-min :
    (count d e n : ℕ) (xs : List ℕ)
    → e ≡ d + n
    → n ≡ min count (length xs - d)
    → d ≤ length xs
    → drop (d + count) xs ≡ drop e xs
drop-min count d e n xs p q le = elim (leb-cases count (length xs - d)) [
  | inl (_, fits) ↦ let r : d + count ≡ e = omega arith in rw r
  | inr (_, past) ↦ drop-past (d + count) e xs (omega arith) (omega arith)
]

module _ {S : Type 0} (b : Backend S) (Ready : S → Type 0) (position : S → ℕ) (image : S → ℕ → ℕ)
    (block_size : ℕ) (writer : IsWriter b Ready position image block_size) (size : Option ℕ)
    (offset buf_size : ℕ) (serve : ℕ → ℕ) (canceled : ℕ → Bool) (serves : (k : ℕ) → 0 < serve k)
    (room : block_size ≤ buf_size) (stream : List ℕ) (before : ℕ → ℕ) where
  -- The first `done` bytes of the stream are in the image, at the offset.
  pub record IsWriting (w : Writer S) : Type 0 where
    pub ready : Ready w.backend
    pub at : position w.backend ≡ offset + w.done
    pub within : w.done ≤ length stream
    pub left : w.stream ≡ drop w.done stream
    pub holds : (i : ℕ) → image w.backend i ≡ overlaid before offset w.done (byte_at stream) i

  -- How a chunk of `count` bytes ends.
  abbrev pub Chunk : ℕ → Writer S → Result Raised (Unit {0}) × Writer S → Type 0
  Chunk count w (x, v) =
      IsWriting v
      × (v.done ≤ w.done + count)
      × (((x ≡ ok tt) × (v.done ≡ w.done + count) × Checked canceled false w.chunks v.chunks)
          ⊎ ((x ≡ err canceled_error) × Checked canceled true w.chunks v.chunks)
          ⊎ ((x ≡ err (ended b size offset buf_size serve canceled v.done))
              × (v.chunks ≡ w.chunks)
              × (v.done ≡ length stream)
              × (v.done < w.done + count)))

  -- Once the bytes received are stored and counted.
  counted_lem :
      (count : ℕ) (w : Writer S) (bytes : List ℕ) (w' u : Writer S) (chunks : ℕ)
      → IsWriting w
      → bytes ≡ take count w.stream
      → w'.stream ≡ drop count w.stream
      → SameBut w w'
      → IsStored b Ready position image block_size writer bytes w' u
      → IsWriting (record u { done = u.done + length bytes; chunks = chunks })
        × (u.done ≡ w.done)
        × (u.chunks ≡ w.chunks)
        × (length bytes ≡ min count (length stream - w.done))
  counted_lem count w bytes w' u chunks v got rest same st =
      let got' : bytes ≡ take count (drop w.done stream) = got ∙ ap (take count) v.left in
      let n : length bytes ≡ min count (length stream - w.done) =
        ap length got'
        ∙ omega (arith, length-take count (drop w.done stream), length-drop w.done stream) in
      let done' : u.done ≡ w.done = st.done ∙ same.done in
      let pos : position w'.backend ≡ offset + w.done = ap position same.backend ∙ v.at in
      (
        record {
          ready = st.ready;
          at = omega (arith, st.at, pos, done');
          within = omega (arith, v.within, done', n);
          left =
              st.stream
              ∙ rest
              ∙ ap (drop count) v.left
              ∙ drop-drop count w.done (w.done + count) stream refl
              ∙ drop-min count w.done (u.done + length bytes) (length bytes) stream
                  (ap (λ d. d + length bytes) done') n v.within;
          holds = λ i. ground (
            arith,
            st.holds i,
            v.holds i,
            ap (λ s. image s i) same.backend,
            pos,
            done',
            n,
            v.within,
            ap (λ ys. byte_at ys (i - position w'.backend)) got',
            byte_at-take count (drop w.done stream) (i - position w'.backend),
            byte_at-drop w.done stream (i - position w'.backend),
            same_byte stream (w.done + (i - position w'.backend)) (i - offset),
          );
        },
        done',
        st.chunks ∙ same.chunks,
        n,
      )

  pub chunk_lem :
      (count : ℕ) (w : Writer S)
      → count ≤ buf_size
      → IsWriting w
      → Chunk count w (write_chunk b size offset buf_size serve canceled count w)
  unfolding write_chunk check_canceled
  chunk_lem count w fits v =
      let view : min count buf_size ≡ count = omega arith in
      let (got, rest, same, ended) = receive_lem serve serves count count w (omega arith) in
      let (bytes, w', _) = receive serve count count w in
      let ready' : Ready w'.backend = rw same.backend v.ready in
      let (u, e, st) =
        store_lem b Ready position image block_size writer (length bytes + 1) bytes w' (omega arith)
          ready' in
      let written = λ (c : ℕ). counted_lem count w bytes w' u c v got rest same st in
      let (v', done', chunks', n) = written u.chunks in
      let (v'', _, _, _) = written (u.chunks + 1) in
      rw view (
        rw (ended, e)
          (elim (ltb-cases (length bytes) count) [
            | inl (t, short) ↦ rw t (
              v',
              omega (arith, done'),
              inr (inr (refl, chunks', omega (arith, done', n, v.within), omega (arith, done'))),
            )
            | inr (t, full) ↦ rw t (
              v'',
              omega (arith, done', n),
              elim (Bool-cases (canceled u.chunks)) [
                | inl stop ↦
                    rw stop (inr (inl (refl, (ap canceled (sym chunks') ∙ stop, omega arith))))
                | inr go ↦ rw go (
                    inl (
                      refl,
                      omega (arith, done', n),
                      (ap canceled (sym chunks') ∙ go, omega arith),
                    ))
              ],
            )
          ]))
