-- ===== src/Backends/File/Interface.antt =====
-- The backend of ovirt_imageio/_internal/backends/file.py as the operations use it.
use ovirt_imageio.Base.{
  ℕ, ◌+◌, ◌-◌, ◌%◌, ◌^◌, ◌≤◌, ◌<◌, min, ◌≡◌, refl, ap, sym, subst, ◌∙◌, Bool, true, false, List,
  arith, inl, inr, ◌⊎◌, length, replicate, take, drop, length-replicate,
}
use ovirt_imageio.Base.Bytes.{byte_at, byte_at-zeros}
use ovirt_imageio.Base.Bits.{pow_pos}
use ovirt_imageio.Base.Exec.{Result, ok}
use ovirt_imageio.Util.{round_down}
use ovirt_imageio.Backends.{Error}
use ovirt_imageio.Backends.Reader.{IsReader}
use ovirt_imageio.Backends.Writer.{IsWriter}
use ovirt_imageio.Backends.Fio.{Fio, IsFio}
use ovirt_imageio.Backends.File.{
  File, regular, file, on_fio, tell, readinto, write_unaligned, is_slow, zero_bytes, zero_blocks,
  flush,
}
use ovirt_imageio.Backends.File.Blocks.{
  IsReady, Wrote, tell_lem, seek_lem, round_down_lem, mod_lem, write_lem, write_unaligned_lem,
  slow-cases, touched, touched-IsReady,
}
use ovirt_imageio.Backends.File.Halves.{Zeroes}
use ovirt_imageio.Backends.File.Zeroes.{zero_file_lem, zero_file_sparse_lem}

module _ {F : Type 0} (fio : Fio F) (Good : F → Type 0) (content : F → List ℕ) (k : ℕ)
    (io : IsFio fio Good content (2 ^ k)) where
  abbrev Ready : File F → Type 0
  Ready s = IsReady fio Good content k io s

  abbrev position : File F → ℕ
  position s = fio.tell s.fio

  abbrev image : File F → ℕ → ℕ
  image s = byte_at (content s.fio)

  abbrev Zeroing : ℕ → File F → Result Error ℕ × File F → Type 0
  Zeroing count s p = Zeroes fio Good content k io count s p

  zero-slow :
      (count : ℕ) (s : File F)
      → Ready s
      → is_slow (2 ^ k) (position s) count ≡ true
      → zero_bytes fio count s
        ≡ write_unaligned fio
            (replicate (min count (2 ^ k - position s % 2 ^ k)) 0)
            (touched fio Good content k io s)
  unfolding zero_bytes tell on_fio
  zero-slow count s r slow = rw (r.opened, r.blocks, slow) refl

  zero-fast :
      (count : ℕ) (s : File F)
      → Ready s
      → is_slow (2 ^ k) (position s) count ≡ false
      → zero_bytes fio count s
        ≡ zero_blocks fio s.kind s.sparse
            (round_down count (2 ^ k))
            (touched fio Good content k io s)
  unfolding zero_bytes tell on_fio
  zero-fast count s r fast = rw (r.opened, r.blocks, fast) refl

  blocks_lem :
      (sparse : Bool) (count : ℕ) (s : File F)
      → Ready s
      → 0 < count
      → Zeroing count s (zero_blocks fio regular sparse count s)
  blocks_lem true count s r pos = zero_file_sparse_lem fio Good content k io count s r pos
  blocks_lem false count s r pos = zero_file_lem fio Good content k io count s r pos

  -- `zero` zeros a part of the range at least, and changes no other byte.
  zero_bytes_lem :
      (count : ℕ) (s : File F)
      → Ready s
      → 0 < count
      → (t : File F) × (n : ℕ) × (zero_bytes fio count s ≡ (ok n, t))
        × (0 < n)
        × (n ≤ count)
        × Wrote fio Good content k io n (λ _. 0) s t
  zero_bytes_lem count s r pos =
      let r' = touched-IsReady fio Good content k io s r in
      let dirty = touched fio Good content k io s in
      elim (slow-cases fio Good content k io (position s) count) [
        | inl slow ↦
            let low = mod_lem fio Good content k io (position s) in
            let size : ℕ = min count (2 ^ k - position s % 2 ^ k) in
            let z : ℕ = 0 in
            let len : length (replicate size z) ≡ size = length-replicate size z in
            let (t, e, w) = write_unaligned_lem fio Good content k io (replicate size 0) dirty r' in
            let all : min (length (replicate size z)) (2 ^ k - position s % 2 ^ k) ≡ size =
              omega (arith, len) in
            (
              t,
              size,
              zero-slow count s r slow ∙ e ∙ ap (λ n. (ok n, t)) all,
              omega (arith, low, pos),
              omega arith,
              record {
                ready = w.ready;
                moved = w.moved ∙ ap (λ n. position s + n) all;
                changed =
                    λ i. ground (arith, w.changed i, all, byte_at-zeros size (i - position s));
              },
            )
        | inr (fast, even, room) ↦
            let (low, down, up) = round_down_lem fio Good content k io count in
            let size : ℕ = round_down count (2 ^ k) in
            let (t, e, w) =
              subst (λ kind. Zeroing size dirty (zero_blocks fio kind s.sparse size dirty))
                (sym r.is_file) (blocks_lem s.sparse size dirty r' (omega (arith, pow_pos k))) in
            (
              t,
              size,
              zero-fast count s r fast ∙ e,
              omega (arith, pow_pos k),
              down,
              record { ready = w.ready; moved = w.moved; changed = w.changed },
            )
      ]

  flush_lem :
      (s : File F)
      → Ready s
      → (t : File F) × (flush fio s ≡ (ok tt, t)) × Ready t × (content t.fio ≡ content s.fio)
  unfolding flush on_fio
  flush_lem s r =
      let (f, e, good, same) = io.syncs s.fio r.good in
      (
        record s { fio = f; dirty = false },
        rw (r.opened, e) refl,
        record { good = good; opened = r.opened; blocks = r.blocks; is_file = r.is_file },
        same,
      )

  read_lem :
      (n : ℕ) (s : File F)
      → Ready s
      → position s % 2 ^ k ≡ 0
      → n % 2 ^ k ≡ 0
      → (t : File F) × (count : ℕ) × (readinto fio n s
          ≡ (ok (take count (drop (position s) (content s.fio))), t))
        × Ready t
        × (content t.fio ≡ content s.fio)
        × (position t ≡ position s + count)
        × (count ≤ n)
        × (0 < count → position t ≤ length (content s.fio))
        × (0 < n → position s < length (content s.fio) → 0 < count)
        × ((count % 2 ^ k ≡ 0) ⊎ (position t ≡ length (content s.fio)))
  unfolding readinto on_fio
  read_lem n s r even whole =
      let (f, count, e, good, same, at, le, inside, some_bytes, ends) =
        io.reads n s.fio r.good even whole in
      (
        record s { fio = f },
        count,
        rw (r.opened, e) refl,
        record { good = good; opened = r.opened; blocks = r.blocks; is_file = r.is_file },
        same,
        at,
        le,
        inside,
        some_bytes,
        ends,
      )

  -- Over a file object that meets `IsFio` with blocks of `2 ^ k` bytes, a backend that is open on a
  -- regular file, sparse or not, meets the interface of `Write` and `Zero`, at any position and for any
  -- number of bytes: its image are the bytes of the file, and zeros behind them.
  pub file-IsWriter : IsWriter (file fio) Ready position image (2 ^ k)
  unfolding file
  file-IsWriter = record {
    positive = pow_pos k;
    same_block_size = λ s r. r.blocks;
    seeks = λ n s r.
        let (good, at, same) = io.seeks n s.fio r.good in
        (
          record s { fio = fio.seek n s.fio },
          seek_lem fio Good content k io n s r,
          record { good = good; opened = r.opened; blocks = r.blocks; is_file = r.is_file },
          at,
          λ i. ap (λ xs. byte_at xs i) same,
        );
    writes = λ buf s r pos.
        let (t, n, e, some_bytes, le, w) = write_lem fio Good content k io buf s r pos in
        (t, n, e, w.ready, some_bytes, le, w.moved, w.changed);
    zeroes = λ count s r pos.
        let (t, n, e, some_bytes, le, w) = zero_bytes_lem count s r pos in
        (t, n, e, w.ready, some_bytes, le, w.moved, w.changed);
    flushes = λ s r.
        let (t, e, ready, same) = flush_lem s r in (t, e, ready, λ i. ap (λ xs. byte_at xs i) same);
  }

  -- The states in which the file has the bytes `xs`.
  pub record IsHolding (xs : List ℕ) (s : File F) : Type 0 where
    pub ready : Ready s
    pub holds : content s.fio ≡ xs

  -- Over a file object that meets `IsFio` with blocks of `2 ^ k` bytes, a backend that is open on a
  -- regular file with the bytes `xs` meets the interface of `Read` with that block size.
  pub file-IsReader : (xs : List ℕ) → IsReader (file fio) (IsHolding xs) position xs (2 ^ k)
  unfolding file
  file-IsReader xs = record {
    positive = pow_pos k;
    same_block_size = λ s r. r.ready.blocks;
    tells = λ s r. tell_lem fio Good content k io s r.ready;
    seeks = λ n s r.
        let r' = r.ready in
        let (good, at, same) = io.seeks n s.fio r'.good in
        (
          record s { fio = fio.seek n s.fio },
          seek_lem fio Good content k io n s r',
          record {
            ready = record {
              good = good;
              opened = r'.opened;
              blocks = r'.blocks;
              is_file = r'.is_file;
            };
            holds = same ∙ r.holds;
          },
          at,
        );
    reads = λ n s r even whole inside.
        let (t, count, e, ready, same, at, le, low, some_bytes, ends) =
          read_lem n s r.ready even whole in
        (
          t,
          count,
          e ∙ ap (λ ys. (ok (take count (drop (position s) ys)), t)) r.holds,
          record { ready = ready; holds = same ∙ r.holds },
          at,
          le,
          ground (arith, low, at, r.holds, inside),
          λ pos lt. some_bytes pos (subst (λ ys. position s < length ys) (sym r.holds) lt),
          subst (λ ys. (count % 2 ^ k ≡ 0) ⊎ (position t ≡ length ys)) r.holds ends,
        );
  }
