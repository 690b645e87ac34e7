-- ===== src/Backends/File/Blocks.antt =====
-- Reads and writes of ovirt_imageio/_internal/backends/file.py, block by block.
use ovirt_imageio.Base.{
  ℕ, ◌+◌, ◌-◌, ◌%◌, ◌^◌, ◌≤◌, ◌<◌, min, ◌≡◌, refl, ap, ap₂, ◌∙◌, true, false, List, arith,
  if◌then◌else◌, inl, inr, ◌⊎◌, length, take, drop, length-take, leb-cases, ==-cases,
}
use ovirt_imageio.Base.Bytes.{byte_at, byte_at-take}
use ovirt_imageio.Base.Bits.{pow_pos}
use ovirt_imageio.Base.Exec.{ok}
use ovirt_imageio.Util.{round_down, rounding}
use ovirt_imageio.Backends.Writer.{overlaid}
use ovirt_imageio.Backends.Fio.{Fio, IsFio}
use ovirt_imageio.Backends.File.{
  File, regular, on_fio, tell, seek, aligned, modified, write_unaligned, is_slow, write,
}
use ovirt_imageio.Backends.File.Modified.{modified_length, block_byte, aligned_lem}

module _ {F : Type 0} (fio : Fio F) (Good : F → Type 0) (content : F → List ℕ) (k : ℕ)
    (io : IsFio fio Good content (2 ^ k)) where
  abbrev bs : ℕ
  bs = 2 ^ k

  -- The object is open, its file is good and a regular one, and it knows the block size.
  pub record IsReady (s : File F) : Type 0 where
    pub good : Good s.fio
    pub opened : s.is_closed ≡ false
    pub blocks : s.block_size ≡ bs
    pub is_file : s.kind ≡ regular

  abbrev pub position : File F → ℕ
  position s = fio.tell s.fio

  abbrev pub image : File F → ℕ → ℕ
  image s = byte_at (content s.fio)

  -- `n` of the bytes were written at the position.
  pub record Wrote (n : ℕ) (bytes : ℕ → ℕ) (s t : File F) : Type 0 where
    pub ready : IsReady t
    pub moved : position t ≡ position s + n
    pub changed : (i : ℕ) → image t i ≡ overlaid (image s) (position s) n bytes i

  pub tell_lem : (s : File F) → IsReady s → tell fio s ≡ (ok (position s), s)
  unfolding tell on_fio
  tell_lem s r = rw r.opened refl

  pub seek_lem :
      (n : ℕ) (s : File F) → IsReady s → seek fio n s ≡ (ok n, record s { fio = fio.seek n s.fio })
  unfolding seek on_fio
  seek_lem n s r = rw r.opened refl

  -- What `write_unaligned` computes to.
  write_unaligned-steps :
      (buf : List ℕ) (s : File F) (old : List ℕ) (t u : F) (n : ℕ)
      → IsReady s
      → let start : ℕ = fio.tell s.fio in
        let offset : ℕ = start % bs in
        let count : ℕ = min (length buf) (bs - offset) in
        fio.readinto bs (fio.seek (start - offset) s.fio) ≡ (ok old, t)
        → fio.write (modified bs offset old (take count buf)) (fio.seek (start - offset) t)
          ≡ (ok n, u)
        → write_unaligned fio buf s ≡ (ok count, record s { fio = fio.seek (start + count) u })
  unfolding write_unaligned
  write_unaligned-steps buf s old t u n r e f = rw (r.opened, r.blocks, e, f) refl

  whole_lem : (c : ℕ) → 0 < c → c % bs ≡ 0 → c ≤ bs → c ≡ bs
  whole_lem c pos e le = grind (arith, pow_pos k)

  pub mod_lem : (n : ℕ) → n % bs < bs
  mod_lem n = grind (arith, pow_pos k)

  mod_le : (n : ℕ) → n % bs ≤ n
  mod_le n = grind (arith, pow_pos k)

  start_lem : (n : ℕ) → (n - n % bs) % bs ≡ 0
  start_lem n = grind (arith, pow_pos k)

  self_mod : bs % bs ≡ 0
  self_mod = grind (arith, pow_pos k)

  pub round_down_lem :
      (n : ℕ) → (round_down n bs % bs ≡ 0) × (round_down n bs ≤ n) × (n < round_down n bs + bs)
  round_down_lem n = let (_, _, _, even, le, up) = rounding n bs (pow_pos k) in (even, le, up)

  -- Reading the block at an aligned offset.
  read_block :
      (at : ℕ) (f : F)
      → Good f
      → at % bs ≡ 0
      → (t : F) × (c : ℕ) × (fio.readinto bs (fio.seek at f)
          ≡ (ok (take c (drop at (content f))), t))
        × Good t
        × (content t ≡ content f)
        × (c ≤ bs)
        × ((c ≡ bs) ⊎ (length (content f) ≤ at + c))
  read_block at f good even =
      let (good1, tell1, same1) = io.seeks at f good in
      let (t, c, read, good2, same2, tell2, le, _, progress, whole) =
        io.reads bs (fio.seek at f) good1 (rw tell1 even) self_mod in
      let got = read ∙ ap₂ (λ p ys. (ok (take c (drop p ys)), t)) tell1 same1 in
      let lengths = ap length same1 in
      let positive = pow_pos k in
      let reach : (c ≡ bs) ⊎ (length (content f) ≤ at + c) = elim whole [
        | inl blocks ↦ elim (==-cases c 0) [
          | inl (_, none_read) ↦ elim (leb-cases (length (content f)) at) [
            | inl (_, past) ↦ inr (omega arith)
            | inr (_, more) ↦ absurd (omega (arith, progress positive (omega arith)))
          ]
          | inr (_, some_read) ↦ inl (whole_lem c (omega arith) blocks le)
        ]
        | inr last ↦ inr (omega arith)
      ] in
      (t, c, got, good2, same2 ∙ same1, le, reach)

  -- Writing a block at an aligned offset.
  write_block :
      (at : ℕ) (block : List ℕ) (f : F)
      → Good f
      → at % bs ≡ 0
      → length block ≡ bs
      → (t : F) × (n : ℕ) × (fio.write block (fio.seek at f) ≡ (ok n, t))
        × Good t
        × ((i : ℕ) → byte_at (content t) i ≡ overlaid (byte_at (content f)) at bs (byte_at block) i)
  write_block at block f good even len =
      let (good1, tell1, same1) = io.seeks at f good in
      let (t, n, wrote, good2, pos2, le2, whole2, tell2, length2, changed2) =
        io.writes block (fio.seek at f) good1 (rw tell1 even) (rw len self_mod)
          (omega (arith, len, pow_pos k)) in
      let n_all : n ≡ bs = whole_lem n pos2 whole2 (omega (arith, len)) in
      (
        t,
        n,
        wrote,
        good2,
        λ i.
            changed2 i
            ∙ ap₂ (λ ys p. overlaid (byte_at ys) p n (byte_at block) i) same1 tell1
            ∙ ap (λ m. overlaid (byte_at (content f)) at m (byte_at block) i) n_all,
      )

  -- An unaligned write does what it is asked for up to the end of the block, and changes no other byte.
  pub write_unaligned_lem :
      (buf : List ℕ) (s : File F)
      → IsReady s
      → let count : ℕ = min (length buf) (bs - position s % bs) in
        (t : File F) × (write_unaligned fio buf s ≡ (ok count, t)) × Wrote count (byte_at buf) s t
  write_unaligned_lem buf s r =
      let start = position s in
      let offset : ℕ = start % bs in
      let count : ℕ = min (length buf) (bs - offset) in
      let low = mod_lem start in
      let at : ℕ = start - offset in
      let even = start_lem start in
      let xs = content s.fio in
      let new = take count buf in
      let new_length : length new ≡ count = omega (arith, length-take count buf) in
      let (f2, c, read, good2, same2, le, reach) = read_block at s.fio r.good even in
      let block = modified bs offset (take c (drop at xs)) new in
      let (f4, n, wrote, good4, changed4) =
        write_block at block f2 good2 even
          (modified_length bs offset xs new at c le (omega (arith, new_length))) in
      let (good5, tell5, same5) = io.seeks (start + count) f4 good4 in
      let all : at + offset ≡ start = omega (arith, mod_le start) in
      (
        record s { fio = fio.seek (start + count) f4 },
        write_unaligned-steps buf s (take c (drop at xs)) f2 f4 n r read wrote,
        record {
          ready = record {
            good = good5;
            opened = r.opened;
            blocks = r.blocks;
            is_file = r.is_file;
          };
          moved = tell5;
          changed = λ i.
              ap (λ ys. byte_at ys i) same5
              ∙ changed4 i
              ∙ ap (λ ys. overlaid (byte_at ys) at bs (byte_at block) i) same2
              ∙ block_byte bs offset at count xs buf c i le reach (omega arith) (omega arith)
              ∙ ap (λ m. overlaid (byte_at xs) m count (byte_at buf) i) all;
        },
      )

  abbrev pub touched : File F → File F
  touched s = record s { dirty = true }

  pub touched-IsReady : (s : File F) → IsReady s → IsReady (touched s)
  touched-IsReady s r = record {
    good = r.good;
    opened = r.opened;
    blocks = r.blocks;
    is_file = r.is_file;
  }

  -- Whether a position or a size takes the slow path.
  pub slow-cases :
      (start count : ℕ)
      → (is_slow bs start count ≡ true)
        ⊎ ((is_slow bs start count ≡ false) × (start % bs ≡ 0) × (bs ≤ count))
  slow-cases start count = ground (arith, aligned_lem k start)

  write-slow :
      (buf : List ℕ) (s : File F)
      → IsReady s
      → is_slow bs (position s) (length buf) ≡ true
      → write fio buf s ≡ write_unaligned fio buf (touched s)
  unfolding write tell on_fio
  write-slow buf s r slow = rw (r.opened, r.blocks, slow) refl

  write-fast :
      (buf : List ℕ) (s : File F)
      → IsReady s
      → is_slow bs (position s) (length buf) ≡ false
      → write fio buf s
        ≡ (if aligned bs (length buf)
              then on_fio (fio.write buf)
              else on_fio (fio.write (take (round_down (length buf) bs) buf)))
            (touched s)
  unfolding write tell on_fio
  write-fast buf s r fast = rw (r.opened, r.blocks, fast) refl

  -- A write of whole blocks.
  fast_lem :
      (bytes : List ℕ) (s : File F)
      → IsReady s
      → position s % bs ≡ 0
      → length bytes % bs ≡ 0
      → 0 < length bytes
      → (t : File F) × (n : ℕ) × (on_fio (fio.write bytes) s ≡ (ok n, t))
        × (0 < n)
        × (n ≤ length bytes)
        × Wrote n (byte_at bytes) s t
  unfolding on_fio
  fast_lem bytes s r even whole some_bytes =
      let (f, n, wrote, good, pos, le, _, moved, _, changed) =
        io.writes bytes s.fio r.good even whole some_bytes in
      (
        record s { fio = f },
        n,
        rw (r.opened, wrote) refl,
        pos,
        le,
        record {
          ready = record { good = good; opened = r.opened; blocks = r.blocks; is_file = r.is_file };
          moved = moved;
          changed = changed;
        },
      )

  -- Fewer bytes of a list are the same bytes.
  Wrote-take :
      (m n : ℕ) (buf : List ℕ) (s t : File F)
      → n ≤ m
      → Wrote n (byte_at (take m buf)) s t
      → Wrote n (byte_at buf) s t
  Wrote-take m n buf s t le w = record {
    ready = w.ready;
    moved = w.moved;
    changed = λ i. ground (arith, w.changed i, byte_at-take m buf (i - position s));
  }

  -- `write` writes a part of the bytes at least, and changes no other byte.
  pub write_lem :
      (buf : List ℕ) (s : File F)
      → IsReady s
      → 0 < length buf
      → (t : File F) × (n : ℕ) × (write fio buf s ≡ (ok n, t))
        × (0 < n)
        × (n ≤ length buf)
        × Wrote n (byte_at buf) s t
  write_lem buf s r some_bytes =
      let r' = touched-IsReady s r in
      let size : ℕ = length buf in
      let (low, down, up) = round_down_lem size in
      elim (slow-cases (position s) size) [
        | inl slow ↦
            let (t, e, w) = write_unaligned_lem buf (touched s) r' in
            (
              t,
              min size (bs - position s % bs),
              write-slow buf s r slow ∙ e,
              omega (arith, mod_lem (position s)),
              omega arith,
              record { ready = w.ready; moved = w.moved; changed = w.changed },
            )
        | inr (fast, even, room) ↦ elim (==-cases (size % bs) 0) [
          | inl (is_whole, whole) ↦
              let (t, n, e, pos, le, w) = fast_lem buf (touched s) r' even whole some_bytes in
              (
                t,
                n,
                write-fast buf s r fast ∙ rw (aligned_lem k size, is_whole) e,
                pos,
                le,
                record { ready = w.ready; moved = w.moved; changed = w.changed },
              )
          | inr (not_whole, _) ↦
              let part = take (round_down size bs) buf in
              let part_length : length part ≡ round_down size bs =
                omega (arith, length-take (round_down size bs) buf) in
              let (t, n, e, pos, le, w) =
                fast_lem part (touched s) r' even (rw part_length low) (omega (arith, pow_pos k)) in
              let w' = Wrote-take (round_down size bs) n buf (touched s) t (omega arith) w in
              (
                t,
                n,
                write-fast buf s r fast ∙ rw (aligned_lem k size, not_whole) e,
                pos,
                omega arith,
                record { ready = w'.ready; moved = w'.moved; changed = w'.changed },
              )
        ]
      ]
