-- ===== src/Tests/Disk.antt =====
-- The file backend on a file that is kept in memory, with blocks of four bytes.
use ovirt_imageio.Base.{
  ℕ, ◌+◌, ◌-◌, ◌^◌, min, ◌≡◌, refl, ◌⊎◌, inl, inr, true, false, List, [], ◌∷◌, arith, length, take,
  drop, replicate, length-replicate, length-take, length-append, leb-cases, ◌++◌,
}
use ovirt_imageio.Base.Bytes.{byte_at, byte_at-zeros, byte_at-past, byte_at-append, byte_at-take}
use ovirt_imageio.Base.Exec.{Exec, ok, err}
use ovirt_imageio.Util.{round_down}
use ovirt_imageio.Backends.Memory.{splice}
use ovirt_imageio.Backends.Memory.Contents.{length-splice, byte_at-splice}
use ovirt_imageio.Backends.Writer.{IsWriter}
use ovirt_imageio.Backends.Reader.{IsReader}
use ovirt_imageio.Backends.Fio.{
  Fio, IsFio, Fallocate, zero_range, punch_hole, allocate, eopnotsupp, Allocated,
}
use ovirt_imageio.Backends.File.{File, regular, file, detect_block_size}
use ovirt_imageio.Backends.File.Blocks.{IsReady}
use ovirt_imageio.Backends.File.Interface.{IsHolding, file-IsWriter, file-IsReader}

-- The bytes, and the position.
abbrev Ram : Type 0
Ram = List ℕ × ℕ

abbrev stored : Ram → ℕ → List ℕ → List ℕ
stored (xs, p) at bytes = splice at bytes xs

abbrev zeros : ℕ → List ℕ
zeros n = replicate n 0

-- It can punch holes and allocate, but not zero a range.
abbrev ram_fallocate : Fallocate → ℕ → ℕ → Exec ℕ Ram (Unit {0})
ram_fallocate zero_range at n f = (err eopnotsupp, f)
ram_fallocate punch_hole at n (xs, p) = (ok tt, (take (length xs) (splice at (zeros n) xs), p))
ram_fallocate allocate at n (xs, p) = (ok tt, (xs ++ zeros (at + n - length xs), p))

abbrev ram : Fio Ram
ram = record {
  tell = λ f. f.1;
  seek = λ n f. (f.0, n);
  seek_end = λ f. (f.0, length f.0);
  readinto = λ n f.
      (ok (take (min n (length f.0 - f.1)) (drop f.1 f.0)), (f.0, f.1 + min n (length f.0 - f.1)));
  write = λ bytes f. (ok (length bytes), (splice f.1 bytes f.0, f.1 + length bytes));
  truncate = λ n f. (ok tt, (take n f.0 ++ zeros (n - length f.0), f.1));
  fstat_size = λ f. length f.0;
  fallocate = ram_fallocate;
  blkzeroout = λ at n f. (ok tt, (splice at (zeros n) f.0, f.1));
  fsync = λ f. (ok tt, f);
  close = λ f. f;
}

abbrev Good : Ram → Type 0
Good f = Unit {0}

abbrev ram_content : Ram → List ℕ
ram_content f = f.0

allocates :
    (mode : Fallocate) (at n : ℕ) (f : Ram)
    → (t : Ram) × Good t
      × (t.1 ≡ f.1)
      × (((ram_fallocate mode at n f ≡ (ok tt, t)) × Allocated mode at n f.0 t.0)
          ⊎ ((ram_fallocate mode at n f ≡ (err eopnotsupp, t)) × (t.0 ≡ f.0)))
allocates zero_range at n f = (f, tt, refl, inr (refl, refl))
allocates punch_hole at n (xs, p) =
    let z : ℕ = 0 in
    (
      (take (length xs) (splice at (zeros n) xs), p),
      tt,
      refl,
      inl (
        refl,
        (
          omega (
            arith,
            length-take (length xs) (splice at (replicate n z) xs),
            length-splice at (replicate n z) xs,
            length-replicate n z,
          ),
          λ i. ground (
            arith,
            byte_at-take (length xs) (splice at (replicate n 0) xs) i,
            byte_at-splice at (replicate n 0) xs i,
            byte_at-zeros n (i - at),
            length-replicate n z,
            byte_at-past xs i,
          ),
        ),
      ),
    )
allocates allocate at n (xs, p) =
    let z : ℕ = 0 in
    let more : ℕ = at + n - length xs in
    (
      (xs ++ zeros more, p),
      tt,
      refl,
      inl (
        refl,
        (
          omega (arith, length-append xs (replicate more z), length-replicate more z),
          λ i. ground (
            arith,
            byte_at-append xs (replicate more 0) i,
            byte_at-zeros more (i - length xs),
            byte_at-past xs i,
          ),
        ),
      ),
    )

ram-IsFio : IsFio ram Good ram_content (2 ^ 2)
ram-IsFio = record {
  positive = omega arith;
  seeks = λ n f _. (tt, refl, refl);
  reads = λ n f _ even whole.
      let count : ℕ = min n (length f.0 - f.1) in
      (
        (f.0, f.1 + count),
        count,
        refl,
        tt,
        refl,
        refl,
        omega arith,
        λ pos. omega arith,
        λ pos lt. omega arith,
        elim (leb-cases n (length f.0 - f.1)) [
          | inl (_, le) ↦ inl (grind (arith, whole, le))
          | inr (_, gt) ↦ elim (leb-cases (length f.0) f.1) [
            | inl (_, past) ↦ inl (grind (arith, past))
            | inr (_, inside) ↦ inr (omega arith)
          ]
        ],
      );
  writes = λ bytes f _ even whole pos. (
    (splice f.1 bytes f.0, f.1 + length bytes),
    length bytes,
    refl,
    tt,
    pos,
    omega arith,
    whole,
    refl,
    length-splice f.1 bytes f.0,
    byte_at-splice f.1 bytes f.0,
  );
  truncates = λ n f _ le.
      let z : ℕ = 0 in
      let more : ℕ = n - length f.0 in
      (
        (take n f.0 ++ zeros more, f.1),
        refl,
        tt,
        refl,
        omega (
          arith,
          length-append (take n f.0) (replicate more z),
          length-replicate more z,
          length-take n f.0,
        ),
        λ i. ground (
          arith,
          byte_at-append (take n f.0) (replicate more 0) i,
          byte_at-zeros more (i - length (take n f.0)),
          byte_at-take n f.0 i,
          length-take n f.0,
          byte_at-past f.0 i,
        ),
      );
  sizes = λ f _. refl;
  fallocates = λ mode at n f _ pos. allocates mode at n f;
  syncs = λ f _. (f, refl, tt, refl);
}

file-IsWriter_example :
    IsWriter
      (file ram)
      (IsReady ram Good ram_content 2 ram-IsFio)
      (λ s. s.fio.1)
      (λ s. byte_at s.fio.0)
      4
file-IsWriter_example = file-IsWriter ram Good ram_content 2 ram-IsFio

file-IsReader_example :
    IsReader
      (file ram)
      (IsHolding ram Good ram_content 2 ram-IsFio (1 ∷ 2 ∷ 3 ∷ []))
      (λ s. s.fio.1)
      (1 ∷ 2 ∷ 3 ∷ [])
      4
file-IsReader_example = file-IsReader ram Good ram_content 2 ram-IsFio (1 ∷ 2 ∷ 3 ∷ [])

abbrev open_file : File Ram
open_file = record {
  fio = (1 ∷ 2 ∷ 3 ∷ 4 ∷ 5 ∷ 6 ∷ 7 ∷ 8 ∷ [], 3);
  is_closed = false;
  kind = regular;
  sparse = false;
  dirty = false;
  max_connections = 8;
  block_size = 4;
  can_zero_range = true;
  can_punch_hole = true;
  can_fallocate = true;
}

written_file :
    ((file ram).write (9 ∷ 9 ∷ []) open_file).1.fio ≡ (1 ∷ 2 ∷ 3 ∷ 9 ∷ 5 ∷ 6 ∷ 7 ∷ 8 ∷ [], 4)
unfolding file splice
written_file = refl

zeroed_file :
    ((file ram).zero 9 (record open_file { fio = (open_file.fio.0, 4) })).1.fio
    ≡ (1 ∷ 2 ∷ 3 ∷ 4 ∷ 0 ∷ 0 ∷ 0 ∷ 0 ∷ 0 ∷ 0 ∷ 0 ∷ 0 ∷ [], 12)
unfolding file splice round_down
zeroed_file = refl

-- A read of any size works, as it does on NFS.
detected_size : (detect_block_size ram open_file).0 ≡ ok 4096
unfolding detect_block_size
detected_size = refl
