-- ===== src/Backends/Fio.antt =====
-- The file object under the file backend of ovirt_imageio/_internal/backends/file.py: `io.FileIO` on a
-- file that is open for direct I/O, and the system calls that ioutil passes on for its descriptor. It is
-- a parameter of the model, and `IsFio` is what the backend relies on.
use ovirt_imageio.Base.{ℕ, ◌+◌, ◌%◌, ◌≤◌, ◌<◌, max, ◌≡◌, ◌⊎◌, List, take, drop, length}
use ovirt_imageio.Base.Bytes.{byte_at}
use ovirt_imageio.Base.Exec.{Exec, ok, err}
use ovirt_imageio.Backends.Writer.{overlaid}

-- The modes of `fallocate`: FALLOC_FL_ZERO_RANGE; FALLOC_FL_PUNCH_HOLE with FALLOC_FL_KEEP_SIZE; and 0.
pub data Fallocate : Type 0 where
  zero_range punch_hole allocate : Fallocate

-- A failing call raises an `OSError`, here its errno. `seek` is from the start of the file.
pub record Fio (F : Type 0) : Type 0 where
  pub tell : F → ℕ
  pub seek : ℕ → F → F
  pub seek_end : F → F
  pub readinto : ℕ → Exec ℕ F (List ℕ)
  pub write : List ℕ → Exec ℕ F ℕ
  pub truncate : ℕ → Exec ℕ F (Unit {0})
  pub fstat_size : F → ℕ
  pub fallocate : Fallocate → ℕ → ℕ → Exec ℕ F (Unit {0})
  pub blkzeroout : ℕ → ℕ → Exec ℕ F (Unit {0})
  pub fsync : Exec ℕ F (Unit {0})
  pub close : F → F

abbrev pub eopnotsupp : ℕ
eopnotsupp = 95

-- The bytes of a file once `n` zeros are written at the offset `at`, which may extend it.
abbrev pub Zeroed : ℕ → ℕ → (ℕ → ℕ) → (ℕ → ℕ) → Type 0
Zeroed at n before after = (i : ℕ) → after i ≡ overlaid before at n (λ _. 0) i

-- How `fallocate` leaves a file of the bytes `xs` with the bytes `ys`.
abbrev pub Allocated : Fallocate → ℕ → ℕ → List ℕ → List ℕ → Type 0
Allocated zero_range at n xs ys =
    (length ys ≡ max (length xs) (at + n)) × Zeroed at n (byte_at xs) (byte_at ys)
Allocated punch_hole at n xs ys = (length ys ≡ length xs) × Zeroed at n (byte_at xs) (byte_at ys)
Allocated allocate at n xs ys =
    (length ys ≡ max (length xs) (at + n)) × ((i : ℕ) → byte_at ys i ≡ byte_at xs i)

-- What Linux documents for a file without I/O errors. Direct I/O needs a position and a size of whole
-- blocks; reads and writes may be short, but move whole blocks unless a read reaches the end of the
-- file, and at least one byte if there is any. A file that grows reads as zeros where it was not
-- written. A mode of `fallocate` may not be supported, which changes nothing.
pub record IsFio {F : Type 0} (fio : Fio F) (Good : F → Type 0) (content : F → List ℕ)
    (block_size : ℕ) : Type 0 where
  pub positive : 0 < block_size
  pub seeks :
      (n : ℕ) (f : F)
      → Good f
      → Good (fio.seek n f) × (fio.tell (fio.seek n f) ≡ n) × (content (fio.seek n f) ≡ content f)
  pub reads :
      (n : ℕ) (f : F)
      → Good f
      → fio.tell f % block_size ≡ 0
      → n % block_size ≡ 0
      → (t : F) × (count : ℕ) × (fio.readinto n f
          ≡ (ok (take count (drop (fio.tell f) (content f))), t))
        × Good t
        × (content t ≡ content f)
        × (fio.tell t ≡ fio.tell f + count)
        × (count ≤ n)
        × (0 < count → fio.tell t ≤ length (content f))
        × (0 < n → fio.tell f < length (content f) → 0 < count)
        × ((count % block_size ≡ 0) ⊎ (fio.tell t ≡ length (content f)))
  pub writes :
      (bytes : List ℕ) (f : F)
      → Good f
      → fio.tell f % block_size ≡ 0
      → length bytes % block_size ≡ 0
      → 0 < length bytes
      → (t : F) × (n : ℕ) × (fio.write bytes f ≡ (ok n, t))
        × Good t
        × (0 < n)
        × (n ≤ length bytes)
        × (n % block_size ≡ 0)
        × (fio.tell t ≡ fio.tell f + n)
        × (length (content t) ≡ max (length (content f)) (fio.tell f + n))
        × ((i : ℕ)
            → byte_at (content t) i
              ≡ overlaid (byte_at (content f)) (fio.tell f) n (byte_at bytes) i)
  pub truncates :
      (n : ℕ) (f : F)
      → Good f
      → length (content f) ≤ n
      → (t : F) × (fio.truncate n f ≡ (ok tt, t))
        × Good t
        × (fio.tell t ≡ fio.tell f)
        × (length (content t) ≡ n)
        × ((i : ℕ) → byte_at (content t) i ≡ byte_at (content f) i)
  pub sizes : (f : F) → Good f → fio.fstat_size f ≡ length (content f)
  pub fallocates :
      (mode : Fallocate) (at n : ℕ) (f : F)
      → Good f
      → 0 < n
      → (t : F) × Good t
        × (fio.tell t ≡ fio.tell f)
        × (((fio.fallocate mode at n f ≡ (ok tt, t)) × Allocated mode at n (content f) (content t))
            ⊎ ((fio.fallocate mode at n f ≡ (err eopnotsupp, t)) × (content t ≡ content f)))
  pub syncs :
      (f : F) → Good f → (t : F) × (fio.fsync f ≡ (ok tt, t)) × Good t × (content t ≡ content f)
