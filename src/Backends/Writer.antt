-- ===== src/Backends/Writer.antt =====
-- What `ops.Write`, `ops.Zero` and `ops.Flush` rely on when they write to a backend.
use ovirt_imageio.Base.{ℕ, ◌+◌, ◌-◌, ◌≤◌, ◌<◌, ◌≡◌, List, length, ltb, leb, ◌&&◌, if◌then◌else◌}
use ovirt_imageio.Base.Bytes.{byte_at}
use ovirt_imageio.Base.Exec.{ok}
use ovirt_imageio.Backends.{Backend}

-- The bytes of an image after `n` bytes from `at` on were replaced by those of `bytes`.
abbrev pub overlaid : (ℕ → ℕ) → ℕ → ℕ → (ℕ → ℕ) → ℕ → ℕ
overlaid image at n bytes i = if leb at i && ltb i (at + n) then bytes (i - at) else image i

-- The states that `Ready` allows hold an image, as a function from offsets to bytes. A write and a zero
-- may do a part of what they are asked for, but at least one byte, and change no other byte.
pub record IsWriter {S : Type 0} (b : Backend S) (Ready : S → Type 0) (position : S → ℕ)
    (image : S → ℕ → ℕ) (block_size : ℕ) : Type 0 where
  pub positive : 0 < block_size
  pub same_block_size : (s : S) → Ready s → b.block_size s ≡ block_size
  pub seeks :
      (n : ℕ) (s : S)
      → Ready s
      → (t : S) × (b.seek n s ≡ (ok n, t))
        × Ready t
        × (position t ≡ n)
        × ((i : ℕ) → image t i ≡ image s i)
  pub writes :
      (bytes : List ℕ) (s : S)
      → Ready s
      → 0 < length bytes
      → (t : S) × (n : ℕ) × (b.write bytes s ≡ (ok n, t))
        × Ready t
        × (0 < n)
        × (n ≤ length bytes)
        × (position t ≡ position s + n)
        × ((i : ℕ) → image t i ≡ overlaid (image s) (position s) n (byte_at bytes) i)
  pub zeroes :
      (count : ℕ) (s : S)
      → Ready s
      → 0 < count
      → (t : S) × (n : ℕ) × (b.zero count s ≡ (ok n, t))
        × Ready t
        × (0 < n)
        × (n ≤ count)
        × (position t ≡ position s + n)
        × ((i : ℕ) → image t i ≡ overlaid (image s) (position s) n (λ _. 0) i)
  pub flushes :
      (s : S)
      → Ready s
      → (t : S) × (b.flush s ≡ (ok tt, t)) × Ready t × ((i : ℕ) → image t i ≡ image s i)
