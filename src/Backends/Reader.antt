-- ===== src/Backends/Reader.antt =====
-- What `ops.Read` relies on when it reads from a backend that is ready for reading.
use ovirt_imageio.Base.{ℕ, ◌+◌, ◌%◌, ◌≤◌, ◌<◌, ◌≡◌, ◌⊎◌, List, take, drop, length}
use ovirt_imageio.Base.Exec.{ok}
use ovirt_imageio.Backends.{Backend}

-- The backend `b` holds `content` in every state that `Ready` allows. Reads may be short, but from an
-- aligned position they return at least one byte unless the content has ended, and whole blocks
-- unless they reach the end.
pub record IsReader {S : Type 0} (b : Backend S) (Ready : S → Type 0) (position : S → ℕ)
    (content : List ℕ) (block_size : ℕ) : Type 0 where
  pub positive : 0 < block_size
  pub same_block_size : (s : S) → Ready s → b.block_size s ≡ block_size
  pub tells : (s : S) → Ready s → b.tell s ≡ (ok (position s), s)
  pub seeks :
      (n : ℕ) (s : S) → Ready s → (t : S) × (b.seek n s ≡ (ok n, t)) × Ready t × (position t ≡ n)
  pub reads :
      (n : ℕ) (s : S)
      → Ready s
      → position s % block_size ≡ 0
      → n % block_size ≡ 0
      → position s ≤ length content
      → (t : S) × (count : ℕ) × (b.readinto n s ≡ (ok (take count (drop (position s) content)), t))
        × Ready t
        × (position t ≡ position s + count)
        × (count ≤ n)
        × (position t ≤ length content)
        × (0 < n → position s < length content → 0 < count)
        × ((count % block_size ≡ 0) ⊎ (position t ≡ length content))
