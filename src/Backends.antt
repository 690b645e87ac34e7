-- ===== src/Backends.antt =====
-- ovirt_imageio/_internal/backends: what the operations use of a storage backend, and what they rely
-- on when they read from one.
pub mod Memory
pub mod Nbd
pub mod Fio
pub mod File
pub mod Reader
pub mod Writer
use ovirt_imageio.Base.{ℕ, ◌+◌, ◌%◌, ◌≤◌, ◌<◌, ◌≡◌, ◌⊎◌, List, take, drop, length}
use ovirt_imageio.Base.Exec.{Exec, ok}

-- What a backend raises.
pub data Error : Type 0 where
  closed : Error
  unsupported_mode : Error
  not_readable : Error
  not_writable : Error
  unsupported_extents : Error
  negative_length : Error
  io_error : ℕ → Error
  attribute_error : Error

-- The methods of a backend with state `S` that `ops` calls. `readinto n` reads into a buffer of `n`
-- bytes and returns the bytes that it stored there; their number is what the source returns.
pub record Backend (S : Type 0) : Type 0 where
  pub block_size : S → ℕ
  pub tell : Exec Error S ℕ
  pub seek : ℕ → Exec Error S ℕ
  pub readinto : ℕ → Exec Error S (List ℕ)
  pub write : List ℕ → Exec Error S ℕ
  pub zero : ℕ → Exec Error S ℕ
  pub flush : Exec Error S (Unit {0})
