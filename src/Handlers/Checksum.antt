-- ===== src/Handlers/Checksum.antt =====
-- ovirt_imageio/_internal/handlers/checksum.py, `Operation._run`: the checksum of an image on a backend.
--
-- The hash function is the parameter `func`, as in Blkhash.Hash. `canceled k` says whether the operation
-- was canceled when block k ends. The digest is returned as it is, not in hexadecimal digits.
pub mod Image
use ovirt_imageio.Base.{
  ℕ, ◌+◌, Bool, true, false, ◌&&◌, List, [], ◌∷◌, ◌++◌, if◌then◌else◌, length, take, drop,
}
use ovirt_imageio.Base.Exec.{Exec, Result, ok, err, pure, modify, gets, ◌>>=◌, ◌>>◌}
use ovirt_imageio.Extent.{ZeroExtent}
use ovirt_imageio.Backends.{Backend, Error}
use ovirt_imageio.Blkhash.{Block, split}
use ovirt_imageio.Blkhash.Hash.{Hash, new_hash, update, zero_block, digest}
use ovirt_imageio.Blkhash.Zeros.{is_zero}

pub data Failure : Type 0 where
  canceled_error : Failure
  backend_error : Error → Failure

-- What the loop changes. `blocks` counts the blocks that were hashed.
pub record Hashing (func : List ℕ → List ℕ) (S : Type 0) : Type 0 where
  pub backend : S
  pub hash : Hash func
  pub buf : List ℕ
  pub done : ℕ
  pub blocks : ℕ

module _ (func : List ℕ → List ℕ) {S : Type 0} (b : Backend S) (detect_zeroes : Bool)
    (canceled : ℕ → Bool) where
  abbrev pub Method : Type 0 → Type 0
  Method A = Exec Failure (Hashing func S) A

  abbrev lifted :
      {A : Type 0} → Result Error A × S → Hashing func S → Result Failure A × Hashing func S
  lifted (ok a, t) s = (ok a, record s { backend = t })
  lifted (err e, t) s = (err (backend_error e), record s { backend = t })

  abbrev pub call : {A : Type 0} → Exec Error S A → Method A
  call m s = lifted (m s.backend) s

  -- A view of the buffer is hashed, after a read that has stored `bytes` in it.
  unfoldable pub hash_view : ℕ → List ℕ → Hashing func S → Hashing func S
  unfolding is_zero zero_block update
  hash_view size bytes s =
      let buf = bytes ++ drop (length bytes) s.buf in
      let view = take size buf in
      record s {
        buf = buf;
        hash =
            if detect_zeroes && is_zero view
            then zero_block func size s.hash
            else update func view s.hash;
      }

  -- The block is zero, or it is read.
  abbrev pub hash_block : ℕ → ℕ → Bool → Method (Unit {0})
  hash_block start size true = modify (λ s. record s { hash = zero_block func size s.hash })
  hash_block start size false = do
    call (b.seek start)
    bytes ← call (b.readinto size)
    modify (hash_view size bytes)

  -- The end of the body of the loop.
  unfoldable pub finish_block : ℕ → Method (Unit {0})
  finish_block size s = (
    if canceled s.blocks then err canceled_error else ok tt,
    record s { done = s.done + size; blocks = s.blocks + 1 },
  )

  unfoldable pub run_blocks : List Block → Method (Unit {0})
  unfolding hash_view finish_block zero_block
  run_blocks [] s = (ok tt, s)
  run_blocks (block ∷ blocks) s =
      (hash_block block.start block.length block.zero >>= λ _.
      finish_block block.length >>= λ _. run_blocks blocks)
        s

  -- `_run`, with the digest that it returns. The block size is the size of the buffer.
  unfoldable pub run : List ZeroExtent → Method (List ℕ)
  unfolding run_blocks digest split
  run extents s =
      (run_blocks (split extents (length s.buf)) >>= λ _. gets (λ s. digest func s.hash)) s

  -- `Operation.__init__`, and the hash of `_run`.
  unfoldable pub start : S → List ℕ → Hashing func S
  unfolding new_hash
  start backend buf = record {
    backend = backend;
    hash = new_hash func (length buf);
    buf = buf;
    done = 0;
    blocks = 0;
  }
