-- ===== src/Backends/Memory.antt =====
-- ovirt_imageio/_internal/backends/memory.py: the backend on a bytearray, which grows when written.
-- Offsets are natural numbers, as all callers in the source pass them. A read from behind the end of
-- the buffer computes a negative length. Into a memoryview that is longer than the gap it raises an
-- exception; into a shorter one it returns the negative length and moves the position back. Both are the
-- error `negative_length` here.
pub mod Contents
pub mod Reads
pub mod Writes
use ovirt_imageio.Base.{
  ℕ, ◌+◌, ◌-◌, ◌*◌, min, Bool, true, false, not, Option, none, some, List, [], ◌∷◌, ◌++◌, ltb,
  if◌then◌else◌, length, take, drop, replicate,
}
use ovirt_imageio.Base.Exec.{
  Exec, Result, ok, err, pure, raise, gets, modify, raise_if, ◌>>=◌, ◌>>◌,
}
use ovirt_imageio.Extent.{ZeroExtent, DirtyExtent}
use ovirt_imageio.Backends.{
  Backend, Error, closed, unsupported_mode, not_readable, not_writable, unsupported_extents,
  negative_length,
}

-- The modes "r", "w" and "r+".
pub data Mode : Type 0 where
  read_only write_only read_write : Mode

-- The `extents` dict: what is configured for each context.
pub record Configured : Type 0 where
  pub zero : Option (List ZeroExtent)
  pub dirty : Option (List DirtyExtent)

pub record Memory : Type 0 where
  pub mode : Mode
  pub buf : List ℕ
  pub extents : Configured
  pub dirty : Bool
  pub position : ℕ
  pub is_closed : Bool
  pub max_connections : ℕ

-- `Backend.__init__` with a mode that is one of the three.
unfoldable pub init : Mode → List ℕ → ℕ → Configured → Memory
init mode buf max_connections extents = record {
  mode = mode;
  buf = buf;
  extents = extents;
  dirty = false;
  position = 0;
  is_closed = false;
  max_connections = max_connections;
}

-- The new backend shares the bytes; what one writes later the other sees too, which is not modelled.
unfoldable pub clone : Memory → Memory
unfolding init
clone m = init m.mode m.buf m.max_connections m.extents

unfoldable pub max_readers : Memory → ℕ
max_readers m = m.max_connections

unfoldable pub max_writers : Memory → ℕ
max_writers m = 1

abbrev Method : Type 0 → Type 0
Method A = Exec Error Memory A

unfoldable pub check_closed : Method (Unit {0})
check_closed m = raise_if m.is_closed closed m

abbrev pub can_read : Mode → Bool
can_read write_only = false
can_read _ = true

abbrev pub can_write : Mode → Bool
can_write read_only = false
can_write _ = true

unfoldable pub readable : Method Bool
unfolding check_closed
readable = do check_closed; gets (λ m. can_read m.mode)

unfoldable pub writable : Method Bool
unfolding check_closed
writable = do check_closed; gets (λ m. can_write m.mode)

unfoldable pub size : Method ℕ
unfolding check_closed
size = do check_closed; gets (λ m. length m.buf)

unfoldable pub readinto : ℕ → Method (List ℕ)
unfolding check_closed readable size
readinto n = do
  check_closed
  can ← readable
  raise_if (not can) not_readable
  available ← size
  position ← gets (λ m. m.position)
  raise_if (ltb available position) negative_length
  let count = min n (available - position)
  bytes ← gets (λ m. take count (drop position m.buf))
  modify (λ m. record m { position = position + count })
  pure bytes

-- `buf.extend(extend * b"\0")` to reach the length `n`.
abbrev pub extended : ℕ → List ℕ → List ℕ
extended n buf = buf ++ replicate (n - length buf) 0

-- `buf[at:at + length] = bytes`
abbrev pub overlay : ℕ → List ℕ → List ℕ → List ℕ
overlay at bytes buf = take at buf ++ bytes ++ drop (at + length bytes) buf

unfoldable pub splice : ℕ → List ℕ → List ℕ → List ℕ
splice at bytes buf = overlay at bytes (extended (at + length bytes) buf)

unfoldable pub write : List ℕ → Method ℕ
unfolding check_closed writable splice
write bytes = do
  check_closed
  can ← writable
  raise_if (not can) not_writable
  modify (λ m. record m {
    buf = splice m.position bytes m.buf;
    position = m.position + length bytes;
    dirty = true;
  })
  pure (length bytes)

unfoldable pub tell : Method ℕ
unfolding check_closed
tell = do check_closed; gets (λ m. m.position)

-- The constants of `seek`.
pub data Whence : Type 0 where
  seek_set seek_cur seek_end : Whence

abbrev target : Whence → ℕ → Memory → ℕ
target seek_set n m = n
target seek_cur n m = m.position + n
target seek_end n m = length m.buf + n

unfoldable pub seek_from : ℕ → Whence → Method ℕ
unfolding check_closed
seek_from n how = do
  check_closed
  modify (λ m. record m { position = target how n m })
  gets (λ m. m.position)

unfoldable pub seek : ℕ → Method ℕ
unfolding seek_from
seek n = seek_from n seek_set

unfoldable pub flush : Method (Unit {0})
unfolding check_closed
flush = do check_closed; modify (λ m. record m { dirty = false })

unfoldable pub close : Method (Unit {0})
close = modify (λ m. record m { is_closed = true })

unfoldable pub zero : ℕ → Method ℕ
unfolding check_closed writable write
zero count = do
  check_closed
  can ← writable
  raise_if (not can) not_writable
  write (replicate count 0)

unfoldable pub block_size : Memory → ℕ
block_size m = 1

-- The contexts "zero" and "dirty", and any other.
pub data Context : Type 0 where
  zero_context dirty_context other_context : Context

pub data Extents : Type 0 where
  zeros : List ZeroExtent → Extents
  dirties : List DirtyExtent → Extents

abbrev choose : Context → Memory → Result Error Extents
choose zero_context m = elim m.extents.zero [
  | some es ↦ ok (zeros es)
  | none ↦ elim m.extents.dirty [
    | some _ ↦ err unsupported_extents
    | none ↦
        ok (
          zeros (record { start = 0; length = length m.buf; zero = false; hole = some false } ∷ []))
  ]
]
choose dirty_context m = elim m.extents.dirty [
  | some es ↦ ok (dirties es)
  | none ↦ err unsupported_extents
]
choose other_context m = err unsupported_extents

unfoldable pub extents : Context → Method Extents
unfolding check_closed
extents context = do check_closed; λ m. (choose context m, m)

-- The backend as the operations use it.
unfoldable pub memory : Backend Memory
unfolding tell seek readinto write zero flush block_size
memory = record {
  block_size = block_size;
  tell = tell;
  seek = seek;
  readinto = readinto;
  write = write;
  zero = zero;
  flush = flush;
}
