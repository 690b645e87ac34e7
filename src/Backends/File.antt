-- ===== src/Backends/File.antt =====
-- ovirt_imageio/_internal/backends/file.py: the backend on a regular file or a block device, open for
-- direct I/O. It writes whole blocks, and reads, modifies and writes a block for the rest.
--
-- `kind` says which of the classes FileBackend and BlockBackend the object has. A closed backend has a
-- file object whose use raises `ValueError`. The buffer of `_write_unaligned` is new memory, which is
-- zero. Names of files, logging and the debugging interface are left out.
pub mod Blocks
pub mod Halves
pub mod Interface
pub mod Modified
pub mod Zeroes
use Prim.Native.Nat.{bit_and}
use ovirt_imageio.Base.{
  ℕ, zero, suc, ◌+◌, ◌-◌, ◌*◌, ◌%◌, min, Bool, true, false, not, ◌&&◌, ◌||◌, List, [], ◌∷◌, ◌++◌,
  ltb, leb, ◌==◌, if◌then◌else◌, length, take, drop, replicate, some,
}
use ovirt_imageio.Base.Exec.{
  Exec, Result, ok, err, pure, raise, gets, modify, raise_if, ◌>>=◌, ◌>>◌,
}
use ovirt_imageio.Util.{round_down}
use ovirt_imageio.Extent.{ZeroExtent}
use ovirt_imageio.Backends.{Backend, Error, closed, unsupported_extents, io_error, attribute_error}
use ovirt_imageio.Backends.Memory.{overlay}
use ovirt_imageio.Backends.Fio.{Fio, Fallocate, zero_range, punch_hole, allocate, eopnotsupp}

pub data Kind : Type 0 where
  regular block_device : Kind

pub record File (F : Type 0) : Type 0 where
  pub fio : F
  pub is_closed : Bool
  pub kind : Kind
  pub sparse : Bool
  pub dirty : Bool
  pub max_connections : ℕ
  pub block_size : ℕ
  pub can_zero_range : Bool
  pub can_punch_hole : Bool
  pub can_fallocate : Bool

-- The constructors of both classes, once the block size is known.
unfoldable pub new_file : {F : Type 0} → F → Kind → Bool → ℕ → ℕ → File F
new_file fio kind sparse max_connections block_size = record {
  fio = fio;
  is_closed = false;
  kind = kind;
  sparse = sparse;
  dirty = false;
  max_connections = max_connections;
  block_size = block_size;
  can_zero_range = true;
  can_punch_hole = true;
  can_fallocate = true;
}

-- `clone` with the file object that opening the same file again gives.
unfoldable pub clone : {F : Type 0} → F → File F → File F
unfolding new_file
clone fio s =
    let t = new_file fio s.kind s.sparse s.max_connections s.block_size in
    record t {
      can_zero_range = s.can_zero_range;
      can_punch_hole = s.can_punch_hole;
      can_fallocate = s.can_fallocate;
    }

unfoldable pub max_writers : {F : Type 0} → File F → ℕ
max_writers s = elim s.kind [ regular ↦ 1 | block_device ↦ s.max_connections ]

abbrev pub mib : ℕ
mib = 1048576

-- `Backend._aligned`
unfoldable pub aligned : ℕ → ℕ → Bool
aligned block_size n = bit_and n (block_size - 1) == 0

-- `block` with the bytes that `readinto` stored, and then with those that are written.
abbrev pub modified : ℕ → ℕ → List ℕ → List ℕ → List ℕ
modified block_size offset old new =
    overlay offset new (old ++ drop (length old) (replicate block_size 0))

-- The position, or a size, is not one of whole blocks, or less than a block is written.
abbrev pub is_slow : ℕ → ℕ → ℕ → Bool
is_slow block_size start count = not (aligned block_size start) || ltb count block_size

module _ {F A : Type 0} where
  abbrev lifted : Result ℕ A × F → File F → Result Error A × File F
  lifted (ok a, f) s = (ok a, record s { fio = f })
  lifted (err e, f) s = (err (io_error e), record s { fio = f })

  -- A call of a method of `_fio`.
  unfoldable pub on_fio : Exec ℕ F A → Exec Error (File F) A
  on_fio m s = if s.is_closed then (err closed, s) else lifted (m s.fio) s

module _ {F : Type 0} (fio : Fio F) where
  abbrev Method : Type 0 → Type 0
  Method A = Exec Error (File F) A

  unfoldable pub tell : Method ℕ
  unfolding on_fio
  tell = on_fio (λ f. (ok (fio.tell f), f))

  unfoldable pub seek : ℕ → Method ℕ
  unfolding on_fio
  seek n = on_fio (λ f. (ok n, fio.seek n f))

  unfoldable pub readinto : ℕ → Method (List ℕ)
  unfolding on_fio
  readinto n = on_fio (fio.readinto n)

  unfoldable pub write_unaligned : List ℕ → Method ℕ
  unfolding tell seek readinto on_fio
  write_unaligned buf = do
    start ← tell
    block_size ← gets (λ s. s.block_size)
    let offset = start % block_size
    let count : ℕ = min (length buf) (block_size - offset)
    seek (start - offset)
    old ← readinto block_size
    seek (start - offset)
    on_fio (fio.write (modified block_size offset old (take count buf)))
    seek (start + count)
    pure count

  unfoldable pub write : List ℕ → Method ℕ
  unfolding tell aligned write_unaligned on_fio
  write buf = do
    modify (λ s. record s { dirty = true })
    start ← tell
    block_size ← gets (λ s. s.block_size)
    (if is_slow block_size start (length buf)
        then write_unaligned buf
        else if aligned block_size (length buf)
        then on_fio (fio.write buf)
        else on_fio (fio.write (take (round_down (length buf) block_size) buf)))

  -- `_fallocate`: false if the mode is not supported.
  abbrev pub supported : Result ℕ (Unit {0}) × F → Result ℕ Bool × F
  supported (ok _, f) = (ok true, f)
  supported (err e, f) = if e == eopnotsupp then (ok false, f) else (err e, f)

  unfoldable pub try_fallocate : Fallocate → ℕ → ℕ → Method Bool
  unfolding on_fio
  try_fallocate mode offset count = on_fio (λ f. supported (fio.fallocate mode offset count f))

  -- The loop of `_write_zeros` with a buffer of `buf_size` zeros.
  unfoldable pub write_zeros_loop : ℕ → ℕ → ℕ → Method (Unit {0})
  unfolding write
  write_zeros_loop buf_size zero count s = (ok tt, s)
  write_zeros_loop buf_size (suc fuel) count s =
      let rest =
        (write (replicate (min count buf_size) 0) >>= λ n.
        write_zeros_loop buf_size fuel (count - n))
          s in
      if count == 0 then (ok tt, s) else rest

  -- `_write_zeros`. Each write takes a byte at least, so that `count` is enough fuel.
  unfoldable pub write_zeros : ℕ → Method (Unit {0})
  unfolding write_zeros_loop
  write_zeros count = write_zeros_loop (min count mib) count count

  -- "We have to write zeros manually."
  abbrev pub by_writing : ℕ → Method ℕ
  by_writing count = do write_zeros count; pure count

  abbrev pub done_at : ℕ → ℕ → Method ℕ
  done_at offset count = do seek (offset + count); pure count

  -- After the range was allocated, or not since that is not supported.
  abbrev pub after_allocate : ℕ → ℕ → Method ℕ → Bool → Method ℕ
  after_allocate offset count next true = done_at offset count
  after_allocate offset count next false = do modify (λ s. record s { can_fallocate = false }); next

  -- "If we are writing after the end of the file, we can allocate."
  abbrev pub allocate_past : ℕ → ℕ → Bool → Method ℕ
  allocate_past offset count true =
      try_fallocate allocate offset count >>= after_allocate offset count (by_writing count)
  allocate_past offset count false = by_writing count

  abbrev pub allocate_from : ℕ → ℕ → ℕ → Method ℕ
  allocate_from offset count size = allocate_past offset count (leb size offset)

  abbrev pub if_can_fallocate : ℕ → ℕ → Bool → Method ℕ
  if_can_fallocate offset count true =
      on_fio (λ f. (ok (fio.fstat_size f), f)) >>= allocate_from offset count
  if_can_fallocate offset count false = by_writing count

  -- `FileBackend._zero`, from there on.
  unfoldable pub zero_by_allocation : ℕ → ℕ → Method ℕ
  unfolding try_fallocate write_zeros seek on_fio
  zero_by_allocation offset count = gets (λ s. s.can_fallocate) >>= if_can_fallocate offset count

  -- After a hole was punched, or not since that is not supported.
  abbrev pub after_punch : ℕ → ℕ → Bool → Method ℕ
  after_punch offset count true =
      try_fallocate allocate offset count
      >>= after_allocate offset count (zero_by_allocation offset count)
  after_punch offset count false = do
    modify (λ s. record s { can_punch_hole = false })
    zero_by_allocation offset count

  abbrev pub if_can_punch : ℕ → ℕ → Bool → Method ℕ
  if_can_punch offset count true =
      try_fallocate punch_hole offset count >>= after_punch offset count
  if_can_punch offset count false = zero_by_allocation offset count

  -- From "Next try to punch a hole and then allocate the range" on.
  unfoldable pub zero_by_hole : ℕ → ℕ → Method ℕ
  unfolding try_fallocate zero_by_allocation seek
  zero_by_hole offset count =
      gets (λ s. s.can_punch_hole && s.can_fallocate) >>= if_can_punch offset count

  abbrev pub after_zero_range : ℕ → ℕ → Bool → Method ℕ
  after_zero_range offset count true = done_at offset count
  after_zero_range offset count false = do
    modify (λ s. record s { can_zero_range = false })
    zero_by_hole offset count

  abbrev pub if_can_zero_range : ℕ → ℕ → Bool → Method ℕ
  if_can_zero_range offset count true =
      try_fallocate zero_range offset count >>= after_zero_range offset count
  if_can_zero_range offset count false = zero_by_hole offset count

  -- `FileBackend._zero`
  unfoldable pub zero_file : ℕ → Method ℕ
  unfolding try_fallocate zero_by_hole tell seek
  zero_file count =
      tell >>= λ offset. gets (λ s. s.can_zero_range) >>= if_can_zero_range offset count

  abbrev pub after_hole : ℕ → ℕ → Bool → Method ℕ
  after_hole offset count true = done_at offset count
  after_hole offset count false = do
    modify (λ s. record s { can_punch_hole = false })
    by_writing count

  -- The end of `FileBackend._zero_sparse`, "And punch a hole."
  unfoldable pub punch : ℕ → ℕ → Method ℕ
  unfolding try_fallocate write_zeros seek
  punch offset count = try_fallocate punch_hole offset count >>= after_hole offset count

  -- "Extend file size if needed." At the end of the file punching a hole is not needed.
  abbrev pub extend : ℕ → ℕ → ℕ → Bool → Method ℕ
  extend offset count size true = do
    on_fio (fio.truncate (offset + count))
    (if size == offset then done_at offset count else punch offset count)
  extend offset count size false = punch offset count

  abbrev pub extend_from : ℕ → ℕ → ℕ → Method ℕ
  extend_from offset count size = extend offset count size (ltb size (offset + count))

  abbrev pub if_can_hole : ℕ → Bool → Method ℕ
  if_can_hole count true =
      tell >>= λ offset. on_fio (λ f. (ok (fio.fstat_size f), f)) >>= extend_from offset count
  if_can_hole count false = by_writing count

  -- `FileBackend._zero_sparse`
  unfoldable pub zero_file_sparse : ℕ → Method ℕ
  unfolding punch write_zeros tell seek on_fio
  zero_file_sparse count = gets (λ s. s.can_punch_hole) >>= if_can_hole count

  -- The errors at which `BlockBackend._zero` falls back, EOPNOTSUPP and ENODEV.
  abbrev pub supported_device : Result ℕ (Unit {0}) × F → Result ℕ Bool × F
  supported_device (ok _, f) = (ok true, f)
  supported_device (err e, f) = if (e == eopnotsupp) || (e == 19) then (ok false, f) else (err e, f)

  abbrev pub by_blkzeroout : ℕ → ℕ → Method ℕ
  by_blkzeroout offset count = do on_fio (fio.blkzeroout offset count); done_at offset count

  -- `BlockBackend._zero`
  unfoldable pub zero_device : ℕ → Method ℕ
  unfolding tell seek on_fio
  zero_device count = do
    offset ← tell
    can ← gets (λ s. s.can_fallocate)
    (if can
        then (do
          zeroed ← on_fio (λ f. supported_device (fio.fallocate zero_range offset count f))
          (if zeroed then done_at offset count else (do
            modify (λ s. record s { can_fallocate = false })
            by_blkzeroout offset count)))
        else by_blkzeroout offset count)

  -- `_zero` and `_zero_sparse` of the class of the object.
  abbrev pub zero_blocks : Kind → Bool → ℕ → Method ℕ
  zero_blocks regular true count = zero_file_sparse count
  zero_blocks regular false count = zero_file count
  zero_blocks block_device _ count = zero_device count

  -- `Backend.zero`
  unfoldable pub zero_bytes : ℕ → Method ℕ
  unfolding tell aligned write_unaligned zero_file zero_file_sparse zero_device
  zero_bytes count = do
    modify (λ s. record s { dirty = true })
    start ← tell
    s ← gets (λ s. s)
    (if is_slow s.block_size start count
        then write_unaligned (replicate (min count (s.block_size - start % s.block_size)) 0)
        else zero_blocks s.kind s.sparse (round_down count s.block_size))

  unfoldable pub flush : Method (Unit {0})
  unfolding on_fio
  flush = do on_fio fio.fsync; modify (λ s. record s { dirty = false })

  unfoldable pub close : File F → File F
  close s = if s.is_closed then s else record s { fio = fio.close s.fio; is_closed = true }

  -- `Backend.size`: it moves to the end of the file and back.
  unfoldable pub size : Method ℕ
  unfolding on_fio
  size = on_fio (λ f.
      let old_pos = fio.tell f in
      let at_end = fio.seek_end f in (ok (fio.tell at_end), fio.seek old_pos at_end))

  -- `Backend.extents`, for the context "zero" or another one.
  unfoldable pub extents : Bool → Method (List ZeroExtent)
  unfolding size
  extents is_zero_context = do
    raise_if (not is_zero_context) unsupported_extents
    n ← size
    pure (record { start = 0; length = n; zero = false; hole = some false } ∷ [])

  abbrev is_einval : Error → Bool
  is_einval (io_error e) = e == 22
  is_einval _ = false

  -- After the first read with a block size.
  abbrev after_try : ℕ → Method ℕ → Result Error (List ℕ) × File F → Result Error ℕ × File F
  after_try block_size next (ok _, s) =
      (seek 0 >> pure (if block_size == 1 then 4096 else block_size)) s
  after_try block_size next (err e, s) = if is_einval e then next s else (err e, s)

  -- The loop of `_detect_block_size`. It ends with an error when no size works.
  unfoldable pub detect_loop : List ℕ → Method ℕ
  unfolding seek readinto
  detect_loop [] = raise attribute_error
  detect_loop (block_size ∷ block_sizes) = do
    seek 0
    (λ s. after_try block_size (detect_loop block_sizes) (readinto block_size s))

  -- `_detect_block_size`
  unfoldable pub detect_block_size : Method ℕ
  unfolding detect_loop
  detect_block_size = detect_loop (1 ∷ 512 ∷ 4096 ∷ [])

  -- `FileBackend.__init__`. Without a block size, or with 0, it is detected.
  unfoldable pub init_file : F → Bool → ℕ → ℕ → Result Error (Unit {0}) × File F
  unfolding detect_block_size new_file
  init_file f sparse max_connections block_size =
      (do
        n ← (if block_size == 0 then detect_block_size else pure block_size)
        modify (λ s. record s { block_size = n }))
        (new_file f regular sparse max_connections 0)

  -- The backend as the operations use it.
  unfoldable pub file : Backend (File F)
  unfolding tell seek readinto write zero_bytes flush
  file = record {
    block_size = λ s. s.block_size;
    tell = tell;
    seek = seek;
    readinto = readinto;
    write = write;
    zero = zero_bytes;
    flush = flush;
  }
