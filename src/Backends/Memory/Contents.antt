-- ===== src/Backends/Memory/Contents.antt =====
-- The bytes of the backend in ovirt_imageio/_internal/backends/memory.py.
use ovirt_imageio.Base.{
  ℕ, ◌+◌, ◌-◌, ◌≤◌, max, ◌≡◌, refl, ap, true, false, ◌&&◌, List, ◌++◌, arith, ltb, leb,
  if◌then◌else◌, length, take, drop, replicate, length-append, length-take, length-drop,
  length-replicate,
}
use ovirt_imageio.Base.Bytes.{
  byte_at, byte_at-append, byte_at-take, byte_at-drop, byte_at-zeros, byte_at-past,
}
use ovirt_imageio.Base.Exec.{ok}
use ovirt_imageio.Backends.Memory.{Memory, write, splice, extended, overlay, can_write}

same_byte : (buf : List ℕ) (i j : ℕ) → i ≡ j → byte_at buf i ≡ byte_at buf j
same_byte buf i j e = ap (byte_at buf) e

pub length-overlay :
    (at : ℕ) (bytes buf : List ℕ)
    → at + length bytes ≤ length buf
    → length (overlay at bytes buf) ≡ length buf
length-overlay at bytes buf h = omega (
  arith,
  length-append (take at buf ++ bytes) (drop (at + length bytes) buf),
  length-append (take at buf) bytes,
  length-take at buf,
  length-drop (at + length bytes) buf,
)

length-extended : (n : ℕ) (buf : List ℕ) → length (extended n buf) ≡ max (length buf) n
length-extended n buf =
    let z : ℕ = 0 in
    omega
      (arith, length-append buf (replicate (n - length buf) z), length-replicate (n - length buf) z)

pub length-splice :
    (at : ℕ) (bytes buf : List ℕ)
    → length (splice at bytes buf) ≡ max (length buf) (at + length bytes)
unfolding splice
length-splice at bytes buf = omega (
  arith,
  length-overlay at bytes (extended (at + length bytes) buf),
  length-extended (at + length bytes) buf,
)

byte_at-extended : (n : ℕ) (buf : List ℕ) (i : ℕ) → byte_at (extended n buf) i ≡ byte_at buf i
byte_at-extended n buf i = ground (
  arith,
  byte_at-append buf (replicate (n - length buf) 0) i,
  byte_at-zeros (n - length buf) (i - length buf),
  byte_at-past buf i,
)

pub byte_at-overlay :
    (at : ℕ) (bytes buf : List ℕ) (i : ℕ)
    → at + length bytes ≤ length buf
    → byte_at (overlay at bytes buf) i
      ≡ (if leb at i && ltb i (at + length bytes) then byte_at bytes (i - at) else byte_at buf i)
byte_at-overlay at bytes buf i h = ground (
  arith,
  byte_at-append (take at buf ++ bytes) (drop (at + length bytes) buf) i,
  byte_at-append (take at buf) bytes i,
  byte_at-take at buf i,
  byte_at-drop (at + length bytes) buf (i - length (take at buf ++ bytes)),
  length-append (take at buf) bytes,
  length-take at buf,
  same_byte buf (at + length bytes + (i - length (take at buf ++ bytes))) i,
)

pub byte_at-splice :
    (at : ℕ) (bytes buf : List ℕ) (i : ℕ)
    → byte_at (splice at bytes buf) i
      ≡ (if leb at i && ltb i (at + length bytes) then byte_at bytes (i - at) else byte_at buf i)
unfolding splice
byte_at-splice at bytes buf i = ground (
  arith,
  byte_at-overlay at bytes (extended (at + length bytes) buf) i,
  length-extended (at + length bytes) buf,
  byte_at-extended (at + length bytes) buf i,
)

-- A write to an open, writable memory at any position returns the number of bytes, moves the position
-- behind them, marks the memory dirty, extends it if needed, and changes exactly the bytes written:
-- a gap behind the old end reads as zeros.
pub write_lem :
    (m : Memory) (bytes : List ℕ)
    → m.is_closed ≡ false
    → can_write m.mode ≡ true
    → (m' : Memory) × (write bytes m ≡ (ok (length bytes), m'))
      × (m'.position ≡ m.position + length bytes)
      × (m'.dirty ≡ true)
      × (length m'.buf ≡ max (length m.buf) (m.position + length bytes))
      × ((i : ℕ)
          → byte_at m'.buf i ≡ (
              if leb m.position i && ltb i (m.position + length bytes)
              then byte_at bytes (i - m.position)
              else byte_at m.buf i))
unfolding write
write_lem m bytes o w = (
  record m {
    buf = splice m.position bytes m.buf;
    position = m.position + length bytes;
    dirty = true;
  },
  rw (o, w),
  refl,
  refl,
  length-splice m.position bytes m.buf,
  byte_at-splice m.position bytes m.buf,
)
