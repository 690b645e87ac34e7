-- ===== src/Nbd/Extents.antt =====
-- `class Extent` of ovirt_imageio/_internal/nbd.py: a run of bytes with the private flag bits to which
-- `unpack` maps the status flags of each meta context.
use Prim.Native.Nat.{bit_and, bit_or}
use ovirt_imageio.Base.{ℕ, Bool, not, Option, none, some, ◌==◌, if◌then◌else◌}

-- `class Extent`: `flags` are the private bits, adjusted by `unpack`.
pub record Extent : Type 0 where
  pub length : ℕ
  pub flags : ℕ

abbrev pub state_hole : ℕ
state_hole = 1

abbrev pub state_zero : ℕ
state_zero = 2

abbrev pub state_dirty : ℕ
state_dirty = 1

abbrev pub extent_dirty : ℕ
extent_dirty = 4

abbrev pub extent_backing : ℕ
extent_backing = 8

abbrev has_bit : ℕ → ℕ → Bool
has_bit flags bit = not (bit_and flags bit == 0)

-- `Extent.zero`
unfoldable pub is_zero : Extent → Bool
is_zero e = has_bit e.flags state_zero

-- `Extent.hole`
unfoldable pub is_hole : Extent → Bool
is_hole e = has_bit e.flags extent_backing

-- `Extent.dirty`
unfoldable pub is_dirty : Extent → Bool
is_dirty e = has_bit e.flags extent_dirty

-- The context ids of `Extent.unpack`.
pub data Context : Type 0 where
  alloc depth dirty : Context

-- `Extent.unpack` of a descriptor's length and status flags; `none` is its `ProtocolError`.
unfoldable pub unpack : Context → ℕ → ℕ → Option Extent
unpack context length flags =
    if length == 0
    then none
    else some (record {
      length = length;
      flags = elim context [
        | alloc ↦ bit_and flags (bit_or state_hole state_zero)
        | dirty ↦ if has_bit flags state_dirty then extent_dirty else 0
        | depth ↦ if flags == 0 then extent_backing else 0
      ];
    })
