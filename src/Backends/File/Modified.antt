-- ===== src/Backends/File/Modified.antt =====
-- The block of `_write_unaligned` of ovirt_imageio/_internal/backends/file.py, and the tests on a block
-- size that is a power of two.
use ovirt_imageio.Base.{
  ℕ, ◌+◌, ◌-◌, ◌%◌, ◌^◌, ◌≤◌, ◌<◌, ◌≡◌, refl, ap, List, ◌++◌, arith, ◌==◌, inl, inr, ◌⊎◌, length,
  take, drop, replicate, length-append, length-take, length-drop, length-replicate, ltb-cases,
}
use ovirt_imageio.Base.Bytes.{
  byte_at, byte_at-append, byte_at-take, byte_at-drop, byte_at-zeros, byte_at-past,
}
use ovirt_imageio.Base.Bits.{bit_and-mask}
use ovirt_imageio.Backends.Writer.{overlaid}
use ovirt_imageio.Backends.Memory.Contents.{length-overlay, byte_at-overlay}
use ovirt_imageio.Backends.File.{aligned, modified}

pub same_at : (xs : List ℕ) (i j : ℕ) → i ≡ j → byte_at xs i ≡ byte_at xs j
same_at xs i j e = ap (byte_at xs) e

-- The block that is read has the bytes of the file, and zeros where the file has ended.
pub old_byte :
    (xs : List ℕ) (p bs c i : ℕ)
    → c ≤ bs
    → (c ≡ bs) ⊎ (length xs ≤ p + c)
    → i < bs
    → let old = take c (drop p xs) in
      byte_at (old ++ drop (length old) (replicate bs 0)) i ≡ byte_at xs (p + i)
old_byte xs p bs c i le whole lt =
    let old = take c (drop p xs) in
    ground (
      arith,
      byte_at-append old (drop (length old) (replicate bs 0)) i,
      byte_at-take c (drop p xs) i,
      byte_at-drop p xs i,
      byte_at-drop (length old) (replicate bs 0) (i - length old),
      byte_at-zeros bs (length old + (i - length old)),
      byte_at-past xs (p + i),
      length-take c (drop p xs),
      length-drop p xs,
    )

pub old_length :
    (xs : List ℕ) (p bs c : ℕ)
    → c ≤ bs
    → let old = take c (drop p xs) in length (old ++ drop (length old) (replicate bs 0)) ≡ bs
old_length xs p bs c le =
    let old = take c (drop p xs) in
    let z : ℕ = 0 in
    omega (
      arith,
      length-append old (drop (length old) (replicate bs z)),
      length-drop (length old) (replicate bs z),
      length-replicate bs z,
      length-take c (drop p xs),
    )

pub modified_length :
    (bs offset : ℕ) (xs new : List ℕ) (p c : ℕ)
    → c ≤ bs
    → offset + length new ≤ bs
    → length (modified bs offset (take c (drop p xs)) new) ≡ bs
modified_length bs offset xs new p c le fits =
    let old = take c (drop p xs) in
    omega (
      arith,
      old_length xs p bs c le,
      length-overlay offset new (old ++ drop (length old) (replicate bs 0)),
    )

pub modified_byte :
    (bs offset : ℕ) (xs new : List ℕ) (p c i : ℕ)
    → c ≤ bs
    → (c ≡ bs) ⊎ (length xs ≤ p + c)
    → offset + length new ≤ bs
    → i < bs
    → byte_at (modified bs offset (take c (drop p xs)) new) i
      ≡ overlaid (λ j. byte_at xs (p + j)) offset (length new) (byte_at new) i
modified_byte bs offset xs new p c i le whole fits lt =
    let old = take c (drop p xs) in
    ground (
      arith,
      old_length xs p bs c le,
      old_byte xs p bs c i le whole lt,
      byte_at-overlay offset new (old ++ drop (length old) (replicate bs 0)) i,
    )

-- Writing the modified block changes the bytes that were asked for.
pub block_byte :
    (bs offset at count : ℕ) (xs buf : List ℕ) (c i : ℕ)
    → c ≤ bs
    → (c ≡ bs) ⊎ (length xs ≤ at + c)
    → offset + count ≤ bs
    → count ≤ length buf
    → overlaid
        (byte_at xs)
        at
        bs
        (byte_at (modified bs offset (take c (drop at xs)) (take count buf)))
        i
      ≡ overlaid (byte_at xs) (at + offset) count (byte_at buf) i
block_byte bs offset at count xs buf c i le whole fits have =
    let new_length : length (take count buf) ≡ count = omega (arith, length-take count buf) in
    let inside = λ (h : i - at < bs).
      modified_byte bs offset xs (take count buf) at c (i - at) le whole (omega (arith, new_length))
        h in
    elim (ltb-cases (i - at) bs) [
      | inl (_, lt) ↦ ground (
        arith,
        inside lt,
        new_length,
        byte_at-take count buf (i - at - offset),
        same_at xs (at + (i - at)) i,
        same_at buf (i - at - offset) (i - (at + offset)),
      )
      | inr (_, ge) ↦ ground arith
    ]

-- The tests of the code on a block size that is a power of two.
pub aligned_lem : (k n : ℕ) → aligned (2 ^ k) n ≡ (n % 2 ^ k == 0)
unfolding aligned
aligned_lem k n = rw (bit_and-mask k n) refl
