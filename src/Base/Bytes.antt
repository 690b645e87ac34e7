-- ===== src/Base/Bytes.antt =====
-- A list of bytes as a function that is zero outside the list, and what the list operations do to it.
use Prim.Native.Nat.{ℕ, zero, suc, ◌+◌, ◌-◌, ◌<◌, ◌≤◌}
use mathlib.Core.Path.{◌≡◌, refl}
use mathlib.Core.List.{List, [], ◌∷◌, ◌++◌}
use native.Mathlib.Omega.{arith}
use ovirt_imageio.Base.Tests.{ltb, if◌then◌else◌}
use ovirt_imageio.Base.Lists.{length, take, drop, replicate}

-- The byte at an offset, zero past the end.
abbrev pub byte_at : List ℕ → ℕ → ℕ
byte_at [] i = 0
byte_at (x ∷ xs) zero = x
byte_at (x ∷ xs) (suc i) = byte_at xs i

pub byte_at-append :
    (xs ys : List ℕ) (i : ℕ)
    → byte_at (xs ++ ys) i
      ≡ (if ltb i (length xs) then byte_at xs i else byte_at ys (i - length xs))
byte_at-append [] ys i = ground arith
byte_at-append (x ∷ xs) ys zero = ground arith
byte_at-append (x ∷ xs) ys (suc i) = ground (arith, byte_at-append xs ys i)

pub byte_at-take :
    (n : ℕ) (xs : List ℕ) (i : ℕ) → byte_at (take n xs) i ≡ (if ltb i n then byte_at xs i else 0)
byte_at-take zero xs i = ground arith
byte_at-take (suc n) [] i = ground arith
byte_at-take (suc n) (x ∷ xs) zero = ground arith
byte_at-take (suc n) (x ∷ xs) (suc i) = ground (arith, byte_at-take n xs i)

pub byte_at-drop : (n : ℕ) (xs : List ℕ) (i : ℕ) → byte_at (drop n xs) i ≡ byte_at xs (n + i)
byte_at-drop zero xs i = ground arith
byte_at-drop (suc n) [] i = ground arith
byte_at-drop (suc n) (x ∷ xs) i = ground (arith, byte_at-drop n xs i)

pub byte_at-zeros : (n i : ℕ) → byte_at (replicate n 0) i ≡ 0
byte_at-zeros zero i = refl
byte_at-zeros (suc n) zero = refl
byte_at-zeros (suc n) (suc i) = byte_at-zeros n i

pub byte_at-past : (xs : List ℕ) (i : ℕ) → length xs ≤ i → byte_at xs i ≡ 0
byte_at-past [] i h = refl
byte_at-past (x ∷ xs) zero h = absurd (omega arith)
byte_at-past (x ∷ xs) (suc i) h = byte_at-past xs i (omega arith)

-- Two lists of one length with the same bytes are the same.
pub byte_at-ext :
    (xs ys : List ℕ)
    → length xs ≡ length ys
    → ((i : ℕ) → i < length xs → byte_at xs i ≡ byte_at ys i)
    → xs ≡ ys
byte_at-ext [] [] e h = refl
byte_at-ext [] (y ∷ ys) e h = absurd (omega arith)
byte_at-ext (x ∷ xs) [] e h = absurd (omega arith)
byte_at-ext (x ∷ xs) (y ∷ ys) e h =
    cc (h 0 (omega arith), byte_at-ext xs ys (omega arith) (λ i l. h (suc i) (omega arith)))
