-- ===== src/Base/Int.antt =====
-- Integers over the native natural numbers: `negsuc n` is -(n + 1).
use ovirt_imageio.Base.Tests.{ltb}
use Prim.Native.Nat.{ℕ, zero, suc, ◌-◌}
use mathlib.Core.Bool.{Bool, true, false}

pub data ℤ : Type 0 where
  pos : ℕ → ℤ
  negsuc : ℕ → ℤ

abbrev pub neg : ℕ → ℤ
neg zero = pos 0
neg (suc n) = negsuc n

abbrev from_difference : ℕ → ℕ → ℤ
from_difference d zero = pos d
from_difference d (suc e) = negsuc e

-- The difference of two natural numbers.
abbrev pub difference : ℕ → ℕ → ℤ
difference a b = from_difference (a - b) (b - a)

abbrev pub ltb_ℤ : ℤ → ℤ → Bool
ltb_ℤ (pos a) (pos b) = ltb a b
ltb_ℤ (pos a) (negsuc b) = false
ltb_ℤ (negsuc a) (pos b) = true
ltb_ℤ (negsuc a) (negsuc b) = ltb b a
