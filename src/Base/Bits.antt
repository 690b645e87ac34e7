-- ===== src/Base/Bits.antt =====
-- Masks of low bits as remainders.
use Prim.Native.Nat.{
  ℕ, zero, suc, ◌+◌, ◌-◌, ◌*◌, ◌/◌, ◌%◌, ◌^◌, ◌≤◌, ◌<◌, min, bit_and, digits, bit_and-bitwise,
}
use mathlib.Core.Path.{◌≡◌, sym, ap}
use native.Mathlib.Omega.{arith}

-- The last binary digit of a remainder by an even number.
mod-double : (a p : ℕ) → 0 < p → a % (2 * p) ≡ a / 2 % p * 2 + a % 2
mod-double a p h = grind arith

pub pow_pos : (k : ℕ) → 0 < 2 ^ k
pow_pos zero = omega arith
pow_pos (suc k) = omega (arith, pow_pos k)

zero-mod : (m : ℕ) → 0 < m → 0 % m ≡ 0
zero-mod m h = grind arith

digits-mask : (k n a b : ℕ) → a ≤ n → b + 1 ≡ 2 ^ k → digits (λ _. 0) min n a b ≡ a % 2 ^ k
digits-mask k zero a b h e =
    let z : a ≡ 0 = omega arith in rw z (sym (zero-mod (2 ^ k) (pow_pos k)))
digits-mask k (suc n) zero b h e = sym (zero-mod (2 ^ k) (pow_pos k))
digits-mask zero (suc n) (suc a) b h e =
    omega (arith, digits-mask zero n (suc a / 2) (b / 2) (omega arith) (omega arith))
digits-mask (suc k) (suc n) (suc a) b h e =
    let twice : 2 * 2 ^ k ≡ 2 ^ suc k = omega arith in
    omega (
      arith,
      ap (λ m. suc a % m) twice,
      digits-mask k n (suc a / 2) (b / 2) (omega arith) (omega (arith, pow_pos k)),
      mod-double (suc a) (2 ^ k) (pow_pos k),
    )

-- The bits below a power of two are the remainder by it.
pub bit_and-mask : (k a : ℕ) → bit_and a (2 ^ k - 1) ≡ a % 2 ^ k
bit_and-mask k a =
    simp bit_and-bitwise (digits-mask k a a (2 ^ k - 1) (omega arith) (omega (arith, pow_pos k)))
