-- ===== src/Base/Count.antt =====
-- Counting the numbers below a bound that pass a test.
use ovirt_imageio.Base.Tests.{ltb, leb, if◌then◌else◌}
use Prim.Native.Nat.{ℕ, zero, suc, ◌+◌, ◌-◌, min}
use mathlib.Core.Path.{◌≡◌, refl}
use mathlib.Core.Bool.{Bool, true, false, ◌&&◌, ◌||◌}
use native.Mathlib.Omega.{arith}

-- How many of 0, …, n - 1 pass the test `p`.
abbrev pub count_below : ℕ → (ℕ → Bool) → ℕ
count_below zero p = 0
count_below (suc n) p = (if p n then 1 else 0) + count_below n p

-- Two tests that no number passes together are counted apart.
pub count_below-or :
    (n : ℕ) (p q : ℕ → Bool)
    → ((x : ℕ) → p x ≡ true → q x ≡ false)
    → count_below n (λ x. p x || q x) ≡ count_below n p + count_below n q
count_below-or zero p q apart = omega arith
count_below-or (suc n) p q apart = ground (arith, apart n, count_below-or n p q apart)

pub count_below-interval : (n a b : ℕ) → count_below n (λ x. leb a x && ltb x b) ≡ min n b - min n a
count_below-interval zero a b = omega arith
count_below-interval (suc n) a b = ground (arith, count_below-interval n a b)

pub count_below-false : (n : ℕ) → count_below n (λ x. false) ≡ 0
count_below-false zero = refl
count_below-false (suc n) = omega (arith, count_below-false n)
