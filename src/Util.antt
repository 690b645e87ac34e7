-- ===== src/Util.antt =====
-- ovirt_imageio/_internal/util.py: rounding to a block size.
use ovirt_imageio.Base.{ℕ, ◌+◌, ◌-◌, ◌%◌, ◌≤◌, ◌<◌, ◌≡◌, arith}

unfoldable pub round_up : ℕ → ℕ → ℕ
round_up n size = let m = n + size - 1 in m - m % size

unfoldable pub round_down : ℕ → ℕ → ℕ
round_down n size = n - n % size

module _ (n size : ℕ) (h : 0 < size) where
  -- For a positive size, `round_up` gives the least multiple of the size that is not below `n`, and
  -- `round_down` the greatest that is not above it.
  pub rounding :
      (round_up n size % size ≡ 0)
      × (n ≤ round_up n size)
      × (round_up n size < n + size)
      × (round_down n size % size ≡ 0)
      × (round_down n size ≤ n)
      × (n < round_down n size + size)
  unfolding round_up round_down
  rounding = grind arith
