-- ===== src/Ops/Canceled.antt =====
-- The cancellation of the operations of ovirt_imageio/_internal/ops.py: which chunk it ends.
use ovirt_imageio.Base.{ℕ, zero, suc, ◌+◌, ◌≡◌, subst, Bool, true, false, arith}

module _ (canceled : ℕ → Bool) where
  -- The flag was not set when any of the first chunks ended.
  abbrev pub GoesOn : ℕ → Type 0
  GoesOn zero = Unit
  GoesOn (suc n) = (canceled n ≡ false) × GoesOn n

  -- The flag was set when the last of these chunks ended, and not before.
  abbrev pub Stopped : ℕ → Type 0
  Stopped chunks = (k : ℕ) × (chunks ≡ k + 1) × (canceled k ≡ true) × GoesOn k

  -- One more chunk ended, with the flag as given.
  abbrev pub Checked : Bool → ℕ → ℕ → Type 0
  Checked flag n chunks = (canceled n ≡ flag) × (chunks ≡ n + 1)

  pub GoesOn-Checked : (n chunks : ℕ) → Checked false n chunks → GoesOn n → GoesOn chunks
  GoesOn-Checked n chunks (c, e) g =
      let next : suc n ≡ chunks = omega arith in subst GoesOn next (c, g)

  pub Stopped-Checked : (n chunks : ℕ) → Checked true n chunks → GoesOn n → Stopped chunks
  Stopped-Checked n chunks (c, e) g = (n, e, c, g)
