-- ===== src/Nbd/Wire.antt =====
-- The numbers that `struct` packs and unpacks for ovirt_imageio/_internal/nbd.py: unsigned, in network
-- byte order.
use ovirt_imageio.Base.{
  ℕ, zero, suc, ◌+◌, ◌*◌, ◌/◌, ◌%◌, ◌^◌, ◌<◌, ◌≡◌, refl, List, [], ◌∷◌, ◌++◌, length-append, arith,
  length, take, drop,
}

-- The `width` bytes of a number.
unfoldable pub pack : ℕ → ℕ → List ℕ
pack zero n = []
pack (suc width) n = pack width (n / 256) ++ n % 256 ∷ []

-- The number of which `high` are the bytes in front.
unfoldable pub number : ℕ → List ℕ → ℕ
number high [] = high
number high (x ∷ xs) = number (high * 256 + x) xs

-- The field of a format that takes the `width` bytes at `at`.
unfoldable pub field : ℕ → ℕ → List ℕ → ℕ
unfolding number
field at width bytes = number 0 (take width (drop at bytes))

pub length-pack : (width n : ℕ) → length (pack width n) ≡ width
unfolding pack
length-pack zero n = refl
length-pack (suc width) n =
    omega (arith, length-append (pack width (n / 256)) (n % 256 ∷ []), length-pack width (n / 256))

number-append :
    (high : ℕ) (xs : List ℕ) (x : ℕ) → number high (xs ++ x ∷ []) ≡ number high xs * 256 + x
unfolding number
number-append high [] x = refl
number-append high (y ∷ xs) x = number-append (high * 256 + y) xs x

-- A number that fits is unpacked from its bytes.
pub number-pack : (width n : ℕ) → n < 256 ^ width → number 0 (pack width n) ≡ n
unfolding number pack
number-pack zero n fits = omega arith
number-pack (suc width) n fits =
    let twice : 256 * 256 ^ width ≡ 256 ^ suc width = omega arith in
    omega (
      arith,
      number-append 0 (pack width (n / 256)) (n % 256),
      number-pack width (n / 256) (omega (arith, twice)),
    )
