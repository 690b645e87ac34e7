-- ===== src/Base/Lists.antt =====
-- Lists measured and indexed by native numbers, under the library's names.
use Prim.Native.Nat.{ℕ, zero, suc, ◌+◌, ◌-◌, min, ◌≤◌}
use mathlib.Core.Path.{◌≡◌, refl, ap}
use mathlib.Core.List.{List, [], ◌∷◌, ◌++◌}
use native.Mathlib.Omega.{arith}

module _ {ℓ} {A : Type ℓ} where
  abbrev pub length : List A → ℕ
  length [] = 0
  length (x ∷ xs) = suc (length xs)

  abbrev pub take : ℕ → List A → List A
  take zero xs = []
  take (suc n) [] = []
  take (suc n) (x ∷ xs) = x ∷ take n xs

  abbrev pub drop : ℕ → List A → List A
  drop zero xs = xs
  drop (suc n) [] = []
  drop (suc n) (x ∷ xs) = drop n xs

  abbrev pub replicate : ℕ → A → List A
  replicate zero a = []
  replicate (suc n) a = a ∷ replicate n a

  abbrev pub All {κ} : (A → Type κ) → List A → Type κ
  All P [] = Unit
  All P (x ∷ xs) = P x × All P xs

module _ {ℓ} {A : Type ℓ} where
  pub length-append : (xs ys : List A) → length (xs ++ ys) ≡ length xs + length ys
  length-append [] ys = omega arith
  length-append (x ∷ xs) ys = omega (arith, length-append xs ys)

  pub take-append-drop : (n : ℕ) (xs : List A) → take n xs ++ drop n xs ≡ xs
  take-append-drop zero xs = refl
  take-append-drop (suc n) [] = refl
  take-append-drop (suc n) (x ∷ xs) = rw (take-append-drop n xs)

  pub length-take : (n : ℕ) (xs : List A) → length (take n xs) ≡ min n (length xs)
  length-take zero xs = omega arith
  length-take (suc n) [] = omega arith
  length-take (suc n) (x ∷ xs) = omega (arith, length-take n xs)

  pub length-drop : (n : ℕ) (xs : List A) → length (drop n xs) ≡ length xs - n
  length-drop zero xs = omega arith
  length-drop (suc n) [] = omega arith
  length-drop (suc n) (x ∷ xs) = omega (arith, length-drop n xs)

  pub length-replicate : (n : ℕ) (a : A) → length (replicate n a) ≡ n
  length-replicate zero a = refl
  length-replicate (suc n) a = ap suc (length-replicate n a)

module _ {ℓ} {A : Type ℓ} where
  pub take-take-drop :
      (d n m : ℕ) (xs : List A) → d + n ≡ m → take m xs ≡ take d xs ++ take n (drop d xs)
  take-take-drop zero n m xs e = let f : m ≡ n = omega arith in rw f
  take-take-drop (suc d) n zero xs e = absurd (omega arith)
  take-take-drop (suc d) zero (suc m) [] e = refl
  take-take-drop (suc d) (suc n) (suc m) [] e = refl
  take-take-drop (suc d) n (suc m) (x ∷ xs) e =
      ap (λ ys. x ∷ ys) (take-take-drop d n m xs (omega arith))

  pub drop-drop : (d o m : ℕ) (xs : List A) → o + d ≡ m → drop d (drop o xs) ≡ drop m xs
  drop-drop d zero m xs e = let f : m ≡ d = omega arith in rw f
  drop-drop d (suc o) zero xs e = absurd (omega arith)
  drop-drop zero (suc o) (suc m) [] e = refl
  drop-drop (suc d) (suc o) (suc m) [] e = refl
  drop-drop d (suc o) (suc m) (x ∷ xs) e = drop-drop d o m xs (omega arith)

  pub take-drop-take :
      (n s k : ℕ) (xs : List A) → n + s ≤ k → take n (drop s (take k xs)) ≡ take n (drop s xs)
  take-drop-take zero s k xs h = refl
  take-drop-take (suc n) s zero xs h = absurd (omega arith)
  take-drop-take (suc n) zero (suc k) [] h = refl
  take-drop-take (suc n) (suc s) (suc k) [] h = refl
  take-drop-take (suc n) zero (suc k) (x ∷ xs) h =
      ap (λ ys. x ∷ ys) (take-drop-take n zero k xs (omega arith))
  take-drop-take (suc n) (suc s) (suc k) (x ∷ xs) h = take-drop-take (suc n) s k xs (omega arith)
