-- ===== src/Blkhash/Zeros.antt =====
-- `is_zero` of ovirt_imageio/_internal/ioutil.c, which finds blocks of zeros.
use ovirt_imageio.Base.{
  ℕ, zero, suc, ◌+◌, ◌<◌, ◌≡◌, refl, sym, ap, ◌∙◌, Bool, true, false, ◌&&◌, List, [], ◌∷◌, ◌++◌,
  arith, ◌==◌, if◌then◌else◌, length, replicate,
}

-- `memcmp` of the buffer with the bytes at `p` inside it, as many as are left there.
abbrev pub same_bytes : List ℕ → List ℕ → Bool
same_bytes buf [] = true
same_bytes [] (y ∷ p) = false
same_bytes (x ∷ buf) (y ∷ p) = (x == y) && same_bytes buf p

-- The first bytes one by one, and then the buffer with itself.
unfoldable pub check_from : ℕ → List ℕ → List ℕ → Bool
check_from zero p buf = same_bytes buf p
check_from (suc i) [] buf = true
check_from (suc i) (x ∷ p) buf = if x == 0 then check_from i p buf else false

unfoldable pub is_zero : List ℕ → Bool
unfolding check_from
is_zero buf = check_from 16 buf buf

zeros-cons : (k : ℕ) (p : List ℕ) → replicate k 0 ++ 0 ∷ p ≡ 0 ∷ (replicate k 0 ++ p)
zeros-cons zero p = refl
zeros-cons (suc k) p = ap (λ zs. 0 ∷ zs) (zeros-cons k p)

same_bytes-zeros :
    (k : ℕ) (p : List ℕ)
    → same_bytes (0 ∷ (replicate k 0 ++ p)) p ≡ true
    → p ≡ replicate (length p) 0
same_bytes-zeros k [] e = refl
same_bytes-zeros k (y ∷ p) e =
    let y_zero : y ≡ 0 = ground arith in
    let same : same_bytes (replicate k 0 ++ y ∷ p) p ≡ true = ground arith in
    let shifted =
      sym (ap (λ zs. same_bytes zs p) (zeros-cons k p))
      ∙ sym (ap (λ z. same_bytes (replicate k 0 ++ z ∷ p) p) y_zero)
      ∙ same in
    cc (y_zero, same_bytes-zeros k p shifted)

check_from-zeros :
    (i k : ℕ) (p : List ℕ)
    → 0 < i + k
    → check_from i p (replicate k 0 ++ p) ≡ true
    → p ≡ replicate (length p) 0
unfolding check_from
check_from-zeros zero zero p h e = absurd (omega arith)
check_from-zeros zero (suc k) p h e = same_bytes-zeros k p e
check_from-zeros (suc i) k [] h e = refl
check_from-zeros (suc i) k (x ∷ p) h e =
    let x_zero : x ≡ 0 = ground arith in
    let rest : check_from i p (replicate k 0 ++ x ∷ p) ≡ true = ground arith in
    let shifted =
      sym (ap (check_from i p) (zeros-cons k p))
      ∙ sym (ap (λ z. check_from i p (replicate k 0 ++ z ∷ p)) x_zero)
      ∙ rest in
    cc (x_zero, check_from-zeros i (suc k) p (omega arith) shifted)

-- A buffer that `is_zero` accepts holds nothing but zeros.
pub is_zero-replicate : (buf : List ℕ) → is_zero buf ≡ true → buf ≡ replicate (length buf) 0
unfolding is_zero
is_zero-replicate buf e = check_from-zeros 16 0 buf (omega arith) e
