-- ===== src/Blkhash/Hash.antt =====
-- ovirt_imageio/_internal/blkhash.py, `Hash` and `checksum`.
--
-- The hash function of hashlib is the parameter `func`, from bytes to a digest. A hash object is the
-- bytes that it was given so far: hashlib documents that repeated updates are one update with all of
-- the bytes. The file is its bytes, of which `_read_block` takes as many as it is asked for; the size of
-- the file does not change.
use ovirt_imageio.Blkhash.Zeros.{is_zero, is_zero-replicate}
use ovirt_imageio.Base.{
  ℕ, zero, suc, ◌+◌, ◌≤◌, ◌<◌, ◌≡◌, refl, sym, ap, ◌∙◌, Bool, true, false, ◌&&◌, inl, inr, List, [],
  ◌∷◌, ◌++◌, arith, leb, ◌==◌, if◌then◌else◌, length, take, drop, replicate, length-append,
  leb-cases, append-nil, append_assoc,
}

module _ (func : List ℕ → List ℕ) where
  pub record Hash : Type 0 where
    pub hash : List ℕ
    pub block_size : ℕ
    pub zero_block_digest : List ℕ

  -- `Hash.__init__`
  unfoldable pub new_hash : ℕ → Hash
  new_hash block_size = record {
    hash = [];
    block_size = block_size;
    zero_block_digest = func (replicate block_size 0);
  }

  -- `Hash.update`
  unfoldable pub update : List ℕ → Hash → Hash
  update block h = record h { hash = h.hash ++ func block }

  -- `Hash.zero`
  unfoldable pub zero_block : ℕ → Hash → Hash
  zero_block count h =
      if count == h.block_size
      then record h { hash = h.hash ++ h.zero_block_digest }
      else record h { hash = h.hash ++ func (replicate count 0) }

  -- `Hash.digest`
  unfoldable pub digest : Hash → List ℕ
  digest h = func h.hash

  -- The loop of `checksum`, which takes a block off the file in each round, and the last partial block.
  unfoldable pub checksum_loop : Bool → ℕ → ℕ → List ℕ → Hash → Hash
  unfolding update zero_block
  checksum_loop detect_zeroes block_size zero f h = h
  checksum_loop detect_zeroes block_size (suc fuel) f h =
      let block = take block_size f in
      let hashed =
        if detect_zeroes && is_zero block then zero_block block_size h else update block h in
      let rest = checksum_loop detect_zeroes block_size fuel (drop block_size f) hashed in
      if leb block_size (length f) then rest else if length f == 0 then h else update f h

  -- The digest that `checksum` returns. A round takes a byte at least, so the length is enough fuel.
  unfoldable pub checksum : Bool → ℕ → List ℕ → List ℕ
  unfolding new_hash digest checksum_loop
  checksum detect_zeroes block_size f =
      digest (checksum_loop detect_zeroes block_size (length f + 1) f (new_hash block_size))

  -- The digests of blocks, one after another.
  abbrev pub digests : List (List ℕ) → List ℕ
  digests [] = []
  digests (b ∷ bs) = func b ++ digests bs

abbrev pub joined : List (List ℕ) → List ℕ
joined [] = []
joined (b ∷ bs) = b ++ joined bs

-- The blocks have the block size, but for the last one, which may be shorter and is not empty.
abbrev pub IsBlocks : ℕ → List (List ℕ) → Type 0
IsBlocks block_size [] = Unit
IsBlocks block_size (b ∷ bs) =
    (0 < length b)
    × (length b ≤ block_size)
    × (length b < block_size → bs ≡ [])
    × IsBlocks block_size bs

take-append : (n : ℕ) (xs ys : List ℕ) → length xs ≡ n → take n (xs ++ ys) ≡ xs
take-append zero [] ys e = refl
take-append zero (x ∷ xs) ys e = absurd (omega arith)
take-append (suc n) [] ys e = absurd (omega arith)
take-append (suc n) (x ∷ xs) ys e = ap (λ zs. x ∷ zs) (take-append n xs ys (omega arith))

drop-append : (n : ℕ) (xs ys : List ℕ) → length xs ≡ n → drop n (xs ++ ys) ≡ ys
drop-append zero [] ys e = refl
drop-append zero (x ∷ xs) ys e = absurd (omega arith)
drop-append (suc n) [] ys e = absurd (omega arith)
drop-append (suc n) (x ∷ xs) ys e = drop-append n xs ys (omega arith)

leb-true : (a b : ℕ) → a ≤ b → leb a b ≡ true
leb-true a b h = ground arith

leb-false : (a b : ℕ) → b < a → leb a b ≡ false
leb-false a b h = ground arith

==-false : (a b : ℕ) → b < a → (a == b) ≡ false
==-false a b h = ground arith

module _ (func : List ℕ → List ℕ) (detect_zeroes : Bool) (block_size : ℕ)
    (pos : 0 < block_size) where
  abbrev IsNew : Hash func → Type 0
  IsNew h = (h.block_size ≡ block_size) × (h.zero_block_digest ≡ func (replicate block_size 0))

  -- A block that is found to be zero adds what the block itself would.
  zero_block_lem :
      (block : List ℕ) (h : Hash func)
      → IsNew h
      → length block ≡ block_size
      → is_zero block ≡ true
      → zero_block func block_size h ≡ update func block h
  unfolding zero_block update
  zero_block_lem block h new e z =
      let r : block ≡ replicate block_size 0 =
        is_zero-replicate block z ∙ ap (λ n. replicate n 0) e in
      ground arith

  hashed_lem :
      (block : List ℕ) (h : Hash func)
      → IsNew h
      → length block ≡ block_size
      → (if detect_zeroes && is_zero block
          then zero_block func block_size h
          else update func block h)
        ≡ update func block h
  hashed_lem block h new e = ground (arith, zero_block_lem block h new e)

  -- A round on a whole block.
  whole_lem :
      (fuel : ℕ) (x rest : List ℕ) (h : Hash func)
      → IsNew h
      → length x ≡ block_size
      → checksum_loop func detect_zeroes block_size (suc fuel) (x ++ rest) h
        ≡ checksum_loop func detect_zeroes block_size fuel rest (update func x h)
  unfolding checksum_loop
  whole_lem fuel x rest h new e =
      let long = leb-true block_size (length (x ++ rest)) (omega (arith, length-append x rest)) in
      rw
        (
          long,
          take-append block_size x rest e,
          drop-append block_size x rest e,
          hashed_lem x h new e,
        )
        refl

  -- The round on the last, partial block.
  partial_lem :
      (fuel : ℕ) (x : List ℕ) (h : Hash func)
      → 0 < length x
      → length x < block_size
      → checksum_loop func detect_zeroes block_size (suc fuel) x h ≡ update func x h
  unfolding checksum_loop
  partial_lem fuel x h some_bytes short =
      rw (leb-false block_size (length x) short, ==-false (length x) 0 some_bytes) refl

  empty_lem :
      (fuel : ℕ) (h : Hash func) → checksum_loop func detect_zeroes block_size (suc fuel) [] h ≡ h
  unfolding checksum_loop
  empty_lem fuel h = rw (leb-false block_size 0 pos) refl

  loop_lem :
      (blocks : List (List ℕ)) (fuel : ℕ) (h : Hash func)
      → IsBlocks block_size blocks
      → IsNew h
      → length (joined blocks) < fuel
      → (checksum_loop func detect_zeroes block_size fuel (joined blocks) h).hash
        ≡ h.hash ++ digests func blocks
  unfolding update
  loop_lem blocks zero h b new lt = absurd (omega arith)
  loop_lem [] (suc fuel) h b new lt = rw (empty_lem fuel h) (sym (append-nil h.hash))
  loop_lem (x ∷ xs) (suc fuel) h b new lt = elim (leb-cases block_size (length x)) [
    | inl (_, le) ↦
        let e : length x ≡ block_size = omega (arith, b.1) in
        rw (whole_lem fuel x (joined xs) h new e) (
          loop_lem xs fuel (update func x h) b.3 new
            (omega (arith, lt, length-append x (joined xs)))
          ∙ append_assoc h.hash (func x) (digests func xs))
    | inr (_, short) ↦
        let last : xs ≡ [] = b.2 short in
        rw last (
          rw (append-nil x) (
            rw (partial_lem fuel x h b.0 short)
              (ap (λ ys. h.hash ++ ys) (sym (append-nil (func x))))))
  ]

-- The checksum of a file is the hash of the digests of its blocks of the block size, the last of which
-- may be shorter, one after another, whether zeroes are detected or not.
pub checksum_lem :
    (func : List ℕ → List ℕ) (detect_zeroes : Bool) (block_size : ℕ) (blocks : List (List ℕ))
    → 0 < block_size
    → IsBlocks block_size blocks
    → checksum func detect_zeroes block_size (joined blocks) ≡ func (digests func blocks)
unfolding checksum digest new_hash
checksum_lem func detect_zeroes block_size blocks pos b = ap func (
    loop_lem func detect_zeroes block_size pos blocks (length (joined blocks) + 1)
      (new_hash func block_size) b (refl, refl) (omega arith))
