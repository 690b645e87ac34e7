-- ===== src/Blkhash/Blocks.antt =====
-- `split` of ovirt_imageio/_internal/blkhash.py: the bytes of its blocks.
use ovirt_imageio.Base.{
  ℕ, zero, suc, ◌+◌, ◌-◌, ◌≤◌, ◌<◌, min, ◌≡◌, refl, Bool, true, false, ◌&&◌, Option, none, some,
  List, [], ◌∷◌, ◌++◌, arith, ◌==◌, inl, inr, leb-cases, ltb-cases, sym, subst, ◌⊎◌, ◌∙◌,
}
use ovirt_imageio.Extent.{ZeroExtent}
use ovirt_imageio.Blkhash.{Block, cut, cut_and_keep, split_extent, split_from, split}

zero-cases : (a : ℕ) → ((a == 0) ≡ true) × (a ≡ 0) ⊎ ((a == 0) ≡ false) × (0 < a)
zero-cases a = ground arith

and-cases :
    (a b : Bool)
    → ((a && b) ≡ true → (a ≡ true) × (b ≡ true)) × ((a && b) ≡ false → (a ≡ false) ⊎ (b ≡ false))
and-cases a b = ground arith

abbrev pub bytes : List ZeroExtent → ℕ
bytes [] = 0
bytes (x ∷ xs) = x.length + bytes xs

-- The byte is in the block.
abbrev pub In : Block → ℕ → Type 0
In b i = (b.start ≤ i) × (i < b.start + b.length)

module _ (z : ℕ → Bool) where
  -- The extents follow one another from the byte `o` on, none is empty, and `z` says which bytes are
  -- in zero extents.
  abbrev pub Covered : ℕ → List ZeroExtent → Type 0
  Covered o [] = Unit
  Covered o (e ∷ es) =
      (e.start ≡ o)
      × (0 < e.length)
      × ((i : ℕ) → o ≤ i → i < o + e.length → z i ≡ e.zero)
      × Covered (o + e.length) es

  -- The block is zero if all of its bytes are, and else has one that is not.
  pub record IsExact (b : Block) : Type 0 where
    pub zeros : b.zero ≡ true → (i : ℕ) → In b i → z i ≡ true
    pub some_data : b.zero ≡ false → (i : ℕ) × In b i × (z i ≡ false)

  module _ (block_size : ℕ) where
    -- Blocks of the block size from `o` to `end`.
    abbrev Full : ℕ → List Block → ℕ → Type 0
    Full o [] end = o ≡ end
    Full o (b ∷ bs) end =
        (b.start ≡ o) × (b.length ≡ block_size) × IsExact b × Full (o + block_size) bs end

    -- Blocks from `o` to `end`, where only the last may be shorter than the block size.
    abbrev pub Tiles : ℕ → List Block → ℕ → Type 0
    Tiles o [] end = o ≡ end
    Tiles o (b ∷ bs) end =
        (b.start ≡ o)
        × (0 < b.length)
        × (b.length ≤ block_size)
        × (b.length < block_size → bs ≡ [])
        × IsExact b
        × Tiles (o + b.length) bs end

    -- The partial block that is kept when the byte `o` is reached.
    record IsPartial (o : ℕ) (b : Block) : Type 0 where
      reach : b.start + b.length ≡ o
      some_bytes : 0 < b.length
      short : b.length < block_size
      exact : IsExact b

    abbrev Keeps : ℕ → Option Block → Type 0
    Keeps o none = Unit
    Keeps o (some b) = IsPartial o b

    -- Where the blocks that were yielded end.
    abbrev done_at : ℕ → Option Block → ℕ
    done_at o none = o
    done_at o (some b) = b.start

    Full-Tiles :
        (o m end : ℕ) (bs cs : List Block)
        → 0 < block_size
        → Full o bs m
        → Tiles m cs end
        → Tiles o (bs ++ cs) end
    Full-Tiles o m end [] cs h f t = subst (λ p. Tiles p cs end) (sym f) t
    Full-Tiles o m end (b ∷ bs) cs h f t = (
      f.0,
      omega (arith, f.1),
      omega (arith, f.1),
      λ lt. absurd (omega (arith, f.1, lt)),
      f.2,
      rw f.1 (Full-Tiles (o + block_size) m end bs cs h f.3 t),
    )

    -- The same flag on every byte of a block that is not empty.
    IsExact-uniform : (b : Block) → 0 < b.length → ((i : ℕ) → In b i → z i ≡ b.zero) → IsExact b
    IsExact-uniform b h u = record {
      zeros = λ e i w. rw (← e) (u i w);
      some_data = λ e. (b.start, (omega arith, omega arith), rw (← e) (u b.start (omega arith)));
    }

    module _ (pos : 0 < block_size) where
      cut_lem :
          (fuel : ℕ) (c : Block)
          → c.length ≤ fuel
          → ((i : ℕ) → In c i → z i ≡ c.zero)
          → let (blocks, left) = cut fuel block_size c in
            Full c.start blocks left.start
            × (left.start + left.length ≡ c.start + c.length)
            × (left.length < block_size)
            × (c.start ≤ left.start)
            × (left.zero ≡ c.zero)
      unfolding cut
      cut_lem zero c h u = (refl, refl, omega arith, omega arith, refl)
      cut_lem (suc fuel) c h u = elim (leb-cases block_size c.length) [
        | inl (t, le) ↦
            let left : Block = record c {
              start = c.start + block_size;
              length = c.length - block_size;
            } in
            let (full, reach, short, up, same) =
              cut_lem fuel left (omega arith) (λ i w. u i (omega arith)) in
            rw t (
              (refl, refl, IsExact-uniform _ pos (λ i w. u i (omega arith)), full),
              omega arith,
              short,
              omega arith,
              same,
            )
        | inr (t, lt) ↦ rw t (refl, refl, lt, omega arith, refl)
      ]

      cut_and_keep_lem :
          (c : Block) (e : ℕ)
          → c.start + c.length ≡ e
          → ((i : ℕ) → In c i → z i ≡ c.zero)
          → Full c.start (cut_and_keep block_size c).0 (done_at e (cut_and_keep block_size c).1)
            × Keeps e (cut_and_keep block_size c).1
      unfolding cut_and_keep
      cut_and_keep_lem c e at u =
          let left = (cut c.length block_size c).1 in
          let (full, reach, short, up, same) = cut_lem c.length c (omega arith) u in
          elim (zero-cases left.length) [
            | inl (t, empty) ↦
                rw t (subst (Full c.start (cut c.length block_size c).0) (omega arith) full, tt)
            | inr (t, more) ↦ rw t (
              full,
              record {
                reach = reach ∙ at;
                some_bytes = more;
                short = short;
                exact = IsExact-uniform left more (λ i w. rw same (u i (omega arith)));
              },
            )
          ]

      -- A block that grew by bytes with one flag.
      IsExact-merge :
          (p : Block) (n : ℕ) (flag : Bool)
          → 0 < n
          → IsExact p
          → ((i : ℕ) → p.start + p.length ≤ i → i < p.start + p.length + n → z i ≡ flag)
          → IsExact (record p { length = p.length + n; zero = p.zero && flag })
      IsExact-merge p n flag h x u = record {
        zeros = λ e i w. elim (leb-cases (p.start + p.length) i) [
          | inl (t, le) ↦ u i le (omega arith) ∙ ((and-cases p.zero flag).0 e).1
          | inr (t, lt) ↦ x.zeros (((and-cases p.zero flag).0 e).0) i (omega arith)
        ];
        some_data = λ e. elim ((and-cases p.zero flag).1 e) [
          | inl own ↦ let (i, w, d) = x.some_data own in (i, (omega arith, omega arith), d)
          | inr new ↦ (
            p.start + p.length,
            (omega arith, omega arith),
            u (p.start + p.length) (omega arith) (omega arith) ∙ new,
          )
        ];
      }

      -- A round takes the blocks on to the end of the extent.
      split_extent_lem :
          (o : ℕ) (partial : Option Block) (x : ZeroExtent)
          → Keeps o partial
          → x.start ≡ o
          → 0 < x.length
          → ((i : ℕ) → o ≤ i → i < o + x.length → z i ≡ x.zero)
          → let (out, kept) = split_extent block_size partial x in
            Full (done_at o partial) out (done_at (o + x.length) kept) × Keeps (o + x.length) kept
      unfolding split_extent
      split_extent_lem o none x k at h u =
          let c : Block = record { start = x.start; length = x.length; zero = x.zero } in
          let (full, keeps) =
            cut_and_keep_lem c (o + x.length) (omega arith)
              (λ i w. u i (omega arith) (omega arith)) in
          (
            subst
                (λ q.
                  Full q (cut_and_keep block_size c).0
                    (done_at (o + x.length) (cut_and_keep block_size c).1))
                at full,
            keeps,
          )
      split_extent_lem o (some p) x k at h u =
          let n = min (block_size - p.length) x.length in
          let c : Block = record { start = x.start + n; length = x.length - n; zero = x.zero } in
          let exact : IsExact (record p { length = p.length + n; zero = p.zero && x.zero }) =
            IsExact-merge p n x.zero (omega (arith, k.short)) k.exact
              (λ i lo hi. u i (omega (arith, k.reach)) (omega (arith, k.reach))) in
          elim (ltb-cases (p.length + n) block_size) [
            | inl (t, lt) ↦ rw t (
              refl,
              record {
                reach = omega (arith, k.reach);
                some_bytes = omega (arith, k.some_bytes);
                short = lt;
                exact = exact;
              },
            )
            | inr (t, ge) ↦
                let (full, keeps) =
                  cut_and_keep_lem c (o + x.length) (omega arith)
                    (λ i w. u i (omega arith) (omega arith)) in
                rw t (
                  (
                    refl,
                    omega (arith, k.short),
                    exact,
                    subst
                        (λ q.
                          Full q (cut_and_keep block_size c).0
                            (done_at (o + x.length) (cut_and_keep block_size c).1))
                        (omega (arith, k.short, k.reach)) full,
                  ),
                  keeps,
                )
          ]

      split_from_lem :
          (o end : ℕ) (partial : Option Block) (xs : List ZeroExtent)
          → Keeps o partial
          → Covered o xs
          → o + bytes xs ≡ end
          → Tiles (done_at o partial) (split_from block_size partial xs) end
      unfolding split_from
      split_from_lem o end none [] k c e = omega arith
      split_from_lem o end (some p) [] k c e =
          (refl, k.some_bytes, omega (arith, k.short), λ _. refl, k.exact, omega (arith, k.reach))
      split_from_lem o end none (x ∷ xs) k c e =
          let (full, keeps) = split_extent_lem o none x k c.0 c.1 c.2 in
          Full-Tiles _ _ end _ _ pos full (
            split_from_lem (o + x.length) end (split_extent block_size none x).1 xs keeps c.3
              (omega arith))
      split_from_lem o end (some p) (x ∷ xs) k c e =
          let (full, keeps) = split_extent_lem o (some p) x k c.0 c.1 c.2 in
          Full-Tiles _ _ end _ _ pos full (
            split_from_lem (o + x.length) end (split_extent block_size (some p) x).1 xs keeps c.3
              (omega arith))

-- For a positive block size and non-empty extents that follow one another from the byte `o` on, `split`
-- yields blocks that tile exactly the bytes of the extents, in order: each block begins where the one
-- before ends, only the last may be shorter than the block size, and a block is marked zero exactly
-- if all of its bytes lie in zero extents.
pub split_lem :
    (z : ℕ → Bool) (block_size o : ℕ) (xs : List ZeroExtent)
    → 0 < block_size
    → Covered z o xs
    → Tiles z block_size o (split xs block_size) (o + bytes xs)
unfolding split
split_lem z block_size o xs pos c =
    split_from_lem z block_size pos o (o + bytes xs) none xs tt c refl
