-- ===== src/Nbdutil/Merged.antt =====
-- `merged` of ovirt_imageio/_internal/nbdutil.py and the flags of both lists.
use Prim.Native.Nat.{bit_or}
use ovirt_imageio.Base.{
  ℕ, ◌+◌, ◌-◌, ◌≤◌, ◌<◌, min, ◌≡◌, refl, ap₂, true, false, inl, inr, ◌⊎◌, List, [], ◌∷◌, arith,
  ◌==◌, ltb, subst, sym,
}
use ovirt_imageio.Nbd.Extents.{Extent}
use ovirt_imageio.Nbdutil.{merge_one, merged}

-- From the byte `o` on, the extents give each byte the flags that `f` gives it.
abbrev pub Describes : (ℕ → ℕ) → ℕ → List Extent → Type 0
Describes f o [] = Unit
Describes f o (e ∷ es) =
    ((i : ℕ) → o ≤ i → i < o + e.length → f i ≡ e.flags) × Describes f (o + e.length) es

abbrev pub total : List Extent → ℕ
total [] = 0
total (e ∷ es) = e.length + total es

-- No extent is empty.
abbrev pub IsProper : List Extent → Type 0
IsProper [] = Unit
IsProper (e ∷ es) = (0 < e.length) × IsProper es

pub Describes-at :
    (f : ℕ → ℕ) {o p : ℕ} (es : List Extent) → o ≡ p → Describes f o es → Describes f p es
Describes-at f es e d = subst (λ q. Describes f q es) e d

-- How two lengths compare, with the tests of the code.
compare-cases :
    (a b : ℕ)
    → ((a == b) ≡ true) × (a ≡ b)
      ⊎ ((a == b) ≡ false) × (ltb b a ≡ true) × (b < a)
      ⊎ ((a == b) ≡ false) × (ltb b a ≡ false) × (a < b)
compare-cases a b = ground arith

module _ (f g : ℕ → ℕ) where
  abbrev united : ℕ → ℕ
  united i = bit_or (f i) (g i)

  merge_one-Describes :
      (a : Extent) (bs : List Extent) (rest : List Extent → List Extent) (o e : ℕ)
      → o + a.length ≡ e
      → ((i : ℕ) → o ≤ i → i < o + a.length → f i ≡ a.flags)
      → Describes g o bs
      → ((cs : List Extent) → Describes g e cs → Describes united e (rest cs))
      → Describes united o (merge_one a bs rest)
  unfolding merge_one
  merge_one-Describes a [] rest o e end fa gb k = tt
  merge_one-Describes a (b ∷ bs) rest o e end fa gb k = elim (compare-cases a.length b.length) [
    | inl (t, same) ↦
        rw (t, Describes)
          (
            λ i lo hi. ap₂ bit_or (fa i lo hi) (gb.0 i lo (omega arith)),
            Describes-at united (rest bs) (sym end) (k bs (Describes-at g bs (omega arith) gb.1)),
          )
    | inr (inl (t, u, more)) ↦
        rw (t, Describes)
          (rw (u, Describes)
            (
              λ i lo hi. ap₂ bit_or (fa i lo (omega arith)) (gb.0 i lo hi),
              merge_one-Describes (record { length = a.length - b.length; flags = a.flags }) bs rest
                  (o + b.length) e (omega arith) (λ i lo hi. fa i (omega arith) (omega arith)) gb.1
                  k,
            ))
    | inr (inr (t, u, less)) ↦
        rw (t, Describes)
          (rw (u, Describes)
            (
              λ i lo hi. ap₂ bit_or (fa i lo hi) (gb.0 i lo (omega arith)),
              Describes-at united _ (sym end) (
                  k (record { length = b.length - a.length; flags = b.flags } ∷ bs) (
                    λ i lo hi. gb.0 i (omega arith) (omega arith),
                    Describes-at g bs (omega arith) gb.1,
                  )),
            ))
  ]

  -- Where two lists describe `f` and `g` from the same byte on, the merged list describes the two
  -- together, bit by bit.
  pub merged-Describes :
      (as' bs : List Extent) (o : ℕ)
      → Describes f o as'
      → Describes g o bs
      → Describes united o (merged as' bs)
  unfolding merged
  merged-Describes [] bs o fa gb = tt
  merged-Describes (a ∷ as') bs o fa gb =
      merge_one-Describes a bs (merged as') o (o + a.length) refl fa.0 gb
        λ cs d. merged-Describes as' cs (o + a.length) fa.1 d

merge_one-total :
    (a : Extent) (bs : List Extent) (rest : List Extent → List Extent) (n : ℕ)
    → ((cs : List Extent) → total (rest cs) ≡ min n (total cs))
    → total (merge_one a bs rest) ≡ min (a.length + n) (total bs)
unfolding merge_one
merge_one-total a [] rest n k = omega arith
merge_one-total a (b ∷ bs) rest n k = ground (
  arith,
  k bs,
  k (record { length = b.length - a.length; flags = b.flags } ∷ bs),
  merge_one-total (record { length = a.length - b.length; flags = a.flags }) bs rest n k,
)

-- The merged list is as long as the shorter of the two.
pub merged-total : (as' bs : List Extent) → total (merged as' bs) ≡ min (total as') (total bs)
unfolding merged
merged-total [] bs = omega arith
merged-total (a ∷ as') bs = merge_one-total a bs (merged as') (total as') (merged-total as')

merge_one-IsProper :
    (a : Extent) (bs : List Extent) (rest : List Extent → List Extent)
    → 0 < a.length
    → IsProper bs
    → ((cs : List Extent) → IsProper cs → IsProper (rest cs))
    → IsProper (merge_one a bs rest)
unfolding merge_one
merge_one-IsProper a [] rest h p k = tt
merge_one-IsProper a (b ∷ bs) rest h p k = ground (
  arith,
  k bs,
  k (record { length = b.length - a.length; flags = b.flags } ∷ bs),
  merge_one-IsProper (record { length = a.length - b.length; flags = a.flags }) bs rest,
)

pub merged-IsProper : (as' bs : List Extent) → IsProper as' → IsProper bs → IsProper (merged as' bs)
unfolding merged
merged-IsProper [] bs p q = tt
merged-IsProper (a ∷ as') bs p q =
    merge_one-IsProper a bs (merged as') p.0 q (λ cs r. merged-IsProper as' cs p.1 r)

-- From two lists that describe `f` and `g` from the same byte on, with no empty extent, `merged` yields
-- extents that give each byte the flags of both, are not empty, and reach as far as the shorter list.
pub merged_lem :
    (f g : ℕ → ℕ) (as' bs : List Extent) (o : ℕ)
    → Describes f o as'
    → Describes g o bs
    → IsProper as'
    → IsProper bs
    → Describes (λ i. bit_or (f i) (g i)) o (merged as' bs)
      × IsProper (merged as' bs)
      × (total (merged as' bs) ≡ min (total as') (total bs))
merged_lem f g as' bs o d e p q =
    (merged-Describes f g as' bs o d e, merged-IsProper as' bs p q, merged-total as' bs)
