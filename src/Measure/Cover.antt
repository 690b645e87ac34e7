-- ===== src/Measure/Cover.antt =====
-- The bytes that the ranges of ovirt_imageio/_internal/measure.py cover.
use ovirt_imageio.Base.{
  ℕ, ◌≤◌, ◌<◌, ◌≡◌, refl, Bool, false, ◌&&◌, ◌||◌, List, [], ◌∷◌, ◌++◌, arith, ltb, leb, All, max,
  ◌∙◌,
}
use ovirt_imageio.Measure.{Range, RangeList, insort_left, sort, merge_from, merged, add, update}

-- The byte `x` is in the range.
abbrev pub contains : Range → ℕ → Bool
contains r x = leb r.start x && ltb x r.end

-- The byte `x` is in one of the ranges.
abbrev pub covers : RangeList → ℕ → Bool
covers [] x = false
covers (r ∷ rs) x = contains r x || covers rs x

abbrev pub IsRange : Range → Type 0
IsRange r = r.start ≤ r.end

-- The ranges begin at `lo` or later, in the order of their starts.
abbrev pub IsSorted : ℕ → RangeList → Type 0
IsSorted lo [] = Unit
IsSorted lo (r ∷ rs) = (lo ≤ r.start) × IsRange r × IsSorted r.start rs

-- The ranges lie above `e` with a gap before each: none touch, overlap or repeat.
abbrev pub IsApart : ℕ → RangeList → Type 0
IsApart e [] = Unit
IsApart e (r ∷ rs) = (e < r.start) × IsRange r × IsApart r.end rs

-- What `_merged` promises: sorted, with a gap between any two ranges.
abbrev pub IsMerged : RangeList → Type 0
IsMerged [] = Unit
IsMerged (r ∷ rs) = IsRange r × IsApart r.end rs

IsApart-IsSorted : (e lo : ℕ) (rs : RangeList) → lo ≤ e → IsApart e rs → IsSorted lo rs
IsApart-IsSorted e lo [] h a = tt
IsApart-IsSorted e lo (r ∷ rs) h a = (omega arith, a.1, IsApart-IsSorted r.end r.start rs a.1 a.2)

pub IsMerged-IsSorted : (rs : RangeList) → IsMerged rs → IsSorted 0 rs
IsMerged-IsSorted [] m = tt
IsMerged-IsSorted (r ∷ rs) m = (omega arith, m.0, IsApart-IsSorted r.end r.start rs m.0 m.1)

pub IsSorted-IsRange : (lo : ℕ) (rs : RangeList) → IsSorted lo rs → All IsRange rs
IsSorted-IsRange lo [] s = tt
IsSorted-IsRange lo (r ∷ rs) s = (s.1, IsSorted-IsRange r.start rs s.2)

pub insort_left-IsSorted :
    (lo : ℕ) (rs : RangeList) (r : Range)
    → lo ≤ r.start
    → IsRange r
    → IsSorted lo rs
    → IsSorted lo (insort_left rs r)
unfolding insort_left
insort_left-IsSorted lo [] r h v s = (h, v, tt)
insort_left-IsSorted lo (x ∷ xs) r h v s = ground (arith, insort_left-IsSorted x.start xs r)

pub sort-IsSorted : (rs : RangeList) → All IsRange rs → IsSorted 0 (sort rs)
unfolding sort
sort-IsSorted [] h = tt
sort-IsSorted (r ∷ rs) h =
    insort_left-IsSorted 0 (sort rs) r (omega arith) h.0 (sort-IsSorted rs h.1)

pub covers-insort_left :
    (rs : RangeList) (r : Range) (x : ℕ)
    → covers (insort_left rs r) x ≡ (contains r x || covers rs x)
unfolding insort_left
covers-insort_left [] r x = ground arith
covers-insort_left (y ∷ ys) r x = ground (arith, covers-insort_left ys r x)

pub covers-sort : (rs : RangeList) (x : ℕ) → covers (sort rs) x ≡ covers rs x
unfolding sort
covers-sort [] x = refl
covers-sort (r ∷ rs) x = ground (arith, covers-insort_left (sort rs) r x, covers-sort rs x)

pub covers-append : (rs ss : RangeList) (x : ℕ) → covers (rs ++ ss) x ≡ (covers rs x || covers ss x)
covers-append [] ss x = refl
covers-append (r ∷ rs) ss x = ground (arith, covers-append rs ss x)

IsSorted-le : (lo hi : ℕ) (rs : RangeList) → lo ≤ hi → IsSorted hi rs → IsSorted lo rs
IsSorted-le lo hi [] h s = tt
IsSorted-le lo hi (r ∷ rs) h s = (omega arith, s.1, s.2)

covers-merge_from :
    (c : Range) (rs : RangeList) (x : ℕ)
    → IsRange c
    → IsSorted c.start rs
    → covers (merge_from c rs) x ≡ (contains c x || covers rs x)
unfolding merge_from
covers-merge_from c [] x v s = refl
covers-merge_from c (r ∷ rs) x v s = ground (
  arith,
  covers-merge_from (record c { end = max c.end r.end }) rs x,
  covers-merge_from r rs x,
  IsSorted-le c.start r.start rs,
)

-- Merging a sorted list keeps exactly the bytes that it covers.
pub covers-merged : (rs : RangeList) (x : ℕ) → IsSorted 0 rs → covers (merged rs) x ≡ covers rs x
unfolding merged
covers-merged [] x s = refl
covers-merged (r ∷ rs) x s = covers-merge_from r rs x s.1 s.2

-- The merged ranges end no earlier than the current one, and what follows lies apart.
merge_from-IsApart :
    (e : ℕ) (c : Range) (rs : RangeList)
    → e < c.start
    → IsRange c
    → IsSorted c.start rs
    → IsApart e (merge_from c rs)
unfolding merge_from
merge_from-IsApart e c [] h v s = (h, v, tt)
merge_from-IsApart e c (r ∷ rs) h v s = ground (
  arith,
  merge_from-IsApart e (record c { end = max c.end r.end }) rs,
  merge_from-IsApart c.end r rs,
  IsSorted-le c.start r.start rs,
)

merge_from-IsMerged :
    (c : Range) (rs : RangeList) → IsRange c → IsSorted c.start rs → IsMerged (merge_from c rs)
unfolding merge_from
merge_from-IsMerged c [] v s = (v, tt)
merge_from-IsMerged c (r ∷ rs) v s = ground (
  arith,
  merge_from-IsMerged (record c { end = max c.end r.end }) rs,
  merge_from-IsApart c.end r rs,
  IsSorted-le c.start r.start rs,
)

pub merged-IsMerged : (rs : RangeList) → IsSorted 0 rs → IsMerged (merged rs)
unfolding merged
merged-IsMerged [] s = tt
merged-IsMerged (r ∷ rs) s = merge_from-IsMerged r rs s.1 s.2

All-append : (rs ss : RangeList) → All IsRange rs → All IsRange ss → All IsRange (rs ++ ss)
All-append [] ss h k = k
All-append (r ∷ rs) ss h k = (h.0, All-append rs ss h.1 k)

module _ (rs : RangeList) (m : IsMerged rs) where
  sorted : IsSorted 0 rs
  sorted = IsMerged-IsSorted rs m

  -- Adding a range to a merged list leaves a merged list that covers the range and what was covered
  -- before, and no other byte.
  pub add_lem :
      (r : Range)
      → IsRange r
      → IsMerged (add rs r) × ((x : ℕ) → covers (add rs r) x ≡ (contains r x || covers rs x))
  unfolding add
  add_lem r v =
      let s : IsSorted 0 (insort_left rs r) = insort_left-IsSorted 0 rs r (omega arith) v sorted in
      (
        merged-IsMerged (insort_left rs r) s,
        λ x. covers-merged (insort_left rs r) x s ∙ covers-insort_left rs r x,
      )

  -- Updating a merged list with ranges in any order leaves a merged list that covers those ranges
  -- and what was covered before, and no other byte.
  pub update_lem :
      (new : List Range)
      → All IsRange new
      → IsMerged (update rs new)
        × ((x : ℕ) → covers (update rs new) x ≡ (covers rs x || covers new x))
  unfolding update
  update_lem new v =
      let s : IsSorted 0 (sort (rs ++ new)) =
        sort-IsSorted (rs ++ new) (All-append rs new (IsSorted-IsRange 0 rs sorted) v) in
      (
        merged-IsMerged (sort (rs ++ new)) s,
        λ x.
            covers-merged (sort (rs ++ new)) x s
            ∙ covers-sort (rs ++ new) x
            ∙ covers-append rs new x,
      )
