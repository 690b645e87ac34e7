-- ===== src/Measure/Total.antt =====
-- `RangeList.sum` of ovirt_imageio/_internal/measure.py.
use mathlib.Core.Path.{fun_ext}
use ovirt_imageio.Base.{
  ℕ, ◌+◌, ◌-◌, ◌≤◌, ◌≡◌, refl, ap, ◌∙◌, false, ◌||◌, List, [], ◌∷◌, ◌++◌, arith, All, max,
}
use ovirt_imageio.Base.Count.{count_below, count_below-or, count_below-interval, count_below-false}
use ovirt_imageio.Measure.{
  Range, RangeList, sum, insort_left, sort, merge_from, merged, add, update,
}
use ovirt_imageio.Measure.Cover.{contains, covers, IsRange, IsApart, IsMerged, add_lem, update_lem}

-- No range ends above `n`.
abbrev pub IsBelow : ℕ → RangeList → Type 0
IsBelow n [] = Unit
IsBelow n (r ∷ rs) = (r.end ≤ n) × IsBelow n rs

apart-covers : (e : ℕ) (rs : RangeList) (x : ℕ) → IsApart e rs → x ≤ e → covers rs x ≡ false
apart-covers e [] x a h = refl
apart-covers e (r ∷ rs) x a h = ground (arith, apart-covers r.end rs x)

count-cons :
    (n : ℕ) (r : Range) (rs : RangeList)
    → IsRange r
    → IsApart r.end rs
    → r.end ≤ n
    → count_below n (covers (r ∷ rs)) ≡ (r.end - r.start) + count_below n (covers rs)
count-cons n r rs v a h = omega (
  arith,
  count_below-or n (contains r) (covers rs) (λ x p. apart-covers r.end rs x a (ground arith)),
  count_below-interval n r.start r.end,
)

IsApart-total :
    (n e : ℕ) (rs : RangeList) → IsApart e rs → IsBelow n rs → sum rs ≡ count_below n (covers rs)
unfolding sum
IsApart-total n e [] a b = omega (arith, count_below-false n)
IsApart-total n e (r ∷ rs) a b =
    omega (arith, count-cons n r rs a.1 a.2 b.0, IsApart-total n r.end rs a.2 b.1)

-- The sum of a merged list counts each byte that it covers once.
pub sum-IsMerged :
    (n : ℕ) (rs : RangeList) → IsMerged rs → IsBelow n rs → sum rs ≡ count_below n (covers rs)
unfolding sum
sum-IsMerged n [] m b = omega (arith, count_below-false n)
sum-IsMerged n (r ∷ rs) m b =
    omega (arith, count-cons n r rs m.0 m.1 b.0, IsApart-total n r.end rs m.1 b.1)

pub insort_left-IsBelow :
    (n : ℕ) (rs : RangeList) (r : Range) → r.end ≤ n → IsBelow n rs → IsBelow n (insort_left rs r)
unfolding insort_left
insort_left-IsBelow n [] r h b = (h, b)
insort_left-IsBelow n (x ∷ xs) r h b = ground (arith, insort_left-IsBelow n xs r)

sort-IsBelow : (n : ℕ) (rs : RangeList) → IsBelow n rs → IsBelow n (sort rs)
unfolding sort
sort-IsBelow n [] b = tt
sort-IsBelow n (r ∷ rs) b = insort_left-IsBelow n (sort rs) r b.0 (sort-IsBelow n rs b.1)

append-IsBelow : (n : ℕ) (rs ss : RangeList) → IsBelow n rs → IsBelow n ss → IsBelow n (rs ++ ss)
append-IsBelow n [] ss b c = c
append-IsBelow n (r ∷ rs) ss b c = (b.0, append-IsBelow n rs ss b.1 c)

merge_from-IsBelow :
    (n : ℕ) (c : Range) (rs : RangeList) → c.end ≤ n → IsBelow n rs → IsBelow n (merge_from c rs)
unfolding merge_from
merge_from-IsBelow n c [] h b = (h, b)
merge_from-IsBelow n c (r ∷ rs) h b =
    ground (
      arith,
      merge_from-IsBelow n (record c { end = max c.end r.end }) rs,
      merge_from-IsBelow n r rs,
    )

pub merged-IsBelow : (n : ℕ) (rs : RangeList) → IsBelow n rs → IsBelow n (merged rs)
unfolding merged
merged-IsBelow n [] b = b
merged-IsBelow n (r ∷ rs) b = merge_from-IsBelow n r rs b.0 b.1

module _ (n : ℕ) (rs : RangeList) (m : IsMerged rs) (b : IsBelow n rs) where
  -- After `add` of a range to a merged list, all of it below `n`, the sum is the number of bytes
  -- below `n` that lie in the range or were covered before: no byte is counted twice.
  pub sum-add :
      (r : Range)
      → IsRange r
      → r.end ≤ n
      → sum (add rs r) ≡ count_below n (λ x. contains r x || covers rs x)
  sum-add r v h =
      let (m', c) = add_lem rs m r v in
      sum-IsMerged n (add rs r) m'
        (unfold add in merged-IsBelow n (insort_left rs r) (insort_left-IsBelow n rs r h b))
      ∙ ap (count_below n) (fun_ext c)

  -- After `update` of a merged list with ranges in any order, all of them below `n`, the sum is the
  -- number of bytes below `n` that one of the ranges holds or that were covered before.
  pub sum-update :
      (new : List Range)
      → All IsRange new
      → IsBelow n new
      → sum (update rs new) ≡ count_below n (λ x. covers rs x || covers new x)
  sum-update new v h =
      let (m', c) = update_lem rs m new v in
      sum-IsMerged n (update rs new) m' (
        unfold update in
        merged-IsBelow n (sort (rs ++ new))
          (sort-IsBelow n (rs ++ new) (append-IsBelow n rs new b h)))
      ∙ ap (count_below n) (fun_ext c)
