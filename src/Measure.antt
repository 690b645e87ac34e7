-- ===== src/Measure.antt =====
-- ovirt_imageio/_internal/measure.py: ranges of bytes, and the merged list of ranges that a ticket
-- keeps to report how much was transferred.
pub mod Cover
pub mod Total
use ovirt_imageio.Base.{
  ℕ, ◌+◌, ◌-◌, max, Bool, true, false, List, [], ◌∷◌, ◌++◌, ltb, leb, ◌==◌, if◌then◌else◌,
}

pub record Range : Type 0 where
  pub start : ℕ
  pub end : ℕ

-- `Range.__lt__`
unfoldable pub range_lt : Range → Range → Bool
range_lt a b =
    if ltb a.start b.start then true else if a.start == b.start then ltb a.end b.end else false

-- `Range.__len__`
abbrev pub range_len : Range → ℕ
range_len r = r.end - r.start

abbrev pub RangeList : Type 0
RangeList = List Range

-- `bisect.insort_left` on a sorted list: before the first range that is not less than `r`.
unfoldable pub insort_left : RangeList → Range → RangeList
unfolding range_lt
insort_left [] r = r ∷ []
insort_left (x ∷ xs) r = if range_lt x r then x ∷ insort_left xs r else r ∷ x ∷ xs

-- `list.sort` by `__lt__`.
unfoldable pub sort : RangeList → RangeList
unfolding insort_left
sort [] = []
sort (x ∷ xs) = insort_left (sort xs) x

-- The loop of `_merged`: `current` is the last range of the result so far.
unfoldable pub merge_from : Range → RangeList → RangeList
merge_from current [] = current ∷ []
merge_from current (r ∷ rs) = elim (leb r.start current.end) [
  | true ↦ merge_from (record current { end = max current.end r.end }) rs
  | false ↦ current ∷ merge_from r rs
]

unfoldable pub merged : RangeList → RangeList
unfolding merge_from
merged [] = []
merged (r ∷ rs) = merge_from r rs

-- `RangeList.add`
unfoldable pub add : RangeList → Range → RangeList
unfolding insort_left merged
add rs r = merged (insort_left rs r)

-- `RangeList.update`, from a list of ranges in any order.
unfoldable pub update : RangeList → List Range → RangeList
unfolding sort merged
update rs new = merged (sort (rs ++ new))

-- `RangeList.sum`
unfoldable pub sum : RangeList → ℕ
sum [] = 0
sum (r ∷ rs) = range_len r + sum rs
