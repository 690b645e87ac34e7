-- ===== src/Tests/Ranges.antt =====
-- The theorems on ranges and rounding at concrete inputs.
use ovirt_imageio.Base.{ℕ, ◌+◌, ◌≤◌, ◌<◌, ◌%◌, ◌≡◌, refl, ◌||◌, List, [], ◌∷◌, arith}
use ovirt_imageio.Base.Count.{count_below}
use ovirt_imageio.Measure.{Range, RangeList, add, update, sum}
use ovirt_imageio.Measure.Cover.{contains, covers, IsMerged, add_lem, update_lem}
use ovirt_imageio.Measure.Total.{IsBelow, sum-add, sum-update}
use ovirt_imageio.Util.{round_up, round_down, rounding}

abbrev range : ℕ → ℕ → Range
range a b = record { start = a; end = b }

abbrev two_ranges : RangeList
two_ranges = range 0 4 ∷ range 8 12 ∷ []

two_ranges-IsMerged : IsMerged two_ranges
two_ranges-IsMerged = (omega arith, (omega arith, omega arith, tt))

two_ranges-IsBelow : IsBelow 20 two_ranges
two_ranges-IsBelow = (omega arith, (omega arith, tt))

abbrev gap : Range
gap = range 4 8

abbrev late : List Range
late = range 10 16 ∷ range 2 3 ∷ []

add-gap : add two_ranges gap ≡ range 0 12 ∷ []
unfolding add
add-gap = refl

update-late : update two_ranges late ≡ range 0 4 ∷ range 8 16 ∷ []
unfolding update
update-late = refl

add_lem_example :
    IsMerged (add two_ranges gap)
    × ((x : ℕ) → covers (add two_ranges gap) x ≡ (contains gap x || covers two_ranges x))
add_lem_example = add_lem two_ranges two_ranges-IsMerged gap (omega arith)

update_lem_example :
    IsMerged (update two_ranges late)
    × ((x : ℕ) → covers (update two_ranges late) x ≡ (covers two_ranges x || covers late x))
update_lem_example = update_lem two_ranges two_ranges-IsMerged late (omega arith, (omega arith, tt))

sum-add_example :
    sum (add two_ranges gap) ≡ count_below 20 (λ x. contains gap x || covers two_ranges x)
sum-add_example =
    sum-add 20 two_ranges two_ranges-IsMerged two_ranges-IsBelow gap (omega arith) (omega arith)

sum-update_example :
    sum (update two_ranges late) ≡ count_below 20 (λ x. covers two_ranges x || covers late x)
sum-update_example =
    sum-update 20 two_ranges two_ranges-IsMerged two_ranges-IsBelow late
      (omega arith, (omega arith, tt)) (omega arith, (omega arith, tt))

rounding_example :
    (round_up 1000 512 % 512 ≡ 0)
    × (1000 ≤ round_up 1000 512)
    × (round_up 1000 512 < 1000 + 512)
    × (round_down 1000 512 % 512 ≡ 0)
    × (round_down 1000 512 ≤ 1000)
    × (1000 < round_down 1000 512 + 512)
rounding_example = rounding 1000 512 (omega arith)
