-- ===== src/Http/Ranges.antt =====
-- `class Range` and `class ContentRange` of ovirt_imageio/_internal/http.py. The matching of the header
-- by a regular expression is Python's: a parser takes what the expression matched, `none` if it did not,
-- with the number that the digits of a group stand for, or `none` for an empty group or a star.
use ovirt_imageio.Base.{ℕ, Bool, false, Option, none, some, ltb, leb, if◌then◌else◌}
use ovirt_imageio.Base.Int.{ℤ, pos, neg}
use ovirt_imageio.Base.Exec.{Result, ok, err}
use ovirt_imageio.Http.{bad_request, requested_range_not_satisfiable}

-- `first` is negative for a suffix of the content.
pub record Range : Type 0 where
  pub first : ℤ
  pub last : Option ℕ

pub record ContentRange : Type 0 where
  pub first : ℕ
  pub last : Option ℕ
  pub complete : Option ℕ

-- `Range.parse`; an error is its status code.
unfoldable pub parse_range : Option (Option ℕ × Option ℕ) → Result ℕ Range
parse_range none = err requested_range_not_satisfiable
parse_range (some (none, none)) = err requested_range_not_satisfiable
parse_range (some (none, some last)) = ok (record { first = neg last; last = none })
parse_range (some (some first, none)) = ok (record { first = pos first; last = none })
parse_range (some (some first, some last)) =
    if ltb last first
    then err requested_range_not_satisfiable
    else ok (record { first = pos first; last = some last })

-- The last byte, if it is given, lies before the first one.
abbrev ends_early : ℕ → Option ℕ → Bool
ends_early first none = false
ends_early first (some last) = ltb last first

abbrev exceeds : Option ℕ → Option ℕ → Bool
exceeds (some last) (some complete) = leb complete last
exceeds _ _ = false

-- `ContentRange.parse`
unfoldable pub parse_content_range : Option (ℕ × Option ℕ × Option ℕ) → Result ℕ ContentRange
parse_content_range none = err bad_request
parse_content_range (some (first, last, complete)) =
    if ends_early first last
    then err bad_request
    else if exceeds last complete
    then err bad_request
    else ok (record { first = first; last = last; complete = complete })
