-- ===== src/Handlers/Images/Spans.antt =====
-- The ranges of GET and PUT in ovirt_imageio/_internal/handlers/images.py.
use ovirt_imageio.Base.{
  ℕ, zero, suc, ap, ◌+◌, ◌-◌, ◌≤◌, min, ◌≡◌, ◌↔◌, refl, Option, none, some, arith, ltb, leb, ◌==◌,
  ◌&&◌, if◌then◌else◌,
}
use ovirt_imageio.Base.Int.{ℤ, pos, difference}
use ovirt_imageio.Base.Exec.{Result, ok, err}
use ovirt_imageio.Http.{requested_range_not_satisfiable}
use ovirt_imageio.Auth.{Ticket}
use ovirt_imageio.Http.Ranges.{Range, ContentRange, parse_range}
use ovirt_imageio.Handlers.Images.{get_span, put_span}

-- GET with a header that was matched.
abbrev pub then_span : Result ℕ Range → Ticket → ℕ → Result ℕ (ℕ × ℤ)
then_span (ok r) t n = get_span (some r) t n
then_span (err e) t n = err e

difference-zero : (n : ℕ) → difference n 0 ≡ pos n
difference-zero n =
    let e : n - 0 ≡ n = omega arith in let z : 0 - n ≡ 0 = omega arith in ground arith

suffix_lem :
    (t : Ticket) (n last : ℕ)
    → then_span (parse_range (some (none, some last))) t n
      ≡ (if last == 0 then ok (0, pos (min t.size n)) else err requested_range_not_satisfiable)
unfolding parse_range get_span
suffix_lem t n zero = ap (λ d. ok (0, d)) (difference-zero (min t.size n))
suffix_lem t n (suc last) = ground arith

-- GET serves a range whose first and last byte are given exactly when the first is not behind the last,
-- and the last is below the sizes of the ticket and the backend, and fails with 416 otherwise. Without a
-- last byte, or without a range, it serves what both sizes leave behind the offset, which is a negative
-- number for an offset behind them. A suffix is refused with 416, but a suffix of 0 bytes is served as
-- the whole image.
pub get_span_lem :
    (t : Ticket) (n first last : ℕ)
    → (then_span (parse_range (some (some first, some last))) t n ≡ (
        if leb first last && ltb last (min t.size n)
        then ok (first, pos (last + 1 - first))
        else err requested_range_not_satisfiable))
      × (then_span (parse_range (some (some first, none))) t n
          ≡ ok (first, difference (min t.size n) first))
      × (get_span none t n ≡ ok (0, pos (min t.size n)))
      × (then_span (parse_range (some (none, some last))) t n
          ≡ (if last == 0 then ok (0, pos (min t.size n)) else err requested_range_not_satisfiable))
unfolding parse_range get_span
get_span_lem t n first last =
    (ground arith, refl, ap (λ d. ok (0, d)) (difference-zero (min t.size n)), suffix_lem t n last)

pub span_fits :
    (r : Option Range) (t : Ticket) (n offset size : ℕ)
    → get_span r t n ≡ ok (offset, pos size)
    → offset + size ≤ min t.size n
unfolding get_span
span_fits r t n offset size e = ground arith

-- PUT writes at the first byte of its content range, or at 0 without one, as many bytes as the content
-- length says, exactly when they end within the size of the ticket.
pub put_span_iff :
    (r : Option ContentRange) (size : ℕ) (t : Ticket) (offset n : ℕ)
    → (put_span r size t ≡ ok (offset, n))
      ↔ ((offset ≡ (elim r [ some c ↦ c.first | none ↦ 0 ])) × (n ≡ size) × (offset + n ≤ t.size))
unfolding put_span
put_span_iff r size t offset n = ground arith
