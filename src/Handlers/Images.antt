-- ===== src/Handlers/Images.antt =====
-- `Handler` of ovirt_imageio/_internal/handlers/images.py: which bytes of an image a request may move.
-- The choice of the range; the status codes of the errors are the results.
pub mod Spans
pub mod Served
use ovirt_imageio.Base.{ℕ, ◌+◌, ◌-◌, min, Option, none, some}
use ovirt_imageio.Base.Int.{ℤ, pos, negsuc, difference}
use ovirt_imageio.Base.Exec.{Result, ok, err}
use ovirt_imageio.Auth.{Ticket}
use ovirt_imageio.Http.{requested_range_not_satisfiable}
use ovirt_imageio.Http.Ranges.{Range, ContentRange}
use ovirt_imageio.Handlers.Validate.{allowed_range, available_range}

-- The offset and the size that GET asks for. `last` is not before `first` in a parsed header.
unfoldable pub asked : Option Range → Result ℕ (ℕ × Option ℕ)
asked none = ok (0, none)
asked (some r) = elim r.first [
  | negsuc _ ↦ err requested_range_not_satisfiable
  | pos offset ↦ ok (offset, (elim r.last [ some last ↦ some (last + 1 - offset) | none ↦ none ]))
]

infixl 5 ◌>>=◌
abbrev ◌>>=◌ : {A B : Type 0} → Result ℕ A → (A → Result ℕ B) → Result ℕ B
ok a >>= f = f a
err e >>= f = err e

-- The offset and the size of the `Read` that GET runs; the size is also its content length.
unfoldable pub get_span : Option Range → Ticket → ℕ → Result ℕ (ℕ × ℤ)
unfolding asked allowed_range available_range
get_span range ticket backend_size = do
  (offset, size) ← asked range
  elim size [
    | some n ↦ do
      _ ← allowed_range offset n ticket
      _ ← available_range offset n ticket backend_size
      ok (offset, pos n)
    | none ↦ ok (offset, difference (min ticket.size backend_size) offset)
  ]

-- The offset and the size of the `Write` that PUT runs, from its content range and content length.
unfoldable pub put_span : Option ContentRange → ℕ → Ticket → Result ℕ (ℕ × ℕ)
unfolding allowed_range
put_span content_range size ticket =
    let offset : ℕ = elim content_range [ some r ↦ r.first | none ↦ 0 ] in
    allowed_range offset size ticket >>= λ _. ok (offset, size)
