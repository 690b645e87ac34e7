-- ===== src/Handlers/Tickets.antt =====
-- `Handler.patch` and `Handler.delete` of ovirt_imageio/_internal/handlers/tickets.py. `delete` may wait
-- in `Authorizer.remove`, so it is `delete` until it waits and `delete_waited` after that.
pub mod Laws
use text.Mathlib.Text.{◌==◌ as str_eq}
use ovirt_imageio.Base.{
  ℕ, String, Bool, true, false, Option, none, some, List, [], ◌∷◌, if◌then◌else◌,
}
use ovirt_imageio.Base.Int.{ℤ, pos, negsuc}
use ovirt_imageio.Base.Exec.{Result, ok, err}
use ovirt_imageio.Http.{no_content, bad_request, not_found}
use ovirt_imageio.Auth.{Error, Ticket, extend}
use ovirt_imageio.Auth.Store.{
  Tickets, find_ticket, put_ticket, clear, remove, remove_waited, Removal, returned, waits, failed,
}
use ovirt_imageio.Handlers.Validate.{Dict, integer}

-- What a handler does: it responds with a status, raises `http.Error` with one, raises another
-- exception, or waits.
pub data Outcome : Type 0 where
  responds : ℕ → Outcome
  http_error : ℕ → Outcome
  attribute_error : Outcome
  raises : Error → Outcome
  waiting : Outcome

-- The `except` clause looks up `errors.TicketCancelTimeout` when an exception comes, and the module
-- `errors` has no such name.
abbrev deleted_with : Removal × Tickets → Outcome × Tickets
deleted_with (returned, ts) = (responds no_content, ts)
deleted_with (waits, ts) = (waiting, ts)
deleted_with (failed e, ts) = (attribute_error, ts)

-- `Handler.delete`, for the timeout that `remove` takes.
unfoldable pub delete : (ℕ → Bool) → ℕ → String → Tickets → Outcome × Tickets
unfolding clear find_ticket remove
delete close_fails timeout ticket_id ts =
    if str_eq ticket_id ""
    then (responds no_content, clear ts)
    else (elim (find_ticket ticket_id ts) [
      | none ↦ (responds no_content, ts)
      | some _ ↦ deleted_with (remove close_fails timeout ticket_id ts)
    ])

abbrev delete_ended : Result Error (Unit {0}) × Tickets → Outcome × Tickets
delete_ended (ok _, ts) = (responds no_content, ts)
delete_ended (err e, ts) = (attribute_error, ts)

-- The rest of `Handler.delete`.
unfoldable pub delete_waited : (ℕ → Bool) → String → Tickets → Outcome × Tickets
unfolding remove_waited
delete_waited close_fails ticket_id ts = delete_ended (remove_waited close_fails ticket_id ts)

abbrev timeout_of : ℤ → ℕ
timeout_of (pos n) = n
timeout_of (negsuc n) = 0

abbrev patched : ℕ → String → ℕ → Tickets → Outcome × Tickets
patched now ticket_id timeout ts = elim (find_ticket ticket_id ts) [
  | none ↦ (http_error not_found, ts)
  | some t ↦ (responds 200, put_ticket ticket_id (extend now timeout t) ts)
]

-- `Handler.patch` at the time `now`, for a body that is a JSON object. `integer` lets no negative number
-- through.
unfoldable pub patch : ℕ → String → Dict → Tickets → Outcome × Tickets
unfolding integer find_ticket put_ticket extend
patch now ticket_id body ts =
    if str_eq ticket_id ""
    then (http_error bad_request, ts)
    else (elim (integer body "timeout" (some (pos 0)) none none) [
      | err e ↦ (http_error e, ts)
      | ok timeout ↦ patched now ticket_id (timeout_of timeout) ts
    ])
