-- ===== src/Auth/Store.antt =====
-- `class Authorizer` of ovirt_imageio/_internal/auth.py: the tickets by their id, what an operation on a
-- ticket needs, and the removal of tickets.
--
-- `remove` may wait in `Ticket.cancel` while other threads use the ticket, so it is `remove` until it
-- waits and `remove_waited` after that. `add` takes the ticket that `Ticket.__init__` has made.
pub mod Laws
use text.Mathlib.Text.{◌==◌ as str_eq}
use ovirt_imageio.Base.{
  ℕ, String, Bool, true, false, ◌||◌, Option, none, some, List, [], ◌∷◌, leb, if◌then◌else◌,
}
use ovirt_imageio.Base.Exec.{Result, ok, err}
use ovirt_imageio.Auth.{
  Error, authorization, key_error, Ticket, may, CancelResult, unused_now, poll, wait_for_unused,
  cancel, cancel_waited,
}

abbrev pub Tickets : Type 0
Tickets = List (String × Ticket)

unfoldable pub find_ticket : String → Tickets → Option Ticket
find_ticket k [] = none
find_ticket k ((j, t) ∷ ts) = if str_eq j k then some t else find_ticket k ts

-- `self._tickets[k] = t`
unfoldable pub put_ticket : String → Ticket → Tickets → Tickets
put_ticket k t [] = (k, t) ∷ []
put_ticket k t ((j, u) ∷ ts) = if str_eq j k then (k, t) ∷ ts else (j, u) ∷ put_ticket k t ts

-- `del self._tickets[k]`: a dict holds a key once, so that nothing follows under the same key.
unfoldable pub drop_ticket : String → Tickets → Tickets
drop_ticket k [] = []
drop_ticket k ((j, u) ∷ ts) =
    let rest = drop_ticket k ts in if str_eq j k then rest else (j, u) ∷ rest

unfoldable pub add : Ticket → Tickets → Tickets
unfolding put_ticket
add t ts = put_ticket t.uuid t ts

-- What `remove` says: it returned, or `cancel` waits for the operations of the ticket, or `cancel` raised.
pub data Removal : Type 0 where
  returned waits : Removal
  failed : Error → Removal

abbrev canceled_with : String → Tickets → Result Error CancelResult × Ticket → Removal × Tickets
canceled_with k ts (ok unused_now, t) = (returned, drop_ticket k ts)
canceled_with k ts (ok poll, t) = (returned, put_ticket k t ts)
canceled_with k ts (ok wait_for_unused, t) = (waits, put_ticket k t ts)
canceled_with k ts (err e, t) = (failed e, put_ticket k t ts)

-- `Authorizer.remove` until it returns or waits. `timeout` is `control.remove_timeout`.
unfoldable pub remove : (ℕ → Bool) → ℕ → String → Tickets → Removal × Tickets
unfolding find_ticket put_ticket drop_ticket cancel
remove close_fails timeout k ts = elim (find_ticket k ts) [
  | none ↦ (returned, ts)
  | some t ↦ canceled_with k ts (cancel close_fails timeout t)
]

abbrev waited_with :
    String → Tickets → Result Error Bool × Ticket → Result Error (Unit {0}) × Tickets
waited_with k ts (ok true, t) = (ok tt, drop_ticket k ts)
waited_with k ts (ok false, t) = (ok tt, put_ticket k t ts)
waited_with k ts (err e, t) = (err e, put_ticket k t ts)

-- The rest of `Authorizer.remove`, for a ticket `k` that is still in the store when the wait ends.
unfoldable pub remove_waited : (ℕ → Bool) → String → Tickets → Result Error (Unit {0}) × Tickets
unfolding find_ticket put_ticket drop_ticket cancel_waited
remove_waited close_fails k ts = elim (find_ticket k ts) [
  | none ↦ (err key_error, ts)
  | some t ↦ waited_with k ts (cancel_waited close_fails t)
]

unfoldable pub clear : Tickets → Tickets
clear ts = []

unfoldable pub get : String → Tickets → Result Error Ticket
unfolding find_ticket
get k ts = elim (find_ticket k ts) [ some t ↦ ok t | none ↦ err key_error ]

-- `Authorizer.authorize` at the time `now`
unfoldable pub authorize : ℕ → String → String → Tickets → Result Error Ticket
unfolding find_ticket may
authorize now k op ts = elim (find_ticket k ts) [
  | none ↦ err authorization
  | some t ↦
      if t.canceled
      then err authorization
      else if leb t.expires now
      then err authorization
      else if may op t
      then ok t
      else err authorization
]
