-- ===== src/Tests/Tickets.antt =====
-- The theorems on tickets and the store at concrete inputs.
use text.Mathlib.TextEquality.{eq_iff}
use ovirt_imageio.Base.{
  ℕ, ◌+◌, ◌<◌, String, ◌≡◌, ◌↔◌, refl, ◌⊎◌, inr, Bool, true, false, none, some, [], ◌∷◌, arith, ltb,
  ◌==◌, if◌then◌else◌,
}
use ovirt_imageio.Base.Count.{count_below}
use ovirt_imageio.Base.Exec.{ok, err}
use ovirt_imageio.Measure.{sum, update}
use ovirt_imageio.Measure.Cover.{IsMerged}
use ovirt_imageio.Auth.{
  authorization, Operation, Context, Ticket, add_context, add_operation, remove_operation,
  transferred, touch, may, unused_now, wait_for_unused, cancel, cancel_waited, close_error,
  close_all,
}
use ovirt_imageio.Auth.Steps.{Reach, here, next, starts, advances, finishes, cancels, IsSound}
use ovirt_imageio.Auth.Cancel.{Reach-IsSound, cancel_is_final}
use ovirt_imageio.Auth.Waits.{cancel_succeeds}
use ovirt_imageio.Auth.Transferred.{
  has_moved, transferred_lem, transferred-remove_operation, Reach-IsMerged,
}
use ovirt_imageio.Auth.Store.{Tickets, find_ticket, put_ticket, remove, authorize}
use ovirt_imageio.Auth.Store.Laws.{authorize_iff, remove_revokes, authorize-touch}

abbrev none_fail : ℕ → Bool
none_fail k = false

-- The context with the handle 3 raises.
abbrev third_fails : ℕ → Bool
third_fails k = k == 3

abbrev operation : Operation
operation = record { id = 1; offset = 10; done = 5; canceled = false }

abbrev fresh : Ticket
fresh = record {
  uuid = "a";
  size = 100;
  ops = "write" ∷ [];
  timeout = 300;
  inactivity_timeout = 60;
  expires = 300;
  access_time = 0;
  url = "file:///image";
  transfer_id = "t";
  filename = none;
  sparse = false;
  dirty = false;
  ongoing = [];
  completed = record { start = 0; end = 12 } ∷ [];
  canceled = false;
  connections = (5, record { handle = 3; is_closed = false }) ∷ [];
  unused = false;
}

abbrev busy : Ticket
busy = record fresh { ongoing = operation ∷ [] }

abbrev told : Ticket
told = (cancel none_fail 60 busy).1

abbrev freed : Ticket
freed = (remove_operation 7 1 told).1

abbrev closed : Ticket
closed = (cancel_waited none_fail freed).1

fresh-IsSound : IsSound fresh
fresh-IsSound = record { told = λ e. cc; final = λ e. cc }

busy-IsSound : IsSound busy
busy-IsSound = record { told = λ e. cc; final = λ e. cc }

-- An operation starts, moves three bytes, is canceled with the ticket and ends.
history : Reach fresh freed
unfolding add_operation remove_operation cancel
history =
    next
      (next (next (next here (starts (record operation { done = 2 }) refl)) (advances 1 3 refl))
        (cancels none_fail 60 refl))
      (finishes 7 1 refl)

freed-IsSound : IsSound freed
unfolding remove_operation cancel
freed-IsSound = record { told = λ e. tt; final = λ e. (refl, refl) }

freed-IsSound_example : IsSound freed
freed-IsSound_example = Reach-IsSound history fresh-IsSound

freed-IsMerged_example : IsMerged freed.completed
freed-IsMerged_example = Reach-IsMerged history (omega arith, tt)

removable :
    (cancel none_fail 60 freed ≡ (ok unused_now, closed))
    ⊎ (cancel_waited none_fail freed ≡ (ok true, closed))
unfolding cancel_waited remove_operation cancel
removable = inr refl

cancel_is_final_example :
    (closed.ongoing ≡ [])
    × ((op : Operation) → add_operation op closed ≡ (err authorization, closed))
    × ((con_id : ℕ) (c : Context) → add_context con_id c closed ≡ (err authorization, closed))
cancel_is_final_example =
    cancel_is_final none_fail 60 freed closed closed freed-IsSound removable here

busy_waits : cancel none_fail 60 busy ≡ (ok wait_for_unused, told)
unfolding cancel
busy_waits = refl

freed_idle : freed.ongoing ≡ []
unfolding remove_operation cancel
freed_idle = refl

-- While `cancel` waits, the operation ends, and then a context cannot be closed.
cancel_succeeds_example :
    (freed.unused ≡ true)
    × ((cancel_waited third_fails freed).0
        ≡ (if (close_all third_fails freed.connections).0 then ok true else err close_error))
cancel_succeeds_example =
    cancel_succeeds none_fail third_fails 60 busy told freed busy_waits
      (next here (finishes 7 1 refl)) freed_idle

cancel_fails : (cancel third_fails 0 fresh).0 ≡ err close_error
unfolding cancel
cancel_fails = refl

transferred-busy : transferred busy ≡ some 15
unfolding transferred sum update
transferred-busy = refl

transferred_lem_example : transferred busy ≡ some (count_below 20 (has_moved busy))
transferred_lem_example =
    transferred_lem 20 busy (omega arith) (omega arith, tt) (omega arith, tt) (omega arith, tt)

transferred-remove_operation_example : transferred (remove_operation 7 1 busy).1 ≡ transferred busy
transferred-remove_operation_example =
    transferred-remove_operation 7 1 operation busy refl refl refl (omega arith, tt)

abbrev store : Tickets
store = ("b", fresh) ∷ ("a", busy) ∷ []

authorize_iff_example : (authorize 10 "a" "read" store ≡ ok busy) ↔ (
    (find_ticket "a" store ≡ some busy)
    × (busy.canceled ≡ false)
    × (10 < busy.expires)
    × (may "read" busy ≡ true))
authorize_iff_example = authorize_iff 10 "a" "read" store busy

authorized : authorize 10 "a" "read" store ≡ ok busy
unfolding authorize
authorized = refl

expired : authorize 300 "a" "read" store ≡ err authorization
unfolding authorize
expired = refl

found_busy : find_ticket "a" store ≡ some busy
unfolding find_ticket
found_busy = refl

remove_revokes_example :
    ((now : ℕ) (op : String)
      → authorize now "a" op (remove third_fails 60 "a" store).1 ≡ err authorization)
    × (find_ticket "b" (remove third_fails 60 "a" store).1 ≡ find_ticket "b" store)
remove_revokes_example =
    remove_revokes third_fails 60 "a" "b" store (ground (arith, eq_iff "a" "b"))

may_read : may "read" busy ≡ true
unfolding may
may_read = refl

authorize-touch_example :
    authorize 200 "a" "read" (put_ticket "a" (touch 100 busy) store)
    ≡ (if ltb 200 (100 + busy.timeout) then ok (touch 100 busy) else err authorization)
authorize-touch_example = authorize-touch 100 200 "a" "read" store busy found_busy refl may_read
