-- ===== src/Auth.antt =====
-- `class Ticket` of ovirt_imageio/_internal/auth.py: the state of one transfer, its operations and
-- connections, and its cancellation.
--
-- Each method that takes the lock is one atomic function on the ticket; `cancel` gives the lock up while
-- it waits, so it is two functions, `cancel` and `cancel_waited`. The clock is the argument `now`. An
-- operation and a connection's context are known by a number; `close_fails` says which contexts raise
-- when a method closes them, and it may be another function in each call. Logging, `info`, `__repr__` and `__init__`, which reads the ticket from JSON, are left out.
pub mod Steps
pub mod Cancel
pub mod Waits
pub mod Store
pub mod Transferred
use text.Mathlib.Text.{◌==◌ as str_eq}
use ovirt_imageio.Base.{
  ℕ, ◌+◌, ◌-◌, String, Bool, true, false, not, ◌||◌, Option, none, some, List, [], ◌∷◌, ◌++◌, map,
  ltb, ◌==◌, if◌then◌else◌, length,
}
use ovirt_imageio.Base.Exec.{
  Exec, Result, ok, err, pure, raise, gets, modify, raise_if, ◌>>=◌, ◌>>◌,
}
use ovirt_imageio.Measure.{Range, RangeList, add, update, sum}

-- What the methods raise.
pub data Error : Type 0 where
  authorization : Error
  cancel_timeout : Error
  missing_parameter : String → Error
  invalid_parameter : String → Error
  key_error : Error
  close_error : Error
  operation_error : ℕ → Error

-- What a ticket sees of an operation.
pub record Operation : Type 0 where
  pub id : ℕ
  pub offset : ℕ
  pub done : ℕ
  pub canceled : Bool

pub record Context : Type 0 where
  pub handle : ℕ
  pub is_closed : Bool

pub record Ticket : Type 0 where
  pub uuid : String
  pub size : ℕ
  pub ops : List String
  pub timeout : ℕ
  pub inactivity_timeout : ℕ
  pub expires : ℕ
  pub access_time : ℕ
  pub url : String
  pub transfer_id : String
  pub filename : Option String
  pub sparse : Bool
  pub dirty : Bool
  pub ongoing : List Operation
  pub completed : RangeList
  pub canceled : Bool
  pub connections : List (ℕ × Context)
  pub unused : Bool

abbrev Method : Type 0 → Type 0
Method A = Exec Error Ticket A

module _ {V : Type 0} where
  abbrev pub lookup : ℕ → List (ℕ × V) → Option V
  lookup k [] = none
  lookup k ((j, v) ∷ d) = if j == k then some v else lookup k d

  abbrev pub insert : ℕ → V → List (ℕ × V) → List (ℕ × V)
  insert k v [] = (k, v) ∷ []
  insert k v ((j, w) ∷ d) = if j == k then (k, v) ∷ d else (j, w) ∷ insert k v d

  abbrev pub delete : ℕ → List (ℕ × V) → List (ℕ × V)
  delete k [] = []
  delete k ((j, w) ∷ d) = if j == k then d else (j, w) ∷ delete k d

-- `Ticket.active`
unfoldable pub active : Ticket → Bool
active t = not (length t.ongoing == 0)

-- `Ticket.idle_time`
unfoldable pub idle_time : ℕ → Ticket → ℕ
unfolding active
idle_time now t = if active t then 0 else now - t.access_time

unfoldable pub add_context : ℕ → Context → Method (Unit {0})
add_context con_id context = do
  raise_if (← gets (λ t. t.canceled)) authorization
  modify (λ t. record t { connections = insert con_id context t.connections })

unfoldable pub get_context : ℕ → Method Context
get_context con_id t = elim (lookup con_id t.connections) [
  | some c ↦ (ok c, t)
  | none ↦ (err key_error, t)
]

-- A context that raises when it is closed stays in the ticket.
unfoldable pub remove_context : (ℕ → Bool) → ℕ → Method (Unit {0})
remove_context close_fails con_id t = elim (lookup con_id t.connections) [
  | none ↦ (ok tt, t)
  | some c ↦
      if close_fails c.handle
      then (err close_error, t)
      else (ok tt, record t { connections = delete con_id t.connections })
]

unfoldable pub touch : ℕ → Ticket → Ticket
touch now t = record t { expires = now + t.timeout; access_time = now }

unfoldable pub extend : ℕ → ℕ → Ticket → Ticket
extend now timeout t = record t { expires = now + timeout }

-- `Ticket._add_operation`
unfoldable pub add_operation : Operation → Method (Unit {0})
add_operation op = do
  raise_if (← gets (λ t. t.canceled)) authorization
  modify (λ t. record t { ongoing = op ∷ t.ongoing })

-- The operation with this number, and the others. The set holds each operation once.
abbrev pub find : ℕ → List Operation → Option Operation
find id [] = none
find id (op ∷ ops) = if op.id == id then some op else find id ops

abbrev pub discard : ℕ → List Operation → List Operation
discard id [] = []
discard id (op ∷ ops) = if op.id == id then ops else op ∷ discard id ops

abbrev pub range_of : Operation → Range
range_of op = record { start = op.offset; end = op.offset + op.done }

-- The end of `_remove_operation`, once the operation is taken out.
unfoldable pub removed : ℕ → Operation → Method (Unit {0})
unfolding touch
removed now op t =
    if t.canceled
    then (err authorization, record t { unused = t.unused || (length t.ongoing == 0) })
    else (
      ok tt,
      touch now (record t {
        completed = if length t.ops == 1 then add t.completed (range_of op) else t.completed;
      }),
    )

-- `Ticket._remove_operation`
unfoldable pub remove_operation : ℕ → ℕ → Method (Unit {0})
unfolding removed
remove_operation now id t = elim (find id t.ongoing) [
  | none ↦ (err key_error, t)
  | some op ↦ removed now op (record t { ongoing = discard id t.ongoing })
]

-- How an operation's own `run` ends.
pub data Ended : Type 0 where
  returned canceled_op : Ended
  raised : ℕ → Ended

abbrev with_result : Ended → Result Error (Unit {0}) × Ticket → Result Error (Unit {0}) × Ticket
with_result (raised e) (ok tt, t) = (err (operation_error e), t)
with_result ended r = r

-- `Ticket.run` of an operation that ends so, with `op.done` bytes done, when nothing else happens to
-- the ticket meanwhile. An error of the `finally` block comes before that of the operation.
unfoldable pub run : ℕ → Operation → Ended → Method (Unit {0})
unfolding add_operation remove_operation
run now op ended = do add_operation op; λ t. with_result ended (remove_operation now op.id t)

-- `Ticket.transferred`
unfoldable pub transferred : Ticket → Option ℕ
transferred t =
    if ltb 1 (length t.ops) then none else some (sum (update t.completed (map range_of t.ongoing)))

abbrev pub contains : String → List String → Bool
contains s [] = false
contains s (x ∷ xs) = str_eq x s || contains s xs

-- `Ticket.may`
unfoldable pub may : String → Ticket → Bool
may op t =
    if str_eq op "read" then contains "read" t.ops || contains "write" t.ops else contains op t.ops

abbrev close_context : ℕ × Context → ℕ × Context
close_context (k, c) = (k, record c { is_closed = true })

-- `for ctx in self._connections.values(): ctx.close()`: whether no context raised, and the contexts. The
-- first one that raises ends the loop.
abbrev pub close_all : (ℕ → Bool) → List (ℕ × Context) → Bool × List (ℕ × Context)
close_all close_fails [] = (true, [])
close_all close_fails (c ∷ cs) =
    let rest = close_all close_fails cs in
    if close_fails c.1.handle then (false, c ∷ cs) else (rest.0, close_context c ∷ rest.1)

-- A method that returns `a` once it has closed the contexts.
abbrev pub closing : {A : Type 0} → (ℕ → Bool) → A → Method A
closing close_fails a t =
    let r = close_all close_fails t.connections in
    (if r.0 then ok a else err close_error, record t { connections = r.1 })

-- What the first part of `cancel` says: it is done, or operations are ongoing.
pub data CancelResult : Type 0 where
  unused_now : CancelResult
  wait_for_unused : CancelResult
  poll : CancelResult

abbrev pub cancel_all : List Operation → List Operation
cancel_all [] = []
cancel_all (op ∷ ops) = record op { canceled = true } ∷ cancel_all ops

-- `Ticket.cancel` until it returns or begins to wait; `poll` is its `return False`.
unfoldable pub cancel : (ℕ → Bool) → ℕ → Method CancelResult
cancel close_fails timeout t =
    if length t.ongoing == 0
    then closing close_fails unused_now (record t { canceled = true })
    else (
      ok (if timeout == 0 then poll else wait_for_unused),
      record t { canceled = true; ongoing = cancel_all t.ongoing },
    )

-- The rest of `cancel`: `self._unused.wait` returns true if the event is set, and else, when the time is
-- out, the method raises.
unfoldable pub cancel_waited : (ℕ → Bool) → Method Bool
cancel_waited close_fails t =
    if t.unused then closing close_fails true t else (err cancel_timeout, t)
