-- ===== src/Auth/Waits.antt =====
-- `Ticket.cancel` of ovirt_imageio/_internal/auth.py while it waits for the operations.
use ovirt_imageio.Base.{ℕ, ◌≡◌, ◌≢◌, refl, Bool, true, List, [], ◌∷◌, arith, if◌then◌else◌, length}
use ovirt_imageio.Base.Exec.{ok, err}
use ovirt_imageio.Auth.{
  close_error, Operation, Context, Ticket, add_context, remove_context, touch, extend,
  add_operation, discard, remove_operation, wait_for_unused, close_all, cancel_all, cancel,
  cancel_waited,
}
use ovirt_imageio.Auth.Steps.{
  Step, starts, advances, finishes, connects, disconnects, touches, extends, cancels, cancel_ends,
  Reach, here, next, advance,
}

-- The ticket is canceled, and if it has no operation then the event is set.
record IsWaited (t : Ticket) : Type 0 where
  canceled : t.canceled ≡ true
  freed : t.ongoing ≡ [] → t.unused ≡ true

advance-nonempty : (id n : ℕ) (ops : List Operation) → advance id n ops ≡ [] → ops ≡ []
advance-nonempty id n [] e = refl
advance-nonempty id n (op ∷ ops) e = ground arith

empty : (ops : List Operation) → ops ≡ [] → length ops ≡ 0
empty [] e = refl
empty (op ∷ ops) e = cc

module _ (t : Ticket) (s : IsWaited t) where
  starts-IsWaited : (op : Operation) → IsWaited (add_operation op t).1
  unfolding add_operation
  starts-IsWaited op = ground (arith, s.canceled, s.freed)

  finishes-IsWaited : (now id : ℕ) → IsWaited (remove_operation now id t).1
  unfolding remove_operation
  finishes-IsWaited now id = ground (arith, s.canceled, s.freed, empty (discard id t.ongoing))

  connects-IsWaited : (con_id : ℕ) (c : Context) → IsWaited (add_context con_id c t).1
  unfolding add_context
  connects-IsWaited con_id c = ground (arith, s.canceled, s.freed)

  disconnects-IsWaited :
      (fails : ℕ → Bool) (con_id : ℕ) → IsWaited (remove_context fails con_id t).1
  unfolding remove_context
  disconnects-IsWaited fails con_id = ground (arith, s.canceled, s.freed)

  cancels-IsWaited : (fails : ℕ → Bool) (timeout : ℕ) → IsWaited (cancel fails timeout t).1
  unfolding cancel
  cancels-IsWaited fails timeout = ground (arith, s.canceled, s.freed, empty t.ongoing)

  cancel_ends-IsWaited : (fails : ℕ → Bool) → IsWaited (cancel_waited fails t).1
  unfolding cancel_waited
  cancel_ends-IsWaited fails = ground (arith, s.canceled, s.freed)

Step-IsWaited : {t u : Ticket} → Step t u → IsWaited t → IsWaited u
unfolding touch extend
Step-IsWaited {t} (starts op e) s = rw e (starts-IsWaited t s op)
Step-IsWaited {t} (advances id n e) s =
    rw e
      (record { canceled = s.canceled; freed = λ z. s.freed (advance-nonempty id n t.ongoing z) })
Step-IsWaited {t} (finishes now id e) s = rw e (finishes-IsWaited t s now id)
Step-IsWaited {t} (connects con_id c e) s = rw e (connects-IsWaited t s con_id c)
Step-IsWaited {t} (disconnects fails con_id e) s = rw e (disconnects-IsWaited t s fails con_id)
Step-IsWaited {t} (touches now e) s = rw e (record { canceled = s.canceled; freed = s.freed })
Step-IsWaited {t} (extends now timeout e) s =
    rw e (record { canceled = s.canceled; freed = s.freed })
Step-IsWaited {t} (cancels fails timeout e) s = rw e (cancels-IsWaited t s fails timeout)
Step-IsWaited {t} (cancel_ends fails e) s = rw e (cancel_ends-IsWaited t s fails)

Reach-IsWaited : {t u : Ticket} → Reach t u → IsWaited t → IsWaited u
Reach-IsWaited here s = s
Reach-IsWaited (next r st) s = Step-IsWaited st (Reach-IsWaited r s)

cancel_all-nonempty : (ops : List Operation) → length ops ≢ 0 → cancel_all ops ≡ [] → ⊥
cancel_all-nonempty [] ne e = ne refl
cancel_all-nonempty (op ∷ ops) ne e = cc

waits_lem :
    (fails : ℕ → Bool) (timeout : ℕ) (s t : Ticket)
    → cancel fails timeout s ≡ (ok wait_for_unused, t)
    → IsWaited t
unfolding cancel
waits_lem fails timeout s t e = ground (arith, cancel_all-nonempty s.ongoing)

waited_lem :
    (closes_fail : ℕ → Bool) (u : Ticket)
    → u.unused ≡ true
    → (cancel_waited closes_fail u).0
      ≡ (if (close_all closes_fail u.connections).0 then ok true else err close_error)
unfolding cancel_waited
waited_lem closes_fail u e = ground arith

-- When `cancel` begins to wait for the operations of a ticket, then whatever happens to the ticket while
-- it waits, in any order: once the ticket has no operation left, the event is set, and the end of
-- `cancel` returns true if no context raises when it is closed, and else it raises that error.
pub cancel_succeeds :
    (fails closes_fail : ℕ → Bool) (timeout : ℕ) (s t u : Ticket)
    → cancel fails timeout s ≡ (ok wait_for_unused, t)
    → Reach t u
    → u.ongoing ≡ []
    → (u.unused ≡ true)
      × ((cancel_waited closes_fail u).0
          ≡ (if (close_all closes_fail u.connections).0 then ok true else err close_error))
cancel_succeeds fails closes_fail timeout s t u e r idle =
    let set = (Reach-IsWaited r (waits_lem fails timeout s t e)).freed idle in
    (set, waited_lem closes_fail u set)
