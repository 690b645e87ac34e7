-- ===== src/Auth/Cancel.antt =====
-- `Ticket.cancel` of ovirt_imageio/_internal/auth.py, with the other threads.
use ovirt_imageio.Base.{ℕ, ◌≡◌, Bool, true, ◌⊎◌, inl, inr, [], arith}
use ovirt_imageio.Base.Exec.{ok, err}
use ovirt_imageio.Auth.{
  authorization, Operation, Context, Ticket, add_context, remove_context, touch, extend,
  add_operation, remove_operation, unused_now, cancel, cancel_waited,
}
use ovirt_imageio.Auth.Steps.{
  Step, starts, advances, finishes, connects, disconnects, touches, extends, cancels, cancel_ends,
  Reach, here, next, IsSound, advance-nil, discard-nil, starts-IsSound, finishes-IsSound,
  advances-IsSound, connects-IsSound, disconnects-IsSound, cancels-IsSound, cancel_ends-IsSound,
  length-zero,
}

Step-IsSound : {t u : Ticket} → Step t u → IsSound t → IsSound u
unfolding touch extend
Step-IsSound {t} (starts op e) s = rw e (starts-IsSound t s op)
Step-IsSound {t} (advances id n e) s = rw e (advances-IsSound t s id n)
Step-IsSound {t} (finishes now id e) s = rw e (finishes-IsSound t s now id)
Step-IsSound {t} (connects con_id c e) s = rw e (connects-IsSound t s con_id c)
Step-IsSound {t} (disconnects fails con_id e) s = rw e (disconnects-IsSound t s fails con_id)
Step-IsSound {t} (touches now e) s = rw e (record { told = s.told; final = s.final })
Step-IsSound {t} (extends now timeout e) s = rw e (record { told = s.told; final = s.final })
Step-IsSound {t} (cancels fails timeout e) s = rw e (cancels-IsSound t s fails timeout)
Step-IsSound {t} (cancel_ends fails e) s = rw e (cancel_ends-IsSound t s fails)

-- Whatever happens to a sound ticket, in any order, it stays sound: when it is canceled all of its
-- operations are told so, and the event is set only if it is canceled and has no operation.
pub Reach-IsSound : {t u : Ticket} → Reach t u → IsSound t → IsSound u
Reach-IsSound here s = s
Reach-IsSound (next r st) s = Step-IsSound st (Reach-IsSound r s)

-- The ticket is canceled and no operation uses it.
pub record IsSettled (t : Ticket) : Type 0 where
  pub canceled : t.canceled ≡ true
  pub idle : t.ongoing ≡ []

module _ (t : Ticket) (s : IsSettled t) where
  starts-IsSettled : (op : Operation) → IsSettled (add_operation op t).1
  unfolding add_operation
  starts-IsSettled op = ground (arith, s.canceled, s.idle)

  finishes-IsSettled : (now id : ℕ) → IsSettled (remove_operation now id t).1
  unfolding remove_operation
  finishes-IsSettled now id = ground (arith, s.canceled, s.idle, discard-nil id t.ongoing)

  connects-IsSettled : (con_id : ℕ) (c : Context) → IsSettled (add_context con_id c t).1
  unfolding add_context
  connects-IsSettled con_id c = ground (arith, s.canceled, s.idle)

  disconnects-IsSettled :
      (fails : ℕ → Bool) (con_id : ℕ) → IsSettled (remove_context fails con_id t).1
  unfolding remove_context
  disconnects-IsSettled fails con_id = ground (arith, s.canceled, s.idle)

  cancels-IsSettled : (fails : ℕ → Bool) (timeout : ℕ) → IsSettled (cancel fails timeout t).1
  unfolding cancel
  cancels-IsSettled fails timeout = ground (arith, s.canceled, s.idle)

  cancel_ends-IsSettled : (fails : ℕ → Bool) → IsSettled (cancel_waited fails t).1
  unfolding cancel_waited
  cancel_ends-IsSettled fails = ground (arith, s.canceled, s.idle)

Step-IsSettled : {t u : Ticket} → Step t u → IsSettled t → IsSettled u
unfolding touch extend
Step-IsSettled {t} (starts op e) s = rw e (starts-IsSettled t s op)
Step-IsSettled {t} (advances id n e) s =
    rw e (record { canceled = s.canceled; idle = advance-nil id n t.ongoing s.idle })
Step-IsSettled {t} (finishes now id e) s = rw e (finishes-IsSettled t s now id)
Step-IsSettled {t} (connects con_id c e) s = rw e (connects-IsSettled t s con_id c)
Step-IsSettled {t} (disconnects fails con_id e) s = rw e (disconnects-IsSettled t s fails con_id)
Step-IsSettled {t} (touches now e) s = rw e (record { canceled = s.canceled; idle = s.idle })
Step-IsSettled {t} (extends now timeout e) s =
    rw e (record { canceled = s.canceled; idle = s.idle })
Step-IsSettled {t} (cancels fails timeout e) s = rw e (cancels-IsSettled t s fails timeout)
Step-IsSettled {t} (cancel_ends fails e) s = rw e (cancel_ends-IsSettled t s fails)

Reach-IsSettled : {t u : Ticket} → Reach t u → IsSettled t → IsSettled u
Reach-IsSettled here s = s
Reach-IsSettled (next r st) s = Step-IsSettled st (Reach-IsSettled r s)

-- `cancel` has said that the ticket can be removed, at once or after it waited.
abbrev pub Removable : (ℕ → Bool) → ℕ → Ticket → Ticket → Type 0
Removable fails timeout t u =
    (cancel fails timeout t ≡ (ok unused_now, u)) ⊎ (cancel_waited fails t ≡ (ok true, u))

removable_lem :
    (fails : ℕ → Bool) (timeout : ℕ) (t u : Ticket)
    → IsSound t
    → Removable fails timeout t u
    → IsSettled u
unfolding cancel cancel_waited
removable_lem fails timeout t u s (inl e) = ground (arith, length-zero t.ongoing)
removable_lem fails timeout t u s (inr e) = ground (arith, s.final)

refuses_lem :
    (t : Ticket)
    → t.canceled ≡ true
    → ((op : Operation) → add_operation op t ≡ (err authorization, t))
      × ((con_id : ℕ) (c : Context) → add_context con_id c t ≡ (err authorization, t))
unfolding add_operation add_context
refuses_lem t h = (λ op. ground arith, λ con_id c. ground arith)

-- When `cancel` returns that a sound ticket can be removed, then from that moment on, whatever else happens,
-- no operation uses the ticket, and every new operation and connection is refused without a change.
pub cancel_is_final :
    (fails : ℕ → Bool) (timeout : ℕ) (t u v : Ticket)
    → IsSound t
    → Removable fails timeout t u
    → Reach u v
    → (v.ongoing ≡ [])
      × ((op : Operation) → add_operation op v ≡ (err authorization, v))
      × ((con_id : ℕ) (c : Context) → add_context con_id c v ≡ (err authorization, v))
cancel_is_final fails timeout t u v s done r =
    let settled = Reach-IsSettled r (removable_lem fails timeout t u s done) in
    let (ops, contexts) = refuses_lem v settled.canceled in (settled.idle, ops, contexts)
