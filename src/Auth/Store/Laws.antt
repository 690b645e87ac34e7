-- ===== src/Auth/Store/Laws.antt =====
-- `Authorizer` of ovirt_imageio/_internal/auth.py: who may use a ticket, and removal.
use text.Mathlib.Text.{◌==◌ as str_eq}
use text.Mathlib.TextEquality.{eq_iff}
use ovirt_imageio.Base.{
  ℕ, ◌+◌, ◌<◌, Bool, ◌&&◌, String, ◌≡◌, ◌≢◌, ◌↔◌, refl, true, false, none, some, Option-cases, inl,
  inr, [], ◌∷◌, arith, ltb, if◌then◌else◌, length, ◌==◌,
}
use ovirt_imageio.Base.Exec.{ok, err}
use ovirt_imageio.Auth.{authorization, Ticket, may, cancel, touch, close_all}
use ovirt_imageio.Auth.Store.{
  Tickets, find_ticket, put_ticket, drop_ticket, returned, remove, authorize,
}

pub find_ticket-put_ticket :
    (k j : String) (t : Ticket) (ts : Tickets)
    → find_ticket j (put_ticket k t ts) ≡ (if str_eq k j then some t else find_ticket j ts)
unfolding find_ticket put_ticket
find_ticket-put_ticket k j t [] = ground arith
find_ticket-put_ticket k j t ((i, u) ∷ ts) =
    ground (arith, find_ticket-put_ticket k j t ts, eq_iff i k, eq_iff i j, eq_iff k j)

pub find_ticket-drop_ticket :
    (k j : String) (ts : Tickets)
    → find_ticket j (drop_ticket k ts) ≡ (if str_eq k j then none else find_ticket j ts)
unfolding find_ticket drop_ticket
find_ticket-drop_ticket k j [] = ground arith
find_ticket-drop_ticket k j ((i, u) ∷ ts) =
    ground (arith, find_ticket-drop_ticket k j ts, eq_iff i k, eq_iff i j, eq_iff k j)

-- A store lets a request use the ticket `t` exactly when the store holds `t` under the id of the request,
-- `t` is not canceled, expires later than now, and permits the operation.
pub authorize_iff :
    (now : ℕ) (k op : String) (ts : Tickets) (t : Ticket)
    → (authorize now k op ts ≡ ok t)
      ↔ ((find_ticket k ts ≡ some t) × (t.canceled ≡ false) × (now < t.expires) × (may op t ≡ true))
unfolding authorize
authorize_iff now k op ts t = ground arith

cancel-canceled :
    (fails : ℕ → Bool) (timeout : ℕ) (t : Ticket) → (cancel fails timeout t).1.canceled ≡ true
unfolding cancel
cancel-canceled fails timeout t = ground arith

-- What a request finds under the id `j` once `remove` of `k` has returned or begun to wait.
found-remove :
    (fails : ℕ → Bool) (timeout : ℕ) (k : String) (ts : Tickets) (t : Ticket)
    → find_ticket k ts ≡ some t
    → (j : String)
    → find_ticket j (remove fails timeout k ts).1 ≡ (
        if str_eq k j
        then if (length t.ongoing == 0) && (close_all fails t.connections).0
          then none
          else some (cancel fails timeout t).1
        else find_ticket j ts)
unfolding remove cancel
found-remove fails timeout k ts t e j = ground (
  arith,
  find_ticket-drop_ticket k j ts,
  find_ticket-put_ticket k j (cancel fails timeout t).1 ts,
)

lost-remove :
    (fails : ℕ → Bool) (timeout : ℕ) (k : String) (ts : Tickets)
    → find_ticket k ts ≡ none
    → remove fails timeout k ts ≡ (returned, ts)
unfolding remove
lost-remove fails timeout k ts e = rw (e, remove) refl

refused_lem :
    (now : ℕ) (k op : String) (ts : Tickets)
    → ((t : Ticket) → find_ticket k ts ≡ some t → t.canceled ≡ true)
    → authorize now k op ts ≡ err authorization
unfolding authorize
refused_lem now k op ts h = elim (Option-cases (find_ticket k ts)) [
  | inl e ↦ ground arith
  | inr (t, e) ↦ ground (arith, h t e)
]

-- From the moment `remove` of the ticket `k` waits or returns, no request may use that ticket, also while
-- its operations are still running, and the ticket under any other id is the same as before.
pub remove_revokes :
    (fails : ℕ → Bool) (timeout : ℕ) (k j : String) (ts : Tickets)
    → k ≢ j
    → ((now : ℕ) (op : String)
        → authorize now k op (remove fails timeout k ts).1 ≡ err authorization)
      × (find_ticket j (remove fails timeout k ts).1 ≡ find_ticket j ts)
remove_revokes fails timeout k j ts d = elim (Option-cases (find_ticket k ts)) [
  | inl e ↦
      let r = lost-remove fails timeout k ts e in
      (
        λ now op. refused_lem now k op (remove fails timeout k ts).1 (λ t f. absurd (ground arith)),
        rw r refl,
      )
  | inr (t, e) ↦
      let f = found-remove fails timeout k ts t e in
      (
        λ now op.
            refused_lem now k op (remove fails timeout k ts).1
              (λ u g. ground (arith, f k, eq_iff k k, cancel-canceled fails timeout t)),
        ground (arith, f j, eq_iff k j),
      )
]

-- A request that may use a ticket, and touches it when it ends, leaves it usable for the ticket's timeout
-- from then on, and not longer.
pub authorize-touch :
    (now later : ℕ) (k op : String) (ts : Tickets) (t : Ticket)
    → find_ticket k ts ≡ some t
    → t.canceled ≡ false
    → may op t ≡ true
    → authorize later k op (put_ticket k (touch now t) ts)
      ≡ (if ltb later (now + t.timeout) then ok (touch now t) else err authorization)
unfolding authorize touch may
authorize-touch now later k op ts t e c m =
    ground (arith, find_ticket-put_ticket k k (touch now t) ts, eq_iff k k)
