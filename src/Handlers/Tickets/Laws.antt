-- ===== src/Handlers/Tickets/Laws.antt =====
-- DELETE and PATCH of ovirt_imageio/_internal/handlers/tickets.py.
use text.Mathlib.Text.{◌==◌ as str_eq}
use text.Mathlib.TextEquality.{eq_iff}
use ovirt_imageio.Base.{
  ℕ, ◌+◌, String, ◌≡◌, ◌≢◌, true, false, none, some, arith, ltb, if◌then◌else◌,
}
use ovirt_imageio.Base.Int.{pos}
use ovirt_imageio.Base.Exec.{ok, err}
use ovirt_imageio.Auth.{Ticket, authorization, may, extend}
use ovirt_imageio.Auth.Store.{Tickets, find_ticket, put_ticket, authorize}
use ovirt_imageio.Auth.Store.Laws.{find_ticket-put_ticket}
use ovirt_imageio.Handlers.Validate.{Dict, integer}
use ovirt_imageio.Handlers.Tickets.{responds, patch}

nonempty : (k : String) → k ≢ "" → str_eq k "" ≡ false
nonempty k h = ground (arith, eq_iff k "")

patch_found :
    (now timeout : ℕ) (k : String) (body : Dict) (ts : Tickets) (t : Ticket)
    → k ≢ ""
    → integer body "timeout" (some (pos 0)) none none ≡ ok (pos timeout)
    → find_ticket k ts ≡ some t
    → patch now k body ts ≡ (responds 200, put_ticket k (extend now timeout t) ts)
unfolding patch
patch_found now timeout k body ts t h i e = ground (arith, nonempty k h)

-- PATCH with a timeout on a ticket that is held, not canceled and permits the operation responds with
-- 200, and from then on the ticket is authorized until that timeout has passed, and not longer; the
-- tickets under other ids are the same as before.
pub patch_lem :
    (now later timeout : ℕ) (k j op : String) (body : Dict) (ts : Tickets) (t : Ticket)
    → k ≢ ""
    → k ≢ j
    → integer body "timeout" (some (pos 0)) none none ≡ ok (pos timeout)
    → find_ticket k ts ≡ some t
    → t.canceled ≡ false
    → may op t ≡ true
    → let (o, us) = patch now k body ts in
      (o ≡ responds 200)
      × (authorize later k op us
          ≡ (if ltb later (now + timeout) then ok (extend now timeout t) else err authorization))
      × (find_ticket j us ≡ find_ticket j ts)
unfolding authorize extend may
patch_lem now later timeout k j op body ts t h d i e c m =
    let p = patch_found now timeout k body ts t h i e in
    (
      ground arith,
      ground (arith, find_ticket-put_ticket k k (extend now timeout t) ts, eq_iff k k),
      ground (arith, find_ticket-put_ticket k j (extend now timeout t) ts, eq_iff k j),
    )
