-- ===== src/Auth/Steps.antt =====
-- `Ticket` of ovirt_imageio/_internal/auth.py: the steps of its threads, interleaved.
use ovirt_imageio.Base.{
  ℕ, ◌+◌, ◌≡◌, refl, Bool, true, List, [], ◌∷◌, arith, ◌==◌, if◌then◌else◌, length,
}
use ovirt_imageio.Auth.{
  Operation, Context, Ticket, add_context, remove_context, touch, extend, add_operation, discard,
  remove_operation, cancel, cancel_all, cancel_waited,
}

-- An operation moves `n` more bytes.
abbrev pub advance : ℕ → ℕ → List Operation → List Operation
advance id n [] = []
advance id n (op ∷ ops) =
    if op.id == id then record op { done = op.done + n } ∷ ops else op ∷ advance id n ops

-- What may happen to a ticket next, in any thread.
pub data Step (t : Ticket) : Ticket → Type 0 where
  starts : (op : Operation) {u : Ticket} → u ≡ (add_operation op t).1 → Step t u
  advances : (id n : ℕ) {u : Ticket} → u ≡ record t { ongoing = advance id n t.ongoing } → Step t u
  finishes : (now id : ℕ) {u : Ticket} → u ≡ (remove_operation now id t).1 → Step t u
  connects : (con_id : ℕ) (c : Context) {u : Ticket} → u ≡ (add_context con_id c t).1 → Step t u
  disconnects :
      (fails : ℕ → Bool) (con_id : ℕ) {u : Ticket}
      → u ≡ (remove_context fails con_id t).1
      → Step t u
  touches : (now : ℕ) {u : Ticket} → u ≡ touch now t → Step t u
  extends : (now timeout : ℕ) {u : Ticket} → u ≡ extend now timeout t → Step t u
  cancels :
      (fails : ℕ → Bool) (timeout : ℕ) {u : Ticket} → u ≡ (cancel fails timeout t).1 → Step t u
  cancel_ends : (fails : ℕ → Bool) {u : Ticket} → u ≡ (cancel_waited fails t).1 → Step t u

pub data Reach (t : Ticket) : Ticket → Type 0 where
  here : Reach t t
  next : {u v : Ticket} → Reach t u → Step u v → Reach t v

abbrev pub AllCanceled : List Operation → Type 0
AllCanceled [] = Unit
AllCanceled (op ∷ ops) = (op.canceled ≡ true) × AllCanceled ops

-- Once a ticket is canceled, so are its operations; the event is set only when it is canceled and no
-- operation is left.
pub record IsSound (t : Ticket) : Type 0 where
  pub told : t.canceled ≡ true → AllCanceled t.ongoing
  pub final : t.unused ≡ true → (t.canceled ≡ true) × (t.ongoing ≡ [])

AllCanceled-advance :
    (id n : ℕ) (ops : List Operation) → AllCanceled ops → AllCanceled (advance id n ops)
AllCanceled-advance id n [] h = tt
AllCanceled-advance id n (op ∷ ops) h = ground (arith, AllCanceled-advance id n ops)

AllCanceled-discard :
    (id : ℕ) (ops : List Operation) → AllCanceled ops → AllCanceled (discard id ops)
AllCanceled-discard id [] h = tt
AllCanceled-discard id (op ∷ ops) h = ground (arith, AllCanceled-discard id ops)

AllCanceled-cancel_all : (ops : List Operation) → AllCanceled (cancel_all ops)
AllCanceled-cancel_all [] = tt
AllCanceled-cancel_all (op ∷ ops) = (refl, AllCanceled-cancel_all ops)

pub length-zero : (ops : List Operation) → length ops ≡ 0 → ops ≡ []
length-zero [] e = refl
length-zero (op ∷ ops) e = absurd (omega arith)

pub advance-nil : (id n : ℕ) (ops : List Operation) → ops ≡ [] → advance id n ops ≡ []
advance-nil id n [] e = refl
advance-nil id n (op ∷ ops) e = cc

pub discard-nil : (id : ℕ) (ops : List Operation) → ops ≡ [] → discard id ops ≡ []
discard-nil id [] e = refl
discard-nil id (op ∷ ops) e = cc

-- The facts that the proofs below share.
module _ (t : Ticket) (s : IsSound t) where
  pub starts-IsSound : (op : Operation) → IsSound (add_operation op t).1
  unfolding add_operation
  starts-IsSound op = ground (arith, s.told, s.final)

  pub finishes-IsSound : (now id : ℕ) → IsSound (remove_operation now id t).1
  unfolding remove_operation
  finishes-IsSound now id = ground (
    arith,
    s.told,
    s.final,
    AllCanceled-discard id t.ongoing,
    discard-nil id t.ongoing,
    length-zero (discard id t.ongoing),
  )

  pub advances-IsSound : (id n : ℕ) → IsSound (record t { ongoing = advance id n t.ongoing })
  advances-IsSound id n = record {
    told = λ c. AllCanceled-advance id n t.ongoing (s.told c);
    final = λ u. ((s.final u).0, advance-nil id n t.ongoing (s.final u).1);
  }

  pub connects-IsSound : (con_id : ℕ) (c : Context) → IsSound (add_context con_id c t).1
  unfolding add_context
  connects-IsSound con_id c = ground (arith, s.told, s.final)

  pub disconnects-IsSound :
      (fails : ℕ → Bool) (con_id : ℕ) → IsSound (remove_context fails con_id t).1
  unfolding remove_context
  disconnects-IsSound fails con_id = ground (arith, s.told, s.final)

  pub cancels-IsSound : (fails : ℕ → Bool) (timeout : ℕ) → IsSound (cancel fails timeout t).1
  unfolding cancel
  cancels-IsSound fails timeout =
      ground (arith, s.told, s.final, AllCanceled-cancel_all t.ongoing, length-zero t.ongoing)

  pub cancel_ends-IsSound : (fails : ℕ → Bool) → IsSound (cancel_waited fails t).1
  unfolding cancel_waited
  cancel_ends-IsSound fails = ground (arith, s.told, s.final)
