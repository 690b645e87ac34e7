-- ===== src/Auth/Transferred.antt =====
-- `Ticket.transferred` of ovirt_imageio/_internal/auth.py.
use mathlib.Core.Path.{fun_ext}
use ovirt_imageio.Base.{
  ℕ, ◌+◌, ◌≤◌, ◌≡◌, refl, sym, ap, ◌∙◌, Bool, false, ◌||◌, ◌&&◌, leb, ltb, some, Option-cases, inl,
  inr, List, [], ◌∷◌, ◌++◌, arith, subst, All, length, map, ◌==◌, if◌then◌else◌,
}
use ovirt_imageio.Base.Count.{count_below}
use ovirt_imageio.Measure.{Range, RangeList, insort_left, add}
use ovirt_imageio.Measure.Cover.{contains, covers, IsRange, IsMerged, add_lem}
use ovirt_imageio.Measure.Total.{IsBelow, sum-update, merged-IsBelow, insort_left-IsBelow}
use ovirt_imageio.Auth.{
  Operation, Ticket, find, discard, range_of, remove_operation, removed, transferred, touch, extend,
  add_operation, add_context, remove_context, cancel, cancel_waited,
}
use ovirt_imageio.Auth.Steps.{
  Step, starts, advances, finishes, connects, disconnects, touches, extends, cancels, cancel_ends,
  Reach, here, next,
}

-- The byte `x` is among the first `done` bytes behind the offset of one of the operations.
abbrev pub moved_by : List Operation → ℕ → Bool
moved_by [] x = false
moved_by (op ∷ ops) x = (leb op.offset x && ltb x (op.offset + op.done)) || moved_by ops x

-- The byte `x` was moved by an operation that ended or by one that is ongoing.
abbrev pub has_moved : Ticket → ℕ → Bool
has_moved t x = covers t.completed x || moved_by t.ongoing x

-- No operation has moved a byte from `n` on.
abbrev pub MovedBelow : ℕ → List Operation → Type 0
MovedBelow n [] = Unit
MovedBelow n (op ∷ ops) = (op.offset + op.done ≤ n) × MovedBelow n ops

-- The same, by the ranges of the operations.
abbrev in_ranges : Ticket → ℕ → Bool
in_ranges t x = covers t.completed x || covers (map range_of t.ongoing) x

moved_by_lem : (ops : List Operation) (x : ℕ) → covers (map range_of ops) x ≡ moved_by ops x
moved_by_lem [] x = refl
moved_by_lem (op ∷ ops) x = ground (arith, moved_by_lem ops x)

MovedBelow-IsBelow :
    (n : ℕ) (ops : List Operation) → MovedBelow n ops → IsBelow n (map range_of ops)
MovedBelow-IsBelow n [] b = tt
MovedBelow-IsBelow n (op ∷ ops) b = (omega (arith, b.0), MovedBelow-IsBelow n ops b.1)

ranges-IsRange : (ops : List Operation) → All IsRange (map range_of ops)
ranges-IsRange [] = tt
ranges-IsRange (op ∷ ops) = (omega arith, ranges-IsRange ops)

-- The sum, by the ranges.
ranges_lem :
    (n : ℕ) (t : Ticket)
    → length t.ops ≤ 1
    → IsMerged t.completed
    → IsBelow n t.completed
    → IsBelow n (map range_of t.ongoing)
    → transferred t ≡ some (count_below n (in_ranges t))
unfolding transferred
ranges_lem n t one m b c =
    let e = sum-update n t.completed m b (map range_of t.ongoing) (ranges-IsRange t.ongoing) c in
    ground arith

-- When the ticket has at most one op, its completed ranges are merged and end at `n` or below, and each
-- ongoing operation has moved only bytes below `n`, then `transferred` is the number of bytes below `n`
-- that lie in a completed range or that an ongoing operation has moved, from its offset on.
pub transferred_lem :
    (n : ℕ) (t : Ticket)
    → length t.ops ≤ 1
    → IsMerged t.completed
    → IsBelow n t.completed
    → MovedBelow n t.ongoing
    → transferred t ≡ some (count_below n (has_moved t))
transferred_lem n t one m b c =
    ranges_lem n t one m b (MovedBelow-IsBelow n t.ongoing c)
    ∙ ap (λ p. some (count_below n p))
        (fun_ext (λ x. ap (λ c. covers t.completed x || c) (moved_by_lem t.ongoing x)))

covers-discard :
    (id : ℕ) (op : Operation) (ops : List Operation) (x : ℕ)
    → find id ops ≡ some op
    → covers (map range_of ops) x
      ≡ (contains (range_of op) x || covers (map range_of (discard id ops)) x)
covers-discard id op [] x e = ground arith
covers-discard id op (o ∷ ops) x e = ground (arith, covers-discard id op ops x)

find-IsBelow :
    (n id : ℕ) (op : Operation) (ops : List Operation)
    → find id ops ≡ some op
    → IsBelow n (map range_of ops)
    → ((range_of op).end ≤ n) × IsBelow n (map range_of (discard id ops))
find-IsBelow n id op [] e b = ground arith
find-IsBelow n id op (o ∷ ops) e b = ground (arith, find-IsBelow n id op ops)

IsBelow-le : (m n : ℕ) (rs : RangeList) → m ≤ n → IsBelow m rs → IsBelow n rs
IsBelow-le m n [] h b = tt
IsBelow-le m n (r ∷ rs) h b = (omega (arith, b.0), IsBelow-le m n rs h b.1)

-- A number that no range ends above.
bounded : (rs : RangeList) → (n : ℕ) × IsBelow n rs
bounded [] = (0, tt)
bounded (r ∷ rs) =
    let (m, b) = bounded rs in
    (r.end + m, (omega arith, IsBelow-le m (r.end + m) rs (omega arith) b))

module _ (now id : ℕ) (op : Operation) (t : Ticket) where
  module _ (live : t.canceled ≡ false) (held : find id t.ongoing ≡ some op) where
    pub completed-remove_operation :
        (remove_operation now id t).1.completed
        ≡ (if length t.ops == 1 then add t.completed (range_of op) else t.completed)
    unfolding remove_operation touch
    completed-remove_operation = ground arith

    pub ongoing-remove_operation :
        ((remove_operation now id t).1.ongoing ≡ discard id t.ongoing)
        × ((remove_operation now id t).1.ops ≡ t.ops)
    unfolding remove_operation touch
    ongoing-remove_operation = ground arith

add-IsMerged : (rs : RangeList) (op : Operation) → IsMerged rs → IsMerged (add rs (range_of op))
add-IsMerged rs op m = (add_lem rs m (range_of op) (omega arith)).0

removed-IsMerged :
    (now : ℕ) (op : Operation) (t : Ticket)
    → IsMerged t.completed
    → IsMerged (removed now op t).1.completed
unfolding removed touch
removed-IsMerged now op t m = ground (arith, add-IsMerged t.completed op)

found-remove_operation :
    (now id : ℕ) (op : Operation) (t : Ticket)
    → find id t.ongoing ≡ some op
    → remove_operation now id t ≡ removed now op (record t { ongoing = discard id t.ongoing })
unfolding remove_operation
found-remove_operation now id op t e = rw (e, remove_operation) refl

-- The completed ranges of a ticket stay merged when an operation ends.
completed-IsMerged :
    (now id : ℕ) (t : Ticket)
    → IsMerged t.completed
    → IsMerged (remove_operation now id t).1.completed
unfolding remove_operation
completed-IsMerged now id t m = elim (Option-cases (find id t.ongoing)) [
  | inl e ↦ ground arith
  | inr (op, e) ↦
      subst (λ r. IsMerged r.1.completed) (sym (found-remove_operation now id op t e))
        (removed-IsMerged now op (record t { ongoing = discard id t.ongoing }) m)
]

Step-IsMerged : {t u : Ticket} → Step t u → IsMerged t.completed → IsMerged u.completed
unfolding touch extend add_operation add_context remove_context cancel cancel_waited
Step-IsMerged {t} (starts op e) m = ground arith
Step-IsMerged {t} (advances id n e) m = ground arith
Step-IsMerged {t} (finishes now id e) m = rw e (completed-IsMerged now id t m)
Step-IsMerged {t} (connects con_id c e) m = ground arith
Step-IsMerged {t} (disconnects fails con_id e) m = ground arith
Step-IsMerged {t} (touches now e) m = ground arith
Step-IsMerged {t} (extends now timeout e) m = ground arith
Step-IsMerged {t} (cancels fails timeout e) m = ground arith
Step-IsMerged {t} (cancel_ends fails e) m = ground arith

-- Whatever happens to a ticket, its completed ranges stay merged: sorted, with a gap between any two.
pub Reach-IsMerged : {t u : Ticket} → Reach t u → IsMerged t.completed → IsMerged u.completed
Reach-IsMerged here m = m
Reach-IsMerged (next r s) m = Step-IsMerged s (Reach-IsMerged r m)

add-IsBelow : (n : ℕ) (rs : RangeList) (r : Range) → IsBelow n rs → r.end ≤ n → IsBelow n (add rs r)
unfolding add
add-IsBelow n rs r b h = merged-IsBelow n (insort_left rs r) (insort_left-IsBelow n rs r h b)

split-IsBelow : (n : ℕ) (rs ss : RangeList) → IsBelow n (rs ++ ss) → IsBelow n rs × IsBelow n ss
split-IsBelow n [] ss b = (tt, b)
split-IsBelow n (r ∷ rs) ss b = let (c, d) = split-IsBelow n rs ss b.1 in ((b.0, c), d)

module _ (now id : ℕ) (op : Operation) (t : Ticket) where
  -- When an operation of a ticket with one op ends, and the ticket is not canceled and its completed
  -- ranges are merged, `transferred` stays what it was: what the operation moved is counted neither
  -- twice nor lost when it is no longer ongoing.
  pub transferred-remove_operation :
      length t.ops ≡ 1
      → t.canceled ≡ false
      → find id t.ongoing ≡ some op
      → IsMerged t.completed
      → transferred (remove_operation now id t).1 ≡ transferred t
  transferred-remove_operation one live held m =
      let u = (remove_operation now id t).1 in
      let (k, kb) = bounded (t.completed ++ map range_of t.ongoing) in
      let (b, c) = split-IsBelow k t.completed (map range_of t.ongoing) kb in
      let (h, d) = find-IsBelow k id op t.ongoing held c in
      let e : u.completed ≡ add t.completed (range_of op) =
        ground (arith, completed-remove_operation now id op t live held) in
      let (f, g) = ongoing-remove_operation now id op t live held in
      let sums : (x : ℕ)
          → (covers (add t.completed (range_of op)) x
              || covers (map range_of (discard id t.ongoing)) x)
            ≡ in_ranges t x =
        λ x. ground (
          arith,
          (add_lem t.completed m (range_of op) (omega arith)).1 x,
          covers-discard id op t.ongoing x held,
        ) in
      let moved : (x : ℕ) → in_ranges u x ≡ in_ranges t x = λ x. rw (e, f) (sums x) in
      ranges_lem k u (rw g (omega (arith, one))) (completed-IsMerged now id t m)
        (rw e (add-IsBelow k t.completed (range_of op) b h)) (rw f d)
      ∙ ap (λ p. some (count_below k p)) (fun_ext moved)
      ∙ sym (ranges_lem k t (omega (arith, one)) m b c)
