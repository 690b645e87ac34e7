-- ===== src/Nbd/Sock.antt =====
-- The plain I/O of ovirt_imageio/_internal/nbd.py on a connected socket.
--
-- `incoming` are the bytes that the server sends before it closes the connection. A call of `recv_into`
-- may store fewer than there is room for: `serve k` bounds what call `k` stores.
use ovirt_imageio.Base.{
  ℕ, zero, suc, ◌+◌, ◌-◌, ◌≤◌, ◌<◌, min, ◌≡◌, refl, Bool, true, List, [], ◌∷◌, ◌++◌, arith, ◌==◌,
  if◌then◌else◌, length, take, drop, ==-cases, ap, sym, ◌∙◌, take-take-drop, drop-drop, inl, inr,
}

pub record Sock : Type 0 where
  pub incoming : List ℕ
  pub calls : ℕ
  pub sent : List ℕ

-- `_send`
unfoldable pub send : List ℕ → Sock → Sock
send bytes s = record s { sent = s.sent ++ bytes }

nothing : (m n : ℕ) (xs : List ℕ) → length xs ≡ 0 → ([] ≡ take n xs) × (drop m xs ≡ drop n xs)
nothing zero zero [] e = (refl, refl)
nothing zero (suc n) [] e = (refl, refl)
nothing (suc m) zero [] e = (refl, refl)
nothing (suc m) (suc n) [] e = (refl, refl)
nothing m n (x ∷ xs) e = absurd (omega arith)

module _ (serve : ℕ → ℕ) where
  abbrev pub stored : ℕ → Sock → ℕ
  stored todo s = min (min todo (serve s.calls)) (length s.incoming)

  -- The loop of `_recv_into` with `todo` bytes left: the bytes that it stores, the socket, and whether
  -- the loop ended within the fuel. It ends when they are `todo`, or when the server closed the
  -- connection.
  unfoldable pub received : ℕ → ℕ → Sock → List ℕ × Sock × Bool
  received zero todo s = ([], s, todo == 0)
  received (suc fuel) todo s =
      let n = stored todo s in
      let next : Sock = record s { incoming = drop n s.incoming; calls = s.calls + 1 } in
      let rest = received fuel (todo - n) next in
      if todo == 0
      then ([], s, true)
      else if n == 0
      then ([], next, true)
      else (take n s.incoming ++ rest.0, rest.1, rest.2)

  -- Each call stores a byte or ends the loop, so `todo` is enough fuel, also when calls store nothing.
  pub received_ends : (fuel todo : ℕ) (s : Sock) → todo ≤ fuel → (received fuel todo s).2 ≡ true
  unfolding received
  received_ends zero todo s le = ground arith
  received_ends (suc fuel) todo s le = elim (==-cases todo 0) [
    | inl (is_zero, _) ↦ rw is_zero refl
    | inr (not_zero, _) ↦ elim (==-cases (stored todo s) 0) [
      | inl (no_more, _) ↦ rw (not_zero, no_more) refl
      | inr (some_bytes, pos) ↦
          let n = stored todo s in
          let next : Sock = record s { incoming = drop n s.incoming; calls = s.calls + 1 } in
          rw (not_zero, some_bytes) (received_ends fuel (todo - n) next (omega arith))
    ]
  ]

  -- With `todo` as fuel the loop ends with the next bytes of the server, whatever each call stores.
  pub received_lem :
      (serves : (k : ℕ) → 0 < serve k) (fuel todo : ℕ) (s : Sock)
      → todo ≤ fuel
      → (received fuel todo s).0 ≡ take todo s.incoming
        × (received fuel todo s).1.incoming ≡ drop todo s.incoming
        × (received fuel todo s).1.sent ≡ s.sent
  unfolding received
  received_lem serves zero todo s le =
      let z : todo ≡ 0 = omega arith in (rw z refl, rw z refl, refl)
  received_lem serves (suc fuel) todo s le = elim (==-cases todo 0) [
    | inl (is_zero, z) ↦ (rw is_zero (rw z refl), rw is_zero (rw z refl), rw is_zero refl)
    | inr (not_zero, nz) ↦ elim (==-cases (stored todo s) 0) [
      | inl (no_more, none_left) ↦
          let empty : length s.incoming ≡ 0 = omega (arith, serves s.calls) in
          let (taken, left) = nothing (stored todo s) todo s.incoming empty in
          rw (not_zero, no_more) (taken, left, refl)
      | inr (some_bytes, pos) ↦
          let n = stored todo s in
          let next : Sock = record s { incoming = drop n s.incoming; calls = s.calls + 1 } in
          let (taken, left, same) = received_lem serves fuel (todo - n) next (omega arith) in
          let all : n + (todo - n) ≡ todo = omega arith in
          rw (not_zero, some_bytes)
            (
              ap (λ ys. take n s.incoming ++ ys) taken
                  ∙ sym (take-take-drop n (todo - n) todo s.incoming all),
              left ∙ drop-drop (todo - n) n todo s.incoming all,
              same,
            )
    ]
  ]
