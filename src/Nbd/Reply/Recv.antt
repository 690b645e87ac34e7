-- ===== src/Nbd/Reply/Recv.antt =====
-- What `_recv` of ovirt_imageio/_internal/nbd.py does to the client, and the fields of what it received.
use ovirt_imageio.Base.{
  ℕ, ◌<◌, ◌≡◌, refl, ap, sym, ◌∙◌, true, List, [], ◌∷◌, ◌++◌, arith, ◌==◌, length, take, drop,
  ==_iff,
}
use ovirt_imageio.Base.Exec.{ok}
use ovirt_imageio.Nbd.Sock.{Sock, received, received_ends, received_lem}
use ovirt_imageio.Nbd.Client.{Client, recv}

pub take-length : {A : Type 0} (xs ys : List A) → take (length xs) (xs ++ ys) ≡ xs
take-length [] ys = refl
take-length (x ∷ xs) ys = ap (λ zs. x ∷ zs) (take-length xs ys)

pub drop-length : {A : Type 0} (xs ys : List A) → drop (length xs) (xs ++ ys) ≡ ys
drop-length [] ys = refl
drop-length (x ∷ xs) ys = drop-length xs ys

-- `c` with another socket.
abbrev pub with_sock : Client → Sock → Client
with_sock c sock = record c { sock = sock }

-- The server sends `bytes` next: `_recv` of their number returns them.
pub recv_lem :
    (serve : ℕ → ℕ) (serves : (k : ℕ) → 0 < serve k) (n : ℕ) (bytes rest : List ℕ) (c : Client)
    → c.sock.incoming ≡ bytes ++ rest
    → length bytes ≡ n
    → (sock : Sock) × (recv serve n c ≡ (ok bytes, with_sock c sock))
      × (sock.incoming ≡ rest)
      × (sock.sent ≡ c.sock.sent)
unfolding recv
recv_lem serve serves n bytes rest c e size =
    let (taken, left, same) = received_lem serve serves n n c.sock (omega arith) in
    let got : (received serve n n c.sock).0 ≡ bytes =
      taken
      ∙ ap (λ xs. take n xs) e
      ∙ ap (λ k. take k (bytes ++ rest)) (sym size)
      ∙ take-length bytes rest in
    let full : (length (received serve n n c.sock).0 == n) ≡ true =
      (==_iff (length (received serve n n c.sock).0) n).1 (ap length got ∙ size) in
    (
      (received serve n n c.sock).1,
      rw (received_ends serve n n c.sock (omega arith), full)
          (ap (λ xs. (ok xs, with_sock c (received serve n n c.sock).1)) got),
      left
          ∙ ap (λ xs. drop n xs) e
          ∙ ap (λ k. drop k (bytes ++ rest)) (sym size)
          ∙ drop-length bytes rest,
      same,
    )
