-- ===== src/Nbd/Reply/Ends.antt =====
-- Methods of ovirt_imageio/_internal/nbd.py that take bytes from the server and come to an end.
use ovirt_imageio.Base.{
  ℕ, zero, suc, ◌+◌, ◌-◌, ◌≤◌, ◌≢◌, Bool, true, false, Option, none, some, arith, if◌then◌else◌,
  length, take, drop, length-take, length-drop, length-append, ==-cases, inl, inr,
}
use ovirt_imageio.Base.Exec.{Result, ok, err, pure, raise, gets, modify, raise_if, continue, ◌>>=◌}
use ovirt_imageio.Nbd.Command.{Buffer}
use ovirt_imageio.Nbd.Sock.{Sock, received, received_ends, stored}
use ovirt_imageio.Nbd.Client.{Error, recv, out_of_fuel}
use ovirt_imageio.Nbd.Reply.{Session, Method, recv_slice, recv_bytes, recv_buffer}

-- The bytes that the server still sends.
abbrev pub left : Session → ℕ
left s = length s.client.sock.incoming

-- What a method ends with: no bytes are added, and the fuel was enough.
pub record IsEnd {A : Type 0} (n : ℕ) (p : Result Error A × Session) : Type 0 where
  pub shrinks : left p.1 ≤ n
  pub finite : p.0 ≢ err out_of_fuel

abbrev pub Ends : {A : Type 0} → Method A → Type 0
Ends m = (s : Session) → IsEnd (left s) (m s)

pub continue-IsEnd :
    {A B : Type 0} {n : ℕ} {f : A → Method B} (p : Result Error A × Session)
    → IsEnd n p
    → ((a : A) → Ends (f a))
    → IsEnd n (continue p f)
continue-IsEnd (ok a, s) e next = record {
  shrinks = omega (arith, e.shrinks, (next a s).shrinks);
  finite = (next a s).finite;
}
continue-IsEnd (err x, s) e next = record { shrinks = e.shrinks; finite = λ h. e.finite cc }

pub Ends-then :
    {A B : Type 0} (m : Method A) {f : A → Method B}
    → Ends m
    → ((a : A) → Ends (f a))
    → Ends (m >>= f)
Ends-then m e next s = continue-IsEnd (m s) (e s) next

pub pure-Ends : {A : Type 0} (a : A) → Ends (pure a)
pure-Ends a s = record { shrinks = omega arith; finite = λ h. cc }

pub raise-Ends : {A : Type 0} (e : Error) → e ≢ out_of_fuel → Ends {A = A} (raise e)
raise-Ends e ne s = record { shrinks = omega arith; finite = λ h. ne cc }

pub raise_if-Ends : (b : Bool) (e : Error) → e ≢ out_of_fuel → Ends (raise_if b e)
raise_if-Ends true e ne s = record { shrinks = omega arith; finite = λ h. ne cc }
raise_if-Ends false e ne s = record { shrinks = omega arith; finite = λ h. cc }

pub gets-Ends : {A : Type 0} (f : Session → A) → Ends (gets f)
gets-Ends f s = record { shrinks = omega arith; finite = λ h. cc }

pub modify-Ends : (f : Session → Session) → ((s : Session) → left (f s) ≤ left s) → Ends (modify f)
modify-Ends f le s = record { shrinks = le s; finite = λ h. cc }

pub if-Ends : {A : Type 0} (b : Bool) {m n : Method A} → Ends m → Ends n → Ends (if b then m else n)
if-Ends true e f = e
if-Ends false e f = f

module _ (serve : ℕ → ℕ) where
  pub received_count :
      (fuel todo : ℕ) (s : Sock)
      → length (received serve fuel todo s).0 + length (received serve fuel todo s).1.incoming
        ≤ length s.incoming
  unfolding received
  received_count zero todo s = omega arith
  received_count (suc fuel) todo s = elim (==-cases todo 0) [
    | inl (e, _) ↦ rw e (omega arith)
    | inr (e, _) ↦ elim (==-cases (stored serve todo s) 0) [
      | inl (e', z) ↦ rw (e, e') (omega (arith, length-drop (stored serve todo s) s.incoming))
      | inr (e', _) ↦
          let n = stored serve todo s in
          let next : Sock = record s { incoming = drop n s.incoming; calls = s.calls + 1 } in
          rw (e, e')
            (omega (
              arith,
              received_count fuel (todo - n) next,
              length-append (take n s.incoming) (received serve fuel (todo - n) next).0,
              length-take n s.incoming,
              length-drop n s.incoming,
            ))
    ]
  ]

  pub recv-Ends : (n : ℕ) → Ends (recv_bytes serve n)
  unfolding recv
  recv-Ends n s = elim (==-cases (length (received serve n n s.client.sock).0) n) [
    | inl (e, _) ↦
        rw (received_ends serve n n s.client.sock (omega arith), e)
          (record { shrinks = omega (arith, received_count n n s.client.sock); finite = λ h. cc })
    | inr (e, _) ↦
        rw (received_ends serve n n s.client.sock (omega arith), e)
          (record { shrinks = omega (arith, received_count n n s.client.sock); finite = λ h. cc })
  ]

  pub recv_slice-Ends : (buf : Buffer) (start stop : ℕ) → Ends (recv_slice serve buf start stop)
  unfolding recv_slice
  recv_slice-Ends buf start stop s =
      let n : ℕ = stop - start in
      elim (==-cases (length (received serve n n s.client.sock).0) n) [
        | inl (e, _) ↦
            rw (received_ends serve n n s.client.sock (omega arith), e)
              (record {
                shrinks = omega (arith, received_count n n s.client.sock);
                finite = λ h. cc;
              })
        | inr (e, _) ↦
            rw (received_ends serve n n s.client.sock (omega arith), e)
              (record {
                shrinks = omega (arith, received_count n n s.client.sock);
                finite = λ h. cc;
              })
      ]

  pub recv_buffer-Ends : (buf : Option Buffer) → Ends (recv_buffer serve buf)
  recv_buffer-Ends none = pure-Ends tt
  recv_buffer-Ends (some buf) = recv_slice-Ends buf 0 (length buf.bytes)
