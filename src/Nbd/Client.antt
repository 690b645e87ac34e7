-- ===== src/Nbd/Client.antt =====
-- The attributes of `class Client` of ovirt_imageio/_internal/nbd.py, and how it sends and receives.
use ovirt_imageio.Base.{
  ℕ, ◌+◌, ◌*◌, Bool, true, false, ◌&&◌, Option, none, some, List, [], ◌∷◌, ◌==◌, if◌then◌else◌,
  length,
}
use ovirt_imageio.Base.Exec.{Exec, ok, err}
use ovirt_imageio.Nbd.Sock.{Sock, send, received}
use ovirt_imageio.Nbd.Command.{Name, ErrorAt}

-- What the methods raise. The first six are of class ProtocolError. `unsupported_request`,
-- `option_unsupported`, `option_error`, `reply_error` and `request_error` are errors that the server
-- reported, the others exceptions of Python; `out_of_fuel` stands for a loop that goes on.
pub data Error : Type 0 where
  server_closed : Error
  protocol_error : Error
  invalid_length : ℕ → ℕ → Error
  unexpected_handle : ℕ → ℕ → Error
  unexpected_magic : ℕ → Error
  unexpected_option_reply : ℕ → ℕ → Error
  unsupported_request : Error
  option_unsupported : ℕ → Error
  option_error : ℕ → ℕ → List ℕ → Error
  reply_error : ℕ → List ℕ → Error
  request_error : List ErrorAt → Error
  struct_error : Error
  unicode_error : Error
  value_error : Error
  type_error : Error
  overflow_error : Error
  attribute_error : Error
  out_of_fuel : Error

pub data State : Type 0 where
  connecting handshake transmission closed : State

-- `_meta_context` is two maps, from the names and from the ids of the contexts; its keys of one type
-- never equal one of the other. `counter` is the next handle.
pub record Client : Type 0 where
  pub sock : Sock
  pub state : State
  pub export_name : Name
  pub export_size : Option ℕ
  pub transmission_flags : Option ℕ
  pub minimum_block_size : ℕ
  pub preferred_block_size : ℕ
  pub maximum_block_size : ℕ
  pub dirty_bitmap : Option Name
  pub structured_reply : Bool
  pub context_ids : List (Name × ℕ)
  pub context_names : List (ℕ × Name)
  pub counter : ℕ

-- `Client.__init__` up to `_connect`.
unfoldable pub new_client : Sock → Name → Client
new_client sock export_name = record {
  sock = sock;
  state = connecting;
  export_name = export_name;
  export_size = none;
  transmission_flags = none;
  minimum_block_size = 1;
  preferred_block_size = 4096;
  maximum_block_size = 32 * 1048576;
  dirty_bitmap = none;
  structured_reply = false;
  context_ids = [];
  context_names = [];
  counter = 0;
}

-- Names as keys.
unfoldable pub same_name : Name → Name → Bool
same_name [] [] = true
same_name [] (y ∷ ys) = false
same_name (x ∷ xs) [] = false
same_name (x ∷ xs) (y ∷ ys) = (x == y) && same_name xs ys

module _ {K V : Type 0} (same : K → K → Bool) where
  -- A dict, in the order of its keys.
  unfoldable pub lookup : K → List (K × V) → Option V
  lookup key [] = none
  lookup key ((k, v) ∷ items) = let rest = lookup key items in if same k key then some v else rest

  unfoldable pub assign : K → V → List (K × V) → List (K × V)
  assign key value [] = (key, value) ∷ []
  assign key value ((k, v) ∷ items) =
      let rest = assign key value items in if same k key then (k, value) ∷ items else (k, v) ∷ rest

abbrev pub sends : List ℕ → Exec Error Client (Unit {0})
sends bytes c = (ok tt, record c { sock = send bytes c.sock })

-- `_next_handle`
unfoldable pub next_handle : Exec Error Client ℕ
next_handle c = (ok c.counter, record c { counter = c.counter + 1 })

module _ (serve : ℕ → ℕ) where
  -- `_recv`
  unfoldable pub recv : ℕ → Exec Error Client (List ℕ)
  unfolding received
  recv n c =
      let (bytes, sock, ended) = received serve n n c.sock in
      let after : Client = record c { sock = sock } in
      if ended
      then if length bytes == n then (ok bytes, after) else (err server_closed, after)
      else (err out_of_fuel, after)
