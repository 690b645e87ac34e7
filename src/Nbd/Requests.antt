-- ===== src/Nbd/Requests.antt =====
-- The requests that `class Client` of ovirt_imageio/_internal/nbd.py sends during transmission, and the
-- end of the session.
--
-- A request is a function on the client; what it leaves in the buffer of the caller comes back beside
-- the client, also when it fails. `out_of_fuel` is never seen: a reply is received with more fuel than
-- the bytes that the server sends.
pub mod Reads
use Prim.Native.Nat.{bit_and}
use ovirt_imageio.Base.{
  ℕ, suc, ◌+◌, Bool, true, false, not, Option, none, some, List, [], ◌∷◌, ◌++◌, ◌==◌, if◌then◌else◌,
  length, replicate,
}
use ovirt_imageio.Base.Exec.{Exec, Result, ok, err, pure, raise, gets, modify, ◌>>=◌, ◌>>◌}
use ovirt_imageio.Nbd.Sock.{Sock}
use ovirt_imageio.Nbd.Wire.{pack}
use ovirt_imageio.Nbd.Command.{
  Name, Buffer, Command, to_bytes, read_command, write_command, write_zeroes_command, flush_command,
  block_status_command, disc_command,
}
use ovirt_imageio.Nbd.Extents.{Extent}
use ovirt_imageio.Nbd.Client.{
  Client, Error, struct_error, type_error, unsupported_request, State, connecting, handshake,
  transmission, closed, next_handle, sends,
}
use ovirt_imageio.Nbd.Reply.{Session, recv_reply}

abbrev Method : Type 0 → Type 0
Method A = Exec Error Client A

abbrev send_bytes : Option (List ℕ) → Method (Unit {0})
send_bytes none = raise struct_error
send_bytes (some bytes) = sends bytes

-- `_send_command`
unfoldable pub send_command : Command → Method (Unit {0})
unfolding to_bytes
send_command cmd = send_bytes (to_bytes cmd)

module _ (serve : ℕ → ℕ) where
  -- `_recv_reply` of a command, and the command then.
  unfoldable pub recv_for : Command → Client → Result Error (Unit {0}) × Session
  unfolding recv_reply
  recv_for cmd c =
      recv_reply serve (suc (length c.sock.incoming)) (record { client = c; cmd = cmd })

  abbrev command_of : Command → Result Error (Unit {0}) × Client → Result Error (Unit {0}) × Session
  command_of cmd (err e, c) = (err e, record { client = c; cmd = cmd })
  command_of cmd (ok _, c) = recv_for cmd c

  -- A command is sent with the data behind it, and its reply received.
  unfoldable pub run : Command → List ℕ → Client → Result Error (Unit {0}) × Session
  unfolding send_command recv_for
  run cmd bytes c = command_of cmd ((send_command cmd >> sends bytes) c)

  abbrev plain : Result Error (Unit {0}) × Session → Result Error (Unit {0}) × Client
  plain (x, s) = (x, s.client)

  -- `Client.readinto`: the result, and the client and the buffer then.
  unfoldable pub readinto : ℕ → Buffer → Client → Result Error (Unit {0}) × Session
  unfolding run read_command
  readinto offset buf c =
      run (read_command c.counter offset buf c.structured_reply) []
        (record c { counter = suc c.counter })

  abbrev read_bytes : Result Error (Unit {0}) × Session → Result Error (List ℕ) × Client
  read_bytes (err e, s) = (err e, s.client)
  read_bytes (ok _, s) = elim s.cmd.buf [
    | none ↦ (ok [], s.client)
    | some buf ↦ (ok buf.bytes, s.client)
  ]

  -- `Client.read`, with a bytearray as the buffer.
  unfoldable pub read : ℕ → ℕ → Method (List ℕ)
  unfolding readinto
  read offset length c =
      read_bytes (readinto offset (record { bytes = replicate length 0; is_view = false }) c)

  -- `Client.write`
  unfoldable pub write : ℕ → List ℕ → Method (Unit {0})
  unfolding run write_command
  write offset bytes c = plain (
      run (write_command c.counter offset (length bytes)) bytes
        (record c { counter = suc c.counter }))

  -- The test of a transmission flag. Before the handshake the attribute is None.
  abbrev with_flag : Option ℕ → ℕ → Method (Unit {0}) → Method (Unit {0}) → Method (Unit {0})
  with_flag none flag without with = raise type_error
  with_flag (some flags) flag without with = if bit_and flags flag == 0 then without else with

  -- `Client.zero`
  unfoldable pub zero : ℕ → ℕ → Bool → Method (Unit {0})
  unfolding run write_zeroes_command
  zero offset length punch_hole c =
      with_flag c.transmission_flags 64 (raise unsupported_request)
        (λ c. plain (
          run (write_zeroes_command c.counter offset length (if punch_hole then 0 else 2)) []
            (record c { counter = suc c.counter })))
        c

  -- `Client.flush`
  unfoldable pub flush : Method (Unit {0})
  unfolding run flush_command
  flush c =
      with_flag c.transmission_flags 4 (pure tt)
        (λ c. plain (run (flush_command c.counter) [] (record c { counter = suc c.counter }))) c

  abbrev replied :
      Result Error (Unit {0}) × Session → Result Error (List (Name × List Extent)) × Client
  replied (err e, s) = (err e, s.client)
  replied (ok _, s) = elim s.cmd.reply [
    | none ↦ (ok [], s.client)
    | some reply ↦ (ok reply, s.client)
  ]

  -- `Client.extents`
  unfoldable pub extents : ℕ → ℕ → Method (List (Name × List Extent))
  unfolding run block_status_command
  extents offset length c =
      replied (
        run (block_status_command c.counter offset length) []
          (record c { counter = suc c.counter }))

-- OPTION.pack
abbrev pub option_header : ℕ → ℕ → List ℕ
option_header opt size = pack 8 0x49484156454F5054 ++ pack 4 opt ++ pack 4 size

-- `_send_option` of data that is shorter than 4 GiB.
unfoldable pub send_option : ℕ → List ℕ → Method (Unit {0})
unfolding pack
send_option opt bytes = sends (option_header opt (length bytes)) >> sends bytes

abbrev without_error : Result Error (Unit {0}) × Client → Client
without_error (x, c) = c

-- `_soft_disconnect` and `_hard_disconnect`: what fails while sending is logged. A closed socket has
-- nothing to receive.
abbrev shut : Client → Client
shut c = record c { state = closed; sock = record c.sock { incoming = [] } }

-- `Client.close`
unfoldable pub close : Client → Client
unfolding send_option send_command disc_command next_handle
close c = elim c.state [
  | connecting ↦ shut c
  | handshake ↦ shut (without_error (send_option 2 [] c))
  | transmission ↦
      shut (
        without_error
          (send_command (disc_command c.counter) (record c { counter = suc c.counter })))
  | closed ↦ c
]
