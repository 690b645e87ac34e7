-- ===== src/Nbd/Reply.antt =====
-- The replies of a server during transmission in ovirt_imageio/_internal/nbd.py: `_recv_reply` with the
-- handlers of the chunks of a structured reply.
--
-- A method that reads and writes attributes of the client and of the command is a function on both. The
-- socket is modelled with the bytes that the server will send; `serve` bounds what a call of its
-- `recv_into` stores. Text that the server sends is kept as bytes.
pub mod Recv
pub mod Server
pub mod Handlers
pub mod Chunks
pub mod Whole
pub mod Image
pub mod Ends
pub mod Finite
use Prim.Native.Nat.{bit_and}
use ovirt_imageio.Base.{
  ℕ, zero, suc, ◌+◌, ◌-◌, ◌*◌, ◌/◌, ◌%◌, ◌^◌, min, max, Bool, true, false, not, ◌&&◌, ◌||◌, Option,
  none, some, List, [], ◌∷◌, ◌++◌, leb, ltb, ◌==◌, if◌then◌else◌, length, take, drop, replicate,
}
use ovirt_imageio.Base.Exec.{
  Exec, Result, ok, err, pure, raise, raise_if, gets, modify, ◌>>=◌, ◌>>◌,
}
use ovirt_imageio.Backends.Memory.{overlay}
use ovirt_imageio.Nbd.Wire.{field}
use ovirt_imageio.Nbd.Sock.{Sock, received}
use ovirt_imageio.Nbd.Command.{Name, Buffer, ErrorAt, Command}
use ovirt_imageio.Nbd.Extents.{Extent, Context, alloc, depth, dirty, unpack}
use ovirt_imageio.Nbd.Client.{
  Client, Error, server_closed, protocol_error, invalid_length, unexpected_handle, unexpected_magic,
  reply_error, request_error, value_error, type_error, overflow_error, attribute_error, out_of_fuel,
  same_name, lookup, assign, recv,
}

abbrev pub simple_reply_magic : ℕ
simple_reply_magic = 0x67446698

abbrev pub structured_reply_magic : ℕ
structured_reply_magic = 0x668e33ef

-- MAX_LENGTH // 4096
abbrev pub max_extents : ℕ
max_extents = 1048575

-- "qemu:allocation-depth"
abbrev pub allocation_depth : Name
allocation_depth =
    113 ∷ 101 ∷ 109 ∷ 117 ∷ 58 ∷ 97 ∷ 108 ∷ 108 ∷ 111 ∷ 99 ∷ 97 ∷ 116 ∷ 105 ∷ 111 ∷ 110 ∷ 45 ∷ 100
    ∷ 101 ∷ 112 ∷ 116 ∷ 104 ∷ []

pub record Session : Type 0 where
  pub client : Client
  pub cmd : Command

abbrev pub Method : Type 0 → Type 0
Method A = Exec Error Session A

abbrev at_client : {A : Type 0} → Exec Error Client A → Method A
at_client m s = let (x, c) = m s.client in (x, record s { client = c })

abbrev set_bytes : Session → Buffer → List ℕ → Session
set_bytes s buf bytes = record s {
  cmd = record s.cmd { buf = some (record buf { bytes = bytes }) };
}

-- The index `a - b` of a slice of `size` items, which counts from the end if it is negative.
unfoldable pub slice_index : ℕ → ℕ → ℕ → ℕ
slice_index size a b = if leb b a then min (a - b) size else size - (b - a)

-- The flag of the last chunk.
abbrev pub is_done : ℕ → Bool
is_done flags = not (bit_and flags 1 == 0)

-- What a round of `_recv_reply` ends with: it returns, or the reply is complete, or there is more.
pub data Round : Type 0 where
  returned last_chunk more : Round

-- The end of `_recv_reply`.
abbrev pub raise_errors : List ErrorAt → Method (Unit {0})
raise_errors [] = pure tt
raise_errors (e ∷ es) = raise (request_error (e ∷ es))

abbrev pub after_round : Method (Unit {0}) → Round → Method (Unit {0})
after_round next returned = pure tt
after_round next last_chunk = do s ← gets (λ s. s); raise_errors s.cmd.errors
after_round next more = next

module _ (serve : ℕ → ℕ) where
  abbrev recv_bytes : ℕ → Method (List ℕ)
  recv_bytes n = at_client (recv serve n)

  -- `_recv_into` of the items from `start` on, which stops at `stop`. What came before the server
  -- closed the connection is stored too.
  unfoldable pub recv_slice : Buffer → ℕ → ℕ → Method (Unit {0})
  unfolding received
  recv_slice buf start stop s =
      let n : ℕ = stop - start in
      let (bytes, sock, ended) = received serve n n s.client.sock in
      let t = set_bytes s buf (overlay start bytes buf.bytes) in
      let after : Session = record t { client = record s.client { sock = sock } } in
      if ended
      then if length bytes == n then (ok tt, after) else (err server_closed, after)
      else (err out_of_fuel, after)

  abbrev pub recv_buffer : Option Buffer → Method (Unit {0})
  recv_buffer none = pure tt
  recv_buffer (some buf) = recv_slice buf 0 (length buf.bytes)

  -- `ReplyError.__init__`, for a code that is not in REPLY_ERRORS: `os.strerror` takes a signed integer
  -- of 32 bits. The codes in REPLY_ERRORS and their values are below 256.
  abbrev pub check_code : ℕ → Method (Unit {0})
  check_code code = raise_if (leb (2 ^ 31) code) overflow_error

  -- `_recv_simple_reply`
  unfoldable pub recv_simple_reply : Method (Unit {0})
  unfolding recv field recv_slice
  recv_simple_reply = do
    header ← recv_bytes 12
    cmd ← gets (λ s. s.cmd)
    (if field 0 4 header == 0
        then pure tt
        else (do check_code (field 0 4 header); raise (reply_error (field 0 4 header) [])))
    raise_if (not (field 4 8 header == cmd.handle))
        (unexpected_handle (field 4 8 header) cmd.handle)
    recv_buffer cmd.buf

  -- `_recv_error_chunk` of `length - extra` bytes.
  unfoldable pub recv_error_chunk : ℕ → ℕ → Method (ℕ × List ℕ)
  unfolding recv field
  recv_error_chunk length extra = do
    header ← recv_bytes 6
    raise_if (not (field 4 2 header + 6 + extra == length)) protocol_error
    message ← recv_bytes (field 4 2 header)
    pure (field 0 4 header, message)

  -- `_handle_error_chunk`
  unfoldable pub handle_error_chunk : ℕ → ℕ → Method (Unit {0})
  unfolding recv_error_chunk
  handle_error_chunk length flags = do
    chunk ← recv_error_chunk length 0
    (if is_done flags
        then (do check_code chunk.0; raise (reply_error chunk.0 chunk.1))
        else raise protocol_error)

  -- `_handle_error_offset_chunk`
  unfoldable pub handle_error_offset_chunk : ℕ → Method (Unit {0})
  unfolding recv_error_chunk recv field
  handle_error_offset_chunk length = do
    chunk ← recv_error_chunk length 8
    bytes ← recv_bytes 8
    check_code chunk.0
    let e : ErrorAt = record { offset = field 0 8 bytes; code = chunk.0; message = chunk.1 }
    modify (λ s. record s { cmd = record s.cmd { errors = s.cmd.errors ++ e ∷ [] } })

  -- `_handle_none_chunk`
  unfoldable pub handle_none_chunk : ℕ → ℕ → Method (Unit {0})
  handle_none_chunk flags length = do
    raise_if (not (is_done flags)) protocol_error
    raise_if (not (length == 0)) (invalid_length length 0)

  -- A slice of the buffer, from the difference of two offsets to another one.
  abbrev pub recv_data : Option Buffer → ℕ → ℕ → ℕ → Method (Unit {0})
  recv_data none chunk_offset size offset = raise type_error
  recv_data (some buf) chunk_offset size offset =
      recv_slice buf (slice_index (length buf.bytes) chunk_offset offset)
        (slice_index (length buf.bytes) (chunk_offset + size) (offset + 8))

  -- `_handle_data_chunk`
  unfoldable pub handle_data_chunk : ℕ → Method (Unit {0})
  unfolding recv field recv_slice slice_index
  handle_data_chunk length = do
    bytes ← recv_bytes 8
    cmd ← gets (λ s. s.cmd)
    recv_data cmd.buf (field 0 8 bytes) length cmd.offset

  -- The assignment of `size` zeros to a slice, which has to keep the size of a memoryview.
  abbrev pub zero_slice : Buffer → ℕ → ℕ → ℕ → Method (Unit {0})
  zero_slice buf start stop size =
      if buf.is_view && not (stop - start == size)
      then raise value_error
      else modify (λ s.
        set_bytes s buf
          (take start buf.bytes ++ replicate size 0 ++ drop (max start stop) buf.bytes))

  abbrev pub zero_data : Option Buffer → ℕ → ℕ → ℕ → Method (Unit {0})
  zero_data none chunk_offset size offset = raise type_error
  zero_data (some buf) chunk_offset size offset =
      zero_slice buf (slice_index (length buf.bytes) chunk_offset offset)
        (slice_index (length buf.bytes) (chunk_offset + size) offset) size

  -- `_handle_hole_chunk`
  unfoldable pub handle_hole_chunk : ℕ → Method (Unit {0})
  unfolding recv field slice_index
  handle_hole_chunk length = do
    raise_if (not (length == 12)) (invalid_length length 12)
    bytes ← recv_bytes 12
    raise_if (field 8 4 bytes == 0) protocol_error
    cmd ← gets (λ s. s.cmd)
    zero_data cmd.buf (field 0 8 bytes) (field 8 4 bytes) cmd.offset

  -- A descriptor in front of the others, with the test of its length on the minimum block size.
  abbrev pub joined : Bool → Extent → Result Error (List Extent) → Result Error (List Extent)
  joined false e rest = err protocol_error
  joined true e (ok es) = ok (e ∷ es)
  joined true e (err x) = err x

  abbrev pub checked : ℕ → Option Extent → Result Error (List Extent) → Result Error (List Extent)
  checked minimum_block_size none rest = err protocol_error
  checked minimum_block_size (some e) rest = joined (e.length % minimum_block_size == 0) e rest

  -- The descriptors in a buffer that was received. `count` is their number.
  unfoldable pub unpack_extents : ℕ → ℕ → Context → List ℕ → Result Error (List Extent)
  unfolding unpack field
  unpack_extents minimum_block_size zero context bytes = ok []
  unpack_extents minimum_block_size (suc count) context bytes =
      checked minimum_block_size (unpack context (field 0 4 bytes) (field 4 4 bytes))
        (unpack_extents minimum_block_size count context (drop 8 bytes))

  abbrev returns : {A : Type 0} → Result Error A → Method A
  returns x s = (x, s)

  -- `_recv_extents` with its consumer, the loop with `length` bytes left, received in buffers of
  -- `buf_size` bytes at most.
  unfoldable pub recv_extents : ℕ → ℕ → ℕ → Context → Method (List Extent)
  unfolding recv unpack_extents
  recv_extents zero buf_size length context s = (err out_of_fuel, s)
  recv_extents (suc fuel) buf_size length context s =
      let n = min length buf_size in
      let next =
        (do
          bytes ← recv_bytes n
          c ← gets (λ s. s.client)
          es ← returns (unpack_extents c.minimum_block_size (n / 8) context bytes)
          rest ← recv_extents fuel buf_size (length - n) context
          pure (es ++ rest))
          s in
      if length == 0 then (ok [], s) else next

  abbrev context_of : Option Name → Name → Context
  context_of (some d) name =
      if same_name name d then dirty else if same_name name allocation_depth then depth else alloc
  context_of none name = if same_name name allocation_depth then depth else alloc

  abbrev set_reply : Name → List Extent → Option (List (Name × List Extent)) → Method (Unit {0})
  set_reply name es none = raise attribute_error
  set_reply name es (some reply) =
      modify
        (λ s. record s { cmd = record s.cmd { reply = some (assign same_name name es reply) } })

  abbrev recv_context : ℕ → Option Name → Method (Unit {0})
  recv_context length none = raise protocol_error
  recv_context length (some name) = do
    c ← gets (λ s. s.client)
    es ←
        recv_extents (suc length) (min (length - 4) 8192) (length - 4)
          (context_of c.dirty_bitmap name)
    s ← gets (λ s. s)
    set_reply name es s.cmd.reply

  -- `_handle_block_status_chunk`
  unfoldable pub handle_block_status_chunk : ℕ → Method (Unit {0})
  unfolding recv_extents lookup assign recv field same_name
  handle_block_status_chunk length = do
    raise_if ((length / 8 == 0) || not (length % 8 == 4)) protocol_error
    raise_if (ltb max_extents (length / 8)) protocol_error
    bytes ← recv_bytes 4
    c ← gets (λ s. s.client)
    recv_context length (lookup (λ a b. a == b) (field 0 4 bytes) c.context_names)

  -- The choice of a handler in `_recv_reply_chunk`.
  unfoldable pub handle_chunk : ℕ → ℕ → ℕ → Method (Unit {0})
  unfolding handle_error_chunk handle_error_offset_chunk handle_none_chunk handle_data_chunk
      handle_hole_chunk handle_block_status_chunk
  handle_chunk type flags length =
      if type == 32769
      then handle_error_chunk length flags
      else if type == 32770
      then handle_error_offset_chunk length
      else if type == 0
      then handle_none_chunk flags length
      else if type == 1
      then handle_data_chunk length
      else if type == 2
      then handle_hole_chunk length
      else if type == 5
      then handle_block_status_chunk length
      else raise protocol_error

  -- `_recv_reply_chunk`
  unfoldable pub recv_reply_chunk : Method Bool
  unfolding handle_chunk recv field
  recv_reply_chunk = do
    header ← recv_bytes 16
    cmd ← gets (λ s. s.cmd)
    raise_if (not (field 4 8 header == cmd.handle))
        (unexpected_handle (field 4 8 header) cmd.handle)
    handle_chunk (field 2 2 header) (field 0 2 header) (field 12 4 header)
    pure (is_done (field 0 2 header))

  abbrev pub only_structured : Session → Session
  only_structured s = record s { cmd = record s.cmd { only_structured = true } }

  abbrev pub after_chunk : Bool → Method Round
  after_chunk last = pure (if last then last_chunk else more)

  -- A round that starts with the magic of a structured reply.
  abbrev pub structured_if : Bool → Method Round
  structured_if true s = (recv_reply_chunk >>= after_chunk) (only_structured s)
  structured_if false s = (err (unexpected_magic structured_reply_magic), s)

  -- The body of the loop.
  unfoldable pub reply_round : Method Round
  unfolding recv_reply_chunk recv_simple_reply recv field
  reply_round = do
    bytes ← recv_bytes 4
    s ← gets (λ s. s)
    (if field 0 4 bytes == simple_reply_magic
        then (do
          raise_if s.cmd.only_structured (unexpected_magic (field 0 4 bytes))
          recv_simple_reply
          pure returned)
        else if field 0 4 bytes == structured_reply_magic
        then structured_if s.client.structured_reply
        else raise (unexpected_magic (field 0 4 bytes)))

  -- `_recv_reply`. A round takes 4 bytes of the server at least, so that a fuel above their number is
  -- enough.
  unfoldable pub recv_reply : ℕ → Method (Unit {0})
  unfolding reply_round
  recv_reply zero s = (err out_of_fuel, s)
  recv_reply (suc fuel) s = (reply_round >>= after_round (recv_reply fuel)) s
