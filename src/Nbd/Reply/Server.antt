-- ===== src/Nbd/Reply/Server.antt =====
-- The structured replies that a server may send to a read, in the words of the NBD protocol, and the
-- buffer and the errors that they stand for.
use ovirt_imageio.Base.{
  ℕ, ◌+◌, ◌-◌, ◌^◌, ◌≤◌, ◌<◌, List, [], ◌∷◌, ◌++◌, length, replicate, Bool, true, false,
}
use ovirt_imageio.Backends.Memory.{overlay}
use ovirt_imageio.Nbd.Wire.{pack}
use ovirt_imageio.Nbd.Command.{ErrorAt}
use ovirt_imageio.Nbd.Reply.{structured_reply_magic}

-- The chunks of types 1, 2, 32770 and 0.
pub data Chunk : Type 0 where
  data_chunk : ℕ → List ℕ → Chunk
  hole_chunk : ℕ → ℕ → Chunk
  error_chunk : ErrorAt → Chunk
  none_chunk : Chunk

unfoldable pub type_of : Chunk → ℕ
type_of (data_chunk offset bytes) = 1
type_of (hole_chunk offset size) = 2
type_of (error_chunk e) = 32770
type_of none_chunk = 0

unfoldable pub payload : Chunk → List ℕ
payload (data_chunk offset bytes) = pack 8 offset ++ bytes
payload (hole_chunk offset size) = pack 8 offset ++ pack 4 size
payload (error_chunk e) =
    (pack 4 e.code ++ pack 2 (length e.message)) ++ e.message ++ pack 8 e.offset
payload none_chunk = []

-- The size of the payload.
unfoldable pub size_of : Chunk → ℕ
size_of (data_chunk offset bytes) = length bytes + 8
size_of (hole_chunk offset size) = 12
size_of (error_chunk e) = length e.message + 6 + 8
size_of none_chunk = 0

unfoldable pub header : ℕ → ℕ → Chunk → List ℕ
unfolding type_of size_of
header handle flags chunk =
    pack 2 flags ++ pack 2 (type_of chunk) ++ pack 8 handle ++ pack 4 (size_of chunk)

unfoldable pub encode : ℕ → ℕ → Chunk → List ℕ
unfolding header payload
encode handle flags chunk =
    pack 4 structured_reply_magic ++ header handle flags chunk ++ payload chunk

-- The chunks of a reply to a command, of which the last one has the flag for that.
unfoldable pub encode_all : ℕ → List Chunk → Chunk → List ℕ
unfolding encode
encode_all handle [] end = encode handle 1 end
encode_all handle (chunk ∷ chunks) end = encode handle 0 chunk ++ encode_all handle chunks end

-- What the protocol asks of a chunk of the reply to a read of `size` bytes from `offset` on. Only the
-- last chunk may be empty. The code of an error is below 2 ^ 31; the client does not take another one.
unfoldable pub Fits : ℕ → ℕ → Bool → Chunk → Type 0
Fits offset size last (data_chunk at bytes) =
    (at < 256 ^ 8)
    × (offset ≤ at)
    × (at + length bytes ≤ offset + size)
    × (length bytes + 8 < 256 ^ 4)
Fits offset size last (hole_chunk at count) =
    (at < 256 ^ 8) × (offset ≤ at) × (at + count ≤ offset + size) × (0 < count) × (count < 256 ^ 4)
Fits offset size last (error_chunk e) =
    (e.offset < 256 ^ 8) × (e.code < 2 ^ 31) × (length e.message < 256 ^ 2)
Fits offset size true none_chunk = Unit
Fits offset size false none_chunk = ⊥

unfoldable pub AllFit : ℕ → ℕ → List Chunk → Type 0
unfolding Fits
AllFit offset size [] = Unit
AllFit offset size (chunk ∷ chunks) = Fits offset size false chunk × AllFit offset size chunks

-- The buffer of a read from `offset` on with a chunk.
unfoldable pub filled : ℕ → Chunk → List ℕ → List ℕ
filled offset (data_chunk at bytes) buf = overlay (at - offset) bytes buf
filled offset (hole_chunk at count) buf = overlay (at - offset) (replicate count 0) buf
filled offset (error_chunk e) buf = buf
filled offset none_chunk buf = buf

unfoldable pub failed : Chunk → List ErrorAt
failed (data_chunk at bytes) = []
failed (hole_chunk at count) = []
failed (error_chunk e) = e ∷ []
failed none_chunk = []

unfoldable pub filled_all : ℕ → List Chunk → List ℕ → List ℕ
unfolding filled
filled_all offset [] buf = buf
filled_all offset (chunk ∷ chunks) buf = filled_all offset chunks (filled offset chunk buf)

unfoldable pub failed_all : List Chunk → List ErrorAt
unfolding failed
failed_all [] = []
failed_all (chunk ∷ chunks) = failed chunk ++ failed_all chunks
