-- ===== src/Nbd/Command.antt =====
-- The commands of ovirt_imageio/_internal/nbd.py: `class Command` and its subclasses, with what the
-- reading of a reply stores in them.
--
-- A name is the list of its bytes in UTF-8, and a message the bytes that were received.
use ovirt_imageio.Base.{
  ℕ, ◌^◌, ◌&&◌, Bool, true, false, Option, none, some, List, [], ◌++◌, ltb, if◌then◌else◌, length,
}
use ovirt_imageio.Nbd.Wire.{pack}
use ovirt_imageio.Nbd.Extents.{Extent}

abbrev pub Name : Type 0
Name = List ℕ

-- The buffer of the caller: a memoryview keeps its size, a bytearray does not.
pub record Buffer : Type 0 where
  pub bytes : List ℕ
  pub is_view : Bool

-- An error chunk: its offset, its code and its message.
pub record ErrorAt : Type 0 where
  pub offset : ℕ
  pub code : ℕ
  pub message : List ℕ

-- `buf` is none but for a `Read`, and `reply` is none but for a `BlockStatus`.
pub record Command : Type 0 where
  pub type : ℕ
  pub handle : ℕ
  pub offset : ℕ
  pub length : ℕ
  pub flags : ℕ
  pub buf : Option Buffer
  pub only_structured : Bool
  pub errors : List ErrorAt
  pub reply : Option (List (Name × List Extent))

-- `Command.__init__`
unfoldable pub new_command : ℕ → ℕ → ℕ → ℕ → ℕ → Command
new_command type handle offset length flags = record {
  type = type;
  handle = handle;
  offset = offset;
  length = length;
  flags = flags;
  buf = none;
  only_structured = false;
  errors = [];
  reply = none;
}

unfoldable pub read_command : ℕ → ℕ → Buffer → Bool → Command
unfolding new_command
read_command handle offset buf only_structured =
    let c = new_command 0 handle offset (length buf.bytes) 0 in
    record c { buf = some buf; only_structured = only_structured }

unfoldable pub write_command : ℕ → ℕ → ℕ → Command
unfolding new_command
write_command handle offset length = new_command 1 handle offset length 0

unfoldable pub disc_command : ℕ → Command
unfolding new_command
disc_command handle = new_command 2 handle 0 0 0

unfoldable pub flush_command : ℕ → Command
unfolding new_command
flush_command handle = new_command 3 handle 0 0 0

unfoldable pub write_zeroes_command : ℕ → ℕ → ℕ → ℕ → Command
unfolding new_command
write_zeroes_command handle offset length flags = new_command 6 handle offset length flags

unfoldable pub block_status_command : ℕ → ℕ → ℕ → Command
unfolding new_command
block_status_command handle offset length =
    let c = new_command 7 handle offset length 0 in
    record c { only_structured = true; reply = some [] }

abbrev pub request_magic : ℕ
request_magic = 0x25609513

-- `Command.to_bytes`. `none` is the `struct.error` of a number that does not fit.
unfoldable pub to_bytes : Command → Option (List ℕ)
unfolding pack
to_bytes c =
    if ltb c.flags (256 ^ 2)
      && ltb c.type (256 ^ 2)
      && ltb c.handle (256 ^ 8)
      && ltb c.offset (256 ^ 8)
      && ltb c.length (256 ^ 4)
    then some (
        pack 4 request_magic
        ++ pack 2 c.flags
        ++ pack 2 c.type
        ++ pack 8 c.handle
        ++ pack 8 c.offset
        ++ pack 4 c.length)
    else none
