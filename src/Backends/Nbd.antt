-- ===== src/Backends/Nbd.antt =====
-- ovirt_imageio/_internal/backends/nbd.py: the backend on an NBD client, with the client of Nbd.Client.
--
-- A closed backend has a client whose use raises. Connecting again in `clone` is a parameter, the client
-- that it gives.
pub mod Served
use ovirt_imageio.Base.{
  ℕ, ◌+◌, ◌-◌, min, Bool, true, false, not, Option, none, some, List, [], ◌∷◌, leb, ltb, ◌==◌,
  if◌then◌else◌, length, take,
}
use ovirt_imageio.Base.Exec.{Exec, Result, ok, err}
use ovirt_imageio.Extent.{ZeroExtent, DirtyExtent}
use ovirt_imageio.Backends.Memory.{Mode, can_read, can_write}
use ovirt_imageio.Nbd.Command.{Buffer}
use ovirt_imageio.Nbd.Extents.{Extent, is_zero, is_hole, is_dirty}
use ovirt_imageio.Nbd.Client.{Client, Error, lookup, same_name, type_error, attribute_error}
use ovirt_imageio.Nbd.Reply.{Session}
use ovirt_imageio.Nbd.Handshake.{base_allocation}
use ovirt_imageio.Nbd.Requests as Requests

-- What the methods raise: `IOError` for the mode, or an exception of the client.
pub data Failure : Type 0 where
  unsupported_operation : Failure
  unsupported_extents : Failure
  failed : Error → Failure

pub record NbdBackend : Type 0 where
  pub client : Option Client
  pub mode : Mode
  pub sparse : Bool
  pub position : ℕ
  pub dirty : Bool
  pub max_connections : ℕ

-- `Backend.__init__` with a mode that is one of the three.
unfoldable pub init : Client → Mode → Bool → ℕ → NbdBackend
init client mode sparse max_connections = record {
  client = some client;
  mode = mode;
  sparse = sparse;
  position = 0;
  dirty = false;
  max_connections = max_connections;
}

-- `Backend.clone`, which does not pass `sparse` on.
unfoldable pub clone : Client → NbdBackend → NbdBackend
unfolding init
clone client b = init client b.mode false b.max_connections

abbrev Method : Type 0 → Type 0
Method A = Exec Failure NbdBackend A

abbrev with_client : NbdBackend → Client → NbdBackend
with_client b c = record b { client = some c }

-- A call of a method of the client.
abbrev called : {A : Type 0} → NbdBackend → Result Error A × Client → Result Failure A × NbdBackend
called b (ok a, c) = (ok a, with_client b c)
called b (err e, c) = (err (failed e), with_client b c)

abbrev call : {A : Type 0} → (Client → Result Error A × Client) → Option Client → Method A
call m none b = (err (failed attribute_error), b)
call m (some c) b = called b (m c)

abbrev pub bytes_of : Option Buffer → List ℕ
bytes_of none = []
bytes_of (some buf) = buf.bytes

-- What was read into a view, and the position after it.
abbrev pub finish_read :
    NbdBackend → ℕ → Result Error (Unit {0}) × Session → Result Failure (List ℕ) × NbdBackend
finish_read b n (err e, s) = (err (failed e), with_client b s.client)
finish_read b n (ok _, s) =
    (ok (bytes_of s.cmd.buf), record b { client = some s.client; position = b.position + n })

module _ (serve : ℕ → ℕ) where
  abbrev pub read_length : List ℕ → Client → Method (List ℕ)
  read_length view c b =
      if length view == 0
      then (ok [], b)
      else finish_read b (length view)
          (Requests.readinto serve b.position (record { bytes = view; is_view = true }) c)

  abbrev pub read_view : List ℕ → Client → Option ℕ → Method (List ℕ)
  read_view buf c none b = (err (failed type_error), b)
  read_view buf c (some size) b = read_length (take (min (length buf) (size - b.position)) buf) c b

  abbrev pub read_from : List ℕ → Option Client → Method (List ℕ)
  read_from buf none b = (err (failed attribute_error), b)
  read_from buf (some c) b = read_view buf c c.export_size b

  -- `readinto` with the bytes that the buffer has: the bytes of the part that was read.
  unfoldable pub readinto : List ℕ → Method (List ℕ)
  unfolding Requests.readinto
  readinto buf b =
      if can_read b.mode then read_from buf b.client b else (err unsupported_operation, b)

  abbrev advanced : ℕ → Result Failure (Unit {0}) × NbdBackend → Result Failure ℕ × NbdBackend
  advanced n (err e, b) = (err e, b)
  advanced n (ok _, b) = (ok n, record b { position = b.position + n; dirty = true })

  unfoldable pub write : List ℕ → Method ℕ
  unfolding Requests.write
  write bytes b =
      if can_write b.mode
      then advanced (length bytes) (call (Requests.write serve b.position bytes) b.client b)
      else (err unsupported_operation, b)

  unfoldable pub zero : ℕ → Method ℕ
  unfolding Requests.zero
  zero n b =
      if can_write b.mode
      then advanced n (call (Requests.zero serve b.position n b.sparse) b.client b)
      else (err unsupported_operation, b)

  abbrev clean : Result Failure (Unit {0}) × NbdBackend → Result Failure (Unit {0}) × NbdBackend
  clean (err e, b) = (err e, b)
  clean (ok _, b) = (ok tt, record b { dirty = false })

  unfoldable pub flush : Method (Unit {0})
  unfolding Requests.flush
  flush b = clean (call (Requests.flush serve) b.client b)

unfoldable pub tell : Method ℕ
tell b = (ok b.position, b)

unfoldable pub seek : ℕ → Method ℕ
seek n b = (ok n, record b { position = n })

unfoldable pub close : NbdBackend → NbdBackend
close b = elim b.client [ none ↦ b | some c ↦ record b { client = none } ]

unfoldable pub block_size : NbdBackend → Option ℕ
block_size b = elim b.client [ none ↦ none | some c ↦ some c.minimum_block_size ]

-- The extents that `nbdutil.extents` yields, in the words of the backend.
unfoldable pub zero_extents : ℕ → List Extent → List ZeroExtent
unfolding is_zero is_hole
zero_extents start [] = []
zero_extents start (e ∷ es) =
    record { start = start; length = e.length; zero = is_zero e; hole = some (is_hole e) }
    ∷ zero_extents (start + e.length) es

unfoldable pub dirty_extents : ℕ → List Extent → List DirtyExtent
unfolding is_zero is_dirty
dirty_extents start [] = []
dirty_extents start (e ∷ es) =
    record { start = start; length = e.length; dirty = is_dirty e; zero = is_zero e }
    ∷ dirty_extents (start + e.length) es

-- The contexts of `extents`: "zero", "dirty" and any other one.
pub data Context : Type 0 where
  zero_context dirty_context other_context : Context

pub data Extents : Type 0 where
  zeroes : List ZeroExtent → Extents
  dirties : List DirtyExtent → Extents

-- "If server does not support base:allocation": one data extent. The handshake has set the size.
abbrev pub zero_or_data : Bool → ℕ → List Extent → Extents
zero_or_data true size es = zeroes (zero_extents 0 es)
zero_or_data false size es =
    zeroes (record { start = 0; length = size; zero = false; hole = some false } ∷ [])

abbrev known_context : Client → Bool
known_context c = elim (lookup same_name base_allocation c.context_ids) [
  | none ↦ false
  | some id ↦ true
]

abbrev pub list_extents :
    (Client → Bool → List Extent) → Context → Client → ℕ → Result Failure Extents
list_extents scan zero_context c size = ok (zero_or_data (known_context c) size (scan c false))
list_extents scan dirty_context c size = elim c.dirty_bitmap [
  | none ↦ err unsupported_extents
  | some bitmap ↦ ok (dirties (dirty_extents 0 (scan c true)))
]
list_extents scan other_context c size = err unsupported_extents

abbrev with_size : Option ℕ → (ℕ → Result Failure Extents) → Result Failure Extents
with_size none f = err (failed attribute_error)
with_size (some size) f = f size

-- `Backend.extents` as the list of what it yields. `scan` is the list that `nbdutil.extents` yields for a
-- client that has had its handshake.
unfoldable pub extents : (Client → Bool → List Extent) → Context → Client → Result Failure Extents
unfolding zero_extents dirty_extents lookup same_name
extents scan context c = with_size c.export_size (list_extents scan context c)
