-- ===== src/Tests/Nbd.antt =====
-- The NBD client at the replies of a small server, which arrive three bytes at a time.
use ovirt_imageio.Base.{
  ℕ, zero, suc, ◌+◌, ◌<◌, ◌≡◌, ◌≢◌, refl, Bool, true, false, ◌||◌, none, some, List, [], ◌∷◌, ◌++◌,
  arith, ◌==◌, if◌then◌else◌,
}
use ovirt_imageio.Base.Bytes.{byte_at}
use ovirt_imageio.Base.Exec.{ok, err, ◌>>◌}
use ovirt_imageio.Backends.Memory.{read_write}
use ovirt_imageio.Backends.Nbd.{NbdBackend, readinto}
use ovirt_imageio.Backends.Nbd.Served.{IsServed, readinto-IsServed}
use ovirt_imageio.Nbd.Wire.{pack}
use ovirt_imageio.Nbd.Sock.{Sock, send}
use ovirt_imageio.Nbd.Command.{read_command, Buffer}
use ovirt_imageio.Nbd.Client.{Client, new_client, transmission, out_of_fuel}
use ovirt_imageio.Nbd.Reply.{Session, recv_reply}
use ovirt_imageio.Nbd.Reply.Server.{
  Chunk, data_chunk, hole_chunk, error_chunk, none_chunk, encode_all, failed, failed_all, Fits,
  AllFit,
}
use ovirt_imageio.Nbd.Reply.Finite.{recv_reply_finite}
use ovirt_imageio.Nbd.Requests as Requests
use ovirt_imageio.Nbd.Reply.Image.{covers, covers_all, Agrees, AllAgree}
use ovirt_imageio.Nbd.Requests.Reads.{IsRead, raised, readinto_lem}
use ovirt_imageio.Nbd.Handshake.{newstyle_handshake, greet, options}
use ovirt_imageio.Nbd.Handshake.Server.{
  Info, export, block_size, encode, AllFit as AllFitInfos, told_all,
}
use ovirt_imageio.Nbd.Handshake.Sized.{request, newstyle_handshake_sized}

abbrev three : ℕ → ℕ
three k = 3

three-pos : (k : ℕ) → 0 < three k
three-pos k = omega arith

-- Two bytes, a hole of three, and a part that the server cannot read.
abbrev chunks : List Chunk
chunks =
    data_chunk 100 (7 ∷ 8 ∷ [])
    ∷ hole_chunk 102 3
    ∷ error_chunk (record { offset = 105; code = 5; message = 69 ∷ [] })
    ∷ []

abbrev image : ℕ → ℕ
image i = if i == 100 then 7 else if i == 101 then 8 else 0

agrees : (j : ℕ) → j < 2 → byte_at (7 ∷ 8 ∷ []) j ≡ image (100 + j)
agrees zero lt = refl
agrees (suc zero) lt = refl
agrees (suc (suc j)) lt = absurd (omega arith)

hole : (j : ℕ) → j < 3 → 0 ≡ image (102 + j)
hole j lt = ground arith

abbrev ready : List ℕ → Client
ready bytes = record {
  sock = record { incoming = bytes; calls = 0; sent = [] };
  state = transmission;
  export_name = [];
  export_size = some 105;
  transmission_flags = some 1;
  minimum_block_size = 1;
  preferred_block_size = 4096;
  maximum_block_size = 33554432;
  dirty_bitmap = none;
  structured_reply = true;
  context_ids = [];
  context_names = [];
  counter = 6;
}

abbrev target : Buffer
target = record { bytes = 1 ∷ 1 ∷ 1 ∷ 1 ∷ 1 ∷ 1 ∷ []; is_view = true }

abbrev client : Client
client = ready (encode_all 6 chunks none_chunk ++ 9 ∷ [])

fit : AllFit 100 6 chunks
unfolding AllFit
fit = (
  (omega arith, omega arith, omega arith, omega arith),
  (
    (omega arith, omega arith, omega arith, omega arith, omega arith),
    ((omega arith, omega arith, omega arith), tt),
  ),
)

agree : AllAgree image chunks
unfolding AllAgree
agree = (agrees, (hole, (tt, tt)))

none-Fits : Fits 100 6 true none_chunk
unfolding Fits
none-Fits = tt

none-Agrees : Agrees image none_chunk
unfolding Agrees
none-Agrees = tt

readinto_lem_example :
    (t : Session) × (Requests.readinto three 100 target client
      ≡ (raised (failed_all chunks ++ failed none_chunk), t))
    × IsRead three three-pos 100 target client image chunks none_chunk (9 ∷ []) t
readinto_lem_example =
    readinto_lem three three-pos 100 target client image chunks none_chunk (9 ∷ []) (omega arith)
      (omega arith) (omega arith) refl refl fit none-Fits agree none-Agrees

-- The server closes the connection in the middle of a magic number.
abbrev broken : Session
unfolding read_command
broken = record { client = ready (1 ∷ 2 ∷ 3 ∷ []); cmd = read_command 6 100 target true }

recv_reply_finite_example : (recv_reply three 4 broken).0 ≢ err out_of_fuel
unfolding broken
recv_reply_finite_example = recv_reply_finite three 4 broken (omega arith)

-- The export of 105 bytes is read up to its end.
abbrev good_chunks : List Chunk
good_chunks = data_chunk 100 (7 ∷ 8 ∷ []) ∷ []

abbrev good_client : Client
good_client = ready (encode_all 6 good_chunks (hole_chunk 102 3) ++ [])

abbrev backend : NbdBackend
backend = record {
  client = some good_client;
  mode = read_write;
  sparse = false;
  position = 100;
  dirty = false;
  max_connections = 8;
}

read_bytes : (readinto three (1 ∷ 1 ∷ 1 ∷ 1 ∷ 1 ∷ 1 ∷ []) backend).0 ≡ ok (7 ∷ 8 ∷ 0 ∷ 0 ∷ 0 ∷ [])
unfolding readinto encode_all send
read_bytes = refl

good_fit : AllFit 100 5 good_chunks
unfolding AllFit
good_fit = ((omega arith, omega arith, omega arith, omega arith), tt)

good_end : Fits 100 5 true (hole_chunk 102 3)
unfolding Fits
good_end = (omega arith, omega arith, omega arith, omega arith, omega arith)

good_agree : AllAgree image good_chunks
unfolding AllAgree
good_agree = (agrees, tt)

hole-Agrees : Agrees image (hole_chunk 102 3)
unfolding Agrees
hole-Agrees = hole

no_errors : failed_all good_chunks ++ failed (hole_chunk 102 3) ≡ []
unfolding failed_all
no_errors = refl

all_covered :
    (i : ℕ)
    → i < 5
    → (covers (hole_chunk 102 3) (100 + i) || covers_all good_chunks (100 + i)) ≡ true
unfolding covers_all
all_covered zero lt = refl
all_covered (suc zero) lt = refl
all_covered (suc (suc i)) lt = ground arith

readinto-IsServed_example :
    (bytes : List ℕ) × (t : NbdBackend) × (readinto three (1 ∷ 1 ∷ 1 ∷ 1 ∷ 1 ∷ 1 ∷ []) backend
      ≡ (ok bytes, t))
    × IsServed image [] 5 backend bytes t
readinto-IsServed_example =
    readinto-IsServed three three-pos backend good_client 105 (1 ∷ 1 ∷ 1 ∷ 1 ∷ 1 ∷ 1 ∷ []) image
      good_chunks (hole_chunk 102 3) [] refl refl refl (omega arith) (omega arith) (omega arith)
      (omega arith) refl refl good_fit good_end good_agree hole-Agrees no_errors all_covered

-- A server that has structured replies and no contexts, and an export of 105 bytes.
abbrev reply : ℕ → ℕ → ℕ → List ℕ
reply opt type size = pack 8 0x3e889045565a9 ++ pack 4 opt ++ pack 4 type ++ pack 4 size

-- The size of the export comes behind its block sizes.
abbrev infos : List Info
infos = block_size 1 4096 33554432 ∷ export 105 1 ∷ []

abbrev greeting : List ℕ
greeting =
    (pack 8 0x4e42444d41474943 ++ pack 8 0x49484156454F5054 ++ pack 2 1)
    ++ reply 8 1 0
    ++ reply 10 1 0

abbrev connecting_client : Client
unfolding new_client
connecting_client =
    new_client (record { incoming = greeting ++ encode infos ++ []; calls = 0; sent = [] }) []

abbrev all_text : List ℕ → Bool
all_text bytes = true

greeted : Client
unfolding newstyle_handshake
greeted = ((greet three all_text >> options three all_text false) connecting_client).1

greeted-ok :
    (greet three all_text >> options three all_text false) connecting_client ≡ (ok tt, greeted)
unfolding newstyle_handshake greeted connecting_client send encode
greeted-ok = refl

greeted_incoming : greeted.sock.incoming ≡ encode infos ++ []
unfolding newstyle_handshake greeted connecting_client send encode
greeted_incoming = refl

infos-AllFit : AllFitInfos infos
unfolding AllFitInfos
infos-AllFit = ((omega arith, omega arith, omega arith), ((omega arith, omega arith), tt))

told_size :
    ((told_all infos greeted).export_size ≡ some 105)
    × ((told_all infos greeted).transmission_flags ≡ some 1)
unfolding told_all
told_size = (refl, refl)

newstyle_handshake_sized_example :
    (sock : Sock) × (newstyle_handshake three all_text false connecting_client
      ≡ (ok tt, record (told_all infos greeted) { sock = sock; state = transmission }))
    × (sock.incoming ≡ [])
    × (sock.sent ≡ greeted.sock.sent ++ request three three-pos all_text greeted)
newstyle_handshake_sized_example =
    newstyle_handshake_sized three three-pos all_text false infos [] 105 1 connecting_client greeted
      greeted-ok greeted_incoming infos-AllFit told_size.0 told_size.1
