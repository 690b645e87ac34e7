-- ===== src/Nbd/Reply/Chunks.antt =====
-- A round of `_recv_reply` of ovirt_imageio/_internal/nbd.py on a chunk of a structured reply.
use ovirt_imageio.Base.{
  ℕ, ◌^◌, ◌<◌, ◌≡◌, refl, ap, sym, ◌∙◌, Bool, true, false, some, List, [], ◌∷◌, ◌++◌, arith,
  if◌then◌else◌, length, append-nil, append_assoc, ==_iff,
}
use ovirt_imageio.Base.Exec.{ok, then_by}
use ovirt_imageio.Nbd.Wire.{pack, field, length-pack, number-pack}
use ovirt_imageio.Nbd.Sock.{Sock}
use ovirt_imageio.Nbd.Command.{Buffer, ErrorAt}
use ovirt_imageio.Nbd.Reply.{
  Session, last_chunk, more, handle_chunk, recv_reply_chunk, reply_round, structured_reply_magic,
  is_done, only_structured, after_chunk, structured_if,
}
use ovirt_imageio.Nbd.Reply.Recv.{recv_lem, with_sock}
use ovirt_imageio.Nbd.Reply.Handlers.{
  data_chunk_lem, hole_chunk_lem, error_chunk_lem, none_chunk_lem, put,
}
use ovirt_imageio.Nbd.Reply.Server.{
  Chunk, data_chunk, hole_chunk, error_chunk, none_chunk, type_of, payload, size_of, header, encode,
  Fits, filled, failed,
}

-- The flags of a chunk.
abbrev pub flag : Bool → ℕ
flag true = 1
flag false = 0

-- The session once a chunk was received.
abbrev pub after : Session → Sock → Buffer → Chunk → Session
after s sock buf chunk = record s {
  client = with_sock s.client sock;
  cmd = record s.cmd {
    buf = some (record buf { bytes = filled s.cmd.offset chunk buf.bytes });
    errors = s.cmd.errors ++ failed chunk;
  };
}

-- The socket once the server's next bytes are `rest`, with nothing sent.
pub record IsLeft (s : Session) (rest : List ℕ) (sock : Sock) : Type 0 where
  pub left : sock.incoming ≡ rest
  pub same : sock.sent ≡ s.client.sock.sent

put-after :
    (s : Session) (sock : Sock) (buf : Buffer) (chunk : Chunk)
    → failed chunk ≡ []
    → put s sock buf (filled s.cmd.offset chunk buf.bytes) ≡ after s sock buf chunk
put-after s sock buf chunk e =
    ap
      (λ es. record s {
        client = with_sock s.client sock;
        cmd = record s.cmd {
          buf = some (record buf { bytes = filled s.cmd.offset chunk buf.bytes });
          errors = es;
        };
      })
      (sym (append-nil s.cmd.errors) ∙ ap (λ es. s.cmd.errors ++ es) (sym e))

same_buf :
    (s : Session) (sock : Sock) (buf : Buffer) (errors : List ErrorAt)
    → s.cmd.buf ≡ some buf
    → record s { client = with_sock s.client sock; cmd = record s.cmd { errors = errors } }
      ≡ record s {
        client = with_sock s.client sock;
        cmd = record s.cmd { buf = some buf; errors = errors };
      }
same_buf s sock buf errors has =
    ap
      (λ b. record s {
        client = with_sock s.client sock;
        cmd = record s.cmd { buf = b; errors = errors };
      })
      has

-- A chunk that fits is as large as its header says.
size_lem :
    (offset size : ℕ) (last : Bool) (chunk : Chunk)
    → Fits offset size last chunk
    → size_of chunk < 256 ^ 4
unfolding size_of Fits
size_lem offset size last (data_chunk at bytes) (_, _, _, fits) = fits
size_lem offset size last (hole_chunk at count) fits = omega arith
size_lem offset size last (error_chunk e) (_, _, short) = omega (arith, short)
size_lem offset size true none_chunk fits = omega arith
size_lem offset size false none_chunk fits = absurd fits

module _ (serve : ℕ → ℕ) (serves : (k : ℕ) → 0 < serve k) where
  handle_chunk_lem :
      (chunk : Chunk) (last : Bool) (buf : Buffer) (rest : List ℕ) (s : Session)
      → s.client.sock.incoming ≡ payload chunk ++ rest
      → s.cmd.buf ≡ some buf
      → Fits s.cmd.offset (length buf.bytes) last chunk
      → (sock : Sock) × (handle_chunk serve (type_of chunk) (flag last) (size_of chunk) s
          ≡ (ok tt, after s sock buf chunk))
        × IsLeft s rest sock
  unfolding handle_chunk type_of size_of payload Fits filled failed
  handle_chunk_lem (data_chunk at bytes) last buf rest s e has (fits, low, high, _) =
      let (sock, got, left, same) =
        data_chunk_lem serve serves buf at bytes rest s (e ∙ append_assoc (pack 8 at) bytes rest)
          has fits low high in
      (
        sock,
        got ∙ ap (λ t. (ok tt, t)) (put-after s sock buf (data_chunk at bytes) refl),
        record { left = left; same = same },
      )
  handle_chunk_lem (hole_chunk at count) last buf rest s e has
        (fits, low, high, some_bytes, small) =
      let (sock, got, left, same) =
        hole_chunk_lem serve serves buf at count rest s e has fits low high some_bytes small in
      (
        sock,
        got ∙ ap (λ t. (ok tt, t)) (put-after s sock buf (hole_chunk at count) refl),
        record { left = left; same = same },
      )
  handle_chunk_lem (error_chunk x) last buf rest s e has (fits, fits', short) =
      let front = pack 4 x.code ++ pack 2 (length x.message) in
      let (sock, got, left, same) =
        error_chunk_lem serve serves x rest s
          (e
            ∙ append_assoc (front ++ x.message) (pack 8 x.offset) rest
            ∙ append_assoc front x.message (pack 8 x.offset ++ rest))
          fits fits' short in
      (
        sock,
        got ∙ ap (λ t. (ok tt, t)) (same_buf s sock buf (s.cmd.errors ++ x ∷ []) has),
        record { left = left; same = same },
      )
  handle_chunk_lem none_chunk true buf rest s e has fits = (
    s.client.sock,
    none_chunk_lem serve serves s
        ∙ ap (λ es. (ok tt, record s { cmd = record s.cmd { errors = es } }))
            (sym (append-nil s.cmd.errors))
        ∙ ap (λ t. (ok tt, t)) (same_buf s s.client.sock buf (s.cmd.errors ++ []) has),
    record { left = e; same = refl },
  )
  handle_chunk_lem none_chunk false buf rest s e has fits = absurd fits

abbrev HeaderIs : List ℕ → ℕ → ℕ → ℕ → ℕ → Type 0
HeaderIs h flags type handle size =
    (length h ≡ 16)
    × (field 0 2 h ≡ flags)
    × (field 2 2 h ≡ type)
    × (field 4 8 h ≡ handle)
    × (field 12 4 h ≡ size)

header_fields :
    (flags type handle size : ℕ)
    → flags < 256 ^ 2
    → type < 256 ^ 2
    → handle < 256 ^ 8
    → size < 256 ^ 4
    → HeaderIs (pack 2 flags ++ pack 2 type ++ pack 8 handle ++ pack 4 size) flags type handle size
unfolding pack field
header_fields flags type handle size a b c d = (
  refl,
  number-pack 2 flags a,
  number-pack 2 type b,
  number-pack 8 handle c,
  number-pack 4 size d,
)

type_bound : (chunk : Chunk) → type_of chunk < 256 ^ 2
unfolding type_of
type_bound (data_chunk at bytes) = omega arith
type_bound (hole_chunk at count) = omega arith
type_bound (error_chunk e) = omega arith
type_bound none_chunk = omega arith

header_lem :
    (handle : ℕ) (last : Bool) (chunk : Chunk)
    → handle < 256 ^ 8
    → size_of chunk < 256 ^ 4
    → HeaderIs (header handle (flag last) chunk) (flag last) (type_of chunk) handle (size_of chunk)
unfolding header
header_lem handle true chunk fits small =
    header_fields 1 (type_of chunk) handle (size_of chunk) (omega arith) (type_bound chunk) fits
      small
header_lem handle false chunk fits small =
    header_fields 0 (type_of chunk) handle (size_of chunk) (omega arith) (type_bound chunk) fits
      small

magic_field : field 0 4 (pack 4 structured_reply_magic) ≡ structured_reply_magic
unfolding pack field
magic_field = refl

done_flag : (last : Bool) → is_done (flag last) ≡ last
done_flag true = refl
done_flag false = refl

module _ (serve : ℕ → ℕ) (serves : (k : ℕ) → 0 < serve k) where
  recv_chunk_lem :
      (chunk : Chunk) (last : Bool) (buf : Buffer) (rest : List ℕ) (s : Session)
      → s.client.sock.incoming ≡ header s.cmd.handle (flag last) chunk ++ payload chunk ++ rest
      → s.cmd.buf ≡ some buf
      → s.cmd.handle < 256 ^ 8
      → Fits s.cmd.offset (length buf.bytes) last chunk
      → (sock : Sock) × (recv_reply_chunk serve s ≡ (ok last, after s sock buf chunk))
        × IsLeft s rest sock
  unfolding recv_reply_chunk
  recv_chunk_lem chunk last buf rest s e has small fits =
      let head = header s.cmd.handle (flag last) chunk in
      let (size, flags, type, handle, count) =
        header_lem s.cmd.handle last chunk small
          (size_lem s.cmd.offset (length buf.bytes) last chunk fits) in
      let (sock, got, left, same) =
        recv_lem serve serves 16 head (payload chunk ++ rest) s.client
          (e ∙ append_assoc head (payload chunk) rest) size in
      let t : Session = record s { client = with_sock s.client sock } in
      let (sock', handled, left') =
        handle_chunk_lem serve serves chunk last buf rest t left has fits in
      let mine = (==_iff s.cmd.handle s.cmd.handle).1 refl in
      (
        sock',
        rw (got, flags, type, handle, count, mine, handled)
            (ap (λ b. (ok b, after s sock' buf chunk)) (done_flag last)),
        record { left = left'.left; same = left'.same ∙ same },
      )

  pub round_lem :
      (chunk : Chunk) (last : Bool) (buf : Buffer) (rest : List ℕ) (s : Session)
      → s.client.sock.incoming ≡ encode s.cmd.handle (flag last) chunk ++ rest
      → s.cmd.buf ≡ some buf
      → s.cmd.handle < 256 ^ 8
      → s.client.structured_reply ≡ true
      → Fits s.cmd.offset (length buf.bytes) last chunk
      → (sock : Sock) × (reply_round serve s ≡ (
        (ok (if last then last_chunk else more)),
        after (only_structured serve s) sock buf chunk,
      ))
        × IsLeft s rest sock
  unfolding reply_round encode
  round_lem chunk last buf rest s e has small negotiated fits =
      let magic = pack 4 structured_reply_magic in
      let head = header s.cmd.handle (flag last) chunk in
      let (sock, got, left, same) =
        recv_lem serve serves 4 magic (head ++ payload chunk ++ rest) s.client
          (e
            ∙ ap (λ xs. xs ++ rest) (append_assoc magic head (payload chunk))
            ∙ append_assoc magic (head ++ payload chunk) rest)
          (length-pack 4 structured_reply_magic) in
      let t : Session = only_structured serve (record s { client = with_sock s.client sock }) in
      let (sock', chunked, left') = recv_chunk_lem chunk last buf rest t left has small fits in
      let value : field 0 4 magic ≡ structured_reply_magic = magic_field in
      (
        sock',
        rw (got, value)
            (ap (λ b. structured_if serve b (record s { client = with_sock s.client sock }))
                negotiated
              ∙ then_by (after_chunk serve) chunked),
        record { left = left'.left; same = left'.same ∙ same },
      )
