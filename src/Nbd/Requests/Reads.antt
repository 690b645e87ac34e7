-- ===== src/Nbd/Requests/Reads.antt =====
-- `Client.readinto` of ovirt_imageio/_internal/nbd.py against a server that sends a structured reply.
use ovirt_imageio.Base.{
  ℕ, suc, ◌+◌, ◌^◌, ◌<◌, ◌≡◌, refl, ap, sym, subst, ◌∙◌, true, ◌||◌, some, List, [], ◌∷◌, ◌++◌,
  arith, ltb, if◌then◌else◌, length, length-append, append-nil, ◌↔◌,
}
use ovirt_imageio.Base.Bytes.{byte_at}
use ovirt_imageio.Base.Exec.{Result, ok, err}
use ovirt_imageio.Nbd.Wire.{pack}
use ovirt_imageio.Nbd.Sock.{Sock, send}
use ovirt_imageio.Nbd.Command.{Buffer, Command, ErrorAt, read_command, to_bytes, request_magic}
use ovirt_imageio.Nbd.Client.{Client, Error, request_error}
use ovirt_imageio.Nbd.Reply.{Session}
use ovirt_imageio.Nbd.Reply.Recv.{with_sock}
use ovirt_imageio.Nbd.Reply.Chunks.{IsLeft}
use ovirt_imageio.Nbd.Reply.Whole.{outcome, recv_reply_lem, length-filled}
use ovirt_imageio.Nbd.Reply.Server.{
  Chunk, encode, encode_all, header, Fits, AllFit, filled, filled_all, failed, failed_all,
}
use ovirt_imageio.Nbd.Requests.{readinto, run, recv_for, send_command}
use ovirt_imageio.Nbd.Reply.Image.{
  covers, covers_all, Agrees, AllAgree, filled_byte, filled_all_byte, length-filled_all,
}

-- The bytes of a command that `struct` packs.
abbrev pub request : Command → List ℕ
request c =
    pack 4 request_magic
    ++ pack 2 c.flags
    ++ pack 2 c.type
    ++ pack 8 c.handle
    ++ pack 8 c.offset
    ++ pack 4 c.length

ltb_iff : (a b : ℕ) → (ltb a b ≡ true) ↔ (a < b)
ltb_iff a b = ground arith

to_bytes_lem :
    (c : Command)
    → c.flags < 256 ^ 2
    → c.type < 256 ^ 2
    → c.handle < 256 ^ 8
    → c.offset < 256 ^ 8
    → c.length < 256 ^ 4
    → to_bytes c ≡ some (request c)
unfolding to_bytes
to_bytes_lem c a b d e f =
    rw
      (
        (ltb_iff c.flags (256 ^ 2)).1 a,
        (ltb_iff c.type (256 ^ 2)).1 b,
        (ltb_iff c.handle (256 ^ 8)).1 d,
        (ltb_iff c.offset (256 ^ 8)).1 e,
        (ltb_iff c.length (256 ^ 4)).1 f,
      )
      refl

encode-cons : (handle flags : ℕ) (chunk : Chunk) → 0 < length (encode handle flags chunk)
unfolding encode header pack
encode-cons handle flags chunk = omega arith

encode_all-length :
    (handle : ℕ) (chunks : List Chunk) (end : Chunk)
    → length chunks < length (encode_all handle chunks end)
unfolding encode_all
encode_all-length handle [] end = encode-cons handle 1 end
encode_all-length handle (chunk ∷ chunks) end = omega (
  arith,
  encode_all-length handle chunks end,
  encode-cons handle 0 chunk,
  length-append (encode handle 0 chunk) (encode_all handle chunks end),
)

-- The result of `readinto` for the error chunks.
unfoldable pub raised : List ErrorAt → Result Error (Unit {0})
raised [] = ok tt
raised (e ∷ es) = err (request_error (e ∷ es))

module _ (serve : ℕ → ℕ) (serves : (k : ℕ) → 0 < serve k) (offset : ℕ) (buf : Buffer)
    (c : Client) where
  -- The command that `readinto` sends.
  abbrev pub command : Command
  unfolding read_command
  command = read_command c.counter offset buf c.structured_reply

  abbrev sent_client : Client
  unfolding read_command
  sent_client = record c { counter = suc c.counter; sock = send [] (send (request command) c.sock) }

  steps :
      c.counter < 256 ^ 8
      → offset < 256 ^ 8
      → length buf.bytes < 256 ^ 4
      → readinto serve offset buf c ≡ recv_for serve command sent_client
  unfolding readinto run send_command read_command
  steps small small' fits =
      rw (to_bytes_lem command (omega arith) (omega arith) small small' fits) refl

  received_all :
      (chunks : List Chunk) (end : Chunk) (rest : List ℕ)
      → c.counter < 256 ^ 8
      → c.structured_reply ≡ true
      → c.sock.incoming ≡ encode_all c.counter chunks end ++ rest
      → AllFit offset (length buf.bytes) chunks
      → Fits offset (length buf.bytes) true end
      → (sock : Sock) × (recv_for serve command sent_client
          ≡ outcome
              (record { client = sent_client; cmd = command })
              sock
              buf
              (filled offset end (filled_all offset chunks buf.bytes))
              (failed_all chunks ++ failed end))
        × IsLeft (record { client = sent_client; cmd = command }) rest sock
  unfolding recv_for read_command send
  received_all chunks end rest small negotiated e all fits =
      recv_reply_lem serve serves chunks end (suc (length c.sock.incoming)) buf rest
        (record { client = sent_client; cmd = command })
        (omega (
          arith,
          ap length e,
          encode_all-length c.counter chunks end,
          length-append (encode_all c.counter chunks end) rest,
        ))
        e refl small negotiated all fits

  -- What `readinto` ends with: the buffer has the bytes of the image where a chunk says so and is as it
  -- was elsewhere; the server's next bytes are `rest`; the request was sent, and nothing else.
  pub record IsRead (image : ℕ → ℕ) (chunks : List Chunk) (end : Chunk) (rest : List ℕ)
      (t : Session) : Type 0 where
    pub bytes : List ℕ
    pub stored : t.cmd.buf ≡ some (record buf { bytes = bytes })
    pub size : length bytes ≡ length buf.bytes
    pub filled_in :
        (i : ℕ)
        → byte_at bytes i ≡ (
            if covers end (offset + i) || covers_all chunks (offset + i)
            then image (offset + i)
            else byte_at buf.bytes i)
    pub left : t.client.sock.incoming ≡ rest
    pub sent : t.client.sock.sent ≡ c.sock.sent ++ request command

  abbrev final : Sock → List ℕ → List ErrorAt → Session
  final sock bytes errors = record {
    client = with_sock sent_client sock;
    cmd = record command {
      buf = some (record buf { bytes = bytes });
      only_structured = true;
      errors = errors;
    };
  }

  outcome_lem :
      (sock : Sock) (bytes : List ℕ) (errors : List ErrorAt)
      → outcome (record { client = sent_client; cmd = command }) sock buf bytes errors
        ≡ (raised errors, final sock bytes errors)
  unfolding raised
  outcome_lem sock bytes [] = refl
  outcome_lem sock bytes (e ∷ es) = refl

  -- When structured replies were negotiated, the handle, the offset and the size of the buffer fit their
  -- fields, and the server sends chunks that fit the range and have the bytes of an image and error
  -- codes below 2 ^ 31, which arrive in pieces of any size, a read raises exactly if there are error
  -- chunks. It fills in the bytes that the chunks have, leaves the other bytes and what the server sends
  -- next, and sends one request.
  pub readinto_lem :
      (image : ℕ → ℕ) (chunks : List Chunk) (end : Chunk) (rest : List ℕ)
      → c.counter < 256 ^ 8
      → offset < 256 ^ 8
      → length buf.bytes < 256 ^ 4
      → c.structured_reply ≡ true
      → c.sock.incoming ≡ encode_all c.counter chunks end ++ rest
      → AllFit offset (length buf.bytes) chunks
      → Fits offset (length buf.bytes) true end
      → AllAgree image chunks
      → Agrees image end
      → (t : Session) × (readinto serve offset buf c
          ≡ (raised (failed_all chunks ++ failed end), t))
        × IsRead image chunks end rest t
  unfolding send sent_client
  readinto_lem image chunks end rest small small' short negotiated e all fits agree agrees =
      let (sock, got, left) = received_all chunks end rest small negotiated e all fits in
      let middle = filled_all offset chunks buf.bytes in
      let same = length-filled_all offset chunks buf.bytes all in
      let fits' = subst (λ n. Fits offset n true end) (sym same) fits in
      let bytes = filled offset end middle in
      let errors = failed_all chunks ++ failed end in
      (
        final sock bytes errors,
        steps small small' short ∙ got ∙ outcome_lem sock bytes errors,
        record {
          bytes = bytes;
          stored = refl;
          size = length-filled offset true end middle fits' ∙ same;
          filled_in = λ i. ground (
            arith,
            filled_byte image offset true end middle i fits' agrees,
            filled_all_byte image offset chunks buf.bytes i all agree,
          );
          left = left.left;
          sent = left.same ∙ append-nil (c.sock.sent ++ request command);
        },
      )
