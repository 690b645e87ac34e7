-- ===== src/Backends/Nbd/Served.antt =====
-- Reads of ovirt_imageio/_internal/backends/nbd.py from a server that sends the bytes of its export.
use ovirt_imageio.Base.{
  ℕ, ◌+◌, ◌-◌, ◌^◌, ◌<◌, min, ◌≡◌, refl, ap, sym, subst, ◌∙◌, true, false, ◌||◌, some, List, [],
  ◌++◌, arith, ◌==◌, if◌then◌else◌, length, take, length-take,
}
use ovirt_imageio.Base.Bytes.{byte_at}
use ovirt_imageio.Base.Exec.{ok, err}
use ovirt_imageio.Backends.Memory.{can_read}
use ovirt_imageio.Backends.Nbd.{
  NbdBackend, unsupported_operation, bytes_of, readinto, read_view, read_from, finish_read,
}
use ovirt_imageio.Nbd.Command.{Buffer}
use ovirt_imageio.Nbd.Client.{Client}
use ovirt_imageio.Nbd.Reply.Server.{Chunk, encode_all, Fits, AllFit, failed, failed_all}
use ovirt_imageio.Nbd.Requests as Requests
use ovirt_imageio.Nbd.Reply.Image.{covers, covers_all, Agrees, AllAgree}
use ovirt_imageio.Nbd.Requests.Reads.{raised, readinto_lem}

-- A read that has stored `n` bytes of the image, with the server's next bytes `rest`.
pub record IsServed (image : ℕ → ℕ) (rest : List ℕ) (n : ℕ) (b : NbdBackend) (bytes : List ℕ)
    (t : NbdBackend) : Type 0 where
  pub size : length bytes ≡ n
  pub same : (i : ℕ) → i < n → byte_at bytes i ≡ image (b.position + i)
  pub moved : t.position ≡ b.position + n
  pub client : Client
  pub has_client : t.client ≡ some client
  pub left : client.sock.incoming ≡ rest

module _ (serve : ℕ → ℕ) (serves : (k : ℕ) → 0 < serve k) (b : NbdBackend) (c : Client) (size : ℕ)
    (buf : List ℕ) where
  -- The view that is read into.
  abbrev pub view : List ℕ
  view = take (min (length buf) (size - b.position)) buf

  abbrev pub count : ℕ
  count = min (length buf) (size - b.position)

  view-length : length view ≡ count
  view-length = omega (arith, length-take (min (length buf) (size - b.position)) buf)

  steps :
      can_read b.mode ≡ true
      → b.client ≡ some c
      → c.export_size ≡ some size
      → (length view == 0) ≡ false
      → readinto serve buf b
        ≡ finish_read b
            (length view)
            (Requests.readinto serve b.position (record { bytes = view; is_view = true }) c)
  unfolding readinto
  steps readable has known some_bytes =
      ap (λ r. if r then read_from serve buf b.client b else (err unsupported_operation, b))
        readable
      ∙ ap (λ o. read_from serve buf o b) has
      ∙ ap (λ o. read_view serve buf c o b) known
      ∙ ap
          (λ e.
            if e
            then (ok [], b)
            else finish_read b (length view)
                (Requests.readinto serve b.position (record { bytes = view; is_view = true }) c))
          some_bytes

  -- When a backend may read, is before the end of its export, has negotiated structured replies, and its
  -- handle, position and count fit their fields, then a read from a server whose chunks cover the range
  -- without an error and have the bytes of an image stores these bytes and moves behind them.
  pub readinto-IsServed :
      (image : ℕ → ℕ) (chunks : List Chunk) (end : Chunk) (rest : List ℕ)
      → can_read b.mode ≡ true
      → b.client ≡ some c
      → c.export_size ≡ some size
      → 0 < count
      → c.counter < 256 ^ 8
      → b.position < 256 ^ 8
      → count < 256 ^ 4
      → c.structured_reply ≡ true
      → c.sock.incoming ≡ encode_all c.counter chunks end ++ rest
      → AllFit b.position count chunks
      → Fits b.position count true end
      → AllAgree image chunks
      → Agrees image end
      → failed_all chunks ++ failed end ≡ []
      → ((i : ℕ)
          → i < count
          → (covers end (b.position + i) || covers_all chunks (b.position + i)) ≡ true)
      → (bytes : List ℕ) × (t : NbdBackend) × (readinto serve buf b ≡ (ok bytes, t))
        × IsServed image rest count b bytes t
  unfolding raised
  readinto-IsServed image chunks end rest readable has known pos small small' short negotiated e all
        fits agree agrees fine covered =
      let n = view-length in
      let target : Buffer = record { bytes = view; is_view = true } in
      let (t, got, r) =
        readinto_lem serve serves b.position target c image chunks end rest small small'
          (subst (λ k. k < 256 ^ 4) (sym n) short) negotiated e
          (subst (λ k. AllFit b.position k chunks) (sym n) all)
          (subst (λ k. Fits b.position k true end) (sym n) fits) agree agrees in
      let empty : (length view == 0) ≡ false = ground (arith, n, pos) in
      (
        r.bytes,
        record b { client = some t.client; position = b.position + length view },
        steps readable has known empty
            ∙ ap (finish_read b (length view)) (got ∙ ap (λ es. (raised es, t)) fine)
            ∙ ap
                (λ o. (
                  ok (bytes_of o),
                  record b { client = some t.client; position = b.position + length view },
                ))
                r.stored,
        record {
          size = r.size ∙ n;
          same = λ i lt.
              r.filled_in i
              ∙ ap (λ d. if d then image (b.position + i) else byte_at view i) (covered i lt);
          moved = ap (λ k. b.position + k) n;
          client = t.client;
          has_client = refl;
          left = r.left;
        },
      )
