-- ===== src/Nbd/Reply/Handlers.antt =====
-- The handlers of ovirt_imageio/_internal/nbd.py on the chunks of a server that keeps to the protocol.
use ovirt_imageio.Base.{
  ℕ, ◌+◌, ◌-◌, ◌^◌, ◌≤◌, ◌<◌, max, ◌≡◌, refl, ap, sym, ◌∙◌, Bool, true, false, ◌&&◌, some, List, [],
  ◌∷◌, ◌++◌, arith, leb, ◌==◌, length, take, drop, replicate, length-replicate, ==_iff,
}
use ovirt_imageio.Base.Exec.{ok}
use ovirt_imageio.Backends.Memory.{overlay}
use ovirt_imageio.Nbd.Wire.{pack, field, length-pack, number-pack}
use ovirt_imageio.Nbd.Sock.{Sock, received, received_ends, received_lem}
use ovirt_imageio.Nbd.Command.{Buffer, ErrorAt}
use ovirt_imageio.Nbd.Reply.{
  Session, recv_slice, slice_index, handle_data_chunk, handle_hole_chunk, recv_error_chunk,
  handle_error_offset_chunk, handle_none_chunk, recv_data, zero_data, zero_slice,
}
use ovirt_imageio.Nbd.Reply.Recv.{recv_lem, with_sock, take-length, drop-length}

field_8 : (n : ℕ) → n < 256 ^ 8 → field 0 8 (pack 8 n) ≡ n
unfolding field pack
field_8 n fits = number-pack 8 n fits

field_8_0 : (m n : ℕ) → m < 256 ^ 8 → field 0 8 (pack 8 m ++ pack 4 n) ≡ m
unfolding field pack
field_8_0 m n fits = number-pack 8 m fits

field_4_0 : (m n : ℕ) → m < 256 ^ 4 → field 0 4 (pack 4 m ++ pack 2 n) ≡ m
unfolding field pack
field_4_0 m n fits = number-pack 4 m fits

length-pack_4_2 : (m n : ℕ) → length (pack 4 m ++ pack 2 n) ≡ 6
unfolding pack
length-pack_4_2 m n = refl

length-pack_8_4 : (m n : ℕ) → length (pack 8 m ++ pack 4 n) ≡ 12
unfolding pack
length-pack_8_4 m n = refl

field_4 : (n : ℕ) → n < 256 ^ 4 → field 0 4 (pack 4 n) ≡ n
unfolding field pack
field_4 n fits = number-pack 4 n fits

field_8_4 : (m n : ℕ) → n < 256 ^ 4 → field 8 4 (pack 8 m ++ pack 4 n) ≡ n
unfolding field pack
field_8_4 m n fits = number-pack 4 n fits

field_4_2 : (m n : ℕ) → n < 256 ^ 2 → field 4 2 (pack 4 m ++ pack 2 n) ≡ n
unfolding field pack
field_4_2 m n fits = number-pack 2 n fits

-- The slice that a chunk of the requested range stands for.
slice_start :
    (size at offset : ℕ)
    → offset ≤ at
    → at ≤ offset + size
    → slice_index size at offset ≡ at - offset
unfolding slice_index
slice_start size at offset low high = ground arith

slice_stop :
    (size at n offset : ℕ)
    → offset ≤ at
    → at + n ≤ offset + size
    → slice_index size (at + (n + 8)) (offset + 8) ≡ at - offset + n
unfolding slice_index
slice_stop size at n offset low high = ground arith

slice_end :
    (size at n offset : ℕ)
    → offset ≤ at
    → at + n ≤ offset + size
    → slice_index size (at + n) offset ≡ at - offset + n
unfolding slice_index
slice_end size at n offset low high = ground arith

-- The session when the socket and the buffer are others.
abbrev pub put : Session → Sock → Buffer → List ℕ → Session
put s sock buf bytes = record s {
  client = with_sock s.client sock;
  cmd = record s.cmd { buf = some (record buf { bytes = bytes }) };
}

-- A test that fails whatever comes first.
never : (b : Bool) → (b && false) ≡ false
never true = refl
never false = refl

module _ (serve : ℕ → ℕ) (serves : (k : ℕ) → 0 < serve k) where
  recv_slice_lem :
      (buf : Buffer) (start : ℕ) (bytes rest : List ℕ) (s : Session)
      → s.client.sock.incoming ≡ bytes ++ rest
      → (sock : Sock) × (recv_slice serve buf start (start + length bytes) s
          ≡ (ok tt, put s sock buf (overlay start bytes buf.bytes)))
        × (sock.incoming ≡ rest)
        × (sock.sent ≡ s.client.sock.sent)
  unfolding recv_slice
  recv_slice_lem buf start bytes rest s e =
      let n : ℕ = start + length bytes - start in
      let same_size : length bytes ≡ n = omega arith in
      let (taken, left, same) = received_lem serve serves n n s.client.sock (omega arith) in
      let got : (received serve n n s.client.sock).0 ≡ bytes =
        taken
        ∙ ap (λ xs. take n xs) e
        ∙ ap (λ k. take k (bytes ++ rest)) (sym same_size)
        ∙ take-length bytes rest in
      let full : (length (received serve n n s.client.sock).0 == n) ≡ true =
        (==_iff (length (received serve n n s.client.sock).0) n).1 (ap length got ∙ same_size) in
      (
        (received serve n n s.client.sock).1,
        rw (received_ends serve n n s.client.sock (omega arith), full)
            (ap
              (λ xs. (
                ok tt,
                put s (received serve n n s.client.sock).1 buf (overlay start xs buf.bytes),
              ))
              got),
        left
            ∙ ap (λ xs. drop n xs) e
            ∙ ap (λ k. drop k (bytes ++ rest)) (sym same_size)
            ∙ drop-length bytes rest,
        same,
      )

  pub data_chunk_lem :
      (buf : Buffer) (at : ℕ) (bytes rest : List ℕ) (s : Session)
      → s.client.sock.incoming ≡ pack 8 at ++ (bytes ++ rest)
      → s.cmd.buf ≡ some buf
      → at < 256 ^ 8
      → s.cmd.offset ≤ at
      → at + length bytes ≤ s.cmd.offset + length buf.bytes
      → (sock : Sock) × (handle_data_chunk serve (length bytes + 8) s
          ≡ (ok tt, put s sock buf (overlay (at - s.cmd.offset) bytes buf.bytes)))
        × (sock.incoming ≡ rest)
        × (sock.sent ≡ s.client.sock.sent)
  unfolding handle_data_chunk
  data_chunk_lem buf at bytes rest s e has fits low high =
      let (sock, got, left, same) =
        recv_lem serve serves 8 (pack 8 at) (bytes ++ rest) s.client e (length-pack 8 at) in
      let t : Session = record s { client = with_sock s.client sock } in
      let (sock', stored, left', same') =
        recv_slice_lem buf (at - s.cmd.offset) bytes rest t left in
      let value = field_8 at fits in
      let size : ℕ = length buf.bytes in
      let start : slice_index size at s.cmd.offset ≡ at - s.cmd.offset =
        slice_start size at s.cmd.offset low (omega (arith, high)) in
      let stop : slice_index size (at + (length bytes + 8)) (s.cmd.offset + 8)
          ≡ at - s.cmd.offset + length bytes =
        slice_stop size at (length bytes) s.cmd.offset low high in
      (
        sock',
        rw (got, value)
            (ap (λ b. recv_data serve b at (length bytes + 8) s.cmd.offset t) has
              ∙ rw (start, stop) stored),
        left',
        same' ∙ same,
      )

  -- The assignment of as many zeros as the slice has items.
  zero_slice_lem :
      (buf : Buffer) (start count : ℕ) (s : Session)
      → zero_slice serve buf start (start + count) count s
        ≡ (ok tt, put s s.client.sock buf (overlay start (replicate count 0) buf.bytes))
  zero_slice_lem buf start count s =
      let z : ℕ = 0 in
      let whole : (start + count - start == count) ≡ true = ground arith in
      let end : max start (start + count) ≡ start + length (replicate count z) =
        omega (arith, length-replicate count z) in
      rw (whole, never buf.is_view)
        (ap
          (λ k. (
            ok tt,
            put s s.client.sock buf (take start buf.bytes ++ replicate count 0 ++ drop k buf.bytes),
          ))
          end)

  pub hole_chunk_lem :
      (buf : Buffer) (at count : ℕ) (rest : List ℕ) (s : Session)
      → s.client.sock.incoming ≡ (pack 8 at ++ pack 4 count) ++ rest
      → s.cmd.buf ≡ some buf
      → at < 256 ^ 8
      → s.cmd.offset ≤ at
      → at + count ≤ s.cmd.offset + length buf.bytes
      → 0 < count
      → count < 256 ^ 4
      → (sock : Sock) × (handle_hole_chunk serve 12 s
          ≡ (ok tt, put s sock buf (overlay (at - s.cmd.offset) (replicate count 0) buf.bytes)))
        × (sock.incoming ≡ rest)
        × (sock.sent ≡ s.client.sock.sent)
  unfolding handle_hole_chunk
  hole_chunk_lem buf at count rest s e has fits low high some_bytes small =
      let (sock, got, left, same) =
        recv_lem serve serves 12 (pack 8 at ++ pack 4 count) rest s.client e
          (length-pack_8_4 at count) in
      let value : field 0 8 (pack 8 at ++ pack 4 count) ≡ at = field_8_0 at count fits in
      let value' = field_8_4 at count small in
      let size : ℕ = length buf.bytes in
      let start : slice_index size at s.cmd.offset ≡ at - s.cmd.offset =
        slice_start size at s.cmd.offset low (omega (arith, high)) in
      let stop : slice_index size (at + count) s.cmd.offset ≡ at - s.cmd.offset + count =
        slice_end size at count s.cmd.offset low high in
      let positive : (count == 0) ≡ false = ground arith in
      let t : Session = record s { client = with_sock s.client sock } in
      (
        sock,
        rw (got, value, value', positive)
            (ap (λ b. zero_data serve b at count s.cmd.offset t) has
              ∙ rw (start, stop) (zero_slice_lem buf (at - s.cmd.offset) count t)),
        left,
        same,
      )

  abbrev pub added : Session → Sock → ErrorAt → Session
  added s sock e = record s {
    client = with_sock s.client sock;
    cmd = record s.cmd { errors = s.cmd.errors ++ e ∷ [] };
  }

  recv_error_lem :
      (code extra : ℕ) (message rest : List ℕ) (s : Session)
      → s.client.sock.incoming ≡ (pack 4 code ++ pack 2 (length message)) ++ (message ++ rest)
      → code < 256 ^ 4
      → length message < 256 ^ 2
      → (sock : Sock) × (recv_error_chunk serve (length message + 6 + extra) extra s
          ≡ (ok (code, message), record s { client = with_sock s.client sock }))
        × (sock.incoming ≡ rest)
        × (sock.sent ≡ s.client.sock.sent)
  unfolding recv_error_chunk
  recv_error_lem code extra message rest s e fits short =
      let size : ℕ = length message in
      let (sock, got, left, same) =
        recv_lem serve serves 6 (pack 4 code ++ pack 2 size) (message ++ rest) s.client e
          (length-pack_4_2 code size) in
      let (sock', got', left', same') =
        recv_lem serve serves size message rest (with_sock s.client sock) left refl in
      let value = field_4_2 code size short in
      let value' = field_4_0 code size fits in
      let whole : (size + 6 + extra == size + 6 + extra) ≡ true = ground arith in
      (sock', rw (got, value, value', whole, got') refl, left', same' ∙ same)

  pub error_chunk_lem :
      (e : ErrorAt) (rest : List ℕ) (s : Session)
      → s.client.sock.incoming
        ≡ (pack 4 e.code ++ pack 2 (length e.message)) ++ (e.message ++ (pack 8 e.offset ++ rest))
      → e.offset < 256 ^ 8
      → e.code < 2 ^ 31
      → length e.message < 256 ^ 2
      → (sock : Sock) × (handle_error_offset_chunk serve (length e.message + 6 + 8) s
          ≡ (ok tt, added s sock e))
        × (sock.incoming ≡ rest)
        × (sock.sent ≡ s.client.sock.sent)
  unfolding handle_error_offset_chunk
  error_chunk_lem e rest s next fits fits' short =
      let (sock, got, left, same) =
        recv_error_lem e.code 8 e.message (pack 8 e.offset ++ rest) s next (omega arith) short in
      let (sock', got', left', same') =
        recv_lem serve serves 8 (pack 8 e.offset) rest (with_sock s.client sock) left
          (length-pack 8 e.offset) in
      let known : leb (2 ^ 31) e.code ≡ false = ground (arith, fits') in
      (
        sock',
        rw (got, got', known)
            (ap (λ n. (ok tt, added s sock' (record e { offset = n }))) (field_8 e.offset fits)),
        left',
        same' ∙ same,
      )

  pub none_chunk_lem : (s : Session) → handle_none_chunk serve 1 0 s ≡ (ok tt, s)
  unfolding handle_none_chunk
  none_chunk_lem s = refl
