-- ===== src/Nbd/Reply/Finite.antt =====
-- `_recv_reply` of ovirt_imageio/_internal/nbd.py with any server, handler by handler.
use ovirt_imageio.Base.{
  ℕ, zero, suc, ◌+◌, ◌-◌, ◌/◌, ◌%◌, ◌≤◌, ◌<◌, min, ◌≡◌, ◌≢◌, refl, ap, Bool, true, false, not, ◌||◌,
  Option, none, some, List, [], ◌∷◌, ◌++◌, arith, ltb, ◌==◌, if◌then◌else◌, length, drop, ==-cases,
  inl, inr,
}
use ovirt_imageio.Base.Exec.{Result, ok, err, pure, raise, gets, raise_if, continue, ◌>>=◌, ◌>>◌}
use ovirt_imageio.Nbd.Wire.{field}
use ovirt_imageio.Nbd.Extents.{Extent, Context, unpack}
use ovirt_imageio.Nbd.Command.{Name, Buffer, ErrorAt}
use ovirt_imageio.Nbd.Sock.{received, received_ends}
use ovirt_imageio.Nbd.Client.{
  Error, lookup, recv, protocol_error, unexpected_handle, unexpected_magic, reply_error,
  out_of_fuel,
}
use ovirt_imageio.Nbd.Reply.{
  Session, Method, check_code, recv_reply, handle_none_chunk, recv_error_chunk, handle_error_chunk,
  handle_error_offset_chunk, recv_bytes, recv_simple_reply, is_done, recv_data, zero_data,
  slice_index, handle_data_chunk, handle_hole_chunk, unpack_extents, joined, checked, recv_extents,
  returns, recv_context, set_reply, context_of, handle_block_status_chunk, handle_chunk,
  recv_reply_chunk, only_structured, structured_if, reply_round, Round, returned, last_chunk, more,
  raise_errors, after_round, max_extents, simple_reply_magic, structured_reply_magic,
}
use ovirt_imageio.Nbd.Reply.Ends.{
  left, Ends, Ends-then, pure-Ends, raise-Ends, raise_if-Ends, gets-Ends, modify-Ends, if-Ends,
  received_count, recv-Ends, recv_slice-Ends, recv_buffer-Ends,
}

module _ (serve : ℕ → ℕ) where
  recv_simple_reply-Ends : Ends (recv_simple_reply serve)
  unfolding recv_simple_reply
  recv_simple_reply-Ends = Ends-then (recv_bytes serve 12) (recv-Ends serve 12) (λ header.
      Ends-then (gets (λ s. s.cmd)) (gets-Ends (λ s. s.cmd)) (λ cmd.
        Ends-then _
          (if-Ends (field 0 4 header == 0) (pure-Ends tt) (
            Ends-then (check_code serve (field 0 4 header)) (raise_if-Ends _ _ (λ h. cc))
              (λ _. raise-Ends (reply_error (field 0 4 header) []) (λ h. cc))))
          (λ _.
            Ends-then
              (raise_if (not (field 4 8 header == cmd.handle))
                (unexpected_handle (field 4 8 header) cmd.handle))
              (raise_if-Ends _ _ (λ h. cc)) (λ _. recv_buffer-Ends serve cmd.buf))))

  handle_none_chunk-Ends : (flags size : ℕ) → Ends (handle_none_chunk serve flags size)
  unfolding handle_none_chunk
  handle_none_chunk-Ends flags size =
      Ends-then (raise_if (not (is_done flags)) protocol_error) (raise_if-Ends _ _ (λ h. cc))
        (λ _. raise_if-Ends _ _ (λ h. cc))

  recv_error_chunk-Ends : (size extra : ℕ) → Ends (recv_error_chunk serve size extra)
  unfolding recv_error_chunk
  recv_error_chunk-Ends size extra = Ends-then (recv_bytes serve 6) (recv-Ends serve 6) (λ header.
      Ends-then _ (raise_if-Ends _ _ (λ h. cc)) (λ _.
        Ends-then (recv_bytes serve (field 4 2 header)) (recv-Ends serve (field 4 2 header))
          (λ message. pure-Ends _)))

  handle_error_chunk-Ends : (size flags : ℕ) → Ends (handle_error_chunk serve size flags)
  unfolding handle_error_chunk
  handle_error_chunk-Ends size flags =
      Ends-then (recv_error_chunk serve size 0) (recv_error_chunk-Ends size 0) (λ chunk.
        if-Ends (is_done flags)
          (Ends-then (check_code serve chunk.0) (raise_if-Ends _ _ (λ h. cc))
            (λ _. raise-Ends (reply_error chunk.0 chunk.1) (λ h. cc)))
          (raise-Ends _ (λ h. cc)))

  handle_error_offset_chunk-Ends : (size : ℕ) → Ends (handle_error_offset_chunk serve size)
  unfolding handle_error_offset_chunk
  handle_error_offset_chunk-Ends size =
      Ends-then (recv_error_chunk serve size 8) (recv_error_chunk-Ends size 8) (λ chunk.
        Ends-then (recv_bytes serve 8) (recv-Ends serve 8) (λ bytes.
          Ends-then (check_code serve chunk.0) (raise_if-Ends _ _ (λ h. cc))
            (λ _. modify-Ends _ (λ s. omega arith))))

  recv_data-Ends :
      (buf : Option Buffer) (at size offset : ℕ) → Ends (recv_data serve buf at size offset)
  recv_data-Ends none at size offset = raise-Ends _ (λ h. cc)
  recv_data-Ends (some buf) at size offset =
      recv_slice-Ends serve buf (slice_index (length buf.bytes) at offset)
        (slice_index (length buf.bytes) (at + size) (offset + 8))

  handle_data_chunk-Ends : (size : ℕ) → Ends (handle_data_chunk serve size)
  unfolding handle_data_chunk
  handle_data_chunk-Ends size = Ends-then (recv_bytes serve 8) (recv-Ends serve 8) (λ bytes.
      Ends-then (gets (λ s. s.cmd)) (gets-Ends (λ s. s.cmd))
        (λ cmd. recv_data-Ends cmd.buf (field 0 8 bytes) size cmd.offset))

  zero_data-Ends :
      (buf : Option Buffer) (at size offset : ℕ) → Ends (zero_data serve buf at size offset)
  zero_data-Ends none at size offset = raise-Ends _ (λ h. cc)
  zero_data-Ends (some buf) at size offset =
      if-Ends _ (raise-Ends _ (λ h. cc)) (modify-Ends _ (λ s. omega arith))

  handle_hole_chunk-Ends : (size : ℕ) → Ends (handle_hole_chunk serve size)
  unfolding handle_hole_chunk
  handle_hole_chunk-Ends size = Ends-then _ (raise_if-Ends _ _ (λ h. cc)) (λ _.
      Ends-then (recv_bytes serve 12) (recv-Ends serve 12) (λ bytes.
        Ends-then _ (raise_if-Ends _ _ (λ h. cc)) (λ _.
          Ends-then (gets (λ s. s.cmd)) (gets-Ends (λ s. s.cmd))
            (λ cmd. zero_data-Ends cmd.buf (field 0 8 bytes) (field 8 4 bytes) cmd.offset))))

  joined_finite :
      (b : Bool) (e : Extent) (rest : Result Error (List Extent))
      → rest ≢ err out_of_fuel
      → joined serve b e rest ≢ err out_of_fuel
  joined_finite false e rest ne h = cc
  joined_finite true e (ok es) ne h = cc
  joined_finite true e (err x) ne h = ne cc

  checked_finite :
      (least : ℕ) (o : Option Extent) (rest : Result Error (List Extent))
      → rest ≢ err out_of_fuel
      → checked serve least o rest ≢ err out_of_fuel
  checked_finite least none rest ne h = cc
  checked_finite least (some e) rest ne h = joined_finite (e.length % least == 0) e rest ne h

  unpacked :
      (least count : ℕ) (context : Context) (bytes : List ℕ)
      → unpack_extents serve least count context bytes ≢ err out_of_fuel
  unfolding unpack_extents
  unpacked least zero context bytes h = cc
  unpacked least (suc count) context bytes h =
      checked_finite least (unpack context (field 0 4 bytes) (field 4 4 bytes))
        (unpack_extents serve least count context (drop 8 bytes))
        (unpacked least count context (drop 8 bytes)) h

  recv_extents-Ends :
      (fuel buf_size size : ℕ) (context : Context)
      → size < fuel
      → (0 < size → 0 < buf_size)
      → Ends (recv_extents serve fuel buf_size size context)
  unfolding recv_extents
  recv_extents-Ends zero buf_size size context lt pos s = absurd (omega arith)
  recv_extents-Ends (suc fuel) buf_size size context lt pos s = elim (==-cases size 0) [
    | inl (e, _) ↦ rw e (pure-Ends [] s)
    | inr (e, nz) ↦
        let n : ℕ = min size buf_size in
        rw e (
          Ends-then (recv_bytes serve n) (recv-Ends serve n)
            (λ bytes. Ends-then (gets (λ s. s.client)) (gets-Ends (λ s. s.client)) (λ c.
              Ends-then
                (returns serve (unpack_extents serve c.minimum_block_size (n / 8) context bytes))
                (λ s. record {
                  shrinks = omega arith;
                  finite = unpacked c.minimum_block_size (n / 8) context bytes;
                })
                (λ es.
                  Ends-then (recv_extents serve fuel buf_size (size - n) context)
                    (recv_extents-Ends fuel buf_size (size - n) context (omega (arith, pos))
                      (λ h. pos (omega arith)))
                    (λ rest. pure-Ends (es ++ rest)))))
            s)
  ]

  set_reply-Ends :
      (name : Name) (es : List Extent) (reply : Option (List (Name × List Extent)))
      → Ends (set_reply serve name es reply)
  set_reply-Ends name es none = raise-Ends _ (λ h. cc)
  set_reply-Ends name es (some reply) = modify-Ends _ (λ s. omega arith)

  recv_context-Ends : (size : ℕ) (name : Option Name) → Ends (recv_context serve size name)
  recv_context-Ends size none = raise-Ends _ (λ h. cc)
  recv_context-Ends size (some name) =
      Ends-then (gets (λ s. s.client)) (gets-Ends (λ s. s.client)) (λ c.
        Ends-then
          (recv_extents serve (suc size) (min (size - 4) 8192) (size - 4)
            (context_of serve c.dirty_bitmap name))
          (recv_extents-Ends (suc size) (min (size - 4) 8192) (size - 4)
            (context_of serve c.dirty_bitmap name) (omega arith) (λ h. omega arith))
          (λ es.
            Ends-then (gets (λ s. s)) (gets-Ends (λ s. s))
              (λ s. set_reply-Ends name es s.cmd.reply)))

  handle_block_status_chunk-Ends : (size : ℕ) → Ends (handle_block_status_chunk serve size)
  unfolding handle_block_status_chunk
  handle_block_status_chunk-Ends size =
      Ends-then (raise_if ((size / 8 == 0) || not (size % 8 == 4)) protocol_error)
        (raise_if-Ends _ protocol_error (λ h. cc))
        (λ _.
          Ends-then (raise_if (ltb max_extents (size / 8)) protocol_error)
            (raise_if-Ends _ protocol_error (λ h. cc))
            (λ _. Ends-then (recv_bytes serve 4) (recv-Ends serve 4) (λ bytes.
              Ends-then (gets (λ s. s.client)) (gets-Ends (λ s. s.client)) (λ c.
                recv_context-Ends size
                  (lookup (λ a b. a == b) (field 0 4 bytes) c.context_names)))))

  handle_chunk-Ends : (type flags size : ℕ) → Ends (handle_chunk serve type flags size)
  unfolding handle_chunk
  handle_chunk-Ends type flags size = if-Ends (type == 32769) (handle_error_chunk-Ends size flags) (
      if-Ends (type == 32770) (handle_error_offset_chunk-Ends size) (
        if-Ends (type == 0) (handle_none_chunk-Ends flags size) (
          if-Ends (type == 1) (handle_data_chunk-Ends size) (
            if-Ends (type == 2) (handle_hole_chunk-Ends size) (
              if-Ends (type == 5) (handle_block_status_chunk-Ends size)
                (raise-Ends _ (λ h. cc)))))))

  recv_reply_chunk-Ends : Ends (recv_reply_chunk serve)
  unfolding recv_reply_chunk
  recv_reply_chunk-Ends = Ends-then (recv_bytes serve 16) (recv-Ends serve 16) (λ header.
      Ends-then (gets (λ s. s.cmd)) (gets-Ends (λ s. s.cmd)) (λ cmd.
        Ends-then _ (raise_if-Ends _ _ (λ h. cc)) (λ _.
          Ends-then (handle_chunk serve (field 2 2 header) (field 0 2 header) (field 12 4 header))
            (handle_chunk-Ends (field 2 2 header) (field 0 2 header) (field 12 4 header))
            (λ _. pure-Ends _))))

  structured_if-Ends : (b : Bool) → Ends (structured_if serve b)
  structured_if-Ends true s =
      let e =
        Ends-then (recv_reply_chunk serve) recv_reply_chunk-Ends (λ last. pure-Ends _)
          (only_structured serve s) in
      record { shrinks = e.shrinks; finite = e.finite }
  structured_if-Ends false s = raise-Ends _ (λ h. cc) s

  -- A round that takes the bytes of a magic number.
  record IsRound (n : ℕ) (p : Result Error Round × Session) : Type 0 where
    finite : p.0 ≢ err out_of_fuel
    shrinks : (r : Round) (t : Session) → p ≡ (ok r, t) → left t < n

  abbrev reply_kind : List ℕ → Method Round
  reply_kind bytes = do
    s ← gets (λ s. s)
    (if field 0 4 bytes == simple_reply_magic
        then (do
          raise_if s.cmd.only_structured (unexpected_magic (field 0 4 bytes))
          recv_simple_reply serve
          pure returned)
        else if field 0 4 bytes == structured_reply_magic
        then structured_if serve s.client.structured_reply
        else raise (unexpected_magic (field 0 4 bytes)))

  reply_kind-Ends : (bytes : List ℕ) → Ends (reply_kind bytes)
  reply_kind-Ends bytes = Ends-then (gets (λ s. s)) (gets-Ends (λ s. s)) (λ s.
      if-Ends (field 0 4 bytes == simple_reply_magic)
        (Ends-then (raise_if s.cmd.only_structured (unexpected_magic (field 0 4 bytes)))
          (raise_if-Ends s.cmd.only_structured (unexpected_magic (field 0 4 bytes)) (λ h. cc))
          (λ _.
            Ends-then (recv_simple_reply serve) recv_simple_reply-Ends (λ _. pure-Ends returned)))
        (if-Ends (field 0 4 bytes == structured_reply_magic)
          (structured_if-Ends s.client.structured_reply)
          (raise-Ends (unexpected_magic (field 0 4 bytes)) (λ h. cc))))

  -- Bytes that were received are no longer to come.
  recv_takes :
      (n : ℕ) (s : Session) (bytes : List ℕ) (t : Session)
      → recv_bytes serve n s ≡ (ok bytes, t)
      → left t + n ≤ left s
  unfolding recv
  recv_takes n s = elim (==-cases (length (received serve n n s.client.sock).0) n) [
    | inl (e, size) ↦
        rw (received_ends serve n n s.client.sock (omega arith), e)
          (λ bytes t h.
            omega (arith, size, received_count serve n n s.client.sock, ap (λ p. left p.1) h))
    | inr (e, _) ↦
        rw (received_ends serve n n s.client.sock (omega arith), e) (λ bytes t h. absurd cc)
  ]

  continue-IsRound :
      {n : ℕ} {f : List ℕ → Method Round} (p : Result Error (List ℕ) × Session)
      → ((bytes : List ℕ) (t : Session) → p ≡ (ok bytes, t) → left t < n)
      → p.0 ≢ err out_of_fuel
      → ((bytes : List ℕ) → Ends (f bytes))
      → IsRound n (continue p f)
  continue-IsRound (ok bytes, t) taken finite next = record {
    finite = (next bytes t).finite;
    shrinks =
        λ r u h. omega (arith, taken bytes t refl, (next bytes t).shrinks, ap (λ q. left q.1) h);
  }
  continue-IsRound (err x, t) taken finite next = record {
    finite = λ h. finite cc;
    shrinks = λ r u h. absurd cc;
  }

  reply_round-IsRound : (s : Session) → IsRound (left s) (reply_round serve s)
  unfolding reply_round
  reply_round-IsRound s =
      continue-IsRound (recv_bytes serve 4 s) (λ bytes t h. omega (arith, recv_takes 4 s bytes t h))
        (recv-Ends serve 4 s).finite reply_kind-Ends

  raise_errors_finite :
      (errors : List ErrorAt) (s : Session) → (raise_errors errors s).0 ≢ err out_of_fuel
  raise_errors_finite [] s h = cc
  raise_errors_finite (e ∷ es) s h = cc

  after_round_finite :
      (next : Method (Unit {0})) (p : Result Error Round × Session)
      → p.0 ≢ err out_of_fuel
      → ((t : Session) → p ≡ (ok more, t) → (next t).0 ≢ err out_of_fuel)
      → (continue p (after_round next)).0 ≢ err out_of_fuel
  after_round_finite next (ok returned, t) ne later h = cc
  after_round_finite next (ok last_chunk, t) ne later h = raise_errors_finite t.cmd.errors t h
  after_round_finite next (ok more, t) ne later h = later t refl h
  after_round_finite next (err x, t) ne later h = ne cc

  -- With fuel above the number of bytes that the server still sends, whatever they are, the receiving
  -- of a reply never runs out of fuel: it ends with a result or with another error.
  pub recv_reply_finite :
      (fuel : ℕ) (s : Session) → left s < fuel → (recv_reply serve fuel s).0 ≢ err out_of_fuel
  unfolding recv_reply
  recv_reply_finite zero s lt = absurd (omega arith)
  recv_reply_finite (suc fuel) s lt =
      let round = reply_round-IsRound s in
      after_round_finite (recv_reply serve fuel) (reply_round serve s) round.finite
        (λ t h. recv_reply_finite fuel t (omega (arith, round.shrinks more t h)))
