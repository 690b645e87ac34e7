-- ===== src/Nbd/Reply/Whole.antt =====
-- `_recv_reply` of ovirt_imageio/_internal/nbd.py on a whole structured reply.
use ovirt_imageio.Base.{
  ℕ, zero, suc, ◌-◌, ◌^◌, ◌<◌, ◌≡◌, refl, ap, sym, subst, ◌∙◌, Bool, true, false, some, List, [],
  ◌∷◌, ◌++◌, arith, length, replicate, length-replicate, append_assoc,
}
use ovirt_imageio.Base.Exec.{Result, then_by}
use ovirt_imageio.Backends.Memory.Contents.{length-overlay}
use ovirt_imageio.Nbd.Sock.{Sock}
use ovirt_imageio.Nbd.Command.{Buffer, ErrorAt}
use ovirt_imageio.Nbd.Client.{Error}
use ovirt_imageio.Nbd.Reply.{Session, recv_reply, after_round, raise_errors, only_structured}
use ovirt_imageio.Nbd.Reply.Recv.{with_sock}
use ovirt_imageio.Nbd.Reply.Chunks.{IsLeft, after, round_lem}
use ovirt_imageio.Nbd.Reply.Server.{
  Chunk, data_chunk, hole_chunk, error_chunk, none_chunk, encode, encode_all, Fits, AllFit, filled,
  filled_all, failed, failed_all,
}

pub length-filled :
    (offset : ℕ) (last : Bool) (chunk : Chunk) (buf : List ℕ)
    → Fits offset (length buf) last chunk
    → length (filled offset chunk buf) ≡ length buf
unfolding Fits filled
length-filled offset last (data_chunk at bytes) buf (_, low, high, _) =
    length-overlay (at - offset) bytes buf (omega (arith, low, high))
length-filled offset last (hole_chunk at count) buf (_, low, high, _, _) =
    let z : ℕ = 0 in
    length-overlay (at - offset) (replicate count 0) buf
      (omega (arith, low, high, length-replicate count z))
length-filled offset last (error_chunk e) buf fits = refl
length-filled offset last none_chunk buf fits = refl

-- What `_recv_reply` ends with, for the bytes of the buffer and the errors.
abbrev pub outcome :
    Session → Sock → Buffer → List ℕ → List ErrorAt → Result Error (Unit {0}) × Session
outcome s sock buf bytes errors = raise_errors errors (record s {
  client = with_sock s.client sock;
  cmd = record s.cmd {
    buf = some (record buf { bytes = bytes });
    only_structured = true;
    errors = errors;
  };
})

module _ (serve : ℕ → ℕ) (serves : (k : ℕ) → 0 < serve k) where
  pub recv_reply_lem :
      (chunks : List Chunk) (end : Chunk) (fuel : ℕ) (buf : Buffer) (rest : List ℕ) (s : Session)
      → length chunks < fuel
      → s.client.sock.incoming ≡ encode_all s.cmd.handle chunks end ++ rest
      → s.cmd.buf ≡ some buf
      → s.cmd.handle < 256 ^ 8
      → s.client.structured_reply ≡ true
      → AllFit s.cmd.offset (length buf.bytes) chunks
      → Fits s.cmd.offset (length buf.bytes) true end
      → (sock : Sock) × (recv_reply serve fuel s
          ≡ outcome s sock buf
              (filled s.cmd.offset end (filled_all s.cmd.offset chunks buf.bytes))
              (s.cmd.errors ++ (failed_all chunks ++ failed end)))
        × IsLeft s rest sock
  unfolding recv_reply encode_all AllFit filled_all failed_all
  recv_reply_lem chunks end zero buf rest s lt e has small negotiated all fits =
      absurd (omega arith)
  recv_reply_lem [] end (suc fuel) buf rest s lt e has small negotiated all fits =
      let (sock, round, left) =
        round_lem serve serves end true buf rest s e has small negotiated fits in
      (sock, then_by (after_round (recv_reply serve fuel)) round, left)
  recv_reply_lem (chunk ∷ chunks) end (suc fuel) buf rest s lt e has small negotiated (first, all)
        fits =
      let (sock, round, left) =
        round_lem serve serves chunk false buf (encode_all s.cmd.handle chunks end ++ rest) s
          (e ∙ append_assoc (encode s.cmd.handle 0 chunk) (encode_all s.cmd.handle chunks end) rest)
          has small negotiated first in
      let t = after (only_structured serve s) sock buf chunk in
      let buf' : Buffer = record buf { bytes = filled s.cmd.offset chunk buf.bytes } in
      let size = sym (length-filled s.cmd.offset false chunk buf.bytes first) in
      let (sock', whole, left') =
        recv_reply_lem chunks end fuel buf' rest t (omega (arith, lt)) left.left refl small
          negotiated (subst (λ n. AllFit s.cmd.offset n chunks) size all)
          (subst (λ n. Fits s.cmd.offset n true end) size fits) in
      (
        sock',
        then_by (after_round (recv_reply serve fuel)) round
            ∙ whole
            ∙ ap
                (outcome s sock' buf (
                  filled s.cmd.offset end
                    (filled_all s.cmd.offset chunks (filled s.cmd.offset chunk buf.bytes))))
                (append_assoc s.cmd.errors (failed chunk) (failed_all chunks ++ failed end)
                  ∙ ap (λ es. s.cmd.errors ++ es)
                      (sym (append_assoc (failed chunk) (failed_all chunks) (failed end)))),
        record { left = left'.left; same = left'.same ∙ left.same },
      )
