-- ===== src/Nbd/Handshake/Sized.antt =====
-- What the client of ovirt_imageio/_internal/nbd.py knows after NBD_OPT_GO.
use ovirt_imageio.Base.{
  ℕ, zero, suc, ◌+◌, ◌-◌, ◌^◌, ◌<◌, ◌≡◌, ◌≢◌, refl, ap, ◌∙◌, Bool, false, some, List, [], ◌∷◌, ◌++◌,
  arith, ltb, ◌==◌, length, length-append, append_assoc,
}
use ovirt_imageio.Base.Exec.{ok, then_by, modify, ◌>>◌}
use ovirt_imageio.Nbd.Wire.{pack, length-pack}
use ovirt_imageio.Nbd.Sock.{Sock, send}
use ovirt_imageio.Nbd.Client.{Client, transmission}
use ovirt_imageio.Nbd.Requests.{send_option, option_header}
use ovirt_imageio.Nbd.Reply.Recv.{recv_lem, with_sock}
use ovirt_imageio.Nbd.Handshake.{
  recv_info, go_loop, go_reply, check_export, format_go_option_data, negotiate_go_option,
  newstyle_handshake, greet, options, go,
}
use ovirt_imageio.Nbd.Handshake.Server.{
  Info, export, block_size, other, payload, reply_header, encode, Fits, AllFit, told, told_all,
}
use ovirt_imageio.Nbd.Handshake.Go.{field_0_2, header_lem, export_lem, sizes_lem}

not_equal : (m n : ℕ) → m ≢ n → (m == n) ≡ false
not_equal m n ne = ground arith

told_sock :
    (info : Info) (c : Client) (sock : Sock)
    → told info (with_sock c sock) ≡ with_sock (told info c) sock
unfolding told
told_sock (export size flags) c sock = refl
told_sock (block_size a b d) c sock = refl
told_sock (other type bytes) c sock = refl

length-payload : (info : Info) → Fits info → length (payload info) < 256 ^ 4
unfolding Fits payload pack
length-payload (export size flags) fits = omega arith
length-payload (block_size a b d) fits = omega arith
length-payload (other type bytes) (_, _, _, short) = omega (arith, short)

module _ (serve : ℕ → ℕ) (serves : (k : ℕ) → 0 < serve k) (is_utf8 : List ℕ → Bool) where
  other_lem :
      (size type : ℕ) (bytes rest : List ℕ) (c : Client)
      → size ≡ 2 + length bytes
      → c.sock.incoming ≡ pack 2 type ++ (bytes ++ rest)
      → type < 256 ^ 2
      → type ≢ 0
      → type ≢ 3
      → (sock : Sock) × (recv_info serve is_utf8 size c ≡ (ok tt, with_sock c sock))
        × (sock.incoming ≡ rest)
        × (sock.sent ≡ c.sock.sent)
  unfolding recv_info
  other_lem size type bytes rest c all e h ne ne' =
      let (s, got, left, same) =
        recv_lem serve serves 2 (pack 2 type) (bytes ++ rest) c e (length-pack 2 type) in
      let (s', got', left', same') =
        recv_lem serve serves (length bytes) bytes rest (with_sock c s) left refl in
      let long : ltb size 2 ≡ false = ground arith in
      let back : size - 2 ≡ length bytes = omega arith in
      (
        s',
        rw (long, got, field_0_2 type h, not_equal type 0 ne, not_equal type 3 ne', back, got')
            refl,
        left',
        same' ∙ same,
      )

  info_lem :
      (info : Info) (rest : List ℕ) (c : Client)
      → c.sock.incoming ≡ payload info ++ rest
      → Fits info
      → (sock : Sock) × (recv_info serve is_utf8 (length (payload info)) c
          ≡ (ok tt, with_sock (told info c) sock))
        × (sock.incoming ≡ rest)
        × (sock.sent ≡ c.sock.sent)
  unfolding recv_info payload Fits told
  info_lem (export size flags) rest c e (h, h') =
      let (s, got, left, same) =
        recv_lem serve serves 2 (pack 2 0) ((pack 8 size ++ pack 2 flags) ++ rest) c e
          (length-pack 2 0) in
      let (s', got', left', same') =
        export_lem serve serves is_utf8 size flags rest (with_sock c s) left h h' in
      (s', rw (got, got') refl, left', same' ∙ same)
  info_lem (block_size a b d) rest c e h =
      let (s, got, left, same) =
        recv_lem serve serves 2 (pack 2 3) ((pack 4 a ++ pack 4 b ++ pack 4 d) ++ rest) c e
          (length-pack 2 3) in
      let (s', got', left', same') =
        sizes_lem serve serves is_utf8 a b d rest (with_sock c s) left h in
      (s', rw (got, got') refl, left', same' ∙ same)
  info_lem (other type bytes) rest c e (h, ne, ne', _) =
      other_lem (length (pack 2 type ++ bytes)) type bytes rest c (omega arith) e h ne ne'

  loop_lem :
      (fuel : ℕ) (infos : List Info) (rest : List ℕ) (c : Client) (before : Sock)
      → before.incoming ≡ encode infos ++ rest
      → AllFit infos
      → length infos < fuel
      → (sock : Sock) × (go_loop serve is_utf8 fuel (with_sock c before)
          ≡ check_export serve is_utf8
              (told_all infos c).export_size
              (told_all infos c).transmission_flags
              (with_sock (told_all infos c) sock))
        × (sock.incoming ≡ rest)
        × (sock.sent ≡ before.sent)
  unfolding go_loop encode AllFit told_all
  loop_lem zero infos rest c before e fits lt = absurd (omega arith)
  loop_lem (suc fuel) [] rest c before e fits lt =
      let (s, got, left, same) =
        header_lem serve serves is_utf8 1 0 rest (with_sock c before) e (omega arith)
          (omega arith) in
      (s, then_by (go_reply serve is_utf8 (go_loop serve is_utf8 fuel)) got, left, same)
  loop_lem (suc fuel) (info ∷ infos) rest c before e (fit, fits) lt =
      let n = length (payload info) in
      let (s, got, left, same) =
        header_lem serve serves is_utf8 3 n (payload info ++ (encode infos ++ rest))
          (with_sock c before)
          (e ∙ ap (λ ys. reply_header 3 n ++ ys) (append_assoc (payload info) (encode infos) rest))
          (omega arith) (length-payload info fit) in
      let (s', got', left', same') =
        info_lem info (encode infos ++ rest) (with_sock c s) left fit in
      let (s'', got'', left'', same'') =
        loop_lem fuel infos rest (told info c) s' left' fits (omega arith) in
      (
        s'',
        then_by (go_reply serve is_utf8 (go_loop serve is_utf8 fuel)) got
            ∙ then_by (λ _. go_loop serve is_utf8 fuel)
                (got' ∙ ap (λ u. (ok tt, with_sock u s')) (told_sock info c s))
            ∙ got'',
        left'',
        same'' ∙ same' ∙ same,
      )

  encode-length : (infos : List Info) (rest : List ℕ) → length infos < length (encode infos ++ rest)
  unfolding encode reply_header pack
  encode-length [] rest = omega arith
  encode-length (info ∷ infos) rest = omega (
    arith,
    encode-length infos rest,
    length-append (payload info) (encode infos ++ rest),
    ap length (append_assoc (payload info) (encode infos) rest),
  )

  -- The bytes of the option that the client sends.
  abbrev pub request : Client → List ℕ
  request c =
      let bytes = format_go_option_data c.export_name in option_header 7 (length bytes) ++ bytes

  option_lem :
      (infos : List Info) (rest : List ℕ) (c : Client)
      → c.sock.incoming ≡ encode infos ++ rest
      → AllFit infos
      → (sock : Sock) × (negotiate_go_option serve is_utf8 c
          ≡ check_export serve is_utf8
              (told_all infos c).export_size
              (told_all infos c).transmission_flags
              (with_sock (told_all infos c) sock))
        × (sock.incoming ≡ rest)
        × (sock.sent ≡ c.sock.sent ++ request c)
  unfolding negotiate_go_option send_option send
  option_lem infos rest c e fits =
      let bytes = format_go_option_data c.export_name in
      let header = option_header 7 (length bytes) in
      let before = send bytes (send header c.sock) in
      let (sock, got, left, same) =
        loop_lem (suc (length before.incoming)) infos rest c before e fits
          (omega (arith, encode-length infos rest, ap length e)) in
      (sock, got, left, same ∙ append_assoc c.sock.sent header bytes)

  -- When the options before are negotiated, and the server answers NBD_OPT_GO with any information
  -- replies and the acknowledgement, of which the last export information has the size `size` and the
  -- flags `flags`, in pieces of any size: the handshake succeeds, the client is ready for transmission and
  -- knows exactly what it was told, among it the size and the flags, has sent the request for its export,
  -- and leaves what the server sends next.
  pub newstyle_handshake_sized :
      (dirty : Bool) (infos : List Info) (rest : List ℕ) (size flags : ℕ) (c s : Client)
      → (greet serve is_utf8 >> options serve is_utf8 dirty) c ≡ (ok tt, s)
      → s.sock.incoming ≡ encode infos ++ rest
      → AllFit infos
      → (told_all infos s).export_size ≡ some size
      → (told_all infos s).transmission_flags ≡ some flags
      → (sock : Sock) × (newstyle_handshake serve is_utf8 dirty c
          ≡ (ok tt, record (told_all infos s) { sock = sock; state = transmission }))
        × (sock.incoming ≡ rest)
        × (sock.sent ≡ s.sock.sent ++ request s)
  unfolding newstyle_handshake
  newstyle_handshake_sized dirty infos rest size flags c s before e fits has_size has_flags =
      let (sock, got, left, sent) = option_lem infos rest s e fits in
      let agreed : negotiate_go_option serve is_utf8 s
          ≡ (ok tt, with_sock (told_all infos s) sock) =
        got ∙ rw (has_size, has_flags) refl in
      (
        sock,
        then_by (λ _. go serve is_utf8) before
            ∙ then_by (λ _. modify (λ c. record c { state = transmission })) agreed,
        left,
        sent,
      )
