-- ===== src/Nbd/Handshake/Go.antt =====
-- NBD_OPT_GO in the handshake of ovirt_imageio/_internal/nbd.py with a server that keeps to the protocol.
use ovirt_imageio.Base.{ℕ, ◌^◌, ◌<◌, ◌≡◌, refl, Bool, true, List, ◌++◌, ◌==◌, length}
use ovirt_imageio.Base.Exec.{ok}
use ovirt_imageio.Nbd.Wire.{pack, field, number-pack}
use ovirt_imageio.Nbd.Sock.{Sock}
use ovirt_imageio.Nbd.Client.{Client}
use ovirt_imageio.Nbd.Reply.Recv.{recv_lem, with_sock}
use ovirt_imageio.Nbd.Handshake.{recv_option_reply, recv_export_info, recv_blocksize_info}
use ovirt_imageio.Nbd.Handshake.Server.{export, block_size, reply_header, Fits, told}

pub field_0_2 : (n : ℕ) → n < 256 ^ 2 → field 0 2 (pack 2 n) ≡ n
unfolding field pack
field_0_2 n h = number-pack 2 n h

module _ (type size : ℕ) where
  pub length-reply_header : length (reply_header type size) ≡ 20
  unfolding reply_header pack
  length-reply_header = refl

  magic_lem : (field 0 8 (reply_header type size) == 0x3e889045565a9) ≡ true
  unfolding reply_header field pack
  magic_lem = refl

  option_lem : (field 8 4 (reply_header type size) == 7) ≡ true
  unfolding reply_header field pack
  option_lem = refl

  type_lem : type < 256 ^ 4 → field 12 4 (reply_header type size) ≡ type
  unfolding reply_header field pack
  type_lem h = number-pack 4 type h

  size_lem : size < 256 ^ 4 → field 16 4 (reply_header type size) ≡ size
  unfolding reply_header field pack
  size_lem h = number-pack 4 size h

module _ (size flags : ℕ) where
  size_field : size < 256 ^ 8 → field 0 8 (pack 8 size ++ pack 2 flags) ≡ size
  unfolding field pack
  size_field h = number-pack 8 size h

  flags_field : flags < 256 ^ 2 → field 8 2 (pack 8 size ++ pack 2 flags) ≡ flags
  unfolding field pack
  flags_field h = number-pack 2 flags h

  length-export : length (pack 8 size ++ pack 2 flags) ≡ 10
  unfolding pack
  length-export = refl

module _ (a b c : ℕ) where
  minimum_field : a < 256 ^ 4 → field 0 4 (pack 4 a ++ pack 4 b ++ pack 4 c) ≡ a
  unfolding field pack
  minimum_field h = number-pack 4 a h

  preferred_field : b < 256 ^ 4 → field 4 4 (pack 4 a ++ pack 4 b ++ pack 4 c) ≡ b
  unfolding field pack
  preferred_field h = number-pack 4 b h

  maximum_field : c < 256 ^ 4 → field 8 4 (pack 4 a ++ pack 4 b ++ pack 4 c) ≡ c
  unfolding field pack
  maximum_field h = number-pack 4 c h

  length-sizes : length (pack 4 a ++ pack 4 b ++ pack 4 c) ≡ 12
  unfolding pack
  length-sizes = refl

module _ (serve : ℕ → ℕ) (serves : (k : ℕ) → 0 < serve k) (is_utf8 : List ℕ → Bool) where
  pub header_lem :
      (type size : ℕ) (rest : List ℕ) (c : Client)
      → c.sock.incoming ≡ reply_header type size ++ rest
      → type < 256 ^ 4
      → size < 256 ^ 4
      → (sock : Sock) × (recv_option_reply serve is_utf8 7 c ≡ (ok (type, size), with_sock c sock))
        × (sock.incoming ≡ rest)
        × (sock.sent ≡ c.sock.sent)
  unfolding recv_option_reply
  header_lem type size rest c e fits fits' =
      let (sock, got, left, same) =
        recv_lem serve serves 20 (reply_header type size) rest c e
          (length-reply_header type size) in
      (
        sock,
        rw
            (
              got,
              magic_lem type size,
              option_lem type size,
              type_lem type size fits,
              size_lem type size fits',
            )
            refl,
        left,
        same,
      )

  pub export_lem :
      (size flags : ℕ) (rest : List ℕ) (c : Client)
      → c.sock.incoming ≡ (pack 8 size ++ pack 2 flags) ++ rest
      → size < 256 ^ 8
      → flags < 256 ^ 2
      → (sock : Sock) × (recv_export_info serve is_utf8 10 c
          ≡ (ok tt, with_sock (told (export size flags) c) sock))
        × (sock.incoming ≡ rest)
        × (sock.sent ≡ c.sock.sent)
  unfolding recv_export_info told
  export_lem size flags rest c e h h' =
      let (sock, got, left, same) =
        recv_lem serve serves 10 (pack 8 size ++ pack 2 flags) rest c e
          (length-export size flags) in
      (sock, rw (got, size_field size flags h, flags_field size flags h') refl, left, same)

  pub sizes_lem :
      (a b d : ℕ) (rest : List ℕ) (c : Client)
      → c.sock.incoming ≡ (pack 4 a ++ pack 4 b ++ pack 4 d) ++ rest
      → Fits (block_size a b d)
      → (sock : Sock) × (recv_blocksize_info serve is_utf8 12 c
          ≡ (ok tt, with_sock (told (block_size a b d) c) sock))
        × (sock.incoming ≡ rest)
        × (sock.sent ≡ c.sock.sent)
  unfolding recv_blocksize_info told Fits
  sizes_lem a b d rest c e (h, h', h'') =
      let (sock, got, left, same) =
        recv_lem serve serves 12 (pack 4 a ++ pack 4 b ++ pack 4 d) rest c e (length-sizes a b d) in
      (
        sock,
        rw (got, minimum_field a b d h, preferred_field a b d h', maximum_field a b d h'') refl,
        left,
        same,
      )
