-- ===== src/Nbd/Handshake/Server.antt =====
-- What a server may send in reply to NBD_OPT_GO, in the words of the NBD protocol, and what it tells the
-- client of ovirt_imageio/_internal/nbd.py.
use ovirt_imageio.Base.{ℕ, ◌+◌, ◌^◌, ◌<◌, ◌≢◌, some, List, [], ◌∷◌, ◌++◌, length}
use ovirt_imageio.Nbd.Wire.{pack}
use ovirt_imageio.Nbd.Client.{Client}

-- NBD_INFO_EXPORT, NBD_INFO_BLOCK_SIZE, and information of another type.
pub data Info : Type 0 where
  export : ℕ → ℕ → Info
  block_size : ℕ → ℕ → ℕ → Info
  other : ℕ → List ℕ → Info

unfoldable pub payload : Info → List ℕ
unfolding pack
payload (export size flags) = pack 2 0 ++ pack 8 size ++ pack 2 flags
payload (block_size minimum preferred maximum) =
    pack 2 3 ++ pack 4 minimum ++ pack 4 preferred ++ pack 4 maximum
payload (other type bytes) = pack 2 type ++ bytes

-- The header of a reply to the option 7.
unfoldable pub reply_header : ℕ → ℕ → List ℕ
unfolding pack
reply_header type size = pack 8 0x3e889045565a9 ++ pack 4 7 ++ pack 4 type ++ pack 4 size

-- The information replies, of type 3, and the acknowledgement, of type 1.
unfoldable pub encode : List Info → List ℕ
unfolding payload reply_header
encode [] = reply_header 1 0
encode (info ∷ infos) = reply_header 3 (length (payload info)) ++ payload info ++ encode infos

unfoldable pub Fits : Info → Type 0
unfolding payload
Fits (export size flags) = (size < 256 ^ 8) × (flags < 256 ^ 2)
Fits (block_size minimum preferred maximum) =
    (minimum < 256 ^ 4) × (preferred < 256 ^ 4) × (maximum < 256 ^ 4)
Fits (other type bytes) = (type < 256 ^ 2) × (type ≢ 0) × (type ≢ 3) × (2 + length bytes < 256 ^ 4)

unfoldable pub AllFit : List Info → Type 0
unfolding Fits
AllFit [] = Unit
AllFit (info ∷ infos) = Fits info × AllFit infos

-- What the client knows once it was told.
unfoldable pub told : Info → Client → Client
told (export size flags) c = record c { export_size = some size; transmission_flags = some flags }
told (block_size minimum preferred maximum) c = record c {
  minimum_block_size = minimum;
  preferred_block_size = preferred;
  maximum_block_size = maximum;
}
told (other type bytes) c = c

unfoldable pub told_all : List Info → Client → Client
unfolding told
told_all [] c = c
told_all (info ∷ infos) c = told_all infos (told info c)
