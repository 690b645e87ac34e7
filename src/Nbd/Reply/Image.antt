-- ===== src/Nbd/Reply/Image.antt =====
-- The bytes of an image that the chunks of a reply have, for ovirt_imageio/_internal/nbd.py.
use ovirt_imageio.Base.{
  ℕ, ◌+◌, ◌-◌, ◌≤◌, ◌<◌, ◌≡◌, refl, ap, sym, subst, ◌∙◌, Bool, false, ◌&&◌, ◌||◌, List, [], ◌∷◌,
  arith, ltb, leb, if◌then◌else◌, length, replicate, length-replicate, ltb-cases, inl, inr,
}
use ovirt_imageio.Base.Bytes.{byte_at, byte_at-zeros}
use ovirt_imageio.Backends.Memory.Contents.{byte_at-overlay}
use ovirt_imageio.Backends.Memory.{overlay}
use ovirt_imageio.Nbd.Reply.Whole.{length-filled}
use ovirt_imageio.Nbd.Reply.Server.{
  Chunk, data_chunk, hole_chunk, error_chunk, none_chunk, Fits, AllFit, filled, filled_all,
}

-- Whether a chunk says what the byte at an offset of the image is.
unfoldable pub covers : Chunk → ℕ → Bool
covers (data_chunk at bytes) i = leb at i && ltb i (at + length bytes)
covers (hole_chunk at count) i = leb at i && ltb i (at + count)
covers (error_chunk e) i = false
covers none_chunk i = false

unfoldable pub covers_all : List Chunk → ℕ → Bool
unfolding covers
covers_all [] i = false
covers_all (chunk ∷ chunks) i = covers chunk i || covers_all chunks i

-- The chunk has the bytes of the image.
unfoldable pub Agrees : (ℕ → ℕ) → Chunk → Type 0
Agrees image (data_chunk at bytes) = (j : ℕ) → j < length bytes → byte_at bytes j ≡ image (at + j)
Agrees image (hole_chunk at count) = (j : ℕ) → j < count → 0 ≡ image (at + j)
Agrees image (error_chunk e) = Unit
Agrees image none_chunk = Unit

unfoldable pub AllAgree : (ℕ → ℕ) → List Chunk → Type 0
unfolding Agrees
AllAgree image [] = Unit
AllAgree image (chunk ∷ chunks) = Agrees image chunk × AllAgree image chunks

pub overlaid_byte :
    (image : ℕ → ℕ) (offset at : ℕ) (bytes buf : List ℕ) (i : ℕ)
    → offset ≤ at
    → at + length bytes ≤ offset + length buf
    → (byte : (j : ℕ) → j < length bytes → byte_at bytes j ≡ image (at + j))
    → byte_at (overlay (at - offset) bytes buf) i ≡ (
        if leb at (offset + i) && ltb (offset + i) (at + length bytes)
        then image (offset + i)
        else byte_at buf i)
overlaid_byte image offset at bytes buf i low high byte =
    let e = byte_at-overlay (at - offset) bytes buf i (omega (arith, low, high)) in
    elim (ltb-cases (offset + i) at) [
      | inl (_, before) ↦ ground (arith, e)
      | inr (_, from) ↦ elim (ltb-cases (offset + i) (at + length bytes)) [
        | inl (_, inside) ↦
            let same : at + (offset + i - at) ≡ offset + i = omega arith in
            let same' : i - (at - offset) ≡ offset + i - at = omega arith in
            let b = byte (offset + i - at) (omega arith) in
            ground (arith, e, b, ap image same, ap (byte_at bytes) same')
        | inr (_, past) ↦ ground (arith, e)
      ]
    ]

pub filled_byte :
    (image : ℕ → ℕ) (offset : ℕ) (last : Bool) (chunk : Chunk) (buf : List ℕ) (i : ℕ)
    → Fits offset (length buf) last chunk
    → Agrees image chunk
    → byte_at (filled offset chunk buf) i
      ≡ (if covers chunk (offset + i) then image (offset + i) else byte_at buf i)
unfolding Fits Agrees filled covers
filled_byte image offset last (data_chunk at bytes) buf i (_, low, high, _) agrees =
    overlaid_byte image offset at bytes buf i low high agrees
filled_byte image offset last (hole_chunk at count) buf i (_, low, high, _, _) agrees =
    let z : ℕ = 0 in
    let size : length (replicate count z) ≡ count = length-replicate count z in
    subst
      (λ n. byte_at (overlay (at - offset) (replicate count 0) buf) i ≡ (
        if leb at (offset + i) && ltb (offset + i) (at + n)
        then image (offset + i)
        else byte_at buf i))
      size
      (overlaid_byte image offset at (replicate count 0) buf i low (omega (arith, size, high))
        (λ j lt. byte_at-zeros count j ∙ agrees j (omega (arith, size, lt))))
filled_byte image offset last (error_chunk e) buf i fits agrees = refl
filled_byte image offset last none_chunk buf i fits agrees = refl

pub filled_all_byte :
    (image : ℕ → ℕ) (offset : ℕ) (chunks : List Chunk) (buf : List ℕ) (i : ℕ)
    → AllFit offset (length buf) chunks
    → AllAgree image chunks
    → byte_at (filled_all offset chunks buf) i
      ≡ (if covers_all chunks (offset + i) then image (offset + i) else byte_at buf i)
unfolding AllFit AllAgree filled_all covers_all
filled_all_byte image offset [] buf i fits agree = refl
filled_all_byte image offset (chunk ∷ chunks) buf i (fits, all) (agrees, agree) =
    let size = sym (length-filled offset false chunk buf fits) in
    ground (
      arith,
      filled_all_byte image offset chunks (filled offset chunk buf) i
          (subst (λ n. AllFit offset n chunks) size all) agree,
      filled_byte image offset false chunk buf i fits agrees,
    )

pub length-filled_all :
    (offset : ℕ) (chunks : List Chunk) (buf : List ℕ)
    → AllFit offset (length buf) chunks
    → length (filled_all offset chunks buf) ≡ length buf
unfolding AllFit filled_all
length-filled_all offset [] buf fits = refl
length-filled_all offset (chunk ∷ chunks) buf (fits, all) =
    let size = length-filled offset false chunk buf fits in
    length-filled_all offset chunks (filled offset chunk buf)
      (subst (λ n. AllFit offset n chunks) (sym size) all)
    ∙ size
