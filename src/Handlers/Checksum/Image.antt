-- ===== src/Handlers/Checksum/Image.antt =====
-- The digest of ovirt_imageio/_internal/handlers/checksum.py and the digest of the image as a file.
use ovirt_imageio.Base.{
  ℕ, zero, suc, ◌+◌, ◌≤◌, ◌<◌, ◌≡◌, refl, ap, sym, subst, ◌∙◌, ◌⊎◌, inl, inr, Bool, true, false,
  ◌&&◌, List, [], ◌∷◌, ◌++◌, arith, if◌then◌else◌, length, take, drop, replicate, length-take,
  length-drop, length-replicate, Bool-cases, ==-cases, append-nil, append_assoc, take-append-drop,
  drop-drop,
}
use ovirt_imageio.Base.Bytes.{byte_at, byte_at-take, byte_at-drop, byte_at-zeros, byte_at-ext}
use ovirt_imageio.Base.Exec.{Exec, Result, ok, err, then_by, continue, gets, modify, ◌>>=◌}
use ovirt_imageio.Extent.{ZeroExtent}
use ovirt_imageio.Backends.{Backend, Error}
use ovirt_imageio.Blkhash.{Block, split}
use ovirt_imageio.Blkhash.Blocks.{Covered, Tiles, bytes, split_lem}
use ovirt_imageio.Blkhash.Hash.{
  Hash, new_hash, update, zero_block, digest, digests, joined, IsBlocks, checksum, checksum_lem,
}
use ovirt_imageio.Blkhash.Zeros.{is_zero, is_zero-replicate}
use ovirt_imageio.Ops.Canceled.{GoesOn, Stopped, Checked, GoesOn-Checked, Stopped-Checked}
use ovirt_imageio.Handlers.Checksum.{
  Hashing, Failure, canceled_error, call, hash_view, hash_block, finish_block, run_blocks, run,
  start,
}

-- The backend holds `content`, and a read inside it stores all the bytes that it is asked for.
pub record IsFullReader {S : Type 0} (b : Backend S) (Ready : S → Type 0) (position : S → ℕ)
    (content : List ℕ) : Type 0 where
  pub seeks :
      (n : ℕ) (s : S) → Ready s → (t : S) × (b.seek n s ≡ (ok n, t)) × Ready t × (position t ≡ n)
  pub reads :
      (n : ℕ) (s : S)
      → Ready s
      → position s + n ≤ length content
      → (t : S) × (b.readinto n s ≡ (ok (take n (drop (position s) content)), t)) × Ready t

take-length : (xs ys : List ℕ) (n : ℕ) → length xs ≡ n → take n (xs ++ ys) ≡ xs
take-length [] ys zero e = refl
take-length [] ys (suc n) e = absurd (omega arith)
take-length (x ∷ xs) ys zero e = absurd (omega arith)
take-length (x ∷ xs) ys (suc n) e = ap (λ zs. x ∷ zs) (take-length xs ys n (omega arith))

abbrev pub slice : List ℕ → ℕ → ℕ → List ℕ
slice content start size = take size (drop start content)

abbrev slices : List ℕ → List Block → List (List ℕ)
slices content [] = []
slices content (b ∷ bs) = slice content b.start b.length ∷ slices content bs

slice-length :
    (content : List ℕ) (start size : ℕ)
    → start + size ≤ length content
    → length (slice content start size) ≡ size
slice-length content start size le =
    omega (arith, length-take size (drop start content), length-drop start content)

and-right : (a b : Bool) → (a && b) ≡ true → b ≡ true
and-right true b e = e
and-right false b e = cc

Tiles-le :
    (z : ℕ → Bool) (block_size : ℕ) (blocks : List Block) (o end : ℕ)
    → Tiles z block_size o blocks end
    → o ≤ end
Tiles-le z block_size [] o end e = omega (arith, e)
Tiles-le z block_size (x ∷ xs) o end (_, _, _, _, _, tiles) =
    omega (arith, Tiles-le z block_size xs (o + x.length) end tiles)

-- A slice of zeros.
slice-zeros :
    (content : List ℕ) (start size : ℕ)
    → start + size ≤ length content
    → ((i : ℕ) → start ≤ i → i < start + size → byte_at content i ≡ 0)
    → slice content start size ≡ replicate size 0
slice-zeros content start size le zeros =
    let z : ℕ = 0 in
    byte_at-ext (slice content start size) (replicate size 0)
      (slice-length content start size le ∙ sym (length-replicate size z))
      (λ i lt. ground (
        arith,
        byte_at-take size (drop start content) i,
        byte_at-drop start content i,
        byte_at-zeros size i,
        slice-length content start size le,
        zeros (start + i) (omega arith) (omega (arith, slice-length content start size le)),
      ))

drop-all : (xs : List ℕ) (n : ℕ) → n ≡ length xs → drop n xs ≡ []
drop-all [] zero e = refl
drop-all [] (suc n) e = refl
drop-all (x ∷ xs) zero e = absurd (omega arith)
drop-all (x ∷ xs) (suc n) e = drop-all xs n (omega arith)

slices-IsBlocks :
    (z : ℕ → Bool) (block_size : ℕ) (content : List ℕ) (blocks : List Block) (o end : ℕ)
    → Tiles z block_size o blocks end
    → end ≤ length content
    → IsBlocks block_size (slices content blocks)
slices-IsBlocks z block_size content [] o end tiles le = tt
slices-IsBlocks z block_size content (x ∷ xs) o end (at, some_bytes, fits, last, _, tiles) le =
    let size =
      slice-length content x.start x.length
        (omega (arith, at, le, Tiles-le z block_size xs (o + x.length) end tiles)) in
    (
      omega (arith, size, some_bytes),
      omega (arith, size, fits),
      λ short. ap (slices content) (last (omega (arith, size, short))),
      slices-IsBlocks z block_size content xs (o + x.length) end tiles le,
    )

-- The blocks are the content.
joined-slices :
    (z : ℕ → Bool) (block_size : ℕ) (content : List ℕ) (blocks : List Block) (o : ℕ)
    → Tiles z block_size o blocks (length content)
    → joined (slices content blocks) ≡ drop o content
joined-slices z block_size content [] o tiles = sym (drop-all content o tiles)
joined-slices z block_size content (x ∷ xs) o (at, _, _, _, _, tiles) =
    ap (λ p. take x.length (drop p content) ++ joined (slices content xs)) at
    ∙ ap (λ ys. take x.length (drop o content) ++ ys)
        (joined-slices z block_size content xs (o + x.length) tiles
          ∙ sym (drop-drop x.length o (o + x.length) content refl))
    ∙ take-append-drop x.length (drop o content)

module _ (func : List ℕ → List ℕ) {S : Type 0} (b : Backend S) (Ready : S → Type 0)
    (position : S → ℕ) (content : List ℕ) (reader : IsFullReader b Ready position content)
    (block_size : ℕ) (detect_zeroes : Bool) (canceled : ℕ → Bool) where
  abbrev IsNew : Hash func → Type 0
  IsNew h = (h.block_size ≡ block_size) × (h.zero_block_digest ≡ func (replicate block_size 0))

  -- The hash once more bytes were added.
  abbrev added : Hash func → List ℕ → Hash func
  added h bytes = record h { hash = h.hash ++ func bytes }

  zero_lem : (n : ℕ) (h : Hash func) → IsNew h → zero_block func n h ≡ added h (replicate n 0)
  unfolding zero_block
  zero_lem n h (size, zeros) = elim (==-cases n h.block_size) [
    | inl (e, same) ↦ rw e (
        ap (λ d. record h { hash = h.hash ++ d })
          (zeros ∙ ap (λ k. func (replicate k 0)) (sym (same ∙ size))))
    | inr (e, _) ↦ rw e refl
  ]

  view_lem :
      (size : ℕ) (bytes : List ℕ) (s : Hashing func S)
      → IsNew s.hash
      → length bytes ≡ size
      → (hash_view func b detect_zeroes canceled size bytes s).hash ≡ added s.hash bytes
  unfolding hash_view update
  view_lem size bytes s new e =
      let view : take size (bytes ++ drop (length bytes) s.buf) ≡ bytes =
        take-length bytes (drop (length bytes) s.buf) size e in
      elim (Bool-cases (detect_zeroes && is_zero bytes)) [
        | inl t ↦
            let zeros : bytes ≡ replicate size 0 =
              is_zero-replicate bytes (and-right detect_zeroes (is_zero bytes) t)
              ∙ ap (λ n. replicate n 0) e in
            rw (view, t) (zero_lem size s.hash new ∙ ap (added s.hash) (sym zeros))
        | inr f ↦ rw (view, f) refl
      ]

  -- A block adds its bytes to the hash.
  record IsHashed (bytes : List ℕ) (s t : Hashing func S) : Type 0 where
    ready : Ready t.backend
    hashed : t.hash ≡ added s.hash bytes
    done : t.done ≡ s.done
    blocks : t.blocks ≡ s.blocks

  called :
      {A : Type 0} (m : S → Result Error A × S) (a : A) (s : Hashing func S) (t : S)
      → m s.backend ≡ (ok a, t)
      → call func b detect_zeroes canceled m s ≡ (ok a, record s { backend = t })
  called m a s t e = rw e refl

  block_lem :
      (from size : ℕ) (is_zeros : Bool) (s : Hashing func S)
      → Ready s.backend
      → IsNew s.hash
      → from + size ≤ length content
      → (is_zeros ≡ true → (i : ℕ) → from ≤ i → i < from + size → byte_at content i ≡ 0)
      → (t : Hashing func S) × (hash_block func b detect_zeroes canceled from size is_zeros s
          ≡ (ok tt, t))
        × IsHashed (slice content from size) s t
  unfolding hash_view
  block_lem from size true s r new le zeros = (
    record s { hash = zero_block func size s.hash },
    refl,
    record {
      ready = r;
      hashed =
          zero_lem size s.hash new
          ∙ ap (added s.hash) (sym (slice-zeros content from size le (zeros refl)));
      done = refl;
      blocks = refl;
    },
  )
  block_lem from size false s r new le zeros =
      let (u, sought, ru, at) = reader.seeks from s.backend r in
      let (v, got, rv) = reader.reads size u ru (omega (arith, at, le)) in
      let got' : b.readinto size u ≡ (ok (slice content from size), v) =
        got ∙ ap (λ p. (ok (slice content p size), v)) at in
      let s' : Hashing func S = record s { backend = u } in
      let s'' : Hashing func S = record s { backend = v } in
      (
        hash_view func b detect_zeroes canceled size (slice content from size) s'',
        then_by
              (λ _. call func b detect_zeroes canceled (b.readinto size) >>= λ bytes.
                modify (hash_view func b detect_zeroes canceled size bytes))
              (called (b.seek from) from s u sought)
            ∙ then_by (λ bytes. modify (hash_view func b detect_zeroes canceled size bytes))
                (called (b.readinto size) (slice content from size) s' v got'),
        record {
          ready = rv;
          hashed =
              view_lem size (slice content from size) s'' new (slice-length content from size le);
          done = refl;
          blocks = refl;
        },
      )

  module _ (z : ℕ → Bool) (zeros : (i : ℕ) → z i ≡ true → byte_at content i ≡ 0) where
    abbrev go_on : List Block → ℕ → Unit {0} → Exec Failure (Hashing func S) (Unit {0})
    go_on blocks size _ = finish_block func b detect_zeroes canceled size >>= λ _.
        run_blocks func b detect_zeroes canceled blocks

    -- What the loop ends with: it was canceled, or it has hashed the bytes from `o` to `end`.
    abbrev Ends :
        List Block → ℕ → ℕ → Hashing func S → Result Failure (Unit {0}) × Hashing func S → Type 0
    Ends blocks o end s p =
        (t : Hashing func S) × (((p ≡ (err canceled_error, t)) × Stopped canceled t.blocks)
          ⊎ ((p ≡ (ok tt, t))
              × GoesOn canceled t.blocks
              × (t.hash.hash ≡ s.hash.hash ++ digests func (slices content blocks))
              × (t.done + o ≡ s.done + end)))

    finish_lem :
        (size : ℕ) (s : Hashing func S) (cancels : Bool)
        → canceled s.blocks ≡ cancels
        → finish_block func b detect_zeroes canceled size s ≡ (
          if cancels then err canceled_error else ok tt,
          record s { done = s.done + size; blocks = s.blocks + 1 },
        )
    unfolding finish_block
    finish_lem size s cancels e =
        ap
          (λ c. (
            if c then err canceled_error else ok tt,
            record s { done = s.done + size; blocks = s.blocks + 1 },
          ))
          e

    run_blocks_lem :
        (blocks : List Block) (o end : ℕ) (s : Hashing func S)
        → Ready s.backend
        → IsNew s.hash
        → Tiles z block_size o blocks end
        → end ≤ length content
        → GoesOn canceled s.blocks
        → Ends blocks o end s (run_blocks func b detect_zeroes canceled blocks s)
    unfolding run_blocks
    run_blocks_lem [] o end s r new tiles le g =
        (s, inr (refl, g, sym (append-nil s.hash.hash), ap (λ n. s.done + n) tiles))
    run_blocks_lem (x ∷ xs) o end s r new (at, some_bytes, fits, last, exact, tiles) le g =
        let inside : x.start + x.length ≤ length content =
          omega (arith, at, le, Tiles-le z block_size xs (o + x.length) end tiles) in
        let (t, hashed, h) =
          block_lem x.start x.length x.zero s r new inside
            (λ e i low high. zeros i (exact.zeros e i (low, high))) in
        let u : Hashing func S = record t { done = t.done + x.length; blocks = t.blocks + 1 } in
        let now : (flag : Bool)
            → canceled t.blocks ≡ flag
            → Checked canceled flag s.blocks u.blocks =
          λ flag c. (ap canceled (sym h.blocks) ∙ c, ap (λ n. n + 1) h.blocks) in
        elim (Bool-cases (canceled t.blocks)) [
          | inl c ↦ (
            u,
            inl (
              then_by (go_on xs x.length) hashed
                  ∙ ap (λ p. continue p (λ _. run_blocks func b detect_zeroes canceled xs))
                      (finish_lem x.length t true c),
              Stopped-Checked canceled s.blocks u.blocks (now true c) g,
            ),
          )
          | inr c ↦
              let new' : IsNew u.hash = (
                ap (λ k. k.block_size) h.hashed ∙ new.0,
                ap (λ k. k.zero_block_digest) h.hashed ∙ new.1,
              ) in
              let step =
                then_by (go_on xs x.length) hashed
                ∙ then_by (λ _. run_blocks func b detect_zeroes canceled xs)
                    (finish_lem x.length t false c) in
              let (v, ends) =
                run_blocks_lem xs (o + x.length) end u h.ready new' tiles le
                  (GoesOn-Checked canceled s.blocks u.blocks (now false c) g) in
              (
                v,
                elim ends [
                  | inl (e, stop) ↦ inl (step ∙ e, stop)
                  | inr (e, go, rest, moved) ↦ inr (
                    step ∙ e,
                    go,
                    rest
                        ∙ ap (λ k. k.hash ++ digests func (slices content xs)) h.hashed
                        ∙ append_assoc s.hash.hash (func (slice content x.start x.length))
                            (digests func (slices content xs)),
                    omega (arith, moved, h.done),
                  )
                ],
              )
        ]

    -- The operation on a backend that holds an image and whose reads inside it are full, with extents
    -- that cover the image and are zero only where it has zeros, and with a buffer that is not empty: it
    -- returns the checksum that the same image has as a file, with and without the detection of zeroes,
    -- all bytes are done, and the cancel flag was not set when any block ended; or it raises the
    -- cancellation, and the flag was set when its last block ended and not before.
    pub run_lem :
        (extents : List ZeroExtent) (s : S) (buf : List ℕ) (detects : Bool)
        → Ready s
        → length buf ≡ block_size
        → 0 < block_size
        → Covered z 0 extents
        → bytes extents ≡ length content
        → (t : Hashing func S) × (((run func b detect_zeroes canceled extents
                  (start func b detect_zeroes canceled s buf)
                ≡ (err canceled_error, t))
              × Stopped canceled t.blocks)
            ⊎ ((run func b detect_zeroes canceled extents
                    (start func b detect_zeroes canceled s buf)
                  ≡ (ok (checksum func detects block_size content), t))
                × GoesOn canceled t.blocks
                × (t.done ≡ length content)))
    unfolding run start new_hash digest
    run_lem extents s buf detects r size pos covered all =
        let blocks = split extents block_size in
        let tiles : Tiles z block_size 0 blocks (length content) =
          subst (λ n. Tiles z block_size 0 blocks n) (omega (arith, all))
            (split_lem z block_size 0 extents pos covered) in
        let first = start func b detect_zeroes canceled s buf in
        let sized : run func b detect_zeroes canceled extents first
            ≡ (run_blocks func b detect_zeroes canceled blocks >>= λ _.
                  gets (λ s. digest func s.hash))
                first =
          ap
            (λ n.
              (run_blocks func b detect_zeroes canceled (split extents n) >>= λ _.
              gets (λ s. digest func s.hash))
                first)
            size in
        let (t, ends) =
          run_blocks_lem blocks 0 (length content) first r
            (size, ap (λ n. func (replicate n 0)) size) tiles (omega arith) tt in
        let whole : checksum func detects block_size content
            ≡ func (digests func (slices content blocks)) =
          ap (checksum func detects block_size)
            (sym (joined-slices z block_size content blocks 0 tiles))
          ∙ checksum_lem func detects block_size (slices content blocks) pos (
              slices-IsBlocks z block_size content blocks 0 (length content) tiles (omega arith)) in
        (
          t,
          elim ends [
            | inl (e, stop) ↦
                inl (sized ∙ ap (λ p. continue p (λ _. gets (λ s. digest func s.hash))) e, stop)
            | inr (e, go, hashed, done) ↦ inr (
              sized
                  ∙ then_by (λ _. gets (λ s. digest func s.hash)) e
                  ∙ ap (λ h. (ok (func h), t)) hashed
                  ∙ ap (λ d. (ok d, t)) (sym whole),
              go,
              omega (arith, done),
            )
          ],
        )
