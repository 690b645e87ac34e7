-- ===== src/Ops/Chunks.antt =====
-- `Read` of ovirt_imageio/_internal/ops.py: one chunk and the content of the backend.
use native.Mathlib.Nat.{mod-add-mod}
use ovirt_imageio.Base.{
  ℕ, ◌+◌, ◌-◌, ◌%◌, ◌≤◌, ◌<◌, min, ◌≡◌, refl, ap, sym, ◌∙◌, Bool, true, false, ◌⊎◌, inl, inr, List,
  ◌++◌, arith, ltb, if◌then◌else◌, length, take, drop, length-take, length-drop, ==-cases, ==_iff,
  Bool-cases, leb-cases, subst, take-take-drop, drop-drop, take-drop-take,
}
use ovirt_imageio.Base.Exec.{Result, ok, err}
use ovirt_imageio.Util.{round_up, rounding}
use ovirt_imageio.Backends.{Backend}
use ovirt_imageio.Backends.Reader.{IsReader}
use ovirt_imageio.Ops.Canceled.{Checked}
use ovirt_imageio.Ops.Steps.{read_chunk-unaligned, read_chunk-empty, read_chunk-bytes}
use ovirt_imageio.Ops.{Raised, canceled_error, partial_content, Run, read_chunk}

le_of_mod : (c m : ℕ) → 0 < c → c % m ≡ 0 → m ≤ c
le_of_mod c m h e = grind arith

mod-add : (a c m : ℕ) → a % m ≡ 0 → c % m ≡ 0 → (a + c) % m ≡ 0
mod-add a c m e f =
    let z : 0 + c ≡ c = omega arith in
    sym (mod-add-mod a m c) ∙ ap (λ n. (n + c) % m) e ∙ ap (λ n. n % m) z ∙ f

ltb-false : (a b : ℕ) → b ≤ a → ltb a b ≡ false
ltb-false a b h = ground arith

module _ {S : Type 0} (b : Backend S) (Ready : S → Type 0) (position : S → ℕ) (content : List ℕ)
    (block_size : ℕ) (reader : IsReader b Ready position content block_size)
    (size offset buf_size : ℕ) (canceled : ℕ → Bool) (aligned : buf_size % block_size ≡ 0)
    (buffer : 0 < buf_size) (inside : offset ≤ length content) where
  -- What is sent so far, when `todo` bytes are left, is the start of the requested range.
  pub record IsSent (r : Run S) : Type 0 where
    pub todo_le : r.todo ≤ size
    pub sent : r.sent ≡ take (size - r.todo) (drop offset content)
    pub within : offset + (size - r.todo) ≤ length content

  -- Where the chunks are read from.
  abbrev pub IsAligned : ℕ → S → Type 0
  IsAligned skip s =
      (position s + skip ≤ length content)
      × ((position s % block_size ≡ 0) ⊎ ((position s ≡ length content) × (skip ≡ 0)))

  -- The state between two chunks: as long as bytes are left, the position is where they begin.
  pub record IsReading (r : Run S) : Type 0 where
    pub ready : Ready r.backend
    pub is_sent : IsSent r
    pub at : 0 < r.todo → position r.backend ≡ offset + (size - r.todo)
    pub whole : 0 < r.todo → IsAligned 0 r.backend

  -- How a chunk ends: with fewer bytes left, after a cancellation, or at the end of the content.
  abbrev pub Chunk : ℕ → Run S → Result Raised (Unit {0}) × Run S → Type 0
  Chunk skip r (x, r') =
      IsReading r'
      × (((x ≡ ok tt) × (skip ≡ 0 → r'.todo < r.todo) × Checked canceled false r.chunks r'.chunks)
          ⊎ ((x ≡ err canceled_error) × Checked canceled true r.chunks r'.chunks)
          ⊎ ((x ≡ err (partial_content size r'.todo))
              × (r'.chunks ≡ r.chunks)
              × (0 < r'.todo)
              × (offset + (size - r'.todo) ≡ length content)))

  -- The bytes that a chunk adds.
  sent-append :
      (r : Run S) (p skip count n : ℕ)
      → IsSent r
      → p + skip ≡ offset + (size - r.todo)
      → n + skip ≤ count
      → n ≤ r.todo
      → r.sent ++ take n (drop skip (take count (drop p content)))
        ≡ take (size - (r.todo - n)) (drop offset content)
  sent-append r p skip count n s at h le =
      rw (s.sent, take-drop-take n skip count (drop p content) h)
        (rw (drop-drop skip p (offset + (size - r.todo)) content at) (
          sym (
            take-take-drop (size - r.todo) n (size - (r.todo - n)) (drop offset content)
              (omega (arith, s.todo_le))
            ∙ ap (λ ys. take (size - r.todo) (drop offset content) ++ take n ys)
                (drop-drop (size - r.todo) offset (offset + (size - r.todo)) content refl))))

  -- A chunk that found nothing to read.
  empty_lem :
      (skip : ℕ) (r : Run S) (t : S)
      → IsSent r
      → 0 < r.todo
      → position r.backend + skip ≡ offset + (size - r.todo)
      → Ready t
      → position t ≡ position r.backend
      → ¬ (position r.backend < length content)
      → Chunk skip r (err (partial_content size r.todo), record r { backend = t })
  empty_lem skip r t s more at rd to last =
      let end : position r.backend ≡ length content = omega (arith, s.within, last) in
      (
        record {
          ready = rd;
          is_sent = record { todo_le = s.todo_le; sent = s.sent; within = s.within };
          at = λ h. omega (arith, s.within);
          whole = λ h. (omega (arith, s.within), inr (omega arith, refl));
        },
        inr (inr (refl, refl, more, omega (arith, s.within))),
      )

  -- A chunk that read `count` bytes, behind `skip` bytes of its first block.
  data_lem :
      (skip count : ℕ) (r : Run S) (t : S)
      → IsSent r
      → 0 < r.todo
      → position r.backend + skip ≡ offset + (size - r.todo)
      → Ready t
      → position t ≡ position r.backend + count
      → position t ≤ length content
      → 0 < count
      → skip ≤ count
      → (skip ≡ 0) ⊎ (skip < count) ⊎ (position t ≡ length content)
      → (position t % block_size ≡ 0) ⊎ (position t ≡ length content)
      → let n : ℕ = min (count - skip) r.todo in
        Chunk skip r (
          (if canceled r.chunks then err canceled_error else ok tt),
          record {
            backend = t;
            todo = r.todo - n;
            chunks = r.chunks + 1;
            sent = r.sent ++ take n (drop skip (take count (drop (position r.backend) content)));
          },
        )
  data_lem skip count r t s more at rd to end some_bytes le kind al =
      let n = min (count - skip) r.todo in
      (
        record {
          ready = rd;
          is_sent = record {
            todo_le = omega (arith, s.todo_le);
            sent = sent-append r (position r.backend) skip count n s at (omega arith) (omega arith);
            within = omega (arith, s.todo_le);
          };
          at = λ h. omega (arith, s.todo_le);
          whole = λ h. (omega arith, elim al [ inl even ↦ inl even | inr last ↦ inr (last, refl) ]);
        },
        elim (Bool-cases (canceled r.chunks)) [
          | inl yes' ↦ rw yes' (inr (inl (refl, (refl, refl))))
          | inr no' ↦ rw no' (inl (refl, λ z. omega arith, (refl, refl)))
        ],
      )

  view_lem :
      (todo : ℕ)
      → 0 < todo
      → (min buf_size (round_up todo block_size) % block_size ≡ 0)
        × (0 < min buf_size (round_up todo block_size))
  view_lem todo h =
      let (even, low, high, _, _, _) = rounding todo block_size reader.positive in
      elim (leb-cases buf_size (round_up todo block_size)) [
        | inl (t, le) ↦
            let e : min buf_size (round_up todo block_size) ≡ buf_size = omega arith in
            rw e (aligned, buffer)
        | inr (t, gt) ↦
            let e : min buf_size (round_up todo block_size) ≡ round_up todo block_size =
              omega arith in
            rw e (even, omega arith)
      ]

  -- A chunk whose read returned `count` bytes.
  counted_lem :
      (skip : ℕ) (r : Run S) (t : S) (count : ℕ)
      → IsSent r
      → 0 < r.todo
      → skip < block_size
      → position r.backend + skip ≡ offset + (size - r.todo)
      → position r.backend % block_size ≡ 0
      → Ready r.backend
      → b.readinto (min buf_size (round_up r.todo block_size)) r.backend
        ≡ (ok (take count (drop (position r.backend) content)), t)
      → Ready t
      → position t ≡ position r.backend + count
      → position t ≤ length content
      → (position r.backend < length content → 0 < count)
      → (count % block_size ≡ 0) ⊎ (position t ≡ length content)
      → Chunk skip r (read_chunk b size offset buf_size canceled skip r)
  counted_lem skip r t count s more lt at even rd e rt to end progress kind =
      let bytes = take count (drop (position r.backend) content) in
      let count_eq : length bytes ≡ count = omega (
        arith,
        length-take count (drop (position r.backend) content),
        length-drop (position r.backend) content,
      ) in
      let tells = reader.tells r.backend rd in
      let blocks = reader.same_block_size r.backend rd in
      let even' = (==_iff (position r.backend % block_size) 0).1 even in
      elim (==-cases (length bytes) 0) [
        | inl (none_left, z) ↦
            subst (Chunk skip r)
              (sym (
                read_chunk-empty b size offset buf_size canceled block_size (position r.backend) r
                  tells blocks skip t bytes even' e none_left))
              (empty_lem skip r t s more at rt (omega arith)
                (λ l. absurd (omega (arith, progress l))))
        | inr (some_left, nz) ↦
            let pos : 0 < count = omega arith in
            let enough : skip ≤ count = elim kind [
              | inl whole ↦ omega (arith, le_of_mod count block_size pos whole)
              | inr last ↦ omega (arith, s.within)
            ] in
            let next : (position t % block_size ≡ 0) ⊎ (position t ≡ length content) = elim kind [
              | inl whole ↦ inl (rw to (mod-add (position r.backend) count block_size even whole))
              | inr last ↦ inr last
            ] in
            let progressed : (skip ≡ 0) ⊎ (skip < count) ⊎ (position t ≡ length content) =
              elim kind [
                | inl whole ↦ inr (inl (omega (arith, le_of_mod count block_size pos whole)))
                | inr last ↦ inr (inr last)
              ] in
            subst (Chunk skip r)
              (sym (
                read_chunk-bytes b size offset buf_size canceled block_size (position r.backend) r
                  tells blocks skip t bytes even' e some_left
                  (ltb-false (length bytes) skip (omega arith))))
              (rw count_eq (data_lem skip count r t s more at rt to end pos enough progressed next))
      ]

  -- A chunk from an aligned position.
  pub aligned_lem :
      (skip : ℕ) (r : Run S)
      → Ready r.backend
      → IsSent r
      → 0 < r.todo
      → skip < block_size
      → position r.backend + skip ≡ offset + (size - r.todo)
      → position r.backend % block_size ≡ 0
      → Chunk skip r (read_chunk b size offset buf_size canceled skip r)
  aligned_lem skip r rd s more lt at even =
      let (whole_blocks, room) = view_lem r.todo more in
      let (t, count, e, rt, to, short, end, progress, kind) =
        reader.reads (min buf_size (round_up r.todo block_size)) r.backend rd even whole_blocks
          (omega (arith, s.within)) in
      counted_lem skip r t count s more lt at even rd e rt to end (progress room) kind

  -- A chunk of the loop.
  pub chunk_lem :
      (r : Run S)
      → 0 < r.todo
      → IsReading r
      → Chunk 0 r (read_chunk b size offset buf_size canceled 0 r)
  chunk_lem r more v =
      let at : position r.backend + 0 ≡ offset + (size - r.todo) = omega (arith, v.at more) in
      elim (==-cases (position r.backend % block_size) 0) [
        | inl (_, even) ↦ aligned_lem 0 r v.ready v.is_sent more reader.positive at even
        | inr (odd, ne) ↦
            subst (Chunk 0 r)
              (sym (
                read_chunk-unaligned b size offset buf_size canceled block_size (position r.backend)
                  r (reader.tells r.backend v.ready) (reader.same_block_size r.backend v.ready) 0
                  odd))
              (elim (v.whole more).1 [
                | inl even ↦ absurd (ne even)
                | inr (last, _) ↦ (v, inr (inr (refl, refl, more, omega arith)))
              ])
      ]
