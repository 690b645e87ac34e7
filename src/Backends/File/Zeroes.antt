-- ===== src/Backends/File/Zeroes.antt =====
-- `_zero` and `_zero_sparse` of ovirt_imageio/_internal/backends/file.py for a regular file.
use ovirt_imageio.Base.{
  ℕ, ◌+◌, ◌^◌, ◌≤◌, ◌<◌, ◌≡◌, refl, ap, sym, ◌∙◌, Bool, true, false, ◌&&◌, List, arith, ltb, leb,
  ◌==◌, if◌then◌else◌, inl, inr, length, leb-cases, ==-cases, Bool-cases,
}
use ovirt_imageio.Base.Bytes.{byte_at, byte_at-past}
use ovirt_imageio.Base.Exec.{then_by, Exec, ok, gets, ◌>>=◌}
use ovirt_imageio.Backends.{Error}
use ovirt_imageio.Backends.Writer.{overlaid}
use ovirt_imageio.Backends.Fio.{Fio, IsFio, zero_range, punch_hole, allocate, Allocated}
use ovirt_imageio.Backends.File.{
  File, on_fio, zero_by_allocation, zero_by_hole, zero_file, punch, zero_file_sparse, by_writing,
  done_at, after_allocate, allocate_past, allocate_from, if_can_fallocate, after_punch,
  if_can_punch, after_zero_range, if_can_zero_range, after_hole, extend, extend_from, if_can_hole,
}
use ovirt_imageio.Backends.File.Blocks.{IsReady, tell_lem}
use ovirt_imageio.Backends.File.Halves.{
  IsHalf, Half-trans, Zeroes, by_writing_lem, done_lem, fallocate_lem, IsHalf-same, IsHalf-zeroed,
  via,
}

module _ {F : Type 0} (fio : Fio F) (Good : F → Type 0) (content : F → List ℕ) (k : ℕ)
    (io : IsFio fio Good content (2 ^ k)) where
  abbrev IsReady' : File F → Type 0
  IsReady' s = IsReady fio Good content k io s

  abbrev position : File F → ℕ
  position s = fio.tell s.fio

  abbrev image : File F → ℕ → ℕ
  image s = byte_at (content s.fio)

  abbrev no_fallocate : File F → File F
  no_fallocate t = record t { can_fallocate = false }

  abbrev no_punch : File F → File F
  no_punch t = record t { can_punch_hole = false }

  abbrev no_zero_range : File F → File F
  no_zero_range t = record t { can_zero_range = false }

  size_is :
      (s : File F)
      → IsReady' s
      → on_fio (λ f. (ok (fio.fstat_size f), f)) s ≡ (ok (length (content s.fio)), s)
  unfolding on_fio
  size_is s r = rw (r.opened, io.sizes s.fio r.good) refl

  branch : {b c : Bool} (s : File F) (f : Bool → Exec Error (File F) ℕ) → b ≡ c → f b s ≡ f c s
  branch s f e = ap (λ b. f b s) e

  allocation-off :
      (offset count : ℕ) (s : File F)
      → s.can_fallocate ≡ false
      → zero_by_allocation fio offset count s ≡ by_writing fio count s
  unfolding zero_by_allocation
  allocation-off offset count s off = branch s (if_can_fallocate fio offset count) off

  allocation-past :
      (offset count : ℕ) (s : File F) (past : Bool)
      → IsReady' s
      → s.can_fallocate ≡ true
      → leb (length (content s.fio)) offset ≡ past
      → zero_by_allocation fio offset count s ≡ allocate_past fio offset count past s
  unfolding zero_by_allocation
  allocation-past offset count s past r can e =
      branch s (if_can_fallocate fio offset count) can
      ∙ then_by (allocate_from fio offset count) (size_is s r)
      ∙ branch s (allocate_past fio offset count) e

  zero_by_allocation_lem :
      (offset count : ℕ) (s : File F)
      → position s ≡ offset
      → IsReady' s
      → 0 < count
      → Zeroes fio Good content k io count s (zero_by_allocation fio offset count s)
  zero_by_allocation_lem offset count s at r pos =
      let here : IsHalf fio Good content k io count s s = record {
        ready = r;
        stays = refl;
        covers = λ i. refl;
      } in
      let written = by_writing_lem fio Good content k io count s r in
      elim (Bool-cases s.can_fallocate) [
        | inr off ↦
            via fio Good content k io count s s _ _ (allocation-off offset count s off) here written
        | inl can ↦ elim (leb-cases (length (content s.fio)) offset) [
          | inr (inside, _) ↦
              via fio Good content k io count s s _ _
                (allocation-past offset count s false r can inside) here written
          | inl (past, le) ↦
              let (t, rt, stays, ends) =
                fallocate_lem fio Good content k io allocate offset count s r pos in
              elim ends [
                | inl (e, alloc) ↦
                    let (u, f, z) =
                      done_lem fio Good content k io offset count s t at rt
                        (λ i. ground (arith, alloc.1 i, byte_at-past (content s.fio) i)) in
                    (
                      u,
                      allocation-past offset count s true r can past
                          ∙ then_by (after_allocate fio offset count (by_writing fio count)) e
                          ∙ f,
                      z,
                    )
                | inr (e, same) ↦
                    let rt' : IsReady' (no_fallocate t) = record {
                      good = rt.good;
                      opened = rt.opened;
                      blocks = rt.blocks;
                      is_file = rt.is_file;
                    } in
                    via fio Good content k io count s (no_fallocate t) _ _
                      (allocation-past offset count s true r can past
                        ∙ then_by (after_allocate fio offset count (by_writing fio count)) e)
                      (IsHalf-same fio Good content k io count s t (no_fallocate t) stays same rt'
                        refl)
                      (by_writing_lem fio Good content k io count (no_fallocate t) rt')
              ]
        ]
      ]

  -- `can_fallocate` is set to false once a range is not allocated, and other flags likewise.
  hole_off :
      (offset count : ℕ) (s : File F) (can : Bool)
      → (s.can_punch_hole && s.can_fallocate) ≡ can
      → zero_by_hole fio offset count s ≡ if_can_punch fio offset count can s
  unfolding zero_by_hole
  hole_off offset count s can e = branch s (if_can_punch fio offset count) e

  punched-range :
      (offset count : ℕ) (s t : File F)
      → Allocated punch_hole offset count (content s.fio) (content t.fio)
      → position s ≡ offset
      → (i : ℕ) → image t i ≡ overlaid (image s) (position s) count (λ _. 0) i
  punched-range offset count s t (_, z) at i =
      z i ∙ ap (λ p. overlaid (image s) p count (λ _. 0) i) (sym at)

  after_punch_lem :
      (offset count : ℕ) (s t : File F)
      → position s ≡ offset
      → position t ≡ position s
      → IsReady' t
      → 0 < count
      → ((i : ℕ) → image t i ≡ overlaid (image s) (position s) count (λ _. 0) i)
      → Zeroes fio Good content k io count s (after_punch fio offset count true t)
  after_punch_lem offset count s t at stays rt pos changed =
      let (u, ru, stays', ends) =
        fallocate_lem fio Good content k io allocate offset count t rt pos in
      elim ends [
        | inl (e, alloc) ↦
            let (v, f, z) =
              done_lem fio Good content k io offset count s u at ru
                (λ i. alloc.1 i ∙ changed i ∙ ap (λ p. overlaid (image s) p count (λ _. 0) i) at) in
            (
              v,
              then_by (after_allocate fio offset count (zero_by_allocation fio offset count)) e ∙ f,
              z,
            )
        | inr (e, same) ↦
            let ru' : IsReady' (no_fallocate u) = record {
              good = ru.good;
              opened = ru.opened;
              blocks = ru.blocks;
              is_file = ru.is_file;
            } in
            via fio Good content k io count s (no_fallocate u) _ _
              (then_by (after_allocate fio offset count (zero_by_allocation fio offset count)) e)
              (Half-trans fio Good content k io count s t (no_fallocate u)
                (IsHalf-zeroed fio Good content k io count s t t stays changed rt refl)
                (IsHalf-same fio Good content k io count t u (no_fallocate u) stays' same ru' refl))
              (zero_by_allocation_lem offset count (no_fallocate u) (stays' ∙ stays ∙ at) ru' pos)
      ]

  zero_by_hole_lem :
      (offset count : ℕ) (s : File F)
      → position s ≡ offset
      → IsReady' s
      → 0 < count
      → Zeroes fio Good content k io count s (zero_by_hole fio offset count s)
  zero_by_hole_lem offset count s at r pos =
      let here : IsHalf fio Good content k io count s s = record {
        ready = r;
        stays = refl;
        covers = λ i. refl;
      } in
      elim (Bool-cases (s.can_punch_hole && s.can_fallocate)) [
        | inr off ↦
            via fio Good content k io count s s _ _ (hole_off offset count s false off) here
              (zero_by_allocation_lem offset count s at r pos)
        | inl can ↦
            let (t, rt, stays, ends) =
              fallocate_lem fio Good content k io punch_hole offset count s r pos in
            elim ends [
              | inl (e, alloc) ↦
                  let (u, f, z) =
                    after_punch_lem offset count s t at stays rt pos
                      (punched-range offset count s t alloc at) in
                  (
                    u,
                    hole_off offset count s true can ∙ then_by (after_punch fio offset count) e ∙ f,
                    z,
                  )
              | inr (e, same) ↦
                  let rt' : IsReady' (no_punch t) = record {
                    good = rt.good;
                    opened = rt.opened;
                    blocks = rt.blocks;
                    is_file = rt.is_file;
                  } in
                  via fio Good content k io count s (no_punch t) _ _
                    (hole_off offset count s true can ∙ then_by (after_punch fio offset count) e)
                    (IsHalf-same fio Good content k io count s t (no_punch t) stays same rt' refl)
                    (zero_by_allocation_lem offset count (no_punch t) (stays ∙ at) rt' pos)
            ]
      ]

  file_steps :
      (count : ℕ) (s : File F) (can : Bool)
      → IsReady' s
      → s.can_zero_range ≡ can
      → zero_file fio count s ≡ if_can_zero_range fio (position s) count can s
  unfolding zero_file
  file_steps count s can r e =
      then_by (λ offset. gets (λ s. s.can_zero_range) >>= if_can_zero_range fio offset count)
        (tell_lem fio Good content k io s r)
      ∙ branch s (if_can_zero_range fio (position s) count) e

  pub zero_file_lem :
      (count : ℕ) (s : File F)
      → IsReady' s
      → 0 < count
      → Zeroes fio Good content k io count s (zero_file fio count s)
  zero_file_lem count s r pos =
      let here : IsHalf fio Good content k io count s s = record {
        ready = r;
        stays = refl;
        covers = λ i. refl;
      } in
      elim (Bool-cases s.can_zero_range) [
        | inr off ↦
            via fio Good content k io count s s _ _ (file_steps count s false r off) here
              (zero_by_hole_lem (position s) count s refl r pos)
        | inl can ↦
            let (t, rt, stays, ends) =
              fallocate_lem fio Good content k io zero_range (position s) count s r pos in
            elim ends [
              | inl (e, alloc) ↦
                  let (u, f, z) =
                    done_lem fio Good content k io (position s) count s t refl rt alloc.1 in
                  (
                    u,
                    file_steps count s true r can
                        ∙ then_by (after_zero_range fio (position s) count) e
                        ∙ f,
                    z,
                  )
              | inr (e, same) ↦
                  let rt' : IsReady' (no_zero_range t) = record {
                    good = rt.good;
                    opened = rt.opened;
                    blocks = rt.blocks;
                    is_file = rt.is_file;
                  } in
                  via fio Good content k io count s (no_zero_range t) _ _
                    (file_steps count s true r can
                      ∙ then_by (after_zero_range fio (position s) count) e)
                    (IsHalf-same fio Good content k io count s t (no_zero_range t) stays same rt'
                      refl)
                    (zero_by_hole_lem (position s) count (no_zero_range t) stays rt' pos)
            ]
      ]

  punch_lem :
      (offset count : ℕ) (s : File F)
      → position s ≡ offset
      → IsReady' s
      → 0 < count
      → Zeroes fio Good content k io count s (punch fio offset count s)
  unfolding punch
  punch_lem offset count s at r pos =
      let (t, rt, stays, ends) =
        fallocate_lem fio Good content k io punch_hole offset count s r pos in
      elim ends [
        | inl (e, alloc) ↦
            let (u, f, z) = done_lem fio Good content k io offset count s t at rt alloc.1 in
            (u, then_by (after_hole fio offset count) e ∙ f, z)
        | inr (e, same) ↦
            let rt' : IsReady' (no_punch t) = record {
              good = rt.good;
              opened = rt.opened;
              blocks = rt.blocks;
              is_file = rt.is_file;
            } in
            via fio Good content k io count s (no_punch t) _ _
              (then_by (after_hole fio offset count) e)
              (IsHalf-same fio Good content k io count s t (no_punch t) stays same rt' refl)
              (by_writing_lem fio Good content k io count (no_punch t) rt')
      ]

  truncate_lem :
      (size : ℕ) (s : File F)
      → IsReady' s
      → length (content s.fio) ≤ size
      → (t : File F) × (on_fio (fio.truncate size) s ≡ (ok tt, t))
        × IsReady' t
        × (position t ≡ position s)
        × ((i : ℕ) → image t i ≡ image s i)
  unfolding on_fio
  truncate_lem size s r le =
      let (f, e, good, stays, _, same) = io.truncates size s.fio r.good le in
      (
        record s { fio = f },
        rw (r.opened, e) refl,
        record { good = good; opened = r.opened; blocks = r.blocks; is_file = r.is_file },
        stays,
        same,
      )

  extended_lem :
      (offset count : ℕ) (s t : File F) (at_end : Bool)
      → (length (content s.fio) == offset) ≡ at_end
      → on_fio (fio.truncate (offset + count)) s ≡ (ok tt, t)
      → extend fio offset count (length (content s.fio)) true s
        ≡ (if at_end then done_at fio offset count else punch fio offset count) t
  extended_lem offset count s t at_end e f =
      let size : ℕ = length (content s.fio) in
      then_by (λ _. if size == offset then done_at fio offset count else punch fio offset count) f
      ∙ branch t (λ b. if b then done_at fio offset count else punch fio offset count) e

  extend_lem :
      (offset count : ℕ) (s : File F) (grows : Bool)
      → ltb (length (content s.fio)) (offset + count) ≡ grows
      → position s ≡ offset
      → IsReady' s
      → 0 < count
      → Zeroes fio Good content k io count s
          (extend fio offset count (length (content s.fio)) grows s)
  extend_lem offset count s false e at r pos = punch_lem offset count s at r pos
  extend_lem offset count s true e at r pos =
      let (t, f, rt, stays, same) = truncate_lem (offset + count) s r (ground (arith, e)) in
      elim (==-cases (length (content s.fio)) offset) [
        | inl (is_end, end) ↦
            let (u, g, z) =
              done_lem fio Good content k io offset count s t at rt
                (λ i. ground (arith, same i, byte_at-past (content s.fio) i)) in
            (u, extended_lem offset count s t true is_end f ∙ g, z)
        | inr (not_end, _) ↦
            via fio Good content k io count s t _ _ (extended_lem offset count s t false not_end f)
              (record { ready = rt; stays = stays; covers = λ i. ground (arith, same i) })
              (punch_lem offset count t (stays ∙ at) rt pos)
      ]

  pub zero_file_sparse_lem :
      (count : ℕ) (s : File F)
      → IsReady' s
      → 0 < count
      → Zeroes fio Good content k io count s (zero_file_sparse fio count s)
  unfolding zero_file_sparse
  zero_file_sparse_lem count s r pos = elim (Bool-cases s.can_punch_hole) [
    | inr off ↦
        let (t, e, z) = by_writing_lem fio Good content k io count s r in
        (t, branch s (if_can_hole fio count) off ∙ e, z)
    | inl can ↦
        let size : ℕ = length (content s.fio) in
        let (t, e, z) = extend_lem (position s) count s _ refl refl r pos in
        (
          t,
          branch s (if_can_hole fio count) can
              ∙ then_by
                  (λ offset.
                    on_fio (λ f. (ok (fio.fstat_size f), f)) >>= extend_from fio offset count)
                  (tell_lem fio Good content k io s r)
              ∙ then_by (extend_from fio (position s) count) (size_is s r)
              ∙ e,
          z,
        )
  ]
