-- ===== src/Backends/File/Halves.antt =====
-- Zeros of ovirt_imageio/_internal/backends/file.py that are written, and a single call of `fallocate`.
use ovirt_imageio.Base.{
  ℕ, zero, suc, ◌+◌, ◌-◌, ◌^◌, ◌≤◌, ◌<◌, min, ◌≡◌, refl, ap, sym, subst, ◌∙◌, true, false, List,
  arith, inl, inr, ◌⊎◌, length, replicate, length-replicate, ==-cases,
}
use ovirt_imageio.Base.Bytes.{byte_at, byte_at-zeros}
use ovirt_imageio.Base.Exec.{Result, ok}
use ovirt_imageio.Backends.{Error}
use ovirt_imageio.Backends.Writer.{overlaid}
use ovirt_imageio.Backends.Fio.{Fio, IsFio, Fallocate, Allocated}
use ovirt_imageio.Backends.File.{
  File, on_fio, tell, seek, write, try_fallocate, write_zeros_loop, write_zeros, by_writing,
  done_at, mib,
}
use ovirt_imageio.Backends.File.Blocks.{IsReady, Wrote, write_lem}

module _ {F : Type 0} (fio : Fio F) (Good : F → Type 0) (content : F → List ℕ) (k : ℕ)
    (io : IsFio fio Good content (2 ^ k)) where
  abbrev IsReady' : File F → Type 0
  IsReady' s = IsReady fio Good content k io s

  abbrev position : File F → ℕ
  position s = fio.tell s.fio

  abbrev image : File F → ℕ → ℕ
  image s = byte_at (content s.fio)

  -- `n` bytes at the position were zeroed.
  abbrev Zeroed' : ℕ → File F → File F → Type 0
  Zeroed' n s t = Wrote fio Good content k io n (λ _. 0) s t

  -- A state in which only bytes that will be zeroed have changed.
  pub record IsHalf (n : ℕ) (s t : File F) : Type 0 where
    pub ready : IsReady' t
    pub stays : position t ≡ position s
    pub covers :
        (i : ℕ)
        → overlaid (image t) (position s) n (λ _. 0) i
          ≡ overlaid (image s) (position s) n (λ _. 0) i

  Half-Zeroed : (n : ℕ) (s t u : File F) → IsHalf n s t → Zeroed' n t u → Zeroed' n s u
  Half-Zeroed n s t u h z = record {
    ready = z.ready;
    moved = omega (arith, z.moved, h.stays);
    changed = λ i. z.changed i ∙ ap (λ p. overlaid (image t) p n (λ _. 0) i) h.stays ∙ h.covers i;
  }

  pub Half-trans : (n : ℕ) (s t u : File F) → IsHalf n s t → IsHalf n t u → IsHalf n s u
  Half-trans n s t u h g = record {
    ready = g.ready;
    stays = g.stays ∙ h.stays;
    covers = λ i. ground (arith, h.covers i, g.covers i, h.stays);
  }

  Zeroed-append : (m n : ℕ) (s t u : File F) → Zeroed' m s t → Zeroed' n t u → Zeroed' (m + n) s u
  Zeroed-append m n s t u y z = record {
    ready = z.ready;
    moved = omega (arith, y.moved, z.moved);
    changed = λ i. ground (arith, y.changed i, z.changed i, y.moved);
  }

  -- What a way of zeroing does.
  abbrev pub Zeroes : ℕ → File F → Result Error ℕ × File F → Type 0
  Zeroes count s p = (t : File F) × (p ≡ (ok count, t)) × Zeroed' count s t

  zeros_write :
      (n : ℕ) (s : File F)
      → IsReady' s
      → 0 < n
      → (t : File F) × (m : ℕ) × (write fio (replicate n 0) s ≡ (ok m, t))
        × (0 < m)
        × (m ≤ n)
        × Zeroed' m s t
  zeros_write n s r pos =
      let z : ℕ = 0 in
      let len : length (replicate n z) ≡ n = length-replicate n z in
      let (t, m, e, some_bytes, le, w) =
        write_lem fio Good content k io (replicate n 0) s r (omega arith) in
      (
        t,
        m,
        e,
        some_bytes,
        omega arith,
        record {
          ready = w.ready;
          moved = w.moved;
          changed = λ i. ground (arith, w.changed i, byte_at-zeros n (i - position s));
        },
      )

  loop_lem :
      (buf_size fuel count : ℕ) (s : File F)
      → IsReady' s
      → count ≤ fuel
      → (0 < count → 0 < buf_size)
      → (t : File F) × (write_zeros_loop fio buf_size fuel count s ≡ (ok tt, t)) × Zeroed' count s t
  unfolding write_zeros_loop
  loop_lem buf_size zero count s r le pos =
      let z : count ≡ 0 = omega arith in
      (s, refl, record { ready = r; moved = omega arith; changed = λ i. ground arith })
  loop_lem buf_size (suc fuel) count s r le pos = elim (==-cases count 0) [
    | inl (t, z) ↦
        rw t (s, refl, record { ready = r; moved = omega arith; changed = λ i. ground arith })
    | inr (t, nz) ↦
        let (u, m, e, some_bytes, le', w) =
          zeros_write (min count buf_size) s r (omega (arith, pos)) in
        let (v, f, x) =
          loop_lem buf_size fuel (count - m) u w.ready (omega arith) (λ _. pos (omega arith)) in
        let all : m + (count - m) ≡ count = omega arith in
        (v, rw t (rw e f), subst (λ n. Zeroed' n s v) all (Zeroed-append m (count - m) s u v w x))
  ]

  pub by_writing_lem :
      (count : ℕ) (s : File F) → IsReady' s → Zeroes count s (by_writing fio count s)
  unfolding write_zeros
  by_writing_lem count s r =
      let (t, e, w) = loop_lem (min count mib) count count s r (omega arith) (λ h. omega arith) in
      (t, rw e refl, w)

  pub done_lem :
      (offset count : ℕ) (s t : File F)
      → position s ≡ offset
      → IsReady' t
      → ((i : ℕ) → image t i ≡ overlaid (image s) offset count (λ _. 0) i)
      → Zeroes count s (done_at fio offset count t)
  unfolding seek on_fio
  done_lem offset count s t at r changed =
      let (good, tell, same) = io.seeks (offset + count) t.fio r.good in
      (
        record t { fio = fio.seek (offset + count) t.fio },
        rw r.opened refl,
        record {
          ready = record { good = good; opened = r.opened; blocks = r.blocks; is_file = r.is_file };
          moved = omega arith;
          changed = λ i.
              ap (λ ys. byte_at ys i) same
              ∙ changed i
              ∙ ap (λ p. overlaid (image s) p count (λ _. 0) i) (sym at);
        },
      )

  -- A mode of `fallocate` is used, or it is not supported and nothing changes.
  pub fallocate_lem :
      (mode : Fallocate) (offset count : ℕ) (s : File F)
      → IsReady' s
      → 0 < count
      → (t : File F) × IsReady' t
        × (position t ≡ position s)
        × (((try_fallocate fio mode offset count s ≡ (ok true, t))
              × Allocated mode offset count (content s.fio) (content t.fio))
            ⊎ ((try_fallocate fio mode offset count s ≡ (ok false, t))
                × (content t.fio ≡ content s.fio)))
  unfolding try_fallocate on_fio
  fallocate_lem mode offset count s r pos =
      let (f, good, stays, ends) = io.fallocates mode offset count s.fio r.good pos in
      (
        record s { fio = f },
        record { good = good; opened = r.opened; blocks = r.blocks; is_file = r.is_file },
        stays,
        elim ends [
          | inl (e, a) ↦ inl (rw (r.opened, e) refl, a)
          | inr (e, same) ↦ inr (rw (r.opened, e) refl, same)
        ],
      )

  pub IsHalf-same :
      (n : ℕ) (s t u : File F)
      → position t ≡ position s
      → content t.fio ≡ content s.fio
      → IsReady' u
      → u.fio ≡ t.fio
      → IsHalf n s u
  IsHalf-same n s t u at same r e = record {
    ready = r;
    stays = ap fio.tell e ∙ at;
    covers = λ i. ap (λ ys. overlaid (byte_at ys) (position s) n (λ _. 0) i) (ap content e ∙ same);
  }

  pub IsHalf-zeroed :
      (n : ℕ) (s t u : File F)
      → position t ≡ position s
      → ((i : ℕ) → image t i ≡ overlaid (image s) (position s) n (λ _. 0) i)
      → IsReady' u
      → u.fio ≡ t.fio
      → IsHalf n s u
  IsHalf-zeroed n s t u at changed r e = record {
    ready = r;
    stays = ap fio.tell e ∙ at;
    covers = λ i.
        ap (λ f. overlaid (byte_at (content f)) (position s) n (λ _. 0) i) e
        ∙ ground (arith, changed i);
  }

  pub via :
      (count : ℕ) (s t : File F) (p q : Result Error ℕ × File F)
      → p ≡ q
      → IsHalf count s t
      → Zeroes count t q
      → Zeroes count s p
  via count s t p q e h (u, f, z) = (u, e ∙ f, Half-Zeroed count s t u h z)
