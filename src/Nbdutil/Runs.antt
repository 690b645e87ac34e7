-- ===== src/Nbdutil/Runs.antt =====
-- `extents` of ovirt_imageio/_internal/nbdutil.py and the flags of the image.
use mathlib.Core.List.{map-append}
use ovirt_imageio.Base.{
  ℕ, zero, suc, ◌+◌, ◌-◌, ◌≤◌, ◌<◌, min, ◌≡◌, ◌≢◌, refl, ap, sym, ◌∙◌, Bool, inl, inr, Option, none,
  some, List, [], ◌∷◌, ◌++◌, map, arith, leb-cases, ltb-cases, ==-cases,
}
use ovirt_imageio.Nbd.Extents.{Extent}
use ovirt_imageio.Nbdutil.{
  Replies, reply_extents, Scan, join, clip, take_extent, scan, yields, max_step, extents_loop,
  end_of, extents,
}
use ovirt_imageio.Nbdutil.Merged.{Describes, Describes-at, total, IsProper}

-- Extents of at least one byte, and no two consecutive ones with the same flags.
abbrev pub IsRuns : List Extent → Type 0
IsRuns [] = Unit
IsRuns (e ∷ []) = 0 < e.length
IsRuns (e ∷ c ∷ es) = (0 < e.length) × (e.flags ≢ c.flags) × IsRuns (c ∷ es)

total-snoc : (ys : List Extent) (e : Extent) → total (ys ++ e ∷ []) ≡ total ys + e.length
total-snoc [] e = omega arith
total-snoc (y ∷ ys) e = omega (arith, total-snoc ys e)

module _ (f : ℕ → ℕ) where
  -- The bytes from `o` on that `e` takes have its flags.
  abbrev Fits : ℕ → Extent → Type 0
  Fits o e = (i : ℕ) → o ≤ i → i < o + e.length → f i ≡ e.flags

  Describes-snoc :
      (o : ℕ) (ys : List Extent) (e : Extent)
      → Describes f o ys
      → Fits (o + total ys) e
      → Describes f o (ys ++ e ∷ [])
  Describes-snoc o [] e d h = (λ i lo hi. h i (omega arith) (omega arith), tt)
  Describes-snoc o (y ∷ ys) e d h =
      (d.0, Describes-snoc (o + y.length) ys e d.1 (λ i lo hi. h i (omega arith) (omega arith)))

  -- A longer last extent.
  Describes-last :
      (o : ℕ) (ys : List Extent) (c : Extent) (n : ℕ)
      → Describes f o (ys ++ c ∷ [])
      → Fits (o + total ys + c.length) (record c { length = n })
      → Describes f o (ys ++ record c { length = c.length + n } ∷ [])
  Describes-last o [] c n d h = (
    λ i lo hi. elim (leb-cases (o + c.length) i) [
      | inl (t, le) ↦ h i (omega arith) (omega arith)
      | inr (t, lt) ↦ d.0 i lo lt
    ],
    tt,
  )
  Describes-last o (y ∷ ys) c n d h =
      (d.0, Describes-last (o + y.length) ys c n d.1 (λ i lo hi. h i (omega arith) (omega arith)))

IsRuns-last :
    (ys : List Extent) (c c' : Extent)
    → IsRuns (ys ++ c ∷ [])
    → c'.flags ≡ c.flags
    → 0 < c'.length
    → IsRuns (ys ++ c' ∷ [])
IsRuns-last [] c c' r e h = h
IsRuns-last (y ∷ []) c c' r e h = (r.0, rw e r.1, h)
IsRuns-last (y ∷ z ∷ ys) c c' r e h = (r.0, r.1, IsRuns-last (z ∷ ys) c c' r.2 e h)

IsRuns-snoc :
    (ys : List Extent) (c e : Extent)
    → IsRuns (ys ++ c ∷ [])
    → c.flags ≢ e.flags
    → 0 < e.length
    → IsRuns ((ys ++ c ∷ []) ++ e ∷ [])
IsRuns-snoc [] c e r ne h = (r, ne, h)
IsRuns-snoc (y ∷ []) c e r ne h = (r.0, r.1, IsRuns-snoc [] c e r.2 ne h)
IsRuns-snoc (y ∷ z ∷ ys) c e r ne h = (r.0, r.1, IsRuns-snoc (z ∷ ys) c e r.2 ne h)

-- What was yielded, and the extent that is kept.
abbrev pub held : Scan → List Extent
held s = elim s.cur [ none ↦ s.yielded | some c ↦ s.yielded ++ c ∷ [] ]

clip-length :
    (end o : ℕ) (ext : Extent)
    → o < end
    → 0 < ext.length
    → (0 < (clip end o ext).length)
      × (o + (clip end o ext).length ≤ end)
      × ((clip end o ext).length ≤ ext.length)
      × (o + (clip end o ext).length ≢ end → (clip end o ext).length ≡ ext.length)
clip-length end o ext h p = ground arith

offset-join : (e : Extent) (s : Scan) → (join e s).offset ≡ s.offset
unfolding join
offset-join e s = ground arith

module _ (f : ℕ → ℕ) (start : ℕ) where
  -- What is held are the runs of the image from `start` up to the offset that was reached.
  record IsScan (s : Scan) : Type 0 where
    right : Describes f start (held s)
    reach : start + total (held s) ≡ s.offset
    runs : IsRuns (held s)
    fresh : s.cur ≡ none → s.yielded ≡ []

  join-IsScan :
      (e : Extent) (o : ℕ) (cur : Option Extent) (ys : List Extent)
      → 0 < e.length
      → Fits f o e
      → IsScan (record { offset = o; cur = cur; yielded = ys })
      → IsScan (join e (record { offset = o + e.length; cur = cur; yielded = ys }))
  unfolding join
  join-IsScan e o none ys h fit s = record {
    right =
        Describes-snoc f start ys e s.right
          (λ i lo hi. fit i (omega (arith, s.reach)) (omega (arith, s.reach)));
    reach = omega (arith, total-snoc ys e, s.reach);
    runs = rw (s.fresh refl) h;
    fresh = λ p. cc;
  }
  join-IsScan e o (some c) ys h fit s =
      let at : start + total ys + c.length ≡ o = omega (arith, total-snoc ys c, s.reach) in
      elim (==-cases c.flags e.flags) [
        | inl (t, same) ↦ rw t (record {
          right =
              Describes-last f start ys c e.length s.right
                (λ i lo hi. fit i (omega arith) (omega arith) ∙ sym same);
          reach = omega (arith, total-snoc ys (record c { length = c.length + e.length }), at);
          runs =
              IsRuns-last ys c (record c { length = c.length + e.length }) s.runs refl
                (omega arith);
          fresh = λ p. cc;
        })
        | inr (t, ne) ↦ rw t (record {
          right =
              Describes-snoc f start (ys ++ c ∷ []) e s.right
                (λ i lo hi. fit i (omega (arith, s.reach)) (omega (arith, s.reach)));
          reach = omega (arith, total-snoc (ys ++ c ∷ []) e, s.reach);
          runs = IsRuns-snoc ys c e s.runs ne h;
          fresh = λ p. cc;
        })
      ]

  -- One extent takes the scan forward, and never past the end.
  take-IsScan :
      (end : ℕ) (ext : Extent) (s : Scan)
      → s.offset < end
      → 0 < ext.length
      → Fits f s.offset ext
      → IsScan s
      → IsScan (take_extent end ext s)
        × (s.offset < (take_extent end ext s).offset)
        × ((take_extent end ext s).offset ≤ end)
        × ((take_extent end ext s).offset ≢ end
            → (take_extent end ext s).offset ≡ s.offset + ext.length)
  unfolding take_extent
  take-IsScan end ext s h p d v =
      let (pos, low, short, full) = clip-length end s.offset ext h p in
      let at =
        offset-join (clip end s.offset ext)
          (record s { offset = s.offset + (clip end s.offset ext).length }) in
      (
        join-IsScan (clip end s.offset ext) s.offset s.cur s.yielded pos
            (λ i lo hi. d i lo (omega arith)) v,
        omega (arith, at),
        omega (arith, at),
        λ ne. omega (arith, at, full),
      )

  -- A reply that begins at the offset takes the scan forward, and never past the end.
  scan-IsScan :
      (end : ℕ) (es : List Extent) (s : Scan)
      → s.offset < end
      → IsProper es
      → Describes f s.offset es
      → IsScan s
      → IsScan (scan end es s)
        × ((scan end es s).offset ≤ end)
        × (s.offset + min 1 (total es) ≤ (scan end es s).offset)
  unfolding scan
  scan-IsScan end [] s h p d v = (v, omega arith, omega arith)
  scan-IsScan end (ext ∷ es) s h p d v =
      let (v', up, low, full) = take-IsScan end ext s h p.0 d.0 v in
      elim (==-cases (take_extent end ext s).offset end) [
        | inl (t, same) ↦ rw t (v', low, omega arith)
        | inr (t, ne) ↦ rw t (
            let (w, le, forward) =
              scan-IsScan end es (take_extent end ext s) (omega arith) p.1
                (Describes-at f es (sym (full ne)) d.1) v' in
            (w, le, omega arith))
      ]

-- What the client relies on: a server that is asked for a range of the export replies with extents
-- from the start of the range on. There is at least one, none is empty, and they are true.
pub record IsServer (query : ℕ → ℕ → Replies) (dirty : Bool) (f : ℕ → ℕ) (export_size : ℕ)
    : Type 0 where
  pub answers :
      (o n : ℕ)
      → 0 < n
      → o + n ≤ export_size
      → (es : List Extent) × (reply_extents dirty (query o n) ≡ some es)
        × Describes f o es
        × IsProper es
        × (0 < total es)

module _ (query : ℕ → ℕ → Replies) (dirty : Bool) (f : ℕ → ℕ) (export_size : ℕ)
    (server : IsServer query dirty f export_size) (start end : ℕ) (inside : end ≤ export_size) where
  loop-IsScan :
      (fuel : ℕ) (s : Scan)
      → end - s.offset < fuel
      → s.offset ≤ end
      → IsScan f start s
      → (t : Scan) × (extents_loop query dirty end fuel s
          ≡ yields (map some t.yielded ++ t.cur ∷ []))
        × IsScan f start t
        × (t.offset ≡ end)
  unfolding extents_loop
  loop-IsScan zero s h le v = absurd (omega arith)
  loop-IsScan (suc fuel) s h le v = elim (ltb-cases s.offset end) [
    | inl (t, lt) ↦
        let (es, e, d, p, pos) =
          server.answers s.offset (min (end - s.offset) max_step) (omega arith) (omega arith) in
        let (v', le', forward) = scan-IsScan f start end es s lt p d v in
        rw (t, e) (loop-IsScan fuel (scan end es s) (omega arith) le' v')
    | inr (t, ge) ↦ rw t (s, refl, v, omega arith)
  ]

-- A scan that holds some bytes has a current extent, so what is yielded in the end is what it holds.
yielded-held :
    (o : ℕ) (cur : Option Extent) (ys : List Extent)
    → let s : Scan = record { offset = o; cur = cur; yielded = ys } in
      0 < total (held s) → (cur ≡ none → ys ≡ []) → map some ys ++ cur ∷ [] ≡ map some (held s)
yielded-held o none ys h fresh =
    absurd (let e : total ys ≡ 0 = ap total (fresh refl) in omega arith)
yielded-held o (some c) ys h fresh = sym (map-append some ys (c ∷ []))

-- For a non-empty range inside the export, with fuel above its length, against a server that answers
-- each request truthfully with at least one extent, in single, short, long or fragmented replies,
-- `extents` ends. It yields extents that give every byte of the range its flags, reach exactly to the
-- end of the range, are not empty, and never have the same flags twice in a row.
pub extents_lem :
    (query : ℕ → ℕ → Replies) (dirty : Bool) (f : ℕ → ℕ) (export_size offset : ℕ) (n : Option ℕ)
    (fuel : ℕ)
    → IsServer query dirty f export_size
    → offset < end_of export_size offset n
    → end_of export_size offset n ≤ export_size
    → end_of export_size offset n - offset < fuel
    → (es : List Extent) × (extents query export_size dirty offset n fuel ≡ yields (map some es))
      × Describes f offset es
      × (offset + total es ≡ end_of export_size offset n)
      × IsRuns es
unfolding extents
extents_lem query dirty f export_size offset n fuel server lt inside enough =
    let end = end_of export_size offset n in
    let (t, e, v, at) =
      loop-IsScan query dirty f export_size server offset end inside fuel
        (record { offset = offset; cur = none; yielded = [] }) enough (omega arith)
        (record { right = tt; reach = omega arith; runs = tt; fresh = λ _. refl }) in
    (
      held t,
      e ∙ ap yields (yielded-held t.offset t.cur t.yielded (omega (arith, v.reach)) v.fresh),
      v.right,
      v.reach ∙ at,
      v.runs,
    )
