-- ===== src/Tests/Checksum.antt =====
-- The checksum of an image of five bytes on the memory backend.
use ovirt_imageio.Base.{
  ℕ, zero, suc, ◌+◌, ◌-◌, ◌≤◌, min, ◌≡◌, refl, ◌⊎◌, Bool, true, false, none, some, List, [], ◌∷◌,
  arith, ltb, leb,
}
use ovirt_imageio.Base.Bytes.{byte_at, byte_at-zeros}
use ovirt_imageio.Base.Exec.{ok, err}
use ovirt_imageio.Extent.{ZeroExtent}
use ovirt_imageio.Backends.Memory.{Memory, read_only, memory}
use ovirt_imageio.Backends.Memory.Reads.{IsOpen}
use ovirt_imageio.Blkhash.Blocks.{Covered}
use ovirt_imageio.Blkhash.Hash.{checksum}
use ovirt_imageio.Ops.Canceled.{GoesOn, Stopped}
use ovirt_imageio.Handlers.Checksum.{Hashing, canceled_error, run, start}
use ovirt_imageio.Handlers.Checksum.Image.{IsFullReader, run_lem}

abbrev contents : List ℕ
contents = 1 ∷ 2 ∷ 0 ∷ 0 ∷ 0 ∷ []

abbrev disk : Memory
disk = record {
  mode = read_only;
  buf = contents;
  extents = record { zero = none; dirty = none };
  dirty = false;
  position = 0;
  is_closed = false;
  max_connections = 8;
}

disk-IsOpen : IsOpen contents disk
disk-IsOpen = record { opened = refl; readable = refl; same = refl }

not_past : (a b : ℕ) → b ≤ a → ltb a b ≡ false
not_past a b h = ground arith

whole : (n a p : ℕ) → p + n ≤ a → min n (a - p) ≡ n
whole n a p h = omega arith

memory-IsFullReader : IsFullReader memory (IsOpen contents) (λ m. m.position) contents
unfolding memory
memory-IsFullReader = record {
  seeks = λ n m o. (
    record m { position = n },
    rw o.opened,
    record { opened = o.opened; readable = o.readable; same = o.same },
    refl,
  );
  reads = λ n m o le. (
    record m { position = m.position + n },
    rw (o.opened, o.readable, o.same, not_past 5 m.position (omega arith), whole n 5 m.position le)
        refl,
    record { opened = o.opened; readable = o.readable; same = o.same },
  );
}

-- The digest of a list is the list.
abbrev func : List ℕ → List ℕ
func bytes = bytes

abbrev extents : List ZeroExtent
extents =
    record { start = 0; length = 2; zero = false; hole = some false }
    ∷ record { start = 2; length = 3; zero = true; hole = some false }
    ∷ []

abbrev is_hole : ℕ → Bool
is_hole i = leb 2 i

extents-Covered : Covered is_hole 0 extents
extents-Covered =
    (refl, omega arith, λ i lo hi. ground arith, (refl, omega arith, λ i lo hi. ground arith, tt))

hole_bytes : (i : ℕ) → is_hole i ≡ true → byte_at contents i ≡ 0
hole_bytes zero h = cc
hole_bytes (suc zero) h = cc
hole_bytes (suc (suc i)) h = byte_at-zeros 3 i

abbrev never : ℕ → Bool
never k = false

abbrev buf : List ℕ
buf = 0 ∷ 0 ∷ []

run_lem_example :
    (t : Hashing func Memory) × (((run func memory true never extents
            (start func memory true never disk buf)
          ≡ (err canceled_error, t))
        × Stopped never t.blocks)
      ⊎ ((run func memory true never extents (start func memory true never disk buf)
            ≡ (ok (checksum func false 2 contents), t))
          × GoesOn never t.blocks
          × (t.done ≡ 5)))
run_lem_example =
    run_lem func memory (IsOpen contents) (λ m. m.position) contents memory-IsFullReader 2 true
      never is_hole hole_bytes extents disk buf false disk-IsOpen refl (omega arith) extents-Covered
      refl

hashed_disk :
    (run func memory true never extents (start func memory true never disk buf)).0
    ≡ ok (1 ∷ 2 ∷ 0 ∷ 0 ∷ 0 ∷ [])
unfolding run start memory
hashed_disk = refl
