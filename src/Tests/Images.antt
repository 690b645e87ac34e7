-- ===== src/Tests/Images.antt =====
-- The theorems on extents, blocks and the memory backend at concrete inputs.
use Prim.Native.Nat.{bit_or}
use ovirt_imageio.Base.{
  ℕ, ◌+◌, ◌-◌, min, max, ◌≡◌, refl, Bool, true, false, ◌&&◌, none, some, List, [], ◌∷◌, map, arith,
  ltb, leb, if◌then◌else◌, length,
}
use ovirt_imageio.Base.Bytes.{byte_at}
use ovirt_imageio.Base.Exec.{ok}
use ovirt_imageio.Extent.{ZeroExtent}
use ovirt_imageio.Nbd.Extents.{Extent}
use ovirt_imageio.Nbdutil.{Replies, merged, reply_extents, extents, yields, end_of}
use ovirt_imageio.Nbdutil.Merged.{Describes, total, IsProper, merged_lem}
use ovirt_imageio.Nbdutil.Runs.{IsRuns, IsServer, extents_lem}
use ovirt_imageio.Blkhash.{split}
use ovirt_imageio.Blkhash.Blocks.{Covered, Tiles, bytes, split_lem}
use ovirt_imageio.Blkhash.Hash.{checksum, joined, digests, IsBlocks, checksum_lem}
use ovirt_imageio.Backends.Reader.{IsReader}
use ovirt_imageio.Backends.Memory.{Memory, Configured, read_write, write, memory}
use ovirt_imageio.Backends.Memory.Contents.{write_lem}
use ovirt_imageio.Backends.Memory.Reads.{IsOpen, memory-IsReader}

-- The flags of an image of 10 bytes whose first 4 bytes are data.
abbrev flags : ℕ → ℕ
flags i = if ltb i 4 then 0 else 3

abbrev extent : ℕ → ℕ → Extent
extent n f = record { length = n; flags = f }

abbrev allocation : List Extent
allocation = extent 4 0 ∷ extent 6 3 ∷ []

abbrev depths : List Extent
depths = extent 8 0 ∷ extent 2 8 ∷ []

abbrev depth_flags : ℕ → ℕ
depth_flags i = if ltb i 8 then 0 else 8

allocation-Describes : Describes flags 0 allocation
allocation-Describes = (λ i lo hi. ground arith, (λ i lo hi. ground arith, tt))

depths-Describes : Describes depth_flags 0 depths
depths-Describes = (λ i lo hi. ground arith, (λ i lo hi. ground arith, tt))

merged_lem_example :
    Describes (λ i. bit_or (flags i) (depth_flags i)) 0 (merged allocation depths)
    × IsProper (merged allocation depths)
    × (total (merged allocation depths) ≡ min (total allocation) (total depths))
merged_lem_example =
    merged_lem flags depth_flags allocation depths 0 allocation-Describes depths-Describes
      (omega arith, (omega arith, tt)) (omega arith, (omega arith, tt))

-- A server that replies with one extent of one byte to each request.
abbrev query : ℕ → ℕ → Replies
query offset n = record {
  base_allocation = some (extent 1 (flags offset) ∷ []);
  allocation_depth = none;
  dirty_bitmap = none;
}

query-IsServer : IsServer query false flags 10
unfolding reply_extents
query-IsServer = record {
  answers = λ o n pos le. (
    extent 1 (flags o) ∷ [],
    refl,
    (λ i lo hi. let e : i ≡ o = omega arith in rw e refl, tt),
    (omega arith, tt),
    omega arith,
  );
}

extents_query :
    extents query 10 false 2 (some 6) 7 ≡ yields (some (extent 2 0) ∷ some (extent 4 3) ∷ [])
unfolding extents
extents_query = refl

extents_lem_example :
    (es : List Extent) × (extents query 10 false 2 (some 6) 7 ≡ yields (map some es))
    × Describes flags 2 es
    × (2 + total es ≡ end_of 10 2 (some 6))
    × IsRuns es
extents_lem_example =
    extents_lem query false flags 10 2 (some 6) 7 query-IsServer (omega arith) (omega arith)
      (omega arith)

-- An image with 3 bytes of data and 5 of zeros, in blocks of 4 bytes.
abbrev zeros_from : ℕ → Bool
zeros_from i = leb 3 i

abbrev image_extents : List ZeroExtent
image_extents =
    record { start = 0; length = 3; zero = false; hole = some false }
    ∷ record { start = 3; length = 7; zero = true; hole = some true }
    ∷ []

image_extents-Covered : Covered zeros_from 0 image_extents
image_extents-Covered =
    (refl, omega arith, λ i lo hi. ground arith, (refl, omega arith, λ i lo hi. ground arith, tt))

split_lem_example : Tiles zeros_from 4 0 (split image_extents 4) (0 + bytes image_extents)
split_lem_example = split_lem zeros_from 4 0 image_extents (omega arith) image_extents-Covered

abbrev contents : List ℕ
contents = 1 ∷ 2 ∷ 3 ∷ []

abbrev pub nothing : Configured
nothing = record { zero = none; dirty = none }

abbrev opened : Memory
opened = record {
  mode = read_write;
  buf = contents;
  extents = nothing;
  dirty = false;
  position = 5;
  is_closed = false;
  max_connections = 8;
}

write_lem_example :
    (m' : Memory) × (write contents opened ≡ (ok (length contents), m'))
    × (m'.position ≡ opened.position + length contents)
    × (m'.dirty ≡ true)
    × (length m'.buf ≡ max (length opened.buf) (opened.position + length contents))
    × ((i : ℕ)
        → byte_at m'.buf i ≡ (
            if leb opened.position i && ltb i (opened.position + length contents)
            then byte_at contents (i - opened.position)
            else byte_at opened.buf i))
write_lem_example = write_lem opened contents refl refl

memory-IsReader_example : IsReader memory (IsOpen contents) (λ m. m.position) contents 1
memory-IsReader_example = memory-IsReader contents

-- A hash function that is the sum of the bytes.
abbrev total_bytes : List ℕ → ℕ
total_bytes [] = 0
total_bytes (x ∷ xs) = x + total_bytes xs

abbrev sum_of : List ℕ → List ℕ
sum_of xs = total_bytes xs ∷ []

abbrev blocks : List (List ℕ)
blocks = (0 ∷ 0 ∷ []) ∷ (3 ∷ 4 ∷ []) ∷ (5 ∷ []) ∷ []

blocks-IsBlocks : IsBlocks 2 blocks
blocks-IsBlocks = (
  omega arith,
  omega arith,
  λ lt. absurd (omega arith),
  (
    omega arith,
    omega arith,
    λ lt. absurd (omega arith),
    (omega arith, omega arith, λ lt. refl, tt),
  ),
)

checksum_lem_example : checksum sum_of true 2 (joined blocks) ≡ sum_of (digests sum_of blocks)
checksum_lem_example = checksum_lem sum_of true 2 blocks (omega arith) blocks-IsBlocks
