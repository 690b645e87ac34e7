-- ===== src/Blkhash.antt =====
-- ovirt_imageio/_internal/blkhash.py, `Block` and `split`: cutting the extents of an image into the
-- blocks that the checksum hashes one by one.
pub mod Blocks
pub mod Hash
pub mod Zeros
use ovirt_imageio.Base.{
  ℕ, zero, suc, ◌+◌, ◌-◌, min, Bool, true, false, ◌&&◌, Option, none, some, List, [], ◌∷◌, ◌++◌,
  ltb, leb, ◌==◌, if◌then◌else◌,
}
use ovirt_imageio.Extent.{ZeroExtent}

pub record Block : Type 0 where
  pub start : ℕ
  pub length : ℕ
  pub zero : Bool

-- `Block.merge`: the block that grew, and what is left of the other one.
unfoldable pub merge : Block → Block → ℕ → Block × Block
merge b other block_size =
    let stolen : ℕ = min (block_size - b.length) other.length in
    (
      record b { length = b.length + stolen; zero = b.zero && other.zero },
      record other { start = other.start + stolen; length = other.length - stolen },
    )

-- `Block.split`: the block that is cut off, and what is left. The caller has tested the `assert`.
unfoldable pub split_block : Block → ℕ → Block × Block
split_block b block_size = (
  record { start = b.start; length = block_size; zero = b.zero },
  record b { start = b.start + block_size; length = b.length - block_size },
)

-- "Yield complete blocks." Each round takes `block_size` bytes off, so the length is enough fuel.
unfoldable pub cut : ℕ → ℕ → Block → List Block × Block
unfolding split_block
cut zero block_size current = ([], current)
cut (suc fuel) block_size current =
    let (block, left) = split_block current block_size in
    let rest = cut fuel block_size left in
    if leb block_size current.length then (block ∷ rest.0, rest.1) else ([], current)

-- The end of a round: "Keep the partial block for the next extent."
unfoldable pub cut_and_keep : ℕ → Block → List Block × Option Block
unfolding cut
cut_and_keep block_size current =
    let (blocks, left) = cut current.length block_size current in
    (blocks, if left.length == 0 then none else some left)

-- One round of the loop: what it yields, and the partial block that it keeps.
unfoldable pub split_extent : ℕ → Option Block → ZeroExtent → List Block × Option Block
unfolding merge cut_and_keep
split_extent block_size none extent =
    cut_and_keep block_size
      (record { start = extent.start; length = extent.length; zero = extent.zero })
split_extent block_size (some partial) extent =
    let (partial', current) =
      merge partial (record { start = extent.start; length = extent.length; zero = extent.zero })
        block_size in
    let (blocks, kept) = cut_and_keep block_size current in
    if ltb partial'.length block_size then ([], some partial') else (partial' ∷ blocks, kept)

unfoldable pub split_from : ℕ → Option Block → List ZeroExtent → List Block
unfolding split_extent
split_from block_size none [] = []
split_from block_size (some partial) [] = partial ∷ []
split_from block_size partial (extent ∷ extents) =
    let (blocks, partial') = split_extent block_size partial extent in
    blocks ++ split_from block_size partial' extents

unfoldable pub split : List ZeroExtent → ℕ → List Block
unfolding split_from
split extents block_size = split_from block_size none extents
