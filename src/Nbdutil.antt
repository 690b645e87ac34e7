-- ===== src/Nbdutil.antt =====
-- ovirt_imageio/_internal/nbdutil.py, `extents` and `merged`: how a client puts the extents of an
-- image together from the replies to NBD block status commands.
--
-- A reply is a parameter: `query offset length` is `client.extents(offset, length)`, a dict that may
-- lack a context. The generator is the list of what it yields. The `while` loop takes fuel, and
-- each round takes a byte at least, so `end - offset` and one more are the rounds that it needs.
pub mod Merged
pub mod Runs
use Prim.Native.Nat.{bit_or}
use ovirt_imageio.Nbd.Extents.{Extent}
use ovirt_imageio.Base.{
  ℕ, zero, suc, ◌+◌, ◌-◌, ◌*◌, min, Bool, true, false, Option, none, some, List, [], ◌∷◌, ◌++◌, map,
  ltb, ◌==◌, if◌then◌else◌,
}

-- The rest of `merged` once `a` is taken from the first list: `rest` goes on with the next one. What
-- is left of a longer extent is the next one of its own list.
unfoldable pub merge_one : Extent → List Extent → (List Extent → List Extent) → List Extent
merge_one a [] rest = []
merge_one a (b ∷ bs) rest =
    let flags = bit_or a.flags b.flags in
    if a.length == b.length
    then record { length = a.length; flags = flags } ∷ rest bs
    else if ltb b.length a.length
    then record { length = b.length; flags = flags }
      ∷ merge_one (record { length = a.length - b.length; flags = a.flags }) bs rest
    else record { length = a.length; flags = flags }
      ∷ rest (record { length = b.length - a.length; flags = b.flags } ∷ bs)

unfoldable pub merged : List Extent → List Extent → List Extent
unfolding merge_one
merged [] bs = []
merged (a ∷ as') bs = merge_one a bs (merged as')

-- The dict that `client.extents` returns, by context.
pub record Replies : Type 0 where
  pub base_allocation : Option (List Extent)
  pub allocation_depth : Option (List Extent)
  pub dirty_bitmap : Option (List Extent)

-- A lookup of a context that is not there raises `KeyError`, here `none`.
abbrev both : Option (List Extent) → Option (List Extent) → Option (List Extent)
both (some a) (some b) = some (merged a b)
both _ _ = none

-- The extents that one reply stands for.
unfoldable pub reply_extents : Bool → Replies → Option (List Extent)
unfolding merged
reply_extents true res = both res.base_allocation res.dirty_bitmap
reply_extents false res = elim res.allocation_depth [
  | some depths ↦ both res.base_allocation (some depths)
  | none ↦ res.base_allocation
]

-- `offset`, `cur` and what was yielded.
pub record Scan : Type 0 where
  pub offset : ℕ
  pub cur : Option Extent
  pub yielded : List Extent

-- "Handle the case of consecutive extents with same flags."
unfoldable pub join : Extent → Scan → Scan
join ext s = elim s.cur [
  | none ↦ record s { cur = some ext }
  | some cur ↦
      if cur.flags == ext.flags
      then record s { cur = some (record cur { length = cur.length + ext.length }) }
      else record s { cur = some ext; yielded = s.yielded ++ cur ∷ [] }
]

-- "Handle the case of last extent of the last block status command exceeding requested range."
abbrev pub clip : ℕ → ℕ → Extent → Extent
clip end offset ext = record ext {
  length = if ltb end (offset + ext.length) then end - offset else ext.length;
}

-- One round of the `for` loop.
unfoldable pub take_extent : ℕ → Extent → Scan → Scan
unfolding join
take_extent end ext s =
    let clipped = clip end s.offset ext in
    join clipped (record s { offset = s.offset + clipped.length })

-- The `for` loop over the extents of one reply, with its `break`.
unfoldable pub scan : ℕ → List Extent → Scan → Scan
unfolding take_extent
scan end [] s = s
scan end (ext ∷ exts) s =
    let s' = take_extent end ext s in
    let rest = scan end exts s' in if s'.offset == end then s' else rest

pub data Outcome : Type 0 where
  yields : List (Option Extent) → Outcome
  key_error : Outcome
  out_of_fuel : Outcome

abbrev pub max_step : ℕ
max_step = 2 * 1073741824

-- The `while` loop. The last `yield cur` is of `None` if the loop never ran.
unfoldable pub extents_loop : (ℕ → ℕ → Replies) → Bool → ℕ → ℕ → Scan → Outcome
unfolding scan reply_extents
extents_loop query dirty end zero s = out_of_fuel
extents_loop query dirty end (suc fuel) s =
    let exts = reply_extents dirty (query s.offset (min (end - s.offset) max_step)) in
    let next : Outcome = elim exts [
      | none ↦ key_error
      | some es ↦ extents_loop query dirty end fuel (scan end es s)
    ] in
    if ltb s.offset end then next else yields (map some s.yielded ++ s.cur ∷ [])

-- `length` is `None` for the rest of the export.
abbrev pub end_of : ℕ → ℕ → Option ℕ → ℕ
end_of export_size offset none = export_size
end_of export_size offset (some length) = offset + length

-- `extents(client, offset, length, dirty)`
unfoldable pub extents : (ℕ → ℕ → Replies) → ℕ → Bool → ℕ → Option ℕ → ℕ → Outcome
unfolding extents_loop
extents query export_size dirty offset length fuel =
    extents_loop query dirty (end_of export_size offset length) fuel
      (record { offset = offset; cur = none; yielded = [] })
