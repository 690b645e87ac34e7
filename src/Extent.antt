-- ===== src/Extent.antt =====
-- ovirt_imageio/_internal/extent.py: image extents as the backends report them, and the dicts that
-- the server sends for them.
use text.Mathlib.Text.{◌==◌ as str_eq}
use ovirt_imageio.Base.{
  ℕ, String, Bool, false, not, Option, none, some, List, [], ◌∷◌, if◌then◌else◌, ◌≡◌, refl, arith,
}

-- `hole` is `None` for an extent that an old server sent.
pub record ZeroExtent : Type 0 where
  pub start : ℕ
  pub length : ℕ
  pub zero : Bool
  pub hole : Option Bool

pub record DirtyExtent : Type 0 where
  pub start : ℕ
  pub length : ℕ
  pub dirty : Bool
  pub zero : Bool

-- What the dicts hold.
pub data Value : Type 0 where
  null : Value
  num : ℕ → Value
  bool : Bool → Value

abbrev pub Dict : Type 0
Dict = List (String × Value)

abbrev get : Dict → String → Option Value
get [] key = none
get ((k, v) ∷ d) key = if str_eq k key then some v else get d key

-- `d[key]` for a number and for a flag. `none` is a `KeyError`; the source does not look at the types,
-- and dicts of other types are not modelled.
abbrev get_num : Dict → String → Option ℕ
get_num d key = elim (get d key) [ some (num n) ↦ some n | _ ↦ none ]

abbrev get_bool : Dict → String → Option Bool
get_bool d key = elim (get d key) [ some (bool b) ↦ some b | _ ↦ none ]

infixl 10 ◌>>=◌
abbrev ◌>>=◌ {ℓ κ} : {A : Type ℓ} {B : Type κ} → Option A → (A → Option B) → Option B
none >>= f = none
some a >>= f = f a

-- `ZeroExtent.data`
unfoldable pub zero_data : ZeroExtent → Bool
zero_data e = not e.zero

-- `DirtyExtent.data`
unfoldable pub dirty_data : DirtyExtent → Bool
dirty_data e = not e.zero

abbrev bool_or_none : Option Bool → Value
bool_or_none none = null
bool_or_none (some b) = bool b

-- `ZeroExtent.to_dict`
unfoldable pub zero_to_dict : ZeroExtent → Dict
zero_to_dict e =
    ("start", num e.start)
    ∷ ("length", num e.length)
    ∷ ("zero", bool e.zero)
    ∷ ("hole", bool_or_none e.hole)
    ∷ []

-- `ZeroExtent.from_dict`
unfoldable pub zero_from_dict : Dict → Option ZeroExtent
zero_from_dict d = do
  start ← get_num d "start"
  length ← get_num d "length"
  zero ← get_bool d "zero"
  some (record { start = start; length = length; zero = zero; hole = get_bool d "hole" })

-- `DirtyExtent.to_dict`
unfoldable pub dirty_to_dict : DirtyExtent → Dict
dirty_to_dict e =
    ("start", num e.start)
    ∷ ("length", num e.length)
    ∷ ("dirty", bool e.dirty)
    ∷ ("zero", bool e.zero)
    ∷ []

-- `DirtyExtent.from_dict`; `zero` is false if the dict lacks it.
unfoldable pub dirty_from_dict : Dict → Option DirtyExtent
dirty_from_dict d = do
  start ← get_num d "start"
  length ← get_num d "length"
  dirty ← get_bool d "dirty"
  some (record {
    start = start;
    length = length;
    dirty = dirty;
    zero = elim (get_bool d "zero") [ some b ↦ b | none ↦ false ];
  })

-- Reading back the dict of a zero extent and of a dirty extent gives the extent.
pub from_dict-to_dict :
    ((e : ZeroExtent) → zero_from_dict (zero_to_dict e) ≡ some e)
    × ((e : DirtyExtent) → dirty_from_dict (dirty_to_dict e) ≡ some e)
unfolding zero_from_dict zero_to_dict dirty_from_dict dirty_to_dict
from_dict-to_dict = (λ e. ground arith, λ e. refl)
