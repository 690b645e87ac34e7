-- ===== src/Handlers/Validate.antt =====
-- ovirt_imageio/_internal/validate.py: the checks of parameters and ranges. An error is its status code.
pub mod Laws
use text.Mathlib.Text.{◌==◌ as str_eq}
use ovirt_imageio.Base.{
  ℕ, ◌+◌, min, String, Bool, true, false, Option, none, some, List, [], ◌∷◌, ltb, if◌then◌else◌,
}
use ovirt_imageio.Base.Int.{ℤ, pos, ltb_ℤ}
use ovirt_imageio.Base.Exec.{Result, ok, err}
use ovirt_imageio.Auth.{Ticket, contains}
use ovirt_imageio.Http.{bad_request, requested_range_not_satisfiable}

-- A value of a JSON object or of a query.
pub data Value : Type 0 where
  null : Value
  bool : Bool → Value
  num : ℤ → Value
  str : String → Value
  other : Value

abbrev pub Dict : Type 0
Dict = List (String × Value)

unfoldable pub get : Dict → String → Option Value
get [] name = none
get ((k, v) ∷ d) name = if str_eq k name then some v else get d name

-- `isinstance(val, int)`: a boolean of Python is an integer too.
abbrev pub as_integer : Value → Option ℤ
as_integer (num n) = some n
as_integer (bool true) = some (pos 1)
as_integer (bool false) = some (pos 0)
as_integer _ = none

abbrev below : ℤ → Option ℤ → Bool
below n none = false
below n (some minval) = ltb_ℤ n minval

abbrev above : ℤ → Option ℤ → Bool
above n none = false
above n (some maxval) = ltb_ℤ maxval n

abbrev default_or_error : {A : Type 0} → Option A → Result ℕ A
default_or_error (some d) = ok d
default_or_error none = err bad_request

abbrev in_bounds : Option ℤ → Option ℤ → Option ℤ → Result ℕ ℤ
in_bounds none minval maxval = err bad_request
in_bounds (some n) minval maxval =
    if below n minval then err bad_request else if above n maxval then err bad_request else ok n

unfoldable pub integer : Dict → String → Option ℤ → Option ℤ → Option ℤ → Result ℕ ℤ
unfolding get
integer d name minval maxval default = elim (get d name) [
  | none ↦ default_or_error default
  | some val ↦ in_bounds (as_integer val) minval maxval
]

abbrev as_member : List String → Value → Result ℕ String
as_member values (str s) = if contains s values then ok s else err bad_request
as_member values _ = err bad_request

unfoldable pub enum : Dict → String → List String → Option String → Result ℕ String
unfolding get
enum d name values default = elim (get d name) [
  | none ↦ default_or_error default
  | some val ↦ as_member values val
]

abbrev as_boolean : Value → Result ℕ Bool
as_boolean (bool b) = ok b
as_boolean _ = err bad_request

unfoldable pub boolean : Dict → String → Option Bool → Result ℕ Bool
unfolding get
boolean d name default = elim (get d name) [
  | none ↦ default_or_error default
  | some val ↦ as_boolean val
]

-- For the size of the ticket.
unfoldable pub allowed_range : ℕ → ℕ → Ticket → Result ℕ (Unit {0})
allowed_range offset size ticket =
    if ltb ticket.size (offset + size) then err requested_range_not_satisfiable else ok tt

-- For the sizes of the ticket and of the backend.
unfoldable pub available_range : ℕ → ℕ → Ticket → ℕ → Result ℕ (Unit {0})
available_range offset size ticket backend_size =
    let requested : ℕ = offset + size in
    let available : ℕ = min ticket.size backend_size in
    if ltb available requested then err requested_range_not_satisfiable else ok tt
