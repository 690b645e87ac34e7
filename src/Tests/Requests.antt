-- ===== src/Tests/Requests.antt =====
-- The theorems on requests at concrete inputs.
use text.Mathlib.TextEquality.{eq_iff}
use ovirt_imageio.Base.{
  ℕ, ◌+◌, ◌-◌, min, ◌≡◌, refl, ◌⊎◌, Bool, true, false, none, some, List, [], ◌∷◌, ◌++◌, arith, ltb,
  leb, ◌==◌, ◌&&◌, if◌then◌else◌, length, take, drop,
}
use ovirt_imageio.Base.Int.{pos, negsuc, difference}
use ovirt_imageio.Base.Exec.{ok, err}
use ovirt_imageio.Auth.{authorization, Ticket, extend, may}
use ovirt_imageio.Auth.Store.{Tickets, find_ticket, authorize}
use ovirt_imageio.Http.{requested_range_not_satisfiable}
use ovirt_imageio.Http.Body.{body, read, readinto, Call, reading, reading_into, answers, body_lem}
use ovirt_imageio.Http.Ranges.{Range, ContentRange, parse_range}
use ovirt_imageio.Backends.Memory.{Memory, read_write, memory}
use ovirt_imageio.Backends.Memory.Reads.{IsOpen, memory-IsReader}
use ovirt_imageio.Ops.{canceled_error, read_run, start}
use ovirt_imageio.Ops.Canceled.{GoesOn, Stopped}
use ovirt_imageio.Handlers.Validate.{Dict, bool, num, integer}
use ovirt_imageio.Handlers.Images.{get_span}
use ovirt_imageio.Handlers.Images.Spans.{then_span, get_span_lem}
use ovirt_imageio.Handlers.Images.Served.{get_served}
use ovirt_imageio.Handlers.Tickets.{responds, patch}
use ovirt_imageio.Handlers.Tickets.Laws.{patch_lem}

-- The context with the handle 3 raises.
abbrev third_fails : ℕ → Bool
third_fails k = k == 3

abbrev idle : Ticket
idle = record {
  uuid = "a";
  size = 4;
  ops = "read" ∷ [];
  timeout = 300;
  inactivity_timeout = 60;
  expires = 300;
  access_time = 0;
  url = "file:///image";
  transfer_id = "t";
  filename = none;
  sparse = false;
  dirty = false;
  ongoing = [];
  completed = [];
  canceled = false;
  connections = (5, record { handle = 3; is_closed = false }) ∷ [];
  unused = false;
}

abbrev busy : Ticket
busy = record idle { ongoing = record { id = 1; offset = 0; done = 0; canceled = false } ∷ [] }

abbrev store : Tickets
store = ("a", idle) ∷ ("b", busy) ∷ []

abbrev contents : List ℕ
contents = 1 ∷ 2 ∷ 3 ∷ 4 ∷ 5 ∷ []

abbrev disk : Memory
disk = record {
  mode = read_write;
  buf = contents;
  extents = record { zero = none; dirty = none };
  dirty = false;
  position = 0;
  is_closed = false;
  max_connections = 8;
}

abbrev never : ℕ → Bool
never k = false

disk-IsOpen : IsOpen contents disk
disk-IsOpen = record { opened = refl; readable = refl; same = refl }

abbrev one_to_two : Range
one_to_two = record { first = pos 1; last = some 2 }

span_one_to_two : get_span (some one_to_two) idle (length contents) ≡ ok (1, pos 2)
unfolding get_span
span_one_to_two = refl

get_served_example :
    let (x, r) = read_run memory 2 1 2 never (start disk 2) in
    ((x ≡ ok tt) × (r.sent ≡ take 2 (drop 1 contents)) × GoesOn never r.chunks)
    ⊎ ((x ≡ err canceled_error)
        × (r.sent ≡ take (2 - r.todo) (drop 1 contents))
        × Stopped never r.chunks)
get_served_example =
    get_served memory (IsOpen contents) (λ m. m.position) contents 1 (memory-IsReader contents)
      (some one_to_two) idle 2 1 2 never span_one_to_two (omega arith) (omega arith) disk
      disk-IsOpen (omega arith)

-- An offset behind the end is not refused.
span_behind : get_span (some (record { first = pos 7; last = none })) idle 5 ≡ ok (7, negsuc 2)
unfolding get_span
span_behind = refl

get_span_lem_example :
    (then_span (parse_range (some (some 1, some 2))) idle 5 ≡ (
      if leb 1 2 && ltb 2 (min idle.size 5)
      then ok (1, pos (2 + 1 - 1))
      else err requested_range_not_satisfiable))
    × (then_span (parse_range (some (some 1, none))) idle 5
        ≡ ok (1, difference (min idle.size 5) 1))
    × (get_span none idle 5 ≡ ok (0, pos (min idle.size 5)))
    × (then_span (parse_range (some (none, some 2))) idle 5
        ≡ (if 2 == 0 then ok (0, pos (min idle.size 5)) else err requested_range_not_satisfiable))
get_span_lem_example = get_span_lem idle 5 1 2

abbrev second_half : ContentRange
second_half = record { first = 2; last = some 3; complete = some 4 }

abbrev patch_body : Dict
patch_body = ("timeout", num (pos 50)) ∷ ("flush", bool true) ∷ []

body_timeout : integer patch_body "timeout" (some (pos 0)) none none ≡ ok (pos 50)
unfolding integer
body_timeout = refl

found_idle : find_ticket "a" store ≡ some idle
unfolding find_ticket
found_idle = refl

may_read : may "read" idle ≡ true
unfolding may
may_read = refl

patch_lem_example :
    let (o, us) = patch 10 "a" patch_body store in
    (o ≡ responds 200)
    × (authorize 40 "a" "read" us
        ≡ (if ltb 40 (10 + 50) then ok (extend 10 50 idle) else err authorization))
    × (find_ticket "b" us ≡ find_ticket "b" store)
patch_lem_example =
    patch_lem 10 40 50 "a" "b" "read" patch_body store idle (ground (arith, eq_iff "a" ""))
      (ground (arith, eq_iff "a" "b")) body_timeout found_idle refl may_read

-- A request with a body of 3 bytes, and 2 bytes of the next request.
abbrev calls : List Call
calls = reading_into 2 ∷ reading none ∷ reading (some 5) ∷ []

read_calls : (answers (λ k. 1) calls (body (some 3) contents)).0 ≡ 1 ∷ 2 ∷ 3 ∷ []
unfolding answers read readinto
read_calls = refl

body_lem_example :
    let (bytes, b) = answers (λ k. 1) calls (body (some 3) contents) in
    (bytes ++ b.rfile ≡ contents) × (length bytes + b.left ≡ 3)
body_lem_example = body_lem (λ k. 1) calls 3 contents
