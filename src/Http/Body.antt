-- ===== src/Http/Body.antt =====
-- The body of a request: `content_length`, `length`, `read` and `readinto` of `class Request` of
-- ovirt_imageio/_internal/http.py.
--
-- `rfile` are the bytes that the connection delivers until it is closed, those of later requests
-- included. Its `readinto` may return fewer bytes than there is room for: `serve k` bounds what the k-th
-- call returns. Its `read n` returns `n` bytes unless the connection ends before.
use ovirt_imageio.Base.{
  ℕ, ◌+◌, ◌-◌, ◌≤◌, min, ◌≡◌, refl, ap, sym, ◌∙◌, Option, none, some, List, [], ◌∷◌, ◌++◌, arith,
  ltb, ◌==◌, if◌then◌else◌, length, take, drop, take-take-drop, drop-drop, length-take, length-drop,
  ==-cases, inl, inr, ap₂, take-append-drop,
}
use ovirt_imageio.Base.Int.{ℤ, pos, negsuc}
use ovirt_imageio.Base.Exec.{Result, ok, err}
use ovirt_imageio.Http.{bad_request}

-- `Request.content_length`, from the header and what `int` makes of it.
unfoldable pub content_length : Option (Option ℤ) → Result ℕ (Option ℕ)
content_length none = ok none
content_length (some none) = err bad_request
content_length (some (some (pos n))) = ok (some n)
content_length (some (some (negsuc n))) = err bad_request

-- `left` is `_length`, with 0 for `None`.
pub record Body : Type 0 where
  pub left : ℕ
  pub rfile : List ℕ
  pub reads : ℕ

-- A new request whose content length is known, or not.
abbrev pub body : Option ℕ → List ℕ → Body
body none rfile = record { left = 0; rfile = rfile; reads = 0 }
body (some n) rfile = record { left = n; rfile = rfile; reads = 0 }

-- `n` bytes of the connection are taken.
abbrev taken : ℕ → Body → List ℕ × Body
taken n b =
    (take n b.rfile, record { left = b.left - n; rfile = drop n b.rfile; reads = b.reads + 1 })

-- How many bytes `read` asks for.
abbrev wanted : Option ℕ → ℕ → ℕ
wanted none left = left
wanted (some n) left = if ltb left n then left else n

-- `Request.read`
unfoldable pub read : Option ℕ → Body → List ℕ × Body
read n b = if b.left == 0 then ([], b) else taken (min (wanted n b.left) (length b.rfile)) b

-- `Request.readinto` of a buffer of `size` bytes; the number of bytes is what the source returns.
unfoldable pub readinto : (ℕ → ℕ) → ℕ → Body → List ℕ × Body
readinto serve size b =
    if b.left == 0
    then ([], b)
    else taken (min (min (min size b.left) (serve b.reads)) (length b.rfile)) b

-- A call of one of the two.
pub data Call : Type 0 where
  reading : Option ℕ → Call
  reading_into : ℕ → Call

module _ (serve : ℕ → ℕ) where
  abbrev pub answer : Call → Body → List ℕ × Body
  answer (reading n) b = read n b
  answer (reading_into size) b = readinto serve size b

  -- What a sequence of calls returns, all bytes together.
  unfoldable pub answers : List Call → Body → List ℕ × Body
  answers [] b = ([], b)
  answers (c ∷ cs) b =
      let (bytes, b') = answer c b in let (more, b'') = answers cs b' in (bytes ++ more, b'')

-- `n` of the bytes that are left were taken from the connection.
abbrev Takes : ℕ → Body → List ℕ × Body → Type 0
Takes n b (bytes, b') =
    (n ≤ b.left)
    × (n ≤ length b.rfile)
    × (bytes ≡ take n b.rfile)
    × (b'.left ≡ b.left - n)
    × (b'.rfile ≡ drop n b.rfile)

wanted_le : (n : Option ℕ) (left : ℕ) → wanted n left ≤ left
wanted_le none left = omega arith
wanted_le (some n) left = ground arith

read_lem : (n : Option ℕ) (b : Body) → (k : ℕ) × Takes k b (read n b)
unfolding read
read_lem n b = elim (==-cases b.left 0) [
  | inl (t, _) ↦ rw t (0, (omega arith, omega arith, refl, omega arith, refl))
  | inr (t, _) ↦
      let k = min (wanted n b.left) (length b.rfile) in
      rw t (k, (omega (arith, wanted_le n b.left), omega arith, refl, refl, refl))
]

module _ (serve : ℕ → ℕ) where
  readinto_lem : (size : ℕ) (b : Body) → (k : ℕ) × Takes k b (readinto serve size b)
  unfolding readinto
  readinto_lem size b = elim (==-cases b.left 0) [
    | inl (t, _) ↦ rw t (0, (omega arith, omega arith, refl, omega arith, refl))
    | inr (t, _) ↦
        let k = min (min (min size b.left) (serve b.reads)) (length b.rfile) in
        rw t (k, (omega arith, omega arith, refl, refl, refl))
  ]

  answer_lem : (c : Call) (b : Body) → (k : ℕ) × Takes k b (answer serve c b)
  answer_lem (reading n) b = read_lem n b
  answer_lem (reading_into size) b = readinto_lem size b

  answers_lem : (cs : List Call) (b : Body) → (k : ℕ) × Takes k b (answers serve cs b)
  unfolding answers
  answers_lem [] b = (0, (omega arith, omega arith, refl, omega arith, refl))
  answers_lem (c ∷ cs) b =
      let (n, (n_left, n_room, got, left, rest)) = answer_lem c b in
      let (m, (m_left, m_room, more, left', rest')) = answers_lem cs (answer serve c b).1 in
      let room : m ≤ length b.rfile - n =
        omega (arith, m_room, ap length rest, length-drop n b.rfile) in
      (
        n + m,
        (
          omega (arith, left, m_left),
          omega (arith, room),
          rw got (rw more (rw rest (sym (take-take-drop n m (n + m) b.rfile refl)))),
          omega (arith, left, left'),
          rest' ∙ ap (drop m) rest ∙ drop-drop m n (n + m) b.rfile refl,
        ),
      )

-- For any sequence of `read` and `readinto` calls on a request with a content length, what they return is,
-- in order and without a gap, the next bytes of the connection, and together with what is left they are
-- as many as the content length: no call takes a byte of a later request.
pub body_lem :
    (serve : ℕ → ℕ) (cs : List Call) (n : ℕ) (rfile : List ℕ)
    → let (bytes, b) = answers serve cs (body (some n) rfile) in
      (bytes ++ b.rfile ≡ rfile) × (length bytes + b.left ≡ n)
body_lem serve cs n rfile =
    let (k, (le, room, got, left, rest)) = answers_lem serve cs (body (some n) rfile) in
    (
      ap₂ (λ xs ys. xs ++ ys) got rest ∙ take-append-drop k rfile,
      omega (arith, ap length got, left, length-take k rfile),
    )
