-- ===== src/Handlers/Images/Served.antt =====
-- The `Read` that GET runs in ovirt_imageio/_internal/handlers/images.py.
use ovirt_imageio.Base.{
  ℕ, ◌-◌, ◌%◌, ◌<◌, ◌≡◌, ap, ◌∙◌, ◌⊎◌, inl, inr, Bool, Option, List, arith, length, take, drop,
}
use ovirt_imageio.Base.Int.{pos}
use ovirt_imageio.Base.Exec.{ok, err}
use ovirt_imageio.Auth.{Ticket}
use ovirt_imageio.Http.Ranges.{Range}
use ovirt_imageio.Backends.{Backend}
use ovirt_imageio.Backends.Reader.{IsReader}
use ovirt_imageio.Ops.{canceled_error, read_run, start}
use ovirt_imageio.Ops.Canceled.{GoesOn, Stopped}
use ovirt_imageio.Ops.Read.{read_run_lem}
use ovirt_imageio.Handlers.Images.{get_span}
use ovirt_imageio.Handlers.Images.Spans.{span_fits}

-- When GET has chosen an offset and a size above 0 for its range, from the sizes of the ticket and of a
-- backend that meets `IsReader`, and its buffer holds whole blocks, and the connection takes what is
-- written to it, then the `Read` that it runs sends exactly that many bytes of the content from the
-- offset on and returns, if the cancel flag is not set when any of its chunks ends. Else it raises the
-- cancellation at the first chunk that ends with the flag set, and has sent the bytes from the offset on
-- up to there. It never ends with a partial content error.
pub get_served :
    {S : Type 0} (b : Backend S) (Ready : S → Type 0) (position : S → ℕ) (content : List ℕ)
    (block_size : ℕ)
    → IsReader b Ready position content block_size
    → (range : Option Range) (t : Ticket) (size offset buf_size : ℕ) (canceled : ℕ → Bool)
    → get_span range t (length content) ≡ ok (offset, pos size)
    → buf_size % block_size ≡ 0
    → 0 < buf_size
    → (s : S) → Ready s
    → 0 < size
    → let (x, r) = read_run b size offset buf_size canceled (start s size) in
      ((x ≡ ok tt) × (r.sent ≡ take size (drop offset content)) × GoesOn canceled r.chunks)
      ⊎ ((x ≡ err canceled_error)
          × (r.sent ≡ take (size - r.todo) (drop offset content))
          × Stopped canceled r.chunks)
get_served b Ready position content block_size reader range t size offset buf_size canceled e al
      pos_buf s rd h =
    let fits = span_fits range t (length content) offset size e in
    let r = (read_run b size offset buf_size canceled (start s size)).1 in
    let (sent, ends) =
      read_run_lem b Ready position content block_size reader size offset buf_size canceled al
        pos_buf (omega arith) s rd h in
    elim ends [
      | inl (done, none_left, g) ↦
          let all : size - r.todo ≡ size = omega arith in
          inl (done, sent ∙ ap (λ k. take k (drop offset content)) all, g)
      | inr (inl (stop, when)) ↦ inr (stop, sent, when)
      | inr (inr (_, _, more, at)) ↦ absurd (omega arith)
    ]
