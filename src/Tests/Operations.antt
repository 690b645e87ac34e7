-- ===== src/Tests/Operations.antt =====
-- The theorems on operations at concrete inputs, on the memory backend.
use ovirt_imageio.Base.{
  ℕ, ◌+◌, ◌-◌, ◌<◌, ◌≡◌, refl, ◌⊎◌, Bool, true, false, none, some, List, [], ◌∷◌, arith, length,
  take, drop,
}
use ovirt_imageio.Base.Bytes.{byte_at}
use ovirt_imageio.Base.Exec.{ok, err}
use ovirt_imageio.Backends.Memory.{Memory, read_write, memory}
use ovirt_imageio.Backends.Memory.Reads.{IsOpen, memory-IsReader}
use ovirt_imageio.Backends.Memory.Writes.{IsWritable, memory-IsWriter}
use ovirt_imageio.Util.{round_up}
use ovirt_imageio.Ops.{canceled_error, partial_content, read_run, start}
use ovirt_imageio.Ops.Canceled.{GoesOn, Stopped}
use ovirt_imageio.Ops.Read.{read_run_lem}
use ovirt_imageio.Ops.Writing.{write_run, zero_run, start as start_write}
use ovirt_imageio.Ops.Writing.Loop.{WriteEnd, write_run_lem}
use ovirt_imageio.Ops.Writing.Zeroed.{ZeroEnd, zero_run_lem}

abbrev contents : List ℕ
contents = 1 ∷ 2 ∷ 3 ∷ 4 ∷ 5 ∷ []

abbrev disk : Memory
disk = record {
  mode = read_write;
  buf = contents;
  extents = record { zero = none; dirty = none };
  dirty = false;
  position = 0;
  is_closed = false;
  max_connections = 8;
}

abbrev never : ℕ → Bool
never k = false

disk-IsOpen : IsOpen contents disk
disk-IsOpen = record { opened = refl; readable = refl; same = refl }

disk-IsWritable : IsWritable disk
disk-IsWritable = record { opened = refl; writable = refl }

sent_disk : (read_run memory 3 1 2 never (start disk 3)).1.sent ≡ 2 ∷ 3 ∷ 4 ∷ []
unfolding read_run memory round_up
sent_disk = refl

read_run_lem_example :
    let (x, r) = read_run memory 3 1 2 never (start disk 3) in
    (r.sent ≡ take (3 - r.todo) (drop 1 contents))
    × (((x ≡ ok tt) × (r.todo ≡ 0) × GoesOn never r.chunks)
        ⊎ ((x ≡ err canceled_error) × Stopped never r.chunks)
        ⊎ ((x ≡ err (partial_content 3 r.todo))
            × GoesOn never r.chunks
            × (0 < r.todo)
            × (1 + (3 - r.todo) ≡ length contents)))
read_run_lem_example =
    read_run_lem memory (IsOpen contents) (λ m. m.position) contents 1 (memory-IsReader contents) 3
      1 2 never (omega arith) (omega arith) (omega arith) disk disk-IsOpen (omega arith)

-- Three bytes, of which a read returns two at most.
abbrev stream : List ℕ
stream = 7 ∷ 8 ∷ 9 ∷ []

abbrev two_at_most : ℕ → ℕ
two_at_most k = 2

written_disk :
    (write_run memory (some 3) 4 2 two_at_most never true 4 (start_write disk stream)).1.backend.buf
    ≡ 1 ∷ 2 ∷ 3 ∷ 4 ∷ 7 ∷ 8 ∷ 9 ∷ []
unfolding write_run memory
written_disk = refl

write_run_lem_example :
    WriteEnd memory
      (λ m. byte_at m.buf)
      (some 3)
      4
      stream
      never
      (byte_at contents)
      (write_run memory (some 3) 4 2 two_at_most never true 4 (start_write disk stream))
write_run_lem_example =
    write_run_lem memory IsWritable (λ m. m.position) (λ m. byte_at m.buf) 1 memory-IsWriter
      (some 3) 4 2 two_at_most never (λ k. omega arith) (omega arith) stream disk disk-IsWritable 4
      true (omega arith)

zero_run_lem_example :
    ZeroEnd
      (λ m. byte_at m.buf)
      2
      1
      never
      (byte_at contents)
      (zero_run memory 2 1 never true 3 (start_write disk []))
zero_run_lem_example =
    zero_run_lem memory IsWritable (λ m. m.position) (λ m. byte_at m.buf) 1 memory-IsWriter 2 1
      never disk disk-IsWritable 3 true (omega arith)
