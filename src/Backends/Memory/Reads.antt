-- ===== src/Backends/Memory/Reads.antt =====
-- ovirt_imageio/_internal/backends/memory.py as `Read` uses it.
use ovirt_imageio.Base.{
  ℕ, ◌+◌, ◌-◌, ◌%◌, ◌≤◌, min, ◌≡◌, refl, true, false, inl, List, arith, ltb, length,
}
use ovirt_imageio.Backends.Reader.{IsReader}
use ovirt_imageio.Backends.Memory.{Memory, can_read, memory}

-- An open memory in a mode that reads, with the given bytes.
pub record IsOpen (content : List ℕ) (m : Memory) : Type 0 where
  pub opened : m.is_closed ≡ false
  pub readable : can_read m.mode ≡ true
  pub same : m.buf ≡ content

ltb-false : (a b : ℕ) → b ≤ a → ltb a b ≡ false
ltb-false a b h = ground arith

mod_one : (n : ℕ) → n % 1 ≡ 0
mod_one n = omega arith

-- For every content, an open memory that holds it and may be read meets the interface of `Read`, with
-- block size 1.
pub memory-IsReader :
    (content : List ℕ) → IsReader memory (IsOpen content) (λ m. m.position) content 1
unfolding memory
memory-IsReader content = record {
  positive = omega arith;
  same_block_size = λ m o. refl;
  tells = λ m o. rw o.opened;
  seeks = λ n m o. (
    record m { position = n },
    rw o.opened,
    record { opened = o.opened; readable = o.readable; same = o.same },
    refl,
  );
  reads = λ n m o _ _ le.
      let count = min n (length content - m.position) in
      (
        record m { position = m.position + count },
        count,
        rw (o.opened, o.readable, o.same, ltb-false (length content) m.position le),
        record { opened = o.opened; readable = o.readable; same = o.same },
        refl,
        omega arith,
        omega arith,
        λ room more. omega arith,
        inl (mod_one count),
      );
}
