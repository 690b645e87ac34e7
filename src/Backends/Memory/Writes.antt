-- ===== src/Backends/Memory/Writes.antt =====
-- ovirt_imageio/_internal/backends/memory.py as `Write` and `Zero` use it.
use ovirt_imageio.Base.{
  ℕ, ◌+◌, ◌-◌, ◌≡◌, refl, true, false, List, arith, length, replicate, length-replicate,
}
use ovirt_imageio.Base.Bytes.{byte_at, byte_at-zeros}
use ovirt_imageio.Backends.Writer.{IsWriter}
use ovirt_imageio.Backends.Memory.{Memory, can_write, memory, splice}
use ovirt_imageio.Backends.Memory.Contents.{byte_at-splice}

-- An open memory in a mode that writes.
pub record IsWritable (m : Memory) : Type 0 where
  pub opened : m.is_closed ≡ false
  pub writable : can_write m.mode ≡ true

abbrev zeros : ℕ → List ℕ
zeros count = replicate count 0

-- An open memory that may be written meets the interface of `Write` and `Zero`, with block size 1: its
-- image are its bytes, and zeros behind them.
pub memory-IsWriter : IsWriter memory IsWritable (λ m. m.position) (λ m. byte_at m.buf) 1
unfolding memory
memory-IsWriter = record {
  positive = omega arith;
  same_block_size = λ m o. refl;
  seeks = λ n m o. (
    record m { position = n },
    rw o.opened,
    record { opened = o.opened; writable = o.writable },
    refl,
    λ i. refl,
  );
  writes = λ bytes m o pos. (
    record m {
      buf = splice m.position bytes m.buf;
      position = m.position + length bytes;
      dirty = true;
    },
    length bytes,
    rw (o.opened, o.writable),
    record { opened = o.opened; writable = o.writable },
    pos,
    omega arith,
    refl,
    byte_at-splice m.position bytes m.buf,
  );
  zeroes = λ count m o pos.
      let bytes = zeros count in
      let n : length bytes ≡ count = length-replicate count (let z : ℕ = 0 in z) in
      (
        record m {
          buf = splice m.position bytes m.buf;
          position = m.position + length bytes;
          dirty = true;
        },
        length bytes,
        simp (o.opened, o.writable),
        record { opened = o.opened; writable = o.writable },
        omega arith,
        omega arith,
        refl,
        λ i.
            ground (
              arith,
              byte_at-splice m.position bytes m.buf i,
              byte_at-zeros count (i - m.position),
            ),
      );
  flushes = λ m o. (
    record m { dirty = false },
    rw o.opened,
    record { opened = o.opened; writable = o.writable },
    λ i. refl,
  );
}
