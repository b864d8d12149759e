-- ===== src/Util/Buffers/Unowned.antt =====
-- include/pmemcpy/util/serializeable.h: `pmem_buffer`, over memory that it does not own.
use pmemcpy.Base.{ℕ, Option, none, some, Bytes, read_at}
use pmemcpy.Util.Error.{ok, fault}
use pmemcpy.Storage.Action.{Action}
use pmemcpy.Util.Buffers.{CHeap}

-- `buf_`, of which `none` is a null pointer, and `size_`.
pub record PmemBuffer : Type 0 where
  pub buf : Option ℕ
  pub size : ℕ

-- `pmem_buffer()`, and `pmem_buffer(buf, size)`.
abbrev pub null_buffer : PmemBuffer
null_buffer = record { buf = none; size = 0 }

abbrev pub over : Option ℕ → ℕ → PmemBuffer
over buf size = record { buf = buf; size = size }

-- The copy constructor, and the move constructor with what it leaves of the old buffer.
abbrev pub copy : PmemBuffer → PmemBuffer
copy old = record { buf = old.buf; size = old.size }

abbrev pub move : PmemBuffer → PmemBuffer × PmemBuffer
move old = (record { buf = old.buf; size = old.size }, null_buffer)

module _ (C : CHeap) where
  -- `alloc(size)`: the size that the buffer had remains.
  unfoldable pub alloc : ℕ → PmemBuffer → Action C.Heap PmemBuffer
  alloc size b h = elim (C.malloc size h) [
    | none ↦ (ok (record { buf = none; size = b.size }), h)
    | some (i, h') ↦ (ok (record { buf = some i; size = b.size }), h')
  ]

  -- The `size()` bytes at `c_str()`.
  unfoldable pub bytes_of : PmemBuffer → Action C.Heap Bytes
  bytes_of b h = elim b.buf [
    | none ↦ (fault, h)
    | some i ↦ elim (C.contents h i) [
      | none ↦ (fault, h)
      | some held ↦ elim (read_at b.size held) [ none ↦ (fault, h) | some bytes ↦ (ok bytes, h) ]
    ]
  ]

  -- `~pmem_buffer()`
  abbrev pub destroy : PmemBuffer → Action C.Heap (Unit {0})
  destroy b h = (ok tt, h)
