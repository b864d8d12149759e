-- ===== src/Util/Buffers.antt =====
-- include/pmemcpy/util/serializeable.h: `malloc_buffer`, which owns a block of the C heap.
pub mod Owning
pub mod Text
pub mod Unowned
pub mod Generic
use pmemcpy.Base.{
  ℕ, ◌≡◌, Bool, true, false, Option, none, some, Bytes, ◌==◌, if◌then◌else◌, length, read_at,
  write_at,
}
use pmemcpy.Util.Error.{Result, ok, fault}
use pmemcpy.Storage.Action.{Action, ◌>>=◌, ◌>>◌, lift}

-- What the buffers use of the C heap, which is a parameter.
pub record CHeap : Type 1 where
  pub Heap : Type 0
  -- The bytes of the block at an address; an address that starts no block has none.
  pub contents : Heap → ℕ → Option Bytes
  -- A new block with the bytes that happen to be there; `none` is a null pointer.
  pub malloc : ℕ → Heap → Option (ℕ × Heap)
  pub poke : ℕ → Bytes → Heap → Heap
  pub release : ℕ → Heap → Heap

-- What the C standard says of them.
pub record IsHeap (C : CHeap) : Type 0 where
  pub malloc_new :
      (n : ℕ) (h : C.Heap) (i : ℕ) (h' : C.Heap)
      → C.malloc n h ≡ some (i, h')
      → (bytes : Bytes) × (C.contents h' i ≡ some bytes) × (length bytes ≡ n)
  pub contents_poke :
      (i : ℕ) (bytes : Bytes) (h : C.Heap) (j : ℕ)
      → C.contents (C.poke i bytes h) j ≡ (if j == i then some bytes else C.contents h j)
  pub contents_release :
      (i : ℕ) (h : C.Heap) (j : ℕ)
      → C.contents (C.release i h) j ≡ (if j == i then none else C.contents h j)

-- `buf_`, of which `none` is a null pointer, and `size_`.
pub record MallocBuffer : Type 0 where
  pub buf : Option ℕ
  pub size : ℕ

-- `malloc_buffer()`
abbrev pub null_buffer : MallocBuffer
null_buffer = record { buf = none; size = 0 }

-- The copy constructor: both have the block.
abbrev pub copy : MallocBuffer → MallocBuffer
copy old = record { buf = old.buf; size = old.size }

-- The move constructor: the new buffer, and what it leaves of the old one.
abbrev pub move : MallocBuffer → MallocBuffer × MallocBuffer
move old = (record { buf = old.buf; size = old.size }, null_buffer)

module _ (C : CHeap) where
  -- `malloc_buffer(size)`
  unfoldable pub sized : ℕ → Action C.Heap MallocBuffer
  sized size h = elim (C.malloc size h) [
    | none ↦ (ok (record { buf = none; size = size }), h)
    | some (i, h') ↦ (ok (record { buf = some i; size = size }), h')
  ]

  -- `alloc(size)` of a buffer: whatever it had is forgotten.
  abbrev pub alloc : ℕ → MallocBuffer → Action C.Heap MallocBuffer
  alloc size old = sized size

  -- `memcpy(buf_, src, size)`
  unfoldable pub fill_from : ℕ → Bytes → Option ℕ → Action C.Heap (Unit {0})
  fill_from size src none h = (fault, h)
  fill_from size src (some i) h = elim (C.contents h i) [
    | none ↦ (fault, h)
    | some old ↦ elim (read_at size src) [
      | none ↦ (fault, h)
      | some bytes ↦ elim (write_at 0 bytes old) [
        | none ↦ (fault, h)
        | some new ↦ (ok tt, C.poke i new h)
      ]
    ]
  ]

  -- `malloc_buffer(buf, size)`, where `src` is the memory at `buf`.
  unfoldable pub from_memory : Bytes → ℕ → Action C.Heap MallocBuffer
  unfolding sized fill_from
  from_memory src size = sized size >>= λ b. fill_from size src b.buf >> lift (ok b)

  -- The `size()` bytes at `c_str()`.
  unfoldable pub bytes_of : MallocBuffer → Action C.Heap Bytes
  bytes_of b h = elim b.buf [
    | none ↦ (fault, h)
    | some i ↦ elim (C.contents h i) [
      | none ↦ (fault, h)
      | some held ↦ elim (read_at b.size held) [ none ↦ (fault, h) | some bytes ↦ (ok bytes, h) ]
    ]
  ]

  -- `~malloc_buffer()`; to free a block that is no longer one is undefined behaviour.
  unfoldable pub destroy : MallocBuffer → Action C.Heap (Unit {0})
  destroy b h = elim b.buf [
    | none ↦ (ok tt, h)
    | some i ↦ elim (C.contents h i) [ none ↦ (fault, h) | some held ↦ (ok tt, C.release i h) ]
  ]
