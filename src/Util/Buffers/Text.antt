-- ===== src/Util/Buffers/Text.antt =====
-- include/pmemcpy/util/serializeable.h: `string_buffer`, which owns a `std::string`.
use pmemcpy.Base.{ℕ, [], none, some, Bytes, length}
use pmemcpy.Util.Error.{Result, ok, fault, ◌>>=◌}
use pmemcpy.Storage.Action.{Action}
use pmemcpy.Util.Buffers.{CHeap, MallocBuffer}
use pmemcpy.Serialize.Streams.{c_text}

-- `buf_`
pub record StringBuffer : Type 0 where
  pub buf : Bytes

-- `string_buffer()`, `string_buffer(str)`, and the copy constructor.
abbrev pub empty : StringBuffer
empty = record { buf = [] }

abbrev pub from_string : Bytes → StringBuffer
from_string str = record { buf = str }

abbrev pub copy : StringBuffer → StringBuffer
copy old = record { buf = old.buf }

-- `~string_buffer()`: the string is the buffer's own.
abbrev pub destroy : {H : Type 0} → StringBuffer → Action H (Unit {0})
destroy b h = (ok tt, h)

-- `size()` and the bytes at `c_str()`.
abbrev pub size : StringBuffer → ℕ
size b = length b.buf

abbrev pub bytes_of : StringBuffer → Bytes
bytes_of b = b.buf

-- `string_buffer(malloc_buffer&&)`: the string is assigned from a pointer, which reads to the first NUL
-- whatever the size; the old buffer keeps its block.
unfoldable pub from_malloc : (C : CHeap) → MallocBuffer → C.Heap → Result StringBuffer
unfolding c_text
from_malloc C old h = elim old.buf [
  | none ↦ fault
  | some i ↦ elim (C.contents h i) [
    | none ↦ fault
    | some held ↦ (c_text held >>= λ text. ok (from_string text))
  ]
]
