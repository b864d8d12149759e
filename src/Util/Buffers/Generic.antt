-- ===== src/Util/Buffers/Generic.antt =====
-- include/pmemcpy/util/serializeable.h: the abstract class `generic_buffer`, and the buffers over memory.
use pmemcpy.Base.{
  ℕ, zero, suc, ◌<◌, ◌≡◌, refl, Option, none, some, [], ◌∷◌, Bytes, ◌==◌, if◌then◌else◌, length,
  take, le→leb, ◌≤◌, ◌∙◌, read_at, arith,
}
use pmemcpy.Util.Error.{Result, ok, fault}
use pmemcpy.Storage.Action.{Action}
use pmemcpy.Util.Buffers
use pmemcpy.Util.Buffers.{CHeap, MallocBuffer}
use pmemcpy.Util.Buffers.Text
use pmemcpy.Util.Buffers.Text.{StringBuffer}
use pmemcpy.Util.Buffers.Unowned
use pmemcpy.Util.Buffers.Unowned.{PmemBuffer}

-- `size()`, the `size()` bytes at `c_str()`, and a read of `operator[](i)`.
pub record GenericBuffer (H : Type 0) : Type 1 where
  pub Buffer : Type 0
  pub size : Buffer → ℕ
  pub bytes_of : Buffer → Action H Bytes
  pub char_at : Buffer → ℕ → Action H ℕ

-- The byte at an index; there is none behind the end.
unfoldable pub byte_at : ℕ → Bytes → Option ℕ
byte_at n [] = none
byte_at zero (c ∷ rest) = some c
byte_at (suc n) (c ∷ rest) = byte_at n rest

-- A read in bounds, or undefined behaviour.
abbrev pub checked_byte : {H : Type 0} → Option ℕ → H → Result ℕ × H
checked_byte none h = (fault, h)
checked_byte (some c) h = (ok c, h)

-- `buf_[i]` of a `std::string`, which has a NUL behind its last byte.
unfoldable pub string_char_at : {H : Type 0} → StringBuffer → ℕ → Action H ℕ
unfolding byte_at
string_char_at b i h = if i == length b.buf then (ok 0, h) else checked_byte (byte_at i b.buf) h

abbrev pub string_buffer : {H : Type 0} → GenericBuffer H
string_buffer = record {
  Buffer = StringBuffer;
  size = Text.size;
  bytes_of = λ b h. (ok (Text.bytes_of b), h);
  char_at = string_char_at;
}

module _ (C : CHeap) where
  -- `buf_[i]`, at whatever place of the memory that starts at `buf_`.
  unfoldable pub char_at : Option ℕ → ℕ → Action C.Heap ℕ
  unfolding byte_at
  char_at none i h = (fault, h)
  char_at (some p) i h = elim (C.contents h p) [
    | none ↦ (fault, h)
    | some held ↦ checked_byte (byte_at i held) h
  ]

  abbrev pub malloc_buffer : GenericBuffer C.Heap
  malloc_buffer = record {
    Buffer = MallocBuffer;
    size = λ b. b.size;
    bytes_of = Buffers.bytes_of C;
    char_at = λ b. char_at b.buf;
  }

  abbrev pub pmem_buffer : GenericBuffer C.Heap
  pmem_buffer = record {
    Buffer = PmemBuffer;
    size = λ b. b.size;
    bytes_of = Unowned.bytes_of C;
    char_at = λ b. char_at b.buf;
  }

byte_at-take : (n i : ℕ) (xs : Bytes) → i < n → byte_at i (take n xs) ≡ byte_at i xs
unfolding byte_at
byte_at-take zero i xs h = absurd (omega arith)
byte_at-take (suc n) i [] h = refl
byte_at-take (suc n) zero (x ∷ xs) h = refl
byte_at-take (suc n) (suc i) (x ∷ xs) h = byte_at-take n i xs (omega arith)

byte_at_there : (i : ℕ) (xs : Bytes) → i < length xs → (c : ℕ) × (byte_at i xs ≡ some c)
unfolding byte_at
byte_at_there i [] h = absurd (omega arith)
byte_at_there zero (x ∷ xs) h = (x, refl)
byte_at_there (suc i) (x ∷ xs) h = byte_at_there i xs (omega arith)

module _ (C : CHeap) where
  -- In a block that has the `size()` bytes of a `malloc_buffer`, `operator[]` at an index below `size()`
  -- gives the byte that stands there among the bytes at `c_str()`.
  pub char_at-bytes_of :
      (p n i : ℕ) (held : Bytes) (h : C.Heap)
      → C.contents h p ≡ some held
      → n ≤ length held
      → i < n
      → (bytes : Bytes) × (c : ℕ) × (Buffers.bytes_of C (record { buf = some p; size = n }) h
          ≡ (ok bytes, h))
        × (byte_at i bytes ≡ some c)
        × (char_at C (some p) i h ≡ (ok c, h))
  unfolding Buffers.bytes_of read_at char_at
  char_at-bytes_of p n i held h there sized below =
      let (c, found) = byte_at_there i held (omega arith) in
      (
        take n held,
        c,
        rw (there, Buffers.bytes_of, le→leb n (length held) sized),
        byte_at-take n i held below ∙ found,
        rw (there, char_at, found),
      )
