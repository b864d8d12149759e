-- ===== src/Util/Buffers/Owning.antt =====
-- Who frees the block of a `malloc_buffer`.
use pmemcpy.Base.{
  ℕ, ◌≤◌, ◌≡◌, ap, ◌∙◌, none, some, [], append-nil, Bytes, ==_refl, length, take, drop, drop_all,
  length-take, le→leb, read_at, read_at_whole, write_at_start, arith,
}
use pmemcpy.Util.Error.{ok, fault}
use pmemcpy.Storage.Action.{next, ◌>>◌}
use pmemcpy.Util.Buffers.{
  CHeap, IsHeap, MallocBuffer, copy, move, sized, fill_from, from_memory, bytes_of, destroy,
}

module _ (C : CHeap) (L : IsHeap C) where
  -- If the heap has a block of the size, a buffer that is made of so many bytes at a pointer, whose
  -- memory has them, holds these bytes, and its destruction frees its block and no other.
  pub from_memory-bytes_of :
      (src : Bytes) (size : ℕ) (h : C.Heap) (i : ℕ) (h' : C.Heap)
      → size ≤ length src
      → C.malloc size h ≡ some (i, h')
      → (b : MallocBuffer) × (h'' : C.Heap) × (from_memory C src size h ≡ (ok b, h''))
        × (bytes_of C b h'' ≡ (ok (take size src), h''))
        × (destroy C b h'' ≡ (ok tt, C.release i h''))
  unfolding from_memory sized fill_from bytes_of destroy read_at
  from_memory-bytes_of src size h i h' enough room =
      let (bytes, there, width) = L.malloc_new size h i h' room in
      let exact : length (take size src) ≡ size = length-take size src ∙ omega arith in
      let rest : drop (length (take size src)) bytes ≡ [] =
        drop_all (length (take size src)) bytes (omega arith) in
      let h'' = C.poke i (take size src) h' in
      let held : C.contents h'' i ≡ some (take size src) =
        rw (L.contents_poke i (take size src) h' i, ==_refl i) in
      (
        record { buf = some i; size = size },
        h'',
        rw (
          room,
          sized,
          next,
          there,
          fill_from,
          le→leb size (length src) enough,
          write_at_start (take size src) bytes (omega arith),
          rest,
          append-nil (take size src),
        ),
        rw (held, bytes_of, read_at_whole size (take size src) exact),
        rw (held, destroy),
      )

  -- A buffer and its copy free one block twice: after the buffer that holds a block is destroyed, the
  -- behaviour of the destructor of its copy is undefined.
  pub destroy-copy :
      (b : MallocBuffer) (i : ℕ) (held : Bytes) (h : C.Heap)
      → b.buf ≡ some i
      → C.contents h i ≡ some held
      → (destroy C b >> destroy C (copy b)) h ≡ (fault, C.release i h)
  unfolding destroy
  destroy-copy b i held h own there =
      let first : destroy C b h ≡ (ok tt, C.release i h) = rw (destroy, own, there) in
      let gone : C.contents (C.release i h) i ≡ none = rw (L.contents_release i h i, ==_refl i) in
      let second : destroy C (copy b) (C.release i h) ≡ (fault, C.release i h) =
        rw (destroy, own, gone) in
      ap (λ r. next r (λ _. destroy C (copy b))) first ∙ second

  -- After a move, the destructors of both buffers, in either order, free the block once.
  pub destroy-move :
      (b : MallocBuffer) (i : ℕ) (held : Bytes) (h : C.Heap)
      → b.buf ≡ some i
      → C.contents h i ≡ some held
      → ((destroy C (move b).0 >> destroy C (move b).1) h ≡ (ok tt, C.release i h))
        × ((destroy C (move b).1 >> destroy C (move b).0) h ≡ (ok tt, C.release i h))
  unfolding destroy
  destroy-move b i held h own there = (rw (own, there), rw (own, there))
