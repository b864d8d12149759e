-- ===== src/Tests/Blocks.antt =====
-- Buffers on a concrete heap.
use pmemcpy.Base.{◌≡◌, refl, some, [], ◌∷◌, none, Bytes}
use pmemcpy.Util.Error.{fault}
use pmemcpy.Storage.Action.{◌>>◌}
use pmemcpy.Util.Buffers.{CHeap, IsHeap, MallocBuffer, copy, destroy}
use pmemcpy.Util.Buffers.Owning.{destroy-copy}
use pmemcpy.Tests.Machine.{Heap, contents, alloc, pmdk-IsAllocator}

abbrev heap : CHeap
heap = record {
  Heap = Heap;
  contents = contents;
  malloc = alloc 1000;
  poke = λ i bytes h. (i, some bytes) ∷ h;
  release = λ i h. (i, none) ∷ h;
}

abbrev heap-IsHeap : IsHeap heap
heap-IsHeap = record {
  malloc_new = (pmdk-IsAllocator 1000 600).alloc_new;
  contents_poke = λ i bytes h j. refl;
  contents_release = λ i h j. refl;
}

abbrev source : Bytes
source = 1 ∷ 2 ∷ 3 ∷ []

abbrev buffer : MallocBuffer
buffer = record { buf = some 1; size = 3 }

abbrev blocks : Heap
blocks = (1, some source) ∷ []

destroy-copy_example :
    (destroy heap buffer >> destroy heap (copy buffer)) blocks ≡ (fault, (1, none) ∷ blocks)
destroy-copy_example = destroy-copy heap heap-IsHeap buffer 1 source blocks refl refl
