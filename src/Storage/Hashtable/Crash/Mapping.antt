-- ===== src/Storage/Hashtable/Crash/Mapping.antt =====
-- What a crash can take: a value that was written at the address that `alloc` gave, as the program does
-- with use_mmap.
use pmemcpy.Base.{
  ℕ, ◌≤◌, ◌≡◌, refl, ◌∙◌, inl, inr, some, List, ◌∷◌, ◌++◌, Bytes, bytes_equal_refl, ◌==◌, ==_symm,
  length, drop, Bool-cases, write_at_start, arith,
}
use mathlib.Core.Path.{subst}
use pmemcpy.Util.Numbers.{Floats}
use pmemcpy.Util.Error.{ok}
use pmemcpy.Storage.Libpmemobj.{Pmdk, IsAllocator}
use pmemcpy.Storage.Action.{next}
use pmemcpy.Storage.Hashtable.{
  PmemPointer, PmemBuffer, Pool, id_capacity, set_bucket, copy_to, load,
}
use pmemcpy.Storage.Hashtable.Keys.{IsText}
use pmemcpy.Storage.Hashtable.Reading.{IsValid, view, answer, hashfun_home, load-view}
use pmemcpy.Storage.Hashtable.Storing.{
  Writes, linked, stralloc_new, insert_linked, linked-Writes, alloc-Extends,
}
use pmemcpy.Storage.Hashtable.Storing.Filling.{allocated-Prepared}
use pmemcpy.Storage.Hashtable.Crash.{Cached, is_dirty, Crash, alloc_cached, copy_to_cached}
use pmemcpy.Storage.Hashtable.Crash.Losing.{all_whole}

module _ (P : Pmdk) (L : IsAllocator P) (fl : Floats) (nbuckets : ℕ) (p : Pool P)
    (valid : IsValid P nbuckets p) (id : Bytes) (stale : ℕ → PmemPointer) (dirty : List ℕ) where
  alloc_cached_result :
      (size o : ℕ) (h : P.Heap) (n : ℕ) (h' : P.Heap)
      → length id ≤ id_capacity
      → P.alloc size p.heap ≡ some (o, h)
      → P.alloc P.pointer_size h ≡ some (n, h')
      → alloc_cached fl P nbuckets id size (record { pool = p; dirty = dirty }) ≡ (
        ok (record { buf = o; size = size }),
        record { pool = linked P L fl nbuckets p valid id n size o h'; dirty = n ∷ dirty },
      )
  unfolding alloc_cached
  alloc_cached_result size o h n h' short a b = rw (
    hashfun_home P nbuckets p valid fl id,
    next,
    stralloc_new P L fl nbuckets p valid id size o h a,
    next,
    insert_linked P L fl nbuckets p valid id h size o n h' short b,
  )

  -- A write of an object that nothing persisted may not have happened.
  unwritten-Crash :
      (size o n : ℕ) (new : Bytes) (h' : P.Heap)
      → Crash stale
          (record {
            pool = linked P L fl nbuckets p valid id n size o (P.poke o new h');
            dirty = o ∷ n ∷ dirty;
          })
          (linked P L fl nbuckets p valid id n size o h')
  unfolding is_dirty
  unwritten-Crash size o n new h' = record {
    before = set_bucket _ _ valid.table;
    after = set_bucket _ _ valid.table;
    had = refl;
    has = refl;
    as_many = refl;
    buckets = λ i. all_whole stale (o ∷ n ∷ dirty) _;
    objects = λ q clean. elim (Bool-cases (q == o)) [
      | inl same ↦ absurd (cc (rw (==_symm o q, same) at clean))
      | inr differ ↦ rw (L.contents_poke o new h' q, differ)
    ];
  }

  -- On a pool in good order, for a key of at most 512 bytes with no NUL byte, if libpmemobj can allocate
  -- the value's object and then the entry: `alloc` returns a buffer of the size asked for and a copy of
  -- `src`, no longer than that, through it succeeds, but there is a crash after both from which `load` of
  -- the key gives the bytes that the object happened to have when it was allocated.
  pub load-copy_to_lost :
      (src : Bytes) (size o : ℕ) (h : P.Heap) (n : ℕ) (h' : P.Heap)
      → length id ≤ id_capacity
      → IsText id
      → length src ≤ size
      → P.alloc size p.heap ≡ some (o, h)
      → P.alloc P.pointer_size h ≡ some (n, h')
      → (b : PmemBuffer) × (c : Cached P) × (c' : Cached P) × (old : Bytes) × (alloc_cached fl P
            nbuckets id size
            (record { pool = p; dirty = dirty })
          ≡ (ok b, c))
        × (b.size ≡ size)
        × (copy_to_cached fl P nbuckets b.buf src c ≡ (ok tt, c'))
        × (P.contents h o ≡ some old)
        × (q : Pool P) × Crash stale c' q
        × (load fl P nbuckets id q ≡ (answer fl id (old ∷ view P nbuckets p id), q))
  unfolding copy_to_cached copy_to
  load-copy_to_lost src size o h n h' short text fits a b =
      let (bytes, there, sized) = L.alloc_new size p.heap o h a in
      let still = alloc-Extends P L P.pointer_size h n h' b o bytes there in
      let new = src ++ drop (length src) bytes in
      let r = allocated-Prepared P L fl nbuckets p valid id o h size a in
      let w : Writes P L nbuckets p id bytes (linked P L fl nbuckets p valid id n size o h') =
        subst
          (λ (m : ℕ). Writes P L nbuckets p id bytes (linked P L fl nbuckets p valid id n m o h'))
          sized (linked-Writes P L fl nbuckets p valid id h o bytes n h' r b) in
      let q = linked P L fl nbuckets p valid id n size o h' in
      (
        record { buf = o; size = size },
        record { pool = q; dirty = n ∷ dirty },
        record {
          pool = linked P L fl nbuckets p valid id n size o (P.poke o new h');
          dirty = o ∷ n ∷ dirty;
        },
        bytes,
        alloc_cached_result size o h n h' short a b,
        refl,
        rw (still, copy_to, write_at_start src bytes (omega arith)),
        there,
        q,
        unwritten-Crash size o n new h',
        load-view P fl nbuckets q w.valid id ∙ (rw (w.reads id text, bytes_equal_refl id)),
      )
