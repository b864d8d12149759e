-- ===== src/Storage/Libpmemobj.antt =====
-- What the hash table uses of libpmemobj and of `std::hash`.
use pmemcpy.Base.{ℕ, ◌≡◌, Bool, false, Option, none, some, Bytes, ◌==◌, if◌then◌else◌, length}

pub record Pmdk : Type 1 where
  -- The persistent heap of a pool: its objects by offset. An offset that holds no object has none.
  pub Heap : Type 0
  pub contents : Heap → ℕ → Option Bytes
  -- POBJ_ALLOC of so many bytes, with the bytes that happen to be there; `none` is a failure.
  pub alloc : ℕ → Heap → Option (ℕ × Heap)
  -- A store through D_RW: the object's new bytes.
  pub poke : ℕ → Bytes → Heap → Heap
  -- POBJ_FREE
  pub free : ℕ → Heap → Heap
  -- pmemobj_errormsg()
  pub errormsg : Heap → Bytes
  -- std::hash<std::string>
  pub hash : Bytes → ℕ
  -- sizeof(struct PMEMPointer)
  pub pointer_size : ℕ
  -- The bytes of a `uint64_t` in memory, and the number that they stand for.
  pub uint64 : ℕ → Bytes
  pub uint64_of : Bytes → ℕ
  -- The bytes of the `PMEMoid` of an object of the pool.
  pub oid_bytes : ℕ → Bytes

-- What libpmemobj documents of its allocator.
pub record IsAllocator (P : Pmdk) : Type 0 where
  -- A new object was no object before, has the size asked for, and no other object changes.
  pub alloc_fresh :
      (n : ℕ) (h : P.Heap) (o : ℕ) (h' : P.Heap)
      → P.alloc n h ≡ some (o, h')
      → P.contents h o ≡ none
  pub alloc_new :
      (n : ℕ) (h : P.Heap) (o : ℕ) (h' : P.Heap)
      → P.alloc n h ≡ some (o, h')
      → (bytes : Bytes) × (P.contents h' o ≡ some bytes) × (length bytes ≡ n)
  pub alloc_other :
      (n : ℕ) (h : P.Heap) (o : ℕ) (h' : P.Heap)
      → P.alloc n h ≡ some (o, h')
      → (p : ℕ) → (p == o) ≡ false
      → P.contents h' p ≡ P.contents h p
  -- A store changes its object and no other.
  pub contents_poke :
      (o : ℕ) (bytes : Bytes) (h : P.Heap) (p : ℕ)
      → P.contents (P.poke o bytes h) p ≡ (if p == o then some bytes else P.contents h p)
  -- A freed object is gone, and no other changes.
  pub contents_free :
      (o : ℕ) (h : P.Heap) (p : ℕ)
      → P.contents (P.free o h) p ≡ (if p == o then none else P.contents h p)

-- What the storage object uses of libpmemobj to make, open and name pools, and the sizes of the
-- structures that it counts with.
pub record PoolLibrary (P : Pmdk) : Type 0 where
  -- pmemobj_create of a pool of so many bytes: an empty heap, or a null pointer.
  pub create : Bytes → ℕ → Option P.Heap
  -- Whether pmemobj_open accepts the pool at a path.
  pub opens : Bytes → P.Heap → Bool
  -- TX_ZALLOC of the table, in a transaction; `none` aborts it.
  pub zalloc : ℕ → P.Heap → Option P.Heap
  -- std::string(strerror(errno)) after a failure
  pub strerror : Bytes → Bytes
  -- PMEMOBJ_MIN_POOL
  pub min_pool : ℕ
  -- sizeof(struct PMEMHeader), sizeof(struct PMEMPointerList), sizeof(PmemPointerTable)
  pub header_size : ℕ
  pub list_size : ℕ
  pub table_size : ℕ
