-- ===== src/Storage/Hashtable/Crash.antt =====
-- include/pmemcpy/storage/pmdk_hashtable.h: what of a pool has reached the persistent memory.
-- libpmemobj keeps its own structures consistent, so objects stay allocated and entries linked; what the
-- program writes into an object is in the processor's cache until it is persisted.
pub mod Losing
pub mod Keeping
pub mod Following
pub mod Sparing
pub mod Mapping
use pmemcpy.Base.{
  ℕ, ◌≡◌, ◌⊎◌, Bool, true, false, ◌||◌, Option, none, some, List, [], ◌∷◌, Bytes, ◌==◌,
  if◌then◌else◌, length,
}
use pmemcpy.Util.Numbers.{Floats}
use pmemcpy.Util.Serializeable.{u64, obj, size_of, mb}
use pmemcpy.Util.Error.{Result, ok, throw, raise, fault}
use pmemcpy.Storage.Libpmemobj.{Pmdk}
use pmemcpy.Storage.Action.{Action, ◌>>=◌, ◌>>◌, next, lift}
use pmemcpy.Storage.Hashtable.{
  PmemPointer, PmemPointerTable, PmemBuffer, Pool, hashfun, stralloc, stralloc_copy, list_args,
  insert_new_head, report, copy_to,
}

-- A pool as the processor sees it, and the objects with stores that nothing has persisted.
pub record Cached (P : Pmdk) : Type 0 where
  pub pool : Pool P
  pub dirty : List ℕ

unfoldable pub is_dirty : ℕ → List ℕ → Bool
is_dirty o [] = false
is_dirty o (q ∷ qs) = (q == o) || is_dirty o qs

-- pmemobj_persist of an object of the pool, or of memory that is none of its objects'.
unfoldable pub persist : Option ℕ → List ℕ → List ℕ
persist none dirty = dirty
persist (some o) [] = []
persist (some o) (q ∷ qs) = let rest = persist (some o) qs in if q == o then rest else q ∷ rest

-- `&bucket_entry` in `_add`: the address of a variable on the stack.
abbrev pub bucket_entry_address : Option ℕ
bucket_entry_address = none

-- `_alloc_str`, by pmemobj_memcpy_persist: the new object is written and persisted.
abbrev pub string_written : ℕ → List ℕ → List ℕ
string_written o dirty = persist (some o) (o ∷ dirty)

-- `_add` on the entry at an offset, if it could be allocated.
abbrev pub entry_written : Option ℕ → List ℕ → List ℕ
entry_written none dirty = dirty
entry_written (some o) dirty = persist bucket_entry_address (o ∷ dirty)

abbrev pub noted :
    {P : Pmdk} {A : Type 0}
    → (A → List ℕ → List ℕ)
    → List ℕ
    → Result A × Pool P
    → Result A × Cached P
noted f dirty (ok a, p) = (ok a, record { pool = p; dirty = f a dirty })
noted f dirty (throw e, p) = (throw e, record { pool = p; dirty = dirty })
noted f dirty (raise, p) = (raise, record { pool = p; dirty = dirty })
noted f dirty (fault, p) = (fault, record { pool = p; dirty = dirty })

-- An operation on the pool, with what it writes and persists.
abbrev pub with_cache :
    {P : Pmdk} {A : Type 0} → Action (Pool P) A → (A → List ℕ → List ℕ) → Action (Cached P) A
with_cache m f c = noted f c.dirty (m c.pool)

abbrev pub nothing_written : {A : Type 0} → A → List ℕ → List ℕ
nothing_written a dirty = dirty

module _ (fl : Floats) (P : Pmdk) (nbuckets : ℕ) where
  unfoldable pub store_cached : Bytes → Bytes → Action (Cached P) (Unit {0})
  unfolding persist
  store_cached id src = do
    hash ← with_cache (lift (hashfun fl P nbuckets id)) nothing_written
    o ← with_cache (stralloc_copy fl P src) string_written
    oid ← with_cache (insert_new_head fl P hash (list_args id (length src) o)) entry_written
    with_cache (report fl P id (obj (size_of fl (length src) mb)) oid) nothing_written

  unfoldable pub alloc_cached : Bytes → ℕ → Action (Cached P) PmemBuffer
  unfolding persist
  alloc_cached id size = do
    hash ← with_cache (lift (hashfun fl P nbuckets id)) nothing_written
    o ← with_cache (stralloc fl P size) nothing_written
    oid ← with_cache (insert_new_head fl P hash (list_args id size o)) entry_written
    with_cache (report fl P id (u64 size) oid) nothing_written
    lift (ok (record { buf = o; size = size }))

  -- A write at `c_str()` of a buffer that `alloc` gave: nothing persists it.
  unfoldable pub copy_to_cached : ℕ → Bytes → Action (Cached P) (Unit {0})
  copy_to_cached o src = with_cache (copy_to fl P o src) (λ u dirty. o ∷ dirty)

-- What memory had before an entry was written there, the entry, and what a crash leaves of it: each
-- field as it was or as it was written; of the bytes of the key nothing is known.
pub record Torn (old new left : PmemPointer) : Type 0 where
  pub same : left.oid ≡ new.oid
  pub id_len : (left.id_len ≡ new.id_len) ⊎ (left.id_len ≡ old.id_len)
  pub len : (left.len ≡ new.len) ⊎ (left.len ≡ old.len)
  pub data_oid : (left.data_oid ≡ new.data_oid) ⊎ (left.data_oid ≡ old.data_oid)

-- The entries of a bucket before and after a crash.
pub data Survivors (stale : ℕ → PmemPointer) (dirty : List ℕ)
    : List PmemPointer → List PmemPointer → Type 0 where
  no_more : Survivors stale dirty [] []
  whole :
      (e : PmemPointer) (c d : List PmemPointer)
      → Survivors stale dirty c d
      → Survivors stale dirty (e ∷ c) (e ∷ d)
  torn :
      (e left : PmemPointer) (c d : List PmemPointer)
      → is_dirty e.oid dirty ≡ true
      → Torn (stale e.oid) e left
      → Survivors stale dirty c d
      → Survivors stale dirty (e ∷ c) (left ∷ d)

-- A pool that may be found after a crash. `stale` is what the memory of an object had before.
pub record Crash {P : Pmdk} (stale : ℕ → PmemPointer) (c : Cached P) (p : Pool P) : Type 0 where
  pub before : PmemPointerTable
  pub after : PmemPointerTable
  pub had : c.pool.table ≡ some before
  pub has : p.table ≡ some after
  pub as_many : after.nbuckets ≡ before.nbuckets
  pub buckets : (i : ℕ) → Survivors stale c.dirty (before.buckets i) (after.buckets i)
  pub objects :
      (o : ℕ) → is_dirty o c.dirty ≡ false → P.contents p.heap o ≡ P.contents c.pool.heap o
