-- ===== src/Storage/Hashtable/Object.antt =====
-- include/pmemcpy/storage/pmdk_hashtable.h: the object `PMDKHashtableStorage` and its life cycle.
-- A pool has a number of its own, as a file has an inode: removing its path leaves a mapped pool be.
pub mod Mapped
pub mod Lifetime
pub mod Implements
use pmemcpy.Base.{
  ℕ, ◌+◌, ◌*◌, Bool, true, false, not, Option, none, some, List, [], ◌∷◌, Bytes, bytes_equal, ltb,
  ◌==◌, if◌then◌else◌, length, take,
}
use pmemcpy.Util.Numbers.{Floats}
use pmemcpy.Util.Serializeable.{str, u64, obj, size_of, mb}
use pmemcpy.Util.Error.{Result, ok, throw, raise, fault, throw_error, build_error}
use pmemcpy.Util.Errors.{
  pmdk_hash_pool_too_small, pmdk_hash_pool_failed, pmdk_create_header_failed, pmdk_cant_open_pool,
}
use pmemcpy.Storage.Action.{Action, ◌>>=◌, ◌>>◌, next, lift}
use pmemcpy.Storage.Libpmemobj.{Pmdk, PoolLibrary}
use pmemcpy.Storage.Interface.{Storage}
use pmemcpy.Storage.Hashtable.{
  PmemPointerTable, PmemBuffer, Pool, alloc, store, find, load, free, copy_to, read_from,
}

-- The object's fields, and the pools with the paths that name them. `ppool` is the mapped pool.
pub record Object (P : Pmdk) : Type 0 where
  pub ppool : Option ℕ
  pub nbuckets : ℕ
  pub names : Bytes → Option ℕ
  pub pools : ℕ → Option (Pool P)
  pub fresh : ℕ

abbrev pub set_name : {P : Pmdk} → Bytes → Option ℕ → Object P → Object P
set_name path n o = record o { names = λ q. if bytes_equal path q then n else o.names q }

abbrev pub set_pool : {P : Pmdk} → ℕ → Pool P → Object P → Object P
set_pool i p o = record o { pools = λ j. if i == j then some p else o.pools j }

-- The default of `_create`.
abbrev pub default_nbuckets : ℕ
default_nbuckets = 1000

-- A table of empty buckets.
abbrev pub empty_table : ℕ → PmemPointerTable
empty_table n = record { nbuckets = n; buckets = λ i. [] }

module _ (fl : Floats) (P : Pmdk) (B : PoolLibrary P) where
  -- `release`: remove(path)
  unfoldable pub release : Bytes → Action (Object P) (Unit {0})
  release path o = (ok tt, set_name path none o)

  -- The transaction of `_create` over the new pool, whose root has no table yet.
  unfoldable pub create_header : Bytes → ℕ → ℕ → ℕ → Action (Object P) (Unit {0})
  unfolding release
  create_header path size n i o = elim (o.pools i) [
    | none ↦ (fault, o)
    | some p ↦ elim (B.zalloc (B.table_size + B.list_size * n) p.heap) [
      | none ↦ next (release path o) λ _ o'. (
        throw_error fl pmdk_create_header_failed
            (str path ∷ u64 size ∷ u64 n ∷ str (B.strerror path) ∷ []),
        o',
      )
      | some heap ↦ (ok tt, set_pool i (record { heap = heap; table = some (empty_table n) }) o)
    ]
  ]

  -- `_create`. The error about a pool that is too small is built and not thrown.
  unfoldable pub create : Bytes → ℕ → ℕ → Action (Object P) (Unit {0})
  unfolding create_header
  create path size n o =
      let needed = B.header_size + 32 * n * B.list_size in
      let checked : Result (Unit {0}) =
        if ltb size needed
        then build_error fl pmdk_hash_pool_too_small (u64 size ∷ u64 n ∷ u64 needed ∷ [])
        else ok tt in
      next (checked, o)
        λ _ o₁. elim (B.create path size) [
          | none ↦ (
            throw_error fl pmdk_hash_pool_failed
                (str path ∷ obj (size_of fl size mb) ∷ u64 n ∷ str (B.strerror path) ∷ []),
            record o₁ { ppool = none; nbuckets = n },
          )
          | some heap ↦
              let i = o₁.fresh in
              create_header path size n i (
                set_name path (some i) (
                  set_pool i (record { heap = heap; table = none })
                    (record o₁ { ppool = some i; nbuckets = n; fresh = i + 1 })))
        ]

  -- `_open`: a pool whose root has no table is dereferenced through a null pointer.
  open_pool : Bytes → ℕ → Option (Pool P) → Action (Object P) (Unit {0})
  open_pool path i none o = (fault, o)
  open_pool path i (some p) o =
      if B.opens path p.heap
      then elim p.table [
        | none ↦ (fault, record o { ppool = some i })
        | some t ↦ (ok tt, record o { ppool = some i; nbuckets = t.nbuckets })
      ]
      else (
        throw_error fl pmdk_cant_open_pool (str path ∷ str (B.strerror path) ∷ []),
        record o { ppool = none },
      )

  -- `mmap`
  unfoldable pub mmap : Bytes → ℕ → Action (Object P) (Unit {0})
  unfolding create open_pool
  mmap path size o = elim (o.names path) [
    | none ↦ create path (if size == 0 then B.min_pool else size) default_nbuckets o
    | some i ↦ open_pool path i (o.pools i) o
  ]

  -- `munmap`, which the destructor calls too.
  unfoldable pub munmap : Action (Object P) (Unit {0})
  munmap o = (ok tt, record o { ppool = none })

  -- An operation on the mapped pool, with the object's `nbuckets_`; with none mapped, it goes through
  -- a null pointer.
  abbrev pub run_on : {A : Type 0} → ℕ → Object P → Result A × Pool P → Result A × Object P
  run_on i o (r, p) = (r, set_pool i p o)

  abbrev pub on_there :
      {A : Type 0} → (ℕ → Action (Pool P) A) → ℕ → Option (Pool P) → Action (Object P) A
  on_there f i none o = (fault, o)
  on_there f i (some p) o = run_on i o (f o.nbuckets p)

  abbrev pub on_number : {A : Type 0} → (ℕ → Action (Pool P) A) → Option ℕ → Action (Object P) A
  on_number f none o = (fault, o)
  on_number f (some i) o = on_there f i (o.pools i) o

  unfoldable pub on_pool : {A : Type 0} → (ℕ → Action (Pool P) A) → Action (Object P) A
  on_pool f o = on_number f o.ppool o

  -- The class as a back end.
  abbrev pub hashtable_storage : Storage
  hashtable_storage = record {
    State = Object P;
    Buffer = PmemBuffer;
    mmap = mmap;
    munmap = munmap;
    release = release;
    alloc = λ id size. on_pool (λ n. alloc fl P n id size);
    store = λ id src. on_pool (λ n. store fl P n id src);
    find = λ id. on_pool (λ n. find fl P n id);
    load = λ id. on_pool (λ n. load fl P n id);
    free = λ id. on_pool (λ n. free fl P n id);
    size = λ b. b.size;
    copy_to = λ b src. on_pool (λ n. copy_to fl P b.buf src);
    contents = λ b. on_pool (λ n. read_from fl P n b.buf b.size);
  }
