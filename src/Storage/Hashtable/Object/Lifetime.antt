-- ===== src/Storage/Hashtable/Object/Lifetime.antt =====
-- `mmap` of a new pool and of one that was mapped before.
use pmemcpy.Base.{
  ℕ, ◌+◌, ◌*◌, ◌≡◌, refl, sym, ap, ◌∙◌, Bool, true, false, Option, none, some, [], ◌∷◌, Bytes,
  bytes_equal_refl, ◌==◌, ==_refl, if◌then◌else◌, arith,
}
use pmemcpy.Util.Numbers.{Floats}
use pmemcpy.Util.Serializeable.{u64}
use pmemcpy.Util.Formatter.{format}
use pmemcpy.Util.Error.{Result, ok, build_error_ok}
use pmemcpy.Util.Errors.{pmdk_hash_pool_too_small}
use pmemcpy.Storage.Action.{next, ◌>>◌}
use pmemcpy.Storage.Libpmemobj.{Pmdk, PoolLibrary}
use pmemcpy.Storage.Hashtable.Chains.{values}
use pmemcpy.Storage.Hashtable.Reading.{IsValid, view}
use pmemcpy.Storage.Hashtable.Object.{
  Object, set_name, set_pool, default_nbuckets, empty_table, create_header, create, open_pool, mmap,
  munmap,
}
use pmemcpy.Storage.Hashtable.Object.Mapped.{IsMapped, value, value_mapped}

not_thrown : (b : Bool) (r : Result (Unit {0})) → r ≡ ok tt → (if b then r else ok tt) ≡ ok tt
not_thrown true r e = e
not_thrown false r e = refl

-- An object before a pool is mapped: its `nbuckets_` is any number.
abbrev pub new_object : (P : Pmdk) → ℕ → Object P → Object P
new_object P n o = record o { ppool = none; nbuckets = n }

module _ (fl : Floats) (P : Pmdk) (B : PoolLibrary P) where
  -- The size with which a new pool is made.
  abbrev pub pool_size : ℕ → ℕ
  pool_size size = if size == 0 then B.min_pool else size

  abbrev pub needed : ℕ
  needed = B.header_size + 32 * default_nbuckets * B.list_size

  empty-IsValid :
      (h : P.Heap)
      → IsValid P default_nbuckets (record { heap = h; table = some (empty_table 1000) })
  empty-IsValid h = record {
    table = empty_table 1000;
    rooted = refl;
    counted = refl;
    some_buckets = omega arith;
    chains = λ i. tt;
    disjoint = λ i j d. tt;
  }

  -- The object after `mmap` of a new pool.
  abbrev made : Bytes → P.Heap → P.Heap → Object P → Object P
  made path h h' o =
      set_pool o.fresh (record { heap = h'; table = some (empty_table 1000) })
        (set_name path (some o.fresh) (
          set_pool o.fresh (record { heap = h; table = none })
            (record o { ppool = some o.fresh; nbuckets = default_nbuckets; fresh = o.fresh + 1 })))

  made-IsMapped : (path : Bytes) (h h' : P.Heap) (o : Object P) → IsMapped P (made path h h' o)
  made-IsMapped path h h' o = record {
    number = o.fresh;
    pool = record { heap = h'; table = some (empty_table 1000) };
    mapped = refl;
    there = rw (==_refl o.fresh);
    valid = empty-IsValid h';
  }

  -- If no pool has the path, and libpmemobj makes one of the size (or of the least size, for 0) and
  -- has room for its table, then `mmap` returns normally with an empty pool mapped, of 1000 buckets
  -- and in good order, under the path; this holds for a pool that is too small for the code's own
  -- estimate, too, the error about which is built and dropped.
  pub mmap_new :
      (path : Bytes) (size : ℕ) (o : Object P) (m : Bytes) (h h' : P.Heap)
      → o.names path ≡ none
      → format fl pmdk_hash_pool_too_small.fmt
          (u64 (pool_size size) ∷ u64 default_nbuckets ∷ u64 needed ∷ [])
        ≡ some m
      → B.create path (pool_size size) ≡ some h
      → B.zalloc (B.table_size + B.list_size * default_nbuckets) h ≡ some h'
      → (o' : Object P) × (mmap fl P B path size o ≡ (ok tt, o'))
        × IsMapped P o'
        × (o'.nbuckets ≡ 1000)
        × (o'.names path ≡ o'.ppool)
        × ((k : Bytes) → value P o' k ≡ none)
  unfolding mmap create create_header value view values made-IsMapped
  mmap_new path size o m h h' absent formatted created room = (
    made path h h' o,
    rw (
      mmap,
      absent,
      create,
      not_thrown _ _ (build_error_ok fl pmdk_hash_pool_too_small _ m formatted),
      next,
      created,
      create_header,
      ==_refl o.fresh,
      room,
    ),
    made-IsMapped path h h' o,
    refl,
    rw (bytes_equal_refl path),
    λ k. value_mapped P (made path h h' o) (made-IsMapped path h h' o) k,
  )

  -- With a pool in good order mapped under a path at which libpmemobj opens it, an object that has no pool
  -- mapped, with any `nbuckets_`, becomes by `mmap` of the path the object that mapped it.
  pub mmap-new_object :
      (path : Bytes) (size n : ℕ) (o : Object P) (m : IsMapped P o)
      → o.names path ≡ some m.number
      → B.opens path m.pool.heap ≡ true
      → mmap fl P B path size (new_object P n o) ≡ (ok tt, o)
  unfolding mmap open_pool
  mmap-new_object path size n o m named opened =
      rw (mmap, named, m.there, opened, m.valid.rooted)
        (ap (λ (x : Option ℕ). (ok tt, record o { ppool = x; nbuckets = m.valid.table.nbuckets }))
            (sym m.mapped)
          ∙ ap (λ (k : ℕ). (ok tt, record o { nbuckets = k })) m.valid.counted)

  -- With a pool in good order mapped under a path at which libpmemobj opens it, `munmap` and then
  -- `mmap` of the path, with any size, bring back the object as it was, and with it all its values.
  pub mmap-munmap :
      (path : Bytes) (size : ℕ) (o : Object P) (m : IsMapped P o)
      → o.names path ≡ some m.number
      → B.opens path m.pool.heap ≡ true
      → (munmap fl P B >> mmap fl P B path size) o ≡ (ok tt, o)
  unfolding munmap
  mmap-munmap path size o m named opened = mmap-new_object path size o.nbuckets o m named opened
