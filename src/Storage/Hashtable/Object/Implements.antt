-- ===== src/Storage/Hashtable/Object/Implements.antt =====
-- The hash table keeps the contract of a storage, as long as libpmemobj can allocate.
use pmemcpy.Base.{
  ℕ, ◌≤◌, ◌≡◌, sym, ap, ◌∙◌, false, some, List, [], ◌∷◌, ◌++◌, Bytes, bytes_equal, bytes_equal_refl,
  length, read_at_all,
}
use mathlib.Core.Option.{some-injective}
use pmemcpy.Util.Numbers.{Floats}
use pmemcpy.Util.Error.{Result, ok}
use pmemcpy.Storage.Libpmemobj.{Pmdk, IsAllocator, PoolLibrary}
use pmemcpy.Storage.Interface.{Storage, Meaning, IsStorage}
use pmemcpy.Storage.Hashtable.{Pool, PmemBuffer, alloc, store, find, load, copy_to, read_from}
use pmemcpy.Storage.Hashtable.Keys.{IsText}
use pmemcpy.Storage.Hashtable.Reading.{view, answer, Found, load-view, find-view}
use pmemcpy.Storage.Hashtable.Storing.{Writes, store-Writes}
use pmemcpy.Storage.Hashtable.Storing.Filling.{alloc-copy_to}
use pmemcpy.Storage.Hashtable.Object.{Object, set_pool, hashtable_storage}
use pmemcpy.Storage.Hashtable.Object.Mapped.{
  IsMapped, IsKey, top, value, Allocates, on_pool_run, changed-IsMapped, value_mapped,
  Allocates-mapped, unchanged, value_changed, on_pool_again,
}

module _ (P : Pmdk) (L : IsAllocator P) (fl : Floats) (B : PoolLibrary P) where
  abbrev pub written_with : Bytes → ℕ → P.Heap → P.Heap
  written_with src q h = P.poke q src h

  abbrev pub unwritten : ℕ → P.Heap → P.Heap
  unwritten q h = h

  -- The values after a write, in terms of those before.
  module _ (o : Object P) (m : IsMapped P o) (id text : Bytes) (p : Pool P)
      (w : Writes P L o.nbuckets m.pool id text p) where
    own_value : IsText id → value P (set_pool m.number p o) id ≡ some text
    own_value t = rw (value_changed P o m p w.valid id, w.reads id t, bytes_equal_refl id)

    other_value :
        (k : Bytes)
        → IsKey k
        → bytes_equal id k ≡ false
        → value P (set_pool m.number p o) k ≡ value P o k
    other_value k key differ =
        rw (value_changed P o m p w.valid k, w.reads k key.0, differ, value_mapped P o m k)

  abbrev S : Storage
  S = hashtable_storage fl P B

  store_value :
      (o : Object P) (id src : Bytes)
      → IsMapped P o
      → IsKey id
      → Allocates P o (length src) (written_with src)
      → (o' : Object P) × (S.store id src o ≡ (ok tt, o'))
        × IsMapped P o'
        × (value P o' id ≡ some src)
        × ((k : Bytes) → IsKey k → bytes_equal id k ≡ false → value P o' k ≡ value P o k)
  store_value o id src m key room =
      let a = Allocates-mapped P o m (length src) (written_with src) room in
      let (p, result, w) =
        store-Writes P L fl o.nbuckets m.pool m.valid id src a.data_oid a.heap a.node_oid a.heap'
          key.1 a.data_alloc a.node_alloc in
      (
        set_pool m.number p o,
        on_pool_run P o m fl B (λ n. store fl P n id src) (ok tt) p result,
        changed-IsMapped P o m p w.valid,
        own_value o m id src p w key.0,
        other_value o m id src p w,
      )

  Found-top :
      (o : Object P) (m : IsMapped P o) (id v : Bytes) (vs : List Bytes)
      (r : Result PmemBuffer × Pool P)
      → Found P fl o.nbuckets m.pool m.valid id vs r
      → top vs ≡ some v
      → (b : PmemBuffer) × (r ≡ (ok b, m.pool))
        × (P.contents m.pool.heap b.buf ≡ some v)
        × (b.size ≡ length v)
  Found-top o m id v [] r f h = cc
  Found-top o m id v (w ∷ older) r (b, e, there, sized) h =
      (b, e, there ∙ h, sized ∙ ap length (some-injective w v h))

  answer-top : (id v : Bytes) (vs : List Bytes) → top vs ≡ some v → answer fl id vs ≡ ok v
  answer-top id v [] h = cc
  answer-top id v (w ∷ older) h = ap ok (some-injective w v h)

  find_value :
      (o : Object P) (id v : Bytes)
      → IsMapped P o
      → value P o id ≡ some v
      → (b : PmemBuffer) × (S.find id o ≡ (ok b, o)) × (S.contents b o ≡ (ok v, o))
  unfolding read_from
  find_value o id v m held =
      let (b, found, there, sized) =
        Found-top o m id v (view P o.nbuckets m.pool id) _
          (find-view P fl o.nbuckets m.pool m.valid id) (sym (value_mapped P o m id) ∙ held) in
      let read : read_from fl P o.nbuckets b.buf b.size m.pool ≡ (ok v, m.pool) =
        rw (there, read_from, sized, read_at_all v) in
      (
        b,
        on_pool_run P o m fl B (λ n. find fl P n id) (ok b) m.pool found
            ∙ ap (λ x. (ok b, x)) (unchanged P o m),
        on_pool_run P o m fl B (λ n. read_from fl P n b.buf b.size) (ok v) m.pool read
            ∙ ap (λ x. (ok v, x)) (unchanged P o m),
      )

  load_value :
      (o : Object P) (id v : Bytes) → IsMapped P o → value P o id ≡ some v → S.load id o ≡ (ok v, o)
  load_value o id v m held =
      on_pool_run P o m fl B (λ n. load fl P n id) (ok v) m.pool
        (load-view P fl o.nbuckets m.pool m.valid id
          ∙ ap (λ x. (x, m.pool))
              (answer-top id v (view P o.nbuckets m.pool id) (sym (value_mapped P o m id) ∙ held)))
      ∙ ap (λ x. (ok v, x)) (unchanged P o m)

  alloc_value :
      (o : Object P) (id : Bytes) (n : ℕ) (src : Bytes)
      → IsMapped P o
      → IsKey id
      → length src ≤ n
      → Allocates P o n unwritten
      → (b : PmemBuffer) × (o' : Object P) × (o'' : Object P) × (junk : Bytes) × (S.alloc id n o
          ≡ (ok b, o'))
        × (b.size ≡ n)
        × (S.copy_to b src o' ≡ (ok tt, o''))
        × (length (src ++ junk) ≡ n)
        × IsMapped P o''
        × (value P o'' id ≡ some (src ++ junk))
        × ((k : Bytes) → IsKey k → bytes_equal id k ≡ false → value P o'' k ≡ value P o k)
  alloc_value o id n src m key fits room =
      let a = Allocates-mapped P o m n unwritten room in
      let (b, p, q, junk, made, width, copied, total, w) =
        alloc-copy_to P L fl o.nbuckets m.pool m.valid id src n a.data_oid a.heap a.node_oid a.heap'
          key.1 fits a.data_alloc a.node_alloc in
      (
        b,
        set_pool m.number p o,
        set_pool m.number q o,
        junk,
        on_pool_run P o m fl B (λ nb. alloc fl P nb id n) (ok b) p made,
        width,
        on_pool_again P o m fl B (λ nb. copy_to fl P b.buf src) (ok tt) p q copied,
        total,
        changed-IsMapped P o m q w.valid,
        own_value o m id (src ++ junk) q w key.0,
        other_value o m id (src ++ junk) q w,
      )

  -- What the states of the hash table mean to its users.
  abbrev pub hashtable_meaning : Meaning (hashtable_storage fl P B)
  hashtable_meaning = record {
    IsValid = IsMapped P;
    IsKey = IsKey;
    value = value P;
    HasRoom = λ o id src. Allocates P o (length src) (written_with src);
    HasRoomFor = λ o id n. Allocates P o n unwritten;
  }

  -- The hash table does what is expected of a storage, on keys of 512 bytes at most with no NUL in
  -- them, while a pool is mapped and libpmemobj has room for the value and its entry.
  pub hashtable_storage-IsStorage : IsStorage (hashtable_storage fl P B) hashtable_meaning
  hashtable_storage-IsStorage = record {
    store_value = store_value;
    alloc_value = alloc_value;
    find_value = λ o id v m key held. find_value o id v m held;
    load_value = λ o id v m key held. load_value o id v m held;
  }
