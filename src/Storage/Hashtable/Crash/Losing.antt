-- ===== src/Storage/Hashtable/Crash/Losing.antt =====
-- What a crash can take: an entry that `_add` has written.
use pmemcpy.Base.{
  ℕ, ◌%◌, ◌≤◌, ◌≡◌, refl, ◌∙◌, Bool, true, false, inl, inr, some, List, [], ◌∷◌, Bytes, ◌==◌,
  ==_refl, ==_symm, if◌then◌else◌, length, Bool-cases,
}
use pmemcpy.Util.Numbers.{Floats}
use pmemcpy.Util.Error.{ok}
use pmemcpy.Storage.Libpmemobj.{Pmdk, IsAllocator}
use pmemcpy.Storage.Action.{next}
use pmemcpy.Storage.Hashtable.{
  PmemPointer, Pool, id_capacity, is_entry, find_entry, set_bucket, load,
}
use pmemcpy.Storage.Hashtable.Chains.{Keeps, Extends-Keeps}
use pmemcpy.Storage.Hashtable.Reading.{IsValid, view, answer, home, hashfun_home}
use pmemcpy.Storage.Hashtable.Storing.{
  entry, linked, stralloc_copied, insert_linked, copied-Prepared, Prepared-NewEntry,
}
use pmemcpy.Storage.Hashtable.Crash.{
  Cached, is_dirty, persist, Torn, Survivors, no_more, whole, torn, Crash, store_cached,
}
use pmemcpy.Storage.Hashtable.Crash.Keeping.{SameValues, load_alike}

is_dirty-persist : (o : ℕ) (dirty : List ℕ) → is_dirty o (persist (some o) dirty) ≡ false
unfolding is_dirty persist
is_dirty-persist o [] = refl
is_dirty-persist o (q ∷ qs) = elim (Bool-cases (q == o)) [
  | inl same ↦ rw same (is_dirty-persist o qs)
  | inr differ ↦ rw (differ, is_dirty, differ) (is_dirty-persist o qs)
]

is_dirty-string :
    (o n : ℕ) (dirty : List ℕ) → (o == n) ≡ false → is_dirty o (n ∷ persist (some o) dirty) ≡ false
unfolding is_dirty
is_dirty-string o n dirty differ = rw (==_symm n o ∙ differ) (is_dirty-persist o dirty)

module _ (stale : ℕ → PmemPointer) (dirty : List ℕ) where
  pub all_whole : (c : List PmemPointer) → Survivors stale dirty c c
  all_whole [] = no_more
  all_whole (e ∷ c) = whole e c c (all_whole c)

  -- Of a bucket whose first entry is torn, and of the others.
  Torn-Survivors :
      (b : Bool) (e left : PmemPointer) (c d : List PmemPointer)
      → is_dirty e.oid dirty ≡ true
      → Torn (stale e.oid) e left
      → Survivors stale dirty (if b then e ∷ c else d) (if b then left ∷ c else d)
  Torn-Survivors true e left c d is h = torn e left c c is h (all_whole c)
  Torn-Survivors false e left c d is h = all_whole d

Keeps-SameValues :
    (P : Pmdk) (fl : Floats) (nbuckets : ℕ) (p q : Pool P) (valid : IsValid P nbuckets p)
    (id : Bytes) (c : List PmemPointer)
    → Keeps P p.heap q.heap c
    → SameValues P fl nbuckets p valid id q c
Keeps-SameValues P fl nbuckets p q valid id [] k = tt
Keeps-SameValues P fl nbuckets p q valid id (e ∷ c) k =
    (k.0.0, Keeps-SameValues P fl nbuckets p q valid id c k.1)

module _ (P : Pmdk) (L : IsAllocator P) (fl : Floats) (nbuckets : ℕ) (p : Pool P)
    (valid : IsValid P nbuckets p) (id : Bytes) (stale : ℕ → PmemPointer) (dirty : List ℕ) where
  -- The pool after a store, with the new entry as it may be found after a crash.
  abbrev left_of : ℕ → PmemPointer
  left_of n = record (stale n) { oid = n }

  abbrev found : ℕ → P.Heap → Pool P
  found n h' = record {
    heap = h';
    table =
        some
          (set_bucket (P.hash id % nbuckets) (left_of n ∷ home P nbuckets p valid id) valid.table);
  }

  abbrev pub stored_dirty : ℕ → ℕ → List ℕ
  stored_dirty o n = n ∷ persist (some o) (o ∷ dirty)

  found-Crash :
      (len o n : ℕ) (h' : P.Heap)
      → Crash stale
          (record { pool = linked P L fl nbuckets p valid id n len o h'; dirty = stored_dirty o n })
          (found n h')
  unfolding is_dirty
  found-Crash len o n h' = record {
    before =
        set_bucket (P.hash id % nbuckets) (entry P L n id len o ∷ home P nbuckets p valid id)
          valid.table;
    after = set_bucket (P.hash id % nbuckets) (left_of n ∷ home P nbuckets p valid id) valid.table;
    had = refl;
    has = refl;
    as_many = refl;
    buckets = λ i.
        Torn-Survivors stale (stored_dirty o n) (P.hash id % nbuckets == i) (entry P L n id len o)
          (left_of n) (home P nbuckets p valid id) (valid.table.buckets i) (rw (==_refl n))
          (record { same = refl; id_len = inr refl; len = inr refl; data_oid = inr refl });
    objects = λ q clean. refl;
  }

  skipped :
      (n : ℕ) (h' : P.Heap)
      → is_entry id (left_of n) ≡ false
      → find_entry id (
          (set_bucket
              (P.hash id % nbuckets)
              (left_of n ∷ home P nbuckets p valid id)
              valid.table).buckets
            (P.hash id % nbuckets))
        ≡ find_entry id (home P nbuckets p valid id)
  unfolding find_entry
  skipped n h' other = rw (==_refl (P.hash id % nbuckets), other)

  pub store_cached_result :
      (src : Bytes) (o : ℕ) (h : P.Heap) (n : ℕ) (h' : P.Heap)
      → length id ≤ id_capacity
      → P.alloc (length src) p.heap ≡ some (o, h)
      → P.alloc P.pointer_size (P.poke o src h) ≡ some (n, h')
      → store_cached fl P nbuckets id src (record { pool = p; dirty = dirty }) ≡ (
        ok tt,
        record {
          pool = linked P L fl nbuckets p valid id n (length src) o h';
          dirty = stored_dirty o n;
        },
      )
  unfolding store_cached
  store_cached_result src o h n h' short a b = rw (
    hashfun_home P nbuckets p valid fl id,
    next,
    stralloc_copied P L fl nbuckets p valid id src o h a,
    next,
    insert_linked P L fl nbuckets p valid id (P.poke o src h) (length src) o n h' short b,
  )

  -- On a pool in good order, for a key of at most 512 bytes, if libpmemobj can allocate the value's
  -- object and then the entry, and what the entry's memory had before is no entry of the key: `store`
  -- returns normally and the bytes of the value are persisted, but there is a crash after it from which
  -- the pool answers a `load` of the key as it would have before the `store`.
  pub load-store_lost :
      (src : Bytes) (o : ℕ) (h : P.Heap) (n : ℕ) (h' : P.Heap)
      → length id ≤ id_capacity
      → P.alloc (length src) p.heap ≡ some (o, h)
      → P.alloc P.pointer_size (P.poke o src h) ≡ some (n, h')
      → is_entry id (stale n) ≡ false
      → (c : Cached P) × (store_cached fl P nbuckets id src (record { pool = p; dirty = dirty })
          ≡ (ok tt, c))
        × (P.contents c.pool.heap o ≡ some src)
        × (is_dirty o c.dirty ≡ false)
        × (q : Pool P) × Crash stale c q
        × (load fl P nbuckets id q ≡ (answer fl id (view P nbuckets p id), q))
  unfolding is_entry
  load-store_lost src o h n h' short a b other =
      let ready = copied-Prepared P L fl nbuckets p valid id src o h a in
      let new = Prepared-NewEntry P L p (P.poke o src h) o src id n h' ready b in
      (
        record {
          pool = linked P L fl nbuckets p valid id n (length src) o h';
          dirty = stored_dirty o n;
        },
        store_cached_result src o h n h' short a b,
        L.alloc_other P.pointer_size (P.poke o src h) n h' b o new.stored.two ∙ ready.held,
        is_dirty-string o n (o ∷ dirty) new.stored.two,
        found n h',
        found-Crash (length src) o n h',
        load_alike P fl nbuckets p valid id (found n h') _ refl valid.counted (skipped n h' other) (
            Keeps-SameValues P fl nbuckets p (found n h') valid id (home P nbuckets p valid id) (
              Extends-Keeps P p.heap h' new.extends (home P nbuckets p valid id)
                (valid.chains (P.hash id % nbuckets)))),
      )
