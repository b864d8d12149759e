-- ===== src/Storage/Hashtable/Storing/Failing.antt =====
-- `store` where libpmemobj cannot allocate.
use pmemcpy.Base.{ℕ, ◌%◌, ◌≡◌, sym, ◌∙◌, none, some, [], ◌∷◌, Bytes, length}
use pmemcpy.Util.Numbers.{Floats}
use pmemcpy.Util.Serializeable.{str, obj, size_of, mb}
use pmemcpy.Util.Formatter.{format}
use pmemcpy.Util.Error.{ok, throw_error, build_error_ok}
use pmemcpy.Util.Errors.{pmdk_cant_allocate_str, pmdk_cant_allocate_obj}
use pmemcpy.Storage.Libpmemobj.{Pmdk, IsAllocator}
use pmemcpy.Storage.Action.{next, next-throw_error}
use pmemcpy.Storage.Hashtable.{
  Pool, PmemListArgs, list_args, stralloc, stralloc_copy, insert_new_head, report, store,
}
use pmemcpy.Storage.Hashtable.Chains.{Extends, Extends-Keeps, Chain-keep, values-keep}
use pmemcpy.Storage.Hashtable.Reading.{IsValid, view, view-home, home, hashfun_home}
use pmemcpy.Storage.Hashtable.Storing.{copied-Prepared, stralloc_copied}

module _ (P : Pmdk) (L : IsAllocator P) where
  module _ (nbuckets : ℕ) (p : Pool P) (valid : IsValid P nbuckets p) (h : P.Heap)
      (x : Extends P p.heap h) where
    -- More objects in the heap change neither the good order nor the values of a pool.
    pub grown-IsValid : IsValid P nbuckets (record { heap = h; table = p.table })
    grown-IsValid = record {
      table = valid.table;
      rooted = valid.rooted;
      counted = valid.counted;
      some_buckets = valid.some_buckets;
      chains = λ i.
          let c = valid.table.buckets i in
          Chain-keep P p.heap h c (Extends-Keeps P p.heap h x c (valid.chains i)) (valid.chains i);
      disjoint = valid.disjoint;
    }

    pub view-grown :
        (k : Bytes) → view P nbuckets (record { heap = h; table = p.table }) k ≡ view P nbuckets p k
    unfolding grown-IsValid
    view-grown k =
        let c = home P nbuckets p valid k in
        view-home P nbuckets (record { heap = h; table = p.table }) grown-IsValid k
        ∙ values-keep P p.heap h k c (Extends-Keeps P p.heap h x c (valid.chains _))
        ∙ sym (view-home P nbuckets p valid k)

  module _ (fl : Floats) (nbuckets : ℕ) (p : Pool P) (valid : IsValid P nbuckets p)
      (id : Bytes) where
    stralloc_failed :
        (src : Bytes)
        → P.alloc (length src) p.heap ≡ none
        → stralloc_copy fl P src p ≡ (
          throw_error fl pmdk_cant_allocate_str
              (obj (size_of fl (length src) mb) ∷ str (P.errormsg p.heap) ∷ []),
          p,
        )
    unfolding stralloc_copy stralloc
    stralloc_failed src a = rw (a, stralloc) (next-throw_error fl _ _ p _)

    pub insert_failed :
        (i : ℕ) (info : PmemListArgs) (q : Pool P)
        → P.alloc P.pointer_size q.heap ≡ none
        → insert_new_head fl P i info q ≡ (ok none, q)
    unfolding insert_new_head
    insert_failed i info q b = rw (b, insert_new_head)

    -- On a pool in good order, if libpmemobj cannot allocate the value's object, `store` throws
    -- PMDK_CANT_ALLOCATE_STR and leaves the pool alone.
    pub store_full :
        (src : Bytes)
        → P.alloc (length src) p.heap ≡ none
        → store fl P nbuckets id src p ≡ (
          throw_error fl pmdk_cant_allocate_str
              (obj (size_of fl (length src) mb) ∷ str (P.errormsg p.heap) ∷ []),
          p,
        )
    unfolding store
    store_full src a =
        rw (hashfun_home P nbuckets p valid fl id, next, stralloc_failed src a)
          (next-throw_error fl _ _ p _)

    -- On a pool in good order, if libpmemobj allocates the value's object and cannot allocate the
    -- entry, `store` returns normally (its error message, if it fits the formatter's buffer, is
    -- dropped), and every key reads as before, the stored one too.
    pub store_lost :
        (src : Bytes) (o : ℕ) (h : P.Heap) (m : Bytes)
        → P.alloc (length src) p.heap ≡ some (o, h)
        → P.alloc P.pointer_size (P.poke o src h) ≡ none
        → format fl pmdk_cant_allocate_obj.fmt
            (str id ∷ obj (size_of fl (length src) mb) ∷ str (P.errormsg (P.poke o src h)) ∷ [])
          ≡ some m
        → (p' : Pool P) × (store fl P nbuckets id src p ≡ (ok tt, p'))
          × IsValid P nbuckets p'
          × ((k : Bytes) → view P nbuckets p' k ≡ view P nbuckets p k)
    unfolding store
    store_lost src o h m a b formatted =
        let x = (copied-Prepared P L fl nbuckets p valid id src o h a).extends in
        (
          record { heap = P.poke o src h; table = p.table },
          rw (
            hashfun_home P nbuckets p valid fl id,
            next,
            stralloc_copied P L fl nbuckets p valid id src o h a,
            next,
            insert_failed (P.hash id % nbuckets) (list_args id (length src) o)
                (record { heap = P.poke o src h; table = p.table }) b,
            next,
            report,
            build_error_ok fl pmdk_cant_allocate_obj _ m formatted,
          ),
          grown-IsValid nbuckets p valid (P.poke o src h) x,
          view-grown nbuckets p valid (P.poke o src h) x,
        )
