-- ===== src/Storage/Hashtable/Crash/Following.antt =====
-- The operations that note what they write do to the pool what the operations do.
use pmemcpy.Base.{ℕ, ◌≡◌, refl, ap, ◌∙◌, List, ◌∷◌, Bytes, length}
use pmemcpy.Util.Numbers.{Floats}
use pmemcpy.Util.Serializeable.{u64, obj, size_of, mb}
use pmemcpy.Util.Error.{Result, ok, throw, raise, fault}
use pmemcpy.Storage.Libpmemobj.{Pmdk}
use pmemcpy.Storage.Action.{Action, next}
use pmemcpy.Storage.Hashtable.{
  Pool, hashfun, stralloc, stralloc_copy, list_args, insert_new_head, report, store, alloc, copy_to,
}
use pmemcpy.Storage.Hashtable.Crash.{
  Cached, noted, string_written, entry_written, nothing_written, store_cached, alloc_cached,
  copy_to_cached,
}

module _ (P : Pmdk) where
  -- A result without the note of what was written.
  abbrev pub forgotten : {A : Type 0} → Result A × Cached P → Result A × Pool P
  forgotten (r, c) = (r, c.pool)

  forgotten-noted :
      {A : Type 0} (f : A → List ℕ → List ℕ) (dirty : List ℕ) (r : Result A × Pool P)
      → forgotten (noted f dirty r) ≡ r
  forgotten-noted f dirty (ok a, p) = refl
  forgotten-noted f dirty (throw e, p) = refl
  forgotten-noted f dirty (raise, p) = refl
  forgotten-noted f dirty (fault, p) = refl

  forgotten-next :
      {A B : Type 0} (r : Result A × Cached P) (s : Result A × Pool P) (f : A → Action (Cached P) B)
      (g : A → Action (Pool P) B)
      → forgotten r ≡ s
      → ((a : A) (c : Cached P) → forgotten (f a c) ≡ g a c.pool)
      → forgotten (next r f) ≡ next s g
  forgotten-next (ok a, c) s f g e h = h a c ∙ ap (λ x. next x g) e
  forgotten-next (throw x, c) s f g e h = ap (λ x. next x g) e
  forgotten-next (raise, c) s f g e h = ap (λ x. next x g) e
  forgotten-next (fault, c) s f g e h = ap (λ x. next x g) e

  module _ (fl : Floats) (nbuckets : ℕ) where
    pub store_cached-store :
        (id src : Bytes) (c : Cached P)
        → forgotten (store_cached fl P nbuckets id src c) ≡ store fl P nbuckets id src c.pool
    unfolding store_cached store
    store_cached-store id src c =
        forgotten-next _ _ _ _
          (forgotten-noted nothing_written c.dirty (hashfun fl P nbuckets id, c.pool))
          λ hash c1.
            forgotten-next _ _ _ _
              (forgotten-noted string_written c1.dirty (stralloc_copy fl P src c1.pool))
              λ o c2.
                forgotten-next _ _ _ _
                  (forgotten-noted entry_written c2.dirty
                    (insert_new_head fl P hash (list_args id (length src) o) c2.pool))
                  λ oid c3.
                    forgotten-noted nothing_written c3.dirty
                      (report fl P id (obj (size_of fl (length src) mb)) oid c3.pool)

    pub alloc_cached-alloc :
        (id : Bytes) (size : ℕ) (c : Cached P)
        → forgotten (alloc_cached fl P nbuckets id size c) ≡ alloc fl P nbuckets id size c.pool
    unfolding alloc_cached alloc
    alloc_cached-alloc id size c =
        forgotten-next _ _ _ _
          (forgotten-noted nothing_written c.dirty (hashfun fl P nbuckets id, c.pool))
          λ hash c1.
            forgotten-next _ _ _ _
              (forgotten-noted nothing_written c1.dirty (stralloc fl P size c1.pool))
              λ o c2.
                forgotten-next _ _ _ _
                  (forgotten-noted entry_written c2.dirty
                    (insert_new_head fl P hash (list_args id size o) c2.pool))
                  λ oid c3.
                    forgotten-next _ _ _ _
                      (forgotten-noted nothing_written c3.dirty
                        (report fl P id (u64 size) oid c3.pool))
                      λ u c4. refl

    pub copy_to_cached-copy_to :
        (o : ℕ) (src : Bytes) (c : Cached P)
        → forgotten (copy_to_cached fl P nbuckets o src c) ≡ copy_to fl P o src c.pool
    unfolding copy_to_cached
    copy_to_cached-copy_to o src c =
        forgotten-noted (λ u dirty. o ∷ dirty) c.dirty (copy_to fl P o src c.pool)
