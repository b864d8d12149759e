-- ===== src/Storage/Hashtable/Storing/Colliding.antt =====
-- Keys with a NUL byte, which `strncmp` compares only up to it.
use pmemcpy.Base.{
  ℕ, ◌%◌, ◌≤◌, ◌≡◌, refl, ap, ◌∙◌, true, some, [], ◌∷◌, ◌++◌, Bytes, ==_refl, length, length-append,
  arith,
}
use pmemcpy.Util.Numbers.{Floats}
use pmemcpy.Util.Error.{ok}
use pmemcpy.Storage.Libpmemobj.{Pmdk, IsAllocator}
use pmemcpy.Storage.Action.{next}
use pmemcpy.Storage.Hashtable.{PmemPointer, Pool, id_capacity, strncmp_equal, is_entry, store, load}
use pmemcpy.Storage.Hashtable.Chains.{value, values, value-Stored}
use pmemcpy.Storage.Hashtable.Reading.{IsValid, view, answer, load-view, hashfun_home}
use pmemcpy.Storage.Hashtable.Storing.{
  entry, Prepared-NewEntry, linked, linked-Writes, copied-Prepared, insert_linked, stralloc_copied,
}

-- What stands behind a NUL is not compared.
strncmp_equal-nul :
    (s x y : Bytes) → strncmp_equal (length (s ++ (0 ∷ x))) (s ++ (0 ∷ x)) (s ++ (0 ∷ y)) ≡ true
unfolding strncmp_equal
strncmp_equal-nul [] x y = refl
strncmp_equal-nul (c ∷ s) x y = ground (arith, strncmp_equal-nul s x y)

is_entry-nul :
    (s x y : Bytes) (e : PmemPointer)
    → length x ≡ length y
    → e.id ≡ s ++ (0 ∷ x)
    → e.id_len ≡ length (s ++ (0 ∷ x))
    → is_entry (s ++ (0 ∷ y)) e ≡ true
unfolding is_entry
is_entry-nul s x y e same named sized =
    let equal : length (s ++ (0 ∷ x)) ≡ length (s ++ (0 ∷ y)) =
      omega (arith, length-append {0} s (0 ∷ x), length-append {0} s (0 ∷ y)) in
    rw (named, sized, strncmp_equal-nul s x y, equal, ==_refl (length (s ++ (0 ∷ y))))

module _ (P : Pmdk) (L : IsAllocator P) (fl : Floats) (nbuckets : ℕ) (p : Pool P)
    (valid : IsValid P nbuckets p) where
  -- On a pool in good order, with room for a value and its entry: a value that is stored under a key
  -- with a NUL byte, of at most 512 bytes, is what `load` gives for every key of the same length that
  -- agrees with it up to the NUL and falls into the same bucket.
  pub load-store_nul :
      (s x y src : Bytes) (o : ℕ) (h : P.Heap) (n : ℕ) (h' : P.Heap)
      → length x ≡ length y
      → P.hash (s ++ (0 ∷ x)) % nbuckets ≡ P.hash (s ++ (0 ∷ y)) % nbuckets
      → length (s ++ (0 ∷ x)) ≤ id_capacity
      → P.alloc (length src) p.heap ≡ some (o, h)
      → P.alloc P.pointer_size (P.poke o src h) ≡ some (n, h')
      → (p' : Pool P) × (store fl P nbuckets (s ++ (0 ∷ x)) src p ≡ (ok tt, p'))
        × (load fl P nbuckets (s ++ (0 ∷ y)) p' ≡ (ok src, p'))
  unfolding store view values Prepared-NewEntry
  load-store_nul s x y src o h n h' same bucket short a b =
      let id = s ++ (0 ∷ x) in
      let k = s ++ (0 ∷ y) in
      let r = copied-Prepared P L fl nbuckets p valid id src o h a in
      let p' = linked P L fl nbuckets p valid id n (length src) o h' in
      let w = linked-Writes P L fl nbuckets p valid id (P.poke o src h) o src n h' r b in
      let e = entry P L n id (length src) o in
      let new = Prepared-NewEntry P L p (P.poke o src h) o src id n h' r b in
      let shown : value P h' e ≡ src = value-Stored P h' e new.stored in
      let met : is_entry k e ≡ true = is_entry-nul s x y e same refl refl in
      let i = P.hash k % nbuckets in
      let older = values P h' k (valid.table.buckets i) in
      let first : view P nbuckets p' k ≡ src ∷ older = rw (bucket, ==_refl i, met, shown) in
      (
        p',
        rw (
          hashfun_home P nbuckets p valid fl id,
          next,
          stralloc_copied P L fl nbuckets p valid id src o h a,
          next,
          insert_linked P L fl nbuckets p valid id (P.poke o src h) (length src) o n h' short b,
        ),
        load-view P fl nbuckets p' w.valid k ∙ ap (λ vs. (answer fl k vs, p')) first,
      )
