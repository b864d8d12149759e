-- ===== src/Storage/Hashtable/Crash/Sparing.antt =====
-- Keys that a store cannot lose.
use pmemcpy.Base.{
  ℕ, ◌%◌, ◌≤◌, ◌≡◌, refl, sym, ap, ◌∙◌, false, inl, inr, some, List, [], ◌∷◌, Bytes, bytes_equal,
  bytes_equal_iff, ◌==◌, ==_refl, ==_symm, length, Bool-cases,
}
use mathlib.Core.Path.{subst}
use mathlib.Core.Option.{some-injective}
use pmemcpy.Util.Numbers.{Floats}
use pmemcpy.Util.Error.{ok}
use pmemcpy.Storage.Libpmemobj.{Pmdk, IsAllocator}
use pmemcpy.Storage.Hashtable.{PmemPointer, PmemPointerTable, Pool, id_capacity, set_bucket, load}
use pmemcpy.Storage.Hashtable.Keys.{IsText}
use pmemcpy.Storage.Hashtable.Chains.{Apart, Chain-Apart}
use pmemcpy.Storage.Hashtable.Reading.{IsValid, view, answer, home}
use pmemcpy.Storage.Hashtable.Storing.{
  entry, linked, copied-Prepared, Prepared-NewEntry, linked-Writes,
}
use pmemcpy.Storage.Hashtable.Crash.{Cached, is_dirty, persist, Crash, store_cached}
use pmemcpy.Storage.Hashtable.Crash.Keeping.{Clean, load-Crash}
use pmemcpy.Storage.Hashtable.Crash.Losing.{stored_dirty, store_cached_result}

-- What is not dirty is not made so by a persist, nor by a write that is persisted.
persist-keeps :
    (o q : ℕ) (dirty : List ℕ)
    → is_dirty q dirty ≡ false
    → is_dirty q (persist (some o) dirty) ≡ false
unfolding is_dirty persist
persist-keeps o q [] h = refl
persist-keeps o q (x ∷ xs) h = elim (Bool-cases (x == q)) [
  | inl same ↦ absurd (cc (rw same at h))
  | inr differ ↦
      let rest = persist-keeps o q xs (rw differ at h) in
      elim (Bool-cases (x == o)) [
        | inl here ↦ rw here rest
        | inr there ↦ rw (there, is_dirty, differ) rest
      ]
]

string_written-keeps :
    (o q : ℕ) (dirty : List ℕ)
    → is_dirty q dirty ≡ false
    → is_dirty q (persist (some o) (o ∷ dirty)) ≡ false
unfolding persist
string_written-keeps o q dirty h = rw (==_refl o) (persist-keeps o q dirty h)

stored-Clean :
    (o n : ℕ) (dirty : List ℕ) (c : List PmemPointer)
    → Apart n c
    → Clean dirty c
    → Clean (n ∷ persist (some o) (o ∷ dirty)) c
unfolding is_dirty
stored-Clean o n dirty [] a k = tt
stored-Clean o n dirty (e ∷ c) a k = (
  (
    rw (==_symm n e.oid ∙ a.0.1) (string_written-keeps o e.oid dirty k.0.0),
    rw (==_symm n e.data_oid ∙ a.0.0) (string_written-keeps o e.data_oid dirty k.0.1),
  ),
  stored-Clean o n dirty c a.1 k.1,
)

module _ (P : Pmdk) (L : IsAllocator P) (fl : Floats) (nbuckets : ℕ) (p : Pool P)
    (valid : IsValid P nbuckets p) (id : Bytes) (dirty : List ℕ) where
  other_key :
      (a k : Bytes) → (P.hash a % nbuckets == P.hash k % nbuckets) ≡ false → bytes_equal a k ≡ false
  other_key a k apart = elim (Bool-cases (bytes_equal a k)) [
    | inr differ ↦ differ
    | inl same ↦
        let one : a ≡ k = (bytes_equal_iff a k).0 same in
        absurd (
          cc (
            sym apart
            ∙ ap (λ x. P.hash x % nbuckets == P.hash k % nbuckets) one
            ∙ ==_refl (P.hash k % nbuckets)))
  ]

  -- On a pool in good order, for a key of at most 512 bytes, if libpmemobj can allocate the value's
  -- object and then the entry: `store` returns normally, and whatever a crash after it leaves, `load` of
  -- every key with no NUL byte in another bucket, in which all stores had been persisted before, gives
  -- what it would have given before the `store`.
  pub load-store_spared :
      (src : Bytes) (o : ℕ) (h : P.Heap) (n : ℕ) (h' : P.Heap) (stale : ℕ → PmemPointer)
      (q : Pool P) (k : Bytes)
      → length id ≤ id_capacity
      → P.alloc (length src) p.heap ≡ some (o, h)
      → P.alloc P.pointer_size (P.poke o src h) ≡ some (n, h')
      → IsText k
      → (P.hash id % nbuckets == P.hash k % nbuckets) ≡ false
      → Clean dirty (home P nbuckets p valid k)
      → Crash stale (store_cached fl P nbuckets id src (record { pool = p; dirty = dirty })).1 q
      → ((store_cached fl P nbuckets id src (record { pool = p; dirty = dirty })).0 ≡ ok tt)
        × (load fl P nbuckets k q ≡ (answer fl k (view P nbuckets p k), q))
  load-store_spared src o h n h' stale q k short a b text apart clean crash =
      let ready = copied-Prepared P L fl nbuckets p valid id src o h a in
      let new = Prepared-NewEntry P L p (P.poke o src h) o src id n h' ready b in
      let result =
        store_cached_result P L fl nbuckets p valid id stale dirty src o h n h' short a b in
      let w = linked-Writes P L fl nbuckets p valid id (P.poke o src h) o src n h' ready b in
      let c : Cached P = record {
        pool = linked P L fl nbuckets p valid id n (length src) o h';
        dirty = stored_dirty P L fl nbuckets p valid id stale dirty o n;
      } in
      let away : bytes_equal id k ≡ false = other_key id k apart in
      let table : w.valid.table
          ≡ set_bucket (P.hash id % nbuckets)
              (entry P L n id (length src) o ∷ home P nbuckets p valid id) valid.table =
        some-injective _ _ (sym w.valid.rooted) in
      let same_home : home P nbuckets c.pool w.valid k ≡ home P nbuckets p valid k =
        ap (λ (t : PmemPointerTable). t.buckets (P.hash k % nbuckets)) table ∙ (rw apart) in
      let was_clean : Clean c.dirty (home P nbuckets p valid k) =
        stored-Clean o n dirty (home P nbuckets p valid k)
          (Chain-Apart P p.heap n new.node_fresh _ (valid.chains _)) clean in
      (
        ap (λ x. x.0) result,
        load-Crash P fl nbuckets stale c q w.valid k (rw same_home was_clean)
              (subst (λ (x : Cached P). Crash stale x q) (ap (λ x. x.1) result) crash)
            ∙ ap (λ vs. (answer fl k vs, q)) (w.reads k text ∙ (rw away)),
      )
