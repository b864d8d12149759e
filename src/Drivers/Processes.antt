-- ===== src/Drivers/Processes.antt =====
-- The writer and then the reader, each a process of its own with an object of its own, on a hash table.
use pmemcpy.Base.{
  ℕ, ◌+◌, ◌*◌, ◌%◌, ◌<◌, ◌≡◌, refl, sym, ap, ◌∙◌, Bool, true, false, Option, none, some, List, [],
  ◌∷◌, map, replicate, Bytes,
}
use pmemcpy.Util.Numbers.{ℤ, Floats}
use pmemcpy.Util.Error.{Result, ok, throw, raise, fault}
use pmemcpy.Storage.Libpmemobj.{Pmdk, IsAllocator, PoolLibrary}
use pmemcpy.Storage.Action.{Action, next, lift, ◌>>=◌, ◌>>◌}
use pmemcpy.Storage.Interface.{Storage, Meaning, IsStorage}
use mathlib.Core.Path.{subst}
use pmemcpy.Storage.Hashtable as Hashtable
use pmemcpy.Storage.Hashtable.{Pool, PmemBuffer, alloc, copy_to}
use pmemcpy.Storage.Hashtable.Object.{
  Object, on_pool, on_number, on_there, default_nbuckets, mmap, hashtable_storage,
}
use pmemcpy.Storage.Hashtable.Object.Mapped.{IsMapped}
use pmemcpy.Storage.Hashtable.Object.Lifetime.{
  new_object, pool_size, needed, mmap_new, mmap-new_object,
}
use pmemcpy.Storage.Hashtable.Object.Implements.{hashtable_meaning, hashtable_storage-IsStorage}
use pmemcpy.Serialize.Element.{Kind, f64, size_of_kind}
use pmemcpy.Serialize.Dimensions.{Dimensions, size_t_mod}
use pmemcpy.Serialize.Serializer.{Serializer, IsRoundTrip, array_size}
use pmemcpy.Pmem.{store, store_array}
use pmemcpy.Pmem.Putting.{put}
use pmemcpy.Pmem.Sequences.{Put, Stores, done, then_store, Stores-IsValid}
use pmemcpy.Util.Serializeable.{u64}
use pmemcpy.Util.Formatter.{format}
use pmemcpy.Util.Errors.{pmdk_hash_pool_too_small}
use pmemcpy.Drivers.{Platform, IsPlatform, Grid, nprocs}
use pmemcpy.Drivers.Data.{ddata}
use pmemcpy.Drivers.Threads.{Call, team, put_of, read_thread}
use pmemcpy.Drivers.Interleaving.{Interleaving}
use pmemcpy.Drivers.Sizes.{IsSmall}
use pmemcpy.Drivers.RoundTrip.{read_thread-Interleaving}

module _ (fl : Floats) (P : Pmdk) (B : PoolLibrary P) where
  -- A call that leaves the pool mapped that was, and the paths alone.
  abbrev pub Stays : Object P → Object P → Type 0
  Stays o o' = (o'.names ≡ o.names) × (o'.ppool ≡ o.ppool)

  Stays-on_pool :
      {A : Type 0} (f : ℕ → Action (Pool P) A) (o : Object P) → Stays o (on_pool fl P B f o).1
  unfolding on_pool
  Stays-on_pool f o = Stays-number o.ppool
    where
      Stays-there :
          {A : Type 0} (f : ℕ → Action (Pool P) A) (i : ℕ) (x : Option (Pool P))
          → Stays o (on_there fl P B f i x o).1
      Stays-there f i none = (refl, refl)
      Stays-there f i (some p) = (refl, refl)

      Stays-number : (n : Option ℕ) → Stays o (on_number fl P B f n o).1
      Stays-number none = (refl, refl)
      Stays-number (some i) = Stays-there f i (o.pools i)

  Stays-next :
      {A C : Type 0} (o : Object P) (r : Result A × Object P) (f : A → Action (Object P) C)
      → Stays o r.1
      → ((a : A) (o' : Object P) → Stays o' (f a o').1)
      → Stays o (next r f).1
  Stays-next o (ok a, o') f h k = ((k a o').0 ∙ h.0, (k a o').1 ∙ h.1)
  Stays-next o (throw e, o') f h k = h
  Stays-next o (raise, o') f h k = h
  Stays-next o (fault, o') f h k = h

  abbrev S : Storage
  S = hashtable_storage fl P B

  -- A store with and without `use_mmap`, once what it serializes is known.
  Stays-filled :
      (id : Bytes) (n : ℕ) (r : ℕ → Result Bytes) (o : Object P)
      → Stays o (next (S.alloc id n o) (λ b. lift (r b.size) >>= λ bytes. S.copy_to b bytes)).1
  Stays-filled id n r o =
      Stays-next {A = PmemBuffer} {C = Unit {0}} o (S.alloc id n o)
        (λ b. lift (r b.size) >>= λ bytes. S.copy_to b bytes)
        (Stays-on_pool (λ k. alloc fl P k id n) o)
        λ b o'.
          Stays-next {A = Bytes} {C = Unit {0}} o' (r b.size, o') (λ bytes. S.copy_to b bytes)
            (refl, refl) (λ bytes. Stays-on_pool (λ k. copy_to fl P b.buf bytes))

  Stays-handed :
      (id : Bytes) (r : Result Bytes) (o : Object P)
      → Stays o (next (r, o) (λ bytes. S.store id bytes)).1
  Stays-handed id r o =
      Stays-next {A = Bytes} {C = Unit {0}} o (r, o) (λ bytes. S.store id bytes) (refl, refl)
        (λ bytes. Stays-on_pool (λ k. Hashtable.store fl P k id bytes))

  Stays-put :
      (Z : Serializer) (m : Bool) (k : Kind) (d : Option Dimensions) (id src : Bytes) (o : Object P)
      → Stays o (put Z S m k d id src o).1
  unfolding store store_array
  Stays-put Z true k none id src o =
      Stays-filled id (Z.est_encoded_size (size_of_kind k)) (λ n. Z.serialize_to k n src) o
  Stays-put Z false k none id src o = Stays-handed id (Z.serialize k src) o
  Stays-put Z true k (some d) id src o =
      Stays-filled id (Z.est_encoded_size (array_size k d.count))
        (λ n. Z.serialize_array_to k n src d) o
  Stays-put Z false k (some d) id src o = Stays-handed id (Z.serialize_array k src d) o

  module _ (L : IsAllocator P) (Z : Serializer) (R : IsRoundTrip Z) where
    abbrev M : Meaning S
    M = hashtable_meaning P L fl B

    abbrev I : IsStorage S M
    I = hashtable_storage-IsStorage P L fl B

    Stores-Stays : {ps : List Put} {s t : Object P} → Stores S M I Z R ps s t → Stays s t
    Stores-Stays (done s) = (refl, refl)
    Stores-Stays (then_store m p ps bytes s s' t sized e key room stored rest) =
        let here =
          subst (Stays s) (ap (λ x. x.1) stored) (Stays-put Z m p.kind p.dims p.id p.src s) in
        let later = Stores-Stays rest in (later.0 ∙ here.0, later.1 ∙ here.1)

    -- After the writer's stores, from a state with a pool mapped under a path, an object that maps the path
    -- anew finds the values as they were.
    reopened :
        (path : Bytes) (size k : ℕ) {ps : List Put} (s t : Object P) (m : IsMapped P t)
        → s.names path ≡ s.ppool
        → B.opens path m.pool.heap ≡ true
        → Stores S M I Z R ps s t
        → mmap fl P B path size (new_object P k t) ≡ (ok tt, t)
    reopened path size k s t m named opened stores =
        let stays = Stores-Stays stores in
        let still : t.names path ≡ some m.number =
          ap (λ f. f path) stays.0 ∙ named ∙ sym stays.1 ∙ m.mapped in
        mmap-new_object fl P B path size k t m still opened

    module _ (K : Platform) (KL : IsPlatform K) (g : Grid) where
      -- On the hash table over a libpmemobj that keeps its promises, with a serializer that keeps its
      -- contract, and for a grid whose sizes do not wrap around: suppose that a new pool can be made under
      -- a path, that libpmemobj opens the pool at the path whatever it holds, that the writer's threads
      -- compute their data without an overflow of an `int`, and that all their stores, in any interleaving,
      -- are stores that there is room for of what can be serialized. Then the writer maps the pool without
      -- error; and in a new process `mmap` of the path succeeds, and every thread of the reader that can
      -- allocate its memory loads without error, whether or not either program uses `use_mmap`, in each of
      -- its ten arrays the data that the writer's thread of its rank computed.
      pub read-write :
          (path : Bytes) (size size' k : ℕ) (o : Object P) (msg : Bytes) (h h' : P.Heap)
          (written : ℕ → Bytes) (n : ℕ) (cs : List Call) (t : Object P) (m : Bool) (rank : ℕ)
          (memory : Bytes)
          → o.names path ≡ none
          → format fl pmdk_hash_pool_too_small.fmt
              (u64 (pool_size fl P B size) ∷ u64 default_nbuckets ∷ u64 (needed fl P B) ∷ [])
            ≡ some msg
          → B.create path (pool_size fl P B size) ≡ some h
          → B.zalloc (B.table_size + B.list_size * default_nbuckets) h ≡ some h'
          → ((heap : P.Heap) → B.opens path heap ≡ true)
          → IsSmall g
          → nprocs g ≡ ℤ.pos n
          → ((r : ℕ) → r < n → ddata K g r ≡ ok (written r))
          → Interleaving (team (nprocs g)) cs
          → Stores S M I Z R (map (put_of K g written) cs) (mmap fl P B path size o).1 t
          → K.malloc (size_of_kind f64 * g.ndx * g.ndy * g.ndz % size_t_mod) ≡ some memory
          → rank < n
          → (bytes : Bytes) × (ddata K g rank ≡ ok bytes)
            × ((mmap fl P B path size o).0 ≡ ok tt)
            × ((mmap fl P B path size' >> read_thread S Z K m g rank) (new_object P k t)
                ≡ (ok (replicate 10 bytes), t))
      read-write path size size' k o msg h h' written n cs t m rank memory absent formatted created
            room opens small counted computed order stores allocated bounded =
          let (s, mapped, valid, buckets, named, empty) =
            mmap_new fl P B path size o msg h h' absent formatted created room in
          let from : Stores S M I Z R (map (put_of K g written) cs) s t =
            subst (λ (x : Object P). Stores S M I Z R (map (put_of K g written) cs) x t)
              (ap (λ x. x.1) mapped) stores in
          let kept : IsMapped P t = Stores-IsValid S M I Z R valid from in
          let (bytes, is, read) =
            read_thread-Interleaving S M I Z R K KL g written n counted cs order s t valid from m
              rank memory small computed allocated bounded in
          (
            bytes,
            is,
            ap (λ x. x.0) mapped,
            rw (reopened path size' k s t kept named (opens kept.pool.heap) from, next) read,
          )
