-- ===== src/Pmem/Streamed.antt =====
-- `PMEM` with `use_mmap` over the serializers that write to streams, on the hash table.
use pmemcpy.Base.{ℕ, ◌≡◌, ◌∙◌, ap, true, none, [], ◌∷◌, Bytes}
use pmemcpy.Util.Numbers.{Floats}
use pmemcpy.Util.Serializeable.{str, obj, size_of, mb}
use pmemcpy.Util.Error.{Result, throw_error}
use pmemcpy.Util.Errors.{pmdk_cant_allocate_str}
use pmemcpy.Storage.Action.{Action, next, ◌>>=◌, next-throw_error}
use pmemcpy.Storage.Interface.{Storage}
use pmemcpy.Storage.Libpmemobj.{Pmdk, PoolLibrary}
use pmemcpy.Storage.Hashtable.{Pool, PmemBuffer, stralloc, alloc}
use pmemcpy.Storage.Hashtable.Reading.{IsValid, hashfun_home}
use pmemcpy.Storage.Hashtable.Object.{Object, hashtable_storage}
use pmemcpy.Storage.Hashtable.Object.Mapped.{IsMapped, on_pool_run, unchanged}
use pmemcpy.Serialize.Element.{Kind}
use pmemcpy.Serialize.Dimensions.{Dimensions}
use pmemcpy.Serialize.Serializer.{Serializer}
use pmemcpy.Serialize.Boost.{BoostArchive, boost}
use pmemcpy.Serialize.Cereal.{CerealArchive, cereal}
use pmemcpy.Serialize.Msgpack.{MsgpackLib, msgpack}
use pmemcpy.Pmem.{store, store_array}

-- The serializers that the factory has commented out.
pub data StreamType : Type 0 where
  cereal_type msgpack_type boost_type : StreamType

-- `behind` is the memory behind the buffers that are deserialized.
unfoldable pub get_stream :
    BoostArchive → CerealArchive → MsgpackLib → Bytes → StreamType → Serializer
get_stream B C M behind cereal_type = cereal C behind
get_stream B C M behind msgpack_type = msgpack M
get_stream B C M behind boost_type = boost B behind

module _ (fl : Floats) (P : Pmdk) (B : PoolLibrary P) where
  abbrev S : Storage
  S = hashtable_storage fl P B

  -- The error of `_stralloc` for a buffer of no bytes.
  abbrev pub no_buffer : {A : Type 0} → Pool P → Result A
  no_buffer p =
      throw_error fl pmdk_cant_allocate_str (obj (size_of fl 0 mb) ∷ str (P.errormsg p.heap) ∷ [])

  alloc_refused :
      (nbuckets : ℕ) (p : Pool P) (valid : IsValid P nbuckets p) (id : Bytes)
      → P.alloc 0 p.heap ≡ none
      → alloc fl P nbuckets id 0 p ≡ (no_buffer p, p)
  unfolding alloc stralloc
  alloc_refused nbuckets p valid id a =
      rw (hashfun_home P nbuckets p valid fl id, next, a, stralloc) (next-throw_error fl _ _ p _)

  -- What follows an allocation of no bytes is not run.
  refused :
      (o : Object P) (m : IsMapped P o) (id : Bytes)
      (write : PmemBuffer → Action (Object P) (Unit {0}))
      → P.alloc 0 m.pool.heap ≡ none
      → (S.alloc id 0 >>= write) o ≡ (no_buffer m.pool, o)
  refused o m id write a =
      let run : S.alloc id 0 o ≡ (no_buffer m.pool, o) =
        on_pool_run P o m fl B (λ n. alloc fl P n id 0) (no_buffer m.pool) m.pool
          (alloc_refused o.nbuckets m.pool m.valid id a)
        ∙ ap (λ x. (no_buffer m.pool, x)) (unchanged P o m) in
      ap (λ x. next x write) run ∙ next-throw_error fl _ _ o write

  -- On a storage object with a pool in good order mapped, where libpmemobj refuses to allocate an
  -- object of 0 bytes, as its documentation says: with `use_mmap` and any of the three serializers, a
  -- store of a value and a store of an array, whatever the key, the value and the room in the pool,
  -- throw PMDK_CANT_ALLOCATE_STR, if its message fits the formatter's buffer, and leave the object alone.
  pub store-stream :
      (A : BoostArchive) (C : CerealArchive) (M : MsgpackLib) (behind : Bytes) (t : StreamType)
      (k : Kind) (id src : Bytes) (dims : Dimensions) (o : Object P) (m : IsMapped P o)
      → ((h : P.Heap) → P.alloc 0 h ≡ none)
      → (store S (get_stream A C M behind t) true k id src o ≡ (no_buffer m.pool, o))
        × (store_array S (get_stream A C M behind t) true k id src dims o ≡ (no_buffer m.pool, o))
  unfolding get_stream store store_array
  store-stream A C M behind cereal_type k id src dims o m refuses =
      (refused o m id _ (refuses m.pool.heap), refused o m id _ (refuses m.pool.heap))
  store-stream A C M behind msgpack_type k id src dims o m refuses =
      (refused o m id _ (refuses m.pool.heap), refused o m id _ (refuses m.pool.heap))
  store-stream A C M behind boost_type k id src dims o m refuses =
      (refused o m id _ (refuses m.pool.heap), refused o m id _ (refuses m.pool.heap))
