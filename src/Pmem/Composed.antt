-- ===== src/Pmem/Composed.antt =====
-- `PMEM` over the hash table and the serializers of the factory.
use pmemcpy.Base.{◌≡◌, Bool, Bytes, length}
use pmemcpy.Util.Numbers.{Floats}
use pmemcpy.Util.Error.{ok}
use pmemcpy.Storage.Libpmemobj.{Pmdk, IsAllocator, PoolLibrary}
use pmemcpy.Storage.Interface.{Storage, Meaning, IsStorage}
use pmemcpy.Storage.Hashtable.Object.{Object, hashtable_storage}
use pmemcpy.Storage.Hashtable.Object.Mapped.{IsMapped, IsKey}
use pmemcpy.Storage.Hashtable.Object.Implements.{hashtable_meaning, hashtable_storage-IsStorage}
use pmemcpy.Serialize.Element.{Kind, size_of_kind}
use pmemcpy.Serialize.Serializer.{Serializer, IsRoundTrip}
use pmemcpy.Serialize.CapnProto.{Capnp, IsCodec}
use pmemcpy.Serialize.Factory.{SerializerType, get, get-IsRoundTrip}
use pmemcpy.Pmem.{store, load}
use pmemcpy.Pmem.RoundTrip.{encoded, StoreRoom, load-store}

module _ (P : Pmdk) (A : IsAllocator P) (fl : Floats) (B : PoolLibrary P) (C : Capnp)
    (D : IsCodec C) (t : SerializerType) where
  abbrev pub S : Storage
  S = hashtable_storage fl P B

  abbrev pub M : Meaning S
  M = hashtable_meaning P A fl B

  abbrev L : IsStorage S M
  L = hashtable_storage-IsStorage P A fl B

  abbrev pub Z : Serializer
  Z = get C t

  abbrev R : IsRoundTrip Z
  R = get-IsRoundTrip C D t

  -- For every serializer of the factory, over the hash table, with a pool in good order mapped: if
  -- the value can be serialized, the key has at most 512 bytes and no NUL, and libpmemobj can
  -- allocate an object for the serialized value and an entry, then the value is stored without error,
  -- and a `load` of its key into memory of its size gives it back, each call with or without
  -- `use_mmap`.
  pub load-store_hashtable :
      (m m' : Bool) (k : Kind) (id src dst bytes : Bytes) (o : Object P)
      → length src ≡ size_of_kind k
      → length dst ≡ size_of_kind k
      → encoded Z m k src ≡ ok bytes
      → IsMapped P o
      → IsKey id
      → StoreRoom S M m o id (Z.est_encoded_size (size_of_kind k)) bytes
      → (o' : Object P) × (store S Z m k id src o ≡ (ok tt, o'))
        × (load S Z m' k id dst o' ≡ (ok src, o'))
        × IsMapped P o'
  load-store_hashtable m m' k id src dst bytes o sized dst_sized e v key room =
      let (o', stored, loaded, h) =
        load-store S M L Z R m m' k id src dst bytes o sized dst_sized e v key room in
      (o', stored, loaded, h.valid)
