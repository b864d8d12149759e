-- ===== src/Pmem/Object.antt =====
-- include/pmemcpy/memcpy.h: a `PMEM` object, which its constructor makes of a storage type and a
-- serializer type, over the factories.
use pmemcpy.Base.{Bool, true, Bytes}
use pmemcpy.Storage.Action.{Action}
use pmemcpy.Storage.Interface.{Storage}
use pmemcpy.Storage.Factory.{StorageType, pmdk_hashtable, get_storage}
use pmemcpy.Storage.Factory.Implements.{Libraries, AreReliable}
use pmemcpy.Serialize.Element.{Kind}
use pmemcpy.Serialize.CapnProto.{Capnp, IsCodec}
use pmemcpy.Serialize.Factory.{SerializerType, capnproto_type, get}
use pmemcpy.Pmem.{store, load}

-- `serializer_`, the type of `*storage_`, and `use_mmap_`.
pub record PmemObject : Type 0 where
  pub serializer : SerializerType
  pub storage : StorageType
  pub use_mmap : Bool

-- The constructor, and its default arguments.
abbrev pub pmem : StorageType → SerializerType → Bool → PmemObject
pmem storage serializer use_mmap = record {
  serializer = serializer;
  storage = storage;
  use_mmap = use_mmap;
}

abbrev pub default_pmem : PmemObject
default_pmem = pmem pmdk_hashtable capnproto_type true

module _ (W : Libraries) (G : AreReliable W) (C : Capnp) (D : IsCodec C) where
  abbrev pub back_end : StorageType → Storage
  back_end t = get_storage W.floats W.pmdk W.pools W.os W.libpmem t

  -- `store` and `load` of an object.
  abbrev pub store_by :
      (p : PmemObject) → Kind → Bytes → Bytes → Action (back_end p.storage).State (Unit {0})
  store_by p k id src = store (back_end p.storage) (get C p.serializer) p.use_mmap k id src

  abbrev pub load_by :
      (p : PmemObject) → Kind → Bytes → Bytes → Action (back_end p.storage).State Bytes
  load_by p k id dst = load (back_end p.storage) (get C p.serializer) p.use_mmap k id dst
