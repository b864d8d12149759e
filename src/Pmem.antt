-- ===== src/Pmem.antt =====
-- include/pmemcpy/memcpy.h: the class `PMEM`, over any storage and any serializer.
-- `ADD_READ_PENALTY` and `ADD_WRITE_PENALTY` only wait, and only in an emulation build.
pub mod RoundTrip
pub mod Independence
pub mod Putting
pub mod Sequences
pub mod Composed
pub mod Streamed
pub mod Emulation
pub mod Object
use pmemcpy.Base.{ℕ, Bool, true, false, Bytes, if◌then◌else◌}
use pmemcpy.Util.Error.{Result, ok}
use pmemcpy.Storage.Action.{Action, ◌>>=◌, ◌>>◌, lift, next}
use pmemcpy.Storage.Interface.{Storage}
use pmemcpy.Serialize.Element.{Kind, size_of_kind}
use pmemcpy.Serialize.Dimensions.{Dimensions}
use pmemcpy.Serialize.Serializer.{Serializer, array_size}

module _ (S : Storage) (Z : Serializer) (use_mmap : Bool) where
  unfoldable pub mmap : Bytes → ℕ → Action S.State (Unit {0})
  mmap path size = S.mmap path size

  unfoldable pub munmap : Action S.State (Unit {0})
  munmap = S.munmap

  unfoldable pub release : Bytes → Action S.State (Unit {0})
  release path = S.release path

  -- `store<T>(id, src)`
  unfoldable pub store : Kind → Bytes → Bytes → Action S.State (Unit {0})
  store k id src =
      if use_mmap
      then (do
        buf ← S.alloc id (Z.est_encoded_size (size_of_kind k))
        bytes ← lift (Z.serialize_to k (S.size buf) src)
        S.copy_to buf bytes)
      else (do bytes ← lift (Z.serialize k src); S.store id bytes)

  -- `store<T>(id, src, dims)`
  unfoldable pub store_array : Kind → Bytes → Bytes → Dimensions → Action S.State (Unit {0})
  store_array k id src dims =
      if use_mmap
      then (do
        buf ← S.alloc id (Z.est_encoded_size (array_size k dims.count))
        bytes ← lift (Z.serialize_array_to k (S.size buf) src dims)
        S.copy_to buf bytes)
      else (do bytes ← lift (Z.serialize_array k src dims); S.store id bytes)

  -- `store<T>(id, src, offsets, sizes, dims)`
  unfoldable pub store_part :
      Kind → Bytes → Bytes → Dimensions → Dimensions → Dimensions → Action S.State (Unit {0})
  unfolding store_array
  store_part k id src offsets sizes dims = store_array k id src dims

  -- `load<T>(id, dst)`: the bytes of `dst` afterwards.
  unfoldable pub load : Kind → Bytes → Bytes → Action S.State Bytes
  load k id dst =
      if use_mmap
      then (do serial ← S.find id; bytes ← S.contents serial; lift (Z.deserialize k dst bytes))
      else (do bytes ← S.load id; lift (Z.deserialize k dst bytes))

  -- `load<T>(id, dst, dims)`
  unfoldable pub load_array : Kind → Bytes → Bytes → Dimensions → Action S.State Bytes
  load_array k id dst dims =
      if use_mmap
      then (do
        serial ← S.find id
        bytes ← S.contents serial
        lift (Z.deserialize_array k dst bytes dims))
      else (do bytes ← S.load id; lift (Z.deserialize_array k dst bytes dims))

  -- `load<T>(id, dst, offsets, sizes, dims)`
  unfoldable pub load_part :
      Kind → Bytes → Bytes → Dimensions → Dimensions → Dimensions → Action S.State Bytes
  unfolding load_array
  load_part k id dst offsets sizes dims = load_array k id dst dims

  unfoldable pub free : Bytes → Action S.State (Unit {0})
  free id = S.free id
