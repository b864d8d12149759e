-- ===== src/Storage/Factory/Implements.antt =====
-- Every back end that the factory makes keeps the contract of a storage.
use pmemcpy.Util.Numbers.{Floats}
use pmemcpy.Storage.Interface.{Meaning, IsStorage}
use pmemcpy.Storage.Libpmemobj.{Pmdk, IsAllocator, PoolLibrary}
use pmemcpy.Storage.Files.{Os, IsOs}
use pmemcpy.Storage.Directory.{IsDirectory, IsReliable}
use pmemcpy.Storage.PmdkFs.{Libpmem, IsLibpmem}
use pmemcpy.Storage.PmdkFs.Implements.{IsMapper, pmdk_fs_meaning, pmdk_fs_storage-IsStorage}
use pmemcpy.Storage.Posix.Implements.{posix_meaning, posix_storage-IsStorage}
use pmemcpy.Storage.Hashtable.Object.Implements.{hashtable_meaning, hashtable_storage-IsStorage}
use pmemcpy.Storage.Factory.{StorageType, pmdk_hashtable, pmdk_fs, posix, get_storage}

-- What the back ends use of the machine.
pub record Libraries : Type 1 where
  pub floats : Floats
  pub pmdk : Pmdk
  pub pools : PoolLibrary pmdk
  pub os : Os
  pub libpmem : Libpmem os

-- The libraries keep their promises, and the operating system does not run out of resources on files
-- that are there.
pub record AreReliable (W : Libraries) : Type 0 where
  pub allocator : IsAllocator W.pmdk
  pub calls : IsOs W.os
  pub directory : IsDirectory W.os
  pub reliable : IsReliable W.os
  pub mappings : IsLibpmem W.os W.libpmem
  pub mapper : IsMapper W.os W.libpmem

module _ (W : Libraries) (G : AreReliable W) where
  -- What the states of a back end mean to its users.
  unfoldable pub meaning :
      (t : StorageType) → Meaning (get_storage W.floats W.pmdk W.pools W.os W.libpmem t)
  unfolding get_storage
  meaning pmdk_hashtable = hashtable_meaning W.pmdk G.allocator W.floats W.pools
  meaning pmdk_fs =
      pmdk_fs_meaning W.os G.calls G.directory G.reliable W.libpmem G.mappings G.mapper W.floats
  meaning posix = posix_meaning W.os G.calls G.directory G.reliable W.floats

  -- Whichever type is asked for, the factory gives a back end that keeps the contract of a storage.
  pub get_storage-IsStorage :
      (t : StorageType)
      → IsStorage (get_storage W.floats W.pmdk W.pools W.os W.libpmem t) (meaning t)
  unfolding get_storage meaning
  get_storage-IsStorage pmdk_hashtable =
      hashtable_storage-IsStorage W.pmdk G.allocator W.floats W.pools
  get_storage-IsStorage pmdk_fs =
      pmdk_fs_storage-IsStorage W.os G.calls G.directory G.reliable W.libpmem G.mappings G.mapper
        W.floats
  get_storage-IsStorage posix = posix_storage-IsStorage W.os G.calls G.directory G.reliable W.floats
