-- ===== src/Tests/Libraries.antt =====
-- The storage types of the factory, and `PMEM` over them, at concrete inputs.
use pmemcpy.Base.{[], ◌∷◌, Bytes, codes}
use pmemcpy.Storage.Interface.{Storage, IsStorage}
use pmemcpy.Storage.Posix.{PosixStorage, posix_storage}
use pmemcpy.Storage.Posix.Implements.{posix_meaning, posix_storage-IsStorage}
use pmemcpy.Storage.PmdkFs.{pmdk_fs_storage}
use pmemcpy.Storage.PmdkFs.Implements.{pmdk_fs_meaning, pmdk_fs_storage-IsStorage}
use pmemcpy.Storage.Factory.{posix, get_storage}
use pmemcpy.Storage.Factory.Implements.{Libraries, AreReliable}
use pmemcpy.Pmem.Object.{back_end}
use pmemcpy.Tests.Machine.{floats, pmdk, pmdk-IsAllocator, pools, capnp, capnp-IsCodec}
use pmemcpy.Tests.Folders.{system, system-IsOs, system-IsDirectory, system-IsReliable}
use pmemcpy.Tests.Mapper.{mapper, mapper-IsLibpmem, mapper-IsMapper}

posix_storage-IsStorage_example :
    IsStorage
      (posix_storage floats system)
      (posix_meaning system system-IsOs system-IsDirectory system-IsReliable floats)
posix_storage-IsStorage_example =
    posix_storage-IsStorage system system-IsOs system-IsDirectory system-IsReliable floats

pmdk_fs_storage-IsStorage_example : IsStorage (pmdk_fs_storage floats system mapper) (
    pmdk_fs_meaning system system-IsOs system-IsDirectory system-IsReliable mapper mapper-IsLibpmem
      mapper-IsMapper floats)
pmdk_fs_storage-IsStorage_example =
    pmdk_fs_storage-IsStorage system system-IsOs system-IsDirectory system-IsReliable mapper
      mapper-IsLibpmem mapper-IsMapper floats

abbrev libraries : Libraries
libraries = record {
  floats = floats;
  pmdk = pmdk 1000 600;
  pools = pools;
  os = system;
  libpmem = mapper;
}

libraries-AreReliable : AreReliable libraries
libraries-AreReliable = record {
  allocator = pmdk-IsAllocator 1000 600;
  calls = system-IsOs;
  directory = system-IsDirectory;
  reliable = system-IsReliable;
  mappings = mapper-IsLibpmem;
  mapper = mapper-IsMapper;
}

-- An empty directory.
abbrev directory : PosixStorage system
directory = record { path_prefix = codes "/d"; files = record { names = []; heap = [] } }

abbrev key : Bytes
key = codes "D"

abbrev source : Bytes
source = 7 ∷ 1 ∷ []

abbrev target : Bytes
target = 0 ∷ 0 ∷ []

abbrev maker : Storage
maker = back_end libraries libraries-AreReliable capnp capnp-IsCodec posix

abbrev start : maker.State
unfolding get_storage
start = directory
