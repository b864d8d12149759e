-- ===== src/Storage/PmdkFs.antt =====
-- include/pmemcpy/storage/pmdk_fs.h: a directory with a file for each key, mapped through libpmem.
-- `store`, `load` and `free` are, call for call, those of storage/posix.h; `pmem_persist` and `fsync`
-- concern a crash only.
pub mod Implements
pub mod Buffer
use pmemcpy.Base.{
  ℕ, ◌≡◌, Bool, true, false, Option, none, some, [], ◌∷◌, Bytes, if◌then◌else◌, length,
}
use pmemcpy.Util.Numbers.{Floats}
use pmemcpy.Util.Serializeable.{Arg, str, u64, obj, size_of, mb}
use pmemcpy.Util.Error.{Result, ok, raise, throw_error}
use pmemcpy.Util.Errors.{posix_path_not_directory, posix_mmap_failed, posix_find_failed}
use pmemcpy.Storage.Action.{Action}
use pmemcpy.Storage.Interface.{Storage}
use pmemcpy.Storage.Files.{Os, held, resized}
use pmemcpy.Storage.Posix
use pmemcpy.Storage.Posix.{PosixStorage, MmapBuffer, path_of, reason}

-- What is used besides of libpmem and of boost::filesystem.
pub record Libpmem (O : Os) : Type 0 where
  -- boost::filesystem::create_directory; `none` is its exception.
  pub create_directory : Bytes → O.Files → Option O.Files
  -- pmem_map_file with PMEM_FILE_CREATE and a size: the file, or a null pointer.
  pub map_create : Bytes → ℕ → O.Files → Option ℕ × O.Files
  -- pmem_map_file of a whole file: the file and its size.
  pub map_whole : Bytes → O.Files → Option (ℕ × ℕ)
  -- The size in a buffer whose mapping failed, which nothing has set.
  pub unset : ℕ

-- What libpmem says of them where they succeed.
pub record IsLibpmem (O : Os) (P : Libpmem O) : Type 0 where
  -- A file is created or resized; paths keep their files, but for the new one.
  pub map_create_resizes :
      (path : Bytes) (n : ℕ) (fs : O.Files) (i : ℕ) (fs' : O.Files)
      → P.map_create path n fs ≡ (some i, fs')
      → (O.file fs' path ≡ some i) × (O.contents fs' i ≡ some (resized n (held O fs path)))
  -- A whole file is mapped with its size.
  pub map_whole_size :
      (path : Bytes) (fs : O.Files) (i n : ℕ)
      → P.map_whole path fs ≡ some (i, n)
      → (bytes : Bytes) × (O.file fs path ≡ some i)
        × (O.contents fs i ≡ some bytes)
        × (length bytes ≡ n)

module _ (fl : Floats) (O : Os) (P : Libpmem O) where
  -- `FilesystemPMDKStorage`: `path_prefix_`, and the files.
  abbrev pub FilesystemPmdkStorage : Type 0
  FilesystemPmdkStorage = PosixStorage O

  unfoldable pub mmap : Bytes → ℕ → Action FilesystemPmdkStorage (Unit {0})
  mmap path size s =
      elim (if O.exists s.files path then some s.files else P.create_directory path s.files) [
        | none ↦ (raise, s)
        | some files ↦
            if O.is_directory files path
            then (ok tt, record { path_prefix = path; files = files })
            else (
              throw_error fl posix_path_not_directory (str path ∷ []),
              record { path_prefix = s.path_prefix; files = files },
            )
      ]

  unfoldable pub munmap : Action FilesystemPmdkStorage (Unit {0})
  munmap s = (ok tt, s)

  unfoldable pub release : Bytes → Action FilesystemPmdkStorage (Unit {0})
  release path s = (ok tt, s)

  -- `alloc(path, size)` of a buffer
  unfoldable pub buffer_alloc : Bytes → ℕ → Action FilesystemPmdkStorage MmapBuffer
  buffer_alloc path size s =
      let (mapped, files) = P.map_create path size s.files in
      elim mapped [
        | none ↦ (
          throw_error fl posix_mmap_failed
              (obj (size_of fl size mb) ∷ str path ∷ reason fl O files ∷ []),
          record s { files = files },
        )
        | some i ↦
            (ok (record { file = i; size = size; is_mapped = true }), record s { files = files })
      ]

  -- `load(path)` of a buffer
  unfoldable pub buffer_load : Bytes → Action FilesystemPmdkStorage MmapBuffer
  buffer_load path s = elim (P.map_whole path s.files) [
    | none ↦ (
      throw_error fl posix_mmap_failed
          (obj (size_of fl P.unset mb) ∷ str path ∷ reason fl O s.files ∷ []),
      s,
    )
    | some (i, size) ↦ (ok (record { file = i; size = size; is_mapped = true }), s)
  ]

  -- `mmap_buffer(path, size)` and `mmap_buffer(path)`
  abbrev pub made_buffer : Bytes → ℕ → Action FilesystemPmdkStorage MmapBuffer
  made_buffer path size = buffer_alloc path size

  abbrev pub loaded_buffer : Bytes → Action FilesystemPmdkStorage MmapBuffer
  loaded_buffer path = buffer_load path

  unfoldable pub alloc : Bytes → ℕ → Action FilesystemPmdkStorage MmapBuffer
  unfolding buffer_alloc
  alloc id size s = made_buffer (path_of fl O s id) size s

  unfoldable pub store : Bytes → Bytes → Action FilesystemPmdkStorage (Unit {0})
  unfolding Posix.store
  store id src = Posix.store fl O id src

  unfoldable pub find : Bytes → Action FilesystemPmdkStorage MmapBuffer
  unfolding buffer_load
  find id s =
      let path = path_of fl O s id in
      let mapped = loaded_buffer path s in
      if O.exists s.files path then mapped else (
        throw_error fl posix_find_failed (str s.path_prefix ∷ str id ∷ reason fl O s.files ∷ []),
        s,
      )

  unfoldable pub load : Bytes → Action FilesystemPmdkStorage Bytes
  unfolding Posix.load
  load id = Posix.load fl O id

  unfoldable pub free : Bytes → Action FilesystemPmdkStorage (Unit {0})
  unfolding Posix.free
  free id = Posix.free fl O id

  -- `size()` and a write or a read at `c_str()` of a buffer.
  abbrev pub size : MmapBuffer → ℕ
  size b = b.size

  abbrev pub copy_to : MmapBuffer → Bytes → Action FilesystemPmdkStorage (Unit {0})
  copy_to = Posix.copy_to fl O

  abbrev pub contents : MmapBuffer → Action FilesystemPmdkStorage Bytes
  contents = Posix.contents fl O

  -- The class as a back end.
  abbrev pub pmdk_fs_storage : Storage
  pmdk_fs_storage = record {
    State = FilesystemPmdkStorage;
    Buffer = MmapBuffer;
    mmap = mmap;
    munmap = munmap;
    release = release;
    alloc = alloc;
    store = store;
    find = find;
    load = load;
    free = free;
    size = size;
    copy_to = copy_to;
    contents = contents;
  }
