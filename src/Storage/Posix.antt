-- ===== src/Storage/Posix.antt =====
-- include/pmemcpy/storage/posix.h: a directory with a file for each key.
-- Descriptors are closed on every path but those where the code leaves them open; nothing that is
-- modelled depends on it. `fsync` and `msync` concern a crash only.
pub mod Reloading
pub mod Mapping
pub mod Implements
pub mod Removing
pub mod Buffer
use pmemcpy.Base.{
  ℕ, ◌≡◌, Bool, true, false, ◌&&◌, Option, none, some, [], ◌∷◌, ◌++◌, Bytes, codes, ◌==◌, leb,
  if◌then◌else◌, length, take, read_at, write_at,
}
use pmemcpy.Util.Numbers.{ℤ, Floats, negsuc, pos}
use pmemcpy.Util.Serializeable.{Arg, str, d32, u64, obj, size_of, mb}
use pmemcpy.Util.Error.{Result, ok, raise, fault, throw_error}
use pmemcpy.Util.Errors.{
  posix_path_not_directory, posix_read_failed, posix_write_failed, posix_truncate_failed,
  posix_open_failed, posix_mmap_failed, posix_find_failed,
}
use pmemcpy.Storage.Action.{Action, next}
use pmemcpy.Storage.Files.{Os}
use pmemcpy.Storage.Interface.{Storage}

pub record PosixStorage (O : Os) : Type 0 where
  pub path_prefix : Bytes
  pub files : O.Files

-- `mmap_buffer`: its file, and its size; a failed mapping is only noticed by `alloc`.
pub record MmapBuffer : Type 0 where
  pub file : ℕ
  pub size : ℕ
  pub is_mapped : Bool

module _ (fl : Floats) (O : Os) where
  -- `path_prefix_ + "/" + id`
  abbrev pub path_of : PosixStorage O → Bytes → Bytes
  path_of s id = s.path_prefix ++ (codes "/" ++ id)

  -- `std::string(strerror(errno))`
  abbrev pub reason : O.Files → Arg fl
  reason fs = str (O.strerror fs)

  -- The descriptor of a failed `open`.
  abbrev pub bad_fd : Arg fl
  bad_fd = d32 (negsuc 0)

  unfoldable pub mmap : Bytes → ℕ → Action (PosixStorage O) (Unit {0})
  mmap path size s =
      let files = if O.exists s.files path then s.files else O.mkdir path s.files in
      if O.is_directory files path then (ok tt, record { path_prefix = path; files = files }) else (
        throw_error fl posix_path_not_directory (str path ∷ []),
        record { path_prefix = s.path_prefix; files = files },
      )

  unfoldable pub munmap : Action (PosixStorage O) (Unit {0})
  munmap s = (ok tt, s)

  unfoldable pub release : Bytes → Action (PosixStorage O) (Unit {0})
  release path s = (ok tt, s)

  -- What follows a call of `open`: with no descriptor, or with a descriptor and its file.
  abbrev pub opened :
      {A : Type 0}
      → Bytes
      → Option (ℕ × ℕ) × O.Files
      → (O.Files → Result A)
      → (ℕ → ℕ → Action (PosixStorage O) A)
      → Result A × PosixStorage O
  opened prefix (none, files) failed f =
      (failed files, record { path_prefix = prefix; files = files })
  opened prefix (some (fd, i), files) failed f =
      f fd i (record { path_prefix = prefix; files = files })

  unfoldable pub alloc : Bytes → ℕ → Action (PosixStorage O) MmapBuffer
  alloc id size s =
      opened s.path_prefix (O.open_file true (path_of s id) s.files)
        (λ fs.
          throw_error fl posix_write_failed
            (bad_fd ∷ str s.path_prefix ∷ str id ∷ bad_fd ∷ reason fs ∷ []))
        (λ fd i t. elim (O.ftruncate i size t.files) [
          | none ↦ (
            throw_error fl posix_truncate_failed
                (u64 size ∷ str s.path_prefix ∷ str id ∷ reason t.files ∷ []),
            t,
          )
          | some files ↦ (
            if O.maps i size files
                then ok (record { file = i; size = size; is_mapped = true })
                else throw_error fl posix_mmap_failed
                    (obj (size_of fl size mb) ∷ d32 (pos fd) ∷ reason files ∷ []),
            record t { files = files },
          )
        ])

  unfoldable pub store : Bytes → Bytes → Action (PosixStorage O) (Unit {0})
  store id src s =
      opened s.path_prefix (O.open_file true (path_of s id) s.files)
        (λ fs.
          throw_error fl posix_open_failed (bad_fd ∷ str s.path_prefix ∷ str id ∷ reason fs ∷ []))
        (λ fd i t.
          let (ret, files) = O.write i src t.files in
          (
            if length src == ret
                then ok tt
                else throw_error fl posix_write_failed
                    (u64 (length src) ∷ str s.path_prefix ∷ str id ∷ u64 ret ∷ reason files ∷ []),
            record t { files = files },
          ))

  unfoldable pub find : Bytes → Action (PosixStorage O) MmapBuffer
  find id s =
      opened s.path_prefix (O.open_file false (path_of s id) s.files)
        (λ fs. throw_error fl posix_find_failed (str s.path_prefix ∷ str id ∷ reason fs ∷ []))
        (λ fd i t. elim (O.contents t.files i) [
          | none ↦ (fault, t)
          | some bytes ↦
              let size = length bytes in
              (ok (record { file = i; size = size; is_mapped = O.maps i size t.files }), t)
        ])

  -- The file's size comes from boost::filesystem, which throws its own exception.
  unfoldable pub load : Bytes → Action (PosixStorage O) Bytes
  load id s =
      opened s.path_prefix (O.open_file true (path_of s id) s.files)
        (λ fs.
          throw_error fl posix_read_failed
            (bad_fd ∷ str s.path_prefix ∷ str id ∷ bad_fd ∷ reason fs ∷ []))
        (λ fd i t. elim (O.file_size (path_of s id) t.files) [
          | none ↦ (raise, t)
          | some len ↦
              let (ret, buffer) = O.read i len t.files in
              (
                if len == ret
                    then ok buffer
                    else throw_error fl posix_read_failed
                        (u64 len ∷ str s.path_prefix ∷ str id ∷ u64 ret ∷ reason t.files ∷ []),
                t,
              )
        ])

  unfoldable pub free : Bytes → Action (PosixStorage O) (Unit {0})
  free id s = (ok tt, record s { files = O.remove (path_of s id) s.files })

  -- A write at `c_str()` of a buffer, and a read of all of it; a failed mapping is no memory.
  unfoldable pub copy_to : MmapBuffer → Bytes → Action (PosixStorage O) (Unit {0})
  copy_to b src s =
      if b.is_mapped && leb (length src) b.size
      then elim (O.contents s.files b.file) [
        | none ↦ (fault, s)
        | some old ↦ elim (write_at 0 src old) [
          | none ↦ (fault, s)
          | some bytes ↦ (ok tt, record s { files = O.poke b.file bytes s.files })
        ]
      ]
      else (fault, s)

  unfoldable pub contents : MmapBuffer → Action (PosixStorage O) Bytes
  contents b s =
      if b.is_mapped
      then elim (O.contents s.files b.file) [
        | none ↦ (fault, s)
        | some held ↦ elim (read_at b.size held) [ none ↦ (fault, s) | some bytes ↦ (ok bytes, s) ]
      ]
      else (fault, s)

  -- The class as a back end.
  abbrev pub posix_storage : Storage
  posix_storage = record {
    State = PosixStorage O;
    Buffer = MmapBuffer;
    mmap = mmap;
    munmap = munmap;
    release = release;
    alloc = alloc;
    store = store;
    find = find;
    load = load;
    free = free;
    size = λ b. b.size;
    copy_to = copy_to;
    contents = contents;
  }
