-- ===== src/Storage/PmdkFs/Implements.antt =====
-- The storage with a mapped file for each key keeps the contract of a storage.
use pmemcpy.Base.{
  ℕ, ◌<◌, ◌≤◌, ◌≡◌, refl, sym, ap, ◌∙◌, true, false, Option, some, ◌++◌, Bytes, bytes_equal, length,
  drop, length-append, length-drop, le→leb, write_at_start, read_at_all, arith,
}
use mathlib.Core.Option.{some-injective}
use pmemcpy.Util.Numbers.{Floats}
use pmemcpy.Util.Error.{ok}
use pmemcpy.Storage.Files.{Os, held, IsOs, resized, length-resized}
use pmemcpy.Storage.Directory.{IsName, file_path, Touch, IsDirectory, IsReliable, value_at, IsTidy}
use pmemcpy.Storage.Directory.Touching.{Touch-Change}
use pmemcpy.Storage.Interface.{Meaning, IsStorage}
use pmemcpy.Storage.Posix.{PosixStorage, MmapBuffer, copy_to, contents}
use pmemcpy.Storage.Posix.Implements.{CanWrite, touched, at, stored_file, store_value, load_value}
use pmemcpy.Storage.PmdkFs.{
  Libpmem, IsLibpmem, buffer_alloc, buffer_load, alloc, store, find, load, pmdk_fs_storage,
}

module _ (O : Os) (P : Libpmem O) where
  -- The file of a key can be created or resized, and mapped.
  pub record CanMapFile (s : PosixStorage O) (id : Bytes) (n : ℕ) : Type 0 where
    pub number : ℕ
    pub files : O.Files
    pub maps : P.map_create (file_path s.path_prefix id) n s.files ≡ (some number, files)
    pub some_bytes : 0 < n

  -- What libpmem says of other files than the one it maps, and that it maps whole files that are there.
  pub record IsMapper : Type 0 where
    pub map_create_touches :
        (prefix id : Bytes) (n : ℕ) (fs : O.Files) (i : ℕ) (fs' : O.Files)
        → IsName id
        → P.map_create (file_path prefix id) n fs ≡ (some i, fs')
        → Touch O prefix id i fs fs'
    pub maps_there :
        (path : Bytes) (fs : O.Files) (i : ℕ) (bytes : Bytes)
        → O.file fs path ≡ some i
        → O.contents fs i ≡ some bytes
        → 0 < length bytes
        → (O.exists fs path ≡ true) × (P.map_whole path fs ≡ some (i, length bytes))

module _ (O : Os) (L : IsOs O) (D : IsDirectory O) (R : IsReliable O) (P : Libpmem O)
    (Q : IsLibpmem O P) (F : IsMapper O P) (fl : Floats) where
  -- What the states of this storage mean to its users: what those of the POSIX storage do.
  abbrev pub pmdk_fs_meaning : Meaning (pmdk_fs_storage fl O P)
  pmdk_fs_meaning = record {
    IsValid = λ s. IsTidy O s.path_prefix s.files;
    IsKey = IsName;
    value = λ s. value_at O s.path_prefix s.files;
    HasRoom = CanWrite O;
    HasRoomFor = CanMapFile O P;
  }

  buffer_alloc_mapped :
      (s : PosixStorage O) (path : Bytes) (n i : ℕ) (fs : O.Files)
      → P.map_create path n s.files ≡ (some i, fs)
      → buffer_alloc fl O P path n s
        ≡ (ok (record { file = i; size = n; is_mapped = true }), at O L D R fl s.path_prefix fs)
  unfolding buffer_alloc
  buffer_alloc_mapped s path n i fs e =
      rw (e, buffer_alloc)
        (ap
          (λ (x : Option ℕ × O.Files).
            (ok (record { file = i; size = n; is_mapped = true }), at O L D R fl s.path_prefix x.1))
          e)

  alloc_value :
      (s : PosixStorage O) (id : Bytes) (n : ℕ) (src : Bytes)
      → IsTidy O s.path_prefix s.files
      → IsName id
      → length src ≤ n
      → CanMapFile O P s id n
      → (b : MmapBuffer) × (s' : PosixStorage O) × (s'' : PosixStorage O) × (junk : Bytes) × (alloc
            fl O P id n s
          ≡ (ok b, s'))
        × (b.size ≡ n)
        × (copy_to fl O b src s' ≡ (ok tt, s''))
        × (length (src ++ junk) ≡ n)
        × IsTidy O s''.path_prefix s''.files
        × (value_at O s''.path_prefix s''.files id ≡ some (src ++ junk))
        × ((k : Bytes)
            → IsName k
            → bytes_equal id k ≡ false
            → value_at O s''.path_prefix s''.files k ≡ value_at O s.path_prefix s.files k)
  unfolding alloc copy_to
  alloc_value s id n src tidy name fits r =
      let path = file_path s.path_prefix id in
      let (named, grown) = Q.map_create_resizes path n s.files r.number r.files r.maps in
      let old = resized n (held O s.files path) in
      let new = src ++ drop (length src) old in
      let wide : length old ≡ n = length-resized n (held O s.files path) in
      let total : length new ≡ n =
        omega (
          arith,
          length-append {0} src (drop (length src) old),
          length-drop {0} (length src) old,
        ) in
      let (poked, still) = L.poke_contents r.number new r.files old grown in
      let t =
        Touch-Change O _ _ _ _ _ _
          (F.map_create_touches s.path_prefix id n s.files r.number r.files name r.maps)
          (D.poke_changes r.number new r.files) in
      let (tidy', own, others) =
        touched O L D R fl s id new r.number (O.poke r.number new r.files) tidy name t
          (still path ∙ named) poked (rw total r.some_bytes) in
      (
        record { file = r.number; size = n; is_mapped = true },
        at O L D R fl s.path_prefix r.files,
        at O L D R fl s.path_prefix (O.poke r.number new r.files),
        drop (length src) old,
        buffer_alloc_mapped s path n r.number r.files r.maps,
        refl,
        rw (copy_to, le→leb (length src) n fits, grown, write_at_start src old (omega arith)),
        total,
        tidy',
        own,
        others,
      )

  find_value :
      (s : PosixStorage O) (id v : Bytes)
      → IsTidy O s.path_prefix s.files
      → IsName id
      → value_at O s.path_prefix s.files id ≡ some v
      → (b : MmapBuffer) × (find fl O P id s ≡ (ok b, s)) × (contents fl O b s ≡ (ok v, s))
  unfolding find buffer_load contents
  find_value s id v tidy name h =
      let (i, named, there) = stored_file O L D R fl s id v h in
      let (bytes, same, some_bytes) = tidy.whole id i name named in
      let size_v : 0 < length v = rw (some-injective v bytes (sym there ∙ same)) some_bytes in
      let (exists, maps) =
        F.maps_there (file_path s.path_prefix id) s.files i v named there size_v in
      (
        record { file = i; size = length v; is_mapped = true },
        rw (exists, maps, find, buffer_load),
        rw (contents, there, read_at_all v),
      )

  -- Over any operating system and any libpmem that keep their promises, in one directory and under the
  -- names that a file can have, where files that are there can be opened, read and mapped: the storage
  -- keeps the contract of a storage, with the same values of the keys as the POSIX storage. A store of a
  -- value that is carried out whole, and that is not empty nor shorter than the key's file, and an
  -- allocation that is carried out, leave the key with the value and other keys with what they held;
  -- `find` and `load` give back the value of a key and change nothing.
  pub pmdk_fs_storage-IsStorage : IsStorage (pmdk_fs_storage fl O P) pmdk_fs_meaning
  unfolding store load
  pmdk_fs_storage-IsStorage = record {
    store_value = store_value O L D R fl;
    alloc_value = alloc_value;
    find_value = find_value;
    load_value = load_value O L D R fl;
  }
