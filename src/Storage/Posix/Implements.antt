-- ===== src/Storage/Posix/Implements.antt =====
-- The POSIX storage keeps the contract of a storage.
use pmemcpy.Base.{
  ℕ, ◌<◌, ◌≤◌, ◌≡◌, refl, sym, ap, ◌∙◌, true, false, some, [], ◌++◌, append-nil, Bytes, bytes_equal,
  ==_refl, length, drop, drop_all, length-append, length-drop, le→leb, write_at_start, read_at_all,
  Option-cases, inl, inr, arith,
}
use mathlib.Core.Option.{some-injective}
use pmemcpy.Util.Numbers.{Floats}
use pmemcpy.Util.Error.{ok}
use pmemcpy.Storage.Files.{Os, held, IsOs, resized, length-resized}
use pmemcpy.Storage.Directory.{IsName, file_path, Touch, IsDirectory, IsReliable, value_at, IsTidy}
use pmemcpy.Storage.Directory.Touching.{Touch-Change, other_value, own_value, touched-IsTidy}
use pmemcpy.Storage.Interface.{Meaning, IsStorage}
use pmemcpy.Storage.Posix.{
  PosixStorage, MmapBuffer, opened, alloc, store, find, load, copy_to, contents, posix_storage,
}

module _ (O : Os) where
  -- The file of a key can be opened and takes the value whole, which is not empty and not shorter than
  -- what the file has.
  pub record CanWrite (s : PosixStorage O) (id src : Bytes) : Type 0 where
    pub fd : ℕ
    pub number : ℕ
    pub files : O.Files
    pub files' : O.Files
    pub opens : O.open_file true (file_path s.path_prefix id) s.files ≡ (some (fd, number), files)
    pub writes : O.write number src files ≡ (length src, files')
    pub grows : length (held O s.files (file_path s.path_prefix id)) ≤ length src
    pub some_bytes : 0 < length src

  -- The file of a key can be opened, resized and mapped.
  pub record CanMap (s : PosixStorage O) (id : Bytes) (n : ℕ) : Type 0 where
    pub fd : ℕ
    pub number : ℕ
    pub files : O.Files
    pub files' : O.Files
    pub opens : O.open_file true (file_path s.path_prefix id) s.files ≡ (some (fd, number), files)
    pub resizes : O.ftruncate number n files ≡ some files'
    pub maps : O.maps number n files' ≡ true
    pub some_bytes : 0 < n

module _ (O : Os) (L : IsOs O) (D : IsDirectory O) (R : IsReliable O) (fl : Floats) where
  -- What the states of the POSIX storage mean to its users.
  abbrev pub posix_meaning : Meaning (posix_storage fl O)
  posix_meaning = record {
    IsValid = λ s. IsTidy O s.path_prefix s.files;
    IsKey = IsName;
    value = λ s. value_at O s.path_prefix s.files;
    HasRoom = CanWrite O;
    HasRoomFor = CanMap O;
  }

  abbrev pub at : Bytes → O.Files → PosixStorage O
  at prefix files = record { path_prefix = prefix; files = files }

  -- A state after the file of one key has got new bytes.
  pub touched :
      (s : PosixStorage O) (id new : Bytes) (i : ℕ) (fs : O.Files)
      → IsTidy O s.path_prefix s.files
      → IsName id
      → Touch O s.path_prefix id i s.files fs
      → O.file fs (file_path s.path_prefix id) ≡ some i
      → O.contents fs i ≡ some new
      → 0 < length new
      → IsTidy O s.path_prefix fs
        × (value_at O s.path_prefix fs id ≡ some new)
        × ((k : Bytes)
            → IsName k
            → bytes_equal id k ≡ false
            → value_at O s.path_prefix fs k ≡ value_at O s.path_prefix s.files k)
  touched s id new i fs tidy name t named written some_new = (
    touched-IsTidy O s.path_prefix id i s.files fs tidy t name new named written some_new,
    own_value O s.path_prefix id i s.files fs tidy t name new named written some_new,
    other_value O s.path_prefix id i s.files fs tidy t name,
  )

  pub store_value :
      (s : PosixStorage O) (id src : Bytes)
      → IsTidy O s.path_prefix s.files
      → IsName id
      → CanWrite O s id src
      → (s' : PosixStorage O) × (store fl O id src s ≡ (ok tt, s'))
        × IsTidy O s'.path_prefix s'.files
        × (value_at O s'.path_prefix s'.files id ≡ some src)
        × ((k : Bytes)
            → IsName k
            → bytes_equal id k ≡ false
            → value_at O s'.path_prefix s'.files k ≡ value_at O s.path_prefix s.files k)
  unfolding store
  store_value s id src tidy name r =
      let path = file_path s.path_prefix id in
      let (named, there) = L.open_names true path s.files r.fd r.number r.files r.opens in
      let (wrote, kept) = L.write_whole r.number src r.files r.files' _ r.writes there in
      let gone : drop (length src) (held O s.files path) ≡ [] = drop_all (length src) _ r.grows in
      let exact : src ++ drop (length src) (held O s.files path) ≡ src =
        rw (gone, append-nil src) in
      let t =
        Touch-Change O _ _ _ _ _ _
          (D.open_touches true s.path_prefix id s.files r.fd r.number r.files name r.opens)
          (D.write_changes r.number (length src) src r.files r.files' r.writes) in
      let (tidy', own, others) =
        touched s id src r.number r.files' tidy name t (kept path ∙ named) (wrote ∙ ap some exact)
          r.some_bytes in
      (
        at s.path_prefix r.files',
        rw (r.opens, store, opened, r.writes, ==_refl (length src)),
        tidy',
        own,
        others,
      )

  alloc_value :
      (s : PosixStorage O) (id : Bytes) (n : ℕ) (src : Bytes)
      → IsTidy O s.path_prefix s.files
      → IsName id
      → length src ≤ n
      → CanMap O s id n
      → (b : MmapBuffer) × (s' : PosixStorage O) × (s'' : PosixStorage O) × (junk : Bytes) × (alloc
            fl O id n s
          ≡ (ok b, s'))
        × (b.size ≡ n)
        × (copy_to fl O b src s' ≡ (ok tt, s''))
        × (length (src ++ junk) ≡ n)
        × IsTidy O s''.path_prefix s''.files
        × (value_at O s''.path_prefix s''.files id ≡ some (src ++ junk))
        × ((k : Bytes)
            → IsName k
            → bytes_equal id k ≡ false
            → value_at O s''.path_prefix s''.files k ≡ value_at O s.path_prefix s.files k)
  unfolding alloc copy_to
  alloc_value s id n src tidy name fits r =
      let path = file_path s.path_prefix id in
      let (named, there) = L.open_names true path s.files r.fd r.number r.files r.opens in
      let (grown, kept) = L.ftruncate_resizes r.number n r.files r.files' _ r.resizes there in
      let old = resized n (held O s.files path) in
      let new = src ++ drop (length src) old in
      let wide : length old ≡ n = length-resized n (held O s.files path) in
      let total : length new ≡ n =
        omega (
          arith,
          length-append {0} src (drop (length src) old),
          length-drop {0} (length src) old,
        ) in
      let (poked, still) = L.poke_contents r.number new r.files' old grown in
      let opening =
        D.open_touches true s.path_prefix id s.files r.fd r.number r.files name r.opens in
      let t =
        Touch-Change O _ _ _ _ _ _
          (Touch-Change O _ _ _ _ _ _ opening
            (D.ftruncate_changes r.number n r.files r.files' r.resizes))
          (D.poke_changes r.number new r.files') in
      let (tidy', own, others) =
        touched s id new r.number (O.poke r.number new r.files') tidy name t
          (still path ∙ kept path ∙ named) poked (rw total r.some_bytes) in
      (
        record { file = r.number; size = n; is_mapped = true },
        at s.path_prefix r.files',
        at s.path_prefix (O.poke r.number new r.files'),
        drop (length src) old,
        rw (r.opens, alloc, opened, r.resizes, r.maps),
        refl,
        rw (copy_to, le→leb (length src) n fits, grown, write_at_start src old (omega arith)),
        total,
        tidy',
        own,
        others,
      )

  -- A key that has a value has a file with that value's bytes.
  pub stored_file :
      (s : PosixStorage O) (id v : Bytes)
      → value_at O s.path_prefix s.files id ≡ some v
      → (i : ℕ) × (O.file s.files (file_path s.path_prefix id) ≡ some i)
        × (O.contents s.files i ≡ some v)
  unfolding value_at
  stored_file s id v h = elim (Option-cases (O.file s.files (file_path s.path_prefix id))) [
    | inl absent ↦ absurd (cc (rw (value_at, absent) at h))
    | inr (i, at_i) ↦ (i, at_i, rw (value_at, at_i) at h)
  ]

  pub load_value :
      (s : PosixStorage O) (id v : Bytes)
      → IsTidy O s.path_prefix s.files
      → IsName id
      → value_at O s.path_prefix s.files id ≡ some v
      → load fl O id s ≡ (ok v, s)
  unfolding load
  load_value s id v tidy name h =
      let (i, named, there) = stored_file s id v h in
      let (d, opens) = R.opens true (file_path s.path_prefix id) s.files i v named there in
      let sized = L.file_size_length (file_path s.path_prefix id) s.files i v named there in
      rw (opens, load, opened, sized, R.reads i s.files v there, ==_refl (length v))

  find_value :
      (s : PosixStorage O) (id v : Bytes)
      → IsTidy O s.path_prefix s.files
      → IsName id
      → value_at O s.path_prefix s.files id ≡ some v
      → (b : MmapBuffer) × (find fl O id s ≡ (ok b, s)) × (contents fl O b s ≡ (ok v, s))
  unfolding find contents
  find_value s id v tidy name h =
      let (i, named, there) = stored_file s id v h in
      let (d, opens) = R.opens false (file_path s.path_prefix id) s.files i v named there in
      let (bytes, same, some_bytes) = tidy.whole id i name named in
      let size_v : 0 < length v = rw (some-injective v bytes (sym there ∙ same)) some_bytes in
      let maps = R.maps_whole i s.files v there size_v in
      (
        record { file = i; size = length v; is_mapped = true },
        rw (opens, find, opened, there, maps),
        rw (contents, there, read_at_all v),
      )

  -- Over any operating system that keeps POSIX's promises, in one directory and under the names that a
  -- file can have, where files that are there can be opened, read and mapped: the POSIX storage keeps the
  -- contract of a storage. In a directory whose files have bytes and one name each, a store that the
  -- system carries out whole, of a value that is not empty nor shorter than the key's file, and an
  -- allocation that it carries out, leave the key with the value and other keys with what they held;
  -- `find` and `load` give back the value of a key and change nothing.
  pub posix_storage-IsStorage : IsStorage (posix_storage fl O) posix_meaning
  posix_storage-IsStorage = record {
    store_value = store_value;
    alloc_value = alloc_value;
    find_value = find_value;
    load_value = load_value;
  }
