-- ===== src/Storage/Posix/Reloading.antt =====
-- What `load` gives of what `store` wrote.
use pmemcpy.Base.{ℕ, ◌≡◌, sym, ap, ◌∙◌, true, some, ◌++◌, Bytes, ==_refl, length, drop}
use mathlib.Core.Path.{subst}
use pmemcpy.Util.Numbers.{Floats}
use pmemcpy.Util.Error.{ok}
use pmemcpy.Storage.Files.{Os, held, IsOs}
use pmemcpy.Storage.Posix.{PosixStorage, path_of, opened, store, load}

module _ (fl : Floats) (O : Os) (L : IsOs O) (s : PosixStorage O) (id : Bytes) where
  abbrev path : Bytes
  path = path_of fl O s id

  -- If the file of the key can be opened and a read of all its bytes is complete, `load` gives the
  -- bytes of the file; of a key that has no file it gives an empty value, and creates the file.
  pub load_held :
      (d i : ℕ) (fs : O.Files) (got : Bytes)
      → O.open_file true path s.files ≡ (some (d, i), fs)
      → O.read i (length (held O s.files path)) fs ≡ (length (held O s.files path), got)
      → (load fl O id s
          ≡ (ok (held O s.files path), record { path_prefix = s.path_prefix; files = fs }))
        × (O.file fs path ≡ some i)
  unfolding load
  load_held d i fs got o r =
      let (named, there) = L.open_names true path s.files d i fs o in
      let sized = L.file_size_length path fs i _ named there in
      let same = L.read_whole i fs _ got there r in
      (rw (o, load, opened, sized, r, ==_refl (length (held O s.files path)), same), named)

  -- If the file of the key can be opened and the write is complete, `store` returns normally, and the
  -- file has the value's bytes followed by what the file had behind them: it is not truncated.
  pub store_held :
      (src : Bytes) (d i : ℕ) (fs fs' : O.Files)
      → O.open_file true path s.files ≡ (some (d, i), fs)
      → O.write i src fs ≡ (length src, fs')
      → (store fl O id src s ≡ (ok tt, record { path_prefix = s.path_prefix; files = fs' }))
        × (held O fs' path ≡ src ++ drop (length src) (held O s.files path))
  unfolding store
  store_held src d i fs fs' o w =
      let (named, there) = L.open_names true path s.files d i fs o in
      let (wrote, kept) = L.write_whole i src fs fs' _ w there in
      (rw (o, store, opened, w, ==_refl (length src)), rw (held, kept path, named, wrote))

module _ (fl : Floats) (O : Os) (L : IsOs O) (s : PosixStorage O) (id src : Bytes) where
  abbrev file_path : Bytes
  file_path = path_of fl O s id

  -- What the file of the key has after a complete write of the value.
  abbrev pub overlay : Bytes
  overlay = src ++ drop (length src) (held O s.files file_path)

  -- If the file of the key can be opened both times, the write is complete and so is the read of all
  -- that the file then has, a `load` after a `store` gives the value's bytes followed by those that
  -- the file had behind them.
  pub load-store_posix :
      (d i d' i' : ℕ) (fs fs' fs'' : O.Files) (got : Bytes)
      → O.open_file true file_path s.files ≡ (some (d, i), fs)
      → O.write i src fs ≡ (length src, fs')
      → O.open_file true file_path fs' ≡ (some (d', i'), fs'')
      → O.read i' (length overlay) fs'' ≡ (length overlay, got)
      → ((store fl O id src s).0 ≡ ok tt)
        × (load fl O id (store fl O id src s).1
            ≡ (ok overlay, record { path_prefix = s.path_prefix; files = fs'' }))
  load-store_posix d i d' i' fs fs' fs'' got o w o' r =
      let (stored, holds) = store_held fl O L s id src d i fs fs' o w in
      let s' : PosixStorage O = record { path_prefix = s.path_prefix; files = fs' } in
      let (loaded, named) =
        load_held fl O L s' id d' i' fs'' got o'
          (subst (λ (x : Bytes). O.read i' (length x) fs'' ≡ (length x, got)) (sym holds) r) in
      (
        ap (λ x. x.0) stored,
        ap (λ x. load fl O id x.1) stored
            ∙ loaded
            ∙ ap (λ (x : Bytes). (ok x, record { path_prefix = s.path_prefix; files = fs'' }))
                holds,
      )
