-- ===== src/Storage/Posix/Removing.antt =====
-- `free` of the POSIX storage.
use pmemcpy.Base.{
  ℕ, ◌≡◌, refl, sym, ap, ◌∙◌, false, none, some, [], ◌∷◌, Bytes, ◌==◌, bytes_equal, bytes_equal_iff,
  Bool-cases, Option-cases, inl, inr,
}
use pmemcpy.Util.Numbers.{Floats}
use pmemcpy.Util.Serializeable.{str}
use pmemcpy.Util.Error.{ok, throw_error}
use pmemcpy.Util.Errors.{posix_find_failed}
use pmemcpy.Storage.Files.{Os}
use pmemcpy.Storage.Directory.{IsName, file_path, paths_differ, value_at, IsTidy}
use pmemcpy.Storage.Posix.{PosixStorage, opened, free, find, reason}

module _ (O : Os) where
  -- What POSIX says of the removal of a name, and of an opening of one that is not there.
  pub record IsRemoval : Type 0 where
    pub remove_paths :
        (path q : Bytes) (fs : O.Files)
        → bytes_equal path q ≡ false
        → O.file (O.remove path fs) q ≡ O.file fs q
    pub remove_others :
        (path : Bytes) (fs : O.Files) (i j : ℕ)
        → O.file fs path ≡ some i
        → (j == i) ≡ false
        → O.contents (O.remove path fs) j ≡ O.contents fs j
    pub remove_nothing :
        (path : Bytes) (fs : O.Files) (j : ℕ)
        → O.file fs path ≡ none
        → O.contents (O.remove path fs) j ≡ O.contents fs j
    pub open_nothing :
        (path : Bytes) (fs : O.Files)
        → O.file fs path ≡ none
        → O.open_file false path fs ≡ (none, fs)

module _ (O : Os) (R : IsRemoval O) (prefix id : Bytes) (fs : O.Files) (tidy : IsTidy O prefix fs)
    (name : IsName id) where
  abbrev after : O.Files
  after = O.remove (file_path prefix id) fs

  -- The files of other names keep their bytes.
  kept_contents :
      (k : Bytes) (j : ℕ)
      → IsName k
      → bytes_equal id k ≡ false
      → O.file fs (file_path prefix k) ≡ some j
      → O.contents after j ≡ O.contents fs j
  kept_contents k j n differ there = elim (Option-cases (O.file fs (file_path prefix id))) [
    | inl absent ↦ R.remove_nothing (file_path prefix id) fs j absent
    | inr (i, at_i) ↦
        R.remove_others (file_path prefix id) fs i j at_i
          (tidy.apart id k i j name n differ at_i there)
  ]

  kept_path :
      (k : Bytes)
      → bytes_equal id k ≡ false
      → O.file after (file_path prefix k) ≡ O.file fs (file_path prefix k)
  kept_path k differ =
      R.remove_paths (file_path prefix id) (file_path prefix k) fs (paths_differ prefix id k differ)

  pub kept_value :
      (k : Bytes)
      → IsName k
      → bytes_equal id k ≡ false
      → value_at O prefix after k ≡ value_at O prefix fs k
  unfolding value_at
  kept_value k n differ = elim (Option-cases (O.file fs (file_path prefix k))) [
    | inl absent ↦ rw (value_at, kept_path k differ, absent)
    | inr (j, at) ↦ rw (value_at, kept_path k differ, at) (kept_contents k j n differ at)
  ]

  module _ (removed : O.file after (file_path prefix id) ≡ none) where
    -- A name that still has a file is another one, and had it before.
    remaining :
        (k : Bytes) (j : ℕ)
        → O.file after (file_path prefix k) ≡ some j
        → (bytes_equal id k ≡ false) × (O.file fs (file_path prefix k) ≡ some j)
    remaining k j at = elim (Bool-cases (bytes_equal id k)) [
      | inl same ↦ absurd (
          cc (
            sym removed
            ∙ ap (λ (x : Bytes). O.file after (file_path prefix x)) ((bytes_equal_iff id k).0 same)
            ∙ at))
      | inr differ ↦ (differ, sym (kept_path k differ) ∙ at)
    ]

    pub removed-IsTidy : IsTidy O prefix after
    removed-IsTidy = record {
      whole = λ k j n at.
          let (differ, before) = remaining k j at in
          let (bytes, there, some_bytes) = tidy.whole k j n before in
          (bytes, kept_contents k j n differ before ∙ there, some_bytes);
      apart = λ a b i j na nb differ at_a at_b.
          let (da, before_a) = remaining a i at_a in
          let (db, before_b) = remaining b j at_b in
          tidy.apart a b i j na nb differ before_a before_b;
    }

-- In a directory whose files have bytes and one name each, if the system removes the file of the key:
-- `free` returns normally and leaves the directory so, the key has no value, `find` of it throws
-- POSIX_FIND_FAILED, and every other key has the value that it had.
pub free-find :
    (fl : Floats) (O : Os) (R : IsRemoval O) (s : PosixStorage O) (id : Bytes)
    → IsTidy O s.path_prefix s.files
    → IsName id
    → O.file (O.remove (file_path s.path_prefix id) s.files) (file_path s.path_prefix id) ≡ none
    → (s' : PosixStorage O) × (free fl O id s ≡ (ok tt, s'))
      × IsTidy O s'.path_prefix s'.files
      × (value_at O s'.path_prefix s'.files id ≡ none)
      × (find fl O id s' ≡ (
        throw_error fl posix_find_failed (str s'.path_prefix ∷ str id ∷ reason fl O s'.files ∷ []),
        s',
      ))
      × ((k : Bytes)
          → IsName k
          → bytes_equal id k ≡ false
          → value_at O s'.path_prefix s'.files k ≡ value_at O s.path_prefix s.files k)
unfolding free find value_at
free-find fl O R s id tidy name removed =
    let path = file_path s.path_prefix id in
    (
      record { path_prefix = s.path_prefix; files = O.remove path s.files },
      refl,
      removed-IsTidy O R s.path_prefix id s.files tidy name removed,
      rw (value_at, removed),
      rw (R.open_nothing path (O.remove path s.files) removed, find, opened),
      kept_value O R s.path_prefix id s.files tidy name,
    )
