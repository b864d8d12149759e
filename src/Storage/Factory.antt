-- ===== src/Storage/Factory.antt =====
-- include/pmemcpy/storage/storage_factory.h: the storage types, their names, and the factory.
pub mod Implements
use pmemcpy.Base.{
  ◌≡◌, refl, sym, [], ◌∷◌, Bytes, codes, bytes_equal, bytes_equal_iff, if◌then◌else◌, Bool-cases,
  inl, inr, ◌⊎◌, ◌≢◌,
}
use pmemcpy.Util.Numbers.{Floats}
use pmemcpy.Util.Serializeable.{str}
use pmemcpy.Util.Error.{Result, ok, throw_error}
use pmemcpy.Util.Errors.{invalid_storage_type}
use pmemcpy.Storage.Interface.{Storage}
use pmemcpy.Storage.Libpmemobj.{Pmdk, PoolLibrary}
use pmemcpy.Storage.Files.{Os}
use pmemcpy.Storage.Hashtable.Object.{hashtable_storage}
use pmemcpy.Storage.Posix.{posix_storage}
use pmemcpy.Storage.PmdkFs.{Libpmem, pmdk_fs_storage}

pub data StorageType : Type 0 where
  pmdk_hashtable pmdk_fs posix : StorageType

unfoldable pub storage_name : StorageType → Bytes
storage_name pmdk_hashtable = codes "PMDK_HASHTABLE"
storage_name pmdk_fs = codes "PMDK_FS"
storage_name posix = codes "POSIX"

unfoldable pub storage_of_name : Floats → Bytes → Result StorageType
storage_of_name fl name =
    if bytes_equal name (codes "PMDK_HASHTABLE")
    then ok pmdk_hashtable
    else if bytes_equal name (codes "PMDK_FS")
    then ok pmdk_fs
    else if bytes_equal name (codes "POSIX")
    then ok posix
    else throw_error fl invalid_storage_type (str name ∷ [])

-- `StorageFactory::get`: a new back end, over the libraries that it uses.
unfoldable pub get_storage :
    Floats → (P : Pmdk) → PoolLibrary P → (O : Os) → Libpmem O → StorageType → Storage
get_storage fl P B O M pmdk_hashtable = hashtable_storage fl P B
get_storage fl P B O M pmdk_fs = pmdk_fs_storage fl O M
get_storage fl P B O M posix = posix_storage fl O

-- Every name is either that of a type, to which it is converted, or that of none, and then the
-- conversion throws INVALID_STORAGE_TYPE.
pub storage_of_name-cases :
    (fl : Floats) (name : Bytes)
    → ((t : StorageType) × (storage_name t ≡ name) × (storage_of_name fl name ≡ ok t))
      ⊎ (((t : StorageType) → storage_name t ≢ name)
          × (storage_of_name fl name ≡ throw_error fl invalid_storage_type (str name ∷ [])))
unfolding storage_of_name storage_name
storage_of_name-cases fl name =
    let a = bytes_equal_iff name (codes "PMDK_HASHTABLE") in
    let b = bytes_equal_iff name (codes "PMDK_FS") in
    let c = bytes_equal_iff name (codes "POSIX") in
    elim (Bool-cases (bytes_equal name (codes "PMDK_HASHTABLE"))) [
      | inl yes_a ↦ inl (pmdk_hashtable, sym (a.0 yes_a), rw yes_a)
      | inr no_a ↦ elim (Bool-cases (bytes_equal name (codes "PMDK_FS"))) [
        | inl yes_b ↦ inl (pmdk_fs, sym (b.0 yes_b), rw (no_a, yes_b))
        | inr no_b ↦ elim (Bool-cases (bytes_equal name (codes "POSIX"))) [
          | inl yes_c ↦ inl (posix, sym (c.0 yes_c), rw (no_a, no_b, yes_c))
          | inr no_c ↦ inr (
            elim [
              | pmdk_hashtable ↦ λ h. cc (a.1 (sym h), no_a)
              | pmdk_fs ↦ λ h. cc (b.1 (sym h), no_b)
              | posix ↦ λ h. cc (c.1 (sym h), no_c)
            ],
            rw (no_a, no_b, no_c),
          )
        ]
      ]
    ]

-- The conversions between types and names are inverse on the types.
pub storage_of_name-storage_name :
    (fl : Floats) (t : StorageType) → storage_of_name fl (storage_name t) ≡ ok t
unfolding storage_of_name storage_name bytes_equal
storage_of_name-storage_name fl pmdk_hashtable = refl
storage_of_name-storage_name fl pmdk_fs = refl
storage_of_name-storage_name fl posix = refl
