-- ===== src/Storage/Directory.antt =====
-- Keys as names in a directory: what a storage with a file for each key needs of the operating
-- system.
pub mod Touching
use pmemcpy.Base.{
  drop, drop-append, ℕ, ◌<◌, ◌≡◌, ◌≢◌, sym, ap, ◌∙◌, inl, inr, Bool, true, false, Option, none,
  some, [], ◌++◌, Bytes, codes, ◌==◌, ==_iff, ==_symm, All, bytes_equal, bytes_equal_iff,
  Bool-cases, Option-cases, length,
}
use mathlib.Core.Option.{some-injective}
use pmemcpy.Storage.Files.{Os}

-- A name in a directory: not empty, no slash, no NUL, and neither of the two that stand for directories.
abbrev pub IsName : Bytes → Type 0
IsName id =
    All (λ c. ((c == 0) ≡ false) × ((c == b'/') ≡ false)) id
    × (id ≢ [])
    × (id ≢ codes ".")
    × (id ≢ codes "..")

abbrev pub file_path : Bytes → Bytes → Bytes
file_path prefix id = prefix ++ (codes "/" ++ id)

-- Paths of different names differ.
pub paths_differ :
    (prefix id k : Bytes)
    → bytes_equal id k ≡ false
    → bytes_equal (file_path prefix id) (file_path prefix k) ≡ false
paths_differ prefix id k differ =
    elim (Bool-cases (bytes_equal (file_path prefix id) (file_path prefix k))) [
      | inr apart ↦ apart
      | inl one ↦
          let both = (bytes_equal_iff (file_path prefix id) (file_path prefix k)).0 one in
          let tails : codes "/" ++ id ≡ codes "/" ++ k =
            sym (drop-append prefix (codes "/" ++ id))
            ∙ ap (drop (length prefix)) both
            ∙ drop-append prefix (codes "/" ++ k) in
          let same : id ≡ k = ap (drop 1) tails in
          absurd (cc ((bytes_equal_iff id k).1 same, differ))
    ]

module _ (O : Os) where
  -- What a call does that opens, and may create, the file of one name: the file is the name's, or a
  -- new one, and neither other names nor other files change.
  pub record Touch (prefix id : Bytes) (i : ℕ) (fs fs' : O.Files) : Type 0 where
    pub same_file : (j : ℕ) → O.file fs (file_path prefix id) ≡ some j → i ≡ j
    pub new_file : O.file fs (file_path prefix id) ≡ none → O.contents fs i ≡ none
    pub paths :
        (k : Bytes)
        → IsName k
        → bytes_equal id k ≡ false
        → O.file fs' (file_path prefix k) ≡ O.file fs (file_path prefix k)
    pub others : (j : ℕ) → (j == i) ≡ false → O.contents fs' j ≡ O.contents fs j

  -- What a call does that changes one file's bytes.
  pub record Change (i : ℕ) (fs fs' : O.Files) : Type 0 where
    pub paths : (path : Bytes) → O.file fs' path ≡ O.file fs path
    pub others : (j : ℕ) → (j == i) ≡ false → O.contents fs' j ≡ O.contents fs j

  -- What POSIX says of files other than the one of a call.
  pub record IsDirectory : Type 0 where
    pub open_touches :
        (create : Bool) (prefix id : Bytes) (fs : O.Files) (d i : ℕ) (fs' : O.Files)
        → IsName id
        → O.open_file create (file_path prefix id) fs ≡ (some (d, i), fs')
        → Touch prefix id i fs fs'
    pub write_changes :
        (i n : ℕ) (src : Bytes) (fs fs' : O.Files) → O.write i src fs ≡ (n, fs') → Change i fs fs'
    pub ftruncate_changes :
        (i n : ℕ) (fs fs' : O.Files) → O.ftruncate i n fs ≡ some fs' → Change i fs fs'
    pub poke_changes : (i : ℕ) (bytes : Bytes) (fs : O.Files) → Change i fs (O.poke i bytes fs)

  -- An operating system on which calls on files that are there do not fail for want of resources.
  pub record IsReliable : Type 0 where
    pub opens :
        (create : Bool) (path : Bytes) (fs : O.Files) (i : ℕ) (bytes : Bytes)
        → O.file fs path ≡ some i
        → O.contents fs i ≡ some bytes
        → (d : ℕ) × (O.open_file create path fs ≡ (some (d, i), fs))
    pub reads :
        (i : ℕ) (fs : O.Files) (bytes : Bytes)
        → O.contents fs i ≡ some bytes
        → O.read i (length bytes) fs ≡ (length bytes, bytes)
    pub maps_whole :
        (i : ℕ) (fs : O.Files) (bytes : Bytes)
        → O.contents fs i ≡ some bytes
        → 0 < length bytes
        → O.maps i (length bytes) fs ≡ true

  -- The bytes of the file of a key, which is its value.
  unfoldable pub value_at : Bytes → O.Files → Bytes → Option Bytes
  value_at prefix fs id = elim (O.file fs (file_path prefix id)) [
    | none ↦ none
    | some i ↦ O.contents fs i
  ]

  -- Every file of the directory has bytes, and no file has two names.
  pub record IsTidy (prefix : Bytes) (fs : O.Files) : Type 0 where
    pub whole :
        (id : Bytes) (i : ℕ)
        → IsName id
        → O.file fs (file_path prefix id) ≡ some i
        → (bytes : Bytes) × (O.contents fs i ≡ some bytes) × (0 < length bytes)
    pub apart :
        (id k : Bytes) (i j : ℕ)
        → IsName id
        → IsName k
        → bytes_equal id k ≡ false
        → O.file fs (file_path prefix id) ≡ some i
        → O.file fs (file_path prefix k) ≡ some j
        → (j == i) ≡ false
