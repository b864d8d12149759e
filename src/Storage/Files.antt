-- ===== src/Storage/Files.antt =====
-- What the file-based storage uses of the operating system and of boost::filesystem. A file has a
-- number of its own; a descriptor or a mapping is to a file, whatever becomes of its path.
use pmemcpy.Base.{
  ℕ, ◌≡◌, Bool, Option, none, some, [], ◌++◌, Bytes, length, drop, take, replicate, ◌-◌,
  length-append, length-take, length-replicate, arith,
}

pub record Os : Type 1 where
  pub Files : Type 0
  -- The file that a path names, and its bytes.
  pub file : Files → Bytes → Option ℕ
  pub contents : Files → ℕ → Option Bytes
  pub exists : Files → Bytes → Bool
  pub is_directory : Files → Bytes → Bool
  pub mkdir : Bytes → Files → Files
  -- open, with O_CREAT or without: the descriptor and its file, or -1.
  pub open_file : Bool → Bytes → Files → Option (ℕ × ℕ) × Files
  pub ftruncate : ℕ → ℕ → Files → Option Files
  -- write and read at the start of a file; the results are converted to `size_t`.
  pub write : ℕ → Bytes → Files → ℕ × Files
  pub read : ℕ → ℕ → Files → ℕ × Bytes
  pub file_size : Bytes → Files → Option ℕ
  -- Whether so many bytes of a file can be mapped, and a store through a shared mapping.
  pub maps : ℕ → ℕ → Files → Bool
  pub poke : ℕ → Bytes → Files → Files
  pub remove : Bytes → Files → Files
  pub strerror : Files → Bytes

-- A file of a new size.
abbrev pub resized : ℕ → Bytes → Bytes
resized n old = take n old ++ replicate (n - length old) 0

pub length-resized : (n : ℕ) (old : Bytes) → length (resized n old) ≡ n
length-resized n old = omega (
  arith,
  length-append {0} (take n old) (replicate (n - length old) 0),
  length-take {0} n old,
  length-replicate {A = ℕ} (n - length old) 0,
)

module _ (O : Os) where
  -- The bytes of the file at a path; there are none if there is no file.
  abbrev pub held : O.Files → Bytes → Bytes
  held fs path = elim (O.file fs path) [
    | none ↦ []
    | some i ↦ elim (O.contents fs i) [ none ↦ [] | some bytes ↦ bytes ]
  ]

  -- What POSIX says of these calls where they succeed.
  pub record IsOs : Type 0 where
    -- An opened file is the one that the path names; a created one is empty.
    pub open_names :
        (create : Bool) (path : Bytes) (fs : O.Files) (d i : ℕ) (fs' : O.Files)
        → O.open_file create path fs ≡ (some (d, i), fs')
        → (O.file fs' path ≡ some i) × (O.contents fs' i ≡ some (held fs path))
    -- A complete write replaces as many bytes as it writes; paths keep their files.
    pub write_whole :
        (i : ℕ) (src : Bytes) (fs fs' : O.Files) (old : Bytes)
        → O.write i src fs ≡ (length src, fs')
        → O.contents fs i ≡ some old
        → (O.contents fs' i ≡ some (src ++ drop (length src) old))
          × ((path : Bytes) → O.file fs' path ≡ O.file fs path)
    -- A complete read of a whole file gives its bytes.
    pub read_whole :
        (i : ℕ) (fs : O.Files) (bytes got : Bytes)
        → O.contents fs i ≡ some bytes
        → O.read i (length bytes) fs ≡ (length bytes, got)
        → got ≡ bytes
    pub file_size_length :
        (path : Bytes) (fs : O.Files) (i : ℕ) (bytes : Bytes)
        → O.file fs path ≡ some i
        → O.contents fs i ≡ some bytes
        → O.file_size path fs ≡ some (length bytes)
    -- A resized file keeps its first bytes and is filled up with NUL bytes; paths keep their files.
    pub ftruncate_resizes :
        (i n : ℕ) (fs fs' : O.Files) (old : Bytes)
        → O.ftruncate i n fs ≡ some fs'
        → O.contents fs i ≡ some old
        → (O.contents fs' i ≡ some (resized n old))
          × ((path : Bytes) → O.file fs' path ≡ O.file fs path)
    -- A store through a shared mapping is one to the file; paths keep their files.
    pub poke_contents :
        (i : ℕ) (bytes : Bytes) (fs : O.Files) (old : Bytes)
        → O.contents fs i ≡ some old
        → (O.contents (O.poke i bytes fs) i ≡ some bytes)
          × ((path : Bytes) → O.file (O.poke i bytes fs) path ≡ O.file fs path)
