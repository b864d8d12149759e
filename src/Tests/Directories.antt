-- ===== src/Tests/Directories.antt =====
-- The POSIX storage on a file system with one file, which every path names.
use pmemcpy.Base.{
  ℕ, ◌≡◌, refl, ap, ◌∙◌, true, Option, none, some, [], ◌∷◌, ◌++◌, Bytes, codes, length, take,
  take_all, drop, arith,
}
use pmemcpy.Util.Error.{ok}
use pmemcpy.Storage.Files.{Os, IsOs, held, resized}
use pmemcpy.Storage.Posix.{PosixStorage, store, load}
use pmemcpy.Storage.Posix.Reloading.{load_held, load-store_posix}
use pmemcpy.Tests.Machine.{floats}

-- The file's bytes, if it is there.
abbrev Files : Type 0
Files = Option Bytes

abbrev bytes_of : Files → Bytes
bytes_of none = []
bytes_of (some bytes) = bytes

abbrev system : Os
system = record {
  Files = Files;
  file = λ fs path. elim fs [ none ↦ none | some bytes ↦ some 0 ];
  contents = λ fs i. fs;
  exists = λ fs path. true;
  is_directory = λ fs path. true;
  mkdir = λ path fs. fs;
  open_file = λ create path fs. (some (3, 0), some (bytes_of fs));
  ftruncate = λ i n fs. some (some (resized n (bytes_of fs)));
  write = λ i src fs. (length src, some (src ++ drop (length src) (bytes_of fs)));
  read = λ i n fs. (n, take n (bytes_of fs));
  file_size = λ path fs. some (length (bytes_of fs));
  maps = λ i n fs. true;
  poke = λ i bytes fs. some bytes;
  remove = λ path fs. none;
  strerror = λ fs. [];
}

abbrev stored : PosixStorage system
stored = record { path_prefix = codes "/tmp"; files = some (1 ∷ 2 ∷ 3 ∷ []) }

open_names_lem :
    (path : Bytes) (fs : Files) (d i : ℕ) (fs' : Files)
    → ◌≡◌ {A = Option (ℕ × ℕ) × Files} (some (3, 0), some (bytes_of fs)) (some (d, i), fs')
    → (system.file fs' path ≡ some i) × (fs' ≡ some (held system fs path))
open_names_lem path none d i fs' e =
    let found : fs' ≡ some [] = cc in let zero_file : i ≡ 0 = cc in (rw (found, zero_file), found)
open_names_lem path (some bytes) d i fs' e =
    let found : fs' ≡ some bytes = cc in
    let zero_file : i ≡ 0 = cc in (rw (found, zero_file), found)

write_whole_lem :
    (src : Bytes) (fs fs' : Files) (n : ℕ) (old : Bytes)
    → ◌≡◌ {A = ℕ × Files} (n, some (src ++ drop (length src) (bytes_of fs))) (n, fs')
    → fs ≡ some old
    → (fs' ≡ some (src ++ drop (length src) old))
      × ((path : Bytes) → system.file fs' path ≡ system.file fs path)
write_whole_lem src none fs' n old e there = absurd cc
write_whole_lem src (some bytes) fs' n old e there =
    let found : fs' ≡ some (src ++ drop (length src) bytes) = cc in
    (
      found ∙ ap (λ (x : Files). some (src ++ drop (length src) (bytes_of x))) there,
      λ path. rw found,
    )

read_whole_lem :
    (fs : Files) (bytes got : Bytes)
    → fs ≡ some bytes
    → ◌≡◌ {A = ℕ × Bytes} (length bytes, take (length bytes) (bytes_of fs)) (length bytes, got)
    → got ≡ bytes
read_whole_lem fs bytes got there e =
    let same : got ≡ take (length bytes) (bytes_of fs) = cc in
    same
    ∙ ap (λ (x : Files). take (length bytes) (bytes_of x)) there
    ∙ take_all (length bytes) bytes (omega arith)

ftruncate_resizes_lem :
    (n : ℕ) (fs fs' : Files) (old : Bytes)
    → ◌≡◌ {A = Option Files} (some (some (resized n (bytes_of fs)))) (some fs')
    → fs ≡ some old
    → (fs' ≡ some (resized n old)) × ((path : Bytes) → system.file fs' path ≡ system.file fs path)
ftruncate_resizes_lem n none fs' old e there = absurd cc
ftruncate_resizes_lem n (some bytes) fs' old e there =
    let found : fs' ≡ some (resized n bytes) = cc in
    (found ∙ ap (λ (x : Files). some (resized n (bytes_of x))) there, λ path. rw found)

system-IsOs : IsOs system
system-IsOs = record {
  open_names = λ create path fs d i fs' e. open_names_lem path fs d i fs' e;
  write_whole = λ i src fs fs' old e there. write_whole_lem src fs fs' _ old e there;
  read_whole = λ i fs bytes got there e. read_whole_lem fs bytes got there e;
  ftruncate_resizes = λ i n fs fs' old e there. ftruncate_resizes_lem n fs fs' old e there;
  poke_contents = λ i bytes fs old there. (refl, λ path. rw there);
  file_size_length =
      λ path fs i bytes named there. ap (λ (x : Files). some (length (bytes_of x))) there;
}

abbrev longer : Bytes
longer = 7 ∷ 8 ∷ 9 ∷ 10 ∷ []

-- The last byte of the longer value stays.
load-store_posix_example :
    ((store floats system [] (7 ∷ 8 ∷ []) stored).0 ≡ ok tt)
    × (load floats system [] (store floats system [] (7 ∷ 8 ∷ []) stored).1 ≡ (
      ok (7 ∷ 8 ∷ 3 ∷ []),
      record { path_prefix = codes "/tmp"; files = some (7 ∷ 8 ∷ 3 ∷ []) },
    ))
load-store_posix_example =
    load-store_posix floats system system-IsOs stored [] (7 ∷ 8 ∷ []) 3 0 3 0 _ _ _ _ refl refl refl
      refl

abbrev empty : PosixStorage system
empty = record { path_prefix = codes "/tmp"; files = none }

-- A key that was never stored.
load_held_example :
    (load floats system [] empty ≡ (ok [], record { path_prefix = codes "/tmp"; files = some [] }))
    × (system.file (some []) (codes "/tmp/") ≡ some 0)
load_held_example = load_held floats system system-IsOs empty [] 3 0 _ _ refl refl
