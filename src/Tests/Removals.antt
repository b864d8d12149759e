-- ===== src/Tests/Removals.antt =====
-- `free` on the file system of names and numbered files.
use pmemcpy.Base.{
  ℕ, ◌≡◌, refl, sym, ap, ◌∙◌, false, Option, none, some, List, [], ◌∷◌, Bytes, codes, bytes_equal,
  bytes_equal_iff, drop, Bool-cases, inl, inr, arith,
}
use pmemcpy.Util.Serializeable.{str}
use pmemcpy.Util.Error.{ok, throw_error}
use pmemcpy.Util.Errors.{posix_find_failed}
use pmemcpy.Storage.Directory.{IsName, file_path, IsTidy, value_at}
use pmemcpy.Storage.Posix.{PosixStorage, free, find, reason}
use pmemcpy.Storage.Posix.Removing.{IsRemoval, free-find}
use pmemcpy.Tests.Machine.{floats}
use pmemcpy.Tests.Folders.{Folder, number_of, open_by, without, system}

number_of-without :
    (path q : Bytes) (names : List (Bytes × ℕ))
    → bytes_equal path q ≡ false
    → number_of (without path names) q ≡ number_of names q
number_of-without path q [] differ = refl
number_of-without path q (x ∷ xs) differ = elim (Bool-cases (bytes_equal x.0 path)) [
  | inl same ↦
      let other : bytes_equal x.0 q ≡ false =
        ap (λ (p : Bytes). bytes_equal p q) ((bytes_equal_iff x.0 path).0 same) ∙ differ in
      rw (same, other) (number_of-without path q xs differ)
  | inr apart ↦ rw (apart, number_of-without path q xs differ)
]

open_nothing_lem :
    (path : Bytes) (fs : Folder) (o : Option ℕ) → o ≡ none → open_by false path o fs ≡ (none, fs)
open_nothing_lem path fs o absent = rw absent

system-IsRemoval : IsRemoval system
system-IsRemoval = record {
  remove_paths = λ path q fs differ. number_of-without path q fs.names differ;
  remove_others = λ path fs i j there differ. refl;
  remove_nothing = λ path fs j absent. refl;
  open_nothing = λ path fs absent. open_nothing_lem path fs _ absent;
}

abbrev key : Bytes
key = codes "D"

-- A directory with one file.
abbrev one_file : PosixStorage system
one_file = record {
  path_prefix = codes "/d";
  files = record { names = (file_path (codes "/d") key, 1) ∷ []; heap = (1, some (7 ∷ [])) ∷ [] };
}

abbrev names : List (Bytes × ℕ)
names = (file_path (codes "/d") key, 1) ∷ []

one_file_number :
    (path : Bytes) (i : ℕ)
    → number_of names path ≡ some i
    → (1 ≡ i) × (file_path (codes "/d") key ≡ path)
one_file_number path i e = elim (Bool-cases (bytes_equal (file_path (codes "/d") key) path)) [
  | inl same ↦ (cc (rw same at e), (bytes_equal_iff (file_path (codes "/d") key) path).0 same)
  | inr differ ↦ absurd (cc (rw differ at e))
]

one_file-IsTidy : IsTidy system (codes "/d") one_file.files
one_file-IsTidy = record {
  whole = λ id i name there.
      let (number, same) = one_file_number (file_path (codes "/d") id) i there in
      (7 ∷ [], rw (← number) refl, omega arith);
  apart = λ id k i j name other differ at_id at_k.
      let (n, path_id) = one_file_number (file_path (codes "/d") id) i at_id in
      let (m, path_k) = one_file_number (file_path (codes "/d") k) j at_k in
      let same : id ≡ k = ap (λ (p : Bytes). drop 3 p) (sym path_id ∙ path_k) in
      absurd (cc ((bytes_equal_iff id k).1 same, differ));
}

free-find_example :
    (s' : PosixStorage system) × (free floats system key one_file ≡ (ok tt, s'))
    × IsTidy system s'.path_prefix s'.files
    × (value_at system s'.path_prefix s'.files key ≡ none)
    × (find floats system key s' ≡ (
      throw_error floats posix_find_failed
          (str s'.path_prefix ∷ str key ∷ reason floats system s'.files ∷ []),
      s',
    ))
    × ((k : Bytes)
        → IsName k
        → bytes_equal key k ≡ false
        → value_at system s'.path_prefix s'.files k ≡ value_at system (codes "/d") one_file.files k)
unfolding bytes_equal
free-find_example =
    free-find floats system system-IsRemoval one_file key one_file-IsTidy
      (((refl, refl), tt), λ e. cc, λ e. cc, λ e. cc) refl
