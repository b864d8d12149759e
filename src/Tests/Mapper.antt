-- ===== src/Tests/Mapper.antt =====
-- libpmem on the file system of names and numbered files.
use pmemcpy.Base.{
  ℕ, ◌≡◌, refl, ap, true, Option, none, some, Bytes, ==_refl, Option-cases, inl, inr, length,
}
use mathlib.Core.Path.{subst}
use mathlib.Core.Option.{some-injective}
use pmemcpy.Storage.Files.{resized}
use pmemcpy.Storage.Directory.{file_path}
use pmemcpy.Storage.Directory.Touching.{Touch-Change}
use pmemcpy.Storage.PmdkFs.{Libpmem, IsLibpmem}
use pmemcpy.Storage.PmdkFs.Implements.{IsMapper}
use pmemcpy.Tests.Machine.{contents}
use pmemcpy.Tests.Folders.{
  Folder, number_of, push, or_empty, system, opening, known_bytes, push-Change, Opening-Touch,
}

abbrev pub created : ℕ → Option (ℕ × ℕ) × Folder → Option ℕ × Folder
created n (none, fs) = (none, fs)
created n (some (d, i), fs) = (some i, push i (resized n (or_empty (contents fs.heap i))) fs)

abbrev pub whole_file : Folder → Option ℕ → Option (ℕ × ℕ)
whole_file fs none = none
whole_file fs (some i) = elim (contents fs.heap i) [
  | none ↦ none
  | some bytes ↦ some (i, length bytes)
]

abbrev pub mapper : Libpmem system
mapper = record {
  create_directory = λ path fs. some fs;
  map_create = λ path n fs. created n (system.open_file true path fs);
  map_whole = λ path fs. whole_file fs (number_of fs.names path);
  unset = 0;
}

created_cases :
    (n : ℕ) (r : Option (ℕ × ℕ) × Folder) (i : ℕ) (fs' : Folder)
    → created n r ≡ (some i, fs')
    → (d : ℕ) × (fs1 : Folder) × (r ≡ (some (d, i), fs1))
      × (push i (resized n (or_empty (contents fs1.heap i))) fs1 ≡ fs')
created_cases n (none, fs) i fs' e = absurd (cc)
created_cases n (some (d, j), fs) i fs' e =
    let number : j ≡ i = cc in (d, fs, rw number, rw (← number) (ap (λ x. x.1) e))

resized_lem :
    (n i : ℕ) (fs1 fs' : Folder) (old : Bytes)
    → contents fs1.heap i ≡ some old
    → push i (resized n (or_empty (contents fs1.heap i))) fs1 ≡ fs'
    → contents fs'.heap i ≡ some (resized n old)
resized_lem n i fs1 fs' old there e =
    subst (λ (x : Folder). contents x.heap i ≡ some (resized n old)) e
      (rw (==_refl i) (ap (λ (b : Bytes). some (resized n b)) (known_bytes fs1 i old there)))

whole_file_cases :
    (fs : Folder) (o : Option ℕ) (i n : ℕ)
    → whole_file fs o ≡ some (i, n)
    → (bytes : Bytes) × (o ≡ some i) × (contents fs.heap i ≡ some bytes) × (length bytes ≡ n)
whole_file_cases fs none i n e = absurd (cc)
whole_file_cases fs (some j) i n e = elim (Option-cases (contents fs.heap j)) [
  | inl gone ↦ absurd (cc (rw (gone, whole_file) at e))
  | inr (bytes, there) ↦
      let found = some-injective _ _ (rw (there, whole_file) at e) in
      let number : j ≡ i = ap (λ x. x.0) found in
      (bytes, ap some number, rw (← number) there, ap (λ x. x.1) found)
]

pub mapper-IsLibpmem : IsLibpmem system mapper
mapper-IsLibpmem = record {
  map_create_resizes = λ path n fs i fs' e.
      let (d, fs1, opened, after) = created_cases n _ i fs' e in
      let o = opening true path fs d i fs1 opened in
      (
        subst (λ (x : Folder). number_of x.names path ≡ some i) after o.named,
        resized_lem n i fs1 fs' _ o.holds after,
      );
  map_whole_size = λ path fs i n e. whole_file_cases fs _ i n e;
}

whole_file_there :
    (fs : Folder) (o : Option ℕ) (i : ℕ) (bytes : Bytes)
    → o ≡ some i
    → contents fs.heap i ≡ some bytes
    → whole_file fs o ≡ some (i, length bytes)
whole_file_there fs o i bytes named there = rw (named, there, whole_file)

pub mapper-IsMapper : IsMapper system mapper
mapper-IsMapper = record {
  map_create_touches = λ prefix id n fs i fs' name e.
      let (d, fs1, opened, after) = created_cases n _ i fs' e in
      Touch-Change system prefix id i fs fs1 fs'
        (Opening-Touch prefix id i fs fs1 (opening true (file_path prefix id) fs d i fs1 opened))
        (push-Change i _ fs1 fs' after);
  maps_there =
      λ path fs i bytes named there some_bytes. (refl, whole_file_there fs _ i bytes named there);
}
