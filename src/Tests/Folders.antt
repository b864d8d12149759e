-- ===== src/Tests/Folders.antt =====
-- A file system of names and numbered files, on which calls do not fail.
use pmemcpy.Base.{
  ℕ, ◌≡◌, refl, sym, ap, ◌∙◌, Bool, true, false, Option, none, some, List, [], ◌∷◌, ◌++◌, Bytes,
  ◌==◌, ==_refl, bytes_equal, bytes_equal_refl, if◌then◌else◌, length, take, take_all, drop, arith,
}
use mathlib.Core.Path.{subst}
use mathlib.Core.Option.{some-injective}
use pmemcpy.Storage.Files.{Os, IsOs, held, resized}
use pmemcpy.Storage.Directory.{paths_differ, file_path, Touch, Change, IsDirectory, IsReliable}
use pmemcpy.Tests.Machine.{Heap, contents, fresh, contents_fresh}

pub record Folder : Type 0 where
  pub names : List (Bytes × ℕ)
  pub heap : Heap

abbrev pub number_of : List (Bytes × ℕ) → Bytes → Option ℕ
number_of [] path = none
number_of (x ∷ xs) path =
    let rest = number_of xs path in if bytes_equal x.0 path then some x.1 else rest

abbrev pub push : ℕ → Bytes → Folder → Folder
push i bytes fs = record { names = fs.names; heap = (i, some bytes) ∷ fs.heap }

abbrev pub or_empty : Option Bytes → Bytes
or_empty none = []
or_empty (some bytes) = bytes

abbrev pub open_known : ℕ → Option Bytes → Folder → Option (ℕ × ℕ) × Folder
open_known i none fs = (some (3, i), push i [] fs)
open_known i (some bytes) fs = (some (3, i), fs)

abbrev pub open_by : Bool → Bytes → Option ℕ → Folder → Option (ℕ × ℕ) × Folder
open_by create path (some i) fs = open_known i (contents fs.heap i) fs
open_by true path none fs = (
  some (3, fresh fs.heap),
  record { names = (path, fresh fs.heap) ∷ fs.names; heap = (fresh fs.heap, some []) ∷ fs.heap },
)
open_by false path none fs = (none, fs)

abbrev pub without : Bytes → List (Bytes × ℕ) → List (Bytes × ℕ)
without path [] = []
without path (x ∷ xs) =
    let rest = without path xs in if bytes_equal x.0 path then rest else x ∷ rest

abbrev pub size_at : Folder → Option ℕ → Option ℕ
size_at fs none = none
size_at fs (some i) = some (length (or_empty (contents fs.heap i)))

abbrev pub system : Os
system = record {
  Files = Folder;
  file = λ fs path. number_of fs.names path;
  contents = λ fs i. contents fs.heap i;
  exists = λ fs path. true;
  is_directory = λ fs path. true;
  mkdir = λ path fs. fs;
  open_file = λ create path fs. open_by create path (number_of fs.names path) fs;
  ftruncate = λ i n fs. some (push i (resized n (or_empty (contents fs.heap i))) fs);
  write = λ i src fs.
      (length src, push i (src ++ drop (length src) (or_empty (contents fs.heap i))) fs);
  read = λ i n fs. (n, take n (or_empty (contents fs.heap i)));
  file_size = λ path fs. size_at fs (number_of fs.names path);
  maps = λ i n fs. true;
  poke = push;
  remove = λ path fs. record { names = without path fs.names; heap = fs.heap };
  strerror = λ fs. [];
}

-- What an opening of a file does.
pub record Opening (fs : Folder) (path : Bytes) (i : ℕ) (fs' : Folder) : Type 0 where
  pub named : number_of fs'.names path ≡ some i
  pub holds : contents fs'.heap i ≡ some (held system fs path)
  pub same : (j : ℕ) → number_of fs.names path ≡ some j → i ≡ j
  pub new : number_of fs.names path ≡ none → contents fs.heap i ≡ none
  pub paths :
      (q : Bytes) → bytes_equal path q ≡ false → number_of fs'.names q ≡ number_of fs.names q
  pub others : (j : ℕ) → (j == i) ≡ false → contents fs'.heap j ≡ contents fs.heap j

open_known-Opening :
    (fs : Folder) (path : Bytes) (i : ℕ) (c : Option Bytes) (d j : ℕ) (fs' : Folder)
    → number_of fs.names path ≡ some i
    → contents fs.heap i ≡ c
    → open_known i c fs ≡ (some (d, j), fs')
    → Opening fs path j fs'
open_known-Opening fs path i none d j fs' n c e =
    let number : i ≡ j = cc in
    let after : push i [] fs ≡ fs' = cc in
    subst (Opening fs path j) after (
      subst (λ (x : ℕ). Opening fs path x (push i [] fs)) number
        (record {
          named = n;
          holds = rw (==_refl i, held, n, c);
          same = λ k at. some-injective i k (sym n ∙ at);
          new = λ at. c;
          paths = λ q differ. refl;
          others = λ k differ. rw differ;
        }))
open_known-Opening fs path i (some bytes) d j fs' n c e =
    let number : i ≡ j = cc in
    let after : fs ≡ fs' = cc in
    subst (Opening fs path j) after (
      subst (λ (x : ℕ). Opening fs path x fs) number
        (record {
          named = n;
          holds = rw (held, n, c);
          same = λ k at. some-injective i k (sym n ∙ at);
          new = λ at. absurd (cc (sym n ∙ at));
          paths = λ q differ. refl;
          others = λ k differ. refl;
        }))

open_by-Opening :
    (create : Bool) (path : Bytes) (o : Option ℕ) (fs : Folder) (d i : ℕ) (fs' : Folder)
    → number_of fs.names path ≡ o
    → open_by create path o fs ≡ (some (d, i), fs')
    → Opening fs path i fs'
open_by-Opening create path (some n) fs d i fs' at e =
    open_known-Opening fs path n _ d i fs' at refl e
open_by-Opening true path none fs d i fs' at e =
    let number : fresh fs.heap ≡ i = cc in
    let made : Folder = record {
      names = (path, fresh fs.heap) ∷ fs.names;
      heap = (fresh fs.heap, some []) ∷ fs.heap;
    } in
    let after : made ≡ fs' = cc in
    subst (Opening fs path i) after (
      subst (λ (x : ℕ). Opening fs path x made) number
        (record {
          named = rw (bytes_equal_refl path);
          holds = rw (==_refl (fresh fs.heap), held, at);
          same = λ k there. absurd (cc (sym at ∙ there));
          new = λ there. contents_fresh fs.heap (fresh fs.heap) (omega arith);
          paths = λ q differ. rw differ;
          others = λ k differ. rw differ;
        }))
open_by-Opening false path none fs d i fs' at e = absurd (cc)

pub opening :
    (create : Bool) (path : Bytes) (fs : Folder) (d i : ℕ) (fs' : Folder)
    → system.open_file create path fs ≡ (some (d, i), fs')
    → Opening fs path i fs'
opening create path fs d i fs' e = open_by-Opening create path _ fs d i fs' refl e

pub known_bytes :
    (fs : Folder) (i : ℕ) (old : Bytes)
    → contents fs.heap i ≡ some old
    → or_empty (contents fs.heap i) ≡ old
known_bytes fs i old there = rw there

size_at_lem :
    (fs : Folder) (o : Option ℕ) (i : ℕ) (bytes : Bytes)
    → o ≡ some i
    → contents fs.heap i ≡ some bytes
    → size_at fs o ≡ some (length bytes)
size_at_lem fs o i bytes named there = rw (named, there)

pub system-IsOs : IsOs system
system-IsOs = record {
  open_names =
      λ create path fs d i fs' e. let o = opening create path fs d i fs' e in (o.named, o.holds);
  write_whole = λ i src fs fs' old e there.
      let after : push i (src ++ drop (length src) (or_empty (contents fs.heap i))) fs ≡ fs' = cc in
      subst
        (λ (x : Folder).
          (contents x.heap i ≡ some (src ++ drop (length src) old))
          × ((path : Bytes) → number_of x.names path ≡ number_of fs.names path))
        after (rw (==_refl i, known_bytes fs i old there), λ path. refl);
  read_whole = λ i fs bytes got there e.
      let same : take (length bytes) (or_empty (contents fs.heap i)) ≡ got = cc in
      sym same
      ∙ ap (take (length bytes)) (known_bytes fs i bytes there)
      ∙ take_all (length bytes) bytes (omega arith);
  file_size_length = λ path fs i bytes named there. size_at_lem fs _ i bytes named there;
  ftruncate_resizes = λ i n fs fs' old e there.
      let after : push i (resized n (or_empty (contents fs.heap i))) fs ≡ fs' =
        some-injective _ _ e in
      subst
        (λ (x : Folder).
          (contents x.heap i ≡ some (resized n old))
          × ((path : Bytes) → number_of x.names path ≡ number_of fs.names path))
        after
        (
          rw (==_refl i) (ap (λ (b : Bytes). some (resized n b)) (known_bytes fs i old there)),
          λ path. refl,
        );
  poke_contents = λ i bytes fs old there. (rw (==_refl i), λ path. refl);
}

pub push-Change :
    (i : ℕ) (bytes : Bytes) (fs fs' : Folder) → push i bytes fs ≡ fs' → Change system i fs fs'
push-Change i bytes fs fs' e =
    subst (Change system i fs) e (record { paths = λ path. refl; others = λ j differ. rw differ })

pub Opening-Touch :
    (prefix id : Bytes) (i : ℕ) (fs fs' : Folder)
    → Opening fs (file_path prefix id) i fs'
    → Touch system prefix id i fs fs'
Opening-Touch prefix id i fs fs' o = record {
  same_file = o.same;
  new_file = o.new;
  paths = λ k n differ. o.paths (file_path prefix k) (paths_differ prefix id k differ);
  others = o.others;
}

pub system-IsDirectory : IsDirectory system
system-IsDirectory = record {
  open_touches = λ create prefix id fs d i fs' name e.
      Opening-Touch prefix id i fs fs' (opening create (file_path prefix id) fs d i fs' e);
  write_changes = λ i n src fs fs' e. push-Change i _ fs fs' (ap (λ x. x.1) e);
  ftruncate_changes = λ i n fs fs' e. push-Change i _ fs fs' (some-injective _ _ e);
  poke_changes = λ i bytes fs. push-Change i bytes fs (push i bytes fs) refl;
}

open_there :
    (create : Bool) (path : Bytes) (fs : Folder) (o : Option ℕ) (i : ℕ) (bytes : Bytes)
    → o ≡ some i
    → contents fs.heap i ≡ some bytes
    → open_by create path o fs ≡ (some (3, i), fs)
open_there create path fs o i bytes named there = rw (named, there)

pub system-IsReliable : IsReliable system
system-IsReliable = record {
  opens =
      λ create path fs i bytes named there. (3, open_there create path fs _ i bytes named there);
  reads = λ i fs bytes there.
      rw (known_bytes fs i bytes there, take_all (length bytes) bytes (omega arith));
  maps_whole = λ i fs bytes there some_bytes. refl;
}
