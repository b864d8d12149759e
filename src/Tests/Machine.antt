-- ===== src/Tests/Machine.antt =====
-- Concrete libraries to run the model on.
use pmemcpy.Base.{
  ℕ, zero, suc, ◌+◌, ◌*◌, ◌/◌, ◌%◌, ◌≤◌, ◌≡◌, refl, sym, ap, ◌∙◌, true, false, Option, none, some,
  List, [], ◌∷◌, ◌++◌, append_assoc, Bytes, codes, ◌==◌, leb, if◌then◌else◌, length, take, drop,
  take-append, drop-append, replicate, length-replicate, ==_refl, inl, inr, Bool-cases, arith,
}
use mathlib.Core.Path.{subst}
use pmemcpy.Util.Numbers.{Floats}
use pmemcpy.Storage.Libpmemobj.{Pmdk, IsAllocator, PoolLibrary}
use pmemcpy.Serialize.Element.{Kind, d8, d16, d32, d64, u8, u16, u32, u64, f32, f64}
use pmemcpy.Serialize.CapnProto.{Message, value, arr, Capnp, IsCodec}

-- One floating-point number.
abbrev pub floats : Floats
floats = record {
  Float = Unit;
  Double = Unit;
  LongDouble = Unit;
  ratio = λ a b. tt;
  to_string_f32 = λ x. codes "1.0";
  to_string_f64 = λ x. codes "1.0";
  to_string_f96 = λ x. codes "1.0";
}

-- A heap as the list of its changes, the last one first.
abbrev pub Heap : Type 0
Heap = List (ℕ × Option Bytes)

abbrev pub contents : Heap → ℕ → Option Bytes
contents [] p = none
contents (x ∷ h) p = let rest = contents h p in if p == x.0 then x.1 else rest

-- An offset above all that were used.
abbrev pub fresh : Heap → ℕ
fresh [] = 1
fresh (x ∷ h) = suc (x.0 + fresh h)

-- An allocator of objects of at most `limit` bytes.
abbrev pub alloc : ℕ → ℕ → Heap → Option (ℕ × Heap)
alloc limit n h = if leb n limit then some (fresh h, (fresh h, some (replicate n 0)) ∷ h) else none

-- Integers in memory, the least significant byte first.
abbrev pub little_endian : ℕ → ℕ → Bytes
little_endian zero n = []
little_endian (suc k) n = (n % 256) ∷ little_endian k (n / 256)

abbrev pub little_endian_of : Bytes → ℕ
little_endian_of [] = 0
little_endian_of (c ∷ b) = c + 256 * little_endian_of b

-- The hash of a string is its length.
abbrev pub pmdk : ℕ → ℕ → Pmdk
pmdk limit pointer_size = record {
  Heap = Heap;
  contents = contents;
  alloc = alloc limit;
  poke = λ o bytes h. (o, some bytes) ∷ h;
  free = λ o h. (o, none) ∷ h;
  errormsg = λ h. codes "Out of memory";
  hash = length;
  pointer_size = pointer_size;
  uint64 = little_endian 8;
  uint64_of = little_endian_of;
  oid_bytes = λ o. little_endian 8 0 ++ little_endian 8 o;
}

pub contents_fresh : (h : Heap) (o : ℕ) → fresh h ≤ o → contents h o ≡ none
contents_fresh [] o above = refl
contents_fresh (x ∷ h) o above =
    let differ : (o == x.0) ≡ false = ground arith in rw differ (contents_fresh h o (omega arith))

alloc_result :
    (limit n : ℕ) (h : Heap) (o : ℕ) (h' : Heap)
    → alloc limit n h ≡ some (o, h')
    → (o ≡ fresh h) × (h' ≡ (fresh h, some (replicate n 0)) ∷ h)
alloc_result limit n h o h' e = elim (Bool-cases (leb n limit)) [
  | inl room ↦ let f = rw room at e in (cc, cc)
  | inr full ↦ let f = rw full at e in absurd cc
]

pair :
    (o : ℕ) (h : Heap) (o' : ℕ) (h' : Heap) → o ≡ o' → h ≡ h' → ◌≡◌ {A = ℕ × Heap} (o, h) (o', h')
pair o h o' h' a b = rw (a, b)

pub pmdk-IsAllocator : (limit pointer_size : ℕ) → IsAllocator (pmdk limit pointer_size)
pmdk-IsAllocator limit pointer_size = record {
  alloc_fresh = λ n h o h' a.
      let (same, e) = alloc_result limit n h o h' a in contents_fresh h o (omega arith);
  alloc_new = λ n h o h' a.
      let (same, e) = alloc_result limit n h o h' a in
      (
        replicate n 0,
        subst (λ (x : ℕ × Heap). contents x.1 x.0 ≡ some (replicate n 0))
            (sym (pair o h' (fresh h) _ same e)) (rw (==_refl (fresh h))),
        length-replicate n 0,
      );
  alloc_other = λ n h o h' a p differ.
      let (same, e) = alloc_result limit n h o h' a in
      let apart : (p == fresh h) ≡ false = rw same at differ in
      ap (λ (x : Heap). contents x p) e ∙ rw apart;
  contents_poke = λ o bytes h p. refl;
  contents_free = λ o h p. refl;
}

abbrev pub pools : PoolLibrary (pmdk 1000 600)
pools = record {
  create = λ path n. some [];
  opens = λ path h. true;
  zalloc = λ n h. some h;
  strerror = λ path. codes "No such file or directory";
  min_pool = 8388608;
  header_size = 24;
  list_size = 32;
  table_size = 8;
}

-- A codec that writes the kind, the member of the union and the number of its values, and each value
-- behind its length.
abbrev code : Kind → ℕ
code d8 = 0
code d16 = 1
code d32 = 2
code d64 = 3
code u8 = 4
code u16 = 5
code u32 = 6
code u64 = 7
code f32 = 8
code f64 = 9

abbrev at : List Kind → ℕ → Kind
at [] n = f64
at (k ∷ ks) zero = k
at (k ∷ ks) (suc n) = at ks n

abbrev kind : ℕ → Kind
kind = at (d8 ∷ d16 ∷ d32 ∷ d64 ∷ u8 ∷ u16 ∷ u32 ∷ u64 ∷ f32 ∷ [])

kind-code : (k : Kind) → kind (code k) ≡ k
kind-code d8 = refl
kind-code d16 = refl
kind-code d32 = refl
kind-code d64 = refl
kind-code u8 = refl
kind-code u16 = refl
kind-code u32 = refl
kind-code u64 = refl
kind-code f32 = refl
kind-code f64 = refl

abbrev pub write_strings : List Bytes → Bytes
write_strings [] = []
write_strings (x ∷ xs) = length x ∷ (x ++ write_strings xs)

abbrev pub cons : Bytes → Option (List Bytes) → Option (List Bytes)
cons x none = none
cons x (some xs) = some (x ∷ xs)

abbrev pub read_strings : ℕ → Bytes → Option (List Bytes)
read_strings zero b = some []
read_strings (suc n) [] = none
read_strings (suc n) (len ∷ b) = cons (take len b) (read_strings n (drop len b))

pub read_strings-write_strings :
    (xs : List Bytes) (rest : Bytes) → read_strings (length xs) (write_strings xs ++ rest) ≡ some xs
read_strings-write_strings [] rest = refl
read_strings-write_strings (x ∷ xs) rest = rw (
  append_assoc x (write_strings xs) rest,
  take-append x (write_strings xs ++ rest),
  drop-append x (write_strings xs ++ rest),
  read_strings-write_strings xs rest,
)

abbrev write : Message → Bytes
write (value k x) = code k ∷ 0 ∷ 1 ∷ write_strings (x ∷ [])
write (arr k xs) = code k ∷ 1 ∷ length xs ∷ write_strings xs

abbrev assemble : Kind → ℕ → Option (List Bytes) → Option Message
assemble k t none = none
assemble k zero (some []) = none
assemble k zero (some (x ∷ xs)) = some (value k x)
assemble k (suc t) (some xs) = some (arr k xs)

abbrev read : Bytes → Option Message
read (c ∷ t ∷ n ∷ b) = assemble (kind c) t (read_strings n b)
read _ = none

read-write : (m : Message) (rest : Bytes) → read (write m ++ rest) ≡ some m
read-write (value k x) rest =
    ap (assemble (kind (code k)) zero) (read_strings-write_strings (x ∷ []) rest)
    ∙ ap (λ (j : Kind). some (value j x)) (kind-code k)
read-write (arr k xs) rest = rw (read_strings-write_strings xs rest, kind-code k)

abbrev pub capnp : Capnp
capnp = record {
  builds = λ m. true;
  write_packed_message = write;
  packed_message_reader = read;
  write_message = write;
  flat_array_message_reader = read;
  behind = λ src. replicate 7 255;
}

pub capnp-IsCodec : IsCodec capnp
capnp-IsCodec = record {
  packed = λ m rest b. read-write m rest;
  flat = λ m rest b. read-write m rest;
}
