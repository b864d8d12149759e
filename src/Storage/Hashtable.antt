-- ===== src/Storage/Hashtable.antt =====
-- include/pmemcpy/storage/pmdk_hashtable.h: the operations on an open pool.
-- A pool is its allocator's heap and the table that its root object points to. The bucket lists,
-- which libpmemobj links through the entries, are the sequences of their entries; the buckets are
-- a function of the index, read and written only below `nbuckets`.
pub mod Keys
pub mod Chains
pub mod Reading
pub mod Latest
mod Inserting
mod Removing
pub mod Storing
pub mod Freeing
pub mod Sessions
pub mod Object
pub mod Crash
use pmemcpy.Base.{
  ℕ, zero, suc, ◌+◌, ◌-◌, ◌++◌, take, drop, ◌%◌, Bool, true, false, ◌&&◌, Option, none, some, List,
  [], ◌∷◌, Bytes, ltb, leb, ◌==◌, if◌then◌else◌, length, write_at, read_at,
}
use pmemcpy.Util.Numbers.{Floats}
use pmemcpy.Util.Serializeable.{Arg, str, u64, obj, size_of, mb}
use pmemcpy.Util.Error.{Result, ok, throw, raise, fault, throw_error, build_error}
use pmemcpy.Util.Errors.{pmdk_cant_find_key, pmdk_cant_allocate_str, pmdk_cant_allocate_obj}
use pmemcpy.Storage.Libpmemobj.{Pmdk}
use pmemcpy.Storage.Action.{Action, ◌>>=◌, ◌>>◌, next, lift}

-- The layout `objstore`: its root and its types of objects, with the numbers that libpmemobj knows
-- them by, which are counted in the order of the declarations.
pub data ObjectType : Type 0 where
  header_type pointer_type pointer_table_type char_type : ObjectType

unfoldable pub type_num : ObjectType → ℕ
type_num header_type = 0
type_num pointer_type = 1
type_num pointer_table_type = 2
type_num char_type = 3

-- `struct PMEMPointer`, with the offset of its object. `id` holds the `id_len` bytes of the entry from
-- its array of 512 on; `data` is the offset of the value's object.
pub record PmemPointer : Type 0 where
  pub oid : ℕ
  pub id_len : ℕ
  pub id : Bytes
  pub len : ℕ
  pub data_oid : ℕ

abbrev pub id_capacity : ℕ
id_capacity = 512

-- `struct PMEMListArgs`
pub record PmemListArgs : Type 0 where
  pub id_len : ℕ
  pub id : Bytes
  pub len : ℕ
  pub data_oid : ℕ

pub record PmemPointerTable : Type 0 where
  pub nbuckets : ℕ
  pub buckets : ℕ → List PmemPointer

-- `pmem_buffer` over an object of the pool: where it is and how many bytes of it are meant.
pub record PmemBuffer : Type 0 where
  pub buf : ℕ
  pub size : ℕ

pub record Pool (P : Pmdk) : Type 0 where
  pub heap : P.Heap
  pub table : Option PmemPointerTable

-- `strncmp(a, b, n) == 0`: a NUL in both ends the comparison. A string reads as NUL behind its end.
unfoldable pub strncmp_equal : ℕ → Bytes → Bytes → Bool
strncmp_equal zero a b = true
strncmp_equal (suc n) [] [] = true
strncmp_equal (suc n) [] (d ∷ b) = d == 0
strncmp_equal (suc n) (c ∷ a) [] = c == 0
strncmp_equal (suc n) (c ∷ a) (d ∷ b) =
    let rest = strncmp_equal n a b in if c == d then (if c == 0 then true else rest) else false

-- The test of the loop in `_find`.
unfoldable pub is_entry : Bytes → PmemPointer → Bool
is_entry id e = e.id_len == length id && strncmp_equal e.id_len e.id id

-- POBJ_LIST_FOREACH over a bucket, left at the first entry of the key.
unfoldable pub find_entry : Bytes → List PmemPointer → Option PmemPointer
unfolding is_entry
find_entry id [] = none
find_entry id (e ∷ c) = let rest = find_entry id c in if is_entry id e then some e else rest

-- POBJ_LIST_REMOVE: the list without the entry.
unfoldable pub remove_entry : ℕ → List PmemPointer → List PmemPointer
remove_entry oid [] = []
remove_entry oid (e ∷ c) = let rest = e ∷ remove_entry oid c in if e.oid == oid then c else rest

abbrev pub set_bucket : ℕ → List PmemPointer → PmemPointerTable → PmemPointerTable
set_bucket i c t = record t { buckets = λ j. if i == j then c else t.buckets j }

-- The sizes of `len` and of `data`, which stand behind `id` at the end of the entry.
abbrev pub len_size : ℕ
len_size = 8

abbrev pub data_size : ℕ
data_size = 16

abbrev pub id_room : ℕ
id_room = id_capacity + len_size + data_size

-- The arguments that `alloc` and `store` hand to `_add`.
abbrev pub list_args : Bytes → ℕ → ℕ → PmemListArgs
list_args id len o = record { id_len = length id; id = id; len = len; data_oid = o }

-- `_add`. An `id` longer than the array is written over `len` first, then over `data`, and then past the
-- end of the entry. `data` is written after it; the `id_len` bytes from `id` on then have the new `data`.
module _ (P : Pmdk) where
  abbrev pub overwritten_len : PmemListArgs → ℕ
  overwritten_len info =
      let tail = take len_size (drop id_capacity info.id) in
      P.uint64_of (tail ++ drop (length tail) (P.uint64 info.len))

  abbrev pub overlong_id : PmemListArgs → Bytes
  overlong_id info =
      take (id_capacity + len_size) info.id
      ++ take (info.id_len - (id_capacity + len_size)) (P.oid_bytes info.data_oid)

  unfoldable pub add : PmemListArgs → ℕ → Result PmemPointer
  add info oid =
      if leb info.id_len id_capacity
      then ok (record {
        oid = oid;
        id_len = info.id_len;
        id = info.id;
        len = info.len;
        data_oid = info.data_oid;
      })
      else if leb info.id_len id_room
      then ok (record {
        oid = oid;
        id_len = info.id_len;
        id = overlong_id info;
        len = overwritten_len info;
        data_oid = info.data_oid;
      })
      else fault

module _ (fl : Floats) (P : Pmdk) where
  -- `_hashfun`, under the `nbuckets_` of the storage object; a remainder by 0 faults.
  unfoldable pub hashfun : ℕ → Bytes → Result ℕ
  hashfun nbuckets id = if nbuckets == 0 then fault else ok (P.hash id % nbuckets)

  -- BUCKET_RW: the table of the root, and the bucket at an index of it.
  unfoldable pub bucket : ℕ → Pool P → Result (PmemPointerTable × List PmemPointer)
  bucket i p = elim p.table [
    | none ↦ fault
    | some t ↦ if ltb i t.nbuckets then ok (t, t.buckets i) else fault
  ]

  -- `memcpy` into an object of the pool.
  unfoldable pub copy_to : ℕ → Bytes → Action (Pool P) (Unit {0})
  copy_to o src p = elim (P.contents p.heap o) [
    | none ↦ (fault, p)
    | some old ↦ elim (write_at 0 src old) [
      | none ↦ (fault, p)
      | some bytes ↦ (ok tt, record p { heap = P.poke o bytes p.heap })
    ]
  ]

  -- `_stralloc(size)`
  unfoldable pub stralloc : ℕ → Action (Pool P) ℕ
  stralloc size p = elim (P.alloc size p.heap) [
    | none ↦ (
      throw_error fl pmdk_cant_allocate_str
          (obj (size_of fl size mb) ∷ str (P.errormsg p.heap) ∷ []),
      p,
    )
    | some (o, heap) ↦ (ok o, record p { heap = heap })
  ]

  -- `_stralloc(buf)`, whose constructor `_alloc_str` copies the buffer.
  unfoldable pub stralloc_copy : Bytes → Action (Pool P) ℕ
  unfolding stralloc copy_to
  stralloc_copy src = stralloc (length src) >>= λ o. copy_to o src >> lift (ok o)

  -- POBJ_LIST_INSERT_NEW_HEAD with the constructor `_add`; `none` is OID_NULL.
  unfoldable pub insert_new_head : ℕ → PmemListArgs → Action (Pool P) (Option ℕ)
  unfolding bucket add
  insert_new_head i info p = elim (P.alloc P.pointer_size p.heap) [
    | none ↦ (ok none, p)
    | some (o, heap) ↦
        next {A = PmemPointerTable × List PmemPointer} (bucket i p, p)
          λ tc q.
            next {A = PmemPointer} (add P info o, q)
              λ e r.
                (ok (some o), record { heap = heap; table = some (set_bucket i (e ∷ tc.1) tc.0) })
  ]

  -- What follows the insertion: an error that is built and not thrown.
  abbrev pub report : Bytes → Arg fl → Option ℕ → Action (Pool P) (Unit {0})
  report id size none p =
      (build_error fl pmdk_cant_allocate_obj (str id ∷ size ∷ str (P.errormsg p.heap) ∷ []), p)
  report id size (some oid) p = (ok tt, p)

  module _ (nbuckets : ℕ) where
    unfoldable pub alloc : Bytes → ℕ → Action (Pool P) PmemBuffer
    unfolding hashfun stralloc insert_new_head
    alloc id size = do
      hash ← lift (hashfun nbuckets id)
      o ← stralloc size
      oid ← insert_new_head hash (list_args id size o)
      report id (u64 size) oid
      lift (ok (record { buf = o; size = size }))

    unfoldable pub store : Bytes → Bytes → Action (Pool P) (Unit {0})
    unfolding hashfun stralloc_copy insert_new_head
    store id src = do
      hash ← lift (hashfun nbuckets id)
      o ← stralloc_copy src
      oid ← insert_new_head hash (list_args id (length src) o)
      report id (obj (size_of fl (length src) mb)) oid

    -- `_find`, which also gives the hash.
    unfoldable pub find_hashed : Bytes → Action (Pool P) (ℕ × PmemPointer)
    unfolding hashfun bucket find_entry
    find_hashed id p =
        next (hashfun nbuckets id, p)
          λ hash q.
            next {A = PmemPointerTable × List PmemPointer} (bucket hash q, q)
              λ tc r. elim (find_entry id tc.1) [
                | none ↦ (throw_error fl pmdk_cant_find_key (str id ∷ []), r)
                | some e ↦ (ok (hash, e), r)
              ]

    unfoldable pub find : Bytes → Action (Pool P) PmemBuffer
    unfolding find_hashed
    find id = find_hashed id >>= λ he. lift (ok (record { buf = he.1.data_oid; size = he.1.len }))

    -- `memcpy` of `len` bytes from the value's object into a fresh `malloc_buffer`.
    unfoldable pub read_from : ℕ → ℕ → Action (Pool P) Bytes
    read_from o len p = elim (P.contents p.heap o) [
      | none ↦ (fault, p)
      | some held ↦ elim (read_at len held) [ none ↦ (fault, p) | some bytes ↦ (ok bytes, p) ]
    ]

    unfoldable pub load : Bytes → Action (Pool P) Bytes
    unfolding find_hashed read_from
    load id = find_hashed id >>= λ he. read_from he.1.data_oid he.1.len

    -- POBJ_LIST_REMOVE_FREE: the entry leaves the list, and its object is freed.
    unfoldable pub remove_free : ℕ → PmemPointer → Action (Pool P) (Unit {0})
    unfolding bucket remove_entry
    remove_free i e p =
        next {A = PmemPointerTable × List PmemPointer} (bucket i p, p)
          λ tc q. (
            ok tt,
            record {
              heap = P.free e.oid q.heap;
              table = some (set_bucket i (remove_entry e.oid tc.1) tc.0);
            },
          )

    unfoldable pub free : Bytes → Action (Pool P) (Unit {0})
    unfolding find_hashed remove_free
    free id = find_hashed id >>= λ he p.
        remove_free he.0 he.1 (record p { heap = P.free he.1.data_oid p.heap })
