-- ===== src/Storage/Hashtable/Reading.antt =====
-- A pool in good order, the values that it holds under each key, and what `find` and `load` make
-- of them.
use pmemcpy.Base.{
  ℕ, ◌%◌, ◌<◌, ◌≡◌, refl, inl, inr, false, none, some, List, [], ◌∷◌, Bytes, ◌==◌, length, ==_refl,
  Bool-cases, Option-cases, arith,
}
use mathlib.Core.Path.{subst}
use mathlib.Core.Option.{some-injective}
use pmemcpy.Util.Numbers.{Floats}
use pmemcpy.Util.Serializeable.{str}
use pmemcpy.Util.Error.{Result, ok, throw_error}
use pmemcpy.Util.Errors.{pmdk_cant_find_key}
use pmemcpy.Storage.Libpmemobj.{Pmdk}
use pmemcpy.Storage.Action.{next, next-throw_error}
use pmemcpy.Storage.Hashtable.{
  PmemPointer, PmemPointerTable, PmemBuffer, Pool, is_entry, find_entry, remove_entry, hashfun,
  bucket, find_hashed, find, read_from, load,
}
use pmemcpy.Base.{read_at_all}
use pmemcpy.Storage.Hashtable.Chains.{Apart, Disjoint, Stored, Chain, value, values, value-Stored}

-- The storage object's `nbuckets_` is that of the pool's table and is not 0, every entry has its
-- objects, and no object belongs to two entries.
pub record IsValid (P : Pmdk) (nbuckets : ℕ) (p : Pool P) : Type 0 where
  pub table : PmemPointerTable
  pub rooted : p.table ≡ some table
  pub counted : table.nbuckets ≡ nbuckets
  pub some_buckets : 0 < nbuckets
  pub chains : (i : ℕ) → Chain P p.heap (table.buckets i)
  pub disjoint : (i j : ℕ) → (i == j) ≡ false → Disjoint (table.buckets i) (table.buckets j)

-- The values that a pool holds under a key, the one stored last first.
unfoldable pub view : (P : Pmdk) → ℕ → Pool P → Bytes → List Bytes
view P nbuckets p id = elim p.table [
  | none ↦ []
  | some t ↦ values P p.heap id (t.buckets (P.hash id % nbuckets))
]

-- What a read of a key gives for the values that it has.
abbrev pub answer : Floats → Bytes → List Bytes → Result Bytes
answer fl id [] = throw_error fl pmdk_cant_find_key (str id ∷ [])
answer fl id (v ∷ older) = ok v

module _ (P : Pmdk) where
  pub find_entry-none :
      (h : P.Heap) (id : Bytes) (c : List PmemPointer)
      → find_entry id c ≡ none
      → values P h id c ≡ []
  unfolding find_entry values
  find_entry-none h id [] n = refl
  find_entry-none h id (e ∷ c) n = ground (arith, find_entry-none h id c)

  pub Apart-found :
      (o : ℕ) (id : Bytes) (c : List PmemPointer) (e : PmemPointer)
      → find_entry id c ≡ some e
      → Apart o c
      → ((e.data_oid == o) ≡ false) × ((e.oid == o) ≡ false)
  unfolding find_entry
  Apart-found o id [] e f a = cc
  Apart-found o id (d ∷ c) e f a = elim (Bool-cases (is_entry id d)) [
    | inl here ↦
        let same : d ≡ e = some-injective d e (rw here at f) in
        subst (λ (x : PmemPointer). ((x.data_oid == o) ≡ false) × ((x.oid == o) ≡ false)) same a.0
    | inr later ↦ Apart-found o id c e (rw later at f) a.1
  ]

  -- The first entry of a key is in order; taking it out leaves the key's earlier values.
  pub find_entry-some :
      (h : P.Heap) (id : Bytes) (c : List PmemPointer) (e : PmemPointer)
      → find_entry id c ≡ some e
      → Chain P h c
      → Stored P h e × (values P h id c ≡ value P h e ∷ values P h id (remove_entry e.oid c))
  unfolding find_entry values remove_entry
  find_entry-some h id [] e f k = cc
  find_entry-some h id (d ∷ c) e f k = elim (Bool-cases (is_entry id d)) [
    | inl here ↦
        let same : d ≡ e = some-injective d e (rw here at f) in
        subst
          (λ (x : PmemPointer).
            Stored P h x
            × (values P h id (d ∷ c) ≡ value P h x ∷ values P h id (remove_entry x.oid (d ∷ c))))
          same (k.0, rw (here, ==_refl d.oid))
    | inr later ↦
        let found = rw later at f in
        let (stored, rest) = find_entry-some h id c e found k.3 in
        let apart = (Apart-found d.oid id c e found k.2).1 in (stored, ground (arith, rest))
  ]

  module _ (nbuckets : ℕ) (p : Pool P) (valid : IsValid P nbuckets p) where
    abbrev pub home : Bytes → List PmemPointer
    home id = valid.table.buckets (P.hash id % nbuckets)

    pub hashfun_home :
        (fl : Floats) (id : Bytes) → hashfun fl P nbuckets id ≡ ok (P.hash id % nbuckets)
    unfolding hashfun
    hashfun_home fl id = ground (arith, valid.some_buckets)

    pub bucket-home :
        (fl : Floats) (id : Bytes) (heap : P.Heap)
        → bucket fl P (P.hash id % nbuckets) (record { heap = heap; table = p.table })
          ≡ ok (valid.table, home id)
    unfolding bucket
    bucket-home fl id heap =
        rw (valid.rooted, bucket) (ground (arith, valid.some_buckets, valid.counted))

    pub view-home : (id : Bytes) → view P nbuckets p id ≡ values P p.heap id (home id)
    unfolding view
    view-home id = rw (valid.rooted, view)

  module _ (fl : Floats) (nbuckets : ℕ) (p : Pool P) (valid : IsValid P nbuckets p)
      (id : Bytes) where
    -- `_find` throws PMDK_CANT_FIND_KEY if the key has no value, and otherwise gives the entry of
    -- the value stored last.
    pub find_hashed-none :
        find_entry id (home nbuckets p valid id) ≡ none
        → find_hashed fl P nbuckets id p ≡ (throw_error fl pmdk_cant_find_key (str id ∷ []), p)
    unfolding find_hashed
    find_hashed-none f =
        rw (hashfun_home nbuckets p valid fl id, bucket-home nbuckets p valid fl id p.heap, next, f)

    pub find_hashed-some :
        (e : PmemPointer)
        → find_entry id (home nbuckets p valid id) ≡ some e
        → find_hashed fl P nbuckets id p ≡ (ok (P.hash id % nbuckets, e), p)
    unfolding find_hashed
    find_hashed-some e f =
        rw (hashfun_home nbuckets p valid fl id, bucket-home nbuckets p valid fl id p.heap, next, f)

    read_from-Stored :
        (e : PmemPointer) (s : Stored P p.heap e)
        → read_from fl P nbuckets e.data_oid e.len p ≡ (ok (value P p.heap e), p)
    unfolding read_from
    read_from-Stored e s =
        rw (value-Stored P p.heap e s, s.held, read_from, s.sized, read_at_all s.text)

    -- On a pool in good order, `load` gives the value that was stored last under the key, or throws
    -- PMDK_CANT_FIND_KEY if the pool holds none, and leaves the pool alone.
    pub load-view : load fl P nbuckets id p ≡ (answer fl id (view P nbuckets p id), p)
    unfolding load
    load-view = elim (Option-cases (find_entry id (home nbuckets p valid id))) [
      | inl absent ↦
          rw
            (
              find_hashed-none absent,
              view-home nbuckets p valid id,
              find_entry-none p.heap id (home nbuckets p valid id) absent,
            )
            (next-throw_error fl _ _ p _)
      | inr (e, found) ↦
          let (stored, held) =
            find_entry-some p.heap id (home nbuckets p valid id) e found (valid.chains _) in
          rw (find_hashed-some e found, view-home nbuckets p valid id, held, next, next)
            (read_from-Stored e stored)
    ]

    -- What `find` gives for the values of the key.
    abbrev pub Found : List Bytes → Result PmemBuffer × Pool P → Type 0
    Found [] r = r ≡ (throw_error fl pmdk_cant_find_key (str id ∷ []), p)
    Found (v ∷ older) r =
        (b : PmemBuffer) × (r ≡ (ok b, p))
        × (P.contents p.heap b.buf ≡ some v)
        × (b.size ≡ length v)

    -- On a pool in good order, `find` gives a buffer over the object that holds the value stored last
    -- under the key, with that value's size, or throws PMDK_CANT_FIND_KEY if the pool holds none.
    pub find-view : Found (view P nbuckets p id) (find fl P nbuckets id p)
    unfolding find
    find-view = elim (Option-cases (find_entry id (home nbuckets p valid id))) [
      | inl absent ↦
          rw
            (
              find_hashed-none absent,
              view-home nbuckets p valid id,
              find_entry-none p.heap id (home nbuckets p valid id) absent,
            )
            (next-throw_error fl _ _ p _)
      | inr (e, found) ↦
          let (stored, held) =
            find_entry-some p.heap id (home nbuckets p valid id) e found (valid.chains _) in
          rw (view-home nbuckets p valid id, held)
            (
              record { buf = e.data_oid; size = e.len },
              rw (find_hashed-some e found, next),
              rw (stored.held, value-Stored P p.heap e stored),
              rw (value-Stored P p.heap e stored) stored.sized,
            )
    ]
