-- ===== src/Storage/Hashtable/Crash/Keeping.antt =====
-- What a crash cannot take.
use pmemcpy.Base.{
  ℕ, ◌%◌, ◌≡◌, refl, sym, ap, ◌∙◌, inl, inr, false, some, List, [], ◌∷◌, Bytes, All, Bool-cases,
  Option-cases, read_at_all, arith,
}
use mathlib.Core.Path.{subst}
use mathlib.Core.Option.{some-injective}
use pmemcpy.Util.Numbers.{Floats}
use pmemcpy.Util.Error.{ok}
use pmemcpy.Storage.Libpmemobj.{Pmdk}
use pmemcpy.Storage.Action.{next, next-throw_error}
use pmemcpy.Storage.Hashtable.{
  PmemPointer, PmemPointerTable, Pool, is_entry, find_entry, bucket, find_hashed, read_from, load,
}
use pmemcpy.Storage.Hashtable.Chains.{value-Stored}
use pmemcpy.Storage.Hashtable.Reading.{
  IsValid, view, answer, home, hashfun_home, view-home, find_entry-none, find_entry-some,
}
use pmemcpy.Storage.Hashtable.Crash.{Cached, is_dirty, Survivors, no_more, whole, torn, Crash}

module _ (P : Pmdk) (fl : Floats) (nbuckets : ℕ) (p : Pool P) (valid : IsValid P nbuckets p)
    (id : Bytes) where
  abbrev slot : ℕ
  slot = P.hash id % nbuckets

  abbrev entries : List PmemPointer
  entries = home P nbuckets p valid id

  -- The values' objects of the entries of a chain, in another pool as in this one.
  abbrev pub SameValues : Pool P → List PmemPointer → Type 0
  SameValues q = All (λ e. P.contents q.heap e.data_oid ≡ P.contents p.heap e.data_oid)

  SameValues-found :
      (q : Pool P) (c : List PmemPointer) (e : PmemPointer)
      → SameValues q c
      → find_entry id c ≡ some e
      → P.contents q.heap e.data_oid ≡ P.contents p.heap e.data_oid
  unfolding find_entry
  SameValues-found q [] e s f = absurd (cc f)
  SameValues-found q (d ∷ c) e s f = elim (Bool-cases (is_entry id d)) [
    | inl here ↦
        subst (λ (x : PmemPointer). P.contents q.heap x.data_oid ≡ P.contents p.heap x.data_oid)
          (some-injective d e (rw here at f)) s.0
    | inr later ↦ SameValues-found q c e s.1 (rw later at f)
  ]

  bucket_of :
      (q : Pool P) (t : PmemPointerTable)
      → q.table ≡ some t
      → t.nbuckets ≡ nbuckets
      → bucket fl P slot q ≡ ok (t, t.buckets slot)
  unfolding bucket
  bucket_of q t rooted counted = rw (rooted, bucket) (ground (arith, valid.some_buckets, counted))

  -- A pool in which the key's bucket has the same first entry of the key, and the same values, answers
  -- as this one.
  pub load_alike :
      (q : Pool P) (t : PmemPointerTable)
      → q.table ≡ some t
      → t.nbuckets ≡ nbuckets
      → find_entry id (t.buckets slot) ≡ find_entry id entries
      → SameValues q entries
      → load fl P nbuckets id q ≡ (answer fl id (view P nbuckets p id), q)
  unfolding load find_hashed read_from
  load_alike q t rooted counted alike same = elim (Option-cases (find_entry id entries)) [
    | inl absent ↦
        rw
          (
            hashfun_home P nbuckets p valid fl id,
            bucket_of q t rooted counted,
            next,
            alike,
            absent,
            view-home P nbuckets p valid id,
            find_entry-none P p.heap id entries absent,
          )
          (next-throw_error fl _ _ q _)
    | inr (e, found) ↦
        let (s, held) = find_entry-some P p.heap id entries e found (valid.chains _) in
        let there : P.contents q.heap e.data_oid ≡ some s.text =
          SameValues-found q entries e same found ∙ s.held in
        rw (
          hashfun_home P nbuckets p valid fl id,
          bucket_of q t rooted counted,
          next,
          alike,
          found,
          view-home P nbuckets p valid id,
          held,
          value-Stored P p.heap e s,
          there,
          read_from,
          s.sized,
          read_at_all s.text,
        )
  ]

-- All stores to the entries of a chain, and to the objects of their values, were persisted.
abbrev pub Clean : List ℕ → List PmemPointer → Type 0
Clean dirty = All (λ e. (is_dirty e.oid dirty ≡ false) × (is_dirty e.data_oid dirty ≡ false))

Survivors-Clean :
    (stale : ℕ → PmemPointer) (dirty : List ℕ) {c d : List PmemPointer}
    → Clean dirty c
    → Survivors stale dirty c d
    → d ≡ c
Survivors-Clean stale dirty k no_more = refl
Survivors-Clean stale dirty k (whole e c d rest) =
    ap (λ x. e ∷ x) (Survivors-Clean stale dirty k.1 rest)
Survivors-Clean stale dirty k (torn e left c d is h rest) = absurd (cc (k.0.0, is))

Clean-SameValues :
    (P : Pmdk) (nbuckets : ℕ) (p q : Pool P) (valid : IsValid P nbuckets p) (fl : Floats)
    (id : Bytes) (dirty : List ℕ) (c : List PmemPointer)
    → ((o : ℕ) → is_dirty o dirty ≡ false → P.contents q.heap o ≡ P.contents p.heap o)
    → Clean dirty c
    → SameValues P fl nbuckets p valid id q c
Clean-SameValues P nbuckets p q valid fl id dirty [] same k = tt
Clean-SameValues P nbuckets p q valid fl id dirty (e ∷ c) same k =
    (same e.data_oid k.0.1, Clean-SameValues P nbuckets p q valid fl id dirty c same k.1)

-- After a crash of a pool in good order, `load` of every key in whose bucket all stores to the entries
-- and to their values were persisted gives what the pool held under the key, whatever else was lost.
pub load-Crash :
    (P : Pmdk) (fl : Floats) (nbuckets : ℕ) (stale : ℕ → PmemPointer) (c : Cached P) (q : Pool P)
    (valid : IsValid P nbuckets c.pool) (id : Bytes)
    → Clean c.dirty (home P nbuckets c.pool valid id)
    → Crash stale c q
    → load fl P nbuckets id q ≡ (answer fl id (view P nbuckets c.pool id), q)
load-Crash P fl nbuckets stale c q valid id clean crash =
    let table : crash.before ≡ valid.table =
      some-injective crash.before valid.table (sym crash.had ∙ valid.rooted) in
    let slot = P.hash id % nbuckets in
    let clean' : Clean c.dirty (crash.before.buckets slot) = rw table clean in
    let same : crash.after.buckets slot ≡ home P nbuckets c.pool valid id =
      Survivors-Clean stale c.dirty clean' (crash.buckets slot)
      ∙ ap (λ (t : PmemPointerTable). t.buckets slot) table in
    load_alike P fl nbuckets c.pool valid id q crash.after crash.has
      (crash.as_many ∙ ap (λ (t : PmemPointerTable). t.nbuckets) table ∙ valid.counted)
      (ap (find_entry id) same)
      (Clean-SameValues P nbuckets c.pool q valid fl id c.dirty (home P nbuckets c.pool valid id)
        crash.objects clean)
