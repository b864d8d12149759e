-- ===== src/Storage/Hashtable/Storing.antt =====
-- `store` and `alloc` on every branch.
pub mod Filling
pub mod Failing
pub mod Colliding
pub mod Overlong
pub mod Outcomes
use pmemcpy.Base.{
  ℕ, zero, suc, ◌+◌, ◌%◌, ◌≤◌, ◌<◌, ◌≡◌, refl, sym, ap, ◌∙◌, inl, inr, Bool, true, false, Option,
  none, some, List, [], ◌∷◌, ◌++◌, append-nil, Bytes, ◌==◌, ltb, leb, le→leb, lt→leb_false,
  if◌then◌else◌, length, drop, drop_all, take, All, ==_iff, ==_refl, Bool-cases, Option-cases,
  write_at, write_at_start, arith,
}
use pmemcpy.Util.Numbers.{Floats}
use pmemcpy.Util.Serializeable.{Arg, str, u64, obj, size_of, mb}
use pmemcpy.Util.Error.{Result, ok, fault, throw_error, build_error}
use pmemcpy.Util.Errors.{pmdk_cant_allocate_str, pmdk_cant_allocate_obj}
use pmemcpy.Storage.Libpmemobj.{Pmdk, IsAllocator}
use pmemcpy.Storage.Action.{next, ◌>>=◌, ◌>>◌, lift, next-throw_error}
use pmemcpy.Storage.Hashtable.{
  PmemPointer, PmemPointerTable, PmemBuffer, Pool, id_capacity, set_bucket, add, bucket, list_args,
  hashfun, copy_to, stralloc, stralloc_copy, insert_new_head, report, store, alloc,
}
use pmemcpy.Base.{bytes_equal}
use pmemcpy.Storage.Hashtable.Keys.{IsText}
use pmemcpy.Storage.Hashtable.Chains.{Stored, Chain, value, value-Stored, Extends}
use pmemcpy.Storage.Hashtable.Reading.{IsValid, view, home, hashfun_home, bucket-home}
use pmemcpy.Storage.Hashtable.Inserting.{inserted, NewEntry, inserted-IsValid, view-inserted}

module _ (P : Pmdk) (L : IsAllocator P) where
  none_of_Extends :
      (h h' : P.Heap) (o : ℕ) → Extends P h h' → P.contents h' o ≡ none → P.contents h o ≡ none
  none_of_Extends h h' o x absent = elim (Option-cases (P.contents h o)) [
    | inl gone ↦ gone
    | inr (b, there) ↦ absurd (cc (sym (x o b there) ∙ absent))
  ]

  other_object :
      (h : P.Heap) (o q : ℕ) (b : Bytes)
      → P.contents h o ≡ none
      → P.contents h q ≡ some b
      → (q == o) ≡ false
  other_object h o q b absent there = elim (Bool-cases (q == o)) [
    | inr differ ↦ differ
    | inl same ↦ absurd (cc (sym there ∙ ap (P.contents h) ((==_iff q o).0 same) ∙ absent))
  ]

  pub alloc-Extends :
      (n : ℕ) (h : P.Heap) (o : ℕ) (h' : P.Heap) → P.alloc n h ≡ some (o, h') → Extends P h h'
  alloc-Extends n h o h' a q b there =
      L.alloc_other n h o h' a q (other_object h o q b (L.alloc_fresh n h o h' a) there) ∙ there

  poke-Extends :
      (h h' : P.Heap) (o : ℕ) (bytes : Bytes)
      → Extends P h h'
      → P.contents h o ≡ none
      → Extends P h (P.poke o bytes h')
  poke-Extends h h' o bytes x absent q b there =
      rw (L.contents_poke o bytes h' q, other_object h o q b absent there) (x q b there)

  -- A pool whose heap has a new object for a value, not yet linked into the table.
  pub record Prepared (p : Pool P) (h : P.Heap) (o : ℕ) (text : Bytes) : Type 0 where
    pub extends : Extends P p.heap h
    pub fresh : P.contents p.heap o ≡ none
    pub held : P.contents h o ≡ some text

  abbrev pub entry : ℕ → Bytes → ℕ → ℕ → PmemPointer
  entry n id len o = record { oid = n; id_len = length id; id = id; len = len; data_oid = o }

  pub Prepared-NewEntry :
      (p : Pool P) (h : P.Heap) (o : ℕ) (text : Bytes) (id : Bytes) (n : ℕ) (h' : P.Heap)
      → Prepared p h o text
      → P.alloc P.pointer_size h ≡ some (n, h')
      → NewEntry P p h' (entry n id (length text) o)
  Prepared-NewEntry p h o text id n h' r a =
      let absent = L.alloc_fresh P.pointer_size h n h' a in
      let grows = alloc-Extends P.pointer_size h n h' a in
      let (node, there, sized) = L.alloc_new P.pointer_size h n h' a in
      record {
        extends = λ q b e. grows q b (r.extends q b e);
        data_fresh = r.fresh;
        node_fresh = none_of_Extends p.heap h n r.extends absent;
        stored = record {
          text = text;
          held = grows o text r.held;
          sized = refl;
          node = node;
          linked = there;
          two = other_object h n o text absent r.held;
          named = refl;
        };
      }

  -- What a write of `text` under `id` makes of a pool.
  pub record Writes (nbuckets : ℕ) (p : Pool P) (id text : Bytes) (p' : Pool P) : Type 0 where
    pub valid : IsValid P nbuckets p'
    pub reads :
        (k : Bytes)
        → IsText k
        → view P nbuckets p' k
          ≡ (if bytes_equal id k then text ∷ view P nbuckets p k else view P nbuckets p k)

  module _ (fl : Floats) (nbuckets : ℕ) (p : Pool P) (valid : IsValid P nbuckets p)
      (id : Bytes) where
    abbrev pub linked : ℕ → ℕ → ℕ → P.Heap → Pool P
    linked n len o h = inserted P (P.hash id % nbuckets) valid.table (entry n id len o) h

    pub insert_linked :
        (h : P.Heap) (len o n : ℕ) (h' : P.Heap)
        → length id ≤ id_capacity
        → P.alloc P.pointer_size h ≡ some (n, h')
        → insert_new_head fl P
            (P.hash id % nbuckets)
            (list_args id len o)
            (record { heap = h; table = p.table })
          ≡ (ok (some n), linked n len o h')
    unfolding insert_new_head add
    insert_linked h len o n h' short a = rw (
      a,
      insert_new_head,
      bucket-home P nbuckets p valid fl id h,
      next,
      le→leb (length id) id_capacity short,
    )

    new-Writes :
        (e : PmemPointer) (h : P.Heap) (new : NewEntry P p h e) (text : Bytes)
        → new.stored.text ≡ text
        → Writes nbuckets p e.id text (inserted P (P.hash e.id % nbuckets) valid.table e h)
    new-Writes e h new text same = record {
      valid = inserted-IsValid P nbuckets p valid h e new (P.hash e.id % nbuckets);
      reads = λ k t.
          let read : value P h e ≡ text = value-Stored P h e new.stored ∙ same in
          rw read at (view-inserted P nbuckets p valid h e new k t);
    }

    pub linked-Writes :
        (h : P.Heap) (o : ℕ) (text : Bytes) (n : ℕ) (h' : P.Heap)
        → Prepared p h o text
        → P.alloc P.pointer_size h ≡ some (n, h')
        → Writes nbuckets p id text (linked n (length text) o h')
    unfolding Prepared-NewEntry
    linked-Writes h o text n h' r a =
        new-Writes (entry n id (length text) o) h' (Prepared-NewEntry p h o text id n h' r a) text
          refl

    -- The new object of a value that is copied into it.
    pub copied-Prepared :
        (src : Bytes) (o : ℕ) (h : P.Heap)
        → P.alloc (length src) p.heap ≡ some (o, h)
        → Prepared p (P.poke o src h) o src
    copied-Prepared src o h a = record {
      extends = poke-Extends p.heap h o src (alloc-Extends _ _ _ _ a) (L.alloc_fresh _ _ _ _ a);
      fresh = L.alloc_fresh _ _ _ _ a;
      held = rw (L.contents_poke o src h o, ==_refl o);
    }

    pub stralloc_new :
        (size o : ℕ) (h : P.Heap)
        → P.alloc size p.heap ≡ some (o, h)
        → stralloc fl P size p ≡ (ok o, record { heap = h; table = p.table })
    unfolding stralloc
    stralloc_new size o h a = rw (a, stralloc)

    copy_to_new :
        (src : Bytes) (o : ℕ) (h : P.Heap)
        → P.alloc (length src) p.heap ≡ some (o, h)
        → copy_to fl P o src (record { heap = h; table = p.table })
          ≡ (ok tt, record { heap = P.poke o src h; table = p.table })
    unfolding copy_to
    copy_to_new src o h a =
        let (bytes, there, sized) = L.alloc_new _ _ _ _ a in
        let exact : drop (length src) bytes ≡ [] = drop_all (length src) bytes (omega arith) in
        rw (there, copy_to, write_at_start src bytes (omega arith), exact, append-nil src)

    pub stralloc_copied :
        (src : Bytes) (o : ℕ) (h : P.Heap)
        → P.alloc (length src) p.heap ≡ some (o, h)
        → stralloc_copy fl P src p ≡ (ok o, record { heap = P.poke o src h; table = p.table })
    unfolding stralloc_copy
    stralloc_copied src o h a = rw (stralloc_new (length src) o h a, next, copy_to_new src o h a)

    pub store-Writes :
        (src : Bytes) (o : ℕ) (h : P.Heap) (n : ℕ) (h' : P.Heap)
        → length id ≤ id_capacity
        → P.alloc (length src) p.heap ≡ some (o, h)
        → P.alloc P.pointer_size (P.poke o src h) ≡ some (n, h')
        → (p' : Pool P) × (store fl P nbuckets id src p ≡ (ok tt, p')) × Writes nbuckets p id src p'
    unfolding store
    store-Writes src o h n h' short a b = (
      linked n (length src) o h',
      rw (
        hashfun_home P nbuckets p valid fl id,
        next,
        stralloc_copied src o h a,
        next,
        insert_linked (P.poke o src h) (length src) o n h' short b,
      ),
      linked-Writes (P.poke o src h) o src n h' (copied-Prepared src o h a) b,
    )
