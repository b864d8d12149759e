-- ===== src/Storage/Hashtable/Storing/Filling.antt =====
-- `alloc` followed by a write through the buffer that it returned.
use pmemcpy.Base.{
  ℕ, ◌≤◌, ◌≡◌, refl, sym, ◌∙◌, false, some, ◌++◌, Bytes, ◌==◌, length, drop, length-append,
  length-drop, ==_refl, write_at_start, arith,
}
use pmemcpy.Util.Numbers.{Floats}
use pmemcpy.Util.Error.{ok}
use pmemcpy.Storage.Libpmemobj.{Pmdk, IsAllocator}
use pmemcpy.Storage.Action.{next}
use pmemcpy.Storage.Hashtable.{Pool, PmemBuffer, id_capacity, copy_to, alloc}
use pmemcpy.Storage.Hashtable.Inserting.{NewEntry}
use pmemcpy.Storage.Hashtable.Reading.{IsValid, hashfun_home}
use pmemcpy.Storage.Hashtable.Storing.{
  Prepared, entry, Prepared-NewEntry, Writes, new-Writes, linked, insert_linked, stralloc_new,
  alloc-Extends, poke-Extends, other_object,
}

module _ (P : Pmdk) (L : IsAllocator P) where
  -- New bytes in the value's object of a new entry leave it a new entry.
  poked-NewEntry :
      (p : Pool P) (o n len : ℕ) (id text new : Bytes) (h h' : P.Heap)
      → len ≡ length new
      → Prepared P L p h o text
      → P.alloc P.pointer_size h ≡ some (n, h')
      → NewEntry P p (P.poke o new h') (entry P L n id len o)
  poked-NewEntry p o n len id text new h h' same r a =
      let e = Prepared-NewEntry P L p h o text id n h' r a in
      let absent = L.alloc_fresh _ _ _ _ a in
      let apart : (n == o) ≡ false = ground (arith, other_object P L h n o text absent r.held) in
      record {
        extends = poke-Extends P L p.heap h' o new e.extends r.fresh;
        data_fresh = e.data_fresh;
        node_fresh = e.node_fresh;
        stored = record {
          text = new;
          held = rw (L.contents_poke o new h' o, ==_refl o);
          sized = same;
          node = e.stored.node;
          linked = rw (L.contents_poke o new h' n, apart) e.stored.linked;
          two = e.stored.two;
          named = refl;
        };
      }

  module _ (fl : Floats) (nbuckets : ℕ) (p : Pool P) (valid : IsValid P nbuckets p)
      (id : Bytes) where
    pub allocated-Prepared :
        (o : ℕ) (h : P.Heap) (size : ℕ)
        → (a : P.alloc size p.heap ≡ some (o, h))
        → Prepared P L p h o (L.alloc_new size p.heap o h a).0
    allocated-Prepared o h size a = record {
      extends = alloc-Extends P L _ _ _ _ a;
      fresh = L.alloc_fresh _ _ _ _ a;
      held = (L.alloc_new _ _ _ _ a).1;
    }

    pub alloc-copy_to :
        (src : Bytes) (size o : ℕ) (h : P.Heap) (n : ℕ) (h' : P.Heap)
        → length id ≤ id_capacity
        → length src ≤ size
        → P.alloc size p.heap ≡ some (o, h)
        → P.alloc P.pointer_size h ≡ some (n, h')
        → (b : PmemBuffer) × (p' : Pool P) × (p'' : Pool P) × (junk : Bytes) × (alloc fl P nbuckets
              id size p
            ≡ (ok b, p'))
          × (b.size ≡ size)
          × (copy_to fl P b.buf src p' ≡ (ok tt, p''))
          × (length (src ++ junk) ≡ size)
          × Writes P L nbuckets p id (src ++ junk) p''
    unfolding alloc copy_to poked-NewEntry
    alloc-copy_to src size o h n h' short fits a b =
        let (bytes, there, sized) = L.alloc_new size p.heap o h a in
        let new = src ++ drop (length src) bytes in
        let r = allocated-Prepared o h size a in
        let total : length new ≡ length bytes = omega (
          arith,
          length-append {0} src (drop (length src) bytes),
          length-drop {0} (length src) bytes,
        ) in
        let made = poked-NewEntry p o n size id bytes new h h' (sym (total ∙ sized)) r b in
        let still = alloc-Extends P L P.pointer_size h n h' b o bytes there in
        (
          record { buf = o; size = size },
          linked P L fl nbuckets p valid id n size o h',
          linked P L fl nbuckets p valid id n size o (P.poke o new h'),
          drop (length src) bytes,
          rw (
            hashfun_home P nbuckets p valid fl id,
            next,
            stralloc_new P L fl nbuckets p valid id size o h a,
            next,
            insert_linked P L fl nbuckets p valid id h size o n h' short b,
          ),
          refl,
          rw (still, copy_to, write_at_start src bytes (omega arith)),
          total ∙ sized,
          new-Writes P L fl nbuckets p valid id (entry P L n id size o) (P.poke o new h') made new
              refl,
        )
