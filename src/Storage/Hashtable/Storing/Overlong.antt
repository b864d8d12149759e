-- ===== src/Storage/Hashtable/Storing/Overlong.antt =====
-- A key that is longer than an entry's `id`, by no more than the size of `len`.
use pmemcpy.Base.{
  ℕ, zero, suc, ◌+◌, ◌-◌, ◌%◌, ◌≤◌, ◌<◌, ◌≡◌, refl, ap, ◌∙◌, true, some, List, [], ◌∷◌, ◌++◌,
  append-nil, Bytes, ==_refl, ltb, le→leb, lt→leb_false, length, length-drop, Option-cases, inl,
  inr, take_all, drop, read_at, arith,
}
use pmemcpy.Util.Numbers.{Floats}
use pmemcpy.Util.Error.{ok}
use pmemcpy.Storage.Libpmemobj.{Pmdk, IsAllocator}
use pmemcpy.Storage.Action.{next}
use pmemcpy.Storage.Hashtable.{
  PmemPointer, PmemListArgs, Pool, id_capacity, len_size, id_room, list_args, overwritten_len,
  overlong_id, add, set_bucket, strncmp_equal, is_entry, find_entry, bucket, find_hashed, read_from,
  insert_new_head, store, load,
}
use pmemcpy.Storage.Hashtable.Reading.{IsValid, home, hashfun_home, bucket-home}
use pmemcpy.Storage.Hashtable.Storing.{stralloc_copied, copied-Prepared, Prepared-NewEntry}
use pmemcpy.Serialize.Serializer.{checked}

strncmp_equal_refl : (n : ℕ) (a : Bytes) → strncmp_equal n a a ≡ true
unfolding strncmp_equal
strncmp_equal_refl zero a = refl
strncmp_equal_refl (suc n) [] = refl
strncmp_equal_refl (suc n) (c ∷ a) = ground (arith, strncmp_equal_refl n a)

module _ (P : Pmdk) (L : IsAllocator P) (fl : Floats) (nbuckets : ℕ) (p : Pool P)
    (valid : IsValid P nbuckets p) (id : Bytes) where
  -- The length that the entry of the key says, once the key's bytes behind the 512th were written over
  -- the first bytes of the value's length.
  abbrev pub length_left : Bytes → ℕ
  length_left src =
      P.uint64_of (drop id_capacity id ++ drop (length id - id_capacity) (P.uint64 (length src)))

  abbrev info : Bytes → ℕ → PmemListArgs
  info src o = list_args id (length src) o

  abbrev long_entry : Bytes → ℕ → ℕ → PmemPointer
  long_entry src o n = record {
    oid = n;
    id_len = length id;
    id = id;
    len = overwritten_len P (info src o);
    data_oid = o;
  }

  abbrev left : Bytes → ℕ → ℕ → P.Heap → Pool P
  left src o n h' = record {
    heap = h';
    table = some (
        set_bucket (P.hash id % nbuckets) (long_entry src o n ∷ home P nbuckets p valid id)
          valid.table);
  }

  kept_id :
      (src : Bytes) (o : ℕ) → length id ≤ id_capacity + len_size → overlong_id P (info src o) ≡ id
  kept_id src o short =
      let none_over : length id - (id_capacity + len_size) ≡ 0 = omega arith in
      rw (take_all (id_capacity + len_size) id short, none_over) (append-nil id)

  added :
      (src : Bytes) (o n : ℕ)
      → id_capacity < length id
      → length id ≤ id_capacity + len_size
      → add P (info src o) n ≡ ok (long_entry src o n)
  unfolding add
  added src o n long short = rw (
    lt→leb_false (length id) id_capacity long,
    le→leb (length id) id_room (omega arith),
    kept_id src o short,
  )

  length_left_lem :
      (src : Bytes) (o : ℕ)
      → length id ≤ id_capacity + len_size
      → overwritten_len P (info src o) ≡ length_left src
  length_left_lem src o short =
      let width : length (drop id_capacity id) ≡ length id - id_capacity =
        length-drop id_capacity id in
      let number : Bytes → ℕ → ℕ = λ tail k. P.uint64_of (tail ++ drop k (P.uint64 (length src))) in
      ap (λ (t : Bytes). number t (length t))
        (take_all len_size (drop id_capacity id) (omega (arith, width)))
      ∙ ap (number (drop id_capacity id)) width

  read_long :
      (src : Bytes) (o k : ℕ) (q : Pool P)
      → P.contents q.heap o ≡ some src
      → read_from fl P nbuckets o k q ≡ (checked (read_at k src), q)
  unfolding read_from
  read_long src o k q held = elim (Option-cases (read_at k src)) [
    | inl past ↦ rw (held, read_from, past)
    | inr (bytes, there) ↦ rw (held, read_from, there)
  ]

  find_long :
      (src : Bytes) (o n : ℕ) (c : List PmemPointer)
      → find_entry id (long_entry src o n ∷ c) ≡ some (long_entry src o n)
  unfolding find_entry is_entry
  find_long src o n c = rw (==_refl (length id), strncmp_equal_refl (length id) id)

  bucket_left :
      (src : Bytes) (o n : ℕ) (h' : P.Heap)
      → find_hashed fl P nbuckets id (left src o n h')
        ≡ (ok (P.hash id % nbuckets, long_entry src o n), left src o n h')
  unfolding find_hashed bucket
  bucket_left src o n h' =
      let inside : ltb (P.hash id % nbuckets) valid.table.nbuckets ≡ true =
        ground (arith, valid.some_buckets, valid.counted) in
      rw (
        hashfun_home P nbuckets p valid fl id,
        bucket,
        inside,
        next,
        ==_refl (P.hash id % nbuckets),
        find_long src o n (home P nbuckets p valid id),
      )

  -- On a pool in good order, for a key of 513 to 520 bytes, with room for the value and its entry: `store`
  -- returns normally, and `load` of the key then reads so many bytes of the value's object as the length
  -- of the value says after the key's bytes behind the 512th were written over it; if these are more than
  -- the value has, the behaviour is undefined.
  pub load-store_overlong :
      (src : Bytes) (o : ℕ) (h : P.Heap) (n : ℕ) (h' : P.Heap)
      → id_capacity < length id
      → length id ≤ id_capacity + len_size
      → P.alloc (length src) p.heap ≡ some (o, h)
      → P.alloc P.pointer_size (P.poke o src h) ≡ some (n, h')
      → (p' : Pool P) × (store fl P nbuckets id src p ≡ (ok tt, p'))
        × (load fl P nbuckets id p' ≡ (checked (read_at (length_left src) src), p'))
  unfolding store insert_new_head load
  load-store_overlong src o h n h' long short a b =
      let ready = copied-Prepared P L fl nbuckets p valid id src o h a in
      let new = Prepared-NewEntry P L p (P.poke o src h) o src id n h' ready b in
      let held : P.contents h' o ≡ some src =
        L.alloc_other P.pointer_size (P.poke o src h) n h' b o new.stored.two ∙ ready.held in
      (
        left src o n h',
        rw (
          hashfun_home P nbuckets p valid fl id,
          next,
          stralloc_copied P L fl nbuckets p valid id src o h a,
          next,
          b,
          insert_new_head,
          bucket-home P nbuckets p valid fl id (P.poke o src h),
          next,
          added src o n long short,
        ),
        rw (bucket_left src o n h', next)
            (read_long src o (overwritten_len P (info src o)) (left src o n h') held
              ∙ ap (λ (k : ℕ). (checked (read_at k src), left src o n h'))
                  (length_left_lem src o short)),
      )
