-- ===== src/Pmem/RoundTrip.antt =====
-- What is stored through `PMEM` is loaded again, over any storage and serializer that keep their
-- contracts, with and without `use_mmap` on either side.
use pmemcpy.Base.{
  ℕ, ◌*◌, ◌≡◌, refl, inl, inr, Bool, true, false, some, [], ◌++◌, append-nil, Bytes, bytes_equal,
  length,
}
use pmemcpy.Util.Error.{Result, ok}
use pmemcpy.Storage.Action.{next}
use pmemcpy.Storage.Interface.{Storage, Meaning, IsStorage}
use pmemcpy.Serialize.Element.{Kind, size_of_kind}
use pmemcpy.Serialize.Dimensions.{Dimensions}
use pmemcpy.Serialize.Serializer.{Serializer, IsRoundTrip, Room, array_size}
use pmemcpy.Pmem.{store, load, store_array, load_array}

module _ (Z : Serializer) where
  -- The bytes that a `store` hands to the storage.
  abbrev pub encoded : Bool → Kind → Bytes → Result Bytes
  encoded true k src = Z.serialize_to k (Z.est_encoded_size (size_of_kind k)) src
  encoded false k src = Z.serialize k src

  abbrev pub encoded_array : Bool → Kind → Bytes → Dimensions → Result Bytes
  encoded_array true k src dims =
      Z.serialize_array_to k (Z.est_encoded_size (array_size k dims.count)) src dims
  encoded_array false k src dims = Z.serialize_array k src dims

module _ (S : Storage) (M : Meaning S) where
  -- The room that a `store` of `bytes` wants, which are estimated at `n`.
  abbrev pub StoreRoom : Bool → S.State → Bytes → ℕ → Bytes → Type 0
  StoreRoom true s id n bytes = M.HasRoomFor s id n
  StoreRoom false s id n bytes = M.HasRoom s id bytes

  -- The state after a `store`: the key holds the bytes, perhaps with junk behind them, and other
  -- keys hold what they held.
  pub record Holds (s : S.State) (id : Bytes) (n : ℕ) (bytes : Bytes) (s' : S.State) : Type 0 where
    pub valid : M.IsValid s'
    pub junk : Bytes
    pub room : Room n bytes junk
    pub held : M.value s' id ≡ some (bytes ++ junk)
    pub others : (k : Bytes) → M.IsKey k → bytes_equal id k ≡ false → M.value s' k ≡ M.value s k

module _ (S : Storage) (M : Meaning S) (L : IsStorage S M) (Z : Serializer)
    (R : IsRoundTrip Z) where
  pub store-Holds :
      (m : Bool) (k : Kind) (id src bytes : Bytes) (s : S.State)
      → length src ≡ size_of_kind k
      → encoded Z m k src ≡ ok bytes
      → M.IsValid s
      → M.IsKey id
      → StoreRoom S M m s id (Z.est_encoded_size (size_of_kind k)) bytes
      → (s' : S.State) × (store S Z m k id src s ≡ (ok tt, s'))
        × Holds S M s id (Z.est_encoded_size (size_of_kind k)) bytes s'
  unfolding store
  store-Holds true k id src bytes s sized e v key room =
      let n = Z.est_encoded_size (size_of_kind k) in
      let fits = (R.single_to k src bytes sized e).1 in
      let (b, s', s'', junk, allocated, width, copied, total, valid, held, others) =
        L.alloc_value s id n bytes v key fits room in
      (
        s'',
        rw (allocated, next, width, e, next, copied),
        record { valid = valid; junk = junk; room = inr total; held = held; others = others },
      )
  store-Holds false k id src bytes s sized e v key room =
      let (s', stored, valid, held, others) = L.store_value s id bytes v key room in
      (
        s',
        rw (e, next, stored),
        record {
          valid = valid;
          junk = [];
          room = inl refl;
          held = rw (append-nil bytes) held;
          others = others;
        },
      )

  pub load-held :
      (m : Bool) (k : Kind) (id dst v out : Bytes) (s : S.State)
      → M.IsValid s
      → M.IsKey id
      → M.value s id ≡ some v
      → Z.deserialize k dst v ≡ ok out
      → load S Z m k id dst s ≡ (ok out, s)
  unfolding load
  load-held true k id dst v out s valid key held d =
      let (b, found, read) = L.find_value s id v valid key held in rw (found, next, read, next, d)
  load-held false k id dst v out s valid key held d =
      rw (L.load_value s id v valid key held, next, d)

  pub serialized :
      (m : Bool) (k : Kind) (src bytes : Bytes)
      → length src ≡ size_of_kind k
      → encoded Z m k src ≡ ok bytes
      → Z.serialize k src ≡ ok bytes
  serialized true k src bytes sized e = (R.single_to k src bytes sized e).0
  serialized false k src bytes sized e = e

  pub load-store :
      (m m' : Bool) (k : Kind) (id src dst bytes : Bytes) (s : S.State)
      → length src ≡ size_of_kind k
      → length dst ≡ size_of_kind k
      → encoded Z m k src ≡ ok bytes
      → M.IsValid s
      → M.IsKey id
      → StoreRoom S M m s id (Z.est_encoded_size (size_of_kind k)) bytes
      → (s' : S.State) × (store S Z m k id src s ≡ (ok tt, s'))
        × (load S Z m' k id dst s' ≡ (ok src, s'))
        × Holds S M s id (Z.est_encoded_size (size_of_kind k)) bytes s'
  load-store m m' k id src dst bytes s sized dst_sized e v key room =
      let (s', stored, h) = store-Holds m k id src bytes s sized e v key room in
      let made = serialized m k src bytes sized e in
      (
        s',
        stored,
        load-held m' k id dst (bytes ++ h.junk) src s' h.valid key h.held
            (R.single k src dst bytes h.junk sized dst_sized made h.room),
        h,
      )

  pub store_array-Holds :
      (m : Bool) (k : Kind) (id src : Bytes) (dims : Dimensions) (bytes : Bytes) (s : S.State)
      → length src ≡ array_size k dims.count
      → length src ≡ size_of_kind k * dims.count
      → encoded_array Z m k src dims ≡ ok bytes
      → M.IsValid s
      → M.IsKey id
      → StoreRoom S M m s id (Z.est_encoded_size (array_size k dims.count)) bytes
      → (s' : S.State) × (store_array S Z m k id src dims s ≡ (ok tt, s'))
        × Holds S M s id (Z.est_encoded_size (array_size k dims.count)) bytes s'
  unfolding store_array
  store_array-Holds true k id src dims bytes s sized exact e v key room =
      let n = Z.est_encoded_size (array_size k dims.count) in
      let fits = (R.array_to k src dims bytes sized exact e).1 in
      let (b, s', s'', junk, allocated, width, copied, total, valid, held, others) =
        L.alloc_value s id n bytes v key fits room in
      (
        s'',
        rw (allocated, next, width, e, next, copied),
        record { valid = valid; junk = junk; room = inr total; held = held; others = others },
      )
  store_array-Holds false k id src dims bytes s sized exact e v key room =
      let (s', stored, valid, held, others) = L.store_value s id bytes v key room in
      (
        s',
        rw (e, next, stored),
        record {
          valid = valid;
          junk = [];
          room = inl refl;
          held = rw (append-nil bytes) held;
          others = others;
        },
      )

  pub load_array-held :
      (m : Bool) (k : Kind) (id dst : Bytes) (dims : Dimensions) (v out : Bytes) (s : S.State)
      → M.IsValid s
      → M.IsKey id
      → M.value s id ≡ some v
      → Z.deserialize_array k dst v dims ≡ ok out
      → load_array S Z m k id dst dims s ≡ (ok out, s)
  unfolding load_array
  load_array-held true k id dst dims v out s valid key held d =
      let (b, found, read) = L.find_value s id v valid key held in rw (found, next, read, next, d)
  load_array-held false k id dst dims v out s valid key held d =
      rw (L.load_value s id v valid key held, next, d)

  pub serialized_array :
      (m : Bool) (k : Kind) (src : Bytes) (dims : Dimensions) (bytes : Bytes)
      → length src ≡ array_size k dims.count
      → length src ≡ size_of_kind k * dims.count
      → encoded_array Z m k src dims ≡ ok bytes
      → Z.serialize_array k src dims ≡ ok bytes
  serialized_array true k src dims bytes sized exact e =
      (R.array_to k src dims bytes sized exact e).0
  serialized_array false k src dims bytes sized exact e = e
