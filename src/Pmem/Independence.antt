-- ===== src/Pmem/Independence.antt =====
-- What is stored under one key of `PMEM` outlives a store under another.
use pmemcpy.Base.{ℕ, ◌≡◌, refl, ap, ◌∙◌, Bool, false, Bytes, bytes_equal, length, ◌++◌}
use mathlib.Core.Path.{subst}
use pmemcpy.Util.Error.{ok}
use pmemcpy.Storage.Interface.{Storage, Meaning, IsStorage}
use pmemcpy.Serialize.Element.{Kind, size_of_kind}
use pmemcpy.Serialize.Serializer.{Serializer, IsRoundTrip, Room}
use pmemcpy.Pmem.{store, load}
use pmemcpy.Pmem.RoundTrip.{encoded, StoreRoom, Holds, load-store, load-held, serialized}

module _ (S : Storage) (M : Meaning S) (L : IsStorage S M) (Z : Serializer)
    (R : IsRoundTrip Z) where
  -- The value of a key that holds it is loaded after a change that leaves the key alone.
  load_kept :
      (m m' : Bool) (k : Kind) (id src dst bytes : Bytes) (n : ℕ) (s s' t : S.State)
      → length src ≡ size_of_kind k
      → length dst ≡ size_of_kind k
      → n ≡ Z.est_encoded_size (size_of_kind k)
      → encoded Z m k src ≡ ok bytes
      → Holds S M s id n bytes s'
      → M.IsValid t
      → M.IsKey id
      → M.value t id ≡ M.value s' id
      → load S Z m' k id dst t ≡ (ok src, t)
  load_kept m m' k id src dst bytes n s s' t sized dst_sized est e h valid key kept =
      let made = serialized S M L Z R m k src bytes sized e in
      load-held S M L Z R m' k id dst (bytes ++ h.junk) src t valid key (kept ∙ h.held) (
        R.single k src dst bytes h.junk sized dst_sized made
          (subst (λ (x : ℕ). Room x bytes h.junk) est h.room))

  -- For every storage and serializer that keep their contracts: after a value and then another value
  -- under another key were stored, each with room for it and one that can be serialized, a `load` of
  -- the first key still gives the first value, each call with or without `use_mmap`.
  pub load-store_other :
      (m m' m'' : Bool) (k k' : Kind) (id id' src src' dst bytes bytes' : Bytes) (s : S.State)
      → bytes_equal id' id ≡ false
      → length src ≡ size_of_kind k
      → length src' ≡ size_of_kind k'
      → length dst ≡ size_of_kind k
      → encoded Z m k src ≡ ok bytes
      → encoded Z m' k' src' ≡ ok bytes'
      → M.IsValid s
      → M.IsKey id
      → M.IsKey id'
      → StoreRoom S M m s id (Z.est_encoded_size (size_of_kind k)) bytes
      → StoreRoom S M m'
          (store S Z m k id src s).1
          id'
          (Z.est_encoded_size (size_of_kind k'))
          bytes'
      → (t : S.State) × (store S Z m' k' id' src' (store S Z m k id src s).1 ≡ (ok tt, t))
        × (load S Z m'' k id dst t ≡ (ok src, t))
  load-store_other m m' m'' k k' id id' src src' dst bytes bytes' s differ sized sized' dst_sized e
        e' v key key' room room' =
      let (s', stored, loaded, h) =
        load-store S M L Z R m m'' k id src dst bytes s sized dst_sized e v key room in
      let same : (store S Z m k id src s).1 ≡ s' = ap (λ x. x.1) stored in
      let (t, stored', loaded', h') =
        load-store S M L Z R m' m'' k' id' src' src' bytes' s' sized' sized' e' h.valid key' (
          subst
            (λ (x : S.State). StoreRoom S M m' x id' (Z.est_encoded_size (size_of_kind k')) bytes')
            same room') in
      (
        t,
        ap (store S Z m' k' id' src') same ∙ stored',
        load_kept m m'' k id src dst bytes _ s s' t sized dst_sized refl e h h'.valid key
            (h'.others id key differ),
      )
