-- ===== src/Pmem/Putting.antt =====
-- A store through `PMEM` of a value or of an array, and a load of it.
use pmemcpy.Base.{ℕ, ◌*◌, ◌≡◌, ◌∙◌, Bool, Option, none, some, ◌++◌, Bytes, length}
use pmemcpy.Util.Error.{Result, ok}
use pmemcpy.Storage.Action.{Action}
use pmemcpy.Storage.Interface.{Storage, Meaning, IsStorage}
use pmemcpy.Serialize.Element.{Kind, size_of_kind}
use pmemcpy.Serialize.Dimensions.{Dimensions}
use pmemcpy.Serialize.Serializer.{Serializer, IsRoundTrip, Room, array_size}
use pmemcpy.Pmem.{store, load, store_array, load_array}
use pmemcpy.Pmem.RoundTrip.{
  encoded, encoded_array, StoreRoom, Holds, store-Holds, store_array-Holds, load-held,
  load_array-held, serialized, serialized_array,
}

-- A value without dimensions, or an array with them: its size in bytes.
abbrev pub put_size : Kind → Option Dimensions → ℕ
put_size k none = size_of_kind k
put_size k (some dims) = array_size k dims.count

-- Memory of a value or an array, whose size does not wrap around.
abbrev pub Sized : Kind → Option Dimensions → Bytes → Type 0
Sized k none src = length src ≡ size_of_kind k
Sized k (some dims) src =
    (length src ≡ array_size k dims.count) × (length src ≡ size_of_kind k * dims.count)

module _ (Z : Serializer) where
  abbrev pub encoded_put : Bool → Kind → Option Dimensions → Bytes → Result Bytes
  encoded_put m k none src = encoded Z m k src
  encoded_put m k (some dims) src = encoded_array Z m k src dims

  abbrev pub serialize_put : Kind → Option Dimensions → Bytes → Result Bytes
  serialize_put k none src = Z.serialize k src
  serialize_put k (some dims) src = Z.serialize_array k src dims

  abbrev pub deserialize_put : Kind → Option Dimensions → Bytes → Bytes → Result Bytes
  deserialize_put k none dst bytes = Z.deserialize k dst bytes
  deserialize_put k (some dims) dst bytes = Z.deserialize_array k dst bytes dims

  module _ (S : Storage) where
    -- `store` without or with dimensions, and `load`.
    abbrev pub put : Bool → Kind → Option Dimensions → Bytes → Bytes → Action S.State (Unit {0})
    put m k none id src = store S Z m k id src
    put m k (some dims) id src = store_array S Z m k id src dims

    abbrev pub get : Bool → Kind → Option Dimensions → Bytes → Bytes → Action S.State Bytes
    get m k none id dst = load S Z m k id dst
    get m k (some dims) id dst = load_array S Z m k id dst dims

module _ (S : Storage) (M : Meaning S) (L : IsStorage S M) (Z : Serializer)
    (R : IsRoundTrip Z) where
  pub put-Holds :
      (m : Bool) (k : Kind) (o : Option Dimensions) (id src bytes : Bytes) (s : S.State)
      → Sized k o src
      → encoded_put Z m k o src ≡ ok bytes
      → M.IsValid s
      → M.IsKey id
      → StoreRoom S M m s id (Z.est_encoded_size (put_size k o)) bytes
      → (s' : S.State) × (put Z S m k o id src s ≡ (ok tt, s'))
        × Holds S M s id (Z.est_encoded_size (put_size k o)) bytes s'
  put-Holds m k none id src bytes s sized e v key room =
      store-Holds S M L Z R m k id src bytes s sized e v key room
  put-Holds m k (some dims) id src bytes s sized e v key room =
      store_array-Holds S M L Z R m k id src dims bytes s sized.0 sized.1 e v key room

  pub get-held :
      (m : Bool) (k : Kind) (o : Option Dimensions) (id dst v out : Bytes) (s : S.State)
      → M.IsValid s
      → M.IsKey id
      → M.value s id ≡ some v
      → deserialize_put Z k o dst v ≡ ok out
      → get Z S m k o id dst s ≡ (ok out, s)
  get-held m k none id dst v out s valid key held d =
      load-held S M L Z R m k id dst v out s valid key held d
  get-held m k (some dims) id dst v out s valid key held d =
      load_array-held S M L Z R m k id dst dims v out s valid key held d

  pub serialized_put :
      (m : Bool) (k : Kind) (o : Option Dimensions) (src bytes : Bytes)
      → Sized k o src
      → encoded_put Z m k o src ≡ ok bytes
      → serialize_put Z k o src ≡ ok bytes
  serialized_put m k none src bytes sized e = serialized S M L Z R m k src bytes sized e
  serialized_put m k (some dims) src bytes sized e =
      serialized_array S M L Z R m k src dims bytes sized.0 sized.1 e

  pub deserialized_put :
      (k : Kind) (o : Option Dimensions) (src dst bytes junk : Bytes)
      → Sized k o src
      → length dst ≡ length src
      → serialize_put Z k o src ≡ ok bytes
      → Room (Z.est_encoded_size (put_size k o)) bytes junk
      → deserialize_put Z k o dst (bytes ++ junk) ≡ ok src
  deserialized_put k none src dst bytes junk sized fits made room =
      R.single k src dst bytes junk sized (fits ∙ sized) made room
  deserialized_put k (some dims) src dst bytes junk sized fits made room =
      R.array k src dst dims bytes junk sized.0 sized.1 fits made room
