-- ===== src/Serialize/Msgpack/Plain.antt =====
-- What the serializer over msgpack reads of what it wrote into a buffer of its own.
use pmemcpy.Base.{◌*◌, ◌≡◌, Bytes, length, read_at_whole}
use pmemcpy.Util.Error.{ok, ◌>>=◌}
use pmemcpy.Util.VectorPtr.{assign-vector_elements}
use pmemcpy.Serialize.Element.{Kind, size_of_kind}
use pmemcpy.Serialize.Dimensions.{Dimensions}
use pmemcpy.Serialize.Msgpack.{
  MsgpackLib, IsPacking, serialize, serialize_array, deserialize, deserialize_array,
}

module _ (M : MsgpackLib) (L : IsPacking M) where
  -- A value that is serialized to a buffer of its own is read back.
  pub deserialize-msgpack :
      (k : Kind) (src dst : Bytes)
      → length src ≡ size_of_kind k
      → (serialize M k src >>= deserialize M k dst) ≡ ok src
  unfolding serialize deserialize
  deserialize-msgpack k src dst sized =
      rw (read_at_whole (size_of_kind k) src sized, L.unpack-pack k src)

  -- An array that is serialized to a buffer of its own, through a vector over its memory, is read back
  -- into memory of its size, through a vector over that.
  pub deserialize_array-msgpack :
      (k : Kind) (src dst : Bytes) (dims : Dimensions)
      → length src ≡ dims.count * size_of_kind k
      → length dst ≡ length src
      → (serialize_array M k src dims >>= λ b. deserialize_array M k dst b dims) ≡ ok src
  unfolding serialize_array deserialize_array
  deserialize_array-msgpack k src dst dims sized same =
      let (v, made, viewed, assigned) =
        assign-vector_elements dims.count (size_of_kind k) src dst sized same in
      rw (made, viewed, L.unpack_vector-pack_vector k _, assigned)
