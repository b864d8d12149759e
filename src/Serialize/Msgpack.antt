-- ===== src/Serialize/Msgpack.antt =====
-- include/pmemcpy/serialize/msgpack.h: objects of msgpack-c, which is a parameter.
pub mod Plain
use pmemcpy.Base.{ℕ, Bytes, List, Option, none, some, ◌≡◌, read_at}
use pmemcpy.Util.Error.{Result, ok, ◌>>=◌}
use pmemcpy.Util.VectorPtr.{temp, vector_elements, assign}
use pmemcpy.Serialize.Element.{Kind, size_of_kind}
use pmemcpy.Serialize.Dimensions.{Dimensions}
use pmemcpy.Serialize.Serializer.{Serializer, checked}
use pmemcpy.Serialize.Streams.{est_encoded_size, serialize_to, serialize_array_to, loaded}

-- An object packed, and what is converted from all of a buffer; `none` where the library throws.
pub record MsgpackLib : Type 0 where
  pub pack : Kind → Bytes → Bytes
  pub pack_vector : Kind → List Bytes → Bytes
  pub unpack : Kind → Bytes → Option Bytes
  pub unpack_vector : Kind → Bytes → Option (List Bytes)

-- What is unpacked from the bytes of a packed object is the object.
pub record IsPacking (M : MsgpackLib) : Type 0 where
  pub unpack-pack : (k : Kind) (x : Bytes) → M.unpack k (M.pack k x) ≡ some x
  pub unpack_vector-pack_vector :
      (k : Kind) (xs : List Bytes) → M.unpack_vector k (M.pack_vector k xs) ≡ some xs

module _ (M : MsgpackLib) where
  -- `msgpack::pack(ss, src)`
  unfoldable pub serialize : Kind → Bytes → Result Bytes
  serialize k src = checked (read_at (size_of_kind k) src) >>= λ x. ok (M.pack k x)

  -- `msgpack::pack(ss, temp_)`
  unfoldable pub serialize_array : Kind → Bytes → Dimensions → Result Bytes
  unfolding temp vector_elements
  serialize_array k src dims = do
    v ← temp dims.count
    xs ← vector_elements (size_of_kind k) src v
    ok (M.pack_vector k xs)

  -- `deserialized.convert(dst)`, from all bytes of the buffer.
  unfoldable pub deserialize : Kind → Bytes → Bytes → Result Bytes
  deserialize k dst src = loaded (M.unpack k src)

  -- `deserialized.convert(temp_)`
  unfoldable pub deserialize_array : Kind → Bytes → Bytes → Dimensions → Result Bytes
  unfolding temp assign
  deserialize_array k dst src dims = do
    v ← temp dims.count
    xs ← loaded (M.unpack_vector k src)
    assign (size_of_kind k) xs v dst

  -- `MsgpackSerializer`
  abbrev pub msgpack : Serializer
  msgpack = record {
    est_encoded_size = est_encoded_size;
    serialize_to = serialize_to;
    serialize_array_to = serialize_array_to;
    serialize = serialize;
    serialize_array = serialize_array;
    deserialize = deserialize;
    deserialize_array = deserialize_array;
  }
