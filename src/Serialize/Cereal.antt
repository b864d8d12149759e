-- ===== src/Serialize/Cereal.antt =====
-- include/pmemcpy/serialize/cereal.h: portable binary archives of cereal, which is a parameter.
use pmemcpy.Base.{ℕ, ◌++◌, Bytes, Option, read_at, write_at}
use pmemcpy.Util.Error.{Result, ok, ◌>>=◌}
use pmemcpy.Serialize.Element.{Kind, size_of_kind}
use pmemcpy.Serialize.Dimensions.{Dimensions}
use pmemcpy.Serialize.Serializer.{Serializer, checked, array_size}
use pmemcpy.Serialize.Streams.{est_encoded_size, serialize_to, serialize_array_to, c_text, loaded}

-- An archive with one object in it, and what is read from one; `none` where the library throws.
-- `get_binary` reads as many bytes as it is asked for.
pub record CerealArchive : Type 0 where
  pub put : Kind → Bytes → Bytes
  pub put_binary : Bytes → Bytes
  pub get : Kind → Bytes → Option Bytes
  pub get_binary : ℕ → Bytes → Option Bytes

module _ (A : CerealArchive) where
  -- `oarchive(src)`
  unfoldable pub serialize : Kind → Bytes → Result Bytes
  serialize k src = checked (read_at (size_of_kind k) src) >>= λ x. ok (A.put k x)

  -- `oarchive(cereal::binary_data(src, size))`
  unfoldable pub serialize_array : Kind → Bytes → Dimensions → Result Bytes
  serialize_array k src dims =
      checked (read_at (array_size k dims.count) src) >>= λ xs. ok (A.put_binary xs)

module _ (A : CerealArchive) (behind : Bytes) where
  -- `iarchive(dst)`, from a stream over the C string at the start of the buffer. `behind` is the memory
  -- behind the buffer: a NUL in a `string_buffer`.
  unfoldable pub deserialize : Kind → Bytes → Bytes → Result Bytes
  unfolding c_text
  deserialize k dst src = c_text (src ++ behind) >>= λ text. loaded (A.get k text)

  -- `iarchive(cereal::binary_data(dst, size))`
  unfoldable pub deserialize_array : Kind → Bytes → Bytes → Dimensions → Result Bytes
  unfolding c_text
  deserialize_array k dst src dims = do
    text ← c_text (src ++ behind)
    xs ← loaded (A.get_binary (array_size k dims.count) text)
    checked (write_at 0 xs dst)

  -- `CerealSerializer`
  abbrev pub cereal : Serializer
  cereal = record {
    est_encoded_size = est_encoded_size;
    serialize_to = serialize_to;
    serialize_array_to = serialize_array_to;
    serialize = serialize A;
    serialize_array = serialize_array A;
    deserialize = deserialize;
    deserialize_array = deserialize_array;
  }
