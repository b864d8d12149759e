-- ===== src/Serialize/Boost.antt =====
-- include/pmemcpy/serialize/boost.h: binary archives of boost::serialization, which is a parameter.
pub mod Reading
use pmemcpy.Base.{ℕ, ◌≡◌, ◌∷◌, ◌++◌, Bytes, List, Option, none, some}
use pmemcpy.Util.Error.{Result, ok, ◌>>=◌}
use pmemcpy.Util.VectorPtr.{temp, vector_elements, assign}
use pmemcpy.Serialize.Element.{Kind, size_of_kind}
use pmemcpy.Serialize.Dimensions.{Dimensions}
use pmemcpy.Serialize.Serializer.{Serializer, checked}
use pmemcpy.Base.{read_at}
use pmemcpy.Serialize.Streams.{est_encoded_size, serialize_to, serialize_array_to, c_text, loaded}

-- An archive with one object in it, and what is read from one; `none` where the library throws.
pub record BoostArchive : Type 0 where
  pub put : Kind → Bytes → Bytes
  pub put_vector : Kind → List Bytes → Bytes
  pub get : Kind → Bytes → Option Bytes
  pub get_vector : Kind → Bytes → Option (List Bytes)

-- A binary archive begins with the length of its signature in 8 bytes, of which all but the first are
-- NUL. To read from an archive that lacks its last bytes throws.
pub record IsBoost (A : BoostArchive) : Type 0 where
  pub put_nul :
      (k : Kind) (x : Bytes) → (front : Bytes) × (rest : Bytes) × (A.put k x ≡ front ++ (0 ∷ rest))
  pub put_vector_nul :
      (k : Kind) (xs : List Bytes)
      → (front : Bytes) × (rest : Bytes) × (A.put_vector k xs ≡ front ++ (0 ∷ rest))
  pub get_cut :
      (k : Kind) (x text : Bytes) (c : ℕ) (rest : Bytes)
      → A.put k x ≡ text ++ (c ∷ rest)
      → A.get k text ≡ none
  pub get_vector_cut :
      (k : Kind) (xs : List Bytes) (text : Bytes) (c : ℕ) (rest : Bytes)
      → A.put_vector k xs ≡ text ++ (c ∷ rest)
      → A.get_vector k text ≡ none

module _ (A : BoostArchive) where
  -- `oarch << src`
  unfoldable pub serialize : Kind → Bytes → Result Bytes
  serialize k src = checked (read_at (size_of_kind k) src) >>= λ x. ok (A.put k x)

  -- `oarch << temp_`
  unfoldable pub serialize_array : Kind → Bytes → Dimensions → Result Bytes
  unfolding temp vector_elements
  serialize_array k src dims = do
    v ← temp dims.count
    xs ← vector_elements (size_of_kind k) src v
    ok (A.put_vector k xs)

module _ (A : BoostArchive) (behind : Bytes) where
  -- `iarch >> dst`, from a stream over the C string at the start of the buffer. `behind` is the memory
  -- behind the buffer: a NUL in a `string_buffer`.
  unfoldable pub deserialize : Kind → Bytes → Bytes → Result Bytes
  unfolding c_text
  deserialize k dst src = c_text (src ++ behind) >>= λ text. loaded (A.get k text)

  -- `iarch >> temp_`
  unfoldable pub deserialize_array : Kind → Bytes → Bytes → Dimensions → Result Bytes
  unfolding temp c_text assign
  deserialize_array k dst src dims = do
    v ← temp dims.count
    text ← c_text (src ++ behind)
    xs ← loaded (A.get_vector k text)
    assign (size_of_kind k) xs v dst

  -- `BoostSerializer`
  abbrev pub boost : Serializer
  boost = record {
    est_encoded_size = est_encoded_size;
    serialize_to = serialize_to;
    serialize_array_to = serialize_array_to;
    serialize = serialize A;
    serialize_array = serialize_array A;
    deserialize = deserialize;
    deserialize_array = deserialize_array;
  }
