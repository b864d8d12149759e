-- ===== src/Serialize/CapnProto.antt =====
-- include/pmemcpy/serialize/capnproto.h and capnproto_nocompress.h: messages of Cap'n Proto's schema
-- `PrimitiveData`, packed or flat. Cap'n Proto itself is a parameter.
pub mod RoundTrip
use pmemcpy.Base.{
  ℕ, zero, suc, ◌+◌, ◌*◌, ◌%◌, ◌≡◌, Bool, true, false, Option, none, some, List, [], ◌∷◌, ◌++◌,
  Bytes, leb, if◌then◌else◌, length, take, read_at,
}
use mathlib.Core.Logic.{ite}
use pmemcpy.Util.Error.{Result, ok, raise, fault, ◌>>=◌}
use pmemcpy.Serialize.Element.{Kind, size_of_kind, elements, copy_elements}
use pmemcpy.Serialize.Dimensions.{Dimensions, size_t_mod}
use pmemcpy.Serialize.Serializer.{Serializer, checked}

pub Kind-discrete : Discrete Kind
Kind-discrete = hlevel

-- The union of `PrimitiveData` in basic_capnp.capnp: one value of a kind, or a list of them.
pub data Message : Type 0 where
  value : Kind → Bytes → Message
  arr : Kind → List Bytes → Message

-- What the serializers use of Cap'n Proto. A reader gives `none` where it throws.
pub record Capnp : Type 0 where
  -- Whether the builder can hold the message; it throws if not.
  pub builds : Message → Bool
  pub write_packed_message : Message → Bytes
  pub packed_message_reader : Bytes → Option Message
  pub write_message : Message → Bytes
  pub flat_array_message_reader : Bytes → Option Message
  -- What stands in memory behind a buffer of these bytes.
  pub behind : Bytes → Bytes

-- Readers give back what was written, and stop at the end of the message.
pub record IsCodec (C : Capnp) : Type 0 where
  pub packed :
      (m : Message) (rest : Bytes)
      → C.builds m ≡ true
      → C.packed_message_reader (C.write_packed_message m ++ rest) ≡ some m
  pub flat :
      (m : Message) (rest : Bytes)
      → C.builds m ≡ true
      → C.flat_array_message_reader (C.write_message m ++ rest) ≡ some m

-- `num.get##CT()`; another member of the union than the one set is undefined behaviour.
unfoldable pub get_value : Kind → Message → Result Bytes
get_value k (value j x) = ite (Kind-discrete k j) (ok x) fault
get_value k (arr j xs) = fault

-- `nums.get##CT##Arr()`
unfoldable pub get_arr : Kind → Message → Result (List Bytes)
get_arr k (value j x) = fault
get_arr k (arr j xs) = ite (Kind-discrete k j) (ok xs) fault

-- A reader's message, or the exception that it throws.
abbrev pub read_message : Option Message → Result Message
read_message none = raise
read_message (some m) = ok m

-- The methods, over the writer and the reader in which the two serializers differ.
module _ (builds : Message → Bool) (write : Message → Bytes) (read : Bytes → Option Message) where
  -- Into a `kj::ArrayOutputStream` over a buffer of `room` bytes, which throws if they do not suffice.
  unfoldable pub write_into : ℕ → Message → Result Bytes
  write_into room m =
      if builds m then (if leb (length (write m)) room then ok (write m) else raise) else raise

  -- Into a `kj::VectorOutputStream`, which grows; the bytes are copied to a `malloc_buffer`.
  unfoldable pub write_out : Message → Result Bytes
  write_out m = if builds m then ok (write m) else raise

  unfoldable pub value_message : Kind → Bytes → Result Message
  value_message k src = checked (read_at (size_of_kind k) src) >>= λ x. ok (value k x)

  -- `kj::ArrayPtr<T>(src, count)`
  unfoldable pub array_message : Kind → Bytes → ℕ → Result Message
  array_message k src count = checked (read_at (count * size_of_kind k) src) >>= λ xs.
      ok (arr k (elements (size_of_kind k) count xs))

  unfoldable pub serialize_to : Kind → ℕ → Bytes → Result Bytes
  unfolding value_message write_into
  serialize_to k room src = value_message k src >>= write_into room

  unfoldable pub serialize_array_to : Kind → ℕ → Bytes → Dimensions → Result Bytes
  unfolding array_message write_into
  serialize_array_to k room src dims = array_message k src dims.count >>= write_into room

  unfoldable pub serialize : Kind → Bytes → Result Bytes
  unfolding value_message write_out
  serialize k src = value_message k src >>= write_out

  unfoldable pub serialize_array : Kind → Bytes → Dimensions → Result Bytes
  unfolding array_message write_out
  serialize_array k src dims = array_message k src dims.count >>= write_out

  -- `dst = num.get##CT()`
  unfoldable pub deserialize : Kind → Bytes → Bytes → Result Bytes
  unfolding get_value
  deserialize k dst src = read_message (read src) >>= get_value k

  -- The loop over the list that was stored; the dimensions are not looked at.
  unfoldable pub deserialize_array : Kind → Bytes → Bytes → Dimensions → Result Bytes
  unfolding get_arr copy_elements
  deserialize_array k dst src dims = read_message (read src) >>= get_arr k >>= λ temp.
      checked (copy_elements (size_of_kind k) 0 temp dst)

-- `est_encoded_size` of the two classes.
abbrev pub est_encoded_size : ℕ → ℕ
est_encoded_size size = (size + 256) % size_t_mod

abbrev pub est_encoded_size_nocompress : ℕ → ℕ
est_encoded_size_nocompress size = (size + 128) % size_t_mod

-- `CapnProtoSerializer`
abbrev pub capnproto : Capnp → Serializer
capnproto C =
    let w = C.write_packed_message in
    let r = C.packed_message_reader in
    record {
      est_encoded_size = est_encoded_size;
      serialize_to = serialize_to C.builds w r;
      serialize_array_to = serialize_array_to C.builds w r;
      serialize = serialize C.builds w r;
      serialize_array = serialize_array C.builds w r;
      deserialize = deserialize C.builds w r;
      deserialize_array = deserialize_array C.builds w r;
    }

-- The reader is given the buffer's size as a number of words of eight bytes: what it may look at goes on
-- in the memory behind the buffer.
abbrev pub words_at : Capnp → Bytes → Bytes
words_at C src = take (8 * length src) (src ++ C.behind src)

-- `CapnProtoNoCompressSerializer`
abbrev pub capnproto_nocompress : Capnp → Serializer
capnproto_nocompress C =
    let w = C.write_message in
    let r : Bytes → Option Message = λ src. C.flat_array_message_reader (words_at C src) in
    record {
      est_encoded_size = est_encoded_size_nocompress;
      serialize_to = serialize_to C.builds w r;
      serialize_array_to = serialize_array_to C.builds w r;
      serialize = serialize C.builds w r;
      serialize_array = serialize_array C.builds w r;
      deserialize = deserialize C.builds w r;
      deserialize_array = deserialize_array C.builds w r;
    }
