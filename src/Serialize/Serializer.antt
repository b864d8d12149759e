-- ===== src/Serialize/Serializer.antt =====
-- include/pmemcpy/serialize/serializer.h: the abstract class `Serializer<T>`, for every element type
-- at once, and what its users expect of it.
use pmemcpy.Base.{ℕ, ◌*◌, ◌%◌, ◌≤◌, ◌≡◌, ◌⊎◌, Option, none, some, [], ◌++◌, Bytes, length}
use pmemcpy.Util.Error.{Result, ok, fault}
use pmemcpy.Serialize.Element.{Kind, size_of_kind}
use pmemcpy.Serialize.Dimensions.{Dimensions, size_t_mod}

-- Values and arrays are the bytes of their memory. A method that serializes into a buffer gets the
-- buffer's size and gives the bytes that it writes at its start; one that deserializes gets the
-- destination's memory and gives that memory afterwards.
pub record Serializer : Type 0 where
  pub est_encoded_size : ℕ → ℕ
  pub serialize_to : Kind → ℕ → Bytes → Result Bytes
  pub serialize_array_to : Kind → ℕ → Bytes → Dimensions → Result Bytes
  pub serialize : Kind → Bytes → Result Bytes
  pub serialize_array : Kind → Bytes → Dimensions → Result Bytes
  pub deserialize : Kind → Bytes → Bytes → Result Bytes
  pub deserialize_array : Kind → Bytes → Bytes → Dimensions → Result Bytes

-- Memory read behind its end is a fault.
abbrev pub checked : Option Bytes → Result Bytes
checked none = fault
checked (some bytes) = ok bytes

-- `sizeof(T)*count`, in `size_t`.
abbrev pub array_size : Kind → ℕ → ℕ
array_size k count = size_of_kind k * count % size_t_mod

-- The buffer that held `bytes` in front of `junk` has no junk, or is of the estimated size.
abbrev pub Room : ℕ → Bytes → Bytes → Type 0
Room estimate bytes junk = (junk ≡ []) ⊎ (length (bytes ++ junk) ≡ estimate)

-- What was serialized, by either method, is read back, whatever the rest of its buffer holds.
pub record IsRoundTrip (S : Serializer) : Type 0 where
  pub single_to :
      (k : Kind) (src bytes : Bytes)
      → length src ≡ size_of_kind k
      → S.serialize_to k (S.est_encoded_size (size_of_kind k)) src ≡ ok bytes
      → (S.serialize k src ≡ ok bytes) × (length bytes ≤ S.est_encoded_size (size_of_kind k))
  pub single :
      (k : Kind) (src dst bytes junk : Bytes)
      → length src ≡ size_of_kind k
      → length dst ≡ size_of_kind k
      → S.serialize k src ≡ ok bytes
      → Room (S.est_encoded_size (size_of_kind k)) bytes junk
      → S.deserialize k dst (bytes ++ junk) ≡ ok src
  pub array_to :
      (k : Kind) (src : Bytes) (dims : Dimensions) (bytes : Bytes)
      → length src ≡ array_size k dims.count
      → length src ≡ size_of_kind k * dims.count
      → S.serialize_array_to k (S.est_encoded_size (array_size k dims.count)) src dims ≡ ok bytes
      → (S.serialize_array k src dims ≡ ok bytes)
        × (length bytes ≤ S.est_encoded_size (array_size k dims.count))
  pub array :
      (k : Kind) (src dst : Bytes) (dims : Dimensions) (bytes junk : Bytes)
      → length src ≡ array_size k dims.count
      → length src ≡ size_of_kind k * dims.count
      → length dst ≡ length src
      → S.serialize_array k src dims ≡ ok bytes
      → Room (S.est_encoded_size (array_size k dims.count)) bytes junk
      → S.deserialize_array k dst (bytes ++ junk) dims ≡ ok src

pub ok-injective : {a b : Bytes} → ◌≡◌ {A = Result Bytes} (ok a) (ok b) → a ≡ b
ok-injective h = cc
