-- ===== src/Serialize/Streams.antt =====
-- What the serializers over `std::stringstream` share: include/pmemcpy/serialize/boost.h, cereal.h and
-- msgpack.h, which the factory has commented out.
pub mod Text
use pmemcpy.Base.{
  ℕ, Bytes, Bool, true, false, [], ◌∷◌, List, Option, none, some, ◌*◌, ◌==◌, if◌then◌else◌, read_at,
}
use pmemcpy.Util.Error.{Result, ok, raise, fault, ◌>>=◌}
use pmemcpy.Serialize.Element.{Kind, size_of_kind}
use pmemcpy.Serialize.Dimensions.{Dimensions}

-- `est_encoded_size`
abbrev pub est_encoded_size : ℕ → ℕ
est_encoded_size size = 0

-- `serialize(buf, src)` and `serialize(buf, src, dims)`: nothing is written.
abbrev pub serialize_to : Kind → ℕ → Bytes → Result Bytes
serialize_to k room src = ok []

abbrev pub serialize_array_to : Kind → ℕ → Bytes → Dimensions → Result Bytes
serialize_array_to k room src dims = ok []

-- A C string as a `std::string`: the bytes in front of the first NUL, in memory from the string's start
-- on. To read past the end of that memory is a fault.
unfoldable pub c_text : Bytes → Result Bytes
c_text [] = fault
c_text (c ∷ rest) = if c == 0 then ok [] else (c_text rest >>= λ text. ok (c ∷ text))

-- A value that a library read, or the exception that it throws.
abbrev pub loaded {ℓ} : {A : Type ℓ} → Option A → Result A
loaded none = raise
loaded (some a) = ok a
