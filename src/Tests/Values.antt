-- ===== src/Tests/Values.antt =====
-- Serializers, messages and names at concrete inputs.
use pmemcpy.Base.{◌%◌, ◌≡◌, refl, some, List, [], ◌∷◌, Bytes, codes}
use pmemcpy.Util.Numbers.{ℤ, pos, negsuc, to_string_u}
use pmemcpy.Util.Serializeable.{Arg, str, u64, serialize}
use pmemcpy.Util.Formatter.{format}
use pmemcpy.Util.Formatter.Render.{pieces, fill, in_buffer, format-fill}
use pmemcpy.Util.Error.{ok}
use pmemcpy.Storage.Factory.{pmdk_fs, storage_name, storage_of_name, storage_of_name-storage_name}
use pmemcpy.Serialize.Dimensions.{dimensions, product, size_t_mod, Residues, dimensions-Residues}
use pmemcpy.Serialize.Serializer.{IsRoundTrip}
use pmemcpy.Serialize.CapnProto.{capnproto, capnproto_nocompress}
use pmemcpy.Serialize.CapnProto.RoundTrip.{capnproto-IsRoundTrip, capnproto_nocompress-IsRoundTrip}
use pmemcpy.Serialize.Factory.{
  no_serializer_type, type_to_name, name_to_type, name_to_type-type_to_name,
}
use pmemcpy.Tests.Machine.{floats, capnp, capnp-IsCodec}

abbrev template : Bytes
template = codes "key {} of {} bytes"

abbrev arguments : List (Arg floats)
arguments = str (codes "D") ∷ u64 12 ∷ []

test_format :
    in_buffer floats (fill floats (pieces template) arguments) ≡ some (codes "key D of 12 bytes")
unfolding pieces fill serialize to_string_u
test_format = refl

format-fill_example :
    format floats template arguments ≡ in_buffer floats (fill floats (pieces template) arguments)
format-fill_example = format-fill floats template arguments

-- Three arguments, of which the second is -1.
abbrev sizes : List ℤ
sizes = pos 2 ∷ negsuc 0 ∷ pos 3 ∷ []

dimensions-Residues_example :
    Residues sizes (dimensions sizes).dims
    × ((dimensions sizes).count ≡ product (dimensions sizes).dims % size_t_mod)
dimensions-Residues_example = dimensions-Residues sizes

abbrev pairs : List Bytes
pairs = (1 ∷ 2 ∷ []) ∷ (3 ∷ 4 ∷ []) ∷ []

capnproto-IsRoundTrip_example : IsRoundTrip (capnproto capnp)
capnproto-IsRoundTrip_example = capnproto-IsRoundTrip capnp capnp-IsCodec

capnproto_nocompress-IsRoundTrip_example : IsRoundTrip (capnproto_nocompress capnp)
capnproto_nocompress-IsRoundTrip_example = capnproto_nocompress-IsRoundTrip capnp capnp-IsCodec

name_to_type-type_to_name_example :
    name_to_type floats (type_to_name no_serializer_type) ≡ ok no_serializer_type
name_to_type-type_to_name_example = name_to_type-type_to_name floats no_serializer_type

storage_of_name-storage_name_example : storage_of_name floats (storage_name pmdk_fs) ≡ ok pmdk_fs
storage_of_name-storage_name_example = storage_of_name-storage_name floats pmdk_fs
