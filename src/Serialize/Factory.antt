-- ===== src/Serialize/Factory.antt =====
-- include/pmemcpy/serialize/serializer_factory.h
use pmemcpy.Base.{
  ◌≡◌, refl, sym, [], ◌∷◌, Bytes, codes, bytes_equal, bytes_equal_iff, if◌then◌else◌, Bool-cases,
  inl, inr, ◌⊎◌, ◌≢◌,
}
use pmemcpy.Util.Numbers.{Floats}
use pmemcpy.Util.Serializeable.{str}
use pmemcpy.Util.Error.{Result, ok, throw_error}
use pmemcpy.Util.Errors.{invalid_serializer_type}
use pmemcpy.Serialize.Serializer.{Serializer, IsRoundTrip}
use pmemcpy.Serialize.NoSerializer.{no_serializer, no_serializer-IsRoundTrip}
use pmemcpy.Serialize.CapnProto.{Capnp, IsCodec, capnproto, capnproto_nocompress}
use pmemcpy.Serialize.CapnProto.RoundTrip.{capnproto-IsRoundTrip, capnproto_nocompress-IsRoundTrip}

pub data SerializerType : Type 0 where
  capnproto_type capnproto_nocompress_type no_serializer_type : SerializerType

unfoldable pub type_to_name : SerializerType → Bytes
type_to_name capnproto_type = codes "CAPNPROTO"
type_to_name capnproto_nocompress_type = codes "CAPNPROTO_NOCOMPRESS"
type_to_name no_serializer_type = codes "NO_SERIALIZER"

unfoldable pub name_to_type : Floats → Bytes → Result SerializerType
name_to_type fl name =
    if bytes_equal name (codes "CAPNPROTO")
    then ok capnproto_type
    else if bytes_equal name (codes "CAPNPROTO_NOCOMPRESS")
    then ok capnproto_nocompress_type
    else if bytes_equal name (codes "NO_SERIALIZER")
    then ok no_serializer_type
    else throw_error fl invalid_serializer_type (str name ∷ [])

-- `SerializerFactory<T>::get`
unfoldable pub get : Capnp → SerializerType → Serializer
get C capnproto_type = capnproto C
get C capnproto_nocompress_type = capnproto_nocompress C
get C no_serializer_type = no_serializer

-- Every serializer that the factory makes reads back what it wrote.
pub get-IsRoundTrip : (C : Capnp) → IsCodec C → (t : SerializerType) → IsRoundTrip (get C t)
unfolding get
get-IsRoundTrip C L capnproto_type = capnproto-IsRoundTrip C L
get-IsRoundTrip C L capnproto_nocompress_type = capnproto_nocompress-IsRoundTrip C L
get-IsRoundTrip C L no_serializer_type = no_serializer-IsRoundTrip

-- Every name is either that of a type, to which it is converted, or that of none, and then the
-- conversion throws INVALID_SERIALIZER_TYPE.
pub name_to_type-cases :
    (fl : Floats) (name : Bytes)
    → ((t : SerializerType) × (type_to_name t ≡ name) × (name_to_type fl name ≡ ok t))
      ⊎ (((t : SerializerType) → type_to_name t ≢ name)
          × (name_to_type fl name ≡ throw_error fl invalid_serializer_type (str name ∷ [])))
unfolding name_to_type type_to_name
name_to_type-cases fl name =
    let a = bytes_equal_iff name (codes "CAPNPROTO") in
    let b = bytes_equal_iff name (codes "CAPNPROTO_NOCOMPRESS") in
    let c = bytes_equal_iff name (codes "NO_SERIALIZER") in
    elim (Bool-cases (bytes_equal name (codes "CAPNPROTO"))) [
      | inl yes_a ↦ inl (capnproto_type, sym (a.0 yes_a), rw yes_a)
      | inr no_a ↦ elim (Bool-cases (bytes_equal name (codes "CAPNPROTO_NOCOMPRESS"))) [
        | inl yes_b ↦ inl (capnproto_nocompress_type, sym (b.0 yes_b), rw (no_a, yes_b))
        | inr no_b ↦ elim (Bool-cases (bytes_equal name (codes "NO_SERIALIZER"))) [
          | inl yes_c ↦ inl (no_serializer_type, sym (c.0 yes_c), rw (no_a, no_b, yes_c))
          | inr no_c ↦ inr (
            elim [
              | capnproto_type ↦ λ h. cc (a.1 (sym h), no_a)
              | capnproto_nocompress_type ↦ λ h. cc (b.1 (sym h), no_b)
              | no_serializer_type ↦ λ h. cc (c.1 (sym h), no_c)
            ],
            rw (no_a, no_b, no_c),
          )
        ]
      ]
    ]

-- The conversions between types and names are inverse on the types.
pub name_to_type-type_to_name :
    (fl : Floats) (t : SerializerType) → name_to_type fl (type_to_name t) ≡ ok t
unfolding name_to_type type_to_name bytes_equal
name_to_type-type_to_name fl capnproto_type = refl
name_to_type-type_to_name fl capnproto_nocompress_type = refl
name_to_type-type_to_name fl no_serializer_type = refl
