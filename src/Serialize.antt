-- ===== src/Serialize.antt =====
-- include/pmemcpy/serialize: dimensions, the serializer interface and the serializers in use.
pub mod Dimensions
pub mod Element
pub mod Serializer
pub mod NoSerializer
pub mod CapnProto
pub mod Factory
pub mod Streams
pub mod Boost
pub mod Cereal
pub mod Msgpack
