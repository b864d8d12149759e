-- ===== src/Util.antt =====
-- include/pmemcpy/util: sizes, message arguments, the formatter and the errors it builds.
pub mod Numbers
pub mod Serializeable
pub mod Formatter
pub mod Buffers
pub mod VectorPtr
pub mod Trace
pub mod Error
pub mod Errors
