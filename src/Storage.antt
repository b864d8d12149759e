-- ===== src/Storage.antt =====
-- include/pmemcpy/storage: the storage back ends.
pub mod Action
pub mod Factory
pub mod Interface
pub mod Libpmemobj
pub mod Hashtable
pub mod Files
pub mod Mappings
pub mod Directory
pub mod Posix
pub mod PmdkFs
