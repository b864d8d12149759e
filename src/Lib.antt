-- ===== src/Lib.antt =====
-- pmemcpy, a library that keeps values in persistent memory under string keys, in
-- include/pmemcpy. `PMEM` (memcpy.h) serializes a value or an array with a serializer of the
-- factory (serialize/) and hands the bytes to a storage back end (storage/); with `use_mmap` it
-- serializes straight into the memory that the back end allocated. Errors are thrown from a table
-- (util/errors.h) with messages made by a formatter (util/serializeable.h).
--
-- The files, and the parts that they model:
--   Base, with its children: lists, memory and strings of bytes, Boolean tests.
--   Util.Numbers, Util.Serializeable, Util.Serializeable.Writing, Util.Formatter: the interface
--     `Serializeable`, `SizeType`, `Arg` and `Formatter::format`;
--     Util.Formatter.Render has the template that a format is read as, Util.Numbers.Printing the digits
--     of a number read back.
--   Util.Buffers, Util.Buffers.Text, Util.Buffers.Unowned, Util.Buffers.Generic: the interface
--     `generic_buffer`, `malloc_buffer`, over a C heap that is a
--     parameter, `string_buffer` and `pmem_buffer`; Util.Buffers.Owning has the proofs.
--   Util.VectorPtr: `NoAllocator`, and what `std::vector` does with it.
--   Util.Trace: `AutoTrace`, over a clock that is a parameter; Util.Trace.Nesting has the proofs.
--   Util.Error, Util.Errors: `Error` and the table. A call gives a `Result`: a value, a thrown
--     error, an exception of a library, or a fault where the behaviour of the code is undefined.
--   Storage.Action: calls that change a state, which an exception leaves as it was then.
--   Storage.Interface: `Storage`, and the contract that a client of it relies on.
--   Storage.Factory: the storage types, their names and `StorageFactory::get`; Storage.Factory.Implements
--     has the contract of all that it makes.
--   Storage.Libpmemobj: libpmemobj and `std::hash`, as parameters with the documented behaviour.
--   Storage.Hashtable: the operations of `PMDKHashtableStorage` on a pool. Its children have the good
--     order of a pool with the values that it holds (Chains, Reading), `store` and `alloc` (Inserting,
--     Storing, Storing.Filling, Storing.Failing, Storing.Outcomes, Storing.Overlong, Storing.Colliding),
--     `load` in terms of the bytes of the keys (Latest), `free` (Removing, Freeing),
--     sequences of operations (Sessions, Sessions.Draining) and the object with its life cycle (Object,
--     Object.Mapped, Object.Lifetime, Object.Implements).
--   Storage.Hashtable.Crash: `store` and `alloc` with a note of the objects whose bytes were written and
--     not persisted, and the pools that a crash may leave. Its children have the proofs: Following (the
--     noting operations do what the operations do), Losing and Mapping (what can be lost), Keeping and
--     Sparing (what cannot).
--   Storage.Files, Storage.Directory: the operating system, as a parameter, and the files of a directory
--     as the values of keys; Storage.Directory.Touching has what a change of one file does to these.
--   Storage.Posix: `PosixStorage`; Storage.Posix.Reloading, Storage.Posix.Mapping,
--     Storage.Posix.Removing and Storage.Posix.Implements have the proofs.
--   Storage.PmdkFs: `FilesystemPMDKStorage`, over libpmem as a parameter; Storage.PmdkFs.Implements has
--     the proofs.
--   Storage.Mappings, Storage.Posix.Buffer, Storage.PmdkFs.Buffer: the life of both kinds of
--     `mmap_buffer`, over an address space that is a parameter.
--   Serialize.Dimensions, Serialize.Element, Serialize.Serializer: `Dimensions`, element types, and
--     `Serializer` with its contract.
--   Serialize.NoSerializer, Serialize.CapnProto, Serialize.Factory: the serializers that the factory
--     makes. Cap'n Proto is a parameter.
--   Serialize.Streams, Serialize.Boost, Serialize.Cereal, Serialize.Msgpack: the serializers that the
--     factory has commented out, over their libraries as parameters; Serialize.Streams.Text,
--     Serialize.Boost.Reading and Serialize.Msgpack.Plain have the proofs.
--   Pmem: `PMEM`, over any storage and serializer. Its children have the proofs: Pmem.RoundTrip,
--     Pmem.Independence, Pmem.Putting, Pmem.Sequences and, for the hash table with
--     the serializers of the factory, Pmem.Composed.
--   Pmem.Object: a `PMEM` object, as its constructor makes it over both factories. Pmem.Streamed: `PMEM`
--     over the serializers that are commented out. Pmem.Emulation: the waits of an emulation build.
--   Drivers: test/performance/e2e/3d/write_3d_pmemcpy_omp.cpp and read_3d_pmemcpy_omp.cpp, as clients of
--     `PMEM`: Drivers.Data and Drivers.Threads have what a thread computes, stores and loads,
--     Drivers.Interleaving the orders in which the calls of the threads may come, each call as a whole;
--     Drivers.Latest, Drivers.Keys, Drivers.Sizes, Drivers.RoundTrip and
--     Drivers.Processes have the proofs.
--   Tests: concrete libraries, runs of the model on them, and the theorems at concrete inputs.
--
-- Numbers are natural numbers; `size_t` wraps around where the code multiplies or adds sizes
-- (`% 2 ^ 64`). A value in memory is the list of its bytes. The formatter's buffer has 8192 bytes and
-- a key's array 512, as in the code; `_add` writes a longer key over what stands behind it; the object's default is 1000 buckets. The one loop on fuel prints
-- a number in decimal, with the number plus one as fuel, which is more than it has digits.
--
-- Not modelled: src/serialize/bp4, a copy of ADIOS2's format that no build file compiles; the other
-- programs under test/; calls of one storage that overlap in time; what a crash leaves of a file, and
-- the calls that only matter then (fsync, msync of a live mapping, pmem_persist); a crash in the middle
-- of an operation on a pool; and descriptors that are left open.
pub mod Base
pub mod Util
pub mod Storage
pub mod Serialize
pub mod Pmem
pub mod Drivers
pub mod Tests
