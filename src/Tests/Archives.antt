-- ===== src/Tests/Archives.antt =====
-- The serializers that write to streams, on archives that hold the length of what they have and a NUL, and vectors
-- over the caller's memory.
use pmemcpy.Base.{
  ℕ, suc, ◌+◌, ◌<◌, ◌≡◌, ◌↔◌, refl, sym, ap, ◌∙◌, true, false, Option, none, some, List, [], ◌∷◌,
  ◌++◌, append-nil, flatten, Bytes, codes, ◌==◌, leb, if◌then◌else◌, length, length-append, take,
  ◌/◌, ◌-◌, ◌^◌, arith,
}
use pmemcpy.Util.Error.{ok, raise, ◌>>=◌}
use pmemcpy.Util.VectorPtr.{Vector, temp, vector_elements, assign, assign-vector_elements}
use pmemcpy.Storage.Hashtable.Object.{Object, empty_table, hashtable_storage}
use pmemcpy.Storage.Hashtable.Object.Mapped.{IsMapped}
use pmemcpy.Storage.Hashtable.{Pool}
use pmemcpy.Storage.Interface.{Storage}
use pmemcpy.Storage.Libpmemobj.{Pmdk, PoolLibrary}
use pmemcpy.Serialize.Serializer.{Serializer}
use pmemcpy.Serialize.Element.{u8, u16, elements}
use pmemcpy.Serialize.Dimensions.{Dimensions, dimensions, to_size_t}
use pmemcpy.Util.Numbers.{pos}
use pmemcpy.Serialize.Boost
use pmemcpy.Serialize.Boost.{BoostArchive, IsBoost}
use pmemcpy.Serialize.Boost.Reading.{deserialize-boost}
use pmemcpy.Serialize.Cereal.{CerealArchive}
use pmemcpy.Serialize.Msgpack
use pmemcpy.Serialize.Msgpack.{MsgpackLib, IsPacking}
use pmemcpy.Serialize.Msgpack.Plain.{deserialize_array-msgpack}
use pmemcpy.Pmem.{store, store_array}
use pmemcpy.Pmem.Emulation.{
  read_penalty, write_penalty, add_read_penalty, add_write_penalty, nsleep-penalties,
}
use pmemcpy.Pmem.Streamed.{boost_type, get_stream, no_buffer, store-stream}
use pmemcpy.Tests.Machine.{floats, pmdk, write_strings, read_strings, read_strings-write_strings}

-- The number of bytes, a NUL and the bytes.
abbrev put : Bytes → Bytes
put x = suc (length x) ∷ 0 ∷ x

abbrev get : Bytes → Option Bytes
get (n ∷ c ∷ x) = if suc (length x) == n then some x else none
get _ = none

abbrev one : Option Bytes → Option (List Bytes)
one none = none
one (some x) = some (x ∷ [])

get_cut_lem : (x text : Bytes) (c : ℕ) (rest : Bytes) → put x ≡ text ++ (c ∷ rest) → get text ≡ none
get_cut_lem x [] c rest e = refl
get_cut_lem x (n ∷ []) c rest e = refl
get_cut_lem x (n ∷ m ∷ text) c rest e =
    let count : suc (length x) ≡ n = cc in
    let whole : x ≡ text ++ (c ∷ rest) = cc in
    let short : length x ≡ length text + suc (length rest) =
      ap length whole ∙ length-append text (c ∷ rest) in
    let differ : (suc (length text) == n) ≡ false = ground arith in rw differ refl

abbrev take_binary : ℕ → Bytes → Option Bytes
take_binary n text = if leb n (length text) then some (take n text) else none

abbrev boost_archive : BoostArchive
boost_archive = record {
  put = λ k x. put x;
  put_vector = λ k xs. put (flatten xs);
  get = λ k text. get text;
  get_vector = λ k text. one (get text);
}

boost_archive-IsBoost : IsBoost boost_archive
boost_archive-IsBoost = record {
  put_nul = λ k x. (suc (length x) ∷ [], x, refl);
  put_vector_nul = λ k xs. (suc (length (flatten xs)) ∷ [], flatten xs, refl);
  get_cut = λ k x text c rest e. get_cut_lem x text c rest e;
  get_vector_cut = λ k xs text c rest e. ap one (get_cut_lem (flatten xs) text c rest e);
}

abbrev cereal_archive : CerealArchive
cereal_archive = record {
  put = λ k x. put x;
  put_binary = λ x. x;
  get = λ k text. get text;
  get_binary = take_binary;
}

abbrev unpack_vector : Bytes → Option (List Bytes)
unpack_vector [] = none
unpack_vector (n ∷ b) = read_strings n b

abbrev msgpack_lib : MsgpackLib
msgpack_lib = record {
  pack = λ k x. x;
  pack_vector = λ k xs. length xs ∷ write_strings xs;
  unpack = λ k b. some b;
  unpack_vector = λ k b. unpack_vector b;
}

msgpack_lib-IsPacking : IsPacking msgpack_lib
msgpack_lib-IsPacking = record {
  unpack-pack = λ k x. refl;
  unpack_vector-pack_vector = λ k xs.
      ap (read_strings (length xs)) (sym (append-nil (write_strings xs)))
      ∙ read_strings-write_strings xs [];
}

abbrev source : Bytes
source = 7 ∷ 1 ∷ []

abbrev target : Bytes
target = 0 ∷ 0 ∷ []

-- Two elements of one byte.
abbrev two : Dimensions
unfolding dimensions
two = dimensions (pos 2 ∷ [])

-- The NUL behind a `string_buffer`.
abbrev behind : Bytes
behind = 0 ∷ []

deserialize-boost_example :
    ((b : Bytes)
      → Boost.serialize boost_archive u16 source ≡ ok b
      → Boost.deserialize boost_archive behind u16 target b ≡ raise)
    × ((b : Bytes)
        → Boost.serialize_array boost_archive u16 source two ≡ ok b
        → Boost.deserialize_array boost_archive behind u16 target b two ≡ raise)
deserialize-boost_example =
    deserialize-boost boost_archive boost_archive-IsBoost behind u16 source target two

deserialize_array-msgpack_example :
    (Msgpack.serialize_array msgpack_lib u8 source two >>= λ b.
    Msgpack.deserialize_array msgpack_lib u8 target b two)
    ≡ ok source
unfolding two to_size_t
deserialize_array-msgpack_example =
    deserialize_array-msgpack msgpack_lib msgpack_lib-IsPacking u8 source target two refl refl

assign-vector_elements_example :
    (v : Vector) × (temp 2 ≡ ok v)
    × (vector_elements 1 source v ≡ ok (elements 1 2 source))
    × (assign 1 (elements 1 2 source) v target ≡ ok source)
assign-vector_elements_example = assign-vector_elements 2 1 source target refl refl

nsleep-penalties_example :
    (read_penalty 1000 + 1000 / 68 ≡ 200 + 1000 / 30)
    × (write_penalty 1000 + 1000 / 68 ≡ 25 + 1000 / 8)
    × (((pos 5 ≡ pos 5) × (1000 / 30 < 10 ^ 9 - 200 + 1000 / 68))
        ↔ (add_read_penalty true (pos 5) 1000 ≡ some (5, read_penalty 1000)))
    × (((pos 5 ≡ pos 5) × (1000 / 8 < 10 ^ 9 - 25 + 1000 / 68))
        ↔ (add_write_penalty true (pos 5) 1000 ≡ some (5, write_penalty 1000)))
nsleep-penalties_example = nsleep-penalties (pos 5) 5 1000 (omega arith)

-- libpmemobj, which refuses to allocate objects of 0 bytes.
abbrev machine : Pmdk
machine = record (pmdk 1000 600) {
  alloc = λ n h. if n == 0 then none else (pmdk 1000 600).alloc n h;
}

abbrev machine_pools : PoolLibrary machine
machine_pools = record {
  create = λ path n. some [];
  opens = λ path h. true;
  zalloc = λ n h. some h;
  strerror = λ path. codes "No such file or directory";
  min_pool = 8388608;
  header_size = 24;
  list_size = 32;
  table_size = 8;
}

abbrev pool : Pool machine
pool = record { heap = []; table = some (empty_table 4) }

-- One empty pool, mapped.
abbrev object : Object machine
object = record {
  ppool = some 0;
  nbuckets = 4;
  names = λ path. none;
  pools = λ i. if i == 0 then some pool else none;
  fresh = 1;
}

abbrev object-IsMapped : IsMapped machine object
object-IsMapped = record {
  number = 0;
  pool = pool;
  mapped = refl;
  there = refl;
  valid = record {
    table = empty_table 4;
    rooted = refl;
    counted = refl;
    some_buckets = omega arith;
    chains = λ i. tt;
    disjoint = λ i j d. tt;
  };
}

abbrev S : Storage
S = hashtable_storage floats machine machine_pools

abbrev Z : Serializer
Z = get_stream boost_archive cereal_archive msgpack_lib behind boost_type

store-stream_example :
    (store S Z true u16 (codes "D") source object
      ≡ (no_buffer floats machine machine_pools pool, object))
    × (store_array S Z true u16 (codes "D") source two object
        ≡ (no_buffer floats machine machine_pools pool, object))
store-stream_example =
    store-stream floats machine machine_pools boost_archive cereal_archive msgpack_lib behind
      boost_type u16 (codes "D") source two object object-IsMapped (λ h. refl)
