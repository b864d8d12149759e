-- ===== src/Drivers/Threads.antt =====
-- test/performance/e2e/3d/write_3d_pmemcpy_omp.cpp and read_3d_pmemcpy_omp.cpp: what a thread does. The
-- offsets of its block, which both programs compute and do not use, are left out.
use pmemcpy.Base.{
  ℕ, zero, suc, ◌*◌, ◌/◌, ◌%◌, Bool, Option, none, some, List, [], ◌∷◌, ◌++◌, map, Bytes, codes,
  ltb, if◌then◌else◌,
}
use pmemcpy.Util.Numbers.{ℤ, to_string_d}
use pmemcpy.Util.Error.{Result, ok, fault}
use pmemcpy.Storage.Action.{Action, ◌>>=◌, lift}
use pmemcpy.Storage.Interface.{Storage}
use pmemcpy.Serialize.Element.{u64, f64, size_of_kind}
use pmemcpy.Serialize.Dimensions.{Dimensions, dimensions, to_size_t, size_t_mod}
use pmemcpy.Serialize.Serializer.{Serializer}
use pmemcpy.Pmem.{load, load_array}
use pmemcpy.Pmem.Sequences.{Put}
use pmemcpy.Drivers.{Platform, Grid, to_int, nx, ny, nz, block}

-- A call of `store` in the writer: of one of three sizes, or of an array by its letter, by a thread.
pub data Call : Type 0 where
  store_nx : Call
  store_ny : Call
  store_nz : Call
  store_array : ℕ → ℕ → Call

-- "A", "B", ..., "J"
abbrev pub tags : List ℕ
tags = codes "ABCDEFGHIJ"

-- `"A" + std::to_string(rank)`
unfoldable pub array_id : ℕ → ℕ → Bytes
array_id tag rank = (tag ∷ []) ++ to_string_d (ℤ.pos rank)

unfoldable pub call_id : Call → Bytes
unfolding array_id
call_id store_nx = codes "nx"
call_id store_ny = codes "ny"
call_id store_nz = codes "nz"
call_id (store_array tag rank) = array_id tag rank

-- The calls of a thread.
abbrev pub array_calls : ℕ → List ℕ → List Call
array_calls rank ts = map (λ tag. store_array tag rank) ts

abbrev pub calls : ℕ → List Call
calls zero = store_nx ∷ store_ny ∷ store_nz ∷ array_calls zero tags
calls (suc r) = array_calls (suc r) tags

-- `num_threads(nprocs)`; what a negative number of threads does is undefined, and then nothing is stored.
unfoldable pub team : ℤ → ℕ → List Call
team (ℤ.pos n) rank = let own = calls rank in if ltb rank n then own else []
team (ℤ.negsuc n) rank = []

-- What a call stores, by the data of each thread.
unfoldable pub put_of : Platform → Grid → (ℕ → Bytes) → Call → Put
unfolding call_id
put_of K g written store_nx = record {
  id = codes "nx";
  kind = u64;
  dims = none;
  src = K.uint64 (nx g);
}
put_of K g written store_ny = record {
  id = codes "ny";
  kind = u64;
  dims = none;
  src = K.uint64 (ny g);
}
put_of K g written store_nz = record {
  id = codes "nz";
  kind = u64;
  dims = none;
  src = K.uint64 (nz g);
}
put_of K g written (store_array tag rank) = record {
  id = array_id tag rank;
  kind = f64;
  dims = some (block g);
  src = written rank;
}

-- A quotient of unsigned integers; by zero, it is undefined.
unfoldable pub quotient : ℕ → ℕ → Result ℕ
quotient n zero = fault
quotient n (suc d) = ok (n / suc d)

module _ (S : Storage) (Z : Serializer) (K : Platform) (use_mmap : Bool) (g : Grid) (rank : ℕ) where
  -- The loop over the tags, each into the memory that the load before it left: what each load leaves.
  unfoldable pub load_tags : Dimensions → List ℕ → Bytes → Action S.State (List Bytes)
  load_tags dims [] memory = lift (ok [])
  load_tags dims (tag ∷ ts) memory = do
    bytes ← load_array S Z use_mmap f64 (array_id tag rank) memory dims
    rest ← load_tags dims ts bytes
    lift (ok (bytes ∷ rest))

  abbrev pub allocated : Option Bytes → Result Bytes
  allocated none = fault
  allocated (some memory) = ok memory

  -- The arrays, of the sizes that were computed for them.
  unfoldable pub load_block : ℕ → ℕ → ℕ → Action S.State (List Bytes)
  unfolding load_tags
  load_block size_x size_y size_z = do
    memory ← lift (allocated (K.malloc (size_of_kind f64 * size_x * size_y * size_z % size_t_mod)))
    load_tags (dimensions (ℤ.pos size_x ∷ ℤ.pos size_y ∷ ℤ.pos size_z ∷ [])) tags memory

  -- A thread of the reader, which is given the numbers of processes and not the sizes.
  unfoldable pub read_thread : Action S.State (List Bytes)
  unfolding load_block
  read_thread = do
    x ← load S Z use_mmap u64 (codes "nx") K.variable
    y ← load S Z use_mmap u64 (codes "ny") K.variable
    z ← load S Z use_mmap u64 (codes "nz") K.variable
    dim_x ← lift (quotient (K.uint64_of x) g.npx)
    dim_y ← lift (quotient (K.uint64_of y) g.npy)
    dim_z ← lift (quotient (K.uint64_of z) g.npz)
    load_block (to_size_t (to_int dim_x)) (to_size_t (to_int dim_y)) (to_size_t (to_int dim_z))
