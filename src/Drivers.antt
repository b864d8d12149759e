-- ===== src/Drivers.antt =====
-- test/performance/e2e/3d/write_3d_pmemcpy_omp.cpp and read_3d_pmemcpy_omp.cpp: the two programs that
-- write a grid of doubles through `PMEM`, a block for each thread, and read it again.
pub mod Data
pub mod Threads
pub mod Interleaving
pub mod Latest
pub mod Keys
pub mod Sizes
pub mod RoundTrip
pub mod Processes
use pmemcpy.Base.{
  ℕ, ◌+◌, ◌-◌, ◌*◌, ◌%◌, ◌^◌, ◌<◌, ◌≡◌, Option, none, some, [], ◌∷◌, Bytes, ltb, if◌then◌else◌,
  length,
}
use pmemcpy.Util.Numbers.{ℤ, pos, negsuc}
use pmemcpy.Serialize.Dimensions.{Dimensions, dimensions, size_t_mod}

-- What the programs leave to the machine: the bytes of a `uint64_t` in memory, the bytes of the double
-- that an `int` is converted to, the memory of a new variable, and `malloc`, which may give none.
pub record Platform : Type 0 where
  pub uint64 : ℕ → Bytes
  pub uint64_of : Bytes → ℕ
  pub double_of_int : ℕ → Bytes
  pub variable : Bytes
  pub malloc : ℕ → Option Bytes

pub record IsPlatform (K : Platform) : Type 0 where
  pub uint64_of-uint64 : (n : ℕ) → n < size_t_mod → K.uint64_of (K.uint64 n) ≡ n
  pub length-uint64 : (n : ℕ) → length (K.uint64 n) ≡ 8
  pub length-variable : length K.variable ≡ 8
  pub length-malloc : (n : ℕ) (block : Bytes) → K.malloc n ≡ some block → length block ≡ n

-- The values of `int`, and the conversion of an integer of 64 bits to it.
abbrev pub int_mod : ℕ
int_mod = 2 ^ 32

abbrev pub int_max : ℕ
int_max = 2 ^ 31 - 1

unfoldable pub to_int : ℕ → ℤ
to_int n =
    let low = n % int_mod in if ltb low (2 ^ 31) then ℤ.pos low else ℤ.negsuc (int_mod - 1 - low)

-- The numbers of processes and of elements of a block along each axis, of type `uint64_t`.
pub record Grid : Type 0 where
  pub npx : ℕ
  pub npy : ℕ
  pub npz : ℕ
  pub ndx : ℕ
  pub ndy : ℕ
  pub ndz : ℕ

module _ (g : Grid) where
  -- `nprocs = npx*npy*npz;`
  abbrev pub nprocs : ℤ
  nprocs = to_int (g.npx * g.npy * g.npz % size_t_mod)

  -- `nx = npx * ndx;` and so on
  abbrev pub nx : ℕ
  nx = g.npx * g.ndx % size_t_mod

  abbrev pub ny : ℕ
  ny = g.npy * g.ndy % size_t_mod

  abbrev pub nz : ℕ
  nz = g.npz * g.ndz % size_t_mod

  -- `pmemcpy::Dimensions(ndx, ndy, ndz)`
  abbrev pub block : Dimensions
  block = dimensions (ℤ.pos g.ndx ∷ ℤ.pos g.ndy ∷ ℤ.pos g.ndz ∷ [])

  -- `ndx*ndy*ndz`
  abbrev pub cells : ℕ
  cells = g.ndx * g.ndy * g.ndz % size_t_mod
