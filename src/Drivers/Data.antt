-- ===== src/Drivers/Data.antt =====
-- test/performance/e2e/3d/write_3d_pmemcpy_omp.cpp: the data of a thread.
use pmemcpy.Base.{
  ℕ, zero, suc, ◌+◌, ◌*◌, ◌%◌, none, some, [], ◌++◌, Bytes, leb, if◌then◌else◌, length,
}
use pmemcpy.Util.Error.{Result, ok, fault, ◌>>=◌}
use pmemcpy.Serialize.Dimensions.{size_t_mod}
use pmemcpy.Serialize.Element.{f64, size_of_kind}
use pmemcpy.Drivers.{Platform, Grid, int_max, cells}

-- A value of type `int`; the behaviour of a sum or product past the greatest one is undefined.
abbrev pub int : ℕ → Result ℕ
int n = if leb n int_max then ok n else fault

-- `(rank*i + (rank+1)*(rank+1)*i + (i+1)*(i+1)*rank)`
unfoldable pub element : ℕ → ℕ → Result ℕ
element rank i = do
  a ← int (rank * i)
  r ← int (rank + 1)
  rr ← int (r * r)
  b ← int (rr * i)
  c ← int (a + b)
  j ← int (i + 1)
  jj ← int (j * j)
  d ← int (jj * rank)
  int (c + d)

module _ (K : Platform) where
  -- The loop from an index, for so many elements more: the bytes that it writes.
  fill : ℕ → ℕ → ℕ → Result Bytes
  fill rank i zero = ok []
  fill rank i (suc n) = do
    x ← element rank i
    rest ← fill rank (suc i) n
    ok (K.double_of_int x ++ rest)

  -- `ddata` after the loop; a write behind the block that `malloc` gave is undefined.
  unfoldable pub ddata : Grid → ℕ → Result Bytes
  unfolding fill
  ddata g rank = elim (K.malloc (size_of_kind f64 * g.ndx * g.ndy * g.ndz % size_t_mod)) [
    | none ↦ fault
    | some memory ↦ fill rank 0 (cells g) >>= λ bytes.
        if leb (length bytes) (length memory) then ok bytes else fault
  ]
