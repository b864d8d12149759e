-- ===== src/Drivers/Sizes.antt =====
-- The sizes that the reader computes are those that the writer was given.
use pmemcpy.Base.{ℕ, zero, suc, ◌*◌, ◌/◌, ◌%◌, ◌<◌, ◌≤◌, ◌≡◌, sym, ap, ◌∙◌, [], ◌∷◌, arith}
use native.Mathlib.Nat.{mod-eq_of_lt, mul_comm, mul-div_cancel_left}
use pmemcpy.Util.Numbers.{ℤ}
use pmemcpy.Util.Error.{ok}
use pmemcpy.Serialize.Element.{f64, size_of_kind}
use pmemcpy.Serialize.Serializer.{array_size}
use pmemcpy.Serialize.Dimensions.{
  to_size_t, size_t_mod, dimensions, product, mod-mul, dimensions-product,
}
use pmemcpy.Drivers.{Grid, to_int, int_max, block}
use pmemcpy.Drivers.Threads.{quotient}

-- The conversion to `int` and back.
pub to_size_t-to_int : (n : ℕ) → n ≤ int_max → to_size_t (to_int n) ≡ n
unfolding to_size_t to_int
to_size_t-to_int n small = ground arith

-- A size of the whole grid that does not wrap around, divided by the number of processes.
pub quotient_mul : (n d : ℕ) → 0 < n → n * d < size_t_mod → quotient (n * d % size_t_mod) n ≡ ok d
unfolding quotient
quotient_mul zero d some_n small = absurd (omega arith)
quotient_mul (suc n) d some_n small =
    ap ok (ap (λ (x : ℕ). x / suc n) (mod-eq_of_lt small) ∙ mul-div_cancel_left d some_n)

-- A grid that is not too large for the programs' integers.
pub record IsSmall (g : Grid) : Type 0 where
  pub some_x : 0 < g.npx
  pub some_y : 0 < g.npy
  pub some_z : 0 < g.npz
  pub int_x : g.ndx ≤ int_max
  pub int_y : g.ndy ≤ int_max
  pub int_z : g.ndz ≤ int_max
  pub fits_x : g.npx * g.ndx < size_t_mod
  pub fits_y : g.npy * g.ndy < size_t_mod
  pub fits_z : g.npz * g.ndz < size_t_mod

to_size_t_small : (n : ℕ) → n ≤ int_max → to_size_t (ℤ.pos n) ≡ n
unfolding to_size_t
to_size_t_small n small = mod-eq_of_lt (omega arith)

-- The memory that the reader allocates has the size of the array that the writer stores.
pub block_size :
    (g : Grid)
    → IsSmall g
    → size_of_kind f64 * g.ndx * g.ndy * g.ndz % size_t_mod ≡ array_size f64 (block g).count
unfolding product dimensions
block_size g small =
    let dims : (block g).dims ≡ g.ndx ∷ g.ndy ∷ g.ndz ∷ [] = rw (
      to_size_t_small g.ndx small.int_x,
      to_size_t_small g.ndy small.int_y,
      to_size_t_small g.ndz small.int_z,
    ) in
    let p = g.ndx * (g.ndy * (g.ndz * 1)) in
    let count : (block g).count ≡ p % size_t_mod =
      dimensions-product (ℤ.pos g.ndx ∷ ℤ.pos g.ndy ∷ ℤ.pos g.ndz ∷ [])
      ∙ ap (λ ds. product ds % size_t_mod) dims in
    let whole : size_of_kind f64 * g.ndx * g.ndy * g.ndz ≡ p * 8 = omega arith in
    ap (λ (x : ℕ). x % size_t_mod) whole
    ∙ sym (mod-mul p 8 size_t_mod)
    ∙ ap (λ (x : ℕ). x % size_t_mod) (mul_comm (p % size_t_mod) 8)
    ∙ ap (λ (x : ℕ). 8 * x % size_t_mod) (sym count)
