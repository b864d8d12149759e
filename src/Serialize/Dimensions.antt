-- ===== src/Serialize/Dimensions.antt =====
-- include/pmemcpy/serialize/serializer.h: `Dimensions`, which is also `Offsets` and `Sizes`.
use pmemcpy.Base.{
  ℕ, zero, suc, ◌+◌, ◌-◌, ◌*◌, ◌/◌, ◌%◌, ◌^◌, ◌<◌, ◌≡◌, sym, ap, ◌∙◌, Option, none, some, List, [],
  ◌∷◌, map, arith,
}
use native.Mathlib.Nat.{mod-eq_of_lt, div-add-mod, add-mul-mod_self_left, mul_assoc}
use pmemcpy.Util.Numbers.{ℤ}

-- The values of `size_t`.
abbrev pub size_t_mod : ℕ
size_t_mod = 2 ^ 64

-- The conversion of an integer of any of the eight types to `size_t`.
unfoldable pub to_size_t : ℤ → ℕ
to_size_t (ℤ.pos n) = n % size_t_mod
to_size_t (ℤ.negsuc n) = size_t_mod - 1 - n % size_t_mod

pub record Dimensions : Type 0 where
  pub dims : List ℕ
  pub count : ℕ

-- `for(const size_t &dim : dims_) count_ *= dim;`
unfoldable pub count_loop : ℕ → List ℕ → ℕ
count_loop count [] = count
count_loop count (dim ∷ dims) = count_loop ((count * dim) % size_t_mod) dims

-- The constructor, over the list of its arguments.
unfoldable pub dimensions : List ℤ → Dimensions
unfolding count_loop
dimensions args = let dims = map to_size_t args in record { dims = dims; count = count_loop 1 dims }

-- `operator []`; past the end its behaviour is undefined.
unfoldable pub index : Dimensions → ℕ → Option ℕ
index d i = at d.dims i
  where
    at : List ℕ → ℕ → Option ℕ
    at [] i = none
    at (x ∷ xs) zero = some x
    at (x ∷ xs) (suc i) = at xs i

-- The number of elements that the dimensions stand for.
unfoldable pub product : List ℕ → ℕ
product [] = 1
product (n ∷ ns) = n * product ns

pub mod-mul : (x y m : ℕ) → x % m * y % m ≡ x * y % m
mod-mul x y m =
    let e : x * y ≡ x % m * y + m * (x / m * y) =
      omega (arith, ap (λ (t : ℕ). t * y) (div-add-mod x m)) in
    sym (ap (λ (t : ℕ). t % m) e ∙ add-mul-mod_self_left (x % m * y) m (x / m * y))

count_loop-mod :
    (acc : ℕ) (ns : List ℕ) → count_loop acc ns % size_t_mod ≡ acc * product ns % size_t_mod
unfolding count_loop product
count_loop-mod acc [] = ap (λ (n : ℕ). n % size_t_mod) (omega arith)
count_loop-mod acc (n ∷ ns) =
    count_loop-mod (acc * n % size_t_mod) ns
    ∙ mod-mul (acc * n) (product ns) size_t_mod
    ∙ ap (λ (t : ℕ). t % size_t_mod) (mul_assoc acc n (product ns))

count_loop-lt : (acc : ℕ) (ns : List ℕ) → acc < size_t_mod → count_loop acc ns < size_t_mod
unfolding count_loop
count_loop-lt acc [] h = h
count_loop-lt acc (n ∷ ns) h = count_loop-lt (acc * n % size_t_mod) ns (omega arith)

-- The count of the constructed dimensions is their product modulo 2 ^ 64.
pub dimensions-product :
    (args : List ℤ) → (dimensions args).count ≡ product (dimensions args).dims % size_t_mod
unfolding dimensions
dimensions-product args =
    let ns = map to_size_t args in
    sym (mod-eq_of_lt (count_loop-lt 1 ns (omega arith)))
    ∙ count_loop-mod 1 ns
    ∙ ap (λ (t : ℕ). t % size_t_mod) (omega arith)

-- What `size_t` has of an integer: the number below 2 ^ 64 from which it differs by a multiple of that.
pub Residue : ℤ → ℕ → Type 0
Residue (ℤ.pos n) m = (m < size_t_mod) × (q : ℕ) × (n ≡ m + q * size_t_mod)
Residue (ℤ.negsuc n) m = (m < size_t_mod) × (q : ℕ) × (m + suc n ≡ q * size_t_mod)

pub Residues : List ℤ → List ℕ → Type 0
Residues [] [] = Unit
Residues (z ∷ zs) (m ∷ ms) = Residue z m × Residues zs ms
Residues [] (m ∷ ms) = ⊥
Residues (z ∷ zs) [] = ⊥

to_size_t-Residue : (z : ℤ) → Residue z (to_size_t z)
unfolding to_size_t Residue
to_size_t-Residue (ℤ.pos n) = (omega arith, n / size_t_mod, omega (arith, div-add-mod n size_t_mod))
to_size_t-Residue (ℤ.negsuc n) =
    (omega arith, suc (n / size_t_mod), omega (arith, div-add-mod n size_t_mod))

map-Residues : (zs : List ℤ) → Residues zs (map to_size_t zs)
unfolding Residues
map-Residues [] = tt
map-Residues (z ∷ zs) = (to_size_t-Residue z, map-Residues zs)

-- For every argument list: the constructed dimensions are, one for each argument and in their order, the
-- numbers below 2 ^ 64 that differ from the arguments by multiples of that, and their count is the
-- product of these numbers modulo 2 ^ 64.
pub dimensions-Residues :
    (args : List ℤ)
    → Residues args (dimensions args).dims
      × ((dimensions args).count ≡ product (dimensions args).dims % size_t_mod)
unfolding dimensions
dimensions-Residues args = (map-Residues args, dimensions-product args)
