-- ===== src/Tests/Memories.antt =====
-- A machine with little-endian integers, whose `malloc` always has room.
use pmemcpy.Base.{
  ℕ, zero, suc, ◌/◌, ◌^◌, ◌<◌, ◌≡◌, refl, sym, ap, ◌∙◌, some, length, replicate, length-replicate,
  arith,
}
use native.Mathlib.Nat.{div-add-mod}
use mathlib.Core.Option.{some-injective}
use pmemcpy.Tests.Machine.{little_endian, little_endian_of}
use pmemcpy.Drivers.{Platform, IsPlatform}

little_endian_of-little_endian : (k n : ℕ) → n < 256 ^ k → little_endian_of (little_endian k n) ≡ n
little_endian_of-little_endian zero n h = omega arith
little_endian_of-little_endian (suc k) n h =
    let rest = little_endian_of-little_endian k (n / 256) (omega (arith, div-add-mod n 256)) in
    rw rest (omega (arith, div-add-mod n 256))

length-little_endian : (k n : ℕ) → length (little_endian k n) ≡ k
length-little_endian zero n = refl
length-little_endian (suc k) n = ap suc (length-little_endian k (n / 256))

abbrev pub platform : Platform
platform = record {
  uint64 = little_endian 8;
  uint64_of = little_endian_of;
  double_of_int = little_endian 8;
  variable = replicate 8 0;
  malloc = λ n. some (replicate n 0);
}

pub platform-IsPlatform : IsPlatform platform
unfolding replicate
platform-IsPlatform = record {
  uint64_of-uint64 = λ n h. little_endian_of-little_endian 8 n h;
  length-uint64 = λ n. length-little_endian 8 n;
  length-variable = refl;
  length-malloc = λ n block e. ap length (sym (some-injective _ _ e)) ∙ length-replicate n 0;
}
