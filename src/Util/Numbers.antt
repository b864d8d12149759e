-- ===== src/Util/Numbers.antt =====
-- What the messages need of numbers. `std::to_string` prints integers in decimal; there is no
-- floating point here, so `double` and its kin with their printing are a parameter.
pub mod Printing
use pmemcpy.Base.{ℕ, zero, suc, ◌+◌, ◌/◌, ◌%◌, [], ◌∷◌, Bytes, ltb, if◌then◌else◌}

-- `negsuc n` is -(n + 1).
pub data ℤ : Type 0 where
  pos : ℕ → ℤ
  negsuc : ℕ → ℤ

-- The least significant digit is found first; fuel is the number itself plus one.
decimal : ℕ → ℕ → Bytes → Bytes
decimal zero n acc = acc
decimal (suc fuel) n acc =
    let digit = b'0' + n % 10 in
    let more = decimal fuel (n / 10) (digit ∷ acc) in if ltb n 10 then digit ∷ acc else more

-- `std::to_string` of an unsigned integer.
unfoldable pub to_string_u : ℕ → Bytes
unfolding decimal
to_string_u n = decimal (suc n) n []

-- `std::to_string` of a signed integer.
unfoldable pub to_string_d : ℤ → Bytes
unfolding to_string_u
to_string_d (ℤ.pos n) = to_string_u n
to_string_d (ℤ.negsuc n) = b'-' ∷ to_string_u (suc n)

-- `float`, `double` and `long double`.
pub record Floats : Type 1 where
  pub Float : Type 0
  pub Double : Type 0
  pub LongDouble : Type 0
  -- `((double)bytes)/unit`
  pub ratio : ℕ → ℕ → Double
  pub to_string_f32 : Float → Bytes
  pub to_string_f64 : Double → Bytes
  pub to_string_f96 : LongDouble → Bytes
