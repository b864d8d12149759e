-- ===== src/Util/Numbers/Printing.antt =====
-- The decimal digits of a number, read back.
use pmemcpy.Base.{
  ℕ, zero, suc, ◌+◌, ◌-◌, ◌*◌, ◌/◌, ◌%◌, ◌<◌, ◌≡◌, ap, ◌∙◌, [], ◌∷◌, Bytes, ltb, inl, inr,
  Bool-cases, arith,
}
use native.Mathlib.Nat.{div-add-mod}
use pmemcpy.Util.Numbers.{decimal, to_string_u}

-- The number that digits stand for behind a number already read.
unfoldable pub number : ℕ → Bytes → ℕ
number n [] = n
number n (c ∷ digits) = number (n * 10 + (c - b'0')) digits

number-decimal :
    (fuel n : ℕ) (digits : Bytes) → n < fuel → number 0 (decimal fuel n digits) ≡ number n digits
unfolding decimal number
number-decimal zero n digits h = absurd (omega arith)
number-decimal (suc fuel) n digits h = elim (Bool-cases (ltb n 10)) [
  | inl one_digit ↦
      let e : 0 * 10 + (b'0' + n % 10 - b'0') ≡ n = ground arith in
      rw one_digit (ap (λ (k : ℕ). number k digits) e)
  | inr more ↦
      let e : n / 10 * 10 + (b'0' + n % 10 - b'0') ≡ n = omega (arith, div-add-mod n 10) in
      rw more (
        number-decimal fuel (n / 10) ((b'0' + n % 10) ∷ digits) (ground (arith, div-add-mod n 10))
        ∙ ap (λ (k : ℕ). number k digits) e)
]

-- The digits that are printed for a number, read in decimal, give the number.
pub number-to_string_u : (n : ℕ) → number 0 (to_string_u n) ≡ n
unfolding to_string_u number
number-to_string_u n = number-decimal (suc n) n [] (omega arith)
