-- ===== src/Base/Strings.antt =====
-- Equality of byte strings, as `==` of std::string has it.
use mathlib.Core.Path.{◌≡◌, refl}
use mathlib.Core.Logic.{◌↔◌}
use mathlib.Core.Bool.{Bool, true, false, ◌&&◌}
use mathlib.Core.List.{[], ◌∷◌}
use native.Mathlib.Omega.{arith}
use pmemcpy.Base.Tests.{◌==◌}
use pmemcpy.Base.Memory.{Bytes}

unfoldable pub bytes_equal : Bytes → Bytes → Bool
bytes_equal [] [] = true
bytes_equal [] (d ∷ b) = false
bytes_equal (c ∷ a) [] = false
bytes_equal (c ∷ a) (d ∷ b) = c == d && bytes_equal a b

pub bytes_equal_iff : (a b : Bytes) → (bytes_equal a b ≡ true) ↔ (a ≡ b)
unfolding bytes_equal
bytes_equal_iff [] [] = (λ h. refl, λ h. refl)
bytes_equal_iff [] (d ∷ b) = (λ h. cc, λ h. cc)
bytes_equal_iff (c ∷ a) [] = (λ h. cc, λ h. cc)
bytes_equal_iff (c ∷ a) (d ∷ b) = ground (arith, bytes_equal_iff a b)

pub bytes_equal_refl : (a : Bytes) → bytes_equal a a ≡ true
bytes_equal_refl a = (bytes_equal_iff a a).1 refl
