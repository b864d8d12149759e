-- ===== src/Storage/Mappings.antt =====
-- What the buffers over mapped files use of the address space.
use pmemcpy.Base.{ℕ, ◌≡◌, Bool, false, ◌==◌, if◌then◌else◌}

pub record Mappings : Type 1 where
  pub Space : Type 0
  -- Whether a mapping starts at an address.
  pub is_mapped : Space → ℕ → Bool
  -- Whether msync of so many bytes succeeds.
  pub msync : ℕ → ℕ → Space → Bool
  pub munmap : ℕ → ℕ → Space → Space

-- POSIX: a mapping is gone when it was removed, and others are not; msync fails where none is.
pub record IsMappings (M : Mappings) : Type 0 where
  pub is_mapped-munmap :
      (i n j : ℕ) (s : M.Space)
      → M.is_mapped (M.munmap i n s) j ≡ (if j == i then false else M.is_mapped s j)
  pub msync_unmapped : (i n : ℕ) (s : M.Space) → M.is_mapped s i ≡ false → M.msync i n s ≡ false

-- The result of a call that maps: a null pointer, MAP_FAILED or an address.
pub data Address : Type 0 where
  null failed : Address
  at : ℕ → Address
