-- ===== src/Storage/Posix/Buffer.antt =====
-- include/pmemcpy/storage/posix.h: the life of an `mmap_buffer`, without its descriptor, which only
-- stands in a field.
use pmemcpy.Base.{ℕ, ap, ◌≡◌, ==_refl, true, false, codes, if◌then◌else◌}
use pmemcpy.Util.Error.{Outcome, continues, exits}
use pmemcpy.Storage.Mappings.{Mappings, IsMappings, Address, null, failed, at}

-- `buf_` and `size_`
pub record MappedBuffer : Type 0 where
  pub buf : Address
  pub size : ℕ

-- `mmap_buffer()`
abbrev pub null_buffer : MappedBuffer
null_buffer = record { buf = null; size = 0 }

-- The copy constructor: both have the mapping.
abbrev pub copy : MappedBuffer → MappedBuffer
copy old = record { buf = old.buf; size = old.size }

-- The move constructor: the new buffer, and what it leaves of the old one.
abbrev pub move : MappedBuffer → MappedBuffer × MappedBuffer
move old = (record { buf = old.buf; size = old.size }, null_buffer)

-- Calls that may end the process, one after the other.
abbrev pub and_then : {A B : Type 0} → Outcome A → (A → Outcome B) → Outcome B
and_then (continues a) f = f a
and_then (exits text status) f = exits text status
and_then Outcome.escapes f = Outcome.escapes
and_then Outcome.undefined f = Outcome.undefined

module _ (M : Mappings) where
  -- `_msync()`
  unfoldable pub msync : MappedBuffer → M.Space → Outcome M.Space
  msync b s = elim b.buf [
    | null ↦ continues s
    | failed ↦ continues s
    | at i ↦ if M.msync i b.size s then continues s else exits (codes "Yep, it failed..\n") 1
  ]

  -- `~mmap_buffer()`
  unfoldable pub destroy : MappedBuffer → M.Space → Outcome M.Space
  unfolding msync
  destroy b s = elim b.buf [
    | null ↦ continues s
    | failed ↦ continues s
    | at i ↦ and_then (msync b s) (λ s'. continues (M.munmap i b.size s'))
  ]

  destroy_mapped :
      (b : MappedBuffer) (i : ℕ) (s : M.Space)
      → b.buf ≡ at i
      → M.msync i b.size s ≡ true
      → destroy b s ≡ continues (M.munmap i b.size s)
  unfolding destroy msync
  destroy_mapped b i s mapped synced = rw (mapped, synced)

  -- For every buffer that was mapped and whose file can be synchronised: its destruction removes the
  -- mapping; after that, the destruction of a copy of it ends the process with status 1, and after a
  -- move the destruction of both removes the mapping once.
  pub destroy-copy_mapped :
      (L : IsMappings M) (b : MappedBuffer) (i : ℕ) (s : M.Space)
      → b.buf ≡ at i
      → M.msync i b.size s ≡ true
      → (destroy b s ≡ continues (M.munmap i b.size s))
        × (and_then (destroy b s) (destroy (copy b)) ≡ exits (codes "Yep, it failed..\n") 1)
        × (and_then (destroy (move b).1 s) (destroy (move b).0) ≡ continues (M.munmap i b.size s))
        × (and_then (destroy (move b).0 s) (destroy (move b).1) ≡ continues (M.munmap i b.size s))
  unfolding destroy msync
  destroy-copy_mapped L b i s mapped synced =
      let gone : M.msync i b.size (M.munmap i b.size s) ≡ false =
        L.msync_unmapped i b.size _ (rw (L.is_mapped-munmap i b.size i s, ==_refl i)) in
      (
        destroy_mapped b i s mapped synced,
        rw (mapped, synced, gone),
        destroy_mapped (move b).0 i s mapped synced,
        ap (λ o. and_then o (destroy (move b).1)) (destroy_mapped (move b).0 i s mapped synced),
      )
