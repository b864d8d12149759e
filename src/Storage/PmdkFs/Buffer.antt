-- ===== src/Storage/PmdkFs/Buffer.antt =====
-- include/pmemcpy/storage/pmdk_fs.h: the life of an `mmap_buffer` over libpmem.
use pmemcpy.Base.{ℕ, ◌≡◌, ==_refl, Option, none, some, true, false, if◌then◌else◌}
use pmemcpy.Util.Error.{Result, ok, fault, ◌>>=◌}
use pmemcpy.Storage.Mappings.{Mappings, IsMappings}

-- `buf_`, of which `none` is a null pointer, and `size_`.
pub record MappedBuffer : Type 0 where
  pub buf : Option ℕ
  pub size : ℕ

-- `mmap_buffer()`
abbrev pub null_buffer : MappedBuffer
null_buffer = record { buf = none; size = 0 }

-- The copy constructor: both have the mapping.
abbrev pub copy : MappedBuffer → MappedBuffer
copy old = record { buf = old.buf; size = old.size }

-- The move constructor: the new buffer, and what it leaves of the old one.
abbrev pub move : MappedBuffer → MappedBuffer × MappedBuffer
move old = (record { buf = old.buf; size = old.size }, null_buffer)

module _ (M : Mappings) where
  -- `~mmap_buffer()`: to persist memory that is not mapped is undefined.
  unfoldable pub destroy : MappedBuffer → M.Space → Result M.Space
  destroy b s = elim b.buf [
    | none ↦ ok s
    | some i ↦ if M.is_mapped s i then ok (M.munmap i b.size s) else fault
  ]

  -- For every buffer that is mapped: its destruction removes the mapping; after that, the destruction of
  -- a copy of it is undefined, and after a move the destruction of both removes the mapping once.
  pub destroy-copy_persistent :
      (L : IsMappings M) (b : MappedBuffer) (i : ℕ) (s : M.Space)
      → b.buf ≡ some i
      → M.is_mapped s i ≡ true
      → (destroy b s ≡ ok (M.munmap i b.size s))
        × ((destroy b s >>= destroy (copy b)) ≡ fault)
        × ((destroy (move b).1 s >>= destroy (move b).0) ≡ ok (M.munmap i b.size s))
        × ((destroy (move b).0 s >>= destroy (move b).1) ≡ ok (M.munmap i b.size s))
  unfolding destroy
  destroy-copy_persistent L b i s own mapped =
      let gone : M.is_mapped (M.munmap i b.size s) i ≡ false =
        rw (L.is_mapped-munmap i b.size i s, ==_refl i) in
      (rw (own, mapped), rw (own, mapped, gone), rw (own, mapped), rw (own, mapped))
