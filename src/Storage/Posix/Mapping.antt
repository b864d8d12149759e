-- ===== src/Storage/Posix/Mapping.antt =====
-- A write through the mapped buffer that `alloc` returns.
use pmemcpy.Base.{
  ℕ, ◌≤◌, ◌≡◌, refl, true, some, ◌++◌, Bytes, length, drop, length-append, length-drop, le→leb,
  write_at_start, arith,
}
use pmemcpy.Util.Numbers.{Floats}
use pmemcpy.Util.Error.{ok}
use pmemcpy.Storage.Files.{Os, held, IsOs, resized, length-resized}
use pmemcpy.Storage.Posix.{PosixStorage, MmapBuffer, path_of, opened, alloc, copy_to}

module _ (fl : Floats) (O : Os) (L : IsOs O) (s : PosixStorage O) (id : Bytes) where
  abbrev mapped_path : Bytes
  mapped_path = path_of fl O s id

  -- If the file of the key can be opened, resized and mapped, `alloc` returns a buffer of the size asked
  -- for. A copy of `src`, no longer than that, through the buffer succeeds, and the file then has the
  -- size asked for and begins with `src`, whatever it had before.
  pub alloc-copy_to_posix :
      (src : Bytes) (size d i : ℕ) (fs fs' : O.Files)
      → length src ≤ size
      → O.open_file true mapped_path s.files ≡ (some (d, i), fs)
      → O.ftruncate i size fs ≡ some fs'
      → O.maps i size fs' ≡ true
      → (b : MmapBuffer) × (t : PosixStorage O) × (t' : PosixStorage O) × (junk : Bytes) × (alloc fl
            O id size s
          ≡ (ok b, t))
        × (b.size ≡ size)
        × (copy_to fl O b src t ≡ (ok tt, t'))
        × (held O t'.files mapped_path ≡ src ++ junk)
        × (length (src ++ junk) ≡ size)
  unfolding alloc copy_to
  alloc-copy_to_posix src size d i fs fs' fits o resize mapping =
      let (named, there) = L.open_names true mapped_path s.files d i fs o in
      let (grown, kept) = L.ftruncate_resizes i size fs fs' _ resize there in
      let old = resized size (held O s.files mapped_path) in
      let new = src ++ drop (length src) old in
      let (poked, still) = L.poke_contents i new fs' old grown in
      let wide : length old ≡ size = length-resized size (held O s.files mapped_path) in
      (
        record { file = i; size = size; is_mapped = true },
        record { path_prefix = s.path_prefix; files = fs' },
        record { path_prefix = s.path_prefix; files = O.poke i new fs' },
        drop (length src) old,
        rw (o, alloc, opened, resize, mapping),
        refl,
        rw (copy_to, le→leb (length src) size fits, grown, write_at_start src old (omega arith)),
        rw (held, still mapped_path, kept mapped_path, named, poked),
        omega (
          arith,
          length-append {0} src (drop (length src) old),
          length-drop {0} (length src) old,
        ),
      )
