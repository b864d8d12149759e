-- ===== src/Util/Formatter.antt =====
-- include/pmemcpy/util/serializeable.h: `Formatter::format`.
-- `none` is undefined behaviour: a write past the 8192 bytes of the buffer, or `args_[pos]` past
-- the last argument. The index `arg` into the arguments is the list of those not yet used.
pub mod Render
use pmemcpy.Base.{
  ℕ, zero, suc, ◌+◌, Bool, true, false, ◌&&◌, Option, none, some, List, [], ◌∷◌, Bytes, ◌==◌,
  if◌then◌else◌, length, take, replicate, write_at,
}
use pmemcpy.Util.Numbers.{Floats}
use pmemcpy.Util.Serializeable.{Arg, serialize}

-- `(char*)calloc(8192, 1)`
abbrev pub buffer_size : ℕ
buffer_size = 8192

-- `fmt[i] == '{' && fmt[i + 1] == '}'`
abbrev pub is_hole : ℕ → ℕ → Bool
is_hole c d = c == b'{' && d == b'}'

-- One write into the buffer, then what follows with the new contents.
abbrev pub emit : ℕ → Bytes → Bytes → (Bytes → Option Bytes) → Option Bytes
emit off src buffer next = elim (write_at off src buffer) [ none ↦ none | some b ↦ next b ]

module _ (fl : Floats) where
  -- The loop at the index whose suffix of `fmt` is given. The last byte's successor reads as NUL.
  format_loop : Bytes → List (Arg fl) → Bytes → ℕ → Option Bytes
  format_loop [] args buffer off = some (take off buffer)
  format_loop (c ∷ []) args buffer off =
      emit off (c ∷ []) buffer (λ b. format_loop [] args b (off + 1))
  format_loop (c ∷ d ∷ rest) [] buffer off =
      if is_hole c d
      then none
      else emit off (c ∷ []) buffer (λ b. format_loop (d ∷ rest) [] b (off + 1))
  format_loop (c ∷ d ∷ rest) (a ∷ args) buffer off =
      let text = serialize fl a in
      if is_hole c d
      then emit off text buffer (λ b. format_loop rest args b (off + length text))
      else emit off (c ∷ []) buffer (λ b. format_loop (d ∷ rest) (a ∷ args) b (off + 1))

  unfoldable pub format : Bytes → List (Arg fl) → Option Bytes
  unfolding format_loop
  format fmt args = format_loop fmt args (replicate buffer_size 0) 0
