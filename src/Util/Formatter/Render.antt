-- ===== src/Util/Formatter/Render.antt =====
-- `Formatter::format` against a template: the literal bytes and the holes of a format.
use pmemcpy.Base.{
  ℕ, ◌+◌, ◌≤◌, ◌<◌, ◌≡◌, refl, sym, ◌∙◌, inl, inr, Option, none, some, List, [], ◌∷◌, ◌++◌,
  append-nil, append_assoc, Bytes, leb, leb→le, le→leb, if◌then◌else◌, length, drop, replicate,
  length-append, length-drop, length-replicate, take-append, write_at-append, write_at_full,
  Bool-cases, arith,
}
use pmemcpy.Util.Numbers.{Floats}
use pmemcpy.Util.Serializeable.{Arg, serialize}
use pmemcpy.Util.Formatter.{buffer_size, is_hole, emit, format_loop, format}

pub data Piece : Type 0 where
  literal : ℕ → Piece
  hole : Piece

-- A format as the bytes and holes that it is read as.
unfoldable pub pieces : Bytes → List Piece
pieces [] = []
pieces (c ∷ []) = literal c ∷ []
pieces (c ∷ d ∷ rest) = if is_hole c d then hole ∷ pieces rest else literal c ∷ pieces (d ∷ rest)

abbrev pub prepend : Bytes → Option Bytes → Option Bytes
prepend src none = none
prepend src (some m) = some (src ++ m)

-- The text behind `pre` if it fits into what is left of the buffer.
abbrev fits : Bytes → Bytes → Option Bytes → Option Bytes
fits pre old none = none
fits pre old (some m) = if leb (length m) (length old) then some (pre ++ m) else none

fits-prepend :
    (pre src old : Bytes) (m : Option Bytes)
    → length src ≤ length old
    → fits (pre ++ src) (drop (length src) old) m ≡ fits pre old (prepend src m)
fits-prepend pre src old none h = refl
fits-prepend pre src old (some m) h =
    ground
      (arith, length-append {0} src m, length-drop {0} (length src) old, append_assoc {0} pre src m)

fits_not :
    (pre src old : Bytes) (m : Option Bytes)
    → length old < length src
    → fits pre old (prepend src m) ≡ none
fits_not pre src old none h = refl
fits_not pre src old (some m) h = ground (arith, length-append {0} src m)

-- A write and a continuation that fits `m` behind whatever was written, together.
emit-fits :
    (next : Bytes → Option Bytes) (pre src old : Bytes) (m : Option Bytes)
    → ((old' : Bytes) → next ((pre ++ src) ++ old') ≡ fits (pre ++ src) old' m)
    → emit (length pre) src (pre ++ old) next ≡ fits pre old (prepend src m)
emit-fits next pre src old m h = elim (Bool-cases (leb (length src) (length old))) [
  | inl yes_fits ↦
      rw
        (
          (write_at-append pre src old (leb→le _ _ yes_fits)),
          emit,
          ← append_assoc pre src (drop (length src) old),
          h (drop (length src) old),
        )
        (fits-prepend pre src old m (leb→le _ _ yes_fits))
  | inr too_long ↦
      let over : length old < length src = ground arith in
      rw (write_at_full pre src old over, emit) (sym (fits_not pre src old m over))
]

behind : (pre src : Bytes) → length pre + length src ≡ length (pre ++ src)
behind pre src = sym (length-append pre src)

module _ (fl : Floats) where
  -- The template with the arguments in its holes; `none` if it has more holes than arguments.
  unfoldable pub fill : List Piece → List (Arg fl) → Option Bytes
  fill [] args = some []
  fill (literal c ∷ ps) args = prepend (c ∷ []) (fill ps args)
  fill (hole ∷ ps) [] = none
  fill (hole ∷ ps) (a ∷ args) = prepend (serialize fl a) (fill ps args)

  format_loop-fits :
      (fmt : Bytes) (args : List (Arg fl)) (pre old : Bytes)
      → format_loop fl fmt args (pre ++ old) (length pre) ≡ fits pre old (fill (pieces fmt) args)
  unfolding format_loop pieces fill
  format_loop-fits [] args pre old =
      rw (take-append pre old, append-nil pre, le→leb 0 (length old) (omega arith))
  format_loop-fits (c ∷ []) args pre old =
      emit-fits _ pre (c ∷ []) old (some [])
        (λ old'. rw (behind pre (c ∷ [])) (format_loop-fits [] args (pre ++ (c ∷ [])) old'))
  format_loop-fits (c ∷ d ∷ rest) [] pre old = elim (Bool-cases (is_hole c d)) [
    | inl at_hole ↦ rw at_hole
    | inr at_byte ↦ rw at_byte (
        emit-fits _ pre (c ∷ []) old (fill (pieces (d ∷ rest)) []) (λ old'.
          rw (behind pre (c ∷ [])) (format_loop-fits (d ∷ rest) [] (pre ++ (c ∷ [])) old')))
  ]
  format_loop-fits (c ∷ d ∷ rest) (a ∷ args) pre old = elim (Bool-cases (is_hole c d)) [
    | inl at_hole ↦ rw at_hole (
        emit-fits _ pre (serialize fl a) old (fill (pieces rest) args) (λ old'.
          rw (behind pre (serialize fl a))
            (format_loop-fits rest args (pre ++ serialize fl a) old')))
    | inr at_byte ↦ rw at_byte (
        emit-fits _ pre (c ∷ []) old (fill (pieces (d ∷ rest)) (a ∷ args)) (λ old'.
          rw (behind pre (c ∷ [])) (format_loop-fits (d ∷ rest) (a ∷ args) (pre ++ (c ∷ [])) old')))
  ]

  -- What `format` makes of a filled template: the text itself if the buffer can hold it.
  abbrev pub in_buffer : Option Bytes → Option Bytes
  in_buffer none = none
  in_buffer (some m) = if leb (length m) buffer_size then some m else none

  fits-in_buffer : (m : Option Bytes) → fits [] (replicate buffer_size 0) m ≡ in_buffer m
  fits-in_buffer none = refl
  fits-in_buffer (some m) = rw length-replicate

  -- For every format and argument list, `format` returns the format's bytes with each `{}` replaced
  -- by the next argument's text, if there are arguments enough and the text has at most 8192 bytes;
  -- in every other case, and in no other, its behaviour is undefined.
  pub format-fill :
      (fmt : Bytes) (args : List (Arg fl)) → format fl fmt args ≡ in_buffer (fill (pieces fmt) args)
  unfolding format
  format-fill fmt args =
      format_loop-fits fmt args [] (replicate buffer_size 0)
      ∙ fits-in_buffer (fill (pieces fmt) args)
