-- ===== src/Util/Error.antt =====
-- include/pmemcpy/util/error.h: `Error`, and what a call that may throw gives back.
use pmemcpy.Base.{ℕ, ◌≡◌, refl, ◌≢◌, Option, none, some, List, [], Bytes, String, codes, ◌%◌, ◌^◌}
use pmemcpy.Util.Numbers.{Floats}
use pmemcpy.Util.Serializeable.{Arg}
use pmemcpy.Util.Formatter.{format}

pub record Error : Type 0 where
  pub code : ℕ
  pub fmt : Bytes
  pub msg : Bytes

-- `Error(code, fmt)`
abbrev pub error : ℕ → String → Error
error code fmt = record { code = code; fmt = codes fmt; msg = [] }

-- `throw` of one of the program's errors, `raise` of a library's exception, and a `fault` where the
-- behaviour of the code is undefined.
pub data Result {ℓ} (A : Type ℓ) : Type ℓ where
  ok : A → Result A
  throw : Error → Result A
  raise : Result A
  fault : Result A

infixl 5 ◌>>=◌
abbrev pub ◌>>=◌ {ℓ κ} : {A : Type ℓ} {B : Type κ} → Result A → (A → Result B) → Result B
ok a >>= f = f a
throw e >>= f = throw e
raise >>= f = raise
fault >>= f = fault

-- A result comes from a first call that returned, and from what followed it.
pub bind_ok {ℓ κ} :
    {A : Type ℓ} {B : Type κ} (r : Result A) (f : A → Result B) (b : B)
    → (r >>= f) ≡ ok b
    → (a : A) × (r ≡ ok a) × (f a ≡ ok b)
bind_ok (ok a) f b e = (a, refl, e)
bind_ok (throw e') f b e = absurd (cc)
bind_ok raise f b e = absurd (cc)
bind_ok fault f b e = absurd (cc)

abbrev pub thrown {ℓ} : {A : Type ℓ} → Option Error → Result A
thrown none = fault
thrown (some e) = throw e

module _ (fl : Floats) where
  -- `Error::format`: a fresh error with the same code and format, and the message.
  unfoldable pub format_error : Error → List (Arg fl) → Option Error
  format_error e args = elim (format fl e.fmt args) [
    | none ↦ none
    | some m ↦ some (record e { msg = m })
  ]

  -- `throw E.format(args...)`
  unfoldable pub throw_error {ℓ} : {A : Type ℓ} → Error → List (Arg fl) → Result A
  throw_error e args = thrown (format_error e args)

  -- `E.format(args...);` with no `throw` in front: the error is built and dropped.
  unfoldable pub build_error : Error → List (Arg fl) → Result (Unit {0})
  build_error e args = elim (format_error e args) [ none ↦ fault | some e' ↦ ok tt ]

  format_error-some :
      (e : Error) (args : List (Arg fl)) (m : Bytes)
      → format fl e.fmt args ≡ some m
      → format_error e args ≡ some (record e { msg = m })
  unfolding format_error
  format_error-some e args m h = rw (h, format_error)

  pub build_error_ok :
      (e : Error) (args : List (Arg fl)) (m : Bytes)
      → format fl e.fmt args ≡ some m
      → build_error e args ≡ ok tt
  unfolding build_error
  build_error_ok e args m h = rw (format_error-some e args m h, build_error)

  pub throw_error-some {ℓ} :
      {A : Type ℓ} (e : Error) (args : List (Arg fl)) (m : Bytes)
      → format fl e.fmt args ≡ some m
      → throw_error {A = A} e args ≡ throw (record e { msg = m })
  unfolding throw_error
  throw_error-some e args m h = rw (format_error-some e args m h)

  thrown-ne-ok {ℓ} : {A : Type ℓ} (o : Option Error) (a : A) → thrown o ≢ ok a
  thrown-ne-ok none a h = cc
  thrown-ne-ok (some e) a h = cc

  pub throw_error-ne-ok {ℓ} :
      {A : Type ℓ} (e : Error) (args : List (Arg fl)) (a : A) → throw_error e args ≢ ok a
  unfolding throw_error
  throw_error-ne-ok e args a = thrown-ne-ok (format_error e args) a

-- How a region between PMEMCPY_ERROR_HANDLE_START and PMEMCPY_ERROR_HANDLE_END ends: it falls
-- through with a value, leaves by another exception, or ends the process with what it printed and
-- the status that the parent sees of `exit(code)`.
pub data Outcome {ℓ} (A : Type ℓ) : Type ℓ where
  continues : A → Outcome A
  exits : Bytes → ℕ → Outcome A
  escapes : Outcome A
  undefined : Outcome A

unfoldable pub error_handle {ℓ} : {A : Type ℓ} → Result A → Outcome A
error_handle (ok a) = continues a
error_handle (throw e) = exits e.msg (e.code % 2 ^ 8)
error_handle raise = escapes
error_handle fault = undefined
