-- ===== src/Storage/Action.antt =====
-- Operations on a state that may throw. The state is kept when they do.
use pmemcpy.Base.{◌≡◌, refl, Option, none, some, List}
use pmemcpy.Util.Numbers.{Floats}
use pmemcpy.Util.Serializeable.{Arg}
use pmemcpy.Util.Error.{Error, Result, ok, throw, raise, fault, thrown, format_error, throw_error}

abbrev pub Action : Type 0 → Type 0 → Type 0
Action S A = S → Result A × S

abbrev pub next : {S A B : Type 0} → Result A × S → (A → Action S B) → Result B × S
next (ok a, s) f = f a s
next (throw e, s) f = (throw e, s)
next (raise, s) f = (raise, s)
next (fault, s) f = (fault, s)

infixl 5 ◌>>=◌ ◌>>◌
abbrev pub ◌>>=◌ : {S A B : Type 0} → Action S A → (A → Action S B) → Action S B
◌>>=◌ m f s = next (m s) f

abbrev pub ◌>>◌ : {S B : Type 0} → Action S (Unit {0}) → Action S B → Action S B
m >> k = m >>= λ _. k

-- A result that leaves the state alone.
abbrev pub lift : {S A : Type 0} → Result A → Action S A
lift r s = (r, s)

next-thrown :
    {S A B : Type 0} (o : Option Error) (s : S) (f : A → Action S B)
    → next (thrown o, s) f ≡ (thrown o, s)
next-thrown none s f = refl
next-thrown (some e) s f = refl

-- What stands behind a `throw` is not run.
pub next-throw_error :
    {S A B : Type 0} (fl : Floats) (e : Error) (args : List (Arg fl)) (s : S) (f : A → Action S B)
    → next (throw_error fl e args, s) f ≡ (throw_error fl e args, s)
unfolding throw_error
next-throw_error fl e args s f = next-thrown (format_error fl e args) s f
