-- ===== src/Base/Memory.antt =====
-- Memory as lists of bytes: what `memcpy` into an object leaves there.
use Prim.Native.Nat.{ℕ, suc, ◌+◌, ◌≤◌}
use mathlib.Core.Path.{◌≡◌, ap}
use mathlib.Core.List.{List, [], ◌∷◌, ◌++◌}
use mathlib.Core.Option.{Option, none, some}
use native.Mathlib.Omega.{arith}
use pmemcpy.Base.Tests.{leb, le→leb, lt→leb_false, if◌then◌else◌}
use pmemcpy.Base.Lists.{length, take, drop, length-append, take-append, take_all}

abbrev pub Bytes : Type 0
Bytes = List ℕ

-- `memcpy(object + off, src, length src)`; `none` where it passes the end of the object.
unfoldable pub write_at : ℕ → Bytes → Bytes → Option Bytes
write_at off src object =
    if leb (off + length src) (length object)
    then some (take off object ++ (src ++ drop (off + length src) object))
    else none

-- Reading `n` bytes of an object; `none` where that passes its end.
unfoldable pub read_at : ℕ → Bytes → Option Bytes
read_at n object = if leb n (length object) then some (take n object) else none

drop_add : (n : ℕ) (xs ys : Bytes) → drop (length xs + n) (xs ++ ys) ≡ drop n ys
drop_add n [] ys = ap (λ (k : ℕ). drop k ys) (omega arith)
drop_add n (x ∷ xs) ys =
    let e : suc (length xs) + n ≡ suc (length xs + n) = omega arith in rw e (drop_add n xs ys)

-- A write that begins behind the part already written keeps that part.
pub write_at-append :
    (pre src old : Bytes)
    → length src ≤ length old
    → write_at (length pre) src (pre ++ old) ≡ some (pre ++ (src ++ drop (length src) old))
unfolding write_at
write_at-append pre src old h = rw (
  le→leb (length pre + length src) (length (pre ++ old)) (omega (arith, length-append {0} pre old)),
  take-append pre old,
  drop_add (length src) pre old,
)

pub write_at_full :
    (pre src old : Bytes)
    → suc (length old) ≤ length src
    → write_at (length pre) src (pre ++ old) ≡ none
unfolding write_at
write_at_full pre src old h = rw (
    lt→leb_false (length pre + length src) (length (pre ++ old))
      (omega (arith, length-append {0} pre old)))

-- A write from the start of an object.
pub write_at_start :
    (src object : Bytes)
    → length src ≤ length object
    → write_at 0 src object ≡ some (src ++ drop (length src) object)
write_at_start src object h = write_at-append [] src object h

pub read_at_prefix : (xs ys : Bytes) → read_at (length xs) (xs ++ ys) ≡ some xs
unfolding read_at
read_at_prefix xs ys = rw (
  le→leb (length xs) (length (xs ++ ys)) (omega (arith, length-append {0} xs ys)),
  take-append xs ys,
)

pub read_at_all : (xs : Bytes) → read_at (length xs) xs ≡ some xs
unfolding read_at
read_at_all xs =
    rw (le→leb (length xs) (length xs) (omega arith), take_all (length xs) xs (omega arith))

pub read_at_whole : (n : ℕ) (src : Bytes) → length src ≡ n → read_at n src ≡ some src
read_at_whole n src h = rw (← h) (read_at_all src)
