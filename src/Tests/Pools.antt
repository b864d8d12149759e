-- ===== src/Tests/Pools.antt =====
-- The hash table on a pool of four buckets.
use pmemcpy.Base.{
  ℕ, ◌≡◌, refl, sym, ap, some, List, [], ◌∷◌, Bytes, codes, replicate, arith, write_at, read_at,
  bytes_equal, ◌++◌,
}
use pmemcpy.Util.Error.{ok}
use pmemcpy.Util.Formatter.Render.{pieces, fill, format-fill}
use pmemcpy.Util.Serializeable.{serialize, serialize_size, unit_to_str}
use pmemcpy.Util.Errors.{pmdk_cant_allocate_obj}
use pmemcpy.Storage.Libpmemobj.{Pmdk, IsAllocator}
use pmemcpy.Storage.Hashtable.{Pool, store, free, load, strncmp_equal}
use pmemcpy.Storage.Hashtable.Object.{empty_table}
use pmemcpy.Storage.Hashtable.Reading.{IsValid, home, view, answer}
use pmemcpy.Storage.Hashtable.Storing.{store-Writes}
use pmemcpy.Storage.Hashtable.Storing.Failing.{store_lost}
use pmemcpy.Storage.Hashtable.Storing.Overlong.{load-store_overlong}
use pmemcpy.Storage.Hashtable.Latest.{stored_under, load-stored_under}
use mathlib.Core.Path.{subst}
use pmemcpy.Storage.Hashtable.Storing.Colliding.{load-store_nul}
use pmemcpy.Storage.Hashtable.Freeing.{Freed, free-Freed}
use pmemcpy.Storage.Hashtable.Keys.{IsText}
use pmemcpy.Storage.Hashtable.Chains.{values}
use pmemcpy.Storage.Hashtable.Sessions.Draining.{free-drains}
use pmemcpy.Storage.Hashtable.Sessions.{
  run, Session-Models, Operation, apply, Models, Stacks, Session, stored, freed, done, then_step,
  stores, frees, load-Session,
}
use pmemcpy.Tests.Machine.{floats, pmdk, pmdk-IsAllocator}

-- Room for objects of 1000 bytes and for entries of 600.
abbrev machine : Pmdk
machine = pmdk 1000 600

abbrev machine-lawful : IsAllocator machine
machine-lawful = pmdk-IsAllocator 1000 600

-- Entries take 2000 bytes and can never be allocated.
abbrev tight : Pmdk
tight = pmdk 1000 2000

abbrev tight-lawful : IsAllocator tight
tight-lawful = pmdk-IsAllocator 1000 2000

abbrev empty_pool : (n : ℕ) → Pool (pmdk 1000 n)
empty_pool n = record { heap = []; table = some (empty_table 4) }

abbrev empty_pool-IsValid : (n : ℕ) → IsValid (pmdk 1000 n) 4 (empty_pool n)
empty_pool-IsValid n = record {
  table = empty_table 4;
  rooted = refl;
  counted = refl;
  some_buckets = omega arith;
  chains = λ i. tt;
  disjoint = λ i j d. tt;
}

abbrev no_stacks : Stacks
no_stacks k = []

abbrev key : Bytes
key = codes "D"

abbrev other_key : Bytes
other_key = codes "E"

abbrev first : Bytes
first = 1 ∷ 2 ∷ []

abbrev second : Bytes
second = 3 ∷ 4 ∷ 5 ∷ []

abbrev M : Pool machine
M = empty_pool 600

abbrev V : IsValid machine 4 M
V = empty_pool-IsValid 600

abbrev stored_pool : Pool machine → Bytes → Pool machine
unfolding store
stored_pool p src = (store floats machine 4 key src p).1

abbrev freed_pool : Pool machine → Pool machine
unfolding free
freed_pool p = (free floats machine 4 key p).1

abbrev one : Pool machine
one = stored_pool M first

abbrev two : Pool machine
two = stored_pool one second

abbrev three : Pool machine
three = freed_pool two

abbrev operations : List Operation
operations = stores key first ∷ stores key second ∷ frees key ∷ []

M-Models : Models machine machine-lawful floats 4 no_stacks M
unfolding view values
M-Models = record { valid = V; reads = λ k t. refl }

key-IsText : IsText key
key-IsText = (refl, tt)

abbrev the_session : Session machine machine-lawful floats 4 operations M three
unfolding store free stored_pool freed_pool write_at replicate strncmp_equal
the_session =
    then_step (stores key first) _ M one three
      (stored key first M one _ _ _ _ (refl, tt) (omega arith) refl refl refl)
      (then_step (stores key second) _ one two three
        (stored key second one two _ _ _ _ (refl, tt) (omega arith) refl refl refl)
        (then_step (frees key) [] two three three (freed key two three (refl, tt) refl)
          (done three)))

test_load : (load floats machine 4 key one).0 ≡ ok first
unfolding load stored_pool write_at replicate strncmp_equal read_at
test_load = refl

load-Session_example : load floats machine 4 key three ≡ (ok first, three)
unfolding apply bytes_equal
load-Session_example =
    load-Session machine machine-lawful floats 4 no_stacks operations M three key M-Models
      key-IsText the_session

Session-Models_example :
    Models machine machine-lawful floats 4
      (run machine machine-lawful floats 4 operations no_stacks)
      three
Session-Models_example =
    Session-Models machine machine-lawful floats 4 no_stacks M-Models the_session

free-drains_example :
    (q : Pool machine) × Session machine machine-lawful floats 4 (frees key ∷ []) three q
    × (load floats machine 4 key q ≡ (answer floats key [], q))
unfolding apply bytes_equal replicate
free-drains_example =
    free-drains machine machine-lawful floats 4
      (run machine machine-lawful floats 4 operations no_stacks) three key (first ∷ [])
      (Session-Models machine machine-lawful floats 4 no_stacks M-Models the_session) key-IsText
      refl

one-IsValid : IsValid machine 4 one
unfolding stored_pool store write_at replicate
one-IsValid =
    let (p', e, w) =
      store-Writes machine machine-lawful floats 4 M V key first _ _ _ _ (omega arith) refl refl in
    subst (IsValid machine 4) (ap (λ x. x.1) (sym e)) w.valid

load-stored_under_example : load floats machine 4 key one ≡ (
  answer floats key (stored_under machine one.heap key (home machine 4 one one-IsValid key)),
  one,
)
load-stored_under_example = load-stored_under machine floats 4 one one-IsValid key key-IsText

free-Freed_example :
    Freed machine machine-lawful floats 4 M V key
      (view machine 4 M key)
      (free floats machine 4 key M)
free-Freed_example = free-Freed machine machine-lawful floats 4 M V key key-IsText

-- More than libpmemobj can allocate.
abbrev large : Bytes
unfolding replicate
large = replicate 1001 7

abbrev T : Pool tight
T = empty_pool 2000

store_lost_example :
    (p' : Pool tight) × (store floats tight 4 key first T ≡ (ok tt, p'))
    × IsValid tight 4 p'
    × ((k : Bytes) → view tight 4 p' k ≡ view tight 4 T k)
unfolding pieces fill serialize serialize_size unit_to_str
store_lost_example =
    store_lost tight tight-lawful floats 4 T (empty_pool-IsValid 2000) key first _ _ _ refl refl
      (format-fill floats pmdk_cant_allocate_obj.fmt _)

-- A key of 513 bytes, of which the last one is the length that is left.
abbrev long_key : Bytes
unfolding replicate
long_key = replicate 512 7 ++ (1 ∷ [])

load-store_overlong_example :
    (p' : Pool machine) × (store floats machine 4 long_key first M ≡ (ok tt, p'))
    × (load floats machine 4 long_key p' ≡ (ok (1 ∷ []), p'))
unfolding long_key replicate read_at
load-store_overlong_example =
    load-store_overlong machine machine-lawful floats 4 M V long_key first _ _ _ _ (omega arith)
      (omega arith) refl refl

-- Two keys that differ behind a NUL.
load-store_nul_example :
    (p' : Pool machine) × (store floats machine 4 (65 ∷ 0 ∷ 1 ∷ []) first M ≡ (ok tt, p'))
    × (load floats machine 4 (65 ∷ 0 ∷ 2 ∷ []) p' ≡ (ok first, p'))
load-store_nul_example =
    load-store_nul machine machine-lawful floats 4 M V (65 ∷ []) (1 ∷ []) (2 ∷ []) first _ _ _ _
      refl refl (omega arith) refl refl
