-- ===== src/Tests/Crashes.antt =====
-- Crashes of a pool of four buckets.
use pmemcpy.Base.{ℕ, ◌≡◌, refl, sym, ap, false, some, List, [], ◌∷◌, Bytes, codes, replicate, arith}
use mathlib.Core.Path.{subst}
use pmemcpy.Util.Error.{ok}
use pmemcpy.Storage.Libpmemobj.{IsAllocator}
use pmemcpy.Storage.Hashtable.{PmemPointer, PmemBuffer, Pool, is_entry, load}
use pmemcpy.Storage.Hashtable.Reading.{IsValid, view, answer}
use pmemcpy.Storage.Hashtable.Storing.{Writes, linked, copied-Prepared, linked-Writes}
use pmemcpy.Storage.Hashtable.Crash.{
  Cached, is_dirty, Crash, store_cached, alloc_cached, copy_to_cached,
}
use pmemcpy.Storage.Hashtable.Crash.Keeping.{Clean}
use pmemcpy.Storage.Hashtable.Crash.Losing.{load-store_lost}
use pmemcpy.Storage.Hashtable.Crash.Mapping.{load-copy_to_lost}
use pmemcpy.Storage.Hashtable.Crash.Sparing.{load-store_spared}
use pmemcpy.Tests.Machine.{floats, pmdk-IsAllocator}
use pmemcpy.Tests.Program.{machine, pool, object-IsMapped}

abbrev lawful : IsAllocator machine
lawful = pmdk-IsAllocator 1000 600

abbrev empty-IsValid : IsValid machine 4 pool
empty-IsValid = object-IsMapped.valid

abbrev kept_key : Bytes
kept_key = codes "DD"

abbrev lost_key : Bytes
lost_key = codes "E"

abbrev text : Bytes
text = 7 ∷ 8 ∷ 9 ∷ []

-- The heap of one value, before and after its entry is allocated.
abbrev value_heap : machine.Heap
value_heap = (1, some text) ∷ (1, some (replicate 3 0)) ∷ []

abbrev entry_heap : machine.Heap
entry_heap = (5, some (replicate 600 0)) ∷ value_heap

abbrev one_value : Pool machine
one_value = linked machine lawful floats 4 pool empty-IsValid kept_key 5 3 1 entry_heap

one_value-Writes : Writes machine lawful 4 pool kept_key text one_value
one_value-Writes =
    linked-Writes machine lawful floats 4 pool empty-IsValid kept_key value_heap 1 text 5 entry_heap
      (copied-Prepared machine lawful floats 4 pool empty-IsValid kept_key text 1
        ((1, some (replicate 3 0)) ∷ []) refl)
      refl

abbrev V : IsValid machine 4 one_value
V = one_value-Writes.valid

-- Memory of zeros.
abbrev zeros : ℕ → PmemPointer
zeros o = record { oid = o; id_len = 0; id = []; len = 0; data_oid = 0 }

all_persisted : (c : List PmemPointer) → Clean [] c
unfolding is_dirty
all_persisted [] = tt
all_persisted (e ∷ c) = ((refl, refl), all_persisted c)

abbrev before : Cached machine
before = record { pool = one_value; dirty = [] }

abbrev Loss : Type 0
Loss =
    (c : Cached machine) × (store_cached floats machine 4 lost_key text before ≡ (ok tt, c))
    × (machine.contents c.pool.heap 11 ≡ some text)
    × (is_dirty 11 c.dirty ≡ false)
    × (q : Pool machine) × Crash zeros c q
    × (load floats machine 4 lost_key q
        ≡ (answer floats lost_key (view machine 4 one_value lost_key), q))

loss : Loss
unfolding is_entry
loss =
    load-store_lost machine lawful floats 4 one_value V lost_key zeros [] text _ _ _ _ (omega arith)
      refl refl refl

load-store_lost_example : Loss
unfolding is_entry
load-store_lost_example =
    load-store_lost machine lawful floats 4 one_value V lost_key zeros [] text _ _ _ _ (omega arith)
      refl refl refl

-- The pool found after the crash that loses the entry, as one found after `store`.
abbrev after : Pool machine
after = loss.4

after-Crash : Crash zeros (store_cached floats machine 4 lost_key text before).1 after
after-Crash =
    subst (λ (x : Cached machine). Crash zeros x after) (sym (ap (λ x. x.1) loss.1)) loss.5

load-store_spared_example :
    ((store_cached floats machine 4 lost_key text before).0 ≡ ok tt)
    × (load floats machine 4 kept_key after
        ≡ (answer floats kept_key (view machine 4 one_value kept_key), after))
load-store_spared_example =
    load-store_spared machine lawful floats 4 one_value V lost_key [] text _ _ _ _ zeros after
      kept_key (omega arith) refl refl (refl, (refl, tt)) refl (all_persisted _) after-Crash

load-copy_to_lost_example :
    (b : PmemBuffer) × (c : Cached machine) × (c' : Cached machine) × (old : Bytes) × (alloc_cached
        floats machine 4 lost_key 4 before
      ≡ (ok b, c))
    × (b.size ≡ 4)
    × (copy_to_cached floats machine 4 b.buf text c ≡ (ok tt, c'))
    × (machine.contents ((11, some (replicate 4 0)) ∷ entry_heap) 11 ≡ some old)
    × (q : Pool machine) × Crash zeros c' q
    × (load floats machine 4 lost_key q
        ≡ (answer floats lost_key (old ∷ view machine 4 one_value lost_key), q))
load-copy_to_lost_example =
    load-copy_to_lost machine lawful floats 4 one_value V lost_key zeros [] text 4 _ _ _ _
      (omega arith) (refl, tt) (omega arith) refl refl
