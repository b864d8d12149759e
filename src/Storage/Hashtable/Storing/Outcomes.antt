-- ===== src/Storage/Hashtable/Storing/Outcomes.antt =====
-- `store` however it ends.
use pmemcpy.Base.{ℕ, Bytes}
use pmemcpy.Util.Numbers.{Floats}
use pmemcpy.Storage.Libpmemobj.{Pmdk, IsAllocator}
use pmemcpy.Storage.Hashtable.{Pool}
use pmemcpy.Storage.Hashtable.Reading.{IsValid}

module _ (P : Pmdk) (L : IsAllocator P) (fl : Floats) (nbuckets : ℕ) (p : Pool P)
    (valid : IsValid P nbuckets p) (id src : Bytes) where
  -- The pool with the value's object and without an entry for it.
  abbrev unlinked : ℕ → P.Heap → Pool P
  unlinked o h = record { heap = P.poke o src h; table = p.table }
