-- ===== src/Tests/Lifetimes.antt =====
-- `mmap` at concrete inputs.
use pmemcpy.Base.{◌≡◌, refl, none, some, [], Bytes, codes, ◌==◌, if◌then◌else◌, bytes_equal, arith}
use pmemcpy.Util.Serializeable.{serialize}
use pmemcpy.Util.Numbers.{to_string_u}
use pmemcpy.Util.Formatter.Render.{pieces, fill, format-fill}
use pmemcpy.Util.Error.{ok}
use pmemcpy.Util.Errors.{pmdk_hash_pool_too_small}
use pmemcpy.Storage.Action.{◌>>◌}
use pmemcpy.Storage.Libpmemobj.{Pmdk}
use pmemcpy.Storage.Hashtable.{Pool}
use pmemcpy.Storage.Hashtable.Object.{Object, mmap, munmap, empty_table}
use pmemcpy.Storage.Hashtable.Object.Mapped.{IsMapped, value}
use pmemcpy.Storage.Hashtable.Object.Lifetime.{mmap_new, mmap-munmap}
use pmemcpy.Tests.Machine.{floats, pmdk, pools}

abbrev machine : Pmdk
machine = pmdk 1000 600

abbrev path : Bytes
path = codes "/pool"

-- No pools.
abbrev nothing : Object machine
nothing = record { ppool = none; nbuckets = 0; names = λ q. none; pools = λ i. none; fresh = 0 }

-- 8 bytes are too few for 1000 buckets.
mmap_new_example :
    (o' : Object machine) × (mmap floats machine pools path 8 nothing ≡ (ok tt, o'))
    × IsMapped machine o'
    × (o'.nbuckets ≡ 1000)
    × (o'.names path ≡ o'.ppool)
    × ((k : Bytes) → value machine o' k ≡ none)
unfolding pieces fill serialize to_string_u
mmap_new_example =
    mmap_new floats machine pools path 8 nothing _ [] [] refl
      (format-fill floats pmdk_hash_pool_too_small.fmt _) refl refl

abbrev pool : Pool machine
pool = record { heap = []; table = some (empty_table 4) }

abbrev object : Object machine
unfolding bytes_equal
object = record {
  ppool = some 0;
  nbuckets = 4;
  names = λ q. if bytes_equal path q then some 0 else none;
  pools = λ i. if i == 0 then some pool else none;
  fresh = 1;
}

object-IsMapped : IsMapped machine object
unfolding object
object-IsMapped = record {
  number = 0;
  pool = pool;
  mapped = refl;
  there = refl;
  valid = record {
    table = empty_table 4;
    rooted = refl;
    counted = refl;
    some_buckets = omega arith;
    chains = λ i. tt;
    disjoint = λ i j d. tt;
  };
}

mmap-munmap_example :
    (munmap floats machine pools >> mmap floats machine pools path 0) object ≡ (ok tt, object)
unfolding object object-IsMapped bytes_equal
mmap-munmap_example = mmap-munmap floats machine pools path 0 object object-IsMapped refl refl
