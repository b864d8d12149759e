-- ===== src/Tests/Restarts.antt =====
-- The drivers with two threads, each program a process of its own.
use pmemcpy.Base.{◌≡◌, refl, sym, ap, true, none, [], map, replicate, Bytes, codes, arith}
use mathlib.Core.Path.{subst}
use pmemcpy.Util.Serializeable.{serialize}
use pmemcpy.Util.Numbers.{to_string_u}
use pmemcpy.Util.Formatter.Render.{pieces, fill, format-fill}
use pmemcpy.Util.Error.{ok}
use pmemcpy.Util.Errors.{pmdk_hash_pool_too_small}
use pmemcpy.Storage.Action.{◌>>◌}
use pmemcpy.Storage.Hashtable.Object.{Object, mmap}
use pmemcpy.Storage.Hashtable.Object.Mapped.{IsMapped}
use pmemcpy.Storage.Hashtable.Object.Lifetime.{mmap_new, new_object}
use pmemcpy.Drivers.{to_int}
use pmemcpy.Drivers.Data.{ddata}
use pmemcpy.Drivers.Threads.{read_thread}
use pmemcpy.Drivers.Processes.{read-write}
use pmemcpy.Tests.Machine.{floats, pmdk-IsAllocator, pools}
use pmemcpy.Tests.Program.{machine, S}
use pmemcpy.Tests.Memories.{platform, platform-IsPlatform}
use pmemcpy.Tests.Grids.{
  Z, R, grid, grid-IsSmall, written, ddata-written, order, order-Interleaving, put_by, Ready-order,
  Stores-Ready,
}

abbrev path : Bytes
path = codes "/grid"

-- No pools.
abbrev nothing : Object machine
nothing = record { ppool = none; nbuckets = 0; names = λ q. none; pools = λ i. none; fresh = 0 }

-- The object of the writer, once it has mapped its new pool.
abbrev mapped : Object machine
mapped = (mmap floats machine pools path 8 nothing).1

mapped-IsMapped : IsMapped machine mapped
unfolding pieces fill serialize to_string_u
mapped-IsMapped =
    let (o, made, valid, buckets, named, empty) =
      mmap_new floats machine pools path 8 nothing _ [] [] refl
        (format-fill floats pmdk_hash_pool_too_small.fmt _) refl refl in
    subst (IsMapped machine) (ap (λ x. x.1) (sym made)) valid

abbrev finished : Object machine
finished = (Stores-Ready (map put_by order) mapped Ready-order mapped-IsMapped).0

read-write_example :
    (bytes : Bytes) × (ddata platform grid 1 ≡ ok bytes)
    × ((mmap floats machine pools path 8 nothing).0 ≡ ok tt)
    × ((mmap floats machine pools path 0 >> read_thread S Z platform true grid 1)
          (new_object machine 7 finished)
        ≡ (ok (replicate 10 bytes), finished))
unfolding pieces fill serialize to_string_u to_int
read-write_example =
    read-write floats machine pools (pmdk-IsAllocator 1000 600) Z R platform platform-IsPlatform
      grid path 8 0 7 nothing _ [] [] written 2 order finished true 1 (replicate 16 0) refl
      (format-fill floats pmdk_hash_pool_too_small.fmt _) refl refl (λ heap. refl) grid-IsSmall refl
      ddata-written order-Interleaving
      (Stores-Ready (map put_by order) mapped Ready-order mapped-IsMapped).1 refl (omega arith)
