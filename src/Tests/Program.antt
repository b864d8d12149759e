-- ===== src/Tests/Program.antt =====
-- `PMEM` at concrete inputs: a pool of four buckets, with the serializers of the factory.
use pmemcpy.Base.{
  length, sym, ap, ◌∙◌, Bytes, List, ◌≡◌, refl, true, false, none, some, [], ◌∷◌, Bytes, codes,
  ◌==◌, bytes_equal, read_at, if◌then◌else◌, arith,
}
use pmemcpy.Util.Error.{ok}
use pmemcpy.Util.Numbers.{pos}
use pmemcpy.Storage.Libpmemobj.{Pmdk}
use pmemcpy.Storage.Interface.{Storage, Meaning, IsStorage}
use pmemcpy.Storage.Hashtable.{Pool}
use pmemcpy.Storage.Hashtable.Object.{Object, on_pool, hashtable_storage, empty_table}
use pmemcpy.Storage.Hashtable.Object.Mapped.{IsMapped, IsKey}
use pmemcpy.Storage.Hashtable.Object.Implements.{hashtable_meaning, hashtable_storage-IsStorage}
use pmemcpy.Serialize.Element.{u16, size_of_kind}
use pmemcpy.Serialize.Dimensions.{Dimensions, dimensions}
use pmemcpy.Serialize.Serializer.{Serializer, IsRoundTrip}
use pmemcpy.Serialize.NoSerializer.{
  serialize, serialize_to, no_serializer, no_serializer-IsRoundTrip,
}
use pmemcpy.Pmem.{store, load}
use mathlib.Core.Path.{subst}
use pmemcpy.Pmem.RoundTrip.{encoded, store-Holds}
use pmemcpy.Pmem.Sequences.{Put, latest, Stores, done, then_store, load-Stores}
use pmemcpy.Tests.Machine.{floats, pmdk, pmdk-IsAllocator, pools}

abbrev pub machine : Pmdk
machine = pmdk 1000 600

abbrev pub S : Storage
S = hashtable_storage floats machine pools

abbrev pub M : Meaning S
M = hashtable_meaning machine (pmdk-IsAllocator 1000 600) floats pools

abbrev pub L : IsStorage S M
L = hashtable_storage-IsStorage machine (pmdk-IsAllocator 1000 600) floats pools

abbrev Z : Serializer
Z = no_serializer

abbrev R : IsRoundTrip Z
R = no_serializer-IsRoundTrip

abbrev pub pool : Pool machine
pool = record { heap = []; table = some (empty_table 4) }

-- One empty pool, mapped.
abbrev pub object : Object machine
object = record {
  ppool = some 0;
  nbuckets = 4;
  names = λ path. none;
  pools = λ i. if i == 0 then some pool else none;
  fresh = 1;
}

abbrev pub object-IsMapped : IsMapped machine object
object-IsMapped = record {
  number = 0;
  pool = pool;
  mapped = refl;
  there = refl;
  valid = record {
    table = empty_table 4;
    rooted = refl;
    counted = refl;
    some_buckets = omega arith;
    chains = λ i. tt;
    disjoint = λ i j d. tt;
  };
}

abbrev pub key : Bytes
key = codes "D"

abbrev other_key : Bytes
other_key = codes "E"

abbrev source : Bytes
source = 7 ∷ 1 ∷ []

abbrev target : Bytes
target = 0 ∷ 0 ∷ []

hashtable_storage-IsStorage_example : IsStorage (hashtable_storage floats machine pools) M
hashtable_storage-IsStorage_example =
    hashtable_storage-IsStorage machine (pmdk-IsAllocator 1000 600) floats pools

-- An array of two by one elements of one byte.
abbrev two_by_one : Dimensions
unfolding dimensions
two_by_one = dimensions (pos 2 ∷ pos 1 ∷ [])

abbrev after_put : Put → Object machine → Object machine
after_put p o = (store S Z false p.kind p.id p.src o).1

-- A store that there is room for returns, and leaves a pool mapped.
put_stores :
    (p : Put) (bytes : Bytes) (o : Object machine)
    → length p.src ≡ size_of_kind p.kind
    → encoded Z false p.kind p.src ≡ ok bytes
    → IsMapped machine o
    → IsKey p.id
    → M.HasRoom o p.id bytes
    → (store S Z false p.kind p.id p.src o ≡ (ok tt, after_put p o))
      × IsMapped machine (after_put p o)
put_stores p bytes o sized e mapped key_ok room =
    let (o', stored, h) =
      store-Holds S M L Z R false p.kind p.id p.src bytes o sized e mapped key_ok room in
    (
      stored ∙ ap (λ x. (ok tt, x.1)) (sym stored),
      subst (IsMapped machine) (ap (λ x. x.1) (sym stored)) h.valid,
    )

abbrev first_put : Put
first_put = record { id = key; kind = u16; dims = none; src = target }

abbrev second_put : Put
second_put = record { id = key; kind = u16; dims = none; src = source }

-- Two stores under one key.
abbrev puts : List Put
puts = first_put ∷ (second_put ∷ [])

abbrev last_state : Object machine
last_state = after_put second_put (after_put first_put object)

first_stored :
    (store S Z false u16 key target object ≡ (ok tt, after_put first_put object))
    × IsMapped machine (after_put first_put object)
unfolding serialize read_at
first_stored =
    put_stores first_put target object refl refl object-IsMapped ((refl, tt), omega arith)
      (record {
        data_oid = _;
        heap = _;
        data_alloc = refl;
        node_oid = _;
        heap' = _;
        node_alloc = refl;
      })

abbrev room_after : M.HasRoom (after_put first_put object) key source
unfolding bytes_equal serialize read_at serialize_to store on_pool
room_after = record {
  data_oid = _;
  heap = _;
  data_alloc = refl;
  node_oid = _;
  heap' = _;
  node_alloc = refl;
}

puts-Stores : Stores S M L Z R puts object last_state
unfolding serialize read_at
puts-Stores =
    then_store false first_put (second_put ∷ []) target object (after_put first_put object)
      last_state refl refl ((refl, tt), omega arith)
      (record {
        data_oid = _;
        heap = _;
        data_alloc = refl;
        node_oid = _;
        heap' = _;
        node_alloc = refl;
      })
      first_stored.0
      (then_store false second_put [] source (after_put first_put object) last_state last_state refl
        refl ((refl, tt), omega arith) room_after
        (put_stores second_put source (after_put first_put object) refl refl first_stored.1
          ((refl, tt), omega arith) room_after).0
        (done last_state))

load-Stores_example :
    IsMapped machine last_state
    × (load S Z true u16 key target last_state ≡ (ok source, last_state))
unfolding latest bytes_equal
load-Stores_example =
    load-Stores S M L Z R puts object last_state true key target object-IsMapped puts-Stores
      ((refl, tt), omega arith) refl
