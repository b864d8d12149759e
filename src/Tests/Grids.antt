-- ===== src/Tests/Grids.antt =====
-- The drivers with two threads and blocks of two elements, on the hash table.
use pmemcpy.Base.{
  ℕ, zero, suc, ◌<◌, ◌≡◌, refl, sym, true, false, Option, none, some, List, [], ◌∷◌, ◌++◌, map, All,
  replicate, Bytes, ◌==◌, leb, length, ltb, read_at, arith,
}
use mathlib.Core.Path.{subst}
use pmemcpy.Util.Numbers.{to_string_d, to_string_u}
use pmemcpy.Util.Error.{ok}
use pmemcpy.Serialize.Element.{u64}
use pmemcpy.Serialize.Dimensions.{dimensions, to_size_t, count_loop}
use pmemcpy.Serialize.Serializer.{Serializer, IsRoundTrip}
use pmemcpy.Serialize.NoSerializer.{
  serialize, serialize_array, no_serializer, no_serializer-IsRoundTrip,
}
use pmemcpy.Storage.Hashtable.Object.{Object}
use pmemcpy.Storage.Hashtable.Object.Mapped.{IsMapped, IsKey, CanAllocate, mapped_lem}
use pmemcpy.Storage.Hashtable.Object.Implements.{written_with}
use pmemcpy.Storage.Hashtable.{Pool}
use pmemcpy.Pmem.Putting.{Sized, encoded_put, put-Holds}
use pmemcpy.Pmem.Sequences.{Put, Stores, done, then_store}
use pmemcpy.Drivers.{Grid, to_int, nprocs}
use pmemcpy.Drivers.Data.{ddata, element}
use pmemcpy.Drivers.Threads.{
  Call, store_nx, store_ny, store_nz, store_array, array_id, array_calls, put_of, tags, team,
  read_thread,
}
use pmemcpy.Drivers.Interleaving.{Interleaving, all_done, one_call}
use pmemcpy.Drivers.Sizes.{IsSmall}
use pmemcpy.Drivers.RoundTrip.{read_thread-Interleaving}
use pmemcpy.Tests.Machine.{little_endian, fresh, floats, pmdk-IsAllocator, pools}
use pmemcpy.Tests.Program.{machine, S, M, L, object, object-IsMapped}
use pmemcpy.Tests.Memories.{platform, platform-IsPlatform}

abbrev pub Z : Serializer
Z = no_serializer

abbrev pub R : IsRoundTrip Z
R = no_serializer-IsRoundTrip

abbrev CanAllocateIn : Option (Pool machine) → ℕ → (ℕ → machine.Heap → machine.Heap) → Type 0
CanAllocateIn x size written = elim x [ none ↦ ⊥ | some p ↦ CanAllocate machine size written p ]

-- The machine of the tests always has room for an object of at most 1000 bytes.
has_room :
    (o : Object machine)
    → IsMapped machine o
    → (id bytes : Bytes) → leb (length bytes) 1000 ≡ true
    → M.HasRoom o id bytes
has_room o mapped id bytes small =
    subst
      (λ x.
        CanAllocateIn x (length bytes)
          (written_with machine (pmdk-IsAllocator 1000 600) floats pools bytes))
      (sym (mapped_lem machine o mapped))
      (record {
        data_oid = fresh mapped.pool.heap;
        heap = (fresh mapped.pool.heap, some (replicate (length bytes) 0)) ∷ mapped.pool.heap;
        data_alloc = rw small;
        node_oid = _;
        heap' = _;
        node_alloc = refl;
      })

-- What can be stored in it at any time.
pub record Ready (p : Put) : Type 0 where
  bytes : Bytes
  sized : Sized p.kind p.dims p.src
  made : encoded_put Z false p.kind p.dims p.src ≡ ok bytes
  key : IsKey p.id
  small : leb (length bytes) 1000 ≡ true

pub Stores-Ready :
    (ps : List Put) (o : Object machine)
    → All Ready ps
    → IsMapped machine o
    → (t : Object machine) × Stores S M L Z R ps o t
Stores-Ready [] o ready mapped = (o, done o)
Stores-Ready (p ∷ ps) o ready mapped =
    let r : Ready p = ready.0 in
    let room = has_room o mapped p.id r.bytes r.small in
    let (o', stored, h) =
      put-Holds S M L Z R false p.kind p.dims p.id p.src r.bytes o r.sized r.made mapped r.key
        room in
    let (t, rest) = Stores-Ready ps o' ready.1 h.valid in
    (t, then_store false p ps r.bytes o o' t r.sized r.made r.key room stored rest)

abbrev pub grid : Grid
grid = record { npx = 2; npy = 1; npz = 1; ndx = 2; ndy = 1; ndz = 1 }

-- What the threads compute: 0 and 1, and 1 and 9.
abbrev pub written : ℕ → Bytes
written zero = little_endian 8 0 ++ little_endian 8 1
written (suc r) = little_endian 8 1 ++ little_endian 8 9

pub ddata-written : (r : ℕ) → r < 2 → ddata platform grid r ≡ ok (written r)
unfolding ddata element replicate
ddata-written zero h = refl
ddata-written (suc zero) h = refl
ddata-written (suc (suc r)) h = absurd (omega arith)

pub grid-IsSmall : IsSmall grid
grid-IsSmall = record {
  some_x = omega arith;
  some_y = omega arith;
  some_z = omega arith;
  int_x = omega arith;
  int_y = omega arith;
  int_z = omega arith;
  fits_x = omega arith;
  fits_y = omega arith;
  fits_z = omega arith;
}

-- The threads take turns with their arrays, behind the sizes of the first.
abbrev pub turns : List ℕ → List Call
turns [] = []
turns (tag ∷ ts) = store_array tag 0 ∷ store_array tag 1 ∷ turns ts

nothing_left :
    (threads : ℕ → List Call)
    → threads 0 ≡ []
    → threads 1 ≡ []
    → ((i : ℕ) → threads (suc (suc i)) ≡ [])
    → (i : ℕ) → threads i ≡ []
nothing_left threads a b c zero = a
nothing_left threads a b c (suc zero) = b
nothing_left threads a b c (suc (suc i)) = c i

-- Neither of the two threads.
third : (i : ℕ) → ((0 == suc (suc i)) ≡ false) × ((1 == suc (suc i)) ≡ false)
third i = (ground arith, ground arith)

no_more : (i : ℕ) → ltb (suc (suc i)) 2 ≡ false
no_more i = ground arith

turns-Interleaving :
    (ts : List ℕ) (threads : ℕ → List Call)
    → threads 0 ≡ array_calls 0 ts
    → threads 1 ≡ array_calls 1 ts
    → ((i : ℕ) → threads (suc (suc i)) ≡ [])
    → Interleaving threads (turns ts)
turns-Interleaving [] threads a b c = all_done threads (nothing_left threads a b c)
turns-Interleaving (tag ∷ ts) threads a b c = one_call 0 _ _ threads _ a (
    one_call 1 _ _ _ _ b
      (turns-Interleaving ts _ refl refl (λ i. rw ((third i).0, (third i).1) (c i))))

abbrev pub order : List Call
order = store_nx ∷ store_ny ∷ store_nz ∷ turns tags

pub order-Interleaving : Interleaving (team (nprocs grid)) order
unfolding team to_int
order-Interleaving = one_call 0 _ _ _ _ refl (
    one_call 0 _ _ _ _ refl (
      one_call 0 _ _ _ _ refl
        (turns-Interleaving tags _ refl refl (λ i. rw ((third i).0, no_more i)))))

abbrev pub put_by : Call → Put
put_by = put_of platform grid written

Ready-array :
    (tag : ℕ)
    → (tag == 0) ≡ false
    → (r : ℕ) → IsKey (array_id tag r)
    → r < 2
    → Ready (put_by (store_array tag r))
unfolding put_of dimensions to_size_t count_loop serialize_array read_at
Ready-array tag some_tag zero key h = record {
  bytes = written 0;
  sized = (refl, refl);
  made = refl;
  key = key;
  small = refl;
}
Ready-array tag some_tag (suc zero) key h = record {
  bytes = written 1;
  sized = (refl, refl);
  made = refl;
  key = key;
  small = refl;
}
Ready-array tag some_tag (suc (suc r)) key h = absurd (omega arith)

Ready-turns : (ts : List ℕ) → All (λ tag. (tag == 0) ≡ false) ts → All Ready (map put_by (turns ts))
unfolding array_id to_string_d to_string_u
Ready-turns [] some_tags = tt
Ready-turns (tag ∷ ts) some_tags = (
  Ready-array tag some_tags.0 0 ((some_tags.0, (refl, tt)), omega arith) (omega arith),
  (
    Ready-array tag some_tags.0 1 ((some_tags.0, (refl, tt)), omega arith) (omega arith),
    Ready-turns ts some_tags.1,
  ),
)

Ready-size :
    (id : Bytes) (n : ℕ)
    → IsKey id
    → Ready (record { id = id; kind = u64; dims = none; src = little_endian 8 n })
unfolding serialize read_at
Ready-size id n key = record {
  bytes = little_endian 8 n;
  sized = refl;
  made = refl;
  key = key;
  small = refl;
}

pub Ready-order : All Ready (map put_by order)
unfolding put_of
Ready-order = (
  Ready-size _ 4 ((refl, (refl, tt)), omega arith),
  (
    Ready-size _ 1 ((refl, (refl, tt)), omega arith),
    (Ready-size _ 1 ((refl, (refl, tt)), omega arith), Ready-turns tags (ground arith)),
  ),
)

abbrev after : Object machine
after = (Stores-Ready (map put_by order) object Ready-order object-IsMapped).0

read_thread-Interleaving_example :
    (bytes : Bytes) × (ddata platform grid 1 ≡ ok bytes)
    × (read_thread S Z platform true grid 1 after ≡ (ok (replicate 10 bytes), after))
unfolding to_int
read_thread-Interleaving_example =
    read_thread-Interleaving S M L Z R platform platform-IsPlatform grid written 2 refl order
      order-Interleaving object after object-IsMapped
      (Stores-Ready (map put_by order) object Ready-order object-IsMapped).1 true 1 (replicate 16 0)
      grid-IsSmall ddata-written refl (omega arith)
