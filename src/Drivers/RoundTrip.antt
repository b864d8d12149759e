-- ===== src/Drivers/RoundTrip.antt =====
-- What the writer's threads store is what the reader's threads load.
use pmemcpy.Base.{
  ℕ, zero, suc, ◌*◌, ◌%◌, ◌<◌, ◌≡◌, refl, sym, ap, ◌∙◌, Bool, true, inl, inr, none, some, List, [],
  ◌∷◌, All, map, replicate, Bytes, codes, ltb, length, Bool-cases, arith,
}
use mathlib.Core.Path.{subst}
use mathlib.Core.List.{Memᴰ}
use mathlib.Core.List.Memᴰ as Memᴰ
use pmemcpy.Util.Numbers.{ℤ}
use pmemcpy.Util.Error.{ok}
use pmemcpy.Storage.Action.{next}
use pmemcpy.Storage.Interface.{Storage, Meaning, IsStorage}
use pmemcpy.Serialize.Element.{u64, f64, size_of_kind}
use pmemcpy.Serialize.Dimensions.{size_t_mod}
use pmemcpy.Serialize.Serializer.{Serializer, IsRoundTrip}
use pmemcpy.Pmem.{load, load_array}
use pmemcpy.Pmem.Putting.{get}
use pmemcpy.Pmem.Sequences.{Put, latest, Stores, Stores-Sized, Answers, load-Stores}
use pmemcpy.Drivers.{Platform, IsPlatform, Grid, nprocs, nx, ny, nz, block}
use pmemcpy.Drivers.Data.{ddata}
use pmemcpy.Drivers.Threads.{
  Call, store_nx, store_ny, store_nz, store_array, array_id, put_of, calls, tags, team, load_tags,
  load_block, read_thread, quotient,
}
use pmemcpy.Drivers.Interleaving.{Interleaving, Interleaving-All, Interleaving-Memᴰ}
use pmemcpy.Drivers.Latest.{latest_of}
use pmemcpy.Drivers.Keys.{IsTagged, calls-IsTagged, put_of-Unique}
use pmemcpy.Drivers.Sizes.{to_size_t-to_int, quotient_mul, IsSmall, block_size}

map-Memᴰ : {A B : Type 0} (f : A → B) (a : A) (xs : List A) → Memᴰ a xs → Memᴰ (f a) (map f xs)
map-Memᴰ f a [] m = absurd (Memᴰ.not-nil m)
map-Memᴰ f a (x ∷ xs) m = elim (Memᴰ.cases_cons m) [
  | inl e ↦ Memᴰ.head (ap f e)
  | inr later ↦ Memᴰ.tail (map-Memᴰ f a xs later)
]

team-IsTagged : (k : ℤ) (rank : ℕ) → All IsTagged (team k rank)
unfolding team
team-IsTagged (ℤ.pos n) rank = elim (Bool-cases (ltb rank n)) [
  | inl one ↦ rw one (calls-IsTagged rank)
  | inr other ↦ rw other tt
]
team-IsTagged (ℤ.negsuc n) rank = tt

array_calls-Memᴰ : (rank tag : ℕ) → Memᴰ tag tags → Memᴰ (store_array tag rank) (calls rank)
array_calls-Memᴰ zero tag m =
    Memᴰ.tail (Memᴰ.tail (Memᴰ.tail (map-Memᴰ (λ x. store_array x zero) tag tags m)))
array_calls-Memᴰ (suc r) tag m = map-Memᴰ (λ x. store_array x (suc r)) tag tags m

team-Memᴰ : (n rank : ℕ) (c : Call) → rank < n → Memᴰ c (calls rank) → Memᴰ c (team (ℤ.pos n) rank)
unfolding team
team-Memᴰ n rank c h m = let one : ltb rank n ≡ true = ground (arith, h) in rw one m

module _ (S : Storage) (M : Meaning S) (L : IsStorage S M) (Z : Serializer) (R : IsRoundTrip Z)
    (K : Platform) (KL : IsPlatform K) (g : Grid) (written : ℕ → Bytes) (n : ℕ)
    (counted : nprocs g ≡ ℤ.pos n) (cs : List Call) (order : Interleaving (team (nprocs g)) cs)
    (s t : S.State) (valid : M.IsValid s)
    (stores : Stores S M L Z R (map (put_of K g written) cs) s t) (m : Bool) where
  abbrev put : Call → Put
  put = put_of K g written

  made : (rank : ℕ) (c : Call) → rank < n → Memᴰ c (calls rank) → Memᴰ c cs
  made rank c h i =
      Interleaving-Memᴰ c rank order
        (subst (λ (k : ℤ). Memᴰ c (team k rank)) (sym counted) (team-Memᴰ n rank c h i))

  call_loaded :
      (c : Call) (dst : Bytes)
      → IsTagged c
      → Memᴰ c cs
      → length dst ≡ length (put c).src
      → get Z S m (put c).kind (put c).dims (put c).id dst t ≡ (ok (put c).src, t)
  call_loaded c dst tagged i fits =
      let there = map-Memᴰ put c cs i in
      let last : latest (map put cs) (put c).id ≡ some (put c) =
        latest_of (put c) (map put cs)
          (put_of-Unique K g written c cs tagged
            (Interleaving-All IsTagged order (team-IsTagged (nprocs g))))
          there in
      let usable = Stores-Sized S M L Z R (put c) stores there in
      let answer =
        load-Stores S M L Z R (map put cs) s t m (put c).id dst valid stores usable.0
          (rw last fits) in
      subst (Answers S M L Z R m (put c).id dst s t) last answer.1

  tags_loaded :
      (rank : ℕ) (ts : List ℕ) (dst : Bytes)
      → All (λ tag. IsTagged (store_array tag rank) × Memᴰ (store_array tag rank) cs) ts
      → length dst ≡ length (written rank)
      → load_tags S Z K m g rank (block g) ts dst t ≡ (ok (replicate (length ts) (written rank)), t)
  unfolding load_tags put_of replicate
  tags_loaded rank [] dst h fits = refl
  tags_loaded rank (tag ∷ ts) dst h fits =
      let first : load_array S Z m f64 (array_id tag rank) dst (block g) t
          ≡ (ok (written rank), t) =
        call_loaded (store_array tag rank) dst h.0.0 h.0.1 fits in
      rw (first, next, tags_loaded rank ts (written rank) h.1 refl, next)

  tags_made :
      (rank : ℕ) (ts : List ℕ)
      → rank < n
      → All (λ tag. tag < b'n') ts
      → ((tag : ℕ) → Memᴰ tag ts → Memᴰ tag tags)
      → All (λ tag. IsTagged (store_array tag rank) × Memᴰ (store_array tag rank) cs) ts
  tags_made rank [] h before sub = tt
  tags_made rank (tag ∷ ts) h before sub = (
    (
      before.0,
      made rank (store_array tag rank) h (array_calls-Memᴰ rank tag (sub tag (Memᴰ.head refl))),
    ),
    tags_made rank ts h before.1 (λ x i. sub x (Memᴰ.tail i)),
  )

  size_loaded :
      (id : Bytes) (c : Call) (k : ℕ)
      → 0 < n
      → IsTagged c
      → Memᴰ c (calls 0)
      → put c ≡ record { id = id; kind = u64; dims = none; src = K.uint64 k }
      → load S Z m u64 id K.variable t ≡ (ok (K.uint64 k), t)
  size_loaded id c k some_threads tagged i is =
      let fits : length K.variable ≡ length (K.uint64 k) =
        KL.length-variable ∙ sym (KL.length-uint64 k) in
      let fits' : length K.variable ≡ length (put c).src =
        fits ∙ ap (λ (p : Put). length p.src) (sym is) in
      subst (λ (p : Put). get Z S m p.kind p.dims p.id K.variable t ≡ (ok p.src, t)) is
        (call_loaded c K.variable tagged (made 0 c some_threads i) fits')

  quotient_loaded :
      (k d : ℕ)
      → 0 < k
      → k * d < size_t_mod
      → quotient (K.uint64_of (K.uint64 (k * d % size_t_mod))) k ≡ ok d
  quotient_loaded k d some_k fits =
      ap (λ x. quotient x k) (KL.uint64_of-uint64 (k * d % size_t_mod) (omega arith))
      ∙ quotient_mul k d some_k fits

  -- For every storage and serializer that keep their contracts, and a grid whose sizes do not wrap around:
  -- if the writer's threads compute their data without an overflow of an `int`, and all of their stores,
  -- in any interleaving and from a valid state, are stores that there is room for of what can be
  -- serialized, then every thread of the reader, if it can allocate its memory, loads without error, from
  -- the state that the writer left and whether or not either program uses `use_mmap`, in each of its ten
  -- arrays the data that the writer's thread of its rank computed.
  pub read_thread-Interleaving :
      (rank : ℕ) (memory : Bytes)
      → IsSmall g
      → ((r : ℕ) → r < n → ddata K g r ≡ ok (written r))
      → K.malloc (size_of_kind f64 * g.ndx * g.ndy * g.ndz % size_t_mod) ≡ some memory
      → rank < n
      → (bytes : Bytes) × (ddata K g rank ≡ ok bytes)
        × (read_thread S Z K m g rank t ≡ (ok (replicate 10 bytes), t))
  unfolding read_thread load_block put_of
  read_thread-Interleaving rank memory small computed room h =
      let some_threads : 0 < n = omega arith in
      let first = size_loaded (codes "nx") store_nx (nx g) some_threads tt (Memᴰ.head refl) refl in
      let second =
        size_loaded (codes "ny") store_ny (ny g) some_threads tt (Memᴰ.tail (Memᴰ.head refl))
          refl in
      let third =
        size_loaded (codes "nz") store_nz (nz g) some_threads tt
          (Memᴰ.tail (Memᴰ.tail (Memᴰ.head refl))) refl in
      let ready = tags_made rank tags h (ground arith) (λ tag i. i) in
      let sized = Stores-Sized S M L Z R (put (store_array b'A' rank)) stores (
        map-Memᴰ put (store_array b'A' rank) cs
          (made rank _ h (array_calls-Memᴰ rank b'A' (Memᴰ.head refl)))) in
      let fits : length memory ≡ length (written rank) =
        KL.length-malloc _ memory room ∙ block_size g small ∙ sym sized.1.0 in
      (
        written rank,
        computed rank h,
        rw
            (
              first,
              next,
              second,
              next,
              third,
              next,
              quotient_loaded g.npx g.ndx small.some_x small.fits_x,
              next,
              quotient_loaded g.npy g.ndy small.some_y small.fits_y,
              next,
              quotient_loaded g.npz g.ndz small.some_z small.fits_z,
              next,
              to_size_t-to_int g.ndx small.int_x,
              to_size_t-to_int g.ndy small.int_y,
              to_size_t-to_int g.ndz small.int_z,
              room,
              next,
            )
            (tags_loaded rank tags memory ready fits),
      )
