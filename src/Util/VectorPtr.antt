-- ===== src/Util/VectorPtr.antt =====
-- include/pmemcpy/util/vector_ptr.h: the allocator of vectors over memory that they do not own, and
-- what `std::vector` does with it.
use pmemcpy.Base.{
  ap, ◌∙◌, flatten, take_all, drop_all, append-nil, zero, suc, ◌+◌, ◌-◌, ◌<◌, [], ◌∷◌, ◌++◌, ◌==◌,
  drop, ℕ, ◌*◌, ◌≡◌, refl, true, false, Option, none, some, List, Bytes, leb, le→leb, ◌≤◌,
  if◌then◌else◌, take, read_at, arith, length,
}
use pmemcpy.Util.Error.{Result, ok, raise, fault, ◌>>=◌}
use pmemcpy.Serialize.Element.{
  Kind, elements, copy_elements, flatten-elements, length-elements, copy_elements-flatten,
}

-- `NoAllocator` (and `NoAllocatorData`): where the memory is, and how many elements it has.
pub record NoAllocator : Type 0 where
  pub ptr : Option ℕ
  pub count : ℕ

-- `NoAllocator()`
abbrev pub no_memory : NoAllocator
no_memory = record { ptr = none; count = 0 }

-- `NoAllocator(ptr, count)`, `set_ptr`, and the conversion from one by `get_ptr`.
abbrev pub over : Option ℕ → ℕ → NoAllocator
over ptr count = record { ptr = ptr; count = count }

abbrev pub set_ptr : Option ℕ → ℕ → NoAllocator → NoAllocator
set_ptr ptr count a = record { ptr = ptr; count = count }

abbrev pub get_ptr : NoAllocator → Option ℕ × ℕ
get_ptr a = (a.ptr, a.count)

abbrev pub converted : NoAllocator → NoAllocator
converted old = let (ptr, count) = get_ptr old in record { ptr = ptr; count = count }

abbrev pub max_size : NoAllocator → ℕ
max_size a = a.count

-- `allocate(n)`: the same memory whatever the number.
abbrev pub allocate : NoAllocator → ℕ → Option ℕ
allocate a n = a.ptr

-- `construct`, `destroy` and `deallocate` leave memory alone.
abbrev pub construct : {M : Type 0} → Option ℕ → M → M
construct p memory = memory

abbrev pub deallocate : {M : Type 0} → Option ℕ → ℕ → M → M
deallocate p n memory = memory

-- `address(x)`
abbrev pub address : ℕ → ℕ
address p = p

-- `~NoAllocator()`
abbrev pub destroy : {M : Type 0} → NoAllocator → M → M
destroy a memory = memory

-- `rebind<U>::other`: the allocator of the same element type, whatever the other type is.
abbrev pub rebind : Kind → Kind → Kind
rebind t u = t

-- A vector: its allocator, its elements' place, how many it has and how many it has room for.
pub record Vector : Type 0 where
  pub allocator : NoAllocator
  pub begin : Option ℕ
  pub size : ℕ
  pub capacity : ℕ

-- `std::vector<T, NoAllocator<T>> v(a)`
abbrev pub empty_vector : NoAllocator → Vector
empty_vector a = record { allocator = a; begin = none; size = 0; capacity = 0 }

-- The room for `n` elements after a growth: twice the size at least, `max_size` at most.
abbrev pub grown : ℕ → Vector → ℕ
grown n v =
    let room = v.size + (if leb v.size (n - v.size) then n - v.size else v.size) in
    if leb room (max_size v.allocator) then room else max_size v.allocator

-- `v.resize(n)`: within its room a vector keeps its place; for more than `max_size` it throws
-- std::length_error, and else it allocates. The allocator constructs the elements.
unfoldable pub resize : ℕ → Vector → Result Vector
resize n v =
    if leb n v.capacity
    then ok (record v { size = n })
    else if leb n (max_size v.allocator)
    then ok (record v { begin = allocate v.allocator (grown n v); size = n; capacity = grown n v })
    else raise

-- The start of the memory that the caller hands over, and `temp_` after its two lines: a vector over
-- `count` elements there.
abbrev pub start : ℕ
start = 0

unfoldable pub temp : ℕ → Result Vector
unfolding resize
temp count = resize count (empty_vector (over (some start) count))

-- The elements of a vector over the caller's memory.
unfoldable pub vector_elements : ℕ → Bytes → Vector → Result (List Bytes)
vector_elements size memory v = if v.size == 0 then ok [] else elim v.begin [
  | none ↦ fault
  | some off ↦ elim (read_at (v.size * size) (drop off memory)) [
    | none ↦ fault
    | some bytes ↦ ok (elements size v.size bytes)
  ]
]

-- New elements in the place of all of a vector's: `v.resize` to their number, then a write of each.
unfoldable pub assign : ℕ → List Bytes → Vector → Bytes → Result Bytes
unfolding resize
assign size xs v memory = resize (length xs) v >>= λ w.
    if length xs == 0 then ok memory else elim w.begin [
      | none ↦ fault
      | some off ↦ elim (copy_elements size 0 xs (drop off memory)) [
        | none ↦ fault
        | some bytes ↦ ok (take off memory ++ bytes)
      ]
    ]

abbrev full : ℕ → Vector
full count = record {
  allocator = over (some start) count;
  begin = some start;
  size = count;
  capacity = count;
}

temp-suc : (count : ℕ) → temp (suc count) ≡ ok (full (suc count))
unfolding temp resize
temp-suc count =
    let not_there : leb (suc count) 0 ≡ false = ground arith in
    let fits : leb (suc count) (suc count) ≡ true = ground arith in
    let room : 0 + suc count ≡ suc count = omega arith in
    let some_room : leb 0 (suc count - 0) ≡ true = ground arith in
    let all : suc count - 0 ≡ suc count = omega arith in
    rw (not_there, fits, some_room, all, room, fits)

elements-full :
    (count size : ℕ) (memory : Bytes)
    → suc count * size ≤ length memory
    → vector_elements size memory (full (suc count))
      ≡ ok (elements size (suc count) (take (suc count * size) memory))
unfolding vector_elements read_at
elements-full count size memory h =
    let nonzero : (suc count == 0) ≡ false = ground arith in
    rw (le→leb (suc count * size) (length memory) h, nonzero)

count-elements : (size count : ℕ) (memory : Bytes) → length (elements size count memory) ≡ count
unfolding elements
count-elements size zero memory = refl
count-elements size (suc count) memory = ap suc (count-elements size count (drop size memory))

-- For every number of elements, `temp_` is a vector of them over the caller's memory: its elements are
-- those of the memory, if it has them, and its growth to more elements throws.
pub temp_view :
    (count size : ℕ) (memory : Bytes)
    → count * size ≤ length memory
    → (v : Vector) × (temp count ≡ ok v)
      × (vector_elements size memory v ≡ ok (elements size count (take (count * size) memory)))
      × ((n : ℕ) → count < n → resize n v ≡ raise)
unfolding temp resize vector_elements read_at elements
temp_view zero size memory h =
    (empty_vector (over (some start) 0), refl, refl, λ n more. ground arith)
temp_view (suc count) size memory h =
    (full (suc count), temp-suc count, elements-full count size memory h, λ n more. ground arith)

assign-full :
    (count size : ℕ) (xs : List Bytes) (dst src : Bytes)
    → length xs ≡ suc count
    → copy_elements size 0 xs dst ≡ some src
    → assign size xs (full (suc count)) dst ≡ ok src
unfolding assign resize
assign-full count size xs dst src n copied =
    let nonzero : (suc count == 0) ≡ false = ground arith in
    let fits : leb (suc count) (suc count) ≡ true = ground arith in rw (n, fits, nonzero, copied)

-- The elements of one memory, assigned to a vector over another of the same size, make it the same.
pub assign-vector_elements :
    (count size : ℕ) (src dst : Bytes)
    → length src ≡ count * size
    → length dst ≡ length src
    → (v : Vector) × (temp count ≡ ok v)
      × (vector_elements size src v ≡ ok (elements size count src))
      × (assign size (elements size count src) v dst ≡ ok src)
unfolding temp resize vector_elements assign elements
assign-vector_elements zero size src dst s d = (
  empty_vector (over (some start) 0),
  refl,
  refl,
  ap ok (nothing dst src (omega arith) (omega arith)),
)
  where
    nothing : (a b : Bytes) → length a ≡ 0 → length b ≡ 0 → a ≡ b
    nothing [] [] p q = refl
    nothing [] (x ∷ b) p q = absurd (omega arith)
    nothing (x ∷ a) b p q = absurd (omega arith)
assign-vector_elements (suc count) size src dst s d =
    let n = suc count in
    let all : take (n * size) src ≡ src = take_all (n * size) src (omega arith) in
    let parts : flatten (elements size n src) ≡ src =
      flatten-elements size n src (omega arith) ∙ all in
    let rest : drop (length src) dst ≡ [] = drop_all (length src) dst (omega arith) in
    let copied : copy_elements size 0 (elements size n src) dst ≡ some src =
      copy_elements-flatten size (elements size n src) dst
        (length-elements size n src (omega arith)) (rw parts (omega arith))
      ∙ rw (parts, rest, append-nil src) in
    (
      full n,
      temp-suc count,
      elements-full count size src (omega arith) ∙ ap (λ (m : Bytes). ok (elements size n m)) all,
      assign-full count size (elements size n src) dst src (count-elements size n src) copied,
    )
