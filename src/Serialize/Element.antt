-- ===== src/Serialize/Element.antt =====
-- The element types of the serializers, and arrays of them in memory.
use pmemcpy.Base.{
  ℕ, zero, suc, ◌+◌, ◌*◌, ◌≤◌, ◌≡◌, refl, sym, ap, ◌∙◌, Option, none, some, List, [], ◌∷◌, ◌++◌,
  append_assoc, flatten, Bytes, length, take, drop, All, length-append, length-take, length-drop,
  take-add, drop-add, write_at, write_at-append, arith,
}

-- The types for which the serializers have methods, named as in their last macro argument.
pub data Kind : Type 0 where
  d8 d16 d32 d64 u8 u16 u32 u64 f32 f64 : Kind

-- `sizeof(T)`
abbrev pub size_of_kind : Kind → ℕ
size_of_kind d8 = 1
size_of_kind d16 = 2
size_of_kind d32 = 4
size_of_kind d64 = 8
size_of_kind u8 = 1
size_of_kind u16 = 2
size_of_kind u32 = 4
size_of_kind u64 = 8
size_of_kind f32 = 4
size_of_kind f64 = 8

-- `count` elements of `size` bytes at a pointer.
unfoldable pub elements : ℕ → ℕ → Bytes → List Bytes
elements size zero memory = []
elements size (suc count) memory = take size memory ∷ elements size count (drop size memory)

-- `for(size_t i = 0; i < temp.size(); ++i) dst[i] = temp[i];` from the index `i`.
unfoldable pub copy_elements : ℕ → ℕ → List Bytes → Bytes → Option Bytes
copy_elements size i [] dst = some dst
copy_elements size i (x ∷ temp) dst = elim (write_at (i * size) x dst) [
  | none ↦ none
  | some dst' ↦ copy_elements size (i + 1) temp dst'
]

pub flatten-elements :
    (size count : ℕ) (memory : Bytes)
    → count * size ≤ length memory
    → flatten (elements size count memory) ≡ take (count * size) memory
unfolding elements flatten
flatten-elements size zero memory h =
    let none_left : 0 ≡ 0 * size = omega arith in ap (λ (n : ℕ). take n memory) none_left
flatten-elements size (suc count) memory h =
    let rest =
      flatten-elements size count (drop size memory) (omega (arith, length-drop {0} size memory)) in
    rw rest (take-add size (count * size) memory ∙ ap (λ (n : ℕ). take n memory) (omega arith))

pub length-elements :
    (size count : ℕ) (memory : Bytes)
    → count * size ≤ length memory
    → All (λ x. length x ≡ size) (elements size count memory)
unfolding elements
length-elements size zero memory h = tt
length-elements size (suc count) memory h = (
  length-take size memory ∙ omega arith,
  length-elements size count (drop size memory) (omega (arith, length-drop {0} size memory)),
)

regroup :
    (x y old : Bytes)
    → x ++ (y ++ drop (length y) (drop (length x) old)) ≡ (x ++ y) ++ drop (length (x ++ y)) old
regroup x y old =
    sym (append_assoc x y _)
    ∙ ap (λ r. (x ++ y) ++ r)
        (drop-add (length x) (length y) old ∙ ap (λ (k : ℕ). drop k old) (sym (length-append x y)))

-- The loop over elements of one size, behind what it has written already, is one copy of them all.
copy_elements_from :
    (size i : ℕ) (temp : List Bytes) (pre old : Bytes)
    → length pre ≡ i * size
    → All (λ x. length x ≡ size) temp
    → length (flatten temp) ≤ length old
    → copy_elements size i temp (pre ++ old)
      ≡ some (pre ++ (flatten temp ++ drop (length (flatten temp)) old))
unfolding copy_elements flatten
copy_elements_from size i [] pre old at sized fits = refl
copy_elements_from size i (x ∷ temp) pre old at sized fits =
    let split = length-append {0} x (flatten temp) in
    rw
      (
        ← at,
        write_at-append pre x old (omega arith),
        copy_elements,
        ← append_assoc pre x (drop (length x) old),
      )
      (copy_elements_from size (i + 1) temp (pre ++ x) (drop (length x) old)
          (omega (arith, length-append {0} pre x)) sized.1
          (omega (arith, length-drop {0} (length x) old))
        ∙ ap some (append_assoc pre x _ ∙ ap (λ r. pre ++ r) (regroup x (flatten temp) old)))

-- For elements of one size that fit into the destination together, the loop leaves the destination
-- with their bytes, one element after the other, and what it had behind them.
pub copy_elements-flatten :
    (size : ℕ) (temp : List Bytes) (dst : Bytes)
    → All (λ x. length x ≡ size) temp
    → length (flatten temp) ≤ length dst
    → copy_elements size 0 temp dst ≡ some (flatten temp ++ drop (length (flatten temp)) dst)
copy_elements-flatten size temp dst sized fits =
    copy_elements_from size 0 temp [] dst (omega arith) sized fits
