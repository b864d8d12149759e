-- ===== src/Storage/Hashtable/Object/Mapped.antt =====
-- A storage object with a pool mapped: its values, and what an operation on the pool does to it.
use pmemcpy.Base.{
  ℕ, ◌≤◌, ◌≡◌, sym, ap, ◌∙◌, fun_ext, inl, inr, Option, none, some, List, [], ◌∷◌, Bytes, ◌==◌,
  ==_refl, ==_iff, if◌then◌else◌, length, Bool-cases,
}
use mathlib.Core.Path.{subst}
use pmemcpy.Util.Numbers.{Floats}
use pmemcpy.Util.Error.{Result}
use pmemcpy.Storage.Action.{Action}
use pmemcpy.Storage.Libpmemobj.{Pmdk, PoolLibrary}
use pmemcpy.Storage.Hashtable.{Pool, id_capacity}
use pmemcpy.Storage.Hashtable.Keys.{IsText}
use pmemcpy.Storage.Hashtable.Reading.{IsValid, view}
use pmemcpy.Storage.Hashtable.Object.{Object, set_pool, run_on, on_there, on_number, on_pool}

-- A pool is mapped, and is in good order.
pub record IsMapped (P : Pmdk) (o : Object P) : Type 0 where
  pub number : ℕ
  pub pool : Pool P
  pub mapped : o.ppool ≡ some number
  pub there : o.pools number ≡ some pool
  pub valid : IsValid P o.nbuckets pool

abbrev pub IsKey : Bytes → Type 0
IsKey id = IsText id × (length id ≤ id_capacity)

abbrev pub mapped_pool : {P : Pmdk} → Object P → Option (Pool P)
mapped_pool o = elim o.ppool [ none ↦ none | some i ↦ o.pools i ]

abbrev pub top : List Bytes → Option Bytes
top [] = none
top (v ∷ older) = some v

-- The value stored last under a key.
unfoldable pub value : (P : Pmdk) → Object P → Bytes → Option Bytes
value P o id = elim (mapped_pool o) [ none ↦ none | some p ↦ top (view P o.nbuckets p id) ]

-- libpmemobj can allocate an object of the size and then, after what is written to it, an entry.
pub record CanAllocate (P : Pmdk) (size : ℕ) (written : ℕ → P.Heap → P.Heap) (p : Pool P)
    : Type 0 where
  pub data_oid : ℕ
  pub heap : P.Heap
  pub data_alloc : P.alloc size p.heap ≡ some (data_oid, heap)
  pub node_oid : ℕ
  pub heap' : P.Heap
  pub node_alloc : P.alloc P.pointer_size (written data_oid heap) ≡ some (node_oid, heap')

-- So in the pool that is mapped.
abbrev pub Allocates : (P : Pmdk) → Object P → ℕ → (ℕ → P.Heap → P.Heap) → Type 0
Allocates P o size written = elim (mapped_pool o) [
  | none ↦ ⊥
  | some p ↦ CanAllocate P size written p
]

module _ (P : Pmdk) (o : Object P) (m : IsMapped P o) where
  pub mapped_lem : mapped_pool o ≡ some m.pool
  mapped_lem = rw (m.mapped, m.there)

  pub on_pool_run :
      {A : Type 0} (fl : Floats) (B : PoolLibrary P) (f : ℕ → Action (Pool P) A) (r : Result A)
      (p : Pool P)
      → f o.nbuckets m.pool ≡ (r, p)
      → on_pool fl P B f o ≡ (r, set_pool m.number p o)
  unfolding on_pool
  on_pool_run fl B f r p e =
      ap (λ x. on_number fl P B f x o) m.mapped
      ∙ ap (λ x. on_there fl P B f m.number x o) m.there
      ∙ ap (run_on fl P B m.number o) e

  -- The object after a change of the mapped pool.
  pub changed-IsMapped : (p : Pool P) → IsValid P o.nbuckets p → IsMapped P (set_pool m.number p o)
  changed-IsMapped p v = record {
    number = m.number;
    pool = p;
    mapped = m.mapped;
    there = rw (==_refl m.number);
    valid = v;
  }

  pub changed_pool : (p : Pool P) → mapped_pool (set_pool m.number p o) ≡ some p
  changed_pool p =
      ap
        (λ (x : Option ℕ). elim x [
          | none ↦ none
          | some i ↦ if m.number == i then some p else o.pools i
        ])
        m.mapped
      ∙ rw (==_refl m.number)

  pub value_mapped : (id : Bytes) → value P o id ≡ top (view P o.nbuckets m.pool id)
  unfolding value
  value_mapped id = rw (mapped_lem, value)

  pub Allocates-mapped :
      (size : ℕ) (written : ℕ → P.Heap → P.Heap)
      → Allocates P o size written
      → CanAllocate P size written m.pool
  Allocates-mapped size written a =
      subst (λ (x : Option (Pool P)). elim x [ none ↦ ⊥ | some p ↦ CanAllocate P size written p ])
        mapped_lem a

  -- Writing back a pool that did not change changes nothing.
  pub unchanged : set_pool m.number m.pool o ≡ o
  unchanged =
      ap (λ (f : ℕ → Option (Pool P)). record o { pools = f })
        (fun_ext λ j. elim (Bool-cases (m.number == j)) [
          | inl same ↦ rw same (sym m.there ∙ ap o.pools ((==_iff m.number j).0 same))
          | inr differ ↦ rw differ
        ])

  pub value_changed :
      (p : Pool P) (v : IsValid P o.nbuckets p) (id : Bytes)
      → value P (set_pool m.number p o) id ≡ top (view P o.nbuckets p id)
  unfolding value
  value_changed p v id =
      ap (λ (x : Option (Pool P)). elim x [ none ↦ none | some q ↦ top (view P o.nbuckets q id) ])
        (changed_pool p)

  -- A second change of the pool takes the place of the first.
  pub twice : (p q : Pool P) → set_pool m.number q (set_pool m.number p o) ≡ set_pool m.number q o
  twice p q =
      ap (λ (f : ℕ → Option (Pool P)). record o { pools = f })
        (fun_ext
          λ j. elim (Bool-cases (m.number == j)) [ inl same ↦ rw same | inr differ ↦ rw differ ])

  -- An operation on the pool that another has changed.
  pub on_pool_again :
      {A : Type 0} (fl : Floats) (B : PoolLibrary P) (f : ℕ → Action (Pool P) A) (r : Result A)
      (p q : Pool P)
      → f o.nbuckets p ≡ (r, q)
      → on_pool fl P B f (set_pool m.number p o) ≡ (r, set_pool m.number q o)
  unfolding on_pool
  on_pool_again fl B f r p q e =
      let here : (set_pool m.number p o).pools m.number ≡ some p = rw (==_refl m.number) in
      ap (λ x. on_number fl P B f x (set_pool m.number p o)) m.mapped
      ∙ ap (λ x. on_there fl P B f m.number x (set_pool m.number p o)) here
      ∙ ap (run_on fl P B m.number (set_pool m.number p o)) e
      ∙ ap (λ x. (r, x)) (twice p q)
