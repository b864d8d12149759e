-- ===== src/Storage/Hashtable/Removing.antt =====
-- The entry of a key taken out of its chain: what is left, and that it is apart from the entry.
use pmemcpy.Base.{
  ℕ, ◌≡◌, sym, ◌∙◌, inl, inr, true, false, some, List, [], ◌∷◌, Bytes, ◌==◌, ==_refl, ==_symm,
  Bool-cases, arith,
}
use mathlib.Core.Path.{subst}
use mathlib.Core.Option.{some-injective}
use pmemcpy.Storage.Libpmemobj.{Pmdk}
use pmemcpy.Storage.Hashtable.{PmemPointer, is_entry, find_entry, remove_entry}
use pmemcpy.Storage.Hashtable.Chains.{Apart, Disjoint, Chain, values}
use pmemcpy.Storage.Hashtable.Reading.{Apart-found}

Apart-remove : (o q : ℕ) (c : List PmemPointer) → Apart o c → Apart o (remove_entry q c)
unfolding remove_entry
Apart-remove o q [] a = tt
Apart-remove o q (d ∷ c) a = elim (Bool-cases (d.oid == q)) [
  | inl here ↦ rw here a.1
  | inr later ↦ rw later (a.0, Apart-remove o q c a.1)
]

pub Disjoint-remove_left :
    (q : ℕ) (c d : List PmemPointer) → Disjoint c d → Disjoint (remove_entry q c) d
unfolding remove_entry
Disjoint-remove_left q [] d p = tt
Disjoint-remove_left q (x ∷ c) d p = elim (Bool-cases (x.oid == q)) [
  | inl here ↦ rw here p.1
  | inr later ↦ rw later (p.0, Disjoint-remove_left q c d p.1)
]

pub Disjoint-remove_right :
    (q : ℕ) (c d : List PmemPointer) → Disjoint c d → Disjoint c (remove_entry q d)
Disjoint-remove_right q [] d p = tt
Disjoint-remove_right q (x ∷ c) d p = (
  (Apart-remove x.data_oid q d p.0.0, Apart-remove x.oid q d p.0.1),
  Disjoint-remove_right q c d p.1,
)

-- The objects of an entry of one chain are apart from a chain that is disjoint from it.
pub Disjoint-found :
    (id : Bytes) (c d : List PmemPointer) (e : PmemPointer)
    → find_entry id c ≡ some e
    → Disjoint c d
    → Apart e.data_oid d × Apart e.oid d
unfolding find_entry
Disjoint-found id [] d e f p = cc
Disjoint-found id (x ∷ c) d e f p = elim (Bool-cases (is_entry id x)) [
  | inl here ↦
      let same : x ≡ e = some-injective x e (rw here at f) in
      subst (λ (y : PmemPointer). Apart y.data_oid d × Apart y.oid d) same p.0
  | inr later ↦ Disjoint-found id c d e (rw later at f) p.1
]

pub find_entry-is_entry :
    (id : Bytes) (c : List PmemPointer) (e : PmemPointer)
    → find_entry id c ≡ some e
    → is_entry id e ≡ true
unfolding find_entry
find_entry-is_entry id [] e f = cc
find_entry-is_entry id (x ∷ c) e f = elim (Bool-cases (is_entry id x)) [
  | inl here ↦
      let same : x ≡ e = some-injective x e (rw here at f) in
      subst (λ (y : PmemPointer). is_entry id y ≡ true) same here
  | inr later ↦ find_entry-is_entry id c e (rw later at f)
]

module _ (P : Pmdk) where
  pub Chain-remove :
      (h : P.Heap) (q : ℕ) (c : List PmemPointer) → Chain P h c → Chain P h (remove_entry q c)
  unfolding remove_entry
  Chain-remove h q [] k = tt
  Chain-remove h q (x ∷ c) k = elim (Bool-cases (x.oid == q)) [
    | inl here ↦ rw here k.3
    | inr later ↦
        rw later
          (k.0, Apart-remove x.data_oid q c k.1, Apart-remove x.oid q c k.2, Chain-remove h q c k.3)
  ]

  -- What is left of the chain is apart from the objects of the entry taken out.
  pub removed-Apart :
      (h : P.Heap) (id : Bytes) (c : List PmemPointer) (e : PmemPointer)
      → find_entry id c ≡ some e
      → Chain P h c
      → Apart e.data_oid (remove_entry e.oid c) × Apart e.oid (remove_entry e.oid c)
  unfolding find_entry remove_entry
  removed-Apart h id [] e f k = cc
  removed-Apart h id (x ∷ c) e f k = elim (Bool-cases (is_entry id x)) [
    | inl here ↦
        let same : x ≡ e = some-injective x e (rw here at f) in
        subst
          (λ (y : PmemPointer).
            Apart y.data_oid (remove_entry y.oid (x ∷ c))
            × Apart y.oid (remove_entry y.oid (x ∷ c)))
          same (rw (==_refl x.oid) (k.1, k.2))
    | inr later ↦
        let found = rw later at f in
        let (a, b) = removed-Apart h id c e found k.3 in
        let value_node = Apart-found P x.data_oid id c e found k.1 in
        let node = Apart-found P x.oid id c e found k.2 in
        let differ : (x.oid == e.oid) ≡ false = ==_symm x.oid e.oid ∙ node.1 in
        rw differ (
          ((==_symm _ _ ∙ value_node.0, ==_symm _ _ ∙ node.0), a),
          ((==_symm _ _ ∙ value_node.1, ==_symm _ _ ∙ node.1), b),
        )
  ]

  -- A key that the entry does not meet keeps its values.
  pub values-remove :
      (h : P.Heap) (id k : Bytes) (c : List PmemPointer) (e : PmemPointer)
      → find_entry id c ≡ some e
      → is_entry k e ≡ false
      → Chain P h c
      → values P h k (remove_entry e.oid c) ≡ values P h k c
  unfolding find_entry remove_entry values
  values-remove h id k [] e f n w = cc
  values-remove h id k (x ∷ c) e f n w = elim (Bool-cases (is_entry id x)) [
    | inl here ↦
        let same : x ≡ e = some-injective x e (rw here at f) in
        let unmet : is_entry k x ≡ false =
          subst (λ (y : PmemPointer). is_entry k y ≡ false) (sym same) n in
        subst
          (λ (y : PmemPointer). values P h k (remove_entry y.oid (x ∷ c)) ≡ values P h k (x ∷ c))
          same (rw (==_refl x.oid, unmet))
    | inr later ↦
        let found = rw later at f in
        let node = Apart-found P x.oid id c e found w.2 in
        ground (arith, node, values-remove h id k c e found n w.3)
  ]
