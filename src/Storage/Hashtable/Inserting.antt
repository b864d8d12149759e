-- ===== src/Storage/Hashtable/Inserting.antt =====
-- A new entry at the head of its bucket: what it does to the pool's good order and to its values.
use pmemcpy.Base.{
  ℕ, ◌%◌, ◌≡◌, refl, ap, ◌∙◌, inl, inr, true, false, none, some, List, [], ◌∷◌, Bytes, ◌==◌,
  if◌then◌else◌, ==_symm, Bool-cases, arith,
}
use mathlib.Core.Path.{subst₂}
use pmemcpy.Storage.Libpmemobj.{Pmdk}
use pmemcpy.Storage.Hashtable.{PmemPointer, PmemPointerTable, Pool, set_bucket}
use pmemcpy.Base.{bytes_equal, bytes_equal_iff}
use pmemcpy.Storage.Hashtable.Keys.{IsText, is_entry-text}
use pmemcpy.Storage.Hashtable.Chains.{
  Apart, Disjoint, Stored, Chain, value, values, Extends, Extends-Keeps, Chain-keep, values-keep,
  Chain-Apart,
}
use pmemcpy.Storage.Hashtable.Reading.{IsValid, view, view-home}

pub Disjoint-cons :
    (e : PmemPointer) (c d : List PmemPointer)
    → Disjoint c d
    → Apart e.data_oid c
    → Apart e.oid c
    → Disjoint c (e ∷ d)
Disjoint-cons e [] d p a b = tt
Disjoint-cons e (x ∷ c) d p a b = (
  (
    ((==_symm _ _ ∙ a.0.0, ==_symm _ _ ∙ b.0.0), p.0.0),
    ((==_symm _ _ ∙ a.0.1, ==_symm _ _ ∙ b.0.1), p.0.1),
  ),
  Disjoint-cons e c d p.1 a.1 b.1,
)

module _ (P : Pmdk) where
  -- The pool after the insertion of an entry into bucket `i`.
  abbrev pub inserted : ℕ → PmemPointerTable → PmemPointer → P.Heap → Pool P
  inserted i t e h = record { heap = h; table = some (set_bucket i (e ∷ t.buckets i) t) }

  -- An entry that is new to a pool, in a heap that has all the pool's objects.
  pub record NewEntry (p : Pool P) (h : P.Heap) (e : PmemPointer) : Type 0 where
    pub extends : Extends P p.heap h
    pub data_fresh : P.contents p.heap e.data_oid ≡ none
    pub node_fresh : P.contents p.heap e.oid ≡ none
    pub stored : Stored P h e

  module _ (nbuckets : ℕ) (p : Pool P) (valid : IsValid P nbuckets p) (h : P.Heap) (e : PmemPointer)
      (new : NewEntry p h e) where
    abbrev bucket_of : ℕ → List PmemPointer
    bucket_of = valid.table.buckets

    kept : (j : ℕ) → Chain P h (bucket_of j)
    kept j =
        Chain-keep P p.heap h (bucket_of j)
          (Extends-Keeps P p.heap h new.extends (bucket_of j) (valid.chains j)) (valid.chains j)

    data-Apart : (j : ℕ) → Apart e.data_oid (bucket_of j)
    data-Apart j = Chain-Apart P p.heap e.data_oid new.data_fresh (bucket_of j) (valid.chains j)

    node-Apart : (j : ℕ) → Apart e.oid (bucket_of j)
    node-Apart j = Chain-Apart P p.heap e.oid new.node_fresh (bucket_of j) (valid.chains j)

    module _ (i : ℕ) where
      abbrev bucket_after : ℕ → List PmemPointer
      bucket_after j = if i == j then e ∷ bucket_of i else bucket_of j

      Chain-after : (j : ℕ) → Chain P h (bucket_after j)
      Chain-after j = elim (Bool-cases (i == j)) [
        | inl here ↦ rw here (new.stored, data-Apart i, node-Apart i, kept i)
        | inr there ↦ rw there (kept j)
      ]

      here_after : (j : ℕ) → (i == j) ≡ true → e ∷ bucket_of i ≡ bucket_after j
      here_after j same = rw same

      there_after : (j : ℕ) → (i == j) ≡ false → bucket_of j ≡ bucket_after j
      there_after j differ = rw differ

      Disjoint-after : (j k : ℕ) → (j == k) ≡ false → Disjoint (bucket_after j) (bucket_after k)
      Disjoint-after j k differ = elim (Bool-cases (i == j)) [
        | inl here ↦
            let away : (i == k) ≡ false = ground arith in
            subst₂ Disjoint (here_after j here) (there_after k away)
              ((data-Apart k, node-Apart k), valid.disjoint i k away)
        | inr there ↦ elim (Bool-cases (i == k)) [
          | inl here ↦
              let away : (j == i) ≡ false = ground arith in
              subst₂ Disjoint (there_after j there) (here_after k here) (
                Disjoint-cons e (bucket_of j) (bucket_of i) (valid.disjoint j i away) (data-Apart j)
                  (node-Apart j))
          | inr away ↦
              subst₂ Disjoint (there_after j there) (there_after k away) (valid.disjoint j k differ)
        ]
      ]

      pub inserted-IsValid : IsValid P nbuckets (inserted i valid.table e h)
      inserted-IsValid = record {
        table = set_bucket i (e ∷ bucket_of i) valid.table;
        rooted = refl;
        counted = valid.counted;
        some_buckets = valid.some_buckets;
        chains = Chain-after;
        disjoint = Disjoint-after;
      }

    same_values : (j : ℕ) (k : Bytes) → values P h k (bucket_of j) ≡ values P p.heap k (bucket_of j)
    same_values j k =
        values-keep P p.heap h k (bucket_of j)
          (Extends-Keeps P p.heap h new.extends (bucket_of j) (valid.chains j))

    -- Only the key of the entry has a new value, before those that it had.
    pub view-inserted :
        (k : Bytes)
        → IsText k
        → view P nbuckets (inserted (P.hash e.id % nbuckets) valid.table e h) k
          ≡ (if bytes_equal e.id k then value P h e ∷ view P nbuckets p k else view P nbuckets p k)
    unfolding view values
    view-inserted k t = rw (view-home P nbuckets p valid k) (
        ground (
          arith,
          same_values (P.hash k % nbuckets) k,
          is_entry-text k e t new.stored.named,
          ap (λ (x : Bytes). P.hash x % nbuckets),
          (bytes_equal_iff e.id k).0,
        ))
