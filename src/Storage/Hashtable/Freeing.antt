-- ===== src/Storage/Hashtable/Freeing.antt =====
-- `free` on every branch.
use pmemcpy.Base.{
  ℕ, ◌%◌, ◌≡◌, refl, sym, ap, ◌∙◌, inl, inr, true, false, some, List, [], ◌∷◌, Bytes, ◌==◌, ==_iff,
  ==_refl, if◌then◌else◌, Bool-cases, Option-cases, arith,
}
use mathlib.Core.Path.{subst, subst₂}
use pmemcpy.Util.Numbers.{Floats}
use pmemcpy.Util.Serializeable.{str}
use pmemcpy.Util.Error.{Result, ok, throw_error}
use pmemcpy.Util.Errors.{pmdk_cant_find_key}
use pmemcpy.Storage.Libpmemobj.{Pmdk, IsAllocator}
use pmemcpy.Storage.Action.{next, next-throw_error}
use pmemcpy.Storage.Hashtable.{
  PmemPointer, Pool, is_entry, find_entry, remove_entry, set_bucket, remove_free, free,
}
use pmemcpy.Base.{bytes_equal, bytes_equal_iff}
use pmemcpy.Storage.Hashtable.Keys.{IsText, is_entry-text}
use pmemcpy.Storage.Hashtable.Chains.{
  Apart, Disjoint, Chain, values, Keeps, Chain-keep, values-keep,
}
use pmemcpy.Storage.Hashtable.Reading.{
  IsValid, view, view-home, home, bucket-home, find_entry-none, find_entry-some, find_hashed-none,
  find_hashed-some,
}
use pmemcpy.Storage.Hashtable.Removing.{
  Disjoint-remove_left, Disjoint-remove_right, Disjoint-found, find_entry-is_entry, Chain-remove,
  removed-Apart, values-remove,
}

module _ (P : Pmdk) where
  -- What `free` leaves of a pool: the value stored last under the key is gone.
  pub record Frees (nbuckets : ℕ) (p : Pool P) (id : Bytes) (older : List Bytes) (p' : Pool P)
      : Type 0 where
    pub valid : IsValid P nbuckets p'
    pub reads :
        (k : Bytes)
        → IsText k
        → view P nbuckets p' k ≡ (if bytes_equal id k then older else view P nbuckets p k)

  module _ (L : IsAllocator P) (nbuckets : ℕ) (p : Pool P) (valid : IsValid P nbuckets p)
      (id : Bytes) (e : PmemPointer)
      (found : find_entry id (home P nbuckets p valid id) ≡ some e) where
    abbrev i : ℕ
    i = P.hash id % nbuckets

    abbrev heap_after : P.Heap
    heap_after = P.free e.oid (P.free e.data_oid p.heap)

    abbrev left : List PmemPointer
    left = remove_entry e.oid (home P nbuckets p valid id)

    abbrev pool_after : Pool P
    pool_after = record { heap = heap_after; table = some (set_bucket i left valid.table) }

    freed-Keeps :
        (c : List PmemPointer) → Apart e.data_oid c × Apart e.oid c → Keeps P p.heap heap_after c
    freed-Keeps [] a = tt
    freed-Keeps (x ∷ c) a = (
      (
        rw (
          L.contents_free e.oid _ x.data_oid,
          a.1.0.0,
          L.contents_free e.data_oid _ x.data_oid,
          a.0.0.0,
        ),
        rw (L.contents_free e.oid _ x.oid, a.1.0.1, L.contents_free e.data_oid _ x.oid, a.0.0.1),
      ),
      freed-Keeps c (a.0.1, a.1.1),
    )

    left-Keeps : Keeps P p.heap heap_after left
    left-Keeps = freed-Keeps left (removed-Apart P p.heap id _ e found (valid.chains i))

    other-Keeps : (j : ℕ) → (i == j) ≡ false → Keeps P p.heap heap_after (valid.table.buckets j)
    other-Keeps j differ = freed-Keeps _ (Disjoint-found id _ _ e found (valid.disjoint i j differ))

    abbrev bucket_after : ℕ → List PmemPointer
    bucket_after j = if i == j then left else valid.table.buckets j

    here_after : (j : ℕ) → (i == j) ≡ true → left ≡ bucket_after j
    here_after j same = rw same

    there_after : (j : ℕ) → (i == j) ≡ false → valid.table.buckets j ≡ bucket_after j
    there_after j differ = rw differ

    Chain-after : (j : ℕ) → Chain P heap_after (bucket_after j)
    Chain-after j = elim (Bool-cases (i == j)) [
      | inl here ↦ subst (Chain P heap_after) (here_after j here) (
          Chain-keep P p.heap heap_after left left-Keeps
            (Chain-remove P p.heap e.oid _ (valid.chains i)))
      | inr there ↦
          subst (Chain P heap_after) (there_after j there)
            (Chain-keep P p.heap heap_after _ (other-Keeps j there) (valid.chains j))
    ]

    Disjoint-after : (j k : ℕ) → (j == k) ≡ false → Disjoint (bucket_after j) (bucket_after k)
    Disjoint-after j k differ = elim (Bool-cases (i == j)) [
      | inl here ↦
          let away : (i == k) ≡ false = ground arith in
          subst₂ Disjoint (here_after j here) (there_after k away)
            (Disjoint-remove_left e.oid _ _ (valid.disjoint i k away))
      | inr there ↦ elim (Bool-cases (i == k)) [
        | inl here ↦
            let away : (j == i) ≡ false = ground arith in
            subst₂ Disjoint (there_after j there) (here_after k here)
              (Disjoint-remove_right e.oid _ _ (valid.disjoint j i away))
        | inr away ↦
            subst₂ Disjoint (there_after j there) (there_after k away) (valid.disjoint j k differ)
      ]
    ]

    after-IsValid : IsValid P nbuckets pool_after
    after-IsValid = record {
      table = set_bucket i left valid.table;
      rooted = refl;
      counted = valid.counted;
      some_buckets = valid.some_buckets;
      chains = Chain-after;
      disjoint = Disjoint-after;
    }

    abbrev heap_values : Bytes → List PmemPointer → List Bytes
    heap_values k c = values P p.heap k c

    view_after :
        (k : Bytes)
        → view P nbuckets pool_after k ≡ values P heap_after k (bucket_after (P.hash k % nbuckets))
    unfolding view
    view_after k = refl

    own_key : IsText id → e.id ≡ id
    own_key t =
        let named = (find_entry-some P p.heap id _ e found (valid.chains i)).0.named in
        (bytes_equal_iff e.id id).0
          (sym (is_entry-text id e t named) ∙ find_entry-is_entry id _ e found)

    unmet : IsText id → (k : Bytes) → IsText k → bytes_equal id k ≡ false → is_entry k e ≡ false
    unmet t k u differ =
        let named = (find_entry-some P p.heap id _ e found (valid.chains i)).0.named in
        is_entry-text k e u named ∙ ap (λ (x : Bytes). bytes_equal x k) (own_key t) ∙ differ

    after_own : view P nbuckets pool_after id ≡ heap_values id left
    after_own =
        view_after id
        ∙ ap (values P heap_after id) (sym (here_after i (==_refl i)))
        ∙ values-keep P p.heap heap_after id left left-Keeps

    after_other :
        IsText id
        → (k : Bytes) → IsText k
        → bytes_equal id k ≡ false
        → view P nbuckets pool_after k ≡ view P nbuckets p k
    after_other t k u differ =
        let j = P.hash k % nbuckets in
        view_after k
        ∙ (elim (Bool-cases (i == j)) [
          | inl here ↦
              let one : i ≡ j = (==_iff i j).0 here in
              ap (values P heap_after k) (sym (here_after j here))
              ∙ values-keep P p.heap heap_after k left left-Keeps
              ∙ values-remove P p.heap id k _ e found (unmet t k u differ) (valid.chains i)
              ∙ ap (λ (m : ℕ). heap_values k (valid.table.buckets m)) one
          | inr there ↦
              ap (values P heap_after k) (sym (there_after j there))
              ∙ values-keep P p.heap heap_after k _ (other-Keeps j there)
        ])
        ∙ sym (view-home P nbuckets p valid k)

    after-Frees : IsText id → Frees nbuckets p id (heap_values id left) pool_after
    after-Frees t = record {
      valid = after-IsValid;
      reads = λ k u. elim (Bool-cases (bytes_equal id k)) [
        | inl same ↦
            let same_key : id ≡ k = (bytes_equal_iff id k).0 same in
            rw same (
              subst (λ (x : Bytes). view P nbuckets pool_after x ≡ heap_values id left) same_key
                after_own)
        | inr differ ↦ rw differ (after_other t k u differ)
      ];
    }

    remove_free_found :
        (fl : Floats)
        → remove_free fl P nbuckets i e
            (record { heap = P.free e.data_oid p.heap; table = p.table })
          ≡ (ok tt, pool_after)
    unfolding remove_free
    remove_free_found fl =
        rw (bucket-home P nbuckets p valid fl id (P.free e.data_oid p.heap), next)

  module _ (L : IsAllocator P) (fl : Floats) (nbuckets : ℕ) (p : Pool P)
      (valid : IsValid P nbuckets p) (id : Bytes) where
    -- What `free` does for the values that its key has.
    abbrev pub Freed : List Bytes → Result (Unit {0}) × Pool P → Type 0
    Freed [] r = r ≡ (throw_error fl pmdk_cant_find_key (str id ∷ []), p)
    Freed (v ∷ older) r = (p' : Pool P) × (r ≡ (ok tt, p')) × Frees nbuckets p id older p'

    -- On a pool in good order and for a key without a NUL byte, `free` throws PMDK_CANT_FIND_KEY and
    -- leaves the pool alone if the key has no value. Otherwise it returns normally; the pool is then
    -- in good order, the value stored last under the key is gone, the earlier ones are back, and no
    -- other key that has no NUL byte changes.
    pub free-Freed : IsText id → Freed (view P nbuckets p id) (free fl P nbuckets id p)
    unfolding free
    free-Freed t = elim (Option-cases (find_entry id (home P nbuckets p valid id))) [
      | inl absent ↦
          rw
            (
              find_hashed-none P fl nbuckets p valid id absent,
              view-home P nbuckets p valid id,
              find_entry-none P p.heap id _ absent,
            )
            (next-throw_error fl _ _ p _)
      | inr (e, found) ↦
          let (stored, held) = find_entry-some P p.heap id _ e found (valid.chains _) in
          rw (view-home P nbuckets p valid id, held)
            (
              pool_after L nbuckets p valid id e found,
              rw (find_hashed-some P fl nbuckets p valid id e found, next)
                  (remove_free_found L nbuckets p valid id e found fl),
              after-Frees L nbuckets p valid id e found t,
            )
    ]
