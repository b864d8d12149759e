-- ===== src/Storage/Hashtable/Latest.antt =====
-- What `load` gives, in terms of the bytes of the keys.
use pmemcpy.Base.{
  ℕ, ◌≡◌, refl, ap, ◌∙◌, none, some, List, [], ◌∷◌, Bytes, bytes_equal, if◌then◌else◌,
}
use pmemcpy.Util.Numbers.{Floats}
use pmemcpy.Storage.Libpmemobj.{Pmdk}
use pmemcpy.Storage.Hashtable.{PmemPointer, Pool, load}
use pmemcpy.Storage.Hashtable.Keys.{IsText, is_entry-text}
use pmemcpy.Storage.Hashtable.Chains.{Stored, Chain, value, values, value-Stored}
use pmemcpy.Storage.Hashtable.Reading.{IsValid, answer, home, view-home, load-view}

module _ (P : Pmdk) where
  -- The whole object of an entry's value.
  unfoldable pub object_of : P.Heap → PmemPointer → Bytes
  object_of h e = elim (P.contents h e.data_oid) [ none ↦ [] | some text ↦ text ]

  -- The objects of the entries that have exactly these bytes as their key, the one inserted last first.
  unfoldable pub stored_under : P.Heap → Bytes → List PmemPointer → List Bytes
  stored_under h id [] = []
  stored_under h id (e ∷ c) =
      let rest = stored_under h id c in if bytes_equal e.id id then object_of h e ∷ rest else rest

  values-stored_under :
      (h : P.Heap) (id : Bytes) (c : List PmemPointer)
      → IsText id
      → Chain P h c
      → values P h id c ≡ stored_under h id c
  unfolding values stored_under object_of
  values-stored_under h id [] t k = refl
  values-stored_under h id (e ∷ c) t k =
      let s : Stored P h e = k.0 in
      let whole : value P h e ≡ object_of h e = value-Stored P h e s ∙ (rw (object_of, s.held)) in
      rw (is_entry-text id e t s.named, whole, values-stored_under h id c t k.3)

  -- On a pool in good order, `load` of a key with no NUL byte gives the whole object of the value that was
  -- stored last under exactly the bytes of the key, of the entries in the key's bucket; without one it
  -- throws PMDK_CANT_FIND_KEY, if the message fits the formatter's buffer. It leaves the pool alone.
  pub load-stored_under :
      (fl : Floats) (nbuckets : ℕ) (p : Pool P) (valid : IsValid P nbuckets p) (id : Bytes)
      → IsText id
      → load fl P nbuckets id p
        ≡ (answer fl id (stored_under p.heap id (home P nbuckets p valid id)), p)
  load-stored_under fl nbuckets p valid id t =
      load-view P fl nbuckets p valid id
      ∙ ap (λ vs. (answer fl id vs, p))
          (view-home P nbuckets p valid id
            ∙ values-stored_under p.heap id (home P nbuckets p valid id) t (valid.chains _))
