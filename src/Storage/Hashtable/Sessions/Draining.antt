-- ===== src/Storage/Hashtable/Sessions/Draining.antt =====
-- A key can always be freed until it has no value.
use pmemcpy.Base.{ℕ, ◌≡◌, ap, ◌∙◌, List, [], ◌∷◌, Bytes, length, replicate, bytes_equal_refl}
use mathlib.Core.Path.{subst}
use pmemcpy.Util.Numbers.{Floats}
use pmemcpy.Storage.Libpmemobj.{Pmdk, IsAllocator}
use pmemcpy.Storage.Hashtable.{Pool, load, free}
use pmemcpy.Storage.Hashtable.Keys.{IsText}
use pmemcpy.Storage.Hashtable.Reading.{answer, load-view}
use pmemcpy.Storage.Hashtable.Freeing.{Freed, free-Freed}
use pmemcpy.Storage.Hashtable.Sessions.{
  Stacks, frees, apply, Models, Step, freed, Session, done, then_step, Step-Models,
}

module _ (P : Pmdk) (L : IsAllocator P) (fl : Floats) (nbuckets : ℕ) where
  popped :
      (m : Stacks) (id v : Bytes) (older : List Bytes)
      → m id ≡ v ∷ older
      → apply (frees id) m id ≡ older
  unfolding apply
  popped m id v older e = rw (bytes_equal_refl id, e)

  -- In a pool in good order that reads as the stacks do, `free` of a key with no NUL byte succeeds as
  -- many times in a row as the key has values, and `load` then finds none under it.
  pub free-drains :
      (m : Stacks) (p : Pool P) (id : Bytes) (vs : List Bytes)
      → Models P L fl nbuckets m p
      → IsText id
      → m id ≡ vs
      → (q : Pool P) × Session P L fl nbuckets (replicate (length vs) (frees id)) p q
        × (load fl P nbuckets id q ≡ (answer fl id [], q))
  unfolding replicate
  free-drains m p id [] r t e = (
    p,
    done p,
    load-view P fl nbuckets p r.valid id ∙ ap (λ vs. (answer fl id vs, p)) (r.reads id t ∙ e),
  )
  free-drains m p id (v ∷ older) r t e =
      let (q, freeing, w) =
        subst (λ (vs : List Bytes). Freed P L fl nbuckets p r.valid id vs (free fl P nbuckets id p))
          (r.reads id t ∙ e) (free-Freed P L fl nbuckets p r.valid id t) in
      let step : Step P L fl nbuckets (frees id) p q = freed id p q t freeing in
      let (last, session, loaded) =
        free-drains (apply (frees id) m) q id older
          (Step-Models P L fl nbuckets (frees id) m r step) t (popped m id v older e) in
      (
        last,
        then_step (frees id) (replicate (length older) (frees id)) p q last step session,
        loaded,
      )
