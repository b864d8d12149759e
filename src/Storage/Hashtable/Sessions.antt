-- ===== src/Storage/Hashtable/Sessions.antt =====
-- Sequences of operations on one pool against stacks of values, one for each key.
pub mod Draining
use pmemcpy.Base.{
  ℕ, ◌≤◌, ◌≡◌, sym, ap, ◌∙◌, some, List, [], ◌∷◌, Bytes, if◌then◌else◌, length, Bool-cases, inl,
  inr,
}
use mathlib.Core.Path.{subst}
use pmemcpy.Util.Numbers.{Floats}
use pmemcpy.Util.Error.{ok, throw_error-ne-ok}
use pmemcpy.Storage.Libpmemobj.{Pmdk, IsAllocator}
use pmemcpy.Storage.Hashtable.{Pool, id_capacity, store, free, load}
use pmemcpy.Base.{bytes_equal, bytes_equal_iff, bytes_equal_refl}
use pmemcpy.Storage.Hashtable.Keys.{IsText}
use pmemcpy.Storage.Hashtable.Reading.{IsValid, view, answer, load-view}
use pmemcpy.Storage.Hashtable.Storing.{Writes, store-Writes}
use pmemcpy.Storage.Hashtable.Freeing.{Frees, Freed, free-Freed}

-- The abstract pool: for each key its values, the one stored last first.
abbrev pub Stacks : Type 0
Stacks = Bytes → List Bytes

pub data Operation : Type 0 where
  stores : Bytes → Bytes → Operation
  frees : Bytes → Operation

abbrev pub pop : List Bytes → List Bytes
pop [] = []
pop (v ∷ older) = older

-- What an operation does to the stacks.
unfoldable pub apply : Operation → Stacks → Stacks
apply (stores id src) m k = if bytes_equal id k then src ∷ m k else m k
apply (frees id) m k = if bytes_equal id k then pop (m k) else m k

module _ (P : Pmdk) (L : IsAllocator P) (fl : Floats) (nbuckets : ℕ) where
  -- A pool in good order that reads as the stacks do, under every key that has no NUL byte.
  pub record Models (m : Stacks) (p : Pool P) : Type 0 where
    pub valid : IsValid P nbuckets p
    pub reads : (k : Bytes) → IsText k → view P nbuckets p k ≡ m k

  -- One step of a program over the pool: a `store` for which libpmemobj has room, under a key with no NUL
  -- byte that fits an entry, or a `free` of a key with no NUL byte that has a value.
  pub data Step : Operation → Pool P → Pool P → Type 0 where
    stored :
        (id src : Bytes) (p p' : Pool P) (o : ℕ) (h : P.Heap) (n : ℕ) (h' : P.Heap)
        → IsText id
        → length id ≤ id_capacity
        → P.alloc (length src) p.heap ≡ some (o, h)
        → P.alloc P.pointer_size (P.poke o src h) ≡ some (n, h')
        → store fl P nbuckets id src p ≡ (ok tt, p')
        → Step (stores id src) p p'
    freed :
        (id : Bytes) (p p' : Pool P)
        → IsText id
        → free fl P nbuckets id p ≡ (ok tt, p')
        → Step (frees id) p p'

  pub data Session : List Operation → Pool P → Pool P → Type 0 where
    done : (p : Pool P) → Session [] p p
    then_step :
        (op : Operation) (ops : List Operation) (p q r : Pool P)
        → Step op p q
        → Session ops q r
        → Session (op ∷ ops) p r

  abbrev pub run : List Operation → Stacks → Stacks
  run [] m = m
  run (op ∷ ops) m = run ops (apply op m)

  store-Models :
      (m : Stacks) (p : Pool P) (id src : Bytes) (p' : Pool P)
      → Models m p
      → Writes P L nbuckets p id src p'
      → Models (apply (stores id src) m) p'
  unfolding apply
  store-Models m p id src p' r w = record {
    valid = w.valid;
    reads = λ k t. rw (← r.reads k t) (w.reads k t);
  }

  free-Models :
      (m : Stacks) (p : Pool P) (id : Bytes) (older : List Bytes) (p' : Pool P)
      → Models m p
      → IsText id
      → older ≡ pop (m id)
      → Frees P nbuckets p id older p'
      → Models (apply (frees id) m) p'
  unfolding apply
  free-Models m p id older p' r t e w = record {
    valid = w.valid;
    reads = λ k u. w.reads k u ∙ (elim (Bool-cases (bytes_equal id k)) [
      | inl same ↦ rw same (e ∙ ap (λ (x : Bytes). pop (m x)) ((bytes_equal_iff id k).0 same))
      | inr differ ↦ rw differ (r.reads k u)
    ]);
  }

  Freed-Models :
      (m : Stacks) (p : Pool P) (id : Bytes) (p' : Pool P) (vs : List Bytes)
      → (r : Models m p) → IsText id
      → vs ≡ m id
      → Freed P L fl nbuckets p r.valid id vs (ok tt, p')
      → Models (apply (frees id) m) p'
  Freed-Models m p id p' [] r t e h = absurd (throw_error-ne-ok fl _ _ tt (sym (ap (λ x. x.0) h)))
  Freed-Models m p id p' (v ∷ older) r t e (q, same, w) =
      free-Models m p id older p' r t (ap pop e)
        (subst (Frees P nbuckets p id older) (sym (ap (λ x. x.1) same)) w)

  -- A step keeps the agreement of the pool with the stacks.
  pub Step-Models :
      (op : Operation) (m : Stacks) {p q : Pool P}
      → Models m p
      → Step op p q
      → Models (apply op m) q
  Step-Models op m r (stored id src p p' o h n h' t short a b runs) =
      let (p'', result, w) = store-Writes P L fl nbuckets p r.valid id src o h n h' short a b in
      store-Models m p id src p' r
        (subst (Writes P L nbuckets p id src) (ap (λ x. x.1) (sym result ∙ runs)) w)
  Step-Models op m r (freed id p p' t runs) =
      Freed-Models m p id p' (view P nbuckets p id) r t (r.reads id t) (
        subst (Freed P L fl nbuckets p r.valid id (view P nbuckets p id)) runs
          (free-Freed P L fl nbuckets p r.valid id t))

  -- From a pool in good order that reads as given stacks of values under every key with no NUL byte: every
  -- sequence of stores that libpmemobj has room for, under keys of at most 512 bytes with no NUL byte, and
  -- of successful frees of keys with no NUL byte keeps the pool in good order, and under every key with no
  -- NUL byte it then reads as the stack that the same sequence of pushes and pops gives.
  pub Session-Models :
      (m : Stacks) {ops : List Operation} {p q : Pool P}
      → Models m p
      → Session ops p q
      → Models (run ops m) q
  Session-Models m r (done p) = r
  Session-Models m r (then_step op ops p q s st rest) =
      Session-Models (apply op m) (Step-Models op m r st) rest

  -- From a pool in good order that reads as given stacks of values under every key with no NUL byte: after
  -- any sequence of stores that libpmemobj has room for, under keys of at most 512 bytes with no NUL byte,
  -- and of successful frees of keys with no NUL byte, `load` of a key with no NUL byte gives what is on top
  -- of the key's stack, where a store pushes its value and a free pops one value, and throws
  -- PMDK_CANT_FIND_KEY if the stack is empty and the message fits the formatter's buffer; it leaves the
  -- pool alone.
  pub load-Session :
      (m : Stacks) (ops : List Operation) (p q : Pool P) (id : Bytes)
      → Models m p
      → IsText id
      → Session ops p q
      → load fl P nbuckets id q ≡ (answer fl id (run ops m id), q)
  load-Session m ops p q id r t s =
      let after = Session-Models m r s in
      load-view P fl nbuckets q after.valid id ∙ ap (λ vs. (answer fl id vs, q)) (after.reads id t)

  -- After a `store`, a second `store` and a `free` under one key, as in such a sequence, `load` gives the value stored first:
  -- a `free` uncovers the value that a later `store` hid.
  pub load-free-store :
      (m : Stacks) (p q : Pool P) (id first second : Bytes)
      → Models m p
      → IsText id
      → Session (stores id first ∷ stores id second ∷ frees id ∷ []) p q
      → load fl P nbuckets id q ≡ (ok first, q)
  unfolding apply
  load-free-store m p q id first second r t s =
      rw (load-Session m _ p q id r t s, bytes_equal_refl id)
