-- ===== src/Pmem/Sequences.antt =====
-- Any sequence of stores through `PMEM` against a map from keys to values.
use pmemcpy.Base.{
  ◌≡◌, refl, sym, ap, ◌∙◌, inl, inr, Bool, Option, none, some, List, [], ◌∷◌, ◌++◌, Bytes,
  bytes_equal, bytes_equal_iff, Bool-cases, Option-cases, if◌then◌else◌, length,
}
use mathlib.Core.Path.{subst}
use mathlib.Core.Option.{some-injective}
use mathlib.Core.List.{Memᴰ}
use mathlib.Core.List.Memᴰ as Memᴰ
use pmemcpy.Util.Error.{ok}
use pmemcpy.Storage.Interface.{Storage, Meaning, IsStorage}
use pmemcpy.Serialize.Element.{Kind}
use pmemcpy.Serialize.Dimensions.{Dimensions}
use pmemcpy.Serialize.Serializer.{Serializer, IsRoundTrip, Room}
use pmemcpy.Pmem.RoundTrip.{StoreRoom, Holds}
use pmemcpy.Pmem.Putting.{
  put_size, Sized, encoded_put, serialize_put, put, get, put-Holds, get-held, serialized_put,
  deserialized_put,
}

-- A `store` under a key, of a value or of an array with its dimensions.
pub record Put : Type 0 where
  pub id : Bytes
  pub kind : Kind
  pub dims : Option Dimensions
  pub src : Bytes

abbrev pub or_else : Option Put → Option Put → Option Put
or_else none old = old
or_else (some p) old = some p

-- The map after some stores: the last one under each key.
unfoldable pub latest : List Put → Bytes → Option Put
latest [] id = none
latest (p ∷ ps) id = or_else (latest ps id) (if bytes_equal p.id id then some p else none)

module _ (S : Storage) (M : Meaning S) (L : IsStorage S M) (Z : Serializer)
    (R : IsRoundTrip Z) where
  -- A program of stores, each of what can be serialized, under a key that may be used and with
  -- room for it, each with or without `use_mmap`.
  pub data Stores : List Put → S.State → S.State → Type 0 where
    done : (s : S.State) → Stores [] s s
    then_store :
        (m : Bool) (p : Put) (ps : List Put) (bytes : Bytes) (s s' t : S.State)
        → Sized p.kind p.dims p.src
        → encoded_put Z m p.kind p.dims p.src ≡ ok bytes
        → M.IsKey p.id
        → StoreRoom S M m s p.id (Z.est_encoded_size (put_size p.kind p.dims)) bytes
        → put Z S m p.kind p.dims p.id p.src s ≡ (ok tt, s')
        → Stores ps s' t
        → Stores (p ∷ ps) s t

  -- Each store of a program is under a key that may be used, of memory of its size.
  pub Stores-Sized :
      (p : Put) {ps : List Put} {s t : S.State}
      → Stores ps s t
      → Memᴰ p ps
      → M.IsKey p.id × Sized p.kind p.dims p.src
  Stores-Sized p (done s) m = absurd (Memᴰ.not-nil m)
  Stores-Sized p (then_store m q qs bytes s s' t sized e key room stored rest) i =
      elim (Memᴰ.cases_cons i) [
        | inl same ↦
            subst (λ (x : Put). M.IsKey x.id × Sized x.kind x.dims x.src) (sym same) (key, sized)
        | inr later ↦ Stores-Sized p rest later
      ]

  -- A key holds a serialized value.
  record Reads (id : Bytes) (p : Put) (t : S.State) : Type 0 where
    bytes : Bytes
    junk : Bytes
    sized : Sized p.kind p.dims p.src
    made : serialize_put Z p.kind p.dims p.src ≡ ok bytes
    room : Room (Z.est_encoded_size (put_size p.kind p.dims)) bytes junk
    held : M.value t id ≡ some (bytes ++ junk)

  -- The state after a program: in good order, with the last value of each key that was stored under, and
  -- what the others had.
  record Agrees (ps : List Put) (s t : S.State) : Type 0 where
    valid : M.IsValid t
    new : (id : Bytes) (p : Put) → M.IsKey id → latest ps id ≡ some p → Reads id p t
    old : (id : Bytes) → M.IsKey id → latest ps id ≡ none → M.value t id ≡ M.value s id

  agree_done : (s : S.State) → M.IsValid s → Agrees [] s s
  unfolding latest
  agree_done s v = record { valid = v; new = λ id p key e. absurd (cc e); old = λ id key e. refl }

  -- What a first store changes of the values that later ones leave.
  agree_first :
      (m : Bool) (p : Put) (ps : List Put) (bytes : Bytes) (s s' t : S.State)
      → Sized p.kind p.dims p.src
      → encoded_put Z m p.kind p.dims p.src ≡ ok bytes
      → M.IsKey p.id
      → Holds S M s p.id (Z.est_encoded_size (put_size p.kind p.dims)) bytes s'
      → Agrees ps s' t
      → Agrees (p ∷ ps) s t
  unfolding latest
  agree_first m p ps bytes s s' t sized e key h a = record {
    valid = a.valid;
    new = λ id q k found. elim (Option-cases (latest ps id)) [
      | inr (r, later) ↦ a.new id q k (later ∙ (rw later at found))
      | inl never ↦ elim (Bool-cases (bytes_equal p.id id)) [
        | inl same ↦
            let one : p ≡ q = some-injective p q (rw (never, same) at found) in
            subst (λ (x : Put). Reads id x t) one
              (record {
                bytes = bytes;
                junk = h.junk;
                sized = sized;
                made = serialized_put S M L Z R m p.kind p.dims p.src bytes sized e;
                room = h.room;
                held =
                    a.old id k never
                    ∙ ap (M.value s') (sym ((bytes_equal_iff p.id id).0 same))
                    ∙ h.held;
              })
        | inr differ ↦ absurd (cc (rw (never, differ) at found))
      ]
    ];
    old = λ id k lost. elim (Option-cases (latest ps id)) [
      | inr (r, later) ↦ absurd (cc (rw later at lost))
      | inl never ↦ elim (Bool-cases (bytes_equal p.id id)) [
        | inl same ↦ absurd (cc (rw (never, same) at lost))
        | inr differ ↦ a.old id k never ∙ h.others id k differ
      ]
    ];
  }

  Stores-Agrees : {ps : List Put} {s t : S.State} → M.IsValid s → Stores ps s t → Agrees ps s t
  Stores-Agrees v (done s) = agree_done s v
  Stores-Agrees v (then_store m p qs bytes s s' t sized e key room stored rest) =
      let (s'', again, h) =
        put-Holds S M L Z R m p.kind p.dims p.id p.src bytes s sized e v key room in
      let h' =
        subst (Holds S M s p.id (Z.est_encoded_size (put_size p.kind p.dims)) bytes)
          (ap (λ x. x.1) (sym again ∙ stored)) h in
      agree_first m p qs bytes s s' t sized e key h' (Stores-Agrees h'.valid rest)

  pub Stores-IsValid : {ps : List Put} {s t : S.State} → M.IsValid s → Stores ps s t → M.IsValid t
  Stores-IsValid v stores = (Stores-Agrees v stores).valid

  -- Memory that a key's value can be loaded into, and what becomes of the key.
  abbrev pub Fits : Option Put → Bytes → Type 0
  Fits none dst = Unit {0}
  Fits (some p) dst = length dst ≡ length p.src

  abbrev pub Answers : Bool → Bytes → Bytes → S.State → S.State → Option Put → Type 0
  Answers m id dst s t none = M.value t id ≡ M.value s id
  Answers m id dst s t (some p) = get Z S m p.kind p.dims id dst t ≡ (ok p.src, t)

  answers :
      (ps : List Put) (s t : S.State) (m : Bool) (id dst : Bytes) (o : Option Put)
      → Agrees ps s t
      → M.IsKey id
      → latest ps id ≡ o
      → Fits o dst
      → Answers m id dst s t o
  answers ps s t m id dst none a key e fits = a.old id key e
  answers ps s t m id dst (some p) a key e fits =
      let r = a.new id p key e in
      get-held S M L Z R m p.kind p.dims id dst (r.bytes ++ r.junk) p.src t a.valid key r.held (
        deserialized_put S M L Z R p.kind p.dims p.src dst r.bytes r.junk r.sized fits r.made
          r.room)

  -- For every storage and serializer that keep their contracts: after any sequence of stores from a valid
  -- state, under keys that may be used, each with room for it, of a value or an array that can be
  -- serialized and whose size does not wrap around, and with or without `use_mmap`, the state is valid; if
  -- a key was stored under, then `load`, with or without `use_mmap` and into memory of the size of the last
  -- value or array stored under it, gives that one and leaves the state alone; and else the key holds what
  -- it held at first.
  pub load-Stores :
      (ps : List Put) (s t : S.State) (m : Bool) (id dst : Bytes)
      → M.IsValid s
      → Stores ps s t
      → M.IsKey id
      → Fits (latest ps id) dst
      → M.IsValid t × Answers m id dst s t (latest ps id)
  load-Stores ps s t m id dst v stores key fits =
      let a = Stores-Agrees v stores in
      (a.valid, answers ps s t m id dst (latest ps id) a key refl fits)
