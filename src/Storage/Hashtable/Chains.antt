-- ===== src/Storage/Hashtable/Chains.antt =====
-- The objects behind a bucket, and what the values of a key are.
use pmemcpy.Base.{
  ℕ, ◌≡◌, refl, sym, ap, ◌∙◌, inl, inr, false, none, some, List, [], ◌∷◌, Bytes, ◌==◌,
  if◌then◌else◌, length, take, All, take_all, ==_iff, Bool-cases, arith,
}
use pmemcpy.Storage.Libpmemobj.{Pmdk}
use pmemcpy.Storage.Hashtable.{PmemPointer, is_entry}

-- The object at an offset belongs to no entry of the chain.
abbrev pub Apart : ℕ → List PmemPointer → Type 0
Apart o = All (λ e. ((e.data_oid == o) ≡ false) × ((e.oid == o) ≡ false))

abbrev pub Disjoint : List PmemPointer → List PmemPointer → Type 0
Disjoint c d = All (λ e. Apart e.data_oid d × Apart e.oid d) c

module _ (P : Pmdk) where
  -- The objects of an entry are there, are two, and the value's has the size that the entry says.
  pub record Stored (h : P.Heap) (e : PmemPointer) : Type 0 where
    pub text : Bytes
    pub held : P.contents h e.data_oid ≡ some text
    pub sized : e.len ≡ length text
    pub node : Bytes
    pub linked : P.contents h e.oid ≡ some node
    pub two : (e.data_oid == e.oid) ≡ false
    pub named : e.id_len ≡ length e.id

  -- No two entries of a chain share an object.
  abbrev pub Chain : P.Heap → List PmemPointer → Type 0
  Chain h [] = Unit
  Chain h (e ∷ c) = Stored h e × Apart e.data_oid c × Apart e.oid c × Chain h c

  -- What a reader of the entry sees.
  unfoldable pub value : P.Heap → PmemPointer → Bytes
  value h e = elim (P.contents h e.data_oid) [ none ↦ [] | some text ↦ take e.len text ]

  -- The values of a key in a chain, the one stored last first.
  unfoldable pub values : P.Heap → Bytes → List PmemPointer → List Bytes
  values h id [] = []
  values h id (e ∷ c) = let rest = values h id c in if is_entry id e then value h e ∷ rest else rest

  -- A heap that has all the objects of another, unchanged.
  abbrev pub Extends : P.Heap → P.Heap → Type 0
  Extends h h' =
      (o : ℕ) (bytes : Bytes) → P.contents h o ≡ some bytes → P.contents h' o ≡ some bytes

  -- A heap in which the objects of a chain are those of another.
  abbrev pub Keeps : P.Heap → P.Heap → List PmemPointer → Type 0
  Keeps h h' = All (λ e.
      (P.contents h' e.data_oid ≡ P.contents h e.data_oid)
      × (P.contents h' e.oid ≡ P.contents h e.oid))

  module _ (h h' : P.Heap) where
    pub Extends-Keeps : Extends h h' → (c : List PmemPointer) → Chain h c → Keeps h h' c
    Extends-Keeps x [] k = tt
    Extends-Keeps x (e ∷ c) k =
        let s : Stored h e = k.0 in
        ((x _ _ s.held ∙ sym s.held, x _ _ s.linked ∙ sym s.linked), Extends-Keeps x c k.3)

    Stored-keep :
        (e : PmemPointer)
        → P.contents h' e.data_oid ≡ P.contents h e.data_oid
        → P.contents h' e.oid ≡ P.contents h e.oid
        → Stored h e
        → Stored h' e
    Stored-keep e p q s = record {
      text = s.text;
      held = p ∙ s.held;
      sized = s.sized;
      node = s.node;
      linked = q ∙ s.linked;
      two = s.two;
      named = s.named;
    }

    pub Chain-keep : (c : List PmemPointer) → Keeps h h' c → Chain h c → Chain h' c
    Chain-keep [] p k = tt
    Chain-keep (e ∷ c) p k = (Stored-keep e p.0.0 p.0.1 k.0, k.1, k.2, Chain-keep c p.1 k.3)

    value-keep :
        (e : PmemPointer)
        → P.contents h' e.data_oid ≡ P.contents h e.data_oid
        → value h' e ≡ value h e
    unfolding value
    value-keep e p = ground arith

    pub values-keep :
        (id : Bytes) (c : List PmemPointer) → Keeps h h' c → values h' id c ≡ values h id c
    unfolding values
    values-keep id [] p = refl
    values-keep id (e ∷ c) p = ground (arith, value-keep e p.0.0, values-keep id c p.1)

    -- A heap that differs from another at one object keeps the chains apart from it.
    pub Apart-Keeps :
        (o : ℕ)
        → ((q : ℕ) → (q == o) ≡ false → P.contents h' q ≡ P.contents h q)
        → (c : List PmemPointer) → Apart o c
        → Keeps h h' c
    Apart-Keeps o same [] a = tt
    Apart-Keeps o same (e ∷ c) a = ((same _ a.0.0, same _ a.0.1), Apart-Keeps o same c a.1)

  -- An object that is not there belongs to no entry.
  pub Chain-Apart :
      (h : P.Heap) (o : ℕ) → P.contents h o ≡ none → (c : List PmemPointer) → Chain h c → Apart o c
  Chain-Apart h o absent [] k = tt
  Chain-Apart h o absent (e ∷ c) k =
      let s : Stored h e = k.0 in
      let other : (q : ℕ) (b : Bytes) → P.contents h q ≡ some b → (q == o) ≡ false = λ q b there.
        elim (Bool-cases (q == o)) [
          | inr differ ↦ differ
          | inl same ↦
              let e : q ≡ o = (==_iff q o).0 same in
              absurd (cc (sym there ∙ ap (P.contents h) e ∙ absent))
        ] in
      ((other _ _ s.held, other _ _ s.linked), Chain-Apart h o absent c k.3)

  -- Of a stored entry a reader sees the whole object.
  pub value-Stored : (h : P.Heap) (e : PmemPointer) (s : Stored h e) → value h e ≡ s.text
  unfolding value
  value-Stored h e s =
      rw (s.held, value) (rw s.sized (take_all (length s.text) s.text (omega arith)))
