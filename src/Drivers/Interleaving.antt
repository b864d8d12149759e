-- ===== src/Drivers/Interleaving.antt =====
-- Threads whose calls are taken one at a time, in any order.
use pmemcpy.Base.{
  ℕ, ◌≡◌, sym, ap, ◌∙◌, inl, inr, List, [], ◌∷◌, ◌==◌, ==_iff, if◌then◌else◌, All, Bool-cases,
}
use mathlib.Core.Path.{subst}
use mathlib.Core.List.{Memᴰ}
use mathlib.Core.List.Memᴰ as Memᴰ

module _ {ℓ} {A : Type ℓ} where
  -- The threads after one of them has made a call, with what is left of its own.
  abbrev pub advance : ℕ → List A → (ℕ → List A) → ℕ → List A
  advance r rest threads i = if r == i then rest else threads i

  -- The calls of all threads, each thread's in its order.
  pub data Interleaving : (ℕ → List A) → List A → Type ℓ where
    all_done : (threads : ℕ → List A) → ((i : ℕ) → threads i ≡ []) → Interleaving threads []
    one_call :
        (r : ℕ) (x : A) (rest : List A) (threads : ℕ → List A) (xs : List A)
        → threads r ≡ x ∷ rest
        → Interleaving (advance r rest threads) xs
        → Interleaving threads (x ∷ xs)

  -- Every call of a thread is made.
  pub Interleaving-Memᴰ :
      {threads : ℕ → List A} {xs : List A} (a : A) (i : ℕ)
      → Interleaving threads xs
      → Memᴰ a (threads i)
      → Memᴰ a xs
  Interleaving-Memᴰ a i (all_done threads none_left) m =
      absurd (Memᴰ.not-nil (subst (Memᴰ a) (none_left i) m))
  Interleaving-Memᴰ a i (one_call r x rest threads xs next later) m = elim (Bool-cases (r == i)) [
    | inr other ↦ Memᴰ.tail (Interleaving-Memᴰ a i later (rw other m))
    | inl own ↦
        let m' : Memᴰ a (x ∷ rest) =
          subst (Memᴰ a) (ap threads (sym ((==_iff r i).0 own)) ∙ next) m in
        elim (Memᴰ.cases_cons m') [
          | inl e ↦ Memᴰ.head e
          | inr m'' ↦ Memᴰ.tail (Interleaving-Memᴰ a i later (rw own m''))
        ]
  ]

  -- What holds of the calls of each thread holds of all that are made.
  pub Interleaving-All {κ} :
      (P : A → Type κ) {threads : ℕ → List A} {xs : List A}
      → Interleaving threads xs
      → ((i : ℕ) → All P (threads i))
      → All P xs
  Interleaving-All P (all_done threads none_left) h = tt
  Interleaving-All P (one_call r x rest threads xs next later) h =
      let own : All P (x ∷ rest) = subst (All P) next (h r) in
      (
        own.0,
        Interleaving-All P later λ i. elim (Bool-cases (r == i)) [
          | inl same ↦ rw same own.1
          | inr other ↦ rw other (h i)
        ],
      )
