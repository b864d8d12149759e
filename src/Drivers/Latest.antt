-- ===== src/Drivers/Latest.antt =====
-- Stores under keys that only one of them uses.
use pmemcpy.Base.{
  ◌≡◌, refl, sym, ap, ◌∙◌, ◌⊎◌, inl, inr, true, none, some, List, [], ◌∷◌, All, bytes_equal,
  bytes_equal_iff, bytes_equal_refl, Bool-cases,
}
use mathlib.Core.List.{Memᴰ}
use mathlib.Core.List.Memᴰ as Memᴰ
use pmemcpy.Pmem.Sequences.{Put, latest}

-- No other store is under the key of this one.
abbrev pub Unique : Put → Put → Type 0
Unique p q = q.id ≡ p.id → q ≡ p

latest-Unique :
    (p : Put) (ps : List Put)
    → All (Unique p) ps
    → (latest ps p.id ≡ none) ⊎ (latest ps p.id ≡ some p)
unfolding latest
latest-Unique p [] u = inl refl
latest-Unique p (q ∷ ps) u = elim (latest-Unique p ps u.1) [
  | inr later ↦ inr (rw later)
  | inl never ↦ elim (Bool-cases (bytes_equal q.id p.id)) [
    | inl same ↦ inr (rw (never, same) (ap some (u.0 ((bytes_equal_iff q.id p.id).0 same))))
    | inr differ ↦ inl (rw (never, differ))
  ]
]

-- A store whose key no other uses is the last under its key.
pub latest_of : (p : Put) (ps : List Put) → All (Unique p) ps → Memᴰ p ps → latest ps p.id ≡ some p
unfolding latest
latest_of p (q ∷ ps) u m = elim (Memᴰ.cases_cons m) [
  | inr later ↦ rw (latest_of p ps u.1 later)
  | inl e ↦ elim (latest-Unique p ps u.1) [
    | inr later ↦ rw later
    | inl never ↦
        let same : bytes_equal q.id p.id ≡ true =
          ap (λ (x : Put). bytes_equal x.id p.id) (sym e) ∙ bytes_equal_refl p.id in
        rw (never, same) (ap some (sym e))
  ]
]
latest_of p [] u m = absurd (Memᴰ.not-nil m)
