-- ===== src/Serialize/Streams/Text.antt =====
-- A stream over a C string ends at the first NUL, and so do the archives that are read from it.
use pmemcpy.Base.{◌≡◌, refl, ap, ◌∙◌, Bytes, [], ◌∷◌, ◌++◌, ◌==◌, inl, inr, Bool-cases, ==_iff}
use pmemcpy.Base.{ℕ}
use pmemcpy.Util.Error.{Result, ok, raise, ◌>>=◌}
use pmemcpy.Serialize.Streams.{c_text}

-- Bytes with a NUL among them, up to the first one, whatever memory is behind them.
c_text_nul :
    (front rest : Bytes)
    → (text : Bytes) × (cut : Bytes) × (front ++ (0 ∷ rest) ≡ text ++ (0 ∷ cut))
      × ((behind : Bytes) → c_text ((front ++ (0 ∷ rest)) ++ behind) ≡ ok text)
unfolding c_text
c_text_nul [] rest = ([], rest, refl, λ behind. refl)
c_text_nul (c ∷ front) rest = elim (Bool-cases (c == 0)) [
  | inl nul ↦ (
    [],
    front ++ (0 ∷ rest),
    ap (λ (d : ℕ). d ∷ (front ++ (0 ∷ rest))) ((==_iff c 0).0 nul),
    λ behind. rw nul refl,
  )
  | inr other ↦
      let (text, cut, split, read) = c_text_nul front rest in
      (c ∷ text, cut, ap (λ (b : Bytes). c ∷ b) split, λ behind. rw (other, read behind) refl)
]

-- What is made of a stream over the C string of an archive throws, if a truncated archive makes it throw.
pub read_cut :
    (next : Bytes → Result Bytes) (bytes front rest behind : Bytes)
    → bytes ≡ front ++ (0 ∷ rest)
    → ((text cut : Bytes) → bytes ≡ text ++ (0 ∷ cut) → next text ≡ raise)
    → (c_text (bytes ++ behind) >>= next) ≡ raise
read_cut next bytes front rest behind e truncated =
    let (text, cut, split, read) = c_text_nul front rest in
    let found : c_text (bytes ++ behind) ≡ ok text = rw e (read behind) in
    rw (found, truncated text cut (e ∙ split)) refl
