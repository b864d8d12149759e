-- ===== src/Storage/Directory/Touching.antt =====
-- What a change of one file does to the values of the keys.
use pmemcpy.Base.{
  ℕ, ◌<◌, ◌≡◌, sym, ap, ◌∙◌, inl, inr, true, false, some, Bytes, ◌==◌, ==_iff, ==_symm, bytes_equal,
  bytes_equal_iff, Bool-cases, Option-cases, length,
}
use mathlib.Core.Option.{some-injective}
use pmemcpy.Storage.Files.{Os}
use pmemcpy.Storage.Directory.{IsName, file_path, Touch, Change, value_at, IsTidy}

module _ (O : Os) where
  pub Touch-Change :
      (prefix id : Bytes) (i : ℕ) (fs fs' fs'' : O.Files)
      → Touch O prefix id i fs fs'
      → Change O i fs' fs''
      → Touch O prefix id i fs fs''
  Touch-Change prefix id i fs fs' fs'' t c = record {
    same_file = t.same_file;
    new_file = t.new_file;
    paths = λ k n differ. c.paths (file_path prefix k) ∙ t.paths k n differ;
    others = λ j differ. c.others j differ ∙ t.others j differ;
  }

  module _ (prefix id : Bytes) (i : ℕ) (fs fs' : O.Files) (tidy : IsTidy O prefix fs)
      (t : Touch O prefix id i fs fs') (name : IsName id) where
    -- The files of other names are not the one that was touched.
    Touch-apart :
        (k : Bytes) (j : ℕ)
        → IsName k
        → bytes_equal id k ≡ false
        → O.file fs (file_path prefix k) ≡ some j
        → (j == i) ≡ false
    Touch-apart k j n differ at = elim (Option-cases (O.file fs (file_path prefix id))) [
      | inl absent ↦ elim (Bool-cases (j == i)) [
        | inr apart ↦ apart
        | inl same ↦
            let (bytes, there, some_bytes) = tidy.whole k j n at in
            absurd (cc (sym there ∙ ap (O.contents fs) ((==_iff j i).0 same) ∙ t.new_file absent))
      ]
      | inr (old, there) ↦ rw (t.same_file old there) (tidy.apart id k old j name n differ there at)
    ]

    pub other_value :
        (k : Bytes)
        → IsName k
        → bytes_equal id k ≡ false
        → value_at O prefix fs' k ≡ value_at O prefix fs k
    unfolding value_at
    other_value k n differ = elim (Option-cases (O.file fs (file_path prefix k))) [
      | inl absent ↦ rw (value_at, t.paths k n differ, absent)
      | inr (j, at) ↦
          rw (value_at, t.paths k n differ, at) (t.others j (Touch-apart k j n differ at))
    ]

    module _ (new : Bytes) (named : O.file fs' (file_path prefix id) ≡ some i)
        (written : O.contents fs' i ≡ some new) (some_new : 0 < length new) where
      pub own_value : value_at O prefix fs' id ≡ some new
      unfolding value_at
      own_value = rw (value_at, named, written)

      abbrev key : Bytes → Bytes
      key k = file_path prefix k

      -- The file of the touched name.
      named_file :
          (k : Bytes) (j : ℕ)
          → bytes_equal id k ≡ true
          → O.file fs' (file_path prefix k) ≡ some j
          → i ≡ j
      named_file k j same at = some-injective i j (
          sym named
          ∙ ap (λ (x : Bytes). O.file fs' (file_path prefix x)) ((bytes_equal_iff id k).0 same)
          ∙ at)

      touched-whole :
          (k : Bytes) (j : ℕ)
          → IsName k
          → O.file fs' (file_path prefix k) ≡ some j
          → (bytes : Bytes) × (O.contents fs' j ≡ some bytes) × (0 < length bytes)
      touched-whole k j n at = elim (Bool-cases (bytes_equal id k)) [
        | inl same ↦
            let here = named_file k j same at in
            (new, ap (O.contents fs') (sym here) ∙ written, some_new)
        | inr differ ↦
            let before = sym (t.paths k n differ) ∙ at in
            let (bytes, there, some_bytes) = tidy.whole k j n before in
            (bytes, t.others j (Touch-apart k j n differ before) ∙ there, some_bytes)
      ]

      touched-apart :
          (a b : Bytes) (j l : ℕ)
          → IsName a
          → IsName b
          → bytes_equal a b ≡ false
          → O.file fs' (file_path prefix a) ≡ some j
          → O.file fs' (file_path prefix b) ≡ some l
          → (l == j) ≡ false
      touched-apart a b j l na nb differ at_a at_b =
          let before : (k : Bytes) (m : ℕ)
              → IsName k
              → bytes_equal id k ≡ false
              → O.file fs' (file_path prefix k) ≡ some m
              → O.file fs (file_path prefix k) ≡ some m =
            λ k m n other at. sym (t.paths k n other) ∙ at in
          elim (Bool-cases (bytes_equal id a)) [
            | inl own_a ↦ elim (Bool-cases (bytes_equal id b)) [
              | inl own_b ↦ absurd (cc ((bytes_equal_iff id a).0 own_a, own_b, differ))
              | inr other_b ↦
                  rw (← named_file a j own_a at_a)
                    (Touch-apart b l nb other_b (before b l nb other_b at_b))
            ]
            | inr other_a ↦ elim (Bool-cases (bytes_equal id b)) [
              | inl own_b ↦
                  rw (← named_file b l own_b at_b)
                    (==_symm i j ∙ Touch-apart a j na other_a (before a j na other_a at_a))
              | inr other_b ↦
                  tidy.apart a b j l na nb differ (before a j na other_a at_a)
                    (before b l nb other_b at_b)
            ]
          ]

      pub touched-IsTidy : IsTidy O prefix fs'
      touched-IsTidy = record { whole = touched-whole; apart = touched-apart }
