-- ===== src/Drivers/Keys.antt =====
-- The keys of the writer's calls: no two calls have one.
use pmemcpy.Base.{
  ℕ, zero, suc, ◌<◌, ◌≡◌, refl, sym, ap, ◌∙◌, List, [], ◌∷◌, All, map, Bytes, false, ◌==◌, arith,
}
use pmemcpy.Util.Numbers.{ℤ, to_string_d}
use pmemcpy.Util.Numbers.Printing.{number, number-to_string_u}
use pmemcpy.Drivers.{Platform, Grid}
use pmemcpy.Drivers.Threads.{
  Call, store_nx, store_ny, store_nz, store_array, array_id, call_id, put_of, calls,
}
use pmemcpy.Drivers.Latest.{Unique}

-- The letter of an array stands before the first letter of "nx".
abbrev pub IsTagged : Call → Type 0
IsTagged store_nx = Unit
IsTagged store_ny = Unit
IsTagged store_nz = Unit
IsTagged (store_array tag rank) = tag < b'n'

to_string_d-injective : (r r' : ℕ) → to_string_d (ℤ.pos r) ≡ to_string_d (ℤ.pos r') → r ≡ r'
unfolding to_string_d
to_string_d-injective r r' e = sym (number-to_string_u r) ∙ ap (number 0) e ∙ number-to_string_u r'

head_eq : (a b : ℕ) (s t : Bytes) → ◌≡◌ {A = Bytes} (a ∷ s) (b ∷ t) → a ≡ b
head_eq a b s t h = cc

tail_eq : (a b : ℕ) (s t : Bytes) → ◌≡◌ {A = Bytes} (a ∷ s) (b ∷ t) → s ≡ t
tail_eq a b s t h = cc

array_not_size :
    (tag rank c : ℕ) (t : Bytes) → tag < b'n' → c ≡ b'n' → array_id tag rank ≡ c ∷ t → ⊥
unfolding array_id
array_not_size tag rank c t before is e =
    let same = head_eq tag c (to_string_d (ℤ.pos rank)) t e in omega arith

apart_second :
    (c d a : ℕ) (s t : Bytes) → (c == d) ≡ false → ◌≡◌ {A = Bytes} (a ∷ c ∷ s) (a ∷ d ∷ t) → ⊥
apart_second c d a s t differ e =
    let same = head_eq c d s t (tail_eq a a (c ∷ s) (d ∷ t) e) in ground arith

pub call_id-injective : (a b : Call) → IsTagged a → IsTagged b → call_id a ≡ call_id b → a ≡ b
unfolding call_id array_id
call_id-injective store_nx store_nx ta tb e = refl
call_id-injective store_nx store_ny ta tb e = absurd (apart_second _ _ _ [] [] refl e)
call_id-injective store_nx store_nz ta tb e = absurd (apart_second _ _ _ [] [] refl e)
call_id-injective store_nx (store_array tag r) ta tb e =
    absurd (array_not_size tag r _ _ tb refl (sym e))
call_id-injective store_ny store_nx ta tb e = absurd (apart_second _ _ _ [] [] refl e)
call_id-injective store_ny store_ny ta tb e = refl
call_id-injective store_ny store_nz ta tb e = absurd (apart_second _ _ _ [] [] refl e)
call_id-injective store_ny (store_array tag r) ta tb e =
    absurd (array_not_size tag r _ _ tb refl (sym e))
call_id-injective store_nz store_nx ta tb e = absurd (apart_second _ _ _ [] [] refl e)
call_id-injective store_nz store_ny ta tb e = absurd (apart_second _ _ _ [] [] refl e)
call_id-injective store_nz store_nz ta tb e = refl
call_id-injective store_nz (store_array tag r) ta tb e =
    absurd (array_not_size tag r _ _ tb refl (sym e))
call_id-injective (store_array tag r) store_nx ta tb e = absurd (array_not_size tag r _ _ ta refl e)
call_id-injective (store_array tag r) store_ny ta tb e = absurd (array_not_size tag r _ _ ta refl e)
call_id-injective (store_array tag r) store_nz ta tb e = absurd (array_not_size tag r _ _ ta refl e)
call_id-injective (store_array tag r) (store_array tag' r') ta tb e =
    let one = head_eq tag tag' (to_string_d (ℤ.pos r)) (to_string_d (ℤ.pos r')) e in
    let two =
      to_string_d-injective r r'
        (tail_eq tag tag' (to_string_d (ℤ.pos r)) (to_string_d (ℤ.pos r')) e) in
    rw (one, two)

module _ (K : Platform) (g : Grid) (written : ℕ → Bytes) where
  put_of-id : (c : Call) → (put_of K g written c).id ≡ call_id c
  unfolding put_of
  put_of-id store_nx = refl
  put_of-id store_ny = refl
  put_of-id store_nz = refl
  put_of-id (store_array tag r) = refl

  pub put_of-Unique :
      (c : Call) (cs : List Call)
      → IsTagged c
      → All IsTagged cs
      → All (Unique (put_of K g written c)) (map (put_of K g written) cs)
  put_of-Unique c [] t ts = tt
  put_of-Unique c (d ∷ cs) t ts = (
    λ e.
        ap (put_of K g written)
          (call_id-injective d c ts.0 t (sym (put_of-id d) ∙ e ∙ put_of-id c)),
    put_of-Unique c cs t ts.1,
  )

pub calls-IsTagged : (rank : ℕ) → All IsTagged (calls rank)
calls-IsTagged zero = ground arith
calls-IsTagged (suc r) = ground arith
