-- ===== src/Storage/Hashtable/Keys.antt =====
-- Which entries a key meets. For keys without a NUL byte the test of `_find` is equality.
use pmemcpy.Base.{◌≡◌, refl, false, ◌&&◌, [], ◌∷◌, Bytes, ◌==◌, length, All, bytes_equal, arith}
use pmemcpy.Storage.Hashtable.{PmemPointer, strncmp_equal, is_entry}

-- No NUL byte.
abbrev pub IsText : Bytes → Type 0
IsText = All (λ c. (c == 0) ≡ false)

strncmp_equal-text :
    (a b : Bytes)
    → IsText b
    → (length a == length b && strncmp_equal (length a) a b) ≡ bytes_equal a b
unfolding strncmp_equal bytes_equal
strncmp_equal-text [] [] t = refl
strncmp_equal-text [] (d ∷ b) t = ground arith
strncmp_equal-text (c ∷ a) [] t = ground arith
strncmp_equal-text (c ∷ a) (d ∷ b) t = ground (arith, strncmp_equal-text a b t.1)

-- An entry whose stored length is that of its bytes meets a key without NUL exactly if it was
-- stored under that key.
pub is_entry-text :
    (id : Bytes) (e : PmemPointer)
    → IsText id
    → e.id_len ≡ length e.id
    → is_entry id e ≡ bytes_equal e.id id
unfolding is_entry
is_entry-text id e t h = rw h (strncmp_equal-text e.id id t)
