-- ===== src/Storage/Interface.antt =====
-- include/pmemcpy/storage/storage.h: the abstract class `Storage`, and what its users expect of it.
use pmemcpy.Base.{ℕ, ◌≤◌, ◌≡◌, false, Option, some, ◌++◌, Bytes, bytes_equal, length}
use pmemcpy.Util.Error.{ok}
use pmemcpy.Storage.Action.{Action}

-- A back end over the state of its object and of what it stores in. `Buffer` is the `generic_buffer`
-- of `alloc` and `find`; `copy_to` writes at its `c_str()`, and `contents` reads all of its bytes.
pub record Storage : Type 1 where
  pub State : Type 0
  pub Buffer : Type 0
  pub mmap : Bytes → ℕ → Action State (Unit {0})
  pub munmap : Action State (Unit {0})
  pub release : Bytes → Action State (Unit {0})
  pub alloc : Bytes → ℕ → Action State Buffer
  pub store : Bytes → Bytes → Action State (Unit {0})
  pub find : Bytes → Action State Buffer
  pub load : Bytes → Action State Bytes
  pub free : Bytes → Action State (Unit {0})
  pub size : Buffer → ℕ
  pub copy_to : Buffer → Bytes → Action State (Unit {0})
  pub contents : Buffer → Action State Bytes

-- How a client reads a state: when it is in good order, which keys it may use, and the value that
-- the state holds under each.
pub record Meaning (S : Storage) : Type 1 where
  pub IsValid : S.State → Type 0
  pub IsKey : Bytes → Type 0
  pub value : S.State → Bytes → Option Bytes
  -- There is room to `store` a value, or to `alloc` a number of bytes, under a key.
  pub HasRoom : S.State → Bytes → Bytes → Type 0
  pub HasRoomFor : S.State → Bytes → ℕ → Type 0

-- What a client may rely on.
pub record IsStorage (S : Storage) (M : Meaning S) : Type 0 where
  pub store_value :
      (s : S.State) (id src : Bytes)
      → M.IsValid s
      → M.IsKey id
      → M.HasRoom s id src
      → (s' : S.State) × (S.store id src s ≡ (ok tt, s'))
        × M.IsValid s'
        × (M.value s' id ≡ some src)
        × ((k : Bytes) → M.IsKey k → bytes_equal id k ≡ false → M.value s' k ≡ M.value s k)
  pub alloc_value :
      (s : S.State) (id : Bytes) (n : ℕ) (src : Bytes)
      → M.IsValid s
      → M.IsKey id
      → length src ≤ n
      → M.HasRoomFor s id n
      → (b : S.Buffer) × (s' : S.State) × (s'' : S.State) × (junk : Bytes) × (S.alloc id n s
          ≡ (ok b, s'))
        × (S.size b ≡ n)
        × (S.copy_to b src s' ≡ (ok tt, s''))
        × (length (src ++ junk) ≡ n)
        × M.IsValid s''
        × (M.value s'' id ≡ some (src ++ junk))
        × ((k : Bytes) → M.IsKey k → bytes_equal id k ≡ false → M.value s'' k ≡ M.value s k)
  pub find_value :
      (s : S.State) (id v : Bytes)
      → M.IsValid s
      → M.IsKey id
      → M.value s id ≡ some v
      → (b : S.Buffer) × (S.find id s ≡ (ok b, s)) × (S.contents b s ≡ (ok v, s))
  pub load_value :
      (s : S.State) (id v : Bytes)
      → M.IsValid s
      → M.IsKey id
      → M.value s id ≡ some v
      → S.load id s ≡ (ok v, s)
