-- ===== src/Util/Serializeable/Writing.antt =====
-- include/pmemcpy/util/serializeable.h: the abstract class `Serializeable`, and its two classes.
use pmemcpy.Base.{
  ℕ, ◌≤◌, ◌≡◌, Option, none, some, ◌++◌, Bytes, length, drop, write_at, write_at_start,
}
use pmemcpy.Util.Numbers.{Floats}
use pmemcpy.Util.Serializeable.{SizeType, serialize_size, Arg, serialize}

-- `serialize(buf)` of an object: the memory at `buf` afterwards and the number that is returned;
-- `none` if it writes behind the memory's end.
pub record Serializeable : Type 1 where
  pub Object : Type 0
  pub serialize : Object → Bytes → Option (Bytes × ℕ)

-- `memcpy(buf, text.c_str(), text.size()); return text.size();`
unfoldable pub write_text : Bytes → Bytes → Option (Bytes × ℕ)
write_text text memory = elim (write_at 0 text memory) [
  | none ↦ none
  | some written ↦ some (written, length text)
]

module _ (fl : Floats) where
  abbrev pub size_type : Serializeable
  size_type = record {
    Object = SizeType fl;
    serialize = λ s memory. write_text (serialize_size fl s) memory;
  }

  abbrev pub arg : Serializeable
  arg = record { Object = Arg fl; serialize = λ a memory. write_text (serialize fl a) memory }

-- Where the text fits, it stands at the start of the memory, whose rest is kept, and its length is
-- returned.
pub write_text_fits :
    (text memory : Bytes)
    → length text ≤ length memory
    → write_text text memory ≡ some (text ++ drop (length text) memory, length text)
unfolding write_text
write_text_fits text memory h = rw (write_at_start text memory h, write_text)
