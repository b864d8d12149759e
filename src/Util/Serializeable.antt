-- ===== src/Util/Serializeable.antt =====
-- include/pmemcpy/util/serializeable.h: `SizeType` and `Arg`, the values that a message may show.
pub mod Writing
use pmemcpy.Base.{ℕ, ◌^◌, [], ◌++◌, Bytes, codes, ◌==◌, if◌then◌else◌}
use pmemcpy.Util.Numbers.{ℤ, Floats, to_string_u, to_string_d}

abbrev pub bytes_unit : ℕ
bytes_unit = 1

abbrev pub kb : ℕ
kb = 2 ^ 10

abbrev pub mb : ℕ
mb = 2 ^ 20

abbrev pub gb : ℕ
gb = 2 ^ 30

abbrev pub tb : ℕ
tb = 2 ^ 40

unfoldable pub unit_to_str : ℕ → Bytes
unit_to_str unit =
    if unit == bytes_unit
    then codes "BYTES"
    else if unit == kb
    then codes "KB"
    else if unit == mb
    then codes "MB"
    else if unit == gb
    then codes "GB"
    else if unit == tb
    then codes "TB"
    else []

module _ (fl : Floats) where
  pub record SizeType : Type 0 where
    pub num : fl.Double
    pub unit : ℕ

  -- `SizeType(bytes, unit)`
  abbrev pub size_of : ℕ → ℕ → SizeType
  size_of bytes unit = record { num = fl.ratio bytes unit; unit = unit }

  unfoldable pub serialize_size : SizeType → Bytes
  serialize_size s = fl.to_string_f64 s.num ++ unit_to_str s.unit

  -- The union `num_` with its tag `type_`. The only class of objects that messages show is
  -- `SizeType`; a null `char *` is `str []`.
  pub data Arg : Type 0 where
    d32 d64 d128 : ℤ → Arg
    u32 u64 u128 : ℕ → Arg
    f32 : fl.Float → Arg
    f64 : fl.Double → Arg
    f96 : fl.LongDouble → Arg
    str : Bytes → Arg
    obj obj_shared : SizeType → Arg

  -- The bytes that `Arg::serialize` writes; it returns their number.
  unfoldable pub serialize : Arg → Bytes
  serialize (d32 n) = to_string_d n
  serialize (d64 n) = to_string_d n
  serialize (d128 n) = to_string_d n
  serialize (u32 n) = to_string_u n
  serialize (u64 n) = to_string_u n
  serialize (u128 n) = to_string_u n
  serialize (f32 x) = fl.to_string_f32 x
  serialize (f64 x) = fl.to_string_f64 x
  serialize (f96 x) = fl.to_string_f96 x
  serialize (str s) = s
  serialize (obj s) = serialize_size s
  serialize (obj_shared s) = serialize_size s
