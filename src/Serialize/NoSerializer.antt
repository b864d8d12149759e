-- ===== src/Serialize/NoSerializer.antt =====
-- include/pmemcpy/serialize/no_serializer.h: the bytes of the memory as they are.
use pmemcpy.Base.{
  ℕ, ◌≡◌, sym, ap, ◌∙◌, inl, inr, some, [], ◌∷◌, ◌++◌, append-nil, Bytes, length, drop, drop_all,
  length-append, read_at, read_at_whole, write_at, write_at_start, leb, le→leb, if◌then◌else◌,
  arith,
}
use pmemcpy.Util.Error.{Result, ok, fault}
use pmemcpy.Serialize.Element.{Kind, size_of_kind}
use pmemcpy.Serialize.Dimensions.{Dimensions}
use pmemcpy.Serialize.Serializer.{Serializer, IsRoundTrip, checked, array_size, Room, ok-injective}

abbrev pub est_encoded_size : ℕ → ℕ
est_encoded_size size = size

-- `memcpy(buf->c_str(), src, size)`; a buffer smaller than that is overrun.
unfoldable pub copy_out : ℕ → ℕ → Bytes → Result Bytes
copy_out room size src = if leb size room then checked (read_at size src) else fault

unfoldable pub serialize_to : Kind → ℕ → Bytes → Result Bytes
unfolding copy_out
serialize_to k room src = copy_out room (size_of_kind k) src

unfoldable pub serialize_array_to : Kind → ℕ → Bytes → Dimensions → Result Bytes
unfolding copy_out
serialize_array_to k room src dims = copy_out room (array_size k dims.count) src

-- Into a fresh `malloc_buffer` of the size.
unfoldable pub serialize : Kind → Bytes → Result Bytes
serialize k src = checked (read_at (size_of_kind k) src)

unfoldable pub serialize_array : Kind → Bytes → Dimensions → Result Bytes
serialize_array k src dims = checked (read_at (array_size k dims.count) src)

-- `memcpy(&dst, src->c_str(), src->size())`: the size is the buffer's, whatever the destination's.
unfoldable pub deserialize : Kind → Bytes → Bytes → Result Bytes
deserialize k dst src = checked (write_at 0 src dst)

unfoldable pub deserialize_array : Kind → Bytes → Bytes → Dimensions → Result Bytes
deserialize_array k dst src dims = checked (write_at 0 src dst)

abbrev pub no_serializer : Serializer
no_serializer = record {
  est_encoded_size = est_encoded_size;
  serialize_to = serialize_to;
  serialize_array_to = serialize_array_to;
  serialize = serialize;
  serialize_array = serialize_array;
  deserialize = deserialize;
  deserialize_array = deserialize_array;
}

-- The whole source in a destination of its size.
write_at_whole : (src dst : Bytes) → length dst ≡ length src → write_at 0 src dst ≡ some src
write_at_whole src dst h =
    let rest : drop (length src) dst ≡ [] = drop_all (length src) dst (omega arith) in
    rw (write_at_start src dst (omega arith), rest, append-nil src)

copy_out_whole : (n : ℕ) (src : Bytes) → length src ≡ n → copy_out n n src ≡ ok src
unfolding copy_out
copy_out_whole n src h = rw (le→leb n n (omega arith), read_at_whole n src h)

no_junk :
    (n : ℕ) (bytes junk : Bytes) → length bytes ≡ n → Room n bytes junk → bytes ++ junk ≡ bytes
no_junk n bytes junk h (inl e) = rw (e, append-nil bytes)
no_junk n bytes [] h (inr e) = append-nil bytes
no_junk n bytes (x ∷ junk) h (inr e) = absurd (omega (arith, length-append {0} bytes (x ∷ junk)))

-- A source that was copied out whole comes back into a destination of its size.
round_trip :
    (n : ℕ) (src dst bytes junk : Bytes)
    → length src ≡ n
    → length dst ≡ n
    → checked (read_at n src) ≡ ok bytes
    → Room n bytes junk
    → checked (write_at 0 (bytes ++ junk) dst) ≡ ok src
round_trip n src dst bytes junk s d e r =
    let same : src ≡ bytes = ok-injective (ap checked (sym (read_at_whole n src s)) ∙ e) in
    let sized : length bytes ≡ n = ap length (sym same) ∙ s in
    rw (no_junk n bytes junk sized r, write_at_whole bytes dst (d ∙ sym sized), same)

pub no_serializer-IsRoundTrip : IsRoundTrip no_serializer
unfolding serialize_to serialize_array_to serialize serialize_array deserialize deserialize_array
no_serializer-IsRoundTrip = record {
  single_to = λ k src bytes s e.
      let same : src ≡ bytes = ok-injective (sym (copy_out_whole (size_of_kind k) src s) ∙ e) in
      (rw (read_at_whole (size_of_kind k) src s, same), omega (arith, s, ap length same));
  single = λ k src dst bytes junk s d e r. round_trip (size_of_kind k) src dst bytes junk s d e r;
  array_to = λ k src dims bytes s t e.
      let n = array_size k dims.count in
      let same : src ≡ bytes = ok-injective (sym (copy_out_whole n src s) ∙ e) in
      (rw (read_at_whole n src s, same), omega (arith, s, ap length same));
  array = λ k src dst dims bytes junk s t d e r.
      round_trip (array_size k dims.count) src dst bytes junk s (d ∙ s) e r;
}
