-- ===== src/Serialize/CapnProto/RoundTrip.antt =====
-- The Cap'n Proto serializers read back what they wrote.
use pmemcpy.Base.{
  ℕ, ◌*◌, ◌≤◌, ◌≡◌, refl, sym, ap, ◌∙◌, Bool, true, Option, some, List, [], ◌++◌, append-nil, Bytes,
  length, take, ◌-◌, zero, suc, ◌∷◌, [], append_assoc, drop, take_all, drop_all, flatten,
  read_at_whole, arith,
}
use mathlib.Core.Logic.{if_pos}
use pmemcpy.Util.Error.{ok, ◌>>=◌}
use pmemcpy.Serialize.Element.{
  Kind, size_of_kind, elements, flatten-elements, length-elements, copy_elements-flatten,
}
use pmemcpy.Serialize.Dimensions.{Dimensions}
use pmemcpy.Serialize.Serializer.{IsRoundTrip}
use pmemcpy.Serialize.CapnProto.{
  Kind-discrete, Message, value, arr, Capnp, IsCodec, get_value, get_arr, read_message, write_into,
  write_out, value_message, array_message, serialize_to, serialize_array_to, serialize,
  serialize_array, deserialize, deserialize_array, words_at, capnproto, capnproto_nocompress,
}

module _ (builds : Message → Bool) (write : Message → Bytes) (read : Bytes → Option Message)
    (lawful : (m : Message) (rest : Bytes)
      → builds m ≡ true
      → read (write m ++ rest) ≡ some m) where
  value_message_whole :
      (k : Kind) (src : Bytes)
      → length src ≡ size_of_kind k
      → value_message builds write read k src ≡ ok (value k src)
  unfolding value_message
  value_message_whole k src s = rw (read_at_whole (size_of_kind k) src s)

  array_message_whole :
      (k : Kind) (src : Bytes) (count : ℕ)
      → length src ≡ size_of_kind k * count
      → array_message builds write read k src count
        ≡ ok (arr k (elements (size_of_kind k) count src))
  unfolding array_message
  array_message_whole k src count s = rw (read_at_whole (count * size_of_kind k) src (omega arith))

  -- A message that was written out can be built.
  write_out-builds :
      (m : Message) (bytes : Bytes)
      → write_out builds write read m ≡ ok bytes
      → (builds m ≡ true) × (write m ≡ bytes)
  unfolding write_out
  write_out-builds m bytes h = ground arith

  write_into-out :
      (room : ℕ) (m : Message) (bytes : Bytes)
      → write_into builds write read room m ≡ ok bytes
      → (write_out builds write read m ≡ ok bytes) × (length bytes ≤ room)
  unfolding write_into write_out
  write_into-out room m bytes h = ground arith

  get_value_same : (k : Kind) (x : Bytes) → get_value k (value k x) ≡ ok x
  unfolding get_value
  get_value_same k x = rw (if_pos (Kind-discrete k k) refl)

  get_arr_same : (k : Kind) (xs : List Bytes) → get_arr k (arr k xs) ≡ ok xs
  unfolding get_arr
  get_arr_same k xs = rw (if_pos (Kind-discrete k k) refl)

  deserialize_written :
      (k : Kind) (src dst bytes junk : Bytes)
      → length src ≡ size_of_kind k
      → serialize builds write read k src ≡ ok bytes
      → deserialize builds write read k dst (bytes ++ junk) ≡ ok src
  unfolding serialize deserialize
  deserialize_written k src dst bytes junk s e =
      let (built, same) =
        write_out-builds (value k src) bytes
          (ap (λ r. r >>= write_out builds write read) (sym (value_message_whole k src s)) ∙ e) in
      rw (← same, lawful (value k src) junk built, read_message) (get_value_same k src)

  deserialize_array_written :
      (k : Kind) (src dst : Bytes) (dims : Dimensions) (bytes junk : Bytes)
      → length src ≡ size_of_kind k * dims.count
      → length dst ≡ length src
      → serialize_array builds write read k src dims ≡ ok bytes
      → deserialize_array builds write read k dst (bytes ++ junk) dims ≡ ok src
  unfolding serialize_array deserialize_array
  deserialize_array_written k src dst dims bytes junk s d e =
      let size = size_of_kind k in
      let temp = elements size dims.count src in
      let (built, same) = write_out-builds (arr k temp) bytes (
        ap (λ r. r >>= write_out builds write read) (sym (array_message_whole k src dims.count s))
        ∙ e) in
      let whole : flatten temp ≡ src =
        flatten-elements size dims.count src (omega arith) ∙ take_all _ src (omega arith) in
      let none_left : drop (length src) dst ≡ [] = drop_all (length src) dst (omega arith) in
      let copied =
        copy_elements-flatten size temp dst (length-elements size dims.count src (omega arith))
          (omega (arith, ap length whole)) in
      rw (
        ← same,
        lawful (arr k temp) junk built,
        read_message,
        get_arr_same k temp,
        copied,
        whole,
        none_left,
        append-nil src,
      )

  serialize_to-serialize :
      (k : Kind) (room : ℕ) (src bytes : Bytes)
      → length src ≡ size_of_kind k
      → serialize_to builds write read k room src ≡ ok bytes
      → (serialize builds write read k src ≡ ok bytes) × (length bytes ≤ room)
  unfolding serialize serialize_to
  serialize_to-serialize k room src bytes s e =
      let made = value_message_whole k src s in
      let (out, fits) =
        write_into-out room (value k src) bytes
          (ap (λ r. r >>= write_into builds write read room) (sym made) ∙ e) in
      (rw made out, fits)

  serialize_array_to-serialize_array :
      (k : Kind) (room : ℕ) (src : Bytes) (dims : Dimensions) (bytes : Bytes)
      → length src ≡ size_of_kind k * dims.count
      → serialize_array_to builds write read k room src dims ≡ ok bytes
      → (serialize_array builds write read k src dims ≡ ok bytes) × (length bytes ≤ room)
  unfolding serialize_array serialize_array_to
  serialize_array_to-serialize_array k room src dims bytes s e =
      let made = array_message_whole k src dims.count s in
      let (out, fits) =
        write_into-out room (arr k (elements (size_of_kind k) dims.count src)) bytes
          (ap (λ r. r >>= write_into builds write read room) (sym made) ∙ e) in
      (rw made out, fits)

pub capnproto-IsRoundTrip : (C : Capnp) → IsCodec C → IsRoundTrip (capnproto C)
capnproto-IsRoundTrip C L =
    let b = C.builds in
    let w = C.write_packed_message in
    let r = C.packed_message_reader in
    record {
      single_to = λ k src bytes s e. serialize_to-serialize b w r L.packed k _ src bytes s e;
      single = λ k src dst bytes junk s d e room.
          deserialize_written b w r L.packed k src dst bytes junk s e;
      array_to = λ k src dims bytes s t e.
          serialize_array_to-serialize_array b w r L.packed k _ src dims bytes t e;
      array = λ k src dst dims bytes junk s t d e room.
          deserialize_array_written b w r L.packed k src dst dims bytes junk t d e;
    }

take_more :
    (n : ℕ) (xs ys : Bytes) → length xs ≤ n → take n (xs ++ ys) ≡ xs ++ take (n - length xs) ys
take_more n [] ys h = ap (λ (k : ℕ). take k ys) (omega arith)
take_more zero (x ∷ xs) ys h = absurd (omega arith)
take_more (suc n) (x ∷ xs) ys h =
    ap (λ t. x ∷ t)
      (take_more n xs ys (omega arith) ∙ ap (λ (k : ℕ). xs ++ take k ys) (omega arith))

-- The reader stops at the end of the message, with what stands behind it in and behind the buffer.
flat_words :
    (C : Capnp)
    → IsCodec C
    → (m : Message) (rest : Bytes) → C.builds m ≡ true
    → C.flat_array_message_reader (words_at C (C.write_message m ++ rest)) ≡ some m
flat_words C L m rest b =
    let src = C.write_message m ++ rest in
    let seen = take (8 * length src - length src) (C.behind src) in
    ap C.flat_array_message_reader (
      take_more (8 * length src) src (C.behind src) (omega arith)
      ∙ append_assoc (C.write_message m) rest seen)
    ∙ L.flat m (rest ++ seen) b

pub capnproto_nocompress-IsRoundTrip :
    (C : Capnp) → IsCodec C → IsRoundTrip (capnproto_nocompress C)
capnproto_nocompress-IsRoundTrip C L =
    let b = C.builds in
    let w = C.write_message in
    let r : Bytes → Option Message = λ src. C.flat_array_message_reader (words_at C src) in
    let flat = flat_words C L in
    record {
      single_to = λ k src bytes s e. serialize_to-serialize b w r flat k _ src bytes s e;
      single = λ k src dst bytes junk s d e room.
          deserialize_written b w r flat k src dst bytes junk s e;
      array_to = λ k src dims bytes s t e.
          serialize_array_to-serialize_array b w r flat k _ src dims bytes t e;
      array = λ k src dst dims bytes junk s t d e room.
          deserialize_array_written b w r flat k src dst dims bytes junk t d e;
    }
