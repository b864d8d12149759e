-- ===== src/Serialize/Boost/Reading.antt =====
-- What the serializer over Boost archives reads of what it wrote.
use pmemcpy.Base.{refl, sym, ◌≡◌, ◌∙◌, Bytes, read_at}
use pmemcpy.Util.Error.{ok, raise, ◌>>=◌, bind_ok}
use pmemcpy.Util.VectorPtr.{temp, vector_elements, assign}
use pmemcpy.Serialize.Element.{Kind, size_of_kind}
use pmemcpy.Serialize.Dimensions.{Dimensions}
use pmemcpy.Serialize.Serializer.{ok-injective, checked}
use pmemcpy.Serialize.Streams.{loaded}
use pmemcpy.Serialize.Streams.Text.{read_cut}
use pmemcpy.Serialize.Boost.{
  BoostArchive, IsBoost, serialize, serialize_array, deserialize, deserialize_array,
}

-- If a truncated archive makes Boost throw and every archive has a NUL byte, then to deserialize a value
-- or an array that was serialized throws, whatever memory is behind the buffer: the stream is over a C
-- string, which ends at the first NUL of the archive.
pub deserialize-boost :
    (A : BoostArchive) (L : IsBoost A) (behind : Bytes) (k : Kind) (src dst : Bytes)
    (dims : Dimensions)
    → ((b : Bytes) → serialize A k src ≡ ok b → deserialize A behind k dst b ≡ raise)
      × ((b : Bytes)
          → serialize_array A k src dims ≡ ok b
          → deserialize_array A behind k dst b dims ≡ raise)
unfolding serialize serialize_array deserialize deserialize_array
deserialize-boost A L behind k src dst dims = (
  λ b made.
      let (x, there, put) =
        bind_ok (checked (read_at (size_of_kind k) src)) (λ x. ok (A.put k x)) b made in
      let (front, rest, nul) = L.put_nul k x in
      read_cut (λ text. loaded (A.get k text)) b front rest behind (sym (ok-injective put) ∙ nul)
        (λ text cut split. rw (L.get_cut k x text 0 cut (ok-injective put ∙ split)) refl),
  λ b made.
      let (v, full, filled) =
        bind_ok (temp dims.count)
          (λ v. vector_elements (size_of_kind k) src v >>= λ xs. ok (A.put_vector k xs)) b made in
      let (xs, there, put) =
        bind_ok (vector_elements (size_of_kind k) src v) (λ xs. ok (A.put_vector k xs)) b filled in
      let (front, rest, nul) = L.put_vector_nul k xs in
      rw full (
        read_cut (λ text. loaded (A.get_vector k text) >>= λ ys. assign (size_of_kind k) ys v dst) b
          front rest behind (sym (ok-injective put) ∙ nul)
          (λ text cut split.
            rw (L.get_vector_cut k xs text 0 cut (ok-injective put ∙ split)) refl)),
)
