-- ===== src/Serial/Buffers.antt =====
-- Reading the JSON of a buffer gives it again.
use ffi_rpc.Base.{
  ℕ, ◌%◌, ◌^◌, ◌<◌, ◌≡◌, refl, sym, ap, ◌∙◌, some, List, [], ◌∷◌, string_eq, All, take, length, map,
  length-map, take-length, arith,
}
use ffi_rpc.Ext.Libs.{Libs}
use ffi_rpc.Ext.Json.{Jansson}
use ffi_rpc.World.{World, SizedBuf, a_sizedbuf}
use ffi_rpc.World.Cmd.{ok}
use ffi_rpc.Objects.{put_object}
use ffi_rpc.Serial.{
  int_of_char, append_all, values_of, size_of, serialize_sizedbuf, deserialize_sizedbuf,
}
use ffi_rpc.Serial.Arrays.{
  size-append_all, values_of-append_all, get-written, type-written, is_text-string,
}

abbrev read_buffer : List ℕ → SizedBuf
read_buffer ns = record { buf = map (λ n. n % 256) ns; length = length ns }

chars_back :
    (cs : List ℕ) → All (λ (c : ℕ). c < 256) cs → map (λ n. n % 256) (map int_of_char cs) ≡ cs
unfolding int_of_char
chars_back [] h = refl
chars_back (c ∷ cs) h = rw (chars_back cs h.1) (ap (λ (d : ℕ). d ∷ cs) (ground arith))

ints_small :
    (cs : List ℕ) → All (λ (c : ℕ). c < 256) cs → All (λ (n : ℕ). n < 2 ^ 64) (map int_of_char cs)
unfolding int_of_char
ints_small [] h = tt
ints_small (c ∷ cs) h = (ground arith, ints_small cs h.1)

module _ (J : Jansson) where
  module _ {L : Libs} where
    -- Reading an object with that type and array.
    deserialize_sizedbuf-ok :
        (fresh : ℕ) (json array : J.Json) (ns : List ℕ) (w : World L)
        → J.object_get json "type" ≡ some (J.string "RPC_sizedbuf")
        → J.object_get json "serialised" ≡ some array
        → values_of J (some array) ≡ ns
        → J.array_size array ≡ length ns
        → deserialize_sizedbuf J fresh json w
          ≡ ok fresh (put_object fresh (a_sizedbuf (read_buffer ns)) w)
    unfolding deserialize_sizedbuf size_of
    deserialize_sizedbuf-ok fresh json array ns w type elements values size =
        rw (type, is_text-string J "RPC_sizedbuf", elements, values, size) refl

    -- For a buffer whose noted length is that of its bytes, rpc_sizedbuf_deserialize of what
    -- rpc_sizedbuf_serialize wrote puts the same buffer at the new address, and changes nothing
    -- else.
    pub deserialize-serialize :
        (b : SizedBuf) (fresh : ℕ) (w : World L)
        → b.length ≡ length b.buf
        → All (λ (c : ℕ). c < 256) b.buf
        → deserialize_sizedbuf J fresh (serialize_sizedbuf J b) w
          ≡ ok fresh (put_object fresh (a_sizedbuf b) w)
    unfolding serialize_sizedbuf
    deserialize-serialize b fresh w whole bytes =
        let ns = map int_of_char (take b.length b.buf) in
        let array = append_all J J.array ns in
        let all : take b.length b.buf ≡ b.buf =
          ap (λ (n : ℕ). take n b.buf) whole ∙ take-length b.buf in
        let small : All (λ (n : ℕ). n < 2 ^ 64) ns =
          ints_small (take b.length b.buf) (rw all bytes) in
        let size : J.array_size array ≡ length ns =
          omega (arith, size-append_all J J.array ns J.is_array-array, J.size-array) in
        let same : read_buffer ns ≡ b = λ i. record {
          buf = (chars_back (take b.length b.buf) (rw all bytes) ∙ all) i;
          length = (length-map int_of_char (take b.length b.buf) ∙ (ap length all ∙ sym whole)) i;
        } in
        deserialize_sizedbuf-ok fresh (serialize_sizedbuf J b) array ns w
          (type-written J "RPC_sizedbuf" "serialised" array refl)
          (get-written J "RPC_sizedbuf" "serialised" array refl) (values_of-append_all J ns small)
          size
        ∙ ap (λ (x : SizedBuf). ok fresh (put_object fresh (a_sizedbuf x) w)) same
