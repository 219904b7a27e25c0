-- ===== src/Ext/Json.antt =====
-- The part of jansson that src/rpc_sizedbuf.c and src/rpc_function.c use, and what its documentation
-- says of it. A `json_int_t` is a number of 64 bits, negative ones in two's complement.
use ffi_rpc.Base.{
  ℕ, ◌+◌, ◌<◌, ◌^◌, ◌≡◌, Bool, true, Option, none, some, String, string_eq, nat_eq, ◌==◌,
  if◌then◌else◌,
}

pub record Jansson : Type 1 where
  pub Json : Type 0
  pub object : Json
  pub object_set_new : Json → String → Json → Json
  pub object_get : Json → String → Option Json
  pub string : String → Json
  pub string_value : Json → Option String
  pub integer : ℕ → Json
  pub integer_value : Json → ℕ
  pub array : Json
  pub array_append_new : Json → Json → Json
  pub array_size : Json → ℕ
  pub array_get : Json → ℕ → Option Json
  pub is_object : Json → Bool
  pub is_array : Json → Bool
  pub is_object-object : is_object object ≡ true
  pub is_object-set :
      (j : Json) (k : String) (v : Json) → is_object (object_set_new j k v) ≡ is_object j
  pub get-object : (k : String) → object_get object k ≡ none
  pub get-set :
      (j : Json) (k i : String) (v : Json)
      → is_object j ≡ true
      → object_get (object_set_new j k v) i ≡ (if k == i then some v else object_get j i)
  pub string_value-string : (s : String) → string_value (string s) ≡ some s
  pub integer_value-integer : (n : ℕ) → n < 2 ^ 64 → integer_value (integer n) ≡ n
  pub is_array-array : is_array array ≡ true
  pub is_array-append : (j v : Json) → is_array (array_append_new j v) ≡ is_array j
  pub size-array : array_size array ≡ 0
  pub size-append :
      (j v : Json) → is_array j ≡ true → array_size (array_append_new j v) ≡ array_size j + 1
  pub get-append :
      (j v : Json) (i : ℕ)
      → is_array j ≡ true
      → array_get (array_append_new j v) i ≡ (if array_size j == i then some v else array_get j i)
