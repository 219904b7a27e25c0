-- ===== src/Ext/JsonValues.antt =====
-- The part of jansson that src/rpc_struct.c uses besides that of Json: the type of a value, the members
-- of an object, and real numbers, as the 64 bits of a `double`. Also C's conversion of a `float`.
use ffi_rpc.Base.{ℕ, ◌≡◌, true, Option, none, List, [], ◌∷◌, ◌++◌, String}
use ffi_rpc.Ext.Json.{Jansson}

-- `json_typeof`
pub data JsonType : Type 0 where
  json_object json_array json_string json_integer json_real json_other : JsonType

-- `entries` is what `json_object_foreach` visits, in order: that of insertion. `json_real` gives NULL
-- for a number that is not finite.
pub record JsonValues (J : Jansson) : Type 0 where
  pub type_of : J.Json → JsonType
  pub entries : J.Json → List (String × J.Json)
  pub real : ℕ → Option J.Json
  pub real_value : J.Json → ℕ
  pub double_of_float : ℕ → ℕ
  pub type_of-string : (s : String) → type_of (J.string s) ≡ json_string
  pub type_of-integer : (n : ℕ) → type_of (J.integer n) ≡ json_integer
  pub entries-object : entries J.object ≡ []
  pub entries-set :
      (j : J.Json) (k : String) (v : J.Json)
      → J.is_object j ≡ true
      → J.object_get j k ≡ none
      → entries (J.object_set_new j k v) ≡ entries j ++ (k, v) ∷ []
