-- ===== src/Serial.antt =====
-- Buffers and functions as JSON: the serialisers of src/rpc_sizedbuf.c and src/rpc_function.c, over
-- jansson as a parameter. An array is in its object while it is filled; here it is put there when full.
pub mod Arrays
pub mod Buffers
pub mod Written
pub mod Functions
use ffi_rpc.Base.{
  ℕ, zero, suc, ◌+◌, ◌-◌, ◌%◌, ◌^◌, Bool, false, Option, none, some, List, [], ◌∷◌, String,
  string_eq, nat_eq, ◌==◌, ltb, if◌then◌else◌, take, length, map,
}
use ffi_rpc.Types.{RpcType, value_of}
use ffi_rpc.Ext.Libs.{Libs}
use ffi_rpc.Ext.Json.{Jansson}
use ffi_rpc.World.{SizedBuf, RpcFunction, a_sizedbuf}
use ffi_rpc.World.Cmd.{ok, fault, pure, ◌>>=◌, ◌>>◌}
use ffi_rpc.Struct.{Cmd}
use ffi_rpc.Objects.{put_object, create_function, function_free, set_fnptr}

-- A `char` as a `json_int_t`: the sign is kept.
unfoldable pub int_of_char : ℕ → ℕ
int_of_char c = if ltb c 128 then c else c + (2 ^ 64 - 256)

-- The function that `rpc_function_deserialize` reads. Its types are the numbers that were sent, be
-- they types or not.
pub record ReadFunction : Type 0 where
  pub prototype : Option (List ℕ)
  pub prototype_len : ℕ
  pub return_type : ℕ
  pub fnptr : ℕ

module _ (J : Jansson) where
  -- The loops that fill an array.
  unfoldable pub append_all : J.Json → List ℕ → J.Json
  append_all array [] = array
  append_all array (n ∷ ns) = append_all (J.array_append_new array (J.integer n)) ns

  -- `json_array_foreach` from index `i` on, with `rest` more indices below the size.
  unfoldable pub values_from : J.Json → (i rest : ℕ) → List ℕ
  values_from array i zero = []
  values_from array i (suc rest) = elim (J.array_get array i) [
    | none ↦ []
    | some n ↦ J.integer_value n ∷ values_from array (i + 1) rest
  ]

  -- `json_array_size`, of NULL too.
  unfoldable pub size_of : Option J.Json → ℕ
  size_of none = 0
  size_of (some array) = J.array_size array

  unfoldable pub values_of : Option J.Json → List ℕ
  unfolding values_from
  values_of none = []
  values_of (some array) = values_from array 0 (J.array_size array)

  -- Whether `type` is there and is that text.
  unfoldable pub is_text : String → Option J.Json → Bool
  is_text name none = false
  is_text name (some type) = elim (J.string_value type) [ none ↦ false | some text ↦ text == name ]

  -- `rpc_sizedbuf_serialize`
  unfoldable pub serialize_sizedbuf : SizedBuf → J.Json
  unfolding append_all int_of_char
  serialize_sizedbuf b =
      J.object_set_new (J.object_set_new J.object "type" (J.string "RPC_sizedbuf")) "serialised"
        (append_all J.array (map int_of_char (take b.length b.buf)))

  -- The object with the type and the return type, and a prototype if there is one.
  unfoldable pub with_prototype : J.Json → Option (List RpcType) → ℕ → J.Json
  unfolding append_all
  with_prototype root none len = root
  with_prototype root (some ts) zero = root
  with_prototype root (some ts) (suc len) =
      J.object_set_new root "prototype" (append_all J.array (map value_of (take (suc len) ts)))

  -- `rpc_function_serialize`
  unfoldable pub serialize_function : RpcFunction → J.Json
  unfolding with_prototype
  serialize_function f =
      with_prototype
        (J.object_set_new (J.object_set_new J.object "type" (J.string "RPC_function")) "return_type"
          (J.integer (value_of f.return_type)))
        f.prototype f.prototype_len

  -- An `int` of the number of a JSON value, 0 for NULL.
  unfoldable pub int_value : Option J.Json → ℕ
  int_value none = 0
  int_value (some n) = J.integer_value n % 2 ^ 32

  -- The fields that `rpc_function_deserialize` sets, for the prototype's array and the return type.
  unfoldable pub function_of : Option J.Json → ℕ → ReadFunction
  unfolding values_of
  function_of none return_type = record {
    prototype = none;
    prototype_len = 0;
    return_type = return_type;
    fnptr = 0;
  }
  function_of (some array) return_type = record {
    prototype = some (map (λ n. n % 2 ^ 32) (values_of (some array)));
    prototype_len = J.array_size array;
    return_type = return_type;
    fnptr = 0;
  }

  unfoldable pub read_function : J.Json → ReadFunction
  unfolding int_value function_of
  read_function json =
      function_of (J.object_get json "prototype") (int_value (J.object_get json "return_type"))

  module _ {L : Libs} where
    -- `rpc_sizedbuf_deserialize`. Where the type differs, it frees the buffer that it has not set.
    unfoldable pub deserialize_sizedbuf : (fresh : ℕ) → J.Json → Cmd L ℕ
    unfolding is_text size_of values_of
    deserialize_sizedbuf fresh json w =
        if is_text "RPC_sizedbuf" (J.object_get json "type")
        then ok fresh (
            put_object fresh
              (a_sizedbuf (record {
                buf = map (λ n. n % 256) (values_of (J.object_get json "serialised"));
                length = size_of (J.object_get json "serialised");
              }))
              w)
        else fault

    -- `rpc_function_deserialize`: `none` is NULL. The function is the result, and the memory keeps
    -- what `rpc_function_create` put there.
    unfoldable pub deserialize_function : (fresh : ℕ) → J.Json → Cmd L (Option ReadFunction)
    unfolding is_text read_function create_function set_fnptr function_free
    deserialize_function fresh json = do
      create_function fresh
      set_fnptr fresh 0
      if is_text "RPC_function" (J.object_get json "type")
          then pure (some (read_function json))
          else (do function_free fresh; pure none)
