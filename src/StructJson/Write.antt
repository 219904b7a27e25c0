-- ===== src/StructJson/Write.antt =====
-- `rpc_struct_serialize` of src/rpc_struct.c.

use ffi_rpc.Base.{
  ℕ, zero, suc, ◌%◌, ◌^◌, Option, none, some, List, [], ◌∷◌, String, string_eq, nat_eq, ◌==◌,
  if◌then◌else◌,
}
use ffi_rpc.Types.{
  RpcType, Element, rpc_none, rpc_number, rpc_real, rpc_string, rpc_struct, rpc_sizedbuf,
  rpc_function, rpc_unknown, is_unknown,
}
use ffi_rpc.Ext.Libs.{Libs}
use ffi_rpc.Ext.Json.{Jansson}
use ffi_rpc.Ext.JsonValues.{JsonValues}
use ffi_rpc.World.{a_sizedbuf, World}
use ffi_rpc.World.Cmd.{ok, fault, out_of_fuel, pure, ◌>>=◌, ◌>>◌}
use ffi_rpc.Struct.{Cmd, load}
use ffi_rpc.Struct.Api.{remove, free, copy}
use ffi_rpc.Objects.{load_function}
use ffi_rpc.Duplicates.{DuplicateInfo, found_duplicates}
use ffi_rpc.Serial.{serialize_function, serialize_sizedbuf}

-- The number that the bytes of an RPC_number are, by their length.
unfoldable pub int_of : Element → ℕ
int_of e =
    if e.length == 1
    then e.word % 2 ^ 8
    else if e.length == 2
    then e.word % 2 ^ 16
    else if e.length == 4
    then e.word % 2 ^ 32
    else if e.length == 8
    then e.word % 2 ^ 64
    else 0

module _ (J : Jansson) (V : JsonValues J) where
  -- `json_object_set_new`, which does nothing with NULL.
  unfoldable pub set_item : J.Json → String → Option J.Json → J.Json
  set_item root key none = root
  set_item root key (some item) = J.object_set_new root key item

  unfoldable pub double_of : Element → ℕ
  double_of e =
      if e.length == 4
      then V.double_of_float (e.word % 2 ^ 32)
      else if e.length == 8
      then e.word % 2 ^ 64
      else 0

  unfoldable pub write_names : J.Json → (original : String) → List String → J.Json
  write_names duplicates original [] = duplicates
  write_names duplicates original (key ∷ keys) =
      write_names (J.object_set_new duplicates key (J.string original)) original keys

  -- The loops that fill `duplicates`.
  unfoldable pub write_duplicates : J.Json → List DuplicateInfo → J.Json
  unfolding write_names
  write_duplicates duplicates [] = duplicates
  write_duplicates duplicates (info ∷ infos) =
      write_duplicates (write_names duplicates info.original_name info.duplicates) infos

module _ {L : Libs} where
  -- The loop that takes elements of unknown type out of the copy.
  unfoldable pub remove_unknown : ℕ → List (String × Element) → Cmd L (Unit {0})
  unfolding remove
  remove_unknown s [] = pure tt
  remove_unknown s ((key, e) ∷ es) = do
    (if is_unknown e.type then (do remove s key; pure tt) else pure tt)
    remove_unknown s es

  unfoldable pub remove_all : ℕ → List String → Cmd L (Unit {0})
  unfolding remove
  remove_all s [] = pure tt
  remove_all s (key ∷ rest) = do remove s key; remove_all s rest

  -- The loops that take the duplicates out of the copy.
  unfoldable pub remove_duplicates : ℕ → List DuplicateInfo → Cmd L (Unit {0})
  unfolding remove_all
  remove_duplicates s [] = pure tt
  remove_duplicates s (info ∷ infos) = do remove_all s info.duplicates; remove_duplicates s infos

module _ {L : Libs} (J : Jansson) (V : JsonValues J) where
  unfoldable pub serialize_buffer : ℕ → Cmd L (Option J.Json)
  unfolding serialize_sizedbuf
  serialize_buffer p w = elim (w.heap p) [
    | some (a_sizedbuf b) ↦ ok (some (serialize_sizedbuf J b)) w
    | _ ↦ fault
  ]

  -- The item of an element, by its type; `deep` is the recursive call. `json_string` gives NULL for
  -- bytes that are not UTF-8; a text is a sequence of characters here, which always has a UTF-8 form.
  unfoldable pub item_of : (deep : ℕ → Cmd L J.Json) → RpcType → Element → Cmd L (Option J.Json)
  unfolding int_of double_of serialize_buffer serialize_function
  item_of deep rpc_struct e = do item ← deep e.word; pure (some item)
  item_of deep rpc_function e = do f ← load_function e.word; pure (some (serialize_function J f))
  item_of deep rpc_sizedbuf e = serialize_buffer e.word
  item_of deep rpc_number e = pure (some (J.integer (int_of e)))
  item_of deep rpc_real e = pure (V.real (double_of J V e))
  item_of deep rpc_string e = pure (some (J.string e.text))
  item_of deep rpc_none e = pure none
  item_of deep rpc_unknown e = pure none

  -- The loop that fills `serialised`.
  unfoldable pub serialize_elements :
      (deep : ℕ → Cmd L J.Json) → J.Json → List (String × Element) → Cmd L J.Json
  unfolding item_of set_item
  serialize_elements deep serialised [] = pure serialised
  serialize_elements deep serialised ((key, e) ∷ es) = do
    item ← item_of deep e.type e
    serialize_elements deep (set_item J V serialised key item) es

  module _ (fresh : World L → ℕ) (next_block : ℕ → ℕ) where
    -- The copy without what is not serialised, and the duplicates.
    unfoldable pub dupless_copy : ℕ → Cmd L (ℕ × List DuplicateInfo)
    unfolding load copy found_duplicates remove_unknown remove_duplicates
    dupless_copy original w =
        (do
          dupless ← copy (fresh w) original
          dups ← found_duplicates next_block original
          o ← load dupless
          remove_unknown dupless (L.by_name.entries o.map)
          remove_duplicates dupless dups
          pure (dupless, dups))
          w

    -- `rpc_struct_serialize`
    unfoldable pub serialize : (depth : ℕ) → ℕ → Cmd L J.Json
    unfolding load dupless_copy serialize_elements free write_duplicates
    serialize zero original w = out_of_fuel
    serialize (suc depth) original w =
        (do
          d ← dupless_copy original
          o ← load original
          dupless ← load d.0
          serialised ← serialize_elements (serialize depth) J.object (L.by_name.entries dupless.map)
          free d.0
          load original
          pure (
              J.object_set_new
                (J.object_set_new
                  (J.object_set_new (J.object_set_new J.object "ID" (J.string o.id)) "type"
                    (J.string "RPC_struct"))
                  "serialised" serialised)
                "duplicates" (write_duplicates J V J.object d.1)))
          w
