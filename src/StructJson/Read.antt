-- ===== src/StructJson/Read.antt =====
-- `rpc_struct_deserialize` of src/rpc_struct.c.

use ffi_rpc.Base.{
  ℕ, zero, suc, ◌+◌, Option, none, some, List, [], ◌∷◌, String, string_eq, nat_eq, ◌==◌,
  if◌then◌else◌,
}
use ffi_rpc.Types.{rpc_struct, rpc_sizedbuf, rpc_function}
use ffi_rpc.Ext.Libs.{Libs}
use ffi_rpc.Ext.Json.{Jansson}
use ffi_rpc.Ext.JsonValues.{
  JsonValues, JsonType, json_object, json_array, json_string, json_integer, json_real, json_other,
}
use ffi_rpc.World.{World, a_function}
use ffi_rpc.World.Cmd.{ok, fault, out_of_fuel, pure, ◌>>=◌, ◌>>◌}
use ffi_rpc.Struct.{Cmd}
use ffi_rpc.Struct.Api.{create, set_internal, get_internal, no_element, free}
use ffi_rpc.Objects.{put_object}
use ffi_rpc.Typed.{uint64_t, double_t, string_t, struct_t, set}
use ffi_rpc.Serial.{deserialize_sizedbuf, deserialize_function}
use ffi_rpc.StructJson.Parts.{function_with, id_set, set_made}

module _ {L : Libs} (J : Jansson) (V : JsonValues J) where
  module _ (fresh : World L → ℕ) (new_id : World L → String) where
    -- The loop over the entries of `duplicates`: of each new key and the key that has the pointer.
    unfoldable pub read_duplicates : ℕ → List (String × J.Json) → Cmd L (Unit {0})
    unfolding get_internal set_internal
    read_duplicates new [] = pure tt
    read_duplicates new ((key, item) ∷ rest) = do
      e ← elim (J.string_value item) [
        | none ↦ pure no_element
        | some original ↦ get_internal new original
      ]
      set_internal new key e
      read_duplicates new rest

    unfoldable pub read_listed : ℕ → Option J.Json → Cmd L (Unit {0})
    unfolding read_duplicates
    read_listed new none = pure tt
    read_listed new (some duplicates) = read_duplicates new (V.entries duplicates)

    -- The loop over the entries of `serialised`; `parse` is `item_parse`.
    unfoldable pub parse_all :
        (parse : J.Json → ℕ → String → Cmd L (Unit {0}))
        → ℕ
        → List (String × J.Json)
        → Cmd L (Unit {0})
    parse_all parse s [] = pure tt
    parse_all parse s ((key, item) ∷ rest) = do parse item s key; parse_all parse s rest

    -- `rpc_struct_deserialize` behind the test of the type; the result is 0 for NULL.
    unfoldable pub fill_struct :
        (parse : J.Json → ℕ → String → Cmd L (Unit {0})) → J.Json → ℕ → Cmd L ℕ
    unfolding parse_all read_listed free
    fill_struct parse json new = elim (J.object_get json "serialised") [
      | none ↦ (do free new; pure 0)
      | some contents ↦ (do
        parse_all parse new (V.entries contents)
        read_listed new (J.object_get json "duplicates")
        pure new)
    ]

    -- The ID that JSON gives. Without a text it is NULL, whose length is read.
    unfoldable pub read_id : ℕ → Option J.Json → Cmd L (Unit {0})
    unfolding id_set
    read_id new none = pure tt
    read_id new (some id) = elim (J.string_value id) [
      | none ↦ (λ w. fault)
      | some text ↦ id_set new text
    ]

    -- The test of the type, which compares NULL where the type is not a text.
    unfoldable pub check_type :
        (parse : J.Json → ℕ → String → Cmd L (Unit {0})) → J.Json → ℕ → Option J.Json → Cmd L ℕ
    unfolding fill_struct free
    check_type parse json new none = do free new; pure 0
    check_type parse json new (some type) = elim (J.string_value type) [
      | none ↦ (λ w. fault)
      | some name ↦
          if name == "RPC_struct" then fill_struct parse json new else (do free new; pure 0)
    ]

    -- `rpc_struct_deserialize` of JSON that is not NULL.
    unfoldable pub deserialize_with :
        (parse : J.Json → ℕ → String → Cmd L (Unit {0})) → J.Json → Cmd L ℕ
    unfolding read_id check_type
    deserialize_with parse json w =
        (do
          new ← create (fresh w) (new_id w)
          read_id new (J.object_get json "ID")
          check_type parse json new (J.object_get json "type"))
          w

    -- The function that was read, at its address. A number that is no type ends the run here; the
    -- source keeps it, for later reads of a table out of bounds.
    unfoldable pub read_function_at : J.Json → Cmd L ℕ
    unfolding deserialize_function function_with
    read_function_at json w =
        (do
          f ← deserialize_function J (fresh w) json
          elim f [
            | none ↦ pure 0
            | some read ↦ elim (function_with read) [
              | none ↦ (λ v. fault)
              | some function ↦ (λ v. ok (fresh w) (put_object (fresh w) (a_function function) v))
            ]
          ])
          w

    -- The case of an object in `item_parse`.
    unfoldable pub parse_object :
        (parse : J.Json → ℕ → String → Cmd L (Unit {0}))
        → J.Json
        → ℕ
        → String
        → Option String
        → Cmd L (Unit {0})
    unfolding set_made deserialize_with read_function_at deserialize_sizedbuf
    parse_object parse item s key none = λ w. fault
    parse_object parse item s key (some type) =
        if type == "RPC_struct"
        then set_made (deserialize_with parse item) rpc_struct s key
        else if type == "RPC_function"
        then set_made (read_function_at item) rpc_function s key
        else if type == "RPC_sizedbuf"
        then set_made (λ w. deserialize_sizedbuf J (fresh w) item w) rpc_sizedbuf s key
        else pure tt

    -- The loop over an array in `item_parse`, from index `i` on.
    unfoldable pub parse_array :
        (parse : J.Json → ℕ → String → Cmd L (Unit {0}))
        → (decimal : ℕ → String) → J.Json
        → (s i rest : ℕ) → Cmd L (Unit {0})
    parse_array parse decimal array s i zero = pure tt
    parse_array parse decimal array s i (suc rest) = elim (J.array_get array i) [
      | none ↦ pure tt
      | some item ↦ (do parse item s (decimal i); parse_array parse decimal array s (i + 1) rest)
    ]

    -- The case of an array: its struct is made even if the key is taken.
    unfoldable pub parse_new :
        (parse : J.Json → ℕ → String → Cmd L (Unit {0}))
        → (decimal : ℕ → String) → J.Json
        → ℕ
        → String
        → Cmd L (Unit {0})
    unfolding set create parse_array
    parse_new parse decimal item s key w =
        (do
          new ← create (fresh w) (new_id w)
          set s key (record { ctype = struct_t; bits = new; text = "" })
          parse_array parse decimal item new 0 (J.array_size item))
          w

    -- `item_parse` by the type of the item.
    unfoldable pub parse_by :
        (parse : J.Json → ℕ → String → Cmd L (Unit {0}))
        → (decimal : ℕ → String) → JsonType
        → J.Json
        → ℕ
        → String
        → Cmd L (Unit {0})
    unfolding set parse_object parse_new
    parse_by parse decimal json_integer item s key = do
      set s key (record { ctype = uint64_t; bits = J.integer_value item; text = "" })
      pure tt
    parse_by parse decimal json_real item s key = do
      set s key (record { ctype = double_t; bits = V.real_value item; text = "" })
      pure tt
    parse_by parse decimal json_string item s key = elim (J.string_value item) [
      | none ↦ pure tt
      | some text ↦ (do set s key (record { ctype = string_t; bits = 1; text = text }); pure tt)
    ]
    parse_by parse decimal json_object item s key =
        parse_object parse item s key
          (elim (J.object_get item "type") [ none ↦ none | some type ↦ J.string_value type ])
    parse_by parse decimal json_array item s key = parse_new parse decimal item s key
    parse_by parse decimal json_other item s key = pure tt

    -- `item_parse`
    unfoldable pub item_parse :
        (decimal : ℕ → String) → (depth : ℕ) → J.Json → ℕ → String → Cmd L (Unit {0})
    unfolding parse_by
    item_parse decimal zero item s key w = out_of_fuel
    item_parse decimal (suc depth) item s key w =
        parse_by (item_parse decimal depth) decimal (V.type_of item) item s key w

    -- `rpc_struct_deserialize`
    unfoldable pub deserialize : (decimal : ℕ → String) → (depth : ℕ) → Option J.Json → Cmd L ℕ
    unfolding deserialize_with item_parse
    deserialize decimal depth none = pure 0
    deserialize decimal depth (some json) = deserialize_with (item_parse decimal depth) json
