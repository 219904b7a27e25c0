-- ===== src/DeepCopy.antt =====
-- `rpc_struct_deep_copy` of src/rpc_struct.c. `malloc` is the argument `fresh`, the address that it
-- returns in a memory; `left_first` is the order of arguments that `copy_sizedbuf` leaves open.
pub mod Plain
use ffi_rpc.Base.{
  ℕ, zero, suc, Bool, none, some, List, [], ◌∷◌, String, nat_eq, string_eq, if◌then◌else◌,
}
use ffi_rpc.Types.{
  RpcType, Element, rpc_struct, rpc_sizedbuf, rpc_function, is_refcounted, freefn_of,
}
use ffi_rpc.Ext.Libs.{Libs}
use ffi_rpc.World.{World}
use ffi_rpc.World.Cmd.{ok, out_of_fuel, pure, ◌>>=◌, ◌>>◌}
use ffi_rpc.Struct.{Cmd, load, prec_increment}
use ffi_rpc.Struct.Api.{create, set_internal, set_copyof}
use ffi_rpc.Objects.{copy_sizedbuf, copy_function}

module _ {L : Libs} (fresh : World L → ℕ) (left_first : Bool) where
  -- The copy of an object; `deep` is the recursive call.
  unfoldable pub copy_object : (deep : ℕ → Cmd L ℕ) → RpcType → ℕ → Cmd L ℕ
  copy_object deep rpc_struct p w = deep p w
  copy_object deep rpc_sizedbuf p w = copy_sizedbuf left_first (fresh w) p w
  copy_object deep rpc_function p w = copy_function (fresh w) p w
  copy_object deep _ p w = ok p w

  -- The copy of a pointer and the table `duptrack`, in which it is looked up first.
  unfoldable pub copy_once :
      (deep : ℕ → Cmd L ℕ) → L.by_ptr.Map ℕ → RpcType → ℕ → Cmd L (ℕ × L.by_ptr.Map ℕ)
  unfolding copy_object
  copy_once deep duptrack type p = elim (L.by_ptr.get duptrack p) [
    | some is_copy ↦ pure (is_copy, duptrack)
    | none ↦ (do new ← copy_object deep type p; pure (new, (L.by_ptr.put duptrack p new).0))
  ]

  -- The element to store, with its reference counted, and the table. A string is copied with its text.
  unfoldable pub copy_element :
      (deep : ℕ → Cmd L ℕ)
      → (copy : ℕ) → L.by_ptr.Map ℕ
      → String
      → Element
      → Cmd L (Element × L.by_ptr.Map ℕ)
  unfolding copy_once
  copy_element deep copy duptrack key e =
      if is_refcounted e.type
      then (do
        r ← copy_once deep duptrack e.type e.word
        prec_increment r.0
            (some (record { origin = copy; name = some key; free = freefn_of e.type }))
        pure (record e { word = r.0 }, r.1))
      else pure (e, duptrack)

  -- The loop of `rpc_struct_deep_copy`.
  unfoldable pub deep_copy_elements :
      (deep : ℕ → Cmd L ℕ)
      → (copy : ℕ) → L.by_ptr.Map ℕ
      → List (String × Element)
      → Cmd L (Unit {0})
  unfolding copy_element
  deep_copy_elements deep copy duptrack [] = pure tt
  deep_copy_elements deep copy duptrack ((key, e) ∷ es) = do
    element_copy ← copy_element deep copy duptrack key e
    set_internal copy key element_copy.0
    deep_copy_elements deep copy element_copy.1 es

  -- `rpc_struct_deep_copy`. Structs that hold one another are copied for ever, so the depth is fuel.
  unfoldable pub deep_copy : (depth : ℕ) → ℕ → Cmd L ℕ
  unfolding deep_copy_elements
  deep_copy zero original w = out_of_fuel
  deep_copy (suc depth) original w =
      (do
        o ← load original
        create (fresh w) o.id
        deep_copy_elements (deep_copy depth) (fresh w) (L.by_ptr.init ℕ) (L.by_name.entries o.map)
        set_copyof (fresh w) original
        pure (fresh w))
        w
