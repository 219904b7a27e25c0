-- ===== src/Struct/Reads.antt =====
-- Reading a live struct: `rpc_struct_get_internal` and the functions over it.
use ffi_rpc.Base.{
  ℕ, ◌≡◌, ◌≢◌, refl, ap, Option, none, some, false, String, arith, nat_eq, ◌==◌, inl, inr,
  Option-cases, not,
}
use ffi_rpc.Types.{RpcType, Element, rpc_none}
use ffi_rpc.Ext.Libs.{Libs}
use ffi_rpc.World.{World, RpcStruct, a_struct}
use ffi_rpc.World.Cmd.{ok}
use ffi_rpc.Struct.Observe.{slot, element_in, load-ok}
use ffi_rpc.Struct.Api.{type_of, get_internal, exists, no_element, is_none}

abbrev pub element_or_none : Option Element → Element
element_or_none none = no_element
element_or_none (some e) = e

abbrev pub type_in : Option Element → RpcType
type_in none = rpc_none
type_in (some e) = e.type

module _ {L : Libs} (s : ℕ) (k : String) (w : World L) (o : RpcStruct L)
    (live : w.heap s ≡ some (a_struct o)) (nz : s ≢ 0) where
  pub get_internal-ok : get_internal s k w ≡ ok (element_or_none (slot w s k)) w
  unfolding get_internal
  get_internal-ok =
      let live_struct : (s == 0) ≡ false = ground (arith, nz) in
      let at : slot w s k ≡ L.by_name.get o.map k = ap (element_in k) live in
      elim (Option-cases (L.by_name.get o.map k)) [
        | inl missing ↦ rw (live_struct, load-ok s w o live, missing, at, missing) refl
        | inr (e, found) ↦ rw (live_struct, load-ok s w o live, found, at, found) refl
      ]

  pub type_of-ok : type_of s k w ≡ ok (type_in (slot w s k)) w
  unfolding type_of
  type_of-ok = elim (Option-cases (slot w s k)) [
    | inl missing ↦ rw (get_internal-ok, missing) refl
    | inr (e, found) ↦ rw (get_internal-ok, found) refl
  ]

  pub exists-ok : exists s k w ≡ ok (not (is_none (type_in (slot w s k)))) w
  unfolding exists
  exists-ok = elim (Option-cases (slot w s k)) [
    | inl missing ↦ rw (get_internal-ok, missing) refl
    | inr (e, found) ↦ rw (get_internal-ok, found) refl
  ]
