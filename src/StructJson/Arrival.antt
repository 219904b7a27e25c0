-- ===== src/StructJson/Arrival.antt =====
-- What becomes of an element of a struct that is sent as JSON and read again.

use mathlib.Core.Option.{map as map_option}
use ffi_rpc.Base.{◌≡◌, refl, ap, ◌∙◌, none, some, arith, string_eq, nat_eq, Option, subst, inl, inr}
use ffi_rpc.Types.{Element}
use ffi_rpc.Ext.Json.{Jansson}
use ffi_rpc.Ext.JsonValues.{JsonValues}
use ffi_rpc.Struct.Api.{stored}
use ffi_rpc.Typed.{c_to_rpc}
use ffi_rpc.StructJson.Copied.{IsSendable}
use ffi_rpc.StructJson.Sent.{item_for}
use ffi_rpc.StructJson.Message.{received, item-received}
use ffi_rpc.StructJson.Flat.{element_of, element_for}

pub IsSendable-stored : (e : Element) → IsSendable e → IsSendable (stored e)
unfolding stored
IsSendable-stored e (inl number) = inl (ground (arith, number))
IsSendable-stored e (inr (text, there)) = inr (ground (arith, text), ground (arith, there))

pub stored-IsSendable :
    (x : Option Element) (e : Element)
    → ((f : Element) → x ≡ some f → IsSendable f)
    → map_option stored x ≡ some e
    → IsSendable e
stored-IsSendable none e h at = absurd (ground arith)
stored-IsSendable (some f) e h at =
    let same : stored f ≡ e = cc in subst IsSendable same (IsSendable-stored f (h f refl))

-- What the receiver stores for an element: a text again, or a number as a `uint64_t`.
abbrev pub arrived : Element → Element
arrived e = stored (c_to_rpc (received e))

received-stored : (e : Element) → IsSendable e → received (stored e) ≡ received e
unfolding stored
received-stored e (inl number) = rw number refl
received-stored e (inr (text, there)) = rw text refl

module _ (J : Jansson) (V : JsonValues J) where
  -- An element that was copied, sent and read.
  item-arrived :
      (e : Element) → IsSendable e → stored (element_for J V (item_for J V (stored e))) ≡ arrived e
  item-arrived e sendable =
      ap (λ x. stored (element_of J V x))
        (item-received J V (stored e) (IsSendable-stored e sendable))
      ∙ ap (λ v. stored (c_to_rpc v)) (received-stored e sendable)

  pub items-arrived :
      (x : Option Element)
      → ((e : Element) → x ≡ some e → IsSendable e)
      → map_option
          (λ item. stored (element_for J V item))
          (map_option (item_for J V) (map_option stored x))
        ≡ map_option arrived x
  items-arrived none h = refl
  items-arrived (some e) h = ap some (item-arrived e (h e refl))
