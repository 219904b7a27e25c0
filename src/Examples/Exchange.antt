-- ===== src/Examples/Exchange.antt =====
-- A struct with a number and a text goes over a pipe, with its own JSON as the tree that has a text.
use ffi_rpc.Base.{◌≡◌, ◌≢◌, ap, refl, subst, arith, false, [], ◌∷◌}
use ffi_rpc.Ext.JsonModel.{Tree, trees, tree_values, object_of, no_fields}
use ffi_rpc.Ext.TreeText.{tree_text, same}
use ffi_rpc.Ext.Models.{example_libs}
use ffi_rpc.World.Cmd.{Run, ok, fault, out_of_fuel}
use ffi_rpc.Struct.Observe.{Kind, kind, tracked}
use ffi_rpc.Struct.Api.{copy_elements, set_copyof}
use ffi_rpc.Duplicates
use ffi_rpc.Framing.{values, to_bytes}
use ffi_rpc.StructJson.Write.{serialize}
use ffi_rpc.Exchange.{Stack, net_send}
use ffi_rpc.Exchange.Delivery.{Delivered, Fits, net_recv-net_send}
use ffi_rpc.Examples.Structs.{W, world_of}
use ffi_rpc.Examples.Framing.{pipe}
use ffi_rpc.Examples.StructJson.{malloc, new_id, decimal, flat, flat-IsConsistent, flat-IsSendable}

abbrev json_in : Run W Tree → Tree
json_in (ok j w) = j
json_in fault = object_of no_fields
json_in out_of_fuel = object_of no_fields

abbrev flat_run : Run W Tree
flat_run = serialize trees tree_values malloc (λ b. b) 1 1 flat

unfoldable flat_json : Tree
unfolding flat serialize Duplicates.visit Duplicates.visit_pointer copy_elements set_copyof
flat_json = json_in flat_run

abbrev stack : Stack example_libs
stack = record {
  jansson = trees;
  json_values = tree_values;
  text_form = tree_text flat_json;
  sockets = pipe;
  malloc = malloc;
  next_block = λ b. b;
  random_id = new_id;
  decimal = decimal;
  depth = 1;
}

flat-Fits : (v : W) (j : Tree) → flat_run ≡ ok j v → Fits stack 1 ([], 20, 20) flat j
unfolding flat_json same values to_bytes
flat-Fits v j e =
    subst (λ (t : Tree). Fits stack 1 ([], 20, 20) flat t) (ap json_in e)
      (1 ∷ [], refl, omega arith, (refl, refl), refl)

flat_allocates :
    (v : W) (r : _)
    → net_send stack 1 ([], 20, 20) flat ≡ ok r v
    → (malloc v ≢ 0) × (kind v (malloc v) ≡ Kind.absent) × (tracked v (malloc v) ≡ false)
unfolding flat flat_json same net_send serialize Duplicates.visit Duplicates.visit_pointer
    copy_elements set_copyof
flat_allocates v r e =
    subst
      (λ (u : W).
        (malloc u ≢ 0) × (kind u (malloc u) ≡ Kind.absent) × (tracked u (malloc u) ≡ false))
      (ap world_of e) (omega arith, refl, refl)

net_recv-net_send_example : Delivered stack 1 ([], 20, 20) flat
unfolding flat
net_recv-net_send_example =
    net_recv-net_send stack 1 _ ([], 20, 20) flat 0 refl flat-IsConsistent (omega arith) refl
      flat-IsSendable (omega arith) refl refl refl (omega arith) refl flat-Fits flat_allocates
