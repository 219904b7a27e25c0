-- ===== src/Examples/Calls.antt =====
-- A struct of arguments with one number, and one character for the name of each index.
use ffi_rpc.Base.{ℕ, ◌≡◌, refl, arith, true, false, [], ◌∷◌, String, zero, suc}
use ffi_rpc.Ext.Models.{example_libs}
use ffi_rpc.Types.{rpc_number, rpc_struct}
use ffi_rpc.World.{World, RpcStruct, set_struct}
use ffi_rpc.World.Cmd.{ok}
use ffi_rpc.Struct.Session.{empty_world}
use ffi_rpc.Struct.Api
use ffi_rpc.Types.{value_of}
use ffi_rpc.Calls.{proto_equals}
use ffi_rpc.Calls.Prototype.{Checked, proto_equals-Checked}

abbrev name_of : ℕ → String
name_of zero = "0"
name_of (suc n) = "1"

abbrev arguments : RpcStruct example_libs
arguments = record {
  map = ("0", record { word = 7; text = ""; length = 8; type = rpc_number }) ∷ [];
  id = "A";
  copyof = 0;
  manual_destructor = 0;
}

abbrev called : World example_libs
called = set_struct 1 arguments empty_world

proto_equals-Checked_example :
    Checked name_of 1 called (rpc_number ∷ []) 1 (proto_equals name_of 1 (rpc_number ∷ []) called)
proto_equals-Checked_example =
    proto_equals-Checked name_of 1 called (rpc_number ∷ []) arguments (omega arith) refl

accepted : proto_equals name_of 1 (rpc_number ∷ []) called ≡ ok true called
unfolding proto_equals value_of Api.length Api.type_of
accepted = refl

refused : proto_equals name_of 1 (rpc_struct ∷ []) called ≡ ok false called
unfolding proto_equals value_of Api.length Api.type_of
refused = refl
