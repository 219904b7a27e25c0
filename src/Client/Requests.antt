-- ===== src/Client/Requests.antt =====
-- The requests of src/rpc_client.c about objects of the server: `is_object`, and the request that
-- fetches an object. `method_request` takes and gives the state of the connection.
use ffi_rpc.Base.{ℕ, Bool, true, false, String, nat_eq, ◌==◌, if◌then◌else◌}
use ffi_rpc.Ext.Libs.{Libs}
use ffi_rpc.World.{World}
use ffi_rpc.World.Cmd.{pure, ◌>>=◌, ◌>>◌}
use ffi_rpc.Struct.{Cmd}
use ffi_rpc.Struct.Api.{free}
use ffi_rpc.Typed.{set, get}
use ffi_rpc.Registry.{struct_var}
use ffi_rpc.Server.{text_var, int_var, assert_zero}
use ffi_rpc.Client.{new_struct}

module _ {L : Libs} {State : Type 0} (malloc : World L → ℕ) (random_id : World L → String)
    (method_request : ℕ → State → Cmd L (ℕ × State)) where
  -- The reply to `is_cobject`, which is freed.
  unfoldable pub read_is_object : (reply : ℕ) → Cmd L Bool
  unfolding get assert_zero free
  read_is_object reply = if reply == 0 then pure false else (do
    ret ← get reply "is_cobject" (int_var 0)
    assert_zero ret.0
    free reply
    pure (if ret.1.bits == 0 then false else true))

  -- `is_object`
  unfoldable pub is_object : (id : String) → State → Cmd L (Bool × State)
  unfolding set assert_zero read_is_object
  is_object id connection = do
    request ← new_struct malloc random_id
    params ← new_struct malloc random_id
    named ← set request "method" (text_var "is_cobject")
    assert_zero named
    given ← set request "params" (struct_var params)
    assert_zero given
    stored ← set params "ID" (text_var id)
    assert_zero stored
    reply ← method_request request connection
    ret ← read_is_object reply.0
    pure (ret, reply.1)

  -- The request of `rpc_client_cobject_get`.
  unfoldable pub request_object : (cobj_name : String) → State → Cmd L (ℕ × State)
  unfolding set assert_zero
  request_object cobj_name connection = do
    request ← new_struct malloc random_id
    named ← set request "method" (text_var "get_object")
    assert_zero named
    method_params ← new_struct malloc random_id
    given ← set request "params" (struct_var method_params)
    assert_zero given
    stored ← set method_params "object" (text_var cobj_name)
    assert_zero stored
    method_request request connection
