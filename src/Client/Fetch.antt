-- ===== src/Client/Fetch.antt =====
-- `rpc_client_cobject_get` of src/rpc_client.c. The copy of the object is deep, so its depth is fuel.
use ffi_rpc.Base.{ℕ, Bool, List, String, nat_eq, ◌==◌, if◌then◌else◌}
use ffi_rpc.Ext.Libs.{Libs}
use ffi_rpc.World.{World}
use ffi_rpc.World.Cmd.{pure, ◌>>=◌, ◌>>◌}
use ffi_rpc.Struct.{Cmd}
use ffi_rpc.Struct.Api.{exists, free}
use ffi_rpc.Typed.{set, get}
use ffi_rpc.Registry.{struct_var, id_get}
use ffi_rpc.DeepCopy.{deep_copy}
use ffi_rpc.Invoke.{FfiType}
use ffi_rpc.Server.{assert_zero}
use ffi_rpc.Client.{Client}
use ffi_rpc.Client.Requests.{request_object}
use ffi_rpc.Client.Closures.{Closure, closurefy}

module _ {L : Libs} where
  -- An object goes into the table of loaded objects; an older one of its ID is freed before.
  unfoldable pub keep_loaded : (loaded_cobjects cobj : ℕ) → Cmd L (Unit {0})
  unfolding id_get set get assert_zero free
  keep_loaded loaded_cobjects cobj = do
    id ← id_get cobj
    stored ← set loaded_cobjects id (struct_var cobj)
    if stored == 0 then pure tt else (do
      old ← get loaded_cobjects id (struct_var 0)
      assert_zero old.0
      free old.1.bits
      again ← set loaded_cobjects id (struct_var cobj)
      assert_zero again)

module _ {L : Libs} {State : Type 0} (malloc : World L → ℕ) (random_id : World L → String)
    (left_first : Bool) (decimal : ℕ → String) (place : List Closure → ℕ × ℕ)
    (prep_cif : List FfiType → FfiType → Bool) (destructor : ℕ)
    (method_request : ℕ → State → Cmd L (ℕ × State)) where
  -- What is done with a reply that has an object.
  unfoldable pub load_object :
      (depth : ℕ) → Client → (reply : ℕ) → List Closure → Cmd L (ℕ × List Closure)
  unfolding get assert_zero deep_copy keep_loaded closurefy
  load_object depth client reply closures = do
    reply_cobj ← get reply "object" (struct_var 0)
    assert_zero reply_cobj.0
    cobj ← deep_copy malloc left_first depth reply_cobj.1.bits
    keep_loaded client.loaded_cobjects cobj
    made ← closurefy malloc random_id decimal place prep_cif destructor cobj closures
    pure (cobj, made)

  -- A reply without an error gives the object, any other NULL; the reply is freed.
  unfoldable pub read_object :
      (depth : ℕ) → Client → (reply : ℕ) → List Closure → Cmd L (ℕ × List Closure)
  unfolding exists load_object free
  read_object depth client reply closures = if reply == 0 then pure (0, closures) else (do
    refused ← exists reply "error"
    r ← if refused then pure (0, closures) else load_object depth client reply closures
    free reply
    pure r)

  -- `rpc_client_cobject_get`
  unfoldable pub client_cobject_get :
      (depth : ℕ)
      → Client
      → (cobj_name : String) → List Closure
      → State
      → Cmd L (ℕ × List Closure × State)
  unfolding request_object read_object
  client_cobject_get depth client cobj_name closures connection = do
    reply ← request_object malloc random_id method_request cobj_name connection
    r ← read_object depth client reply.0 closures
    pure (r.0, r.1, reply.1)
