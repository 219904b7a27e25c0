-- ===== src/Client/Returns.antt =====
-- The part of `call_rpc_closure` of src/rpc_client.c behind the request: the reply becomes the result of the closure.
use ffi_rpc.Base.{
  ℕ, Bool, true, Option, none, some, List, String, nat_eq, ◌==◌, not, if◌then◌else◌, is_some,
}
use ffi_rpc.Types.{
  RpcType, Element, rpc_none, rpc_number, rpc_real, rpc_string, rpc_struct, rpc_unknown, same_type,
}
use ffi_rpc.Ext.Libs.{Libs}
use ffi_rpc.World.{World}
use ffi_rpc.World.Cmd.{fault, pure, ◌>>=◌, ◌>>◌}
use ffi_rpc.Struct.{Cmd, load}
use ffi_rpc.Struct.Api.{get_internal, type_of, exists, copy, free}
use ffi_rpc.Objects.{load_function}
use ffi_rpc.Typed.{overwrite, get}
use ffi_rpc.Registry.{struct_var, id_get}
use ffi_rpc.Invoke.{FfiType}
use ffi_rpc.Server.{assert_zero}
use ffi_rpc.Client.{Client}
use ffi_rpc.Client.Requests.{is_object}
use ffi_rpc.Client.Closures.{Closure, closurefy}
use ffi_rpc.Client.Calls.{copied_bytes, disable_free, call_request}

-- `arg_info == NULL || arg_info->was_refcounted == 0`
unfoldable pub is_borrowed : Option Bool → Bool
is_borrowed none = true
is_borrowed (some was_refcounted) = not was_refcounted

module _ {L : Libs} {State : Type 0} (malloc : World L → ℕ) (random_id : World L → String)
    (decimal : ℕ → String) (place : List Closure → ℕ × ℕ) (prep_cif : List FfiType → FfiType → Bool)
    (destructor : ℕ) (method_request : ℕ → State → Cmd L (ℕ × State)) where
  -- A struct that is no loaded object: it may be an object of the server.
  unfoldable pub return_new :
      (possible_obj : ℕ)
      → (info : Option Bool) → (id : String) → List Closure
      → State
      → Cmd L (ℕ × List Closure × State)
  unfolding is_object closurefy
  return_new possible_obj info id closures connection = do
    r ← is_object malloc random_id method_request id connection
    made ←
        (if not r.0
          then pure closures
          else if is_some info
          then (λ w. fault)
          else closurefy malloc random_id decimal place prep_cif destructor possible_obj closures)
    pure (possible_obj, made, r.1)

  -- A struct as result: of a loaded object it is a new copy.
  unfoldable pub return_struct :
      Client
      → (possible_obj : ℕ) → (info : Option Bool) → List Closure
      → State
      → Cmd L (ℕ × List Closure × State)
  unfolding id_get exists return_new get assert_zero copy
  return_struct client possible_obj info closures connection = do
    id ← id_get possible_obj
    known ← exists client.loaded_cobjects id
    if not known then return_new possible_obj info id closures connection else (do
      lcobj ← get client.loaded_cobjects id (struct_var 0)
      assert_zero lcobj.0
      fresh ← λ w. pure (malloc w) w
      r ← copy fresh lcobj.1.bits
      pure (r, closures, connection))

  -- A counted pointer as result, other than NULL, for which nothing is written.
  unfoldable pub return_pointer :
      Client
      → RpcType
      → (p ret : ℕ) → L.by_ptr.Map Bool
      → List Closure
      → State
      → Cmd L (ℕ × List Closure × State)
  unfolding is_borrowed disable_free return_struct
  return_pointer client t p ret infos closures connection =
      let info = L.by_ptr.get infos p in
      if p == 0 then pure (ret, closures, connection) else (do
        (if is_borrowed info then disable_free p else pure tt)
        if same_type t rpc_struct
            then return_struct client p info closures connection
            else pure (p, closures, connection))

  -- The result for an element of the reply.
  unfoldable pub return_element :
      Client
      → FfiType
      → Element
      → (t : RpcType) → (ret : ℕ) → L.by_ptr.Map Bool
      → List Closure
      → State
      → Cmd L (ℕ × List Closure × State)
  unfolding return_pointer copied_bytes
  return_element client rtype e rpc_none ret infos closures connection w =
      pure (ret, closures, connection) w
  return_element client rtype e rpc_number ret infos closures connection w =
      pure (overwrite (copied_bytes rtype e) ret e.word, closures, connection) w
  return_element client rtype e rpc_real ret infos closures connection w =
      pure (overwrite (copied_bytes rtype e) ret e.word, closures, connection) w
  return_element client rtype e rpc_string ret infos closures connection w =
      pure (e.word, closures, connection) w
  return_element client rtype e rpc_unknown ret infos closures connection w =
      pure (e.word, closures, connection) w
  return_element client rtype e t ret infos closures connection w =
      return_pointer client t e.word ret infos closures connection w

  -- A reply: its type has to be the one of the function.
  unfoldable pub read_return :
      Client
      → Closure
      → (reply ret : ℕ) → L.by_ptr.Map Bool
      → List Closure
      → State
      → Cmd L (ℕ × List Closure × State)
  unfolding type_of load_function get_internal return_element
  read_return client closure reply ret infos closures connection = do
    return_type ← type_of reply "return"
    f ← load_function closure.fetched_fn
    if not (same_type return_type f.return_type) then (λ w. fault) else (do
      e ← get_internal reply "return"
      return_element client closure.rtype e return_type ret infos closures connection)

  -- `call_rpc_closure`: the new bytes of the result. Without a reply they stay as they are. The
  -- object is locked from the start to the end.
  unfoldable pub call_rpc_closure :
      (text_at : ℕ → String)
      → Client
      → Closure
      → (args : List ℕ) → (ret : ℕ) → List Closure
      → State
      → Cmd L (ℕ × List Closure × State)
  unfolding load load_function call_request read_return free
  call_rpc_closure text_at client closure args ret closures connection = do
    load closure.cobj
    f ← load_function closure.fetched_fn
    request ← call_request malloc random_id decimal text_at closure f args
    reply ← method_request request.0 connection
    r ←
        (if reply.0 == 0 then pure (ret, closures, reply.1) else (do
          given ← read_return client closure reply.0 ret request.1 closures reply.1
          free reply.0
          pure given))
    load closure.cobj
    pure r
