-- ===== src/Server.antt =====
-- The requests that src/rpc_server.c answers: its table of methods, the methods, and
-- `rpc_server_localnet_job`. A method is in the table by the address of its function, which the
-- linker gives. Text that is logged is left out.
pub mod Dispatch
pub mod Setup
pub mod Served
pub mod Connections
pub mod Ports
pub mod Jobs
use ffi_rpc.Base.{
  ℕ, ◌<◌, ◌^◌, ◌≡◌, ◌≢◌, Bool, true, false, Option, none, some, List, String, nat_eq, ◌==◌, not,
  if◌then◌else◌,
}
use ffi_rpc.Ext.Libs.{Libs}
use ffi_rpc.World.Cmd.{fault, pure, ◌>>=◌, ◌>>◌}
use ffi_rpc.Struct.{Cmd}
use ffi_rpc.Struct.Api.{create}
use ffi_rpc.Typed.{Variable, string_t, int32_t, other_t, set, get}
use ffi_rpc.Registry.{struct_var, cobject_get, lobjects_load}
use ffi_rpc.Invoke.{
  LibFfi, FfiType, ServerError, err_ok, err_prototype_different, err_doesnt_exist, Calling,
  cobject_call,
}

-- The functions of `RS_init_methods`.
pub data Method : Type 0 where
  a_ping a_disconnect a_get_cobject a_call an_is_cobject : Method

-- The addresses of functions, and what code there is at an address.
pub record Linker : Type 0 where
  pub address_of : Method → ℕ
  pub method_at : ℕ → Option Method
  pub at-address_of : (m : Method) → method_at (address_of m) ≡ some m
  pub nonnull : (m : Method) → address_of m ≢ 0
  pub range : (m : Method) → address_of m < 256 ^ 8

-- A `char*`, which is NULL or points at a text; a pointer to a function; an `int`.
abbrev pub null_text : Variable
null_text = record { ctype = string_t; bits = 0; text = "" }

abbrev pub text_var : String → Variable
text_var s = record { ctype = string_t; bits = 1; text = s }

abbrev pub code_var : ℕ → Variable
code_var p = record { ctype = other_t; bits = p; text = "" }

abbrev pub int_var : ℕ → Variable
int_var n = record { ctype = int32_t; bits = n; text = "" }

-- `RS_netports`, `RS_persondata` and `RS_methods`.
pub record Server : Type 0 where
  pub netports : ℕ
  pub persondata : ℕ
  pub methods : ℕ

-- `err != ERR_RPC_OK`
unfoldable pub failed : ServerError → Bool
failed err_ok = false
failed _ = true

-- The `switch` of `call`, whose default leaves NULL.
unfoldable pub error_text : ServerError → Variable
error_text err_doesnt_exist = text_var "ERR_RPC_DOESNT_EXIST"
error_text err_prototype_different = text_var "ERR_RPC_PROTOTYPE_DIFFERENT"
error_text _ = null_text

-- The value that `is_cobject` sends.
unfoldable pub found : ℕ → ℕ
found cobj = if cobj == 0 then 0 else 1

module _ {L : Libs} where
  -- `assert(... == 0)`: the program ends where it fails, as it does at a fault.
  unfoldable pub assert_zero : ℕ → Cmd L (Unit {0})
  assert_zero result = if result == 0 then pure tt else λ w. fault

  -- `RS_init_methods`
  unfoldable pub init_methods : Linker → (methods : ℕ) → Cmd L (Unit {0})
  unfolding set
  init_methods K methods = do
    set methods "ping" (code_var (K.address_of a_ping))
    set methods "disconnect" (code_var (K.address_of a_disconnect))
    set methods "get_object" (code_var (K.address_of a_get_cobject))
    set methods "call" (code_var (K.address_of a_call))
    set methods "is_cobject" (code_var (K.address_of an_is_cobject))
    pure tt

  -- `rpc_server_init`, for the addresses and IDs of the three structs. The pool is a parameter of
  -- what uses it.
  unfoldable pub server_init :
      Linker → (netports persondata methods : ℕ) → (ids : String × String × String) → Cmd L Server
  unfolding create init_methods
  server_init K netports persondata methods ids = do
    a ← create netports ids.0
    b ← create persondata ids.1
    c ← create methods ids.2
    init_methods K c
    pure (record { netports = a; persondata = b; methods = c })

module _ {L : Libs} where
  -- `ping`
  unfoldable pub ping : (reply : ℕ) → Calling L → Cmd L (ℕ × Calling L)
  unfolding set
  ping reply c = do set reply "pong" (text_var "pong"); pure (0, c)

  -- `disconnect`
  unfoldable pub disconnect : Calling L → Cmd L (ℕ × Calling L)
  disconnect c = pure (1, c)

  -- `is_cobject`
  unfoldable pub is_cobject : (request reply : ℕ) → Calling L → Cmd L (ℕ × Calling L)
  unfolding get cobject_get set assert_zero found
  is_cobject request reply c = do
    id ← get request "ID" null_text
    answer ←
        (if id.0 == 0
          then (do cobj ← cobject_get c.objects id.1.text; pure (found cobj))
          else pure 0)
    stored ← set reply "is_cobject" (int_var answer)
    assert_zero stored
    pure (0, c)

  -- `get_cobject` behind its first test.
  unfoldable pub send_object : (cobj reply : ℕ) → Calling L → Cmd L (ℕ × Calling L)
  unfolding set
  send_object cobj reply c =
      if cobj == 0
      then (do set reply "error" (text_var "ERR_RPC_DOESNT_EXIST"); pure (0, c))
      else (do set reply "object" (struct_var cobj); pure (0, c))

  -- `get_cobject`
  unfoldable pub get_cobject : (request reply : ℕ) → Calling L → Cmd L (ℕ × Calling L)
  unfolding get cobject_get send_object
  get_cobject request reply c = do
    name ← get request "object" null_text
    if name.0 == 0
        then (do cobj ← cobject_get c.objects name.1.text; send_object cobj reply c)
        else pure (1, c)

  -- The end of `call`: an error goes into the reply.
  unfoldable pub report : (reply : ℕ) → ServerError × Calling L → Cmd L (ℕ × Calling L)
  unfolding failed error_text set
  report reply r =
      if failed r.0 then (do set reply "error" (error_text r.0); pure (0, r.1)) else pure (0, r.1)

module _ {L : Libs} (decimal : ℕ → String) (cache_key : String → String → String)
    (text_at : ℕ → String) (ffi : LibFfi L) where
  -- `call` behind its tests.
  unfoldable pub call_object :
      (lobjects : ℕ)
      → (cobj_name fn_name : String) → (fn_params reply : ℕ) → Calling L
      → Cmd L (ℕ × Calling L)
  unfolding lobjects_load cobject_get cobject_call report
  call_object lobjects cobj_name fn_name fn_params reply c = do
    let loaded = record c { objects = lobjects_load c.objects lobjects }
    cobj ← cobject_get loaded.objects cobj_name
    r ← cobject_call decimal cache_key text_at ffi cobj fn_name fn_params reply loaded
    report reply r

  -- `call`
  unfoldable pub call : (person request reply : ℕ) → Calling L → Cmd L (ℕ × Calling L)
  unfolding get call_object
  call person request reply c = do
    lobjects ← get person "lobjects" (struct_var 0)
    cobj_name ← get request "object" null_text
    if not (cobj_name.0 == 0) then pure (1, c) else (do
      fn_name ← get request "function" null_text
      if not (fn_name.0 == 0) then pure (1, c) else (do
        fn_params ← get request "params" (struct_var 0)
        if not (fn_params.0 == 0)
            then pure (1, c)
            else call_object lobjects.1.bits cobj_name.1.text fn_name.1.text fn_params.1.bits reply
                c))

  -- The call of a handler.
  unfoldable pub run_method :
      Method → (person request reply : ℕ) → Calling L → Cmd L (ℕ × Calling L)
  run_method a_ping person request reply = ping reply
  run_method a_disconnect person request reply = disconnect
  run_method a_get_cobject person request reply = get_cobject request reply
  run_method a_call person request reply = call person request reply
  run_method an_is_cobject person request reply = is_cobject request reply

  -- The call of a function at an address.
  unfoldable pub run_at :
      Option Method → (person request reply : ℕ) → Calling L → Cmd L (ℕ × Calling L)
  run_at none person request reply c w = fault
  run_at (some m) person request reply c w = run_method m person request reply c w

  -- `rpc_server_localnet_job`
  unfoldable pub localnet_job :
      Linker → (methods person request reply : ℕ) → Calling L → Cmd L (ℕ × Calling L)
  unfolding get run_at
  localnet_job K methods person request reply c = do
    request_name ← get request "method" null_text
    if not (request_name.0 == 0) then pure (1, c) else (do
      request_handler ← get methods request_name.1.text (code_var 0)
      if not (request_handler.0 == 0) then pure (1, c) else (do
        request_params ← get request "params" (struct_var 0)
        run_at (K.method_at request_handler.1.bits) person request_params.1.bits reply c))
