-- ===== src/Invoke.antt =====
-- `rpc_cobject_call` of src/rpc_object.c. libffi is the argument `ffi`, whose call also takes and
-- gives the static variables, since the called function may make calls itself; the text at an
-- address is `text_at`, `sprintf` with "%d" is `decimal`, and with "%s : %s" it is `cache_key`. The
-- table of prototypes is a map to their types: what its struct holds are addresses of arrays.
pub mod Errors
pub mod Cached
pub mod Accepted
pub mod Answered
use ffi_rpc.Base.{
  ℕ, zero, suc, ◌+◌, Bool, false, none, some, List, [], ◌∷◌, String, nat_eq, string_eq, ◌==◌, ltb,
  if◌then◌else◌, ◌&&◌, not, take,
}
use ffi_rpc.Base
use ffi_rpc.Types.{RpcType, Element, rpc_none, rpc_number, rpc_real, rpc_unknown, is_pointer}
use ffi_rpc.Ext.Libs.{Libs}
use ffi_rpc.World.{RpcFunction}
use ffi_rpc.World.Cmd.{fault, pure, ◌>>=◌, ◌>>◌}
use ffi_rpc.Struct.{Cmd}
use ffi_rpc.Struct.Api.{type_of, set_internal}
use ffi_rpc.Struct.Api
use ffi_rpc.Objects.{cells, load_function}
use ffi_rpc.Calls.{proto_equals}
use ffi_rpc.CallStack.{push, pop}
use ffi_rpc.Typed.{function_t, uint64_t, get, get_unsafe}
use ffi_rpc.Registry.{Objects, id_get}

-- `enum rpc_server_errors`
pub data ServerError : Type 0 where
  err_ok err_prototype_different err_variadic_not_allowed err_doesnt_exist : ServerError

pub data FfiType : Type 0 where
  ffi_void ffi_uint64 ffi_double ffi_pointer : FfiType

-- `rpctype_to_libffi`
unfoldable pub rpctype_to_libffi : RpcType → FfiType
rpctype_to_libffi rpc_none = ffi_void
rpctype_to_libffi rpc_number = ffi_uint64
rpctype_to_libffi rpc_real = ffi_double
rpctype_to_libffi _ = ffi_pointer

-- Whether the result of a call goes into the output.
unfoldable pub is_returned : RpcType → ℕ → Bool
unfolding is_pointer
is_returned rpc_none ffi_return = false
is_returned rpc_unknown ffi_return = false
is_returned t ffi_return = not (is_pointer t && (ffi_return == 0))

-- The element of the result.
unfoldable pub returned : (text_at : ℕ → String) → RpcType → ℕ → Element
unfolding is_pointer
returned text_at t ffi_return =
    if is_pointer t
    then record { word = ffi_return; text = text_at ffi_return; length = 0; type = t }
    else record { word = ffi_return; text = ""; length = 8; type = t }

-- The static variables: the registry and the local objects of Registry, the cache of prototypes, and
-- `RO_object_stack`.
pub record Calling (L : Libs) : Type 0 where
  pub objects : Objects
  pub protocache : L.by_name.Map (List FfiType)
  pub object_stack : L.queues.Queue ℕ

-- libffi: whether `ffi_prep_cif_var` returns FFI_OK for the fixed and all arguments, the type of the
-- result and those of the arguments, and `ffi_call` with that `ffi_cif`, an address and the words of
-- the arguments.
pub record LibFfi (L : Libs) : Type 0 where
  pub prep_cif_var :
      (nfixedargs ntotalargs : ℕ) → (rtype : FfiType) → (atypes : List FfiType) → Bool
  pub call :
      ℕ → (rtype : FfiType) → (atypes : List FfiType) → List ℕ → Calling L → Cmd L (ℕ × Calling L)

module _ {L : Libs} (decimal : ℕ → String) (cache_key : String → String → String)
    (text_at : ℕ → String) (ffi : LibFfi L) where
  -- The loop that makes a prototype, from index `i` on with `rest` elements left.
  unfoldable pub ffi_types : (params i rest : ℕ) → Cmd L (List FfiType)
  ffi_types params i zero = pure []
  ffi_types params i (suc rest) = do
    t ← type_of params (decimal i)
    ts ← ffi_types params (i + 1) rest
    pure (rpctype_to_libffi t ∷ ts)

  -- The loop that reads the arguments. A missing one stays 0.
  unfoldable pub ffi_arguments : (params i rest : ℕ) → Cmd L (List ℕ)
  ffi_arguments params i zero = pure []
  ffi_arguments params i (suc rest) = do
    v ← get_unsafe params (decimal i) (record { ctype = uint64_t; bits = 0; text = "" })
    vs ← ffi_arguments params (i + 1) rest
    pure (v.1.bits ∷ vs)

  -- The cached prototype, or a new one, which is put into the cache.
  unfoldable pub ffi_prototype :
      (cache_prototype : String) → (params : ℕ) → Calling L → Cmd L (List FfiType × Calling L)
  unfolding ffi_types Api.length
  ffi_prototype cache_prototype params c = elim (L.by_name.get c.protocache cache_prototype) [
    | some types ↦ pure (types, c)
    | none ↦ (do
      n ← Api.length params
      types ← ffi_types params 0 n
      pure (types, record c { protocache = (L.by_name.put c.protocache cache_prototype types).0 }))
  ]

  -- What is stored in the output. The function is read again, since the call may have changed it.
  unfoldable pub give_back : (fn ffi_return output : ℕ) → Cmd L (Unit {0})
  unfolding load_function is_returned returned set_internal
  give_back fn ffi_return output = do
    f ← load_function fn
    if is_returned f.return_type ffi_return
        then (do set_internal output "return" (returned text_at f.return_type ffi_return); pure tt)
        else pure tt

  -- The part of `rpc_cobject_call` behind `ffi_prep_cif_var`.
  unfoldable pub call_prepared :
      (cobj fn : ℕ)
      → RpcFunction
      → List FfiType
      → (params output : ℕ) → Calling L
      → Cmd L (ServerError × Calling L)
  unfolding ffi_arguments give_back
  call_prepared cobj fn f types params output c = do
    n ← Api.length params
    args ← ffi_arguments params 0 n
    let stack = push L.queues cobj c.object_stack
    r ←
        ffi.call f.fnptr (rpctype_to_libffi f.return_type) types args
          (record c { object_stack = stack })
    give_back fn r.0 output
    pure (err_ok, record r.1 { object_stack = pop L.queues r.1.object_stack })

  -- The part of `rpc_cobject_call` behind the check of the arguments. libffi reads as many types as
  -- there are arguments, and a prototype that it refuses fails an `assert`.
  unfoldable pub call_checked :
      (cobj fn : ℕ)
      → RpcFunction
      → (fn_name : String) → (params output : ℕ) → Calling L
      → Cmd L (ServerError × Calling L)
  unfolding call_prepared
  call_checked cobj fn f fn_name params output c = do
    id ← id_get cobj
    p ← ffi_prototype (cache_key id fn_name) params c
    n ← Api.length params
    if ltb (Base.length p.0) n
        then (λ w. fault)
        else if ffi.prep_cif_var f.prototype_len n (rpctype_to_libffi f.return_type) (take n p.0)
        then call_prepared cobj fn f (take n p.0) params output p.1
        else (λ w. fault)

  -- `rpc_cobject_call`
  unfoldable pub cobject_call :
      (cobj : ℕ)
      → (fn_name : String) → (params output : ℕ) → Calling L
      → Cmd L (ServerError × Calling L)
  cobject_call cobj fn_name params output c = if cobj == 0 then pure (err_doesnt_exist, c) else (do
    fn ← get cobj fn_name (record { ctype = function_t; bits = 0; text = "" })
    if fn.0 == 0
        then (do
          f ← load_function fn.1.bits
          fits ← proto_equals decimal params (take f.prototype_len (cells f.prototype))
          if fits
              then call_checked cobj fn.1.bits f fn_name params output c
              else pure (err_prototype_different, c))
        else pure (err_doesnt_exist, c))
