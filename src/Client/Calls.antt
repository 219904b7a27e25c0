-- ===== src/Client/Calls.antt =====
-- `call_rpc_closure` of src/rpc_client.c: the call of a closure becomes a request. `args` are the words
-- that the arguments of libffi point at, `text_at` the text at an address, and `ret` the bytes of the result.
use ffi_rpc.Base.{
  ℕ, suc, ◌/◌, ◌*◌, ◌+◌, ◌%◌, ◌^◌, Bool, true, false, Option, none, some, List, [], ◌∷◌, String,
  nat_eq, ◌==◌, ltb, not, if◌then◌else◌, ◌||◌, ◌&&◌, take, is_some,
}
use ffi_rpc.Base
use ffi_rpc.Types.{RpcType, Element, no_free, rpc_none, rpc_number, rpc_real, is_string, is_unknown}
use ffi_rpc.Ext.Libs.{Libs}
use ffi_rpc.World.{World, RpcFunction, set_prec}
use ffi_rpc.World.Cmd.{ok, fault, pure, ◌>>=◌, ◌>>◌}
use ffi_rpc.Struct.{Cmd, prec_get}
use ffi_rpc.Struct.Api.{set_internal, is_tracked}
use ffi_rpc.Objects.{cells}
use ffi_rpc.Typed.{uint64_t, double_t, set}
use ffi_rpc.Registry.{struct_var, id_get}
use ffi_rpc.Invoke.{FfiType, ffi_void}
use ffi_rpc.Server.{text_var, assert_zero}
use ffi_rpc.Client.{new_struct}
use ffi_rpc.Client.Closures.{Closure}

-- `cif->rtype->size`
unfoldable pub size_of_ffi : FfiType → ℕ
size_of_ffi ffi_void = 1
size_of_ffi _ = 8

-- The bytes that `memcpy` puts into the result.
unfoldable pub copied_bytes : FfiType → Element → ℕ
unfolding size_of_ffi
copied_bytes rtype e = if ltb (size_of_ffi rtype) e.length then size_of_ffi rtype else e.length

module _ {L : Libs} where
  -- `ctx->free = NULL` on a pointer that is tracked with a context; nothing is done on another.
  unfoldable pub disable_free : ℕ → Cmd L (Unit {0})
  disable_free p w = elim (prec_get p w) [
    | none ↦ ok tt w
    | some r ↦ elim r.context [
      | none ↦ ok tt w
      | some ctx ↦
          ok tt (set_prec p (record r { context = some (record ctx { free = no_free }) }) w)
    ]
  ]

  -- `assert(ctx)`, for the context of a tracked pointer.
  unfoldable pub assert_context : ℕ → Cmd L (Unit {0})
  assert_context p w = elim (prec_get p w) [
    | none ↦ fault
    | some r ↦ if is_some r.context then ok tt w else fault
  ]

module _ {L : Libs} (malloc : World L → ℕ) (random_id : World L → String) (decimal : ℕ → String)
    (text_at : ℕ → String) where
  -- A pointer as argument, with `arg_info_storage`: whether the pointers were counted before.
  unfoldable pub put_pointer :
      (fn_args : ℕ)
      → (args_acc : String) → RpcType
      → (p : ℕ) → L.by_ptr.Map Bool
      → Cmd L (L.by_ptr.Map Bool)
  unfolding set_internal assert_zero assert_context disable_free is_tracked is_string is_unknown
  put_pointer fn_args args_acc t p infos = do
    was_refcounted ← λ w. ok (is_tracked p w) w
    stored ←
        set_internal fn_args args_acc (record { word = p; text = text_at p; length = 8; type = t })
    assert_zero stored
    (if not was_refcounted && not (is_string t) && not (is_unknown t)
        then (do assert_context p; disable_free p)
        else pure tt)
    pure (elim (L.by_ptr.get infos p) [
      | none ↦ (L.by_ptr.put infos p was_refcounted).0
      | some known ↦ infos
    ])

  -- The `switch` on the type of an argument.
  unfoldable pub put_argument :
      (fn_args : ℕ)
      → (args_acc : String) → RpcType
      → (word : ℕ) → L.by_ptr.Map Bool
      → Cmd L (L.by_ptr.Map Bool)
  unfolding set assert_zero put_pointer
  put_argument fn_args args_acc rpc_none word infos w = fault
  put_argument fn_args args_acc rpc_number word infos w =
      (do
        stored ← set fn_args args_acc (record { ctype = uint64_t; bits = word; text = "" })
        assert_zero stored
        pure infos)
        w
  put_argument fn_args args_acc rpc_real word infos w =
      (do
        stored ← set fn_args args_acc (record { ctype = double_t; bits = word; text = "" })
        assert_zero stored
        pure infos)
        w
  put_argument fn_args args_acc t word infos w = put_pointer fn_args args_acc t word infos w

  -- The loop over the arguments, from index `i` on; there are as many as types.
  unfoldable pub put_arguments :
      (fn_args i : ℕ)
      → List RpcType
      → (args : List ℕ) → L.by_ptr.Map Bool
      → Cmd L (L.by_ptr.Map Bool)
  unfolding put_argument
  put_arguments fn_args i [] args infos = pure infos
  put_arguments fn_args i (t ∷ ts) [] infos = λ w. fault
  put_arguments fn_args i (t ∷ ts) (word ∷ args) infos = do
    more ← put_argument fn_args (decimal i) t word infos
    put_arguments fn_args (suc i) ts args more

  -- The request of a call, with `arg_info_storage`.
  unfoldable pub call_request :
      Closure → RpcFunction → (args : List ℕ) → Cmd L (ℕ × L.by_ptr.Map Bool)
  unfolding put_arguments id_get set assert_zero
  call_request closure f args = do
    request ← new_struct malloc random_id
    call_request ← new_struct malloc random_id
    fn_args ← new_struct malloc random_id
    infos ←
        (if ltb (Base.length (cells f.prototype)) f.prototype_len
          then (λ w. fault)
          else put_arguments fn_args 0 (take f.prototype_len (cells f.prototype)) args
              (L.by_ptr.init Bool))
    id ← id_get closure.cobj
    a ← set call_request "object" (text_var id)
    assert_zero a
    b ← set call_request "function" (text_var closure.fn_name)
    assert_zero b
    c ← set call_request "params" (struct_var fn_args)
    assert_zero c
    d ← set request "method" (text_var "call")
    assert_zero d
    e ← set request "params" (struct_var call_request)
    assert_zero e
    pure (request, infos)
