-- ===== src/Client/Closures.antt =====
-- `closurefy` and `cobj_destructor` of src/rpc_client.c. The functions of an object become closures
-- of libffi: `place` gives the addresses of the next closure's data and of its code, and `prep_cif`
-- says whether `ffi_prep_cif` accepts the types. Closures lie outside the memory of structs.
use ffi_rpc.Base.{
  ℕ, suc, Bool, List, [], ◌∷◌, String, nat_eq, ◌==◌, ltb, not, if◌then◌else◌, ◌||◌, take, map,
}
use ffi_rpc.Base
use ffi_rpc.Types.{rpc_function, same_type}
use ffi_rpc.Ext.Libs.{Libs}
use ffi_rpc.World.{World, RpcFunction}
use ffi_rpc.World.Cmd.{fault, pure, ◌>>=◌, ◌>>◌}
use ffi_rpc.Struct.{Cmd}
use ffi_rpc.Struct.Api.{keys, type_of, add_destructor}
use ffi_rpc.Objects.{cells, load_function, set_fnptr}
use ffi_rpc.Typed.{Variable, function_t, set, get}
use ffi_rpc.Registry.{struct_var}
use ffi_rpc.Invoke.{FfiType, rpctype_to_libffi}
use ffi_rpc.Server.{code_var, assert_zero}
use ffi_rpc.Client.{new_struct}

-- `struct rpc_closure_udata` at the address `udata`, with what its `cif` says. Its client is the one
-- client, and its lock is left out.
pub record Closure : Type 0 where
  pub udata : ℕ
  pub callable_addr : ℕ
  pub fn_name : String
  pub fetched_fn : ℕ
  pub cobj : ℕ
  pub arg_types : List FfiType
  pub rtype : FfiType

-- A variable of type `rpc_function_t`.
abbrev pub function_var : ℕ → Variable
function_var p = record { ctype = function_t; bits = p; text = "" }

module _ {L : Libs} (malloc : World L → ℕ) (random_id : World L → String) (decimal : ℕ → String)
    (place : List Closure → ℕ × ℕ) (prep_cif : List FfiType → FfiType → Bool) (destructor : ℕ) where
  -- The closure of a function, whose prototype is read out of bounds if it is too short.
  unfoldable pub make_closure :
      (cobj fn : ℕ) → (key : String) → RpcFunction → List Closure → Cmd L Closure
  make_closure cobj fn key f closures =
      let ffi_prototype = map rpctype_to_libffi (take f.prototype_len (cells f.prototype)) in
      let ffi_return = rpctype_to_libffi f.return_type in
      if ltb (Base.length (cells f.prototype)) f.prototype_len
        || not (prep_cif ffi_prototype ffi_return)
      then (λ w. fault)
      else pure (record {
        udata = (place closures).0;
        callable_addr = (place closures).1;
        fn_name = key;
        fetched_fn = fn;
        cobj = cobj;
        arg_types = ffi_prototype;
        rtype = ffi_return;
      })

  -- A round of the loop for a function.
  unfoldable pub closurefy_function :
      (cobj cif_storage i : ℕ) → (key : String) → List Closure → Cmd L (List Closure)
  unfolding get assert_zero load_function make_closure set_fnptr set
  closurefy_function cobj cif_storage i key closures = do
    fn ← get cobj key (function_var 0)
    assert_zero fn.0
    f ← load_function fn.1.bits
    closure ← make_closure cobj fn.1.bits key f closures
    set_fnptr fn.1.bits closure.callable_addr
    set cif_storage (decimal i) (code_var closure.udata)
    pure (closure ∷ closures)

  -- The loop of `closurefy`, from index `i` on.
  unfoldable pub closurefy_keys :
      (cobj cif_storage i : ℕ) → List String → List Closure → Cmd L (List Closure)
  unfolding type_of closurefy_function
  closurefy_keys cobj cif_storage i [] closures = pure closures
  closurefy_keys cobj cif_storage i (key ∷ cobj_keys) closures = do
    t ← type_of cobj key
    made ←
        (if same_type t rpc_function
          then closurefy_function cobj cif_storage i key closures
          else pure closures)
    closurefy_keys cobj cif_storage (suc i) cobj_keys made

  -- `closurefy`, with the closures there are, newest first. The results of storing are not read.
  unfoldable pub closurefy : (cobj : ℕ) → List Closure → Cmd L (List Closure)
  unfolding keys closurefy_keys set add_destructor
  closurefy cobj closures = do
    cobj_keys ← keys cobj
    cif_storage ← new_struct malloc random_id
    made ← closurefy_keys cobj cif_storage 0 cobj_keys closures
    set cobj "cif_storage" (struct_var cif_storage)
    add_destructor cif_storage destructor
    pure made

module _ {L : Libs} where
  -- The loop of `cobj_destructor`: the addresses of the closures' data, which it frees.
  unfoldable pub freed_closures : (cobj : ℕ) → List String → Cmd L (List ℕ)
  unfolding get assert_zero
  freed_closures cobj [] = pure []
  freed_closures cobj (key ∷ rest) = do
    closure_data ← get cobj key (code_var 0)
    assert_zero closure_data.0
    later ← freed_closures cobj rest
    pure (closure_data.1.bits ∷ later)

  -- `cobj_destructor`, for one thread: it locks the struct a second time at its end.
  unfoldable pub cobj_destructor : (cobj : ℕ) → Cmd L (List ℕ)
  unfolding keys freed_closures
  cobj_destructor cobj = do cobj_keys ← keys cobj; freed_closures cobj cobj_keys
