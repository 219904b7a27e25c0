-- ===== src/Examples/Client.antt =====
-- A client calls "negate" of the calculator, and the reply, the struct at 2, has no "return".
use ffi_rpc.Base.{ℕ, ◌≡◌, refl, arith, true, [], ◌∷◌, List, map, String}
use ffi_rpc.Ext.Models.{example_libs}
use ffi_rpc.World.Cmd.{Run, ok, fault, out_of_fuel}
use ffi_rpc.Struct.{Cmd}
use ffi_rpc.Struct.{onzero_cb, record_origin, ctx_create_or_get}
use ffi_rpc.Struct.Api.{create, storable, stored}
use ffi_rpc.Types.{is_refcounted, freefn_of, same_type}
use ffi_rpc.Origins
use ffi_rpc.Objects.{load_function}
use ffi_rpc.Invoke.{ffi_uint64}
use ffi_rpc.Client.{Client, unconnected}
use ffi_rpc.Client.Closures.{Closure, closurefy, closurefy_function}
use ffi_rpc.Client.Calls.{call_request}
use ffi_rpc.Client.Returns.{call_rpc_closure}
use ffi_rpc.Client.Unanswered.{call_rpc_closure-faults}
use ffi_rpc.Examples.Structs.{W, world_of}
use ffi_rpc.Examples.Invoke.{memory, negate, decimal, no_text}
use ffi_rpc.Examples.StructJson.{malloc, new_id}

abbrev client : Client
client = record { connection = unconnected; loaded_cobjects = 9 }

abbrev negation : Closure
negation = record {
  udata = 50;
  callable_addr = 60;
  fn_name = "negate";
  fetched_fn = 4;
  cobj = 1;
  arg_types = ffi_uint64 ∷ [];
  rtype = ffi_uint64;
}

-- Every request is answered by the struct at 2.
abbrev answers_2 : ℕ → ℕ → Cmd example_libs (ℕ × ℕ)
answers_2 request connection w = ok (2, connection) w

unfoldable asking : W
unfolding call_request
asking = world_of (call_request malloc new_id decimal no_text negation negate (7 ∷ []) memory)

call_rpc_closure-faults_example :
    call_rpc_closure malloc new_id decimal
      (λ closures. (70, 80))
      (λ types type. true)
      90
      answers_2
      no_text
      client
      negation
      (7 ∷ [])
      0
      []
      0
      memory
    ≡ fault
unfolding asking call_request create storable stored is_refcounted freefn_of onzero_cb record_origin
    ctx_create_or_get Origins.add_origin Origins.create same_type
call_rpc_closure-faults_example =
    call_rpc_closure-faults malloc new_id decimal (λ closures. (70, 80)) (λ types type. true) 90
      answers_2 no_text client negation (7 ∷ []) 0 [] 0 memory asking asking _ negate negate _
      (2, 0) refl refl refl refl (omega arith) refl refl refl refl

-- The closures of the calculator's two functions, newest first.
abbrev names_of : Run W (List Closure) → List String
names_of (ok cs w) = map (λ c. c.fn_name) cs
names_of fault = []
names_of out_of_fuel = []

made_closures :
    names_of
      (closurefy malloc new_id decimal (λ closures. (70, 80)) (λ types type. true) 90 1 [] memory)
    ≡ "print" ∷ "negate" ∷ []
unfolding closurefy closurefy_function create storable stored is_refcounted freefn_of onzero_cb
    record_origin ctx_create_or_get Origins.add_origin Origins.create same_type
made_closures = refl

-- "negate" has the address of its closure.
negate_called :
    load_function 4 (
      world_of (
        closurefy malloc new_id decimal (λ closures. (70, 80)) (λ types type. true) 90 1 [] memory))
    ≡ ok
        (record negate { fnptr = 80 })
        (world_of (
          closurefy malloc new_id decimal
            (λ closures. (70, 80))
            (λ types type. true)
            90
            1
            []
            memory))
unfolding load_function closurefy closurefy_function create storable stored is_refcounted freefn_of
    onzero_cb record_origin ctx_create_or_get Origins.add_origin Origins.create same_type
negate_called = refl
