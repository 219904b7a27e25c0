-- ===== src/Examples/Answered.antt =====
-- A calculator at 1 with its function at 4, the arguments of a call at 2, and the output at 3.
use ffi_rpc.Base.{refl, arith, [], ◌∷◌}
use ffi_rpc.Types.{is_refcounted, freefn_of}
use ffi_rpc.Ext.Models.{example_libs}
use ffi_rpc.World.{RpcStruct, a_function}
use ffi_rpc.CallStack.{push}
use ffi_rpc.Invoke.{Calling, ffi_uint64, rpctype_to_libffi}
use ffi_rpc.World.Cmd.{◌>>◌}
use ffi_rpc.Struct.{onzero_cb, record_origin, ctx_create_or_get}
use ffi_rpc.Struct.Api.{storable, stored}
use ffi_rpc.Struct.Invariant.{IsConsistent}
use ffi_rpc.Struct.Session.{
  creates, sets, perform, Session, start, call, empty_world, Session-IsConsistent,
  empty_world-IsConsistent,
}
use ffi_rpc.Origins
use ffi_rpc.Objects.{put_object}
use ffi_rpc.Objects.Allocation.{put-IsConsistent}
use ffi_rpc.Objects.Copies.{write-Puts}
use ffi_rpc.Invoke.Errors.{Callable}
use ffi_rpc.Invoke.Answered.{Answered, cobject_call-Answered}
use ffi_rpc.Examples.Structs.{W, world_of, a_number}
use ffi_rpc.Examples.Invoke.{
  decimal, cache_key, no_text, answers, fresh, negate, function_at, struct_of,
}

unfoldable with_arguments : W
unfolding perform storable stored is_refcounted
with_arguments = world_of (
    (do
      perform (creates 1 "C")
      perform (creates 2 "A")
      perform (creates 3 "O")
      perform (sets 2 "0" (a_number 7)))
      empty_world)

with_arguments-Session : Session empty_world with_arguments
unfolding with_arguments
with_arguments-Session =
    call (sets 2 "0" (a_number 7)) 0
      (call (creates 3 "O") 3
        (call (creates 2 "A") 2 (call (creates 1 "C") 1 start (omega arith, refl, refl) refl)
          (omega arith, refl, refl) refl)
        (omega arith, refl, refl) refl)
      (refl, λ _ h. absurd (ground (arith, h))) refl

unfoldable with_function : W
unfolding with_arguments
with_function = put_object 4 (a_function negate) with_arguments

with_function-IsConsistent : IsConsistent with_function
unfolding with_function
with_function-IsConsistent =
    put-IsConsistent with_arguments 4 (a_function negate) _
      (write-Puts with_arguments 4 (a_function negate))
      (Session-IsConsistent empty_world-IsConsistent with_arguments-Session) (omega arith) refl refl
      (λ k. refl)

unfoldable ready : W
unfolding with_function perform storable stored is_refcounted freefn_of onzero_cb record_origin
    ctx_create_or_get Origins.add_origin Origins.create
ready = world_of (perform (sets 1 "negate" (function_at 4)) with_function)

ready-IsConsistent : IsConsistent ready
unfolding ready
ready-IsConsistent =
    Session-IsConsistent with_function-IsConsistent
      (call (sets 1 "negate" (function_at 4)) 0 start (refl, λ _ _. refl) refl)

abbrev the_arguments : RpcStruct example_libs
the_arguments = struct_of "A" (("0", a_number 7) ∷ [])

-- What the call leaves: the prototype is cached, and the calculator is on the stack.
abbrev left : Calling example_libs
left = record fresh {
  protocache = (example_libs.by_name.put fresh.protocache "negate" (ffi_uint64 ∷ [])).0;
  object_stack = push example_libs.queues 1 fresh.object_stack;
}

can_negate : Callable 1 "negate" 2 ready (function_at 4) negate the_arguments
unfolding ready
can_negate = record {
  object = refl;
  object_nonnull = omega arith;
  held = refl;
  typed = refl;
  range = omega arith;
  function = refl;
  arguments = refl;
  arguments_nonnull = omega arith;
}

cobject_call-Answered_example :
    Answered decimal cache_key no_text answers 1 "negate" 2 3 fresh ready 42 negate left ready
unfolding ready rpctype_to_libffi
cobject_call-Answered_example =
    cobject_call-Answered decimal cache_key no_text answers 1 "negate" 2 3 fresh ready
      (function_at 4) negate _ _ can_negate refl (omega arith, (refl, tt)) 42 negate left ready refl
      refl refl refl ready-IsConsistent refl refl (λ _ counts. absurd (ground (arith, counts)))
