-- ===== src/Examples/Server.antt =====
-- The registries at 1 and 2, the table of methods at 3, a request for the object "calculator" at 4 with
-- its parameters at 5, the object at 6, and a reply at 7.
use mathlib.Core.Option.{some-injective}
use ffi_rpc.Base.{
  sym, if◌then◌else◌, nat_eq, ◌==◌, ℕ, ◌≡◌, ◌≢◌, ◌<◌, ◌^◌, refl, ap, subst, arith, Option, none,
  some, String,
}
use ffi_rpc.Ext.Models.{example_libs}
use ffi_rpc.Types.{Element, rpc_string, is_refcounted, freefn_of}
use ffi_rpc.World.Cmd.{◌>>◌}
use ffi_rpc.Struct.{onzero_cb, record_origin, ctx_create_or_get}
use ffi_rpc.Struct.Api.{storable, stored}
use ffi_rpc.Struct.Observe.{slot}
use ffi_rpc.Struct.Invariant.{IsConsistent}
use ffi_rpc.Struct.Session.{
  creates, sets, perform, Session, start, call, empty_world, Session-IsConsistent,
  empty_world-IsConsistent,
}
use ffi_rpc.Origins
use ffi_rpc.Invoke.{Calling}
use ffi_rpc.Registry.{struct_var, cobject_get}
use ffi_rpc.Server.{
  Method, a_ping, a_disconnect, a_get_cobject, a_call, an_is_cobject, Linker, init_methods,
  localnet_job,
}
use ffi_rpc.Server.Dispatch.{IsReady, asked, method_of, text_in, struct_in, localnet_job-asked}
use ffi_rpc.Server.Setup.{Ready, init_methods-Ready}
use ffi_rpc.Server.Served.{Replied, get_object-Replied}
use ffi_rpc.Examples.Structs.{W, world_of, a_child}
use ffi_rpc.Examples.Invoke.{decimal, cache_key, no_text, answers, fresh}

abbrev address : Method → ℕ
address a_ping = 101
address a_disconnect = 102
address a_get_cobject = 103
address a_call = 104
address an_is_cobject = 105

abbrev code_at : ℕ → Option Method
code_at p =
    if p == 101
    then some a_ping
    else if p == 102
    then some a_disconnect
    else if p == 103
    then some a_get_cobject
    else if p == 104
    then some a_call
    else if p == 105
    then some an_is_cobject
    else none

code_at-address : (m : Method) → code_at (address m) ≡ some m
code_at-address a_ping = refl
code_at-address a_disconnect = refl
code_at-address a_get_cobject = refl
code_at-address a_call = refl
code_at-address an_is_cobject = refl

address-nonnull : (m : Method) → address m ≢ 0
address-nonnull a_ping = omega arith
address-nonnull a_disconnect = omega arith
address-nonnull a_get_cobject = omega arith
address-nonnull a_call = omega arith
address-nonnull an_is_cobject = omega arith

address-range : (m : Method) → address m < 256 ^ 8
address-range a_ping = omega arith
address-range a_disconnect = omega arith
address-range a_get_cobject = omega arith
address-range a_call = omega arith
address-range an_is_cobject = omega arith

abbrev linker : Linker
linker = record {
  address_of = address;
  method_at = code_at;
  at-address_of = code_at-address;
  nonnull = address-nonnull;
  range = address-range;
}

abbrev a_text : String → Element
a_text s = record { word = 9; text = s; length = 0; type = rpc_string }

-- The memory before the table of methods is filled.
unfoldable before : W
unfolding perform storable stored is_refcounted freefn_of onzero_cb record_origin ctx_create_or_get
    Origins.add_origin Origins.create
before = world_of (
    (do
      perform (creates 1 "N")
      perform (creates 2 "I")
      perform (creates 3 "M")
      perform (creates 4 "Q")
      perform (creates 5 "P")
      perform (creates 6 "C")
      perform (creates 7 "R")
      perform (sets 4 "method" (a_text "get_object"))
      perform (sets 4 "params" (a_child 5))
      perform (sets 5 "object" (a_text "calculator"))
      perform (sets 1 "calculator" (a_child 6)))
      empty_world)

before-Session : Session empty_world before
unfolding before
before-Session =
    call (sets 1 "calculator" (a_child 6)) 0
      (call (sets 5 "object" (a_text "calculator")) 0
        (call (sets 4 "params" (a_child 5)) 0
          (call (sets 4 "method" (a_text "get_object")) 0
            (call (creates 7 "R") 7
              (call (creates 6 "C") 6
                (call (creates 5 "P") 5
                  (call (creates 4 "Q") 4
                    (call (creates 3 "M") 3
                      (call (creates 2 "I") 2
                        (call (creates 1 "N") 1 start (omega arith, refl, refl) refl)
                        (omega arith, refl, refl) refl)
                      (omega arith, refl, refl) refl)
                    (omega arith, refl, refl) refl)
                  (omega arith, refl, refl) refl)
                (omega arith, refl, refl) refl)
              (omega arith, refl, refl) refl)
            (refl, λ _ h. absurd (ground (arith, h))) refl)
          (refl, λ _ _. refl) refl)
        (refl, λ _ h. absurd (ground (arith, h))) refl)
      (refl, λ _ _. refl) refl

before-IsConsistent : IsConsistent before
before-IsConsistent = Session-IsConsistent empty_world-IsConsistent before-Session

filled : Ready linker 3 (init_methods linker 3 before)
unfolding before
filled = init_methods-Ready linker 3 before (omega arith) before-IsConsistent refl (λ name. refl)

-- The memory with the table.
unfoldable memory : W
unfolding before init_methods
memory = world_of (init_methods linker 3 before)

memory-IsConsistent : IsConsistent memory
unfolding memory
memory-IsConsistent =
    subst (λ (w : W). IsConsistent w) (sym (ap world_of filled.runs)) filled.consistent

memory-IsReady : IsReady linker 3 memory
unfolding memory
memory-IsReady = subst (λ (w : W). IsReady linker 3 w) (sym (ap world_of filled.runs)) filled.ready

abbrev calling : Calling example_libs
calling = record fresh {
  objects = record { cobject_bname = 1; cobject_bid = 2; protocache = 0; lobjects = 0 };
}

init_methods-Ready_example : Ready linker 3 (init_methods linker 3 before)
unfolding before
init_methods-Ready_example =
    init_methods-Ready linker 3 before (omega arith) before-IsConsistent refl (λ name. refl)

params-range : (e : Element) → slot memory 4 "params" ≡ some e → e.word < 256 ^ 8
unfolding memory
params-range e at = subst (λ x. x.word < 256 ^ 8) (some-injective (a_child 5) e at) (omega arith)

localnet_job-asked_example :
    localnet_job decimal cache_key no_text answers linker 3 0 4 7 calling memory
    ≡ asked decimal cache_key no_text answers
        (method_of (text_in (slot memory 4 "method")))
        0
        (struct_in (slot memory 4 "params"))
        7
        calling
        memory
localnet_job-asked_example =
    localnet_job-asked decimal cache_key no_text answers linker 3 0 4 7 calling memory
      memory-IsReady (omega arith) (unfold memory in refl) (omega arith) (unfold memory in refl)
      params-range

get_object-Replied_example :
    Replied 7 "object"
      (struct_var 6)
      calling
      memory
      (localnet_job decimal cache_key no_text answers linker 3 0 4 7 calling memory)
unfolding memory cobject_get
get_object-Replied_example =
    get_object-Replied decimal cache_key no_text answers linker 3 0 4 5 7 6 "calculator" calling
      memory memory-IsReady (omega arith) refl (omega arith) refl params-range refl refl
      (omega arith) refl refl refl memory-IsConsistent (omega arith) refl refl (λ _. refl)
