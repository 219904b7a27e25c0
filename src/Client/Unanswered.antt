-- ===== src/Client/Unanswered.antt =====
-- A call of a closure whose reply has no "return": the server sends such a reply for an error, and for a
-- function that returned NULL.
use ffi_rpc.Base.{ℕ, Bool, ◌≡◌, ◌≢◌, refl, false, none, some, List, String, nat_eq, ◌==◌, arith}
use ffi_rpc.Types.{rpc_none, same_type}
use ffi_rpc.Ext.Libs.{Libs}
use ffi_rpc.World.{World, RpcStruct, RpcFunction, a_struct, a_function}
use ffi_rpc.World.Cmd.{ok, fault}
use ffi_rpc.Struct.{Cmd}
use ffi_rpc.Struct.Observe.{Kind, kind, slot, load-ok, struct_of_kind}
use ffi_rpc.Objects.Copies.{load_function-ok}
use ffi_rpc.Invoke.{FfiType}
use ffi_rpc.Client.{Client}
use ffi_rpc.Client.Closures.{Closure}
use ffi_rpc.Client.Calls.{call_request}
use ffi_rpc.Client.Returns.{call_rpc_closure}

module _ {L : Libs} {State : Type 0} (malloc : World L → ℕ) (random_id : World L → String)
    (decimal : ℕ → String) (place : List Closure → ℕ × ℕ) (prep_cif : List FfiType → FfiType → Bool)
    (destructor : ℕ) (method_request : ℕ → State → Cmd L (ℕ × State)) where
  module _ (text_at : ℕ → String) (client : Client) (closure : Closure) (args : List ℕ) (ret : ℕ)
      (closures : List Closure) (connection : State) (w between answered : World L)
      (cobj : RpcStruct L) (f g : RpcFunction) (request : ℕ × L.by_ptr.Map Bool)
      (reply : ℕ × State) where
    -- If the request of a closure's call is made and the reply is a live struct without "return",
    -- call_rpc_closure fails an assertion, for every function that returns a value.
    pub call_rpc_closure-faults :
        w.heap closure.cobj ≡ some (a_struct cobj)
        → w.heap closure.fetched_fn ≡ some (a_function f)
        → call_request malloc random_id decimal text_at closure f args w ≡ ok request between
        → method_request request.0 connection between ≡ ok reply answered
        → reply.0 ≢ 0
        → kind answered reply.0 ≡ Kind.struct
        → slot answered reply.0 "return" ≡ none
        → answered.heap closure.fetched_fn ≡ some (a_function g)
        → same_type rpc_none g.return_type ≡ false
        → call_rpc_closure malloc random_id decimal place prep_cif destructor method_request text_at
            client closure args ret closures connection w
          ≡ fault
    unfolding call_rpc_closure
    call_rpc_closure-faults object function sends replies nz is absent there gives =
        let nonnull : (reply.0 == 0) ≡ false = ground (arith, nz) in
        let (o, live) = struct_of_kind (answered.heap reply.0) is in
        let missing : L.by_name.get o.map "return" ≡ none = rw live at absent in
        rw
          (
            load-ok closure.cobj w cobj object,
            load_function-ok w closure.fetched_fn f function,
            sends,
            replies,
            nonnull,
            load-ok reply.0 answered o live,
            missing,
            load_function-ok answered closure.fetched_fn g there,
            gives,
          )
          refl
