-- ===== src/Invoke/Errors.antt =====
-- Calls whose arguments are not those of the function.
use ffi_rpc.Base.{
  ℕ, ◌<◌, ◌≤◌, ◌^◌, ◌≡◌, ◌≢◌, refl, ap, ◌∙◌, Bool, false, some, List, String, nat_eq, ◌==◌,
  if◌then◌else◌, take, Bool-cases, inl, inr, arith,
}
use ffi_rpc.Base
use ffi_rpc.Types.{Element, RpcType, rpc_function, is_pointer}
use ffi_rpc.Ext.Libs.{Libs}
use ffi_rpc.World.{World, RpcStruct, RpcFunction, a_struct, a_function}
use ffi_rpc.World.Cmd.{Run, ok, pure}
use ffi_rpc.Struct.Observe.{slot, Kind, kind}
use ffi_rpc.Objects.{cells}
use ffi_rpc.Objects.Copies.{load_function-ok}
use ffi_rpc.Calls.{proto_equals}
use ffi_rpc.Calls.Prototype.{HasTypes, proto_equals-Checked}
use ffi_rpc.Typed.{Variable, function_t, ctype_to_rpc, size_of, fill, get}
use ffi_rpc.Typed.RoundTrip.{get-fill, fill-bits}
use ffi_rpc.Invoke.{
  LibFfi, ServerError, err_prototype_different, Calling, cobject_call, call_checked,
}

-- The types that the check compares with.
abbrev pub wanted : RpcFunction → List RpcType
wanted f = take f.prototype_len (cells f.prototype)

module _ {L : Libs} (cobj : ℕ) (fn_name : String) (params : ℕ) (w : World L) where
  -- A live function of a live object, and live arguments.
  pub record Callable (e : Element) (f : RpcFunction) (o : RpcStruct L) : Type 0 where
    pub object : kind w cobj ≡ Kind.struct
    pub object_nonnull : cobj ≢ 0
    pub held : slot w cobj fn_name ≡ some e
    pub typed : e.type ≡ rpc_function
    pub range : e.word < 256 ^ 8
    pub function : w.heap e.word ≡ some (a_function f)
    pub arguments : w.heap params ≡ some (a_struct o)
    pub arguments_nonnull : params ≢ 0

module _ {L : Libs} (decimal : ℕ → String) (cache_key : String → String → String)
    (text_at : ℕ → String) (ffi : LibFfi L) (cobj : ℕ) (fn_name : String) (params output : ℕ)
    (c : Calling L) (w : World L) where
  module _ (e : Element) (f : RpcFunction) (o : RpcStruct L)
      (can : Callable cobj fn_name params w e f o) where
    abbrev fn_var : Variable
    fn_var = record { ctype = function_t; bits = 0; text = "" }

    get-function : get cobj fn_name fn_var w ≡ ok (0, fill fn_var e) w
    unfolding ctype_to_rpc
    get-function = get-fill cobj fn_name fn_var e w can.object_nonnull can.object can.held can.typed

    bits : (fill fn_var e).bits ≡ e.word
    unfolding size_of is_pointer
    bits = fill-bits fn_var e refl (ap is_pointer can.typed) can.range (omega arith)

    abbrev checked : Bool → Run (World L) (ServerError × Calling L)
    checked fits =
        (if fits
            then call_checked decimal cache_key text_at ffi cobj e.word f fn_name params output c
            else pure (err_prototype_different, c))
          w

    -- The call up to the check.
    pub cobject_call-checked :
        (fits : Bool)
        → proto_equals decimal params (wanted f) w ≡ ok fits w
        → cobject_call decimal cache_key text_at ffi cobj fn_name params output c w ≡ checked fits
    unfolding cobject_call
    cobject_call-checked fits answer =
        let live : (cobj == 0) ≡ false = ground (arith, can.object_nonnull) in
        rw (live, get-function, bits, load_function-ok w e.word f can.function, answer) refl

    -- For a live function of a live object, if the arguments are fewer than its wanted types or
    -- one is of another type, rpc_cobject_call gives ERR_RPC_PROTOTYPE_DIFFERENT, runs nothing,
    -- and changes neither the memory nor the cache nor the stack.
    pub cobject_call-refuses :
        ¬ ((Base.length (wanted f) ≤ L.by_name.size o.map) × HasTypes decimal params w 0 (wanted f))
        → cobject_call decimal cache_key text_at ffi cobj fn_name params output c w
          ≡ ok (err_prototype_different, c) w
    cobject_call-refuses wrong =
        let r =
          proto_equals-Checked decimal params w (wanted f) o can.arguments_nonnull can.arguments in
        let answer : proto_equals decimal params (wanted f) w ≡ ok false w =
          r.runs
          ∙ ap (λ (b : Bool). ok b w)
              (elim (Bool-cases r.answer) [
                | inl accepted ↦ absurd (wrong (r.accepts.0 accepted))
                | inr refused ↦ refused
              ]) in
        cobject_call-checked false answer
