-- ===== src/Invoke/Accepted.antt =====
-- Calls that pass the check: what libffi is given, for a new and for a cached prototype.
use ffi_rpc.Base.{
  ℕ, ◌<◌, ◌≤◌, ◌≡◌, refl, sym, ap, ◌∙◌, Bool, true, false, none, some, List, String, string_eq, ltb,
  take, take-length, arith,
}
use ffi_rpc.Base
use ffi_rpc.Ext.Libs.{Libs}
use ffi_rpc.World.{World, RpcStruct, RpcFunction, a_struct}
use ffi_rpc.World.Cmd.{Run, ok, fault, and_then}
use ffi_rpc.Types.{Element}
use ffi_rpc.CallStack.{push}
use ffi_rpc.Calls.{proto_equals}
use ffi_rpc.Calls.Prototype.{HasTypes, proto_equals-Checked}
use ffi_rpc.Invoke.{
  rpctype_to_libffi, LibFfi, FfiType, ServerError, Calling, ffi_prototype, cobject_call,
}
use ffi_rpc.Invoke.Errors.{Callable, wanted, cobject_call-checked}
use ffi_rpc.Invoke.Cached.{
  types_at, words_at, length-types_at, finish, reached, call_checked-ok, ffi_prototype-cached,
  ffi_prototype-new,
}

module _ {L : Libs} (decimal : ℕ → String) (cache_key : String → String → String)
    (text_at : ℕ → String) (ffi : LibFfi L) (cobj : ℕ) (fn_name : String) (params output : ℕ)
    (c : Calling L) (w : World L) where
  module _ (e : Element) (f : RpcFunction) (o oc : RpcStruct L)
      (can : Callable cobj fn_name params w e f o) (is : w.heap cobj ≡ some (a_struct oc))
      (accepted : (Base.length (wanted f) ≤ L.by_name.size o.map)
        × HasTypes decimal params w 0 (wanted f)) where
    answer : proto_equals decimal params (wanted f) w ≡ ok true w
    answer =
        let r =
          proto_equals-Checked decimal params w (wanted f) o can.arguments_nonnull can.arguments in
        r.runs ∙ ap (λ (b : Bool). ok b w) (r.accepts.1 accepted)

    abbrev call : Run (World L) (ServerError × Calling L)
    call = cobject_call decimal cache_key text_at ffi cobj fn_name params output c w

    -- The call with the prototype that it finds or makes.
    call-reached :
        (types : List FfiType) (c' : Calling L)
        → ffi_prototype decimal cache_key text_at ffi (cache_key oc.id fn_name) params c w
          ≡ ok (types, c') w
        → call
          ≡ reached decimal params w o can.arguments can.arguments_nonnull cache_key text_at ffi
              cobj e.word f output types c'
    call-reached types c' made =
        cobject_call-checked decimal cache_key text_at ffi cobj fn_name params output c w e f o can
          true answer
        ∙ call_checked-ok decimal params w o can.arguments can.arguments_nonnull cache_key text_at
            ffi cobj e.word f fn_name output c c' oc types is made

    -- If the prototype cached for a live function of a live object has fewer types than the
    -- arguments have elements, and the arguments have the wanted types, rpc_cobject_call reads
    -- the prototype out of bounds.
    pub cobject_call-faults :
        (types : List FfiType)
        → L.by_name.get c.protocache (cache_key oc.id fn_name) ≡ some types
        → Base.length types < L.by_name.size o.map
        → call ≡ fault
    cobject_call-faults types hit short =
        let test : ltb (Base.length types) (L.by_name.size o.map) ≡ true = ground (arith, short) in
        call-reached types c (
          ffi_prototype-cached decimal params w o can.arguments can.arguments_nonnull cache_key
            text_at ffi (cache_key oc.id fn_name) c types hit)
        ∙ rw test refl

    -- The call of libffi for a new prototype, and the end of rpc_cobject_call.
    pub cobject_call-new :
        L.by_name.get c.protocache (cache_key oc.id fn_name) ≡ none
        → ffi.prep_cif_var f.prototype_len
            (L.by_name.size o.map)
            (rpctype_to_libffi f.return_type)
            (types_at decimal params w 0 (L.by_name.size o.map))
          ≡ true
        → call
          ≡ and_then
              (ffi.call f.fnptr
                (rpctype_to_libffi f.return_type)
                (types_at decimal params w 0 (L.by_name.size o.map))
                (words_at decimal params w 0 (L.by_name.size o.map))
                (record c {
                  protocache =
                      (L.by_name.put c.protocache
                        (cache_key oc.id fn_name)
                        (types_at decimal params w 0 (L.by_name.size o.map))).0;
                  object_stack = push L.queues cobj c.object_stack;
                })
                w)
              (finish decimal params w o can.arguments can.arguments_nonnull cache_key text_at ffi
                e.word output)
    cobject_call-new miss prepares =
        let n = L.by_name.size o.map in
        let types = types_at decimal params w 0 n in
        let size : Base.length types ≡ n = length-types_at decimal params w 0 n in
        let test : ltb (Base.length types) n ≡ false = ground (arith, size) in
        let all : take n types ≡ types =
          ap (λ (m : ℕ). take m types) (sym size) ∙ take-length types in
        call-reached types _ (
          ffi_prototype-new decimal params w o can.arguments can.arguments_nonnull cache_key text_at
            ffi (cache_key oc.id fn_name) c miss)
        ∙ rw (test, all, prepares) refl
