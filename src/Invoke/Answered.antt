-- ===== src/Invoke/Answered.antt =====
-- What a call leaves: the result of the function goes into the output, as far as there is one.
use ffi_rpc.Base.{
  ℕ, ◌≤◌, ◌≡◌, ◌≢◌, refl, ap, ◌∙◌, Bool, true, false, none, some, List, String, string_eq, nat_eq,
  ◌==◌, ◌&&◌, not, if◌then◌else◌, arith, Bool-cases, inl, inr,
}
use ffi_rpc.Base
use ffi_rpc.Types.{
  RpcType, Element, rpc_none, rpc_number, rpc_real, rpc_unknown, is_pointer, is_refcounted,
  freefn_of,
}
use ffi_rpc.Ext.Libs.{Libs}
use ffi_rpc.World.{World, RpcStruct, RpcFunction, a_struct, a_function}
use ffi_rpc.World.Cmd.{Run, ok}
use ffi_rpc.Struct.Observe.{Kind, kind, slot, Fits}
use ffi_rpc.Struct.Invariant.{IsConsistent}
use ffi_rpc.Struct.Api.{stored, storable}
use ffi_rpc.Struct.Store.{set_internal-Stored}
use ffi_rpc.Objects.Copies.{load_function-ok}
use ffi_rpc.CallStack.{push, pop}
use ffi_rpc.Calls.Prototype.{HasTypes}
use ffi_rpc.Invoke.{
  LibFfi, err_ok, Calling, rpctype_to_libffi, is_returned, returned, give_back, cobject_call,
}
use ffi_rpc.Invoke.Errors.{Callable, wanted}
use ffi_rpc.Invoke.Cached.{types_at, words_at}
use ffi_rpc.Invoke.Accepted.{cobject_call-new}

-- Whether there is a result: not for nothing, for an unknown pointer, or for NULL.
abbrev pub has_result : RpcType → ℕ → Bool
has_result rpc_none ret = false
has_result rpc_unknown ret = false
has_result rpc_number ret = true
has_result rpc_real ret = true
has_result _ ret = not (ret == 0)

-- The element that holds a result; the text at an address is `text_at`.
abbrev pub result : (text_at : ℕ → String) → RpcType → ℕ → Element
result text_at rpc_number ret = record { word = ret; text = ""; length = 8; type = rpc_number }
result text_at rpc_real ret = record { word = ret; text = ""; length = 8; type = rpc_real }
result text_at t ret = record { word = ret; text = text_at ret; length = 0; type = t }

is_returned_lem : (t : RpcType) (ret : ℕ) → is_returned t ret ≡ has_result t ret
unfolding is_returned is_pointer
is_returned_lem rpc_none ret = refl
is_returned_lem _ ret = refl

returned_lem :
    (text_at : ℕ → String) (t : RpcType) (ret : ℕ)
    → has_result t ret ≡ true
    → returned text_at t ret ≡ result text_at t ret
unfolding returned is_pointer
returned_lem text_at rpc_none ret h = absurd (ground (arith, h))
returned_lem text_at _ ret h = refl

result-storable :
    (text_at : ℕ → String) (t : RpcType) (ret : ℕ)
    → has_result t ret ≡ true
    → storable (result text_at t ret) ≡ true
unfolding storable is_pointer
result-storable text_at rpc_none ret h = absurd (ground (arith, h))
result-storable text_at _ ret h = ground (arith, h)

module _ {L : Libs} (decimal : ℕ → String) (cache_key : String → String → String)
    (text_at : ℕ → String) (ffi : LibFfi L) (output ret : ℕ) (g : RpcFunction) (v : World L) where
  -- The output has the result under "return", and no other slot changes.
  pub record Given (m : Run (World L) (Unit {0})) : Type 0 where
    pub world : World L
    pub runs : m ≡ ok tt world
    pub consistent : IsConsistent world
    pub slots :
        (a : ℕ) (j : String)
        → slot world a j ≡ (
            if has_result g.return_type ret
            then if (output == a) && ("return" == j)
              then some (stored (result text_at g.return_type ret))
              else slot v a j
            else slot v a j)

  result-Fits :
      (t : RpcType)
      → (is_refcounted t ≡ true → Fits (freefn_of t) (kind v ret))
      → is_refcounted (result text_at t ret).type ≡ true
      → Fits (freefn_of (result text_at t ret).type) (kind v (result text_at t ret).word)
  result-Fits rpc_number f = f
  result-Fits _ f = f

  give_back-Given :
      (fn : ℕ)
      → v.heap fn ≡ some (a_function g)
      → IsConsistent v
      → kind v output ≡ Kind.struct
      → slot v output "return" ≡ none
      → (has_result g.return_type ret ≡ true
          → is_refcounted g.return_type ≡ true
          → Fits (freefn_of g.return_type) (kind v ret))
      → Given (give_back decimal cache_key text_at ffi fn ret output v)
  unfolding give_back
  give_back-Given fn there inv is absent fits = elim (Bool-cases (has_result g.return_type ret)) [
    | inr nothing ↦
        let test : is_returned g.return_type ret ≡ false =
          is_returned_lem g.return_type ret ∙ nothing in
        record {
          world = v;
          runs = rw (load_function-ok v fn g there, test) refl;
          consistent = inv;
          slots = λ a j. rw nothing refl;
        }
    | inl something ↦
        let test : is_returned g.return_type ret ≡ true =
          is_returned_lem g.return_type ret ∙ something in
        let e = result text_at g.return_type ret in
        let r =
          set_internal-Stored output "return" e v inv is absent
            (result-storable text_at g.return_type ret something)
            (result-Fits g.return_type (fits something)) in
        record {
          world = r.world;
          runs =
              rw
                (
                  load_function-ok v fn g there,
                  test,
                  returned_lem text_at g.return_type ret something,
                  r.runs,
                )
                refl;
          consistent = r.consistent;
          slots = λ a j. rw something (r.slots a j);
        }
  ]

module _ {L : Libs} (decimal : ℕ → String) (cache_key : String → String → String)
    (text_at : ℕ → String) (ffi : LibFfi L) (cobj : ℕ) (fn_name : String) (params output : ℕ)
    (c : Calling L) (w : World L) where
  -- The outcome of a call whose function returned `ret` and left the variables `left` and the memory
  -- `v`: the object that came first on the stack is off it, and the output has the result.
  pub record Answered (ret : ℕ) (g : RpcFunction) (left : Calling L) (v : World L) : Type 0 where
    pub world : World L
    pub runs :
        cobject_call decimal cache_key text_at ffi cobj fn_name params output c w
        ≡ ok (err_ok, record left { object_stack = pop L.queues left.object_stack }) world
    pub consistent : IsConsistent world
    pub slots :
        (a : ℕ) (j : String)
        → slot world a j ≡ (
            if has_result g.return_type ret
            then if (output == a) && ("return" == j)
              then some (stored (result text_at g.return_type ret))
              else slot v a j
            else slot v a j)

  module _ (e : Element) (f : RpcFunction) (o oc : RpcStruct L)
      (can : Callable cobj fn_name params w e f o) (is : w.heap cobj ≡ some (a_struct oc))
      (accepted : (Base.length (wanted f) ≤ L.by_name.size o.map)
        × HasTypes decimal params w 0 (wanted f)) where
    abbrev n : ℕ
    n = L.by_name.size o.map

    -- For a live function other than NULL of a live object whose wanted types the arguments have,
    -- with no prototype cached for it, where libffi accepts the prototype: rpc_cobject_call lets
    -- libffi call the function's address with the type and the word of each argument, in the order
    -- of the indices, with the prototype cached and the object on the stack. If the function leaves
    -- a consistent memory in which it is live and the live output has no "return", the call ends
    -- without a fault with ERR_RPC_OK, takes the first object off the stack, and puts the result
    -- under "return" into the output, unless the function returns nothing, an RPC_unknown or NULL; no
    -- other slot changes, and the memory is consistent. A result that counts references has to be
    -- of its type.
    pub cobject_call-Answered :
        (ret : ℕ) (g : RpcFunction) (left : Calling L) (v : World L)
        → L.by_name.get c.protocache (cache_key oc.id fn_name) ≡ none
        → ffi.prep_cif_var f.prototype_len n
            (rpctype_to_libffi f.return_type)
            (types_at decimal params w 0 n)
          ≡ true
        → ffi.call f.fnptr
            (rpctype_to_libffi f.return_type)
            (types_at decimal params w 0 n)
            (words_at decimal params w 0 n)
            (record c {
              protocache =
                  (L.by_name.put c.protocache
                    (cache_key oc.id fn_name)
                    (types_at decimal params w 0 n)).0;
              object_stack = push L.queues cobj c.object_stack;
            })
            w
          ≡ ok (ret, left) v
        → v.heap e.word ≡ some (a_function g)
        → IsConsistent v
        → kind v output ≡ Kind.struct
        → slot v output "return" ≡ none
        → (has_result g.return_type ret ≡ true
            → is_refcounted g.return_type ≡ true
            → Fits (freefn_of g.return_type) (kind v ret))
        → Answered ret g left v
    cobject_call-Answered ret g left v miss prepares calls there inv live absent fits =
        let r =
          give_back-Given decimal cache_key text_at ffi output ret g v e.word there inv live absent
            fits in
        record {
          world = r.world;
          runs =
              cobject_call-new decimal cache_key text_at ffi cobj fn_name params output c w e f o oc
                can is accepted miss prepares
              ∙ rw (calls, r.runs) refl;
          consistent = r.consistent;
          slots = r.slots;
        }
