-- ===== src/Invoke/Cached.antt =====
-- The parts of a call that passes the check: the prototype and the arguments for libffi.
use ffi_rpc.Base.{
  Bool, true, false, ℕ, zero, suc, ◌+◌, ◌≡◌, ◌≢◌, refl, ap, none, some, List, [], ◌∷◌, String, ltb,
  if◌then◌else◌, take, Bool-cases, inl, inr,
}
use ffi_rpc.Base
use ffi_rpc.Ext.Libs.{Libs}
use ffi_rpc.World.{World, RpcStruct, RpcFunction, a_struct}
use ffi_rpc.World.Cmd.{Run, ok, fault, pure, and_then, ◌>>◌}
use ffi_rpc.Struct.{Cmd}
use ffi_rpc.Struct.Observe.{slot, load-ok}
use ffi_rpc.Struct.Api.{is_none}
use ffi_rpc.Struct.Api
use ffi_rpc.Struct.Reads.{element_or_none, type_in, get_internal-ok, type_of-ok}
use ffi_rpc.CallStack.{push, pop}
use ffi_rpc.Typed.{Variable, uint64_t, fill, get_unsafe}
use ffi_rpc.Registry.Lookup.{id_get-ok}
use ffi_rpc.Invoke.{
  LibFfi, FfiType, ServerError, err_ok, Calling, rpctype_to_libffi, ffi_types, ffi_arguments,
  ffi_prototype, give_back, call_prepared, call_checked,
}

abbrev pub zero_word : Variable
zero_word = record { ctype = uint64_t; bits = 0; text = "" }

module _ {L : Libs} (decimal : ℕ → String) (params : ℕ) (w : World L) where
  -- The types and the words of the elements named by the numbers from `i` on.
  abbrev pub types_at : (i rest : ℕ) → List FfiType
  types_at i zero = []
  types_at i (suc rest) =
      rpctype_to_libffi (type_in (slot w params (decimal i))) ∷ types_at (i + 1) rest

  abbrev argument : ℕ → Variable
  argument i =
      if is_none (element_or_none (slot w params (decimal i))).type
      then zero_word
      else fill zero_word (element_or_none (slot w params (decimal i)))

  abbrev pub words_at : (i rest : ℕ) → List ℕ
  words_at i zero = []
  words_at i (suc rest) = (argument i).bits ∷ words_at (i + 1) rest

  pub length-types_at : (i rest : ℕ) → Base.length (types_at i rest) ≡ rest
  length-types_at i zero = refl
  length-types_at i (suc rest) = ap suc (length-types_at (i + 1) rest)

  module _ (o : RpcStruct L) (live : w.heap params ≡ some (a_struct o)) (nz : params ≢ 0)
      (cache_key : String → String → String) (text_at : ℕ → String) (ffi : LibFfi L) where
    ffi_types-ok :
        (i rest : ℕ)
        → ffi_types decimal cache_key text_at ffi params i rest w ≡ ok (types_at i rest) w
    unfolding ffi_types
    ffi_types-ok i zero = refl
    ffi_types-ok i (suc rest) =
        rw (type_of-ok params (decimal i) w o live nz, ffi_types-ok (i + 1) rest) refl

    get_unsafe-ok :
        (i : ℕ)
        → get_unsafe params (decimal i) zero_word w
          ≡ ok
              (
                (if is_none (element_or_none (slot w params (decimal i))).type then 1 else 0),
                argument i,
              )
              w
    unfolding get_unsafe
    get_unsafe-ok i =
        elim (Bool-cases (is_none (element_or_none (slot w params (decimal i))).type)) [
          | inl missing ↦ rw (get_internal-ok params (decimal i) w o live nz, missing) refl
          | inr given ↦ rw (get_internal-ok params (decimal i) w o live nz, given) refl
        ]

    ffi_arguments-ok :
        (i rest : ℕ)
        → ffi_arguments decimal cache_key text_at ffi params i rest w ≡ ok (words_at i rest) w
    unfolding ffi_arguments
    ffi_arguments-ok i zero = refl
    ffi_arguments-ok i (suc rest) = rw (get_unsafe-ok i, ffi_arguments-ok (i + 1) rest) refl

    length-ok : Api.length params w ≡ ok (L.by_name.size o.map) w
    unfolding Api.length
    length-ok = rw (load-ok params w o live) refl

    -- How a call ends behind libffi.
    abbrev pub finish : (fn output : ℕ) → ℕ × Calling L → Cmd L (ServerError × Calling L)
    finish fn output r = do
      give_back decimal cache_key text_at ffi fn r.0 output
      pure (err_ok, record r.1 { object_stack = pop L.queues r.1.object_stack })

    -- libffi's part with that prototype.
    abbrev pub reached :
        (cobj fn : ℕ)
        → RpcFunction
        → (output : ℕ) → List FfiType
        → Calling L
        → Run (World L) (ServerError × Calling L)
    reached cobj fn f output types c =
        let n = L.by_name.size o.map in
        if ltb (Base.length types) n
        then fault
        else if ffi.prep_cif_var f.prototype_len n (rpctype_to_libffi f.return_type) (take n types)
        then and_then
            (ffi.call f.fnptr (rpctype_to_libffi f.return_type) (take n types) (words_at 0 n)
              (record c { object_stack = push L.queues cobj c.object_stack }) w)
            (finish fn output)
        else fault

    call_prepared-ok :
        (cobj fn : ℕ) (f : RpcFunction) (types : List FfiType) (output : ℕ) (c : Calling L)
        → call_prepared decimal cache_key text_at ffi cobj fn f types params output c w
          ≡ and_then
              (ffi.call f.fnptr
                (rpctype_to_libffi f.return_type)
                types
                (words_at 0 (L.by_name.size o.map))
                (record c { object_stack = push L.queues cobj c.object_stack })
                w)
              (finish fn output)
    unfolding call_prepared
    call_prepared-ok cobj fn f types output c =
        rw (length-ok, and_then, ffi_arguments-ok 0 (L.by_name.size o.map)) refl

    pub call_checked-ok :
        (cobj fn : ℕ) (f : RpcFunction) (fn_name : String) (output : ℕ) (c c' : Calling L)
        (oc : RpcStruct L) (types : List FfiType)
        → w.heap cobj ≡ some (a_struct oc)
        → ffi_prototype decimal cache_key text_at ffi (cache_key oc.id fn_name) params c w
          ≡ ok (types, c') w
        → call_checked decimal cache_key text_at ffi cobj fn f fn_name params output c w
          ≡ reached cobj fn f output types c'
    unfolding call_checked
    call_checked-ok cobj fn f fn_name output c c' oc types is made =
        let n = L.by_name.size o.map in
        let prepared =
          ffi.prep_cif_var f.prototype_len n (rpctype_to_libffi f.return_type) (take n types) in
        elim (Bool-cases (ltb (Base.length types) n)) [
          | inl short ↦ rw (id_get-ok cobj w oc is, and_then, made, length-ok, short) refl
          | inr enough ↦ elim (Bool-cases prepared) [
            | inl accepted ↦
                rw (id_get-ok cobj w oc is, and_then, made, length-ok, enough, accepted)
                  (call_prepared-ok cobj fn f (take n types) output c')
            | inr refused ↦
                rw (id_get-ok cobj w oc is, and_then, made, length-ok, enough, refused) refl
          ]
        ]

    pub ffi_prototype-cached :
        (key : String) (c : Calling L) (types : List FfiType)
        → L.by_name.get c.protocache key ≡ some types
        → ffi_prototype decimal cache_key text_at ffi key params c w ≡ ok (types, c) w
    unfolding ffi_prototype
    ffi_prototype-cached key c types hit = rw (hit, ffi_prototype) refl

    abbrev pub with_types : String → List FfiType → Calling L → Calling L
    with_types key types c = record c { protocache = (L.by_name.put c.protocache key types).0 }

    pub ffi_prototype-new :
        (key : String) (c : Calling L)
        → L.by_name.get c.protocache key ≡ none
        → ffi_prototype decimal cache_key text_at ffi key params c w
          ≡ ok
              (
                types_at 0 (L.by_name.size o.map),
                with_types key (types_at 0 (L.by_name.size o.map)) c,
              )
              w
    unfolding ffi_prototype
    ffi_prototype-new key c miss =
        rw (miss, ffi_prototype, length-ok, ffi_types-ok 0 (L.by_name.size o.map)) refl
