-- ===== src/Server/Served.antt =====
-- A client in the same process asks for an object by its name.
use ffi_rpc.Base.{
  ℕ, ◌^◌, ◌<◌, ◌≡◌, ◌≢◌, refl, true, false, none, some, String, string_eq, nat_eq, ◌==◌,
  if◌then◌else◌, ◌&&◌, arith, Bool-cases, inl, inr,
}
use ffi_rpc.Types.{Element, is_pointer, is_refcounted, freefn_of}
use ffi_rpc.Ext.Libs.{Libs}
use ffi_rpc.World.{World}
use ffi_rpc.World.Cmd.{Run, ok}
use ffi_rpc.Struct.Observe.{Kind, kind, slot}
use ffi_rpc.Struct.Invariant.{IsConsistent}
use ffi_rpc.Struct.Api.{stored, storable, set_internal}
use ffi_rpc.Struct.Store.{Stored, set_internal-Stored}
use ffi_rpc.Typed.{Variable, c_to_rpc}
use ffi_rpc.Typed.RoundTrip.{set-stores}
use ffi_rpc.Registry.{struct_var, cobject_get}
use ffi_rpc.Invoke.{LibFfi, Calling}
use ffi_rpc.Server.{Linker, null_text, text_var, send_object, get_cobject, run_method, localnet_job}
use ffi_rpc.Server.Dispatch.{get-ok, read_text, text_in, struct_in, IsReady, localnet_job-asked}

-- What goes into the reply for an object, which is NULL if there is none of that name.
abbrev pub reply_key : ℕ → String
reply_key cobj = if cobj == 0 then "error" else "object"

abbrev pub reply_var : ℕ → Variable
reply_var cobj = if cobj == 0 then text_var "ERR_RPC_DOESNT_EXIST" else struct_var cobj

module _ {L : Libs} where
  -- The outcome of storing a variable in a reply.
  pub record Replied (reply : ℕ) (key : String) (v : Variable) (c : Calling L) (w : World L)
      (m : Run (World L) (ℕ × Calling L)) : Type 0 where
    pub world : World L
    pub runs : m ≡ ok (0, c) world
    pub consistent : IsConsistent world
    pub slots :
        (a : ℕ) (j : String)
        → slot world a j
          ≡ (if (reply == a) && (key == j) then some (stored (c_to_rpc v)) else slot w a j)

  module _ (cobj reply : ℕ) (c : Calling L) (w : World L) (inv : IsConsistent w) (nz : reply ≢ 0)
      (live : kind w reply ≡ Kind.struct) (new : slot w reply (reply_key cobj) ≡ none)
      (object : cobj ≢ 0 → kind w cobj ≡ Kind.struct) where
    send_object-error :
        (cobj == 0) ≡ true
        → Replied reply "error" (text_var "ERR_RPC_DOESNT_EXIST") c w (send_object cobj reply c w)
    unfolding send_object c_to_rpc storable is_pointer is_refcounted
    send_object-error missing =
        let v = text_var "ERR_RPC_DOESNT_EXIST" in
        let absent : slot w reply "error" ≡ none = rw missing at new in
        let r =
          set_internal-Stored reply "error" (c_to_rpc v) w inv live absent refl
            (λ counts. absurd (ground (arith, counts))) in
        record {
          world = r.world;
          runs = rw (missing, set-stores reply "error" v w nz live absent, r.runs) refl;
          consistent = r.consistent;
          slots = r.slots;
        }

    object-Stored :
        cobj ≢ 0
        → slot w reply "object" ≡ none
        → Stored reply "object"
            (c_to_rpc (struct_var cobj))
            w
            (set_internal reply "object" (c_to_rpc (struct_var cobj)) w)
    unfolding c_to_rpc storable is_pointer freefn_of
    object-Stored nonnull absent =
        set_internal-Stored reply "object" (c_to_rpc (struct_var cobj)) w inv live absent
          (ground (arith, nonnull)) (λ _. object nonnull)

    send_object-object :
        (cobj == 0) ≡ false
        → Replied reply "object" (struct_var cobj) c w (send_object cobj reply c w)
    unfolding send_object
    send_object-object there =
        let v = struct_var cobj in
        let nonnull : cobj ≢ 0 = ground (arith, there) in
        let absent : slot w reply "object" ≡ none = rw there at new in
        let r = object-Stored nonnull absent in
        record {
          world = r.world;
          runs = rw (there, set-stores reply "object" v w nz live absent, r.runs) refl;
          consistent = r.consistent;
          slots = r.slots;
        }

    send_object-Replied :
        Replied reply (reply_key cobj) (reply_var cobj) c w (send_object cobj reply c w)
    send_object-Replied = elim (Bool-cases (cobj == 0)) [
      | inl missing ↦ rw missing (send_object-error missing)
      | inr there ↦ rw there (send_object-object there)
    ]

module _ {L : Libs} (decimal : ℕ → String) (cache_key : String → String → String)
    (text_at : ℕ → String) (ffi : LibFfi L) (K : Linker)
    (methods person request params reply cobj : ℕ) (name : String) (c : Calling L) (w : World L)
    (ready : IsReady K methods w) (methods_nonnull : methods ≢ 0)
    (methods_live : kind w methods ≡ Kind.struct) (request_nonnull : request ≢ 0)
    (request_live : kind w request ≡ Kind.struct)
    (range : (e : Element) → slot w request "params" ≡ some e → e.word < 256 ^ 8)
    (asks : text_in (slot w request "method") ≡ some "get_object")
    (with_params : struct_in (slot w request "params") ≡ params) (params_nonnull : params ≢ 0)
    (params_live : kind w params ≡ Kind.struct)
    (names : text_in (slot w params "object") ≡ some name)
    (registered : cobject_get c.objects name w ≡ ok cobj w) (inv : IsConsistent w)
    (reply_nonnull : reply ≢ 0) (reply_live : kind w reply ≡ Kind.struct)
    (new : slot w reply (reply_key cobj) ≡ none)
    (object : cobj ≢ 0 → kind w cobj ≡ Kind.struct) where
  get_cobject-ok : get_cobject params reply c w ≡ send_object cobj reply c w
  unfolding get_cobject
  get_cobject-ok =
      let (found, text) = read_text (slot w params "object") name names in
      rw (get-ok params "object" null_text w params_nonnull params_live, found, text, registered)
        refl

  -- In a consistent memory with a ready table of methods, on a live request for "get_object" whose
  -- live struct of parameters names an object, rpc_server_localnet_job gives 0 and changes one
  -- slot: a live reply has then the struct that rpc_cobject_get found under "object", or, if it
  -- found NULL, ERR_RPC_DOESNT_EXIST under "error". The reply has nothing there before, what is
  -- found is a struct, and finding it changes nothing; the memory stays consistent.
  pub get_object-Replied :
      Replied reply
        (reply_key cobj)
        (reply_var cobj)
        c
        w
        (localnet_job decimal cache_key text_at ffi K methods person request reply c w)
  unfolding run_method
  get_object-Replied =
      rw
        (
          localnet_job-asked decimal cache_key text_at ffi K methods person request reply c w ready
              methods_nonnull methods_live request_nonnull request_live range,
          asks,
          with_params,
          get_cobject-ok,
        )
        (send_object-Replied cobj reply c w inv reply_nonnull reply_live new object)
