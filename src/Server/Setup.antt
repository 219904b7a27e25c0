-- ===== src/Server/Setup.antt =====
-- `RS_init_methods` fills the table of methods.
use ffi_rpc.Base.{
  ℕ, ◌≡◌, ◌≢◌, refl, ap, ◌∙◌, none, List, [], ◌∷◌, String, string_eq, nat_eq, ◌==◌, ==-refl,
  Bool-cases, inl, inr, lookup, arith,
}
use ffi_rpc.Types.{is_pointer, freefn_of}
use ffi_rpc.Ext.Libs.{Libs}
use ffi_rpc.World.{World}
use ffi_rpc.World.Cmd.{Run, ok}
use ffi_rpc.Struct.Observe.{Kind, kind, slot}
use ffi_rpc.Struct.Invariant.{IsConsistent}
use ffi_rpc.Struct.Api.{storable}
use ffi_rpc.Struct.Store.{Stored, set_internal-Stored}
use ffi_rpc.Typed.{Variable, c_to_rpc, set}
use ffi_rpc.Typed.RoundTrip.{set-stores}
use ffi_rpc.Server.{
  Method, a_ping, a_disconnect, a_get_cobject, a_call, an_is_cobject, Linker, code_var,
  init_methods,
}
use ffi_rpc.Server.Dispatch.{entry, IsReady}

module _ {L : Libs} (K : Linker) (methods : ℕ) where
  -- The table has just these methods.
  abbrev Holds : List (String × Method) → World L → Type 0
  Holds ms w = (name : String) → slot w methods name ≡ entry K (lookup name ms)

  -- A table on the way.
  record Filled (ms : List (String × Method)) (m : Run (World L) ℕ) : Type 0 where
    world : World L
    runs : m ≡ ok 0 world
    consistent : IsConsistent world
    live : kind world methods ≡ Kind.struct
    holds : Holds ms world

  set-Filled :
      (ms : List (String × Method)) (name : String) (m : Method) (w : World L)
      → methods ≢ 0
      → IsConsistent w
      → kind w methods ≡ Kind.struct
      → Holds ms w
      → lookup name ms ≡ none
      → Filled ((name, m) ∷ ms) (set methods name (code_var (K.address_of m)) w)
  unfolding storable is_pointer freefn_of
  set-Filled ms name m w nz inv is holds new =
      let v : Variable = code_var (K.address_of m) in
      let absent : slot w methods name ≡ none = holds name ∙ ap (entry K) new in
      let r : Stored methods name (c_to_rpc v) w _ =
        set_internal-Stored methods name (c_to_rpc v) w inv is absent
          (unfold c_to_rpc in ground (arith, K.nonnull m)) (λ _. unfold c_to_rpc in tt) in
      record {
        world = r.world;
        runs = set-stores methods name v w nz is absent ∙ r.runs;
        consistent = r.consistent;
        live = r.kinds methods ∙ is;
        holds = λ other. elim (Bool-cases (name == other)) [
          | inl same ↦ r.slots methods other ∙ rw (==-refl methods, same) refl
          | inr differ ↦ r.slots methods other ∙ rw (==-refl methods, differ) (holds other)
        ];
      }

  -- The outcome of filling the table.
  pub record Ready (m : Run (World L) (Unit {0})) : Type 0 where
    pub world : World L
    pub runs : m ≡ ok tt world
    pub consistent : IsConsistent world
    pub live : kind world methods ≡ Kind.struct
    pub ready : IsReady K methods world

  -- In a consistent memory, RS_init_methods of a live and empty struct leaves in it just the five
  -- methods under their names, and the memory stays consistent.
  pub init_methods-Ready :
      (w : World L)
      → methods ≢ 0
      → IsConsistent w
      → kind w methods ≡ Kind.struct
      → ((name : String) → slot w methods name ≡ none)
      → Ready (init_methods K methods w)
  unfolding init_methods
  init_methods-Ready w nz inv is empty =
      let one : List (String × Method) = ("ping", a_ping) ∷ [] in
      let two : List (String × Method) = ("disconnect", a_disconnect) ∷ one in
      let three : List (String × Method) = ("get_object", a_get_cobject) ∷ two in
      let four : List (String × Method) = ("call", a_call) ∷ three in
      let a = set-Filled [] "ping" a_ping w nz inv is empty refl in
      let b =
        set-Filled one "disconnect" a_disconnect a.world nz a.consistent a.live a.holds refl in
      let c =
        set-Filled two "get_object" a_get_cobject b.world nz b.consistent b.live b.holds refl in
      let d = set-Filled three "call" a_call c.world nz c.consistent c.live c.holds refl in
      let e =
        set-Filled four "is_cobject" an_is_cobject d.world nz d.consistent d.live d.holds refl in
      record {
        world = e.world;
        runs = rw (a.runs, b.runs, c.runs, d.runs, e.runs) refl;
        consistent = e.consistent;
        live = e.live;
        ready = e.holds;
      }
