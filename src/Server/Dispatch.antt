-- ===== src/Server/Dispatch.antt =====
-- `rpc_server_localnet_job` finds the handler of a request in the table that `RS_init_methods` fills.
use ffi_rpc.Base.{
  ℕ, ◌^◌, ◌<◌, ◌≡◌, ◌≢◌, refl, ap, ◌∙◌, true, false, Option, none, some, String, string_eq, nat_eq,
  if◌then◌else◌, arith, Bool-cases, Option-cases, inl, inr, List, [], ◌∷◌, lookup,
}
use ffi_rpc.Types.{is_string, Element, is_pointer, same_type, rpc_string, rpc_struct}
use ffi_rpc.Types.Values.{same_type_iff}
use ffi_rpc.Ext.Libs.{Libs}
use ffi_rpc.World.{World}
use ffi_rpc.World.Cmd.{Run, ok}
use ffi_rpc.Struct.Observe.{Kind, kind, slot, struct_of_kind}
use ffi_rpc.Struct.Api.{stored, is_none}
use ffi_rpc.Struct.Reads.{element_or_none, get_internal-ok}
use ffi_rpc.Typed.{CType, char_t, Variable, ctype_to_rpc, c_to_rpc, fill, get, size_of}
use ffi_rpc.Typed.RoundTrip.{read_back, c_to_rpc-type, fill-bits}
use ffi_rpc.Registry.{struct_var}
use ffi_rpc.Invoke.{LibFfi, Calling}
use ffi_rpc.Server.{
  Method, a_ping, a_disconnect, a_get_cobject, a_call, an_is_cobject, Linker, null_text, code_var,
  run_method, run_at, localnet_job,
}

-- What `rpc_struct_get` gives for an element.
abbrev pub read_result : Variable → Element → ℕ × Variable
read_result out e =
    if is_none e.type
    then (1, out)
    else if same_type e.type (ctype_to_rpc out.ctype)
    then (0, fill out e)
    else (1, out)

pub get-ok :
    {L : Libs} (s : ℕ) (k : String) (out : Variable) (w : World L)
    → s ≢ 0
    → kind w s ≡ Kind.struct
    → get s k out w ≡ ok (read_result out (element_or_none (slot w s k))) w
unfolding get
get-ok s k out w nz is =
    let (o, live) = struct_of_kind (w.heap s) is in
    let e : Element = element_or_none (slot w s k) in
    rw (get_internal-ok s k w o live nz) (elim (Bool-cases (is_none e.type)) [
      | inl missing ↦ rw missing refl
      | inr given ↦ rw given (elim (Bool-cases (same_type e.type (ctype_to_rpc out.ctype))) [
        | inl same ↦ rw same refl
        | inr other ↦ rw other refl
      ])
    ])

-- The methods by name, as a client knows them.
abbrev pub method_table : List (String × Method)
method_table =
    ("is_cobject", an_is_cobject)
    ∷ ("call", a_call)
    ∷ ("get_object", a_get_cobject)
    ∷ ("disconnect", a_disconnect)
    ∷ ("ping", a_ping)
    ∷ []

abbrev pub method_named : String → Option Method
method_named name = lookup name method_table

-- The text of a string, and the struct that an element refers to, 0 for any other.
abbrev pub text_in : Option Element → Option String
text_in none = none
text_in (some e) = if same_type e.type rpc_string then some e.text else none

abbrev pub struct_in : Option Element → ℕ
struct_in none = 0
struct_in (some e) = if same_type e.type rpc_struct then e.word else 0

abbrev pub method_of : Option String → Option Method
method_of none = none
method_of (some name) = method_named name

-- The element by which the table holds a method.
abbrev pub entry : Linker → Option Method → Option Element
entry K none = none
entry K (some m) = some (stored (c_to_rpc (code_var (K.address_of m))))

-- The table has just the five methods, each under its name.
abbrev pub IsReady : {L : Libs} → Linker → ℕ → World L → Type 0
IsReady K methods w = (name : String) → slot w methods name ≡ entry K (method_named name)

abbrev pub read : Variable → Option Element → ℕ × Variable
read out x = read_result out (element_or_none x)

ctype_to_rpc-is_none : (c : CType) → is_none (ctype_to_rpc c) ≡ false
unfolding ctype_to_rpc is_none
ctype_to_rpc-is_none char_t = refl
ctype_to_rpc-is_none _ = refl

read-fitting :
    (out : Variable) (e : Element)
    → same_type e.type (ctype_to_rpc out.ctype) ≡ true
    → read out (some e) ≡ (0, fill out e)
read-fitting out e same =
    let there : is_none e.type ≡ false =
      ap is_none ((same_type_iff e.type (ctype_to_rpc out.ctype)).0 same)
      ∙ ctype_to_rpc-is_none out.ctype in
    rw (there, same) refl

read-other :
    (out : Variable) (e : Element)
    → same_type e.type (ctype_to_rpc out.ctype) ≡ false
    → read out (some e) ≡ (1, out)
read-other out e other = elim (Bool-cases (is_none e.type)) [
  | inl missing ↦ rw missing refl
  | inr there ↦ rw (there, other) refl
]

-- Reading a text, a struct and a method.
pub read_text :
    (x : Option Element) (t : String)
    → text_in x ≡ some t
    → ((read null_text x).0 ≡ 0) × ((read null_text x).1.text ≡ t)
unfolding ctype_to_rpc
read_text none t h = absurd (ground arith)
read_text (some e) t h = elim (Bool-cases (same_type e.type rpc_string)) [
  | inl same ↦
      let pointer : is_pointer e.type ≡ true =
        ap is_pointer ((same_type_iff e.type rpc_string).0 same) ∙ unfold is_pointer in refl in
      rw (read-fitting null_text e same) (refl, unfold fill in rw pointer (ground (arith, same)))
  | inr other ↦ absurd (ground (arith, other))
]

pub read_no_text : (x : Option Element) → text_in x ≡ none → read null_text x ≡ (1, null_text)
unfolding ctype_to_rpc is_none
read_no_text none h = refl
read_no_text (some e) h = elim (Bool-cases (same_type e.type rpc_string)) [
  | inl same ↦ absurd (ground (arith, same))
  | inr other ↦ read-other null_text e other
]

pub read_struct :
    (x : Option Element)
    → ((e : Element) → x ≡ some e → e.word < 256 ^ 8)
    → (read (struct_var 0) x).1.bits ≡ struct_in x
unfolding ctype_to_rpc is_none
read_struct none range = refl
read_struct (some e) range = elim (Bool-cases (same_type e.type rpc_struct)) [
  | inl same ↦
      let pointer : is_pointer e.type ≡ true =
        ap is_pointer ((same_type_iff e.type rpc_struct).0 same) ∙ unfold is_pointer in refl in
      rw (read-fitting (struct_var 0) e same, same)
        (fill-bits (struct_var 0) e (unfold size_of in refl) pointer (range e refl) (omega arith))
  | inr other ↦ rw (read-other (struct_var 0) e other, other) refl
]

read_code :
    (K : Linker) (m : Method)
    → ((read (code_var 0) (entry K (some m))).0 ≡ 0)
      × ((read (code_var 0) (entry K (some m))).1.bits ≡ K.address_of m)
unfolding size_of ctype_to_rpc is_string
read_code K m =
    let v : Variable = code_var (K.address_of m) in
    let same : same_type (stored (c_to_rpc v)).type (ctype_to_rpc v.ctype) ≡ true =
      (same_type_iff _ _).1 (c_to_rpc-type v) in
    rw (read-fitting (code_var 0) (stored (c_to_rpc v)) same)
      (refl, read_back v.ctype v.bits 0 "" "" refl (K.range m) (omega arith))

module _ {L : Libs} (decimal : ℕ → String) (cache_key : String → String → String)
    (text_at : ℕ → String) (ffi : LibFfi L) where
  -- What a client asks for: the method by its name, with the parameters; anything else is refused.
  abbrev pub asked :
      Option Method
      → (person params reply : ℕ) → Calling L
      → World L
      → Run (World L) (ℕ × Calling L)
  asked none person params reply c w = ok (1, c) w
  asked (some m) person params reply c w =
      run_method decimal cache_key text_at ffi m person params reply c w

  module _ (K : Linker) (methods person request reply : ℕ) (c : Calling L) (w : World L)
      (ready : IsReady K methods w) (methods_nonnull : methods ≢ 0)
      (methods_live : kind w methods ≡ Kind.struct) (request_nonnull : request ≢ 0)
      (request_live : kind w request ≡ Kind.struct)
      (range : (e : Element) → slot w request "params" ≡ some e → e.word < 256 ^ 8) where
    abbrev job : Run (World L) (ℕ × Calling L)
    job = localnet_job decimal cache_key text_at ffi K methods person request reply c w

    abbrev answer : Option Method → Run (World L) (ℕ × Calling L)
    answer m = asked m person (struct_in (slot w request "params")) reply c w

    get-method : get request "method" null_text w ≡ ok (read null_text (slot w request "method")) w
    get-method = get-ok request "method" null_text w request_nonnull request_live

    -- What the table has for a name.
    get-entry :
        (name : String) (m : Option Method)
        → method_named name ≡ m
        → get methods name (code_var 0) w ≡ ok (read (code_var 0) (entry K m)) w
    get-entry name m which =
        get-ok methods name (code_var 0) w methods_nonnull methods_live
        ∙ ap (λ x. ok (read (code_var 0) x) w) (ready name ∙ ap (entry K) which)

    -- A request with a name.
    job-named :
        (name : String) (m : Option Method)
        → text_in (slot w request "method") ≡ some name
        → method_named name ≡ m
        → job ≡ answer m
    unfolding localnet_job run_at
    job-named name none named which =
        let (found, text) = read_text (slot w request "method") name named in
        rw (get-method, found, text, get-entry name none which) (unfold is_none in refl)
    job-named name (some m) named which =
        let (found, text) = read_text (slot w request "method") name named in
        let (held, code) = read_code K m in
        let params : (read (struct_var 0) (slot w request "params")).1.bits ≡ _ =
          read_struct (slot w request "params") range in
        rw
          (
            get-method,
            found,
            text,
            get-entry name (some m) which,
            held,
            code,
            K.at-address_of m,
            get-ok request "params" (struct_var 0) w request_nonnull request_live,
            params,
          )
          refl

    -- Where the live table of methods holds just the five methods, on a live request other than
    -- NULL whose word under "params" fits into 64 bits, rpc_server_localnet_job runs the method
    -- that the request names, with the struct of its parameters, or NULL if it has none; if the
    -- request has no text as its method, or names none of the five, the result is 1 and nothing
    -- changes.
    pub localnet_job-asked : job ≡ answer (method_of (text_in (slot w request "method")))
    unfolding localnet_job
    localnet_job-asked = elim (Option-cases (text_in (slot w request "method"))) [
      | inl unnamed ↦ rw (get-method, read_no_text (slot w request "method") unnamed, unnamed) refl
      | inr (name, named) ↦ rw named (job-named name _ named refl)
    ]
