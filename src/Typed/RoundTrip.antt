-- ===== src/Typed/RoundTrip.antt =====
-- What `rpc_struct_set` stores, `rpc_struct_get` reads.
use ffi_rpc.Base.{
  ℕ, ◌^◌, ◌<◌, ◌≡◌, ◌≢◌, refl, ap, ◌∙◌, true, false, none, some, String, arith, Bool-cases,
  Option-cases, inl, inr, string_eq, nat_beq_iff,
}
use ffi_rpc.Types.{Element, is_pointer, is_string, same_type, is_refcounted, freefn_of}
use ffi_rpc.Types.Values.{same_type_iff}
use ffi_rpc.Ext.Libs.{Libs}
use ffi_rpc.World.{World}
use ffi_rpc.World.Cmd.{ok}
use ffi_rpc.Struct.Observe.{Kind, kind, slot, Fits, struct_of_kind}
use ffi_rpc.Struct.Invariant.{IsConsistent}
use ffi_rpc.Struct.Api.{storable, stored, set_internal, is_none}
use ffi_rpc.Struct.Reads.{get_internal-ok, exists-ok, type_in}
use ffi_rpc.Struct.Store.{set_internal-Stored}
use ffi_rpc.Typed.{
  CType, char_t, string_t, Variable, ctype_to_rpc, size_of, c_to_rpc, fill, set, get, copied,
}

-- Reading back an element made from a variable of the same type.
pub read_back :
    (c : CType) (b old : ℕ) (text before : String)
    → is_string (ctype_to_rpc c) ≡ false
    → b < 256 ^ size_of c
    → old < 256 ^ size_of c
    → (fill
        (record { ctype = c; bits = old; text = before })
        (stored (c_to_rpc (record { ctype = c; bits = b; text = text })))).bits
      ≡ b
unfolding fill c_to_rpc stored is_pointer is_string
read_back char_t b old text before other h k = omega arith
read_back string_t b old text before other h k = absurd (ground (arith, other))
read_back _ b old text before other h k = omega arith

string-pointer :
    (c : CType) → is_string (ctype_to_rpc c) ≡ true → is_pointer (ctype_to_rpc c) ≡ true
unfolding is_string is_pointer
string-pointer c h = ground (arith, h)

pub read_text :
    (c : CType) (b old : ℕ) (text before : String)
    → is_pointer (ctype_to_rpc c) ≡ true
    → (fill
        (record { ctype = c; bits = old; text = before })
        (stored (c_to_rpc (record { ctype = c; bits = b; text = text })))).text
      ≡ text
unfolding fill c_to_rpc stored
read_text c b old text before p = ground arith

-- Reading a pointer into a variable of that size.
pub fill-bits :
    (out : Variable) (e : Element)
    → size_of out.ctype ≡ 8
    → is_pointer e.type ≡ true
    → e.word < 256 ^ 8
    → out.bits < 256 ^ 8
    → (fill out e).bits ≡ e.word
unfolding fill copied
fill-bits out e wide pointer range room = rw (pointer, wide) (omega arith)

pub c_to_rpc-type : (v : Variable) → (stored (c_to_rpc v)).type ≡ ctype_to_rpc v.ctype
unfolding stored c_to_rpc
c_to_rpc-type v = ground arith

ctype_to_rpc-is_none : (c : CType) → is_none (ctype_to_rpc c) ≡ false
unfolding ctype_to_rpc is_none
ctype_to_rpc-is_none char_t = refl
ctype_to_rpc-is_none _ = refl

module _ {L : Libs} where
  -- The outcome of storing a variable under a new key and reading it into another.
  pub record Read (s : ℕ) (k : String) (v out : Variable) (w : World L) : Type 0 where
    pub world : World L
    pub stores : set s k v w ≡ ok 0 world
    pub consistent : IsConsistent world
    pub read : Variable
    pub reads : get s k out world ≡ ok (0, read) world
    pub bits : is_string (ctype_to_rpc v.ctype) ≡ false → read.bits ≡ v.bits
    pub text : is_string (ctype_to_rpc v.ctype) ≡ true → read.text ≡ v.text

  -- Reading an element of the type that the variable has.
  pub get-fill :
      (s : ℕ) (k : String) (out : Variable) (e : Element) (w : World L)
      → s ≢ 0
      → kind w s ≡ Kind.struct
      → slot w s k ≡ some e
      → e.type ≡ ctype_to_rpc out.ctype
      → get s k out w ≡ ok (0, fill out e) w
  unfolding get
  get-fill s k out e w nz is at typed =
      let (o, live) = struct_of_kind (w.heap s) is in
      let given : is_none e.type ≡ false = ap is_none typed ∙ ctype_to_rpc-is_none out.ctype in
      let fitting : same_type e.type (ctype_to_rpc out.ctype) ≡ true =
        (same_type_iff e.type (ctype_to_rpc out.ctype)).1 typed in
      rw (get_internal-ok s k w o live nz, at) (rw (given, fitting) refl)

  pub set-stores :
      (s : ℕ) (k : String) (v : Variable) (w : World L)
      → s ≢ 0
      → kind w s ≡ Kind.struct
      → slot w s k ≡ none
      → set s k v w ≡ set_internal s k (c_to_rpc v) w
  unfolding set
  set-stores s k v w nz is absent =
      let (o, live) = struct_of_kind (w.heap s) is in rw (exists-ok s k w o live nz, absent) refl

  pub get-set :
      (s : ℕ) (k : String) (v : Variable) (old : ℕ) (before : String) (w : World L)
      → IsConsistent w
      → s ≢ 0
      → kind w s ≡ Kind.struct
      → slot w s k ≡ none
      → storable (c_to_rpc v) ≡ true
      → (is_refcounted (c_to_rpc v).type ≡ true
          → Fits (freefn_of (c_to_rpc v).type) (kind w (c_to_rpc v).word))
      → v.bits < 256 ^ size_of v.ctype
      → old < 256 ^ size_of v.ctype
      → Read s k v (record v { bits = old; text = before }) w
  get-set s k v old before w inv nz is absent ready fits range room =
      let out : Variable = record v { bits = old; text = before } in
      let r = set_internal-Stored s k (c_to_rpc v) w inv is absent ready fits in
      let at : slot r.world s k ≡ some (stored (c_to_rpc v)) =
        ground (arith, r.slots s k, nat_beq_iff s s, string_eq.same_iff k k) in
      record {
        world = r.world;
        stores = set-stores s k v w nz is absent ∙ r.runs;
        consistent = r.consistent;
        read = fill out (stored (c_to_rpc v));
        reads =
            get-fill s k out (stored (c_to_rpc v)) r.world nz (r.kinds s ∙ is) at (c_to_rpc-type v);
        bits = λ other. read_back v.ctype v.bits old v.text before other range room;
        text = λ chars. read_text v.ctype v.bits old v.text before (string-pointer v.ctype chars);
      }

  -- On a live struct, rpc_struct_get of a key whose element has another type than the variable,
  -- or of a missing key, gives 1 and changes neither the variable nor the memory.
  pub get-refuses :
      (s : ℕ) (k : String) (out : Variable) (w : World L)
      → s ≢ 0
      → kind w s ≡ Kind.struct
      → type_in (slot w s k) ≢ ctype_to_rpc out.ctype
      → get s k out w ≡ ok (1, out) w
  unfolding get
  get-refuses s k out w nz is other =
      let (o, live) = struct_of_kind (w.heap s) is in
      elim (Option-cases (slot w s k)) [
        | inl missing ↦ rw (get_internal-ok s k w o live nz, missing) refl
        | inr (e, at) ↦
            let different : same_type e.type (ctype_to_rpc out.ctype) ≡ false =
              ground (arith, at, other, same_type_iff e.type (ctype_to_rpc out.ctype)) in
            rw (get_internal-ok s k w o live nz, at)
              (elim (Bool-cases (is_none e.type)) [
                | inl none_type ↦ rw none_type refl
                | inr given ↦ rw (given, different) refl
              ])
      ]
