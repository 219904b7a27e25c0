-- ===== src/Calls/Prototype.antt =====
-- When `proto_equals` of src/rpc_object.c accepts the arguments of a call.
use ffi_rpc.Base.{
  ℕ, ◌+◌, ◌≤◌, ◌≡◌, ◌≢◌, ◌↔◌, refl, ap, Bool, true, false, some, List, [], ◌∷◌, String, arith,
  nat_eq, ◌==◌, nat_beq_iff, ltb, Bool-cases, inl, inr,
}
use ffi_rpc.Base
use ffi_rpc.Types.{RpcType}
use ffi_rpc.Ext.Libs.{Libs}
use ffi_rpc.World.{World, RpcStruct, a_struct}
use ffi_rpc.World.Cmd.{Run, ok, and_then}
use ffi_rpc.Struct.Observe.{slot, load-ok}
use ffi_rpc.Struct.Api
use ffi_rpc.Types.Values.{value_of-injective}
use ffi_rpc.Struct.Reads.{type_in, type_of-ok}
use ffi_rpc.Calls.{value_of, types_from, proto_equals}

module _ {L : Libs} (decimal : ℕ → String) (args : ℕ) (w : World L) where
  -- The elements named by the numbers from `i` on have these types.
  abbrev pub HasTypes : (i : ℕ) → List RpcType → Type 0
  HasTypes i [] = Unit
  HasTypes i (t ∷ ts) = (type_in (slot w args (decimal i)) ≡ t) × HasTypes (i + 1) ts

  module _ (o : RpcStruct L) (live : w.heap args ≡ some (a_struct o)) (nz : args ≢ 0) where
    -- The loop ends with an answer, which says whether the types agree.
    record Answer (i : ℕ) (ts : List RpcType) (m : Run (World L) Bool) : Type 0 where
      answer : Bool
      runs : m ≡ ok answer w
      agrees : (answer ≡ true) ↔ HasTypes i ts

    types_from-Answer : (i : ℕ) (ts : List RpcType) → Answer i ts (types_from decimal args i ts w)
    unfolding types_from
    types_from-Answer i [] = record {
      answer = true;
      runs = refl;
      agrees = ((λ e. tt), (λ h. refl));
    }
    types_from-Answer i (t ∷ ts) =
        let u : RpcType = type_in (slot w args (decimal i)) in
        elim (Bool-cases (value_of u == value_of t)) [
          | inl same ↦
              let r = types_from-Answer (i + 1) ts in
              let equal : u ≡ t =
                value_of-injective u t ((nat_beq_iff (value_of u) (value_of t)).0 same) in
              rw (type_of-ok args (decimal i) w o live nz, and_then, same)
                (record {
                  answer = r.answer;
                  runs = r.runs;
                  agrees = ((λ e. (equal, r.agrees.0 e)), (λ h. r.agrees.1 h.1));
                })
          | inr differ ↦
              rw (type_of-ok args (decimal i) w o live nz, and_then, differ)
                (record {
                  answer = false;
                  runs = refl;
                  agrees = (
                    (λ e. absurd (ground arith)),
                    (λ h. absurd (
                        ground
                          (arith, differ, nat_beq_iff (value_of u) (value_of t), ap value_of h.0))),
                  );
                })
        ]

  -- The outcome of the check.
  pub record Checked (proto : List RpcType) (size : ℕ) (m : Run (World L) Bool) : Type 0 where
    pub answer : Bool
    pub runs : m ≡ ok answer w
    pub accepts : (answer ≡ true) ↔ ((Base.length proto ≤ size) × HasTypes 0 proto)

  -- For any way to write an index as a key, on a live struct of arguments other than NULL,
  -- proto_equals ends without a fault and changes nothing; it accepts just if the struct has at
  -- least as many elements as the prototype has types, and the element named by each index has
  -- the type at that place.
  pub proto_equals-Checked :
      (proto : List RpcType) (o : RpcStruct L)
      → args ≢ 0
      → w.heap args ≡ some (a_struct o)
      → Checked proto (L.by_name.size o.map) (proto_equals decimal args proto w)
  unfolding proto_equals Api.length
  proto_equals-Checked proto o nz live =
      elim (Bool-cases (ltb (L.by_name.size o.map) (Base.length proto))) [
        | inl short ↦
            rw (load-ok args w o live, short)
              (record {
                answer = false;
                runs = refl;
                accepts =
                    ((λ e. absurd (ground arith)), (λ h. absurd (ground (arith, short, h.0))));
              })
        | inr enough ↦
            let r = types_from-Answer o live nz 0 proto in
            let fits : Base.length proto ≤ L.by_name.size o.map = ground arith in
            rw (load-ok args w o live, enough)
              (record {
                answer = r.answer;
                runs = r.runs;
                accepts = ((λ e. (fits, r.agrees.0 e)), (λ h. r.agrees.1 h.1));
              })
      ]
