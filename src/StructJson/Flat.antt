-- ===== src/StructJson/Flat.antt =====
-- Reading structs of numbers and texts.

use mathlib.Core.Option.{map as map_option}
use ffi_rpc.Base.{
  ℕ, suc, ◌≡◌, ◌≢◌, refl, sym, ap, ◌∙◌, true, Option, none, some, List, [], ◌∷◌, String, string_eq,
  nat_eq, ◌==◌, is_some, lookup, DistinctKeys, All, arith, ==-refl, subst, Bool-cases, Option-cases,
  inl, inr,
}
use ffi_rpc.Types.{Element, is_pointer, is_refcounted}
use ffi_rpc.Ext.Libs.{Libs}
use ffi_rpc.Ext.Json.{Jansson}
use ffi_rpc.Ext.JsonValues.{
  JsonValues, JsonType, json_object, json_array, json_string, json_integer, json_real, json_other,
}
use ffi_rpc.World.{World}
use ffi_rpc.World.Cmd.{Run, ok, and_then}
use ffi_rpc.Struct.Observe.{Kind, kind, slot}
use ffi_rpc.Struct.Invariant.{IsConsistent}
use ffi_rpc.Struct.Api.{storable, set_internal, no_element}
use ffi_rpc.Struct.Store.{set_internal-Stored}
use ffi_rpc.Struct.Filling.{IsPlain, Filled, Filled-cons, absent_rest}
use ffi_rpc.Typed.{Variable, uint64_t, double_t, string_t, c_to_rpc, set}
use ffi_rpc.Typed.RoundTrip.{set-stores}
use ffi_rpc.StructJson.Read.{parse_by, item_parse, parse_all}

module _ (J : Jansson) (V : JsonValues J) where
  -- The variable that `item_parse` stores for a number or a text.
  abbrev pub variable_by : JsonType → J.Json → Option Variable
  variable_by json_integer item =
      some (record { ctype = uint64_t; bits = J.integer_value item; text = "" })
  variable_by json_real item =
      some (record { ctype = double_t; bits = V.real_value item; text = "" })
  variable_by json_string item =
      map_option (λ text. record { ctype = string_t; bits = 1; text = text }) (J.string_value item)
  variable_by json_object item = none
  variable_by json_array item = none
  variable_by json_other item = none

  abbrev pub IsFlat : J.Json → Type 0
  IsFlat item = (v : Variable) × (variable_by (V.type_of item) item ≡ some v)

  abbrev pub element_of : Option Variable → Element
  element_of none = no_element
  element_of (some v) = c_to_rpc v

  -- The element that an item becomes.
  abbrev pub element_for : J.Json → Element
  element_for item = element_of (variable_by (V.type_of item) item)

  abbrev pub elements_for : List (String × J.Json) → List (String × Element)
  elements_for [] = []
  elements_for ((key, item) ∷ rest) = (key, element_for item) ∷ elements_for rest

  pub lookup-elements_for :
      (j : String) (items : List (String × J.Json))
      → lookup j (elements_for items) ≡ map_option element_for (lookup j items)
  lookup-elements_for j [] = refl
  lookup-elements_for j ((key, item) ∷ rest) = elim (Bool-cases (key == j)) [
    | inl same ↦ rw same refl
    | inr differ ↦ rw differ (lookup-elements_for j rest)
  ]

  elements_for-DistinctKeys :
      (items : List (String × J.Json)) → DistinctKeys items → DistinctKeys (elements_for items)
  elements_for-DistinctKeys [] d = tt
  elements_for-DistinctKeys ((key, item) ∷ rest) d = (
    lookup-elements_for key rest ∙ ap (map_option element_for) d.0,
    elements_for-DistinctKeys rest d.1,
  )

  IsPlain-of : {u v : Variable} → IsPlain (c_to_rpc u) → some u ≡ some v → IsPlain (c_to_rpc v)
  IsPlain-of {u} {v} plain e =
      let same : u ≡ v = cc in subst (λ (x : Variable). IsPlain (c_to_rpc x)) same plain

  variable-IsPlain :
      (t : JsonType) (item : J.Json) (v : Variable)
      → variable_by t item ≡ some v
      → IsPlain (c_to_rpc v)
  unfolding c_to_rpc storable is_refcounted is_pointer
  variable-IsPlain json_integer item v h = IsPlain-of (refl, refl) h
  variable-IsPlain json_real item v h = IsPlain-of (refl, refl) h
  variable-IsPlain json_string item v h = elim (Option-cases (J.string_value item)) [
    | inl missing ↦ absurd (ground (arith, missing, h))
    | inr (text, there) ↦
        IsPlain-of {u = record { ctype = string_t; bits = 1; text = text }} (refl, refl)
          (ap (map_option _) (sym there) ∙ h)
  ]
  variable-IsPlain json_object item v h = absurd (ground arith)
  variable-IsPlain json_array item v h = absurd (ground arith)
  variable-IsPlain json_other item v h = absurd (ground arith)

sets-same :
    {L : Libs} {u v : Variable} (s : ℕ) (key : String) (w : World L)
    → some u ≡ some v
    → and_then (set s key u w) (λ r x. ok tt x) ≡ and_then (set s key v w) (λ r x. ok tt x)
sets-same {u} {v} s key w e =
    let same : u ≡ v = cc in ap (λ (x : Variable). and_then (set s key x w) (λ r y. ok tt y)) same

module _ {L : Libs} (J : Jansson) (V : JsonValues J) (fresh : World L → ℕ)
    (new_id : World L → String) (decimal : ℕ → String) where
  parse_by-flat :
      (parse : J.Json → ℕ → String → World L → Run (World L) (Unit {0}))
      → (t : JsonType) (item : J.Json) (v : Variable) (s : ℕ) (key : String) (w : World L)
      → variable_by J V t item ≡ some v
      → parse_by J V fresh new_id parse decimal t item s key w
        ≡ and_then (set s key v w) (λ r u. ok tt u)
  unfolding parse_by
  parse_by-flat parse json_integer item v s key w h = sets-same s key w h
  parse_by-flat parse json_real item v s key w h = sets-same s key w h
  parse_by-flat parse json_string item v s key w h = elim (Option-cases (J.string_value item)) [
    | inl missing ↦ absurd (ground (arith, missing, h))
    | inr (text, there) ↦
        rw (there, parse_by)
          (sets-same {u = record { ctype = string_t; bits = 1; text = text }} s key w
            (ap (map_option _) (sym there) ∙ h))
  ]
  parse_by-flat parse json_object item v s key w h = absurd (ground arith)
  parse_by-flat parse json_array item v s key w h = absurd (ground arith)
  parse_by-flat parse json_other item v s key w h = absurd (ground arith)

  module _ (depth s : ℕ) where
    abbrev pub parse : J.Json → ℕ → String → World L → Run (World L) (Unit {0})
    parse = item_parse J V fresh new_id decimal (suc depth)

    parse-set :
        (item : J.Json) (v : Variable) (key : String) (w : World L)
        → variable_by J V (V.type_of item) item ≡ some v
        → s ≢ 0
        → kind w s ≡ Kind.struct
        → slot w s key ≡ none
        → parse item s key w ≡ and_then (set_internal s key (c_to_rpc v) w) (λ r u. ok tt u)
    unfolding item_parse
    parse-set item v key w flat nz is absent =
        parse_by-flat (item_parse J V fresh new_id decimal depth) (V.type_of item) item v s key w
          flat
        ∙ ap (λ (m : Run (World L) ℕ). and_then m (λ r u. ok tt u))
            (set-stores s key v w nz is absent)

    pub parse_all-Filled :
        (items : List (String × J.Json)) (w : World L)
        → s ≢ 0
        → IsConsistent w
        → kind w s ≡ Kind.struct
        → DistinctKeys items
        → All (λ (x : String × J.Json). IsFlat J V x.1) items
        → ((j : String) → is_some (lookup j (elements_for J V items)) ≡ true → slot w s j ≡ none)
        → Filled s (elements_for J V items) w (parse_all J V fresh new_id parse s items w)
    unfolding parse_all
    parse_all-Filled [] w nz inv is distinct flat absent = record {
      world = w;
      runs = refl;
      consistent = inv;
      kinds = λ a. refl;
      tracker = refl;
      heaps = λ a ne. refl;
      slots = λ a j. ground arith;
    }
    parse_all-Filled ((key, item) ∷ items) w nz inv is distinct flat absent =
        let (v, by) = flat.0 in
        let e = element_for J V item in
        let same : e ≡ c_to_rpc v = ap (element_of J V) by in
        let plain : IsPlain e = subst IsPlain (sym same) (variable-IsPlain J V _ item v by) in
        let new = (elements_for-DistinctKeys J V ((key, item) ∷ items) distinct).0 in
        let here : slot w s key ≡ none = absent key (rw (==-refl key) refl) in
        let first =
          set_internal-Stored s key e w inv is here plain.1
            (λ counts. absurd (ground (arith, plain.0, counts))) in
        let rest =
          parse_all-Filled items first.world nz first.consistent (first.kinds s ∙ is) distinct.1
            flat.1 (absent_rest s key e (elements_for J V items) w first new absent) in
        Filled-cons s key e (elements_for J V items) w first plain new _ _ rest
          (rw (parse-set item v key w by nz is here, sym same, first.runs) refl)
