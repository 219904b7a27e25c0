-- ===== src/StructJson/Message.antt =====
-- What `rpc_struct_serialize` makes of a struct of numbers and texts, and that
-- `rpc_struct_deserialize` reads it back.
use Prim.Native.String.{len}
use mathlib.Core.Option.{map as map_option}
use ffi_rpc.Base.{ℕ, inl, inr, nat_beq_iff, Bool-cases, ◌||◌, nat_eq, ◌==◌, if◌then◌else◌, ◌%◌, ◌^◌}
use ffi_rpc.Base.{
  ◌<◌, ◌^◌, ◌≡◌, refl, sym, ap, ◌∙◌, true, false, some, List, [], ◌∷◌, ◌++◌, String, string_eq,
  nat_eq, ◌==◌, lookup, DistinctKeys, All, arith, ==-refl, Bool-cases, inl, inr, subst,
}
use ffi_rpc.Types.{Element, RpcType, rpc_string}
use ffi_rpc.Ext.Json.{Jansson}
use ffi_rpc.Ext.JsonValues.{JsonValues}
use ffi_rpc.StructJson.Write.{int_of}
use ffi_rpc.StructJson.Copied.{IsSendable, AllSendable}
use ffi_rpc.StructJson.Flat.{IsFlat, variable_by}
use ffi_rpc.Typed.{Variable, string_t, uint64_t}
use ffi_rpc.StructJson.Received.{IsFlatStruct, IsReadableId, HasNoEntries}
use ffi_rpc.StructJson.Sent.{item_for, items_for, write_all, entries-write_all}

int_of-lt : (e : Element) → int_of e < 2 ^ 64
unfolding int_of
int_of-lt e = ground arith

-- The number that an element of 1, 2, 4 or 8 bytes holds; any other is sent as 0.
abbrev pub number_in : Element → ℕ
number_in e =
    if (e.length == 1) || ((e.length == 2) || ((e.length == 4) || (e.length == 8)))
    then e.word % 256 ^ e.length
    else 0

int_of-number_in : (e : Element) → int_of e ≡ number_in e
unfolding int_of
int_of-number_in e = elim (Bool-cases (e.length == 1)) [
  | inl byte ↦ rw (byte, (nat_beq_iff e.length 1).0 byte) refl
  | inr not_byte ↦ elim (Bool-cases (e.length == 2)) [
    | inl short ↦ rw (not_byte, short, (nat_beq_iff e.length 2).0 short) refl
    | inr not_short ↦ elim (Bool-cases (e.length == 4)) [
      | inl word ↦ rw (not_byte, not_short, word, (nat_beq_iff e.length 4).0 word) refl
      | inr not_word ↦ elim (Bool-cases (e.length == 8)) [
        | inl long ↦ rw (not_byte, not_short, not_word, long, (nat_beq_iff e.length 8).0 long) refl
        | inr other ↦ rw (not_byte, not_short, not_word, other) refl
      ]
    ]
  ]
]

-- The variable that the receiver stores for an element.
abbrev variable_for : RpcType → Element → Variable
variable_for rpc_string e = record { ctype = string_t; bits = 1; text = e.text }
variable_for _ e = record { ctype = uint64_t; bits = number_in e; text = "" }

abbrev pub received : Element → Variable
received e = variable_for e.type e

module _ (J : Jansson) (V : JsonValues J) where
  -- The JSON of a struct without duplicates, by its ID and its elements.
  abbrev pub message : String → J.Json → J.Json
  message id contents =
      J.object_set_new
        (J.object_set_new
          (J.object_set_new (J.object_set_new J.object "ID" (J.string id)) "type"
            (J.string "RPC_struct"))
          "serialised" contents)
        "duplicates" J.object

  get_other :
      (j : J.Json) (k i : String) (v : J.Json)
      → J.is_object j ≡ true
      → (k == i) ≡ false
      → J.object_get (J.object_set_new j k v) i ≡ J.object_get j i
  get_other j k i v is other = rw (J.get-set j k i v is, other) refl

  get_same :
      (j : J.Json) (k : String) (v : J.Json)
      → J.is_object j ≡ true
      → J.object_get (J.object_set_new j k v) k ≡ some v
  get_same j k v is = rw (J.get-set j k k v is, ==-refl k) refl

  pub item-received :
      (e : Element)
      → IsSendable e
      → variable_by J V (V.type_of (item_for J V e)) (item_for J V e) ≡ some (received e)
  unfolding int_of
  item-received e (inl number) =
      rw
        (
          number,
          V.type_of-integer,
          J.integer_value-integer (int_of e) (int_of-lt e),
          int_of-number_in e,
        )
        refl
  item-received e (inr (text, there)) =
      rw (text, V.type_of-string, J.string_value-string e.text) refl

  items-IsFlat :
      (es : List (String × Element))
      → AllSendable es
      → All (λ (x : String × J.Json). IsFlat J V x.1) (items_for J V es)
  items-IsFlat [] sendable = tt
  items-IsFlat ((key, e) ∷ es) sendable =
      ((received e, item-received e sendable.0), items-IsFlat es sendable.1)

  pub lookup-items_for :
      (j : String) (es : List (String × Element))
      → lookup j (items_for J V es) ≡ map_option (item_for J V) (lookup j es)
  lookup-items_for j [] = refl
  lookup-items_for j ((key, e) ∷ es) = elim (Bool-cases (key == j)) [
    | inl same ↦ rw same refl
    | inr differ ↦ rw differ (lookup-items_for j es)
  ]

  items-DistinctKeys :
      (es : List (String × Element)) → DistinctKeys es → DistinctKeys (items_for J V es)
  items-DistinctKeys [] d = tt
  items-DistinctKeys ((key, e) ∷ es) d =
      (lookup-items_for key es ∙ ap (map_option (item_for J V)) d.0, items-DistinctKeys es d.1)

  module _ (id : String) (es : List (String × Element)) (short : len id < 65)
      (distinct : DistinctKeys es) (sendable : AllSendable es) where
    abbrev contents : J.Json
    contents = write_all J V J.object es

    pub entries-contents : V.entries contents ≡ items_for J V es
    entries-contents =
        entries-write_all J V J.object es J.is_object-object distinct (λ j there. J.get-object j)
        ∙ ap (λ l. l ++ items_for J V es) V.entries-object

    pub message-IsFlatStruct : IsFlatStruct J V (message id contents) contents
    message-IsFlatStruct =
        let a = J.object_set_new J.object "ID" (J.string id) in
        let b = J.object_set_new a "type" (J.string "RPC_struct") in
        let c = J.object_set_new b "serialised" contents in
        let is_a : J.is_object a ≡ true = J.is_object-set _ _ _ ∙ J.is_object-object in
        let is_b : J.is_object b ≡ true = J.is_object-set _ _ _ ∙ is_a in
        let is_c : J.is_object c ≡ true = J.is_object-set _ _ _ ∙ is_b in
        record {
          type = J.string "RPC_struct";
          typed =
              get_other c "duplicates" "type" J.object is_c refl
              ∙ (get_other b "serialised" "type" contents is_b refl
                  ∙ get_same a "type" (J.string "RPC_struct") is_a);
          is_struct = J.string_value-string "RPC_struct";
          id =
              subst (IsReadableId J V)
                (sym (
                  get_other c "duplicates" "ID" J.object is_c refl
                  ∙ (get_other b "serialised" "ID" contents is_b refl
                      ∙ (get_other a "type" "ID" (J.string "RPC_struct") is_a refl
                          ∙ get_same J.object "ID" (J.string id) J.is_object-object))))
                (id, J.string_value-string id, short);
          held =
              get_other c "duplicates" "serialised" J.object is_c refl
              ∙ get_same b "serialised" contents is_b;
          distinct = subst DistinctKeys (sym entries-contents) (items-DistinctKeys es distinct);
          flat =
              subst (λ l. All (λ (x : String × J.Json). IsFlat J V x.1) l) (sym entries-contents)
                (items-IsFlat es sendable);
          single =
              subst (HasNoEntries J V) (sym (get_same c "duplicates" J.object is_c))
                V.entries-object;
        }
