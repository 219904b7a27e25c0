-- ===== src/StructJson/Sent.antt =====
-- `rpc_struct_serialize` of a struct of numbers and texts.

use mathlib.Core.List.{append-nil, append_assoc}
use ffi_rpc.Base.{
  ℕ, ◌≡◌, refl, sym, ap, ◌∙◌, true, none, some, List, [], ◌∷◌, ◌++◌, String, string_eq, nat_eq,
  ◌==◌, is_some, lookup, DistinctKeys, arith, ==-refl, Bool-cases, inl, inr, All-of_lookup,
}
use ffi_rpc.Types.{Element, RpcType, rpc_string}
use ffi_rpc.Ext.Libs.{Libs}
use ffi_rpc.Ext.Json.{Jansson}
use ffi_rpc.Ext.JsonValues.{JsonValues}
use ffi_rpc.World.{World, RpcStruct, a_struct}
use ffi_rpc.World.Cmd.{Run, ok}
use ffi_rpc.Struct.Observe.{slot, element_in, load-ok}
use ffi_rpc.Duplicates.{Search, found_duplicates, visit_all, visit}
use ffi_rpc.StructJson.Write.{remove_unknown, int_of, item_of, serialize_elements}
use ffi_rpc.StructJson.Copied.{IsSendable, AllSendable, sendable-IsPlain, known}

module _ {L : Libs} where
  -- The entries of a struct, of which each can be sent.
  pub entries-AllSendable :
      (v : World L) (s : ℕ) (o : RpcStruct L)
      → v.heap s ≡ some (a_struct o)
      → ((k : String) (e : Element) → slot v s k ≡ some e → IsSendable e)
      → AllSendable (L.by_name.entries o.map)
  entries-AllSendable v s o live all =
      All-of_lookup (λ (x : String × Element). IsSendable x.1) (L.by_name.entries o.map)
        (L.by_name.entries-DistinctKeys o.map)
        (λ k e at. all k e (ap (element_in k) live ∙ (sym (L.by_name.lookup-entries o.map k) ∙ at)))

  visit_all-none :
      (next_block : ℕ → ℕ) (es : List (String × Element)) (s : Search L)
      → AllSendable es
      → visit_all next_block es s ≡ ok tt s
  unfolding visit_all visit
  visit_all-none next_block [] s sendable = refl
  visit_all-none next_block ((key, e) ∷ es) s sendable =
      rw ((sendable-IsPlain e sendable.0).0) (visit_all-none next_block es s sendable.1)

  pub found_duplicates-none :
      (next_block : ℕ → ℕ) (s : ℕ) (o : RpcStruct L) (w : World L)
      → w.heap s ≡ some (a_struct o)
      → AllSendable (L.by_name.entries o.map)
      → found_duplicates next_block s w ≡ ok [] w
  unfolding found_duplicates
  found_duplicates-none next_block s o w live sendable =
      rw (load-ok s w o live, visit_all-none next_block (L.by_name.entries o.map) _ sendable) refl

  pub remove_unknown-none :
      (s : ℕ) (es : List (String × Element)) (w : World L)
      → AllSendable es
      → remove_unknown s es w ≡ ok tt w
  unfolding remove_unknown
  remove_unknown-none s [] w sendable = refl
  remove_unknown-none s ((key, e) ∷ es) w sendable =
      rw (known e sendable.0) (remove_unknown-none s es w sendable.1)

module _ (J : Jansson) (V : JsonValues J) where
  -- The item of a number or a text.
  abbrev item_by : RpcType → Element → J.Json
  item_by rpc_string e = J.string e.text
  item_by _ e = J.integer (int_of e)

  abbrev pub item_for : Element → J.Json
  item_for e = item_by e.type e

  abbrev pub items_for : List (String × Element) → List (String × J.Json)
  items_for [] = []
  items_for ((key, e) ∷ es) = (key, item_for e) ∷ items_for es

  abbrev pub write_all : J.Json → List (String × Element) → J.Json
  write_all object [] = object
  write_all object ((key, e) ∷ es) = write_all (J.object_set_new object key (item_for e)) es

  pub entries-write_all :
      (object : J.Json) (es : List (String × Element))
      → J.is_object object ≡ true
      → DistinctKeys es
      → ((j : String) → is_some (lookup j es) ≡ true → J.object_get object j ≡ none)
      → V.entries (write_all object es) ≡ V.entries object ++ items_for es
  entries-write_all object [] is distinct absent = sym (append-nil (V.entries object))
  entries-write_all object ((key, e) ∷ es) is distinct absent =
      let here : J.object_get object key ≡ none = absent key (rw (==-refl key) refl) in
      let later : (j : String)
          → is_some (lookup j es) ≡ true
          → J.object_get (J.object_set_new object key (item_for e)) j ≡ none =
        λ j there. elim (Bool-cases (key == j)) [
          | inl hit ↦ absurd (
              ground (
                arith,
                there,
                distinct.0,
                ap (λ (k : String). lookup k es) ((string_eq.same_iff key j).0 hit),
              ))
          | inr miss ↦ rw (J.get-set object key j (item_for e) is, miss) (absent j (rw miss there))
        ] in
      entries-write_all (J.object_set_new object key (item_for e)) es
        (J.is_object-set object key (item_for e) ∙ is) distinct.1 later
      ∙ (ap (λ l. l ++ items_for es) (V.entries-set object key (item_for e) is here)
          ∙ append_assoc (V.entries object) ((key, item_for e) ∷ []) (items_for es))

  module _ {L : Libs} (deep : ℕ → World L → Run (World L) J.Json) where
    item_of-ok :
        (e : Element) (w : World L)
        → IsSendable e
        → item_of J V deep e.type e w ≡ ok (some (item_for e)) w
    unfolding item_of
    item_of-ok e w (inl number) = rw number refl
    item_of-ok e w (inr (text, there)) = rw text refl

    pub serialize_elements-ok :
        (object : J.Json) (es : List (String × Element)) (w : World L)
        → AllSendable es
        → serialize_elements J V deep object es w ≡ ok (write_all object es) w
    unfolding serialize_elements
    serialize_elements-ok object [] w sendable = refl
    serialize_elements-ok object ((key, e) ∷ es) w sendable =
        rw (item_of-ok e w sendable.0)
          (serialize_elements-ok (J.object_set_new object key (item_for e)) es w sendable.1)
