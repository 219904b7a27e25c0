-- ===== src/StructJson/Copied.antt =====
-- The copy of a struct of numbers and texts, which `rpc_struct_serialize` takes: it is like the
-- original, has no duplicates, and nothing is taken out of it.
use mathlib.Core.Option.{map as map_option}
use ffi_rpc.Base.{
  ℕ, ◌≡◌, ◌≢◌, refl, sym, ap, ◌∙◌, ◌⊎◌, true, false, none, some, List, [], ◌∷◌, String, string_eq,
  nat_eq, is_some, lookup, DistinctKeys, All, arith, ==-refl, inl, inr, nat_beq_iff,
}
use ffi_rpc.Types.{Element, rpc_number, rpc_string, is_pointer, is_refcounted, is_unknown}
use ffi_rpc.Ext.Libs.{Libs}
use ffi_rpc.World.{World, RpcStruct, a_struct, set_struct}
use ffi_rpc.World.Cmd.{Run, ok, and_then}
use ffi_rpc.Struct.Observe.{Kind, kind, slot, element_in, tracked, load-ok, struct_of_kind}
use ffi_rpc.Struct.Invariant.{IsConsistent}
use ffi_rpc.Struct.Api.{stored, storable, copy, create, copy_elements, set_copyof}
use ffi_rpc.Struct.Store.{set_internal-Stored}
use ffi_rpc.Struct.Safety.{Created, create-Created}
use ffi_rpc.Struct.Filling.{
  IsPlain, Filled, Filled-cons, absent_rest, filled-slot, slot-same_map, kind-same_map,
  same_map-IsConsistent,
}

-- A number, or a text that is not NULL.
abbrev pub IsSendable : Element → Type 0
IsSendable e = (e.type ≡ rpc_number) ⊎ ((e.type ≡ rpc_string) × (e.word ≢ 0))

pub sendable-IsPlain : (e : Element) → IsSendable e → IsPlain e
unfolding storable
sendable-IsPlain e (inl number) =
    (ap is_refcounted number ∙ unfold is_refcounted in refl, rw number (unfold is_pointer in refl))
sendable-IsPlain e (inr (text, there)) = (
  ap is_refcounted text ∙ unfold is_refcounted in refl,
  rw text (unfold is_pointer in ground (arith, there)),
)

pub known : (e : Element) → IsSendable e → is_unknown e.type ≡ false
known e (inl number) = ap is_unknown number ∙ unfold is_unknown in refl
known e (inr (text, there)) = ap is_unknown text ∙ unfold is_unknown in refl

abbrev pub AllSendable : List (String × Element) → Type 0
AllSendable es = All (λ (x : String × Element). IsSendable x.1) es

module _ {L : Libs} where
  copy_elements-Filled :
      (to : ℕ) (es : List (String × Element)) (w : World L)
      → IsConsistent w
      → kind w to ≡ Kind.struct
      → DistinctKeys es
      → AllSendable es
      → ((j : String) → is_some (lookup j es) ≡ true → slot w to j ≡ none)
      → Filled to es w (copy_elements to es w)
  unfolding copy_elements
  copy_elements-Filled to [] w inv is distinct sendable absent = record {
    world = w;
    runs = refl;
    consistent = inv;
    kinds = λ a. refl;
    tracker = refl;
    heaps = λ a ne. refl;
    slots = λ a j. ground arith;
  }
  copy_elements-Filled to ((key, e) ∷ es) w inv is distinct sendable absent =
      let plain = sendable-IsPlain e sendable.0 in
      let first =
        set_internal-Stored to key e w inv is (absent key (rw (==-refl key) refl)) plain.1
          (λ counts. absurd (ground (arith, plain.0, counts))) in
      let rest =
        copy_elements-Filled to es first.world first.consistent (first.kinds to ∙ is) distinct.1
          sendable.1 (absent_rest to key e es w first distinct.0 absent) in
      Filled-cons to key e es w first plain distinct.0 _ _ rest (rw (plain.0, first.runs) refl)

  -- A copy with the elements of the original, and nothing else changed.
  pub record Copied (to from : ℕ) (w : World L) (m : Run (World L) ℕ) : Type 0 where
    pub world : World L
    pub runs : m ≡ ok to world
    pub consistent : IsConsistent world
    pub heaps : (a : ℕ) → to ≢ a → world.heap a ≡ w.heap a
    pub is : kind world to ≡ Kind.struct
    pub tracker : world.ptracker ≡ w.ptracker
    pub elements : (j : String) → slot world to j ≡ map_option stored (slot w from j)

  module _ (to from : ℕ) (o : RpcStruct L) (w : World L) (inv : IsConsistent w)
      (live : w.heap from ≡ some (a_struct o)) (sendable : AllSendable (L.by_name.entries o.map))
      (nz : to ≢ 0) (free : kind w to ≡ Kind.absent) (un : tracked w to ≡ false) where
    first : Created to w (create to o.id w)
    first = create-Created w to o.id inv nz free un

    filled :
        Filled to
          (L.by_name.entries o.map)
          first.world
          (copy_elements to (L.by_name.entries o.map) first.world)
    filled =
        copy_elements-Filled to (L.by_name.entries o.map) first.world first.consistent first.is
          (L.by_name.entries-DistinctKeys o.map) sendable (λ j there. first.empty j)

    made : (c : RpcStruct L) × (filled.world.heap to ≡ some (a_struct c))
    made = struct_of_kind (filled.world.heap to) (filled.kinds to ∙ first.is)

    abbrev marked : RpcStruct L
    marked = record made.0 { copyof = from }

    pub copy-Copied : Copied to from w (copy to from w)
    unfolding copy set_copyof
    copy-Copied = record {
      world = set_struct to marked filled.world;
      runs =
          rw
            (
              load-ok from w o live,
              and_then,
              first.runs,
              filled.runs,
              load-ok to filled.world made.0 made.1,
            )
            refl;
      consistent =
          same_map-IsConsistent to filled.world made.0 marked made.1 refl filled.consistent;
      heaps = λ a ne. ground (arith, nat_beq_iff to a, ne, filled.heaps a ne, first.heaps a ne);
      is =
          kind-same_map to filled.world made.0 marked made.1 refl to ∙ (filled.kinds to ∙ first.is);
      tracker = filled.tracker ∙ first.tracker;
      elements = λ j.
          slot-same_map to filled.world made.0 marked made.1 refl to j
          ∙ filled-slot to j (L.by_name.entries o.map) _ _ _ (filled.slots to j) (first.empty j)
              (L.by_name.lookup-entries o.map j ∙ sym (ap (element_in j) live));
    }
