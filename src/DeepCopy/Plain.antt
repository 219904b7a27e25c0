-- ===== src/DeepCopy/Plain.antt =====
-- Deep copies of structs that hold no other objects.
use ffi_rpc.Base.{
  ℕ, suc, ◌≡◌, ◌≢◌, refl, sym, ap, ◌∙◌, Bool, true, false, none, some, List, [], ◌∷◌, String,
  nat_eq, string_eq, nat_beq_iff, is_some, All, lookup, DistinctKeys, arith,
}
use mathlib.Core.Option.{map as map_option}
use ffi_rpc.Types.{Element, is_refcounted}
use ffi_rpc.Ext.Libs.{Libs}
use ffi_rpc.World.{World, RpcStruct, a_struct, set_struct}
use ffi_rpc.World.Cmd.{Run, ok, and_then}
use ffi_rpc.Struct.{Cmd}
use ffi_rpc.Struct.Observe.{Kind, kind, slot, element_in, tracked, load-ok, struct_of_kind}
use ffi_rpc.Struct.Invariant.{IsConsistent}
use ffi_rpc.Struct.Api.{stored, set_copyof}
use ffi_rpc.Struct.Store.{set_internal-Stored}
use ffi_rpc.Struct.Safety.{create-Created}
use ffi_rpc.DeepCopy.{copy_element, deep_copy_elements, deep_copy}
use ffi_rpc.Struct.Filling.{
  filled-slot, IsPlain, Filled, Filled-cons, absent_rest, slot-same_map, kind-same_map,
  same_map-IsConsistent,
}

module _ {L : Libs} where
  module _ (fresh : World L → ℕ) (left_first : Bool) (deep : ℕ → Cmd L ℕ) (copy : ℕ) where
    copy_element-plain :
        (duptrack : L.by_ptr.Map ℕ) (key : String) (e : Element) (w : World L)
        → is_refcounted e.type ≡ false
        → copy_element fresh left_first deep copy duptrack key e w ≡ ok (e, duptrack) w
    unfolding copy_element
    copy_element-plain duptrack key e w plain = rw plain refl

    deep_copy_elements-Filled :
        (duptrack : L.by_ptr.Map ℕ) (es : List (String × Element)) (w : World L)
        → IsConsistent w
        → kind w copy ≡ Kind.struct
        → DistinctKeys es
        → All (λ (x : String × Element). IsPlain x.1) es
        → ((j : String) → is_some (lookup j es) ≡ true → slot w copy j ≡ none)
        → Filled copy es w (deep_copy_elements fresh left_first deep copy duptrack es w)
    unfolding deep_copy_elements
    deep_copy_elements-Filled duptrack [] w inv is distinct plain absent = record {
      world = w;
      runs = refl;
      consistent = inv;
      kinds = λ a. refl;
      tracker = refl;
      heaps = λ a ne. refl;
      slots = λ a j. ground arith;
    }
    deep_copy_elements-Filled duptrack ((key, e) ∷ es) w inv is distinct plain absent =
        let first =
          set_internal-Stored copy key e w inv is
            (absent key (ground (arith, string_eq.same_iff key key))) plain.0.1
            (λ counts. absurd (ground (arith, plain.0.0, counts))) in
        let rest =
          deep_copy_elements-Filled duptrack es first.world first.consistent (first.kinds copy ∙ is)
            distinct.1 plain.1 (absent_rest copy key e es w first distinct.0 absent) in
        Filled-cons copy key e es w first plain.0 distinct.0 _ _ rest
          (rw (copy_element-plain duptrack key e w plain.0.0, first.runs) refl)

  module _ (copy original : ℕ) (w : World L) (c : RpcStruct L)
      (live : w.heap copy ≡ some (a_struct c)) where
    abbrev with_copyof : RpcStruct L
    with_copyof = record c { copyof = original }

    set_copyof-ok : set_copyof copy original w ≡ ok tt (set_struct copy with_copyof w)
    unfolding set_copyof
    set_copyof-ok = rw (load-ok copy w c live) refl

  -- The outcome of a deep copy: a new struct with the elements of the original.
  pub record DeepCopied (copy original : ℕ) (w : World L) (m : Run (World L) ℕ) : Type 0 where
    pub world : World L
    pub runs : m ≡ ok copy world
    pub consistent : IsConsistent world
    pub is : kind world copy ≡ Kind.struct
    pub elements : (j : String) → slot world copy j ≡ map_option stored (slot w original j)
    pub others : (a : ℕ) (j : String) → copy ≢ a → slot world a j ≡ slot w a j

  -- In a consistent memory, for a live struct whose elements count no references and can be
  -- stored, where malloc returns an address other than NULL that holds no object and is not
  -- tracked, rpc_struct_deep_copy ends without a fault with a new struct at that address, which
  -- has the original's elements, each as rpc_struct_set_internal stores it; the elements of all
  -- other structs are what they were, and the memory stays consistent.
  pub deep_copy-DeepCopied :
      (fresh : World L → ℕ) (left_first : Bool) (depth original : ℕ) (o : RpcStruct L) (w : World L)
      → IsConsistent w
      → w.heap original ≡ some (a_struct o)
      → All (λ (x : String × Element). IsPlain x.1) (L.by_name.entries o.map)
      → fresh w ≢ 0
      → kind w (fresh w) ≡ Kind.absent
      → tracked w (fresh w) ≡ false
      → DeepCopied (fresh w) original w (deep_copy fresh left_first (suc depth) original w)
  unfolding deep_copy
  deep_copy-DeepCopied fresh left_first depth original o w inv live plain nz free un =
      let copy = fresh w in
      let es = L.by_name.entries o.map in
      let first = create-Created w copy o.id inv nz free un in
      let filled =
        deep_copy_elements-Filled fresh left_first (deep_copy fresh left_first depth) copy
          (L.by_ptr.init ℕ) es first.world first.consistent first.is
          (L.by_name.entries-DistinctKeys o.map) plain (λ j there. first.empty j) in
      let is : kind filled.world copy ≡ Kind.struct = filled.kinds copy ∙ first.is in
      let (c, made) = struct_of_kind (filled.world.heap copy) is in
      let last =
        slot-same_map copy filled.world c (with_copyof copy original filled.world c made) made
          refl in
      record {
        world = set_struct copy (with_copyof copy original filled.world c made) filled.world;
        runs =
            rw
              (
                load-ok original w o live,
                and_then,
                first.runs,
                filled.runs,
                set_copyof-ok copy original filled.world c made,
              )
              refl;
        consistent =
            same_map-IsConsistent copy filled.world c
              (with_copyof copy original filled.world c made) made refl filled.consistent;
        is =
            kind-same_map copy filled.world c (with_copyof copy original filled.world c made) made
              refl copy
            ∙ is;
        elements = λ j.
            last copy j
            ∙ filled-slot copy j es _ _ _ (filled.slots copy j) (first.empty j)
                (L.by_name.lookup-entries o.map j ∙ sym (ap (element_in j) live));
        others = λ a j ne.
            ground (arith, last a j, filled.slots a j, first.slots a j, nat_beq_iff copy a, ne);
      }
