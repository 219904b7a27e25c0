-- ===== src/Struct/Filling.antt =====
-- Filling a struct with elements that count no references, one after the other, and changing the
-- fields of a struct besides its map.
use ffi_rpc.Base.{
  ℕ, ◌≡◌, ◌≢◌, refl, sym, ap, ◌∙◌, true, false, Option, none, some, List, ◌∷◌, String, nat_eq,
  string_eq, ◌==◌, nat_beq_iff, if◌then◌else◌, ◌&&◌, is_some, lookup, Bool-cases, inl, inr, arith,
}
use mathlib.Core.Option.{map as map_option}
use ffi_rpc.Types.{Element, is_refcounted}
use ffi_rpc.Ext.Libs.{Libs}
use ffi_rpc.World.{World, RpcStruct, Object, a_struct, set_struct}
use ffi_rpc.World.Cmd.{Run, ok}
use ffi_rpc.Struct.Observe.{kind, slot}
use ffi_rpc.Struct.Invariant.{IsConsistent}
use ffi_rpc.Struct.Api.{storable, stored, set_internal}
use ffi_rpc.Struct.Store.{Stored}

-- An element that is stored and counts no references.
abbrev pub IsPlain : Element → Type 0
IsPlain e = (is_refcounted e.type ≡ false) × (storable e ≡ true)

abbrev pub stored_or : Option Element → Option Element → Option Element
stored_or none old = old
stored_or (some e) old = some (stored e)

-- A slot behind one store and the rest of them.
slots-cons :
    (copy a : ℕ) (key j : String) (e : Element) (es : List (String × Element))
    (before between after : Option Element)
    → lookup key es ≡ none
    → between ≡ (if (copy == a) && (key == j) then some (stored e) else before)
    → after ≡ (if copy == a then stored_or (lookup j es) between else between)
    → after ≡ (if copy == a then stored_or (lookup j ((key, e) ∷ es)) before else before)
slots-cons copy a key j e es before between after new first rest = elim (Bool-cases (copy == a)) [
  | inr other ↦ ground (arith, other, first, rest)
  | inl same ↦ elim (Bool-cases (key == j)) [
    | inr differ ↦ ground (arith, same, differ, first, rest)
    | inl hit ↦
        let none_later : lookup j es ≡ none =
          ap (λ (k : String). lookup k es) (sym ((string_eq.same_iff key j).0 hit)) ∙ new in
        ground (arith, same, hit, first, rest, none_later)
  ]
]

-- A slot of a struct that was empty before it was filled.
pub filled-slot :
    (copy : ℕ) (j : String) (es : List (String × Element)) (before after original : Option Element)
    → after ≡ (if copy == copy then stored_or (lookup j es) before else before)
    → before ≡ none
    → lookup j es ≡ original
    → after ≡ map_option stored original
filled-slot copy j es before after none filled empty found =
    ground (arith, filled, empty, found, nat_beq_iff copy copy)
filled-slot copy j es before after (some e) filled empty found =
    ground (arith, filled, empty, found, nat_beq_iff copy copy)

module _ {L : Libs} where
  -- The elements are stored in the copy, and nothing else changed.
  pub record Filled (copy : ℕ) (es : List (String × Element)) (w : World L)
      (m : Run (World L) (Unit {0})) : Type 0 where
    pub world : World L
    pub runs : m ≡ ok tt world
    pub consistent : IsConsistent world
    pub kinds : (a : ℕ) → kind world a ≡ kind w a
    pub tracker : world.ptracker ≡ w.ptracker
    pub heaps : (a : ℕ) → copy ≢ a → world.heap a ≡ w.heap a
    pub slots :
        (a : ℕ) (j : String)
        → slot world a j ≡ (if copy == a then stored_or (lookup j es) (slot w a j) else slot w a j)

  -- The rest of the keys is still free behind a store.
  pub absent_rest :
      (copy : ℕ) (key : String) (e : Element) (es : List (String × Element)) (w : World L)
      → (first : Stored copy key e w (set_internal copy key e w)) → lookup key es ≡ none
      → ((j : String) → is_some (lookup j ((key, e) ∷ es)) ≡ true → slot w copy j ≡ none)
      → (j : String) → is_some (lookup j es) ≡ true
      → slot first.world copy j ≡ none
  absent_rest copy key e es w first new absent j there = ground (
    arith,
    first.slots copy j,
    absent j,
    there,
    new,
    string_eq.same_iff key j,
    ap (λ (k : String). lookup k es),
  )

  -- A store, and the rest of them.
  pub Filled-cons :
      (copy : ℕ) (key : String) (e : Element) (es : List (String × Element)) (w : World L)
      → (first : Stored copy key e w (set_internal copy key e w)) → IsPlain e
      → lookup key es ≡ none
      → (m m' : Run (World L) (Unit {0})) → Filled copy es first.world m'
      → m ≡ m'
      → Filled copy ((key, e) ∷ es) w m
  Filled-cons copy key e es w first plain new m m' rest runs = record {
    world = rest.world;
    runs = runs ∙ rest.runs;
    consistent = rest.consistent;
    kinds = λ a. rest.kinds a ∙ first.kinds a;
    tracker = rest.tracker ∙ first.tracker plain.0;
    heaps = λ a ne. rest.heaps a ne ∙ first.heaps a ne;
    slots = λ a j. slots-cons copy a key j e es _ _ _ new (first.slots a j) (rest.slots a j);
  }

  -- A memory with the same slots and kinds is as consistent.
  pub IsConsistent-same :
      (w : World L) (h : ℕ → Option (Object L))
      → ((a : ℕ) (j : String) → slot (record w { heap = h }) a j ≡ slot w a j)
      → ((a : ℕ) → kind (record w { heap = h }) a ≡ kind w a)
      → IsConsistent w
      → IsConsistent (record w { heap = h })
  IsConsistent-same w h slots kinds inv = record {
    forward = λ s k e at counts settled. inv.forward s k e (sym (slots s k) ∙ at) counts settled;
    backward = λ p k a nz counted.
        let (e, at, word, counts) = inv.backward p k a nz counted in
        (e, slots a k ∙ at, word, counts);
    valid = inv.valid;
    fits = λ p r here. rw (kinds p) (inv.fits p r here);
    null = kinds 0 ∙ inv.null;
  }

  -- A struct with the same map.
  module _ (s : ℕ) (w : World L) (o o' : RpcStruct L) (live : w.heap s ≡ some (a_struct o))
      (same : o'.map ≡ o.map) where
    pub slot-same_map : (a : ℕ) (j : String) → slot (set_struct s o' w) a j ≡ slot w a j
    slot-same_map a j = elim (Bool-cases (s == a)) [
      | inl hit ↦ rw hit (
          rw (← (nat_beq_iff s a).0 hit, live)
            (ap (λ (m : L.by_name.Map Element). L.by_name.get m j) same))
      | inr miss ↦ rw miss refl
    ]

    pub kind-same_map : (a : ℕ) → kind (set_struct s o' w) a ≡ kind w a
    kind-same_map a = elim (Bool-cases (s == a)) [
      | inl hit ↦ rw hit (rw (← (nat_beq_iff s a).0 hit, live) refl)
      | inr miss ↦ rw miss refl
    ]

    pub same_map-IsConsistent : IsConsistent w → IsConsistent (set_struct s o' w)
    same_map-IsConsistent inv = IsConsistent-same w _ slot-same_map kind-same_map inv
