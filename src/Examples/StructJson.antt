-- ===== src/Examples/StructJson.antt =====
-- A struct as JSON and back, with a child under two keys.
use ffi_rpc.Base.{
  string_eq, lookup-All, [], ◌∷◌, arith, ◌≢◌, false, ap, subst, inl, inr, ℕ, zero, suc, ◌+◌, ◌≡◌,
  refl, none, some, String,
}
use ffi_rpc.Types.{Element, rpc_number, rpc_string, rpc_struct, freefn_of, is_refcounted}
use ffi_rpc.Ext.JsonModel.{trees, tree_values}
use ffi_rpc.World.Cmd.{Run, ok, ◌>>=◌, ◌>>◌}
use ffi_rpc.Struct.Observe.{slot}
use ffi_rpc.Struct.{onzero_cb, record_origin, ctx_create_or_get}
use ffi_rpc.Origins
use ffi_rpc.Duplicates
use ffi_rpc.Struct.Api.{
  duplicate, copy_elements, set_copyof, create, set_internal, stored, storable, type_of,
}
use ffi_rpc.StructJson.Write.{serialize}
use ffi_rpc.StructJson.Read.{deserialize}
use ffi_rpc.Examples.Structs.{w1, Session-1, W, world_of, a_child, a_number}
use ffi_rpc.Struct.Session.{
  empty_world, empty_world-IsConsistent, sets, perform, Session, call, Session-IsConsistent,
}
use ffi_rpc.Struct.Invariant.{IsConsistent}
use ffi_rpc.StructJson.Copied.{IsSendable}
use ffi_rpc.StructJson.RoundTrip.{Returned, deserialize-serialize_struct}
use ffi_rpc.Struct.Observe.{Kind, kind, tracked}

-- The first address from 20 on at which there is no object, up to 30.
abbrev free_from : ℕ → ℕ → W → ℕ
free_from zero p w = p
free_from (suc n) p w = elim (w.heap p) [ none ↦ p | some x ↦ free_from n (p + 1) w ]

abbrev pub malloc : W → ℕ
malloc w = free_from 10 20 w

abbrev pub new_id : W → String
new_id w = "fresh"

abbrev pub decimal : ℕ → String
decimal zero = "0"
decimal (suc zero) = "1"
decimal (suc (suc i)) = "many"

parent : W
unfolding create set_internal stored storable is_refcounted freefn_of onzero_cb record_origin
    ctx_create_or_get Origins.add_origin Origins.create
parent = world_of (
    (do
      create 1 "A"
      create 2 "B"
      set_internal 2 "inner" (a_number 9)
      set_internal 1 "n" (a_number 7)
      set_internal 1 "child" (a_child 2)
      set_internal 1 "again" (a_child 2))
      empty_world)

abbrev there_and_back : Run W ℕ
there_and_back =
    (do
      json ← serialize trees tree_values malloc (λ b. b) 3 1
      deserialize trees tree_values malloc new_id decimal 3 (some json))
      parent

-- The number came back.
sent_number : slot (world_of there_and_back) 20 "n" ≡ some (a_number 7)
unfolding parent serialize deserialize Origins.clear_origin Duplicates.visit
    Duplicates.visit_pointer copy_elements set_copyof
sent_number = refl

-- The child came back once, under both keys: 20 is the new parent.
sent_child : slot (world_of there_and_back) 20 "child" ≡ slot (world_of there_and_back) 20 "again"
unfolding parent serialize deserialize Origins.clear_origin Duplicates.visit
    Duplicates.visit_pointer copy_elements set_copyof
sent_child = refl

sent_again : type_of 20 "again" (world_of there_and_back) ≡ ok rpc_struct (world_of there_and_back)
unfolding parent serialize deserialize Origins.clear_origin Duplicates.visit
    Duplicates.visit_pointer copy_elements set_copyof type_of
sent_again = refl

-- A struct with a number of two bytes and a text.
abbrev small : Element
small = record { word = 300; text = ""; length = 2; type = rpc_number }

abbrev greeting : Element
greeting = record { word = 5; text = "hi"; length = 3; type = rpc_string }

unfoldable flat_2 : W
unfolding perform w1 storable stored is_refcounted
flat_2 = world_of (perform (sets 1 "small" small) w1)

unfoldable pub flat : W
unfolding perform flat_2 storable stored is_refcounted
flat = world_of (perform (sets 1 "greeting" greeting) flat_2)

flat-Session : Session empty_world flat
unfolding flat
flat-Session =
    call (sets 1 "greeting" greeting) 0
      (call (sets 1 "small" small) 0 Session-1 (refl, λ _ h. absurd (ground (arith, h))) refl)
      (refl, λ _ h. absurd (ground (arith, h))) refl

pub flat-IsConsistent : IsConsistent flat
flat-IsConsistent = Session-IsConsistent empty_world-IsConsistent flat-Session

pub flat-IsSendable : (k : String) (e : Element) → slot flat 1 k ≡ some e → IsSendable e
unfolding flat
flat-IsSendable k e at =
    lookup-All (λ (x : String × Element). IsSendable x.1)
      (("greeting", record greeting { word = duplicate }) ∷ ("small", small) ∷ []) k e at
      (inr (refl, omega arith), (inl refl, tt))

sent :
    (v : W) (j : _)
    → serialize trees tree_values malloc (λ b. b) 1 1 flat ≡ ok j v
    → (malloc v ≢ 0) × (kind v (malloc v) ≡ Kind.absent) × (tracked v (malloc v) ≡ false)
unfolding flat serialize Duplicates.visit Duplicates.visit_pointer copy_elements set_copyof
sent v j e =
    let same : world_of (serialize trees tree_values malloc (λ b. b) 1 1 flat) ≡ v =
      ap world_of e in
    subst
      (λ (u : W).
        (malloc u ≢ 0) × (kind u (malloc u) ≡ Kind.absent) × (tracked u (malloc u) ≡ false))
      same (omega arith, refl, refl)

deserialize-serialize_struct_example :
    Returned trees tree_values malloc (λ b. b) 1 flat 0 new_id decimal malloc
unfolding flat
deserialize-serialize_struct_example =
    deserialize-serialize_struct trees tree_values malloc (λ b. b) 1 _ flat flat-IsConsistent refl
      flat-IsSendable (omega arith) refl refl refl (omega arith) 0 new_id decimal malloc sent
