-- ===== src/Examples/Structs.antt =====
-- Two structs, the second held by the first under one key.
use ffi_rpc.Base.{ℕ, ◌≡◌, refl, inl, none, true, arith}
use ffi_rpc.Ext.Models.{example_libs}
use ffi_rpc.Types.{Element, is_refcounted, freefn_of, rpc_struct, rpc_number}
use ffi_rpc.World.{World}
use ffi_rpc.World.Cmd.{Run, ok, fault, out_of_fuel}
use ffi_rpc.Struct.Observe.{Kind, kind, slot, tracked}
use ffi_rpc.Struct.Invariant.{IsConsistent, nothing_pending}
use ffi_rpc.Struct.Remove.{Removed}
use ffi_rpc.Struct.{onzero_cb, record_origin, ctx_create_or_get}
use ffi_rpc.Origins
use ffi_rpc.Struct.Api.{
  storable, stored, create, set_internal, remove, free, refcount, copy, copy_elements, set_copyof,
}
use ffi_rpc.Struct.Store.{Stored, set_internal-Stored, set_internal-decides, IsDecided}
use ffi_rpc.Struct.Safety.{Created, Released, create-Created, free-Released, remove-Removed}
use ffi_rpc.Struct.Session.{
  creates, sets, frees, perform, Session, start, call, Performed, empty_world, Session-IsConsistent,
  empty_world-IsConsistent, Session-Performed, Session-tracked,
}

abbrev pub W : Type 0
W = World example_libs

abbrev pub world_of : {A : Type 0} → Run W A → W
world_of (ok a w) = w
world_of fault = empty_world
world_of out_of_fuel = empty_world

abbrev pub a_child : ℕ → Element
a_child p = record { word = p; text = ""; length = 8; type = rpc_struct }

abbrev pub a_number : ℕ → Element
a_number n = record { word = n; text = ""; length = 8; type = rpc_number }

-- One struct, two, and the second held by the first.
unfoldable pub w1 : W
unfolding perform
w1 = world_of (perform (creates 1 "A") empty_world)

unfoldable pub w2 : W
unfolding perform w1
w2 = world_of (perform (creates 2 "B") w1)

unfoldable pub w3 : W
unfolding perform w2 storable stored is_refcounted freefn_of onzero_cb record_origin
    ctx_create_or_get Origins.add_origin Origins.create
w3 = world_of (perform (sets 1 "child" (a_child 2)) w2)

pub Session-1 : Session empty_world w1
unfolding w1
Session-1 = call (creates 1 "A") 1 start (omega arith, refl, refl) refl

Session-2 : Session empty_world w2
unfolding w2
Session-2 = call (creates 2 "B") 2 Session-1 (omega arith, refl, refl) refl

Session-3 : Session empty_world w3
unfolding w3
Session-3 = call (sets 1 "child" (a_child 2)) 0 Session-2 (refl, λ _ _. refl) refl

pub IsConsistent-2 : IsConsistent w2
IsConsistent-2 = Session-IsConsistent empty_world-IsConsistent Session-2

pub IsConsistent-3 : IsConsistent w3
IsConsistent-3 = Session-IsConsistent empty_world-IsConsistent Session-3

create-Created_example : Created 3 w3 (create 3 "C" w3)
unfolding w3
create-Created_example = create-Created w3 3 "C" IsConsistent-3 (omega arith) refl refl

set_internal-Stored_example :
    Stored 1 "child" (a_child 2) w2 (set_internal 1 "child" (a_child 2) w2)
unfolding w2 perform storable freefn_of
set_internal-Stored_example =
    set_internal-Stored 1 "child" (a_child 2) w2 IsConsistent-2 refl refl refl (λ _. refl)

set_internal-decides_example : IsDecided 1 "other" (a_child 0) w3
unfolding w3
set_internal-decides_example =
    set_internal-decides 1 "other" (a_child 0) w3 IsConsistent-3 refl (λ nz. absurd (nz refl))

free-Released_example : Released 2 w3 (free 2 w3)
unfolding w3
free-Released_example = free-Released w3 2 IsConsistent-3 (omega arith) (inl refl)

remove-Removed_example : Removed nothing_pending w3 1 "child" (remove 1 "child" w3)
unfolding w3
remove-Removed_example = remove-Removed w3 1 "child" IsConsistent-3 refl refl

Session-Performed_example : Performed (perform (frees 2) w3)
unfolding w3
Session-Performed_example = Session-Performed Session-3 (frees 2) (omega arith, inl refl)

Session-tracked_example : tracked w3 2 ≡ true
unfolding w3
Session-tracked_example = Session-tracked Session-3 1 "child" (a_child 2) refl refl

-- Freeing the child takes it out of its parent.
free_child : slot (world_of (free 2 w3)) 1 "child" ≡ none
unfolding w3 free
free_child = refl

-- Each holds the other, and nobody else counts them: removing a key then faults.
cyclic : W
unfolding w3
cyclic = world_of (perform (sets 2 "parent" (a_child 1)) w3)

cyclic_remove : remove 1 "child" cyclic ≡ fault
unfolding cyclic remove Origins.clear_origin
cyclic_remove = refl

-- To free one of them is safe.
cyclic_free : kind (world_of (free 1 cyclic)) 2 ≡ Kind.absent
unfolding cyclic free Origins.clear_origin
cyclic_free = refl

-- A copy counts its element twice.
copied_twice : refcount 2 (world_of (copy 3 1 w3)) ≡ 3
unfolding w3 copy copy_elements set_copyof create
copied_twice = refl
