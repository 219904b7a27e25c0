-- ===== src/Examples/DeepCopy.antt =====
-- A struct with a number copied, and one with a child.
use ffi_rpc.Base.{ℕ, ◌≡◌, refl, some, true, arith, is_some, if◌then◌else◌}
use ffi_rpc.Types.{rpc_struct, is_refcounted, is_pointer}
use ffi_rpc.Struct.Observe.{slot}
use ffi_rpc.Struct.Invariant.{IsConsistent}
use ffi_rpc.Struct.Api.{storable, stored, set_copyof}
use ffi_rpc.Struct.Session.{
  creates, sets, perform, Session, start, call, empty_world, empty_world-IsConsistent,
  Session-IsConsistent,
}
use ffi_rpc.DeepCopy.{deep_copy}
use ffi_rpc.DeepCopy.Plain.{DeepCopied, deep_copy-DeepCopied}
use ffi_rpc.Examples.Structs.{W, w1, w3, world_of, a_number}

unfoldable w_number : W
unfolding w1 perform storable stored is_refcounted is_pointer
w_number = world_of (perform (sets 1 "n" (a_number 7)) w1)

Session-number : Session empty_world w_number
unfolding w_number
Session-number =
    call (sets 1 "n" (a_number 7)) 0 (call (creates 1 "A") 1 start (omega arith, refl, refl) refl)
      (refl, λ _ c. absurd (ground (arith, c))) refl

IsConsistent-number : IsConsistent w_number
IsConsistent-number = Session-IsConsistent empty_world-IsConsistent Session-number

-- Addresses from 5 on.
abbrev next_address : W → ℕ
next_address w = if is_some (w.heap 5) then 6 else 5

deep_copy-DeepCopied_example : DeepCopied 5 1 w_number (deep_copy next_address true 1 1 w_number)
unfolding w_number storable is_refcounted is_pointer
deep_copy-DeepCopied_example =
    deep_copy-DeepCopied next_address true 0 1 _ w_number IsConsistent-number refl
      ((refl, refl), tt) (omega arith) refl refl

-- The child is copied too.
deep_child :
    slot (world_of (deep_copy next_address true 2 1 w3)) 5 "child"
    ≡ some (record { word = 6; text = ""; length = 8; type = rpc_struct })
unfolding w3 deep_copy is_refcounted set_copyof
deep_child = refl
