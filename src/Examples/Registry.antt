-- ===== src/Examples/Registry.antt =====
-- The registries at 1 and 2, and an object at 3.
use ffi_rpc.Base.{[], ℕ, refl, arith}
use ffi_rpc.Ext.Models.{example_libs}
use ffi_rpc.Struct.Session.{creates, perform, Session, start, call, Session-IsConsistent}
use ffi_rpc.Struct.Invariant.{IsConsistent}
use ffi_rpc.Registry.{Objects, cobject_set, lobject_get, cobject_remove}
use ffi_rpc.Registry.Lookup.{Registered, cobject_set-Registered}
use ffi_rpc.Registry.Local.{Local, lobject_get-Local}
use ffi_rpc.Registry.Removal.{Removed, cobject_remove-Removed}
use ffi_rpc.Examples.Structs.{W, w2, w3, a_child, world_of, IsConsistent-2, IsConsistent-3}

abbrev objects : Objects
objects = record { cobject_bname = 1; cobject_bid = 2; protocache = 0; lobjects = 0 }

unfoldable w4 : W
unfolding w2 perform
w4 = world_of (perform (creates 3 "C") w2)

Session-4 : Session w2 w4
unfolding w4
Session-4 = call (creates 3 "C") 3 start (omega arith, refl, refl) refl

IsConsistent-4 : IsConsistent w4
IsConsistent-4 = Session-IsConsistent IsConsistent-2 Session-4

cobject_set-Registered_example :
    Registered objects "calculator" 3 w4 "C" (cobject_set objects "calculator" 3 w4)
unfolding w4
cobject_set-Registered_example =
    cobject_set-Registered objects "calculator" 3 w4 _ IsConsistent-4 (omega arith) refl
      (omega arith) (omega arith) (omega arith) (λ e. absurd (omega (arith, e)))
      (λ e. absurd (omega (arith, e))) refl refl refl refl refl

-- The child of the examples, by its name in the struct at 1.
cobject_remove-Removed_example :
    Removed objects
      (example_libs.queues.init ℕ)
      "child"
      (a_child 2)
      w3
      (cobject_remove objects (example_libs.queues.init ℕ) "child" w3)
unfolding w3
cobject_remove-Removed_example =
    cobject_remove-Removed objects (example_libs.queues.init ℕ) "child" (a_child 2) w3
      IsConsistent-3 refl (omega arith) refl refl refl (omega arith) (omega arith)

-- Local objects in the struct at 1, while a call of the object at 3 runs.
abbrev local : Objects
local = record objects { lobjects = 1 }

lobject_get-Local_example :
    Local local
      (example_libs.queues.add_last (example_libs.queues.init ℕ) 3)
      4
      "D"
      w4
      (lobject_get local (example_libs.queues.add_last (example_libs.queues.init ℕ) 3) 4 "D" w4)
unfolding w4
lobject_get-Local_example =
    lobject_get-Local local (example_libs.queues.add_last (example_libs.queues.init ℕ) 3) 4 "D" w4 3
      [] _ IsConsistent-4 refl refl (omega arith) refl (omega arith) refl (omega arith) refl refl
      (omega arith)
