-- ===== src/Examples/Services.antt =====
-- The services of `rpc_init`, on a table that shows new entries first.
use ffi_rpc.Base.{ℕ, suc, ◌≡◌, refl, inl, Option, none, some, List, [], ◌∷◌, String, string_eq}
use ffi_rpc.Ext.Hash.{HashMap}
use ffi_rpc.Ext.Models.{example_libs}
use ffi_rpc.World.Cmd.{fault}
use ffi_rpc.Services.{
  Loaded, Entry, Load, add_packet, init_rpc_modules, load_service, load_all, init, names_of,
  put_service,
}
use ffi_rpc.Services.Loads.{Started, load_service-Started}
use ffi_rpc.Services.Adding.{IsOrdered, add_packet-IsOrdered, init-IsOrdered, IsOrdered-IsAcyclic}
use ffi_rpc.Services.Sorted.{Ran, load_all-Ran}

abbrev N : HashMap String
N = example_libs.by_name

abbrev or_empty : Option (Load N) → Load N
or_empty none = N.init (Entry N)
or_empty (some load) = load

abbrev modules : Load N
unfolding add_packet init_rpc_modules
modules = or_empty (add_packet N (N.init (Entry N)) (init_rpc_modules 100 200))

add_packet-IsOrdered_example : IsOrdered N modules
unfolding add_packet init_rpc_modules
add_packet-IsOrdered_example =
    add_packet-IsOrdered N (init_rpc_modules 100 200) (N.init (Entry N)) modules refl
      (init-IsOrdered N)

-- The server's service is shown first here, so that the name of the other one is freed.
init_faults : init N 100 200 ≡ some fault
unfolding init
init_faults = refl

-- A table that shows the object service first.
abbrev object_only : Load N
object_only =
    put_service N (N.init (Entry N))
      (record { name = "rpc_object"; dependecies = []; init_handler = 100 }) none

abbrev sorted : Load N
sorted =
    put_service N
      (put_service N (N.init (Entry N))
        (record { name = "rpc_server"; dependecies = []; init_handler = 200 })
        (some (N.put (N.init ℕ) "rpc_object" 0).0))
      (record { name = "rpc_object"; dependecies = []; init_handler = 100 }) none

calls : List Loaded
calls =
    record { service_name = "rpc_object"; init_handler = 100 }
    ∷ record { service_name = "rpc_server"; init_handler = 200 }
    ∷ []

load_all-Ran_example :
    Ran N sorted [] calls
      (record { load = sorted; calls = [] })
      (load_all N (record { load = sorted; calls = [] }))
unfolding names_of calls
load_all-Ran_example =
    load_all-Ran N sorted calls
      ((_, refl, refl, tt), refl, ((_, refl, refl, (inl refl, tt)), refl, tt)) refl

ordered : IsOrdered N modules
unfolding add_packet init_rpc_modules
ordered =
    add_packet-IsOrdered N (init_rpc_modules 100 200) (N.init (Entry N)) modules refl
      (init-IsOrdered N)

load_service-Started_example :
    Started N modules ordered.rank
      (suc (ordered.rank "rpc_server"))
      []
      (record { load = modules; calls = [] })
      ("rpc_server" ∷ [])
      (load_service N 2 "rpc_server" (record { load = modules; calls = [] }))
unfolding add_packet init_rpc_modules
load_service-Started_example =
    load_service-Started N modules ordered.rank 2 "rpc_server" []
      (record { load = modules; calls = [] }) (IsOrdered-IsAcyclic N modules ordered) (λ name. refl)
      (ordered.bound "rpc_server" refl)
