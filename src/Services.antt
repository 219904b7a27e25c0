-- ===== src/Services.antt =====
-- The services of src/rpc_init.c, with what `rpc_service_load` calls and logs as a list.
pub mod Order
pub mod Adding
pub mod Loads
pub mod Sorted
use ffi_rpc.Base.{
  ℕ, zero, suc, Option, none, some, List, [], ◌∷◌, ◌++◌, String, string_eq, nat_eq, ◌==◌,
  if◌then◌else◌, is_some, map,
}
use mathlib.Core.Option.{map as map_option}
use ffi_rpc.Ext.Hash.{HashMap}
use ffi_rpc.World.Cmd.{Run, ok, fault, out_of_fuel, pure, ◌>>=◌, ◌>>◌}

-- `rpc_service_t`; the list of dependencies knows its length. A NULL handler is 0.
pub record RpcService : Type 0 where
  pub name : String
  pub dependecies : List String
  pub init_handler : ℕ

-- A call of a handler, and the line that is logged behind it with the service's name.
pub record Loaded : Type 0 where
  pub service_name : String
  pub init_handler : ℕ

-- The services of `rpc_init`, for the addresses of their handlers.
unfoldable pub init_rpc_modules : (rpc_object_init rpc_server_init : ℕ) → List RpcService
init_rpc_modules rpc_object_init rpc_server_init =
    record { name = "rpc_object"; dependecies = []; init_handler = rpc_object_init }
    ∷ record {
      name = "rpc_server";
      dependecies = "rpc_object" ∷ [];
      init_handler = rpc_server_init;
    }
    ∷ []

-- `N` is the hash table of a struct.
module _ (N : HashMap String) where
  -- The struct that `rpc_service_add` makes of a service. Without dependencies it has no element
  -- of that name.
  pub record Entry : Type 0 where
    pub init_handler : ℕ
    pub dependencies : Option (N.Map ℕ)

  -- The struct `load` of the services to load.
  abbrev pub Load : Type 0
  Load = N.Map Entry

  pub record Loading : Type 0 where
    pub load : Load
    pub calls : List Loaded

  abbrev pub Cmd : Type 0 → Type 0
  Cmd A = Loading → Run Loading A

  -- The loop of `rpc_service_add`; `none` is a failed `assert`. `rpc_struct_set` leaves a name that
  -- is there.
  unfoldable pub add_dependencies : Load → List String → N.Map ℕ → Option (N.Map ℕ)
  add_dependencies load [] dependencies = some dependencies
  add_dependencies load (name ∷ names) dependencies =
      let rest = add_dependencies load names (
        if is_some (N.get dependencies name)
        then dependencies
        else (N.put dependencies name 0).0) in
      if is_some (N.get load name) then rest else none

  -- The element "dependencies" of a new service.
  unfoldable pub dependencies_of : Load → List String → Option (Option (N.Map ℕ))
  unfolding add_dependencies
  dependencies_of load [] = some none
  dependencies_of load (name ∷ names) =
      map_option some (add_dependencies load (name ∷ names) (N.init ℕ))

  abbrev pub put_service : Load → RpcService → Option (N.Map ℕ) → Load
  put_service load service dependencies =
      (N.put load service.name
        (record { init_handler = service.init_handler; dependencies = dependencies })).0

  -- `rpc_service_add`. A NULL handler cannot be stored, so that the `assert` on it fails.
  unfoldable pub add : Load → RpcService → Option Load
  unfolding dependencies_of
  add load service =
      if is_some (N.get load service.name)
      then some load
      else if service.init_handler == 0
      then none
      else map_option (put_service load service) (dependencies_of load service.dependecies)

  -- `rpc_service_add_packet`
  unfoldable pub add_packet : Load → List RpcService → Option Load
  unfolding add
  add_packet load [] = some load
  add_packet load (service ∷ services) = elim (add load service) [
    | none ↦ none
    | some load' ↦ add_packet load' services
  ]

  -- The keys of a struct.
  abbrev pub names_in : {V : Type 0} → N.Map V → List String
  names_in {V} m = map (λ (e : String × V). e.0) (N.entries m)

  -- The keys of the element "dependencies", none if it is missing.
  unfoldable pub names_of : Option (N.Map ℕ) → List String
  names_of none = []
  names_of (some dependencies) = names_in dependencies

  -- The loop over the dependencies in `rpc_service_load`.
  unfoldable pub load_each : (String → Cmd (Unit {0})) → List String → Cmd (Unit {0})
  load_each f [] = pure tt
  load_each f (name ∷ names) = do f name; load_each f names

  -- The call of the handler, the log, and the removal of the service.
  unfoldable pub start : String → Entry → Cmd (Unit {0})
  start service_name service l = ok tt (record {
    load = N.remove l.load service_name;
    calls =
        l.calls ++ record { service_name = service_name; init_handler = service.init_handler } ∷ [];
  })

  -- `rpc_service_load`; the fuel bounds its depth.
  unfoldable pub load_service : ℕ → String → Cmd (Unit {0})
  unfolding load_each names_of start
  load_service zero service_name l = out_of_fuel
  load_service (suc depth) service_name l = elim (N.get l.load service_name) [
    | none ↦ ok tt l
    | some service ↦
        (do
          load_each (load_service depth) (names_of service.dependencies)
          start service_name service)
          l
  ]

  -- The loop of `rpc_service_load_all`. The names are those in the map, so that the name of a
  -- service that was removed is freed memory.
  unfoldable pub load_keys : (depth : ℕ) → List String → Cmd (Unit {0})
  unfolding load_service
  load_keys depth [] l = ok tt l
  load_keys depth (name ∷ names) l =
      let rest = (do load_service depth name; load_keys depth names) l in
      if is_some (N.get l.load name) then rest else fault

  -- `rpc_service_load_all`
  unfoldable pub load_all : Cmd (Unit {0})
  unfolding load_keys
  load_all l = load_keys (suc (N.size l.load)) (names_in l.load) l

  -- `rpc_init`
  unfoldable pub init : (rpc_object_init rpc_server_init : ℕ) → Option (Run Loading (Unit {0}))
  unfolding add_packet load_all init_rpc_modules
  init rpc_object_init rpc_server_init =
      map_option (λ load. load_all (record { load = load; calls = [] }))
        (add_packet (N.init Entry) (init_rpc_modules rpc_object_init rpc_server_init))
