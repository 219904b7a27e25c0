-- ===== src/Services/Order.antt =====
-- The order in which services may be started.
use ffi_rpc.Base.{
  ℕ, ◌<◌, ◌≡◌, ◌⊎◌, Bool, true, false, none, some, List, [], ◌∷◌, ◌++◌, String, string_eq, ◌==◌,
  if◌then◌else◌, All, arith, refl, ap,
}
use ffi_rpc.Ext.Hash.{HashMap}
use ffi_rpc.Services.{Loaded, Entry, Load, names_of}

abbrev pub mem : String → List String → Bool
mem name [] = false
mem name (other ∷ names) = if other == name then true else mem name names

-- The services that are started after the calls.
abbrev pub finished : List String → List Loaded → List String
finished done [] = done
finished done (call ∷ calls) = finished (call.service_name ∷ done) calls

pub finished-append :
    (done : List String) (first rest : List Loaded)
    → finished done (first ++ rest) ≡ finished (finished done first) rest
finished-append done [] rest = refl
finished-append done (call ∷ first) rest = finished-append (call.service_name ∷ done) first rest

-- What is started stays so.
pub mem-finished :
    (name : String) (done : List String) (calls : List Loaded)
    → mem name done ≡ true
    → mem name (finished done calls) ≡ true
mem-finished name done [] h = h
mem-finished name done (call ∷ calls) h =
    mem-finished name (call.service_name ∷ done) calls (ground (arith, h))

-- A name of higher rank is not among the services that were started.
pub mem-finished_below :
    (rank : String → ℕ) (name : String) (done : List String) (calls : List Loaded)
    → mem name done ≡ false
    → All (λ (call : Loaded). rank call.service_name < rank name) calls
    → mem name (finished done calls) ≡ false
mem-finished_below rank name done [] h below = h
mem-finished_below rank name done (call ∷ calls) h below =
    mem-finished_below rank name (call.service_name ∷ done) calls
      (ground (arith, h, below.0, ap rank, string_eq.same_iff call.service_name name)) below.1

module _ (N : HashMap String) where
  -- A service of the table is behind all its dependencies.
  abbrev pub IsAcyclic : Load N → (String → ℕ) → Type 0
  IsAcyclic load rank =
      (name : String) (service : Entry N)
      → N.get load name ≡ some service
      → All (λ (d : String). rank d < rank name) (names_of N service.dependencies)

  -- The calls start services of the table, after those in `done`: each once, with its handler, and
  -- after those of its dependencies that the table has.
  abbrev pub InOrder : Load N → List String → List Loaded → Type 0
  InOrder load done [] = Unit
  InOrder load done (call ∷ calls) =
      ((service : Entry N) × (N.get load call.service_name ≡ some service)
        × (call.init_handler ≡ service.init_handler)
        × All (λ (d : String). (mem d done ≡ true) ⊎ (N.get load d ≡ none))
            (names_of N service.dependencies))
      × (mem call.service_name done ≡ false)
      × InOrder load (call.service_name ∷ done) calls

  pub InOrder-append :
      (load : Load N) (done : List String) (first rest : List Loaded)
      → InOrder load done first
      → InOrder load (finished done first) rest
      → InOrder load done (first ++ rest)
  InOrder-append load done [] rest p q = q
  InOrder-append load done (call ∷ first) rest p q =
      (p.0, p.1, InOrder-append load (call.service_name ∷ done) first rest p.2 q)

  -- The table holds what is not started of the original one.
  abbrev pub IsRest : Load N → List String → Load N → Type 0
  IsRest load done rest =
      (name : String) → N.get rest name ≡ (if mem name done then none else N.get load name)
