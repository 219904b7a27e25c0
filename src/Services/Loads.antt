-- ===== src/Services/Loads.antt =====
-- Loading services starts each after its dependencies.
use ffi_rpc.Base.{
  ℕ, zero, suc, ◌<◌, ◌≤◌, ◌≡◌, refl, sym, inl, inr, false, none, some, List, [], ◌∷◌, ◌++◌, String,
  string_eq, All, All-mono, Option-cases, Bool-cases, append_assoc, append_nil, All-append,
  All-last, arith,
}
use ffi_rpc.Ext.Hash.{HashMap}
use ffi_rpc.World.Cmd.{Run, ok, and_then}
use ffi_rpc.Services.{Loaded, Entry, Load, Loading, Cmd, names_of, load_each, start, load_service}
use ffi_rpc.Services.Order.{
  mem, IsAcyclic, InOrder, finished, InOrder-append, finished-append, mem-finished,
  mem-finished_below, IsRest,
}

module _ (N : HashMap String) (load : Load N) (rank : String → ℕ) where
  -- The run ends, and has started services of `load` of rank below `bound` in order, so that none of
  -- the names is left.
  pub record Started (bound : ℕ) (done : List String) (l : Loading N) (names : List String)
      (r : Run (Loading N) (Unit {0})) : Type 0 where
    pub after : Loading N
    pub runs : r ≡ ok tt after
    pub events : List Loaded
    pub calls : after.calls ≡ l.calls ++ events
    pub order : InOrder N load done events
    pub below : All (λ (call : Loaded). rank call.service_name < bound) events
    pub rest : IsRest N load (finished done events) after.load
    pub gone : All (λ (name : String). N.get after.load name ≡ none) names

  nothing-Started :
      (bound : ℕ) (done : List String) (l : Loading N) (names : List String)
      → IsRest N load done l.load
      → All (λ (name : String). N.get l.load name ≡ none) names
      → Started bound done l names (ok tt l)
  nothing-Started bound done l names rest gone = record {
    after = l;
    runs = refl;
    events = [];
    calls = sym (append_nil l.calls);
    order = tt;
    below = tt;
    rest = rest;
    gone = gone;
  }

  -- What is gone stays so.
  gone-later :
      (done : List String) (events : List Loaded) (before after : Load N) (name : String)
      → IsRest N load done before
      → IsRest N load (finished done events) after
      → N.get before name ≡ none
      → N.get after name ≡ none
  gone-later done events before after name p q h = elim (Bool-cases (mem name done)) [
    | inl started ↦ rw (q name, mem-finished name done events started) refl
    | inr new ↦
        let never : N.get load name ≡ none = ground (arith, p name, new, h) in
        ground (arith, q name, never)
  ]

  -- One run after the other.
  Started-append :
      (b bound : ℕ) (done : List String) (l : Loading N) (names names' : List String)
      (r : Run (Loading N) (Unit {0})) (k : Cmd N (Unit {0}))
      → b ≤ bound
      → (first : Started b done l names r) → IsRest N load done l.load
      → Started bound (finished done first.events) first.after names' (k first.after)
      → Started bound done l (names ++ names') (and_then r (λ _. k))
  Started-append b bound done l names names' r k h first rest second = record {
    after = second.after;
    runs = rw first.runs second.runs;
    events = first.events ++ second.events;
    calls = rw (second.calls, first.calls) (append_assoc l.calls first.events second.events);
    order = InOrder-append N load done first.events second.events first.order second.order;
    below =
        All-append _ first.events second.events
          (All-mono first.events (λ call less. omega (arith, less)) first.below) second.below;
    rest = rw (finished-append done first.events second.events) second.rest;
    gone =
        All-append _ names names'
          (All-mono names
            (λ name.
              gone-later (finished done first.events) second.events first.after.load
                second.after.load name first.rest second.rest)
            first.gone)
          second.gone;
  }

  service_of :
      (done : List String) (name : String) (l : Loading N) (service : Entry N)
      → IsRest N load done l.load
      → N.get l.load name ≡ some service
      → (mem name done ≡ false) × (N.get load name ≡ some service)
  service_of done name l service rest there = ground (arith, rest name, there)

  -- A service whose dependencies are gone is started.
  start-Started :
      (name : String) (done : List String) (l : Loading N) (service : Entry N)
      → mem name done ≡ false
      → N.get load name ≡ some service
      → IsRest N load done l.load
      → All (λ (d : String). N.get l.load d ≡ none) (names_of N service.dependencies)
      → Started (suc (rank name)) done l (name ∷ []) (start N name service l)
  unfolding start
  start-Started name done l service new there rest gone = record {
    after = _;
    runs = refl;
    events = record { service_name = name; init_handler = service.init_handler } ∷ [];
    calls = refl;
    order = (
      (
        service,
        there,
        refl,
        All-mono (names_of N service.dependencies)
            (λ d h. elim (Bool-cases (mem d done)) [
              | inl started ↦ inl started
              | inr new ↦ inr (ground (arith, rest d, new, h))
            ])
            gone,
      ),
      new,
      tt,
    );
    below = (omega arith, tt);
    rest = λ other. ground (arith, N.get-remove l.load name other, rest other);
    gone = (ground (arith, N.get-remove l.load name name, string_eq.same_iff name name), tt);
  }

  -- A loop over names each of which is loaded.
  load_each-Started :
      (f : String → Cmd N (Unit {0})) (bound : ℕ) (names done : List String) (l : Loading N)
      → ((name : String) (done : List String) (l : Loading N)
          → rank name < bound
          → IsRest N load done l.load
          → Started bound done l (name ∷ []) (f name l))
      → All (λ (name : String). rank name < bound) names
      → IsRest N load done l.load
      → Started bound done l names (load_each N f names l)
  unfolding load_each
  load_each-Started f bound [] done l loads below rest = nothing-Started bound done l [] rest tt
  load_each-Started f bound (name ∷ names) done l loads below rest =
      let first = loads name done l below.0 rest in
      Started-append bound bound done l (name ∷ []) names (f name l) (load_each N f names)
        (omega arith) first rest
        (load_each-Started f bound names (finished done first.events) first.after loads below.1
          first.rest)

  Started-mono :
      (b b' : ℕ) (done : List String) (l : Loading N) (names : List String)
      (r : Run (Loading N) (Unit {0}))
      → b ≤ b'
      → Started b done l names r
      → Started b' done l names r
  Started-mono b b' done l names r h s = record {
    after = s.after;
    runs = s.runs;
    events = s.events;
    calls = s.calls;
    order = s.order;
    below = All-mono s.events (λ call k. omega (arith, k)) s.below;
    rest = s.rest;
    gone = s.gone;
  }

  Started-last :
      (b : ℕ) (done : List String) (l : Loading N) (names names' : List String)
      (r : Run (Loading N) (Unit {0}))
      → Started b done l (names ++ names') r
      → Started b done l names' r
  Started-last b done l names names' r s = record {
    after = s.after;
    runs = s.runs;
    events = s.events;
    calls = s.calls;
    order = s.order;
    below = s.below;
    rest = s.rest;
    gone = All-last _ names names' s.gone;
  }

  -- On a table of services in which dependencies have lower ranks, and of which some may be
  -- started before, rpc_service_load of a name ends within a depth above its rank. It then has
  -- started services one after the other, each once, with its own handler and behind the
  -- dependencies of it that the table has, none of higher rank than the name's; the table holds
  -- just what is not started, and the name is not in it.
  pub load_service-Started :
      (depth : ℕ) (name : String) (done : List String) (l : Loading N)
      → IsAcyclic N load rank
      → IsRest N load done l.load
      → rank name < depth
      → Started (suc (rank name)) done l (name ∷ []) (load_service N depth name l)
  unfolding load_service
  load_service-Started zero name done l acyclic rest enough = elim enough [ ]
  load_service-Started (suc depth) name done l acyclic rest enough =
      elim (Option-cases (N.get l.load name)) [
        | inl missing ↦
            rw (load_service, missing)
              (nothing-Started (suc (rank name)) done l (name ∷ []) rest (missing, tt))
        | inr (service, there) ↦
            let (new, original) = service_of done name l service rest there in
            let names = names_of N service.dependencies in
            let below : All (λ (d : String). rank d < rank name) names =
              acyclic name service original in
            let first =
              load_each-Started (load_service N depth) (rank name) names done l
                (λ d done' l' less rest'.
                  Started-mono (suc (rank d)) (rank name) done' l' (d ∷ [])
                    (load_service N depth d l') (omega arith)
                    (load_service-Started depth d done' l' acyclic rest' (omega arith)))
                below rest in
            let done' = finished done first.events in
            let new' : mem name done' ≡ false =
              mem-finished_below rank name done first.events new first.below in
            let last =
              start-Started name done' first.after service new' original first.rest first.gone in
            rw (load_service, there)
              (Started-last (suc (rank name)) done l names (name ∷ []) _ (
                Started-append (rank name) (suc (rank name)) done l names (name ∷ []) _
                  (start N name service) (omega arith) first rest last))
      ]
