-- ===== src/Services/Adding.antt =====
-- A table of services that `rpc_service_add` makes has no cycles.
use ffi_rpc.Base.{
  ℕ, ◌<◌, ◌≡◌, sym, ap, ◌∙◌, inl, inr, Bool, true, Option, none, some, List, [], ◌∷◌, String,
  string_eq, nat_eq, ◌==◌, if◌then◌else◌, All, All-mono, All-of_lookup, Option-cases, Bool-cases,
  is_some, subst, All-map, arith,
}
use mathlib.Core.Option.{some-injective, map-eq-some_iff}
use ffi_rpc.Ext.Hash.{HashMap}
use ffi_rpc.Services.{
  RpcService, Entry, Load, names_of, names_in, add_dependencies, dependencies_of, put_service, add,
  add_packet,
}
use ffi_rpc.Services.Order.{IsAcyclic}

module _ (N : HashMap String) where
  abbrev pub has : Load N → String → Bool
  has load name = is_some (N.get load name)

  -- The dependencies of the services are there, and of lower rank, and ranks are below the number of
  -- services.
  pub record IsOrdered (load : Load N) : Type 0 where
    pub rank : String → ℕ
    pub closed :
        (name : String) (service : Entry N)
        → N.get load name ≡ some service
        → All
            (λ (d : String). (has load d ≡ true) × (rank d < rank name))
            (names_of N service.dependencies)
    pub bound : (name : String) → has load name ≡ true → rank name < N.size load

  -- Every key of the map is a service.
  abbrev AreServices : Load N → N.Map ℕ → Type 0
  AreServices load m = (name : String) → is_some (N.get m name) ≡ true → has load name ≡ true

  AreServices-put :
      (load : Load N) (m : N.Map ℕ) (name : String)
      → has load name ≡ true
      → AreServices load m
      → AreServices load (if is_some (N.get m name) then m else (N.put m name 0).0)
  AreServices-put load m name there all other h = elim (Option-cases (N.get m name)) [
    | inl missing ↦
        let h' : is_some (N.get (N.put m name 0).0 other) ≡ true = rw missing at h in
        ground (
          arith,
          there,
          all other,
          h',
          N.get-put m name other 0 missing,
          string_eq.same_iff name other,
        )
    | inr (v, found) ↦ all other (rw found at h)
  ]

  add_dependencies-AreServices :
      (load : Load N) (names : List String) (m m' : N.Map ℕ)
      → AreServices load m
      → add_dependencies N load names m ≡ some m'
      → AreServices load m'
  unfolding add_dependencies
  add_dependencies-AreServices load [] m m' all h =
      subst (AreServices load) (some-injective m m' h) all
  add_dependencies-AreServices load (name ∷ names) m m' all h = elim (Bool-cases (has load name)) [
    | inl there ↦
        add_dependencies-AreServices load names _ m' (AreServices-put load m name there all)
          (rw there at h)
    | inr missing ↦ absurd (ground (arith, missing, h))
  ]

  keys-AreServices :
      (load : Load N) (m : N.Map ℕ)
      → AreServices load m
      → All (λ (d : String). has load d ≡ true) (names_in N m)
  keys-AreServices load m all =
      All-map (λ (d : String). has load d ≡ true) (λ (e : String × ℕ). e.0) (N.entries m)
        (All-of_lookup (λ (e : String × ℕ). has load e.0 ≡ true) (N.entries m)
          (N.entries-DistinctKeys m) (λ k v h. all k (ap is_some (sym (N.lookup-entries m k) ∙ h))))

  -- The dependencies of a new service are services.
  dependencies_of-All :
      (load : Load N) (names : List String) (dependencies : Option (N.Map ℕ))
      → dependencies_of N load names ≡ some dependencies
      → All (λ (d : String). has load d ≡ true) (names_of N dependencies)
  unfolding dependencies_of names_of
  dependencies_of-All load [] none h = tt
  dependencies_of-All load [] (some m) h = absurd (ground arith)
  dependencies_of-All load (name ∷ names) dependencies h =
      let (m, added, is) =
        (map-eq-some_iff some (add_dependencies N load (name ∷ names) (N.init ℕ))).0 h in
      subst (λ (d : Option (N.Map ℕ)). All (λ (k : String). has load k ≡ true) (names_of N d)) is
        (keys-AreServices load m (
          add_dependencies-AreServices load (name ∷ names) (N.init ℕ) m
            (λ other there. absurd (ground (arith, N.get-init ℕ other))) added))

  -- A service behind those of the table.
  module _ (load : Load N) (key : String) (x : Entry N) (absent : N.get load key ≡ none)
      (all : All (λ (d : String). has load d ≡ true) (names_of N x.dependencies))
      (o : IsOrdered load) where
    abbrev after : Load N
    after = (N.put load key x).0

    abbrev rank_after : String → ℕ
    rank_after k = if key == k then N.size load else o.rank k

    at : (k : String) → N.get after k ≡ (if key == k then some x else N.get load k)
    at k = N.get-put load key k x absent

    has-after : (d : String) → has load d ≡ true → has after d ≡ true
    has-after d h = ground (arith, at d, h)

    rank_before : (d : String) → has load d ≡ true → rank_after d ≡ o.rank d
    rank_before d h = ground (arith, absent, h, string_eq.same_iff key d, ap (has load))

    closed_after :
        (name : String) (service : Entry N)
        → N.get after name ≡ some service
        → All
            (λ (d : String). (has after d ≡ true) × (rank_after d < rank_after name))
            (names_of N service.dependencies)
    closed_after name service h = elim (Bool-cases (key == name)) [
      | inl this ↦
          let is : x ≡ service =
            some-injective x service (sym (ground (arith, at name, this)) ∙ h) in
          subst
            (λ (service : Entry N).
              All (λ (d : String). (has after d ≡ true) × (rank_after d < rank_after name))
                (names_of N service.dependencies))
            is
            (All-mono (names_of N x.dependencies)
              (λ d there.
                (has-after d there, rw this (ground (arith, rank_before d there, o.bound d there))))
              all)
      | inr other ↦
          let before : N.get load name ≡ some service = ground (arith, at name, other, h) in
          All-mono (names_of N service.dependencies)
            (λ d p. (has-after d p.0, rw other (ground (arith, rank_before d p.0, p.1))))
            (o.closed name service before)
    ]

    bound_after : (name : String) → has after name ≡ true → rank_after name < N.size after
    bound_after name h = ground (arith, at name, h, o.bound name, N.size-put load key x absent)

    put-IsOrdered : IsOrdered after
    put-IsOrdered = record { rank = rank_after; closed = closed_after; bound = bound_after }

  add-IsOrdered :
      (load load' : Load N) (service : RpcService)
      → add N load service ≡ some load'
      → IsOrdered load
      → IsOrdered load'
  unfolding add
  add-IsOrdered load load' service h o = elim (Option-cases (N.get load service.name)) [
    | inr (x, there) ↦ subst IsOrdered (some-injective load load' (rw there at h)) o
    | inl absent ↦ elim (Bool-cases (service.init_handler == 0)) [
      | inl null ↦ absurd (ground (arith, absent, null, h))
      | inr given ↦
          let (dependencies, made, is) =
            (map-eq-some_iff (put_service N load service)
                (dependencies_of N load service.dependecies)).0
              (rw (absent, given) at h) in
          subst IsOrdered is (
            put-IsOrdered load service.name _ absent
              (dependencies_of-All load service.dependecies dependencies made) o)
    ]
  ]

  -- If the dependencies of the services in a table are in it and of lower rank, below its size,
  -- then there are such ranks for the table again after rpc_service_add_packet adds any services
  -- without a failed assertion.
  pub add_packet-IsOrdered :
      (services : List RpcService) (load load' : Load N)
      → add_packet N load services ≡ some load'
      → IsOrdered load
      → IsOrdered load'
  unfolding add_packet
  add_packet-IsOrdered [] load load' h o = subst IsOrdered (some-injective load load' h) o
  add_packet-IsOrdered (service ∷ services) load load' h o =
      elim (Option-cases (add N load service)) [
        | inl failed ↦ absurd (ground (arith, failed, h))
        | inr (next, added) ↦
            add_packet-IsOrdered services next load' (rw (add_packet, added) at h)
              (add-IsOrdered load next service added o)
      ]

  pub init-IsOrdered : IsOrdered (N.init (Entry N))
  init-IsOrdered = record {
    rank = λ name. 0;
    closed = λ name service h. absurd (ground (arith, N.get-init (Entry N) name, h));
    bound = λ name h. absurd (ground (arith, N.get-init (Entry N) name, h));
  }

  pub IsOrdered-IsAcyclic : (load : Load N) (o : IsOrdered load) → IsAcyclic N load o.rank
  IsOrdered-IsAcyclic load o name service h =
      All-mono (names_of N service.dependencies) (λ d p. p.1) (o.closed name service h)
