-- ===== src/Services/Sorted.antt =====
-- `rpc_service_load_all` on a map that shows every service behind its dependencies.
use ffi_rpc.Base.{
  ℕ, suc, ◌≡◌, refl, sym, ap, ◌∙◌, none, some, List, [], ◌∷◌, ◌++◌, subst, String, string_eq, All,
  All-mono, map, append_nil, append_assoc, length, length-map, arith,
}
use ffi_rpc.Ext.Hash.{HashMap}
use ffi_rpc.World.Cmd.{Run, ok}
use ffi_rpc.Services.{
  Loaded, Entry, Load, Loading, names_of, names_in, load_each, start, load_service, load_keys,
  load_all,
}
use ffi_rpc.Services.Order.{InOrder, finished, IsRest}

module _ (N : HashMap String) (load : Load N) where
  -- The run ends behind just these calls.
  pub record Ran (done : List String) (calls : List Loaded) (l : Loading N)
      (r : Run (Loading N) (Unit {0})) : Type 0 where
    pub after : Loading N
    pub runs : r ≡ ok tt after
    pub called : after.calls ≡ l.calls ++ calls
    pub rest : IsRest N load (finished done calls) after.load

  load_each-gone :
      (depth : ℕ) (names : List String) (l : Loading N)
      → All (λ (name : String). N.get l.load name ≡ none) names
      → load_each N (load_service N (suc depth)) names l ≡ ok tt l
  unfolding load_each load_service
  load_each-gone depth [] l gone = refl
  load_each-gone depth (name ∷ names) l gone =
      rw (load_service, gone.0) (load_each-gone depth names l gone.1)

  abbrev with_call : Loading N → Loaded → Loading N
  with_call l call = record {
    load = N.remove l.load call.service_name;
    calls = l.calls ++ call ∷ [];
  }

  start-ok :
      (call : Loaded) (service : Entry N) (l : Loading N)
      → call.init_handler ≡ service.init_handler
      → start N call.service_name service l ≡ ok tt (with_call l call)
  unfolding start
  start-ok call service l h = rw (← h) refl

  -- A service whose dependencies are started.
  load_service-ready :
      (depth : ℕ) (call : Loaded) (service : Entry N) (l : Loading N)
      → N.get l.load call.service_name ≡ some service
      → call.init_handler ≡ service.init_handler
      → All (λ (d : String). N.get l.load d ≡ none) (names_of N service.dependencies)
      → load_service N (suc (suc depth)) call.service_name l ≡ ok tt (with_call l call)
  unfolding load_service
  load_service-ready depth call service l there handler gone =
      rw
        (
          load_service,
          there,
          load_each-gone depth (names_of N service.dependencies) l gone,
          start-ok call service l handler,
        )
        refl

  load_keys-Ran :
      (depth : ℕ) (calls : List Loaded) (done : List String) (l : Loading N)
      → InOrder N load done calls
      → IsRest N load done l.load
      → Ran done calls l
          (load_keys N (suc (suc depth)) (map (λ (call : Loaded). call.service_name) calls) l)
  unfolding load_keys
  load_keys-Ran depth [] done l order rest = record {
    after = l;
    runs = refl;
    called = sym (append_nil l.calls);
    rest = rest;
  }
  load_keys-Ran depth (call ∷ calls) done l order rest =
      let (service, original, handler, before) = order.0 in
      let name = call.service_name in
      let there : N.get l.load name ≡ some service = ground (arith, rest name, order.1, original) in
      let gone : All (λ (d : String). N.get l.load d ≡ none) (names_of N service.dependencies) =
        All-mono (names_of N service.dependencies) (λ d h. ground (arith, rest d, h)) before in
      let l' = with_call l call in
      let rest' : IsRest N load (name ∷ done) l'.load =
        λ other. ground (arith, N.get-remove l.load name other, rest other) in
      let later = load_keys-Ran depth calls (name ∷ done) l' order.2 rest' in
      record {
        after = later.after;
        runs = rw (there, load_service-ready depth call service l there handler gone) later.runs;
        called = later.called ∙ append_assoc l.calls (call ∷ []) calls;
        rest = later.rest;
      }

  -- Where the map shows the services of the table in an order in which each stands behind its
  -- dependencies, rpc_service_load_all ends without a fault, and has called their handlers in
  -- just that order and emptied the table.
  pub load_all-Ran :
      (calls : List Loaded)
      → InOrder N load [] calls
      → names_in N load ≡ map (λ (call : Loaded). call.service_name) calls
      → Ran [] calls
          (record { load = load; calls = [] })
          (load_all N (record { load = load; calls = [] }))
  unfolding load_all
  load_all-Ran [] order all = record {
    after = _;
    runs = rw all refl;
    called = refl;
    rest = λ name. refl;
  }
  load_all-Ran (call ∷ calls) order all =
      let depth = length (map (λ (call : Loaded). call.service_name) calls) in
      let size : N.size load ≡ suc depth =
        sym (N.length-entries load)
        ∙ (sym (length-map (λ (e : String × Entry N). e.0) (N.entries load)) ∙ ap length all) in
      subst (Ran [] (call ∷ calls) (record { load = load; calls = [] }))
        (λ i. load_keys N (suc (sym size i)) (sym all i) (record { load = load; calls = [] }))
        (load_keys-Ran depth (call ∷ calls) [] _ order (λ name. refl))
