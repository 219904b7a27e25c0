-- ===== src/Struct.antt =====
-- src/ptracker.c and the reference counting of src/rpc_struct.c. `prec_delete`, the callbacks and
-- `rpc_struct_remove` call one another; here `delete` recurs on fuel, and the others take the call
-- of it as the argument `del`.
pub mod Recorded
pub mod Observe
pub mod Invariant
pub mod Onzero
pub mod Untrack
pub mod Decrement
pub mod Remove
pub mod Free
pub mod Delete
pub mod Api
pub mod Reads
pub mod Track
pub mod Store
pub mod Safety
pub mod Session
pub mod Filling
use ffi_rpc.Base.{
  ℕ, zero, suc, ◌+◌, ◌-◌, Option, none, some, List, [], ◌∷◌, String, nat_eq, string_eq, ◌==◌,
  if◌then◌else◌, take, map,
}
use ffi_rpc.Types.{
  Element, FreeFn, no_free, free_struct, free_sizedbuf, free_function, is_refcounted,
}
use ffi_rpc.Ext.Libs.{Libs}
use ffi_rpc.Origins.{OriginCtx}
use ffi_rpc.Origins
use ffi_rpc.World.{
  World, a_struct, a_sizedbuf, a_function, RpcStruct, PtrCtx, Prec, Udata, write, set_prec,
  set_struct,
}
use ffi_rpc.World.Cmd.{Run, ok, fault, out_of_fuel, pure, ◌>>=◌, ◌>>◌}

abbrev pub Cmd : Libs → Type 0 → Type 0
Cmd L A = World L → Run (World L) A

module _ {L : Libs} where
  -- To lock a struct or read its fields.
  unfoldable pub load : ℕ → Cmd L (RpcStruct L)
  load s w = elim (w.heap s) [ some (a_struct o) ↦ ok o w | _ ↦ fault ]

  abbrev pub prec_get : ℕ → World L → Option (Prec L)
  prec_get p w = L.by_ptr.get w.ptracker p

  -- `prec_new`
  unfoldable pub prec_new : ℕ → Cmd L (Unit {0})
  prec_new p w = elim (prec_get p w) [
    | some _ ↦ ok tt w
    | none ↦ ok tt (record w {
      ptracker = (L.by_ptr.put w.ptracker p (record { refcount = 0; context = none })).0;
    })
  ]

  -- The part of `rpc_struct_increment_cb` under `udat->name != NULL && udat->origin != NULL`.
  unfoldable pub record_origin : String → ℕ → PtrCtx L → PtrCtx L
  record_origin name origin x = elim (L.by_name.get x.keys name) [
    | none ↦ record x {
      keys = (L.by_name.put x.keys name (Origins.add_origin Origins.create origin)).0;
    }
    | some c ↦ record x { keys = L.by_name.store x.keys name (Origins.add_origin c origin) }
  ]

  -- `prec_ptr_ctx_create_or_get`
  unfoldable pub ctx_create_or_get : Udata → Option (PtrCtx L) → PtrCtx L
  ctx_create_or_get u none = record { keys = L.by_name.init (OriginCtx L.queues); free = u.free }
  ctx_create_or_get u (some x) = x

  -- `rpc_struct_increment_cb` on the context of a pointer.
  unfoldable pub increment_cb : Option Udata → Option (PtrCtx L) → Cmd L (Option (PtrCtx L))
  increment_cb none x = pure x
  increment_cb (some u) x = elim u.name [
    | none ↦ pure (some (ctx_create_or_get u x))
    | some name ↦
        if u.origin == 0
        then pure (some (ctx_create_or_get u x))
        else do load u.origin; pure (some (record_origin name u.origin (ctx_create_or_get u x)))
  ]

  -- `prec_increment`
  unfoldable pub prec_increment : ℕ → Option Udata → Cmd L (Unit {0})
  unfolding increment_cb
  prec_increment p u w = elim (prec_get p w) [
    | none ↦ ok tt w
    | some r ↦
        (do
          x ← increment_cb u r.context
          λ w. ok tt (set_prec p (record { refcount = r.refcount + 1; context = x }) w))
          w
  ]

  -- The body of `rpc_struct_decrement_cb` under `if(ctx)`.
  unfoldable pub drop_ctx : String → ℕ → PtrCtx L → OriginCtx L.queues → PtrCtx L
  drop_ctx name origin x c =
      let c' = Origins.clear_origin c origin in
      if c'.o_index == 0
      then record x { keys = L.by_name.remove x.keys name }
      else record x { keys = L.by_name.store x.keys name c' }

  unfoldable pub drop_origin : String → ℕ → PtrCtx L → PtrCtx L
  unfolding drop_ctx
  drop_origin name origin x = elim (L.by_name.get x.keys name) [
    | none ↦ x
    | some c ↦ drop_ctx name origin x c
  ]

  -- `rpc_struct_decrement_cb` on the context of a pointer.
  unfoldable pub decrement_cb : Option Udata → Option (PtrCtx L) → Option (PtrCtx L)
  unfolding drop_origin
  decrement_cb none x = x
  decrement_cb (some u) none = none
  decrement_cb (some u) (some x) = elim u.name [
    | none ↦ some x
    | some name ↦ some (drop_origin name u.origin x)
  ]

  -- `prec_decrement`
  unfoldable pub prec_decrement : (ℕ → Cmd L (Unit {0})) → ℕ → Option Udata → Cmd L (Unit {0})
  unfolding decrement_cb
  prec_decrement del p u w = elim (prec_get p w) [
    | none ↦ ok tt w
    | some r ↦
        if r.refcount == 0
        then del p w
        else (let w' =
              set_prec p (record { refcount = r.refcount - 1; context = decrement_cb u r.context })
                w in
            if r.refcount - 1 == 0 then del p w' else ok tt w')
  ]

  -- The end of `rpc_struct_remove`: `hashmap_remove(&rpc_struct->map,key)`.
  unfoldable pub unlink : ℕ → String → Cmd L (Unit {0})
  unfolding load
  unlink s key = do
    o ← load s
    λ w. ok tt (set_struct s (record o { map = L.by_name.remove o.map key }) w)

  unfoldable pub remove_element : (ℕ → Cmd L (Unit {0})) → ℕ → String → Element → Cmd L ℕ
  unfolding prec_decrement unlink
  remove_element del s key e = do
    (if is_refcounted e.type
        then prec_decrement del e.word
            (some (record { origin = s; name = some key; free = no_free }))
        else pure tt)
    unlink s key
    pure 0

  -- `rpc_struct_remove`: 0 if the key was there, 1 if not.
  unfoldable pub remove_with : (ℕ → Cmd L (Unit {0})) → ℕ → String → Cmd L ℕ
  unfolding remove_element load
  remove_with del s key = if s == 0 then pure 1 else do
    o ← load s
    elim (L.by_name.get o.map key) [ none ↦ pure 1 | some e ↦ remove_element del s key e ]

  -- The loop over the origins of one key in `rpc_struct_onzero_cb`.
  unfoldable pub remove_from_origins : (ℕ → Cmd L (Unit {0})) → String → List ℕ → Cmd L (Unit {0})
  remove_from_origins del key [] = pure tt
  remove_from_origins del key (a ∷ rest) = do
    (if a == 0 then pure tt else do load a; remove_with del a key; pure tt)
    remove_from_origins del key rest

  -- The loop over the keys.
  unfoldable pub onzero_keys :
      (ℕ → Cmd L (Unit {0})) → List (String × OriginCtx L.queues) → Cmd L (Unit {0})
  unfolding remove_from_origins
  onzero_keys del [] = pure tt
  onzero_keys del ((key, c) ∷ cs) = do
    remove_from_origins del key (take c.o_index c.origins)
    onzero_keys del cs

  unfoldable pub remove_keys :
      (ℕ → Cmd L (Unit {0})) → ℕ → List (String × Element) → Cmd L (Unit {0})
  unfolding remove_with
  remove_keys del s [] = pure tt
  remove_keys del s ((key, e) ∷ es) = do remove_with del s key; remove_keys del s es

  -- The call of the manual destructor, a function of the user: it is noted, and what it does to the
  -- memory is left out.
  abbrev pub run_destructor : ℕ → RpcStruct L → World L → World L
  run_destructor s o w = record w {
    destroyed =
        if o.manual_destructor == 0 then w.destroyed else (o.manual_destructor, s) ∷ w.destroyed;
  }

  abbrev pub release : ℕ → Cmd L (Unit {0})
  release p w = ok tt (record w { heap = write w.heap p none })

  -- `rpc_struct_free_internals` and the `free` behind it: `rpc_struct_free_internal`.
  unfoldable pub free_struct_internal : (ℕ → Cmd L (Unit {0})) → ℕ → Cmd L (Unit {0})
  unfolding remove_keys load
  free_struct_internal del s = do
    o ← load s
    λ w. ok tt (run_destructor s o w)
    o ← load s
    remove_keys del s (L.by_name.entries o.map)
    load s
    release s

  -- `rpc_sizedbuf_free` and `rpc_function_free` of an object that is tracked no more.
  unfoldable pub free_sizedbuf_internal : ℕ → Cmd L (Unit {0})
  free_sizedbuf_internal p w = elim (w.heap p) [ some (a_sizedbuf b) ↦ release p w | _ ↦ fault ]

  unfoldable pub free_function_internal : ℕ → Cmd L (Unit {0})
  free_function_internal p w = elim (w.heap p) [ some (a_function f) ↦ release p w | _ ↦ fault ]

  -- `ptr_ctx->free(prec_ptr(prec))` of `rpc_struct_prec_ctx_destroy`.
  unfoldable pub call_free : (ℕ → Cmd L (Unit {0})) → FreeFn → ℕ → Cmd L (Unit {0})
  unfolding free_struct_internal free_sizedbuf_internal free_function_internal
  call_free del no_free p = pure tt
  call_free del free_struct p = free_struct_internal del p
  call_free del free_sizedbuf p = free_sizedbuf_internal p
  call_free del free_function p = free_function_internal p

  -- `rpc_struct_onzero_cb`
  unfoldable pub onzero_cb : (ℕ → Cmd L (Unit {0})) → ℕ → Option (PtrCtx L) → Cmd L (Unit {0})
  unfolding onzero_keys call_free
  onzero_cb del p none = pure tt
  onzero_cb del p (some x) = do onzero_keys del (L.by_name.entries x.keys); call_free del x.free p

  abbrev pub untrack : ℕ → World L → World L
  untrack p w = record w { ptracker = L.by_ptr.remove w.ptracker p }

  -- `prec_delete`
  unfoldable pub delete : ℕ → ℕ → Cmd L (Unit {0})
  delete zero p w = out_of_fuel
  delete (suc fuel) p w = elim (prec_get p w) [
    | none ↦ ok tt w
    | some r ↦ onzero_cb (delete fuel) p r.context (untrack p w)
  ]

  -- Each deletion takes a pointer off the table, so its size is fuel enough.
  abbrev pub tracked_count : World L → ℕ
  tracked_count w = L.by_ptr.size w.ptracker
