-- ===== src/Struct/Free.antt =====
-- The second half of `prec_delete`: freeing an object that is tracked no more.
use ffi_rpc.Base.{
  ℕ, ◌<◌, ◌≤◌, ◌≡◌, ◌≢◌, refl, ◌∙◌, Option, some, none, false, Bool, String, arith, string_eq,
  nat_beq_iff, inl, inr, Option-cases, List, [], ◌∷◌, All, lookup-All,
}
use ffi_rpc.Ext.Libs.{Libs}
use ffi_rpc.Types.{Element, FreeFn, no_free, free_struct, free_sizedbuf, free_function}
use ffi_rpc.World.{World, Object, RpcStruct, a_struct, a_sizedbuf, a_function, write}
use ffi_rpc.World.Cmd.{Run, ok}
use ffi_rpc.Struct.{
  Cmd, tracked_count, remove_keys, run_destructor, release, free_struct_internal,
  free_sizedbuf_internal, free_function_internal, call_free,
}
use ffi_rpc.Struct.Observe.{
  Kind, kind, kind_of, slot, recorded, tracked, struct_of_kind, load-ok, Fits,
}
use ffi_rpc.Struct.Invariant.{Inv, Shrinks, Shrinks-refl, Shrinks-trans}
use ffi_rpc.Struct.Decrement.{Deletes}
use ffi_rpc.Struct.Remove.{remove_with-Removed}

module _ {L : Libs} (pending : ℕ → String → Bool) where
  -- The outcome of emptying a struct.
  record Emptied (w : World L) (s : ℕ) (es : List (String × Element)) (m : Run (World L) (Unit {0}))
      : Type 0 where
    world : World L
    runs : m ≡ ok tt world
    inv : Inv pending world
    shrinks : Shrinks w world
    gone : All (λ (e : String × Element). slot world s e.0 ≡ none) es

  -- The outcome of freeing an object that is tracked no more.
  pub record Freed (w : World L) (p : ℕ) (m : Run (World L) (Unit {0})) : Type 0 where
    pub world : World L
    pub runs : m ≡ ok tt world
    pub inv : Inv pending world
    pub records :
        (q : ℕ) (k : String) (a : ℕ) → a ≢ 0 → 0 < recorded world q k a → 0 < recorded w q k a
    pub elements :
        (s : ℕ) (k : String) (e : Element) → slot world s k ≡ some e → slot w s k ≡ some e
    pub structs :
        (s : ℕ) → s ≢ p → tracked w s ≡ false → kind w s ≡ Kind.struct → kind world s ≡ Kind.struct
    pub untracked : (s : ℕ) → tracked w s ≡ false → tracked world s ≡ false
    pub count : tracked_count world ≤ tracked_count w

module _ {L : Libs} where
  Shrinks-none :
      {w w' : World L} (s : ℕ) (k : String) → Shrinks w w' → slot w s k ≡ none → slot w' s k ≡ none
  Shrinks-none {w'} s k f h = elim (Option-cases (slot w' s k)) [
    | inl gone ↦ gone
    | inr (e, at) ↦ absurd (ground (arith, f.elements s k e at))
  ]

  destroyed-Shrinks :
      (w v : World L) (s : ℕ) (o : RpcStruct L) → Shrinks (run_destructor s o w) v → Shrinks w v
  destroyed-Shrinks w v s o f = record {
    records = f.records;
    elements = f.elements;
    structs = f.structs;
    untracked = f.untracked;
    count = f.count;
  }

  emptied-none :
      (w v : World L) (p : ℕ) (o : RpcStruct L)
      → w.heap p ≡ some (a_struct o)
      → Shrinks w v
      → All (λ (e : String × Element). slot v p e.0 ≡ none) (L.by_name.entries o.map)
      → (k : String) → slot v p k ≡ none
  emptied-none w v p o h f gone k = elim (Option-cases (slot w p k)) [
    | inl missing ↦ Shrinks-none p k f missing
    | inr (e, at) ↦
        lookup-All (λ (e : String × Element). slot v p e.0 ≡ none) (L.by_name.entries o.map) k e
          (L.by_name.lookup-entries o.map k ∙ (rw h at at)) gone
  ]

module _ {L : Libs} {pending : ℕ → String → Bool} where
  module _ {bound : ℕ} (del : ℕ → Cmd L (Unit {0})) (deletes : Deletes bound del) (s : ℕ) where
    remove_keys-Emptied :
        (w : World L) (es : List (String × Element))
        → Inv pending w
        → tracked_count w ≤ bound
        → tracked w s ≡ false
        → kind w s ≡ Kind.struct
        → Emptied pending w s es (remove_keys del s es w)
    unfolding remove_keys
    remove_keys-Emptied w [] inv enough free is = record {
      world = w;
      runs = refl;
      inv = inv;
      shrinks = Shrinks-refl w;
      gone = tt;
    }
    remove_keys-Emptied w ((k, e) ∷ es) inv enough free is =
        let r = remove_with-Removed del deletes s k w inv enough free is in
        let rest =
          remove_keys-Emptied r.world es r.inv (omega (arith, r.shrinks.count, enough))
            (r.shrinks.untracked s free) (r.shrinks.structs s free is) in
        record {
          world = rest.world;
          runs = rw r.runs rest.runs;
          inv = rest.inv;
          shrinks = Shrinks-trans r.shrinks rest.shrinks;
          gone = (Shrinks-none s k rest.shrinks r.gone, rest.gone);
        }

  -- The object goes once nothing in it counts any more.
  release-Freed :
      (w v : World L) (p : ℕ)
      → Inv pending v
      → Shrinks w v
      → tracked w p ≡ false
      → ((k : String) → slot v p k ≡ none)
      → Freed pending w p (release p v)
  release-Freed w v p inv f free empty = record {
    world = record v { heap = write v.heap p none };
    runs = refl;
    inv = record {
      forward = λ s k e at c settled. ground (arith, inv.forward s k e);
      backward = λ q k a nz c.
          let (e, at, word, counts) = inv.backward q k a nz c in
          (e, ground (arith, empty k, nat_beq_iff p a), word, counts);
      valid = inv.valid;
      fits = λ q r here. ground (arith, inv.fits q r here, nat_beq_iff p q, f.untracked p free);
      null = ground (arith, inv.null);
    };
    records = λ q k a nz c. f.records q k a nz c;
    elements = λ s k e at. f.elements s k e (ground arith);
    structs = λ s ne un is. ground (arith, f.structs s un is, nat_beq_iff p s);
    untracked = f.untracked;
    count = f.count;
  }

  destroyed-Inv :
      (w : World L) (s : ℕ) (o : RpcStruct L) → Inv pending w → Inv pending (run_destructor s o w)
  destroyed-Inv w s o inv = record {
    forward = inv.forward;
    backward = inv.backward;
    valid = inv.valid;
    fits = inv.fits;
    null = inv.null;
  }

  module _ {bound : ℕ} (del : ℕ → Cmd L (Unit {0})) (deletes : Deletes bound del) (w : World L)
      (p : ℕ) (inv : Inv pending w) (enough : tracked_count w ≤ bound)
      (free : tracked w p ≡ false) where
    pub free_struct_internal-Freed :
        kind w p ≡ Kind.struct → Freed pending w p (free_struct_internal del p w)
    unfolding free_struct_internal
    free_struct_internal-Freed is =
        let (o, h) = struct_of_kind (w.heap p) is in
        let r =
          remove_keys-Emptied del deletes p (run_destructor p o w) (L.by_name.entries o.map)
            (destroyed-Inv w p o inv) enough free is in
        let f = destroyed-Shrinks w r.world p o r.shrinks in
        let (o', h') = struct_of_kind (r.world.heap p) (f.structs p free is) in
        rw (load-ok p w o h) (
          rw (load-ok p (run_destructor p o w) o h) (
            rw r.runs (
              rw (load-ok p r.world o' h')
                (release-Freed w r.world p r.inv f free (emptied-none w r.world p o h f r.gone)))))

    plain_release-Freed : ((k : String) → slot w p k ≡ none) → Freed pending w p (release p w)
    plain_release-Freed empty = release-Freed w w p inv (Shrinks-refl w) free empty

    kept-Freed : Freed pending w p (ok tt w)
    kept-Freed = record {
      world = w;
      runs = refl;
      inv = inv;
      records = λ q k a nz c. c;
      elements = λ s k e at. at;
      structs = λ s ne un is. is;
      untracked = λ s un. un;
      count = omega arith;
    }

    buffer-Freed :
        (x : Option (Object L))
        → w.heap p ≡ x
        → kind_of x ≡ Kind.sizedbuf
        → Freed pending w p (free_sizedbuf_internal p w)
    unfolding free_sizedbuf_internal
    buffer-Freed none h is = absurd (ground arith)
    buffer-Freed (some (a_struct o)) h is = absurd (ground arith)
    buffer-Freed (some (a_sizedbuf b)) h is =
        rw (h, free_sizedbuf_internal) (plain_release-Freed (λ k. rw h refl))
    buffer-Freed (some (a_function b)) h is = absurd (ground arith)

    function-Freed :
        (x : Option (Object L))
        → w.heap p ≡ x
        → kind_of x ≡ Kind.function
        → Freed pending w p (free_function_internal p w)
    unfolding free_function_internal
    function-Freed none h is = absurd (ground arith)
    function-Freed (some (a_struct o)) h is = absurd (ground arith)
    function-Freed (some (a_sizedbuf b)) h is = absurd (ground arith)
    function-Freed (some (a_function b)) h is =
        rw (h, free_function_internal) (plain_release-Freed (λ k. rw h refl))

    pub call_free-Freed : (f : FreeFn) → Fits f (kind w p) → Freed pending w p (call_free del f p w)
    unfolding call_free
    call_free-Freed no_free fits = kept-Freed
    call_free-Freed free_struct fits = free_struct_internal-Freed fits
    call_free-Freed free_sizedbuf fits = buffer-Freed (w.heap p) refl fits
    call_free-Freed free_function fits = function-Freed (w.heap p) refl fits
