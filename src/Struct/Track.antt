-- ===== src/Struct/Track.antt =====
-- What taking a reference does to the memory: `prec_new` and `prec_increment` as
-- `rpc_struct_set_internal` calls them.
use ffi_rpc.Base.{
  ℕ, ◌+◌, ◌≡◌, ◌≢◌, refl, ap, ◌∙◌, Option, some, none, true, false, String, arith, nat_eq,
  string_eq, ◌==◌, nat_beq_iff, if◌then◌else◌, inl, inr, Option-cases, ◌&&◌,
}
use ffi_rpc.Ext.Libs.{Libs}
use ffi_rpc.Types.{FreeFn}
use ffi_rpc.Origins.{OriginCtx}
use ffi_rpc.Origins.Counting.{bit}
use ffi_rpc.World.{World, Prec, PtrCtx, Udata, RpcStruct, a_struct, set_prec}
use ffi_rpc.World.Cmd.{Run, ok, ◌>>◌}
use ffi_rpc.Struct.{
  prec_get, prec_new, prec_increment, increment_cb, record_origin, ctx_create_or_get,
}
use ffi_rpc.Struct.Recorded.{
  recorded_in, recorded_at, IsValidCtx, record_origin-recorded_in, record_origin-IsValidCtx,
  record_origin-free,
}
use ffi_rpc.Struct.Observe.{
  Kind, kind, recorded, tracked, IsValidCtx?, Fits, Fits?, prec_get-set_prec, load-ok,
}
use ffi_rpc.Struct.Api.{refcount}

abbrev pub addition : ℕ → String → FreeFn → Udata
addition s k f = record { origin = s; name = some k; free = f }

module _ {L : Libs} (s : ℕ) (k : String) (nonnull : s ≢ 0) (f : FreeFn) where
  -- The context after `rpc_struct_increment_cb`.
  abbrev extended : Option (PtrCtx L) → PtrCtx L
  extended x = record_origin k s (ctx_create_or_get (addition s k f) x)

  created-IsValidCtx :
      (x : Option (PtrCtx L)) → IsValidCtx? x → IsValidCtx (ctx_create_or_get (addition s k f) x)
  unfolding ctx_create_or_get
  created-IsValidCtx none v j c got =
      absurd (ground (arith, L.by_name.get-init (OriginCtx L.queues) j, got))
  created-IsValidCtx (some x) v j c got = v j c got

  created-recorded_in :
      (x : Option (PtrCtx L)) (j : String) (a : ℕ)
      → recorded_in j a (ctx_create_or_get (addition s k f) x) ≡ recorded_at j a x
  unfolding ctx_create_or_get
  created-recorded_in none j a = ground (arith, L.by_name.get-init (OriginCtx L.queues) j)
  created-recorded_in (some x) j a = refl

  extended-recorded_in :
      (x : Option (PtrCtx L)) (j : String) (a : ℕ)
      → IsValidCtx? x
      → a ≢ 0
      → recorded_in j a (extended x) ≡ recorded_at j a x + (if k == j then bit s a else 0)
  extended-recorded_in x j a v nz =
      record_origin-recorded_in k s nonnull (ctx_create_or_get (addition s k f) x)
        (created-IsValidCtx x v) j a nz
      ∙ ap (λ (n : ℕ). n + (if k == j then bit s a else 0)) (created-recorded_in x j a)

  extended-Fits :
      (x : Option (PtrCtx L)) (i : Kind) → Fits f i → Fits? x i → Fits (extended x).free i
  unfolding ctx_create_or_get
  extended-Fits none i new old =
      rw (record_origin-free k s nonnull (ctx_create_or_get (addition s k f) none)) new
  extended-Fits (some x) i new old =
      rw (record_origin-free k s nonnull (ctx_create_or_get (addition s k f) (some x))) old

  -- The memory after the reference was taken.
  pub record Referenced (p : ℕ) (w : World L) (m : Run (World L) (Unit {0})) : Type 0 where
    pub world : World L
    pub runs : m ≡ ok tt world
    pub heap : world.heap ≡ w.heap
    pub records :
        (q : ℕ) (j : String) (a : ℕ)
        → a ≢ 0
        → recorded world q j a ≡ recorded w q j a + (if (p == q) && (k == j) then bit s a else 0)
    pub valid : (q : ℕ) (r : Prec L) → prec_get q world ≡ some r → IsValidCtx? r.context
    pub fits : (q : ℕ) (r : Prec L) → prec_get q world ≡ some r → Fits? r.context (kind w q)
    pub tracked : tracked world p ≡ true
    pub refcount : refcount p world ≡ refcount p w + 1
    pub others : (q : ℕ) → p ≢ q → prec_get q world ≡ prec_get q w

  -- Taking a reference to a pointer with this entry.
  module _ (p : ℕ) (w v : World L) (r : Prec L) (same : v.heap ≡ w.heap)
      (here : prec_get p v ≡ some r)
      (entry : (j : String) (a : ℕ) → recorded_at j a r.context ≡ recorded w p j a)
      (count : r.refcount ≡ refcount p w) (others : (q : ℕ) → p ≢ q → prec_get q v ≡ prec_get q w)
      (new : Fits f (kind w p)) (rvalid : IsValidCtx? r.context)
      (rfits : Fits? r.context (kind w p))
      (valid : (q : ℕ) (t : Prec L) → prec_get q w ≡ some t → IsValidCtx? t.context)
      (fits : (q : ℕ) (t : Prec L) → prec_get q w ≡ some t → Fits? t.context (kind w q))
      (o : RpcStruct L) (live : v.heap s ≡ some (a_struct o)) where
    abbrev after : Prec L
    after = record { refcount = r.refcount + 1; context = some (extended r.context) }

    increment-Referenced : Referenced p w (prec_increment p (some (addition s k f)) v)
    unfolding prec_increment increment_cb
    increment-Referenced =
        let got = λ (q : ℕ). prec_get-set_prec p q r after v here in
        let zero_test : (s == 0) ≡ false = ground arith in
        rw (here, prec_increment)
          (rw zero_test (
            rw (load-ok s v o live) (record {
              world = set_prec p after v;
              runs = refl;
              heap = same;
              records = λ q j a nz. ground (
                arith,
                got q,
                others q,
                entry j a,
                extended-recorded_in r.context j a rvalid nz,
                nat_beq_iff p q,
              );
              valid = λ q t h. ground (
                arith,
                got q,
                others q,
                valid q t,
                nat_beq_iff p q,
                record_origin-IsValidCtx k s nonnull (ctx_create_or_get (addition s k f) r.context)
                    (created-IsValidCtx r.context rvalid),
              );
              fits = λ q t h. ground (
                arith,
                got q,
                others q,
                fits q t,
                nat_beq_iff p q,
                extended-Fits r.context (kind w p) new rfits,
              );
              tracked = ground (arith, got p, nat_beq_iff p p);
              refcount = ground (arith, got p, nat_beq_iff p p, count);
              others = λ q ne. ground (arith, got q, others q ne, nat_beq_iff p q);
            })))

  module _ (p : ℕ) (w : World L)
      (valid : (q : ℕ) (t : Prec L) → prec_get q w ≡ some t → IsValidCtx? t.context)
      (fits : (q : ℕ) (t : Prec L) → prec_get q w ≡ some t → Fits? t.context (kind w q))
      (new : Fits f (kind w p)) (o : RpcStruct L) (live : w.heap s ≡ some (a_struct o)) where
    abbrev fresh_prec : Prec L
    fresh_prec = record { refcount = 0; context = none }

    first-Referenced :
        prec_get p w ≡ none
        → Referenced p w ((prec_new p >> prec_increment p (some (addition s k f))) w)
    unfolding prec_new
    first-Referenced un =
        let v : World L = record w { ptracker = (L.by_ptr.put w.ptracker p fresh_prec).0 } in
        let got = λ (q : ℕ). L.by_ptr.get-put w.ptracker p q fresh_prec un in
        rw (un, prec_new)
          (increment-Referenced p w v fresh_prec refl (ground (arith, got p, nat_beq_iff p p))
            (λ j a. ground (arith, un)) (ground (arith, un))
            (λ q ne. ground (arith, got q, nat_beq_iff p q)) new tt tt valid fits o live)

    again-Referenced :
        (r : Prec L)
        → prec_get p w ≡ some r
        → Referenced p w ((prec_new p >> prec_increment p (some (addition s k f))) w)
    unfolding prec_new
    again-Referenced r here =
        rw (here, prec_new)
          (increment-Referenced p w w r refl here (λ j a. ground (arith, here))
            (ground (arith, here)) (λ q ne. refl) new (valid p r here) (fits p r here) valid fits o
            live)

    pub take-Referenced :
        Referenced p w ((prec_new p >> prec_increment p (some (addition s k f))) w)
    take-Referenced = elim (Option-cases (prec_get p w)) [
      | inl un ↦ first-Referenced un
      | inr (r, here) ↦ again-Referenced r here
    ]
