-- ===== src/Struct/Decrement.antt =====
-- `prec_decrement` as `rpc_struct_remove` calls it: the struct's record under the key goes, and the
-- pointer with it if that was the last reference. The deletion is a parameter with its outcome.
use ffi_rpc.Base.{
  ℕ, ◌<◌, ◌≤◌, ◌-◌, ◌≡◌, ◌≢◌, refl, ap, ◌∙◌, Option, some, none, true, false, Bool, String, arith,
  nat_eq, string_eq, ◌==◌, nat_beq_iff, if◌then◌else◌, Bool-cases, inl, inr, Option-cases, ◌&&◌,
  ◌||◌, is_some,
}
use ffi_rpc.Ext.Libs.{Libs}
use ffi_rpc.Types.{Element, is_refcounted, no_free}
use ffi_rpc.World.{World, Prec, PtrCtx, Udata, set_prec}
use ffi_rpc.World.Cmd.{Run, ok}
use ffi_rpc.Struct.{Cmd, prec_get, tracked_count, decrement_cb, prec_decrement}
use ffi_rpc.Struct.Recorded.{
  recorded_at, drop_origin-recorded_in, drop_origin-IsValidCtx, drop_origin-free,
}
use ffi_rpc.Struct.Observe.{
  Kind, kind, slot, recorded, tracked, IsValidCtx?, Fits?, prec_get-set_prec,
}
use ffi_rpc.Struct.Invariant.{Inv, Shrinks, Shrinks-refl, Shrinks-trans, Inv-nonnull}

-- The outcome of a deletion.
module _ {L : Libs} where
  pub record Deleted (pending : ℕ → String → Bool) (w : World L) (p : ℕ)
      (m : Run (World L) (Unit {0})) : Type 0 where
    pub world : World L
    pub runs : m ≡ ok tt world
    pub inv : Inv pending world
    pub shrinks : Shrinks w world
    pub gone : tracked world p ≡ false

  -- What a deletion does in each memory with at most `n` tracked pointers.
  abbrev pub Deletes : ℕ → (ℕ → Cmd L (Unit {0})) → Type 0
  Deletes n del =
      (pending : ℕ → String → Bool) (w : World L) (p : ℕ)
      → Inv pending w
      → tracked w p ≡ true
      → tracked_count w ≤ n
      → Deleted pending w p (del p w)

abbrev pub removal : ℕ → String → Udata
removal s k = record { origin = s; name = some k; free = no_free }

abbrev pub also : (ℕ → String → Bool) → ℕ → String → ℕ → String → Bool
also pending s k a j = pending a j || (s == a && k == j)

module _ {L : Libs} (s : ℕ) (k : String) (nonnull : s ≢ 0) where
  decrement_cb-recorded_at :
      (x : Option (PtrCtx L))
      → IsValidCtx? x
      → (j : String) (a : ℕ) → a ≢ 0
      → recorded_at j a (decrement_cb (some (removal s k)) x)
        ≡ (if (k == j) && (s == a) then 0 else recorded_at j a x)
  unfolding decrement_cb
  decrement_cb-recorded_at none v j a nz = ground arith
  decrement_cb-recorded_at (some x) v j a nz = drop_origin-recorded_in k s nonnull x v j a nz

  decrement_cb-IsValidCtx? :
      (x : Option (PtrCtx L)) → IsValidCtx? x → IsValidCtx? (decrement_cb (some (removal s k)) x)
  unfolding decrement_cb
  decrement_cb-IsValidCtx? none v = tt
  decrement_cb-IsValidCtx? (some x) v = drop_origin-IsValidCtx k s nonnull x v

  decrement_cb-Fits? :
      (x : Option (PtrCtx L)) (i : Kind) → Fits? x i → Fits? (decrement_cb (some (removal s k)) x) i
  unfolding decrement_cb
  decrement_cb-Fits? none i f = tt
  decrement_cb-Fits? (some x) i f = rw (drop_origin-free k s nonnull x) f

module _ {L : Libs} {pending : ℕ → String → Bool} (w : World L) (inv : Inv pending w) (s : ℕ)
    (k : String) where
  pub also-Inv : Inv (also pending s k) w
  also-Inv = record {
    forward = λ a j f got c settled. inv.forward a j f got c (ground (arith, settled));
    backward = inv.backward;
    valid = inv.valid;
    fits = inv.fits;
    null = inv.null;
  }

module _ {L : Libs} {pending : ℕ → String → Bool} (w : World L) (inv : Inv pending w) (s : ℕ)
    (k : String) (e : Element) (at : slot w s k ≡ some e)
    (counts : is_refcounted e.type ≡ true) where
  nonnull : s ≢ 0
  nonnull = Inv-nonnull inv s k e at

  -- Any pointer that records the slot is the one that stands there.
  recorded-word : (p : ℕ) → 0 < recorded w p k s → e.word ≡ p
  recorded-word p h =
      let (f, got, word, _) = inv.backward p k s nonnull h in ground (arith, at, got, word)

  module _ (r : Prec L) (here : prec_get e.word w ≡ some r) (n : ℕ) where
    abbrev dropped : World L
    dropped =
        set_prec e.word
          (record { refcount = n; context = decrement_cb (some (removal s k)) r.context }) w

    recorded-dropped :
        (p : ℕ) (j : String) (a : ℕ)
        → a ≢ 0
        → recorded dropped p j a
          ≡ (if (e.word == p) && ((k == j) && (s == a)) then 0 else recorded w p j a)
    recorded-dropped p j a nz = ground (
      arith,
      prec_get-set_prec e.word p r
          (record { refcount = n; context = decrement_cb (some (removal s k)) r.context }) w here,
      decrement_cb-recorded_at s k nonnull r.context (inv.valid e.word r here) j a nz,
      nat_beq_iff e.word p,
      here,
    )

    tracked-dropped : (p : ℕ) → tracked dropped p ≡ tracked w p
    tracked-dropped p = ground (
      arith,
      prec_get-set_prec e.word p r
          (record { refcount = n; context = decrement_cb (some (removal s k)) r.context }) w here,
      nat_beq_iff e.word p,
      here,
    )

    dropped-Shrinks : Shrinks w dropped
    dropped-Shrinks = record {
      records = λ p j a nz h. ground (arith, recorded-dropped p j a nz);
      elements = λ a j f got. got;
      structs = λ a un i. i;
      untracked = λ a un. tracked-dropped a ∙ un;
      count = omega (
        arith,
        L.by_ptr.size-store w.ptracker e.word
            (record { refcount = n; context = decrement_cb (some (removal s k)) r.context }),
      );
    }

    dropped-Inv : Inv (also pending s k) dropped
    dropped-Inv = record {
      forward = λ a j f got c settled.
          ground (
            arith,
            recorded-dropped f.word j a (Inv-nonnull inv a j f got),
            inv.forward a j f got c,
          );
      backward = λ p j a nz h. inv.backward p j a nz (ground (arith, recorded-dropped p j a nz));
      valid = λ p q got. ground (
        arith,
        prec_get-set_prec e.word p r
            (record { refcount = n; context = decrement_cb (some (removal s k)) r.context }) w here,
        inv.valid p q,
        decrement_cb-IsValidCtx? s k nonnull r.context (inv.valid e.word r here),
      );
      fits = λ p q got. ground (
        arith,
        prec_get-set_prec e.word p r
            (record { refcount = n; context = decrement_cb (some (removal s k)) r.context }) w here,
        nat_beq_iff e.word p,
        inv.fits p q,
        decrement_cb-Fits? s k nonnull r.context (kind w e.word) (inv.fits e.word r here),
      );
      null = inv.null;
    }

  -- The outcome of the decrement: the removal of the element is under way, and nobody records it.
  pub record Dropped (m : Run (World L) (Unit {0})) : Type 0 where
    pub world : World L
    pub runs : m ≡ ok tt world
    pub kept : Inv (also pending s k) world
    pub shrinks : Shrinks w world
    pub unrecorded : (p : ℕ) → ¬ (0 < recorded world p k s)

  untracked-Dropped : prec_get e.word w ≡ none → Dropped (ok tt w)
  untracked-Dropped un = record {
    world = w;
    runs = refl;
    kept = also-Inv w inv s k;
    shrinks = Shrinks-refl w;
    unrecorded = λ p h. ground (arith, ap (λ (q : ℕ). recorded w q k s) (recorded-word p h), un);
  }

  module _ (r : Prec L) (here : prec_get e.word w ≡ some r) (n : ℕ) where
    dropped-unrecorded : (p : ℕ) → ¬ (0 < recorded (dropped r here n) p k s)
    dropped-unrecorded p h = ground (
      arith,
      recorded-dropped r here n p k s nonnull,
      recorded-word p,
      nat_beq_iff e.word p,
      nat_beq_iff s s,
      string_eq.same_iff k k,
    )

    kept-Dropped : Dropped (ok tt (dropped r here n))
    kept-Dropped = record {
      world = dropped r here n;
      runs = refl;
      kept = dropped-Inv r here n;
      shrinks = dropped-Shrinks r here n;
      unrecorded = dropped-unrecorded;
    }

  module _ {bound : ℕ} (del : ℕ → Cmd L (Unit {0})) (deletes : Deletes bound del)
      (enough : tracked_count w ≤ bound) (r : Prec L) (here : prec_get e.word w ≡ some r) where
    deleted-Dropped : Dropped (del e.word w)
    deleted-Dropped =
        let d = deletes (also pending s k) w e.word (also-Inv w inv s k) (rw here refl) enough in
        record {
          world = d.world;
          runs = d.runs;
          kept = d.inv;
          shrinks = d.shrinks;
          unrecorded = λ p h.
              let same = recorded-word p (d.shrinks.records p k s nonnull h) in
              ground (arith, ap (λ (q : ℕ). recorded d.world q k s) same, d.gone);
        }

    last-Dropped : (n : ℕ) → Dropped (del e.word (dropped r here n))
    last-Dropped n =
        let f = dropped-Shrinks r here n in
        let d =
          deletes (also pending s k) (dropped r here n) e.word (dropped-Inv r here n)
            (tracked-dropped r here n e.word ∙ ap is_some here) (omega (arith, f.count, enough)) in
        record {
          world = d.world;
          runs = d.runs;
          kept = d.inv;
          shrinks = Shrinks-trans f d.shrinks;
          unrecorded = λ p h. dropped-unrecorded r here n p (d.shrinks.records p k s nonnull h);
        }

    tracked-Dropped : Dropped (prec_decrement del e.word (some (removal s k)) w)
    unfolding prec_decrement
    tracked-Dropped = elim (Bool-cases (r.refcount == 0)) [
      | inl zeroed ↦ rw (here, prec_decrement) (rw zeroed deleted-Dropped)
      | inr more ↦ elim (Bool-cases (r.refcount - 1 == 0)) [
        | inl last ↦ rw (here, prec_decrement) (rw more (rw last (last-Dropped (r.refcount - 1))))
        | inr left ↦
            rw (here, prec_decrement) (rw more (rw left (kept-Dropped r here (r.refcount - 1))))
      ]
    ]

  pub prec_decrement-Dropped :
      {bound : ℕ} (del : ℕ → Cmd L (Unit {0}))
      → Deletes bound del
      → tracked_count w ≤ bound
      → Dropped (prec_decrement del e.word (some (removal s k)) w)
  unfolding prec_decrement
  prec_decrement-Dropped del deletes enough = elim (Option-cases (prec_get e.word w)) [
    | inl un ↦ rw (un, prec_decrement) (untracked-Dropped un)
    | inr (r, here) ↦ tracked-Dropped del deletes enough r here
  ]
