-- ===== src/Struct/Delete.antt =====
-- `prec_delete` as a whole, by induction on fuel.
use ffi_rpc.Base.{
  ℕ, zero, suc, ◌≤◌, ◌≡◌, refl, sym, ap, subst, is_some, ◌∙◌, Option, some, none, true, Bool,
  String, arith, nat_eq, string_eq, nat_beq_iff,
}
use ffi_rpc.Ext.Libs.{Libs}
use ffi_rpc.World.{World, Prec, PtrCtx}
use ffi_rpc.World.Cmd.{Run, ok}
use ffi_rpc.Struct.{Cmd, prec_get, tracked_count, onzero_cb, delete, untrack}
use ffi_rpc.Struct.Observe.{kind, tracked, Fits, Fits?}
use ffi_rpc.Struct.Invariant.{Inv, Inv-nonnull}
use ffi_rpc.Struct.Decrement.{Deletes, Deleted}
use ffi_rpc.Struct.Onzero
use ffi_rpc.Struct.Untrack
use ffi_rpc.Struct.Free.{Freed, call_free-Freed}
use ffi_rpc.Struct.Observe.{prec_get-untrack}

module _ {L : Libs} {pending : ℕ → String → Bool} {bound : ℕ} (del : ℕ → Cmd L (Unit {0}))
    (deletes : Deletes bound del) (w : World L) (inv : Inv pending w) (p : ℕ) (r : Prec L)
    (here : prec_get p w ≡ some r) (enough : tracked_count w ≤ suc bound) where
  untracked_now : (v : World L) → Onzero.Unlinks p (untrack p w) v → prec_get p v ≡ none
  untracked_now v u =
      ap (λ t. L.by_ptr.get t p) u.table ∙ ground (arith, prec_get-untrack p p w, nat_beq_iff p p)

  contextless-Deleted : r.context ≡ none → Deleted pending w p (ok tt (untrack p w))
  contextless-Deleted e =
      let u = Onzero.Unlinks-refl {p = p} (untrack p w) in
      record {
        world = untrack p w;
        runs = refl;
        inv =
            Untrack.untrack-Inv w inv p r here (untrack p w) u
              (λ k a nz h. absurd (ground (arith, here, e))) (Inv-nonnull inv);
        shrinks = Untrack.untrack-Shrinks w inv p r here (untrack p w) u;
        gone = ap is_some (untracked_now (untrack p w) u);
      }

  Freed-Deleted :
      (v : World L)
      → Onzero.Unlinks p (untrack p w) v
      → (m : Run (World L) (Unit {0})) → Freed pending v p m
      → Deleted pending w p m
  Freed-Deleted v u m f =
      let first = Untrack.untrack-Shrinks w inv p r here v u in
      record {
        world = f.world;
        runs = f.runs;
        inv = f.inv;
        shrinks = record {
          records = λ q k a nz h. first.records q k a nz (f.records q k a nz h);
          elements = λ s k e h. first.elements s k e (f.elements s k e h);
          structs = λ s un is.
              f.structs s (λ same. ground (arith, here, un, same)) (first.untracked s un)
                (first.structs s un is);
          untracked = λ s un. f.untracked s (first.untracked s un);
          count = omega (arith, first.count, f.count);
        };
        gone = f.untracked p (ap is_some (untracked_now v u));
      }

  context-Deleted :
      (x : PtrCtx L)
      → r.context ≡ some x
      → Deleted pending w p (onzero_cb del p (some x) (untrack p w))
  unfolding onzero_cb
  context-Deleted x e =
      let z =
        Onzero.onzero_keys-Unlinked del p (untrack p w) (L.by_name.entries x.keys)
          (untracked_now (untrack p w) (Onzero.Unlinks-refl (untrack p w)))
          (Untrack.entries-HoldsAll w inv p r here x e) in
      let settled =
        Untrack.untrack-Inv w inv p r here z.world z.unlinks
          (Untrack.cleared-gone w inv p r here z.world x e z.post) (Inv-nonnull inv) in
      let fits : Fits x.free (kind z.world p) =
        subst (Fits x.free) (sym (z.unlinks.kinds p))
          (subst (λ c. Fits? c (kind w p)) e (inv.fits p r here)) in
      rw z.runs (
        Freed-Deleted z.world z.unlinks _ (
          call_free-Freed del deletes z.world p settled
            (omega (arith, Untrack.untrack-count w inv p r here z.world z.unlinks, enough))
            (ap is_some (untracked_now z.world z.unlinks)) x.free fits))

  onzero_cb-Deleted :
      (x : Option (PtrCtx L))
      → r.context ≡ x
      → Deleted pending w p (onzero_cb del p x (untrack p w))
  unfolding onzero_cb
  onzero_cb-Deleted none e = contextless-Deleted e
  onzero_cb-Deleted (some x) e = context-Deleted x e

module _ {L : Libs} where
  tracked-some : (w : World L) (p : ℕ) → tracked w p ≡ true → (r : Prec L) × (prec_get p w ≡ some r)
  tracked-some w p h = ground arith

  -- Fuel for every tracked pointer is enough: a deletion ends, without a fault.
  pub delete-Deletes : (n : ℕ) → Deletes {L = L} n (delete n)
  unfolding delete
  delete-Deletes zero pending w p inv h enough =
      let (r, here) = tracked-some w p h in
      absurd (omega (arith, L.by_ptr.size-remove w.ptracker p r here, enough))
  delete-Deletes (suc n) pending w p inv h enough =
      let (r, here) = tracked-some w p h in
      rw (here, delete)
        (onzero_cb-Deleted (delete n) (delete-Deletes n) w inv p r here enough r.context refl)
