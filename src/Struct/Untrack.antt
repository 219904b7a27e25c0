-- ===== src/Struct/Untrack.antt =====
-- The first half of `prec_delete`: the pointer leaves the table, and then each struct that held it.
use ffi_rpc.Base.{
  ℕ, ◌<◌, ◌+◌, ◌≡◌, ◌≢◌, sym, ap, ◌∙◌, some, none, Bool, String, arith, nat_eq, string_eq, ◌==◌,
  nat_beq_iff, if◌then◌else◌, All, All-mono, take, All-of_lookup, lookup-All, inl, inr,
  Option-cases,
}
use ffi_rpc.Ext.Queue.{QueueLib}
use ffi_rpc.Ext.Libs.{Libs}
use ffi_rpc.Types.{Element}
use ffi_rpc.Origins
use ffi_rpc.Origins.{OriginCtx}
use ffi_rpc.Origins.Counting.{take-counted, All-counted}
use ffi_rpc.World.{World, Prec, PtrCtx}
use ffi_rpc.Struct.{prec_get, untrack, tracked_count}
use ffi_rpc.Struct.Observe.{slot, recorded, prec_get-untrack}
use ffi_rpc.Struct.Onzero.{Unlinks, HoldsAll, ClearedAll}
use ffi_rpc.Struct.Invariant.{Inv, Shrinks, kind-of_element}

-- The slots in use, read off the array and off the counts.
module _ {Q : QueueLib} (c : OriginCtx Q) where
  take-holds : All (λ a. 0 < Origins.holds c a) (take c.o_index c.origins)
  unfolding Origins.holds
  take-holds = take-counted c.origins c.o_index

  All-holds :
      (P : ℕ → Type 0) (a : ℕ) → All P (take c.o_index c.origins) → 0 < Origins.holds c a → P a
  unfolding Origins.holds
  All-holds P a h counted = All-counted P c.origins c.o_index a h counted

module _ {L : Libs} {pending : ℕ → String → Bool} (w : World L) (inv : Inv pending w) (p : ℕ)
    (r : Prec L) (here : prec_get p w ≡ some r) where
  recorded-untracked :
      (w' : World L)
      → Unlinks p (untrack p w) w'
      → (q : ℕ) (k : String) (a : ℕ) → recorded w' q k a ≡ (if p == q then 0 else recorded w q k a)
  recorded-untracked w' u q k a =
      let got : prec_get q w' ≡ (if p == q then none else prec_get q w) =
        ap (λ t. L.by_ptr.get t q) u.table ∙ prec_get-untrack p q w in
      ground (arith, got)

  pub untrack-Shrinks : (w' : World L) → Unlinks p (untrack p w) w' → Shrinks w w'
  untrack-Shrinks w' u = record {
    records = λ q k a nz h. ground (arith, recorded-untracked w' u q k a);
    elements = λ s k e h. ground (arith, u.slots s k);
    structs = λ s un h. u.kinds s ∙ h;
    untracked = λ s un. ground (arith, ap (λ t. L.by_ptr.get t s) u.table, prec_get-untrack p s w);
    count =
        omega (arith, ap (λ t. L.by_ptr.size t) u.table, L.by_ptr.size-remove w.ptracker p r here);
  }

  pub untrack-count :
      (w' : World L) → Unlinks p (untrack p w) w' → tracked_count w' + 1 ≡ tracked_count w
  untrack-count w' u =
      ap (λ t. L.by_ptr.size t + 1) u.table ∙ L.by_ptr.size-remove w.ptracker p r here

  -- Once no struct that was recorded holds the pointer, the invariant stands again.
  pub untrack-Inv :
      (w' : World L)
      → Unlinks p (untrack p w) w'
      → ((k : String) (a : ℕ) → a ≢ 0 → 0 < recorded w p k a → slot w' a k ≡ none)
      → ((s : ℕ) (k : String) (e : Element) → slot w s k ≡ some e → s ≢ 0)
      → Inv pending w'
  untrack-Inv w' u gone live = record {
    forward = λ s k e at counted settled.
        let at' : slot w s k ≡ some e = ground (arith, u.slots s k) in
        ground (
          arith,
          recorded-untracked w' u e.word k s,
          nat_beq_iff p e.word,
          inv.forward s k e at' counted settled,
          gone k s (live s k e at'),
        );
    backward = λ q k a nz h.
        let was : 0 < recorded w q k a = ground (arith, recorded-untracked w' u q k a) in
        let other : p ≢ q =
          λ same. ground (arith, recorded-untracked w' u q k a, nat_beq_iff p q) in
        let (e, at, word, counted) = inv.backward q k a nz was in
        (e, ground (arith, u.slots a k), word, counted);
    valid = λ q s h.
        inv.valid q s (ground (arith, ap (λ t. L.by_ptr.get t q) u.table, prec_get-untrack p q w));
    fits = λ q s h.
        rw (u.kinds q) (
          inv.fits q s
            (ground (arith, ap (λ t. L.by_ptr.get t q) u.table, prec_get-untrack p q w)));
    null = u.kinds 0 ∙ inv.null;
  }

  holds_counted :
      (x : PtrCtx L) (key : String) (c : OriginCtx L.queues) (a : ℕ)
      → r.context ≡ some x
      → L.by_name.get x.keys key ≡ some c
      → 0 < Origins.holds c a
      → 0 < recorded w p key a
  holds_counted x key c a e keyed counted = ground (arith, here)

  -- What the slots record is there to be taken out.
  pub entries-HoldsAll :
      (x : PtrCtx L)
      → r.context ≡ some x
      → All (HoldsAll p (untrack p w)) (L.by_name.entries x.keys)
  entries-HoldsAll x e =
      All-of_lookup (HoldsAll p (untrack p w)) (L.by_name.entries x.keys)
        (L.by_name.entries-DistinctKeys x.keys)
        λ key c found.
          let keyed : L.by_name.get x.keys key ≡ some c =
            sym (L.by_name.lookup-entries x.keys key) ∙ found in
          All-mono (take c.o_index c.origins)
            (λ a counted nz.
              let some_at : 0 < recorded w p key a = holds_counted x key c a e keyed counted in
              let (el, at, word, _) = inv.backward p key a nz some_at in
              (kind-of_element (w.heap a) key el at, λ f got. ground (arith, at, got, word)))
            (take-holds c)

  pub cleared-gone :
      (w' : World L) (x : PtrCtx L)
      → r.context ≡ some x
      → All (ClearedAll w') (L.by_name.entries x.keys)
      → (k : String) (a : ℕ) → a ≢ 0
      → 0 < recorded w p k a
      → slot w' a k ≡ none
  cleared-gone w' x e cleared k a nz counted = elim (Option-cases (L.by_name.get x.keys k)) [
    | inl missing ↦ absurd (ground (arith, here, e, missing))
    | inr (c, keyed) ↦
        let holds : 0 < Origins.holds c a = ground (arith, here, e, keyed) in
        All-holds c (λ b. b ≢ 0 → slot w' b k ≡ none) a
          (lookup-All (ClearedAll w') (L.by_name.entries x.keys) k c
            (L.by_name.lookup-entries x.keys k ∙ keyed) cleared)
          holds nz
  ]
