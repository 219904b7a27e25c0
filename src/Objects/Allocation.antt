-- ===== src/Objects/Allocation.antt =====
-- New buffers and functions in a consistent memory.
use ffi_rpc.Base.{
  ℕ, ◌≡◌, ◌≢◌, sym, ap, subst, ◌∙◌, Option, some, none, false, String, arith, nat_eq, ◌==◌,
  nat_beq_iff, Bool-cases, inl, inr, is_some,
}
use ffi_rpc.Ext.Libs.{Libs}
use ffi_rpc.World.{World, Object}
use ffi_rpc.Struct.Observe.{Kind, kind, kind_of, slot, element_in, tracked, Fits?}
use ffi_rpc.Struct.Invariant.{IsConsistent}
use ffi_rpc.Struct.Safety.{element_in-absent}

module _ {L : Libs} (w : World L) (p : ℕ) (x : Object L) (h : ℕ → Option (Object L)) where
  -- The memory `h` is that of `w` but for the object at `p`.
  pub record Puts : Type 0 where
    pub here : h p ≡ some x
    pub others : (q : ℕ) → q ≢ p → h q ≡ w.heap q

  slot-put :
      Puts
      → kind w p ≡ Kind.absent
      → ((k : String) → element_in k (some x) ≡ none)
      → (s : ℕ) (k : String) → slot (record w { heap = h }) s k ≡ slot w s k
  slot-put u free empty s k = elim (Bool-cases (p == s)) [
    | inl hit ↦
        rw (← (nat_beq_iff p s).0 hit)
          (ap (element_in k) u.here ∙ empty k ∙ sym (element_in-absent (w.heap p) k free))
    | inr miss ↦ ap (element_in k) (u.others s (ground (arith, nat_beq_iff p s)))
  ]

  -- An object without elements may be put where nothing is.
  pub put-IsConsistent :
      Puts
      → IsConsistent w
      → p ≢ 0
      → kind w p ≡ Kind.absent
      → tracked w p ≡ false
      → ((k : String) → element_in k (some x) ≡ none)
      → IsConsistent (record w { heap = h })
  put-IsConsistent u inv nz free un empty =
      let v : World L = record w { heap = h } in
      let slots : (s : ℕ) (k : String) → slot v s k ≡ slot w s k = slot-put u free empty in
      record {
        forward =
            λ s k e at counts settled. inv.forward s k e (sym (slots s k) ∙ at) counts settled;
        backward = λ q k a live counted.
            let (e, at, word, counts) = inv.backward q k a live counted in
            (e, slots a k ∙ at, word, counts);
        valid = inv.valid;
        fits = λ q r here.
            let other : q ≢ p = λ e. ground (arith, ap (tracked w) e, ap is_some here, un) in
            subst (Fits? r.context) (ap kind_of (sym (u.others q other))) (inv.fits q r here);
        null = ap kind_of (u.others 0 (λ e. nz (sym e))) ∙ inv.null;
      }
