-- ===== src/Struct/Remove.antt =====
-- `rpc_struct_remove` and the loop of `rpc_struct_free_internals`, on a struct that is tracked no
-- more. The deletion is a parameter with its outcome.
use ffi_rpc.Base.{
  ℕ, ◌<◌, ◌≤◌, ◌≡◌, refl, ◌∙◌, some, none, true, false, Bool, String, arith, nat_eq, string_eq,
  ◌==◌, nat_beq_iff, Bool-cases, inl, inr, Option-cases, ◌&&◌,
}
use ffi_rpc.Ext.Libs.{Libs}
use ffi_rpc.Types.{Element, is_refcounted}
use ffi_rpc.World.{World, RpcStruct, a_struct}
use ffi_rpc.World.Cmd.{Run, ok, pure, ◌>>◌}
use ffi_rpc.Struct.{Cmd, tracked_count, remove_element, remove_with, unlink}
use ffi_rpc.Struct.Observe.{
  Kind, kind, slot, recorded, tracked, struct_of_kind, load-ok, unlinked, unlink-ok, slot-unlinked,
  kind-unlinked,
}
use ffi_rpc.Struct.Invariant.{Inv, Shrinks, Shrinks-refl, Shrinks-trans, Inv-nonnull}
use ffi_rpc.Struct.Decrement
use ffi_rpc.Struct.Decrement.{Deletes, also, prec_decrement-Dropped}

module _ {L : Libs} where
  -- The outcome of removing a key.
  pub record Removed (pending : ℕ → String → Bool) (w : World L) (s : ℕ) (k : String)
      (m : Run (World L) ℕ) : Type 0 where
    pub result : ℕ
    pub world : World L
    pub runs : m ≡ ok result world
    pub inv : Inv pending world
    pub shrinks : Shrinks w world
    pub gone : slot world s k ≡ none

module _ {L : Libs} (s : ℕ) (k : String) (w : World L) (o : RpcStruct L)
    (h : w.heap s ≡ some (a_struct o)) where
  unlinked-Shrinks : Shrinks w (unlinked w s o k)
  unlinked-Shrinks = record {
    records = λ p j a nz c. c;
    elements = λ a j e at. ground (arith, slot-unlinked w s o k h a j);
    structs = λ a un i. kind-unlinked w s o k h a ∙ i;
    untracked = λ a un. un;
    count = omega arith;
  }

  unlinked-Inv :
      {pending : ℕ → String → Bool}
      → Inv (also pending s k) w
      → ((p : ℕ) → ¬ (0 < recorded w p k s))
      → Inv pending (unlinked w s o k)
  unlinked-Inv i unrecorded = record {
    forward = λ a j e at c settled. ground (arith, slot-unlinked w s o k h a j, i.forward a j e);
    backward = λ p j a nz c.
        let (e, at, word, counts) = i.backward p j a nz c in
        let other : ((s == a) && (k == j)) ≡ false =
          ground (arith, unrecorded p, nat_beq_iff s a, string_eq.same_iff k j) in
        (e, ground (arith, slot-unlinked w s o k h a j), word, counts);
    valid = i.valid;
    fits = λ p r here. rw (kind-unlinked w s o k h p) (i.fits p r here);
    null = kind-unlinked w s o k h 0 ∙ i.null;
  }

  unlinked-gone : slot (unlinked w s o k) s k ≡ none
  unlinked-gone =
      ground (arith, slot-unlinked w s o k h s k, nat_beq_iff s s, string_eq.same_iff k k)

module _ {L : Libs} {pending : ℕ → String → Bool} (s : ℕ) (k : String) (w : World L) where
  unlink-Removed :
      (v : World L)
      → Inv (also pending s k) v
      → Shrinks w v
      → ((p : ℕ) → ¬ (0 < recorded v p k s))
      → kind v s ≡ Kind.struct
      → Removed pending w s k ((unlink s k >> pure 0) v)
  unlink-Removed v inv shrinks unrecorded is =
      let (o, h) = struct_of_kind (v.heap s) is in
      record {
        result = 0;
        world = unlinked v s o k;
        runs = rw (unlink-ok s k v o h) refl;
        inv = unlinked-Inv s k v o h inv unrecorded;
        shrinks = Shrinks-trans shrinks (unlinked-Shrinks s k v o h);
        gone = unlinked-gone s k v o h;
      }

module _ {L : Libs} {pending : ℕ → String → Bool} {bound : ℕ} (del : ℕ → Cmd L (Unit {0}))
    (deletes : Deletes bound del) (s : ℕ) where
  module _ (k : String) (w : World L) (inv : Inv pending w) (enough : tracked_count w ≤ bound)
      (free : tracked w s ≡ false) (is : kind w s ≡ Kind.struct) where
    counted-Removed :
        (e : Element)
        → slot w s k ≡ some e
        → is_refcounted e.type ≡ true
        → Removed pending w s k (remove_element del s k e w)
    unfolding remove_element
    counted-Removed e at c =
        let d = prec_decrement-Dropped w inv s k e at c del deletes enough in
        let u =
          unlink-Removed s k w d.world d.kept d.shrinks d.unrecorded
            (d.shrinks.structs s free is) in
        rw c (rw d.runs u)

    plain-Removed :
        (e : Element)
        → slot w s k ≡ some e
        → is_refcounted e.type ≡ false
        → Removed pending w s k (remove_element del s k e w)
    unfolding remove_element
    plain-Removed e at c =
        let nonnull = Inv-nonnull inv s k e at in
        rw c (
          unlink-Removed s k w w (Decrement.also-Inv w inv s k) (Shrinks-refl w)
            (λ p h.
              let (f, got, _, counts) = inv.backward p k s nonnull h in
              ground (arith, at, got, counts, c))
            is)

    absent-Removed : slot w s k ≡ none → Removed pending w s k (pure 1 w)
    absent-Removed gone = record {
      result = 1;
      world = w;
      runs = refl;
      inv = inv;
      shrinks = Shrinks-refl w;
      gone = gone;
    }

    pub remove_with-Removed : Removed pending w s k (remove_with del s k w)
    unfolding remove_with
    remove_with-Removed =
        let (o, h) = struct_of_kind (w.heap s) is in
        let nonnull : (s == 0) ≡ false = ground (arith, is, inv.null) in
        elim (Option-cases (slot w s k)) [
          | inl gone ↦
              let missing : L.by_name.get o.map k ≡ none = rw h at gone in
              rw nonnull (rw (load-ok s w o h) (rw missing (absent-Removed gone)))
          | inr (e, at) ↦
              let present : L.by_name.get o.map k ≡ some e = rw h at at in
              rw nonnull (
                rw (load-ok s w o h) (
                  rw present (elim (Bool-cases (is_refcounted e.type)) [
                    | inl c ↦ counted-Removed e at c
                    | inr c ↦ plain-Removed e at c
                  ])))
        ]
