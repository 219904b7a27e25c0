-- ===== src/Struct/Safety.antt =====
-- Creating, removing and freeing, as src/rpc_struct.c offers them to its callers.
use ffi_rpc.Base.{
  ℕ, ◌≡◌, ◌≢◌, refl, sym, ap, ◌∙◌, ◌⊎◌, Option, some, none, true, false, String, arith, nat_eq,
  string_eq, ◌==◌, nat_beq_iff, Bool-cases, inl, inr, Option-cases, is_some,
}
use ffi_rpc.Ext.Libs.{Libs}
use ffi_rpc.Types.{Element, is_refcounted}
use ffi_rpc.World.{World, Object, a_struct, a_sizedbuf, a_function, RpcStruct, set_struct}
use ffi_rpc.World.Cmd.{Run, ok}
use ffi_rpc.Struct.{prec_get, tracked_count, delete, free_struct_internal}
use ffi_rpc.Struct.Observe.{Kind, kind, kind_of, slot, element_in, recorded, tracked}
use ffi_rpc.Struct.Invariant.{IsConsistent, nothing_pending}
use ffi_rpc.Struct.Delete.{delete-Deletes}
use ffi_rpc.Struct.Free.{Freed, free_struct_internal-Freed}
use ffi_rpc.Struct.Remove.{Removed, remove_with-Removed}
use ffi_rpc.Struct.Api.{create, remove, free}

module _ {L : Libs} where
  -- The outcome of freeing a pointer.
  pub record Released (p : ℕ) (w : World L) (m : Run (World L) (Unit {0})) : Type 0 where
    pub world : World L
    pub runs : m ≡ ok tt world
    pub consistent : IsConsistent world
    pub untracked : tracked world p ≡ false
    pub unheld :
        (s : ℕ) (k : String) (e : Element)
        → slot world s k ≡ some e
        → is_refcounted e.type ≡ true
        → e.word ≢ p
    pub elements :
        (s : ℕ) (k : String) (e : Element) → slot world s k ≡ some e → slot w s k ≡ some e

  -- What is tracked no more is held by nobody.
  unheld_untracked :
      (w : World L) (p : ℕ)
      → IsConsistent w
      → tracked w p ≡ false
      → (s : ℕ) (k : String) (e : Element) → slot w s k ≡ some e
      → is_refcounted e.type ≡ true
      → e.word ≢ p
  unheld_untracked w p inv un s k e at c same =
      ground (arith, inv.forward s k e at c, un, ap (λ (q : ℕ). recorded w q k s) same)

  tracked-Released :
      (w : World L) (p : ℕ)
      → IsConsistent w
      → tracked w p ≡ true
      → Released p w (delete (tracked_count w) p w)
  tracked-Released w p inv h =
      let d = delete-Deletes (tracked_count w) nothing_pending w p inv h (omega arith) in
      record {
        world = d.world;
        runs = d.runs;
        consistent = d.inv;
        untracked = d.gone;
        unheld = unheld_untracked d.world p d.inv d.gone;
        elements = d.shrinks.elements;
      }

  untracked-Released :
      (w : World L) (p : ℕ)
      → IsConsistent w
      → tracked w p ≡ false
      → kind w p ≡ Kind.struct
      → Released p w (free_struct_internal (delete (tracked_count w)) p w)
  untracked-Released w p inv un is =
      let f =
        free_struct_internal-Freed (delete (tracked_count w)) (delete-Deletes (tracked_count w)) w p
          inv (omega arith) un is in
      record {
        world = f.world;
        runs = f.runs;
        consistent = f.inv;
        untracked = f.untracked p un;
        unheld = unheld_untracked f.world p f.inv (f.untracked p un);
        elements = f.elements;
      }

  -- In a consistent memory rpc_struct_free of a pointer other than NULL that is tracked, or is a
  -- live struct, ends without a fault; the memory is consistent again, the pointer is tracked no
  -- more, no element that counts references holds it in any struct, and no element appeared or
  -- changed.
  pub free-Released :
      (w : World L) (p : ℕ)
      → IsConsistent w
      → p ≢ 0
      → (tracked w p ≡ true) ⊎ (kind w p ≡ Kind.struct)
      → Released p w (free p w)
  unfolding free
  free-Released w p inv nz what =
      let test : (p == 0) ≡ false = ground arith in
      rw test (elim (Option-cases (prec_get p w)) [
        | inl un ↦
            rw (un, free) (untracked-Released w p inv (ap is_some un) (ground (arith, un, what)))
        | inr (r, here) ↦ rw (here, free) (tracked-Released w p inv (ap is_some here))
      ])

  -- Freeing a struct that is not tracked frees no other one that is not.
  pub free-Freed :
      (w : World L) (p : ℕ)
      → IsConsistent w
      → p ≢ 0
      → tracked w p ≡ false
      → kind w p ≡ Kind.struct
      → Freed nothing_pending w p (free p w)
  unfolding free
  free-Freed w p inv nz un is =
      let test : (p == 0) ≡ false = ground arith in
      rw test (elim (Option-cases (prec_get p w)) [
        | inl none_there ↦
            rw (none_there, free)
              (free_struct_internal-Freed (delete (tracked_count w))
                (delete-Deletes (tracked_count w)) w p inv (omega arith) un is)
        | inr (r, here) ↦ absurd (ground (arith, here, un))
      ])

  -- In a consistent memory rpc_struct_remove of any key of a live struct that no other struct
  -- counts ends without a fault; the key is gone, the memory is consistent, no element or record
  -- appeared, and no untracked struct was freed.
  pub remove-Removed :
      (w : World L) (s : ℕ) (k : String)
      → IsConsistent w
      → kind w s ≡ Kind.struct
      → tracked w s ≡ false
      → Removed nothing_pending w s k (remove s k w)
  unfolding remove
  remove-Removed w s k inv is un =
      remove_with-Removed (delete (tracked_count w)) (delete-Deletes (tracked_count w)) s k w inv
        (omega arith) un is

  -- The outcome of creating a struct.
  pub record Created (fresh : ℕ) (w : World L) (m : Run (World L) ℕ) : Type 0 where
    pub world : World L
    pub runs : m ≡ ok fresh world
    pub consistent : IsConsistent world
    pub is : kind world fresh ≡ Kind.struct
    pub empty : (k : String) → slot world fresh k ≡ none
    pub slots : (s : ℕ) (k : String) → slot world s k ≡ slot w s k
    pub untracked : tracked world fresh ≡ false
    pub heaps : (a : ℕ) → fresh ≢ a → world.heap a ≡ w.heap a
    pub tracker : world.ptracker ≡ w.ptracker

  pub element_in-absent :
      (x : Option (Object L)) (k : String) → kind_of x ≡ Kind.absent → element_in k x ≡ none
  element_in-absent none k h = refl
  element_in-absent (some (a_struct o)) k h = absurd (ground arith)
  element_in-absent (some (a_sizedbuf b)) k h = refl
  element_in-absent (some (a_function f)) k h = refl

  abbrev new_struct : String → RpcStruct L
  new_struct id = record {
    map = L.by_name.init Element;
    id = id;
    copyof = 0;
    manual_destructor = 0;
  }

  slot-created :
      (w : World L) (fresh : ℕ) (id : String)
      → kind w fresh ≡ Kind.absent
      → (s : ℕ) (k : String) → slot (set_struct fresh (new_struct id) w) s k ≡ slot w s k
  slot-created w fresh id free s k = elim (Bool-cases (fresh == s)) [
    | inl hit ↦ rw hit (
        rw (L.by_name.get-init Element k)
          (sym (element_in-absent (w.heap s) k (rw (← (nat_beq_iff fresh s).0 hit) free))))
    | inr miss ↦ rw miss refl
  ]

  -- In a consistent memory, a struct created at an address other than NULL that holds no object
  -- and is not tracked is empty and not tracked, the elements of all structs are what they were,
  -- and the memory stays consistent.
  pub create-Created :
      (w : World L) (fresh : ℕ) (id : String)
      → IsConsistent w
      → fresh ≢ 0
      → kind w fresh ≡ Kind.absent
      → tracked w fresh ≡ false
      → Created fresh w (create fresh id w)
  unfolding create
  create-Created w fresh id inv nz free un =
      let v : World L = set_struct fresh (new_struct id) w in
      let slots : (s : ℕ) (k : String) → slot v s k ≡ slot w s k = slot-created w fresh id free in
      record {
        world = v;
        runs = refl;
        consistent = record {
          forward =
              λ s k e at counts settled. inv.forward s k e (sym (slots s k) ∙ at) counts settled;
          backward = λ p k a live counted.
              let (e, at, word, counts) = inv.backward p k a live counted in
              (e, slots a k ∙ at, word, counts);
          valid = inv.valid;
          fits = λ p r here.
              ground (arith, inv.fits p r here, nat_beq_iff fresh p, ap is_some here, un);
          null = ground (arith, inv.null, nat_beq_iff fresh 0);
        };
        is = ground (arith, nat_beq_iff fresh fresh);
        empty = λ k. slots fresh k ∙ element_in-absent (w.heap fresh) k free;
        slots = slots;
        untracked = un;
        heaps = λ a ne. ground (arith, nat_beq_iff fresh a);
        tracker = refl;
      }
