-- ===== src/Struct/Invariant.antt =====
-- The invariant of the memory, and what deletions may change.
use ffi_rpc.Base.{
  ℕ, ◌<◌, ◌≤◌, ◌≡◌, ◌≢◌, refl, Option, some, none, true, false, Bool, String, arith, ap,
}
use ffi_rpc.Ext.Libs.{Libs}
use ffi_rpc.Types.{Element, is_refcounted}
use ffi_rpc.World.{World, Prec, Object, a_struct, a_sizedbuf, a_function}
use ffi_rpc.Struct.{prec_get, tracked_count}
use ffi_rpc.Struct.Observe.{
  Kind, kind, kind_of, slot, element_in, recorded, tracked, IsValidCtx?, Fits?,
}

abbrev pub nothing_pending : ℕ → String → Bool
nothing_pending s k = false

module _ {L : Libs} where
  -- Every element that counts references is recorded by the pointer that it holds, but where a
  -- removal is under way (`pending`); and all that a tracked pointer records is there: a live struct
  -- that holds the pointer under that key.
  pub record Inv (pending : ℕ → String → Bool) (w : World L) : Type 0 where
    pub forward :
        (s : ℕ) (k : String) (e : Element)
        → slot w s k ≡ some e
        → is_refcounted e.type ≡ true
        → pending s k ≡ false
        → 0 < recorded w e.word k s
    pub backward :
        (p : ℕ) (k : String) (a : ℕ)
        → a ≢ 0
        → 0 < recorded w p k a
        → (e : Element) × (slot w a k ≡ some e) × (e.word ≡ p) × (is_refcounted e.type ≡ true)
    pub valid : (p : ℕ) (r : Prec L) → prec_get p w ≡ some r → IsValidCtx? r.context
    pub fits : (p : ℕ) (r : Prec L) → prec_get p w ≡ some r → Fits? r.context (kind w p)
    pub null : kind w 0 ≡ Kind.absent

  -- A memory in which no removal is under way.
  abbrev pub IsConsistent : World L → Type 0
  IsConsistent w = Inv nothing_pending w

  -- From `w` to `w'` references were only dropped, and only tracked objects freed.
  pub record Shrinks (w w' : World L) : Type 0 where
    pub records :
        (p : ℕ) (k : String) (a : ℕ) → a ≢ 0 → 0 < recorded w' p k a → 0 < recorded w p k a
    pub elements : (s : ℕ) (k : String) (e : Element) → slot w' s k ≡ some e → slot w s k ≡ some e
    pub structs : (s : ℕ) → tracked w s ≡ false → kind w s ≡ Kind.struct → kind w' s ≡ Kind.struct
    pub untracked : (s : ℕ) → tracked w s ≡ false → tracked w' s ≡ false
    pub count : tracked_count w' ≤ tracked_count w

  pub Shrinks-refl : (w : World L) → Shrinks w w
  Shrinks-refl w = record {
    records = λ p k a nz h. h;
    elements = λ s k e h. h;
    structs = λ s u h. h;
    untracked = λ s u. u;
    count = omega arith;
  }

  pub Shrinks-trans : {u v w : World L} → Shrinks u v → Shrinks v w → Shrinks u w
  Shrinks-trans f g = record {
    records = λ p k a nz h. f.records p k a nz (g.records p k a nz h);
    elements = λ s k e h. f.elements s k e (g.elements s k e h);
    structs = λ s u h. g.structs s (f.untracked s u) (f.structs s u h);
    untracked = λ s u. g.untracked s (f.untracked s u);
    count = omega (arith, f.count, g.count);
  }

  -- Whoever holds an element is a struct.
  pub kind-of_element :
      (x : Option (Object L)) (k : String) (e : Element)
      → element_in k x ≡ some e
      → kind_of x ≡ Kind.struct
  kind-of_element none k e h = absurd (ground arith)
  kind-of_element (some (a_struct o)) k e h = refl
  kind-of_element (some (a_sizedbuf b)) k e h = absurd (ground arith)
  kind-of_element (some (a_function f)) k e h = absurd (ground arith)

  pub Inv-nonnull :
      {pending : ℕ → String → Bool} {w : World L}
      → Inv pending w
      → (s : ℕ) (k : String) (e : Element) → slot w s k ≡ some e
      → s ≢ 0
  Inv-nonnull {w} inv s k e h z =
      ground (arith, kind-of_element (w.heap s) k e h, inv.null, ap (kind w) z)
