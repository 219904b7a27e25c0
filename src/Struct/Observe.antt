-- ===== src/Struct/Observe.antt =====
-- What the proofs see of a memory: the elements of the structs, the kinds of the objects, and what
-- the tracked pointers record; and how the small steps change each of them.
use ffi_rpc.Base.{
  ℕ, ◌≡◌, refl, inl, inr, Option, some, none, Bool, String, nat_eq, string_eq, ◌==◌, if◌then◌else◌,
  ◌&&◌, Bool-cases, nat_beq_iff, arith, is_some,
}
use ffi_rpc.Ext.Libs.{Libs}
use ffi_rpc.Types.{Element, FreeFn, no_free, free_struct, free_sizedbuf, free_function}
use ffi_rpc.World.{
  World, Object, a_struct, a_sizedbuf, a_function, RpcStruct, PtrCtx, Prec, set_prec, set_struct,
}
use ffi_rpc.World.Cmd.{ok}
use ffi_rpc.Struct.{prec_get, untrack, load, unlink}
use ffi_rpc.Struct.Recorded.{recorded_at, IsValidCtx}

pub data Kind : Type 0 where
  absent struct sizedbuf function : Kind

-- The object is one that its free function expects.
abbrev pub Fits : FreeFn → Kind → Type 0
Fits no_free k = Unit
Fits free_struct k = k ≡ Kind.struct
Fits free_sizedbuf k = k ≡ Kind.sizedbuf
Fits free_function k = k ≡ Kind.function

module _ {L : Libs} where
  abbrev pub kind_of : Option (Object L) → Kind
  kind_of none = Kind.absent
  kind_of (some (a_struct o)) = Kind.struct
  kind_of (some (a_sizedbuf b)) = Kind.sizedbuf
  kind_of (some (a_function f)) = Kind.function

  abbrev pub element_in : String → Option (Object L) → Option Element
  element_in k none = none
  element_in k (some (a_struct o)) = L.by_name.get o.map k
  element_in k (some (a_sizedbuf b)) = none
  element_in k (some (a_function f)) = none

  abbrev pub kind : World L → ℕ → Kind
  kind w p = kind_of (w.heap p)

  -- The element that struct `s` holds under `k`, if `s` is a struct and holds one.
  abbrev pub slot : World L → ℕ → String → Option Element
  slot w s k = element_in k (w.heap s)

  abbrev pub recorded_of : String → ℕ → Option (Prec L) → ℕ
  recorded_of k a none = 0
  recorded_of k a (some r) = recorded_at k a r.context

  -- How often pointer `p` records that struct `a` holds it under `k`.
  abbrev pub recorded : World L → ℕ → String → ℕ → ℕ
  recorded w p k a = recorded_of k a (prec_get p w)

  abbrev pub tracked : World L → ℕ → Bool
  tracked w p = is_some (prec_get p w)

  abbrev pub IsValidCtx? : Option (PtrCtx L) → Type 0
  IsValidCtx? none = Unit
  IsValidCtx? (some x) = IsValidCtx x

  abbrev pub Fits? : Option (PtrCtx L) → Kind → Type 0
  Fits? none k = Unit
  Fits? (some x) k = Fits x.free k

  -- Loading.
  pub struct_of_kind :
      (x : Option (Object L))
      → kind_of x ≡ Kind.struct
      → (o : RpcStruct L) × (x ≡ some (a_struct o))
  struct_of_kind none h = absurd (ground arith)
  struct_of_kind (some (a_struct o)) h = (o, refl)
  struct_of_kind (some (a_sizedbuf b)) h = absurd (ground arith)
  struct_of_kind (some (a_function f)) h = absurd (ground arith)

  pub load-ok :
      (s : ℕ) (w : World L) (o : RpcStruct L) → w.heap s ≡ some (a_struct o) → load s w ≡ ok o w
  unfolding load
  load-ok s w o h = rw (h, load) refl

  -- `hashmap_remove` on a struct.
  abbrev pub unlinked : World L → ℕ → RpcStruct L → String → World L
  unlinked w s o k = set_struct s (record o { map = L.by_name.remove o.map k }) w

  pub unlink-ok :
      (s : ℕ) (k : String) (w : World L) (o : RpcStruct L)
      → w.heap s ≡ some (a_struct o)
      → unlink s k w ≡ ok tt (unlinked w s o k)
  unfolding unlink
  unlink-ok s k w o h = rw (load-ok s w o h) refl

  pub slot-unlinked :
      (w : World L) (s : ℕ) (o : RpcStruct L) (k : String)
      → w.heap s ≡ some (a_struct o)
      → (a : ℕ) (j : String)
      → slot (unlinked w s o k) a j ≡ (if (s == a) && (k == j) then none else slot w a j)
  slot-unlinked w s o k h a j = elim (Bool-cases (s == a)) [
    | inl e ↦ rw (e) (rw (L.by_name.get-remove o.map k j) (rw (← (nat_beq_iff s a).0 e, h) refl))
    | inr e ↦ rw e refl
  ]

  pub kind-unlinked :
      (w : World L) (s : ℕ) (o : RpcStruct L) (k : String)
      → w.heap s ≡ some (a_struct o)
      → (a : ℕ) → kind (unlinked w s o k) a ≡ kind w a
  kind-unlinked w s o k h a = elim (Bool-cases (s == a)) [
    | inl e ↦ rw e (rw (← (nat_beq_iff s a).0 e, h) refl)
    | inr e ↦ rw e refl
  ]

  pub prec_get-untrack :
      (p q : ℕ) (w : World L) → prec_get q (untrack p w) ≡ (if p == q then none else prec_get q w)
  prec_get-untrack p q w = L.by_ptr.get-remove w.ptracker p q

  pub prec_get-set_prec :
      (p q : ℕ) (r s : Prec L) (w : World L)
      → prec_get p w ≡ some r
      → prec_get q (set_prec p s w) ≡ (if p == q then some s else prec_get q w)
  prec_get-set_prec p q r s w h = L.by_ptr.get-store w.ptracker p q r s h
