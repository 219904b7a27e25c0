-- ===== src/Struct/Session.antt =====
-- Sequences of calls of src/rpc_struct.c on one memory, and which calls are allowed.
use ffi_rpc.Base.{
  ℕ, subst, Bool-cases, Option-cases, is_some, ap, ◌≡◌, ◌≢◌, refl, ◌⊎◌, inl, inr, some, none, true,
  false, String, arith, [],
}
use ffi_rpc.Ext.Libs.{Libs}
use ffi_rpc.Types.{Element, is_refcounted, freefn_of}
use ffi_rpc.World.{World, Prec}
use ffi_rpc.World.Cmd.{Run, ok, pure, ◌>>◌}
use ffi_rpc.Struct.{Cmd}
use ffi_rpc.Struct.Observe.{Kind, kind, slot, tracked, Fits}
use ffi_rpc.Struct.Invariant.{IsConsistent}
use ffi_rpc.Struct.Api.{create, set_internal, remove, free, storable}
use ffi_rpc.Struct.Store.{set_internal-Stored, set_internal-refuses, IsRefused, unstorable-null}
use ffi_rpc.Struct.Safety.{create-Created, remove-Removed, free-Released}

-- The calls that change structs.
pub data Call : Type 0 where
  creates : ℕ → String → Call
  sets : ℕ → String → Element → Call
  removes : ℕ → String → Call
  frees : ℕ → Call

module _ {L : Libs} where
  unfoldable pub perform : Call → Cmd L ℕ
  unfolding create set_internal remove free
  perform (creates fresh id) = create fresh id
  perform (sets s k e) = set_internal s k e
  perform (removes s k) = remove s k
  perform (frees p) = do free p; pure 0

  -- What a caller has to see to: `malloc` returns memory that is not in use, a struct is alive, a
  -- pointer in an element is of the element's type, and keys are removed from structs that no other
  -- struct counts.
  abbrev pub Allowed : World L → Call → Type 0
  Allowed w (creates fresh id) =
      (fresh ≢ 0) × (kind w fresh ≡ Kind.absent) × (tracked w fresh ≡ false)
  Allowed w (sets s k e) =
      (kind w s ≡ Kind.struct)
      × (storable e ≡ true → is_refcounted e.type ≡ true → Fits (freefn_of e.type) (kind w e.word))
  Allowed w (removes s k) = (kind w s ≡ Kind.struct) × (tracked w s ≡ false)
  Allowed w (frees p) = (p ≢ 0) × ((tracked w p ≡ true) ⊎ (kind w p ≡ Kind.struct))

  -- A sequence of allowed calls, each of which returned.
  pub data Session (w : World L) : World L → Type 0 where
    start : Session w w
    call :
        {u v : World L} (c : Call) (result : ℕ)
        → Session w u
        → Allowed u c
        → perform c u ≡ ok result v
        → Session w v

  -- The outcome of a call that returns.
  pub record Performed (m : Run (World L) ℕ) : Type 0 where
    pub result : ℕ
    pub world : World L
    pub runs : m ≡ ok result world
    pub consistent : IsConsistent world

  sets-Performed :
      (s : ℕ) (k : String) (e : Element) (w : World L)
      → IsConsistent w
      → kind w s ≡ Kind.struct
      → (storable e ≡ true → is_refcounted e.type ≡ true → Fits (freefn_of e.type) (kind w e.word))
      → Performed (set_internal s k e w)
  sets-Performed s k e w inv is fits =
      let refused : IsRefused s k e w → Performed _ = λ why. record {
        result = 1;
        world = w;
        runs = set_internal-refuses s k e w is why;
        consistent = inv;
      } in
      elim (Bool-cases (storable e)) [
        | inr null ↦ refused (inr (unstorable-null e null))
        | inl ready ↦ elim (Option-cases (slot w s k)) [
          | inr (old, at) ↦ refused (inl (ap is_some at))
          | inl absent ↦
              let r = set_internal-Stored s k e w inv is absent ready (fits ready) in
              record { result = 0; world = r.world; runs = r.runs; consistent = r.consistent }
        ]
      ]

  pub perform-Performed :
      (c : Call) (w : World L) → IsConsistent w → Allowed w c → Performed (perform c w)
  unfolding perform
  perform-Performed (creates fresh id) w inv a =
      let r = create-Created w fresh id inv a.0 a.1 a.2 in
      record { result = fresh; world = r.world; runs = r.runs; consistent = r.consistent }
  perform-Performed (sets s k e) w inv a = sets-Performed s k e w inv a.0 a.1
  perform-Performed (removes s k) w inv a =
      let r = remove-Removed w s k inv a.0 a.1 in
      record { result = r.result; world = r.world; runs = r.runs; consistent = r.inv }
  perform-Performed (frees p) w inv a =
      let r = free-Released w p inv a.0 a.1 in
      record { result = 0; world = r.world; runs = rw r.runs refl; consistent = r.consistent }

  -- The memory of a process that has made no struct yet.
  abbrev pub empty_world : World L
  empty_world = record { ptracker = L.by_ptr.init (Prec L); heap = λ p. none; destroyed = [] }

  pub empty_world-IsConsistent : IsConsistent empty_world
  empty_world-IsConsistent = record {
    forward = λ s k e at counts settled. absurd (ground arith);
    backward = λ p k a nz h. absurd (ground (arith, L.by_ptr.get-init (Prec L) p));
    valid = λ p r h. absurd (ground (arith, L.by_ptr.get-init (Prec L) p));
    fits = λ p r h. absurd (ground (arith, L.by_ptr.get-init (Prec L) p));
    null = refl;
  }

  Performed-IsConsistent :
      {m : Run (World L) ℕ} {result : ℕ} {v : World L}
      → Performed m
      → m ≡ ok result v
      → IsConsistent v
  Performed-IsConsistent {v} r e =
      let same : r.world ≡ v = ground (arith, r.runs, e) in subst IsConsistent same r.consistent

  pub Session-IsConsistent : {w v : World L} → IsConsistent w → Session w v → IsConsistent v
  Session-IsConsistent inv start = inv
  Session-IsConsistent inv (call {u} c result before a e) =
      Performed-IsConsistent (perform-Performed c u (Session-IsConsistent inv before) a) e

  -- From an empty memory, whatever sequence of allowed calls of create, set, remove and free was
  -- made before, the next allowed call returns: it touches no freed object, does not run out of
  -- fuel, and leaves the memory consistent. A call is allowed if malloc returns unused memory,
  -- the struct is alive, a counted pointer is of the type its element says, a key is removed from
  -- a struct that no other struct counts, and a freed pointer is tracked or a live struct.
  pub Session-Performed :
      {w : World L} → Session empty_world w → (c : Call) → Allowed w c → Performed (perform c w)
  Session-Performed {w} before c a =
      perform-Performed c w (Session-IsConsistent empty_world-IsConsistent before) a

  -- In every memory that a sequence of allowed calls reaches from the empty one, an element that
  -- counts references refers to a tracked pointer.
  pub Session-tracked :
      {w : World L}
      → Session empty_world w
      → (s : ℕ) (k : String) (e : Element) → slot w s k ≡ some e
      → is_refcounted e.type ≡ true
      → tracked w e.word ≡ true
  Session-tracked {w} before s k e at c =
      let inv = Session-IsConsistent empty_world-IsConsistent before in
      ground (arith, inv.forward s k e at c)
