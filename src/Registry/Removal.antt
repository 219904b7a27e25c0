-- ===== src/Registry/Removal.antt =====
-- Removing an object by its name frees it, and takes it out of every struct.
use ffi_rpc.Base.{ℕ, ◌<◌, ◌^◌, ◌≡◌, ◌≢◌, refl, ap, ◌∙◌, true, some, String, string_eq, inl, arith}
use ffi_rpc.Types.{Element, rpc_struct, is_refcounted, is_pointer}
use ffi_rpc.Ext.Libs.{Libs}
use ffi_rpc.World.{World}
use ffi_rpc.World.Cmd.{Run, ok}
use ffi_rpc.Struct.Observe.{Kind, kind, slot, tracked}
use ffi_rpc.Struct.Invariant.{IsConsistent}
use ffi_rpc.Struct.Api.{free}
use ffi_rpc.Struct.Safety.{Released, free-Released}
use ffi_rpc.Typed.{ctype_to_rpc, size_of}
use ffi_rpc.Typed.RoundTrip.{get-fill, fill-bits}
use ffi_rpc.Registry.{Objects, struct_var, cobject_remove}

struct-is_refcounted : is_refcounted rpc_struct ≡ true
unfolding is_refcounted
struct-is_refcounted = refl

module _ {L : Libs} (g : Objects) (stack : L.queues.Queue ℕ) (name : String) (e : Element)
    (w : World L) where
  -- The outcome of a removal that succeeds.
  pub record Removed (m : Run (World L) ℕ) : Type 0 where
    pub released : Released e.word w (free e.word w)
    pub runs : m ≡ ok 0 released.world

  -- In a consistent memory, while no call runs, rpc_cobject_remove of a name under which the
  -- registry by name has a struct returns 0 and does to the memory what rpc_struct_free of that
  -- struct does: the memory is consistent, and no struct holds the struct any more.
  pub cobject_remove-Removed :
      IsConsistent w
      → L.queues.size stack ≡ 0
      → g.cobject_bname ≢ 0
      → kind w g.cobject_bname ≡ Kind.struct
      → slot w g.cobject_bname name ≡ some e
      → e.type ≡ rpc_struct
      → e.word ≢ 0
      → e.word < 256 ^ 8
      → Removed (cobject_remove g stack name w)
  unfolding cobject_remove ctype_to_rpc size_of is_pointer
  cobject_remove-Removed inv empty nz is at typed live range =
      let counts : is_refcounted e.type ≡ true = ap is_refcounted typed ∙ struct-is_refcounted in
      let held : tracked w e.word ≡ true =
        ground (arith, inv.forward g.cobject_bname name e at counts refl) in
      let r = free-Released w e.word inv live (inl held) in
      record {
        released = r;
        runs =
            rw
              (
                empty,
                get-fill g.cobject_bname name (struct_var 0) e w nz is at typed,
                fill-bits (struct_var 0) e refl (ap is_pointer typed) range (omega arith),
                r.runs,
              )
              refl;
      }
